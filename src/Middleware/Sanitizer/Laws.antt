-- ===== src/Middleware/Sanitizer/Laws.antt =====
-- How long what the sanitizer lets out may be, and how much of a secret is shown.
use kaf_claw.Base.{
  is_nonpos, pos_part, ◌+◌, ◌-◌, ◌≤◌, Text, lit, trim_space, length, length-append, length-take,
  length-drop, take, drop, true, false, ◌++◌, ◌≡◌, arith,
}
use kaf_claw.Middleware.{ChatResponse, RequestMeta}
use kaf_claw.Middleware.Detectors.{redact}
use kaf_claw.Middleware.Sanitizer.{OutputSanitizer, sanitize, mask_secret, truncation_note}

-- With a limit, an answer that is let out is at most 39 bytes longer than it.
pub sanitize-bound :
    (s : OutputSanitizer) (resp : ChatResponse) (meta : RequestMeta)
    → s.enabled ≡ true
    → is_nonpos s.max_output_length ≡ false
    → length (sanitize s resp meta).0.content ≤ pos_part s.max_output_length + 39
unfolding sanitize
sanitize-bound s resp meta e n = ground (
  arith,
  length-append (take (pos_part s.max_output_length) (redact s.detector resp.content))
      truncation_note,
  length-append (take (pos_part s.max_output_length) resp.content) truncation_note,
  length-take (pos_part s.max_output_length) (redact s.detector resp.content),
  length-take (pos_part s.max_output_length) resp.content,
)

-- A masked secret is at most 11 bytes; one of at most 8, without the blanks around it, shows nothing.
pub mask_secret-bound :
    (s : Text)
    → (length (mask_secret s) ≤ 11) × (length (trim_space s) ≤ 8 → mask_secret s ≡ lit "***")
unfolding mask_secret
mask_secret-bound s = (
  ground (
    arith,
    length-append (take 4 (trim_space s))
        (lit "..." ++ drop (length (trim_space s) - 4) (trim_space s)),
    length-take 4 (trim_space s),
    length-drop (length (trim_space s) - 4) (trim_space s),
  ),
  λ h. ground arith,
)
