-- ===== src/Middleware/Sanitizer.antt =====
-- `OutputSanitizer` of internal/provider/middleware/sanitizer.go.
pub mod Laws
use kaf_claw.Base.{
  ℤ, is_nonpos, pos_part, ℕ, zero, suc, ◌-◌, leb, ltb, Text, lit, text_eq, trim_space, any, lookup,
  insert, length, take, drop, Bool, true, false, not, ◌&&◌, ◌||◌, Option, none, some, List, [], ◌∷◌,
  ◌++◌, if◌then◌else◌,
}
use kaf_claw.Middleware.{ChatRequest, ChatResponse, RequestMeta, ChatMiddleware}
use kaf_claw.Middleware.Detectors.{Detector, redact}

-- A deny pattern is whether it matches a text.
pub record OutputSanitizer : Type 0 where
  pub enabled : Bool
  pub redacts : Bool
  pub max_output_length : ℤ
  pub detector : Detector
  pub deny_patterns : List (Text → Bool)

abbrev tag : Text
tag = lit "output_sanitized"

abbrev pub denied_by : List (Text → Bool) → Text → Bool
denied_by patterns content = any (λ p. p content) patterns

abbrev tag_if : Bool → Text → RequestMeta → RequestMeta
tag_if true value meta = record meta { tags = insert tag value meta.tags }
tag_if false value meta = meta

abbrev is_tagged : RequestMeta → Bool
is_tagged meta = elim (lookup tag meta.tags) [ none ↦ false | some _ ↦ true ]

abbrev pub over_limit : OutputSanitizer → Text → Bool
over_limit s content =
    not (is_nonpos s.max_output_length) && ltb (pos_part s.max_output_length) (length content)

abbrev pub truncation_note : Text
truncation_note = lit "\n[truncated by output sanitizer]"

unfoldable pub sanitize : OutputSanitizer → ChatResponse → RequestMeta → ChatResponse × RequestMeta
sanitize s resp meta =
    let redacted = if s.redacts then redact s.detector resp.content else resp.content in
    let meta' = tag_if (not (text_eq redacted resp.content)) (lit "redacted") meta in
    let cut = take (pos_part s.max_output_length) redacted ++ truncation_note in
    if not s.enabled
    then (resp, meta)
    else if denied_by s.deny_patterns resp.content
    then (
      record resp { content = lit "[Response filtered by output sanitizer]" },
      tag_if true (lit "denied") meta,
    )
    else if over_limit s redacted
    then (record resp { content = cut }, tag_if (not (is_tagged meta')) (lit "truncated") meta')
    else (record resp { content = redacted }, meta')

unfoldable pub sanitize_text : OutputSanitizer → Text → Text
sanitize_text s text =
    let result = redact s.detector text in
    if denied_by s.deny_patterns text
    then lit "[Content filtered]"
    else if over_limit s result
    then take (pos_part s.max_output_length) result
    else result

unfoldable pub mask_secret : Text → Text
mask_secret s =
    let t = trim_space s in
    if leb (length t) 8 then lit "***" else take 4 t ++ (lit "..." ++ drop (length t - 4) t)

abbrev pub output_sanitizer : OutputSanitizer → ChatMiddleware
output_sanitizer s = record {
  name = lit "output-sanitizer";
  process_request = λ req meta. some (req, meta);
  process_response = λ req resp meta. some (sanitize s resp meta);
}
