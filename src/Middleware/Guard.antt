-- ===== src/Middleware/Guard.antt =====
-- `PromptGuard` of internal/provider/middleware/promptguard.go.
pub mod Laws
use kaf_claw.Base.{
  ℕ, Text, lit, text_eq, is_empty, any, insert, join, Bool, true, false, not, ◌&&◌, ◌||◌, Option,
  none, some, List, [], ◌∷◌, ◌++◌, if◌then◌else◌,
}
use kaf_claw.Middleware.{ChatMessage, ChatRequest, ChatResponse, RequestMeta, ChatMiddleware}
use kaf_claw.Middleware.Detectors.{Detector, scan, redact, contains_keywords}

pub record PromptGuard : Type 0 where
  pub enabled : Bool
  pub mode : Text
  pub pii_action : Text
  pub secrets_action : Text
  pub detector : Detector
  pub deny_keywords : List Text

abbrev is_pii_type : Text → Bool
is_pii_type t =
    any (λ k. text_eq t k)
      (lit "email" ∷ lit "phone" ∷ lit "ssn" ∷ lit "credit_card" ∷ lit "ip_address" ∷ [])

abbrev is_secret_type : Text → Bool
is_secret_type t =
    any (λ k. text_eq t k)
      (lit "api_key" ∷ lit "bearer_token" ∷ lit "private_key" ∷ lit "password_literal" ∷ [])

-- The types, each once, in the order in which they appear.
unfoldable pub match_types : List Text → List Text → List Text
match_types seen [] = []
match_types seen (t ∷ ts) =
    let rest = match_types (t ∷ seen) ts in
    let same = match_types seen ts in if any (λ s. text_eq s t) seen then same else t ∷ rest

abbrev nonempty {ℓ} : {A : Type ℓ} → List A → Bool
nonempty [] = false
nonempty (_ ∷ _) = true

-- What is done for the types that were found: the action of the secrets, if it is set and one was found,
-- goes before that of personal data, and that before the mode.
unfoldable pub action_for : PromptGuard → List Text → Text
action_for g types =
    let base = if is_empty g.mode then lit "warn" else g.mode in
    let pii = if not (is_empty g.pii_action) && any is_pii_type types then g.pii_action else base in
    if not (is_empty g.secrets_action) && any is_secret_type types then g.secrets_action else pii

pub data Verdict : Type 0 where
  leaves : Verdict
  denies : List Text → Verdict
  blocks : List Text → Verdict
  redacts : Verdict
  warns : Verdict

abbrev by_action : Text → List Text → Verdict
by_action action types =
    if text_eq action (lit "block")
    then blocks types
    else if text_eq action (lit "redact")
    then redacts
    else warns

abbrev by_types : PromptGuard → List Text → Verdict
by_types g [] = leaves
by_types g (t ∷ ts) = by_action (action_for g (t ∷ ts)) (match_types [] (t ∷ ts))

abbrev by_keywords : PromptGuard → Text → List Text → Verdict
by_keywords g content [] = by_types g (scan g.detector content)
by_keywords g content (kw ∷ kws) = denies (kw ∷ kws)

-- What is to be done about one message.
unfoldable pub judge : PromptGuard → ChatMessage → Verdict
judge g msg =
    if text_eq msg.role (lit "user")
    then by_keywords g msg.content (contains_keywords msg.content g.deny_keywords)
    else leaves

abbrev stop : Text → RequestMeta → RequestMeta
stop reason meta = record meta { blocked = true; block_reason = reason }

abbrev pub tagged : Text → RequestMeta → RequestMeta
tagged tag meta = record meta { tags = insert (lit "prompt_guard") tag meta.tags }

abbrev pub redacted : PromptGuard → ChatMessage → ChatMessage
redacted g msg = record msg { content = redact g.detector msg.content }

abbrev pub before : ChatMessage → List ChatMessage × RequestMeta → List ChatMessage × RequestMeta
before msg r = (msg ∷ r.0, r.1)

unfoldable pub guard_messages :
    PromptGuard → List ChatMessage → RequestMeta → List ChatMessage × RequestMeta
guard_messages g [] meta = ([], meta)
guard_messages g (msg ∷ msgs) meta =
    let same = guard_messages g msgs meta in
    let after_redaction = guard_messages g msgs (tagged (lit "redacted") meta) in
    let after_warning = guard_messages g msgs (tagged (lit "detected") meta) in
    elim (judge g msg) [
      | leaves ↦ before msg same
      | denies found ↦ (msg ∷ msgs, stop (lit "denied keyword(s): " ++ join found (lit ", ")) meta)
      | blocks types ↦
          (msg ∷ msgs, stop (lit "detected " ++ (join types (lit ", ") ++ lit " in message")) meta)
      | redacts ↦ before (redacted g msg) after_redaction
      | warns ↦ before msg after_warning
    ]

unfoldable pub guard_request : PromptGuard → ChatRequest → RequestMeta → ChatRequest × RequestMeta
guard_request g req meta =
    let (messages, meta') = guard_messages g req.messages meta in
    if g.enabled then (record req { messages = messages }, meta') else (req, meta)

abbrev pub prompt_guard : PromptGuard → ChatMiddleware
prompt_guard g = record {
  name = lit "prompt-guard";
  process_request = λ req meta. some (guard_request g req meta);
  process_response = λ req resp meta. some (resp, meta);
}
