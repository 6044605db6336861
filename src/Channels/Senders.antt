-- ===== src/Channels/Senders.antt =====
-- The normal forms of internal/channels/pairing.go, by which allowlists compare senders.
pub mod Laws
use kaf_claw.Base.{
  Text, lit, text_eq, is_empty, trim_space, to_lower, to_upper, trim_prefix, equal_fold, any, Bool,
  true, false, ◌&&◌, ◌||◌, not, List, [], ◌∷◌, ◌++◌, if◌then◌else◌,
}

unfoldable pub normalize_channel : Text → Text
normalize_channel v =
    let low = to_lower (trim_space v) in if text_eq low (lit "teams") then lit "msteams" else low

unfoldable pub normalize_code : Text → Text
normalize_code v = to_upper (trim_space v)

-- What the `switch` does to a lowered, trimmed entry.
unfoldable pub strip_slack : Text → Text
strip_slack v = trim_space (trim_prefix (trim_prefix v (lit "slack:")) (lit "user:"))

unfoldable pub strip_msteams : Text → Text
strip_msteams v =
    trim_space
      (trim_prefix (trim_prefix (trim_prefix v (lit "msteams:")) (lit "teams:")) (lit "user:"))

unfoldable pub normalize_allow_entry : Text → Text → Text
normalize_allow_entry channel raw =
    let v = trim_space raw in
    if is_empty v
    then []
    else if text_eq (normalize_channel channel) (lit "slack")
    then strip_slack (to_lower v)
    else if text_eq (normalize_channel channel) (lit "msteams")
    then strip_msteams (to_lower v)
    else v

-- `isAllowedSender` of access_policy.go.
abbrev pub allow_key : Text → Text → Text
allow_key channel raw = to_lower (normalize_allow_entry channel raw)

unfoldable pub is_allowed_sender : Text → List Text → Text → Bool
is_allowed_sender channel allow sender =
    let s = allow_key channel sender in
    not (is_empty s)
    && any
        (λ raw.
          let v = allow_key channel raw in not (is_empty v) && (text_eq v (lit "*") || text_eq v s))
        allow

unfoldable pub append_unique : List Text → Text → List Text
append_unique items value =
    let v = trim_space value in
    if is_empty v || any (λ i. equal_fold (trim_space i) v) items then items else items ++ v ∷ []
