-- ===== src/Channels/Scopes.antt =====
-- internal/channels/account_routing.go and internal/channels/session_scope.go.
pub mod Laws
use kaf_claw.Base.{
  ℕ, ◌==◌, Text, lit, text_eq, is_empty, trim_space, to_lower, has_prefix, trim_prefix, Bool, true,
  false, Option, none, some, List, [], ◌∷◌, ◌++◌, if◌then◌else◌,
}

abbrev pub account_chat_prefix : Text
account_chat_prefix = lit "acct://"

unfoldable pub account_id_or_default : Text → Text
account_id_or_default account =
    let id = trim_space account in if is_empty id then lit "default" else to_lower id

unfoldable pub with_account_chat : Text → Text → Text
with_account_chat account chat_id =
    let chat = trim_space chat_id in
    let id = account_id_or_default account in
    if text_eq id (lit "default") then chat else account_chat_prefix ++ id ++ b'|' ∷ chat

abbrev pub cons_left : ℕ → Option (Text × Text) → Option (Text × Text)
cons_left c none = none
cons_left c (some (l, r)) = some (c ∷ l, r)

-- `strings.SplitN` in two at a byte; none where there is one part.
unfoldable pub split_at_byte : ℕ → Text → Option (Text × Text)
split_at_byte b [] = none
split_at_byte b (c ∷ s) =
    let rest = split_at_byte b s in if c == b then some ([], s) else cons_left c rest

abbrev pub account_chat : Text → Text → Text → Text × Text
account_chat raw account chat_id =
    let chat = trim_space chat_id in
    if is_empty chat then (lit "default", raw) else (account_id_or_default account, chat)

unfoldable pub parse_account_chat : Text → Text × Text
parse_account_chat text =
    let raw = trim_space text in
    if has_prefix (to_lower raw) account_chat_prefix
    then elim (split_at_byte b'|' (trim_prefix raw account_chat_prefix)) [
      | none ↦ (lit "default", raw)
      | some (account, chat_id) ↦ account_chat raw account chat_id
    ]
    else (lit "default", raw)

-- `or_text a b` is `a` where it is not empty.
abbrev pub or_text : Text → Text → Text
or_text [] other = other
or_text (c ∷ s) other = c ∷ s

abbrev pub with_part : Text → Text → Text
with_part scope part = scope ++ b':' ∷ part

unfoldable pub build_session_scope : Text → Text → Text → Text → Text → Text → Text
build_session_scope channel account_id chat_id thread_id sender_id mode =
    let ch = or_text (trim_space (to_lower channel)) (lit "channel") in
    let account = account_id_or_default account_id in
    let chat = trim_space chat_id in
    let thread = trim_space thread_id in
    let sender = or_text (trim_space sender_id) chat in
    let kind = to_lower (trim_space mode) in
    if text_eq kind (lit "channel")
    then ch
    else if text_eq kind (lit "account")
    then with_part ch account
    else if text_eq kind (lit "user")
    then with_part (with_part ch account) sender
    else if text_eq kind (lit "thread")
    then (if is_empty thread
        then with_part (with_part ch account) chat
        else with_part (with_part (with_part ch account) chat) thread)
    else with_part (with_part ch account) chat
