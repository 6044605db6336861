-- ===== src/Channels/Scopes/Laws.antt =====
-- The round trip of an account through a chat id, and which messages share a session.
use kaf_claw.Base.{
  ℕ, ◌==◌, Text, lit, text_eq, text_eq_iff, is_empty, trim_space, trim_left, trim_right, to_lower,
  is_space, has_prefix, trim_prefix, strip_prefix, trim_space_idem, trimmed_ends, to_lower_idem,
  to_lower-trim_space, is_empty-to_lower, any, true, false, some, [], ◌∷◌, ◌++◌, ◌≡◌, ◌≢◌, ◌↔◌,
  refl, ap, arith,
}
use kaf_claw.Channels.Scopes.{
  account_id_or_default, with_account_chat, split_at_byte, parse_account_chat, account_chat_prefix,
  build_session_scope, with_part, or_text,
}

split_at_byte-append :
    (b : ℕ) (l r : Text) → any (λ c. c == b) l ≡ false → split_at_byte b (l ++ b ∷ r) ≡ some (l, r)
unfolding split_at_byte
split_at_byte-append b [] r h = ground arith
split_at_byte-append b (c ∷ l) r h = ground (arith, split_at_byte-append b l r)

-- Trimming on the right stops in the second part, where that part is not all white space.
trim_right-append :
    (s t : Text) → is_empty (trim_right t) ≡ false → trim_right (s ++ t) ≡ s ++ trim_right t
unfolding trim_right
trim_right-append [] t h = refl
trim_right-append (c ∷ s) t h = ground (arith, trim_right-append s t h, filled s)
  where
    filled : (u : Text) → is_empty (u ++ trim_right t) ≡ false
    filled [] = h
    filled (d ∷ u) = refl

default_trimmed : trim_space (lit "default") ≡ lit "default"
unfolding trim_space trim_left trim_right is_space
default_trimmed = refl

default_lowered : to_lower (lit "default") ≡ lit "default"
unfolding to_lower
default_lowered = refl

-- An account's id is its own normal form.
account_id_or_default_idem :
    (account : Text)
    → account_id_or_default (account_id_or_default account) ≡ account_id_or_default account
unfolding account_id_or_default
account_id_or_default_idem account = ground (
  arith,
  to_lower-trim_space (trim_space account),
  trim_space_idem account,
  to_lower_idem (trim_space account),
  is_empty-to_lower (trim_space account),
  default_trimmed,
  default_lowered,
)

-- A text that ends in one that trimming leaves alone is left alone on the right.
ends_trimmed :
    (s t : Text)
    → is_empty t ≡ false
    → trim_right t ≡ t
    → (trim_right (s ++ t) ≡ s ++ t) × (is_empty (s ++ t) ≡ false)
ends_trimmed s t n e = (ground (arith, trim_right-append s t), filled s)
  where
    filled : (u : Text) → is_empty (u ++ t) ≡ false
    filled [] = n
    filled (d ∷ u) = refl

bar_trimmed : (chat : Text) → trim_right chat ≡ chat → trim_right (b'|' ∷ chat) ≡ b'|' ∷ chat
unfolding trim_right is_space
bar_trimmed chat e = ground arith

-- The text that `withAccountChat` writes for an account that is not the default one.
abbrev tagged : Text → Text → Text
tagged id chat = account_chat_prefix ++ (id ++ b'|' ∷ chat)

trim_space-tagged :
    (id chat : Text) → trim_space chat ≡ chat → trim_space (tagged id chat) ≡ tagged id chat
unfolding trim_space trim_left is_space
trim_space-tagged id chat e =
    let bar = bar_trimmed chat (trimmed_ends chat e).1 in
    let inner = ends_trimmed id (b'|' ∷ chat) refl bar in
    (ends_trimmed account_chat_prefix (id ++ b'|' ∷ chat) inner.1 inner.0).0

tagged-has_prefix :
    (id chat : Text) → has_prefix (to_lower (tagged id chat)) account_chat_prefix ≡ true
unfolding to_lower has_prefix
tagged-has_prefix id chat = refl

trim_prefix-tagged :
    (id chat : Text) → trim_prefix (tagged id chat) account_chat_prefix ≡ id ++ b'|' ∷ chat
unfolding trim_prefix strip_prefix
trim_prefix-tagged id chat = refl

-- An account and a chat that are written in one chat id are read back from it, the account in its
-- normal form and the chat trimmed, where the chat is not blank and the account is not the default
-- one and has no bar in it.
pub parse_account_chat-with_account_chat :
    (account chat : Text)
    → let id = account_id_or_default account in
      id ≢ lit "default"
      → any (λ c. c == b'|') id ≡ false
      → is_empty (trim_space chat) ≡ false
      → parse_account_chat (with_account_chat account chat) ≡ (id, trim_space chat)
unfolding parse_account_chat with_account_chat
parse_account_chat-with_account_chat account chat n b c =
    let id = account_id_or_default account in
    let trimmed = trim_space chat in
    ground (
      arith,
      text_eq_iff id (lit "default"),
      trim_space-tagged id trimmed (trim_space_idem chat),
      tagged-has_prefix id trimmed,
      trim_prefix-tagged id trimmed,
      split_at_byte-append b'|' id trimmed b,
      trim_space_idem chat,
      account_id_or_default_idem account,
    )

append_cancel : (s t u : Text) → s ++ t ≡ s ++ u → t ≡ u
append_cancel [] t u e = e
append_cancel (c ∷ s) t u e = append_cancel s t u (ground arith)

abbrev account_scope : Text → Text → Text
account_scope channel account =
    with_part (or_text (trim_space (to_lower channel)) (lit "channel"))
      (account_id_or_default account)

user_scope :
    (channel account chat thread sender mode : Text)
    → to_lower (trim_space mode) ≡ lit "user"
    → is_empty (trim_space sender) ≡ false
    → build_session_scope channel account chat thread sender mode
      ≡ with_part (account_scope channel account) (trim_space sender)
unfolding build_session_scope text_eq
user_scope channel account chat thread sender mode m n = ground arith

with_part_iff : (scope s t : Text) → (with_part scope s ≡ with_part scope t) ↔ (s ≡ t)
with_part_iff scope s t =
    (λ e. ground (arith, append_cancel scope (b':' ∷ s) (b':' ∷ t) e), λ e. ap (with_part scope) e)

-- In the mode for users, two messages of one channel and one account, whose senders are not blank,
-- share a session just where the senders are the same but for outer white space.
pub build_session_scope-user_iff :
    (channel account chat chat' thread thread' sender sender' mode : Text)
    → to_lower (trim_space mode) ≡ lit "user"
    → is_empty (trim_space sender) ≡ false
    → is_empty (trim_space sender') ≡ false
    → (build_session_scope channel account chat thread sender mode
        ≡ build_session_scope channel account chat' thread' sender' mode)
      ↔ (trim_space sender ≡ trim_space sender')
build_session_scope-user_iff channel account chat chat' thread thread' sender sender' mode m n n' =
    rw
      (
        user_scope channel account chat thread sender mode m n,
        user_scope channel account chat' thread' sender' mode m n',
      )
      (with_part_iff (account_scope channel account) (trim_space sender) (trim_space sender'))
