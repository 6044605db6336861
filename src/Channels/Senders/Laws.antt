-- ===== src/Channels/Senders/Laws.antt =====
-- What appending to an allowlist does to the senders it allows.
use kaf_claw.Base.{
  Text, lit, text_eq, text_eq_iff, is_empty, trim_space, to_lower, equal_fold, any, trim_space_idem,
  is_empty-to_lower, Bool, true, false, not, ◌&&◌, ◌||◌, List, [], ◌∷◌, ◌++◌, ◌≡◌, inl, inr, sym,
  ap, ◌∙◌, arith, if◌then◌else◌, Bool-cases,
}
use kaf_claw.Channels.Senders.{
  normalize_channel, strip_slack, strip_msteams, normalize_allow_entry, allow_key,
  is_allowed_sender, append_unique,
}

-- An entry's key, from the entry trimmed and lowered.
abbrev key_of : Text → Text → Text
key_of channel low =
    if is_empty low
    then []
    else if text_eq (normalize_channel channel) (lit "slack")
    then to_lower (strip_slack low)
    else if text_eq (normalize_channel channel) (lit "msteams")
    then to_lower (strip_msteams low)
    else low

allow_key_lem :
    (channel raw : Text) → allow_key channel raw ≡ key_of channel (to_lower (trim_space raw))
unfolding normalize_allow_entry
allow_key_lem channel raw = ground (arith, is_empty-to_lower (trim_space raw))

-- Entries that are equal but for case and outer white space have one key.
pub allow_key-fold :
    (channel a b : Text)
    → to_lower (trim_space a) ≡ to_lower (trim_space b)
    → allow_key channel a ≡ allow_key channel b
allow_key-fold channel a b h =
    allow_key_lem channel a ∙ (ap (key_of channel) h ∙ sym (allow_key_lem channel b))

-- The test of one entry, in the loop.
abbrev matches : Text → Text → Text → Bool
matches channel key raw =
    not (is_empty (allow_key channel raw))
    && (text_eq (allow_key channel raw) (lit "*") || text_eq (allow_key channel raw) key)

any-matches_fold :
    (channel key value : Text) (items : List Text)
    → any (λ i. equal_fold (trim_space i) value) items ≡ true
    → allow_key channel value ≡ key
    → trim_space value ≡ value
    → is_empty key ≡ false
    → any (matches channel key) items ≡ true
unfolding equal_fold
any-matches_fold channel key value [] h e t n = ground arith
any-matches_fold channel key value (i ∷ items) h e t n =
    elim (Bool-cases (text_eq (to_lower (trim_space i)) (to_lower value))) [
      | inr differ ↦ ground (arith, any-matches_fold channel key value items)
      | inl same ↦ ground (
        arith,
        allow_key-fold channel i value
            ((text_eq_iff (to_lower (trim_space i)) (to_lower value)).0 same ∙ ap to_lower (sym t)),
        text_eq_iff (allow_key channel i) key,
      )
    ]

trim_space-strip_slack : (v : Text) → trim_space (strip_slack v) ≡ strip_slack v
unfolding strip_slack
trim_space-strip_slack v = trim_space_idem _

trim_space-strip_msteams : (v : Text) → trim_space (strip_msteams v) ≡ strip_msteams v
unfolding strip_msteams
trim_space-strip_msteams v = trim_space_idem _

trim_space-normalize :
    (channel raw : Text)
    → trim_space (normalize_allow_entry channel raw) ≡ normalize_allow_entry channel raw
unfolding normalize_allow_entry
trim_space-normalize channel raw = ground (
  arith,
  trim_space_idem raw,
  trim_space-strip_slack (to_lower (trim_space raw)),
  trim_space-strip_msteams (to_lower (trim_space raw)),
)

key_stands :
    (channel key : Text) (value : Text)
    → allow_key channel value ≡ key
    → is_empty key ≡ false
    → matches channel key value ≡ true
key_stands channel key value e n = ground (arith, text_eq_iff (allow_key channel value) key)

any_appended :
    (channel key value : Text) (items : List Text)
    → allow_key channel value ≡ key
    → is_empty key ≡ false
    → any (matches channel key) (items ++ value ∷ []) ≡ true
any_appended channel key value [] e n = ground (arith, key_stands channel key value e n)
any_appended channel key value (i ∷ items) e n =
    ground (arith, any_appended channel key value items e n)

any_after_append :
    (channel key value : Text) (items : List Text)
    → allow_key channel value ≡ key
    → trim_space value ≡ value
    → is_empty key ≡ false
    → is_empty value ≡ false
    → any (matches channel key) (append_unique items value) ≡ true
unfolding append_unique
any_after_append channel key value items e t n v =
    ground
      (arith, any_appended channel key value items e n, any-matches_fold channel key value items)

-- A sender is allowed once its normal form is appended, provided that the normal form is one that
-- normalizing leaves alone, and not empty.
pub is_allowed_sender-append_unique :
    (channel sender : Text) (allow : List Text)
    → let n = normalize_allow_entry channel sender in
      is_empty n ≡ false
      → normalize_allow_entry channel n ≡ n
      → is_allowed_sender channel (append_unique allow n) sender ≡ true
unfolding is_allowed_sender
is_allowed_sender-append_unique channel sender allow h e =
    let n = normalize_allow_entry channel sender in
    let key = is_empty-to_lower n ∙ h in
    ground (
      arith,
      key,
      any_after_append channel (to_lower n) n allow (ap to_lower e)
          (trim_space-normalize channel sender) key h,
    )
