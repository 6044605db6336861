-- ===== src/Channels/Pairing/Admission.antt =====
-- From an approved code to the messages of the sender who asked for it.
use kaf_claw.Base.{
  ℕ, Text, lit, text_eq, text_eq_iff, is_empty, trim_space, trim_space_idem, true, false, List, [],
  ◌≡◌, ◌⊎◌, arith, if◌then◌else◌,
}
use kaf_claw.Channels.Senders.{normalize_channel, normalize_allow_entry, is_allowed_sender}
use kaf_claw.Channels.Senders.Laws.{is_allowed_sender-append_unique}
use kaf_claw.Channels.Access.{
  AccessConfig, AccessContext, dm_allowlist_match, evaluate_access, evaluate_dm, grant,
}
use kaf_claw.Channels.Pairing.{
  Setting, ok, Config, added, add_channel_allow_from, approve, PendingPairing,
}

-- The allowlist of a channel, as the channel hands it to its access policy.
abbrev pub allow_from_of : Config → Text → List Text
allow_from_of cfg channel =
    if text_eq (normalize_channel channel) (lit "slack")
    then cfg.slack
    else if text_eq (normalize_channel channel) (lit "msteams")
    then cfg.msteams
    else if text_eq (normalize_channel channel) (lit "whatsapp")
    then cfg.whatsapp
    else []

is_empty-normalize :
    (channel raw : Text)
    → is_empty (normalize_allow_entry channel raw) ≡ false
    → is_empty (trim_space raw) ≡ false
unfolding normalize_allow_entry
is_empty-normalize channel raw h = ground arith

added-allows :
    (cfg cfg' : Config) (channel sender : Text)
    → add_channel_allow_from cfg channel sender ≡ added cfg'
    → let n = normalize_allow_entry channel sender in
      normalize_allow_entry channel n ≡ n
      → (is_empty n ≡ false)
        × (is_allowed_sender channel (allow_from_of cfg' channel) sender ≡ true)
unfolding add_channel_allow_from
added-allows cfg cfg' channel sender e h = ground (
  arith,
  is_allowed_sender-append_unique channel sender cfg.slack,
  is_allowed_sender-append_unique channel sender cfg.msteams,
  is_allowed_sender-append_unique channel sender cfg.whatsapp,
)

approve-added :
    (now : ℕ) (channel code : Text) (cfg cfg' : Config) (setting setting' : Setting)
    (entry : PendingPairing)
    → approve now channel code cfg setting ≡ (ok entry, (cfg', setting'))
    → add_channel_allow_from cfg entry.channel entry.sender_id ≡ added cfg'
unfolding approve
approve-added now channel code cfg cfg' setting setting' entry e = ground arith

-- Once a code is approved, a direct message from the sender of the entry is let in by the allowlist
-- that the approval changed, where the policy for direct messages is pairing (also by default) and
-- the sender's normal form is one that normalizing leaves alone.
pub approve-admits :
    (now : ℕ) (channel code : Text) (cfg cfg' : Config) (setting setting' : Setting)
    (entry : PendingPairing) (ctx : AccessContext) (access : AccessConfig)
    → approve now channel code cfg setting ≡ (ok entry, (cfg', setting'))
    → let n = normalize_allow_entry entry.channel entry.sender_id in
      normalize_allow_entry entry.channel n ≡ n
      → trim_space ctx.sender_id ≡ entry.sender_id
      → ctx.is_group ≡ false
      → access.channel ≡ entry.channel
      → access.allow_from ≡ allow_from_of cfg' entry.channel
      → (text_eq access.dm_policy (lit "pairing") ≡ true) ⊎ (is_empty access.dm_policy ≡ true)
      → evaluate_access ctx access ≡ grant dm_allowlist_match
unfolding evaluate_access evaluate_dm
approve-admits now channel code cfg cfg' setting setting' entry ctx access e h s g c a d =
    let (nonempty, allowed) =
      added-allows cfg cfg' entry.channel entry.sender_id
        (approve-added now channel code cfg cfg' setting setting' entry e) h in
    ground (
      arith,
      nonempty,
      allowed,
      is_empty-normalize entry.channel entry.sender_id nonempty,
      trim_space_idem ctx.sender_id,
      text_eq_iff access.dm_policy (lit "pairing"),
      text_eq_iff access.dm_policy (lit "disabled"),
      text_eq_iff access.dm_policy (lit "open"),
      text_eq_iff access.dm_policy (lit "allowlist"),
    )
