-- ===== src/Channels/Tests.antt =====
-- Runs of the access policy, of pairing and of the scopes.
use kaf_claw.Base.{
  ℕ, Text, lit, text_eq, is_empty, trim_space, to_lower, to_upper, trim_prefix, strip_prefix,
  has_prefix, equal_fold, true, false, some, List, [], ◌∷◌, ◌≡◌, ◌↔◌, ◌⊎◌, inr, refl,
}
use kaf_claw.Channels.Senders.{
  normalize_channel, normalize_code, normalize_allow_entry, is_allowed_sender, append_unique,
  strip_slack, strip_msteams,
}
use kaf_claw.Channels.Access.{
  AccessContext, AccessConfig, evaluate_access, evaluate_dm, grant, dm_allowlist_match,
}
use kaf_claw.Channels.Access.Laws.{GroupAdmits, DirectAdmits, evaluate_access-allowed_iff}
use kaf_claw.Channels.Pairing.{
  PendingPairing, Config, approve, take_pending, take_hit, filter_non_expired,
  create_or_get_pending, get_or_append, find_from, latest, add_channel_allow_from,
}
use kaf_claw.Channels.Pairing.Admission.{approve-admits}
use kaf_claw.Channels.Scopes.{
  account_id_or_default, with_account_chat, parse_account_chat, split_at_byte, build_session_scope,
}

senders : Unit {0}
unfolding text_eq trim_space to_lower to_upper trim_prefix strip_prefix equal_fold normalize_channel
    normalize_code normalize_allow_entry is_allowed_sender append_unique strip_slack strip_msteams
    evaluate_access evaluate_dm approve take_pending take_hit filter_non_expired
    create_or_get_pending get_or_append find_from latest add_channel_allow_from has_prefix
    account_id_or_default with_account_chat parse_account_chat split_at_byte build_session_scope
senders = tt

abbrev message : AccessContext
message = record { sender_id = lit " slack:U1 "; is_group = false; was_mentioned = false }

abbrev access : List Text → AccessConfig
access allow = record {
  channel = lit "slack";
  allow_from = allow;
  group_allow_from = [];
  dm_policy = [];
  group_policy = [];
  require_mention = true;
}

evaluate_access-allowed_iff_example : ((evaluate_access message (access [])).allowed ≡ true) ↔ (
    (is_empty (trim_space (lit " slack:U1 ")) ≡ false)
    × (((false ≡ true) × GroupAdmits message (access []))
        ⊎ ((false ≡ false) × DirectAdmits message (access []))))
evaluate_access-allowed_iff_example = evaluate_access-allowed_iff message (access [])

abbrev pairing : Text → Text → ℕ → PendingPairing
pairing sender code made = record {
  channel = lit "slack";
  sender_id = sender;
  code = code;
  created_at = made;
  expires_at = 100;
}

abbrev setting : List PendingPairing
setting = pairing (lit "slack:U1") (lit "AB") 1 ∷ pairing (lit "U2") (lit "CD") 2 ∷ []

abbrev config : Config
config = record { slack = []; msteams = []; whatsapp = [] }

abbrev approved_config : Config
approved_config = record { slack = lit "u1" ∷ []; msteams = []; whatsapp = [] }

approve-admits_example : evaluate_access message (access (lit "u1" ∷ [])) ≡ grant dm_allowlist_match
unfolding senders
approve-admits_example =
    approve-admits 50 (lit "Slack") (lit " ab ") config approved_config (some setting)
      (some (pairing (lit "U2") (lit "CD") 2 ∷ [])) (pairing (lit "slack:U1") (lit "AB") 1) message
      (access (lit "u1" ∷ [])) refl refl refl refl refl refl (inr refl)

-- The prefix is found in any case, but taken away in lower case only.
upper_prefix : parse_account_chat (lit "ACCT://work|C1") ≡ (lit "acct://work", lit "C1")
unfolding senders
upper_prefix = refl
