-- ===== src/Channels/Access.antt =====
-- internal/channels/access_policy.go. Policies are the strings of the configuration; an empty one is
-- the default, any other unknown one is invalid.
pub mod Laws
use kaf_claw.Base.{
  Text, lit, text_eq, is_empty, trim_space, Bool, true, false, not, ◌&&◌, ◌||◌, List, [], ◌∷◌,
  if◌then◌else◌,
}
use kaf_claw.Channels.Senders.{is_allowed_sender}

pub record AccessContext : Type 0 where
  pub sender_id : Text
  pub is_group : Bool
  pub was_mentioned : Bool

pub record AccessConfig : Type 0 where
  pub channel : Text
  pub allow_from : List Text
  pub group_allow_from : List Text
  pub dm_policy : Text
  pub group_policy : Text
  pub require_mention : Bool

pub data AccessReason : Type 0 where
  missing_sender_id mention_required group_policy_disabled group_policy_open : AccessReason
  group_allowlist_match group_allowlist_block invalid_group_policy : AccessReason
  dm_policy_disabled dm_policy_open dm_allowlist_match dm_allowlist_block : AccessReason
  dm_pairing_required invalid_dm_policy : AccessReason

pub record AccessDecision : Type 0 where
  pub allowed : Bool
  pub requires_pairing : Bool
  pub reason : AccessReason

abbrev pub grant : AccessReason → AccessDecision
grant r = record { allowed = true; requires_pairing = false; reason = r }

abbrev pub refuse : AccessReason → AccessDecision
refuse r = record { allowed = false; requires_pairing = false; reason = r }

abbrev pub ask_pairing : AccessDecision
ask_pairing = record { allowed = false; requires_pairing = true; reason = dm_pairing_required }

abbrev pub or_else : List Text → List Text → List Text
or_else [] other = other
or_else (a ∷ as') other = a ∷ as'

unfoldable pub evaluate_group : AccessConfig → Text → AccessDecision
evaluate_group cfg sender =
    if text_eq cfg.group_policy (lit "disabled")
    then refuse group_policy_disabled
    else if text_eq cfg.group_policy (lit "open")
    then grant group_policy_open
    else if is_empty cfg.group_policy || text_eq cfg.group_policy (lit "allowlist")
    then (if is_allowed_sender cfg.channel (or_else cfg.group_allow_from cfg.allow_from) sender
        then grant group_allowlist_match
        else refuse group_allowlist_block)
    else refuse invalid_group_policy

unfoldable pub evaluate_dm : AccessConfig → Text → AccessDecision
evaluate_dm cfg sender =
    if text_eq cfg.dm_policy (lit "disabled")
    then refuse dm_policy_disabled
    else if text_eq cfg.dm_policy (lit "open")
    then grant dm_policy_open
    else if text_eq cfg.dm_policy (lit "allowlist")
    then (if is_allowed_sender cfg.channel cfg.allow_from sender
        then grant dm_allowlist_match
        else refuse dm_allowlist_block)
    else if is_empty cfg.dm_policy || text_eq cfg.dm_policy (lit "pairing")
    then (if is_allowed_sender cfg.channel cfg.allow_from sender
        then grant dm_allowlist_match
        else ask_pairing)
    else refuse invalid_dm_policy

unfoldable pub evaluate_access : AccessContext → AccessConfig → AccessDecision
evaluate_access ctx cfg =
    let sender = trim_space ctx.sender_id in
    if is_empty sender
    then refuse missing_sender_id
    else if ctx.is_group
    then (if cfg.require_mention && not ctx.was_mentioned
        then refuse mention_required
        else evaluate_group cfg sender)
    else evaluate_dm cfg sender
