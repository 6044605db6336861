-- ===== src/Channels/Access/Laws.antt =====
-- Who the access policy lets in, and who it asks to pair.
use kaf_claw.Base.{lit, text_eq_iff, is_empty, trim_space, true, false, [], ◌≡◌, ◌↔◌, ◌⊎◌, arith}
use kaf_claw.Channels.Senders.{is_allowed_sender}
use kaf_claw.Channels.Access.{
  AccessContext, AccessConfig, evaluate_group, evaluate_dm, evaluate_access, or_else,
}

-- The ways in of a message of a group: the open policy, or the allowlist of groups (also by default).
abbrev pub GroupAdmits : AccessContext → AccessConfig → Type 0
GroupAdmits ctx cfg =
    ((cfg.require_mention ≡ false) ⊎ (ctx.was_mentioned ≡ true))
    × ((cfg.group_policy ≡ lit "open")
        ⊎ (((cfg.group_policy ≡ lit "allowlist") ⊎ (cfg.group_policy ≡ []))
            × (is_allowed_sender cfg.channel (or_else cfg.group_allow_from cfg.allow_from)
                  (trim_space ctx.sender_id)
                ≡ true)))

-- The ways in of a direct message: the open policy, or the allowlist, which pairing reads as well.
abbrev pub DirectAdmits : AccessContext → AccessConfig → Type 0
DirectAdmits ctx cfg =
    (cfg.dm_policy ≡ lit "open")
    ⊎ (((cfg.dm_policy ≡ lit "allowlist")
          ⊎ ((cfg.dm_policy ≡ lit "pairing") ⊎ (cfg.dm_policy ≡ [])))
        × (is_allowed_sender cfg.channel cfg.allow_from (trim_space ctx.sender_id) ≡ true))

-- A message is let in just where its sender is named and the policy of its kind admits it; any
-- policy but the documented ones admits nobody.
pub evaluate_access-allowed_iff :
    (ctx : AccessContext) (cfg : AccessConfig)
    → ((evaluate_access ctx cfg).allowed ≡ true) ↔ (
        (is_empty (trim_space ctx.sender_id) ≡ false)
        × (((ctx.is_group ≡ true) × GroupAdmits ctx cfg)
            ⊎ ((ctx.is_group ≡ false) × DirectAdmits ctx cfg)))
unfolding evaluate_access evaluate_group evaluate_dm
evaluate_access-allowed_iff ctx cfg = ground (
  arith,
  text_eq_iff cfg.group_policy (lit "disabled"),
  text_eq_iff cfg.group_policy (lit "open"),
  text_eq_iff cfg.group_policy (lit "allowlist"),
  text_eq_iff cfg.dm_policy (lit "disabled"),
  text_eq_iff cfg.dm_policy (lit "open"),
  text_eq_iff cfg.dm_policy (lit "allowlist"),
  text_eq_iff cfg.dm_policy (lit "pairing"),
)

-- Pairing is asked for just where a named sender that the allowlist does not have writes directly,
-- under the policy of pairing or with none named.
pub evaluate_access-requires_pairing_iff :
    (ctx : AccessContext) (cfg : AccessConfig)
    → ((evaluate_access ctx cfg).requires_pairing ≡ true) ↔ (
        (is_empty (trim_space ctx.sender_id) ≡ false)
        × ((ctx.is_group ≡ false)
            × (((cfg.dm_policy ≡ lit "pairing") ⊎ (cfg.dm_policy ≡ []))
                × (is_allowed_sender cfg.channel cfg.allow_from (trim_space ctx.sender_id)
                    ≡ false))))
unfolding evaluate_access evaluate_group evaluate_dm
evaluate_access-requires_pairing_iff ctx cfg = ground (
  arith,
  text_eq_iff cfg.dm_policy (lit "disabled"),
  text_eq_iff cfg.dm_policy (lit "open"),
  text_eq_iff cfg.dm_policy (lit "allowlist"),
  text_eq_iff cfg.dm_policy (lit "pairing"),
)
