-- ===== src/Policy.antt =====
-- internal/policy/engine.go and the risk tiers of internal/tools/tool.go. `Decision.Ts` and
-- `Context.Arguments` are carried by the source and read by no decision; they are left out. The
-- formatted reasons are constructors that hold what the source formats.
pub mod Laws
pub mod Subagent
pub mod Gate
mod Tests
use kaf_claw.Base.{
  ℤ, pos, ltb_ℤ, eqb_ℤ, Text, lit, text_eq, is_empty, Table, lookup, Bool, true, false, not, ◌&&◌,
  Option, none, some, [], ◌∷◌, if◌then◌else◌,
}

-- The tiers are Go's `int`s, so a tier outside 0..2 can be declared.
abbrev pub tier_read_only : ℤ
tier_read_only = pos 0

abbrev pub tier_write : ℤ
tier_write = pos 1

abbrev pub tier_high_risk : ℤ
tier_high_risk = pos 2

pub record Context : Type 0 where
  pub sender : Text
  pub channel : Text
  pub tool : Text
  pub tier : ℤ
  pub trace_id : Text
  pub message_type : Text

pub data Reason : Type 0 where
  tier_0_always_allowed : Reason
  sender_not_authorized : Text → Reason
  tier_denied_for_external_message : ℤ → Reason
  tier_requires_approval : ℤ → Reason
  tier_auto_approved : ℤ → Reason
  subagent_tool_denied_by_policy : Reason
  subagent_spawn_depth_limit : Reason
  no_policy_engine : Reason

pub record Decision : Type 0 where
  pub allow : Bool
  pub requires_approval : Bool
  pub reason : Reason
  pub tier : ℤ
  pub trace_id : Text

-- The interface `Engine`.
abbrev pub Engine : Type 0
Engine = Context → Decision

pub record DefaultEngine : Type 0 where
  pub max_auto_tier : ℤ
  pub external_max_tier : ℤ
  pub allowed_senders : Table Bool

unfoldable pub new_default_engine : DefaultEngine
new_default_engine = record {
  max_auto_tier = pos 1;
  external_max_tier = pos 0;
  allowed_senders = [];
}

abbrev pub decide : Context → Bool → Bool → Reason → Decision
decide ctx allow ask why = record {
  allow = allow;
  requires_approval = ask;
  reason = why;
  tier = ctx.tier;
  trace_id = ctx.trace_id;
}

-- A Go map of Booleans: a missing key reads false.
unfoldable pub is_listed : Text → Table Bool → Bool
unfolding lookup text_eq
is_listed k m = elim (lookup k m) [ none ↦ false | some b ↦ b ]

abbrev pub has_entries {ℓ} : {A : Type ℓ} → Table A → Bool
has_entries [] = false
has_entries (_ ∷ _) = true

unfoldable pub is_external : Context → Bool
unfolding text_eq
is_external ctx = text_eq ctx.message_type (lit "external")

unfoldable pub is_refused_sender : DefaultEngine → Context → Bool
unfolding is_listed
is_refused_sender e ctx =
    has_entries e.allowed_senders
    && not (is_empty ctx.sender)
    && not (is_listed ctx.sender e.allowed_senders)

abbrev pub effective_max_tier : DefaultEngine → Bool → ℤ
effective_max_tier e external = if external then e.external_max_tier else e.max_auto_tier

unfoldable pub evaluate : DefaultEngine → Engine
evaluate e ctx =
    if eqb_ℤ ctx.tier tier_read_only
    then decide ctx true false tier_0_always_allowed
    else if is_refused_sender e ctx
    then decide ctx false false (sender_not_authorized ctx.sender)
    else if ltb_ℤ (effective_max_tier e (is_external ctx)) ctx.tier
    then (if is_external ctx
        then decide ctx false false (tier_denied_for_external_message ctx.tier)
        else decide ctx false true (tier_requires_approval ctx.tier))
    else decide ctx true false (tier_auto_approved ctx.tier)
