-- ===== src/Policy/Subagent.antt =====
-- The policy that a subagent runs under: `subagentPolicy` of internal/agent/loop.go.
pub mod Laws
use kaf_claw.Base.{
  ℕ, ℤ, pos, leb_ℤ, Text, lit, text_eq, is_empty, trim_space, has_prefix, strip_suffix, any, Bool,
  true, false, not, ◌&&◌, Option, none, some, List, [], ◌∷◌, if◌then◌else◌, ◌||◌,
}
use kaf_claw.Policy.{
  Context, Decision, Engine, decide, subagent_tool_denied_by_policy, subagent_spawn_depth_limit,
  no_policy_engine,
}

unfoldable pub match_tool_pattern : Text → Text → Bool
unfolding text_eq has_prefix strip_suffix
match_tool_pattern name pattern =
    if is_empty pattern
    then false
    else if text_eq pattern (lit "*") || text_eq pattern name
    then true
    else elim (strip_suffix pattern (lit "*")) [ none ↦ false | some p ↦ has_prefix name p ]

abbrev pub is_nil {ℓ} : {A : Type ℓ} → List A → Bool
is_nil [] = true
is_nil (_ ∷ _) = false

unfoldable pub tool_denied_by_policy : Text → List Text → List Text → Bool
unfolding match_tool_pattern trim_space
tool_denied_by_policy tool deny allow =
    let name = trim_space tool in
    if is_empty name
    then false
    else if any (λ pattern. match_tool_pattern name (trim_space pattern)) deny
    then true
    else if is_nil allow
    then false
    else not (any (λ pattern. match_tool_pattern name (trim_space pattern)) allow)

-- `depth` is what `manager.currentDepth(p.session)` returns, with the limit of the manager; none
-- where the policy has no manager.
pub record SubagentPolicy : Type 0 where
  pub base : Option Engine
  pub depth : Option (ℕ × ℤ)
  pub allow_list : List Text
  pub deny_list : List Text

abbrev pub at_spawn_limit : Option (ℕ × ℤ) → Bool
at_spawn_limit none = false
at_spawn_limit (some (depth, max)) = leb_ℤ max (pos depth)

unfoldable pub evaluate : SubagentPolicy → Engine
unfolding tool_denied_by_policy
evaluate p ctx =
    if tool_denied_by_policy ctx.tool p.deny_list p.allow_list
    then decide ctx false false subagent_tool_denied_by_policy
    else if text_eq ctx.tool (lit "sessions_spawn") && at_spawn_limit p.depth
    then decide ctx false false subagent_spawn_depth_limit
    else elim p.base [ none ↦ decide ctx true false no_policy_engine | some engine ↦ engine ctx ]
