-- ===== src/Policy/Tests.antt =====
-- Runs of the engine, the subagent policy and the gate.
use kaf_claw.Base.{
  ℕ, ◌<ℤ◌, ℤ, pos, Text, lit, text_eq, lookup, insert, delete, trim_space, has_prefix, strip_prefix,
  strip_suffix, true, false, none, some, [], ◌∷◌, ◌≡◌, ◌≢◌, ◌↔◌, ◌⊎◌, refl,
}
use kaf_claw.Policy.{
  Context, DefaultEngine, new_default_engine, evaluate, is_listed, is_external, is_refused_sender,
  tier_requires_approval, tier_denied_for_external_message, sender_not_authorized,
}
use kaf_claw.Policy.Subagent.{
  match_tool_pattern, tool_denied_by_policy, SubagentPolicy, at_spawn_limit,
}
use kaf_claw.Policy.Subagent
use kaf_claw.Policy.Subagent.Laws.{Permitted, evaluate-le-base}
use kaf_claw.Policy.Gate.{
  Loop, run, approval_denied, approval_timeout, check_tool_policy, policy_context,
  parse_approval_response, reply,
}
use kaf_claw.Policy.Gate.Laws.{is_approved, check_tool_policy-run_iff, parse-reply}
use kaf_claw.Approval.{
  new_manager, create, find, send, receive, give_up, respond, wait, cleanup, set_status,
  cleanup_stale,
}
use kaf_claw.Approval.Laws.{respond_all}

strings : Unit {0}
unfolding text_eq lookup insert delete trim_space has_prefix strip_prefix strip_suffix
strings = tt

engine : Unit {0}
unfolding evaluate is_refused_sender is_external is_listed new_default_engine strings
engine = tt

gate : Unit {0}
unfolding engine check_tool_policy create respond_all find send receive give_up respond wait cleanup
    set_status new_manager cleanup_stale
gate = tt

abbrev call : Text → ℤ → Text → Context
call sender tier kind = record {
  sender = sender;
  channel = lit "slack";
  tool = lit "exec";
  tier = tier;
  trace_id = lit "t1";
  message_type = kind;
}

abbrev guarded : DefaultEngine
guarded = record {
  max_auto_tier = pos 1;
  external_max_tier = pos 0;
  allowed_senders = (lit "ann", true) ∷ [];
}

abbrev open_engine : DefaultEngine
open_engine = record guarded { max_auto_tier = pos 2 }

decisions :
    ((evaluate new_default_engine (call (lit "ann") (pos 2) (lit "internal"))).reason
      ≡ tier_requires_approval (pos 2))
    × ((evaluate new_default_engine (call (lit "ann") (pos 1) (lit "external"))).reason
        ≡ tier_denied_for_external_message (pos 1))
    × ((evaluate guarded (call (lit "bob") (pos 1) (lit "internal"))).reason
        ≡ sender_not_authorized (lit "bob"))
    × ((evaluate guarded (call (lit "bob") (pos 0) (lit "external"))).allow ≡ true)
unfolding engine
decisions = (refl, refl, refl, refl)

patterns :
    (match_tool_pattern (lit "web_fetch") (lit "web_*") ≡ true)
    × (match_tool_pattern (lit "exec") (lit "web_*") ≡ false)
    × (tool_denied_by_policy (lit " exec ") (lit "exec" ∷ []) (lit "*" ∷ []) ≡ true)
    × (tool_denied_by_policy (lit "exec") [] (lit "read_file" ∷ []) ≡ true)
    × (tool_denied_by_policy (lit "exec") [] [] ≡ false)
unfolding strings match_tool_pattern tool_denied_by_policy
patterns = (refl, refl, refl, refl, refl)

abbrev child : SubagentPolicy
child = record {
  base = some (evaluate guarded);
  depth = some (1, pos 1);
  allow_list = [];
  deny_list = lit "web_*" ∷ [];
}

evaluate-le-base_example :
    let ctx = call (lit "ann") (pos 1) (lit "internal") in
    ((Subagent.evaluate child ctx).allow ≡ true) ↔ (
      ((evaluate guarded ctx).allow ≡ true)
      × Permitted ctx.tool child.deny_list child.allow_list
      × ((ctx.tool ≡ lit "sessions_spawn")
          → (depth : ℕ) (max : ℤ) → child.depth ≡ some (depth, max)
          → pos depth <ℤ max))
evaluate-le-base_example =
    evaluate-le-base child (evaluate guarded) (call (lit "ann") (pos 1) (lit "internal")) refl

abbrev loop : Loop
loop = record {
  policy = some (evaluate guarded);
  tier_of = λ _. some (pos 2);
  approvals = some (new_manager (some []));
  has_bus = true;
  sender = lit "ann";
  channel = lit "slack";
  trace_id = lit "t1";
  message_type = lit "internal";
}

gate_runs :
    ((check_tool_policy loop (lit "exec") (lit "a1") (true ∷ false ∷ [])).0 ≡ run)
    × ((check_tool_policy loop (lit "exec") (lit "a1") (false ∷ true ∷ [])).0 ≡ approval_denied)
    × ((check_tool_policy loop (lit "exec") (lit "a1") []).0 ≡ approval_timeout)
unfolding gate
gate_runs = (refl, refl, refl)

check_tool_policy-run_iff_example :
    ((check_tool_policy loop (lit "exec") (lit "a1") (true ∷ [])).0 ≡ run) ↔ (
      ((evaluate guarded (policy_context loop (lit "exec"))).allow ≡ true)
      ⊎ (((evaluate guarded (policy_context loop (lit "exec"))).requires_approval ≡ true)
          × (loop.has_bus ≡ true)
          × (loop.approvals ≢ none)
          × (is_approved (true ∷ []) ≡ true)))
check_tool_policy-run_iff_example =
    check_tool_policy-run_iff loop (evaluate guarded) (lit "exec") (lit "a1") (true ∷ []) refl

parse-reply_example : parse_approval_response (reply (lit "a1") true) ≡ some (lit "a1", true)
unfolding strings
parse-reply_example = parse-reply (lit "a1") true (λ e. cc) refl
