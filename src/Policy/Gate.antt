-- ===== src/Policy/Gate.antt =====
-- The gate in front of every tool call: `checkToolPolicy`, with `parseApprovalResponse`, of
-- internal/agent/loop.go. The log row, the audit event and the prompt that it publishes are not
-- modelled: nothing that it decides depends on them.
pub mod Laws
use kaf_claw.Base.{
  ℤ, pos, Text, lit, trim_space, strip_prefix, is_empty, Bool, true, false, Option, none, some,
  List, [], ◌∷◌, if◌then◌else◌, ◌&&◌, ◌++◌,
}
use kaf_claw.Policy.{Context, Decision, Engine, Reason, tier_read_only}
use kaf_claw.Approval.{Manager, create, respond, wait, Waited, answered, context_done, not_pending}
use kaf_claw.Approval.Laws.{respond_all}

pub data Verdict : Type 0 where
  run : Verdict
  denied_by_policy : Reason → Verdict
  approval_timeout : Verdict
  approval_denied : Verdict

-- The outcome of `Wait`; both of its errors read as a timeout.
abbrev pub after_wait : Waited → Verdict
after_wait (answered true) = run
after_wait (answered false) = approval_denied
after_wait context_done = approval_timeout
after_wait not_pending = approval_timeout

-- The loop's fields that the gate reads. `tier_of` is the registry: none for an unknown tool.
pub record Loop : Type 0 where
  pub policy : Option Engine
  pub tier_of : Text → Option ℤ
  pub approvals : Option Manager
  pub has_bus : Bool
  pub sender : Text
  pub channel : Text
  pub trace_id : Text
  pub message_type : Text

abbrev pub tier_or_read_only : Option ℤ → ℤ
tier_or_read_only none = tier_read_only
tier_or_read_only (some t) = t

abbrev pub policy_context : Loop → Text → Context
policy_context l tool = record {
  sender = l.sender;
  channel = l.channel;
  tool = tool;
  tier = tier_or_read_only (l.tier_of tool);
  trace_id = l.trace_id;
  message_type = l.message_type;
}

-- The approval gate for what is denied. `answers` are the calls of `Respond` for the request that
-- come in before the approval timeout, in order.
unfoldable pub ask : Loop → Decision → Text → List Bool → Verdict × Loop
unfolding create respond_all wait
ask l decision id answers = elim l.approvals [
  | none ↦ (denied_by_policy decision.reason, l)
  | some m ↦
      let (outcome, m') = wait id (respond_all id answers (create id m)) in
      if decision.requires_approval && l.has_bus
      then (after_wait outcome, record l { approvals = some m' })
      else (denied_by_policy decision.reason, l)
]

unfoldable pub check_tool_policy : Loop → Text → Text → List Bool → Verdict × Loop
unfolding ask
check_tool_policy l tool id answers = elim l.policy [
  | none ↦ (run, l)
  | some engine ↦
      let decision = engine (policy_context l tool) in
      if decision.allow then (run, l) else ask l decision id answers
]

-- The id that follows a prefix, if it is not empty.
unfoldable pub response_id : Text → Text → Option Text
unfolding strip_prefix trim_space
response_id word text = elim (strip_prefix text word) [
  | none ↦ none
  | some rest ↦ let id = trim_space rest in if is_empty id then none else some id
]

unfoldable pub parse_approval_response : Text → Option (Text × Bool)
unfolding response_id
parse_approval_response content =
    let trimmed = trim_space content in
    elim (response_id (lit "approve:") trimmed) [
      | some id ↦ some (id, true)
      | none ↦ elim (response_id (lit "deny:") trimmed) [ none ↦ none | some id ↦ some (id, false) ]
    ]

-- The reply that the prompt asks for.
abbrev pub reply : Text → Bool → Text
reply id true = lit "approve:" ++ id
reply id false = lit "deny:" ++ id
