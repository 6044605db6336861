-- ===== src/Knowledge/Handler.antt =====
-- `Process` of internal/group/knowledge_handler.go. A message is what encoding/json makes of it: no
-- envelope, or an envelope with its payload read at each of the four governed types. The timeline
-- event that is added at the end is not modelled, nor the log.
pub mod Laws
use kaf_claw.Base.{
  ℤ, Text, lit, text_eq, is_empty, trim_space, to_lower, equal_fold, any, Bool, true, false, not,
  ◌&&◌, Option, none, some, List, [], ◌∷◌, if◌then◌else◌,
}
use kaf_claw.Knowledge.Contracts.{
  ContractError, Envelope, validate_base, ProposalPayload, validate_proposal, VotePayload,
  validate_vote, DecisionPayload, validate_decision, FactPayload, validate_fact, normalize,
}
use kaf_claw.Knowledge.Facts.{
  FactState, FactStatus, accepted, stale, conflict, FactApplyResult, evaluate_fact_apply,
}
use kaf_claw.Knowledge.Store.{
  FactRecord, ProposalRecord, VoteRecord, Store, record_idempotency, get_fact, upsert_fact,
  get_proposal, create_proposal, upsert_vote, update_decision,
}

pub record Message : Type 0 where
  pub envelope : Envelope
  pub proposal : Option ProposalPayload
  pub vote : Option VotePayload
  pub decision : Option DecisionPayload
  pub fact : Option FactPayload

pub data HandlerError : Type 0 where
  unmarshal : HandlerError
  invalid_envelope : ContractError → HandlerError
  unmarshal_payload : HandlerError
  invalid_payload : ContractError → HandlerError

-- What became of a message that is no error.
pub data Outcome : Type 0 where
  skipped_ungoverned skipped_own skipped_seen : Outcome
  not_stored : Outcome
  applied : FactStatus → Outcome

pub data Result : Type 0 where
  ok : Outcome → Result
  err : HandlerError → Result

-- `store` is none where the handler has no timeline.
pub record Handler : Type 0 where
  pub store : Option Store
  pub local_id : Text
  pub governance_enabled : Bool

unfoldable pub new_handler : Option Store → Text → Bool → Handler
new_handler store claw_id governed = record {
  store = store;
  local_id = trim_space claw_id;
  governance_enabled = governed;
}

unfoldable pub is_governed_type : Text → Bool
is_governed_type t =
    any (text_eq (normalize t)) (lit "proposal" ∷ lit "vote" ∷ lit "decision" ∷ lit "fact" ∷ [])

abbrev pub proposal_record : Envelope → ProposalPayload → ProposalRecord
proposal_record e p = record {
  proposal_id = p.proposal_id;
  group_name = p.group;
  title = trim_space p.title;
  statement = trim_space p.statement;
  tags = p.tags;
  proposer_claw_id = trim_space e.claw_id;
  proposer_instance_id = trim_space e.instance_id;
  status = lit "pending";
  yes_votes = ℤ.pos 0;
  no_votes = ℤ.pos 0;
  reason = [];
}

unfoldable pub apply_proposal : Envelope → Option ProposalPayload → Store → Result × Store
apply_proposal e none s = (err unmarshal_payload, s)
apply_proposal e (some p) s = elim (validate_proposal p) [
  | some why ↦ (err (invalid_payload why), s)
  | none ↦ elim (get_proposal p.proposal_id s) [
    | some _ ↦ (ok (applied accepted), s)
    | none ↦ (ok (applied accepted), create_proposal (proposal_record e p) s)
  ]
]

abbrev pub vote_record : Envelope → VotePayload → VoteRecord
vote_record e p = record {
  proposal_id = p.proposal_id;
  claw_id = trim_space e.claw_id;
  instance_id = trim_space e.instance_id;
  vote = normalize p.vote;
  reason = trim_space p.reason;
  trace_id = trim_space e.trace_id;
}

unfoldable pub apply_vote : Envelope → Option VotePayload → Store → Result × Store
apply_vote e none s = (err unmarshal_payload, s)
apply_vote e (some p) s = elim (validate_vote p) [
  | some why ↦ (err (invalid_payload why), s)
  | none ↦ (ok (applied accepted), upsert_vote (vote_record e p) s)
]

unfoldable pub apply_decision : Option DecisionPayload → Store → Result × Store
apply_decision none s = (err unmarshal_payload, s)
apply_decision (some p) s = elim (validate_decision p) [
  | some why ↦ (err (invalid_payload why), s)
  | none ↦ (
    ok (applied accepted),
    update_decision (trim_space p.proposal_id) (normalize p.outcome) p.yes_votes p.no_votes
        (trim_space p.reason) s,
  )
]

abbrev pub fact_state : FactRecord → FactState
fact_state r = record {
  fact_id = r.fact_id;
  subject = r.subject;
  predicate = r.predicate;
  object = r.object;
  version = r.version;
}

abbrev pub known_fact : Option FactRecord → Option FactState
known_fact none = none
known_fact (some r) = some (fact_state r)

abbrev pub fact_record : FactPayload → FactRecord
fact_record p = record {
  fact_id = p.fact_id;
  group_name = p.group;
  subject = p.subject;
  predicate = p.predicate;
  object = p.object;
  version = p.version;
  source = p.source;
  proposal_id = p.proposal_id;
  decision_id = p.decision_id;
  tags = p.tags;
}

-- The write behind `result.Status == FactApplyAccepted`.
abbrev pub store_fact : FactStatus → FactPayload → Store → Store
store_fact accepted p s = upsert_fact (fact_record p) s
store_fact stale p s = s
store_fact conflict p s = s

unfoldable pub apply_fact : Option FactPayload → Store → Result × Store
apply_fact none s = (err unmarshal_payload, s)
apply_fact (some p) s = elim (validate_fact p) [
  | some why ↦ (err (invalid_payload why), s)
  | none ↦
      let status = (evaluate_fact_apply (known_fact (get_fact p.fact_id s)) p).status in
      (ok (applied status), store_fact status p s)
]

-- The `switch` on the type; presence and capabilities have no table.
unfoldable pub apply : Message → Store → Result × Store
apply m s =
    let kind = m.envelope.kind in
    if text_eq kind (lit "proposal")
    then apply_proposal m.envelope m.proposal s
    else if text_eq kind (lit "vote")
    then apply_vote m.envelope m.vote s
    else if text_eq kind (lit "decision")
    then apply_decision m.decision s
    else if text_eq kind (lit "fact")
    then apply_fact m.fact s
    else (ok (applied accepted), s)

-- The part of `Process` behind its guards: the key is recorded first, then the payload is applied.
unfoldable pub store_message : Message → Store → Result × Store
store_message m s =
    let (inserted, s') = record_idempotency m.envelope.idempotency_key m.envelope.kind s in
    if inserted then apply m s' else (ok skipped_seen, s')

abbrev pub with_store : Handler → Result × Store → Result × Handler
with_store h (r, s) = (r, record h { store = some s })

unfoldable pub is_own : Handler → Envelope → Bool
is_own h e = not (is_empty h.local_id) && equal_fold (trim_space e.claw_id) h.local_id

unfoldable pub process : Handler → Option Message → Result × Handler
process h none = (err unmarshal, h)
process h (some m) = elim (validate_base m.envelope) [
  | some why ↦ (err (invalid_envelope why), h)
  | none ↦
      if not h.governance_enabled && is_governed_type m.envelope.kind
      then (ok skipped_ungoverned, h)
      else if is_own h m.envelope
      then (ok skipped_own, h)
      else elim h.store [ none ↦ (ok not_stored, h) | some s ↦ with_store h (store_message m s) ]
]
