-- ===== src/Knowledge/Handler/Laws/Facts.antt =====
-- The shared facts over every sequence of messages.
use kaf_claw.Base.{
  ℤ, pos, ◌≤ℤ◌, ◌<ℤ◌, Text, text_eq, text_eq_iff, lookup, insert, lookup-insert, Option, none, some,
  List, [], ◌∷◌, ◌≡◌, ◌⊎◌, inl, inr, refl, ap, arith, if◌then◌else◌, Option-cases, Bool-cases,
}
use kaf_claw.Knowledge.Contracts.{
  Envelope, ProposalPayload, VotePayload, DecisionPayload, FactPayload, validate_fact,
}
use kaf_claw.Knowledge.Facts.{FactStatus, accepted, stale, conflict, evaluate_fact_apply}
use kaf_claw.Knowledge.Facts.Laws.{accepted_iff, next_version}
use kaf_claw.Knowledge.Store.{
  Store, record_idempotency, get_fact, upsert_fact, create_proposal, upsert_vote, update_decision,
  FactRecord,
}
use kaf_claw.Knowledge.Handler.{
  Message, Handler, apply_proposal, apply_vote, apply_decision, apply_fact, store_fact, apply,
  store_message, process, fact_record, known_fact,
}

-- The record of a fact that a handler holds.
abbrev pub fact_of : Text → Handler → Option FactRecord
fact_of id h = elim h.store [ none ↦ none | some s ↦ get_fact id s ]

abbrev pub version_of : Option FactRecord → ℤ
version_of none = pos 0
version_of (some r) = r.version

-- One step of a fact: nothing, or the record of the next version.
abbrev pub Advances : Option FactRecord → Option FactRecord → Type 0
Advances old new =
    (new ≡ old) ⊎ ((r : FactRecord) × (new ≡ some r) × (r.version ≡ next_version (known_fact old)))

get_fact-upsert :
    (id : Text) (p : FactPayload) (s : Store)
    → get_fact id (upsert_fact (fact_record p) s)
      ≡ (if text_eq p.fact_id id then some (fact_record p) else get_fact id s)
unfolding get_fact upsert_fact
get_fact-upsert id p s = lookup-insert id p.fact_id (fact_record p) s.facts

store_fact-Advances :
    (id : Text) (p : FactPayload) (st : FactStatus) (s : Store)
    → (evaluate_fact_apply (known_fact (get_fact p.fact_id s)) p).status ≡ st
    → Advances (get_fact id s) (get_fact id (store_fact st p s))
store_fact-Advances id p stale s e = inl refl
store_fact-Advances id p conflict s e = inl refl
store_fact-Advances id p accepted s e = elim (Bool-cases (text_eq p.fact_id id)) [
  | inr other ↦ inl (ground (arith, get_fact-upsert id p s))
  | inl same ↦ inr (
    fact_record p,
    ground (arith, get_fact-upsert id p s),
    ground
        (arith, (accepted_iff (known_fact (get_fact p.fact_id s)) p).0 e, text_eq_iff p.fact_id id),
  )
]

apply_fact-Advances :
    (id : Text) (p : Option FactPayload) (s : Store)
    → Advances (get_fact id s) (get_fact id (apply_fact p s).1)
unfolding apply_fact
apply_fact-Advances id none s = inl refl
apply_fact-Advances id (some p) s = elim (Option-cases (validate_fact p)) [
  | inl e ↦ rw (e, apply_fact) (store_fact-Advances id p _ s refl)
  | inr (why, e) ↦ inl (ground arith)
]

facts-apply_proposal :
    (e : Envelope) (p : Option ProposalPayload) (s : Store)
    → (apply_proposal e p s).1.facts ≡ s.facts
unfolding apply_proposal create_proposal
facts-apply_proposal e p s = ground arith

facts-apply_vote :
    (e : Envelope) (p : Option VotePayload) (s : Store) → (apply_vote e p s).1.facts ≡ s.facts
unfolding apply_vote upsert_vote
facts-apply_vote e p s = ground arith

facts-apply_decision :
    (p : Option DecisionPayload) (s : Store) → (apply_decision p s).1.facts ≡ s.facts
unfolding apply_decision update_decision
facts-apply_decision p s = ground arith

Advances-of_same :
    (id : Text) (s s' : Store) → s'.facts ≡ s.facts → Advances (get_fact id s) (get_fact id s')
unfolding get_fact
Advances-of_same id s s' e = inl (ap (lookup id) e)

apply-Advances :
    (id : Text) (m : Message) (s : Store) → Advances (get_fact id s) (get_fact id (apply m s).1)
unfolding apply
apply-Advances id m s = ground (
  arith,
  Advances-of_same id s (apply_proposal m.envelope m.proposal s).1
      (facts-apply_proposal m.envelope m.proposal s),
  Advances-of_same id s (apply_vote m.envelope m.vote s).1 (facts-apply_vote m.envelope m.vote s),
  Advances-of_same id s (apply_decision m.decision s).1 (facts-apply_decision m.decision s),
  apply_fact-Advances id m.fact s,
)

store_message-Advances :
    (id : Text) (m : Message) (s : Store)
    → Advances (get_fact id s) (get_fact id (store_message m s).1)
unfolding store_message record_idempotency get_fact
store_message-Advances id m s = elim (Option-cases (lookup m.envelope.idempotency_key s.seen)) [
  | inr (k, e) ↦ inl (ground arith)
  | inl e ↦
      rw (e, store_message, record_idempotency)
        (apply-Advances id m
          (record s { seen = insert m.envelope.idempotency_key m.envelope.kind s.seen }))
]

-- A message leaves every fact as it is, or gives one the record of its next version: 1 where the
-- fact is new, else one more than the version that was held.
pub process-Advances :
    (id : Text) (h : Handler) (m : Option Message)
    → Advances (fact_of id h) (fact_of id (process h m).1)
unfolding process
process-Advances id h none = inl refl
process-Advances id h (some m) = elim (Option-cases h.store) [
  | inl e ↦ inl (ground arith)
  | inr (s, e) ↦ ground (arith, store_message-Advances id m s)
]

unfoldable pub process_all : Handler → List (Option Message) → Handler
process_all h [] = h
process_all h (m ∷ ms) = process_all (process h m).1 ms

abbrev Newer : Option FactRecord → Option FactRecord → Type 0
Newer old new = (new ≡ old) ⊎ (version_of old <ℤ version_of new)

Newer-of_Advances : (old new : Option FactRecord) → Advances old new → Newer old new
Newer-of_Advances none new a = ground arith
Newer-of_Advances (some r) new a = ground arith

process_all-Newer :
    (id : Text) (h : Handler) (ms : List (Option Message))
    → Newer (fact_of id h) (fact_of id (process_all h ms))
unfolding process_all
process_all-Newer id h [] = inl refl
process_all-Newer id h (m ∷ ms) = ground (
  arith,
  Newer-of_Advances (fact_of id h) (fact_of id (process h m).1) (process-Advances id h m),
  process_all-Newer id (process h m).1 ms,
)

-- Over any sequence of messages the version of a fact never falls, and while it stays the record
-- stays: no message rewrites what was accepted as a version.
pub process_all-versions :
    (id : Text) (h : Handler) (ms : List (Option Message))
    → (version_of (fact_of id h) ≤ℤ version_of (fact_of id (process_all h ms)))
      × (version_of (fact_of id (process_all h ms)) ≡ version_of (fact_of id h)
          → fact_of id (process_all h ms) ≡ fact_of id h)
process_all-versions id h ms = ground (arith, process_all-Newer id h ms)
