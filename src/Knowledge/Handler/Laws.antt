-- ===== src/Knowledge/Handler/Laws.antt =====
-- What the handler does to its tables, for every message and every sequence of messages.
pub mod Facts
pub mod Keys
pub mod Votes
use kaf_claw.Base.{
  not, ◌&&◌, ℤ, Text, lit, text_eq, text_eq_iff, text_eq_refl, lookup, insert, lookup-insert,
  is_empty, Bool, true, false, Option, none, some, List, [], ◌∷◌, ◌≡◌, ◌≢◌, ◌⊎◌, inl, inr, refl,
  sym, ap, ◌∙◌, arith, if◌then◌else◌, Option-cases, Bool-cases, is_some,
}
use kaf_claw.Knowledge.Contracts.{
  Envelope, ProposalPayload, VotePayload, DecisionPayload, FactPayload, validate_base,
}
use kaf_claw.Knowledge.Facts.{FactStatus, accepted, stale, conflict}
use kaf_claw.Knowledge.Store.{
  Store, record_idempotency, upsert_fact, create_proposal, upsert_vote, update_decision, FactRecord,
}
use kaf_claw.Knowledge.Handler.{
  Message, HandlerError, Outcome, skipped_ungoverned, skipped_own, skipped_seen, not_stored,
  applied, Result, ok, err, Handler, is_governed_type, apply_proposal, apply_vote, apply_decision,
  apply_fact, store_fact, apply, store_message, is_own, process, invalid_envelope, unmarshal,
  with_store,
}

seen-apply_proposal :
    (e : Envelope) (p : Option ProposalPayload) (s : Store) → (apply_proposal e p s).1.seen ≡ s.seen
unfolding apply_proposal create_proposal
seen-apply_proposal e p s = ground arith

seen-apply_vote :
    (e : Envelope) (p : Option VotePayload) (s : Store) → (apply_vote e p s).1.seen ≡ s.seen
unfolding apply_vote upsert_vote
seen-apply_vote e p s = ground arith

seen-apply_decision :
    (p : Option DecisionPayload) (s : Store) → (apply_decision p s).1.seen ≡ s.seen
unfolding apply_decision update_decision
seen-apply_decision p s = ground arith

seen-apply_fact : (p : Option FactPayload) (s : Store) → (apply_fact p s).1.seen ≡ s.seen
unfolding apply_fact upsert_fact
seen-apply_fact p s = ground arith

-- No operation but the recording of a key touches the table of keys.
seen-apply : (m : Message) (s : Store) → (apply m s).1.seen ≡ s.seen
unfolding apply
seen-apply m s = ground (
  arith,
  seen-apply_proposal m.envelope m.proposal s,
  seen-apply_vote m.envelope m.vote s,
  seen-apply_decision m.decision s,
  seen-apply_fact m.fact s,
)

-- A message whose key was recorded changes nothing any more, whether or not its payload could be
-- applied then: the second of two messages with one key is skipped.
pub store_message_twice :
    (m m' : Message) (s : Store)
    → m'.envelope.idempotency_key ≡ m.envelope.idempotency_key
    → let s' = (store_message m s).1 in store_message m' s' ≡ (ok skipped_seen, s')
unfolding store_message record_idempotency
store_message_twice m m' s e = elim (Option-cases (lookup m.envelope.idempotency_key s.seen)) [
  | inr (k, seen) ↦ ground arith
  | inl new ↦
      let s' = record s { seen = insert m.envelope.idempotency_key m.envelope.kind s.seen } in
      ground (
        arith,
        seen-apply m s',
        lookup-insert m.envelope.idempotency_key m.envelope.idempotency_key m.envelope.kind s.seen,
        text_eq_refl m.envelope.idempotency_key,
      )
]

seen-store_message :
    (key : Text) (m : Message) (s : Store)
    → is_some (lookup key s.seen) ≡ true
    → is_some (lookup key (store_message m s).1.seen) ≡ true
unfolding store_message record_idempotency
seen-store_message key m s e = ground (
  arith,
  seen-apply m (record s { seen = insert m.envelope.idempotency_key m.envelope.kind s.seen }),
  lookup-insert key m.envelope.idempotency_key m.envelope.kind s.seen,
)

abbrev seen_in : Text → Option Store → Bool
seen_in key none = false
seen_in key (some s) = is_some (lookup key s.seen)

-- A key that the handler's table holds.
abbrev pub is_seen : Text → Handler → Bool
is_seen key h = seen_in key h.store

pub process-is_seen :
    (key : Text) (h : Handler) (m : Option Message)
    → is_seen key h ≡ true
    → is_seen key (process h m).1 ≡ true
unfolding process
process-is_seen key h none e = e
process-is_seen key h (some m) e = elim (Option-cases h.store) [
  | inl n ↦ ground arith
  | inr (s, n) ↦ ground (arith, seen-store_message key m s)
]

-- A message of a key that is in the table changes nothing.
pub process-seen :
    (h : Handler) (m : Message)
    → is_seen m.envelope.idempotency_key h ≡ true
    → (process h (some m)).1 ≡ h
unfolding process store_message record_idempotency
process-seen h m e = elim (Option-cases h.store) [
  | inl n ↦ ground arith
  | inr (s, n) ↦ ground arith
]

-- A message that no guard turns away: its envelope is valid, governance is on or its type needs none, and
-- it is not the handler's own.
abbrev pub Passes : Handler → Message → Type 0
Passes h m =
    (validate_base m.envelope ≡ none)
    × ((not h.governance_enabled && is_governed_type m.envelope.kind ≡ false)
        × (is_own h m.envelope ≡ false))

pub process-records :
    (h : Handler) (m : Message)
    → is_some h.store ≡ true
    → Passes h m
    → is_seen m.envelope.idempotency_key (process h (some m)).1 ≡ true
unfolding process store_message record_idempotency
process-records h m st (v, (g, o)) = elim (Option-cases h.store) [
  | inl n ↦ ground arith
  | inr (s, n) ↦
      let key = m.envelope.idempotency_key in
      ground (
        arith,
        seen-apply m (record s { seen = insert key m.envelope.kind s.seen }),
        lookup-insert key key m.envelope.kind s.seen,
        text_eq_refl key,
      )
]

-- A message that is no envelope or an invalid one, one of a governed type while governance is off,
-- and one of the handler's own leave the handler as it was.
pub process_guarded :
    (h : Handler) (m : Message)
    → (validate_base m.envelope ≢ none)
      ⊎ (((h.governance_enabled ≡ false) × (is_governed_type m.envelope.kind ≡ true))
          ⊎ (is_own h m.envelope ≡ true))
    → (process h (some m)).1 ≡ h
unfolding process
process_guarded h m c = ground arith
