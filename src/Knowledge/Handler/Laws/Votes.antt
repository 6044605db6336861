-- ===== src/Knowledge/Handler/Laws/Votes.antt =====
-- The rows of votes over every sequence of messages.
use kaf_claw.Base.{
  ℕ, ◌==◌, ◌≤◌, Text, text_eq_iff, lookup, insert, count, ◌&&◌, Option, none, some, List, [], ◌∷◌,
  ◌≡◌, inl, inr, arith, if◌then◌else◌, Option-cases,
}
use kaf_claw.Knowledge.Contracts.{
  Envelope, ProposalPayload, VotePayload, DecisionPayload, FactPayload, validate_vote,
}
use kaf_claw.Knowledge.Store.{
  Store, is_vote_of, record_idempotency, upsert_fact, create_proposal, put_vote, upsert_vote,
  update_decision, VoteRecord,
}
use kaf_claw.Knowledge.Handler.{
  Message, Handler, apply_proposal, apply_vote, apply_decision, apply_fact, apply, store_message,
  process, vote_record,
}
use kaf_claw.Knowledge.Handler.Laws.Facts.{process_all}

-- The rows that one claw has for one proposal.
abbrev pub votes_by : Text → Text → List VoteRecord → ℕ
votes_by proposal claw = count (is_vote_of proposal claw)

abbrev pub OneEach : List VoteRecord → Type 0
OneEach votes = (proposal claw : Text) → votes_by proposal claw votes ≤ 1

-- A vote replaces the row of its claw for its proposal, and is a new row only where there is none.
votes_by-put :
    (proposal claw : Text) (r : VoteRecord) (votes : List VoteRecord)
    → votes_by proposal claw (put_vote r votes) ≡ (
        if is_vote_of proposal claw r && votes_by proposal claw votes == 0
        then 1
        else votes_by proposal claw votes)
unfolding put_vote
votes_by-put proposal claw r [] = ground arith
votes_by-put proposal claw r (v ∷ votes) = ground (
  arith,
  text_eq_iff v.proposal_id r.proposal_id,
  text_eq_iff v.claw_id r.claw_id,
  text_eq_iff v.proposal_id proposal,
  text_eq_iff v.claw_id claw,
  text_eq_iff r.proposal_id proposal,
  text_eq_iff r.claw_id claw,
  votes_by-put proposal claw r votes,
)

put_vote-OneEach :
    (r : VoteRecord) (votes : List VoteRecord) → OneEach votes → OneEach (put_vote r votes)
put_vote-OneEach r votes h proposal claw =
    ground (arith, votes_by-put proposal claw r votes, h proposal claw)

-- The row that one claw has for one proposal.
abbrev pub vote_of : Text → Text → List VoteRecord → Option VoteRecord
vote_of proposal claw [] = none
vote_of proposal claw (v ∷ votes) =
    if is_vote_of proposal claw v then some v else vote_of proposal claw votes

vote_of-put :
    (proposal claw : Text) (r : VoteRecord) (votes : List VoteRecord)
    → vote_of proposal claw (put_vote r votes)
      ≡ (if is_vote_of proposal claw r then some r else vote_of proposal claw votes)
unfolding put_vote
vote_of-put proposal claw r [] = ground arith
vote_of-put proposal claw r (v ∷ votes) = ground (
  arith,
  text_eq_iff v.proposal_id r.proposal_id,
  text_eq_iff v.claw_id r.claw_id,
  text_eq_iff v.proposal_id proposal,
  text_eq_iff v.claw_id claw,
  text_eq_iff r.proposal_id proposal,
  text_eq_iff r.claw_id claw,
  vote_of-put proposal claw r votes,
)

-- A valid vote becomes the row of its claw for its proposal, whatever that claw had voted before,
-- and no other row changes.
pub apply_vote-vote_of :
    (e : Envelope) (p : VotePayload) (s : Store) (proposal claw : Text)
    → validate_vote p ≡ none
    → vote_of proposal claw (apply_vote e (some p) s).1.votes ≡ (
        if is_vote_of proposal claw (vote_record e p)
        then some (vote_record e p)
        else vote_of proposal claw s.votes)
unfolding apply_vote upsert_vote
apply_vote-vote_of e p s proposal claw h =
    rw (h, apply_vote) (vote_of-put proposal claw (vote_record e p) s.votes)

votes-apply_proposal :
    (e : Envelope) (p : Option ProposalPayload) (s : Store)
    → (apply_proposal e p s).1.votes ≡ s.votes
unfolding apply_proposal create_proposal
votes-apply_proposal e p s = ground arith

votes-apply_decision :
    (p : Option DecisionPayload) (s : Store) → (apply_decision p s).1.votes ≡ s.votes
unfolding apply_decision update_decision
votes-apply_decision p s = ground arith

votes-apply_fact : (p : Option FactPayload) (s : Store) → (apply_fact p s).1.votes ≡ s.votes
unfolding apply_fact upsert_fact
votes-apply_fact p s = ground arith

apply_vote-OneEach :
    (e : Envelope) (p : Option VotePayload) (s : Store)
    → OneEach s.votes
    → OneEach (apply_vote e p s).1.votes
unfolding apply_vote upsert_vote
apply_vote-OneEach e none s h = h
apply_vote-OneEach e (some p) s h = elim (Option-cases (validate_vote p)) [
  | inl v ↦ rw (v, apply_vote) (put_vote-OneEach (vote_record e p) s.votes h)
  | inr (why, v) ↦ rw (v, apply_vote) h
]

apply-OneEach : (m : Message) (s : Store) → OneEach s.votes → OneEach (apply m s).1.votes
unfolding apply
apply-OneEach m s h proposal claw = ground (
  arith,
  h proposal claw,
  votes-apply_proposal m.envelope m.proposal s,
  apply_vote-OneEach m.envelope m.vote s h proposal claw,
  votes-apply_decision m.decision s,
  votes-apply_fact m.fact s,
)

store_message-OneEach :
    (m : Message) (s : Store) → OneEach s.votes → OneEach (store_message m s).1.votes
unfolding store_message record_idempotency
store_message-OneEach m s h = elim (Option-cases (lookup m.envelope.idempotency_key s.seen)) [
  | inr (k, e) ↦ rw (e, store_message, record_idempotency) h
  | inl e ↦
      rw (e, store_message, record_idempotency)
        (apply-OneEach m
          (record s { seen = insert m.envelope.idempotency_key m.envelope.kind s.seen }) h)
]

abbrev pub rows_of : Handler → List VoteRecord
rows_of h = elim h.store [ none ↦ [] | some s ↦ s.votes ]

process-OneEach :
    (h : Handler) (m : Option Message) → OneEach (rows_of h) → OneEach (rows_of (process h m).1)
unfolding process
process-OneEach h none o proposal claw = o proposal claw
process-OneEach h (some m) o proposal claw = elim (Option-cases h.store) [
  | inl e ↦ ground arith
  | inr (s, e) ↦ ground (
    arith,
    o proposal claw,
    store_message-OneEach m s (λ p c. ground (arith, o p c)) proposal claw,
  )
]

-- One claw, one vote: over any sequence of messages no claw comes to have two rows for one proposal.
pub process_all-OneEach :
    (h : Handler) (ms : List (Option Message))
    → OneEach (rows_of h)
    → OneEach (rows_of (process_all h ms))
unfolding process_all
process_all-OneEach h [] o = o
process_all-OneEach h (m ∷ ms) o = process_all-OneEach (process h m).1 ms (process-OneEach h m o)
