-- ===== src/Knowledge/Tests.antt =====
-- Runs of the protocol: one claw with a timeline, and what others send it.
use kaf_claw.Base.{
  ℕ, ℤ, pos, ◌≤ℤ◌, ◌+ℤ◌, ◌<◌, Text, lit, text_eq, trim_space, to_lower, equal_fold, lookup, insert,
  Table, true, false, Option, none, some, List, [], ◌∷◌, ◌≡◌, ◌≢◌, ◌↔◌, refl, arith,
}
use kaf_claw.Knowledge.Contracts.{
  Envelope, FactPayload, VotePayload, validate_base, validate_fact, validate_vote, normalize,
  is_blank,
}
use kaf_claw.Knowledge.Facts.{FactState, evaluate_fact_apply, same_fact_content}
use kaf_claw.Knowledge.Voting.{
  VotingPolicy, approved, rejected, expired, tally_votes, evaluate_quorum, validate, decide,
  count_vote, is_self_vote,
}
use kaf_claw.Knowledge.Voting.Laws.{evaluate_quorum_iff}
use kaf_claw.Knowledge.Store.{
  empty_store, record_idempotency, get_fact, upsert_fact, upsert_vote, put_vote,
}
use kaf_claw.Knowledge.Handler.{
  Message, Handler, process, store_message, apply, apply_fact, apply_vote, is_own, is_governed_type,
}
use kaf_claw.Knowledge.Handler.Laws.Facts.{process_all, process_all-versions, fact_of, version_of}
use kaf_claw.Knowledge.Handler.Laws.Keys.{process_all-duplicate}

protocol : Unit {0}
unfolding text_eq trim_space to_lower equal_fold lookup insert validate_base validate_fact
    validate_vote normalize is_blank evaluate_fact_apply same_fact_content record_idempotency
    get_fact upsert_fact upsert_vote put_vote process store_message apply apply_fact apply_vote
    is_own is_governed_type process_all tally_votes evaluate_quorum validate decide count_vote
    is_self_vote
protocol = tt

abbrev handler : Handler
handler = record { store = some empty_store; local_id = lit "me"; governance_enabled = true }

abbrev envelope : Text → Text → Envelope
envelope kind key = record {
  schema_version = lit "v1";
  kind = kind;
  trace_id = lit "t1";
  timestamp = 7;
  idempotency_key = key;
  claw_id = lit "ann";
  instance_id = lit "i1";
}

abbrev fact : ℤ → Text → FactPayload
fact version object = record {
  fact_id = lit "f1";
  group = lit "g";
  subject = lit "sky";
  predicate = lit "is";
  object = object;
  version = version;
  source = lit "eye";
  proposal_id = [];
  decision_id = [];
  tags = [];
}

abbrev vote : Text → VotePayload
vote v = record { proposal_id = lit "p1"; vote = v; reason = [] }

abbrev fact_message : Text → ℤ → Text → Message
fact_message key version object = record {
  envelope = envelope (lit "fact") key;
  proposal = none;
  vote = none;
  decision = none;
  fact = some (fact version object);
}

abbrev vote_message : Text → Text → Message
vote_message key v = record {
  envelope = envelope (lit "vote") key;
  proposal = none;
  vote = some (vote v);
  decision = none;
  fact = none;
}

-- The second version is taken, the third has a gap before it and is not.
abbrev messages : List (Option Message)
messages =
    some (fact_message (lit "k1") (pos 1) (lit "blue"))
    ∷ some (fact_message (lit "k2") (pos 2) (lit "grey"))
    ∷ some (fact_message (lit "k3") (pos 4) (lit "red"))
    ∷ some (vote_message (lit "k4") (lit "yes"))
    ∷ some (vote_message (lit "k5") (lit "No "))
    ∷ []

second_version : version_of (fact_of (lit "f1") (process_all handler messages)) ≡ pos 2
unfolding protocol
second_version = refl

process_all-versions_example :
    (version_of (fact_of (lit "f1") handler)
      ≤ℤ version_of (fact_of (lit "f1") (process_all handler messages)))
    × (version_of (fact_of (lit "f1") (process_all handler messages))
          ≡ version_of (fact_of (lit "f1") handler)
        → fact_of (lit "f1") (process_all handler messages) ≡ fact_of (lit "f1") handler)
process_all-versions_example = process_all-versions (lit "f1") handler messages

abbrev first : Option Message
first = some (fact_message (lit "k1") (pos 1) (lit "blue"))

-- A vote with the key of the first fact is not counted.
process_all-duplicate_example :
    let h = process_all (process handler first).1 messages in
    (process h (some (vote_message (lit "k1") (lit "no")))).1 ≡ h
unfolding protocol
process_all-duplicate_example =
    process_all-duplicate handler (fact_message (lit "k1") (pos 1) (lit "blue"))
      (vote_message (lit "k1") (lit "no")) messages refl (refl, (refl, refl)) refl

abbrev known : FactState
known = record {
  fact_id = lit "f1";
  subject = lit "sky";
  predicate = lit "is";
  object = lit "blue";
  version = pos 1;
}

abbrev policy : VotingPolicy
policy = record {
  enabled = true;
  min_pool_size = pos 3;
  quorum_yes = pos 2;
  quorum_no = pos 2;
  timeout = pos 100;
  allow_self_vote = false;
}

abbrev ballots : Table Text
ballots = (lit "ann", lit "yes") ∷ (lit "bob", lit " YES") ∷ (lit "me", lit "no") ∷ []

evaluate_quorum_iff_example :
    let created : ℕ = 5 in
    let d = evaluate_quorum (lit "me") (pos 3) ballots created 50 policy in
    ((d.status ≡ approved) ↔ ((pos 2 ≤ℤ pos 2) × (0 < 2)))
    × ((d.status ≡ rejected) ↔ ((d.status ≢ approved) × (pos 2 ≤ℤ pos 0)))
    × ((d.status ≡ expired) ↔ (
        (d.status ≢ approved)
        × (d.status ≢ rejected)
        × (created ≢ 0)
        × (pos 5 +ℤ pos 100 ≤ℤ pos 50)))
unfolding protocol
evaluate_quorum_iff_example =
    evaluate_quorum_iff (lit "me") (pos 3) ballots 5 50 policy (refl, refl, omega arith)
