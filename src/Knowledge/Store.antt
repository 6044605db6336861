-- ===== src/Knowledge/Store.antt =====
-- The knowledge tables of internal/timeline/service.go: knowledge_idempotency, knowledge_facts,
-- knowledge_proposals and knowledge_votes. SQLite's INSERT, UPDATE and ON CONFLICT are read as their
-- documented effect on a table with the primary key of the schema, and as succeeding; the columns of
-- creation and update times, which no operation here reads, are left out.
use kaf_claw.Base.{
  ℤ, Text, lit, text_eq, is_empty, trim_space, Table, lookup, insert, Bool, true, false, ◌&&◌,
  Option, none, some, List, [], ◌∷◌, if◌then◌else◌,
}

pub record FactRecord : Type 0 where
  pub fact_id : Text
  pub group_name : Text
  pub subject : Text
  pub predicate : Text
  pub object : Text
  pub version : ℤ
  pub source : Text
  pub proposal_id : Text
  pub decision_id : Text
  pub tags : List Text

pub record ProposalRecord : Type 0 where
  pub proposal_id : Text
  pub group_name : Text
  pub title : Text
  pub statement : Text
  pub tags : List Text
  pub proposer_claw_id : Text
  pub proposer_instance_id : Text
  pub status : Text
  pub yes_votes : ℤ
  pub no_votes : ℤ
  pub reason : Text

pub record VoteRecord : Type 0 where
  pub proposal_id : Text
  pub claw_id : Text
  pub instance_id : Text
  pub vote : Text
  pub reason : Text
  pub trace_id : Text

pub record Store : Type 0 where
  pub seen : Table Text  -- knowledge_idempotency: the message type under each key
  pub facts : Table FactRecord
  pub proposals : Table ProposalRecord
  pub votes : List VoteRecord

abbrev pub empty_store : Store
empty_store = record { seen = []; facts = []; proposals = []; votes = [] }

-- `RecordKnowledgeIdempotency`: false where the key is there.
unfoldable pub record_idempotency : Text → Text → Store → Bool × Store
record_idempotency key kind s = elim (lookup key s.seen) [
  | some _ ↦ (false, s)
  | none ↦ (true, record s { seen = insert key kind s.seen })
]

unfoldable pub get_fact : Text → Store → Option FactRecord
get_fact id s = lookup id s.facts

unfoldable pub upsert_fact : FactRecord → Store → Store
upsert_fact r s = record s { facts = insert r.fact_id r s.facts }

unfoldable pub get_proposal : Text → Store → Option ProposalRecord
get_proposal id s = lookup id s.proposals

abbrev pub or_pending : Text → Text
or_pending status = if is_empty (trim_space status) then lit "pending" else status

-- `CreateKnowledgeProposal`, called where there is no proposal of that id.
unfoldable pub create_proposal : ProposalRecord → Store → Store
create_proposal r s = record s {
  proposals = insert r.proposal_id (record r { status = or_pending r.status }) s.proposals;
}

abbrev pub is_vote_of : Text → Text → VoteRecord → Bool
is_vote_of proposal claw r = text_eq r.proposal_id proposal && text_eq r.claw_id claw

-- The key of knowledge_votes is the pair of the proposal and the claw.
unfoldable pub put_vote : VoteRecord → List VoteRecord → List VoteRecord
put_vote r [] = r ∷ []
put_vote r (v ∷ vs) = if is_vote_of r.proposal_id r.claw_id v then r ∷ vs else v ∷ put_vote r vs

unfoldable pub upsert_vote : VoteRecord → Store → Store
upsert_vote r s = record s { votes = put_vote r s.votes }

-- `ListKnowledgeVotes` for one proposal.
unfoldable pub votes_of : Text → List VoteRecord → List VoteRecord
votes_of proposal [] = []
votes_of proposal (v ∷ vs) =
    let rest = votes_of proposal vs in if text_eq v.proposal_id proposal then v ∷ rest else rest

abbrev decided : Text → ℤ → ℤ → Text → ProposalRecord → ProposalRecord
decided status yes_votes no_votes reason r = record r {
  status = status;
  yes_votes = yes_votes;
  no_votes = no_votes;
  reason = reason;
}

-- `UpdateKnowledgeProposalDecision`: no row, no change.
unfoldable pub update_decision : Text → Text → ℤ → ℤ → Text → Store → Store
update_decision id status yes_votes no_votes reason s = elim (lookup id s.proposals) [
  | none ↦ s
  | some r ↦ record s {
    proposals = insert id (decided status yes_votes no_votes reason r) s.proposals;
  }
]
