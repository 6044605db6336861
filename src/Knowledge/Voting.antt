-- ===== src/Knowledge/Voting.antt =====
-- internal/knowledge/voting.go. Times and durations are nanoseconds, 0 for the zero time. The
-- source's `now.Sub` saturates, which changes no comparison with a positive timeout.
pub mod Laws
use kaf_claw.Base.{
  ℕ, ℤ, pos, suc, sub_ℕ, leb_ℤ, ltb_ℤ, is_nonpos, ltb, ◌==◌, Text, lit, text_eq, trim_space,
  to_lower, equal_fold, Table, Bool, true, false, ◌||◌, ◌&&◌, not, Option, none, some, List, [],
  ◌∷◌, if◌then◌else◌,
}
use kaf_claw.Knowledge.Contracts.{normalize}

pub data VoteStatus : Type 0 where
  pending approved rejected expired : VoteStatus

pub record VotingPolicy : Type 0 where
  pub enabled : Bool
  pub min_pool_size : ℤ
  pub quorum_yes : ℤ
  pub quorum_no : ℤ
  pub timeout : ℤ
  pub allow_self_vote : Bool

pub data VoteReason : Type 0 where
  no_reason voting_disabled pool_below_min_size voting_timeout : VoteReason
  min_pool_size_not_positive quorum_not_positive timeout_not_positive : VoteReason

pub record VoteDecision : Type 0 where
  pub status : VoteStatus
  pub yes_votes : ℕ
  pub no_votes : ℕ
  pub reason : VoteReason

unfoldable pub validate : VotingPolicy → Option VoteReason
validate p =
    if is_nonpos p.min_pool_size
    then some min_pool_size_not_positive
    else if is_nonpos p.quorum_yes || is_nonpos p.quorum_no
    then some quorum_not_positive
    else if is_nonpos p.timeout
    then some timeout_not_positive
    else none

-- One round of the loop: what a vote adds to the two counters.
unfoldable pub is_self_vote : Text → Bool → Text → Bool
unfolding equal_fold trim_space
is_self_vote proposer allow_self claw =
    not allow_self && equal_fold (trim_space claw) (trim_space proposer)

unfoldable pub count_vote : Text → ℕ × ℕ → ℕ × ℕ
unfolding normalize text_eq
count_vote v (yes_votes, no_votes) =
    if text_eq (normalize v) (lit "yes")
    then (suc yes_votes, no_votes)
    else if text_eq (normalize v) (lit "no")
    then (yes_votes, suc no_votes)
    else (yes_votes, no_votes)

-- A Go map is walked in any order; the list stands for one of them.
unfoldable pub tally_votes : Table Text → Text → Bool → ℕ × ℕ
unfolding is_self_vote count_vote
tally_votes [] proposer allow_self = (0, 0)
tally_votes ((claw, v) ∷ votes) proposer allow_self =
    let rest = tally_votes votes proposer allow_self in
    if is_self_vote proposer allow_self claw then rest else count_vote v rest

abbrev pub outcome : VoteStatus → ℕ × ℕ → VoteReason → VoteDecision
outcome s (yes_votes, no_votes) r = record {
  status = s;
  yes_votes = yes_votes;
  no_votes = no_votes;
  reason = r;
}

unfoldable pub is_overdue : ℕ → ℕ → ℤ → Bool
is_overdue created now timeout = not (created == 0) && leb_ℤ timeout (sub_ℕ now created)

-- The decision from the two counters, once the policy is valid and in force.
unfoldable pub decide : ℕ × ℕ → ℕ → ℕ → VotingPolicy → VoteDecision
unfolding is_overdue
decide (yes_votes, no_votes) created now p =
    if leb_ℤ p.quorum_yes (pos yes_votes) && ltb no_votes yes_votes
    then outcome approved (yes_votes, no_votes) no_reason
    else if leb_ℤ p.quorum_no (pos no_votes)
    then outcome rejected (yes_votes, no_votes) no_reason
    else if is_overdue created now p.timeout
    then outcome expired (yes_votes, no_votes) voting_timeout
    else outcome pending (yes_votes, no_votes) no_reason

unfoldable pub evaluate_quorum : Text → ℤ → Table Text → ℕ → ℕ → VotingPolicy → VoteDecision
unfolding validate tally_votes decide
evaluate_quorum proposer pool votes created now p = elim (validate p) [
  | some why ↦ outcome rejected (0, 0) why
  | none ↦
      if not p.enabled
      then outcome approved (0, 0) voting_disabled
      else if ltb_ℤ pool p.min_pool_size
      then outcome approved (0, 0) pool_below_min_size
      else decide (tally_votes votes proposer p.allow_self_vote) created now p
]
