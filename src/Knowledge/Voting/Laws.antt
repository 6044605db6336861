-- ===== src/Knowledge/Voting/Laws.antt =====
-- Quorum decisions.
use mathlib.Core.List.{Perm, Permᴰ}
use mathlib.Core.Logic.{∥∥₁_elim}
use kaf_claw.Base.{
  ℕ, ℤ, pos, count, not, ◌&&◌, text_eq, [], ◌<◌, ◌≤ℤ◌, ◌<ℤ◌, Text, lit, text_eq_iff, Table, Bool,
  true, false, none, ◌∷◌, ◌≡◌, ◌≢◌, ◌↔◌, ◌⊎◌, refl, arith, if◌then◌else◌, ◌∙◌, ◌+ℤ◌,
}
use kaf_claw.Knowledge.Contracts.{normalize}
use kaf_claw.Knowledge.Voting.{
  approved, rejected, expired, VotingPolicy, validate, is_self_vote, count_vote, tally_votes,
  decide, evaluate_quorum,
}

count_vote_comm :
    (v w : Text) (t : ℕ × ℕ) → count_vote v (count_vote w t) ≡ count_vote w (count_vote v t)
unfolding count_vote
count_vote_comm v w t = ground arith

-- What one entry of the map adds to the counters.
abbrev count_entry : Text → Bool → Text × Text → ℕ × ℕ → ℕ × ℕ
count_entry proposer self (claw, v) t =
    if is_self_vote proposer self claw then t else count_vote v t

count_entry_comm :
    (proposer : Text) (self : Bool) (e f : Text × Text) (t : ℕ × ℕ)
    → count_entry proposer self e (count_entry proposer self f t)
      ≡ count_entry proposer self f (count_entry proposer self e t)
count_entry_comm proposer self (c, v) (d, w) t = ground (arith, count_vote_comm v w t)

tally-cons :
    (e : Text × Text) (votes : Table Text) (proposer : Text) (self : Bool)
    → tally_votes (e ∷ votes) proposer self
      ≡ count_entry proposer self e (tally_votes votes proposer self)
unfolding tally_votes
tally-cons (c, v) votes proposer self = refl

tally-permᴰ :
    {votes more : Table Text} (proposer : Text) (self : Bool)
    → Permᴰ votes more
    → tally_votes votes proposer self ≡ tally_votes more proposer self
tally-permᴰ proposer self Permᴰ.nil = refl
tally-permᴰ proposer self (Permᴰ.cons {a = a} {b = b} {l₁ = l} {l₂ = m} e p) =
    cc (tally-cons a l proposer self, tally-cons b m proposer self, tally-permᴰ proposer self p)
tally-permᴰ proposer self (Permᴰ.swap {a = a} {b = b} {a' = a'} {b' = b'} {l = l} e f) = cc (
  tally-cons a (b ∷ l) proposer self,
  tally-cons b l proposer self,
  tally-cons a' (b' ∷ l) proposer self,
  tally-cons b' l proposer self,
  count_entry_comm proposer self a b (tally_votes l proposer self),
)
tally-permᴰ proposer self (Permᴰ.trans p q) =
    tally-permᴰ proposer self p ∙ tally-permᴰ proposer self q

tally-perm :
    (votes more : Table Text) (proposer : Text) (self : Bool)
    → Perm votes more
    → tally_votes votes proposer self ≡ tally_votes more proposer self
tally-perm votes more proposer self p =
    ∥∥₁_elim p (λ e f. pairs_set _ _ e f) (tally-permᴰ proposer self)
  where
    pairs_set : IsSet (ℕ × ℕ)
    pairs_set = hlevel

-- The decision does not depend on the order in which the map of votes is walked.
pub evaluate_quorum-perm :
    (proposer : Text) (pool : ℤ) (votes more : Table Text) (created now : ℕ) (p : VotingPolicy)
    → Perm votes more
    → evaluate_quorum proposer pool votes created now p
      ≡ evaluate_quorum proposer pool more created now p
unfolding evaluate_quorum
evaluate_quorum-perm proposer pool votes more created now p h =
    ground (arith, tally-perm votes more proposer p.allow_self_vote h)

-- Unless self votes are allowed, the decision is the same with and without an entry of the proposer,
-- written in any case and with white space at its ends.
pub evaluate_quorum-self_vote :
    (proposer claw v : Text) (pool : ℤ) (votes : Table Text) (created now : ℕ) (p : VotingPolicy)
    → is_self_vote proposer p.allow_self_vote claw ≡ true
    → evaluate_quorum proposer pool ((claw, v) ∷ votes) created now p
      ≡ evaluate_quorum proposer pool votes created now p
unfolding evaluate_quorum tally_votes
evaluate_quorum-self_vote proposer claw v pool votes created now p h = ground arith

-- The vote decides: with a valid policy that is in force for the pool.
abbrev pub IsOpen : ℤ → VotingPolicy → Type 0
IsOpen pool p = (validate p ≡ none) × (p.enabled ≡ true) × (p.min_pool_size ≤ℤ pool)

-- How many votes say a word, in any case and with blanks around it, but for the proposer's own where
-- the policy does not count it.
abbrev pub votes_for : Text → Text → Bool → Table Text → ℕ
votes_for word proposer allow_self = count (λ (entry : Text × Text).
    not (is_self_vote proposer allow_self entry.0) && text_eq (normalize entry.1) word)

tally_votes-counts :
    (votes : Table Text) (proposer : Text) (allow_self : Bool)
    → tally_votes votes proposer allow_self ≡ (
      votes_for (lit "yes") proposer allow_self votes,
      votes_for (lit "no") proposer allow_self votes,
    )
unfolding tally_votes count_vote
tally_votes-counts [] proposer allow_self = refl
tally_votes-counts ((claw, v) ∷ votes) proposer allow_self = ground (
  arith,
  text_eq_iff (normalize v) (lit "yes"),
  text_eq_iff (normalize v) (lit "no"),
  tally_votes-counts votes proposer allow_self,
)

-- Where the vote decides, a proposal is approved exactly with a quorum of yes votes that outnumber
-- the no votes; else rejected exactly with a quorum of no votes; else expired exactly when it has a
-- creation time and its timeout has passed. The votes are those that say the word, in any case and with
-- blanks around it; the proposer's own counts only where the policy allows it.
pub evaluate_quorum_iff :
    (proposer : Text) (pool : ℤ) (votes : Table Text) (created now : ℕ) (p : VotingPolicy)
    → IsOpen pool p
    → let yes_votes = votes_for (lit "yes") proposer p.allow_self_vote votes in
      let no_votes = votes_for (lit "no") proposer p.allow_self_vote votes in
      let d = evaluate_quorum proposer pool votes created now p in
      ((d.status ≡ approved) ↔ ((p.quorum_yes ≤ℤ pos yes_votes) × (no_votes < yes_votes)))
      × ((d.status ≡ rejected) ↔ ((d.status ≢ approved) × (p.quorum_no ≤ℤ pos no_votes)))
      × ((d.status ≡ expired) ↔ (
          (d.status ≢ approved)
          × (d.status ≢ rejected)
          × (created ≢ 0)
          × (pos created +ℤ p.timeout ≤ℤ pos now)))
unfolding evaluate_quorum decide validate
evaluate_quorum_iff proposer pool votes created now p open_vote =
    let e = tally_votes-counts votes proposer p.allow_self_vote in
    (
      (λ h. ground (arith, e), λ h. ground (arith, e)),
      (λ h. ground (arith, e), λ h. ground (arith, e)),
      (λ h. ground (arith, e), λ h. ground (arith, e)),
    )

-- Outside a vote nothing is left open: an invalid policy rejects, and a policy that is switched off,
-- or a pool below its size, approves.
pub evaluate_quorum-bypass :
    (proposer : Text) (pool : ℤ) (votes : Table Text) (created now : ℕ) (p : VotingPolicy)
    → let d = evaluate_quorum proposer pool votes created now p in
      (validate p ≢ none → d.status ≡ rejected)
      × (validate p ≡ none → (p.enabled ≡ false) ⊎ (pool <ℤ p.min_pool_size) → d.status ≡ approved)
unfolding evaluate_quorum validate
evaluate_quorum-bypass proposer pool votes created now p = (λ h. ground arith, λ h k. ground arith)

-- One more yes vote never withdraws an approval.
pub evaluate_quorum-yes_mono :
    (proposer claw v : Text) (pool : ℤ) (votes : Table Text) (created now : ℕ) (p : VotingPolicy)
    → normalize v ≡ lit "yes"
    → (evaluate_quorum proposer pool votes created now p).status ≡ approved
    → (evaluate_quorum proposer pool ((claw, v) ∷ votes) created now p).status ≡ approved
unfolding evaluate_quorum tally_votes decide validate
evaluate_quorum-yes_mono proposer claw v pool votes created now p y h =
    ground (arith, text_eq_iff (normalize v) (lit "yes"))
