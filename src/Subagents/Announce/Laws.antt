-- ===== src/Subagents/Announce/Laws.antt =====
-- How long announcements wait, and which runs are announced.
use kaf_claw.Base.{
  ℤ, pos, negsuc, eqb_ℤ, eq_of_eqb_ℤ, ℕ, zero, suc, ◌-◌, ◌*◌, ◌^◌, ◌≤◌, ◌<◌, ltb, min, Text, Table,
  length, take, length-take, All, Bool, true, false, ◌&&◌, none, some, List, [], ◌∷◌, ◌≡◌, ◌⊎◌, inl,
  inr, refl, arith, if◌then◌else◌, Bool-cases, Option-cases,
}
use kaf_claw.Subagents.Runs.{Run, Manager, is_active, sweep_expired, second}
use kaf_claw.Subagents.Announce.{
  backoff, is_due, due_runs, ended_or_created, insert_by_end, sort_by_end, pending_announce_runs,
  max_attempts, with_announce_id, two_minutes,
}

abbrev below : ℕ → (ℕ → Bool) → Bool
below zero p = true
below (suc k) p = p k && below k p

below-holds : (k n : ℕ) (p : ℕ → Bool) → below k p ≡ true → n < k → p n ≡ true
below-holds zero n p h l = ground arith
below-holds (suc k) n p h l = ground (arith, below-holds k n p)

-- The wait that is meant: twice as long after each attempt, two seconds at least and two minutes at
-- most.
abbrev pub doubling : ℕ → ℤ
doubling n = pos (min two_minutes (if ltb n 2 then 2 * second else 2 ^ (n - 1) * second))

backoff_checked : below 35 (λ n. eqb_ℤ (backoff n) (doubling n)) ≡ true
unfolding backoff
backoff_checked = refl

-- Up to the thirty-fourth attempt the wait of 64 bits is the one that is meant: it doubles from two
-- seconds with each attempt and stops at two minutes.
pub backoff-doubles : (n : ℕ) → n < 35 → backoff n ≡ doubling n
backoff-doubles n h =
    eq_of_eqb_ℤ (backoff n) (doubling n)
      (below-holds 35 n (λ k. eqb_ℤ (backoff k) (doubling k)) backoff_checked h)

-- What a run is that is announced: it has ended, was not announced, has attempts left and is not
-- waiting for its next one.
abbrev pub IsDue : ℕ → Run → Type 0
IsDue now run =
    (is_active run ≡ false)
    × ((run.announced_at ≡ none)
        × ((run.announce_attempts < max_attempts)
            × ((run.next_announce_at ≡ none)
                ⊎ ((at : ℕ) × (run.next_announce_at ≡ some at) × (at ≤ now)))))

IsDue-run :
    (digest : Text → Text) (now : ℕ) (run : Run)
    → is_due now run ≡ true
    → IsDue now (with_announce_id digest run)
unfolding is_due is_active
IsDue-run digest now run h = elim (Option-cases run.next_announce_at) [
  | inl e ↦ ground arith
  | inr (at, e) ↦ (ground arith, (ground arith, (ground arith, inr (at, e, ground arith))))
]

due_runs-All :
    (digest : Text → Text) (now : ℕ) (runs : Table Run) → All (IsDue now) (due_runs digest now runs)
unfolding due_runs
due_runs-All digest now [] = tt
due_runs-All digest now ((k, run) ∷ runs) = elim (Bool-cases (is_due now run)) [
  | inl e ↦ rw (e, due_runs) (IsDue-run digest now run e, due_runs-All digest now runs)
  | inr e ↦ rw (e, due_runs) (due_runs-All digest now runs)
]

insert_by_end-All :
    (now : ℕ) (run : Run) (runs : List Run)
    → IsDue now run
    → All (IsDue now) runs
    → All (IsDue now) (insert_by_end run runs)
unfolding insert_by_end
insert_by_end-All now run [] d a = (d, tt)
insert_by_end-All now run (x ∷ xs) d (dx, a) =
    elim (Bool-cases (ltb (ended_or_created x) (ended_or_created run))) [
      | inl e ↦ rw (e, insert_by_end) (dx, insert_by_end-All now run xs d a)
      | inr e ↦ rw (e, insert_by_end) (d, (dx, a))
    ]

sort_by_end-All :
    (now : ℕ) (runs : List Run) → All (IsDue now) runs → All (IsDue now) (sort_by_end runs)
unfolding sort_by_end
sort_by_end-All now [] a = tt
sort_by_end-All now (x ∷ xs) (d, a) =
    insert_by_end-All now x (sort_by_end xs) d (sort_by_end-All now xs a)

take-All : (now n : ℕ) (runs : List Run) → All (IsDue now) runs → All (IsDue now) (take n runs)
take-All now zero runs a = tt
take-All now (suc n) [] a = tt
take-All now (suc n) (x ∷ xs) (d, a) = (d, take-All now n xs a)

sorted-IsDue :
    (digest : Text → Text) (now : ℕ) (m : Manager)
    → All (IsDue now) (sort_by_end (due_runs digest now (sweep_expired now m).runs))
sorted-IsDue digest now m =
    sort_by_end-All now (due_runs digest now (sweep_expired now m).runs)
      (due_runs-All digest now (sweep_expired now m).runs)

-- Whatever is handed out for an announcement has ended, was not announced before, has been tried
-- fewer than six times and does not wait; and where the limit is positive, no more is handed out.
pub pending_announce_runs-IsDue :
    (digest : Text → Text) (now : ℕ) (limit : ℤ) (m : Manager)
    → let out = (pending_announce_runs digest now limit m).0 in
      All (IsDue now) out × ((n : ℕ) → limit ≡ pos (suc n) → length out ≤ suc n)
unfolding pending_announce_runs
pending_announce_runs-IsDue digest now (negsuc k) m =
    (sorted-IsDue digest now m, λ n e. ground arith)
pending_announce_runs-IsDue digest now (pos zero) m =
    (sorted-IsDue digest now m, λ n e. ground arith)
pending_announce_runs-IsDue digest now (pos (suc k)) m = (
  take-All now (suc k) _ (sorted-IsDue digest now m),
  λ n e.
      ground
        (arith, length-take (suc k) (sort_by_end (due_runs digest now (sweep_expired now m).runs))),
)
