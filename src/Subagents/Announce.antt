-- ===== src/Subagents/Announce.antt =====
-- The announcements of ended runs in internal/agent/subagents.go, with their back-off.
pub mod Laws
pub mod Limits
use kaf_claw.Base.{
  ℤ, pos, negsuc, ℕ, zero, suc, ◌+◌, ◌-◌, ◌*◌, ◌^◌, ◌%◌, ◌≤◌, ◌<◌, ◌==◌, ltb, leb, min, Text,
  is_empty, trim_space, Table, lookup, insert, length, take, length-take, All, Bool, true, false,
  not, ◌&&◌, Option, none, some, List, [], ◌∷◌, ◌≡◌, ◌⊎◌, inl, inr, refl, arith, if◌then◌else◌,
  Bool-cases, is_some, is_none, ltb_ℤ, ◌+ℤ◌,
}
use kaf_claw.Subagents.Runs.{
  Run, Manager, is_active, sweep_expired, build_announce_id, or_text, second, update_run,
}

abbrev two_minutes : ℕ
two_minutes = 120 * second

-- An `int64` from the 64 bits of a number.
abbrev pub as_int64 : ℕ → ℤ
as_int64 n =
    let bits = n % 2 ^ 64 in if ltb bits (2 ^ 63) then pos bits else negsuc (2 ^ 64 - bits - 1)

-- The wait after an attempt that failed: a shift and a product of 64 bits, which wrap around.
unfoldable pub backoff : ℕ → ℤ
backoff attempts =
    if ltb 1 attempts
    then (let wait = as_int64 (2 ^ (attempts - 1) % 2 ^ 64 * second) in
        if ltb_ℤ (pos two_minutes) wait then pos two_minutes else wait)
    else pos (2 * second)

-- A time before the zero time is cut to it, and in the past either way.
abbrev pub after_failure : ℕ → Run → Run
after_failure now run = record run {
  next_announce_at = some (after (pos now +ℤ backoff run.announce_attempts));
}
  where
    after : ℤ → ℕ
    after (pos n) = n
    after (negsuc n) = 0

abbrev pub after_delivery : ℕ → Run → Run
after_delivery now run = record run { announced_at = some now; next_announce_at = none }

abbrev pub with_announce_id : (Text → Text) → Run → Run
with_announce_id digest run = record run {
  announce_id = or_text run.announce_id (build_announce_id digest run.child_session_key run.run_id);
}

abbrev pub attempted : ℕ → Run → Run
attempted now run = record run {
  announce_attempts = suc run.announce_attempts;
  last_announce_at = some now;
}

unfoldable pub mark_announce_attempt : (Text → Text) → ℕ → Text → Bool → Manager → Manager
mark_announce_attempt digest now id delivered = update_run id (λ run.
    let run' = attempted now (with_announce_id digest run) in
    if delivered then after_delivery now run' else after_failure now run')

abbrev pub max_attempts : ℕ
max_attempts = 6

abbrev waits : ℕ → Option ℕ → Bool
waits now none = false
waits now (some at) = ltb now at

-- The tests of the loop of `pendingAnnounceRuns`.
unfoldable pub is_due : ℕ → Run → Bool
is_due now run =
    not (is_active run)
    && is_none run.announced_at
    && not (waits now run.next_announce_at)
    && ltb run.announce_attempts max_attempts

-- The runs that are due, with the ids that were missing filled in.
unfoldable pub due_runs : (Text → Text) → ℕ → Table Run → List Run
due_runs digest now [] = []
due_runs digest now ((k, run) ∷ runs) =
    let rest = due_runs digest now runs in
    if is_due now run then with_announce_id digest run ∷ rest else rest

abbrev pub ended_or_created : Run → ℕ
ended_or_created run = elim run.ended_at [ none ↦ run.created_at | some at ↦ at ]

-- `sort.Slice` by the time of the end; the order of runs that ended at one time is left open there.
unfoldable pub insert_by_end : Run → List Run → List Run
insert_by_end run [] = run ∷ []
insert_by_end run (x ∷ xs) =
    let rest = insert_by_end run xs in
    if ltb (ended_or_created x) (ended_or_created run) then x ∷ rest else run ∷ x ∷ xs

unfoldable pub sort_by_end : List Run → List Run
sort_by_end [] = []
sort_by_end (x ∷ xs) = insert_by_end x (sort_by_end xs)

-- The map keeps the ids that the loop fills in on the runs that have ended and are not announced.
unfoldable pub fill_ids : (Text → Text) → Table Run → Table Run
fill_ids digest [] = []
fill_ids digest ((k, run) ∷ runs) =
    let rest = fill_ids digest runs in
    if not (is_active run) && is_none run.announced_at
    then (k, with_announce_id digest run) ∷ rest
    else (k, run) ∷ rest

unfoldable pub pending_announce_runs : (Text → Text) → ℕ → ℤ → Manager → List Run × Manager
pending_announce_runs digest now limit m =
    let m' = sweep_expired now m in
    let out = sort_by_end (due_runs digest now m'.runs) in
    (limited limit out, record m' { runs = fill_ids digest m'.runs })
  where
    limited : ℤ → List Run → List Run
    limited (pos zero) out = out
    limited (pos (suc n)) out = take (suc n) out
    limited (negsuc n) out = out
