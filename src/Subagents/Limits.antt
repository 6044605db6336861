-- ===== src/Subagents/Limits.antt =====
-- The limits on spawning, over every sequence of operations.
use kaf_claw.Base.{
  ℕ, ◌+◌, ◌≤◌, Text, text_eq, count, count-append, count-le-length, length, length-append, All,
  All-append, All-append-left, All-append-right, List, ◌∷◌, ◌++◌, text_eq_iff, lookup-insert,
  lookup, Bool, true, some, ◌≡◌, inl, inr, arith, Option-cases,
}
use kaf_claw.Subagents.Runs.{Run, Manager, is_active, sweep_expired, root_session, update_run}
use kaf_claw.Subagents.Spawn.{active_global, active_children, allowed, spawn_check, with_run}
use kaf_claw.Subagents.Counts.{
  active_global-sweep, active_children-sweep, one_if, active_global-insert, active_children-insert,
  active_global-replace, active_children-replace, runs-root_session, session_depth-root_session,
  limits-root_session, lookup-sweep_depths,
}

-- A spawn that has passed the check and is not registered yet: the session that asks, and the depth that
-- the check gave.
pub record Waiting : Type 0 where
  pub session : Text
  pub depth : ℕ

-- How many spawns besides one may be between the check and the registration, and those that are.
pub record Load : Type 0 where
  pub others : ℕ
  pub waiting : List Waiting

abbrev pub of_session : Text → Waiting → Bool
of_session session w = text_eq w.session session

-- The limits on the number of active runs, on those of one session and on the level of a session, with
-- the spawns that wait counted as runs. The first two may be exceeded by the other spawns.
pub record InLimits (load : Load) (m : Manager) : Type 0 where
  pub global : length load.waiting + active_global m.runs ≤ m.limits.max_concurrent + load.others
  pub each :
      (session : Text)
      → count (of_session session) load.waiting + active_children session m.runs
        ≤ m.limits.max_children_per_agent + load.others
  pub deep :
      (session : Text) (d : ℕ)
      → lookup session m.session_depth ≡ some d
      → d ≤ m.limits.max_spawn_depth
  pub passed : All (λ w. w.depth ≤ m.limits.max_spawn_depth) load.waiting

pub sweep_expired-InLimits :
    {load : Load} (now : ℕ) (m : Manager) → InLimits load m → InLimits load (sweep_expired now m)
unfolding sweep_expired
sweep_expired-InLimits now m h = record {
  global = omega (arith, active_global-sweep now m.runs, h.global);
  each = λ session. omega (arith, active_children-sweep now session m.runs, h.each session);
  deep =
      λ session d e. h.deep session d (lookup-sweep_depths now session d m.runs m.session_depth e);
  passed = h.passed;
}

pub update_run-InLimits :
    {load : Load} (id : Text) (f : Run → Run) (m : Manager)
    → ((run : Run) → is_active (f run) ≡ true → is_active run ≡ true)
    → ((run : Run) → (f run).parent_session ≡ run.parent_session)
    → InLimits load m
    → InLimits load (update_run id f m)
update_run-InLimits id f m active parent h = elim (Option-cases (lookup id m.runs)) [
  | inl e ↦ rw (e, update_run) h
  | inr (run, e) ↦
      rw (e, update_run)
        (record {
          global =
              omega (arith, active_global-replace id run (f run) m.runs e (active run), h.global);
          each = λ session. omega (
            arith,
            active_children-replace session id run (f run) m.runs e (active run) (parent run),
            h.each session,
          );
          deep = h.deep;
          passed = h.passed;
        })
]

-- The run of a spawn that waits may be added: it takes the place of the spawn.
with_run-InLimits :
    (others : ℕ) (before after : List Waiting) (w : Waiting) (run : Run) (m : Manager)
    → run.parent_session ≡ w.session
    → run.depth ≡ w.depth
    → InLimits (record { others = others; waiting = before ++ w ∷ after }) m
    → InLimits (record { others = others; waiting = before ++ after }) (with_run run m)
with_run-InLimits others before after w run m s d h = record {
  global = omega (
    arith,
    active_global-insert run.run_id run m.runs,
    one_if-le (is_active run),
    length-append before (w ∷ after),
    length-append before after,
    h.global,
  );
  each = λ session. ground (
    arith,
    s,
    active_children-insert session run.run_id run m.runs,
    count-append (of_session session) before (w ∷ after),
    count-append (of_session session) before after,
    h.each session,
  );
  deep = λ session depth e. ground (
    arith,
    lookup-insert session run.child_session_key run.depth m.session_depth,
    h.deep session depth,
    d,
    (All-append-right _ before (w ∷ after) h.passed).0,
  );
  passed =
      All-append _ before after (All-append-left _ before (w ∷ after) h.passed)
        (All-append-right _ before (w ∷ after) h.passed).1;
}
  where
    one_if-le : (b : Bool) → one_if b ≤ 1
    one_if-le b = ground arith

pub root_session-InLimits :
    {load : Load} (raw : Text) (m : Manager)
    → InLimits load m
    → InLimits load (root_session raw m).1
root_session-InLimits raw m h = record {
  global = ground (arith, runs-root_session raw m, limits-root_session raw m, h.global);
  each =
      λ session. ground (arith, runs-root_session raw m, limits-root_session raw m, h.each session);
  deep = λ session d e.
      ground (arith, session_depth-root_session raw m, limits-root_session raw m, h.deep session d);
  passed = rw (limits-root_session raw m) h.passed;
}

-- The same after one more sweep and the recording of a root.
pub with_run-waited :
    (others later : ℕ) (before after : List Waiting) (w : Waiting) (raw : Text) (run : Run)
    (m : Manager)
    → run.parent_session ≡ w.session
    → run.depth ≡ w.depth
    → InLimits (record { others = others; waiting = before ++ w ∷ after }) m
    → InLimits
        (record { others = others; waiting = before ++ after })
        (with_run run (sweep_expired later (root_session raw m).1))
with_run-waited others later before after w raw run m s d h =
    let m' = (root_session raw m).1 in
    with_run-InLimits others before after w run (sweep_expired later m') s d
      (sweep_expired-InLimits later m' (root_session-InLimits raw m h))

-- A spawn that the check allows may wait, where no more than the others do.
pub check-waits :
    (others : ℕ) (waiting : List Waiting) (w : Waiting) (m : Manager)
    → spawn_check w.session m ≡ allowed w.depth
    → length waiting ≤ others
    → InLimits (record { others = others; waiting = waiting }) m
    → InLimits (record { others = others; waiting = w ∷ waiting }) m
unfolding spawn_check
check-waits others waiting w m e l h = record {
  global = ground arith;
  each = λ session. ground (
    arith,
    text_eq_iff w.session session,
    count-le-length (of_session session) waiting,
    h.each session,
  );
  deep = h.deep;
  passed = (ground arith, h.passed);
}

-- A spawn that is given up waits no more.
pub give_up-InLimits :
    (others : ℕ) (before after : List Waiting) (w : Waiting) (m : Manager)
    → InLimits (record { others = others; waiting = before ++ w ∷ after }) m
    → InLimits (record { others = others; waiting = before ++ after }) m
give_up-InLimits others before after w m h = record {
  global = omega (arith, length-append before (w ∷ after), length-append before after, h.global);
  each = λ session. ground (
    arith,
    count-append (of_session session) before (w ∷ after),
    count-append (of_session session) before after,
    h.each session,
  );
  deep = h.deep;
  passed =
      All-append _ before after (All-append-left _ before (w ∷ after) h.passed)
        (All-append-right _ before (w ∷ after) h.passed).1;
}
