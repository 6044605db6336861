-- ===== src/Subagents/Kill/Limits.antt =====
-- That a kill makes no run active, and so keeps to the limits on spawning.
use kaf_claw.Base.{
  ℕ, zero, suc, ◌≤◌, Text, text_eq, Table, lookup, entries, Bool, true, false, Option, [], ◌∷◌, inl,
  inr, arith, Bool-cases, Option-cases,
}
use kaf_claw.Subagents.Runs.{Run, Manager, is_active, archive_time, sweep_expired}
use kaf_claw.Subagents.Spawn.{active_global, active_children}
use kaf_claw.Subagents.Limits.{Load, InLimits, sweep_expired-InLimits, root_session-InLimits}
use kaf_claw.Subagents.Kill.{
  is_live, kill_run, change_at, kill_each, kill_descendants, kill_tree, can_control, kill_in_scope,
  kill_by_run_id,
}

-- No session has more active children in the second table, nor has the whole table more.
pub record Fewer (runs runs' : Table Run) : Type 0 where
  pub in_all : active_global runs' ≤ active_global runs
  pub in_each : (session : Text) → active_children session runs' ≤ active_children session runs

Fewer-refl : (runs : Table Run) → Fewer runs runs
Fewer-refl runs = record { in_all = omega arith; in_each = λ session. omega arith }

Fewer-trans : (a b c : Table Run) → Fewer a b → Fewer b c → Fewer a c
Fewer-trans a b c f g = record {
  in_all = omega (arith, f.in_all, g.in_all);
  in_each = λ session. omega (arith, f.in_each session, g.in_each session);
}

module _ (now : ℕ) (archive : Option ℕ) where
  active_global-change_at :
      (k : Text) (runs : Table Run)
      → active_global (change_at (kill_run now archive) k runs) ≤ active_global runs
  unfolding active_global change_at kill_run is_active
  active_global-change_at k [] = omega arith
  active_global-change_at k ((j, r) ∷ runs) = ground (arith, active_global-change_at k runs)

  active_children-change_at :
      (session k : Text) (runs : Table Run)
      → active_children session (change_at (kill_run now archive) k runs)
        ≤ active_children session runs
  unfolding active_children change_at kill_run is_active
  active_children-change_at session k [] = omega arith
  active_children-change_at session k ((j, r) ∷ runs) =
      ground (arith, active_children-change_at session k runs)

  change_at-Fewer :
      (k : Text) (runs : Table Run) → Fewer runs (change_at (kill_run now archive) k runs)
  change_at-Fewer k runs = record {
    in_all = active_global-change_at k runs;
    in_each = λ session. active_children-change_at session k runs;
  }

  kill_each-Fewer :
      (go : Text → Table Run → Table Run) (session : Text) (left runs : Table Run)
      → ((s : Text) (rs : Table Run) → Fewer rs (go s rs))
      → Fewer runs (kill_each (kill_run now archive) go session left runs)
  unfolding kill_each
  kill_each-Fewer go session [] runs fewer = Fewer-refl runs
  kill_each-Fewer go session ((k, c) ∷ left) runs fewer =
      elim (Bool-cases (text_eq c.parent_session session)) [
        | inr other ↦ rw (other, kill_each) (kill_each-Fewer go session left runs fewer)
        | inl its ↦
            let changed = change_at (kill_run now archive) k runs in
            let next = go c.child_session_key changed in
            rw (its, kill_each)
              (Fewer-trans runs next (kill_each (kill_run now archive) go session left next)
                (Fewer-trans runs changed next (change_at-Fewer k runs)
                  (fewer c.child_session_key changed))
                (kill_each-Fewer go session left next fewer))
      ]

  kill_descendants-Fewer :
      (fuel : ℕ) (session : Text) (runs : Table Run)
      → Fewer runs (kill_descendants (kill_run now archive) fuel session runs)
  unfolding kill_descendants
  kill_descendants-Fewer zero session runs = Fewer-refl runs
  kill_descendants-Fewer (suc fuel) session runs =
      kill_each-Fewer (kill_descendants (kill_run now archive) fuel) session runs runs
        (kill_descendants-Fewer fuel)

kill_tree-InLimits :
    {load : Load} (now : ℕ) (id : Text) (run : Run) (m : Manager)
    → InLimits load m
    → InLimits load (kill_tree now id run m)
unfolding kill_tree
kill_tree-InLimits now id run m h =
    let at = archive_time now m in
    let changed = change_at (kill_run now at) id m.runs in
    let fewer =
      Fewer-trans m.runs changed
        (kill_descendants (kill_run now at) (entries m.runs) run.child_session_key changed)
        (change_at-Fewer now at id m.runs)
        (kill_descendants-Fewer now at (entries m.runs) run.child_session_key changed) in
    record {
      global = omega (arith, fewer.in_all, h.global);
      each = λ session. omega (arith, fewer.in_each session, h.each session);
      deep = h.deep;
      passed = h.passed;
    }

kill_in_scope-InLimits :
    {load : Load} (now : ℕ) (id : Text) (run : Run) (asked : Bool × Manager)
    → InLimits load asked.1
    → InLimits load (kill_in_scope now id run asked).1
kill_in_scope-InLimits now id run (false, m) h = h
kill_in_scope-InLimits now id run (true, m) h = elim (Bool-cases (is_live run)) [
  | inl e ↦ rw (e, kill_in_scope) (kill_tree-InLimits now id run m h)
  | inr e ↦ rw (e, kill_in_scope) h
]

pub kill_by_run_id-InLimits :
    {load : Load} (now : ℕ) (controller id : Text) (m : Manager)
    → InLimits load m
    → InLimits load (kill_by_run_id now controller id m).1
unfolding kill_by_run_id can_control
kill_by_run_id-InLimits now controller id m h =
    let swept = sweep_expired-InLimits now m h in
    elim (Option-cases (lookup id (sweep_expired now m).runs)) [
      | inl e ↦ rw (e, kill_by_run_id) swept
      | inr (run, e) ↦
          rw (e, kill_by_run_id)
            (kill_in_scope-InLimits now id run (can_control controller run (sweep_expired now m))
              (root_session-InLimits controller (sweep_expired now m) swept))
    ]
