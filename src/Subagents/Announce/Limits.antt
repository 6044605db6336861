-- ===== src/Subagents/Announce/Limits.antt =====
-- That announcements keep to the limits on spawning.
use kaf_claw.Base.{ℤ, ℕ, ◌≤◌, Text, Table, Bool, [], ◌∷◌, arith}
use kaf_claw.Subagents.Runs.{Run, Manager, is_active, sweep_expired}
use kaf_claw.Subagents.Spawn.{active_global, active_children}
use kaf_claw.Subagents.Limits.{Load, InLimits, sweep_expired-InLimits, update_run-InLimits}
use kaf_claw.Subagents.Announce.{mark_announce_attempt, fill_ids, pending_announce_runs}

pub mark_announce_attempt-InLimits :
    {load : Load} (digest : Text → Text) (now : ℕ) (id : Text) (delivered : Bool) (m : Manager)
    → InLimits load m
    → InLimits load (mark_announce_attempt digest now id delivered m)
unfolding mark_announce_attempt is_active
mark_announce_attempt-InLimits digest now id delivered m h =
    update_run-InLimits id _ m (λ run. ground arith) (λ run. ground arith) h

active_global-fill_ids :
    (digest : Text → Text) (runs : Table Run)
    → active_global (fill_ids digest runs) ≤ active_global runs
unfolding active_global fill_ids is_active
active_global-fill_ids digest [] = omega arith
active_global-fill_ids digest ((k, r) ∷ runs) = ground (arith, active_global-fill_ids digest runs)

active_children-fill_ids :
    (digest : Text → Text) (session : Text) (runs : Table Run)
    → active_children session (fill_ids digest runs) ≤ active_children session runs
unfolding active_children fill_ids is_active
active_children-fill_ids digest session [] = omega arith
active_children-fill_ids digest session ((k, r) ∷ runs) =
    ground (arith, active_children-fill_ids digest session runs)

filled-InLimits :
    {load : Load} (digest : Text → Text) (m : Manager)
    → InLimits load m
    → InLimits load (record m { runs = fill_ids digest m.runs })
filled-InLimits digest m h = record {
  global = omega (arith, active_global-fill_ids digest m.runs, h.global);
  each = λ session. omega (arith, active_children-fill_ids digest session m.runs, h.each session);
  deep = h.deep;
  passed = h.passed;
}

pub pending_announce_runs-InLimits :
    {load : Load} (digest : Text → Text) (now : ℕ) (limit : ℤ) (m : Manager)
    → InLimits load m
    → InLimits load (pending_announce_runs digest now limit m).1
unfolding pending_announce_runs
pending_announce_runs-InLimits digest now limit m h =
    filled-InLimits digest (sweep_expired now m) (sweep_expired-InLimits now m h)
