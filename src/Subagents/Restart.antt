-- ===== src/Subagents/Restart.antt =====
-- What a restart makes of the runs of the file.
use kaf_claw.Base.{ℤ, ℕ, ◌≤◌, Text, false, Option, none, some, List, [], ◌∷◌, ◌≡◌, refl, arith}
use kaf_claw.Subagents.Restore.{restarted, completed, restore_runs, new_manager, initial}
use kaf_claw.Subagents.Runs.{Run, Manager, is_active, sweep_expired}
use kaf_claw.Subagents.Spawn.{active_global, with_run}
use kaf_claw.Subagents.Counts.{active_global-insert, active_global-sweep}

restarted-ended :
    (digest : Text → Text) (now : ℕ) (m : Manager) (run : Run)
    → is_active (completed digest (restarted now m run)) ≡ false
unfolding is_active completed
restarted-ended digest now m run = ground arith

active_global-restore_runs :
    (digest : Text → Text) (now : ℕ) (persisted : List Run) (m : Manager)
    → active_global (restore_runs digest now persisted m).runs ≤ active_global m.runs
unfolding restore_runs
active_global-restore_runs digest now [] m = ground arith
active_global-restore_runs digest now (run ∷ persisted) m =
    let run' = completed digest (restarted now m run) in
    ground (
      arith,
      active_global-restore_runs digest now persisted (with_run run' m),
      active_global-insert run'.run_id run' m.runs,
      restarted-ended digest now m run,
    )

none_active : active_global [] ≡ 0
unfolding active_global
none_active = refl

-- A manager that has just been made has no active run, whatever its file held.
pub new_manager-idle :
    (digest : Text → Text) (now : ℕ) (depth children concurrent minutes : ℤ)
    (persisted : Option (List Run))
    → active_global (new_manager digest now depth children concurrent minutes persisted).runs ≡ 0
unfolding new_manager sweep_expired
new_manager-idle digest now depth children concurrent minutes none = none_active
new_manager-idle digest now depth children concurrent minutes (some runs) =
    let m = initial depth children concurrent minutes in
    omega (
      arith,
      active_global-restore_runs digest now runs m,
      active_global-sweep now (restore_runs digest now runs m).runs,
      none_active,
    )
