-- ===== src/Subagents/Kill.antt =====
-- The killing of a run and of what it has spawned, in internal/agent/subagents.go, and the lookups by
-- controller. The recursion of `killDescendantsLocked` has fuel: the source has no bound of its own.
pub mod Trees
pub mod Limits
pub mod Laws
use kaf_claw.Base.{
  ℕ, zero, suc, Text, lit, text_eq, trim_space, Table, lookup, entries, Bool, true, false, ◌&&◌,
  not, Option, none, some, List, [], ◌∷◌, if◌then◌else◌,
}
use kaf_claw.Subagents.Runs.{Run, Manager, is_active, archive_time, sweep_expired, root_session}

-- A run that there is something to cancel of.
unfoldable pub is_live : Run → Bool
is_live run = run.has_cancel && is_active run

unfoldable pub kill_run : ℕ → Option ℕ → Run → Run
kill_run now archive run =
    if is_live run
    then record run {
      ended_at = some now;
      archive_at = archive;
      status = lit "killed";
      has_cancel = false;
    }
    else run

-- A change of the run under one key, in place.
unfoldable pub change_at : (Run → Run) → Text → Table Run → Table Run
change_at f id [] = []
change_at f id ((k, run) ∷ runs) =
    let rest = change_at f id runs in if text_eq k id then (k, f run) ∷ runs else (k, run) ∷ rest

-- The loop of `killDescendantsLocked` over the entries that are left, with the call it makes for
-- each child.
unfoldable pub kill_each :
    (Run → Run) → (Text → Table Run → Table Run) → Text → Table Run → Table Run → Table Run
kill_each kill deeper session [] runs = runs
kill_each kill deeper session ((k, child) ∷ left) runs = kill_each kill deeper session left (
    if text_eq child.parent_session session
    then deeper child.child_session_key (change_at kill k runs)
    else runs)

unfoldable pub kill_descendants : (Run → Run) → ℕ → Text → Table Run → Table Run
kill_descendants kill zero session runs = runs
kill_descendants kill (suc fuel) session runs =
    kill_each kill (kill_descendants kill fuel) session runs runs

unfoldable pub can_control : Text → Run → Manager → Bool × Manager
can_control controller run m =
    let (root, m') = root_session controller m in (text_eq root (trim_space run.root_session), m')

pub data Killed : Type 0 where
  killed : Bool → Killed
  unknown_run not_in_scope : Killed

-- The target and what it has spawned.
unfoldable pub kill_tree : ℕ → Text → Run → Manager → Manager
kill_tree now id run m =
    let kill = kill_run now (archive_time now m) in
    record m {
      runs =
          kill_descendants kill (entries m.runs) run.child_session_key (change_at kill id m.runs);
    }

abbrev pub kill_in_scope : ℕ → Text → Run → Bool × Manager → Killed × Manager
kill_in_scope now id run (false, m) = (not_in_scope, m)
kill_in_scope now id run (true, m) =
    if is_live run then (killed true, kill_tree now id run m) else (killed false, m)

unfoldable pub kill_by_run_id : ℕ → Text → Text → Manager → Killed × Manager
kill_by_run_id now controller id m =
    let m' = sweep_expired now m in
    elim (lookup id m'.runs) [
      | none ↦ (unknown_run, m')
      | some run ↦ kill_in_scope now id run (can_control controller run m')
    ]

pub data Found : Type 0 where
  found : Run → Found
  no_run out_of_scope : Found

unfoldable pub get_by_run_id : Text → Text → Manager → Found × Manager
get_by_run_id controller id m = elim (lookup id m.runs) [
  | none ↦ (no_run, m)
  | some run ↦
      let (allowed, m') = can_control controller run m in
      (if allowed then found run else out_of_scope, m')
]

abbrev runs_of_root : Text → Table Run → List Run
runs_of_root root [] = []
runs_of_root root ((k, run) ∷ runs) =
    let rest = runs_of_root root runs in if text_eq run.root_session root then run ∷ rest else rest

-- `listByController`, before it sorts by the time of creation.
unfoldable pub list_by_controller : ℕ → Text → Manager → List Run × Manager
list_by_controller now controller m =
    let (root, m') = root_session controller (sweep_expired now m) in
    (runs_of_root root m'.runs, m')
