-- ===== src/Subagents/Restore.antt =====
-- The constructor of internal/agent/subagents.go, with the runs that a restart finds in the file.
use kaf_claw.Base.{
  ℤ, ℕ, ◌*◌, Text, lit, is_empty, trim_space, false, Option, none, some, List, [], ◌∷◌,
  if◌then◌else◌,
}
use kaf_claw.Subagents.Runs.{
  Manager, Run, archive_time, build_announce_id, is_active, or_text, positive_or, second,
  sweep_expired,
}
use kaf_claw.Subagents.Spawn.{trimmed_or, with_run}

-- What `restoreFromDisk` does to one run of the file: a run in flight has failed, and missing fields
-- are filled in.
abbrev pub restarted : ℕ → Manager → Run → Run
restarted now m run =
    if is_active run
    then record run {
      status = lit "failed";
      error_text = lit "gateway restarted before subagent completion";
      ended_at = some now;
      archive_at = archive_time now m;
    }
    else run

abbrev pub root_or_child : Run → Text
root_or_child run =
    if is_empty (trim_space run.root_session)
    then trimmed_or run.parent_session run.child_session_key
    else run.root_session

unfoldable pub completed : (Text → Text) → Run → Run
completed digest run = record run {
  has_cancel = false;
  announce_id = or_text run.announce_id (build_announce_id digest run.child_session_key run.run_id);
  requested_by = or_text run.requested_by run.parent_session;
  root_session = root_or_child run;
  cleanup = or_text run.cleanup (lit "keep");
}

unfoldable pub restore_runs : (Text → Text) → ℕ → List Run → Manager → Manager
restore_runs digest now [] m = m
restore_runs digest now (run ∷ persisted) m =
    restore_runs digest now persisted (with_run (completed digest (restarted now m run)) m)

abbrev pub initial : ℤ → ℤ → ℤ → ℤ → Manager
initial depth children concurrent minutes = record {
  runs = [];
  session_depth = [];
  session_root = [];
  limits = record {
    max_spawn_depth = positive_or depth 1;
    max_children_per_agent = positive_or children 5;
    max_concurrent = positive_or concurrent 8;
  };
  archive_after = positive_or minutes 60 * (60 * second);
}

-- `newSubagentManager` with the runs of its file, none where there is no file to read.
unfoldable pub new_manager : (Text → Text) → ℕ → ℤ → ℤ → ℤ → ℤ → Option (List Run) → Manager
new_manager digest now depth children concurrent minutes persisted =
    let m = initial depth children concurrent minutes in
    elim persisted [ none ↦ m | some runs ↦ sweep_expired now (restore_runs digest now runs m) ]
