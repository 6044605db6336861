-- ===== src/Subagents/Tests.antt =====
-- Runs of the manager of subagents.
use kaf_claw.Base.{
  pos, ℕ, ◌≤◌, Text, lit, text_eq, trim_space, true, lookup, entries, insert, delete, none, [], ◌∷◌,
  ◌≡◌, refl, arith,
}
use kaf_claw.Subagents.Restore.{new_manager, initial, restore_runs, completed}
use kaf_claw.Subagents.Runs.{
  Run, Manager, sweep_expired, sweep_runs, sweep_depths, parent_depth, mark_finished,
  build_announce_id, archive_time, root_session, find_by_child_session, is_active, is_expired,
}
use kaf_claw.Subagents.Spawn.{
  Request, Ids, can_spawn, active_children, active_global, spawn_check, register, new_run,
  child_key,
}
use kaf_claw.Subagents.Limits.{Waiting, InLimits}
use kaf_claw.Subagents.Kill.{kill_by_run_id, can_control, is_live}
use kaf_claw.Subagents.Kill.Trees.{Gone, Below}
use kaf_claw.Subagents.Kill.Laws.{kill_by_run_id-Gone}
use kaf_claw.Subagents.Steps.{
  State, Reach, starts, next, checks, registers, does, finishes, Reach-InLimits,
}

manager : Unit {0}
unfolding text_eq trim_space lookup insert delete new_manager can_spawn sweep_expired sweep_runs
    sweep_depths parent_depth active_children active_global spawn_check register mark_finished
    restore_runs completed new_run build_announce_id archive_time child_key root_session
    find_by_child_session is_active is_expired kill_by_run_id can_control is_live
manager = tt

abbrev digest : Text → Text
digest s = s

-- One level, two children for a session, two runs in all.
abbrev small : Manager
small = initial (pos 1) (pos 2) (pos 2) (pos 60)

small-InLimits : InLimits (record { others = 1; waiting = [] }) small
unfolding manager
small-InLimits = record {
  global = omega arith;
  each = λ session. omega arith;
  deep = λ session d e. ground arith;
  passed = tt;
}

abbrev request : Request
request = record {
  parent = lit "s";
  requester = lit "s";
  chan = lit "cli";
  chat_id = lit "c";
  trace = lit "t";
  task = lit "look";
  label = [];
  model = [];
  thinking = [];
  agent = [];
  cleanup = [];
  depth = 1;
}

abbrev ids : Ids
ids = record { child = lit "u1"; run = lit "r1" }

abbrev spawned : Manager
spawned = (register digest 6 ids request (can_spawn 5 (lit "s") small).1).1

abbrev ended : Manager
ended = mark_finished 9 (lit "r1") (lit "completed") none spawned

abbrev idle : Manager → State
idle m = record { manager = m; waiting = [] }

abbrev asks : Waiting
asks = record { session = lit "s"; depth = 1 }

spawned-Reach : Reach digest 1 (idle small) (idle ended)
unfolding manager
spawned-Reach =
    next
      (next (next starts (checks 5 asks (idle small) (omega arith) refl))
        (registers 6 ids request [] [] _ refl refl))
      (does _ _ (finishes 9 (lit "r1") (lit "completed") none _))

Reach-InLimits_example : InLimits (record { others = 1; waiting = [] }) ended
Reach-InLimits_example = Reach-InLimits spawned-Reach small-InLimits

-- One run may be active, and two spawns pass the check before either registers.
abbrev tiny : Manager
tiny = initial (pos 1) (pos 2) (pos 1) (pos 60)

abbrev more_ids : Ids
more_ids = record { child = lit "u2"; run = lit "r2" }

abbrev both : Manager
both =
    (register digest 8 more_ids request
      (register digest 7 ids request (can_spawn 6 (lit "s") (can_spawn 5 (lit "s") tiny).1).1).1).1

both-Reach : Reach digest 1 (idle tiny) (idle both)
unfolding manager
both-Reach =
    next
      (next
        (next (next starts (checks 5 asks (idle tiny) (omega arith) refl))
          (checks 6 asks _ (omega arith) refl))
        (registers 7 ids request [] (asks ∷ []) _ refl refl))
      (registers 8 more_ids request [] [] _ refl refl)

two_active : active_global both.runs ≡ 2
unfolding manager
two_active = refl

abbrev the_run : Run
the_run = (register digest 6 ids request (can_spawn 5 (lit "s") small).1).0

abbrev after_kill : Manager
after_kill = (kill_by_run_id 8 (lit "s") (lit "r1") spawned).1

kill_by_run_id-Gone_example :
    let swept = sweep_expired 8 spawned in
    (text_eq (root_session (lit "s") swept).0 (trim_space the_run.root_session) ≡ true)
    × (Gone (lit "r1") after_kill.runs
        × ((steps : ℕ) (target : Text)
            → steps ≤ entries swept.runs
            → Below swept.runs steps the_run.child_session_key target
            → Gone target after_kill.runs))
unfolding manager
kill_by_run_id-Gone_example =
    kill_by_run_id-Gone 8 (lit "s") (lit "r1") the_run spawned after_kill refl refl
