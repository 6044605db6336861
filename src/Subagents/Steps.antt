-- ===== src/Subagents/Steps.antt =====
-- Sequences of operations, and the limits of the manager.
use kaf_claw.Base.{
  ℤ, Bool, ℕ, Text, is_empty, trim_space, false, length, ◌≤◌, List, ◌∷◌, ◌++◌, Option, ◌≡◌, refl,
  arith,
}
use kaf_claw.Subagents.Runs.{
  Manager, is_active, sweep_expired, mark_running, mark_finished, mark_completion_output,
  root_session, default_session, find_by_child_session,
}
use kaf_claw.Subagents.Spawn.{allowed, can_spawn, register, Request, Ids, trimmed_or, new_run}
use kaf_claw.Subagents.Limits.{
  Waiting, Load, InLimits, sweep_expired-InLimits, update_run-InLimits, with_run-waited,
  check-waits, give_up-InLimits,
}
use kaf_claw.Subagents.Kill.{kill_by_run_id}
use kaf_claw.Subagents.Kill.Limits.{kill_by_run_id-InLimits}
use kaf_claw.Subagents.Announce.{mark_announce_attempt, pending_announce_runs}
use kaf_claw.Subagents.Announce.Limits.{
  mark_announce_attempt-InLimits, pending_announce_runs-InLimits,
}

-- The manager, and the spawns that have passed the check and are not registered yet, for the mutex is
-- free between the two.
pub record State : Type 0 where
  pub manager : Manager
  pub waiting : List Waiting

-- What changes the manager only.
pub data Op (digest : Text → Text) : Manager → Manager → Type 0 where
  refuses : (now : ℕ) (session : Text) (m : Manager) → Op digest m (can_spawn now session m).1
  runs : (now : ℕ) (id : Text) (m : Manager) → Op digest m (mark_running now id m)
  finishes :
      (now : ℕ) (id status : Text) (failure : Option Text) (m : Manager)
      → Op digest m (mark_finished now id status failure m)
  outputs : (id output : Text) (m : Manager) → Op digest m (mark_completion_output id output m)
  sweeps : (now : ℕ) (m : Manager) → Op digest m (sweep_expired now m)
  kills :
      (now : ℕ) (controller id : Text) (m : Manager)
      → Op digest m (kill_by_run_id now controller id m).1
  attempts :
      (now : ℕ) (id : Text) (delivered : Bool) (m : Manager)
      → Op digest m (mark_announce_attempt digest now id delivered m)
  collects :
      (now : ℕ) (limit : ℤ) (m : Manager) → Op digest m (pending_announce_runs digest now limit m).1

-- `others` is how many spawns besides one are between their check and their registration at most. The
-- session that asks is trimmed and not empty, as every session key is; a spawn is registered with the
-- session and the depth of its check, or given up, since its agent is not allowed.
pub data Step (digest : Text → Text) (others : ℕ) : State → State → Type 0 where
  checks :
      (now : ℕ) (w : Waiting) (s : State)
      → length s.waiting ≤ others
      → (can_spawn now w.session s.manager).0 ≡ allowed w.depth
      → Step digest others s
          (record { manager = (can_spawn now w.session s.manager).1; waiting = w ∷ s.waiting })
  registers :
      (later : ℕ) (ids : Ids) (req : Request) (before after : List Waiting) (m : Manager)
      → trim_space req.parent ≡ req.parent
      → is_empty req.parent ≡ false
      → Step digest others
          (record {
            manager = m;
            waiting = before ++ record { session = req.parent; depth = req.depth } ∷ after;
          })
          (record { manager = (register digest later ids req m).1; waiting = before ++ after })
  gives_up :
      (w : Waiting) (before after : List Waiting) (m : Manager)
      → Step digest others
          (record { manager = m; waiting = before ++ w ∷ after })
          (record { manager = m; waiting = before ++ after })
  does :
      (s : State) (m : Manager)
      → Op digest s.manager m
      → Step digest others s (record { manager = m; waiting = s.waiting })

pub data Reach (digest : Text → Text) (others : ℕ) (s : State) : State → Type 0 where
  starts : Reach digest others s s
  next :
      {s' s'' : State}
      → Reach digest others s s'
      → Step digest others s' s''
      → Reach digest others s s''

abbrev pub load_of : ℕ → State → Load
load_of others s = record { others = others; waiting = s.waiting }

register-InLimits :
    (digest : Text → Text) (others later : ℕ) (ids : Ids) (req : Request)
    (before after : List Waiting) (m : Manager)
    → trim_space req.parent ≡ req.parent
    → is_empty req.parent ≡ false
    → InLimits
        (record {
          others = others;
          waiting = before ++ record { session = req.parent; depth = req.depth } ∷ after;
        })
        m
    → InLimits
        (record { others = others; waiting = before ++ after })
        (register digest later ids req m).1
unfolding register new_run
register-InLimits digest others later ids req before after m t n h =
    let parent = trimmed_or req.parent default_session in
    let (root, m') = root_session parent m in
    with_run-waited others later before after (record { session = req.parent; depth = req.depth })
      parent (new_run digest later ids parent root (find_by_child_session parent m'.runs) req) m
      (ground arith) refl h

mark_running-InLimits :
    {load : Load} (now : ℕ) (id : Text) (m : Manager)
    → InLimits load m
    → InLimits load (mark_running now id m)
unfolding mark_running is_active
mark_running-InLimits now id m h = update_run-InLimits id _ m (λ run a. a) (λ run. refl) h

mark_completion_output-InLimits :
    {load : Load} (id output : Text) (m : Manager)
    → InLimits load m
    → InLimits load (mark_completion_output id output m)
unfolding mark_completion_output is_active
mark_completion_output-InLimits id output m h =
    update_run-InLimits id _ m (λ run a. a) (λ run. refl) h

mark_finished-InLimits :
    {load : Load} (now : ℕ) (id status : Text) (failure : Option Text) (m : Manager)
    → InLimits load m
    → InLimits load (mark_finished now id status failure m)
unfolding mark_finished is_active
mark_finished-InLimits now id status failure m h =
    update_run-InLimits id _ m (λ run. ground arith) (λ run. ground arith) h

Op-InLimits :
    {load : Load} {digest : Text → Text} {m m' : Manager}
    → Op digest m m'
    → InLimits load m
    → InLimits load m'
unfolding can_spawn
Op-InLimits (refuses now session m) h = sweep_expired-InLimits now m h
Op-InLimits (runs now id m) h = mark_running-InLimits now id m h
Op-InLimits (finishes now id status failure m) h = mark_finished-InLimits now id status failure m h
Op-InLimits (outputs id output m) h = mark_completion_output-InLimits id output m h
Op-InLimits (sweeps now m) h = sweep_expired-InLimits now m h
Op-InLimits (kills now controller id m) h = kill_by_run_id-InLimits now controller id m h
Op-InLimits (attempts now id delivered m) h = mark_announce_attempt-InLimits _ now id delivered m h
Op-InLimits (collects now limit m) h = pending_announce_runs-InLimits _ now limit m h

Step-InLimits :
    {digest : Text → Text} {others : ℕ} {s s' : State}
    → Step digest others s s'
    → InLimits (load_of others s) s.manager
    → InLimits (load_of others s') s'.manager
unfolding can_spawn
Step-InLimits {others = others} (checks now w s l e) h =
    check-waits others s.waiting w (sweep_expired now s.manager) e l
      (sweep_expired-InLimits now s.manager h)
Step-InLimits {others = others} (registers later ids req before after m t n) h =
    register-InLimits _ others later ids req before after m t n h
Step-InLimits {others = others} (gives_up w before after m) h =
    give_up-InLimits others before after w m h
Step-InLimits (does s m op) h = Op-InLimits op h

-- From a manager within its limits, every sequence of checks, registrations, refusals, starts, ends,
-- outputs, sweeps, kills and announcements leads to one that is within them but for the spawns that may
-- be between their check and their registration at one time: when these are at most n and one more, no
-- more runs are active than may be and n more, no session has more active children than it may have and
-- n more, and no session is deeper than sessions may be. With n = 0, where spawns follow one another, the
-- limits are kept.
pub Reach-InLimits :
    {digest : Text → Text} {others : ℕ} {s s' : State}
    → Reach digest others s s'
    → InLimits (load_of others s) s.manager
    → InLimits (load_of others s') s'.manager
Reach-InLimits starts h = h
Reach-InLimits (next r s) h = Step-InLimits s (Reach-InLimits r h)
