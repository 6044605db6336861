-- ===== src/Subagents/Counts.antt =====
-- How the operations change the numbers of active runs, and the check of the limits.
use kaf_claw.Base.{
  ℕ, suc, ◌+◌, ◌≤◌, ◌<◌, Text, text_eq, Table, delete, lookup-delete, lookup, insert, Bool, true,
  ◌&&◌, some, [], ◌∷◌, ◌≡◌, ◌↔◌, arith, if◌then◌else◌,
}
use kaf_claw.Subagents.Runs.{
  Run, Manager, is_active, sweep_runs, sweep_depths, is_expired, sweep_expired, parent_depth,
  root_session,
}
use kaf_claw.Subagents.Spawn.{active_global, active_children, allowed, spawn_check, can_spawn}

-- A spawn is allowed just where, after the sweep, the session is above the deepest level, has fewer
-- active children than one session may have and fewer runs are active than may be at one time; the
-- child is then one level below the session.
pub can_spawn_iff :
    (now : ℕ) (session : Text) (m : Manager) (d : ℕ)
    → let m' = sweep_expired now m in
      ((can_spawn now session m).0 ≡ allowed d) ↔ (
        (d ≡ suc (parent_depth session m'))
        × ((d ≤ m'.limits.max_spawn_depth)
            × ((active_children session m'.runs < m'.limits.max_children_per_agent)
                × (active_global m'.runs < m'.limits.max_concurrent))))
unfolding can_spawn spawn_check
can_spawn_iff now session m d = ground arith

-- A sweep makes no run active.
pub active_global-sweep :
    (now : ℕ) (runs : Table Run) → active_global (sweep_runs now runs) ≤ active_global runs
unfolding active_global sweep_runs
active_global-sweep now [] = omega arith
active_global-sweep now ((k, run) ∷ runs) = ground (arith, active_global-sweep now runs)

pub active_children-sweep :
    (now : ℕ) (session : Text) (runs : Table Run)
    → active_children session (sweep_runs now runs) ≤ active_children session runs
unfolding active_children sweep_runs
active_children-sweep now session [] = omega arith
active_children-sweep now session ((k, run) ∷ runs) =
    ground (arith, active_children-sweep now session runs)

abbrev pub one_if : Bool → ℕ
one_if b = if b then 1 else 0

pub active_global-insert :
    (id : Text) (run : Run) (runs : Table Run)
    → active_global (insert id run runs) ≤ one_if (is_active run) + active_global runs
unfolding active_global insert
active_global-insert id run [] = omega arith
active_global-insert id run ((k, r) ∷ runs) = ground (arith, active_global-insert id run runs)

pub active_children-insert :
    (session id : Text) (run : Run) (runs : Table Run)
    → active_children session (insert id run runs)
      ≤ one_if (text_eq run.parent_session session && is_active run) + active_children session runs
unfolding active_children insert
active_children-insert session id run [] = omega arith
active_children-insert session id run ((k, r) ∷ runs) =
    ground (arith, active_children-insert session id run runs)

-- The same, where the new run takes the place of one that is as active for the same session.
pub active_global-replace :
    (id : Text) (old new : Run) (runs : Table Run)
    → lookup id runs ≡ some old
    → (is_active new ≡ true → is_active old ≡ true)
    → active_global (insert id new runs) ≤ active_global runs
unfolding active_global insert lookup
active_global-replace id old new [] e h = ground arith
active_global-replace id old new ((k, r) ∷ runs) e h =
    ground (arith, active_global-replace id old new runs)

pub active_children-replace :
    (session id : Text) (old new : Run) (runs : Table Run)
    → lookup id runs ≡ some old
    → (is_active new ≡ true → is_active old ≡ true)
    → new.parent_session ≡ old.parent_session
    → active_children session (insert id new runs) ≤ active_children session runs
unfolding active_children insert lookup
active_children-replace session id old new [] e h p = ground arith
active_children-replace session id old new ((k, r) ∷ runs) e h p =
    ground (arith, active_children-replace session id old new runs)

pub runs-root_session : (raw : Text) (m : Manager) → (root_session raw m).1.runs ≡ m.runs
unfolding root_session
runs-root_session raw m = ground arith

pub session_depth-root_session :
    (raw : Text) (m : Manager) → (root_session raw m).1.session_depth ≡ m.session_depth
unfolding root_session
session_depth-root_session raw m = ground arith

pub limits-root_session : (raw : Text) (m : Manager) → (root_session raw m).1.limits ≡ m.limits
unfolding root_session
limits-root_session raw m = ground arith

-- A depth that is recorded after a sweep was recorded before.
pub lookup-sweep_depths :
    (now : ℕ) (session : Text) (d : ℕ) (runs : Table Run) (depths : Table ℕ)
    → lookup session (sweep_depths now runs depths) ≡ some d
    → lookup session depths ≡ some d
unfolding sweep_depths
lookup-sweep_depths now session d [] depths e = e
lookup-sweep_depths now session d ((k, run) ∷ runs) depths e = ground (
  arith,
  lookup-sweep_depths now session d runs
      (if is_expired now run then delete run.child_session_key depths else depths) e,
  lookup-delete session run.child_session_key depths,
)
