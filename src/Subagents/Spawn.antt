-- ===== src/Subagents/Spawn.antt =====
-- Spawning in internal/agent/subagents.go: the check of the limits and the registration of a run.
use kaf_claw.Base.{
  ℕ, suc, leb, Text, lit, text_eq, is_empty, trim_space, Table, insert, count, true, ◌&&◌, Option,
  none, some, [], ◌++◌, if◌then◌else◌,
}
use kaf_claw.Subagents.Runs.{
  Manager, Run, build_announce_id, default_session, find_by_child_session, is_active, or_text,
  parent_depth, root_session, sweep_expired,
}

-- The counts of `canSpawn`, over the values of the map.
unfoldable pub active_global : Table Run → ℕ
active_global = count (λ (entry : Text × Run). is_active entry.1)

unfoldable pub active_children : Text → Table Run → ℕ
active_children session =
    count (λ (entry : Text × Run). text_eq entry.1.parent_session session && is_active entry.1)

pub data SpawnError : Type 0 where
  depth_limit children_limit global_limit : SpawnError

pub data Spawn : Type 0 where
  allowed : ℕ → Spawn
  refused : SpawnError → Spawn

-- The part of `canSpawn` behind the sweep.
unfoldable pub spawn_check : Text → Manager → Spawn
spawn_check session m =
    if leb m.limits.max_spawn_depth (parent_depth session m)
    then refused depth_limit
    else if leb m.limits.max_children_per_agent (active_children session m.runs)
    then refused children_limit
    else if leb m.limits.max_concurrent (active_global m.runs)
    then refused global_limit
    else allowed (suc (parent_depth session m))

unfoldable pub can_spawn : ℕ → Text → Manager → Spawn × Manager
can_spawn now session m = let m' = sweep_expired now m in (spawn_check session m', m')

-- What `register` is called with.
pub record Request : Type 0 where
  pub parent : Text
  pub requester : Text
  pub chan : Text
  pub chat_id : Text
  pub trace : Text
  pub task : Text
  pub label : Text
  pub model : Text
  pub thinking : Text
  pub agent : Text
  pub cleanup : Text
  pub depth : ℕ

-- The two ids that google/uuid gives.
pub record Ids : Type 0 where
  pub child : Text
  pub run : Text

abbrev pub trimmed_or : Text → Text → Text
trimmed_or s other = let t = trim_space s in if is_empty t then other else t

unfoldable pub child_key : Text → Text → Text
child_key agent uuid =
    if is_empty agent
    then lit "subagent:" ++ uuid
    else lit "agent:" ++ agent ++ lit ":subagent:" ++ uuid

abbrev pub inherited : (Run → Text) → Text → Option Run → Text
inherited field own none = own
inherited field own (some parent) = or_text own (field parent)

-- The run that `register` builds, for its parent session and that session's root.
unfoldable pub new_run : (Text → Text) → ℕ → Ids → Text → Text → Option Run → Request → Run
new_run digest now ids parent root parent_run req =
    let agent = trim_space req.agent in
    let child = child_key agent ids.child in
    record {
      run_id = ids.run;
      announce_id = build_announce_id digest child ids.run;
      parent_session = parent;
      root_session = root;
      requested_by = trimmed_or req.requester parent;
      requester_chan = trim_space (inherited (λ r. r.requester_chan) req.chan parent_run);
      requester_chat_id = trim_space (inherited (λ r. r.requester_chat_id) req.chat_id parent_run);
      requester_trace = trim_space (inherited (λ r. r.requester_trace) req.trace parent_run);
      child_session_key = child;
      agent_id = agent;
      task = req.task;
      label = req.label;
      model = req.model;
      thinking = req.thinking;
      cleanup = trimmed_or req.cleanup (lit "keep");
      status = lit "accepted";
      depth = req.depth;
      created_at = now;
      started_at = none;
      ended_at = none;
      archive_at = none;
      announced_at = none;
      last_announce_at = none;
      next_announce_at = none;
      announce_attempts = 0;
      completion_output = [];
      error_text = [];
      has_cancel = true;
    }

abbrev pub with_run : Run → Manager → Manager
with_run run m = record m {
  runs = insert run.run_id run m.runs;
  session_depth = insert run.child_session_key run.depth m.session_depth;
  session_root = insert run.child_session_key run.root_session m.session_root;
}

unfoldable pub register : (Text → Text) → ℕ → Ids → Request → Manager → Run × Manager
register digest now ids req m =
    let parent = trimmed_or req.parent default_session in
    let (root, m') = root_session parent m in
    let run = new_run digest now ids parent root (find_by_child_session parent m'.runs) req in
    (run, with_run run (sweep_expired now m'))
