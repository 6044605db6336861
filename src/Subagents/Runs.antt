-- ===== src/Subagents/Runs.antt =====
-- The runs of internal/agent/subagents.go and the operations that add and change them.
use kaf_claw.Base.{
  ℤ, ℕ, zero, suc, ◌+◌, ◌==◌, leb, Text, lit, text_eq, is_empty, trim_space, Table, lookup, insert,
  delete, Bool, false, ◌&&◌, Option, none, some, [], ◌∷◌, ◌++◌, if◌then◌else◌, is_some, is_none,
}

pub record Run : Type 0 where
  pub run_id : Text
  pub announce_id : Text
  pub parent_session : Text
  pub root_session : Text
  pub requested_by : Text
  pub requester_chan : Text
  pub requester_chat_id : Text
  pub requester_trace : Text
  pub child_session_key : Text
  pub agent_id : Text
  pub task : Text
  pub label : Text
  pub model : Text
  pub thinking : Text
  pub cleanup : Text
  pub status : Text
  pub depth : ℕ
  pub created_at : ℕ
  pub started_at : Option ℕ
  pub ended_at : Option ℕ
  pub archive_at : Option ℕ
  pub announced_at : Option ℕ
  pub last_announce_at : Option ℕ
  pub next_announce_at : Option ℕ
  pub announce_attempts : ℕ
  pub completion_output : Text
  pub error_text : Text
  pub has_cancel : Bool  -- the field `cancel` is set

-- The limits are positive once the constructor has replaced the others.
pub record SubagentLimits : Type 0 where
  pub max_spawn_depth : ℕ
  pub max_children_per_agent : ℕ
  pub max_concurrent : ℕ

pub record Manager : Type 0 where
  pub runs : Table Run
  pub session_depth : Table ℕ
  pub session_root : Table Text
  pub limits : SubagentLimits
  pub archive_after : ℕ

abbrev pub positive_or : ℤ → ℕ → ℕ
positive_or (ℤ.pos zero) other = other
positive_or (ℤ.pos (suc n)) other = suc n
positive_or (ℤ.negsuc n) other = other

abbrev pub second : ℕ
second = 1000000000

unfoldable pub archive_time : ℕ → Manager → Option ℕ
archive_time now m = if m.archive_after == 0 then none else some (now + m.archive_after)

abbrev pub or_text : Text → Text → Text
or_text s other = if is_empty (trim_space s) then other else s

-- `buildSubagentAnnounceID`, for the hexadecimal digest of eight bytes.
unfoldable pub build_announce_id : (Text → Text) → Text → Text → Text
build_announce_id digest child run =
    lit "subannounce:" ++ digest (trim_space child ++ b'|' ∷ trim_space run)

unfoldable pub is_active : Run → Bool
is_active run = is_none run.ended_at

-- An entry that the sweep drops: it has ended and its time in the archive is over.
unfoldable pub is_expired : ℕ → Run → Bool
is_expired now run =
    is_some run.ended_at && elim run.archive_at [ none ↦ false | some at ↦ leb at now ]

-- The loop of `sweepExpiredLocked`, over the runs that are left to look at.
unfoldable pub sweep_runs : ℕ → Table Run → Table Run
sweep_runs now [] = []
sweep_runs now ((k, run) ∷ runs) =
    let rest = sweep_runs now runs in if is_expired now run then rest else (k, run) ∷ rest

unfoldable pub sweep_depths : ℕ → Table Run → Table ℕ → Table ℕ
sweep_depths now [] depths = depths
sweep_depths now ((k, run) ∷ runs) depths =
    sweep_depths now runs
      (if is_expired now run then delete run.child_session_key depths else depths)

unfoldable pub sweep_expired : ℕ → Manager → Manager
sweep_expired now m = record m {
  runs = sweep_runs now m.runs;
  session_depth = sweep_depths now m.runs m.session_depth;
}

unfoldable pub parent_depth : Text → Manager → ℕ
parent_depth session m = elim (lookup session m.session_depth) [ none ↦ 0 | some d ↦ d ]

abbrev pub default_session : Text
default_session = lit "cli:default"

abbrev known_root : Option Text → Text
known_root none = []
known_root (some root) = trim_space root

-- `rootSessionLocked` records a session that has no root yet as its own.
unfoldable pub root_session : Text → Manager → Text × Manager
root_session raw m =
    let session = trim_space raw in
    let known = known_root (lookup session m.session_root) in
    if is_empty session
    then (default_session, m)
    else if is_empty known
    then (session, record m { session_root = insert session session m.session_root })
    else (known, m)

unfoldable pub find_by_child_session : Text → Table Run → Option Run
find_by_child_session session [] = none
find_by_child_session session ((k, run) ∷ runs) =
    if text_eq run.child_session_key session then some run else find_by_child_session session runs

-- A change of one run, where the map has it.
abbrev pub update_run : Text → (Run → Run) → Manager → Manager
update_run id f m = elim (lookup id m.runs) [
  | none ↦ m
  | some run ↦ record m { runs = insert id (f run) m.runs }
]

unfoldable pub mark_running : ℕ → Text → Manager → Manager
mark_running now id =
    update_run id (λ run. record run { status = lit "running"; started_at = some now })

abbrev pub is_killed : Run → Bool
is_killed run = is_some run.ended_at && text_eq run.status (lit "killed")

-- The error is none where the run ended without one.
unfoldable pub mark_finished : ℕ → Text → Text → Option Text → Manager → Manager
mark_finished now id status failure m =
    update_run id
      (λ run. if is_killed run then run else record run {
        status = status;
        ended_at = some now;
        archive_at = archive_time now m;
        has_cancel = false;
        error_text = elim failure [ none ↦ run.error_text | some e ↦ e ];
      })
      m

unfoldable pub mark_completion_output : Text → Text → Manager → Manager
mark_completion_output id output =
    update_run id (λ run. record run { completion_output = trim_space output })
