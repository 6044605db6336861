-- ===== src/Group/Manager.antt =====
-- `Manager` of internal/group/manager.go, with a timeline, whose tables are those of
-- internal/timeline/service.go that it writes. `ok` says whether the LFS proxy took an envelope. none
-- is an error, after which the state is the one before. Publishing traces and audit events, the status
-- summary and the ticker of the heartbeat are left out.
pub mod Laws
use kaf_claw.Base.{
  ℤ, is_nonpos, pos_part, ℕ, zero, suc, ◌+◌, ltb, leb, Text, lit, text_eq, is_empty, has_prefix,
  Table, lookup, insert, delete, entries, Bool, true, false, not, ◌&&◌, ◌||◌, Option, none, some,
  List, [], ◌∷◌, ◌++◌, map, keep, is_none, if◌then◌else◌,
}
use kaf_claw.Group.{
  AgentIdentity, GroupMember, group_topic, extended_topics, AnnounceAction, join, heartbeat, leave,
  other, Payload, announce, request, response, task_status, ensure_topic, TaskRequest, TaskReply,
  Produced,
}
use kaf_claw.Group.Topics.{TopicManager, new_topic_manager}

pub record GroupConfig : Type 0 where
  pub group_name : Text
  pub onboard_mode : Text
  pub max_delegation_depth : ℤ

-- A row of group_members; the columns of its description are those of the identity.
pub record MemberRow : Type 0 where
  pub identity : AgentIdentity
  pub status : Text
  pub last_seen : ℕ
  pub left_at : Option ℕ

pub record HistoryRow : Type 0 where
  pub agent_id : Text
  pub role : Text
  pub action : Text

pub record DelegationEvent : Type 0 where
  pub task_id : Text
  pub event_type : Text
  pub sender_id : Text
  pub summary : Text
  pub depth : ℕ

pub record GroupTask : Type 0 where
  pub request : TaskRequest
  pub responder_id : Text
  pub status : Text
  pub accepted_at : Option ℕ

pub record GroupStore : Type 0 where
  pub members : Table MemberRow
  pub history : List HistoryRow
  pub tasks : Table GroupTask
  pub events : List DelegationEvent
  pub last_attempt_at : ℕ
  pub last_success_at : ℕ
  pub heartbeat_seq : ℕ

pub record Manager : Type 0 where
  pub cfg : GroupConfig
  pub identity : AgentIdentity
  pub topic_mgr : TopicManager
  pub roster : Table GroupMember
  pub active : Bool
  pub store : GroupStore
  pub produced : List Produced

abbrev empty_store : GroupStore
empty_store = record {
  members = [];
  history = [];
  tasks = [];
  events = [];
  last_attempt_at = 0;
  last_success_at = 0;
  heartbeat_seq = 0;
}

unfoldable pub new_manager : GroupConfig → AgentIdentity → Manager
new_manager cfg identity = record {
  cfg = cfg;
  identity = identity;
  topic_mgr = new_topic_manager cfg.group_name;
  roster = [];
  active = false;
  store = empty_store;
  produced = [];
}

abbrev pub produce : Text → Payload → Manager → Manager
produce topic payload m = record m {
  produced =
      m.produced
      ++ record { topic = topic; sender_id = m.identity.agent_id; payload = payload } ∷ [];
}

abbrev pub member_of : AgentIdentity → Text → Text → ℕ → GroupMember
member_of id role status now = record {
  agent_id = id.agent_id;
  agent_name = id.agent_name;
  soul_summary = id.soul_summary;
  capabilities = id.capabilities;
  channels = id.channels;
  model = id.model;
  role = role;
  status = status;
  last_seen = now;
}

-- A conflict on the agent's id keeps the column of the departure.
abbrev left_at_of : Option MemberRow → Option ℕ
left_at_of none = none
left_at_of (some r) = r.left_at

unfoldable pub upsert_group_member : ℕ → AgentIdentity → Text → GroupStore → GroupStore
upsert_group_member now id status st = record st {
  members =
      insert id.agent_id
        (record {
          identity = id;
          status = status;
          last_seen = now;
          left_at = left_at_of (lookup id.agent_id st.members);
        })
        st.members;
}

abbrev pub left : ℕ → MemberRow → MemberRow
left now r = record r { status = lit "left"; left_at = some now }

unfoldable pub soft_delete_group_member : ℕ → Text → GroupStore → GroupStore
soft_delete_group_member now id st = elim (lookup id st.members) [
  | none ↦ st
  | some r ↦ record st { members = insert id (left now r) st.members }
]

abbrev mark_stale : ℕ → MemberRow → MemberRow
mark_stale cutoff r =
    if ltb r.last_seen cutoff && text_eq r.status (lit "active")
    then record r { status = lit "stale" }
    else r

unfoldable pub mark_stale_members : ℕ → GroupStore → GroupStore
mark_stale_members cutoff st = record st {
  members = map (λ e. (e.0, mark_stale cutoff e.1)) st.members;
}

abbrev pub log_history : AgentIdentity → Text → Text → GroupStore → GroupStore
log_history id role action st = record st {
  history = st.history ++ record { agent_id = id.agent_id; role = role; action = action } ∷ [];
}

abbrev pub log_event : Text → Text → Text → Text → ℕ → GroupStore → GroupStore
log_event task_id event_type sender_id summary depth st = record st {
  events =
      st.events
      ++ record {
        task_id = task_id;
        event_type = event_type;
        sender_id = sender_id;
        summary = summary;
        depth = depth;
      }
        ∷ [];
}

unfoldable pub persist_heartbeat_metadata : ℕ → GroupStore → GroupStore
persist_heartbeat_metadata now st = record st {
  last_attempt_at = now;
  last_success_at = now;
  heartbeat_seq = suc st.heartbeat_seq;
}

abbrev announce_topic : Manager → Text
announce_topic m = (extended_topics m.cfg.group_name).control_announce

-- The rows that have not left.
unfoldable pub list_group_members : GroupStore → Table MemberRow
list_group_members st = keep (λ e. is_none e.1.left_at) st.members

-- The first agent of a group, as far as this one knows, is its coordinator.
abbrev joining_role : Manager → Text
joining_role m =
    if is_empty m.identity.role && (elim m.roster [ [] ↦ true | _ ∷ _ ↦ false ])
    then lit "coordinator"
    else m.identity.role

unfoldable pub join_group : Bool → ℕ → Manager → Option Manager
join_group ok now m =
    let m' = produce (announce_topic m) (announce join m.identity) m in
    let role = joining_role m in
    let id = record m.identity { role = role } in
    if m.active || not ok
    then none
    else some (record m' {
      identity = id;
      roster = insert id.agent_id (member_of id role (lit "active") now) m.roster;
      store =
          persist_heartbeat_metadata now (
            log_history id role (lit "joined") (upsert_group_member now id (lit "active") m.store));
      active = true;
    })

unfoldable pub leave_group : Bool → ℕ → Manager → Option Manager
leave_group ok now m =
    let m' = if ok then produce (announce_topic m) (announce leave m.identity) m else m in
    if not m.active
    then none
    else some (record m' {
      store =
          log_history m.identity m.identity.role (lit "left")
            (soft_delete_group_member now m.identity.agent_id m.store);
      active = false;
      roster = [];
    })

unfoldable pub member_count : Manager → ℕ
member_count m = entries m.roster

abbrev seen : ℕ → AgentIdentity → Manager → Manager
seen now id m = record m {
  roster = insert id.agent_id (member_of id id.role id.status now) m.roster;
  store = upsert_group_member now id (lit "active") m.store;
}

-- The manager, and whether a goroutine sends a heartbeat.
unfoldable pub handle_announce : ℕ → AnnounceAction → AgentIdentity → Manager → Manager × Bool
handle_announce now join id m = (seen now id m, true)
handle_announce now heartbeat id m = (seen now id m, false)
handle_announce now leave id m = (
  record m {
    roster = delete id.agent_id m.roster;
    store = soft_delete_group_member now id.agent_id m.store;
  },
  false,
)
handle_announce now other id m = (m, false)

unfoldable pub send_heartbeat : Bool → ℕ → Manager → Manager
send_heartbeat ok now m =
    let sent = produce (announce_topic m) (announce heartbeat m.identity) m in
    if not m.active
    then m
    else if ok
    then record sent { store = persist_heartbeat_metadata now m.store }
    else record m { store = record m.store { last_attempt_at = now } }
