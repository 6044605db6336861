-- ===== src/Group/Delegation.antt =====
-- The tasks that an agent gives to its group, from internal/group/manager.go.
use kaf_claw.Base.{
  is_nonpos, pos_part, ℕ, suc, leb, Text, lit, text_eq, is_empty, has_prefix, Table, lookup, insert,
  Bool, not, ◌||◌, Option, none, some, [], if◌then◌else◌,
}
use kaf_claw.Group.{
  group_topic, extended_topics, request, response, task_status, ensure_topic, TaskRequest,
}
use kaf_claw.Group.Manager.{Manager, GroupStore, GroupTask, GroupConfig, produce, log_event}

abbrev requests_topic : Manager → Text
requests_topic m = (extended_topics m.cfg.group_name).task_requests

abbrev responses_topic : Manager → Text
responses_topic m = (extended_topics m.cfg.group_name).task_responses

unfoldable pub submit_task : Bool → Text → Text → Text → Manager → Option Manager
submit_task ok task_id description content m =
    if not m.active || not ok
    then none
    else some (
        produce (requests_topic m)
          (request (record {
            task_id = task_id;
            description = description;
            content = content;
            requester_id = m.identity.agent_id;
            parent_task_id = [];
            delegation_depth = 0;
            original_requester_id = [];
          }))
          m)

abbrev is_final_status : Text → Bool
is_final_status status = text_eq status (lit "completed") || text_eq status (lit "failed")

unfoldable pub respond_task : Bool → Text → Text → Text → Manager → Option Manager
respond_task ok task_id content status m =
    let me = m.identity.agent_id in
    let m' =
      produce (responses_topic m)
        (response
          (record { task_id = task_id; responder_id = me; content = content; status = status }))
        m in
    if not m.active || not ok
    then none
    else some (
        if is_final_status status
        then record m' { store = log_event task_id status me content 0 m.store }
        else m')

unfoldable pub max_depth : GroupConfig → ℕ
max_depth cfg = if is_nonpos cfg.max_delegation_depth then 3 else pos_part cfg.max_delegation_depth

-- What is sent on of a request.
unfoldable pub delegated : Manager → TaskRequest → TaskRequest
delegated m req = record req {
  requester_id = m.identity.agent_id;
  delegation_depth = suc req.delegation_depth;
  original_requester_id =
      if is_empty req.original_requester_id then m.identity.agent_id else req.original_requester_id;
}

abbrev task_row : TaskRequest → GroupTask
task_row req = record {
  request = req;
  responder_id = [];
  status = lit "pending";
  accepted_at = none;
}

-- An insertion that a task of the id refuses.
abbrev insert_new : Text → GroupTask → Table GroupTask → Table GroupTask
insert_new id row tasks = elim (lookup id tasks) [ none ↦ insert id row tasks | some _ ↦ tasks ]

unfoldable pub submit_delegated_task : Bool → TaskRequest → Manager → Option Manager
submit_delegated_task ok req m =
    let req' = delegated m req in
    let st = record m.store { tasks = insert_new req.task_id (task_row req') m.store.tasks } in
    if not m.active || leb (max_depth m.cfg) req.delegation_depth || not ok
    then none
    else some (record (produce (requests_topic m) (request req') m) {
      store =
          log_event req.task_id (lit "submitted") m.identity.agent_id req.description
            req'.delegation_depth st;
    })

abbrev accepted_row : ℕ → Text → GroupTask → GroupTask
accepted_row now responder row = record row {
  responder_id = responder;
  accepted_at = some now;
  status = lit "accepted";
}

unfoldable pub accept_group_task : ℕ → Text → Text → GroupStore → GroupStore
accept_group_task now id responder st = elim (lookup id st.tasks) [
  | none ↦ st
  | some row ↦ record st { tasks = insert id (accepted_row now responder row) st.tasks }
]

unfoldable pub report_task_status : Bool → ℕ → Text → Text → Text → Manager → Option Manager
report_task_status ok now task_id status summary m =
    let me = m.identity.agent_id in
    let m' =
      produce (responses_topic m)
        (task_status
          (record { task_id = task_id; responder_id = me; content = summary; status = status }))
        m in
    if not m.active || not ok
    then none
    else some (
        if text_eq status (lit "accepted")
        then record m' {
          store =
              log_event task_id (lit "accepted") me summary 0
                (accept_group_task now task_id me m.store);
        }
        else m')

-- The topic has to begin with the group's own prefix.
unfoldable pub ensure_group_topic : Bool → Text → Manager → Option Manager
ensure_group_topic ok topic m =
    if not m.active || not (has_prefix topic (group_topic m.cfg.group_name (lit "."))) || not ok
    then none
    else some (produce topic (ensure_topic topic) m)
