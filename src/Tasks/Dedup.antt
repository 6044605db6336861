-- ===== src/Tasks/Dedup.antt =====
-- `processMessage` and `Run` of internal/agent/loop.go: one task for each idempotency key. What the
-- agent answers (`ProcessDirectWithTrace`) is an argument; the active context that it reads and the
-- trace that is published to the group are not modelled, and lookups in the table succeed.
pub mod Later
pub mod Laws
use kaf_claw.Base.{
  ℕ, Text, lit, text_eq, is_empty, trim_space, lookup, Bool, true, false, Option, none, some, List,
  [], ◌∷◌, ◌++◌, if◌then◌else◌,
}
use kaf_claw.Bus.{InboundMessage, OutboundMessage, meta_key_session_scope, message_type}
use kaf_claw.Tasks.{
  TaskStatus, pending, processing, completed, failed, sent, AgentTask, Tasks, NewTask,
  get_task_by_idempotency_key, create_task, update_task_status, update_task_delivery,
}

abbrev pub colon : Text → Text → Text
colon a b = a ++ b':' ∷ b

abbrev scope_or : Text → Option Text → Text
scope_or key none = key
scope_or key (some raw) = let scope = trim_space raw in if is_empty scope then key else scope

-- The key of the session that the message belongs to.
unfoldable pub session_key : InboundMessage → Text
session_key m = scope_or (colon m.channel m.chat_id) (lookup meta_key_session_scope m.metadata)

-- A message with its missing ids filled in; `fresh` is the trace id that the clock gives.
unfoldable pub with_ids : Text → InboundMessage → InboundMessage
with_ids fresh m =
    let trace = if is_empty m.trace_id then fresh else m.trace_id in
    record m {
      trace_id = trace;
      idempotency_key =
          if is_empty m.idempotency_key
          then lit "auto:" ++ colon m.channel trace
          else m.idempotency_key;
    }

pub data Answer : Type 0 where
  answered : Text → Answer
  errored : Text → Answer

abbrev pub new_task_of : InboundMessage → NewTask
new_task_of m = record {
  idempotency_key = m.idempotency_key;
  trace_id = m.trace_id;
  channel = m.channel;
  chat_id = m.chat_id;
  sender_id = m.sender_id;
  content_in = m.content;
  message_type = message_type m;
}

-- What `processMessage` returns, and whether the agent was asked.
pub record Processed : Type 0 where
  pub answer : Answer
  pub task_id : Text
  pub asked : Bool

abbrev pub finish : ℕ → Text → Answer → Tasks → Tasks
finish now id (answered text) = update_task_status now id completed text []
finish now id (errored why) = update_task_status now id failed [] why

-- The part behind the check for a duplicate. Where the task cannot be created, the agent is asked
-- all the same, and nothing is recorded.
unfoldable pub run_task : ℕ → Text → InboundMessage → Answer → Tasks → Processed × Tasks
run_task now id m answer tasks = elim (create_task now id (new_task_of m) tasks) [
  | none ↦ (record { answer = answer; task_id = []; asked = true }, tasks)
  | some created ↦ (
    record { answer = answer; task_id = id; asked = true },
    finish now id answer (update_task_status now id processing [] [] created),
  )
]

-- A task that is done gives its result again, one in work gives nothing.
abbrev pub duplicate : AgentTask → Option Processed
duplicate t = elim t.status [
  | completed ↦
      some (record { answer = answered t.content_out; task_id = t.task_id; asked = false })
  | processing ↦ some (record { answer = answered []; task_id = t.task_id; asked = false })
  | _ ↦ none
]

abbrev pub known : Option AgentTask → Option Processed
known none = none
known (some t) = duplicate t

-- `id` is the id that the table gives a new task.
unfoldable pub process_message :
    ℕ → Text → Text → InboundMessage → Answer → Tasks → Processed × Tasks
process_message now fresh id raw answer tasks =
    let m = with_ids fresh raw in
    elim (known (get_task_by_idempotency_key m.idempotency_key tasks)) [
      | some done ↦ (done, tasks)
      | none ↦ run_task now id m answer tasks
    ]

abbrev pub reply_text : Answer → Text
reply_text (answered text) = text
reply_text (errored why) = lit "Error: " ++ why

abbrev reply : InboundMessage → Processed → OutboundMessage
reply m p = record {
  channel = m.channel;
  chat_id = m.chat_id;
  thread_id = m.thread_id;
  trace_id = m.trace_id;
  task_id = p.task_id;
  content = reply_text p.answer;
}

-- One round of `Run` for a message that is no approval response: the message to send, if there is
-- one, and the table, with the task marked as delivered at once.
unfoldable pub run_round :
    ℕ → Text → Text → InboundMessage → Answer → Tasks → Option OutboundMessage × Tasks
run_round now fresh id raw answer tasks =
    let (p, tasks') = process_message now fresh id raw answer tasks in
    if is_empty (reply_text p.answer) then (none, tasks') else (
      some (reply (with_ids fresh raw) p),
      if is_empty p.task_id then tasks' else update_task_delivery p.task_id sent none tasks',
    )
