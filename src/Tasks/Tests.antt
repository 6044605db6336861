-- ===== src/Tasks/Tests.antt =====
-- Runs of the tasks, from a message to its delivery.
use kaf_claw.Base.{
  pos, lit, text_eq, trim_space, trim_left, trim_right, is_space, lookup, true, false, some, none,
  [], ◌∷◌, ◌≡◌, refl, arith, sort_by, insert_by,
}
use mathlib.Core.Option.{map as map_option}
use kaf_claw.Bus.{InboundMessage, message_type}
use kaf_claw.Bus.Tests.{hello}
use kaf_claw.Tasks.{
  AgentTask, Tasks, undelivered, sent, failed, completed, get_task, get_task_by_idempotency_key,
  create_task, update_task, update_task_status, update_task_delivery,
  update_task_delivery_with_reason, is_due, list_pending_deliveries, count_pending_deliveries,
}
use kaf_claw.Tasks.Dedup.{answered, errored, process_message, run_task, with_ids}
use kaf_claw.Tasks.Dedup.Later.{starts, next, reports}
use kaf_claw.Tasks.Dedup.Laws.{process_message-once, process_message-failed}
use kaf_claw.Tasks.Delivery.{poll, polls, deliver, deliver_all, report, transient}
use kaf_claw.Tasks.Delivery.Laws.{polls-settle, mark-report}

tasks : Unit {0}
unfolding text_eq lookup get_task get_task_by_idempotency_key create_task update_task
    update_task_status update_task_delivery update_task_delivery_with_reason is_due
    list_pending_deliveries count_pending_deliveries process_message run_task with_ids poll polls
    deliver deliver_all report message_type trim_space trim_left trim_right is_space sort_by
    insert_by
tasks = tt

abbrev keyed : InboundMessage
keyed = record hello { idempotency_key = lit "k1" }

-- The table once the message was answered and its delivery marked.
abbrev marked : Tasks
marked =
    update_task_delivery_with_reason (lit "t1") sent none []
      (process_message 5 (lit "f1") (lit "t1") keyed (answered (lit "done")) []).1

process_message-once_example :
    process_message 9 (lit "f2") (lit "t2") keyed (errored (lit "down")) marked
    ≡ (record { answer = answered (lit "done"); task_id = lit "t1"; asked = false }, marked)
unfolding tasks
process_message-once_example =
    process_message-once 5 9 (lit "f1") (lit "f2") (lit "t1") (lit "t2") (lit "done") keyed keyed
      (errored (lit "down")) [] marked refl refl refl refl
      (next starts (reports (lit "t1") sent none []))

abbrev after_failure : Tasks
after_failure = (process_message 5 (lit "f1") (lit "t1") keyed (errored (lit "down")) []).1

abbrev failed_task : AgentTask
failed_task = record {
  task_id = lit "t1";
  idempotency_key = lit "k1";
  trace_id = lit "f1";
  channel = lit "slack";
  chat_id = lit "c1";
  sender_id = lit "u1";
  message_type = lit "external";
  status = failed;
  content_in = lit "hello";
  content_out = [];
  error_text = lit "down";
  delivery_status = undelivered;
  delivery_attempts = 0;
  delivery_next_at = none;
  created_at = 5;
  completed_at = some 5;
}

process_message-failed_example :
    process_message 9 (lit "f2") (lit "t2") keyed (answered (lit "done")) after_failure
    ≡ (record { answer = answered (lit "done"); task_id = []; asked = true }, after_failure)
unfolding tasks
process_message-failed_example =
    process_message-failed 9 (lit "f2") (lit "t2") keyed (answered (lit "done")) failed_task
      after_failure refl refl

abbrev done : AgentTask
done = record failed_task { status = completed; error_text = [] }

polls-settle_example : count_pending_deliveries 8 (polls (8 ∷ 9 ∷ []) (done ∷ [])) ≡ 0
unfolding tasks
polls-settle_example =
    polls-settle 8 (8 ∷ 9 ∷ []) (done ∷ []) (omega arith, (omega arith, tt)) (ground arith)

-- Two hours east, a task to be sent again at 30 is due from 7231 on.
mark-report_example :
    (map_option (is_due 7230) (
        get_task (lit "t1") (
          update_task_delivery
            (lit "t1")
            sent
            none
            (report (pos 7200) (lit "t1") (transient 30 (lit "busy")) (done ∷ []))))
      ≡ some false)
    × (map_option (is_due 7230) (
          get_task (lit "t1") (
            report
              (pos 7200)
              (lit "t1")
              (transient 30 (lit "busy"))
              (update_task_delivery (lit "t1") sent none (done ∷ []))))
        ≡ some false)
unfolding tasks
mark-report_example =
    mark-report (pos 7200) (lit "t1") done 30 7230 (lit "busy") (done ∷ []) refl refl

-- After five attempts a task is given up, and nothing is published.
given_up : (poll 8 (record done { delivery_attempts = 5 } ∷ [])).1 ≡ []
unfolding tasks
given_up = refl
