-- ===== src/Tasks/Delivery.antt =====
-- internal/agent/delivery.go, and how a channel reports a send (the subscribers of
-- internal/channels/slack.go and msteams.go). The ticker is the times at which `poll` is called, and
-- listing succeeds. `DeliveryBackoff` is floating point: the time of the next attempt is an argument.
pub mod Laws
use kaf_claw.Base.{
  ℤ, ◌+◌, ◌-◌, ℕ, zero, suc, leb, pos, Text, lit, Bool, true, false, Option, none, some, List, [],
  ◌∷◌, ◌++◌, if◌then◌else◌,
}
use kaf_claw.Bus.{OutboundMessage}
use kaf_claw.Tasks.{
  AgentTask, Tasks, DeliveryStatus, undelivered, sent, undeliverable, list_pending_deliveries,
  update_task_delivery_with_reason, update_task_delivery,
}

abbrev pub max_retry : ℕ
max_retry = 5

abbrev pub outbound_of : AgentTask → OutboundMessage
outbound_of t = record {
  channel = t.channel;
  chat_id = t.chat_id;
  thread_id = [];
  trace_id = t.trace_id;
  task_id = t.task_id;
  content = t.content_out;
}

-- What the loop of `poll` does to one task that was listed: the table, and the message published.
unfoldable pub deliver : AgentTask → Tasks → Tasks × Option OutboundMessage
deliver t tasks =
    if leb max_retry t.delivery_attempts
    then (
      update_task_delivery_with_reason t.task_id undeliverable none
          (lit "terminal:max_retries_exceeded") tasks,
      none,
    )
    else (update_task_delivery_with_reason t.task_id sent none [] tasks, some (outbound_of t))

abbrev pub cons_option : Option OutboundMessage → List OutboundMessage → List OutboundMessage
cons_option none ms = ms
cons_option (some m) ms = m ∷ ms

unfoldable pub deliver_all : List AgentTask → Tasks → Tasks × List OutboundMessage
deliver_all [] tasks = (tasks, [])
deliver_all (t ∷ listed) tasks =
    let (tasks', m) = deliver t tasks in
    let (tasks'', ms) = deliver_all listed tasks' in (tasks'', cons_option m ms)

unfoldable pub poll : ℕ → Tasks → Tasks × List OutboundMessage
poll now tasks = deliver_all (list_pending_deliveries now (pos 10) tasks) tasks

-- The polls of one ticker, at the given times.
unfoldable pub polls : List ℕ → Tasks → Tasks
polls [] tasks = tasks
polls (now ∷ later) tasks = polls later (poll now tasks).0

-- How a channel's send went: delivered, failed for now, to be tried again from a second of UTC on, or
-- failed for good.
pub data Sending : Type 0 where
  delivered : Sending
  transient : ℕ → Text → Sending
  terminal : Text → Sending

-- The second that the clock on the wall shows, in a zone so many seconds east of UTC.
unfoldable pub wall : ℤ → ℕ → ℕ
wall (ℤ.pos east) at = at + east
wall (ℤ.negsuc west) at = at - suc west

-- The callback that a channel subscribes with, behind its send, on a machine of that zone.
unfoldable pub report : ℤ → Text → Sending → Tasks → Tasks
unfolding wall
report zone id delivered tasks = update_task_delivery_with_reason id sent none [] tasks
report zone id (transient next_at reason) tasks =
    update_task_delivery_with_reason id undelivered (some (wall zone next_at)) reason tasks
report zone id (terminal reason) tasks =
    update_task_delivery_with_reason id undeliverable none reason tasks
