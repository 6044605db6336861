-- ===== src/Bus/Tests.antt =====
-- Runs of the bus.
use kaf_claw.Base.{lit, some, [], ◌∷◌, ◌≡◌, refl, lookup, insert, text_eq}
use kaf_claw.Bus.{
  InboundMessage, OutboundMessage, MessageBus, new_message_bus, publish_inbound, consume_inbound,
  publish_outbound, subscribe, dispatch_outbound, message_type, inbound_size,
}
use kaf_claw.Bus.Calls.{Subscriptions, subscribe_all}
use kaf_claw.Bus.Steps.{
  Run, Reach, start, starts, next, announces, dispatches, InOrder, Reach-InOrder,
}

bus : Unit {0}
unfolding text_eq publish_inbound consume_inbound lookup insert subscribe publish_outbound
    dispatch_outbound message_type inbound_size subscribe_all
bus = tt

abbrev pub hello : InboundMessage
hello = record {
  channel = lit "slack";
  sender_id = lit "u1";
  chat_id = lit "c1";
  thread_id = [];
  message_id = [];
  trace_id = [];
  idempotency_key = [];
  content = lit "hello";
  metadata = [];
  timestamp = 0;
}

abbrev answer : OutboundMessage
answer = record {
  channel = lit "slack";
  chat_id = lit "c1";
  thread_id = [];
  trace_id = [];
  task_id = [];
  content = lit "hi";
}

unknown_is_external : message_type hello ≡ lit "external"
unfolding bus
unknown_is_external = refl

abbrev slack_once : Subscriptions
slack_once = (lit "slack", 3) ∷ (lit "web", 4) ∷ []

abbrev fresh : MessageBus
fresh = subscribe_all slack_once new_message_bus

abbrev heard_it : Run
heard_it = record (start slack_once) { announced = answer ∷ []; calls = (3, answer) ∷ [] }

heard_it-Reach : Reach slack_once heard_it
unfolding bus
heard_it-Reach =
    next (next starts (announces answer (record fresh { outbound = answer ∷ [] }) refl))
      (dispatches ((3, answer) ∷ []) fresh refl)

Reach-InOrder_example : InOrder slack_once heard_it
Reach-InOrder_example = Reach-InOrder slack_once heard_it-Reach

-- A subscriber hears the messages of its channel.
subscribed :
    dispatch_outbound
      (record (subscribe (lit "slack") 3 new_message_bus) { outbound = answer ∷ [] })
    ≡ some ((3, answer) ∷ [], subscribe (lit "slack") 3 new_message_bus)
unfolding bus
subscribed = refl
