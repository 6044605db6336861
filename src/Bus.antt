-- ===== src/Bus.antt =====
-- internal/bus/bus.go. A Go channel of messages is the list of those that wait, oldest first; its
-- room is 100. A callback is known by a number. Metadata is its entries that are texts, which are
-- those that the program reads here; the fields of an outbound message that no part of the model
-- reads (media, card, action and poll) are left out.
pub mod Calls
pub mod Steps
pub mod Tests
use kaf_claw.Base.{
  ℕ, Text, lit, text_eq, is_empty, Table, lookup, insert, length, Bool, true, false, ltb, Option,
  none, some, List, [], ◌∷◌, ◌++◌, map, if◌then◌else◌, ◌==◌,
}

pub record InboundMessage : Type 0 where
  pub channel : Text
  pub sender_id : Text
  pub chat_id : Text
  pub thread_id : Text
  pub message_id : Text
  pub trace_id : Text
  pub idempotency_key : Text
  pub content : Text
  pub metadata : Table Text
  pub timestamp : ℕ

abbrev pub meta_key_message_type : Text
meta_key_message_type = lit "message_type"

abbrev pub meta_key_session_scope : Text
meta_key_session_scope = lit "session_scope"

abbrev external_or : Option Text → Text
external_or none = lit "external"
external_or (some v) = if is_empty v then lit "external" else v

unfoldable pub message_type : InboundMessage → Text
message_type m = external_or (lookup meta_key_message_type m.metadata)

pub record OutboundMessage : Type 0 where
  pub channel : Text
  pub chat_id : Text
  pub thread_id : Text
  pub trace_id : Text
  pub task_id : Text
  pub content : Text

pub record MessageBus : Type 0 where
  pub inbound : List InboundMessage
  pub outbound : List OutboundMessage
  pub subs : Table (List ℕ)
  pub running : Bool

abbrev pub channel_room : ℕ
channel_room = 100

abbrev pub new_message_bus : MessageBus
new_message_bus = record { inbound = []; outbound = []; subs = []; running = false }

abbrev pub stamped : ℕ → InboundMessage → InboundMessage
stamped now m = record m { timestamp = if m.timestamp == 0 then now else m.timestamp }

-- A send; none while the channel is full, where the sender blocks.
unfoldable pub publish_inbound : ℕ → InboundMessage → MessageBus → Option MessageBus
publish_inbound now m b =
    if ltb (length b.inbound) channel_room
    then some (record b { inbound = b.inbound ++ stamped now m ∷ [] })
    else none

-- A receive; none while the channel is empty.
unfoldable pub consume_inbound : MessageBus → Option (InboundMessage × MessageBus)
consume_inbound b = elim b.inbound [ [] ↦ none | m ∷ rest ↦ some (m, record b { inbound = rest }) ]

unfoldable pub publish_outbound : OutboundMessage → MessageBus → Option MessageBus
publish_outbound m b =
    if ltb (length b.outbound) channel_room
    then some (record b { outbound = b.outbound ++ m ∷ [] })
    else none

abbrev pub callbacks : Text → MessageBus → List ℕ
callbacks channel b = elim (lookup channel b.subs) [ none ↦ [] | some cbs ↦ cbs ]

unfoldable pub subscribe : Text → ℕ → MessageBus → MessageBus
subscribe channel callback b = record b {
  subs = insert channel (callbacks channel b ++ callback ∷ []) b.subs;
}

unfoldable pub start_dispatch : MessageBus → MessageBus
start_dispatch b = record b { running = true }

-- One round of the loop of `DispatchOutbound`: the calls that it makes, in order; none while there
-- is no message.
unfoldable pub dispatch_outbound : MessageBus → Option (List (ℕ × OutboundMessage) × MessageBus)
dispatch_outbound b = elim b.outbound [
  | [] ↦ none
  | m ∷ rest ↦ some (map (λ cb. (cb, m)) (callbacks m.channel b), record b { outbound = rest })
]

unfoldable pub stop : MessageBus → MessageBus
stop b = record b { running = false }

unfoldable pub inbound_size : MessageBus → ℕ
inbound_size b = length b.inbound

unfoldable pub outbound_size : MessageBus → ℕ
outbound_size b = length b.outbound
