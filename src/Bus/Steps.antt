-- ===== src/Bus/Steps.antt =====
-- Sequences of sends and receives on the bus: nothing is lost, and the order is kept.
use kaf_claw.Base.{
  map, lookup, ℕ, ◌≤◌, length, length-append, some, List, [], ◌∷◌, ◌++◌, ◌≡◌, refl, sym, ap, ◌∙◌,
  arith,
}
use mathlib.Core.List.{append_assoc}
use kaf_claw.Bus.{
  callbacks, InboundMessage, OutboundMessage, MessageBus, new_message_bus, channel_room, stamped,
  publish_inbound, consume_inbound, publish_outbound, subscribe, start_dispatch, dispatch_outbound,
  stop,
}
use kaf_claw.Bus.Calls.{
  Subscriptions, subscribe_all, calls_of, all_calls, all_calls-append, heard-all,
}

-- The bus with what has gone through it: the messages sent, and those received, each oldest first.
pub record Run : Type 0 where
  pub bus : MessageBus
  pub sent : List InboundMessage
  pub received : List InboundMessage
  pub announced : List OutboundMessage
  pub calls : List (ℕ × OutboundMessage)

abbrev pub start : Subscriptions → Run
start subs = record {
  bus = subscribe_all subs new_message_bus;
  sent = [];
  received = [];
  announced = [];
  calls = [];
}

-- A blocked send or receive is no step, so other goroutines go on.
pub data Step (r : Run) : Run → Type 0 where
  sends :
      (now : ℕ) (m : InboundMessage) (b : MessageBus)
      → publish_inbound now m r.bus ≡ some b
      → Step r (record r { bus = b; sent = r.sent ++ stamped now m ∷ [] })
  receives :
      (m : InboundMessage) (b : MessageBus)
      → consume_inbound r.bus ≡ some (m, b)
      → Step r (record r { bus = b; received = r.received ++ m ∷ [] })
  announces :
      (m : OutboundMessage) (b : MessageBus)
      → publish_outbound m r.bus ≡ some b
      → Step r (record r { bus = b; announced = r.announced ++ m ∷ [] })
  dispatches :
      (calls : List (ℕ × OutboundMessage)) (b : MessageBus)
      → dispatch_outbound r.bus ≡ some (calls, b)
      → Step r (record r { bus = b; calls = r.calls ++ calls })
  runs : Step r (record r { bus = start_dispatch r.bus })
  stops : Step r (record r { bus = stop r.bus })

pub data Reach (subs : Subscriptions) : Run → Type 0 where
  starts : Reach subs (start subs)
  next : {r r' : Run} → Reach subs r → Step r r' → Reach subs r'

-- What was sent is what was received, and then what waits; the calls of callbacks are those owed to what
-- was announced, but for what waits; and no channel is over its room.
pub record InOrder (subs : Subscriptions) (r : Run) : Type 0 where
  pub inward : r.sent ≡ r.received ++ r.bus.inbound
  pub outward : all_calls subs r.announced ≡ r.calls ++ all_calls subs r.bus.outbound
  pub inward_room : length r.bus.inbound ≤ channel_room
  pub outward_room : length r.bus.outbound ≤ channel_room
  pub heard :
      (m : OutboundMessage) → map (λ cb. (cb, m)) (callbacks m.channel r.bus) ≡ calls_of subs m

moved {ℓ} :
    {A : Type ℓ} (all gone rest : List A) (m : A)
    → all ≡ gone ++ m ∷ rest
    → all ≡ (gone ++ m ∷ []) ++ rest
moved all gone rest m e = e ∙ sym (append_assoc gone (m ∷ []) rest)

added {ℓ} :
    {A : Type ℓ} (all gone rest : List A) (m : A)
    → all ≡ gone ++ rest
    → all ++ m ∷ [] ≡ gone ++ (rest ++ m ∷ [])
added all gone rest m e = ap (λ xs. xs ++ m ∷ []) e ∙ append_assoc gone rest (m ∷ [])

consumed :
    (b b' : MessageBus) (m : InboundMessage)
    → consume_inbound b ≡ some (m, b')
    → (b.inbound ≡ m ∷ b'.inbound) × (b' ≡ record b { inbound = b'.inbound })
unfolding consume_inbound
consumed b b' m e = (ground arith, ground arith)

-- What a dispatch does to a bus whose oldest message is m.
record Dispatched (b b' : MessageBus) (calls : List (ℕ × OutboundMessage)) (m : OutboundMessage)
    : Type 0 where
  first : b.outbound ≡ m ∷ b'.outbound
  called : calls ≡ map (λ cb. (cb, m)) (callbacks m.channel b)
  inside : b'.inbound ≡ b.inbound
  same : b'.subs ≡ b.subs

dispatched :
    (b b' : MessageBus) (calls : List (ℕ × OutboundMessage))
    → dispatch_outbound b ≡ some (calls, b')
    → (m : OutboundMessage) × Dispatched b b' calls m
unfolding dispatch_outbound
dispatched b b' calls e = at b.outbound refl
  where
    at :
        (ms : List OutboundMessage)
        → b.outbound ≡ ms
        → (m : OutboundMessage) × Dispatched b b' calls m
    at [] o = ground arith
    at (m ∷ rest) o = (
      m,
      record {
        first = ground arith;
        called = ground arith;
        inside = ground arith;
        same = ground arith;
      },
    )

Step-InOrder : (subs : Subscriptions) {r r' : Run} → Step r r' → InOrder subs r → InOrder subs r'
unfolding publish_inbound publish_outbound start_dispatch stop consume_inbound
Step-InOrder subs {r} (sends now m b e) h = record {
  inward = ground (arith, added r.sent r.received r.bus.inbound (stamped now m) h.inward);
  outward = ground (arith, h.outward);
  inward_room = ground (arith, length-append r.bus.inbound (stamped now m ∷ []));
  outward_room = ground (arith, h.outward_room);
  heard = λ n. ground (arith, h.heard n);
}
Step-InOrder subs {r} (receives m b e) h =
    let (first, same) = consumed r.bus b m e in
    record {
      inward = moved r.sent r.received b.inbound m (h.inward ∙ ap (λ xs. r.received ++ xs) first);
      outward = h.outward ∙ ap (λ bus. r.calls ++ all_calls subs bus.outbound) (sym same);
      inward_room = ground (arith, h.inward_room);
      outward_room = ground (arith, h.outward_room);
      heard = λ n. ground (arith, h.heard n);
    }
Step-InOrder subs {r} (announces m b e) h = record {
  inward = ground (arith, h.inward);
  outward =
      let more : b.outbound ≡ r.bus.outbound ++ m ∷ [] = ground arith in
      cc (
        more,
        h.outward,
        all_calls-append subs r.announced (m ∷ []),
        all_calls-append subs r.bus.outbound (m ∷ []),
        append_assoc r.calls (all_calls subs r.bus.outbound) (all_calls subs (m ∷ [])),
      );
  inward_room = ground (arith, h.inward_room);
  outward_room = ground (arith, length-append r.bus.outbound (m ∷ []));
  heard = λ n. ground (arith, h.heard n);
}
Step-InOrder subs {r} (dispatches calls b e) h =
    let (m, d) = dispatched r.bus b calls e in
    record {
      inward = h.inward ∙ ap (λ xs. r.received ++ xs) (sym d.inside);
      outward =
          h.outward
          ∙ ap (λ xs. r.calls ++ all_calls subs xs) d.first
          ∙ ap (λ cs. r.calls ++ (cs ++ all_calls subs b.outbound)) (sym (d.called ∙ h.heard m))
          ∙ sym (append_assoc r.calls calls (all_calls subs b.outbound));
      inward_room = ground (arith, d.inside, h.inward_room);
      outward_room = ground (arith, d.first, h.outward_room);
      heard = λ n. ground (arith, d.same, h.heard n);
    }
Step-InOrder subs runs h =
    ground (arith, h.inward, h.outward, h.inward_room, h.outward_room, h.heard)
Step-InOrder subs stops h =
    ground (arith, h.inward, h.outward, h.inward_room, h.outward_room, h.heard)

start-empty :
    (subs : Subscriptions) (b : MessageBus)
    → ((subscribe_all subs b).inbound ≡ b.inbound) × ((subscribe_all subs b).outbound ≡ b.outbound)
unfolding subscribe_all subscribe
start-empty [] b = (refl, refl)
start-empty ((channel, callback) ∷ subs) b = start-empty subs (subscribe channel callback b)

-- Once the subscriptions are made, in every sequence of sends, receives and dispatches each message that
-- was announced is given to each callback that subscribed to its channel, once and in the order of the
-- subscriptions, and the messages in the order they were announced in, but for those that still wait;
-- what came in is received in the order of its sending, nothing lost; and neither channel holds more
-- than its room.
pub Reach-InOrder : (subs : Subscriptions) {r : Run} → Reach subs r → InOrder subs r
unfolding lookup
Reach-InOrder subs starts =
    let (inside, outside) = start-empty subs new_message_bus in
    record {
      inward = ground (arith, inside);
      outward = ground (arith, outside);
      inward_room = ground (arith, inside);
      outward_room = ground (arith, outside);
      heard = λ m. heard-all subs new_message_bus m;
    }
Reach-InOrder subs (next r s) = Step-InOrder subs s (Reach-InOrder subs r)
