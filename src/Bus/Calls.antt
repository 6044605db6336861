-- ===== src/Bus/Calls.antt =====
-- The calls that subscriptions owe to the messages of their channels.
use kaf_claw.Base.{
  map, if◌then◌else◌, text_eq, text_eq_iff, lookup-insert, Bool-cases, inl, inr, ℕ, Text, List, [],
  ◌∷◌, ◌++◌, ◌≡◌, refl, sym, ap, ◌∙◌, arith,
}
use mathlib.Core.List.{append_assoc, append-nil}
use kaf_claw.Bus.{callbacks, OutboundMessage, MessageBus, subscribe}

-- The subscriptions, oldest first: a channel and a callback each.
abbrev pub Subscriptions : Type 0
Subscriptions = List (Text × ℕ)

unfoldable pub subscribe_all : Subscriptions → MessageBus → MessageBus
subscribe_all [] b = b
subscribe_all ((channel, callback) ∷ subs) b = subscribe_all subs (subscribe channel callback b)

-- The calls that a message is owed: one for each subscription to its channel, in their order.
abbrev pub calls_of : Subscriptions → OutboundMessage → List (ℕ × OutboundMessage)
calls_of [] m = []
calls_of ((channel, callback) ∷ subs) m =
    if text_eq channel m.channel then (callback, m) ∷ calls_of subs m else calls_of subs m

abbrev pub all_calls : Subscriptions → List OutboundMessage → List (ℕ × OutboundMessage)
all_calls subs [] = []
all_calls subs (m ∷ ms) = calls_of subs m ++ all_calls subs ms

pub all_calls-append :
    (subs : Subscriptions) (ms ns : List OutboundMessage)
    → all_calls subs (ms ++ ns) ≡ all_calls subs ms ++ all_calls subs ns
all_calls-append subs [] ns = refl
all_calls-append subs (m ∷ ms) ns =
    ap (λ cs. calls_of subs m ++ cs) (all_calls-append subs ms ns)
    ∙ sym (append_assoc (calls_of subs m) (all_calls subs ms) (all_calls subs ns))

map-append {ℓ κ} :
    {A : Type ℓ} {B : Type κ} (f : A → B) (xs ys : List A) → map f (xs ++ ys) ≡ map f xs ++ map f ys
map-append f [] ys = refl
map-append f (x ∷ xs) ys = ap (λ zs. f x ∷ zs) (map-append f xs ys)

callbacks-subscribe :
    (channel other : Text) (callback : ℕ) (b : MessageBus)
    → callbacks channel (subscribe other callback b) ≡ (
        if text_eq other channel then callbacks channel b ++ callback ∷ [] else callbacks channel b)
unfolding subscribe
callbacks-subscribe channel other callback b = ground (
  arith,
  lookup-insert channel other (callbacks other b ++ callback ∷ []) b.subs,
  text_eq_iff other channel,
  text_eq_iff channel other,
)

-- A callback is called after those of its channel that were there before.
pub heard-all :
    (subs : Subscriptions) (b : MessageBus) (m : OutboundMessage)
    → map (λ cb. (cb, m)) (callbacks m.channel (subscribe_all subs b))
      ≡ map (λ cb. (cb, m)) (callbacks m.channel b) ++ calls_of subs m
unfolding subscribe_all
heard-all [] b m = sym (append-nil (map (λ cb. (cb, m)) (callbacks m.channel b)))
heard-all ((channel, callback) ∷ subs) b m =
    let call : ℕ → ℕ × OutboundMessage = λ cb. (cb, m) in
    let before = callbacks m.channel b in
    let later = heard-all subs (subscribe channel callback b) m in
    let step = callbacks-subscribe m.channel channel callback b in
    elim (Bool-cases (text_eq channel m.channel)) [
      | inl e ↦ cc (
        e,
        later,
        step,
        map-append call before (callback ∷ []),
        append_assoc (map call before) (call callback ∷ []) (calls_of subs m),
      )
      | inr e ↦ cc (e, later, step)
    ]
