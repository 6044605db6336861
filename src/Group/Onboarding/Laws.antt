-- ===== src/Group/Onboarding/Laws.antt =====
-- Who is welcomed to a group, and that the handshake brings an agent in.
use kaf_claw.Base.{
  ℕ, zero, suc, Text, text_eq, text_eq_refl, is_empty, Bool, true, false, not, ◌&&◌, Option, none,
  some, ◌≡◌, refl, arith, Bool-cases, inl, inr,
}
use kaf_claw.Group.{
  OnboardPayload, onboard_request, onboard_challenge, onboard_response, onboard_complete,
  onboard_reject,
}
use kaf_claw.Group.Manager.{Manager, join_group}
use kaf_claw.Group.Onboarding.{
  start_onboard, is_gated, handle_onboard, handle_onboard_request, handle_onboard_challenge,
  handle_onboard_response, handle_onboard_complete, send_onboard, complete_for, answer_challenge,
}

-- What a handler sent is the welcome of an agent.
abbrev pub is_welcome : Text → Option OnboardPayload → Bool
is_welcome id none = false
is_welcome id (some p) =
    (elim p.action [ onboard_complete ↦ true | _ ↦ false ]) && text_eq p.requester_id id

-- The two ways to be welcomed by an agent.
abbrev pub welcomed : Text → OnboardPayload → Manager → Bool
welcomed id p m = text_eq p.requester_id id && (elim p.action [
  | onboard_request ↦ m.active && not (is_gated m.cfg)
  | onboard_response ↦ text_eq p.sponsor_id m.identity.agent_id && not (is_empty p.response)
  | _ ↦ false
])

-- An agent welcomes another exactly when it is active in an open group and receives the other's request,
-- or when it receives, active or not and in whichever mode, a response of the other that names it as the
-- sponsor and is not empty: no challenge has to have been sent.
pub handle_onboard-welcome :
    (id : Text) (now : ℕ) (p : OnboardPayload) (m : Manager)
    → is_welcome id (handle_onboard true now p m).1 ≡ welcomed id p m
unfolding handle_onboard handle_onboard_request handle_onboard_challenge handle_onboard_response
    send_onboard complete_for
handle_onboard-welcome id now p m =
    elim p.action
      as (λ act.
        is_welcome id (handle_onboard true now (record p { action = act }) m).1
        ≡ welcomed id (record p { action = act }) m) [
          | onboard_request ↦ ground arith
          | onboard_challenge ↦ ground arith
          | onboard_response ↦ ground arith
          | onboard_complete ↦ ground arith
          | onboard_reject ↦ ground arith
        ]

-- Each message goes to the other side, which handles it, until nothing is sent: what the one to handle
-- the next message and the other are in the end, in the order of the arguments.
unfoldable pub exchange : ℕ → ℕ → Option OnboardPayload → Manager → Manager → Manager × Manager
exchange zero now p next other = (next, other)
exchange (suc fuel) now none next other = (next, other)
exchange (suc fuel) now (some p) next other =
    let (next', sent) = handle_onboard true now p next in
    let (other', next'') = exchange fuel now sent other next' in (next'', other')

joins :
    (now : ℕ) (p : OnboardPayload) (m : Manager)
    → p.requester_id ≡ m.identity.agent_id
    → m.active ≡ false
    → (handle_onboard_complete true now p m).active ≡ true
unfolding handle_onboard_complete join_group
joins now p m e a = ground (arith, text_eq_refl m.identity.agent_id)

abbrev begun : ℕ → Manager → Option (Manager × OnboardPayload) → Manager → Manager × Manager
begun now newcomer none sponsor = (sponsor, newcomer)
begun now newcomer (some (newcomer', p)) sponsor = exchange 5 now (some p) sponsor newcomer'

-- The onboarding of an agent by another: both in the end, the other first.
abbrev pub handshake : ℕ → Manager → Manager → Manager × Manager
handshake now newcomer sponsor = begun now newcomer (start_onboard true newcomer) sponsor

-- When an agent that is not active asks one that is, and all that they send is taken, then the agent is
-- active after at most five messages, whether the group asks a challenge or not.
pub handshake-joins :
    (now : ℕ) (newcomer sponsor : Manager)
    → newcomer.active ≡ false
    → sponsor.active ≡ true
    → (handshake now newcomer sponsor).1.active ≡ true
unfolding exchange handle_onboard handle_onboard_request handle_onboard_challenge
    handle_onboard_response send_onboard start_onboard complete_for answer_challenge
handshake-joins now newcomer sponsor n a =
    let mine = text_eq_refl newcomer.identity.agent_id in
    let its = text_eq_refl sponsor.identity.agent_id in
    elim (Bool-cases (is_gated sponsor.cfg)) [
      | inl e ↦
          rw (n, exchange, handle_onboard, handle_onboard_request, a, e, mine, its)
            (joins now _ _ refl refl)
      | inr e ↦
          rw (n, exchange, handle_onboard, handle_onboard_request, a, e) (joins now _ _ refl refl)
    ]
