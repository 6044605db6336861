-- ===== src/Group/Onboarding.antt =====
-- The onboarding protocol of internal/group/onboarding.go. `ok` says whether the LFS proxy takes what
-- a handler sends; an action that the switch does not know is no payload here.
pub mod Laws
use kaf_claw.Base.{
  ℕ, Text, lit, text_eq, is_empty, Bool, true, false, not, Option, none, some, List, [], ◌∷◌, ◌++◌,
  if◌then◌else◌,
}
use kaf_claw.Group.{
  extended_topics, OnboardPayload, OnboardAction, onboard_request, onboard_challenge,
  onboard_response, onboard_complete, onboard_reject, onboard, AgentIdentity,
}
use kaf_claw.Group.Topics.{TopicManager, update_manifest}
use kaf_claw.Group.Manager.{Manager, produce, join_group, GroupConfig}

abbrev onboarding_topic : Manager → Text
onboarding_topic m = (extended_topics m.cfg.group_name).control_onboarding

abbrev blank : OnboardAction → Text → Text → OnboardPayload
blank action requester sponsor = record {
  action = action;
  requester_id = requester;
  sponsor_id = sponsor;
  skills = [];
  challenge = [];
  response = [];
  manifest = none;
  reason = [];
}

abbrev request_payload : Manager → OnboardPayload
request_payload m = record (blank onboard_request m.identity.agent_id []) {
  skills = m.identity.capabilities;
}

-- The manager, and what it sent.
unfoldable pub send_onboard : Bool → OnboardPayload → Manager → Manager × Option OnboardPayload
send_onboard ok p m = if ok then (produce (onboarding_topic m) (onboard p) m, some p) else (m, none)

-- none is an error: the agent is active, or the request was not taken.
unfoldable pub start_onboard : Bool → Manager → Option (Manager × OnboardPayload)
start_onboard ok m =
    if m.active
    then none
    else if ok
    then some (produce (onboarding_topic m) (onboard (request_payload m)) m, request_payload m)
    else none

abbrev pub is_gated : GroupConfig → Bool
is_gated cfg = text_eq cfg.onboard_mode (lit "gated")

unfoldable pub generate_challenge : List Text → Text
generate_challenge [] = lit "Describe your agent capabilities"
generate_challenge (skill ∷ _) = lit "Describe your capabilities for: " ++ skill

unfoldable pub listed_capabilities : List Text → Text
listed_capabilities [] = []
listed_capabilities (c ∷ caps) = c ++ lit ", " ++ listed_capabilities caps

unfoldable pub answer_challenge : AgentIdentity → Text
answer_challenge id =
    lit "I am "
    ++ (id.agent_name
        ++ (lit " ("
            ++ (id.agent_id
                ++ (lit "). My capabilities: "
                    ++ (listed_capabilities id.capabilities
                        ++ (lit ". Soul: " ++ id.soul_summary))))))

unfoldable pub complete_for : Text → Manager → OnboardPayload
complete_for requester m = record (blank onboard_complete requester m.identity.agent_id) {
  manifest = some m.topic_mgr.manifest;
}

unfoldable pub handle_onboard_request :
    Bool → OnboardPayload → Manager → Manager × Option OnboardPayload
handle_onboard_request ok p m =
    let asked = record (blank onboard_challenge p.requester_id m.identity.agent_id) {
      challenge = generate_challenge p.skills;
    } in
    if not m.active
    then (m, none)
    else if is_gated m.cfg
    then send_onboard ok asked m
    else send_onboard ok (complete_for p.requester_id m) m

unfoldable pub handle_onboard_challenge :
    Bool → OnboardPayload → Manager → Manager × Option OnboardPayload
handle_onboard_challenge ok p m =
    let answer = record (blank onboard_response m.identity.agent_id p.sponsor_id) {
      skills = m.identity.capabilities;
      response = answer_challenge m.identity;
    } in
    if text_eq p.requester_id m.identity.agent_id then send_onboard ok answer m else (m, none)

unfoldable pub handle_onboard_response :
    Bool → OnboardPayload → Manager → Manager × Option OnboardPayload
handle_onboard_response ok p m =
    let refused = record (blank onboard_reject p.requester_id m.identity.agent_id) {
      reason = lit "empty challenge response";
    } in
    if not (text_eq p.sponsor_id m.identity.agent_id)
    then (m, none)
    else if is_empty p.response
    then send_onboard ok refused m
    else send_onboard ok (complete_for p.requester_id m) m

abbrev with_manifest : OnboardPayload → Manager → Manager
with_manifest p m = elim p.manifest [
  | none ↦ m
  | some man ↦ record m { topic_mgr = update_manifest man m.topic_mgr }
]

abbrev joined_or_same : Option Manager → Manager → Manager
joined_or_same none m = m
joined_or_same (some m') m = m'

unfoldable pub handle_onboard_complete : Bool → ℕ → OnboardPayload → Manager → Manager
handle_onboard_complete ok now p m =
    let m' = with_manifest p m in
    if text_eq p.requester_id m.identity.agent_id
    then joined_or_same (join_group ok now m') m'
    else m

unfoldable pub handle_onboard :
    Bool → ℕ → OnboardPayload → Manager → Manager × Option OnboardPayload
handle_onboard ok now p m = elim p.action [
  | onboard_request ↦ handle_onboard_request ok p m
  | onboard_challenge ↦ handle_onboard_challenge ok p m
  | onboard_response ↦ handle_onboard_response ok p m
  | onboard_complete ↦ (handle_onboard_complete ok now p m, none)
  | onboard_reject ↦ (m, none)
]
