-- ===== src/Group/Router.antt =====
-- `GroupRouter` of internal/group/consumer.go. A message comes with what each handler decodes of its
-- payload, none for a payload that does not decode. What the knowledge handler, the memory, the traces,
-- the audit and the orchestrator do with an envelope is not in this file: `handed` names whom it goes
-- to. What waits for the bus is in the order of the sends. The log of all messages is left out.
pub mod Laws
use kaf_claw.Base.{
  ℕ, suc, ltb, length, Text, lit, text_eq, has_prefix, any, drop, Bool, true, false, not, Option,
  none, some, List, [], ◌∷◌, ◌++◌, if◌then◌else◌, ◌==◌,
}
use kaf_claw.Bus.{InboundMessage}
use kaf_claw.Group.{
  extended_topics, skill_topic_prefix, AnnounceAction, AgentIdentity, OnboardPayload, TaskRequest,
  TaskReply, TopicManifest,
}
use kaf_claw.Group.Topics.{update_manifest}
use kaf_claw.Group.Manager.{Manager, handle_announce}
use kaf_claw.Group.Onboarding.{handle_onboard}

pub data Route : Type 0 where
  to_announce to_requests to_responses to_traces to_onboarding to_roster to_task_status to_memory
        to_audit to_orchestrator to_knowledge nowhere :
      Route
  to_skill_requests to_skill_responses : Text → Route

-- `SplitN` at the first dot; none without one.
unfoldable pub cut_dot : Text → Option (Text × Text)
cut_dot [] = none
cut_dot (c ∷ rest) =
    let cut = cut_dot rest in
    if c == 46 then some ([], rest) else elim cut [ none ↦ none | some p ↦ some (c ∷ p.0, p.1) ]

abbrev pub direction_route : Option (Text × Text) → Route
direction_route none = nowhere
direction_route (some (skill, direction)) =
    if text_eq direction (lit "requests")
    then to_skill_requests skill
    else if text_eq direction (lit "responses")
    then to_skill_responses skill
    else nowhere

unfoldable pub skill_route : Text → Text → Route
skill_route prefix topic =
    if has_prefix topic prefix
    then direction_route (cut_dot (drop (length prefix) topic))
    else nowhere

-- The switch of `handleMessage`.
unfoldable pub route : Text → Text → Route
route group topic =
    let ext = extended_topics group in
    if text_eq topic ext.control_announce
    then to_announce
    else if text_eq topic ext.task_requests
    then to_requests
    else if text_eq topic ext.task_responses
    then to_responses
    else if text_eq topic ext.observe_traces
    then to_traces
    else if text_eq topic ext.control_onboarding
    then to_onboarding
    else if text_eq topic ext.control_roster
    then to_roster
    else if text_eq topic ext.task_status
    then to_task_status
    else if text_eq topic ext.memory_shared
    then to_memory
    else if text_eq topic ext.memory_context
    then to_memory
    else if text_eq topic ext.observe_audit
    then to_audit
    else if text_eq topic ext.orchestrator
    then to_orchestrator
    else skill_route (skill_topic_prefix group) topic

pub record Incoming : Type 0 where
  pub topic : Text
  pub sender_id : Text
  pub correlation_id : Text
  pub raw_payload : Text
  pub as_announcement : Option (AnnounceAction × AgentIdentity)
  pub as_onboard : Option OnboardPayload
  pub as_request : Option TaskRequest
  pub as_reply : Option TaskReply
  pub as_manifest : Option TopicManifest

pub record GroupRouter : Type 0 where
  pub manager : Manager
  pub knowledge_topics : List Text
  pub publishing : List InboundMessage
  pub handed : List Route

abbrev group_message : ℕ → Text → Text → Text → Text → Text → InboundMessage
group_message now sender chat trace key content = record {
  channel = lit "group";
  sender_id = sender;
  chat_id = chat;
  thread_id = [];
  message_id = [];
  trace_id = trace;
  idempotency_key = key;
  content = content;
  metadata = [];
  timestamp = now;
}

unfoldable pub request_message : ℕ → Text → TaskRequest → InboundMessage
request_message now trace p =
    let m =
      group_message now p.requester_id p.task_id trace (lit "group:" ++ p.task_id) p.content in
    record m {
      metadata =
          (lit "group_task_id", p.task_id)
          ∷ (lit "group_requester", p.requester_id)
          ∷ (lit "description", p.description)
          ∷ [];
    }

unfoldable pub response_message : ℕ → Text → TaskReply → InboundMessage
response_message now trace p =
    group_message now p.responder_id p.task_id trace
      (lit "group-resp:" ++ (p.task_id ++ (lit ":" ++ p.responder_id)))
      (lit "[Task Response from "
        ++ (p.responder_id ++ (lit "] Status: " ++ (p.status ++ (lit "\n" ++ p.content)))))

unfoldable pub skill_request_message : ℕ → Text → Text → TaskRequest → InboundMessage
skill_request_message now trace skill p =
    let m = request_message now trace p in
    record m {
      idempotency_key = lit "skill:" ++ (skill ++ (lit ":" ++ p.task_id));
      metadata = m.metadata ++ (lit "skill", skill) ∷ [];
    }

unfoldable pub skill_response_message : ℕ → Text → Text → TaskReply → InboundMessage
skill_response_message now trace skill p =
    group_message now p.responder_id p.task_id trace
      (lit "skill-resp:" ++ (skill ++ (lit ":" ++ (p.task_id ++ (lit ":" ++ p.responder_id)))))
      (lit "[Skill "
        ++ (skill
            ++ (lit " Response from "
                ++ (p.responder_id
                    ++ (lit "] Status: " ++ (p.status ++ (lit "\n" ++ p.content)))))))

unfoldable pub status_message : ℕ → Incoming → InboundMessage
status_message now i =
    let m = group_message now i.sender_id i.correlation_id i.correlation_id [] i.raw_payload in
    record m { metadata = (lit "type", lit "task_status") ∷ [] }

abbrev pub publishes : InboundMessage → GroupRouter → GroupRouter
publishes m r = record r { publishing = r.publishing ++ m ∷ [] }

abbrev pub hands : Route → GroupRouter → GroupRouter
hands to r = record r { handed = r.handed ++ to ∷ [] }

-- A handler of a payload that decodes.
abbrev decoded {ℓ} :
    {P : Type ℓ} → Option P → (P → GroupRouter → GroupRouter) → GroupRouter → GroupRouter
decoded none f r = r
decoded (some p) f r = f p r

unfoldable pub handle_route : Bool → ℕ → Incoming → Route → GroupRouter → GroupRouter
handle_route ok now i to_announce =
    decoded i.as_announcement
      (λ a r. record r { manager = (handle_announce now a.0 a.1 r.manager).0 })
handle_route ok now i to_requests =
    decoded i.as_request (λ p. publishes (request_message now i.correlation_id p))
handle_route ok now i to_responses =
    decoded i.as_reply (λ p. publishes (response_message now i.correlation_id p))
handle_route ok now i to_onboarding =
    decoded i.as_onboard (λ p r. record r { manager = (handle_onboard ok now p r.manager).0 })
handle_route ok now i to_roster = decoded i.as_manifest (λ man r. record r {
  manager = record r.manager { topic_mgr = update_manifest man r.manager.topic_mgr };
})
handle_route ok now i to_task_status = publishes (status_message now i)
handle_route ok now i (to_skill_requests skill) =
    decoded i.as_request (λ p. publishes (skill_request_message now i.correlation_id skill p))
handle_route ok now i (to_skill_responses skill) =
    decoded i.as_reply (λ p. publishes (skill_response_message now i.correlation_id skill p))
handle_route ok now i nowhere = λ r. r
handle_route ok now i to_traces = hands to_traces
handle_route ok now i to_memory = hands to_memory
handle_route ok now i to_audit = hands to_audit
handle_route ok now i to_orchestrator = hands to_orchestrator
handle_route ok now i to_knowledge = hands to_knowledge

-- `ok` is for what a handler sends.
unfoldable pub handle_message : Bool → ℕ → Incoming → GroupRouter → GroupRouter
handle_message ok now i r =
    if any (λ t. text_eq t i.topic) r.knowledge_topics
    then hands to_knowledge r
    else if text_eq i.sender_id r.manager.identity.agent_id
    then r
    else handle_route ok now i (route r.manager.cfg.group_name i.topic) r
