-- ===== src/Group/Router/Laws.antt =====
-- That each topic of a group reaches its handler, and that a task that is delivered again is done once.
use kaf_claw.Base.{
  ℕ, Text, lit, text_eq, has_prefix, any, drop, length, false, none, some, [], ◌∷◌, ◌++◌, ◌≡◌, ap,
  ◌∙◌, refl, arith, if◌then◌else◌,
}
use kaf_claw.Group.{extended_topics, skill_topics, skill_topic_prefix, TaskRequest, group_topic}
use kaf_claw.Group.Topics.{before_dot}
use kaf_claw.Group.Router.{
  Route, to_announce, to_requests, to_responses, to_traces, to_onboarding, to_roster,
  to_task_status, to_memory, to_audit, to_orchestrator, to_skill_requests, to_skill_responses,
  route, skill_route, cut_dot, request_message, nowhere, direction_route,
}
use mathlib.Core.List.{append_assoc}
use kaf_claw.Tasks.{Tasks, has_id, get_task_by_idempotency_key}
use kaf_claw.Tasks.Dedup.{with_ids, Answer, answered, process_message}
use kaf_claw.Tasks.Dedup.Later.{starts}
use kaf_claw.Tasks.Dedup.Laws.{process_message-once}

text_eq-append : (p a b : Text) → text_eq (p ++ a) (p ++ b) ≡ text_eq a b
unfolding text_eq
text_eq-append [] a b = refl
text_eq-append (c ∷ p) a b = ground (arith, text_eq-append p a b)

has_prefix-cancel : (p a b : Text) → has_prefix (p ++ a) (p ++ b) ≡ has_prefix a b
unfolding has_prefix
has_prefix-cancel [] a b = refl
has_prefix-cancel (c ∷ p) a b = ground (arith, has_prefix-cancel p a b)

drop-cancel : (p a b : Text) → drop (length (p ++ a)) (p ++ b) ≡ drop (length a) b
drop-cancel [] a b = refl
drop-cancel (c ∷ p) a b = drop-cancel p a b

-- Two topics of a group are the same when what follows its name is.
same_topic : (group a b : Text) → text_eq (group_topic group a) (group_topic group b) ≡ text_eq a b
same_topic group a b =
    text_eq-append (lit "group.") (group ++ a) (group ++ b) ∙ text_eq-append group a b

abbrev suffix_skill_route : Text → Route
suffix_skill_route rest =
    if has_prefix rest (lit ".skill.") then direction_route (cut_dot (drop 7 rest)) else nowhere

-- The switch on what follows the name of the group.
abbrev suffix_route : Text → Route
suffix_route rest =
    if text_eq rest (lit ".announce")
    then to_announce
    else if text_eq rest (lit ".requests")
    then to_requests
    else if text_eq rest (lit ".responses")
    then to_responses
    else if text_eq rest (lit ".traces")
    then to_traces
    else if text_eq rest (lit ".control.onboarding")
    then to_onboarding
    else if text_eq rest (lit ".control.roster")
    then to_roster
    else if text_eq rest (lit ".tasks.status")
    then to_task_status
    else if text_eq rest (lit ".memory.shared")
    then to_memory
    else if text_eq rest (lit ".memory.context")
    then to_memory
    else if text_eq rest (lit ".observe.audit")
    then to_audit
    else if text_eq rest (lit ".orchestrator")
    then to_orchestrator
    else suffix_skill_route rest

skill_route-suffix :
    (group rest : Text)
    → skill_route (skill_topic_prefix group) (group_topic group rest) ≡ suffix_skill_route rest
unfolding skill_route
skill_route-suffix group rest =
    rw
      (
        has_prefix-cancel (lit "group.") (group ++ rest) (group ++ lit ".skill."),
        has_prefix-cancel group rest (lit ".skill."),
        drop-cancel (lit "group.") (group ++ lit ".skill.") (group ++ rest),
        drop-cancel group (lit ".skill.") rest,
      )
      refl

route-suffix : (group rest : Text) → route group (group_topic group rest) ≡ suffix_route rest
unfolding route
route-suffix group rest =
    rw
      (
        same_topic group rest (lit ".announce"),
        same_topic group rest (lit ".requests"),
        same_topic group rest (lit ".responses"),
        same_topic group rest (lit ".traces"),
        same_topic group rest (lit ".control.onboarding"),
        same_topic group rest (lit ".control.roster"),
        same_topic group rest (lit ".tasks.status"),
        same_topic group rest (lit ".memory.shared"),
        same_topic group rest (lit ".memory.context"),
        same_topic group rest (lit ".observe.audit"),
        same_topic group rest (lit ".orchestrator"),
        skill_route-suffix group rest,
      )
      refl

-- Each topic of a group reaches the handler that is meant for it: no two of them are confused, whatever
-- the name of the group.
pub route-topics :
    (group : Text)
    → let ext = extended_topics group in
      (route group ext.control_announce ≡ to_announce)
      × (route group ext.control_roster ≡ to_roster)
      × (route group ext.control_onboarding ≡ to_onboarding)
      × (route group ext.task_requests ≡ to_requests)
      × (route group ext.task_responses ≡ to_responses)
      × (route group ext.task_status ≡ to_task_status)
      × (route group ext.observe_traces ≡ to_traces)
      × (route group ext.observe_audit ≡ to_audit)
      × (route group ext.memory_shared ≡ to_memory)
      × (route group ext.memory_context ≡ to_memory)
      × (route group ext.orchestrator ≡ to_orchestrator)
unfolding text_eq
route-topics group = (
  route-suffix group (lit ".announce"),
  route-suffix group (lit ".control.roster"),
  route-suffix group (lit ".control.onboarding"),
  route-suffix group (lit ".requests"),
  route-suffix group (lit ".responses"),
  route-suffix group (lit ".tasks.status"),
  route-suffix group (lit ".traces"),
  route-suffix group (lit ".observe.audit"),
  route-suffix group (lit ".memory.shared"),
  route-suffix group (lit ".memory.context"),
  route-suffix group (lit ".orchestrator"),
)

cut_dot-append : (s rest : Text) → before_dot s ≡ none → cut_dot (s ++ 46 ∷ rest) ≡ some (s, rest)
unfolding before_dot cut_dot
cut_dot-append [] rest e = refl
cut_dot-append (c ∷ s) rest e = ground (arith, cut_dot-append s rest)

skill_suffix :
    (group rest : Text)
    → skill_topic_prefix group ++ rest ≡ group_topic group (lit ".skill." ++ rest)
skill_suffix group rest = ap (λ t. lit "group." ++ t) (append_assoc group (lit ".skill.") rest)

-- So do the two topics of a skill whose name has no dot.
pub route-skill :
    (group skill : Text)
    → before_dot skill ≡ none
    → (route group (skill_topics group skill).0 ≡ to_skill_requests skill)
      × (route group (skill_topics group skill).1 ≡ to_skill_responses skill)
unfolding text_eq has_prefix
route-skill group skill d =
    let to : (rest : Text)
        → route group (skill_topic_prefix group ++ (skill ++ 46 ∷ rest))
          ≡ direction_route (some (skill, rest)) =
      λ rest.
        ap (route group) (skill_suffix group (skill ++ 46 ∷ rest))
        ∙ route-suffix group (lit ".skill." ++ (skill ++ 46 ∷ rest))
        ∙ ap direction_route (cut_dot-append skill rest d) in
    (to (lit "requests"), to (lit "responses"))

-- Two deliveries of one task request, each given its ids as it is processed, are one piece of work: when
-- no task has its key yet and the agent answers the first, the second is given that answer and changes
-- no row.
pub request_message-once :
    (now later at at' : ℕ) (trace trace' fresh fresh' id id' text : Text) (p : TaskRequest)
    (answer : Answer) (tasks : Tasks)
    → any (has_id id) tasks ≡ false
    → get_task_by_idempotency_key (lit "group:" ++ p.task_id) tasks ≡ none
    → let tasks' =
        (process_message now fresh id (request_message at trace p) (answered text) tasks).1 in
      process_message later fresh' id' (request_message at' trace' p) answer tasks'
      ≡ (record { answer = answered text; task_id = id; asked = false }, tasks')
unfolding request_message with_ids
request_message-once now later at at' trace trace' fresh fresh' id id' text p answer tasks u n =
    process_message-once now later fresh fresh' id id' text (request_message at trace p)
      (request_message at' trace' p) answer tasks _ u refl n refl starts
