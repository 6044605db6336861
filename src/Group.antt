-- ===== src/Group.antt =====
-- internal/group/types.go and the names of internal/group/topics.go. What an agent says to the group
-- is an envelope on a topic; its payload is one of those that the modelled operations send or read.
-- The correlation id and the time, which no operation here tests, are left out.
pub mod Topics
pub mod Manager
pub mod Delegation
pub mod Onboarding
pub mod Router
mod Tests
use kaf_claw.Base.{ℕ, Text, lit, List, [], ◌∷◌, ◌++◌, Option, none, some}

pub record AgentIdentity : Type 0 where
  pub agent_id : Text
  pub agent_name : Text
  pub soul_summary : Text
  pub capabilities : List Text
  pub channels : List Text
  pub model : Text
  pub status : Text
  pub role : Text

pub record GroupMember : Type 0 where
  pub agent_id : Text
  pub agent_name : Text
  pub soul_summary : Text
  pub capabilities : List Text
  pub channels : List Text
  pub model : Text
  pub role : Text
  pub status : Text
  pub last_seen : ℕ

-- `Sprintf` of "group.%s." and what follows.
abbrev pub group_topic : Text → Text → Text
group_topic name rest = lit "group." ++ (name ++ rest)

pub record ExtendedTopicNames : Type 0 where
  pub control_announce : Text
  pub control_roster : Text
  pub control_onboarding : Text
  pub task_requests : Text
  pub task_responses : Text
  pub task_status : Text
  pub observe_traces : Text
  pub observe_audit : Text
  pub memory_shared : Text
  pub memory_context : Text
  pub orchestrator : Text

abbrev pub extended_topics : Text → ExtendedTopicNames
extended_topics name = record {
  control_announce = group_topic name (lit ".announce");
  control_roster = group_topic name (lit ".control.roster");
  control_onboarding = group_topic name (lit ".control.onboarding");
  task_requests = group_topic name (lit ".requests");
  task_responses = group_topic name (lit ".responses");
  task_status = group_topic name (lit ".tasks.status");
  observe_traces = group_topic name (lit ".traces");
  observe_audit = group_topic name (lit ".observe.audit");
  memory_shared = group_topic name (lit ".memory.shared");
  memory_context = group_topic name (lit ".memory.context");
  orchestrator = group_topic name (lit ".orchestrator");
}

abbrev pub skill_topic_prefix : Text → Text
skill_topic_prefix name = group_topic name (lit ".skill.")

-- The topics of a skill: the requests and the responses.
abbrev pub skill_topics : Text → Text → Text × Text
skill_topics name skill = (
  skill_topic_prefix name ++ (skill ++ lit ".requests"),
  skill_topic_prefix name ++ (skill ++ lit ".responses"),
)

pub record TopicDescriptor : Type 0 where
  pub name : Text
  pub category : Text
  pub consumers : List Text

pub record TopicManifest : Type 0 where
  pub group_name : Text
  pub version : ℕ
  pub core_topics : List TopicDescriptor
  pub skill_topics : List TopicDescriptor
  pub updated_by : Text

pub data OnboardAction : Type 0 where
  onboard_request onboard_challenge onboard_response onboard_complete onboard_reject : OnboardAction

pub record OnboardPayload : Type 0 where
  pub action : OnboardAction
  pub requester_id : Text
  pub sponsor_id : Text
  pub skills : List Text
  pub challenge : Text
  pub response : Text
  pub manifest : Option TopicManifest
  pub reason : Text

-- The actions of an announcement; any other is ignored.
pub data AnnounceAction : Type 0 where
  join heartbeat leave other : AnnounceAction

pub record TaskRequest : Type 0 where
  pub task_id : Text
  pub description : Text
  pub content : Text
  pub requester_id : Text
  pub parent_task_id : Text
  pub delegation_depth : ℕ
  pub original_requester_id : Text

pub record TaskReply : Type 0 where
  pub task_id : Text
  pub responder_id : Text
  pub content : Text
  pub status : Text

pub data Payload : Type 0 where
  announce : AnnounceAction → AgentIdentity → Payload
  onboard : OnboardPayload → Payload
  request : TaskRequest → Payload
  response : TaskReply → Payload
  task_status : TaskReply → Payload
  ensure_topic : Text → Payload

-- What was given to the LFS proxy: the topic, the sender and the payload.
pub record Produced : Type 0 where
  pub topic : Text
  pub sender_id : Text
  pub payload : Payload
