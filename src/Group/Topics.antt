-- ===== src/Group/Topics.antt =====
-- `TopicManager` of internal/group/topics.go; the texts of the descriptions are left out. The slices
-- that a copy of the manifest shares with it are not modelled.
pub mod Laws
use kaf_claw.Base.{
  ℕ, zero, suc, ◌+◌, ltb, Text, lit, text_eq, is_empty, strip_prefix, any, drop, length, Bool, true,
  false, Option, none, some, List, [], ◌∷◌, ◌++◌, if◌then◌else◌, ◌==◌,
}
use kaf_claw.Group.{
  ExtendedTopicNames, extended_topics, skill_topic_prefix, skill_topics, TopicDescriptor,
  TopicManifest,
}

pub record TopicManager : Type 0 where
  pub group_name : Text
  pub manifest : TopicManifest

abbrev topic : Text → Text → TopicDescriptor
topic name category = record { name = name; category = category; consumers = [] }

abbrev pub core_descriptors : ExtendedTopicNames → List TopicDescriptor
core_descriptors ext =
    topic ext.control_announce (lit "control")
    ∷ topic ext.control_roster (lit "control")
    ∷ topic ext.control_onboarding (lit "control")
    ∷ topic ext.task_requests (lit "tasks")
    ∷ topic ext.task_responses (lit "tasks")
    ∷ topic ext.task_status (lit "tasks")
    ∷ topic ext.observe_traces (lit "observe")
    ∷ topic ext.observe_audit (lit "observe")
    ∷ topic ext.memory_shared (lit "memory")
    ∷ topic ext.memory_context (lit "memory")
    ∷ topic ext.orchestrator (lit "control")
    ∷ []

unfoldable pub new_topic_manager : Text → TopicManager
new_topic_manager name = record {
  group_name = name;
  manifest = record {
    group_name = name;
    version = 1;
    core_topics = core_descriptors (extended_topics name);
    skill_topics = [];
    updated_by = [];
  };
}

abbrev pub is_topic : Text → TopicDescriptor → Bool
is_topic name t = text_eq t.name name

abbrev skill_topic : Text → Text → TopicDescriptor
skill_topic name agent = record { name = name; category = lit "skill"; consumers = agent ∷ [] }

unfoldable pub add_skill_topic : Text → Text → TopicManager → TopicManager
add_skill_topic skill agent tm =
    let m = tm.manifest in
    let (req_topic, resp_topic) = skill_topics tm.group_name skill in
    if any (is_topic req_topic) m.skill_topics then tm else record tm {
      manifest = record m {
        skill_topics =
            m.skill_topics ++ skill_topic req_topic agent ∷ skill_topic resp_topic agent ∷ [];
        version = suc m.version;
        updated_by = agent;
      };
    }

abbrev with_consumer : Text → TopicDescriptor → TopicDescriptor
with_consumer agent t =
    if any (λ c. text_eq c agent) t.consumers
    then t
    else record t { consumers = t.consumers ++ agent ∷ [] }

-- The first topic of the name.
unfoldable pub add_to : Text → Text → List TopicDescriptor → List TopicDescriptor
add_to name agent [] = []
add_to name agent (t ∷ topics) =
    if is_topic name t then with_consumer agent t ∷ topics else t ∷ add_to name agent topics

unfoldable pub add_consumer : Text → Text → TopicManager → TopicManager
add_consumer name agent tm = record tm {
  manifest = record tm.manifest {
    core_topics = add_to name agent tm.manifest.core_topics;
    skill_topics = add_to name agent tm.manifest.skill_topics;
  };
}

unfoldable pub update_manifest : TopicManifest → TopicManager → TopicManager
update_manifest m tm = if ltb tm.manifest.version m.version then record tm { manifest = m } else tm

-- What stands before the first dot; none without one.
unfoldable pub before_dot : Text → Option Text
before_dot [] = none
before_dot (c ∷ rest) =
    let skill = before_dot rest in
    if c == 46 then some [] else elim skill [ none ↦ none | some s ↦ some (c ∷ s) ]

-- The text after as many bytes as the prefix has, where it is longer, up to a dot.
unfoldable pub skill_of : Text → TopicDescriptor → Option Text
skill_of prefix t =
    if ltb (length prefix) (length t.name) then before_dot (drop (length prefix) t.name) else none

abbrev add_name : Option Text → List Text → List Text
add_name none names = names
add_name (some s) names = if any (λ n. text_eq n s) names then names else names ++ s ∷ []

unfoldable pub names_from : Text → List TopicDescriptor → List Text → List Text
names_from prefix [] names = names
names_from prefix (t ∷ topics) names = names_from prefix topics (add_name (skill_of prefix t) names)

unfoldable pub skill_names : TopicManager → List Text
skill_names tm = names_from (skill_topic_prefix tm.group_name) tm.manifest.skill_topics []
