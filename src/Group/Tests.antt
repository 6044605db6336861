-- ===== src/Group/Tests.antt =====
-- Runs of a group of two agents.
use kaf_claw.Base.{
  ℕ, pos, Text, lit, text_eq, lookup, insert, delete, has_prefix, trim_space, true, false, some,
  none, List, [], ◌∷◌, ◌≡◌, refl,
}
use kaf_claw.Bus.{message_type}
use kaf_claw.Tasks.{get_task_by_idempotency_key, create_task, update_task, update_task_status}
use kaf_claw.Tasks.Dedup.{answered, errored, process_message, run_task, with_ids}
use kaf_claw.Group.{
  AgentIdentity, TaskRequest, OnboardPayload, onboard_response, join, leave, skill_topics,
}
use kaf_claw.Group.Topics.{
  new_topic_manager, add_skill_topic, before_dot, skill_of, names_from, skill_names,
  update_manifest,
}
use kaf_claw.Group.Manager.{
  Manager, GroupConfig, MemberRow, new_manager, handle_announce, upsert_group_member,
  soft_delete_group_member, join_group, leave_group, persist_heartbeat_metadata, list_group_members,
  member_of,
}
use kaf_claw.Group.Manager.Laws.{
  Announcement, handle_all, entry_after, entry_after_all, handle_all-entry, rejoined-unlisted,
}
use kaf_claw.Group.Delegation.{submit_delegated_task, delegated, max_depth}
use kaf_claw.Group.Onboarding.{
  handle_onboard, handle_onboard_request, handle_onboard_challenge, handle_onboard_response,
  handle_onboard_complete, send_onboard, start_onboard, complete_for, answer_challenge,
  generate_challenge, listed_capabilities,
}
use kaf_claw.Group.Onboarding.Laws.{
  is_welcome, handle_onboard-welcome, exchange, handshake, handshake-joins,
}
use kaf_claw.Group.Router.{route, skill_route, cut_dot, nowhere, request_message}
use kaf_claw.Group.Router.Laws.{request_message-once}

group : Unit {0}
unfolding text_eq lookup insert delete has_prefix new_topic_manager add_skill_topic before_dot
    skill_of names_from skill_names update_manifest new_manager handle_announce upsert_group_member
    soft_delete_group_member join_group leave_group persist_heartbeat_metadata list_group_members
    handle_all entry_after entry_after_all submit_delegated_task delegated max_depth handle_onboard
    handle_onboard_request handle_onboard_challenge handle_onboard_response handle_onboard_complete
    send_onboard start_onboard complete_for answer_challenge generate_challenge listed_capabilities
    exchange route skill_route cut_dot request_message get_task_by_idempotency_key create_task
    update_task update_task_status process_message run_task with_ids message_type trim_space
group = tt

abbrev agent : Text → AgentIdentity
agent id = record {
  agent_id = id;
  agent_name = id;
  soul_summary = [];
  capabilities = lit "code" ∷ [];
  channels = [];
  model = lit "m";
  status = lit "active";
  role = [];
}

abbrev config : GroupConfig
config = record { group_name = lit "g"; onboard_mode = lit "gated"; max_delegation_depth = pos 2 }

abbrev ann : Manager
ann = new_manager config (agent (lit "ann"))

abbrev bob : Manager
bob = record (new_manager config (agent (lit "bob"))) { active = true }

abbrev says : ℕ → Announcement
says n = record { at = n; action = join; identity = agent (lit "bob") }

abbrev heard : List Announcement
heard =
    says 1
    ∷ record (says 2) { action = leave }
    ∷ says 3
    ∷ record (says 4) { identity = agent (lit "eve") }
    ∷ []

handle_all-entry_example :
    lookup (lit "bob") (handle_all heard ann).roster
    ≡ some (member_of (agent (lit "bob")) [] (lit "active") 3)
unfolding group
handle_all-entry_example = handle_all-entry (lit "bob") heard ann

abbrev bobs_row : MemberRow
bobs_row = record {
  identity = agent (lit "bob");
  status = lit "active";
  last_seen = 1;
  left_at = none;
}

abbrev knows_bob : Manager
knows_bob = (handle_announce 1 join (agent (lit "bob")) ann).0

rejoined-unlisted_example :
    let gone = (handle_announce 2 leave (agent (lit "bob")) knows_bob).0 in
    let back = (handle_announce 3 join (agent (lit "bob")) gone).0 in
    (lookup (lit "bob") back.roster ≡ some (member_of (agent (lit "bob")) [] (lit "active") 3))
    × (lookup (lit "bob") (list_group_members back.store) ≡ none)
unfolding group
rejoined-unlisted_example =
    rejoined-unlisted 2 3 (agent (lit "bob")) bobs_row knows_bob (refl, tt) refl

abbrev task : TaskRequest
task = record {
  task_id = lit "t1";
  description = [];
  content = lit "do it";
  requester_id = lit "eve";
  parent_task_id = [];
  delegation_depth = 0;
  original_requester_id = [];
}

abbrev twice_on : TaskRequest
twice_on = delegated bob (delegated bob task)

-- A request that was handed on twice is refused by an agent whose limit is two.
third_refused : submit_delegated_task true twice_on bob ≡ none
unfolding group
third_refused = refl

-- A response that no challenge asked for, to an agent of a group with challenges that is not active.
abbrev unasked : OnboardPayload
unasked = record {
  action = onboard_response;
  requester_id = lit "eve";
  sponsor_id = lit "ann";
  skills = [];
  challenge = [];
  response = lit "x";
  manifest = none;
  reason = [];
}

handle_onboard-welcome_example : is_welcome (lit "eve") (handle_onboard true 5 unasked ann).1 ≡ true
unfolding group
handle_onboard-welcome_example = handle_onboard-welcome (lit "eve") 5 unasked ann

handshake-joins_example : (handshake 5 ann bob).1.active ≡ true
unfolding group
handshake-joins_example = handshake-joins 5 ann bob refl refl

-- The topics of a skill whose name has a dot reach no handler, and are listed under what stands before it.
dotted_skill :
    (route (lit "g") (skill_topics (lit "g") (lit "data.clean")).0 ≡ nowhere)
    × (skill_names (add_skill_topic (lit "data.clean") (lit "bob") (new_topic_manager (lit "g")))
        ≡ lit "data" ∷ [])
unfolding group
dotted_skill = (refl, refl)

request_message-once_example :
    process_message 9
      (lit "f2")
      (lit "i2")
      (request_message 8 (lit "tr") task)
      (errored (lit "down"))
      (process_message 5
        (lit "f1")
        (lit "i1")
        (request_message 4 (lit "tr") task)
        (answered (lit "done"))
        []).1
    ≡ (
      record { answer = answered (lit "done"); task_id = lit "i1"; asked = false },
      (process_message 5
          (lit "f1")
          (lit "i1")
          (request_message 4 (lit "tr") task)
          (answered (lit "done"))
          []).1,
    )
unfolding group
request_message-once_example =
    request_message-once 5 9 4 8 (lit "tr") (lit "tr") (lit "f1") (lit "f2") (lit "i1") (lit "i2")
      (lit "done") task (errored (lit "down")) [] refl refl
