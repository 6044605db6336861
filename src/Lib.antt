-- ===== src/Lib.antt =====
-- A model of the parts of KafClaw that decide: what an agent may do, who may talk to it, what it
-- believes, and which agents it sees. Paths are from the root of the repository.
--
-- - Policy: internal/policy/engine.go, the engine that allows, denies or defers a tool call by its
--   tier. Policy/Subagent: the narrower engine of subagents at the end of internal/agent/loop.go
--   (matchToolPattern, toolDeniedByPolicy, subagentPolicy.Evaluate). Policy/Gate: what the agent loop
--   does with a decision (checkToolPolicy), and the replies of a user (parseApprovalResponse).
-- - Approval: internal/approval/manager.go, which the gate waits on, with the rows of approval_requests
--   in internal/timeline/service.go. Approval/Steps interleaves the goroutines that share a manager.
-- - Subagents: internal/agent/subagents.go. Subagents/Runs has the runs, the sweep and their life
--   (markRunning, markFinished), Subagents/Spawn the limits and the registration (canSpawn, register),
--   Subagents/Restore the constructor and the restart, Subagents/Announce the announcements with
--   their back-off, Subagents/Kill the killing of runs, Subagents/Steps sequences of operations.
-- - Knowledge: the protocol by which agents share facts. Contracts, Voting and Facts are the three
--   files of internal/knowledge; Store is the knowledge tables of internal/timeline/service.go; Handler
--   is Process of internal/group/knowledge_handler.go, which validates a message, records its
--   idempotency key and applies its payload to the tables.
-- - Orchestrator: internal/orchestrator. Zones is zone.go, Hierarchy is hierarchy.go, Discovery is
--   discovery.go with the construction and the dispatch of orchestrator.go.
-- - Channels: internal/channels. Senders has the normal forms of senders and allowlists, Access is
--   access_policy.go, Pairing is pairing.go, Scopes is session_scope.go and account_routing.go.
-- - Bus: internal/bus/bus.go; Bus/Steps interleaves its senders and receivers, and Bus/Calls has the calls
--   that a message is owed.
-- - Tasks: the table tasks of internal/timeline/service.go. Tasks/Dedup is processMessage and the round
--   of Run in internal/agent/loop.go, which take one task for each idempotency key; Tasks/Delivery is
--   internal/agent/delivery.go with the reports of a channel (Start of internal/channels/slack.go).
-- - Scheduler: internal/scheduler/scheduler.go and semaphore.go. Scheduler/Cron is ParseCron of
--   cron.go, Scheduler/Next its Matches and Next on the calendar of Scheduler/Calendar; Scheduler/Steps
--   interleaves ticks and goroutines.
-- - Group: internal/group. Manager is manager.go with its rows in internal/timeline/service.go,
--   Delegation the tasks that it submits and reports on, Topics topics.go, Onboarding onboarding.go, and Router is
--   consumer.go, which gives what arrives to the manager or puts it on the bus.
-- - Memory: Lifecycle is internal/memory/lifecycle.go, Working is internal/memory/working.go.
-- - Sessions: internal/session/session.go, with the names of its files in Sessions/Paths.
-- - Middleware: internal/provider/middleware. The chain is middleware.go, Detectors detectors.go, Guard
--   promptguard.go, Sanitizer sanitizer.go.
-- - Tools: Shell is the guard of internal/tools/shell.go, Files what writes in
--   internal/tools/filesystem.go.
-- - Providers: internal/provider/resolver.go. Skills: the audit log, internal/skills/audit_chain.go.
-- - Base: the shared names. Base/Strings has Go's strings, Base/Tables maps, Base/Int integers.
--
-- The state of a part is a record with the fields of the Go struct, an operation is a function with
-- the name of the Go function from a state to a result and a state, and an error is a constructor that
-- stands for its message. A mutex makes an operation one step; where the source lets go of it, the
-- operation is cut there (Approval.find, then send, receive or give_up; Subagents.Spawn.can_spawn,
-- then register). A law about sequences of operations is one over a list of calls or of messages, or
-- over a step relation.
--
-- Representation: a string is the list of its bytes, with the case mapping and the white space of
-- ASCII; a Go int and a duration are unbounded integers, but for the back-off of an announcement and
-- the numbers of a cron expression, which have 64 bits and wrap around; a time is a natural number of nanoseconds, 0 for
-- the zero time, but for what a file or a text keeps of it, which is in seconds; a map is an
-- association list, and what is proved about a map that is ranged over does
-- not depend on the order, or is about the list as a whole. The clock, the random ids and codes, the
-- SHA-1 digest of announcement ids, SHA-256 and the marshalling of the audit log, the file that a path
-- names through symbolic links, the tool registry, the answer of the agent and of a provider, the file
-- lock and the LFS proxy are arguments; a regular expression is the function that package regexp
-- makes of it. encoding/json is read as the value that it gives, or as failing. An SQL statement is its documented effect on a table with the
-- primary key of the schema, and succeeds.
--
-- Bounds: a walk through the hierarchy has fuel for each node and one more, which is enough since the
-- source marks the nodes that it has seen. The killing of descendants has no bound in the source; its
-- fuel is the number of runs, which no chain of children exceeds where no run is its own ancestor. The search
-- of Next has fuel for each minute of its two years and one more. The steps of a cron range have fuel for
-- 80 numbers: those that stay in the range rise, and those that wrap around fall by two turns. Other recursions are structural.
--
-- Not modelled: logs, timeline events, metrics, the files and the network; Kafka, HTTP and the
-- providers; the command line, the desktop and the web interface. Of the modelled parts: the
-- classifier and the costs of the middleware, the shared memory and the skills of
-- a group, vector search and observations of the memory, the running of commands,
-- the persisted copies of the hierarchy and of the runs of subagents, and the lists that the
-- interfaces show.
pub mod Base
pub mod Policy
pub mod Approval
pub mod Subagents
pub mod Knowledge
pub mod Orchestrator
pub mod Channels
pub mod Bus
pub mod Tasks
pub mod Scheduler
pub mod Group
pub mod Memory
pub mod Sessions
pub mod Middleware
pub mod Tools
pub mod Providers
pub mod Skills
