-- ===== src/Orchestrator.antt =====
-- internal/orchestrator: types.go here, zone.go, hierarchy.go and discovery.go with orchestrator.go in
-- a child module each. The mutexes make every operation atomic. The Kafka envelopes that are sent,
-- the prints and the rows that are persisted are not modelled.
pub mod Zones
pub mod Hierarchy
pub mod Discovery
mod Tests
use kaf_claw.Base.{ℕ, Text, List}

pub record AgentNode : Type 0 where
  pub agent_id : Text
  pub agent_name : Text
  pub role : Text
  pub parent_id : Text
  pub zone_id : Text
  pub endpoint : Text
  pub status : Text

-- A time is a number of nanoseconds, 0 for the zero time.
pub record Zone : Type 0 where
  pub zone_id : Text
  pub name : Text
  pub visibility : Text
  pub owner_id : Text
  pub parent_zone : Text
  pub allowed_ids : List Text
  pub created_at : ℕ

pub record DiscoveryPayload : Type 0 where
  pub action : Text
  pub node : AgentNode
  pub zones : List Zone
  pub hierarchy : List AgentNode
