-- ===== src/Orchestrator/Discovery.antt =====
-- internal/orchestrator/discovery.go and what orchestrator.go adds to it: the construction of an
-- orchestrator, the handling of a discovery and the dispatch of a task. The group manager is a flag
-- that says whether it is active; handing the task to it is the effect `submits`.
pub mod Laws
use kaf_claw.Base.{
  ℕ, Text, lit, text_eq, is_empty, Table, lookup, Bool, true, false, not, ◌&&◌, Option, none, some,
  is_some, List, [], ◌∷◌, if◌then◌else◌,
}
use kaf_claw.Orchestrator.{AgentNode, Zone, DiscoveryPayload}
use kaf_claw.Orchestrator.Zones.{
  or_same, ZoneManager, new_zone_manager, create_zone, add_member, get_zone, is_allowed,
}
use kaf_claw.Orchestrator.Hierarchy.{Hierarchy, new_hierarchy, add_node, get_node}

pub record OrchestratorConfig : Type 0 where
  pub role : Text
  pub zone_id : Text
  pub parent_id : Text
  pub endpoint : Text

pub record Orchestrator : Type 0 where
  pub hierarchy : Hierarchy
  pub zones : ZoneManager
  pub self_node : AgentNode
  pub manager_active : Bool

abbrev pub self_node_of : Text → OrchestratorConfig → AgentNode
self_node_of agent cfg = record {
  agent_id = agent;
  agent_name = [];
  role = cfg.role;
  parent_id = cfg.parent_id;
  zone_id = cfg.zone_id;
  endpoint = cfg.endpoint;
  status = lit "active";
}

abbrev pub own_zone : Text → OrchestratorConfig → Zone
own_zone agent cfg = record {
  zone_id = cfg.zone_id;
  name = cfg.zone_id;
  visibility = lit "shared";
  owner_id = agent;
  parent_zone = [];
  allowed_ids = [];
  created_at = 0;
}

-- The zones that `New` sets up for its own agent; the errors are dropped, as in the source.
unfoldable pub initial_zones : ℕ → Text → OrchestratorConfig → ZoneManager
initial_zones now agent cfg =
    let zm = new_zone_manager now in
    let zm' = or_same zm (add_member (lit "public") agent zm) in
    let own = or_same zm' (create_zone now (own_zone agent cfg) zm') in
    if not (is_empty cfg.zone_id) && not (text_eq cfg.zone_id (lit "public"))
    then or_same own (add_member cfg.zone_id agent own)
    else zm'

unfoldable pub new_orchestrator : ℕ → Text → OrchestratorConfig → Bool → Orchestrator
new_orchestrator now agent cfg active = record {
  hierarchy = add_node (self_node_of agent cfg) new_hierarchy;
  zones = initial_zones now agent cfg;
  self_node = self_node_of agent cfg;
  manager_active = active;
}

-- The first loop of `HandleDiscovery`: only nodes that are not there yet.
unfoldable pub merge_nodes : List AgentNode → Hierarchy → Hierarchy
merge_nodes [] h = h
merge_nodes (n ∷ ns) h =
    merge_nodes ns (if is_some (get_node n.agent_id h) then h else add_node n h)

-- Its second loop: only zones that are not there yet.
unfoldable pub merge_zones : ℕ → List Zone → ZoneManager → ZoneManager
merge_zones now [] zm = zm
merge_zones now (z ∷ zs) zm =
    merge_zones now zs
      (if is_some (get_zone z.zone_id zm) then zm else or_same zm (create_zone now z zm))

unfoldable pub handle_discovery : ℕ → DiscoveryPayload → Orchestrator → Orchestrator
handle_discovery now p o = record o {
  hierarchy = merge_nodes p.hierarchy (add_node p.node o.hierarchy);
  zones = merge_zones now p.zones o.zones;
}

pub data Dispatch : Type 0 where
  submits : Dispatch
  not_allowed : Text → Text → Dispatch
  manager_not_active : Dispatch

abbrev pub zone_or_public : Text → Text
zone_or_public zone = if is_empty zone then lit "public" else zone

unfoldable pub dispatch_task : Text → Orchestrator → Dispatch
dispatch_task target o =
    if not (is_allowed (zone_or_public target) o.self_node.agent_id o.zones)
    then not_allowed o.self_node.agent_id (zone_or_public target)
    else if o.manager_active
    then submits
    else manager_not_active
