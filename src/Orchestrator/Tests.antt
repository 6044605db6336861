-- ===== src/Orchestrator/Tests.antt =====
-- Runs of the zones, the hierarchy and the discovery.
use kaf_claw.Base.{
  Text, lit, text_eq, lookup, insert, delete, true, false, some, List, [], ◌∷◌, ◌≡◌, ◌↔◌, refl,
  arith, Bool,
}
use kaf_claw.Orchestrator.{AgentNode, Zone, DiscoveryPayload}
use kaf_claw.Orchestrator.Zones.{
  ZoneManager, new_zone_manager, create_zone, delete_zone, add_member, remove_member, is_allowed,
  is_visible, members_of, stamped, admits, opens,
}
use kaf_claw.Orchestrator.Zones.Laws.{IsValid, creates, adds, removes, run, run-IsValid, Call, step}
use kaf_claw.Orchestrator.Zones.Access.{is_visible-unknown}
use kaf_claw.Orchestrator.Hierarchy.{Hierarchy, ancestors, is_descendant, add_node}
use kaf_claw.Orchestrator.Hierarchy.Walks.{Above, walks_total, is_descendant_iff}
use kaf_claw.Orchestrator.Discovery.{
  OrchestratorConfig, Orchestrator, new_orchestrator, handle_discovery, initial_zones, own_zone,
  self_node_of,
}
use kaf_claw.Orchestrator.Discovery.Laws.{handle_discovery-kept}

zones : Unit {0}
unfolding text_eq lookup insert delete new_zone_manager create_zone delete_zone add_member
    remove_member is_allowed is_visible members_of admits opens run step add_node new_orchestrator
    initial_zones
zones = tt

abbrev node : Text → Text → AgentNode
node id up = record {
  agent_id = id;
  agent_name = [];
  role = lit "worker";
  parent_id = up;
  zone_id = [];
  endpoint = [];
  status = lit "active";
}

abbrev zone : Text → Text → Zone
zone id visibility = record {
  zone_id = id;
  name = id;
  visibility = visibility;
  owner_id = lit "own";
  parent_zone = [];
  allowed_ids = [];
  created_at = 1;
}

abbrev calls : List Call
calls =
    creates 5 (zone (lit "z") (lit "private"))
    ∷ adds (lit "z") (lit "ann")
    ∷ adds (lit "z") (lit "ann")
    ∷ removes (lit "z") (lit "bob")
    ∷ []

run-IsValid_example : IsValid (run (new_zone_manager 3) calls)
run-IsValid_example = run-IsValid 3 calls

abbrev odd : ZoneManager
odd = record {
  zones = (lit "z", zone (lit "z") (lit "Private")) ∷ [];
  members = (lit "z", lit "ann" ∷ lit "bob" ∷ []) ∷ [];
}

is_visible-unknown_example :
    (is_visible (lit "ann") (lit "bob") odd ≡ true) × (is_allowed (lit "z") (lit "ann") odd ≡ false)
unfolding zones
is_visible-unknown_example =
    is_visible-unknown (lit "z") (lit "ann") (lit "bob") (zone (lit "z") (lit "Private")) odd refl
      (λ k. ground arith) refl refl

abbrev tree : Hierarchy
tree =
    (lit "a", node (lit "a") (lit "b"))
    ∷ (lit "b", node (lit "b") (lit "c"))
    ∷ (lit "c", node (lit "c") [])
    ∷ []

abbrev cycle : Hierarchy
cycle = (lit "a", node (lit "a") (lit "b")) ∷ (lit "b", node (lit "b") (lit "a")) ∷ []

is_descendant_iff_example :
    (is_descendant (lit "a") (lit "c") tree ≡ some true) ↔ Above tree (lit "c") (lit "a")
is_descendant_iff_example = is_descendant_iff (lit "a") (lit "c") tree

walks_total_example :
    ((found : List AgentNode) × (ancestors (lit "a") cycle ≡ some found))
    × ((b : Bool) × (is_descendant (lit "a") (lit "z") cycle ≡ some b))
walks_total_example = walks_total (lit "a") (lit "z") cycle

abbrev config : OrchestratorConfig
config = record { role = lit "worker"; zone_id = lit "z"; parent_id = []; endpoint = [] }

abbrev orchestrator : Orchestrator
orchestrator = new_orchestrator 3 (lit "me") config true

-- The agent's own zone, with the time of its creation filled in.
abbrev own_after : Zone
own_after = stamped 3 (own_zone (lit "me") config)

abbrev news : DiscoveryPayload
news = record {
  action = lit "join";
  node = node (lit "ann") [];
  zones = zone (lit "z") (lit "public") ∷ [];
  hierarchy = node (lit "me") (lit "ann") ∷ [];
}

handle_discovery-kept_example :
    let o = handle_discovery 9 news orchestrator in
    (lookup (lit "z") o.zones.zones ≡ some own_after)
    × (members_of (lit "z") o.zones ≡ members_of (lit "z") orchestrator.zones)
    × (is_allowed (lit "z") (lit "ann") o.zones
        ≡ is_allowed (lit "z") (lit "ann") orchestrator.zones)
    × (lookup (lit "me") o.hierarchy ≡ some (self_node_of (lit "me") config))
    × (lookup (lit "ann") o.hierarchy ≡ some (node (lit "ann") []))
unfolding zones
handle_discovery-kept_example =
    handle_discovery-kept 9 news orchestrator (lit "z") (lit "ann") (lit "me") own_after
      (self_node_of (lit "me") config) refl refl (ground arith)
