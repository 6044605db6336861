-- ===== src/Orchestrator/Discovery/Laws.antt =====
-- What a discovery from a remote agent cannot change, and where a new orchestrator may dispatch.
use kaf_claw.Base.{
  ℕ, Text, lit, text_eq, text_eq_iff, text_eq_refl, is_empty, lookup, insert, lookup-insert, true,
  false, not, ◌&&◌, none, some, is_some, List, [], ◌∷◌, ◌≡◌, ◌≢◌, ◌⊎◌, inl, inr, refl, arith,
  Bool-cases, ◌∙◌,
}
use kaf_claw.Orchestrator.{AgentNode, Zone, DiscoveryPayload}
use kaf_claw.Orchestrator.Zones.{
  ZoneManager, new_zone_manager, create_zone, add_member, get_zone, is_allowed, admits, members_of,
  stamped, or_same,
}
use kaf_claw.Orchestrator.Zones.Laws.{
  IsValid, new_zone_manager-IsValid, create_zone-IsValid, add_member-IsValid, or_same-IsValid,
}
use kaf_claw.Orchestrator.Hierarchy.{Hierarchy, add_node, get_node}
use kaf_claw.Orchestrator.Discovery.{
  OrchestratorConfig, Orchestrator, own_zone, initial_zones, new_orchestrator, merge_nodes,
  merge_zones, handle_discovery, submits, dispatch_task,
}

merge_nodes-kept :
    (ns : List AgentNode) (h : Hierarchy) (id : Text) (n : AgentNode)
    → lookup id h ≡ some n
    → lookup id (merge_nodes ns h) ≡ some n
unfolding merge_nodes add_node get_node
merge_nodes-kept [] h id n e = e
merge_nodes-kept (m ∷ ns) h id n e =
    merge_nodes-kept ns _ id n
      (ground (arith, lookup-insert id m.agent_id m h, text_eq_iff m.agent_id id))

-- A zone and its members stay as they are while another zone is made.
create_zone-kept :
    (now : ℕ) (w : Zone) (zm : ZoneManager) (id : Text) (z : Zone)
    → lookup id zm.zones ≡ some z
    → (lookup id (or_same zm (create_zone now w zm)).zones ≡ some z)
      × (members_of id (or_same zm (create_zone now w zm)) ≡ members_of id zm)
unfolding create_zone members_of
create_zone-kept now w zm id z e = ground (
  arith,
  lookup-insert id w.zone_id (stamped now w) zm.zones,
  lookup-insert id w.zone_id [] zm.members,
  text_eq_iff w.zone_id id,
)

merge_zones-kept :
    (now : ℕ) (ws : List Zone) (zm : ZoneManager) (id : Text) (z : Zone)
    → lookup id zm.zones ≡ some z
    → (lookup id (merge_zones now ws zm).zones ≡ some z)
      × (members_of id (merge_zones now ws zm) ≡ members_of id zm)
unfolding merge_zones get_zone
merge_zones-kept now [] zm id z e = (e, refl)
merge_zones-kept now (w ∷ ws) zm id z e = elim (Bool-cases (is_some (lookup w.zone_id zm.zones))) [
  | inl old ↦ rw (old, merge_zones) (merge_zones-kept now ws zm id z e)
  | inr new ↦
      let (here, ms) = create_zone-kept now w zm id z e in
      let (z', ms') = merge_zones-kept now ws (or_same zm (create_zone now w zm)) id z here in
      rw (new, merge_zones) (z', ms' ∙ ms)
]

handle_discovery-named :
    (now : ℕ) (p : DiscoveryPayload) (o : Orchestrator)
    → lookup p.node.agent_id (handle_discovery now p o).hierarchy ≡ some p.node
unfolding handle_discovery add_node
handle_discovery-named now p o =
    merge_nodes-kept p.hierarchy (add_node p.node o.hierarchy) p.node.agent_id p.node (
      ground (
        arith,
        lookup-insert p.node.agent_id p.node.agent_id p.node o.hierarchy,
        text_eq_iff p.node.agent_id p.node.agent_id,
      ))

-- A discovery from a remote agent changes no zone that is there: not its owner, its visibility, its
-- members or who may use it. Of the nodes that are there it changes none but the one that its payload
-- names; that one it replaces, whoever sent the payload, for nothing compares the two.
pub handle_discovery-kept :
    (now : ℕ) (p : DiscoveryPayload) (o : Orchestrator) (zone agent id : Text) (z : Zone)
    (n : AgentNode)
    → lookup zone o.zones.zones ≡ some z
    → lookup id o.hierarchy ≡ some n
    → id ≢ p.node.agent_id
    → let o' = handle_discovery now p o in
      (lookup zone o'.zones.zones ≡ some z)
      × (members_of zone o'.zones ≡ members_of zone o.zones)
      × (is_allowed zone agent o'.zones ≡ is_allowed zone agent o.zones)
      × (lookup id o'.hierarchy ≡ some n)
      × (lookup p.node.agent_id o'.hierarchy ≡ some p.node)
unfolding handle_discovery is_allowed admits add_node
handle_discovery-kept now p o zone agent id z n e f other =
    let (same, ms) = merge_zones-kept now p.zones o.zones zone z e in
    (
      same,
      ms,
      ground arith,
      merge_nodes-kept p.hierarchy (add_node p.node o.hierarchy) id n (
          ground (
            arith,
            lookup-insert id p.node.agent_id p.node o.hierarchy,
            text_eq_iff p.node.agent_id id,
          )),
      handle_discovery-named now p o,
    )

initial_zones-IsValid :
    (now : ℕ) (agent : Text) (cfg : OrchestratorConfig) → IsValid (initial_zones now agent cfg)
unfolding initial_zones
initial_zones-IsValid now agent cfg =
    elim (Bool-cases (not (is_empty cfg.zone_id) && not (text_eq cfg.zone_id (lit "public")))) [
      | inl own ↦ rw (own, initial_zones) (adds cfg.zone_id own_zm (creates joined_public))
      | inr none_own ↦ rw (none_own, initial_zones) joined_public
    ]
  where
    adds :
        (id : Text) (zm : ZoneManager) → IsValid zm → IsValid (or_same zm (add_member id agent zm))
    adds id zm v = or_same-IsValid zm _ (λ zm' e. add_member-IsValid id agent zm zm' e v) v

    creates :
        {zm : ZoneManager}
        → IsValid zm
        → IsValid (or_same zm (create_zone now (own_zone agent cfg) zm))
    creates {zm} v =
        or_same-IsValid zm _ (λ zm' e. create_zone-IsValid now (own_zone agent cfg) zm zm' e v) v

    joined_public :
        IsValid
          (or_same (new_zone_manager now) (add_member (lit "public") agent (new_zone_manager now)))
    joined_public = adds (lit "public") (new_zone_manager now) (new_zone_manager-IsValid now)

    own_zm : ZoneManager
    own_zm =
        let zm =
          or_same (new_zone_manager now) (add_member (lit "public") agent (new_zone_manager now)) in
        or_same zm (create_zone now (own_zone agent cfg) zm)

public_allowed :
    (agent : Text) (zm : ZoneManager) → IsValid zm → is_allowed (lit "public") agent zm ≡ true
unfolding is_allowed admits
public_allowed agent zm v =
    ground
      (arith, v.has_public.1, v.has_public.2, text_eq_iff v.has_public.0.visibility (lit "public"))

zones-add_member :
    (id agent : Text) (zm : ZoneManager) → (or_same zm (add_member id agent zm)).zones ≡ zm.zones
unfolding add_member
zones-add_member id agent zm = ground arith

own_zone_made :
    (now : ℕ) (agent : Text) (cfg : OrchestratorConfig) (zm : ZoneManager)
    → lookup cfg.zone_id zm.zones ≡ none
    → lookup cfg.zone_id (or_same zm (create_zone now (own_zone agent cfg) zm)).zones
      ≡ some (stamped now (own_zone agent cfg))
unfolding create_zone
own_zone_made now agent cfg zm e = ground (
  arith,
  lookup-insert cfg.zone_id cfg.zone_id (stamped now (own_zone agent cfg)) zm.zones,
  text_eq_refl cfg.zone_id,
)

own_zone_absent :
    (now : ℕ) (id : Text)
    → text_eq id (lit "public") ≡ false
    → lookup id (new_zone_manager now).zones ≡ none
unfolding new_zone_manager lookup insert
own_zone_absent now id h =
    ground (arith, text_eq_iff id (lit "public"), text_eq_iff (lit "public") id)

shared_admits :
    (zone agent : Text) (zm : ZoneManager) (z : Zone)
    → lookup zone zm.zones ≡ some z
    → z.visibility ≡ lit "shared"
    → z.owner_id ≡ agent
    → is_allowed zone agent zm ≡ true
unfolding is_allowed admits
shared_admits zone agent zm z e s o = ground (
  arith,
  text_eq_iff z.visibility (lit "public"),
  text_eq_iff z.visibility (lit "shared"),
  text_eq_iff z.owner_id agent,
)

own_allowed :
    (now : ℕ) (agent : Text) (cfg : OrchestratorConfig)
    → is_empty cfg.zone_id ≡ false
    → text_eq cfg.zone_id (lit "public") ≡ false
    → is_allowed cfg.zone_id agent (initial_zones now agent cfg) ≡ true
unfolding initial_zones
own_allowed now agent cfg h k =
    let zm =
      or_same (new_zone_manager now) (add_member (lit "public") agent (new_zone_manager now)) in
    let own = or_same zm (create_zone now (own_zone agent cfg) zm) in
    shared_admits cfg.zone_id agent (initial_zones now agent cfg) (stamped now (own_zone agent cfg))
      (ground (
        arith,
        zones-add_member cfg.zone_id agent own,
        own_zone_made now agent cfg zm,
        zones-add_member (lit "public") agent (new_zone_manager now),
        own_zone_absent now cfg.zone_id k,
      ))
      refl refl

-- A new orchestrator with an active group manager may dispatch to the public zone, to its own zone,
-- and with no zone named, whatever its configuration is.
pub dispatch_task-new :
    (now : ℕ) (agent target : Text) (cfg : OrchestratorConfig)
    → (target ≡ []) ⊎ ((target ≡ lit "public") ⊎ (target ≡ cfg.zone_id))
    → dispatch_task target (new_orchestrator now agent cfg true) ≡ submits
unfolding dispatch_task new_orchestrator
dispatch_task-new now agent target cfg c = ground (
  arith,
  public_allowed agent (initial_zones now agent cfg) (initial_zones-IsValid now agent cfg),
  own_allowed now agent cfg,
  text_eq_iff cfg.zone_id (lit "public"),
)
