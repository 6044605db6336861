-- ===== src/Orchestrator/Zones.antt =====
-- internal/orchestrator/zone.go.
pub mod Laws
pub mod Access
use kaf_claw.Base.{
  ℕ, ◌==◌, Text, lit, text_eq, Table, lookup, insert, delete, entries, any_entry, length, keep, any,
  Bool, true, false, ◌&&◌, ◌||◌, Option, none, some, is_some, List, [], ◌∷◌, ◌++◌, map,
  if◌then◌else◌,
}
use kaf_claw.Orchestrator.{AgentNode, Zone}

pub record ZoneManager : Type 0 where
  pub zones : Table Zone
  pub members : Table (List Text)

abbrev pub public_zone : ℕ → Zone
public_zone now = record {
  zone_id = lit "public";
  name = lit "Public";
  visibility = lit "public";
  owner_id = [];
  parent_zone = [];
  allowed_ids = [];
  created_at = now;
}

unfoldable pub new_zone_manager : ℕ → ZoneManager
new_zone_manager now = record {
  zones = insert (lit "public") (public_zone now) [];
  members = insert (lit "public") [] [];
}

-- A missing key of the map reads as the empty slice.
unfoldable pub members_of : Text → ZoneManager → List Text
members_of id zm = elim (lookup id zm.members) [ none ↦ [] | some ids ↦ ids ]

-- The state after a call whose error the caller drops.
abbrev pub or_same : ZoneManager → Option ZoneManager → ZoneManager
or_same zm none = zm
or_same zm (some zm') = zm'

abbrev pub stamped : ℕ → Zone → Zone
stamped now z = record z { created_at = if z.created_at == 0 then now else z.created_at }

-- none is the error that the zone exists already.
unfoldable pub create_zone : ℕ → Zone → ZoneManager → Option ZoneManager
create_zone now z zm =
    if is_some (lookup z.zone_id zm.zones)
    then none
    else some (record {
      zones = insert z.zone_id (stamped now z) zm.zones;
      members = insert z.zone_id [] zm.members;
    })

-- none is the refusal to delete the public zone.
unfoldable pub delete_zone : Text → ZoneManager → Option ZoneManager
delete_zone id zm =
    if text_eq id (lit "public")
    then none
    else some (record { zones = delete id zm.zones; members = delete id zm.members })

unfoldable pub get_zone : Text → ZoneManager → Option Zone
get_zone id zm = lookup id zm.zones

unfoldable pub all_zones : ZoneManager → List Zone
all_zones zm = map (λ e. e.1) zm.zones

-- none is the error that there is no such zone.
unfoldable pub add_member : Text → Text → ZoneManager → Option ZoneManager
add_member zone agent zm =
    if is_some (lookup zone zm.zones)
    then (if any (λ id. text_eq id agent) (members_of zone zm)
        then some zm
        else some
            (record zm { members = insert zone (members_of zone zm ++ agent ∷ []) zm.members }))
    else none

-- The slice without the first occurrence.
unfoldable pub remove_first : Text → List Text → List Text
remove_first agent [] = []
remove_first agent (id ∷ ids) = if text_eq id agent then ids else id ∷ remove_first agent ids

unfoldable pub remove_member : Text → Text → ZoneManager → ZoneManager
remove_member zone agent zm =
    if any (λ id. text_eq id agent) (members_of zone zm)
    then record zm { members = insert zone (remove_first agent (members_of zone zm)) zm.members }
    else zm

abbrev pub is_member : Text → Text → ZoneManager → Bool
is_member zone agent zm = any (λ id. text_eq id agent) (members_of zone zm)

-- The `switch` on the visibility.
unfoldable pub admits : Zone → Text → Text → ZoneManager → Bool
admits z zone agent zm =
    if text_eq z.visibility (lit "public")
    then true
    else if text_eq z.visibility (lit "shared") || text_eq z.visibility (lit "private")
    then text_eq z.owner_id agent
      || (text_eq z.visibility (lit "private") && any (λ id. text_eq id agent) z.allowed_ids)
      || is_member zone agent zm
    else false

unfoldable pub is_allowed : Text → Text → ZoneManager → Bool
is_allowed zone agent zm = elim (lookup zone zm.zones) [
  | none ↦ false
  | some z ↦ admits z zone agent zm
]

-- What one zone contributes to the `visible` map of an agent: whether its members are put there.
unfoldable pub opens : Text → Zone → Text → ZoneManager → Bool
opens zone z agent zm =
    if text_eq z.visibility (lit "public")
    then true
    else text_eq z.owner_id agent
      || is_member zone agent zm
      || (text_eq z.visibility (lit "private") && any (λ id. text_eq id agent) z.allowed_ids)

-- `visible[other]` after the loop over the zones, for the viewer `agent`.
unfoldable pub is_visible : Text → Text → ZoneManager → Bool
is_visible agent other zm =
    text_eq agent other
    || any_entry (λ zone z. opens zone z agent zm && is_member zone other zm) zm.zones

unfoldable pub visible_agents : Text → List AgentNode → ZoneManager → List AgentNode
visible_agents agent agents zm = keep (λ a. is_visible agent a.agent_id zm) agents

unfoldable pub zone_count : ZoneManager → ℕ
zone_count zm = entries zm.zones

unfoldable pub member_count : Text → ZoneManager → ℕ
member_count zone zm = length (members_of zone zm)
