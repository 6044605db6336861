-- ===== src/Orchestrator/Hierarchy.antt =====
-- internal/orchestrator/hierarchy.go.
pub mod Laws
pub mod Walks
use kaf_claw.Base.{
  ℕ, zero, suc, Text, text_eq, is_empty, Table, lookup, insert, delete, entries, keep, any, Bool,
  true, false, ◌&&◌, ◌||◌, Option, none, some, List, [], ◌∷◌, map, if◌then◌else◌,
}
use kaf_claw.Orchestrator.{AgentNode}

-- The field `nodes`. The source hands out copies only, so the nodes are values.
abbrev pub Hierarchy : Type 0
Hierarchy = Table AgentNode

abbrev pub new_hierarchy : Hierarchy
new_hierarchy = []

unfoldable pub add_node : AgentNode → Hierarchy → Hierarchy
add_node n h = insert n.agent_id n h

abbrev pub with_parent : Text → AgentNode → AgentNode
with_parent parent n = record n { parent_id = parent }

-- The loop of `RemoveNode`: the children of `agent` get another parent.
unfoldable pub reparent : Text → Text → Hierarchy → Hierarchy
reparent agent parent [] = []
reparent agent parent ((k, n) ∷ h) =
    (k, if text_eq n.parent_id agent then with_parent parent n else n) ∷ reparent agent parent h

unfoldable pub remove_node : Text → Hierarchy → Hierarchy
remove_node agent h = elim (lookup agent h) [
  | none ↦ h
  | some n ↦ delete agent (reparent agent n.parent_id h)
]

unfoldable pub set_parent : Text → Text → Hierarchy → Hierarchy
set_parent agent parent h = elim (lookup agent h) [
  | none ↦ h
  | some n ↦ insert agent (with_parent parent n) h
]

unfoldable pub remove_child : Text → Text → Hierarchy → Hierarchy
remove_child parent child h = elim (lookup child h) [
  | none ↦ h
  | some n ↦ if text_eq n.parent_id parent then insert child (with_parent [] n) h else h
]

unfoldable pub all_nodes : Hierarchy → List AgentNode
all_nodes h = map (λ e. e.1) h

unfoldable pub children : Text → Hierarchy → List AgentNode
children agent h = keep (λ n. text_eq n.parent_id agent) (all_nodes h)

abbrev pub is_seen : Text → List Text → Bool
is_seen id seen = any (λ s. text_eq s id) seen

-- The append of the loop, which the source makes before it goes on.
abbrev pub cons_ancestor : AgentNode → Option (List AgentNode) → Option (List AgentNode)
cons_ancestor p none = none
cons_ancestor p (some more) = some (p ∷ more)

-- The loop of `Ancestors`; `seen` is the map of the parents met. none means that the fuel ran out.
unfoldable pub ancestors_from : ℕ → Hierarchy → List Text → Text → Option (List AgentNode)
ancestors_from zero h seen current = none
ancestors_from (suc fuel) h seen current = elim (lookup current h) [
  | none ↦ some []
  | some n ↦
      let rest = λ (p : AgentNode). ancestors_from fuel h (n.parent_id ∷ seen) p.agent_id in
      if is_empty n.parent_id || is_seen n.parent_id seen
      then some []
      else elim (lookup n.parent_id h) [ none ↦ some [] | some p ↦ cons_ancestor p (rest p) ]
]

-- One more round than there are nodes.
unfoldable pub ancestors : Text → Hierarchy → Option (List AgentNode)
ancestors agent h = ancestors_from (suc (entries h)) h [] agent

-- The loop of `IsDescendant`; `seen` is the map of the nodes left.
unfoldable pub is_descendant_from : ℕ → Hierarchy → List Text → Text → Text → Option Bool
is_descendant_from zero h seen current ancestor = none
is_descendant_from (suc fuel) h seen current ancestor = elim (lookup current h) [
  | none ↦ some false
  | some n ↦
      let rest = is_descendant_from fuel h (current ∷ seen) n.parent_id ancestor in
      if is_empty n.parent_id || is_seen current seen
      then some false
      else if text_eq n.parent_id ancestor
      then some true
      else rest
]

unfoldable pub is_descendant : Text → Text → Hierarchy → Option Bool
is_descendant agent ancestor h = is_descendant_from (suc (entries h)) h [] agent ancestor

unfoldable pub get_node : Text → Hierarchy → Option AgentNode
get_node agent h = lookup agent h

unfoldable pub node_count : Hierarchy → ℕ
node_count h = entries h
