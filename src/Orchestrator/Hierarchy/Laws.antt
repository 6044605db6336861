-- ===== src/Orchestrator/Hierarchy/Laws.antt =====
-- Removing an agent from the hierarchy.
use kaf_claw.Base.{
  Text, text_eq, text_eq_iff, is_empty, lookup, lookup-delete, false, none, some, [], ◌∷◌, ◌≡◌, ◌≢◌,
  ◌⊎◌, inl, inr, refl, arith, if◌then◌else◌, Option-cases, Bool-cases, sym, subst,
}
use kaf_claw.Orchestrator.{AgentNode}
use kaf_claw.Orchestrator.Hierarchy.{Hierarchy, with_parent, reparent, remove_node}
use kaf_claw.Orchestrator.Hierarchy.Walks.{Above, parent, further}

-- A node after its parent `agent` was removed from under `up`.
abbrev pub moved : Text → Text → AgentNode → AgentNode
moved agent up n = if text_eq n.parent_id agent then with_parent up n else n

lookup-reparent :
    (agent up id : Text) (h : Hierarchy)
    → lookup id (reparent agent up h)
      ≡ (elim (lookup id h) [ none ↦ none | some n ↦ some (moved agent up n) ])
unfolding lookup reparent
lookup-reparent agent up id [] = refl
lookup-reparent agent up id ((k, n) ∷ h) = ground (arith, lookup-reparent agent up id h)

-- The removed agent is gone, each of its children has its parent for a parent, and every other node
-- is as it was.
pub lookup-remove_node :
    (agent id : Text) (h : Hierarchy) (n : AgentNode)
    → lookup agent h ≡ some n
    → lookup id (remove_node agent h) ≡ (
        if text_eq agent id
        then none
        else elim (lookup id h) [ none ↦ none | some m ↦ some (moved agent n.parent_id m) ])
unfolding remove_node
lookup-remove_node agent id h n e = ground (
  arith,
  lookup-delete id agent (reparent agent n.parent_id h),
  lookup-reparent agent n.parent_id id h,
)

remove_missing : (agent : Text) (h : Hierarchy) → lookup agent h ≡ none → remove_node agent h ≡ h
unfolding remove_node
remove_missing agent h e = ground arith

module _ (agent b : Text) (h : Hierarchy) (n : AgentNode) (e : lookup agent h ≡ some n)
    (other : b ≢ agent) where
  -- What is left of a way up from `a`: from the removed agent it goes on at its parent.
  Left : Text → Type 0
  Left a =
      (a ≢ agent → Above (remove_node agent h) b a)
      × (a ≡ agent
          → (is_empty n.parent_id ≡ false)
            × (n.parent_id ≢ agent)
            × ((n.parent_id ≡ b) ⊎ Above (remove_node agent h) b n.parent_id))

  Left-of_Above : {a : Text} → Above h b a → Left a
  unfolding Left
  Left-of_Above {a} (parent m f ne same) = (
    λ off.
        parent (moved agent n.parent_id m)
          (ground (arith, lookup-remove_node agent a h n e, text_eq_iff agent a))
          (ground (arith, text_eq_iff m.parent_id agent))
          (ground (arith, text_eq_iff m.parent_id agent)),
    λ on. (ground arith, ground arith, inl (ground arith)),
  )
  Left-of_Above {a} (further m f ne up) =
      let (off_up, on_up) = Left-of_Above up in
      (
        λ off. elim (Bool-cases (text_eq m.parent_id agent)) [
          | inr past ↦
              further (moved agent n.parent_id m)
                (ground (arith, lookup-remove_node agent a h n e, text_eq_iff agent a))
                (ground arith)
                (subst (Above (remove_node agent h) b) (ground arith)
                  (off_up (ground (arith, text_eq_iff m.parent_id agent))))
          | inl through ↦
              let (ne', _, left) = on_up (ground (arith, text_eq_iff m.parent_id agent)) in
              elim left [
                | inl top ↦
                    parent (moved agent n.parent_id m)
                      (ground (arith, lookup-remove_node agent a h n e, text_eq_iff agent a))
                      (ground arith) (ground arith)
                | inr on ↦
                    further (moved agent n.parent_id m)
                      (ground (arith, lookup-remove_node agent a h n e, text_eq_iff agent a))
                      (ground arith) (subst (Above (remove_node agent h) b) (ground arith) on)
              ]
        ],
        λ on.
            let same : m ≡ n = ground arith in
            let straight : n.parent_id ≢ agent = λ loop. (on_up (ground arith)).1 loop in
            (
              ground arith,
              straight,
              inr (subst (Above (remove_node agent h) b) (ground arith) (off_up (ground arith))),
            ),
      )

-- Removing an agent keeps who stands above whom among the others: what was met on the way up from
-- an agent before is met afterwards, past the one that was removed.
pub remove_node-Above :
    (agent a b : Text) (h : Hierarchy)
    → a ≢ agent
    → b ≢ agent
    → Above h b a
    → Above (remove_node agent h) b a
remove_node-Above agent a b h off other up = elim (Option-cases (lookup agent h)) [
  | inl e ↦ subst (λ k. Above k b a) (sym (remove_missing agent h e)) up
  | inr (n, e) ↦ keeps n e
]
  where
    keeps : (n : AgentNode) → lookup agent h ≡ some n → Above (remove_node agent h) b a
    keeps n e = unfold Left in (Left-of_Above agent b h n e other up).0 off
