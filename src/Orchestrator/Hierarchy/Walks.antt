-- ===== src/Orchestrator/Hierarchy/Walks.antt =====
-- The two walks towards the root end in every hierarchy, one with cycles included, and what they find.
use kaf_claw.Base.{
  ℕ, zero, suc, ◌+◌, ◌≤◌, ◌<◌, Text, text_eq, text_eq_iff, is_empty, lookup, entries, Bool, true,
  false, ◌||◌, Option, some, List, [], ◌∷◌, ◌≡◌, ◌↔◌, ◌⊎◌, inl, inr, refl, arith, if◌then◌else◌,
  Option-cases, Bool-cases, ap, ◌∙◌,
}
use kaf_claw.Orchestrator.{AgentNode}
use kaf_claw.Orchestrator.Hierarchy.{
  Hierarchy, is_seen, ancestors_from, ancestors, is_descendant_from, is_descendant,
}

-- The nodes whose key was not seen: what a walk has left.
unseen : List Text → Hierarchy → ℕ
unseen seen [] = 0
unseen seen ((k, n) ∷ h) = (if is_seen k seen then 0 else 1) + unseen seen h

unseen-le : (seen : List Text) (h : Hierarchy) → unseen seen h ≤ entries h
unfolding unseen
unseen-le seen [] = omega arith
unseen-le seen ((k, n) ∷ h) = ground (arith, unseen-le seen h)

unseen-cons-le :
    (id : Text) (seen : List Text) (h : Hierarchy) → unseen (id ∷ seen) h ≤ unseen seen h
unfolding unseen
unseen-cons-le id seen [] = omega arith
unseen-cons-le id seen ((k, n) ∷ h) = ground (arith, unseen-cons-le id seen h)

unseen-cons-lt :
    (id : Text) (seen : List Text) (h : Hierarchy) (n : AgentNode)
    → lookup id h ≡ some n
    → is_seen id seen ≡ false
    → unseen (id ∷ seen) h < unseen seen h
unfolding unseen lookup
unseen-cons-lt id seen [] n f new = cc
unseen-cons-lt id seen ((k, m) ∷ h) n f new = ground (
  arith,
  text_eq_iff k id,
  text_eq_iff id k,
  unseen-cons-le id seen h,
  unseen-cons-lt id seen h n,
)

abbrev Found {ℓ} : {A : Type ℓ} → Option A → Type ℓ
Found {A = A} o = (a : A) × (o ≡ some a)

ancestors_from_total :
    (fuel : ℕ) (h : Hierarchy) (seen : List Text) (current : Text)
    → unseen seen h < fuel
    → Found (ancestors_from fuel h seen current)
unfolding ancestors_from
ancestors_from_total zero h seen current l = elim l [ ]
ancestors_from_total (suc fuel) h seen current l = elim (Option-cases (lookup current h)) [
  | inl e ↦ ([], ground arith)
  | inr (n, e) ↦ elim (Bool-cases (is_empty n.parent_id || is_seen n.parent_id seen)) [
    | inl stop ↦ ([], ground arith)
    | inr go ↦ elim (Option-cases (lookup n.parent_id h)) [
      | inl f ↦ ([], ground arith)
      | inr (p, f) ↦
          let (more, g) =
            ancestors_from_total fuel h (n.parent_id ∷ seen) p.agent_id
              (omega (arith, unseen-cons-lt n.parent_id seen h p f (ground arith))) in
          (p ∷ more, ground arith)
    ]
  ]
]

is_descendant_from_total :
    (fuel : ℕ) (h : Hierarchy) (seen : List Text) (current ancestor : Text)
    → unseen seen h < fuel
    → Found (is_descendant_from fuel h seen current ancestor)
unfolding is_descendant_from
is_descendant_from_total zero h seen current ancestor l = elim l [ ]
is_descendant_from_total (suc fuel) h seen current ancestor l =
    elim (Option-cases (lookup current h)) [
      | inl e ↦ (false, ground arith)
      | inr (n, e) ↦ elim (Bool-cases (is_empty n.parent_id || is_seen current seen)) [
        | inl stop ↦ (false, ground arith)
        | inr go ↦
            let (b, g) =
              is_descendant_from_total fuel h (current ∷ seen) n.parent_id ancestor
                (omega (arith, unseen-cons-lt current seen h n e (ground arith))) in
            elim (Bool-cases (text_eq n.parent_id ancestor)) [
              | inl hit ↦ (true, ground arith)
              | inr miss ↦ (b, ground arith)
            ]
      ]
    ]

-- Both walks end in every hierarchy, also where the parents form a cycle.
pub walks_total :
    (agent ancestor : Text) (h : Hierarchy)
    → ((found : List AgentNode) × (ancestors agent h ≡ some found))
      × ((b : Bool) × (is_descendant agent ancestor h ≡ some b))
unfolding ancestors is_descendant
walks_total agent ancestor h = (
  ancestors_from_total (suc (entries h)) h [] agent (omega (arith, unseen-le [] h)),
  is_descendant_from_total (suc (entries h)) h [] agent ancestor (omega (arith, unseen-le [] h)),
)

-- `b` is met on the way up from `a`: each step goes from a node that is there to its parent.
pub data Above (h : Hierarchy) (b : Text) : Text → Type 0 where
  parent :
      {a : Text} (n : AgentNode)
      → lookup a h ≡ some n
      → is_empty n.parent_id ≡ false
      → n.parent_id ≡ b
      → Above h b a
  further :
      {a : Text} (n : AgentNode)
      → lookup a h ≡ some n
      → is_empty n.parent_id ≡ false
      → Above h b n.parent_id
      → Above h b a

is_descendant_from_sound :
    (fuel : ℕ) (h : Hierarchy) (seen : List Text) (current ancestor : Text)
    → is_descendant_from fuel h seen current ancestor ≡ some true
    → Above h ancestor current
unfolding is_descendant_from
is_descendant_from_sound zero h seen current ancestor r = cc
is_descendant_from_sound (suc fuel) h seen current ancestor r =
    elim (Option-cases (lookup current h)) [
      | inl e ↦ absurd (ground arith)
      | inr (n, e) ↦ elim (Bool-cases (text_eq n.parent_id ancestor)) [
        | inl hit ↦ parent n e (ground arith) (ground (arith, text_eq_iff n.parent_id ancestor))
        | inr miss ↦
            further n e (ground arith)
              (is_descendant_from_sound fuel h (current ∷ seen) n.parent_id ancestor (ground arith))
      ]
    ]

-- What the walk knows of the nodes that it has left: they miss the ancestor, and lead on to nodes
-- that were left or to the current one.
Walked : Hierarchy → Text → List Text → Text → Type 0
Walked h b seen current =
    (s : Text)
    → is_seen s seen ≡ true
    → (n : AgentNode) × (lookup s h ≡ some n)
      × (text_eq n.parent_id b ≡ false)
      × ((is_seen n.parent_id seen ≡ true) ⊎ (n.parent_id ≡ current))

-- Once the walk is back at a node that it left, the ancestor is above none of those nodes.
Walked-in_circle :
    (h : Hierarchy) (b : Text) (seen : List Text) (current : Text) {a : Text}
    → Walked h b seen current
    → is_seen current seen ≡ true
    → is_seen a seen ≡ true
    → Above h b a
    → ⊥
unfolding Walked
Walked-in_circle h b seen current {a} w c i (parent n e ne same) =
    let (m, f, miss, on) = w a i in ground (arith, text_eq_iff m.parent_id b)
Walked-in_circle h b seen current {a} w c i (further n e ne up) =
    let (m, f, miss, on) = w a i in Walked-in_circle h b seen current w c (ground arith) up

Walked-step :
    (h : Hierarchy) (b : Text) (seen : List Text) (current : Text) (n : AgentNode)
    → Walked h b seen current
    → lookup current h ≡ some n
    → text_eq n.parent_id b ≡ false
    → Walked h b (current ∷ seen) n.parent_id
unfolding Walked
Walked-step h b seen current n w e miss s i = elim (Bool-cases (text_eq current s)) [
  | inl same ↦ (n, ground (arith, text_eq_iff current s), miss, inr refl)
  | inr other ↦
      let (m, f, miss', on) = w s (ground arith) in
      (m, f, miss', inl (ground (arith, text_eq_iff current m.parent_id)))
]

is_descendant_from_complete :
    (fuel : ℕ) (h : Hierarchy) (seen : List Text) (current ancestor : Text) (r : Bool)
    → Walked h ancestor seen current
    → Above h ancestor current
    → is_descendant_from fuel h seen current ancestor ≡ some r
    → r ≡ true
unfolding is_descendant_from
is_descendant_from_complete zero h seen current ancestor r w up e = cc
is_descendant_from_complete (suc fuel) h seen current ancestor r w (parent n f ne same) e =
    elim (Bool-cases (is_seen current seen)) [
      | inl back ↦
          absurd (Walked-in_circle h ancestor seen current w back back (parent n f ne same))
      | inr new ↦ ground (arith, text_eq_iff n.parent_id ancestor)
    ]
is_descendant_from_complete (suc fuel) h seen current ancestor r w (further n f ne up) e =
    elim (Bool-cases (is_seen current seen)) [
      | inl back ↦ absurd (Walked-in_circle h ancestor seen current w back back (further n f ne up))
      | inr new ↦ elim (Bool-cases (text_eq n.parent_id ancestor)) [
        | inl hit ↦ ground arith
        | inr miss ↦
            is_descendant_from_complete fuel h (current ∷ seen) n.parent_id ancestor r
              (Walked-step h ancestor seen current n w f miss) up (ground arith)
      ]
    ]

nothing-Walked : (h : Hierarchy) (b current : Text) → Walked h b [] current
unfolding Walked
nothing-Walked h b current s i = cc

-- One agent is found to be a descendant of another exactly when the other is met on the way up from
-- it, by any number of steps, in every hierarchy.
pub is_descendant_iff :
    (agent ancestor : Text) (h : Hierarchy)
    → (is_descendant agent ancestor h ≡ some true) ↔ Above h ancestor agent
unfolding is_descendant
is_descendant_iff agent ancestor h =
    let (b, e) =
      is_descendant_from_total (suc (entries h)) h [] agent ancestor
        (omega (arith, unseen-le [] h)) in
    (
      λ found. is_descendant_from_sound (suc (entries h)) h [] agent ancestor found,
      λ up.
          e
          ∙ ap some (
              is_descendant_from_complete (suc (entries h)) h [] agent ancestor b
                (nothing-Walked h ancestor agent) up e),
    )
