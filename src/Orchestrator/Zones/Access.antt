-- ===== src/Orchestrator/Zones/Access.antt =====
-- Who may use a zone, and whom an agent sees.
use kaf_claw.Base.{
  Text, lit, text_eq, text_eq_iff, text_eq_sound, lookup, any_entry-found, any_entry_of_lookup, any,
  Bool, true, false, ◌&&◌, some, ◌≡◌, ◌↔◌, ◌⊎◌, inl, inr, arith, Option-cases, Bool-cases,
}
use kaf_claw.Orchestrator.{Zone}
use kaf_claw.Orchestrator.Zones.{ZoneManager, is_member, admits, is_allowed, opens, is_visible}
use kaf_claw.Orchestrator.Zones.Laws.{IsValid}

abbrev pub IsPublic : Zone → Type 0
IsPublic z = z.visibility ≡ lit "public"

abbrev pub IsShared : Zone → Type 0
IsShared z = z.visibility ≡ lit "shared"

abbrev pub IsPrivate : Zone → Type 0
IsPrivate z = z.visibility ≡ lit "private"

-- One of the three visibilities that types.go names.
abbrev pub IsKnown : Zone → Type 0
IsKnown z = IsPublic z ⊎ (IsShared z ⊎ IsPrivate z)

-- An agent may use a zone exactly when the zone is there and is public, or is shared or private and
-- has the agent for its owner or a member, or is private and lists it among the allowed ids.
pub is_allowed_iff :
    (zone agent : Text) (zm : ZoneManager)
    → (is_allowed zone agent zm ≡ true) ↔ (
        (z : Zone) × (lookup zone zm.zones ≡ some z)
        × (IsPublic z
            ⊎ (((IsShared z ⊎ IsPrivate z)
                  × ((z.owner_id ≡ agent) ⊎ (is_member zone agent zm ≡ true)))
                ⊎ (IsPrivate z × (any (λ id. text_eq id agent) z.allowed_ids ≡ true)))))
unfolding is_allowed admits
is_allowed_iff zone agent zm = elim (Option-cases (lookup zone zm.zones)) [
  | inl e ↦ (λ h. ground arith, λ (z, f, h). ground arith)
  | inr (z, e) ↦ (
    λ h. (
      z,
      e,
      ground (
        arith,
        text_eq_iff z.visibility (lit "public"),
        text_eq_iff z.visibility (lit "shared"),
        text_eq_iff z.visibility (lit "private"),
        text_eq_iff z.owner_id agent,
      ),
    ),
    λ (z', f, h). ground (
      arith,
      text_eq_iff z.visibility (lit "public"),
      text_eq_iff z.visibility (lit "shared"),
      text_eq_iff z.visibility (lit "private"),
      text_eq_iff z.owner_id agent,
    ),
  )
]

opens-admits :
    (zone : Text) (z : Zone) (agent : Text) (zm : ZoneManager)
    → IsKnown z
    → opens zone z agent zm ≡ admits z zone agent zm
unfolding opens admits
opens-admits zone z agent zm k = ground (
  arith,
  text_eq_iff z.visibility (lit "public"),
  text_eq_iff z.visibility (lit "shared"),
  text_eq_iff z.visibility (lit "private"),
)

-- While every zone has one of the three known visibilities, an agent sees another exactly when it is
-- the agent itself or a member of a zone that the agent may use.
pub is_visible_iff :
    (agent other : Text) (zm : ZoneManager)
    → IsValid zm
    → ((zone : Text) (z : Zone) → lookup zone zm.zones ≡ some z → IsKnown z)
    → (is_visible agent other zm ≡ true) ↔ (
        (agent ≡ other)
        ⊎ ((zone : Text) × (is_allowed zone agent zm ≡ true) × (is_member zone other zm ≡ true)))
unfolding is_visible is_allowed
is_visible_iff agent other zm v known = (there, back)
  where
    seen : Text → Zone → Bool
    seen zone z = opens zone z agent zm && is_member zone other zm

    there :
        is_visible agent other zm ≡ true
        → (agent ≡ other)
          ⊎ ((zone : Text) × (is_allowed zone agent zm ≡ true) × (is_member zone other zm ≡ true))
    there h = elim (Bool-cases (text_eq agent other)) [
      | inl e ↦ inl (text_eq_sound agent other e)
      | inr e ↦
          let (zone, z, found, sees) =
            any_entry-found seen zm.zones v.zones_unique (ground arith) in
          inr
            (zone, ground (arith, opens-admits zone z agent zm (known zone z found)), ground arith)
    ]

    back :
        (agent ≡ other)
          ⊎ ((zone : Text) × (is_allowed zone agent zm ≡ true) × (is_member zone other zm ≡ true))
        → is_visible agent other zm ≡ true
    back (inl e) = ground (arith, text_eq_iff agent other)
    back (inr (zone, allowed, member)) = elim (Option-cases (lookup zone zm.zones)) [
      | inl e ↦ ground arith
      | inr (z, e) ↦ ground (
        arith,
        any_entry_of_lookup seen zm.zones zone z e,
        opens-admits zone z agent zm (known zone z e),
      )
    ]

-- A zone of any other visibility shows its members to every member of it, although no agent may use
-- it: the two readings of a zone differ there.
pub is_visible-unknown :
    (zone agent other : Text) (z : Zone) (zm : ZoneManager)
    → lookup zone zm.zones ≡ some z
    → ¬ IsKnown z
    → is_member zone agent zm ≡ true
    → is_member zone other zm ≡ true
    → (is_visible agent other zm ≡ true) × (is_allowed zone agent zm ≡ false)
unfolding is_visible is_allowed opens admits
is_visible-unknown zone agent other z zm found strange a b =
    let seen : Text → Zone → Bool = λ k y. opens k y agent zm && is_member k other zm in
    (
      ground (arith, any_entry_of_lookup seen zm.zones zone z found (ground arith)),
      ground (
        arith,
        text_eq_iff z.visibility (lit "public"),
        text_eq_iff z.visibility (lit "shared"),
        text_eq_iff z.visibility (lit "private"),
      ),
    )
