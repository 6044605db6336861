-- ===== src/Orchestrator/Zones/Laws.antt =====
-- The invariant of the zones, and that every operation keeps it.
use kaf_claw.Base.{
  ℕ, ◌≤◌, Text, lit, text_eq, text_eq_iff, lookup, insert, delete, lookup-insert, lookup-delete,
  Unique, insert-Unique, delete-Unique, any, count, true, false, Option, none, some, is_some, List,
  [], ◌∷◌, ◌++◌, count-append, ◌+◌, ◌≡◌, inl, inr, refl, arith, if◌then◌else◌, Bool-cases, sym,
  subst,
}
use kaf_claw.Orchestrator.{Zone}
use kaf_claw.Orchestrator.Zones.{
  ZoneManager, stamped, public_zone, new_zone_manager, members_of, create_zone, delete_zone,
  add_member, remove_first, remove_member, or_same,
}

abbrev pub times : Text → List Text → ℕ
times agent = count (λ id. text_eq id agent)

-- The maps bind each key once, the public zone is there and is public, a zone is listed exactly when
-- its members are, and no agent is twice a member of one zone.
pub record IsValid (zm : ZoneManager) : Type 0 where
  pub zones_unique : Unique zm.zones
  pub has_public :
      (z : Zone) × (lookup (lit "public") zm.zones ≡ some z) × (z.visibility ≡ lit "public")
  pub same_keys : (id : Text) → is_some (lookup id zm.zones) ≡ is_some (lookup id zm.members)
  pub members_once : (zone agent : Text) → times agent (members_of zone zm) ≤ 1

pub new_zone_manager-IsValid : (now : ℕ) → IsValid (new_zone_manager now)
unfolding new_zone_manager members_of lookup insert text_eq
new_zone_manager-IsValid now = record {
  zones_unique = (refl, tt);
  has_public = (public_zone now, refl, refl);
  same_keys = λ id. ground (arith, text_eq_iff (lit "public") id);
  members_once = λ zone agent. ground arith;
}

-- What an operation that writes one list of members must leave.
module _ (zm zm' : ZoneManager) (zone : Text) (ids : List Text) (same : zm'.zones ≡ zm.zones) where
  IsValid-of_members :
      (zm'.members ≡ insert zone ids zm.members)
      → is_some (lookup zone zm.members) ≡ true
      → ((agent : Text) → times agent ids ≤ 1)
      → IsValid zm
      → IsValid zm'
  unfolding members_of
  IsValid-of_members m there once v = record {
    zones_unique = ground (arith, v.zones_unique);
    has_public = (v.has_public.0, ground (arith, v.has_public.1), v.has_public.2);
    same_keys = λ id.
        ground (arith, v.same_keys id, lookup-insert id zone ids zm.members, text_eq_iff zone id);
    members_once = λ z agent.
        ground (arith, v.members_once z agent, once agent, lookup-insert z zone ids zm.members);
  }

IsValid-of_new :
    (zm zm' : ZoneManager) (id : Text) (z : Zone)
    → zm'.zones ≡ insert id z zm.zones
    → zm'.members ≡ insert id [] zm.members
    → lookup id zm.zones ≡ none
    → IsValid zm
    → IsValid zm'
unfolding members_of
IsValid-of_new zm zm' id z zs ms new v = record {
  zones_unique = subst Unique (sym zs) (insert-Unique id z zm.zones v.zones_unique);
  has_public = (
    v.has_public.0,
    ground (
      arith,
      v.has_public.1,
      lookup-insert (lit "public") id z zm.zones,
      text_eq_iff id (lit "public"),
    ),
    v.has_public.2,
  );
  same_keys = λ k.
      ground
        (arith, v.same_keys k, lookup-insert k id z zm.zones, lookup-insert k id [] zm.members);
  members_once =
      λ zone agent. ground (arith, v.members_once zone agent, lookup-insert zone id [] zm.members);
}

pub create_zone-IsValid :
    (now : ℕ) (z : Zone) (zm zm' : ZoneManager)
    → create_zone now z zm ≡ some zm'
    → IsValid zm
    → IsValid zm'
unfolding create_zone
create_zone-IsValid now z zm zm' e v =
    IsValid-of_new zm zm' z.zone_id (stamped now z) (ground arith) (ground arith) (ground arith) v

delete_zone-IsValid :
    (id : Text) (zm zm' : ZoneManager) → delete_zone id zm ≡ some zm' → IsValid zm → IsValid zm'
unfolding delete_zone members_of
delete_zone-IsValid id zm zm' e v = record {
  zones_unique = subst Unique (sym zs) (delete-Unique id zm.zones v.zones_unique);
  has_public = (
    v.has_public.0,
    ground (
      arith,
      v.has_public.1,
      lookup-delete (lit "public") id zm.zones,
      text_eq_iff id (lit "public"),
      zs,
    ),
    v.has_public.2,
  );
  same_keys = λ k.
      ground
        (arith, v.same_keys k, lookup-delete k id zm.zones, lookup-delete k id zm.members, zs, ms);
  members_once =
      λ zone agent. ground (arith, v.members_once zone agent, lookup-delete zone id zm.members, ms);
}
  where
    zs : zm'.zones ≡ delete id zm.zones
    zs = ground arith

    ms : zm'.members ≡ delete id zm.members
    ms = ground arith

times_of_absent :
    (agent : Text) (ids : List Text)
    → any (λ id. text_eq id agent) ids ≡ false
    → times agent ids ≡ 0
times_of_absent agent [] h = refl
times_of_absent agent (id ∷ ids) h = ground (arith, times_of_absent agent ids)

times-append :
    (agent other : Text) (ids : List Text)
    → times other (ids ++ agent ∷ []) ≡ times other ids + (if text_eq agent other then 1 else 0)
times-append agent other ids =
    ground (arith, count-append (λ id. text_eq id other) ids (agent ∷ []))

pub add_member-IsValid :
    (zone agent : Text) (zm zm' : ZoneManager)
    → add_member zone agent zm ≡ some zm'
    → IsValid zm
    → IsValid zm'
unfolding add_member
add_member-IsValid zone agent zm zm' e v =
    elim (Bool-cases (any (λ id. text_eq id agent) (members_of zone zm))) [
      | inl old ↦ subst IsValid (ground arith) v
      | inr new ↦
          IsValid-of_members zm zm' zone (members_of zone zm ++ agent ∷ []) (ground arith)
            (ground arith) (ground (arith, v.same_keys zone))
            (λ other. ground (
              arith,
              times-append agent other (members_of zone zm),
              times_of_absent agent (members_of zone zm) new,
              v.members_once zone other,
              text_eq_iff agent other,
            ))
            v
    ]

times-remove_first-le :
    (agent other : Text) (ids : List Text) → times other (remove_first agent ids) ≤ times other ids
unfolding remove_first
times-remove_first-le agent other [] = omega arith
times-remove_first-le agent other (id ∷ ids) = ground (arith, times-remove_first-le agent other ids)

listed_of_member :
    (zone agent : Text) (zm : ZoneManager)
    → any (λ id. text_eq id agent) (members_of zone zm) ≡ true
    → is_some (lookup zone zm.members) ≡ true
unfolding members_of
listed_of_member zone agent zm h = ground arith

remove_member-IsValid :
    (zone agent : Text) (zm : ZoneManager) → IsValid zm → IsValid (remove_member zone agent zm)
unfolding remove_member
remove_member-IsValid zone agent zm v =
    elim (Bool-cases (any (λ id. text_eq id agent) (members_of zone zm))) [
      | inr absent ↦ rw (absent, remove_member) v
      | inl there ↦
          rw (there, remove_member)
            (IsValid-of_members zm _ zone (remove_first agent (members_of zone zm)) refl refl
              (listed_of_member zone agent zm there)
              (λ other. omega (
                arith,
                times-remove_first-le agent other (members_of zone zm),
                v.members_once zone other,
              ))
              v)
    ]

-- The calls that change the zones; one that returns an error leaves them as they were.
pub data Call : Type 0 where
  creates : ℕ → Zone → Call
  deletes : Text → Call
  adds : Text → Text → Call
  removes : Text → Text → Call

unfoldable pub step : ZoneManager → Call → ZoneManager
step zm (creates now z) = or_same zm (create_zone now z zm)
step zm (deletes id) = or_same zm (delete_zone id zm)
step zm (adds zone agent) = or_same zm (add_member zone agent zm)
step zm (removes zone agent) = remove_member zone agent zm

pub or_same-IsValid :
    (zm : ZoneManager) (o : Option ZoneManager)
    → ((zm' : ZoneManager) → o ≡ some zm' → IsValid zm')
    → IsValid zm
    → IsValid (or_same zm o)
or_same-IsValid zm none h v = v
or_same-IsValid zm (some zm') h v = h zm' refl

step-IsValid : (zm : ZoneManager) (c : Call) → IsValid zm → IsValid (step zm c)
unfolding step
step-IsValid zm (creates now z) v =
    or_same-IsValid zm _ (λ zm' e. create_zone-IsValid now z zm zm' e v) v
step-IsValid zm (deletes id) v = or_same-IsValid zm _ (λ zm' e. delete_zone-IsValid id zm zm' e v) v
step-IsValid zm (adds zone agent) v =
    or_same-IsValid zm _ (λ zm' e. add_member-IsValid zone agent zm zm' e v) v
step-IsValid zm (removes zone agent) v = remove_member-IsValid zone agent zm v

unfoldable pub run : ZoneManager → List Call → ZoneManager
run zm [] = zm
run zm (c ∷ cs) = run (step zm c) cs

run_from-IsValid : (zm : ZoneManager) (cs : List Call) → IsValid zm → IsValid (run zm cs)
unfolding run
run_from-IsValid zm [] v = v
run_from-IsValid zm (c ∷ cs) v = run_from-IsValid (step zm c) cs (step-IsValid zm c v)

-- After any calls on a new zone manager the public zone is there and is public, a zone has a member
-- list exactly when it is there, and no agent is twice a member of one zone.
pub run-IsValid : (now : ℕ) (cs : List Call) → IsValid (run (new_zone_manager now) cs)
run-IsValid now cs = run_from-IsValid _ cs (new_zone_manager-IsValid now)
