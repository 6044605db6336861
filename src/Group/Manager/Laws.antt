-- ===== src/Group/Manager/Laws.antt =====
-- What the roster and the table of members say after announcements.
use kaf_claw.Base.{
  ℕ, Text, text_eq, text_eq_refl, text_eq_iff, Table, lookup, insert, delete, lookup-insert,
  lookup-delete, Unique, keep, Bool, false, Option, none, some, is_none, lit, ap, ◌∙◌,
  insert-Unique, List, [], ◌∷◌, ◌≡◌, refl, arith, if◌then◌else◌,
}
use kaf_claw.Group.{AgentIdentity, GroupMember, AnnounceAction, join, heartbeat, leave, other}
use kaf_claw.Group.Manager.{
  Manager, MemberRow, GroupStore, handle_announce, upsert_group_member, soft_delete_group_member,
  list_group_members, member_of, left,
}

-- An announcement that arrives: when, what and of whom.
pub record Announcement : Type 0 where
  pub at : ℕ
  pub action : AnnounceAction
  pub identity : AgentIdentity

unfoldable pub handle_all : List Announcement → Manager → Manager
handle_all [] m = m
handle_all (a ∷ later) m = handle_all later (handle_announce a.at a.action a.identity m).0

-- What one announcement makes of the entry of an agent.
unfoldable pub entry_after : Text → Announcement → Option GroupMember → Option GroupMember
entry_after id a before =
    if text_eq a.identity.agent_id id
    then elim a.action [
      | join ↦ some (member_of a.identity a.identity.role a.identity.status a.at)
      | heartbeat ↦ some (member_of a.identity a.identity.role a.identity.status a.at)
      | leave ↦ none
      | other ↦ before
    ]
    else before

unfoldable pub entry_after_all : Text → List Announcement → Option GroupMember → Option GroupMember
entry_after_all id [] before = before
entry_after_all id (a ∷ later) before = entry_after_all id later (entry_after id a before)

announced-entry :
    (id : Text) (a : Announcement) (m : Manager)
    → lookup id (handle_announce a.at a.action a.identity m).0.roster
      ≡ entry_after id a (lookup id m.roster)
unfolding handle_announce entry_after
announced-entry id a m =
    elim a.action
      as (λ act.
        lookup id (handle_announce a.at act a.identity m).0.roster
        ≡ entry_after id (record a { action = act }) (lookup id m.roster)) [
          | join ↦
              lookup-insert id a.identity.agent_id
                (member_of a.identity a.identity.role a.identity.status a.at) m.roster
          | heartbeat ↦
              lookup-insert id a.identity.agent_id
                (member_of a.identity a.identity.role a.identity.status a.at) m.roster
          | leave ↦ lookup-delete id a.identity.agent_id m.roster
          | other ↦ ground arith
        ]

-- After any announcements the roster's entry of an agent is what its own announcements make of it, in
-- their order: those of other agents change nothing.
pub handle_all-entry :
    (id : Text) (later : List Announcement) (m : Manager)
    → lookup id (handle_all later m).roster ≡ entry_after_all id later (lookup id m.roster)
unfolding handle_all entry_after_all
handle_all-entry id [] m = refl
handle_all-entry id (a ∷ later) m =
    let rest = handle_all-entry id later (handle_announce a.at a.action a.identity m).0 in
    cc (rest, announced-entry id a m)

keep-misses :
    (id : Text) (p : MemberRow → Bool) (rows : Table MemberRow)
    → lookup id rows ≡ none
    → lookup id (keep (λ e. p e.1) rows) ≡ none
unfolding lookup
keep-misses id p [] l = refl
keep-misses id p ((j, r) ∷ rows) l = ground (arith, keep-misses id p rows)

keep-drops :
    (id : Text) (p : MemberRow → Bool) (r : MemberRow) (rows : Table MemberRow)
    → Unique rows
    → lookup id rows ≡ some r
    → p r ≡ false
    → lookup id (keep (λ e. p e.1) rows) ≡ none
unfolding lookup
keep-drops id p r [] u l n = refl
keep-drops id p r ((j, r') ∷ rows) (u, us) l n =
    ground (arith, text_eq_iff j id, keep-misses id p rows, keep-drops id p r rows us)

lookup-inserted {ℓ} :
    {V : Type ℓ} (k : Text) (v : V) (m : Table V) → lookup k (insert k v m) ≡ some v
lookup-inserted k v m =
    lookup-insert k k v m ∙ ap (λ b. if b then some v else lookup k m) (text_eq_refl k)

soft_deleted :
    (now : ℕ) (id : Text) (r : MemberRow) (st : GroupStore)
    → lookup id st.members ≡ some r
    → soft_delete_group_member now id st ≡ record st { members = insert id (left now r) st.members }
unfolding soft_delete_group_member
soft_deleted now id r st l = rw (l, soft_delete_group_member) refl

-- A row that has left stays out of the listing when it is written again.
upsert-unlisted :
    (now later : ℕ) (id : AgentIdentity) (status : Text) (r : MemberRow) (st : GroupStore)
    → Unique st.members
    → lookup id.agent_id st.members ≡ some r
    → lookup id.agent_id (
        list_group_members
          (upsert_group_member later id status (soft_delete_group_member now id.agent_id st)))
      ≡ none
unfolding upsert_group_member list_group_members
upsert-unlisted now later id status r st u l =
    let rows : Table MemberRow = insert id.agent_id (left now r) st.members in
    let back : MemberRow = record {
      identity = id;
      status = status;
      last_seen = later;
      left_at = some now;
    } in
    let found : lookup id.agent_id rows ≡ some (left now r) =
      lookup-inserted id.agent_id (left now r) st.members in
    rw (soft_deleted now id.agent_id r st l, found)
      (keep-drops id.agent_id (λ r'. is_none r'.left_at) back (insert id.agent_id back rows)
        (insert-Unique id.agent_id back rows (insert-Unique id.agent_id (left now r) st.members u))
        (lookup-inserted id.agent_id back rows) refl)

-- An agent that left and joins again is in the roster, but the listing of the members from the table,
-- where it had a row, does not have it.
pub rejoined-unlisted :
    (now later : ℕ) (id : AgentIdentity) (r : MemberRow) (m : Manager)
    → Unique m.store.members
    → lookup id.agent_id m.store.members ≡ some r
    → let gone = (handle_announce now leave id m).0 in
      let back = (handle_announce later join id gone).0 in
      (lookup id.agent_id back.roster ≡ some (member_of id id.role id.status later))
      × (lookup id.agent_id (list_group_members back.store) ≡ none)
unfolding handle_announce
rejoined-unlisted now later id r m u l = (
  lookup-inserted id.agent_id (member_of id id.role id.status later) (delete id.agent_id m.roster),
  upsert-unlisted now later id (lit "active") r m.store u l,
)
