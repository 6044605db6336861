-- ===== src/Approval/Laws.antt =====
-- The life of an approval request, and its independence of the others.
use kaf_claw.Base.{
  ℕ, Text, text_eq, text_eq_iff, text_eq_refl, Table, lookup, insert, delete, lookup-insert,
  lookup-delete, Bool, Option, none, some, List, [], ◌∷◌, ◌≡◌, refl, arith, if◌then◌else◌, ◌∙◌,
}
use kaf_claw.Approval.{
  Status, pending, timeout, Manager, put, set_status, with_status, cleanup_stale, create, find,
  send, cleanup, status_of, receive, give_up, respond, answered, context_done, wait, expire_pending,
}

-- The status of a row; none without a timeline or without the row.
abbrev pub row_status : Text → Manager → Option Status
row_status id m = elim m.rows [ none ↦ none | some rows ↦ lookup id rows ]

-- Any number of answers to one request, one after the other; an answer that is refused is dropped.
unfoldable pub respond_all : Text → List Bool → Manager → Manager
respond_all id [] m = m
respond_all id (a ∷ more) m = elim (respond id a m) [
  | none ↦ respond_all id more m
  | some m' ↦ respond_all id more m'
]

lookup-set_status :
    (id k : Text) (s : Status) (rows : Table Status)
    → lookup k (set_status id s rows) ≡ (
        if text_eq id k
        then (elim (lookup k rows) [ none ↦ none | some _ ↦ some s ])
        else lookup k rows)
unfolding lookup set_status
lookup-set_status id k s [] = ground arith
lookup-set_status id k s ((j, t) ∷ rows) =
    ground
      (arith, text_eq_iff id k, text_eq_iff j k, text_eq_iff j id, lookup-set_status id k s rows)

find-create : (id : Text) (m : Manager) → find id (create id m) ≡ some m.next_channel
unfolding find create
find-create id m = ground (arith, lookup-insert id id m.next_channel m.waiting, text_eq_refl id)

respond_all-full :
    (id : Text) (more : List Bool) (m : Manager) (ch : ℕ) (a : Bool)
    → find id m ≡ some ch
    → m.channels ch ≡ some a
    → respond_all id more m ≡ m
unfolding respond_all respond
respond_all-full id [] m ch a f c = refl
respond_all-full id (b ∷ more) m ch a f c = ground (arith, respond_all-full id more m ch a f c)

find-send : (id : Text) (ch : ℕ) (a : Bool) (m : Manager) → find id (send ch a m) ≡ find id m
unfolding find send
find-send id ch a m = ground arith

find-receive :
    (id : Text) (ch : ℕ) (m : Manager) (a : Bool)
    → m.channels ch ≡ some a
    → (m' : Manager) × (receive id ch m ≡ some (a, m')) × (find id m' ≡ none)
unfolding find receive cleanup
find-receive id ch m a c = (
  record m {
    waiting = delete id m.waiting;
    channels = put m.channels ch none;
    rows = with_status id (status_of a) m.rows;
  },
  ground arith,
  ground (arith, lookup-delete id id m.waiting, text_eq_refl id),
)

wait-answered :
    (id : Text) (ch : ℕ) (m : Manager) (a : Bool)
    → find id m ≡ some ch
    → m.channels ch ≡ some a
    → ((wait id m).0 ≡ answered a) × (find id (wait id m).1 ≡ none)
unfolding wait
wait-answered id ch m a f c =
    let (m', got, gone) = find-receive id ch m a c in (ground arith, ground arith)

channels-send :
    (id : Text) (a : Bool) (m : Manager)
    → (send m.next_channel a (create id m)).channels m.next_channel ≡ some a
unfolding send create
channels-send id a m = ground arith

respond_all-create :
    (id : Text) (a : Bool) (more : List Bool) (m : Manager)
    → respond_all id (a ∷ more) (create id m) ≡ send m.next_channel a (create id m)
unfolding respond_all respond
respond_all-create id a more m = ground (
  arith,
  find-create id m,
  find-send id m.next_channel a (create id m),
  channels-send id a m,
  respond_all-full id more (send m.next_channel a (create id m)) m.next_channel a,
)

-- A request that is answered, once or more often, before its wait ends gives the wait the first
-- answer, and the request is then no longer pending.
pub wait-first_answer :
    (id : Text) (a : Bool) (more : List Bool) (m : Manager)
    → let m' = respond_all id (a ∷ more) (create id m) in
      ((wait id m').0 ≡ answered a) × (find id (wait id m').1 ≡ none)
wait-first_answer id a more m = rw (respond_all-create id a more m) (
    wait-answered id m.next_channel (send m.next_channel a (create id m)) a
      (find-send id m.next_channel a (create id m) ∙ find-create id m) (channels-send id a m))

wait-unanswered :
    (id : Text) (ch : ℕ) (m : Manager)
    → find id m ≡ some ch
    → m.channels ch ≡ none
    → (wait id m).0 ≡ context_done
unfolding wait receive
wait-unanswered id ch m f c = ground arith

rows-wait_answered :
    (id : Text) (ch : ℕ) (m : Manager) (a : Bool)
    → find id m ≡ some ch
    → m.channels ch ≡ some a
    → (wait id m).1.rows ≡ with_status id (status_of a) m.rows
unfolding wait receive
rows-wait_answered id ch m a f c = ground arith

rows-wait_unanswered :
    (id : Text) (ch : ℕ) (m : Manager)
    → find id m ≡ some ch
    → m.channels ch ≡ none
    → (wait id m).1.rows ≡ with_status id timeout m.rows
unfolding wait receive give_up
rows-wait_unanswered id ch m f c = ground arith

rows-create :
    (id : Text) (m : Manager) (rows : Table Status)
    → m.rows ≡ some rows
    → lookup id rows ≡ none
    → (create id m).rows ≡ some (insert id pending rows)
unfolding create
rows-create id m rows e fresh = ground arith

channels-create : (id : Text) (m : Manager) → (create id m).channels m.next_channel ≡ none
unfolding create
channels-create id m = ground arith

rows-send : (ch : ℕ) (a : Bool) (m : Manager) → (send ch a m).rows ≡ m.rows
unfolding send
rows-send ch a m = ground arith

lookup-inserted :
    (id : Text) (rows : Table Status) → lookup id (insert id pending rows) ≡ some pending
lookup-inserted id rows = ground (arith, lookup-insert id id pending rows, text_eq_refl id)

lookup-updated :
    (id : Text) (s : Status) (rows : Table Status)
    → lookup id (set_status id s (insert id pending rows)) ≡ some s
lookup-updated id s rows = ground (
  arith,
  lookup-set_status id id s (insert id pending rows),
  lookup-inserted id rows,
  text_eq_refl id,
)

respond_all-nil : (id : Text) (m : Manager) → respond_all id [] m ≡ m
unfolding respond_all
respond_all-nil id m = refl

pub wait-no_answer :
    (id : Text) (m : Manager) → (wait id (respond_all id [] (create id m))).0 ≡ context_done
wait-no_answer id m =
    rw (respond_all-nil id (create id m))
      (wait-unanswered id m.next_channel (create id m) (find-create id m) (channels-create id m))

-- With a timeline, a request of a fresh id is recorded: as pending when it is made, and after the
-- wait as approved or denied by the first answer, or as timed out where there was none.
pub wait-row_status :
    (id : Text) (answers : List Bool) (m : Manager) (rows : Table Status)
    → m.rows ≡ some rows
    → lookup id rows ≡ none
    → (row_status id (create id m) ≡ some pending)
      × (row_status id (wait id (respond_all id answers (create id m))).1
          ≡ some (elim answers [ [] ↦ timeout | a ∷ _ ↦ status_of a ]))
wait-row_status id [] m rows e fresh = ground (
  arith,
  rows-create id m rows,
  lookup-inserted id rows,
  lookup-updated id timeout rows,
  respond_all-nil id (create id m),
  rows-wait_unanswered id m.next_channel (create id m) (find-create id m) (channels-create id m),
)
wait-row_status id (a ∷ more) m rows e fresh = ground (
  arith,
  rows-create id m rows,
  lookup-inserted id rows,
  lookup-updated id (status_of a) rows,
  respond_all-create id a more m,
  rows-send m.next_channel a (create id m),
  rows-wait_answered id m.next_channel (send m.next_channel a (create id m)) a
      (find-send id m.next_channel a (create id m) ∙ find-create id m) (channels-send id a m),
)

-- After a restart no row is pending, and the rows that were decided keep their decision.
pub cleanup_stale_lem :
    (id : Text) (rows : Table Status)
    → lookup id (cleanup_stale rows)
      ≡ (elim (lookup id rows) [ none ↦ none | some s ↦ some (expire_pending s) ])
unfolding lookup cleanup_stale
cleanup_stale_lem id [] = refl
cleanup_stale_lem id ((k, s) ∷ rows) = ground (arith, cleanup_stale_lem id rows)
