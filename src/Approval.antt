-- ===== src/Approval.antt =====
-- internal/approval/manager.go, with the rows of the table approval_requests that
-- internal/timeline/service.go keeps. A Go channel is a place in `channels`, since `Respond` and
-- `Wait` hold on to the channel that they looked up after `cleanup` has dropped it from the map.
-- `Respond` and `Wait` are cut where the mutex is free: first the lookup, then what follows.
-- The id that crypto/rand gives is an argument of `create`.
pub mod Laws
pub mod Steps
mod Tests
use kaf_claw.Base.{
  ℕ, suc, ◌==◌, Text, text_eq, Table, lookup, insert, delete, Bool, true, false, Option, none, some,
  List, [], ◌∷◌, map, if◌then◌else◌, is_none,
}

pub data Status : Type 0 where
  pending approved denied timeout : Status

-- A channel of Booleans with room for one; none where it is empty.
pub record Manager : Type 0 where
  pub waiting : Table ℕ  -- the field `pending` of the source
  pub channels : ℕ → Option Bool
  pub next_channel : ℕ
  pub rows : Option (Table Status)  -- none where the manager has no timeline

abbrev pub put : (ℕ → Option Bool) → ℕ → Option Bool → ℕ → Option Bool
put f ch v n = if n == ch then v else f n

-- `UpdateApprovalStatus`: an UPDATE by key changes the rows that are there.
unfoldable pub set_status : Text → Status → Table Status → Table Status
set_status id status [] = []
set_status id status ((k, s) ∷ rows) =
    (k, if text_eq k id then status else s) ∷ set_status id status rows

abbrev pub with_status : Text → Status → Option (Table Status) → Option (Table Status)
with_status id status none = none
with_status id status (some rows) = some (set_status id status rows)

abbrev pub expire_pending : Status → Status
expire_pending pending = timeout
expire_pending s = s

-- `cleanupStale`: each row that is still pending belongs to a process that is gone.
unfoldable pub cleanup_stale : Table Status → Table Status
cleanup_stale [] = []
cleanup_stale ((k, s) ∷ rows) = (k, expire_pending s) ∷ cleanup_stale rows

abbrev pub no_channels : ℕ → Option Bool
no_channels _ = none

unfoldable pub new_manager : Option (Table Status) → Manager
unfolding cleanup_stale
new_manager timeline = record {
  waiting = [];
  channels = no_channels;
  next_channel = 0;
  rows = elim timeline [ none ↦ none | some rows ↦ some (cleanup_stale rows) ];
}

-- The row is inserted where the id is new; a row of that id makes the INSERT fail, unnoticed.
abbrev pub with_row : Text → Option (Table Status) → Option (Table Status)
with_row id none = none
with_row id (some rows) = some (if is_none (lookup id rows) then insert id pending rows else rows)

unfoldable pub create : Text → Manager → Manager
create id m = record {
  waiting = insert id m.next_channel m.waiting;
  channels = put m.channels m.next_channel none;
  next_channel = suc m.next_channel;
  rows = with_row id m.rows;
}

-- The lookup that `Wait` and `Respond` begin with; none is "no pending approval".
unfoldable pub find : Text → Manager → Option ℕ
find id m = lookup id m.waiting

-- The non-blocking send of `Respond`: a full channel keeps what it has.
unfoldable pub send : ℕ → Bool → Manager → Manager
send ch answer m =
    if is_none (m.channels ch) then record m { channels = put m.channels ch (some answer) } else m

unfoldable pub cleanup : Text → Manager → Manager
cleanup id m = record m { waiting = delete id m.waiting }

abbrev pub status_of : Bool → Status
status_of true = approved
status_of false = denied

-- The first arm of the `select` in `Wait`; none while the channel is empty.
unfoldable pub receive : Text → ℕ → Manager → Option (Bool × Manager)
unfolding cleanup set_status
receive id ch m = elim (m.channels ch) [
  | none ↦ none
  | some answer ↦
      let m' = record m { channels = put m.channels ch none } in
      let m'' = cleanup id m' in
      some (answer, record m'' { rows = with_status id (status_of answer) m''.rows })
]

-- The second arm: the context is done.
unfoldable pub give_up : Text → Manager → Manager
unfolding cleanup set_status
give_up id m = let m' = cleanup id m in record m' { rows = with_status id timeout m'.rows }

-- `Respond` with nothing between its two parts.
unfoldable pub respond : Text → Bool → Manager → Option Manager
unfolding find send
respond id answer m = elim (find id m) [ none ↦ none | some ch ↦ some (send ch answer m) ]

-- What `Wait` returns: the decision, the context's error, or the error of a missing entry.
pub data Waited : Type 0 where
  answered : Bool → Waited
  context_done : Waited
  not_pending : Waited

-- `Wait` with nothing between its parts: the answer that is there, else the end of the context.
unfoldable pub wait : Text → Manager → Waited × Manager
unfolding find receive give_up
wait id m = elim (find id m) [
  | none ↦ (not_pending, m)
  | some ch ↦ elim (receive id ch m) [
    | none ↦ (context_done, give_up id m)
    | some (answer, m') ↦ (answered answer, m')
  ]
]
