-- ===== src/Approval/Steps.antt =====
-- Interleavings of the goroutines that share an approval manager.
use kaf_claw.Base.{ℕ, ◌<◌, Text, Table, Bool, Option, none, some, ◌≡◌}
use kaf_claw.Approval.{Status, Manager, new_manager, create, find, send, receive, give_up}

-- A goroutine of `Respond` or `Wait` goes on with a channel that it looked up at any earlier time,
-- so `sends`, `receives` and `gives_up` are not tied to what the map holds now.
pub data Step (m : Manager) : Manager → Type 0 where
  creates : (id : Text) → Step m (create id m)
  sends : (ch : ℕ) (a : Bool) → Step m (send ch a m)
  receives :
      {m' : Manager} (id : Text) (ch : ℕ) (a : Bool) → receive id ch m ≡ some (a, m') → Step m m'
  gives_up : (id : Text) → Step m (give_up id m)

pub data Reach (t : Option (Table Status)) : Manager → Type 0 where
  starts : Reach t (new_manager t)
  next : {m m' : Manager} → Reach t m → Step m m' → Reach t m'

pub record Inv (m : Manager) : Type 0 where
  pub allocated : (id : Text) (ch : ℕ) → find id m ≡ some ch → ch < m.next_channel
  pub unshared : (id id' : Text) (ch : ℕ) → find id m ≡ some ch → find id' m ≡ some ch → id ≡ id'

-- What a wait on `id` would receive now.
abbrev pub inbox : Text → Manager → Option Bool
inbox id m = elim (find id m) [ none ↦ none | some ch ↦ m.channels ch ]
