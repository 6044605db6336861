-- ===== src/Channels/Pairing/Laws.antt =====
-- What pairing keeps of the pending entries, and whom it lets in.
use kaf_claw.Base.{
  ℤ, ℕ, ◌+◌, ◌-◌, ◌≤◌, Text, trim_space, count, length, length-drop, Bool, true, ◌&&◌, Option, none,
  some, List, [], ◌∷◌, ◌++◌, ◌≡◌, inl, inr, refl, arith, Option-cases, Bool-cases, All,
}
use kaf_claw.Channels.Senders.{normalize_channel, normalize_code}
use kaf_claw.Channels.Pairing.{
  PendingPairing, Setting, filter_non_expired, insert_sorted, sort_by_created, latest,
  get_or_append, create_or_get_pending, is_hit, take_hit, taken, take_pending, max_pending_pairings,
  new_pairing, is_current, is_complete, cleaned,
}

length-filter_non_expired-le :
    (items : List PendingPairing) (now : ℕ) → length (filter_non_expired items now) ≤ length items
unfolding filter_non_expired
length-filter_non_expired-le [] now = omega arith
length-filter_non_expired-le (it ∷ items) now =
    ground (arith, length-filter_non_expired-le items now)

length-insert_sorted :
    (it : PendingPairing) (xs : List PendingPairing) → length (insert_sorted it xs) ≡ 1 + length xs
unfolding insert_sorted
length-insert_sorted it [] = omega arith
length-insert_sorted it (x ∷ xs) = ground (arith, length-insert_sorted it xs)

length-sort_by_created : (xs : List PendingPairing) → length (sort_by_created xs) ≡ length xs
unfolding sort_by_created
length-sort_by_created [] = refl
length-sort_by_created (x ∷ xs) =
    omega (arith, length-sort_by_created xs, length-insert_sorted x (sort_by_created xs))

length-latest-le : (items : List PendingPairing) → length (latest items) ≤ 3
unfolding latest
length-latest-le items =
    ground
      (arith, length-sort_by_created items, length-drop (length items - 3) (sort_by_created items))

abbrev pub pending_of : Setting → List PendingPairing
pending_of none = []
pending_of (some items) = items

get_or_append-bounded :
    (now : ℕ) (code : Option Text) (channel sender : Text) (ttl : ℤ)
    (old items : List PendingPairing)
    → length old ≤ 3
    → length items ≤ 3
    → length (pending_of (get_or_append now code channel sender ttl (some old) items).1) ≤ 3
unfolding get_or_append
get_or_append-bounded now none channel sender ttl old items h h' = ground arith
get_or_append-bounded now (some c) channel sender ttl old items h h' =
    ground (arith, length-latest-le (items ++ new_pairing now c channel sender ttl ∷ []))

-- Where at most three pairings are pending, at most three are after any call for a code.
pub create_or_get_pending-bounded :
    (now : ℕ) (code : Option Text) (channel sender : Text) (ttl : ℤ) (setting : Setting)
    → length (pending_of setting) ≤ max_pending_pairings
    → length (pending_of (create_or_get_pending now code channel sender ttl setting).1)
      ≤ max_pending_pairings
unfolding create_or_get_pending
create_or_get_pending-bounded now code channel sender ttl none h = ground arith
create_or_get_pending-bounded now code channel sender ttl (some items) h = ground (
  arith,
  length-filter_non_expired-le items now,
  get_or_append-bounded now code (normalize_channel channel) (trim_space sender) ttl items
      (filter_non_expired items now),
)

-- Taking a hit out of the entries takes that entry and no other, wherever it stands.
count-take_hit :
    (channel code : Text) (p : PendingPairing → Bool) (items : List PendingPairing)
    (hit : PendingPairing) (rest : List PendingPairing)
    → take_hit channel code items ≡ some (hit, rest)
    → (count p items ≡ count p (hit ∷ rest)) × (is_hit channel code hit ≡ true)
unfolding take_hit
count-take_hit channel code p [] hit rest e = ground arith
count-take_hit channel code p (it ∷ items) hit rest e =
    elim (Option-cases (take_hit channel code items)) [
      | inl n ↦ ground arith
      | inr ((hit', rest'), s) ↦ ground (arith, count-take_hit channel code p items hit' rest' s)
    ]

-- What an entry is once it has been read: complete, and not expired at the time of reading.
abbrev pub IsLive : ℕ → PendingPairing → Type 0
IsLive now it = (is_current now it ≡ true) × (is_complete it ≡ true)

filter_non_expired-All :
    (items : List PendingPairing) (now : ℕ) → All (IsLive now) (filter_non_expired items now)
unfolding filter_non_expired
filter_non_expired-All [] now = tt
filter_non_expired-All (it ∷ items) now =
    elim (Bool-cases (is_current now it && is_complete (cleaned it))) [
      | inr e ↦ rw (e, filter_non_expired) (filter_non_expired-All items now)
      | inl e ↦
          rw (e, filter_non_expired)
            ((ground arith, ground arith), filter_non_expired-All items now)
    ]

take_hit-All :
    (now : ℕ) (channel code : Text) (items : List PendingPairing) (hit : PendingPairing)
    (rest : List PendingPairing)
    → take_hit channel code items ≡ some (hit, rest)
    → All (IsLive now) items
    → IsLive now hit
unfolding take_hit
take_hit-All now channel code [] hit rest e a = ground arith
take_hit-All now channel code (it ∷ items) hit rest e a =
    elim (Option-cases (take_hit channel code items)) [
      | inl n ↦ ground arith
      | inr ((hit', rest'), s) ↦
          ground (arith, take_hit-All now channel code items hit' rest' s a.1)
    ]

-- What is taken is an entry for that channel and that code that has not expired, and of the other
-- entries that are live none is lost and none is changed.
pub take_pending-taken :
    (now : ℕ) (channel code : Text) (items : List PendingPairing) (hit : PendingPairing)
    (rest : List PendingPairing) (p : PendingPairing → Bool)
    → take_pending now channel code (some items) ≡ taken hit rest
    → (is_hit (normalize_channel channel) (normalize_code code) hit ≡ true)
      × (IsLive now hit × (count p (filter_non_expired items now) ≡ count p (hit ∷ rest)))
unfolding take_pending
take_pending-taken now channel code items hit rest p e =
    let current = filter_non_expired items now in
    elim (Option-cases (take_hit (normalize_channel channel) (normalize_code code) current)) [
      | inl n ↦ ground arith
      | inr ((hit', rest'), s) ↦ ground (
        arith,
        count-take_hit (normalize_channel channel) (normalize_code code) p current hit' rest' s,
        take_hit-All now (normalize_channel channel) (normalize_code code) current hit' rest' s
            (filter_non_expired-All items now),
      )
    ]
