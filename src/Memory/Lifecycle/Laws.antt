-- ===== src/Memory/Lifecycle/Laws.antt =====
-- That what is permanent is kept, and that the limit is met.
use kaf_claw.Base.{
  pos_part, ℕ, zero, suc, ◌-◌, Text, text_eq, text_eq_iff, text_eq_refl, any, keep, length, take,
  sort_by, insert_by, ltb, All, All-keep, All-map, All-take, All-sort_by, keep-All, All-both,
  All-insert_by, Bool, true, false, not, Option, none, some, List, [], ◌∷◌, ◌≡◌, refl, arith,
  if◌then◌else◌, Bool-cases, inl, inr,
}
use kaf_claw.Memory.Lifecycle.{
  LifecycleConfig, RetentionPolicy, Chunk, expired, prune_expired, is_permanent, has_chunk, oldest,
  prune_excess, prune,
}

unfoldable pub chunk_of : Text → List Chunk → Option Chunk
chunk_of id [] = none
chunk_of id (c ∷ chunks) = if text_eq c.id id then some c else chunk_of id chunks

-- The ids are a primary key.
abbrev pub Ids : List Chunk → Type 0
Ids [] = Unit {0}
Ids (c ∷ chunks) = All (λ d. text_eq c.id d.id ≡ false) chunks × Ids chunks

pub Ids-keep : (p : Chunk → Bool) (chunks : List Chunk) → Ids chunks → Ids (keep p chunks)
Ids-keep p [] u = tt
Ids-keep p (c ∷ chunks) (u, us) = elim (Bool-cases (p c)) [
  | inl e ↦ rw (e, keep) (All-keep _ p chunks u, Ids-keep p chunks us)
  | inr e ↦ rw (e, keep) (Ids-keep p chunks us)
]

Ids-insert_by :
    (key : Chunk → ℕ) (c : Chunk) (chunks : List Chunk)
    → All (λ d. text_eq c.id d.id ≡ false) chunks
    → Ids chunks
    → Ids (insert_by key c chunks)
unfolding insert_by
Ids-insert_by key c [] n u = (tt, tt)
Ids-insert_by key c (d ∷ chunks) (n, ns) (u, us) = elim (Bool-cases (ltb (key d) (key c))) [
  | inl e ↦
      rw (e, insert_by)
        (
          All-insert_by key _ c chunks
              (ground (arith, text_eq_iff c.id d.id, text_eq_iff d.id c.id)) u,
          Ids-insert_by key c chunks ns us,
        )
  | inr e ↦ rw (e, insert_by) ((n, ns), (u, us))
]

pub Ids-sort_by : (key : Chunk → ℕ) (chunks : List Chunk) → Ids chunks → Ids (sort_by key chunks)
unfolding sort_by
Ids-sort_by key [] u = tt
Ids-sort_by key (c ∷ chunks) (u, us) =
    Ids-insert_by key c (sort_by key chunks) (All-sort_by key _ chunks u)
      (Ids-sort_by key chunks us)

pub Ids-take : (n : ℕ) (chunks : List Chunk) → Ids chunks → Ids (take n chunks)
Ids-take zero chunks u = tt
Ids-take (suc n) [] u = tt
Ids-take (suc n) (c ∷ chunks) (u, us) = (All-take _ n chunks u, Ids-take n chunks us)

chunk_of-keep :
    (id : Text) (p : Chunk → Bool) (c : Chunk) (chunks : List Chunk)
    → chunk_of id chunks ≡ some c
    → p c ≡ true
    → chunk_of id (keep p chunks) ≡ some c
unfolding chunk_of
chunk_of-keep id p c [] g e = g
chunk_of-keep id p c (d ∷ chunks) g e = ground (arith, chunk_of-keep id p c chunks)

-- Each chunk is the one of its id.
pub own_id : (chunks : List Chunk) → Ids chunks → All (λ c. chunk_of c.id chunks ≡ some c) chunks
unfolding chunk_of
own_id [] u = tt
own_id (c ∷ chunks) (u, us) = (
  ground (arith, text_eq_refl c.id),
  All-map _ _ chunks (λ d h. ground arith) (All-both _ _ chunks u (own_id chunks us)),
)

-- A victim of the second phase: a chunk of the table that is not permanent.
abbrev pub Victim : List RetentionPolicy → List Chunk → Chunk → Type 0
Victim policies chunks g = (chunk_of g.id chunks ≡ some g) × (is_permanent policies g ≡ false)

pub oldest-Victim :
    (n : ℕ) (policies : List RetentionPolicy) (chunks : List Chunk)
    → Ids chunks
    → All (Victim policies chunks) (oldest n policies chunks)
unfolding oldest
oldest-Victim n policies chunks u =
    All-take _ n (sort_by (λ c. c.created_at) (keep (λ c. not (is_permanent policies c)) chunks)) (
      All-sort_by (λ c. c.created_at) _ (keep (λ c. not (is_permanent policies c)) chunks)
        (keep-All _ (λ c. not (is_permanent policies c)) chunks
          (All-map _ _ chunks (λ c h e. (h, ground arith)) (own_id chunks u))))

spared :
    (policies : List RetentionPolicy) (chunks gone : List Chunk) (c : Chunk)
    → All (Victim policies chunks) gone
    → chunk_of c.id chunks ≡ some c
    → is_permanent policies c ≡ true
    → has_chunk gone c ≡ false
spared policies chunks [] c v g p = refl
spared policies chunks (d ∷ gone) c ((h, n), v) g p =
    ground (arith, text_eq_iff d.id c.id, spared policies chunks gone c v g p)

prune_expired-keeps :
    (now : ℕ) (id : Text) (policies : List RetentionPolicy) (c : Chunk) (chunks : List Chunk)
    → chunk_of id chunks ≡ some c
    → any (λ p. expired now p c) policies ≡ false
    → chunk_of id (prune_expired now policies chunks) ≡ some c
unfolding prune_expired
prune_expired-keeps now id [] c chunks g e = g
prune_expired-keeps now id (p ∷ policies) c chunks g e =
    prune_expired-keeps now id policies c (keep (λ d. not (expired now p d)) chunks)
      (chunk_of-keep id (λ d. not (expired now p d)) c chunks g (ground arith)) (ground arith)

pub Ids-prune_expired :
    (now : ℕ) (policies : List RetentionPolicy) (chunks : List Chunk)
    → Ids chunks
    → Ids (prune_expired now policies chunks)
unfolding prune_expired
Ids-prune_expired now [] chunks u = u
Ids-prune_expired now (p ∷ policies) chunks u =
    Ids-prune_expired now policies (keep (λ d. not (expired now p d)) chunks) (Ids-keep _ chunks u)

chunk_of_id :
    (id : Text) (c : Chunk) (chunks : List Chunk) → chunk_of id chunks ≡ some c → c.id ≡ id
unfolding chunk_of
chunk_of_id id c [] g = ground arith
chunk_of_id id c (d ∷ chunks) g = ground (arith, text_eq_iff d.id id, chunk_of_id id c chunks)

-- With ids that are unique, a prune keeps every chunk of a source that some policy keeps for ever, when
-- no other policy makes it expire, however many chunks there are.
pub prune-keeps :
    (now : ℕ) (cfg : LifecycleConfig) (id : Text) (c : Chunk) (chunks : List Chunk)
    → Ids chunks
    → chunk_of id chunks ≡ some c
    → is_permanent cfg.policies c ≡ true
    → any (λ p. expired now p c) cfg.policies ≡ false
    → chunk_of id (prune now cfg chunks) ≡ some c
unfolding prune prune_excess
prune-keeps now cfg id c chunks u g p e =
    let left : List Chunk = prune_expired now cfg.policies chunks in
    let gone : List Chunk = oldest (length left - pos_part cfg.max_chunks) cfg.policies left in
    let here : chunk_of id left ≡ some c = prune_expired-keeps now id cfg.policies c chunks g e in
    let own : chunk_of c.id left ≡ some c = cc (here, chunk_of_id id c left here) in
    let stays =
      spared cfg.policies left gone c
        (oldest-Victim _ cfg.policies left (Ids-prune_expired now cfg.policies chunks u)) own p in
    chunk_of-keep id (λ d. not (has_chunk gone d)) c left here (ground arith)
