-- ===== src/Memory/Lifecycle/Bound.antt =====
-- That a prune meets the limit as far as the chunks that are permanent allow.
use kaf_claw.Base.{
  pos_part, ℕ, ◌+◌, ◌-◌, ◌≤◌, text_eq, text_eq_iff, keep, count, length, take, sort_by, leb, leb→le,
  not_leb→lt, All, All-map, length-take, length-sort_by, length-keep, Bool, true, false, not, ◌||◌,
  some, List, [], ◌∷◌, ◌≡◌, ◌⊎◌, refl, arith, Bool-cases, inl, inr,
}
use kaf_claw.Memory.Lifecycle.{
  LifecycleConfig, RetentionPolicy, Chunk, expired, prune_expired, is_permanent, has_chunk, oldest,
  prune_excess, prune,
}
use kaf_claw.Memory.Lifecycle.Laws.{
  chunk_of, Ids, Ids-keep, Ids-sort_by, Ids-take, Ids-prune_expired, oldest-Victim,
}

module _ {ℓ} {A : Type ℓ} where
  count-or :
      (p q : A → Bool) (xs : List A)
      → ((x : A) → p x ≡ true → q x ≡ false)
      → count (λ x. p x || q x) xs ≡ count p xs + count q xs
  count-or p q [] h = omega arith
  count-or p q (x ∷ xs) h = ground (arith, h x, count-or p q xs h)

  count-not : (p : A → Bool) (xs : List A) → count (λ x. not (p x)) xs + count p xs ≡ length xs
  count-not p [] = omega arith
  count-not p (x ∷ xs) = ground (arith, count-not p xs)

  count-none : (p : A → Bool) (xs : List A) → All (λ x. p x ≡ false) xs → count p xs ≡ 0
  count-none p [] h = refl
  count-none p (x ∷ xs) (h, hs) = ground (arith, count-none p xs hs)

  count-keep-le : (p q : A → Bool) (xs : List A) → count p (keep q xs) ≤ count p xs
  count-keep-le p q [] = omega arith
  count-keep-le p q (x ∷ xs) = ground (arith, count-keep-le p q xs)

count-same_id :
    (g c : Chunk) (chunks : List Chunk)
    → Ids chunks
    → chunk_of g.id chunks ≡ some c
    → count (λ d. text_eq g.id d.id) chunks ≡ 1
unfolding chunk_of
count-same_id g c [] u h = ground arith
count-same_id g c (d ∷ chunks) (u, us) h = elim (Bool-cases (text_eq d.id g.id)) [
  | inr e ↦
      ground (arith, text_eq_iff g.id d.id, text_eq_iff d.id g.id, count-same_id g c chunks us)
  | inl e ↦
      let others : count (λ d'. text_eq g.id d'.id) chunks ≡ 0 =
        count-none (λ d'. text_eq g.id d'.id) chunks
          (All-map _ _ chunks (λ d' n. ground (arith, text_eq_iff d.id g.id)) u) in
      ground (arith, text_eq_iff g.id d.id, text_eq_iff d.id g.id, others)
]

not_among :
    (g c : Chunk) (gone : List Chunk)
    → All (λ d. text_eq g.id d.id ≡ false) gone
    → text_eq g.id c.id ≡ true
    → has_chunk gone c ≡ false
not_among g c [] u e = refl
not_among g c (d ∷ gone) (u, us) e = ground (
  arith,
  text_eq_iff g.id c.id,
  text_eq_iff d.id c.id,
  text_eq_iff g.id d.id,
  not_among g c gone us e,
)

-- As many chunks are among those to go as there are of those.
count-gone :
    (gone chunks : List Chunk)
    → Ids gone
    → Ids chunks
    → All (λ g. chunk_of g.id chunks ≡ some g) gone
    → count (has_chunk gone) chunks ≡ length gone
count-gone [] chunks v u h = count-none (has_chunk []) chunks (All-refl chunks)
  where
    All-refl : (cs : List Chunk) → All (λ c. has_chunk [] c ≡ false) cs
    All-refl [] = tt
    All-refl (c ∷ cs) = (refl, All-refl cs)
count-gone (g ∷ gone) chunks (v, vs) u (h, hs) = omega (
  arith,
  count-or (λ c. text_eq g.id c.id) (has_chunk gone) chunks (λ c e. not_among g c gone v e),
  count-same_id g g chunks u h,
  count-gone gone chunks vs u hs,
)

permanent-prune_expired :
    (now : ℕ) (ps policies : List RetentionPolicy) (chunks : List Chunk)
    → count (is_permanent ps) (prune_expired now policies chunks) ≤ count (is_permanent ps) chunks
unfolding prune_expired
permanent-prune_expired now ps [] chunks = omega arith
permanent-prune_expired now ps (p ∷ policies) chunks = omega (
  arith,
  permanent-prune_expired now ps policies (keep (λ c. not (expired now p c)) chunks),
  count-keep-le (is_permanent ps) (λ c. not (expired now p c)) chunks,
)

length-prune_excess :
    (cfg : LifecycleConfig) (chunks : List Chunk)
    → Ids chunks
    → (length (prune_excess cfg chunks) ≤ pos_part cfg.max_chunks)
      ⊎ (length (prune_excess cfg chunks) ≤ count (is_permanent cfg.policies) chunks)
unfolding prune_excess oldest
length-prune_excess cfg chunks u =
    let n : ℕ = length chunks - pos_part cfg.max_chunks in
    let others : List Chunk = keep (λ c. not (is_permanent cfg.policies c)) chunks in
    let sorted : List Chunk = sort_by (λ c. c.created_at) others in
    let victims = oldest-Victim n cfg.policies chunks u in
    let kept = length-keep (λ c. not (has_chunk (take n sorted) c)) chunks in
    let split = count-not (has_chunk (take n sorted)) chunks in
    let gone =
      count-gone (take n sorted) chunks
        (Ids-take n sorted (Ids-sort_by (λ c. c.created_at) others (Ids-keep _ chunks u))) u
        (All-map _ _ (take n sorted) (λ g v. v.0) victims) in
    let taken = length-take n sorted in
    let all = length-sort_by (λ (c : Chunk). c.created_at) others in
    let not_permanent = length-keep (λ c. not (is_permanent cfg.policies c)) chunks in
    let permanent = count-not (is_permanent cfg.policies) chunks in
    elim (Bool-cases (leb n (length others))) [
      | inl e ↦ inl (omega (arith, leb→le _ _ e, kept, split, gone, taken, all))
      | inr e ↦
          inr (
            omega
              (arith, not_leb→lt _ _ e, kept, split, gone, taken, all, not_permanent, permanent))
    ]

-- With ids that are unique, a prune leaves at most as many chunks as the limit, or at most as many as
-- there were of the sources that some policy keeps for ever.
pub length-prune :
    (now : ℕ) (cfg : LifecycleConfig) (chunks : List Chunk)
    → Ids chunks
    → (length (prune now cfg chunks) ≤ pos_part cfg.max_chunks)
      ⊎ (length (prune now cfg chunks) ≤ count (is_permanent cfg.policies) chunks)
unfolding prune
length-prune now cfg chunks u = ground (
  arith,
  length-prune_excess cfg (prune_expired now cfg.policies chunks)
      (Ids-prune_expired now cfg.policies chunks u),
  permanent-prune_expired now cfg.policies cfg.policies chunks,
)
