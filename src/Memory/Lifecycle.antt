-- ===== src/Memory/Lifecycle.antt =====
-- `LifecycleManager` of internal/memory/lifecycle.go. A time to live is in the unit of the clock, and 0
-- is for ever. `like` is the LIKE of SQLite, for which the case of ASCII letters does not count. The
-- statistics are left out.
pub mod Laws
pub mod Bound
use kaf_claw.Base.{
  ℤ, is_nonpos, pos_part, ℕ, zero, suc, ◌+◌, ◌-◌, ltb, Text, lit, text_eq, lower, any, keep, count,
  length, take, sort_by, Bool, true, false, not, ◌&&◌, ◌||◌, Option, none, some, List, [], ◌∷◌,
  ◌++◌, if◌then◌else◌, ◌==◌,
}

pub record RetentionPolicy : Type 0 where
  pub source_prefix : Text
  pub ttl : ℕ

pub record LifecycleConfig : Type 0 where
  pub max_chunks : ℤ
  pub policies : List RetentionPolicy

pub record Chunk : Type 0 where
  pub id : Text
  pub source : Text
  pub created_at : ℕ

abbrev policy : Text → ℕ → RetentionPolicy
policy p ttl = record { source_prefix = p; ttl = ttl }

-- In nanoseconds.
abbrev pub day : ℕ
day = 86400000000000

abbrev pub default_policies : List RetentionPolicy
default_policies =
    policy (lit "soul:") 0
    ∷ policy (lit "user") 0
    ∷ policy (lit "consolidated:") 0
    ∷ policy (lit "observation:") 0
    ∷ policy (lit "er1:") 0
    ∷ policy (lit "conversation:") 2592000000000000
    ∷ policy (lit "tool:") 1209600000000000
    ∷ policy (lit "group:") 5184000000000000
    ∷ []

unfoldable pub new_lifecycle_config : LifecycleConfig → LifecycleConfig
new_lifecycle_config cfg = record {
  max_chunks = if is_nonpos cfg.max_chunks then ℤ.pos 50000 else cfg.max_chunks;
  policies = elim cfg.policies [ [] ↦ default_policies | _ ∷ _ ↦ cfg.policies ];
}

-- The text, and what is left of it after any number of bytes.
abbrev pub tails : Text → List Text
tails [] = [] ∷ []
tails (c ∷ s) = (c ∷ s) ∷ tails s

abbrev same_letter : ℕ → ℕ → Bool
same_letter p c = p == 95 || (lower p == lower c)

-- `%` is 37 and stands for any text, `_` is 95 and stands for any one byte.
unfoldable pub like : Text → Text → Bool
like [] s = elim s [ [] ↦ true | _ ∷ _ ↦ false ]
like (p ∷ ps) s =
    let rest = like ps in
    if p == 37
    then any rest (tails s)
    else elim s [ [] ↦ false | c ∷ cs ↦ same_letter p c && rest cs ]

abbrev pub has_source : Text → Chunk → Bool
has_source p c = like (p ++ lit "%") c.source

abbrev pub is_permanent_policy : RetentionPolicy → Bool
is_permanent_policy p = p.ttl == 0

unfoldable pub expired : ℕ → RetentionPolicy → Chunk → Bool
expired now p c =
    not (is_permanent_policy p) && has_source p.source_prefix c && ltb c.created_at (now - p.ttl)

-- The first phase: one statement for each policy.
unfoldable pub prune_expired : ℕ → List RetentionPolicy → List Chunk → List Chunk
prune_expired now [] chunks = chunks
prune_expired now (p ∷ policies) chunks =
    prune_expired now policies (keep (λ c. not (expired now p c)) chunks)

-- The prefixes, which the source writes into the text of the query as they are: one with a quote in it
-- breaks the query, which is not modelled.
unfoldable pub permanent_patterns : List RetentionPolicy → List Text
permanent_patterns [] = []
permanent_patterns (p ∷ policies) =
    let rest = permanent_patterns policies in
    if is_permanent_policy p then p.source_prefix ∷ rest else rest

unfoldable pub is_permanent : List RetentionPolicy → Chunk → Bool
is_permanent policies c = any (λ p. has_source p c) (permanent_patterns policies)

abbrev pub has_chunk : List Chunk → Chunk → Bool
has_chunk gone c = any (λ g. text_eq g.id c.id) gone

-- The oldest that are not permanent.
unfoldable pub oldest : ℕ → List RetentionPolicy → List Chunk → List Chunk
oldest n policies chunks =
    take n (sort_by (λ c. c.created_at) (keep (λ c. not (is_permanent policies c)) chunks))

-- The second phase.
unfoldable pub prune_excess : LifecycleConfig → List Chunk → List Chunk
prune_excess cfg chunks =
    let gone = oldest (length chunks - pos_part cfg.max_chunks) cfg.policies chunks in
    keep (λ c. not (has_chunk gone c)) chunks

unfoldable pub prune : ℕ → LifecycleConfig → List Chunk → List Chunk
prune now cfg chunks = prune_excess cfg (prune_expired now cfg.policies chunks)

unfoldable pub delete_by_source : Text → List Chunk → List Chunk
delete_by_source p = keep (λ c. not (has_source p c))
