-- ===== src/Memory/Tests.antt =====
-- Runs of the memory.
use kaf_claw.Base.{
  ℕ, pos, Text, lit, text_eq, sort_by, insert_by, lower, length, some, List, [], ◌∷◌, ◌≡◌, ◌≤◌, ◌⊎◌,
  refl,
}
use kaf_claw.Memory.Working.{Working, load, save, stored, delete_entry, load_both}
use kaf_claw.Memory.Working.Laws.{load-save}
use kaf_claw.Memory.Lifecycle.{
  Chunk, LifecycleConfig, new_lifecycle_config, like, expired, prune_expired, permanent_patterns,
  is_permanent, oldest, prune_excess, prune,
}
use kaf_claw.Memory.Lifecycle.Laws.{chunk_of, Ids, prune-keeps}
use kaf_claw.Memory.Lifecycle.Bound.{length-prune}

memory : Unit {0}
unfolding text_eq sort_by insert_by lower load save stored delete_entry load_both
    new_lifecycle_config like expired prune_expired permanent_patterns is_permanent oldest
    prune_excess prune chunk_of
memory = tt

abbrev notes : Working
notes = save 1 (lit "u1") [] (lit "likes tea") []

load-save_example :
    load (lit "u1") (lit "t1") (save 2 (lit "u1") [] (lit "likes tea and coffee") notes)
    ≡ lit "likes tea and coffee"
unfolding memory
load-save_example =
    load-save 2 (lit "u1") (lit "t1") (lit "u1") [] (lit "likes tea and coffee") notes

abbrev chunk : Text → Text → ℕ → Chunk
chunk id source at = record { id = id; source = source; created_at = at }

abbrev soul : Chunk
soul = chunk (lit "a") (lit "soul:me") 0

abbrev chunks : List Chunk
chunks = soul ∷ chunk (lit "b") (lit "conversation:1") 1 ∷ chunk (lit "c") (lit "er1:x") 2 ∷ []

abbrev one : LifecycleConfig
one = new_lifecycle_config (record { max_chunks = pos 1; policies = [] })

chunks-Ids : Ids chunks
unfolding memory
chunks-Ids = ((refl, (refl, tt)), ((refl, tt), (tt, tt)))

prune-keeps_example : chunk_of (lit "a") (prune 9 one chunks) ≡ some soul
unfolding memory
prune-keeps_example = prune-keeps 9 one (lit "a") soul chunks chunks-Ids refl refl refl

-- The limit is 1, but the two chunks that are permanent stay.
length-prune_example : (length (prune 9 one chunks) ≤ 1) ⊎ (length (prune 9 one chunks) ≤ 2)
unfolding memory
length-prune_example = length-prune 9 one chunks chunks-Ids

pruned : length (prune 9 one chunks) ≡ 2
unfolding memory
pruned = refl
