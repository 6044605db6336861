-- ===== src/Memory/Working.antt =====
-- `WorkingMemoryStore` of internal/memory/working.go. Its table has one row for a resource and a thread;
-- the thread of what belongs to the resource is the empty text. The listing is left out.
pub mod Laws
use kaf_claw.Base.{
  ℕ, Text, text_eq, is_empty, Bool, true, false, not, ◌&&◌, Option, none, some, List, [], ◌∷◌, ◌++◌,
  if◌then◌else◌,
}

pub record Entry : Type 0 where
  pub resource_id : Text
  pub thread_id : Text
  pub content : Text
  pub updated_at : ℕ

abbrev pub Working : Type 0
Working = List Entry

abbrev pub is_entry : Text → Text → Entry → Bool
is_entry resource thread e = text_eq e.resource_id resource && text_eq e.thread_id thread

unfoldable pub stored : Text → Text → Working → Option Text
stored resource thread [] = none
stored resource thread (e ∷ w) =
    if is_entry resource thread e then some e.content else stored resource thread w

abbrev or_empty : Option Text → Text
or_empty none = []
or_empty (some c) = c

abbrev or_resource : Text → Working → Option Text → Text
or_resource resource w none = or_empty (stored resource [] w)
or_resource resource w (some c) = c

unfoldable pub load : Text → Text → Working → Text
load resource thread w =
    if is_empty thread
    then or_empty (stored resource [] w)
    else or_resource resource w (stored resource thread w)

-- A row of the key is updated, or one is added.
unfoldable pub save : ℕ → Text → Text → Text → Working → Working
save now resource thread content [] =
    record { resource_id = resource; thread_id = thread; content = content; updated_at = now } ∷ []
save now resource thread content (e ∷ w) =
    if is_entry resource thread e
    then record e { content = content; updated_at = now } ∷ w
    else e ∷ save now resource thread content w

-- The resource's own, and the thread's.
unfoldable pub load_both : Text → Text → Working → Text × Text
load_both resource thread w = (
  or_empty (stored resource [] w),
  if is_empty thread then [] else or_empty (stored resource thread w),
)

unfoldable pub delete_entry : Text → Text → Working → Working
delete_entry resource thread [] = []
delete_entry resource thread (e ∷ w) =
    if is_entry resource thread e
    then delete_entry resource thread w
    else e ∷ delete_entry resource thread w
