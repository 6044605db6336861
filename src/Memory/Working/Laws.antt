-- ===== src/Memory/Working/Laws.antt =====
-- What is loaded after a change.
use kaf_claw.Base.{
  ℕ, Text, text_eq, text_eq_iff, is_empty, ◌&&◌, ◌||◌, none, some, is_none, [], ◌∷◌, ◌≡◌, refl,
  arith, if◌then◌else◌,
}
use kaf_claw.Memory.Working.{Working, stored, load, save, delete_entry}

stored-save :
    (now : ℕ) (resource thread resource' thread' content : Text) (w : Working)
    → stored resource thread (save now resource' thread' content w) ≡ (
        if text_eq resource' resource && text_eq thread' thread
        then some content
        else stored resource thread w)
unfolding stored save
stored-save now resource thread resource' thread' content [] = refl
stored-save now resource thread resource' thread' content (e ∷ w) = ground (
  arith,
  stored-save now resource thread resource' thread' content w,
  text_eq_iff e.resource_id resource,
  text_eq_iff e.resource_id resource',
  text_eq_iff resource' resource,
  text_eq_iff e.thread_id thread,
  text_eq_iff e.thread_id thread',
  text_eq_iff thread' thread,
)

stored-delete :
    (resource thread resource' thread' : Text) (w : Working)
    → stored resource thread (delete_entry resource' thread' w) ≡ (
        if text_eq resource' resource && text_eq thread' thread
        then none
        else stored resource thread w)
unfolding stored delete_entry
stored-delete resource thread resource' thread' [] = ground arith
stored-delete resource thread resource' thread' (e ∷ w) = ground (
  arith,
  stored-delete resource thread resource' thread' w,
  text_eq_iff e.resource_id resource,
  text_eq_iff e.resource_id resource',
  text_eq_iff resource' resource,
  text_eq_iff e.thread_id thread,
  text_eq_iff e.thread_id thread',
  text_eq_iff thread' thread,
)

-- What was saved for a resource and a thread is loaded for them, and changes nothing of another resource;
-- for another thread of the resource it is loaded exactly when it belongs to the resource itself and the
-- thread has nothing of its own.
pub load-save :
    (now : ℕ) (resource thread resource' thread' content : Text) (w : Working)
    → load resource thread (save now resource' thread' content w) ≡ (
        if text_eq resource' resource
          && (text_eq thread' thread || (is_empty thread' && is_none (stored resource thread w)))
        then content
        else load resource thread w)
unfolding load
load-save now resource thread resource' thread' content w = ground (
  arith,
  stored-save now resource thread resource' thread' content w,
  stored-save now resource [] resource' thread' content w,
  text_eq_iff thread' [],
  text_eq_iff thread' thread,
)

-- When the memory of a thread is deleted, the thread falls back on what its resource has; what every
-- other resource and thread loads stays as it was, but for the threads of a resource whose own memory
-- is deleted, which have nothing of their own.
pub load-delete :
    (resource thread resource' thread' : Text) (w : Working)
    → load resource thread (delete_entry resource' thread' w) ≡ (
        if text_eq resource' resource
          && (text_eq thread' thread || (is_empty thread' && is_none (stored resource thread w)))
        then (if is_empty thread' then [] else load resource [] w)
        else load resource thread w)
unfolding load
load-delete resource thread resource' thread' w = ground (
  arith,
  stored-delete resource thread resource' thread' w,
  stored-delete resource [] resource' thread' w,
  text_eq_iff thread' [],
  text_eq_iff thread' thread,
)
