-- ===== src/Tasks/Laws.antt =====
-- What the statements on the table of tasks find and change.
use kaf_claw.Base.{
  Text, any, true, false, none, some, [], ◌∷◌, ◌++◌, ◌≡◌, inl, inr, refl, arith, if◌then◌else◌,
  Bool-cases,
}
use kaf_claw.Tasks.{AgentTask, Tasks, has_id, has_key, get_task_by_idempotency_key, update_task}

-- A key is found behind rows that do not have it.
pub get_by_key-append :
    (key : Text) (tasks : Tasks) (t : AgentTask)
    → any (has_key key) tasks ≡ false
    → get_task_by_idempotency_key key (tasks ++ t ∷ []) ≡ (if has_key key t then some t else none)
unfolding get_task_by_idempotency_key
get_by_key-append key [] t h = refl
get_by_key-append key (r ∷ tasks) t h = ground (arith, get_by_key-append key tasks t)

-- An update that keeps the keys finds the row by its key, changed where its id is the one updated.
pub get_by_key-update :
    (key id : Text) (f : AgentTask → AgentTask) (tasks : Tasks)
    → ((t : AgentTask) → (f t).idempotency_key ≡ t.idempotency_key)
    → get_task_by_idempotency_key key (update_task id f tasks)
      ≡ elim (get_task_by_idempotency_key key tasks) [
        | none ↦ none
        | some t ↦ some (if has_id id t then f t else t)
      ]
unfolding get_task_by_idempotency_key update_task
get_by_key-update key id f [] h = refl
get_by_key-update key id f (r ∷ tasks) h = elim (Bool-cases (has_key key r)) [
  | inl e ↦ ground (arith, h r)
  | inr e ↦ ground (arith, h r, get_by_key-update key id f tasks h)
]

-- No row has a key that is found by none.
pub none_of_get_by_key :
    (key : Text) (tasks : Tasks)
    → get_task_by_idempotency_key key tasks ≡ none
    → any (has_key key) tasks ≡ false
unfolding get_task_by_idempotency_key
none_of_get_by_key key [] h = refl
none_of_get_by_key key (r ∷ tasks) h = ground (arith, none_of_get_by_key key tasks)

pub any_of_get_by_key :
    (key : Text) (tasks : Tasks) (t : AgentTask)
    → get_task_by_idempotency_key key tasks ≡ some t
    → (any (has_key key) tasks ≡ true) × (has_key key t ≡ true)
unfolding get_task_by_idempotency_key
any_of_get_by_key key [] t h = ground arith
any_of_get_by_key key (r ∷ tasks) t h = ground (arith, any_of_get_by_key key tasks t)
