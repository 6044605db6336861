-- ===== src/Tasks.antt =====
-- The table tasks of internal/timeline/service.go. Its rows are in the order of their insertion; a
-- statement is its documented effect on a table whose columns task_id and idempotency_key are unique,
-- and succeeds where it breaks neither. A missing key is the empty text, which the source writes as
-- NULL. The columns of tokens and the time of the last update, which no operation here reads, are
-- left out, and so is the listing with filters.
pub mod Laws
pub mod Dedup
pub mod Delivery
mod Tests
use kaf_claw.Base.{
  ℤ, pos, negsuc, is_nonpos, ℕ, zero, suc, ◌+◌, ltb, Text, lit, text_eq, is_empty, trim_space, any,
  keep, count, take, sort_by, Bool, true, false, not, ◌&&◌, ◌||◌, Option, none, some, List, [], ◌∷◌,
  ◌++◌, if◌then◌else◌,
}

pub data TaskStatus : Type 0 where
  pending processing completed failed : TaskStatus

pub data DeliveryStatus : Type 0 where
  undelivered sent undeliverable skipped : DeliveryStatus

pub record AgentTask : Type 0 where
  pub task_id : Text
  pub idempotency_key : Text
  pub trace_id : Text
  pub channel : Text
  pub chat_id : Text
  pub sender_id : Text
  pub message_type : Text
  pub status : TaskStatus
  pub content_in : Text
  pub content_out : Text
  pub error_text : Text
  pub delivery_status : DeliveryStatus
  pub delivery_attempts : ℕ
  pub delivery_next_at : Option ℕ
  pub created_at : ℕ
  pub completed_at : Option ℕ

abbrev pub Tasks : Type 0
Tasks = List AgentTask

abbrev pub has_id : Text → AgentTask → Bool
has_id id t = text_eq t.task_id id

-- The unique column of keys holds no two equal keys; NULLs are not equal.
abbrev pub has_key : Text → AgentTask → Bool
has_key key t = not (is_empty key) && text_eq t.idempotency_key key

unfoldable pub get_task : Text → Tasks → Option AgentTask
get_task id [] = none
get_task id (t ∷ tasks) = if has_id id t then some t else get_task id tasks

unfoldable pub get_task_by_idempotency_key : Text → Tasks → Option AgentTask
get_task_by_idempotency_key key [] = none
get_task_by_idempotency_key key (t ∷ tasks) =
    if has_key key t then some t else get_task_by_idempotency_key key tasks

-- What `CreateTask` is called with here.
pub record NewTask : Type 0 where
  pub idempotency_key : Text
  pub trace_id : Text
  pub channel : Text
  pub chat_id : Text
  pub sender_id : Text
  pub content_in : Text
  pub message_type : Text

abbrev pub new_task : ℕ → Text → NewTask → AgentTask
new_task now id t = record {
  task_id = id;
  idempotency_key = t.idempotency_key;
  trace_id = t.trace_id;
  channel = t.channel;
  chat_id = t.chat_id;
  sender_id = t.sender_id;
  message_type = t.message_type;
  status = pending;
  content_in = t.content_in;
  content_out = [];
  error_text = [];
  delivery_status = undelivered;
  delivery_attempts = 0;
  delivery_next_at = none;
  created_at = now;
  completed_at = none;
}

-- The id is the one that `newTaskID` gives. none is the error of a column that is unique.
unfoldable pub create_task : ℕ → Text → NewTask → Tasks → Option Tasks
create_task now id t tasks =
    if any (has_id id) tasks || any (has_key t.idempotency_key) tasks
    then none
    else some (tasks ++ new_task now id t ∷ [])

-- An UPDATE of the rows of one id.
unfoldable pub update_task : Text → (AgentTask → AgentTask) → Tasks → Tasks
update_task id f [] = []
update_task id f (t ∷ tasks) = (if has_id id t then f t else t) ∷ update_task id f tasks

abbrev pub is_final : TaskStatus → Bool
is_final completed = true
is_final failed = true
is_final _ = false

abbrev pub with_status : ℕ → TaskStatus → Text → Text → AgentTask → AgentTask
with_status now status out error t = record t {
  status = status;
  content_out = out;
  error_text = error;
  completed_at = if is_final status then some now else t.completed_at;
}

unfoldable pub update_task_status : ℕ → Text → TaskStatus → Text → Text → Tasks → Tasks
update_task_status now id status out error = update_task id (with_status now status out error)

abbrev pub with_delivery : DeliveryStatus → Option ℕ → Text → AgentTask → AgentTask
with_delivery status next_at reason t = record t {
  delivery_status = status;
  delivery_attempts = suc t.delivery_attempts;
  delivery_next_at = next_at;
  error_text = if is_empty (trim_space reason) then t.error_text else trim_space reason;
}

unfoldable pub update_task_delivery_with_reason :
    Text → DeliveryStatus → Option ℕ → Text → Tasks → Tasks
update_task_delivery_with_reason id status next_at reason =
    update_task id (with_delivery status next_at reason)

unfoldable pub update_task_delivery : Text → DeliveryStatus → Option ℕ → Tasks → Tasks
update_task_delivery id status next_at = update_task_delivery_with_reason id status next_at []

abbrev pub is_completed : AgentTask → Bool
is_completed t = elim t.status [ completed ↦ true | _ ↦ false ]

abbrev pub is_undelivered : AgentTask → Bool
is_undelivered t = elim t.delivery_status [ undelivered ↦ true | _ ↦ false ]

-- The driver stores a time as the text of the clock on the wall, with its zone behind, and SQLite
-- compares it with the text of the present second in UTC. A time of `delivery_next_at` is the second
-- that the stored text begins with, read as if it were in UTC: of two texts that begin with the same
-- second the longer one, which is the stored one, is the greater.
abbrev pub is_due_at : ℕ → Option ℕ → Bool
is_due_at now none = true
is_due_at now (some wall) = ltb wall now

-- The WHERE of the pending deliveries, at a second of UTC.
unfoldable pub is_due : ℕ → AgentTask → Bool
is_due now t = is_completed t && is_undelivered t && is_due_at now t.delivery_next_at

abbrev limit_or_ten : ℤ → ℕ
limit_or_ten (ℤ.pos zero) = 10
limit_or_ten (ℤ.pos (suc n)) = suc n
limit_or_ten (ℤ.negsuc n) = 10

unfoldable pub list_pending_deliveries : ℕ → ℤ → Tasks → List AgentTask
list_pending_deliveries now limit tasks =
    take (limit_or_ten limit) (sort_by (λ t. t.created_at) (keep (is_due now) tasks))

unfoldable pub count_pending_deliveries : ℕ → Tasks → ℕ
count_pending_deliveries now = count (is_due now)

abbrev is_open : TaskStatus → Bool
is_open pending = true
is_open processing = true
is_open _ = false

unfoldable pub count_open_tasks : Tasks → ℕ
count_open_tasks = count (λ t. is_open t.status)
