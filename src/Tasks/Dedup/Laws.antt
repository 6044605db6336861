-- ===== src/Tasks/Dedup/Laws.antt =====
-- One answer for each idempotency key, and what becomes of a key whose task failed.
use kaf_claw.Base.{
  ℕ, Text, text_eq_refl, is_empty, any, true, false, none, some, [], ◌∷◌, ◌++◌, ◌≡◌, refl, arith,
}
use kaf_claw.Bus.{InboundMessage}
use kaf_claw.Tasks.{
  processing, completed, failed, AgentTask, Tasks, has_id, new_task, create_task,
  get_task_by_idempotency_key, update_task_status, update_task, with_status,
}
use kaf_claw.Tasks.Laws.{
  get_by_key-append, get_by_key-update, none_of_get_by_key, any_of_get_by_key,
}
use kaf_claw.Tasks.Dedup.Later.{Later, Settled, Later-Settled}
use kaf_claw.Tasks.Dedup.{with_ids, Answer, answered, run_task, process_message, new_task_of}

-- The row that a message with an answer leaves behind.
abbrev done_row : ℕ → Text → InboundMessage → Text → AgentTask
done_row now id m text =
    with_status now completed text []
      (with_status now processing [] [] (new_task now id (new_task_of m)))

row_of_run :
    (now : ℕ) (id text : Text) (m : InboundMessage) (tasks : Tasks)
    → any (has_id id) tasks ≡ false
    → is_empty m.idempotency_key ≡ false
    → get_task_by_idempotency_key m.idempotency_key tasks ≡ none
    → get_task_by_idempotency_key m.idempotency_key (run_task now id m (answered text) tasks).1
      ≡ some (done_row now id m text)
unfolding run_task create_task update_task_status
row_of_run now id text m tasks u k n =
    let key = m.idempotency_key in
    let none_has = none_of_get_by_key key tasks n in
    let rows = tasks ++ new_task now id (new_task_of m) ∷ [] in
    let working = update_task id (with_status now processing [] []) rows in
    ground (
      arith,
      none_has,
      text_eq_refl key,
      text_eq_refl id,
      get_by_key-append key tasks (new_task now id (new_task_of m)) none_has,
      get_by_key-update key id (with_status now processing [] []) rows (λ t. refl),
      get_by_key-update key id (with_status now completed text []) working (λ t. refl),
    )

row-Settled :
    (now : ℕ) (fresh id text : Text) (m : InboundMessage) (tasks : Tasks)
    → let key = (with_ids fresh m).idempotency_key in
      any (has_id id) tasks ≡ false
      → is_empty key ≡ false
      → get_task_by_idempotency_key key tasks ≡ none
      → Settled key id text (process_message now fresh id m (answered text) tasks).1
unfolding process_message
row-Settled now fresh id text m tasks u k n = record {
  row = done_row now id (with_ids fresh m) text;
  found = ground (arith, n, row_of_run now id text (with_ids fresh m) tasks u k n);
  done = refl;
  says = refl;
  its = refl;
}

-- A message of a new key that is answered is the last one of that key to reach the agent: whatever
-- rounds of `Run` and reports of deliveries come between, a later message of the key is given the same
-- answer and the same task, and changes no row.
pub process_message-once :
    (now later : ℕ) (fresh fresh' id id' text : Text) (m m' : InboundMessage) (answer : Answer)
    (tasks rows : Tasks)
    → let key = (with_ids fresh m).idempotency_key in
      any (has_id id) tasks ≡ false
      → is_empty key ≡ false
      → get_task_by_idempotency_key key tasks ≡ none
      → (with_ids fresh' m').idempotency_key ≡ key
      → Later (process_message now fresh id m (answered text) tasks).1 rows
      → process_message later fresh' id' m' answer rows
        ≡ (record { answer = answered text; task_id = id; asked = false }, rows)
unfolding process_message
process_message-once now later fresh fresh' id id' text m m' answer tasks rows u k n e l =
    let s =
      Later-Settled (with_ids fresh m).idempotency_key id text l
        (row-Settled now fresh id text m tasks u k n) in
    ground (arith, s.found, s.done, s.says, s.its)

-- A message whose key has a failed task reaches the agent again, but no row records it: the task stays
-- failed, and the answer has no task.
pub process_message-failed :
    (now : ℕ) (fresh id : Text) (m : InboundMessage) (answer : Answer) (t : AgentTask)
    (tasks : Tasks)
    → get_task_by_idempotency_key (with_ids fresh m).idempotency_key tasks ≡ some t
    → t.status ≡ failed
    → process_message now fresh id m answer tasks
      ≡ (record { answer = answer; task_id = []; asked = true }, tasks)
unfolding process_message run_task create_task
process_message-failed now fresh id m answer t tasks g f =
    ground (arith, any_of_get_by_key (with_ids fresh m).idempotency_key tasks t g)
