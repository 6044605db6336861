-- ===== src/Tasks/Dedup/Later.antt =====
-- What may happen to the table once a message was answered: rounds of `Run`, and the updates of the
-- delivery that rounds, polls and channels make.
use kaf_claw.Base.{
  ℕ, Text, text_eq, is_empty, any, false, Option, none, some, [], ◌∷◌, ◌++◌, ◌≡◌, inl, inr, arith,
  Bool-cases, Option-cases, refl,
}
use kaf_claw.Bus.{InboundMessage}
use kaf_claw.Tasks.{
  DeliveryStatus, completed, processing, AgentTask, Tasks, has_id, new_task, NewTask, create_task,
  get_task_by_idempotency_key, update_task_status, update_task, with_status, with_delivery, sent,
  update_task_delivery_with_reason, update_task_delivery,
}
use kaf_claw.Tasks.Laws.{get_by_key-update}
use kaf_claw.Tasks.Dedup.{
  Answer, answered, errored, known, reply_text, finish, with_ids, new_task_of, run_task,
  process_message, run_round,
}

pub data Step (tasks : Tasks) : Tasks → Type 0 where
  rounds :
      (now : ℕ) (fresh id : Text) (m : InboundMessage) (answer : Answer)
      → Step tasks (run_round now fresh id m answer tasks).1
  reports :
      (id : Text) (status : DeliveryStatus) (next_at : Option ℕ) (reason : Text)
      → Step tasks (update_task_delivery_with_reason id status next_at reason tasks)

pub data Later (tasks : Tasks) : Tasks → Type 0 where
  starts : Later tasks tasks
  next : {some_rows rows : Tasks} → Later tasks some_rows → Step some_rows rows → Later tasks rows

-- The row of a key is done, with this id and this answer.
pub record Settled (key id text : Text) (tasks : Tasks) : Type 0 where
  pub row : AgentTask
  pub found : get_task_by_idempotency_key key tasks ≡ some row
  pub done : row.status ≡ completed
  pub says : row.content_out ≡ text
  pub its : row.task_id ≡ id

get_by_key-behind :
    (key : Text) (tasks : Tasks) (t r : AgentTask)
    → get_task_by_idempotency_key key tasks ≡ some r
    → get_task_by_idempotency_key key (tasks ++ t ∷ []) ≡ some r
unfolding get_task_by_idempotency_key
get_by_key-behind key [] t r e = ground arith
get_by_key-behind key (q ∷ tasks) t r e = ground (arith, get_by_key-behind key tasks t r)

found-id :
    (key id : Text) (tasks : Tasks) (r : AgentTask)
    → get_task_by_idempotency_key key tasks ≡ some r
    → any (has_id id) tasks ≡ false
    → has_id id r ≡ false
unfolding get_task_by_idempotency_key
found-id key id [] r e n = ground arith
found-id key id (q ∷ tasks) r e n = ground (arith, found-id key id tasks r)

-- An update of another row keeps the row.
other-Settled :
    (key id text other : Text) (f : AgentTask → AgentTask) (tasks : Tasks)
    → ((t : AgentTask) → (f t).idempotency_key ≡ t.idempotency_key)
    → text_eq id other ≡ false
    → Settled key id text tasks
    → Settled key id text (update_task other f tasks)
other-Settled key id text other f tasks k n h = record {
  row = h.row;
  found = ground (arith, h.found, h.its, get_by_key-update key other f tasks k);
  done = h.done;
  says = h.says;
  its = h.its;
}

delivery-Settled :
    (key id text other : Text) (status : DeliveryStatus) (next_at : Option ℕ) (reason : Text)
    (tasks : Tasks)
    → Settled key id text tasks
    → Settled key id text (update_task_delivery_with_reason other status next_at reason tasks)
unfolding update_task_delivery_with_reason
delivery-Settled key id text other status next_at reason tasks h =
    let f : AgentTask → AgentTask = with_delivery status next_at reason in
    elim (Bool-cases (has_id other h.row)) [
      | inl e ↦ record {
        row = f h.row;
        found = ground (arith, h.found, get_by_key-update key other f tasks (λ t. refl));
        done = h.done;
        says = h.says;
        its = h.its;
      }
      | inr e ↦ record {
        row = h.row;
        found = ground (arith, h.found, get_by_key-update key other f tasks (λ t. refl));
        done = h.done;
        says = h.says;
        its = h.its;
      }
    ]

created-Settled :
    (now : ℕ) (key id text other : Text) (t : NewTask) (tasks created : Tasks)
    → create_task now other t tasks ≡ some created
    → Settled key id text tasks
    → Settled key id text created × (text_eq id other ≡ false)
unfolding create_task
created-Settled now key id text other t tasks created e h =
    let fresh : any (has_id other) tasks ≡ false = ground arith in
    let rows : created ≡ tasks ++ new_task now other t ∷ [] = ground arith in
    (
      record {
        row = h.row;
        found = rw rows (get_by_key-behind key tasks (new_task now other t) h.row h.found);
        done = h.done;
        says = h.says;
        its = h.its;
      },
      ground (arith, h.its, found-id key other tasks h.row h.found fresh),
    )

finish-Settled :
    (now : ℕ) (key id text other : Text) (answer : Answer) (tasks : Tasks)
    → text_eq id other ≡ false
    → Settled key id text tasks
    → Settled key id text (finish now other answer tasks)
unfolding update_task_status
finish-Settled now key id text other (answered out) tasks n h =
    other-Settled key id text other _ tasks (λ t. refl) n h
finish-Settled now key id text other (errored why) tasks n h =
    other-Settled key id text other _ tasks (λ t. refl) n h

run_task-Settled :
    (now : ℕ) (key id text other : Text) (m : InboundMessage) (answer : Answer) (tasks : Tasks)
    → Settled key id text tasks
    → Settled key id text (run_task now other m answer tasks).1
unfolding update_task_status run_task
run_task-Settled now key id text other m answer tasks h =
    elim (Option-cases (create_task now other (new_task_of m) tasks)) [
      | inl e ↦ rw (e, run_task) h
      | inr (created, e) ↦
          let (there, n) =
            created-Settled now key id text other (new_task_of m) tasks created e h in
          rw (e, run_task)
            (finish-Settled now key id text other answer _ n (
              other-Settled key id text other (with_status now processing [] []) created (λ t. refl)
                n there))
    ]

process_message-Settled :
    (now : ℕ) (key id text fresh other : Text) (m : InboundMessage) (answer : Answer)
    (tasks : Tasks)
    → Settled key id text tasks
    → Settled key id text (process_message now fresh other m answer tasks).1
unfolding process_message
process_message-Settled now key id text fresh other m answer tasks h =
    let m' = with_ids fresh m in
    elim (Option-cases (known (get_task_by_idempotency_key m'.idempotency_key tasks))) [
      | inl e ↦ rw (e, process_message) (run_task-Settled now key id text other m' answer tasks h)
      | inr (p, e) ↦ rw (e, process_message) h
    ]

round-Settled :
    (now : ℕ) (key id text fresh other : Text) (m : InboundMessage) (answer : Answer)
    (tasks : Tasks)
    → Settled key id text tasks
    → Settled key id text (run_round now fresh other m answer tasks).1
unfolding run_round update_task_delivery
round-Settled now key id text fresh other m answer tasks h =
    let q = process_message now fresh other m answer tasks in
    let there = process_message-Settled now key id text fresh other m answer tasks h in
    elim (Bool-cases (is_empty (reply_text q.0.answer))) [
      | inl e ↦ rw (e, run_round) there
      | inr e ↦ elim (Bool-cases (is_empty q.0.task_id)) [
        | inl f ↦ rw (e, f, run_round) there
        | inr f ↦
            rw (e, f, run_round) (delivery-Settled key id text q.0.task_id sent none [] q.1 there)
      ]
    ]

pub Later-Settled :
    (key id text : Text) {tasks rows : Tasks}
    → Later tasks rows
    → Settled key id text tasks
    → Settled key id text rows
Later-Settled key id text starts h = h
Later-Settled key id text (next l (rounds now fresh other m answer)) h =
    round-Settled now key id text fresh other m answer _ (Later-Settled key id text l h)
Later-Settled key id text (next l (reports other status next_at reason)) h =
    delivery-Settled key id text other status next_at reason _ (Later-Settled key id text l h)
