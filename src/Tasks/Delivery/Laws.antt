-- ===== src/Tasks/Delivery/Laws.antt =====
-- That each due delivery is dealt with, and that the mark of the sender and the report of the channel
-- do not commute.
use kaf_claw.Base.{
  ℤ, ltb, pos, ℕ, ◌≤◌, ◌<◌, leb, Text, lit, text_eq_refl, any, keep, count, length, min, All,
  All-take, All-map, keep-All, any-All, any-le, leb→le, length-keep, length-take, count-le, sort_by,
  All-sort_by, length-sort_by, Bool, true, false, ◌&&◌, Option, none, some, List, [], ◌∷◌, ◌≡◌, ◌≢◌,
  inl, inr, refl, arith, Bool-cases,
}
use mathlib.Core.Option.{map as map_option}
use kaf_claw.Tasks.{
  undelivered, sent, undeliverable, AgentTask, Tasks, has_id, update_task, with_delivery,
  update_task_delivery_with_reason, update_task_delivery, is_due, is_completed, is_due_at,
  list_pending_deliveries, count_pending_deliveries, DeliveryStatus, is_undelivered, get_task,
}
use kaf_claw.Tasks.Delivery.{deliver, deliver_all, poll, polls, report, wall, transient}

-- An update after which a test fails lets no more rows pass it.
count-update-le :
    (p : AgentTask → Bool) (id : Text) (f : AgentTask → AgentTask) (tasks : Tasks)
    → ((t : AgentTask) → p (f t) ≡ false)
    → count p (update_task id f tasks) ≤ count p tasks
unfolding update_task
count-update-le p id f [] h = omega arith
count-update-le p id f (t ∷ tasks) h = ground (arith, h t, count-update-le p id f tasks h)

-- One that meets a row that passed lets fewer pass.
count-update-lt :
    (p : AgentTask → Bool) (id : Text) (f : AgentTask → AgentTask) (tasks : Tasks)
    → ((t : AgentTask) → p (f t) ≡ false)
    → any (λ t. has_id id t && p t) tasks ≡ true
    → count p (update_task id f tasks) < count p tasks
unfolding update_task
count-update-lt p id f [] h a = ground arith
count-update-lt p id f (t ∷ tasks) h a =
    ground (arith, h t, count-update-lt p id f tasks h, count-update-le p id f tasks h)

-- A test that fails once a task is not undelivered.
abbrev Owing : (AgentTask → Bool) → Type 0
Owing p =
    (st : DeliveryStatus) (at : Option ℕ) (why : Text) (t : AgentTask)
    → st ≢ undelivered
    → p (with_delivery st at why t) ≡ false

is_due-Owing : (now : ℕ) → Owing (is_due now)
unfolding is_due
is_due-Owing now st at why t h = ground arith

-- Done, and not yet delivered, whenever its next attempt is.
abbrev pub is_owed : AgentTask → Bool
is_owed t = is_completed t && is_undelivered t

is_owed-Owing : Owing is_owed
is_owed-Owing st at why t h = ground arith

is_due-is_owed : (now : ℕ) (t : AgentTask) → is_due now t ≡ true → is_owed t ≡ true
unfolding is_due
is_due-is_owed now t e = ground arith

is_due_at_mono :
    (now later : ℕ) (at : Option ℕ)
    → now ≤ later
    → is_due_at now at ≡ true
    → is_due_at later at ≡ true
is_due_at_mono now later none o e = refl
is_due_at_mono now later (some n) o e = ground arith

-- What is due at one time is due at any later one.
is_due_mono :
    (now later : ℕ) (t : AgentTask) → now ≤ later → is_due now t ≡ true → is_due later t ≡ true
unfolding is_due
is_due_mono now later t o e = ground (arith, is_due_at_mono now later t.delivery_next_at o)

count-deliver-le :
    (p : AgentTask → Bool) (t : AgentTask) (tasks : Tasks)
    → Owing p
    → count p (deliver t tasks).0 ≤ count p tasks
unfolding deliver update_task_delivery_with_reason
count-deliver-le p t tasks o = ground (
  arith,
  count-update-le p t.task_id
      (with_delivery undeliverable none (lit "terminal:max_retries_exceeded")) tasks
      (λ r. o _ _ _ r (λ e. cc)),
  count-update-le p t.task_id (with_delivery sent none []) tasks (λ r. o _ _ _ r (λ e. cc)),
)

count-deliver-lt :
    (p : AgentTask → Bool) (t : AgentTask) (tasks : Tasks)
    → Owing p
    → any (λ r. has_id t.task_id r && p r) tasks ≡ true
    → count p (deliver t tasks).0 < count p tasks
unfolding deliver update_task_delivery_with_reason
count-deliver-lt p t tasks o a = ground (
  arith,
  count-update-lt p t.task_id
      (with_delivery undeliverable none (lit "terminal:max_retries_exceeded")) tasks
      (λ r. o _ _ _ r (λ e. cc)) a,
  count-update-lt p t.task_id (with_delivery sent none []) tasks (λ r. o _ _ _ r (λ e. cc)) a,
)

count-deliver_all-le :
    (p : AgentTask → Bool) (listed : List AgentTask) (tasks : Tasks)
    → Owing p
    → count p (deliver_all listed tasks).0 ≤ count p tasks
unfolding deliver_all
count-deliver_all-le p [] tasks o = omega arith
count-deliver_all-le p (t ∷ listed) tasks o =
    omega (arith, count-deliver-le p t tasks o, count-deliver_all-le p listed (deliver t tasks).0 o)

-- Each task listed is there, and is owed its delivery.
listed-owed :
    (now : ℕ) (tasks : Tasks)
    → All
        (λ t. any (λ r. has_id t.task_id r && is_owed r) tasks ≡ true)
        (list_pending_deliveries now (pos 10) tasks)
unfolding list_pending_deliveries
listed-owed now tasks = All-take _ 10 (sort_by (λ t. t.created_at) (keep (is_due now) tasks)) (
    All-sort_by (λ t. t.created_at) _ (keep (is_due now) tasks)
      (keep-All _ (is_due now) tasks (
        All-map _ _ tasks
          (λ t h e. any-le _ _ tasks (λ r d. ground (arith, is_due-is_owed now r)) (h e))
          (any-All (is_due now) (λ t r. has_id t.task_id r) tasks (λ t. text_eq_refl t.task_id)))))

length-listed :
    (now : ℕ) (tasks : Tasks)
    → length (list_pending_deliveries now (pos 10) tasks)
      ≡ min 10 (count_pending_deliveries now tasks)
unfolding list_pending_deliveries count_pending_deliveries
length-listed now tasks = omega (
  arith,
  length-take 10 (sort_by (λ (t : AgentTask). t.created_at) (keep (is_due now) tasks)),
  length-sort_by (λ (t : AgentTask). t.created_at) (keep (is_due now) tasks),
  length-keep (is_due now) tasks,
)

-- A poll lets no test of what is still owed pass more often, and does not leave the tasks that are
-- owed their delivery as many as they were when one is due.
count-poll-le :
    (p : AgentTask → Bool) (now : ℕ) (tasks : Tasks)
    → Owing p
    → count p (poll now tasks).0 ≤ count p tasks
unfolding poll
count-poll-le p now tasks o =
    count-deliver_all-le p (list_pending_deliveries now (pos 10) tasks) tasks o

count-deliver_all-lt :
    (listed : List AgentTask) (tasks : Tasks)
    → All (λ t. any (λ r. has_id t.task_id r && is_owed r) tasks ≡ true) listed
    → 0 < length listed
    → count is_owed (deliver_all listed tasks).0 < count is_owed tasks
unfolding deliver_all
count-deliver_all-lt [] tasks h l = omega arith
count-deliver_all-lt (t ∷ listed) tasks (h, _) l = omega (
  arith,
  count-deliver-lt is_owed t tasks is_owed-Owing h,
  count-deliver_all-le is_owed listed (deliver t tasks).0 is_owed-Owing,
)

count-poll-lt :
    (now : ℕ) (tasks : Tasks)
    → 0 < count_pending_deliveries now tasks
    → count is_owed (poll now tasks).0 < count is_owed tasks
unfolding poll
count-poll-lt now tasks d =
    count-deliver_all-lt (list_pending_deliveries now (pos 10) tasks) tasks (listed-owed now tasks)
      (omega (arith, length-listed now tasks))

-- A tick is at or after a time.
abbrev pub From : ℕ → List ℕ → Type 0
From due = All (λ now. due ≤ now)

polls-idle :
    (due : ℕ) (ticks : List ℕ) (tasks : Tasks)
    → count (is_due due) tasks ≡ 0
    → count (is_due due) (polls ticks tasks) ≡ 0
unfolding polls
polls-idle due [] tasks e = e
polls-idle due (now ∷ ticks) tasks e =
    polls-idle due ticks (poll now tasks).0
      (omega (arith, e, count-poll-le (is_due due) now tasks (is_due-Owing due)))

-- Whatever is due at some time is dealt with by the polls at that time or later, once they are as many
-- as the completed tasks not yet delivered: none is left that is due then.
pub polls-settle :
    (due : ℕ) (ticks : List ℕ) (tasks : Tasks)
    → From due ticks
    → count is_owed tasks ≤ length ticks
    → count_pending_deliveries due (polls ticks tasks) ≡ 0
unfolding polls count_pending_deliveries
polls-settle due [] tasks f e =
    omega (arith, count-le (is_due due) is_owed tasks (is_due-is_owed due))
polls-settle due (now ∷ ticks) tasks (f, fs) e =
    elim (Bool-cases (leb 1 (count (is_due now) tasks))) [
      | inr none_due ↦ polls-idle due ticks (poll now tasks).0 (
          ground (
            arith,
            count-poll-le (is_due due) now tasks (is_due-Owing due),
            count-le (is_due due) (is_due now) tasks (λ t. is_due_mono due now t f),
          ))
      | inl some_due ↦
          polls-settle due ticks (poll now tasks).0 fs
            (ground (arith, count-poll-lt now tasks (leb→le _ _ some_due)))
    ]

get_task-update :
    (id : Text) (f : AgentTask → AgentTask) (tasks : Tasks)
    → ((t : AgentTask) → (f t).task_id ≡ t.task_id)
    → get_task id (update_task id f tasks) ≡ map_option f (get_task id tasks)
unfolding get_task update_task
get_task-update id f [] h = refl
get_task-update id f (t ∷ tasks) h = ground (arith, h t, get_task-update id f tasks h)

-- A channel reports, of a completed task, a send that failed for now, and the sender marks the task as
-- sent. When the mark comes second the task is due at no time; when the report does, it is due behind the
-- second, in UTC, that a clock of the machine's zone shows at the next attempt: later than the attempt
-- by the zone's distance where the zone is east of UTC, and earlier where it is west.
pub mark-report :
    (zone : ℤ) (id : Text) (t : AgentTask) (next_at now : ℕ) (why : Text) (tasks : Tasks)
    → get_task id tasks ≡ some t
    → is_completed t ≡ true
    → (map_option (is_due now) (
          get_task id
            (update_task_delivery id sent none (report zone id (transient next_at why) tasks)))
        ≡ some false)
      × (map_option (is_due now) (
            get_task id
              (report zone id (transient next_at why) (update_task_delivery id sent none tasks)))
          ≡ some (ltb (wall zone next_at) now))
unfolding is_due report update_task_delivery update_task_delivery_with_reason
mark-report zone id t next_at now why tasks g c =
    let marked : AgentTask → AgentTask = with_delivery sent none [] in
    let reported : AgentTask → AgentTask =
      with_delivery undelivered (some (wall zone next_at)) why in
    (
      ground (
        arith,
        get_task-update id marked (update_task id reported tasks) (λ t. refl),
        get_task-update id reported tasks (λ t. refl),
      ),
      ground (
        arith,
        get_task-update id reported (update_task id marked tasks) (λ t. refl),
        get_task-update id marked tasks (λ t. refl),
      ),
    )
