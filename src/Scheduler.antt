-- ===== src/Scheduler.antt =====
-- internal/scheduler: scheduler.go and semaphore.go. A slot of a semaphore is a place in its channel,
-- and its capacity is at least one. The file lock is what the tick is told of it; a tick walks the
-- jobs in the order that the map gives. A goroutine that has a slot is an entry of `in_flight` until
-- it has published its message and released the slot. The runs are the calls that store a run.
pub mod Calendar
pub mod Cron
pub mod Next
pub mod Steps
mod Tests
use kaf_claw.Base.{
  ℤ, is_nonpos, pos_part, ℕ, zero, suc, ◌+◌, ◌-◌, ◌/◌, Text, lit, text_eq, Table, lookup, insert,
  delete, ltb, Bool, true, false, not, ◌&&◌, Option, none, some, List, [], ◌∷◌, ◌++◌, map, is_empty,
  if◌then◌else◌,
}
use kaf_claw.Bus.{InboundMessage, MessageBus, publish_inbound}
use kaf_claw.Scheduler.Calendar.{Date}
use kaf_claw.Scheduler.Next.{CronExpr, matches, nanos_per_minute}

pub record Semaphore : Type 0 where
  pub cap : ℕ
  pub used : ℕ

unfoldable pub new_semaphore : ℤ → Semaphore
new_semaphore cap = record { cap = if is_nonpos cap then 1 else pos_part cap; used = 0 }

-- none when no slot is free.
unfoldable pub try_acquire : Semaphore → Option Semaphore
try_acquire s = if ltb s.used s.cap then some (record s { used = suc s.used }) else none

-- none where the receive blocks.
unfoldable pub release : Semaphore → Option Semaphore
release s = elim s.used [ zero ↦ none | suc n ↦ some (record s { used = n }) ]

unfoldable pub available : Semaphore → ℕ
available s = s.cap - s.used

pub record Job : Type 0 where
  pub name : Text
  pub cron : CronExpr
  pub category : Text
  pub content : Text

pub record SchedulerConfig : Type 0 where
  pub tick_interval : ℤ
  pub max_conc_llm : ℤ
  pub max_conc_shell : ℤ
  pub max_conc_default : ℤ
  pub lock_path : Text

-- The keys of the map of semaphores.
pub data Category : Type 0 where
  llm shell otherwise : Category

abbrev pub category_eq : Category → Category → Bool
category_eq llm llm = true
category_eq shell shell = true
category_eq otherwise otherwise = true
category_eq _ _ = false

-- A category without a semaphore takes the default one.
abbrev pub category_of : Text → Category
category_of c =
    if text_eq c (lit "llm") then llm else if text_eq c (lit "shell") then shell else otherwise

abbrev pub Semaphores : Type 0
Semaphores = Category → Semaphore

abbrev pub set_semaphore : Category → Semaphore → Semaphores → Semaphores
set_semaphore k s sems k' = if category_eq k k' then s else sems k'

-- A goroutine of `dispatch`, with the tick that started it.
pub record Flight : Type 0 where
  pub job : Job
  pub tick : ℕ

pub data RunStatus : Type 0 where
  dispatched skipped_concurrency : RunStatus

pub record JobRun : Type 0 where
  pub name : Text
  pub status : RunStatus
  pub tick : ℕ

pub record Scheduler : Type 0 where
  pub cfg : SchedulerConfig
  pub jobs : Table Job
  pub semaphores : Semaphores
  pub in_flight : List Flight
  pub runs : List JobRun
  pub bus : MessageBus

abbrev positive_or : ℕ → ℤ → ℤ
positive_or n z = if is_nonpos z then ℤ.pos n else z

unfoldable pub with_defaults : Text → SchedulerConfig → SchedulerConfig
with_defaults default_lock_path cfg = record {
  tick_interval = positive_or nanos_per_minute cfg.tick_interval;
  max_conc_llm = positive_or 3 cfg.max_conc_llm;
  max_conc_shell = positive_or 1 cfg.max_conc_shell;
  max_conc_default = positive_or 5 cfg.max_conc_default;
  lock_path = if is_empty cfg.lock_path then default_lock_path else cfg.lock_path;
}

abbrev new_semaphores : SchedulerConfig → Semaphores
new_semaphores cfg llm = new_semaphore cfg.max_conc_llm
new_semaphores cfg shell = new_semaphore cfg.max_conc_shell
new_semaphores cfg otherwise = new_semaphore cfg.max_conc_default

unfoldable pub new_scheduler : Text → SchedulerConfig → MessageBus → Scheduler
new_scheduler default_lock_path cfg bus =
    let cfg' = with_defaults default_lock_path cfg in
    record {
      cfg = cfg';
      jobs = [];
      semaphores = new_semaphores cfg';
      in_flight = [];
      runs = [];
      bus = bus;
    }

unfoldable pub register : Job → Scheduler → Scheduler
register job s = record s { jobs = insert job.name job s.jobs }

unfoldable pub unregister : Text → Scheduler → Scheduler
unregister name s = record s { jobs = delete name s.jobs }

-- The jobs, in one of the orders.
abbrev pub jobs_of : Scheduler → List Job
jobs_of s = map (λ e. e.1) s.jobs

abbrev pub log_job_run : Text → RunStatus → ℕ → Scheduler → Scheduler
log_job_run name status tick s = record s {
  runs = s.runs ++ record { name = name; status = status; tick = tick } ∷ [];
}

unfoldable pub dispatch : Job → ℕ → Scheduler → Scheduler
dispatch job now s =
    let k = category_of job.category in
    elim (try_acquire (s.semaphores k)) [
      | none ↦ log_job_run job.name skipped_concurrency now s
      | some sem ↦ record s {
        semaphores = set_semaphore k sem s.semaphores;
        in_flight = s.in_flight ++ record { job = job; tick = now } ∷ [];
      }
    ]

abbrev pub scheduled_message : Flight → InboundMessage
scheduled_message f = record {
  channel = lit "scheduler";
  sender_id = lit "scheduler";
  chat_id = lit "scheduler:" ++ f.job.name;
  thread_id = [];
  message_id = [];
  trace_id = [];
  idempotency_key = [];
  content = f.job.content;
  metadata = (lit "message_type", lit "internal") ∷ (lit "scheduler_job", f.job.name) ∷ [];
  timestamp = f.tick;
}

-- The rest of a goroutine, which stands first of those not in the given lists: it publishes, logs and
-- releases its slot. none while the bus is full.
unfoldable pub complete : List Flight → Flight → List Flight → Scheduler → Option Scheduler
complete before f after s =
    let k = category_of f.job.category in
    elim (publish_inbound f.tick (scheduled_message f) s.bus) [
      | none ↦ none
      | some bus ↦ elim (release (s.semaphores k)) [
        | none ↦ none
        | some sem ↦ some (record (log_job_run f.job.name dispatched f.tick s) {
          bus = bus;
          semaphores = set_semaphore k sem s.semaphores;
          in_flight = before ++ after;
        })
      ]
    ]

unfoldable pub dispatch_matching : Date → ℕ → List Job → Scheduler → Scheduler
dispatch_matching origin now [] s = s
dispatch_matching origin now (job ∷ jobs) s =
    dispatch_matching origin now jobs
      (if matches job.cron origin (now / nanos_per_minute) then dispatch job now s else s)

-- What the lock said: held here, held by another process, or an error.
pub data Locking : Type 0 where
  acquired held lock_error : Locking

unfoldable pub tick : Date → Locking → ℕ → List Job → Scheduler → Scheduler
tick origin acquired now order s = dispatch_matching origin now order s
tick origin held now order s = s
tick origin lock_error now order s = s
