-- ===== src/Scheduler/Steps.antt =====
-- A scheduler as its ticks and its goroutines interleave: the slots taken are those in flight.
use kaf_claw.Base.{
  ℕ, suc, ◌+◌, ◌/◌, ◌≤◌, ◌<◌, ltb, Text, count, count-append, length, length-append, is_some, Bool,
  true, some, List, [], ◌∷◌, ◌++◌, ◌≡◌, refl, arith, inl, inr, Bool-cases, Option-cases,
}
use mathlib.Core.List.{Permᴰ}
use kaf_claw.Bus.{MessageBus, publish_inbound, channel_room}
use kaf_claw.Scheduler.{
  Scheduler, Semaphore, SchedulerConfig, Category, llm, shell, otherwise, category_eq, category_of,
  Job, Flight, JobRun, new_scheduler, new_semaphore, with_defaults, register, unregister, dispatch,
  dispatch_matching, complete, tick, Locking, acquired, held, lock_error, jobs_of, set_semaphore,
  scheduled_message, try_acquire, release, skipped_concurrency,
}
use kaf_claw.Scheduler.Calendar.{Date}
use kaf_claw.Scheduler.Next.{matches, nanos_per_minute}

pub data Step (s : Scheduler) : Scheduler → Type 0 where
  registers : (job : Job) → Step s (register job s)
  unregisters : (name : Text) → Step s (unregister name s)
  ticks :
      (origin : Date) (lock : Locking) (now : ℕ) (order : List Job)
      → Permᴰ order (jobs_of s)
      → Step s (tick origin lock now order s)
  completes :
      (before : List Flight) (f : Flight) (after : List Flight) (s' : Scheduler)
      → s.in_flight ≡ before ++ f ∷ after
      → complete before f after s ≡ some s'
      → Step s s'
  -- Another goroutine uses the bus.
  uses_bus : (b : MessageBus) → Step s (record s { bus = b })

pub data Reach : Scheduler → Type 0 where
  starts :
      (default_lock_path : Text) (cfg : SchedulerConfig) (b : MessageBus)
      → Reach (new_scheduler default_lock_path cfg b)
  next : {s s' : Scheduler} → Reach s → Step s s' → Reach s'

abbrev pub flies : Category → Flight → Bool
flies k f = category_eq (category_of f.job.category) k

-- The goroutines of a category are as many as its slots taken, which are at most its capacity.
pub record Balanced (k : Category) (s : Scheduler) : Type 0 where
  pub slots : (s.semaphores k).used ≡ count (flies k) s.in_flight
  pub within : (s.semaphores k).used ≤ (s.semaphores k).cap
  pub room : 1 ≤ (s.semaphores k).cap

category_eq_sound : (a b : Category) → category_eq a b ≡ true → a ≡ b
category_eq_sound llm llm e = refl
category_eq_sound shell shell e = refl
category_eq_sound otherwise otherwise e = refl
category_eq_sound llm shell e = ground arith
category_eq_sound llm otherwise e = ground arith
category_eq_sound shell llm e = ground arith
category_eq_sound shell otherwise e = ground arith
category_eq_sound otherwise llm e = ground arith
category_eq_sound otherwise shell e = ground arith

dispatch-Balanced :
    (k : Category) (job : Job) (now : ℕ) (s : Scheduler)
    → Balanced k s
    → Balanced k (dispatch job now s)
unfolding dispatch try_acquire
dispatch-Balanced k job now s b =
    let taken : Flight = record { job = job; tick = now } in
    let same = category_eq_sound (category_of job.category) k in
    let more = count-append (flies k) s.in_flight (taken ∷ []) in
    elim (Bool-cases (
      ltb (s.semaphores (category_of job.category)).used
        (s.semaphores (category_of job.category)).cap)) [
          | inr e ↦ rw (e, dispatch) (record { slots = b.slots; within = b.within; room = b.room })
          | inl e ↦
              rw (e, dispatch)
                record {
                  slots = ground (arith, same, more, b.slots);
                  within = ground (arith, same, b.within);
                  room = ground (arith, same, b.room);
                }
        ]

dispatch_matching-Balanced :
    (k : Category) (origin : Date) (now : ℕ) (jobs : List Job) (s : Scheduler)
    → Balanced k s
    → Balanced k (dispatch_matching origin now jobs s)
unfolding dispatch_matching
dispatch_matching-Balanced k origin now [] s b = b
dispatch_matching-Balanced k origin now (job ∷ jobs) s b =
    elim (Bool-cases (matches job.cron origin (now / nanos_per_minute))) [
      | inl e ↦ rw e (
          dispatch_matching-Balanced k origin now jobs (dispatch job now s)
            (dispatch-Balanced k job now s b))
      | inr e ↦ rw e (dispatch_matching-Balanced k origin now jobs s b)
    ]

release-used :
    (sem sem' : Semaphore)
    → release sem ≡ some sem'
    → (sem.used ≡ suc sem'.used) × (sem.cap ≡ sem'.cap)
unfolding release
release-used sem sem' r = ground arith

dispatch-counts :
    (job : Job) (now : ℕ) (s : Scheduler)
    → let s' = dispatch job now s in
      length s'.in_flight + length s'.runs ≡ suc (length s.in_flight + length s.runs)
unfolding dispatch try_acquire
dispatch-counts job now s =
    let flight : Flight = record { job = job; tick = now } in
    let run : JobRun = record { name = job.name; status = skipped_concurrency; tick = now } in
    elim (Bool-cases (
      ltb (s.semaphores (category_of job.category)).used
        (s.semaphores (category_of job.category)).cap)) [
          | inl e ↦ rw (e, dispatch) (omega (arith, length-append s.in_flight (flight ∷ [])))
          | inr e ↦ rw (e, dispatch) (omega (arith, length-append s.runs (run ∷ [])))
        ]

dispatch_matching-counts :
    (origin : Date) (now : ℕ) (jobs : List Job) (s : Scheduler)
    → let s' = dispatch_matching origin now jobs s in
      length s'.in_flight + length s'.runs
      ≡ count (λ j. matches j.cron origin (now / nanos_per_minute)) jobs
        + (length s.in_flight + length s.runs)
unfolding dispatch_matching
dispatch_matching-counts origin now [] s = omega arith
dispatch_matching-counts origin now (job ∷ jobs) s =
    elim (Bool-cases (matches job.cron origin (now / nanos_per_minute))) [
      | inl e ↦
          rw (e, dispatch_matching, count)
            (omega (
              arith,
              dispatch_matching-counts origin now jobs (dispatch job now s),
              dispatch-counts job now s,
            ))
      | inr e ↦
          rw (e, dispatch_matching, count)
            (omega (arith, dispatch_matching-counts origin now jobs s))
    ]

-- What `complete` does to the semaphores and the goroutines, when it does anything.
completed :
    (before after : List Flight) (f : Flight) (s s' : Scheduler)
    → complete before f after s ≡ some s'
    → (sem : Semaphore) × (release (s.semaphores (category_of f.job.category)) ≡ some sem)
      × (s'.in_flight ≡ before ++ after)
      × (s'.semaphores ≡ set_semaphore (category_of f.job.category) sem s.semaphores)
unfolding complete
completed before after f s s' c =
    elim (Option-cases (publish_inbound f.tick (scheduled_message f) s.bus)) [
      | inl e ↦ ground arith
      | inr (b, e) ↦ elim (Option-cases (release (s.semaphores (category_of f.job.category)))) [
        | inl e' ↦ ground arith
        | inr (sem, e') ↦ (sem, e', ground arith, ground arith)
      ]
    ]

complete-Balanced :
    (k : Category) (before after : List Flight) (f : Flight) (s s' : Scheduler)
    → s.in_flight ≡ before ++ f ∷ after
    → complete before f after s ≡ some s'
    → Balanced k s
    → Balanced k s'
complete-Balanced k before after f s s' i c b =
    let (sem, r, i', m) = completed before after f s s' c in
    let (u, cap) = release-used _ sem r in
    let same = category_eq_sound (category_of f.job.category) k in
    let fewer = count-append (flies k) before after in
    let all = count-append (flies k) before (f ∷ after) in
    record {
      slots = ground (arith, same, fewer, all, b.slots);
      within = ground (arith, same, b.within);
      room = ground (arith, same, b.room);
    }

new_scheduler-Balanced :
    (k : Category) (path : Text) (cfg : SchedulerConfig) (b : MessageBus)
    → Balanced k (new_scheduler path cfg b)
unfolding new_scheduler with_defaults new_semaphore
new_scheduler-Balanced llm path cfg b = record {
  slots = refl;
  within = omega arith;
  room = ground arith;
}
new_scheduler-Balanced shell path cfg b = record {
  slots = refl;
  within = omega arith;
  room = ground arith;
}
new_scheduler-Balanced otherwise path cfg b = record {
  slots = refl;
  within = omega arith;
  room = ground arith;
}

Step-Balanced : (k : Category) (s s' : Scheduler) → Step s s' → Balanced k s → Balanced k s'
unfolding register unregister tick
Step-Balanced k s _ (registers job) b = record { slots = b.slots; within = b.within; room = b.room }
Step-Balanced k s _ (unregisters name) b = record {
  slots = b.slots;
  within = b.within;
  room = b.room;
}
Step-Balanced k s _ (ticks origin acquired now order p) b =
    dispatch_matching-Balanced k origin now order s b
Step-Balanced k s _ (ticks origin held now order p) b = b
Step-Balanced k s _ (ticks origin lock_error now order p) b = b
Step-Balanced k s s' (completes before f after s'' i c) b =
    complete-Balanced k before after f s s' i c b
Step-Balanced k s _ (uses_bus bus) b = record { slots = b.slots; within = b.within; room = b.room }

-- However ticks, registrations and goroutines interleave, the goroutines of each category that hold a
-- slot are as many as its semaphore counts, and at most its capacity, which is at least one.
pub Reach-Balanced : (s : Scheduler) → Reach s → (k : Category) → Balanced k s
Reach-Balanced _ (starts path cfg b) k = new_scheduler-Balanced k path cfg b
Reach-Balanced s' (next {s} r step) k = Step-Balanced k s s' step (Reach-Balanced s r k)

category_eq_refl : (k : Category) → category_eq k k ≡ true
category_eq_refl llm = refl
category_eq_refl shell = refl
category_eq_refl otherwise = refl

slot_taken :
    (s : Scheduler) (before : List Flight) (f : Flight) (after : List Flight)
    → Reach s
    → s.in_flight ≡ before ++ f ∷ after
    → 1 ≤ (s.semaphores (category_of f.job.category)).used
slot_taken s before f after r i =
    let k = category_of f.job.category in
    ground (
      arith,
      (Reach-Balanced s r k).slots,
      category_eq_refl k,
      count-append (flies k) before (f ∷ after),
    )

-- In a state that is reached, a goroutine in flight goes through as soon as the bus has room: it never
-- waits to give its slot back.
pub complete-runs :
    (s : Scheduler) (before : List Flight) (f : Flight) (after : List Flight)
    → Reach s
    → s.in_flight ≡ before ++ f ∷ after
    → length s.bus.inbound < channel_room
    → is_some (complete before f after s) ≡ true
unfolding complete publish_inbound release
complete-runs s before f after r i l = ground (arith, slot_taken s before f after r i)

-- Every job of the order whose expression matches the time of the tick is run or recorded as skipped:
-- nothing is dropped, and nothing is run twice. Without the lock nothing happens.
pub tick-counts :
    (origin : Date) (lock : Locking) (now : ℕ) (order : List Job) (s : Scheduler)
    → let due = count (λ j. matches j.cron origin (now / nanos_per_minute)) order in
      let s' = tick origin lock now order s in
      length s'.in_flight + length s'.runs
      ≡ (elim lock [ acquired ↦ due | _ ↦ 0 ]) + (length s.in_flight + length s.runs)
unfolding tick
tick-counts origin held now order s = omega arith
tick-counts origin lock_error now order s = omega arith
tick-counts origin acquired now order s = dispatch_matching-counts origin now order s
