-- ===== src/Scheduler/Tests.antt =====
-- Runs of the scheduler.
use kaf_claw.Base.{
  is_none, false, arith, ℕ, pos, lit, text_eq, insert, delete, length, true, none, some, insert_by,
  ◌-◌, ◌+◌, [], ◌∷◌, ◌≡◌, ◌≤◌, ◌<◌, ◌*◌, refl,
}
use kaf_claw.Bus.{new_message_bus, publish_inbound}
use kaf_claw.Scheduler.{
  Scheduler, SchedulerConfig, Job, shell, new_scheduler, with_defaults, new_semaphore, register,
  unregister, dispatch, dispatch_matching, tick, acquired, try_acquire, release, complete,
  available,
}
use kaf_claw.Scheduler.Calendar.{
  Date, days_in_month, next_day, date_after, start_of_next_hour, start_of_next_day,
  start_of_next_month,
}
use kaf_claw.Scheduler.Cron.{parse_cron, parse_field, atoi, step_slice, two63, two64}
use kaf_claw.Scheduler.Cron.Ends.{step_slice-ends}
use kaf_claw.Scheduler.Next.{
  CronExpr, int_in, matches, next_candidate, next_loop, next, nanos_per_minute,
}
use kaf_claw.Scheduler.Next.Laws.{Silent, next-First}
use kaf_claw.Scheduler.Steps.{
  Reach, starts, registers, ticks, next as then, Balanced, Reach-Balanced,
}
use mathlib.Core.List.{Permᴰ}

scheduler : Unit {0}
unfolding text_eq insert delete new_scheduler with_defaults new_semaphore register unregister
    dispatch dispatch_matching tick try_acquire release complete available publish_inbound
    days_in_month next_day date_after start_of_next_hour start_of_next_day start_of_next_month
    int_in matches next_candidate next_loop next
scheduler = tt

-- A Wednesday in a leap year.
abbrev origin : Date
origin = record { year = 2024; month = 2; day = 28; weekday = 3 }

-- On the first of March, at 6:30, of any weekday.
abbrev march : CronExpr
march = record {
  minute = 30 ∷ [];
  hour = 6 ∷ [];
  day_of_month = 1 ∷ [];
  month = 3 ∷ [];
  day_of_week = 0 ∷ 1 ∷ 2 ∷ 3 ∷ 4 ∷ 5 ∷ 6 ∷ [];
}

-- Two days later, for there is a 29th of February.
two_days_on : next march origin 0 ≡ some 3270
unfolding scheduler
two_days_on = refl

next-First_example :
    (1 ≤ 3270)
    × (3270 * nanos_per_minute < 63072000000000000)
    × (matches march origin 3270 ≡ true)
    × Silent march origin 1 3270
unfolding scheduler
next-First_example = next-First march origin 0

abbrev job : Job
job = record { name = lit "report"; cron = march; category = lit "shell"; content = lit "go" }

abbrev config : SchedulerConfig
config = record {
  tick_interval = pos 0;
  max_conc_llm = pos 0;
  max_conc_shell = pos 0;
  max_conc_default = pos 0;
  lock_path = [];
}

abbrev empty : Scheduler
empty = new_scheduler (lit "lock") config new_message_bus

abbrev at_half_past_six : ℕ
at_half_past_six = 196200000000000

abbrev ticked : Scheduler
ticked = tick origin acquired at_half_past_six (job ∷ []) (register job empty)

ticked-Reach : Reach ticked
unfolding scheduler
ticked-Reach =
    then (then (starts (lit "lock") config new_message_bus) (registers job))
      (ticks origin acquired at_half_past_six (job ∷ []) (Permᴰ.cons refl Permᴰ.nil))

Reach-Balanced_example : Balanced shell ticked
Reach-Balanced_example = Reach-Balanced ticked ticked-Reach shell

-- The shell's one slot is taken, so the second tick only records that it skips.
second_tick :
    let s = tick origin acquired at_half_past_six (job ∷ []) ticked in
    (length ticked.in_flight ≡ 1) × (length s.in_flight ≡ 1) × (length s.runs ≡ 1)
unfolding scheduler
second_tick = (refl, refl, refl)

cron : Unit {0}
unfolding parse_cron parse_field atoi insert_by
cron = tt

-- The fourth of July, at 4:30 and at 16:30, of a working day.
parsed :
    parse_cron (lit " 30 4,16,4 4 7\t1-5 ")
    ≡ some record {
      minute = 30 ∷ [];
      hour = 4 ∷ 16 ∷ [];
      day_of_month = 4 ∷ [];
      month = 7 ∷ [];
      day_of_week = 1 ∷ 2 ∷ 3 ∷ 4 ∷ 5 ∷ [];
    }
unfolding cron
parsed = refl

stepped : parse_field (lit "0-30/10,*/25") 0 59 ≡ some (0 ∷ 10 ∷ 20 ∷ 25 ∷ 30 ∷ 50 ∷ [])
unfolding cron
stepped = refl

refused :
    (parse_cron (lit "* * *") ≡ none)
    × (parse_cron (lit "60 * * * *") ≡ none)
    × (parse_cron (lit "* * * * 7") ≡ none)
    × (parse_cron (lit "*/0 * * * *") ≡ none)
    × (parse_field (lit "5/-2") 0 59 ≡ none)
    × (parse_field (lit "-5") 0 59 ≡ none)
    × (atoi (lit "-5") ≡ some (two64 - 5))
    × (atoi (lit "9223372036854775808") ≡ none)
unfolding cron
refused = (refl, refl, refl, refl, refl, refl, refl, refl)

-- A step that wraps around takes in minutes below the range, and two negative numbers.
below :
    parse_field (lit "3-3/9223372036854775807") 0 59
    ≡ some (two63 ∷ (two63 + 2) ∷ (two64 - 1) ∷ 1 ∷ 3 ∷ [])
unfolding cron
below = refl

step_slice-ends_example : is_none (step_slice 3 59 9223372036854775807) ≡ false
step_slice-ends_example =
    step_slice-ends 3 59 9223372036854775807 (omega arith) (omega arith) (omega arith) (omega arith)
