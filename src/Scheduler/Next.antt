-- ===== src/Scheduler/Next.antt =====
-- `Matches` and `Next` of internal/scheduler/cron.go, for times in UTC. A time is in nanoseconds, from
-- the midnight of a date, `origin`; what `Next` gives is a whole minute. none is its zero time.
pub mod Laws
use kaf_claw.Base.{
  ℕ, zero, suc, ◌+◌, ◌*◌, ◌/◌, ltb, any, Bool, true, false, not, ◌&&◌, ◌||◌, Option, none, some,
  List, ◌==◌, if◌then◌else◌,
}
use kaf_claw.Scheduler.Calendar.{
  Date, date_of, hour_of, minute_of, start_of_next_hour, start_of_next_day, start_of_next_month,
}

pub record CronExpr : Type 0 where
  pub minute : List ℕ
  pub hour : List ℕ
  pub day_of_month : List ℕ
  pub month : List ℕ
  pub day_of_week : List ℕ

unfoldable pub int_in : List ℕ → ℕ → Bool
int_in set val = any (λ v. v == val) set

abbrev pub nanos_per_minute : ℕ
nanos_per_minute = 60000000000

-- `Matches`, of a time within the given minute.
unfoldable pub matches : CronExpr → Date → ℕ → Bool
matches c origin t =
    int_in c.minute (minute_of t)
    && int_in c.hour (hour_of t)
    && int_in c.day_of_month (date_of origin t).day
    && int_in c.month (date_of origin t).month
    && int_in c.day_of_week (date_of origin t).weekday

-- One turn of the loop of `Next`: none to return the candidate, or the next candidate.
unfoldable pub next_candidate : CronExpr → Date → ℕ → Option ℕ
next_candidate c origin t =
    if not (int_in c.month (date_of origin t).month)
    then some (start_of_next_month origin t)
    else if not (int_in c.day_of_month (date_of origin t).day)
        || not (int_in c.day_of_week (date_of origin t).weekday)
    then some (start_of_next_day t)
    else if not (int_in c.hour (hour_of t))
    then some (start_of_next_hour t)
    else if not (int_in c.minute (minute_of t))
    then some (suc t)
    else none

unfoldable pub next_loop : ℕ → CronExpr → Date → ℕ → ℕ → Option ℕ
next_loop zero c origin limit t = none
next_loop (suc fuel) c origin limit t = elim (ltb (t * nanos_per_minute) limit) [
  | false ↦ none
  | true ↦ elim (next_candidate c origin t) [
    | none ↦ some t
    | some t' ↦ next_loop fuel c origin limit t'
  ]
]

-- Two years of 365 days.
abbrev pub two_years : ℕ
two_years = 63072000000000000

abbrev pub minutes_ahead : ℕ
minutes_ahead = 1051201

unfoldable pub next : CronExpr → Date → ℕ → Option ℕ
next c origin now = next_loop minutes_ahead c origin (now + two_years) (now / nanos_per_minute + 1)
