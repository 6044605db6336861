-- ===== src/Scheduler/Calendar.antt =====
-- What internal/scheduler reads of package time: the Gregorian calendar in UTC, days counted from any
-- date, and the minute, hour, day and weekday of a time. A minute is numbered from the midnight of
-- that date.
use kaf_claw.Base.{
  ℕ, zero, suc, ◌+◌, ◌-◌, ◌*◌, ◌/◌, ◌%◌, ◌≤◌, ◌<◌, ltb, Bool, ◌&&◌, ◌||◌, not, ◌≡◌, refl, ap, subst,
  ◌∙◌, arith, if◌then◌else◌, ◌==◌,
}

pub record Date : Type 0 where
  pub year : ℕ
  pub month : ℕ
  pub day : ℕ
  pub weekday : ℕ

abbrev pub is_leap : ℕ → Bool
is_leap y = (y % 4 == 0) && (not (y % 100 == 0) || (y % 400 == 0))

abbrev pub short_month : ℕ → Bool
short_month m = (m == 4) || (m == 6) || (m == 9) || (m == 11)

unfoldable pub days_in_month : ℕ → ℕ → ℕ
days_in_month y m =
    if m == 2 then (if is_leap y then 29 else 28) else (if short_month m then 30 else 31)

abbrev pub next_month : Date → Date
next_month d =
    if d.month == 12
    then record d { year = suc d.year; month = 1; day = 1 }
    else record d { month = suc d.month; day = 1 }

unfoldable pub next_day : Date → Date
next_day d =
    let d' = record d { weekday = if d.weekday == 6 then 0 else suc d.weekday } in
    if ltb d.day (days_in_month d.year d.month)
    then record d' { day = suc d.day }
    else next_month d'

-- The date so many days after another.
unfoldable pub date_after : Date → ℕ → Date
date_after origin zero = origin
date_after origin (suc n) = next_day (date_after origin n)

-- The days of the month that have not passed, the last one not counted.
abbrev pub days_left : Date → ℕ
days_left d = days_in_month d.year d.month - d.day

abbrev pub minutes_of_day : ℕ
minutes_of_day = 1440

abbrev pub day_of : ℕ → ℕ
day_of minute = minute / 1440

abbrev pub date_of : Date → ℕ → Date
date_of origin minute = date_after origin (day_of minute)

abbrev pub hour_of : ℕ → ℕ
hour_of minute = minute % 1440 / 60

abbrev pub minute_of : ℕ → ℕ
minute_of minute = minute % 60

-- What `time.Date` gives for the start of the next hour, day and month.
unfoldable pub start_of_next_hour : ℕ → ℕ
start_of_next_hour minute = (minute / 60 + 1) * 60

unfoldable pub start_of_next_day : ℕ → ℕ
start_of_next_day minute = (day_of minute + 1) * 1440

unfoldable pub start_of_next_month : Date → ℕ → ℕ
start_of_next_month origin minute = (day_of minute + days_left (date_of origin minute) + 1) * 1440

date_after-add :
    (origin : Date) (n k : ℕ) → date_after origin (n + k) ≡ date_after (date_after origin n) k
unfolding date_after
date_after-add origin n zero = ap (date_after origin) (omega arith)
date_after-add origin n (suc k) =
    let e : suc (n + k) ≡ n + suc k = omega arith in
    subst (λ i. date_after origin i ≡ next_day (date_after (date_after origin n) k)) e
      (ap next_day (date_after-add origin n k))

-- Until the month is over, only the day and the weekday change.
stays_in_month :
    (d : Date) (k : ℕ)
    → k ≤ days_left d
    → let d' = date_after d k in (d'.month ≡ d.month) × (d'.year ≡ d.year) × (d'.day ≡ d.day + k)
unfolding date_after next_day
stays_in_month d zero h = (refl, refl, omega arith)
stays_in_month d (suc k) h = ground (arith, stays_in_month d k (omega arith))

pub same_month :
    (origin : Date) (minute later : ℕ)
    → minute ≤ later
    → later < start_of_next_month origin minute
    → (date_of origin later).month ≡ (date_of origin minute).month
unfolding start_of_next_month
same_month origin minute later a b =
    let m : ℕ = day_of minute in
    let k : ℕ = day_of later - m in
    let e : m + k ≡ day_of later = omega arith in
    subst (λ i. (date_after origin i).month ≡ (date_of origin minute).month) e
      (ap (λ (d : Date). d.month) (date_after-add origin m k)
        ∙ (stays_in_month (date_after origin m) k (omega arith)).0)

pub same_hour :
    (minute later : ℕ)
    → minute ≤ later
    → later < start_of_next_hour minute
    → hour_of later ≡ hour_of minute
unfolding start_of_next_hour
same_hour minute later a b = omega arith

pub same_day :
    (minute later : ℕ)
    → minute ≤ later
    → later < start_of_next_day minute
    → day_of later ≡ day_of minute
unfolding start_of_next_day
same_day minute later a b = omega arith
