-- ===== src/Scheduler/Next/Laws.antt =====
-- That the jumps of `Next` miss no time that matches.
use kaf_claw.Base.{
  ℕ, zero, suc, ◌+◌, ◌*◌, ◌/◌, ◌≤◌, ◌<◌, ltb, ltb→lt, true, false, not, ◌||◌, Option, none, some,
  ◌≡◌, arith, inl, inr, Bool-cases,
}
use kaf_claw.Scheduler.Calendar.{
  Date, date_of, hour_of, minute_of, start_of_next_hour, start_of_next_day, start_of_next_month,
  same_month, same_day, same_hour,
}
use kaf_claw.Scheduler.Next.{
  CronExpr, int_in, matches, next_candidate, next_loop, next, nanos_per_minute, two_years,
}

-- No minute from the first up to the last matches.
abbrev pub Silent : CronExpr → Date → ℕ → ℕ → Type 0
Silent c origin first last = (t : ℕ) → first ≤ t → t < last → matches c origin t ≡ false

-- What a turn of the loop says of its candidate.
Turn : CronExpr → Date → ℕ → Option ℕ → Type 0
Turn c origin t none = matches c origin t ≡ true
Turn c origin t (some t') = (t < t') × Silent c origin t t'

month-Silent :
    (c : CronExpr) (origin : Date) (t : ℕ)
    → int_in c.month (date_of origin t).month ≡ false
    → Silent c origin t (start_of_next_month origin t)
unfolding matches
month-Silent c origin t e later a b = ground (arith, same_month origin t later a b)

day-Silent :
    (c : CronExpr) (origin : Date) (t : ℕ)
    → (not (int_in c.day_of_month (date_of origin t).day)
        || not (int_in c.day_of_week (date_of origin t).weekday))
      ≡ true
    → Silent c origin t (start_of_next_day t)
unfolding matches
day-Silent c origin t e later a b = rw (same_day t later a b) (ground arith)

hour-Silent :
    (c : CronExpr) (origin : Date) (t : ℕ)
    → int_in c.hour (hour_of t) ≡ false
    → Silent c origin t (start_of_next_hour t)
unfolding matches
hour-Silent c origin t e later a b = ground (arith, same_hour t later a b)

minute-Silent :
    (c : CronExpr) (origin : Date) (t : ℕ)
    → int_in c.minute (minute_of t) ≡ false
    → Silent c origin t (suc t)
unfolding matches
minute-Silent c origin t e later a b = let h : later ≡ t = omega arith in rw h (ground arith)

next-later :
    (origin : Date) (t : ℕ)
    → (t < start_of_next_month origin t) × (t < start_of_next_day t) × (t < start_of_next_hour t)
unfolding start_of_next_month start_of_next_day start_of_next_hour
next-later origin t = (omega arith, omega arith, omega arith)

candidate-Turn :
    (c : CronExpr) (origin : Date) (t : ℕ) → Turn c origin t (next_candidate c origin t)
unfolding Turn next_candidate matches
candidate-Turn c origin t = ground (
  arith,
  next-later origin t,
  month-Silent c origin t,
  day-Silent c origin t,
  hour-Silent c origin t,
  minute-Silent c origin t,
)

-- The answer for the minutes from the first one: the first that matches before the limit, or none.
abbrev pub First : CronExpr → Date → ℕ → ℕ → Option ℕ → Type 0
First c origin limit first none =
    (t : ℕ) → first ≤ t → t * nanos_per_minute < limit → matches c origin t ≡ false
First c origin limit first (some t) =
    (first ≤ t)
    × (t * nanos_per_minute < limit)
    × (matches c origin t ≡ true)
    × Silent c origin first t

skip :
    (c : CronExpr) (origin : Date) (limit first later : ℕ) (found : Option ℕ)
    → first < later
    → Silent c origin first later
    → First c origin limit later found
    → First c origin limit first found
skip c origin limit first later none o h r = λ t a b. elim (Bool-cases (ltb t later)) [
  | inl e ↦ h t a (ground arith)
  | inr e ↦ r t (ground arith) b
]
skip c origin limit first later (some u) o h (a, b, m, r) = (
  omega arith,
  b,
  m,
  λ t a' b'. elim (Bool-cases (ltb t later)) [
    | inl e ↦ h t a' (ground arith)
    | inr e ↦ r t (ground arith) b'
  ],
)

carry_on :
    (c : CronExpr) (origin : Date) (limit t : ℕ) (turn : Option ℕ) (loop : ℕ → Option ℕ)
    → t * nanos_per_minute < limit
    → Turn c origin t turn
    → ((t' : ℕ) → t < t' → First c origin limit t' (loop t'))
    → First c origin limit t (elim turn [ none ↦ some t | some t' ↦ loop t' ])
unfolding Turn
carry_on c origin limit t none loop b m r = (omega arith, b, m, λ t' a b'. ground arith)
carry_on c origin limit t (some t') loop b (o, h) r =
    skip c origin limit t t' (loop t') o h (r t' o)

next_loop-First :
    (fuel : ℕ) (c : CronExpr) (origin : Date) (limit t : ℕ)
    → limit < (t + fuel) * nanos_per_minute
    → First c origin limit t (next_loop fuel c origin limit t)
unfolding next_loop
next_loop-First zero c origin limit t f = λ t' a b. ground arith
next_loop-First (suc fuel) c origin limit t f =
    let later : (t' : ℕ) → t < t' → First c origin limit t' (next_loop fuel c origin limit t') =
      λ t' o. next_loop-First fuel c origin limit t' (omega arith) in
    elim (Bool-cases (ltb (t * nanos_per_minute) limit)) [
      | inl e ↦
          rw (e, next_loop)
            (carry_on c origin limit t (next_candidate c origin t) (next_loop fuel c origin limit)
              (ltb→lt _ _ e) (candidate-Turn c origin t) later)
      | inr e ↦ rw (e, next_loop) (λ t' a b. ground arith)
    ]

-- `Next` gives the first whole minute after now, and before two years, that matches, and none only if
-- no minute in that time does.
pub next-First :
    (c : CronExpr) (origin : Date) (now : ℕ)
    → First c origin (now + two_years) (now / nanos_per_minute + 1) (next c origin now)
unfolding next
next-First c origin now =
    next_loop-First _ c origin (now + two_years) (now / nanos_per_minute + 1) (omega arith)
