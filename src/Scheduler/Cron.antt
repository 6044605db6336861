-- ===== src/Scheduler/Cron.antt =====
-- `ParseCron` of internal/scheduler/cron.go, for expressions in ASCII. An `int` is its 64 bits read as a
-- natural number, two's complement; an error is none, without its text. White space is that of
-- package strings. A loop that steps through a range has fuel, which Cron/Ends shows to be enough.
pub mod Ends
use kaf_claw.Base.{
  ℕ, zero, suc, ◌+◌, ◌-◌, ◌*◌, ◌%◌, leb, ltb, any, is_space, is_empty, Text, lit, text_eq,
  has_prefix, contains, strip_prefix, sort_by, Bool, true, false, not, ◌&&◌, ◌||◌, Option, none,
  some, List, [], ◌∷◌, ◌++◌, ◌==◌, if◌then◌else◌,
}
use kaf_claw.Scheduler.Next.{CronExpr, int_in}

abbrev pub two63 : ℕ
two63 = 9223372036854775808

abbrev pub two64 : ℕ
two64 = 18446744073709551616

-- `a <= b` on signed integers.
unfoldable pub le_int : ℕ → ℕ → Bool
le_int a b = leb ((a + two63) % two64) ((b + two63) % two64)

infixl 5 ◌>>=◌
abbrev ◌>>=◌ {ℓ κ} : {A : Type ℓ} {B : Type κ} → Option A → (A → Option B) → Option B
none >>= f = none
some x >>= f = f x

unfoldable digits : ℕ → Text → Option ℕ
digits n [] = some n
digits n (c ∷ s) = if leb b'0' c && leb c b'9' then digits (n * 10 + (c - b'0')) s else none

-- `strconv.Atoi`: an optional sign and digits, of a number that 64 bits hold.
unfoldable pub atoi : Text → Option ℕ
unfolding digits
atoi [] = none
atoi (c ∷ s) =
    let number = if c == b'-' || c == b'+' then s else c ∷ s in
    if is_empty number then none else elim (digits 0 number) [
      | none ↦ none
      | some n ↦
          if c == b'-'
          then if leb n two63 then some ((two64 - n) % two64) else none
          else if ltb n two63
          then some n
          else none
    ]

-- `strings.SplitN` into two: the text before the first separator, and the text after it, if there is one.
unfoldable pub split_two : ℕ → Text → Text × Option Text
split_two sep [] = ([], none)
split_two sep (c ∷ s) =
    let rest = split_two sep s in if c == sep then ([], some s) else (c ∷ rest.0, rest.1)

-- The text before the first separator, and the parts after it.
unfoldable split_parts : ℕ → Text → Text × List Text
split_parts sep [] = ([], [])
split_parts sep (c ∷ s) =
    let rest = split_parts sep s in if c == sep then ([], rest.0 ∷ rest.1) else (c ∷ rest.0, rest.1)

-- `strings.Split`.
unfoldable pub split : ℕ → Text → List Text
unfolding split_parts
split sep s = let parts = split_parts sep s in parts.0 ∷ parts.1

-- A field that is being read, and the fields behind it.
unfoldable field_parts : Text → Text × List Text
field_parts [] = ([], [])
field_parts (c ∷ s) =
    let rest = field_parts s in
    if not (is_space c)
    then (c ∷ rest.0, rest.1)
    else if is_empty rest.0
    then rest
    else ([], rest.0 ∷ rest.1)

-- `strings.Fields`.
unfoldable pub fields : Text → List Text
unfolding field_parts is_space
fields s = let parts = field_parts s in if is_empty parts.0 then parts.1 else parts.0 ∷ parts.1

unfoldable range_from : ℕ → ℕ → List ℕ
range_from zero i = []
range_from (suc n) i = i ∷ range_from n (suc i)

unfoldable pub range_slice : ℕ → ℕ → List ℕ
unfolding range_from
range_slice min max = range_from (suc max - min) min

-- none when the fuel does not do.
unfoldable pub step_loop : ℕ → ℕ → ℕ → ℕ → Option (List ℕ)
unfolding le_int
step_loop zero max step i = none
step_loop (suc fuel) max step i = elim (le_int i max) [
  | false ↦ some []
  | true ↦ elim (step_loop fuel max step ((i + step) % two64)) [
    | none ↦ none
    | some rest ↦ some (i ∷ rest)
  ]
]

abbrev pub step_fuel : ℕ
step_fuel = 80

unfoldable pub step_slice : ℕ → ℕ → ℕ → Option (List ℕ)
unfolding step_loop
step_slice min max step = step_loop step_fuel max step min

-- A step is a positive integer.
unfoldable pub parse_step : Text → Option ℕ
unfolding atoi le_int
parse_step s = elim (atoi s) [ none ↦ none | some step ↦ if le_int step 0 then none else some step ]

-- The values of a range, with the text of its step.
unfoldable pub in_bounds : ℕ → ℕ → ℕ → ℕ → Option Text → Option (List ℕ)
unfolding le_int parse_step step_slice
in_bounds min max lo hi step_text =
    if not (le_int min lo) || not (le_int hi max) || not (le_int lo hi)
    then none
    else elim step_text [
      | none ↦ step_slice lo hi 1
      | some s ↦ elim (parse_step s) [ none ↦ none | some step ↦ step_slice lo hi step ]
    ]

-- `N-M` or `N-M/S`.
unfoldable pub parse_range : Text → ℕ → ℕ → Option (List ℕ)
unfolding split_two atoi in_bounds
parse_range part min max =
    let range_parts = split_two b'/' part in
    let bounds = split_two b'-' range_parts.0 in
    do
      hi_text ← bounds.1
      lo ← atoi bounds.0
      hi ← atoi hi_text
      in_bounds min max lo hi range_parts.1

unfoldable pub parse_part : Text → ℕ → ℕ → Option (List ℕ)
unfolding text_eq has_prefix contains strip_prefix parse_step step_slice parse_range atoi le_int
parse_part part min max = elim (strip_prefix part (lit "*/")) [
  | some s ↦ elim (parse_step s) [ none ↦ none | some step ↦ step_slice min max step ]
  | none ↦ if contains part (lit "-") then parse_range part min max else elim (atoi part) [
    | none ↦ none
    | some val ↦ if not (le_int min val) || not (le_int val max) then none else some (val ∷ [])
  ]
]

-- The values that `seen` has, with more.
unfoldable see : List ℕ → List ℕ → List ℕ
unfolding int_in
see seen [] = seen
see seen (v ∷ vals) = see (if int_in seen v then seen else v ∷ seen) vals

unfoldable parse_parts : List Text → ℕ → ℕ → List ℕ → Option (List ℕ)
unfolding parse_part see
parse_parts [] min max seen = some seen
parse_parts (part ∷ parts) min max seen = elim (parse_part part min max) [
  | none ↦ none
  | some vals ↦ parse_parts parts min max (see seen vals)
]

-- In the order of signed integers.
unfoldable pub sort_ints : List ℕ → List ℕ
unfolding sort_by
sort_ints a = sort_by (λ v. (v + two63) % two64) a

unfoldable pub parse_field : Text → ℕ → ℕ → Option (List ℕ)
unfolding text_eq range_slice split parse_parts sort_ints
parse_field field min max =
    if text_eq field (lit "*")
    then some (range_slice min max)
    else elim (parse_parts (split b',' field) min max []) [
      | none ↦ none
      | some result ↦ some (sort_ints result)
    ]

unfoldable parse_fields : List Text → Option CronExpr
unfolding parse_field
parse_fields (a ∷ b ∷ c ∷ d ∷ e ∷ []) = do
  minute ← parse_field a 0 59
  hour ← parse_field b 0 23
  dom ← parse_field c 1 31
  month ← parse_field d 1 12
  dow ← parse_field e 0 6
  some record { minute = minute; hour = hour; day_of_month = dom; month = month; day_of_week = dow }
parse_fields _ = none

unfoldable pub parse_cron : Text → Option CronExpr
unfolding fields parse_fields
parse_cron expr = parse_fields (fields expr)
