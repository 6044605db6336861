-- ===== src/Scheduler/Cron/Ends.antt =====
-- That the loop of `stepSlice` ends.
use kaf_claw.Base.{
  ℕ, zero, suc, ◌+◌, ◌%◌, ◌≤◌, ◌<◌, leb, ◌-◌, true, false, is_none, ◌≡◌, inl, inr, Bool-cases,
  arith,
}
use kaf_claw.Scheduler.Cron.{two63, two64, le_int, step_loop, step_fuel, step_slice}

go_on :
    (fuel max step i : ℕ)
    → (le_int i max ≡ true → is_none (step_loop fuel max step ((i + step) % two64)) ≡ false)
    → is_none (step_loop (suc fuel) max step i) ≡ false
unfolding step_loop
go_on fuel max step i h = ground arith

le_int-true : (i max : ℕ) → max < 60 → i < two63 → le_int i max ≡ true → i ≤ max
unfolding le_int
le_int-true i max m b h = ground arith

-- A step that does not wrap around.
small_step :
    (fuel max step i : ℕ)
    → max < 60
    → i ≤ max + step
    → 0 < step
    → step < 4611686018427387904
    → 1 ≤ fuel
    → max + 2 ≤ fuel + i
    → is_none (step_loop fuel max step i) ≡ false
small_step zero max step i m b p s o f = ground arith
small_step (suc fuel) max step i m b p s o f = go_on fuel max step i (λ h.
    let le = le_int-true i max m (omega arith) h in
    let e : (i + step) % two64 ≡ i + step = omega arith in
    rw e (small_step fuel max step (i + step) m (omega arith) p s (omega arith) (omega arith)))

stop :
    (fuel max step i : ℕ)
    → max < 60
    → max < i
    → i < two63
    → 1 ≤ fuel
    → is_none (step_loop fuel max step i) ≡ false
unfolding le_int
stop (suc fuel) max step i m b t f = go_on fuel max step i (ground arith)
stop zero max step i m b t f = ground arith

-- The value that has wrapped around is negative, the next one is lower than the first or negative, and a
-- negative one is the last.
wrapped :
    (max i step : ℕ)
    → max < 60
    → i ≤ max
    → 4611686018427387904 ≤ step
    → step < two63
    → le_int ((i + step) % two64) max ≡ true
    → two63 ≤ i + step
unfolding le_int
wrapped max i step m b s t h = ground arith

-- A negative number is the last, for a step that is large enough.
negative :
    (fuel max step j : ℕ)
    → max < 60
    → two64 ≤ j + 128
    → j < two64
    → 4611686018427387904 ≤ step
    → step < two63
    → 2 ≤ fuel
    → is_none (step_loop fuel max step j) ≡ false
negative (suc fuel) max step j m b c s t f =
    let e : (j + step) % two64 ≡ j + step - two64 = omega arith in
    go_on fuel max step j (λ _.
      rw e (stop fuel max step (j + step - two64) m (omega arith) (omega arith) (omega arith)))
negative zero max step j m b c s t f = ground arith

-- A step that wraps around: two turns lower the value.
large_step :
    (fuel max step i : ℕ)
    → max < 60
    → i ≤ max
    → 4611686018427387904 ≤ step
    → step < two63
    → i + 4 ≤ fuel
    → is_none (step_loop fuel max step i) ≡ false
large_step (suc (suc fuel)) max step i m b s t f = go_on (suc fuel) max step i (λ _.
    go_on fuel max step ((i + step) % two64) (λ h.
      let w = wrapped max i step m b s t h in
      elim (Bool-cases (leb two64 (i + step + step))) [
        | inl e ↦
            let e2 : ((i + step) % two64 + step) % two64 ≡ i + step + step - two64 = ground arith in
            rw e2 (
              large_step fuel max step (i + step + step - two64) m (ground arith) s t
                (ground arith))
        | inr e ↦
            let e2 : ((i + step) % two64 + step) % two64 ≡ i + step + step = ground arith in
            rw e2 (
              negative fuel max step (i + step + step) m (omega arith) (ground arith) s t
                (omega arith))
      ]))
large_step (suc zero) max step i m b s t f = ground arith
large_step zero max step i m b s t f = ground arith

-- The loop of `stepSlice` ends, within the fuel of the model, from any number to one that is not below it
-- and is at most 59, for every positive step of 63 bits, also where the counter wraps around.
pub step_slice-ends :
    (min max step : ℕ)
    → min ≤ max
    → max < 60
    → 0 < step
    → step < two63
    → is_none (step_slice min max step) ≡ false
unfolding step_slice
step_slice-ends min max step b m p t = elim (Bool-cases (leb 4611686018427387904 step)) [
  | inl e ↦ large_step step_fuel max step min m b (ground arith) t (omega arith)
  | inr e ↦
      small_step step_fuel max step min m (omega arith) p (ground arith) (omega arith) (omega arith)
]
