-- ===== src/Benchmarks/Timer.antt =====
-- `Timer` of src/timer.hpp; the clock's readings are arguments.
use benchmark_fun.Common.{ℕ, ◌-◌, ◌≤◌, ◌≡◌, refl, Bool, true, false, ltb, if◌then◌else◌, ltb_neg}

pub record Timer : Type 0 where
  pub is_timing : Bool
  pub start_time : ℕ

pub data Outcome : Type 0 where
  started : Outcome
  lasted : ℕ → Outcome
  already_going not_started overflowed : Outcome

unfoldable pub start_timer : ℕ → Timer → Outcome × Timer
start_timer now t =
    if t.is_timing
    then (Outcome.already_going, t)
    else (Outcome.started, record { is_timing = true; start_time = now })

unfoldable pub end_timer : ℕ → Timer → Outcome × Timer
end_timer end_time t =
    if t.is_timing
    then (let t' = record t { is_timing = false } in
        if ltb end_time t.start_time
        then (Outcome.overflowed, t')
        else (Outcome.lasted (end_time - t.start_time), t'))
    else (Outcome.not_started, t)

-- A timer that is idle starts, refuses a second start without losing the first, gives the cycles
-- between the two readings when it ends, the second not being before the first, and then refuses to
-- end again.
timer_measures :
    (t : Timer) (t0 t1 : ℕ)
    → t.is_timing ≡ false
    → t0 ≤ t1
    → (t' : Timer) × (t'' : Timer) × (start_timer t0 t ≡ (Outcome.started, t'))
      × (start_timer t1 t' ≡ (Outcome.already_going, t'))
      × (end_timer t1 t' ≡ (Outcome.lasted (t1 - t0), t''))
      × (end_timer t1 t'' ≡ (Outcome.not_started, t''))
unfolding start_timer end_timer
timer_measures t t0 t1 idle h = (
  record { is_timing = true; start_time = t0 },
  record { is_timing = false; start_time = t0 },
  rw idle refl,
  refl,
  rw (ltb_neg h) refl,
  refl,
)
