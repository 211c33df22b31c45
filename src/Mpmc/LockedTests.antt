-- ===== src/Mpmc/LockedTests.antt =====
-- A run of the queue of src/benchmarks/MPMC/locked.hpp.
use benchmark_fun.Common.{ℕ, ◌≡◌, ◌≢◌, refl, List, [], ◌∷◌, ◌++◌}
use benchmark_fun.Mpmc.Locked.{System, Thread, Step, Reach}
use benchmark_fun.Mpmc.Locked.Safety.{locked_fifo}
use benchmark_fun.Mpmc.Locked.Inv.{Inside}

-- Thread 0 pushes 5 and 6; thread 2 waits for the lock while thread 1 is about to drop 5.
abbrev dropping_five : (s : System) × Reach s
dropping_five = (
  _,
  Reach.step 1
      (Reach.step 2
        (Reach.step 1
          (Reach.step 1
            (Reach.step 1
              (Reach.step 0
                (Reach.step 0
                  (Reach.step 0
                    (Reach.step 0
                      (Reach.step 0 (Reach.step 0 Reach.here (Step.push_call 5 refl))
                        (Step.push_lock {val = 5} refl refl))
                      (Step.push {val = 5} refl))
                    (Step.push_call 6 refl))
                  (Step.push_lock {val = 6} refl refl))
                (Step.push {val = 6} refl))
              (Step.pop_call refl))
            (Step.pop_lock refl refl))
          (Step.pop_some {val = 5} {rest = 6 ∷ []} refl refl))
        (Step.push_call 7 refl))
      (Step.pop_front refl),
)

-- Thread 1 drops it.
abbrev popped_five : (s : System) × Reach s
popped_five = (_, Reach.step 1 dropping_five.1 (Step.pop_drop {val = 5} {rest = 6 ∷ []} refl refl))

locked_fifo_example :
    (◌≡◌ {A = List ℕ} ((5 ∷ []) ++ 6 ∷ []) (5 ∷ 6 ∷ []))
    × ((t u : ℕ) → Inside (popped_five.0.threads t) → Inside (popped_five.0.threads u) → t ≡ u)
    × ((t : ℕ) → popped_five.0.threads t ≢ Thread.undefined)
    × ((t : ℕ)
        → popped_five.0.threads t ≢ Thread.idle
        → (u : ℕ) × (popped_five.0.threads u ≢ Thread.idle)
          × ((s' : System) × Step popped_five.0 u s'))
locked_fifo_example = locked_fifo popped_five.1
