-- ===== src/Mpmc/AtomicTests.antt =====
-- Runs of the queue of src/benchmarks/MPMC/atomics.hpp, and its theorems at one of them.
use benchmark_fun.Common.{
  ℕ, zero, suc, ◌≢◌, eq_neg, ◌+◌, ◌<◌, ◌≡◌, refl, List, [], ◌∷◌, take, arith,
}
use benchmark_fun.Mpmc.Atomic.{Thread, System, Step, Reach}
use benchmark_fun.Mpmc.Atomic.Reachable.{Prompt}
use benchmark_fun.Mpmc.Atomic.Alone.{Returns, atomic_alone}
use benchmark_fun.Mpmc.Atomic.Safety.{atomic_fifo, atomic_no_race}

-- Three items. Thread 0 pushes 5, thread 1 is about to write 6 and thread 2 pops 5.
abbrev passing : (s : System) × Reach 3 s
passing = (
  _,
  Reach.step 2
      (Reach.step 2
        (Reach.step 2
          (Reach.step 2
            (Reach.step 2
              (Reach.step 2
                (Reach.step 1
                  (Reach.step 1
                    (Reach.step 1
                      (Reach.step 1
                        (Reach.step 0
                          (Reach.step 0
                            (Reach.step 0
                              (Reach.step 0
                                (Reach.step 0 (Reach.step 0 Reach.here (Step.push_call 5 refl))
                                  (Step.push_load {val = 5} refl))
                                (Step.push_room {val = 5} {reserved = 0} {ticket = 0} refl
                                  (λ e. absurd (omega (arith, e)))))
                              (Step.push_claim {val = 5} {reserved = 0} {ticket = 0} refl refl))
                            (Step.write {val = 5} {reserved = 0} {ticket = 0} refl))
                          (Step.publish {reserved = 0} {ticket = 0} refl refl))
                        (Step.push_call 6 refl))
                      (Step.push_load {val = 6} refl))
                    (Step.push_room {val = 6} {reserved = 1} {ticket = 1} refl
                      (λ e. absurd (omega (arith, e)))))
                  (Step.push_claim {val = 6} {reserved = 1} {ticket = 1} refl refl))
                (Step.pop_call refl))
              (Step.pop_load refl))
            (Step.pop_some {reserved = 0} {ticket = 0} refl (λ e. absurd (omega (arith, e)))))
          (Step.pop_claim {reserved = 0} {ticket = 0} refl refl))
        (Step.read {reserved = 0} {ticket = 0} refl))
      (Step.release {val = 5} {reserved = 0} {ticket = 0} refl refl),
)

passing-Prompt : Prompt 3 passing.1
passing-Prompt = (
  (
    (
      (
        (
          (
            (
              (
                (
                  (
                    (
                      (
                        ((((omega arith, omega arith), omega arith), omega arith), omega arith),
                        omega arith,
                      ),
                      omega arith,
                    ),
                    omega arith,
                  ),
                  omega arith,
                ),
                omega arith,
              ),
              omega arith,
            ),
            omega arith,
          ),
          omega arith,
        ),
        omega arith,
      ),
      omega arith,
    ),
    omega arith,
  ),
  omega arith,
)

atomic_fifo_example : (◌≡◌ {A = List ℕ} (5 ∷ []) (take 1 (5 ∷ 6 ∷ []))) × (2 < 1 + 3)
atomic_fifo_example = atomic_fifo 3 (omega arith) (omega arith) passing.1 passing-Prompt

atomic_no_race_example : ◌≡◌ {A = ℕ} 1 1
atomic_no_race_example =
    atomic_no_race 3 (omega arith) (omega arith) passing.1 passing-Prompt 1 1 1 refl refl

-- Two items. Thread 0 has loaded the reserved index and found room for 7; thread 1 pushes 5, pops
-- it and pushes 6, which leads that index back; the exchange of thread 0 succeeds in a full queue.
abbrev stale : (s : System) × Reach 2 s
stale = (
  _,
  Reach.step 0
      (Reach.step 0
        (Reach.step 0
          (Reach.step 1
            (Reach.step 1
              (Reach.step 1
                (Reach.step 1
                  (Reach.step 1
                    (Reach.step 1
                      (Reach.step 1
                        (Reach.step 1
                          (Reach.step 1
                            (Reach.step 1
                              (Reach.step 1
                                (Reach.step 1
                                  (Reach.step 1
                                    (Reach.step 1
                                      (Reach.step 1
                                        (Reach.step 1
                                          (Reach.step 1
                                            (Reach.step 1
                                              (Reach.step 0
                                                (Reach.step 0
                                                  (Reach.step 0 Reach.here (Step.push_call 7 refl))
                                                  (Step.push_load {val = 7} refl))
                                                (Step.push_room {val = 7} {reserved = 0}
                                                  {ticket = 0} refl
                                                  (λ e. absurd (omega (arith, e)))))
                                              (Step.push_call 5 refl))
                                            (Step.push_load {val = 5} refl))
                                          (Step.push_room {val = 5} {reserved = 0} {ticket = 0} refl
                                            (λ e. absurd (omega (arith, e)))))
                                        (Step.push_claim {val = 5} {reserved = 0} {ticket = 0} refl
                                          refl))
                                      (Step.write {val = 5} {reserved = 0} {ticket = 0} refl))
                                    (Step.publish {reserved = 0} {ticket = 0} refl refl))
                                  (Step.pop_call refl))
                                (Step.pop_load refl))
                              (Step.pop_some {reserved = 0} {ticket = 0} refl
                                (λ e. absurd (omega (arith, e)))))
                            (Step.pop_claim {reserved = 0} {ticket = 0} refl refl))
                          (Step.read {reserved = 0} {ticket = 0} refl))
                        (Step.release {val = 5} {reserved = 0} {ticket = 0} refl refl))
                      (Step.push_call 6 refl))
                    (Step.push_load {val = 6} refl))
                  (Step.push_room {val = 6} {reserved = 1} {ticket = 1} refl
                    (λ e. absurd (omega (arith, e)))))
                (Step.push_claim {val = 6} {reserved = 1} {ticket = 1} refl refl))
              (Step.write {val = 6} {reserved = 1} {ticket = 1} refl))
            (Step.publish {reserved = 1} {ticket = 1} refl refl))
          (Step.push_claim {val = 7} {reserved = 0} {ticket = 0} refl refl))
        (Step.write {val = 7} {reserved = 0} {ticket = 0} refl))
      (Step.publish {reserved = 0} {ticket = 0} refl refl),
)

-- The indexes agree, so the queue is empty for a pop, with 6 and 7 in it.
stale_loses :
    (stale.0.pushed ≡ 5 ∷ 6 ∷ 7 ∷ [])
    × (stale.0.popped ≡ 5 ∷ [])
    × (stale.0.read_idx ≡ stale.0.write_idx)
stale_loses = (refl, refl, refl)

-- Three items. Thread 0 has pushed 5.
abbrev one_pushed : (s : System) × Reach 3 s
one_pushed = (
  _,
  Reach.step 0
      (Reach.step 0
        (Reach.step 0
          (Reach.step 0
            (Reach.step 0 (Reach.step 0 Reach.here (Step.push_call 5 refl))
              (Step.push_load {val = 5} refl))
            (Step.push_room {val = 5} {reserved = 0} {ticket = 0} refl
              (λ e. absurd (omega (arith, e)))))
          (Step.push_claim {val = 5} {reserved = 0} {ticket = 0} refl refl))
        (Step.write {val = 5} {reserved = 0} {ticket = 0} refl))
      (Step.publish {reserved = 0} {ticket = 0} refl refl),
)

one_pushed-Prompt : Prompt 3 one_pushed.1
one_pushed-Prompt = (
  (((((omega arith, omega arith), omega arith), omega arith), omega arith), omega arith),
  omega arith,
)

one_pushed_quiet : (t : ℕ) → one_pushed.0.threads t ≡ Thread.idle
one_pushed_quiet zero = refl
one_pushed_quiet (suc t) =
    let not_first : 0 ≢ suc t = λ e. absurd (omega (arith, e)) in rw (eq_neg not_first) refl

-- Thread 4 pushes 7, or pops the 5.
atomic_alone_example :
    Returns 3
      (omega arith)
      (omega arith)
      one_pushed.1
      one_pushed-Prompt
      one_pushed_quiet
      4
      (Thread.push_starting 7)
      (5 ∷ 7 ∷ [])
      []
    × Returns 3
        (omega arith)
        (omega arith)
        one_pushed.1
        one_pushed-Prompt
        one_pushed_quiet
        4
        Thread.pop_starting
        (5 ∷ [])
        (5 ∷ [])
atomic_alone_example =
    atomic_alone 3 (omega arith) (omega arith) one_pushed.1 one_pushed-Prompt one_pushed_quiet 4 7
