-- ===== src/Mpmc/Tests.antt =====
-- Runs of the queues of src/benchmarks/MPMC, and their theorems at them.
use benchmark_fun.Common.{
  map, ℕ, zero, suc, ◌+◌, ◌≤◌, ◌≡◌, ◌≢◌, eq_neg, ◌⊎◌, refl, [], ◌∷◌, arith, some, get_elem?,
}
use benchmark_fun.Mpmc.Vyukov.{slot_of, System, Thread, Step, Reach}
use benchmark_fun.Mpmc.Vyukov.Safety.{Delivered, EachOnce, vyukov_delivers, vyukov_no_race}
use benchmark_fun.Mpmc.Bencher.{cpu_of, start_threads}
use benchmark_fun.Mpmc.Vyukov.Alone.{vyukov_push_alone, vyukov_pop_alone}
use benchmark_fun.Mpmc.Vyukov.Quiet.{Returns, vyukov_keeps_all}

-- Two slots. Thread 0 pushes 5 and then 6.
abbrev two_pushed : (s : System) × Reach 2 s
two_pushed = (
  _,
  Reach.step 0
      (Reach.step 0
        (Reach.step 0
          (Reach.step 0
            (Reach.step 0
              (Reach.step 0
                (Reach.step 0
                  (Reach.step 0
                    (Reach.step 0 (Reach.step 0 Reach.here (Step.push_load_write_idx 5 refl))
                      (Step.push_free {val = 5} {pos = 0} refl refl))
                    (Step.push_claim {val = 5} {pos = 0} refl refl))
                  (Step.write {val = 5} {pos = 0} refl))
                (Step.publish {pos = 0} refl))
              (Step.push_load_write_idx 6 refl))
            (Step.push_free {val = 6} {pos = 1} refl refl))
          (Step.push_claim {val = 6} {pos = 1} refl refl))
        (Step.write {val = 6} {pos = 1} refl))
      (Step.publish {pos = 1} refl),
)

-- Thread 1 finds the queue full.
abbrev found_full : (s : System) × Reach 2 s
found_full = (
  _,
  Reach.step 1 (Reach.step 1 two_pushed.1 (Step.push_load_write_idx 7 refl))
      (Step.push_full {val = 7} {pos = 2} refl (omega arith)),
)

-- Thread 2 pops 5, while thread 3 is about to read 6.
abbrev popping : (s : System) × Reach 2 s
popping = (
  _,
  Reach.step 2
      (Reach.step 2
        (Reach.step 3
          (Reach.step 3
            (Reach.step 3
              (Reach.step 2
                (Reach.step 2 (Reach.step 2 found_full.1 (Step.pop_load_read_idx refl))
                  (Step.pop_written {pos = 0} refl refl))
                (Step.pop_claim {pos = 0} refl refl))
              (Step.pop_load_read_idx refl))
            (Step.pop_written {pos = 1} refl refl))
          (Step.pop_claim {pos = 1} refl refl))
        (Step.read {pos = 0} refl))
      (Step.release {pos = 0} {val = 5} refl),
)

popped_five : popping.0.popped ≡ (0, 5) ∷ []
popped_five = refl

vyukov_delivers_example : Delivered (5 ∷ 6 ∷ []) ((0, 5) ∷ []) × EachOnce ((0, 5) ∷ [])
vyukov_delivers_example = vyukov_delivers 0 popping.1 (omega arith)

vyukov_no_race_example : ◌≡◌ {A = ℕ} 3 3
vyukov_no_race_example = vyukov_no_race 0 popping.1 (omega arith) 3 3 1 refl refl

full_and_quiet : (t : ℕ) → found_full.0.threads t ≡ Thread.idle
full_and_quiet zero = refl
full_and_quiet (suc zero) = refl
full_and_quiet (suc (suc t)) =
    let not_first : 0 ≢ suc (suc t) = λ e. absurd (omega (arith, e)) in
    let not_second : 1 ≢ suc (suc t) = λ e. absurd (omega (arith, e)) in
    rw (eq_neg not_first, eq_neg not_second) refl

vyukov_keeps_all_example :
    ((i : ℕ) × (get_elem? {A = ℕ × ℕ} [] i ≡ some (1, 6)))
    ⊎ ((0 ≤ 1) × (found_full.0.sequence (slot_of 2 1) ≡ 2) × (found_full.0.value (slot_of 2 1) ≡ 6))
vyukov_keeps_all_example = vyukov_keeps_all 0 found_full.1 (omega arith) full_and_quiet 1 6 refl

vyukov_pop_alone_example :
    Returns 0 found_full.1 (omega arith) 4 (Thread.pop_loading 0) (5 ∷ 6 ∷ []) ((0, 5) ∷ [])
vyukov_pop_alone_example = vyukov_pop_alone 0 found_full.1 (omega arith) full_and_quiet 4

vyukov_push_alone_example :
    (2 ≤ 0 + 2) × Returns 0 found_full.1 (omega arith) 4 (Thread.push_loading 9 2) (5 ∷ 6 ∷ []) []
vyukov_push_alone_example = vyukov_push_alone 0 found_full.1 (omega arith) full_and_quiet 4 9

-- The threads of two pairs get cores two apart.
two_pairs : map cpu_of (start_threads 2) ≡ 2 ∷ 4 ∷ 6 ∷ 8 ∷ []
two_pairs = refl
