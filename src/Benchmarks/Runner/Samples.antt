-- ===== src/Benchmarks/Runner/Samples.antt =====
-- What `executeBench` of src/benchmarks/bench_runner.hpp gives, from the calls of the timer to the
-- evaluations.
use benchmark_fun.Common.{
  ℕ, suc, ◌≤◌, ◌<◌, ◌≡◌, ◌↔◌, inl, sym, ap, subst, ◌∙◌, Bool, true, false, List, [], ◌∷◌, map,
  length, Option, none, some, arith,
}
use benchmark_fun.Benchmarks.Timer.{Timer}
use benchmark_fun.Benchmarks.Collection.{Benchmark}
use benchmark_fun.Benchmarks.Evaluation.{Doubles, Evaluation, print}
use benchmark_fun.Benchmarks.Evaluation.Printed.{Enough, first_count, summary, print_all, print_few}
use benchmark_fun.Benchmarks.Runner.{Benchable, unless_thrown, execute_bench}
use benchmark_fun.Benchmarks.Runner.Counts.{counts, each, Distinct, bump_rounds_lem}
use benchmark_fun.Benchmarks.Runner.Measured.{
  rounds, names, Measured, Forward, Forward-rounds, add_times, State, all_lem, take_samples-rounds,
  sizes-rounds,
}

module _ {Name World : Type 0} (same : Name → Name → Bool) (read_clock : World → ℕ × World)
    (iterations : ℕ) where
  each-Enough : (n : ℕ) (ns : List Name) → 30 ≤ n → Enough (each same n ns)
  each-Enough n [] h = omega arith
  each-Enough n (name ∷ ns) h = (h, each-Enough n ns h)

  -- What a run prints and throws: with 30 samples or more an evaluation of that many tests under
  -- each name, in order; with fewer nothing, and an exception that says how many there are.
  abbrev pub Reports :
      (d : Doubles) → ℕ → List (Benchable Name World) → List (Evaluation d Name) × Option ℕ → Type 0
  Reports d num_samples benches report =
      (30 ≤ num_samples
        → (map (summary d (λ x. x) same) report.0
            ≡ each same num_samples (names same read_clock iterations benches))
          × (report.1 ≡ none))
      × (num_samples < 30 → 0 < length benches → report ≡ ([], some num_samples))

  few_lem :
      (d : Doubles) (sort : List ℕ → List ℕ) (more : ℕ) (benches : List (Benchable Name World))
      (benchmarks : List (Benchmark same))
      → counts same benchmarks ≡ each same (suc more) (names same read_clock iterations benches)
      → suc more < 30
      → 0 < length benches
      → print d sort same benchmarks ≡ ([], some (suc more))
  few_lem d sort more [] benchmarks even few some_bench = absurd (omega (arith, some_bench))
  few_lem d sort more (benchable ∷ benches) benchmarks even few some_bench =
      let first : first_count (counts same benchmarks) ≡ suc more = ap first_count even in
      print_few d sort same benchmarks (omega (arith, first, few)) ∙ ap (λ n. ([], some n)) first

  -- The samples, one round of all benchmarks after the other, and a report that is what `print`
  -- makes of their times, each added under the name of its benchmark.
  abbrev pub Times :
      (d : Doubles)
      → (List ℕ → List ℕ)
      → ℕ
      → List (Benchable Name World)
      → World
      → List (Evaluation d Name) × Option ℕ
      → Type 0
  Times d sort num_samples benches world report =
      (times : List (Name × ℕ)) × (last : World) × Measured same read_clock iterations
        (rounds num_samples benches) world times last
      × (report ≡ print d sort same (add_times same read_clock iterations [] times))

  -- With at least one sample, an idle timer, benchmarks with names that differ, whose runs and
  -- resets return, and a clock that a run does not set back, every benchmark is run and reset for
  -- every sample, in order, and no call of the timer throws; what is printed is of the times that
  -- the clock moves on over the runs, each under the name of its benchmark. With 30 samples or more
  -- each benchmark is evaluated, in order and over as many tests as samples, and nothing throws;
  -- with fewer and at least one benchmark, nothing is printed and the exception has the number of
  -- samples. The timer is idle again.
  pub execute_bench_lem :
      (same_iff : (x y : Name) → (same x y ≡ true) ↔ (x ≡ y))
      → (d : Doubles) (sort : List ℕ → List ℕ) (more : ℕ) (benches : List (Benchable Name World))
        (world : World) (timer : Timer)
      → Forward same read_clock iterations benches
      → timer.is_timing ≡ false
      → Distinct same [] (names same read_clock iterations benches)
      → (report : List (Evaluation d Name) × Option ℕ) × (timer' : Timer) × (execute_bench same
            read_clock iterations d sort
            (suc more)
            benches
            world
            timer
          ≡ inl (report, timer'))
        × (timer'.is_timing ≡ false)
        × Times d sort (suc more) benches world report
        × Reports d (suc more) benches report
  execute_bench_lem same_iff d sort more benches world timer forward idle distinct =
      let n = suc more in
      let none_yet : State same read_clock iterations = record {
        world = world;
        timer = timer;
        benchmarks = [];
      } in
      let (r, times, ran, idle', measured, added, sizes) =
        all_lem same read_clock iterations (rounds n benches) none_yet
          (Forward-rounds same read_clock iterations n benches forward) idle in
      let even : counts same r.benchmarks ≡ each same n (names same read_clock iterations benches) =
        sizes
        ∙ sizes-rounds same read_clock iterations n [] benches
        ∙ bump_rounds_lem same same_iff more (names same read_clock iterations benches) distinct in
      (
        print d sort same r.benchmarks,
        r.timer,
        ap (λ x. unless_thrown x (λ y. inl (print d sort same y.benchmarks, y.timer)))
            (take_samples-rounds same read_clock iterations n benches none_yet ∙ ran),
        idle',
        (times, r.world, measured, ap (print d sort same) added),
        (
          λ h.
              let printed = print_all d sort same r.benchmarks (
                subst Enough (sym even)
                  (each-Enough n (names same read_clock iterations benches) h)) in
              (printed.0 ∙ even, printed.1),
          λ h some_bench. few_lem d sort more benches r.benchmarks even h some_bench,
        ),
      )
