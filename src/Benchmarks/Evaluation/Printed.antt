-- ===== src/Benchmarks/Evaluation/Printed.antt =====
-- What `BenchmarkCollection::print` of src/benchmarks/bench_runner.hpp evaluates, by the numbers of
-- times.
use benchmark_fun.Common.{
  ℕ, ◌≤◌, ◌<◌, ◌≡◌, refl, ap, ap₂, ◌∙◌, Bool, List, [], ◌∷◌, map, length, Option, none, some,
  ltb_pos, ltb_neg, arith,
}
use mathlib.Core.Option.{some-injective}
use benchmark_fun.Benchmarks.Collection.{Benchmark}
use benchmark_fun.Benchmarks.Runner.Counts.{counts}
use benchmark_fun.Benchmarks.Evaluation.{
  Doubles, Checked, Evaluation, new_evaluation, create_evaluation, printing, print,
}

module _ {Name : Type 0} where
  abbrev pub Enough : List (Name × ℕ) → Type 0
  Enough [] = 0 ≤ 0
  Enough ((name, n) ∷ rest) = (30 ≤ n) × Enough rest

  -- The number of times under the first name.
  abbrev pub first_count : List (Name × ℕ) → ℕ
  first_count [] = 30
  first_count ((name, n) ∷ rest) = n

module _ (d : Doubles) (sort : List ℕ → List ℕ) {Name : Type 0} (same : Name → Name → Bool) where
  abbrev pub summary : Evaluation d Name → Name × ℕ
  summary evaluation = (evaluation.name, evaluation.num_tests)

  summary_of : Checked (Evaluation d Name) → Option (Name × ℕ)
  summary_of (Checked.made evaluation) = some (summary evaluation)
  summary_of (Checked.too_few_tests tests) = none

  made_of :
      (c : Checked (Evaluation d Name)) (x : Name × ℕ)
      → summary_of c ≡ some x
      → (evaluation : Evaluation d Name) × (c ≡ Checked.made evaluation) × (summary evaluation ≡ x)
  unfolding summary_of
  made_of (Checked.made evaluation) x e = (evaluation, refl, some-injective _ _ e)
  made_of (Checked.too_few_tests tests) x e = cc e

  create_enough :
      (bench : Benchmark same)
      → 30 ≤ length bench.clock_times
      → summary_of (create_evaluation d sort same bench)
        ≡ some (bench.name, length bench.clock_times)
  unfolding summary_of create_evaluation new_evaluation
  create_enough bench enough = rw (ltb_neg enough) refl

  create_few :
      (bench : Benchmark same)
      → length bench.clock_times < 30
      → create_evaluation d sort same bench ≡ Checked.too_few_tests (length bench.clock_times)
  unfolding create_evaluation
  create_few bench few = rw (ltb_pos few) refl

  pub print_all :
      (benchmarks : List (Benchmark same))
      → Enough (counts same benchmarks)
      → (map summary ((print d sort same benchmarks).0) ≡ counts same benchmarks)
        × ((print d sort same benchmarks).1 ≡ none)
  unfolding print
  print_all [] enough = (refl, refl)
  print_all (bench ∷ benchmarks) (here, rest) =
      let r = print_all benchmarks rest in
      let made = made_of (create_evaluation d sort same bench) _ (create_enough bench here) in
      (
        ap (λ c. map summary ((printing d sort same c (print d sort same benchmarks)).0)) made.1
            ∙ ap₂ ◌∷◌ made.2 r.0,
        ap (λ c. (printing d sort same c (print d sort same benchmarks)).1) made.1 ∙ r.1,
      )

  pub print_few :
      (benchmarks : List (Benchmark same))
      → first_count (counts same benchmarks) < 30
      → print d sort same benchmarks ≡ ([], some (first_count (counts same benchmarks)))
  unfolding print
  print_few [] few = absurd (omega (arith, few))
  print_few (bench ∷ benchmarks) few =
      ap (λ c. printing d sort same c (print d sort same benchmarks)) (create_few bench few)
