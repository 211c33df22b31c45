-- ===== src/Benchmarks/Collection.antt =====
-- `BenchmarkCollection::addTime` of src/benchmarks/bench_runner.hpp: times grouped by benchmark
-- name, where names are any type with a test of equality.
use benchmark_fun.Common.{
  ℕ, ◌≡◌, ◌↔◌, inl, inr, Bool, true, Bool-cases, if◌then◌else◌, refl, sym, ap, ◌∙◌, List, [], ◌∷◌,
  ◌++◌,
}
use mathlib.Core.Bool.{true≢false}
use mathlib.Core.List.{append_assoc, append-nil}

module _ {Name : Type 0} (same : Name → Name → Bool) where
  pub record Benchmark : Type 0 where
    pub name : Name
    pub clock_times : List ℕ

  unfoldable pub add_time : List Benchmark → Name → ℕ → List Benchmark
  add_time [] name time_taken = record { name = name; clock_times = time_taken ∷ [] } ∷ []
  add_time (bench ∷ benchmarks) name time_taken =
      let rest = add_time benchmarks name time_taken in
      if same bench.name name
      then record bench { clock_times = bench.clock_times ++ time_taken ∷ [] } ∷ benchmarks
      else bench ∷ rest

  abbrev pub times_of : Name → List Benchmark → List ℕ
  times_of name [] = []
  times_of name (bench ∷ benchmarks) =
      if same bench.name name then bench.clock_times else times_of name benchmarks

  -- What is recorded: the runs in order, and those of one name.
  pub add_all : List (Name × ℕ) → List Benchmark → List Benchmark
  unfolding add_time
  add_all [] benchmarks = benchmarks
  add_all ((name, time_taken) ∷ runs) benchmarks =
      add_all runs (add_time benchmarks name time_taken)

  abbrev pub only : Name → List (Name × ℕ) → List ℕ
  only name [] = []
  only name ((other, time_taken) ∷ runs) =
      if same other name then time_taken ∷ only name runs else only name runs

module _ {Name : Type 0} (same : Name → Name → Bool)
    (same_iff : (x y : Name) → (same x y ≡ true) ↔ (x ≡ y)) where
  add_time_lem :
      (name other : Name) (time_taken : ℕ) (benchmarks : List (Benchmark same))
      → times_of same name (add_time same benchmarks other time_taken)
        ≡ times_of same name benchmarks ++ only same name ((other, time_taken) ∷ [])
  unfolding add_time
  add_time_lem name other time_taken [] = elim (Bool-cases (same other name)) [
    | inl found ↦ rw found refl
    | inr missed ↦ rw missed refl
  ]
  add_time_lem name other time_taken (bench ∷ benchmarks) =
      elim (Bool-cases (same bench.name other)) [
        | inl found ↦
            let e = (same_iff bench.name other).0 found in
            let alike : same other name ≡ same bench.name name = ap (λ n. same n name) (sym e) in
            elim (Bool-cases (same bench.name name)) [
              | inl here ↦ rw (found, alike, here) refl
              | inr elsewhere ↦
                  rw (found, alike, elsewhere) (sym (append-nil (times_of same name benchmarks)))
            ]
        | inr missed ↦ elim (Bool-cases (same bench.name name)) [
          | inl here ↦ elim (Bool-cases (same other name)) [
            | inl also ↦
                let e : bench.name ≡ other =
                  (same_iff bench.name name).0 here ∙ sym ((same_iff other name).0 also) in
                absurd (true≢false (sym ((same_iff bench.name other).1 e) ∙ missed))
            | inr apart ↦ rw (missed, here, apart) (sym (append-nil bench.clock_times))
          ]
          | inr elsewhere ↦ rw (missed, elsewhere) (add_time_lem name other time_taken benchmarks)
        ]
      ]

  only_first :
      (name other : Name) (time_taken : ℕ) (runs : List (Name × ℕ))
      → only same name ((other, time_taken) ∷ []) ++ only same name runs
        ≡ only same name ((other, time_taken) ∷ runs)
  only_first name other time_taken runs = elim (Bool-cases (same other name)) [
    | inl found ↦ rw found refl
    | inr missed ↦ rw missed refl
  ]

  -- Whatever runs are recorded, in whatever mixture of names, the times kept under a name are those
  -- that were there and then those recorded under it, in their order.
  pub add_all_lem :
      (name : Name) (runs : List (Name × ℕ)) (benchmarks : List (Benchmark same))
      → times_of same name (add_all same runs benchmarks)
        ≡ times_of same name benchmarks ++ only same name runs
  unfolding add_all
  add_all_lem name [] benchmarks = sym (append-nil (times_of same name benchmarks))
  add_all_lem name ((other, time_taken) ∷ runs) benchmarks =
      add_all_lem name runs (add_time same benchmarks other time_taken)
      ∙ ap (λ t. t ++ only same name runs) (add_time_lem name other time_taken benchmarks)
      ∙ append_assoc (times_of same name benchmarks) (only same name ((other, time_taken) ∷ []))
          (only same name runs)
      ∙ ap (λ t. times_of same name benchmarks ++ t) (only_first name other time_taken runs)
