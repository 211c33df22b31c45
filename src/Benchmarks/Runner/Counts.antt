-- ===== src/Benchmarks/Runner/Counts.antt =====
-- How many times a collection of src/benchmarks/bench_runner.hpp holds under each name.
use benchmark_fun.Common.{
  ℕ, zero, suc, ◌+◌, ◌≤◌, ◌≡◌, refl, sym, ap, ◌∙◌, Bool, true, false, Bool-cases, if◌then◌else◌,
  List, [], ◌∷◌, ◌++◌, length, length-append, arith, ◌↔◌, inl, inr,
}
use mathlib.Core.List.{append_assoc, append-nil}
use benchmark_fun.Benchmarks.Collection.{Benchmark, add_time}

module _ {Name : Type 0} (same : Name → Name → Bool) where
  abbrev pub counts : List (Benchmark same) → List (Name × ℕ)
  counts [] = []
  counts (bench ∷ benchmarks) = (bench.name, length bench.clock_times) ∷ counts benchmarks

  -- One more time under a name.
  abbrev pub bump : List (Name × ℕ) → Name → List (Name × ℕ)
  bump [] name = (name, 1) ∷ []
  bump ((other, n) ∷ rest) name =
      if same other name then (other, suc n) ∷ rest else (other, n) ∷ bump rest name

  abbrev pub bump_all : List (Name × ℕ) → List Name → List (Name × ℕ)
  bump_all start [] = start
  bump_all start (name ∷ names) = bump_all (bump start name) names

  pub counts-add_time :
      (benchmarks : List (Benchmark same)) (name : Name) (time_taken : ℕ)
      → counts (add_time same benchmarks name time_taken) ≡ bump (counts benchmarks) name
  unfolding add_time
  counts-add_time [] name time_taken = refl
  counts-add_time (bench ∷ benchmarks) name time_taken = elim (Bool-cases (same bench.name name)) [
    | inl found ↦
        let more : length (bench.clock_times ++ time_taken ∷ []) ≡ suc (length bench.clock_times) =
          omega (arith, length-append bench.clock_times (time_taken ∷ [])) in
        rw (found, more) refl
    | inr missed ↦ rw missed (
        ap (λ rest. (bench.name, length bench.clock_times) ∷ rest)
          (counts-add_time benchmarks name time_taken))
  ]

  -- Every name with one number.
  abbrev pub each : ℕ → List Name → List (Name × ℕ)
  each n [] = []
  each n (name ∷ names) = (name, n) ∷ each n names

  -- A name that differs from some others, and names that differ from those before them.
  abbrev pub Off : List Name → Name → Type 0
  Off [] name = 0 ≤ 0
  Off (other ∷ others) name = (same other name ≡ false) × Off others name

  abbrev pub Distinct : List Name → List Name → Type 0
  Distinct before [] = 0 ≤ 0
  Distinct before (name ∷ names) = Off before name × Distinct (before ++ name ∷ []) names

  -- The times are recorded a round of the names at a time.
  abbrev pub bump_rounds : ℕ → List (Name × ℕ) → List Name → List (Name × ℕ)
  bump_rounds zero start names = start
  bump_rounds (suc n) start names = bump_rounds n (bump_all start names) names

  each-append : (n : ℕ) (xs ys : List Name) → each n (xs ++ ys) ≡ each n xs ++ each n ys
  each-append n [] ys = refl
  each-append n (x ∷ xs) ys = ap (λ t. (x, n) ∷ t) (each-append n xs ys)

  bump_apart :
      (n : ℕ) (before : List Name) (rest : List (Name × ℕ)) (name : Name)
      → Off before name
      → bump (each n before ++ rest) name ≡ each n before ++ bump rest name
  bump_apart n [] rest name off = refl
  bump_apart n (other ∷ before) rest name off =
      rw (off.0) (ap (λ t. (other, n) ∷ t) (bump_apart n before rest name off.1))

  first_round :
      (before names : List Name)
      → Distinct before names
      → bump_all (each 1 before) names ≡ each 1 (before ++ names)
  first_round before [] distinct = ap (each 1) (sym (append-nil before))
  first_round before (name ∷ names) (off, distinct) =
      let one : bump (each 1 before) name ≡ each 1 (before ++ name ∷ []) =
        ap (λ t. bump t name) (sym (append-nil (each 1 before)))
        ∙ bump_apart 1 before [] name off
        ∙ sym (each-append 1 before (name ∷ [])) in
      ap (λ t. bump_all t names) one
      ∙ first_round (before ++ name ∷ []) names distinct
      ∙ ap (each 1) (append_assoc before (name ∷ []) names)

  module _ (same_iff : (x y : Name) → (same x y ≡ true) ↔ (x ≡ y)) where
    next_round :
        (n : ℕ) (before names : List Name)
        → Distinct before names
        → bump_all (each (suc n) before ++ each n names) names ≡ each (suc n) (before ++ names)
    next_round n before [] distinct =
        append-nil (each (suc n) before) ∙ ap (each (suc n)) (sym (append-nil before))
    next_round n before (name ∷ names) (off, distinct) =
        let self : same name name ≡ true = (same_iff name name).1 refl in
        let found : bump (each n (name ∷ names)) name ≡ (name, suc n) ∷ each n names =
          rw self refl in
        let one : bump (each (suc n) before ++ each n (name ∷ names)) name
            ≡ each (suc n) (before ++ name ∷ []) ++ each n names =
          bump_apart (suc n) before (each n (name ∷ names)) name off
          ∙ ap (λ t. each (suc n) before ++ t) found
          ∙ sym (append_assoc (each (suc n) before) ((name, suc n) ∷ []) (each n names))
          ∙ ap (λ t. t ++ each n names) (sym (each-append (suc n) before (name ∷ []))) in
        ap (λ t. bump_all t names) one
        ∙ next_round n (before ++ name ∷ []) names distinct
        ∙ ap (each (suc n)) (append_assoc before (name ∷ []) names)

    further_rounds :
        (n m : ℕ) (names : List Name)
        → Distinct [] names
        → bump_rounds n (each m names) names ≡ each (n + m) names
    further_rounds zero m names distinct = ap (λ k. each k names) (omega arith)
    further_rounds (suc n) m names distinct =
        ap (λ t. bump_rounds n t names) (next_round m [] names distinct)
        ∙ further_rounds n (suc m) names distinct
        ∙ ap (λ k. each k names) (omega arith)

    -- After some rounds each name has as many times.
    pub bump_rounds_lem :
        (n : ℕ) (names : List Name)
        → Distinct [] names
        → bump_rounds (suc n) [] names ≡ each (suc n) names
    bump_rounds_lem n names distinct =
        ap (λ t. bump_rounds n t names) (first_round [] names distinct)
        ∙ further_rounds n 1 names distinct
        ∙ ap (λ k. each k names) (omega arith)
