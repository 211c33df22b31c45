-- ===== src/Benchmarks/Prediction.antt =====
-- The two loops of src/benchmarks/branch_prediction, over numbers as drawn and over the same numbers
-- sorted. The numbers drawn are arguments, and `std::sort` is a parameter.
use benchmark_fun.Common.{
  ℕ, zero, suc, ◌+◌, ◌*◌, ◌/◌, ◌%◌, ◌^◌, ◌≡◌, refl, sym, ap, ◌∙◌, if◌then◌else◌, ltb, List, [], ◌∷◌,
  arith,
}
use native.Mathlib.Nat.{mod-add-mod}
use mathlib.Core.List.{Permᴰ}
use benchmark_fun.Benchmarks.Evaluation.Order.{Sorts, Perm-eq}

abbrev distribution_max : ℕ
distribution_max = 100000

abbrev distribution_min : ℕ
distribution_min = 0

abbrev pub size_needed_for_success : ℕ
size_needed_for_success = (distribution_max + distribution_min) / 2

abbrev pub count_successes : List ℕ → ℕ → ℕ
count_successes [] successes = successes
count_successes (number ∷ numbers) successes =
    count_successes numbers
      (if ltb size_needed_for_success number then (successes + 1) % 2 ^ 64 else successes)

abbrev pub run_benchmark : ℕ → List ℕ → ℕ → ℕ
run_benchmark zero numbers successes = successes
run_benchmark (suc iterations) numbers successes =
    run_benchmark iterations numbers (count_successes numbers successes)

-- `resetBenchmark` of both versions
abbrev pub reset_unsorted : List ℕ → List ℕ
reset_unsorted drawn = drawn

abbrev pub reset_sorted : (List ℕ → List ℕ) → List ℕ → List ℕ
reset_sorted sort drawn = sort (reset_unsorted drawn)

-- How many of the numbers are large enough.
abbrev pub large : List ℕ → ℕ
large [] = 0
large (number ∷ numbers) =
    let rest = large numbers in if ltb size_needed_for_success number then suc rest else rest

count_lem :
    (numbers : List ℕ) (successes : ℕ)
    → count_successes numbers successes % 2 ^ 64 ≡ (successes + large numbers) % 2 ^ 64
count_lem [] successes = ap (λ x. x % 2 ^ 64) (omega arith)
count_lem (number ∷ numbers) successes =
    let counted = count_lem numbers ((successes + 1) % 2 ^ 64) in
    let skipped = count_lem numbers successes in ground (arith, counted, skipped)

run_lem :
    (iterations : ℕ) (numbers : List ℕ) (successes : ℕ)
    → run_benchmark iterations numbers successes % 2 ^ 64
      ≡ (successes + iterations * large numbers) % 2 ^ 64
run_lem zero numbers successes = ap (λ x. x % 2 ^ 64) (omega arith)
run_lem (suc iterations) numbers successes =
    let once = count_lem numbers successes in
    let more : suc iterations * large numbers ≡ large numbers + iterations * large numbers =
      omega arith in
    run_lem iterations numbers (count_successes numbers successes)
    ∙ sym (mod-add-mod (count_successes numbers successes) (2 ^ 64) (iterations * large numbers))
    ∙ ap (λ x. (x + iterations * large numbers) % 2 ^ 64) once
    ∙ mod-add-mod (successes + large numbers) (2 ^ 64) (iterations * large numbers)
    ∙ ap (λ x. x % 2 ^ 64) (omega (arith, more))

large_of_steps : {xs ys : List ℕ} → Permᴰ xs ys → large xs ≡ large ys
large_of_steps Permᴰ.nil = refl
large_of_steps (Permᴰ.cons e d) = let rest = large_of_steps d in ground (arith, e, rest)
large_of_steps (Permᴰ.swap e e') = ground (arith, e, e')
large_of_steps (Permᴰ.trans d d') = large_of_steps d ∙ large_of_steps d'

-- The sorted version counts as many successes as the unsorted one on the same numbers, however often
-- both run: as many as the numbers above the bound, in each round, as a word.
predictions_agree :
    (sort : List ℕ → List ℕ)
    → Sorts sort
    → (iterations : ℕ) (drawn : List ℕ)
    → (run_benchmark iterations (reset_sorted sort drawn) 0 % 2 ^ 64
        ≡ run_benchmark iterations (reset_unsorted drawn) 0 % 2 ^ 64)
      × (run_benchmark iterations (reset_unsorted drawn) 0 % 2 ^ 64
          ≡ iterations * large drawn % 2 ^ 64)
predictions_agree sort sorts iterations drawn =
    let same = Perm-eq large large_of_steps (sorts.permutes drawn) in
    (
      run_lem iterations (sort drawn) 0
          ∙ ap (λ n. (0 + iterations * n) % 2 ^ 64) same
          ∙ sym (run_lem iterations drawn 0),
      run_lem iterations drawn 0 ∙ ap (λ n. n % 2 ^ 64) (omega arith),
    )
