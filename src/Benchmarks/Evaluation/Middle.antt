-- ===== src/Benchmarks/Evaluation/Middle.antt =====
-- The interquartile mean of an evaluation, of src/benchmarks/bench_runner.hpp.
use benchmark_fun.Common.{
  ℕ, zero, suc, ◌+◌, ◌*◌, ◌/◌, ◌≤◌, ◌≡◌, refl, sym, ap, ◌∙◌, List, [], ◌∷◌, ◌++◌, length, take,
  drop, length-append, arith,
}
use mathlib.Core.List.{Mem, Perm}
use benchmark_fun.Benchmarks.Evaluation.{Doubles, accumulate, iqr, iqm_of}
use benchmark_fun.Benchmarks.Evaluation.Order.{Sorts, sort_parts, length-sort}

take_front : (n : ℕ) (xs ys : List ℕ) → n ≤ length xs → take n (xs ++ ys) ≡ take n xs
take_front zero xs ys h = refl
take_front (suc n) [] ys h = absurd (omega (arith, h))
take_front (suc n) (x ∷ xs) ys h = ap (λ t. x ∷ t) (take_front n xs ys (omega (arith, h)))

middle_front :
    (m n : ℕ) (xs ys : List ℕ) → m + n ≤ length xs → take n (drop m (xs ++ ys)) ≡ take n (drop m xs)
middle_front zero n xs ys h = take_front n xs ys (omega (arith, h))
middle_front (suc m) n [] ys h = absurd (omega (arith, h))
middle_front (suc m) n (x ∷ xs) ys h = middle_front m n xs ys (omega (arith, h))

-- The middle half does not depend on what follows the lower three quarters.
iqr_front :
    (low high high' : List ℕ)
    → length high ≡ length high'
    → 4 * length high ≤ length (low ++ high)
    → iqr (low ++ high) ≡ iqr (low ++ high')
iqr_front low high high' same few =
    let n = length (low ++ high) in
    let whole = length-append low high in
    let whole' = length-append low high' in
    let fit : n / 4 + 2 * (n / 4) ≤ length low = omega (arith, whole, few) in
    let equal : length (low ++ high) ≡ length (low ++ high') = omega (arith, same, whole, whole') in
    middle_front (n / 4) (2 * (n / 4)) low high fit
    ∙ sym (middle_front (n / 4) (2 * (n / 4)) low high' fit)
    ∙ ap (λ k. take (2 * (k / 4)) (drop (k / 4) (low ++ high'))) equal

-- The interquartile mean of an evaluation does not depend on the order of the observations, nor on
-- outliers: if at most a quarter of them are replaced by as many others, and those replaced and
-- those that replace them are at least as large as all the rest, it stays the same. `std::sort`
-- gives a permutation that ascends.
pub iqm_robust :
    (d : Doubles) (sort : List ℕ → List ℕ)
    → Sorts sort
    → (low high high' observations observations' : List ℕ) → Perm observations (low ++ high)
    → Perm observations' (low ++ high')
    → ((a : ℕ) → Mem a low → (b : ℕ) → Mem b high → a ≤ b)
    → ((a : ℕ) → Mem a low → (b : ℕ) → Mem b high' → a ≤ b)
    → length high ≡ length high'
    → 4 * length high ≤ length (low ++ high)
    → iqm_of d sort observations ≡ iqm_of d sort observations'
unfolding iqm_of
iqm_robust d sort sorts low high high' xs ys p p' above above' same few =
    let low_size = length-sort sort sorts low in
    let high_size = length-sort sort sorts high in
    let size = length-append low high in
    let size' = length-append (sort low) (sort high) in
    let middle : iqr (sort xs) ≡ iqr (sort ys) =
      ap iqr (sort_parts sort sorts xs low high p above)
      ∙ iqr_front (sort low) (sort high) (sort high')
          (omega (arith, same, high_size, length-sort sort sorts high'))
          (omega (arith, few, low_size, high_size, size, size'))
      ∙ sym (ap iqr (sort_parts sort sorts ys low high' p' above')) in
    ap (λ m. d.over (d.of_size (accumulate 0 m)) (d.of_size (length m))) middle
