-- ===== src/Stats/Shapiro.antt =====
-- The test for normality of src/stats/anovas.hpp. `std::sort` is a parameter, and so are the
-- functions on doubles that it needs beside those of the evaluations; `none` is its exception.
use benchmark_fun.Common.{
  ℕ, zero, suc, ◌+◌, ◌^◌, Bool, true, if◌then◌else◌, ltb, List, [], ◌∷◌, length, Option, none, some,
}
use benchmark_fun.Benchmarks.Evaluation.{Doubles}
use benchmark_fun.Stats.{mean_of, deviations_from}

pub record Normal (d : Doubles) : Type 0 where
  pub norm_quantile : d.Double → d.Double
  pub log : d.Double → d.Double
  pub exp : d.Double → d.Double

module _ (d : Doubles) (normal : Normal d) where
  open d use {Double, of_size, plus, minus, times, over, pow, sqrt}
  open normal use {norm_quantile, log, exp}

  -- Blom's approximation of the expected order statistic `i` of `n`.
  abbrev blom : ℕ → ℕ → Double
  blom n i = norm_quantile (
      over (minus (of_size (i + 1)) (over (of_size 3) (of_size 8)))
        (plus (of_size n) (over (of_size 1) (of_size 4))))

  abbrev expected_from : ℕ → ℕ → ℕ → List Double
  expected_from n zero i = []
  expected_from n (suc left) i = blom n i ∷ expected_from n left (i + 1)

  abbrev sum_square : Double → List Double → Double
  sum_square sum [] = sum
  sum_square sum (v ∷ m) = sum_square (plus sum (pow v (of_size 2))) m

  -- A constant with `places` decimal places.
  abbrev literal : ℕ → ℕ → Double
  literal digits places = over (of_size digits) (of_size (10 ^ places))

  abbrev negative : Double → Double
  negative x = minus (of_size 0) x

  module _ {A : Type 0} (to_double : A → Double) (sort : List A → List A) where
    abbrev numerator_from : Double → Double → List Double → List A → Double
    numerator_from norm_factor numerator (m ∷ ms) (x ∷ sorted_data) =
        numerator_from norm_factor (plus numerator (times (over m norm_factor) (to_double x))) ms
          sorted_data
    numerator_from norm_factor numerator _ _ = numerator

    abbrev pub w_statistic : List A → Double
    w_statistic samples =
        let n = length samples in
        let m = expected_from n n 0 in
        let norm_factor = sqrt (sum_square (of_size 0) m) in
        let numerator = pow (numerator_from norm_factor (of_size 0) m (sort samples)) (of_size 2) in
        over numerator
          (deviations_from d to_double (mean_of d to_double samples) (of_size 0) samples)

    abbrev mu : Double → Double
    mu ln_n =
        plus
          (minus (minus (negative (literal 15861 4)) (times (literal 31082 5) ln_n))
            (times (times (literal 83751 6) ln_n) ln_n))
          (times (times (times (literal 38915 7) ln_n) ln_n) ln_n)

    abbrev sigma : Double → Double
    sigma ln_n = exp (
        plus (minus (negative (literal 4803 4)) (times (literal 82676 6) ln_n))
          (times (times (literal 30302 7) ln_n) ln_n))

    abbrev pub z_score : List A → Double
    z_score samples =
        let y = log (minus (of_size 1) (w_statistic samples)) in
        let ln_n = log (of_size (length samples)) in over (minus y (mu ln_n)) (sigma ln_n)

    -- The comparison is commented out.
    abbrev holder : Double → Bool
    holder z = true

    abbrev pub shapiro_wilk_test : List A → Option Bool
    shapiro_wilk_test samples =
        if ltb (length samples) 3 then none else some (holder (z_score samples))
