-- ===== src/Stats.antt =====
-- src/stats: the confidence interval of student_T_tests.hpp, over samples of any type that converts
-- to `double`. `none` is a failed assert. Stats/Shapiro has the test for normality of anovas.hpp.
pub mod Shapiro
mod Tests
use benchmark_fun.Common.{
  ℕ, ◌+◌, ◌-◌, ◌%◌, ◌^◌, Bool, true, if◌then◌else◌, ltb, ◌==◌, List, [], ◌∷◌, ◌++◌, length, Option,
  none, some, ◌>>=◌,
}
use benchmark_fun.Benchmarks.Evaluation.{Doubles}

module _ (d : Doubles) where
  open d use {Double}

  pub record ConfidenceInterval : Type 0 where
    pub point_estimate : Double
    pub low_bound : Double
    pub high_bound : Double
    pub confidence : Double

module _ (d : Doubles) {A : Type 0} (to_double : A → d.Double) where
  open d use {Double, of_size, plus, minus, times, over, pow, sqrt, quantile}

  -- `std::accumulate` of the samples
  abbrev pub sum_from : Double → List A → Double
  sum_from sum [] = sum
  sum_from sum (sample ∷ samples) = sum_from (plus sum (to_double sample)) samples

  abbrev pub mean_of : List A → Double
  mean_of samples = over (sum_from (of_size 0) samples) (of_size (length samples))

  -- Square deviations from a mean, added to a sum.
  abbrev pub deviations_from : Double → Double → List A → Double
  deviations_from mean sum [] = sum
  deviations_from mean sum (sample ∷ samples) =
      deviations_from mean (plus sum (pow (minus (to_double sample) mean) (of_size 2))) samples

  -- The constant `ALPHA` of the function is an argument.
  abbrev pub generate_confidence_interval : Double → List A → Option (ConfidenceInterval d)
  generate_confidence_interval alpha samples =
      let n = length samples in
      if ltb n 30
      then none
      else (let sample_mean = mean_of samples in
          let t_score = quantile (n - 1) (minus (of_size 1) (over alpha (of_size 2))) in
          let square_deviations = deviations_from sample_mean (of_size 0) samples in
          let sample_standard_deviation = sqrt (over square_deviations (of_size (n - 1))) in
          let margin = over (times t_score sample_standard_deviation) (sqrt (of_size n)) in
          some (record {
            point_estimate = sample_mean;
            low_bound = minus sample_mean margin;
            high_bound = plus sample_mean margin;
            confidence = minus (of_size 1) alpha;
          }))
