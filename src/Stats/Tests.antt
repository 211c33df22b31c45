-- ===== src/Stats/Tests.antt =====
-- The confidence interval of src/stats at concrete samples, with natural numbers for `double`.
use benchmark_fun.Common.{◌+◌, ◌-◌, ◌*◌, ◌/◌, ◌≡◌, refl, ℕ, [], ◌∷◌, replicate, none, some}
use benchmark_fun.Benchmarks.Evaluation.{Doubles}
use benchmark_fun.Stats.{generate_confidence_interval}

-- Here `pow` and `sqrt` are both the number itself.
abbrev numbers : Doubles
numbers = record {
  Double = ℕ;
  of_size = λ n. n;
  plus = λ a b. a + b;
  minus = λ a b. a - b;
  times = λ a b. a * b;
  over = λ a b. a / b;
  pow = λ a b. a;
  sqrt = λ a. a;
  alpha = 0;
  quantile = λ n a. n;
}

few_samples : generate_confidence_interval numbers (λ n. n) 1 (1 ∷ 2 ∷ 3 ∷ []) ≡ none
few_samples = refl

enough_samples :
    generate_confidence_interval numbers (λ n. n) 1 (replicate 30 7)
    ≡ some (record { point_estimate = 7; low_bound = 7; high_bound = 7; confidence = 0 })
enough_samples = refl
