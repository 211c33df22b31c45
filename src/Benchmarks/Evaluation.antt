-- ===== src/Benchmarks/Evaluation.antt =====
-- `Evaluation`, `Benchmark::createEvaluation` and `BenchmarkCollection::print` of
-- src/benchmarks/bench_runner.hpp, without the text that is printed.
pub mod Middle
pub mod Printed
pub mod Order
use benchmark_fun.Common.{
  ℕ, ◌+◌, ◌-◌, ◌*◌, ◌/◌, ◌%◌, ◌^◌, Bool, if◌then◌else◌, ltb, List, [], ◌∷◌, length, take, drop,
  Option, none, some,
}
use benchmark_fun.Benchmarks.Collection.{Benchmark}

-- `double`, with the conversion from size_t, `std::sqrt`, `std::pow`, the constant ALPHA and
-- boost's quantiles of Student's distribution.
pub record Doubles : Type 1 where
  pub Double : Type 0
  pub of_size : ℕ → Double
  pub plus : Double → Double → Double
  pub minus : Double → Double → Double
  pub times : Double → Double → Double
  pub over : Double → Double → Double
  pub pow : Double → Double → Double
  pub sqrt : Double → Double
  pub alpha : Double
  pub quantile : ℕ → Double → Double

-- What a call that may throw gives; the exception names the number of tests there are.
pub data Checked (A : Type 0) : Type 0 where
  made : A → Checked A
  too_few_tests : ℕ → Checked A

abbrev pub number_clt_tests_needed : ℕ
number_clt_tests_needed = 30

-- `std::accumulate` from 0 on unsigned words
abbrev pub accumulate : ℕ → List ℕ → ℕ
accumulate tot [] = tot
accumulate tot (time ∷ times) = accumulate ((tot + time) % 2 ^ 64) times

-- The middle half of sorted times.
abbrev pub iqr : List ℕ → List ℕ
iqr times = let quarter = length times / 4 in take (2 * quarter) (drop quarter times)

module _ (d : Doubles) where
  open d use {Double}

  pub record Evaluation (Name : Type 0) : Type 0 where
    pub name : Name
    pub observation_values : List ℕ
    pub mean_cycles : Double
    pub standard_deviation : Double
    pub num_tests : ℕ
    pub iqm : Double
    pub lower_confidence_interval : Double
    pub upper_confidence_interval : Double

module _ (d : Doubles) (sort : List ℕ → List ℕ) where
  open d use {Double, of_size, plus, minus, times, over, pow, sqrt, alpha, quantile}

  pub iqm_of : List ℕ → Double
  iqm_of observations =
      let middle = iqr (sort observations) in
      over (of_size (accumulate 0 middle)) (of_size (length middle))

  module _ {Name : Type 0} (same : Name → Name → Bool) where
    unfoldable pub new_evaluation :
        Name → List ℕ → Double → Double → ℕ → Checked (Evaluation d Name)
    new_evaluation name observations mean deviation num_tests =
        if ltb num_tests number_clt_tests_needed
        then Checked.too_few_tests num_tests
        else (let t_score = quantile (num_tests - 1) (minus (of_size 1) (over alpha (of_size 2))) in
            let margin = over (times t_score deviation) (sqrt (of_size num_tests)) in
            Checked.made (record {
              name = name;
              observation_values = observations;
              mean_cycles = mean;
              standard_deviation = deviation;
              num_tests = num_tests;
              iqm = iqm_of observations;
              lower_confidence_interval = minus mean margin;
              upper_confidence_interval = plus mean margin;
            }))

    abbrev pub total_cycles : Double → List ℕ → Double
    total_cycles total [] = total
    total_cycles total (clock_time ∷ clock_times) =
        total_cycles (plus total (of_size clock_time)) clock_times

    abbrev pub variance : Double → Double → List ℕ → Double
    variance mean total [] = total
    variance mean total (clock_time ∷ clock_times) =
        variance mean (plus total (pow (minus (of_size clock_time) mean) (of_size 2))) clock_times

    unfoldable pub create_evaluation : Benchmark same → Checked (Evaluation d Name)
    create_evaluation bench =
        let num_tests = length bench.clock_times in
        if ltb num_tests number_clt_tests_needed
        then Checked.too_few_tests num_tests
        else (let mean = over (total_cycles (of_size 0) bench.clock_times) (of_size num_tests) in
            let spread = variance mean (of_size 0) bench.clock_times in
            let half = over (of_size 1) (of_size 2) in
            new_evaluation bench.name bench.clock_times mean
              (pow (over spread (of_size (num_tests - 1))) half) num_tests)

    -- An evaluation is printed before the loop goes on; an exception ends it.
    abbrev pub printing :
        Checked (Evaluation d Name)
        → List (Evaluation d Name) × Option ℕ
        → List (Evaluation d Name) × Option ℕ
    printing (Checked.made evaluation) rest = (evaluation ∷ rest.0, rest.1)
    printing (Checked.too_few_tests tests) rest = ([], some tests)

    -- The evaluations that are printed, and the exception if there is one.
    pub print : List (Benchmark same) → List (Evaluation d Name) × Option ℕ
    print [] = ([], none)
    print (bench ∷ benchmarks) = printing (create_evaluation bench) (print benchmarks)
