-- ===== src/Benchmarks/Runner.antt =====
-- `executeBench` of src/benchmarks/bench_runner.hpp over benchmarks as src/benchmarks/benchable.hpp
-- describes them. What the calls may change beside the timer and the collection is a `World`, the
-- time-stamp counter with it.
pub mod Counts
pub mod Measured
pub mod Samples
use benchmark_fun.Common.{ℕ, zero, suc, Bool, List, [], ◌∷◌, Option, none, some, ◌⊎◌, inl, inr}
use benchmark_fun.Benchmarks.Timer.{Timer, Outcome, start_timer, end_timer}
use benchmark_fun.Benchmarks.Collection.{Benchmark, add_time}
use benchmark_fun.Benchmarks.Evaluation.{Doubles, Evaluation, print}

pub record Benchable (Name World : Type 0) : Type 0 where
  pub name : Name
  pub run_benchmark : ℕ → World → Option World
  pub reset_benchmark : World → Option World

-- An exception of the timer or of a benchmark, or an exit in a benchmark, ends what is under way;
-- `none` is that of a benchmark.
pub data Stop : Type 0 where
  by_timer : Outcome → Stop
  by_benchmark : Stop

abbrev pub unless_thrown : {A B : Type 0} → A ⊎ Stop → (A → B ⊎ Stop) → B ⊎ Stop
unless_thrown (inl a) next = next a
unless_thrown (inr thrown) next = inr thrown

abbrev pub called : {B World : Type 0} → Option World → (World → B ⊎ Stop) → B ⊎ Stop
called none next = inr Stop.by_benchmark
called (some world) next = next world

module _ {Name World : Type 0} (same : Name → Name → Bool) (read_clock : World → ℕ × World)
    (iterations : ℕ) where
  pub record Running : Type 0 where
    pub world : World
    pub timer : Timer
    pub benchmarks : List (Benchmark same)

  -- The call after the timer has ended; another outcome is an exception.
  abbrev pub ended :
      Benchable Name World → World → List (Benchmark same) → Outcome × Timer → Running ⊎ Stop
  ended benchable world benchmarks (Outcome.lasted cycles_taken, timer) =
      called (benchable.reset_benchmark world) λ world'. inl (record {
        world = world';
        timer = timer;
        benchmarks = add_time same benchmarks benchable.name cycles_taken;
      })
  ended benchable world benchmarks (other, timer) = inr (Stop.by_timer other)

  abbrev pub begun :
      Benchable Name World → World → List (Benchmark same) → Outcome × Timer → Running ⊎ Stop
  begun benchable world benchmarks (Outcome.started, timer) =
      called (benchable.run_benchmark iterations world) λ world'.
        let after = read_clock world' in
        ended benchable after.1 benchmarks (end_timer after.0 timer)
  begun benchable world benchmarks (other, timer) = inr (Stop.by_timer other)

  abbrev pub bench : Benchable Name World → Running → Running ⊎ Stop
  bench benchable r =
      let before = read_clock r.world in
      begun benchable before.1 r.benchmarks (start_timer before.0 r.timer)

  abbrev pub bench_all : List (Benchable Name World) → Running → Running ⊎ Stop
  bench_all [] r = inl r
  bench_all (benchable ∷ benches) r = unless_thrown (bench benchable r) (λ r'. bench_all benches r')

  abbrev pub take_samples : ℕ → List (Benchable Name World) → Running → Running ⊎ Stop
  take_samples zero benches r = inl r
  take_samples (suc num_samples) benches r =
      unless_thrown (bench_all benches r) (λ r'. take_samples num_samples benches r')

  -- What is printed, the exception of the evaluations if there is one, and the timer; or the
  -- exception that ended the samples.
  abbrev pub execute_bench :
      (d : Doubles)
      → (List ℕ → List ℕ)
      → ℕ
      → List (Benchable Name World)
      → World
      → Timer
      → ((List (Evaluation d Name) × Option ℕ) × Timer) ⊎ Stop
  execute_bench d sort num_samples benches world timer =
      let none_yet : Running = record { world = world; timer = timer; benchmarks = [] } in
      unless_thrown (take_samples num_samples benches none_yet)
        (λ r. inl (print d sort same r.benchmarks, r.timer))
