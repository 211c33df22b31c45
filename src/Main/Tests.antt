-- ===== src/Main/Tests.antt =====
-- The theorem on main.cpp at what main calls, with a clock that each reading moves on and natural
-- numbers for `double`.
use benchmark_fun.Common.{
  ℕ, ◌+◌, ◌-◌, ◌*◌, ◌/◌, ◌≡◌, refl, false, inl, none, some, List, [], ◌∷◌, map, Text, text_eq,
  codes, arith,
}
use benchmark_fun.Benchmarks.Timer.{Timer}
use benchmark_fun.Benchmarks.Evaluation.{Doubles, Evaluation}
use benchmark_fun.Benchmarks.Evaluation.Printed.{summary}
use benchmark_fun.Benchmarks.Runner.{Benchable, execute_bench}
use benchmark_fun.Benchmarks.Runner.Measured.{Ahead}
use benchmark_fun.Benchmarks.Runner.Samples.{Times}
use benchmark_fun.Main.Reports.{main_reports}

abbrev numbers : Doubles
numbers = record {
  Double = ℕ;
  of_size = λ n. n;
  plus = λ a b. a + b;
  minus = λ a b. a - b;
  times = λ a b. a * b;
  over = λ a b. a / b;
  pow = λ a b. a * b;
  sqrt = λ a. a;
  alpha = 0;
  quantile = λ n a. n;
}

abbrev read_clock : ℕ → ℕ × ℕ
read_clock now = (now, now + 1)

abbrev waits : Text → Benchable Text ℕ
waits name = record {
  name = name;
  run_benchmark = λ iterations now. some (now + iterations);
  reset_benchmark = λ now. some now;
}

abbrev locked_and_vyukov : List (Benchable Text ℕ)
locked_and_vyukov =
    waits (codes "Mutex MPMC Queue benchmark for 10 consumers and 10 producers")
    ∷ waits (codes "Vyukov MPMC benchmark for 10 consumers and 10 producers")
    ∷ []

ahead : (name : Text) → Ahead text_eq read_clock 10000 (waits name)
ahead name now = (now + 1 + 10000, now + 1 + 10000 + 1, refl, refl, omega arith)

abbrev idle_timer : Timer
idle_timer = record { is_timing = false; start_time = 0 }

main_reports_example :
    (evaluations : List (Evaluation numbers Text)) × (timer' : Timer) × (execute_bench text_eq
        read_clock 10000 numbers
        (λ times. times)
        300
        locked_and_vyukov
        0
        idle_timer
      ≡ inl ((evaluations, none), timer'))
    × (timer'.is_timing ≡ false)
    × Times text_eq read_clock 10000 numbers
        (λ times. times)
        300
        locked_and_vyukov
        0
        (evaluations, none)
    × (map (summary numbers (λ times. times) text_eq) evaluations
        ≡ (codes "Mutex MPMC Queue benchmark for 10 consumers and 10 producers", 300)
          ∷ (codes "Vyukov MPMC benchmark for 10 consumers and 10 producers", 300)
          ∷ [])
main_reports_example =
    main_reports read_clock numbers (λ times. times) 18
      (record {
        iterations = 10000;
        num_samples = 300;
        benches = map (λ b. b.name) locked_and_vyukov;
      })
      locked_and_vyukov 0 idle_timer refl refl
      (
        ahead (codes "Mutex MPMC Queue benchmark for 10 consumers and 10 producers"),
        (ahead (codes "Vyukov MPMC benchmark for 10 consumers and 10 producers"), omega arith),
      )
      refl
