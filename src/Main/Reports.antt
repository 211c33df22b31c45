-- ===== src/Main/Reports.antt =====
-- What every call of `executeBench` in main.cpp gives.
use benchmark_fun.Common.{
  ℕ, zero, suc, ◌-◌, ◌≤◌, ◌≡◌, refl, sym, ap, ap₂, subst, ◌∙◌, Bool, true, false, not, ◌&&◌, inl,
  leb, leb_neg, List, [], ◌∷◌, ◌++◌, map, get_elem?, none, some, Text, text_eq, text_eq_iff, arith,
}
use mathlib.Core.Option.{some-injective}
use native.Mathlib.Decide.{dec_le}
use benchmark_fun.Benchmarks.Timer.{Timer}
use benchmark_fun.Benchmarks.Evaluation.{Doubles, Evaluation}
use benchmark_fun.Benchmarks.Evaluation.Printed.{summary}
use benchmark_fun.Benchmarks.Runner.{Benchable, execute_bench}
use benchmark_fun.Benchmarks.Runner.Counts.{each, Off, Distinct}
use benchmark_fun.Benchmarks.Runner.Measured.{Forward}
use benchmark_fun.Benchmarks.Runner.Samples.{Times, execute_bench_lem}
use benchmark_fun.Main.{Run, all_runs}

-- Tests for names that differ, and for what a run needs.
abbrev is_off : List Text → Text → Bool
is_off [] name = true
is_off (other ∷ others) name = not (text_eq other name) && is_off others name

abbrev are_distinct : List Text → List Text → Bool
are_distinct before [] = true
are_distinct before (name ∷ names) = is_off before name && are_distinct (before ++ name ∷ []) names

abbrev pub is_ready : Run → Bool
is_ready run = leb 30 run.num_samples && are_distinct [] run.benches

abbrev all_ready : List Run → Bool
all_ready [] = true
all_ready (run ∷ runs) = is_ready run && all_ready runs

both : (a b : Bool) → (a && b) ≡ true → (a ≡ true) × (b ≡ true)
both true b e = (refl, e)
both false b e = cc e

flipped : (a : Bool) → not a ≡ true → a ≡ false
flipped true e = cc e
flipped false e = refl

is_off_sound :
    (others : List Text) (name : Text) → is_off others name ≡ true → Off text_eq others name
is_off_sound [] name e = omega arith
is_off_sound (other ∷ others) name e =
    let (here, rest) = both (not (text_eq other name)) (is_off others name) e in
    (flipped (text_eq other name) here, is_off_sound others name rest)

are_distinct_sound :
    (before names : List Text) → are_distinct before names ≡ true → Distinct text_eq before names
are_distinct_sound before [] e = omega arith
are_distinct_sound before (name ∷ names) e =
    let (here, rest) = both (is_off before name) (are_distinct (before ++ name ∷ []) names) e in
    (is_off_sound before name here, are_distinct_sound (before ++ name ∷ []) names rest)

leb_sound : (a b : ℕ) → leb a b ≡ true → a ≤ b
leb_sound a b e = elim (dec_le a b) [
  | yes h ↦ h
  | no h ↦ let off = leb_neg {a = a} {b = b} (omega (arith, h)) in absurd (cc (sym e ∙ off))
]

ready_at :
    (runs : List Run) (i : ℕ) (run : Run)
    → all_ready runs ≡ true
    → get_elem? runs i ≡ some run
    → is_ready run ≡ true
ready_at [] i run ready at = cc at
ready_at (first ∷ runs) zero run ready at =
    subst (λ r. is_ready r ≡ true) (some-injective _ _ at)
      ((both (is_ready first) (all_ready runs) ready).0)
ready_at (first ∷ runs) (suc i) run ready at =
    ready_at runs i run ((both (is_ready first) (all_ready runs) ready).1) at

runs_ready : all_ready all_runs ≡ true
runs_ready = refl

-- Every call of `executeBench` in the functions of main.cpp that are compiled, those that main does
-- not call included: with benchmarks of the names of the call, whose runs and resets return and do
-- not set the clock back, and an idle timer, every benchmark is run and reset for every sample, in
-- order, no call of the timer throws, and what is printed is of the times that the clock moves on
-- over the runs, each under the name of its benchmark. There are enough samples for every
-- evaluation, so that none throws either, and each benchmark is evaluated once, under its own name,
-- in order and over as many tests as the call asks for. The timer is idle again.
pub main_reports :
    {World : Type 0} (read_clock : World → ℕ × World) (d : Doubles) (sort : List ℕ → List ℕ)
    → (i : ℕ) (run : Run) (benches : List (Benchable Text World)) (world : World) (timer : Timer)
    → get_elem? all_runs i ≡ some run
    → map (λ benchable. benchable.name) benches ≡ run.benches
    → Forward text_eq read_clock run.iterations benches
    → timer.is_timing ≡ false
    → (evaluations : List (Evaluation d Text)) × (timer' : Timer) × (execute_bench text_eq
          read_clock run.iterations d sort run.num_samples benches world timer
        ≡ inl ((evaluations, none), timer'))
      × (timer'.is_timing ≡ false)
      × Times text_eq read_clock run.iterations d sort run.num_samples benches world
          (evaluations, none)
      × (map (summary d sort text_eq) evaluations ≡ each text_eq run.num_samples run.benches)
main_reports read_clock d sort i run benches world timer at named forward idle =
    let ready = ready_at all_runs i run runs_ready at in
    let (enough, differ) = both (leb 30 run.num_samples) (are_distinct [] run.benches) ready in
    let many = leb_sound 30 run.num_samples enough in
    let more : suc (run.num_samples - 1) ≡ run.num_samples = omega (arith, many) in
    let distinct =
      subst (λ ns. Distinct text_eq [] ns) (sym named) (are_distinct_sound [] run.benches differ) in
    let (report, timer', ran, idle', timed, reports) =
      execute_bench_lem text_eq read_clock run.iterations text_eq_iff d sort (run.num_samples - 1)
        benches world timer forward idle distinct in
    let (listed, unthrown) = reports.0 (omega (arith, many)) in
    (
      report.0,
      timer',
      ap (λ n. execute_bench text_eq read_clock run.iterations d sort n benches world timer)
            (sym more)
          ∙ ran
          ∙ ap (λ e. inl ((report.0, e), timer')) unthrown,
      idle',
      subst (λ n. Times text_eq read_clock run.iterations d sort n benches world (report.0, none))
          more
          (subst
            (λ e.
              Times text_eq read_clock run.iterations d sort (suc (run.num_samples - 1)) benches
                world (report.0, e))
            unthrown timed),
      listed ∙ ap₂ (each text_eq) more named,
    )
