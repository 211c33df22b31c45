-- ===== src/Benchmarks/Runner/Measured.antt =====
-- The samples of `executeBench` of src/benchmarks/bench_runner.hpp against the times that the
-- benchmarks take one after the other.
use benchmark_fun.Common.{
  ℕ, zero, suc, ◌-◌, ◌≤◌, ◌≡◌, ◌⊎◌, inl, inr, refl, sym, ap, ◌∙◌, Bool, false, List, [], ◌∷◌, ◌++◌,
  map, some, ltb_neg, arith,
}
use benchmark_fun.Benchmarks.Timer.{start_timer, end_timer}
use benchmark_fun.Benchmarks.Collection.{Benchmark, add_time}
use benchmark_fun.Benchmarks.Runner.{
  Benchable, Running, Stop, unless_thrown, bench, bench_all, take_samples,
}
use benchmark_fun.Benchmarks.Runner.Counts.{counts, bump, bump_all, bump_rounds, counts-add_time}

-- A list several times over.
abbrev pub rounds : {A : Type 0} → ℕ → List A → List A
rounds zero xs = []
rounds (suc n) xs = xs ++ rounds n xs

map-append : {A B : Type 0} (f : A → B) (xs ys : List A) → map f (xs ++ ys) ≡ map f xs ++ map f ys
map-append f [] ys = refl
map-append f (x ∷ xs) ys = ap (λ zs. f x ∷ zs) (map-append f xs ys)

map-rounds :
    {A B : Type 0} (f : A → B) (n : ℕ) (xs : List A) → map f (rounds n xs) ≡ rounds n (map f xs)
map-rounds f zero xs = refl
map-rounds f (suc n) xs =
    map-append f xs (rounds n xs) ∙ ap (λ ys. map f xs ++ ys) (map-rounds f n xs)

same_after :
    {A B : Type 0} (x : A ⊎ Stop) (f g : A → B ⊎ Stop)
    → ((a : A) → f a ≡ g a)
    → unless_thrown x f ≡ unless_thrown x g
same_after (inl a) f g e = e a
same_after (inr thrown) f g e = refl

one_by_one :
    {A B C : Type 0} (x : A ⊎ Stop) (f : A → B ⊎ Stop) (g : B → C ⊎ Stop)
    → unless_thrown x (λ a. unless_thrown (f a) g) ≡ unless_thrown (unless_thrown x f) g
one_by_one (inl a) f g = refl
one_by_one (inr thrown) f g = refl

module _ {Name World : Type 0} (same : Name → Name → Bool) (read_clock : World → ℕ × World)
    (iterations : ℕ) where
  abbrev pub names : List (Benchable Name World) → List Name
  names = map (λ benchable. benchable.name)

  -- Runs and resets of the benchmarks, each once and in order, from one world to another, with what
  -- the clock moves on between its reading before a run and the one after it.
  pub data Measured : List (Benchable Name World) → World → List (Name × ℕ) → World → Type 0 where
    finished : {world : World} → Measured [] world [] world
    next :
        {benchable : Benchable Name World} {benches : List (Benchable Name World)}
        {world after reset last : World} {times : List (Name × ℕ)}
        → benchable.run_benchmark iterations (read_clock world).1 ≡ some after
        → benchable.reset_benchmark (read_clock after).1 ≡ some reset
        → Measured benches reset times last
        → Measured
            (benchable ∷ benches)
            world
            ((benchable.name, (read_clock after).0 - (read_clock world).0) ∷ times)
            last

  -- Runs and resets of the benchmark return, and the clock is not behind after a run.
  abbrev pub Ahead : Benchable Name World → Type 0
  Ahead benchable =
      (world : World)
      → (after : World) × (reset : World) × (benchable.run_benchmark iterations (read_clock world).1
          ≡ some after)
        × (benchable.reset_benchmark (read_clock after).1 ≡ some reset)
        × ((read_clock world).0 ≤ (read_clock after).0)

  abbrev pub Forward : List (Benchable Name World) → Type 0
  Forward [] = 0 ≤ 0
  Forward (benchable ∷ benches) = Ahead benchable × Forward benches

  Forward-append :
      (xs ys : List (Benchable Name World)) → Forward xs → Forward ys → Forward (xs ++ ys)
  Forward-append [] ys f g = g
  Forward-append (x ∷ xs) ys (ahead, f) g = (ahead, Forward-append xs ys f g)

  pub Forward-rounds :
      (n : ℕ) (benches : List (Benchable Name World)) → Forward benches → Forward (rounds n benches)
  Forward-rounds zero benches f = omega arith
  Forward-rounds (suc n) benches f =
      Forward-append benches (rounds n benches) f (Forward-rounds n benches f)

  -- The collection with some times added, each under its name.
  abbrev pub add_times : List (Benchmark same) → List (Name × ℕ) → List (Benchmark same)
  add_times benchmarks [] = benchmarks
  add_times benchmarks ((name, time) ∷ times) = add_times (add_time same benchmarks name time) times

  abbrev pub State : Type 0
  State = Running same read_clock iterations

  -- A result without an exception, an idle timer, and the times of these benchmarks added.
  abbrev pub Gives : State → List (Benchable Name World) → State ⊎ Stop → Type 0
  Gives r benches result =
      (r' : State) × (times : List (Name × ℕ)) × (result ≡ inl r')
      × (r'.timer.is_timing ≡ false)
      × Measured benches r.world times r'.world
      × (r'.benchmarks ≡ add_times r.benchmarks times)
      × (counts same r'.benchmarks ≡ bump_all same (counts same r.benchmarks) (names benches))

  pub all_lem :
      (benches : List (Benchable Name World)) (r : State)
      → Forward benches
      → r.timer.is_timing ≡ false
      → Gives r benches (bench_all same read_clock iterations benches r)
  unfolding start_timer end_timer
  all_lem [] r forward idle = (r, [], refl, idle, Measured.finished, refl, refl)
  all_lem (benchable ∷ benches) r (ahead, forward) idle =
      let (after, reset, ran, was_reset, up) = ahead r.world in
      let taken = (read_clock after).0 - (read_clock r.world).0 in
      let r' : State = record {
        world = reset;
        timer = record { is_timing = false; start_time = (read_clock r.world).0 };
        benchmarks = add_time same r.benchmarks benchable.name taken;
      } in
      let first : bench same read_clock iterations benchable r ≡ inl r' =
        rw (idle, ran, ltb_neg up, was_reset) refl in
      let (r'', times, rest, idle', measured, added, sizes) = all_lem benches r' forward refl in
      (
        r'',
        (benchable.name, taken) ∷ times,
        ap (λ x. unless_thrown x (λ y. bench_all same read_clock iterations benches y)) first
            ∙ rest,
        idle',
        Measured.next ran was_reset measured,
        added,
        sizes
            ∙ ap (λ t. bump_all same t (names benches))
                (counts-add_time same r.benchmarks benchable.name taken),
      )

  bench_all-append :
      (xs ys : List (Benchable Name World)) (r : State)
      → bench_all same read_clock iterations (xs ++ ys) r
        ≡ unless_thrown
            (bench_all same read_clock iterations xs r)
            (λ r'. bench_all same read_clock iterations ys r')
  bench_all-append [] ys r = refl
  bench_all-append (x ∷ xs) ys r =
      same_after (bench same read_clock iterations x r) _ _ (λ r'. bench_all-append xs ys r')
      ∙ one_by_one (bench same read_clock iterations x r) _ _

  pub take_samples-rounds :
      (n : ℕ) (benches : List (Benchable Name World)) (r : State)
      → take_samples same read_clock iterations n benches r
        ≡ bench_all same read_clock iterations (rounds n benches) r
  take_samples-rounds zero benches r = refl
  take_samples-rounds (suc n) benches r =
      same_after (bench_all same read_clock iterations benches r) _ _
        (λ r'. take_samples-rounds n benches r')
      ∙ sym (bench_all-append benches (rounds n benches) r)

  bump_all-append :
      (start : List (Name × ℕ)) (xs ys : List Name)
      → bump_all same start (xs ++ ys) ≡ bump_all same (bump_all same start xs) ys
  bump_all-append start [] ys = refl
  bump_all-append start (x ∷ xs) ys = bump_all-append (bump same start x) xs ys

  bump_all-rounds :
      (n : ℕ) (start : List (Name × ℕ)) (ns : List Name)
      → bump_all same start (rounds n ns) ≡ bump_rounds same n start ns
  bump_all-rounds zero start ns = refl
  bump_all-rounds (suc n) start ns =
      bump_all-append start ns (rounds n ns) ∙ bump_all-rounds n (bump_all same start ns) ns

  pub sizes-rounds :
      (n : ℕ) (start : List (Name × ℕ)) (benches : List (Benchable Name World))
      → bump_all same start (names (rounds n benches)) ≡ bump_rounds same n start (names benches)
  sizes-rounds n start benches =
      ap (bump_all same start) (map-rounds (λ benchable. benchable.name) n benches)
      ∙ bump_all-rounds n start (names benches)
