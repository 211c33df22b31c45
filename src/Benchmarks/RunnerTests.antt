-- ===== src/Benchmarks/RunnerTests.antt =====
-- Runs of src/benchmarks/bench_runner.hpp and binary_search/binary_search.hpp, with an insertion
-- sort for `std::sort` and natural numbers for `double`.
use benchmark_fun.Common.{
  ℕ, zero, suc, ◌+◌, ◌-◌, ◌*◌, ◌/◌, ◌≤◌, ◌<◌, ◌≡◌, refl, false, leb, ltb, ◌==◌, ==_iff,
  if◌then◌else◌, leb_pos, leb_neg, List, [], ◌∷◌, length, get_or, Option, some, inl, arith,
}
use native.Mathlib.Bridge.{le_prop}
use native.Mathlib.Decide.{dec_le}
use mathlib.Core.List.{Mem, Perm, Pairwise, forall_mem-cons, perm_append_comm, not-mem-nil}
use mathlib.Core.List.Pairwise
use mathlib.Core.List.Perm
use benchmark_fun.Benchmarks.Timer.{Timer}
use benchmark_fun.Benchmarks.Evaluation.{Doubles, Evaluation, iqm_of}
use benchmark_fun.Benchmarks.Evaluation.Order.{IsSorted, Sorts}
use benchmark_fun.Benchmarks.Evaluation.Middle.{iqm_robust}
use benchmark_fun.Benchmarks.Search.{
  StandardBinarySearch, new_search, refill_search, run_benchmark, repeated, Parts, ascending,
  searches_find,
}
use benchmark_fun.Benchmarks.Runner.{Benchable, execute_bench}
use benchmark_fun.Benchmarks.Runner.Measured.{Ahead}
use benchmark_fun.Benchmarks.Runner.Samples.{Times, Reports, execute_bench_lem}

abbrev insert : ℕ → List ℕ → List ℕ
insert x [] = x ∷ []
insert x (y ∷ ys) = let rest = insert x ys in if leb x y then x ∷ y ∷ ys else y ∷ rest

abbrev insertion_sort : List ℕ → List ℕ
insertion_sort [] = []
insertion_sort (x ∷ xs) = insert x (insertion_sort xs)

insert-Perm : (x : ℕ) (ys : List ℕ) → Perm (insert x ys) (x ∷ ys)
insert-Perm x [] = Perm.rfl
insert-Perm x (y ∷ ys) = elim (dec_le x y) [
  | yes h ↦ rw (leb_pos h) Perm.rfl
  | no h ↦
      let above : y < x = omega (arith, h) in
      rw (leb_neg above) (Perm.trans (Perm.cons y (insert-Perm x ys)) (Perm.swap x y ys))
]

insert-IsSorted : (x : ℕ) (ys : List ℕ) → IsSorted ys → IsSorted (insert x ys)
insert-IsSorted x [] sorted = Pairwise.cons (λ a m. absurd (not-mem-nil m)) Pairwise.nil
insert-IsSorted x (y ∷ ys) (Pairwise.cons from sorted) = elim (dec_le x y) [
  | yes h ↦ rw (leb_pos h) (
      Pairwise.cons
        ((forall_mem-cons (λ a. le_prop)).1 (h, λ a m. let up = from a m in omega (arith, up, h)))
        (Pairwise.cons from sorted))
  | no h ↦
      let above : y < x = omega (arith, h) in
      let le : y ≤ x = omega (arith, above) in
      rw (leb_neg above) (
        Pairwise.cons
          (λ a m.
            (forall_mem-cons (λ b. le_prop)).1 (le, from) a ((Perm.mem_iff (insert-Perm x ys)).0 m))
          (insert-IsSorted x ys sorted))
]

insertion_sort-Perm : (xs : List ℕ) → Perm (insertion_sort xs) xs
insertion_sort-Perm [] = Perm.rfl
insertion_sort-Perm (x ∷ xs) =
    Perm.trans (insert-Perm x (insertion_sort xs)) (Perm.cons x (insertion_sort-Perm xs))

insertion_sort-IsSorted : (xs : List ℕ) → IsSorted (insertion_sort xs)
insertion_sort-IsSorted [] = Pairwise.nil
insertion_sort-IsSorted (x ∷ xs) =
    insert-IsSorted x (insertion_sort xs) (insertion_sort-IsSorted xs)

insertion_sort-Sorts : Sorts insertion_sort
insertion_sort-Sorts = record { permutes = insertion_sort-Perm; ascends = insertion_sort-IsSorted }

abbrev numbers : Doubles
numbers = record {
  Double = ℕ;
  of_size = λ n. n;
  plus = λ a b. a + b;
  minus = λ a b. a - b;
  times = λ a b. a * b;
  over = λ a b. a / b;
  pow = λ a b. a * b;
  sqrt = λ a. a;
  alpha = 0;
  quantile = λ n a. n;
}

up_to_one : {a n : ℕ} → a ≤ n → (b : ℕ) → Mem b (n ∷ []) → a ≤ b
up_to_one le = (forall_mem-cons (λ b. le_prop)).1 (le, λ b m. absurd (not-mem-nil m))

all_up_prop : (n a : ℕ) → IsProp ((b : ℕ) → Mem b (n ∷ []) → a ≤ b)
all_up_prop n a p q i b m = le_prop (p b m) (q b m) i

above_three : (n : ℕ) → 3 ≤ n → (a : ℕ) → Mem a (1 ∷ 2 ∷ 3 ∷ []) → (b : ℕ) → Mem b (n ∷ []) → a ≤ b
above_three n h = (forall_mem-cons (all_up_prop n)).1 (
  up_to_one (omega (arith, h)),
  (forall_mem-cons (all_up_prop n)).1 (
    up_to_one (omega (arith, h)),
    (forall_mem-cons (all_up_prop n)).1 (up_to_one h, λ a m. absurd (not-mem-nil m)),
  ),
)

iqm_robust_example :
    iqm_of numbers insertion_sort (100 ∷ 1 ∷ 2 ∷ 3 ∷ [])
    ≡ iqm_of numbers insertion_sort (1 ∷ 2 ∷ 3 ∷ 50 ∷ [])
iqm_robust_example =
    iqm_robust numbers insertion_sort insertion_sort-Sorts (1 ∷ 2 ∷ 3 ∷ []) (100 ∷ []) (50 ∷ [])
      (100 ∷ 1 ∷ 2 ∷ 3 ∷ []) (1 ∷ 2 ∷ 3 ∷ 50 ∷ []) (perm_append_comm (100 ∷ []) (1 ∷ 2 ∷ 3 ∷ []))
      Perm.rfl (above_three 100 (omega arith)) (above_three 50 (omega arith)) refl (omega arith)

-- A clock that each reading moves on, and benchmarks that take as long as they have iterations.
abbrev read_clock : ℕ → ℕ × ℕ
read_clock now = (now, now + 1)

abbrev waits : ℕ → Benchable ℕ ℕ
waits name = record {
  name = name;
  run_benchmark = λ iterations now. some (now + iterations);
  reset_benchmark = λ now. some now;
}

ahead : (name : ℕ) → Ahead ◌==◌ read_clock 5 (waits name)
ahead name now = (now + 1 + 5, now + 1 + 5 + 1, refl, refl, omega arith)

abbrev idle_timer : Timer
idle_timer = record { is_timing = false; start_time = 0 }

execute_bench_lem_example :
    (report : List (Evaluation numbers ℕ) × Option ℕ) × (timer' : Timer) × (execute_bench ◌==◌
        read_clock 5 numbers insertion_sort 30
        (waits 1 ∷ waits 2 ∷ [])
        7
        idle_timer
      ≡ inl (report, timer'))
    × (timer'.is_timing ≡ false)
    × Times ◌==◌ read_clock 5 numbers insertion_sort 30 (waits 1 ∷ waits 2 ∷ []) 7 report
    × Reports ◌==◌ read_clock 5 numbers 30 (waits 1 ∷ waits 2 ∷ []) report
execute_bench_lem_example =
    execute_bench_lem ◌==◌ read_clock 5 ==_iff numbers insertion_sort 29 (waits 1 ∷ waits 2 ∷ []) 7
      idle_timer (ahead 1, (ahead 2, omega arith)) refl
      (omega arith, ((refl, omega arith), omega arith))

-- The number of elements before the first one that is not below a value.
abbrev lower_bound : List ℕ → ℕ → ℕ
lower_bound [] e = 0
lower_bound (x ∷ xs) e = let rest = lower_bound xs e in if ltb x e then suc rest else 0

lower_bound_below :
    (xs : List ℕ) (e i : ℕ) → i < lower_bound xs e → i < length xs → get_or xs i 0 < e
lower_bound_below [] e i h inside = absurd (omega (arith, inside))
lower_bound_below (x ∷ xs) e zero h inside = ground arith
lower_bound_below (x ∷ xs) e (suc i) h inside =
    let next = lower_bound_below xs e i in ground (arith, next)

lower_bound_from :
    (xs : List ℕ) (e i : ℕ) → IsSorted xs → lower_bound xs e ≤ i → i < length xs → e ≤ get_or xs i 0
lower_bound_from [] e i sorted h inside = absurd (omega (arith, inside))
lower_bound_from (x ∷ xs) e zero sorted h inside = ground arith
lower_bound_from (x ∷ xs) e (suc i) sorted h inside =
    let next = lower_bound_from xs e i (Pairwise.of_cons sorted) in
    let up : x ≤ get_or xs i 0 = ascending (x ∷ xs) 0 (suc i) sorted (omega arith) inside in
    ground (arith, next, up)

lower_bound-Parts : Parts lower_bound
lower_bound-Parts = record {
  below = λ xs e i sorted h inside. lower_bound_below xs e i h inside;
  from = lower_bound_from;
}

searches_find_example :
    (b : StandardBinarySearch) × (b' : StandardBinarySearch) × (new_search 8 insertion_sort
        (5 ∷ 1 ∷ 3 ∷ 8 ∷ [])
        (7 ∷ 2 ∷ [])
      ≡ some b)
    × (run_benchmark lower_bound 2 b ≡ some (repeated 2 b.search))
    × (refill_search 8 (4 ∷ []) b ≡ some b')
    × (run_benchmark lower_bound 2 b' ≡ some (repeated 2 b'.search))
searches_find_example =
    searches_find insertion_sort lower_bound insertion_sort-Sorts lower_bound-Parts 8
      (5 ∷ 1 ∷ 3 ∷ 8 ∷ []) (7 ∷ 2 ∷ []) (4 ∷ []) 2 (omega arith) refl
