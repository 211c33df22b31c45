-- ===== src/Mpmc/Bencher.antt =====
-- The threads that src/benchmarks/MPMC/MPMC_bencher.hpp starts, with the core of each. What a thread
-- computes between its calls of the queue is left out.
use benchmark_fun.Common.{
  ℕ, zero, suc, ◌+◌, ◌*◌, ◌%◌, ◌^◌, ◌≤◌, ◌<◌, ◌≡◌, refl, sym, ap, ◌∙◌, List, [], ◌∷◌, length, some,
  get_elem?, get_elem?_out, if◌then◌else◌, leb, leb_pos, leb_neg, arith,
}
use mathlib.Core.Option.{some-injective}
use native.Mathlib.Decide.{dec_le}

-- `incrementPin`, after a thread on core `cpu`
abbrev pub increment_pin : (producers consumers cpu : ℕ) → ℕ
increment_pin producers consumers cpu =
    (cpu + (if leb ((producers + consumers) % 2 ^ 64) 8 then 2 else 1)) % 16

-- A thread that runs `popFn(cpu)` or `pushFn(cpu)`.
pub data Worker : Type 0 where
  pop_fn push_fn : ℕ → Worker

abbrev pub cpu_of : Worker → ℕ
cpu_of (Worker.pop_fn cpu) = cpu
cpu_of (Worker.push_fn cpu) = cpu

-- 1 for a popper and 0 for a pusher
abbrev pub pops : Worker → ℕ
pops (Worker.pop_fn cpu) = 1
pops (Worker.push_fn cpu) = 0

-- The loop that fills `threads`, with this many rounds left.
abbrev pub start_from : (producers consumers left cpu : ℕ) → List Worker
start_from producers consumers zero cpu = []
start_from producers consumers (suc left) cpu =
    let first = increment_pin producers consumers cpu in
    let second = increment_pin producers consumers first in
    Worker.pop_fn first ∷ Worker.push_fn second ∷ start_from producers consumers left second

-- `threads` of a bencher made with `numPairs`
abbrev pub start_threads : ℕ → List Worker
start_threads pairs = start_from pairs pairs pairs 0

length-start_from :
    (producers consumers left cpu : ℕ) → length (start_from producers consumers left cpu) ≡ 2 * left
length-start_from producers consumers zero cpu = refl
length-start_from producers consumers (suc left) cpu =
    let first = increment_pin producers consumers cpu in
    let rest =
      length-start_from producers consumers left (increment_pin producers consumers first) in
    omega (arith, rest)

pops_at :
    (producers consumers left cpu i : ℕ) {w : Worker}
    → get_elem? (start_from producers consumers left cpu) i ≡ some w
    → (pops w + i) % 2 ≡ 1
pops_at producers consumers zero cpu i at = cc at
pops_at producers consumers (suc left) cpu zero at =
    let first = ap pops (some-injective _ _ at) in omega (arith, first)
pops_at producers consumers (suc left) cpu (suc zero) at =
    let second = ap pops (some-injective _ _ at) in omega (arith, second)
pops_at producers consumers (suc left) cpu (suc (suc i)) at =
    let first = increment_pin producers consumers cpu in
    let rest = pops_at producers consumers left (increment_pin producers consumers first) i at in
    omega (arith, rest)

pops_le : (w : Worker) → pops w ≤ 1
pops_le (Worker.pop_fn cpu) = omega arith
pops_le (Worker.push_fn cpu) = omega arith

module _ (d producers consumers : ℕ)
    (by_d : (cpu : ℕ) → increment_pin producers consumers cpu ≡ (cpu + d) % 16) where
  next_cpu : (cpu m : ℕ) → (increment_pin producers consumers cpu + m) % 16 ≡ (cpu + d + m) % 16
  next_cpu cpu m = let e = by_d cpu in omega (arith, e)

  cpu_at :
      (left cpu i : ℕ) {w : Worker}
      → get_elem? (start_from producers consumers left cpu) i ≡ some w
      → cpu_of w ≡ (cpu + d * suc i) % 16
  cpu_at zero cpu i at = cc at
  cpu_at (suc left) cpu zero at =
      let first = ap cpu_of (some-injective _ _ at) in let e = by_d cpu in omega (arith, first, e)
  cpu_at (suc left) cpu (suc zero) at =
      let second = ap cpu_of (some-injective _ _ at) in
      let e = by_d (increment_pin producers consumers cpu) in
      let next = next_cpu cpu d in omega (arith, second, e, next)
  cpu_at (suc left) cpu (suc (suc i)) at =
      let first = increment_pin producers consumers cpu in
      let rest = cpu_at left (increment_pin producers consumers first) i at in
      let second = next_cpu first (d * suc i) in
      let next = next_cpu cpu (d + d * suc i) in omega (arith, rest, second, next)

increment_by_two :
    (pairs : ℕ) → pairs ≤ 4 → (cpu : ℕ) → increment_pin pairs pairs cpu ≡ (cpu + 2) % 16
increment_by_two pairs few cpu =
    let le : (pairs + pairs) % 2 ^ 64 ≤ 8 = omega (arith, few) in rw (leb_pos le) refl

increment_by_one :
    (pairs : ℕ)
    → 4 < pairs
    → pairs < 2 ^ 63
    → (cpu : ℕ) → increment_pin pairs pairs cpu ≡ (cpu + 1) % 16
increment_by_one pairs many few cpu =
    let lt : 8 < (pairs + pairs) % 2 ^ 64 = omega (arith, many, few) in rw (leb_neg lt) refl

below_length :
    (pairs i : ℕ) {w : Worker} → get_elem? (start_threads pairs) i ≡ some w → i < 2 * pairs
below_length pairs i at =
    let n = length-start_from pairs pairs pairs 0 in
    elim (dec_le (length (start_threads pairs)) i) [
      | yes out ↦ absurd (cc (sym at ∙ get_elem?_out (start_threads pairs) i out))
      | no h ↦ omega (arith, h, n)
    ]

-- A bencher with fewer than 2 ^ 63 pairs starts two threads for each. Those on the same core are
-- all poppers or all pushers, and with at most 8 pairs no two are on the same core.
pins_apart :
    (pairs : ℕ)
    → pairs < 2 ^ 63
    → (length (start_threads pairs) ≡ 2 * pairs)
      × ((i j : ℕ) (w v : Worker)
          → get_elem? (start_threads pairs) i ≡ some w
          → get_elem? (start_threads pairs) j ≡ some v
          → cpu_of w ≡ cpu_of v
          → (pops w ≡ pops v) × (pairs ≤ 8 → i ≡ j))
pins_apart pairs few = (
  length-start_from pairs pairs pairs 0,
  λ i j w v at_i at_j same.
      let i_lt = below_length pairs i at_i in
      let j_lt = below_length pairs j at_j in
      let i_pops = pops_at pairs pairs pairs 0 i at_i in
      let j_pops = pops_at pairs pairs pairs 0 j at_j in
      let w_le = pops_le w in
      let v_le = pops_le v in
      elim (dec_le pairs 4) [
        | yes le ↦
            let by_two = increment_by_two pairs le in
            let ci = cpu_at 2 pairs pairs by_two pairs 0 i at_i in
            let cj = cpu_at 2 pairs pairs by_two pairs 0 j at_j in
            let alone : i ≡ j = omega (arith, ci, cj, same, i_lt, j_lt, le) in
            (omega (arith, alone, i_pops, j_pops, w_le, v_le), λ _. alone)
        | no more ↦
            let by_one = increment_by_one pairs (omega (arith, more)) few in
            let ci = cpu_at 1 pairs pairs by_one pairs 0 i at_i in
            let cj = cpu_at 1 pairs pairs by_one pairs 0 j at_j in
            let round : suc i % 16 ≡ suc j % 16 = omega (arith, ci, cj, same) in
            (
              omega (arith, round, i_pops, j_pops, w_le, v_le),
              λ le. omega (arith, round, i_lt, j_lt, le),
            )
      ],
)
