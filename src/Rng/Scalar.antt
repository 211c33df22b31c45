-- ===== src/Rng/Scalar.antt =====
-- `ScalarXoroshiro64Star` of src/benchmarks/rng/arrayfill.hpp, and the loop that fills an array
-- from it. Without vector registers, the generator of src/utils/xoroshiro_64_star.hpp is the same
-- one.
use Prim.Native.Nat.{bit_xor}
use benchmark_fun.Common.{
  ℕ, zero, suc, ◌*◌, ◌%◌, ◌^◌, ◌<◌, ◌≡◌, ap, Bool, true, false, ◌∙◌, List, [], ◌∷◌, arith,
}
use benchmark_fun.Rng.Bits.{bit_xor_comm, bit_xor-cancel, bit_xor-lt, rotl_32_by_26, rotl_32_by_13}
use benchmark_fun.Rng.Words.{shl, rotl}
use benchmark_fun.Rng.Traits.{none_traits}
use benchmark_fun.Rng.Xoroshiro.{XoroshiroRng, advance}

pub record ScalarXoroshiro64Star : Type 0 where
  pub s0 : ℕ
  pub s1 : ℕ

unfoldable pub next_u32 : ScalarXoroshiro64Star → ℕ × ScalarXoroshiro64Star
next_u32 g =
    let result = g.s0 * 0x9E3779BB % 2 ^ 32 in
    let s1 = bit_xor g.s1 g.s0 in
    (
      result,
      record { s0 = bit_xor (bit_xor (rotl 32 g.s0 26) s1) (shl 32 s1 9); s1 = rotl 32 s1 13 },
    )

-- The loop of `runBenchmark` that draws `n` numbers into the array.
abbrev pub array_fill : ℕ → ScalarXoroshiro64Star → List ℕ × ScalarXoroshiro64Star
unfolding next_u32
array_fill zero g = ([], g)
array_fill (suc n) g =
    let (word, g') = next_u32 g in let (words, g'') = array_fill n g' in (word ∷ words, g'')

abbrev mixed : ℕ → ℕ → ScalarXoroshiro64Star
mixed s0 s1 = record { s0 = bit_xor (bit_xor (rotl 32 s0 26) s1) (shl 32 s1 9); s1 = rotl 32 s1 13 }

-- A scalar generator as the arrays of one lane.
abbrev pub one_lane : ScalarXoroshiro64Star → XoroshiroRng
one_lane g = record { a_states = g.s0 ∷ []; b_states = g.s1 ∷ [] }

abbrev answer : ScalarXoroshiro64Star → ℕ → ℕ × XoroshiroRng
answer g s1 = (g.s0 * 0x9E3779BB % 2 ^ 32, one_lane (mixed g.s0 s1))

xor_order :
    (g : ScalarXoroshiro64Star)
    → answer g (bit_xor g.s0 g.s1) ≡ ((next_u32 g).0, one_lane (next_u32 g).1)
unfolding next_u32
xor_order g = ap (answer g) (bit_xor_comm g.s0 g.s1)

module _ (Float : Type 0) (sub : Float → Float → Float) (bit_cast : ℕ → Float) where
  -- Without vector registers, with or without lane weaving, one step of the batched generator gives
  -- the number and the next state of the scalar generator.
  advance_is_scalar :
      (lane_weaving : Bool) (g : ScalarXoroshiro64Star)
      → advance (none_traits Float sub bit_cast) lane_weaving (one_lane g)
        ≡ ((next_u32 g).0, one_lane (next_u32 g).1)
  unfolding advance next_u32
  advance_is_scalar true g = xor_order g
  advance_is_scalar false g = xor_order g

-- The step backwards, from `s1` before its rotation and the new `s0`.
abbrev undo : ℕ → ℕ → ScalarXoroshiro64Star
undo s1 mixed =
    let s0 = rotl 32 (bit_xor (bit_xor mixed (shl 32 s1 9)) s1) 6 in
    record { s0 = s0; s1 = bit_xor s1 s0 }

abbrev pub prev_u32 : ScalarXoroshiro64Star → ScalarXoroshiro64Star
prev_u32 g = undo (rotl 32 g.s1 19) g.s0

-- From 32-bit words a step leads to 32-bit words, and the step backwards undoes it, so that no
-- two states lead to the same one.
pub next_u32_reversible :
    (g : ScalarXoroshiro64Star)
    → g.s0 < 2 ^ 32
    → g.s1 < 2 ^ 32
    → ((next_u32 g).1.s0 < 2 ^ 32) × ((next_u32 g).1.s1 < 2 ^ 32) × (prev_u32 (next_u32 g).1 ≡ g)
unfolding next_u32
next_u32_reversible g h0 h1 =
    let x = bit_xor g.s1 g.s0 in
    let x-lt : x < 2 ^ 32 = bit_xor-lt 32 g.s1 g.s0 h1 h0 in
    let r = rotl 32 g.s0 26 in
    let (r-lt, back_26) = rotl_32_by_26 g.s0 h0 in
    let (y-lt, back_13) = rotl_32_by_13 x x-lt in
    let mixed = bit_xor (bit_xor r x) (shl 32 x 9) in
    let unmixed : bit_xor (bit_xor mixed (shl 32 x 9)) x ≡ r =
      ap (λ z. bit_xor z x) (bit_xor-cancel (bit_xor r x) (shl 32 x 9)) ∙ bit_xor-cancel r x in
    (
      bit_xor-lt 32 (bit_xor r x) (shl 32 x 9) (bit_xor-lt 32 r x r-lt x-lt) (omega arith),
      y-lt,
      ap (λ y. undo y mixed) back_13
          ∙ ap (λ u. record { s0 = u; s1 = bit_xor x u }) (ap (λ z. rotl 32 z 6) unmixed ∙ back_26)
          ∙ ap (λ v. record { s0 = g.s0; s1 = v }) (bit_xor-cancel g.s1 g.s0),
    )
