-- ===== src/Rng/Plus.antt =====
-- `Xoroshiro128plus` of src/benchmarks/rng/xoroshiro128+.hpp. `get_random_uint` gives the integer
-- that the source then converts to `double`.
use Prim.Native.Nat.{bit_and, bit_xor}
use benchmark_fun.Common.{
  ℕ, zero, suc, ◌+◌, ◌*◌, ◌%◌, ◌^◌, ◌<◌, ◌≡◌, ap, ◌∙◌, Bool, true, false, not, ◌==◌, arith,
}
use benchmark_fun.Rng.Bits.{bit_xor-cancel, bit_xor-lt, rotl_64_by_24, rotl_64_by_37}
use benchmark_fun.Rng.Words.{shl, shr, rotl}

pub record Xoroshiro128plus : Type 0 where
  pub state0 : ℕ
  pub state1 : ℕ

-- The number drawn, and the seed that the call leaves.
pub splitmix64 : ℕ → ℕ × ℕ
splitmix64 seed =
    let seed' = (seed + 0x9E3779B97F4A7C15) % 2 ^ 64 in
    let r1 = bit_xor seed' (shr seed' 30) * 0xBF58476D1CE4E5B9 % 2 ^ 64 in
    let r2 = bit_xor r1 (shr r1 27) * 0x94D049BB133111EB % 2 ^ 64 in (bit_xor r2 (shr r2 31), seed')

abbrev pub create : ℕ → Xoroshiro128plus
unfolding splitmix64
create seed =
    let (state0, seed') = splitmix64 seed in
    record { state0 = state0; state1 = (splitmix64 seed').0 }

pub get_random_uint : Xoroshiro128plus → ℕ × Xoroshiro128plus
get_random_uint g =
    let result = (g.state0 + g.state1) % 2 ^ 64 in
    let state1 = bit_xor g.state1 g.state0 in
    (
      result,
      record {
        state0 = bit_xor (bit_xor (rotl 64 g.state0 24) state1) (shl 64 state1 16);
        state1 = rotl 64 state1 37;
      },
    )

-- The state is gathered where the bit of the jump value is set.
gather : Bool → Xoroshiro128plus → Xoroshiro128plus → Xoroshiro128plus
gather true acc g = record {
  state0 = bit_xor acc.state0 g.state0;
  state1 = bit_xor acc.state1 g.state1;
}
gather false acc g = acc

-- The inner loop of `jump` from `bit_idx` on, for `rounds` bits; the first state is the one
-- gathered.
jump_bits : ℕ → ℕ → ℕ → Xoroshiro128plus → Xoroshiro128plus → Xoroshiro128plus × Xoroshiro128plus
unfolding gather
jump_bits jump_val zero bit_idx acc g = (acc, g)
jump_bits jump_val (suc rounds) bit_idx acc g =
    let acc' = gather (not (bit_and jump_val (shl 64 1 bit_idx) == 0)) acc g in
    jump_bits jump_val rounds (bit_idx + 1) acc' (get_random_uint g).1

unfoldable pub jump : Xoroshiro128plus → Xoroshiro128plus
unfolding jump_bits
jump g =
    let (acc, g') = jump_bits 0xdf900294d8f554a5 64 0 (record { state0 = 0; state1 = 0 }) g in
    (jump_bits 0x170865df4b3201fc 64 0 acc g').0

-- The step backwards, from `state1` before its rotation and the new `state0`.
abbrev undo : ℕ → ℕ → Xoroshiro128plus
undo state1 mixed =
    let state0 = rotl 64 (bit_xor (bit_xor mixed (shl 64 state1 16)) state1) 40 in
    record { state0 = state0; state1 = bit_xor state1 state0 }

abbrev pub prev : Xoroshiro128plus → Xoroshiro128plus
prev g = undo (rotl 64 g.state1 27) g.state0

pub record IsWords (g : Xoroshiro128plus) : Type 0 where
  pub state0-lt : g.state0 < 2 ^ 64
  pub state1-lt : g.state1 < 2 ^ 64

-- From 64-bit words a step leads to 64-bit words, and the step backwards undoes it: no two states
-- lead to the same one.
get_random_uint_reversible :
    (g : Xoroshiro128plus)
    → IsWords g
    → IsWords (get_random_uint g).1 × (prev (get_random_uint g).1 ≡ g)
unfolding get_random_uint
get_random_uint_reversible g v =
    let x = bit_xor g.state1 g.state0 in
    let x-lt : x < 2 ^ 64 = bit_xor-lt 64 g.state1 g.state0 v.state1-lt v.state0-lt in
    let r = rotl 64 g.state0 24 in
    let (r-lt, back_24) = rotl_64_by_24 g.state0 v.state0-lt in
    let (y-lt, back_37) = rotl_64_by_37 x x-lt in
    let mixed = bit_xor (bit_xor r x) (shl 64 x 16) in
    let unmixed : bit_xor (bit_xor mixed (shl 64 x 16)) x ≡ r =
      ap (λ z. bit_xor z x) (bit_xor-cancel (bit_xor r x) (shl 64 x 16)) ∙ bit_xor-cancel r x in
    (
      record {
        state0-lt =
            bit_xor-lt 64 (bit_xor r x) (shl 64 x 16) (bit_xor-lt 64 r x r-lt x-lt) (omega arith);
        state1-lt = y-lt;
      },
      ap (λ y. undo y mixed) back_37
          ∙ ap (λ u. record { state0 = u; state1 = bit_xor x u })
              (ap (λ z. rotl 64 z 40) unmixed ∙ back_24)
          ∙ ap (λ v. record { state0 = g.state0; state1 = v }) (bit_xor-cancel g.state1 g.state0),
    )

gather-IsWords :
    (bit : Bool) (acc g : Xoroshiro128plus) → IsWords acc → IsWords g → IsWords (gather bit acc g)
unfolding gather
gather-IsWords false acc g a v = a
gather-IsWords true acc g a v = record {
  state0-lt = bit_xor-lt 64 acc.state0 g.state0 a.state0-lt v.state0-lt;
  state1-lt = bit_xor-lt 64 acc.state1 g.state1 a.state1-lt v.state1-lt;
}

jump_bits-IsWords :
    (jump_val rounds bit_idx : ℕ) (acc g : Xoroshiro128plus)
    → IsWords acc
    → IsWords g
    → IsWords (jump_bits jump_val rounds bit_idx acc g).0
      × IsWords (jump_bits jump_val rounds bit_idx acc g).1
unfolding jump_bits
jump_bits-IsWords jump_val zero bit_idx acc g a v = (a, v)
jump_bits-IsWords jump_val (suc rounds) bit_idx acc g a v =
    jump_bits-IsWords jump_val rounds (bit_idx + 1) _ _
      (gather-IsWords (not (bit_and jump_val (shl 64 1 bit_idx) == 0)) acc g a v)
      (get_random_uint_reversible g v).0

-- A jump leads from 64-bit words to 64-bit words.
pub jump-IsWords : (g : Xoroshiro128plus) → IsWords g → IsWords (jump g)
unfolding jump
jump-IsWords g v =
    let start : IsWords (record { state0 = 0; state1 = 0 }) = record {
      state0-lt = omega arith;
      state1-lt = omega arith;
    } in
    let (acc, g') = jump_bits-IsWords 0xdf900294d8f554a5 64 0 _ g start v in
    (jump_bits-IsWords 0x170865df4b3201fc 64 0 _ _ acc g').0
