-- ===== src/Rng/Tests.antt =====
-- Runs of src/utils/xoroshiro_64_star.hpp and src/benchmarks/rng, and their theorems at concrete
-- generators. The scalar instruction set stands for a register, and ℕ for `float`.
use benchmark_fun.Common.{
  ℕ, ◌-◌, ◌^◌, ◌<◌, ◌≡◌, refl, some, List, [], ◌∷◌, ◌++◌, length, take, arith,
}
use benchmark_fun.Rng.Traits.{none_traits, InstructionSetTraits}
use benchmark_fun.Rng.Xoroshiro.{store, get_batch_uint32, fill_aligned, fill_partial_aligned}
use benchmark_fun.Rng.Scalar.{
  ScalarXoroshiro64Star, next_u32, prev_u32, one_lane, next_u32_reversible,
}
use benchmark_fun.Rng.Fill.{
  rounds, stream, after, partial_words, fill_aligned_lem, fill_partial_aligned_lem,
}
use benchmark_fun.Rng.Sequential.{
  SequentialXoroshiroRng, IsValid, draw, pending, whole_batch, draw_lem,
}
use benchmark_fun.Rng.Plus.{Xoroshiro128plus, IsWords}

abbrev traits : InstructionSetTraits ℕ
traits = none_traits ℕ (λ a b. a - b) (λ a. a)

abbrev scalar : ScalarXoroshiro64Star
scalar = record { s0 = 123456789; s1 = 987654321 }

abbrev zeroed : ℕ → ℕ
zeroed _ = 0

abbrev buffered : SequentialXoroshiroRng ℕ
buffered = record {
  rng = one_lane scalar;
  int_buffer = 7 ∷ [];
  float_buffer = 8 ∷ [];
  int_idx = 0;
  float_idx = 0;
}

buffered-IsValid : IsValid traits 1 (omega arith) buffered
buffered-IsValid = record { full = refl; idx_in = omega arith }

abbrev wide : Xoroshiro128plus
wide = record { state0 = 1; state1 = 2 }

wide-IsWords : IsWords wide
wide-IsWords = record { state0-lt = omega arith; state1-lt = omega arith }

next_u32_reversible_example :
    ((next_u32 scalar).1.s0 < 2 ^ 32)
    × ((next_u32 scalar).1.s1 < 2 ^ 32)
    × (prev_u32 (next_u32 scalar).1 ≡ scalar)
next_u32_reversible_example = next_u32_reversible scalar (omega arith) (omega arith)

fill_aligned_lem_example :
    fill_aligned traits (get_batch_uint32 traits) 8 3 zeroed (one_lane scalar)
    ≡ some (
      store zeroed 8 (
          take 3 (
            stream traits
              (get_batch_uint32 traits)
              (whole_batch traits 1 (omega arith))
              (rounds traits (get_batch_uint32 traits) (whole_batch traits 1 (omega arith)) 3)
              (one_lane scalar))),
      after traits
          (get_batch_uint32 traits)
          (whole_batch traits 1 (omega arith))
          (rounds traits (get_batch_uint32 traits) (whole_batch traits 1 (omega arith)) 3)
          (one_lane scalar),
    )
fill_aligned_lem_example =
    fill_aligned_lem traits (get_batch_uint32 traits) (whole_batch traits 1 (omega arith)) 8 3
      zeroed (one_lane scalar) refl

fill_partial_aligned_lem_example :
    (length
        (partial_words traits
          (get_batch_uint32 traits)
          (whole_batch traits 1 (omega arith))
          8
          3
          (one_lane scalar)).0
      ≡ 3)
    × (fill_partial_aligned traits (get_batch_uint32 traits) 8 3 zeroed (one_lane scalar)
        ≡ some (
          store zeroed 8
              (partial_words traits
                (get_batch_uint32 traits)
                (whole_batch traits 1 (omega arith))
                8
                3
                (one_lane scalar)).0,
          (partial_words traits
              (get_batch_uint32 traits)
              (whole_batch traits 1 (omega arith))
              8
              3
              (one_lane scalar)).1,
        ))
fill_partial_aligned_lem_example =
    fill_partial_aligned_lem traits (get_batch_uint32 traits) (whole_batch traits 1 (omega arith)) 8
      3 zeroed (one_lane scalar) refl

draw_lem_example :
    (words : List ℕ) × (s' : SequentialXoroshiroRng ℕ) × (k' : ℕ) × (draw traits 1 3 buffered
      ≡ some (words, s'))
    × (length words ≡ 3)
    × (words ++ pending traits 1 (omega arith) k' s' ≡ pending traits 1 (omega arith) 4 buffered)
draw_lem_example = draw_lem traits 1 (omega arith) 3 4 buffered buffered-IsValid (omega arith)
