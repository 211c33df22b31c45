-- ===== src/Rng/HeavyTests.antt =====
-- The theorems on the generators of one_and_dones/no_unique_address.cpp at the scalar instruction
-- set, with ℕ for `float`.
use benchmark_fun.Common.{ℕ, ◌-◌, ◌≡◌, refl, none, some, List, [], ◌∷◌, arith}
use benchmark_fun.Rng.Traits.{none_traits, InstructionSetTraits}
use benchmark_fun.Rng.Heavy.{HeavyXoroshiroRng, Call, Drawn, start, run}
use benchmark_fun.Rng.Heavy.Draws.{IsValid, take_all, view, start-IsValid, heavy_draws}
use benchmark_fun.Rng.Buffered.{start_buffered, call_buffered}
use benchmark_fun.Rng.Buffered.Unset.{buffered_unset}

abbrev traits : InstructionSetTraits ℕ
traits = none_traits ℕ (λ a b. a - b) (λ a. a)

abbrev calls : List Call
calls = Call.uint32 ∷ Call.float ∷ Call.int32 ∷ Call.uint32 ∷ Call.float ∷ []

heavy_draws_example :
    (xs : List (Drawn ℕ)) × (s' : HeavyXoroshiroRng ℕ) × (run traits 1 calls (start traits 1 5)
      ≡ some (xs, s'))
    × (take_all traits 1 calls (view traits 1 (start traits 1 5)) ≡ some (xs, view traits 1 s'))
    × IsValid traits 1 s'
heavy_draws_example =
    heavy_draws traits 1 (omega arith) calls (start traits 1 5) (start-IsValid traits 1 5)

buffered_unset_example :
    call_buffered traits 1
      (Call.float ∷ Call.uint32 ∷ [])
      Call.uint32
      refl
      (start_buffered traits (Call.float ∷ Call.uint32 ∷ []) 5)
    ≡ none
buffered_unset_example = buffered_unset traits 1 Call.uint32 (Call.float ∷ Call.uint32 ∷ []) 5 refl
