-- ===== src/Rng/LaneTests.antt =====
-- The theorem on lanes at registers that are functions from lanes to words.
use Prim.Native.Nat.{bit_or, bit_xor}
use benchmark_fun.Common.{
  ℕ, zero, suc, ◌+◌, ◌-◌, ◌*◌, ◌%◌, ◌^◌, ◌<◌, ◌≡◌, refl, sym, ap, ap₂, ◌∙◌, false, List, [], ◌∷◌,
  length, get_or, arith,
}
use benchmark_fun.Rng.Words.{shl, shr, rotl}
use benchmark_fun.Rng.Avx.{Intrinsics, avx128_traits, avx256_traits, avx512_traits}
use benchmark_fun.Rng.Xoroshiro.{XoroshiroRng}
use benchmark_fun.Rng.Lanes.{SameLane, lanes_independent}

-- The words of lanes `i` and on.
words : ℕ → ℕ → (ℕ → ℕ) → List ℕ
words zero i r = []
words (suc n) i r = r i ∷ words n (suc i) r

length-words : (n i : ℕ) (r : ℕ → ℕ) → length (words n i r) ≡ n
unfolding words
length-words zero i r = refl
length-words (suc n) i r = ap suc (length-words n (suc i) r)

lane-words : (n i j : ℕ) (r : ℕ → ℕ) → j < n → get_or (words n i r) j 0 ≡ r (i + j)
unfolding words
lane-words zero i j r h = absurd (omega arith)
lane-words (suc n) i zero r h = let e : i ≡ i + 0 = omega arith in ap r e
lane-words (suc n) i (suc j) r h =
    let e : suc i + j ≡ i + suc j = omega arith in lane-words n (suc i) j r (omega arith) ∙ ap r e

-- A lane of a stored register.
stored : (n i : ℕ) (r : ℕ → ℕ) → i < n → get_or (words n 0 r) i 0 ≡ r i
stored n i r h = let e : 0 + i ≡ i = omega arith in lane-words n 0 i r h ∙ ap r e

module _ (n : ℕ) where
  one_operand :
      (f : ℕ → ℕ) (r : ℕ → ℕ) (i : ℕ)
      → i < n
      → get_or (words n 0 (λ j. f (r j))) i 0 ≡ f (get_or (words n 0 r) i 0)
  one_operand f r i h = stored n i (λ j. f (r j)) h ∙ ap f (sym (stored n i r h))

  two_operands :
      (f : ℕ → ℕ → ℕ) (r s : ℕ → ℕ) (i : ℕ)
      → i < n
      → get_or (words n 0 (λ j. f (r j) (s j))) i 0
        ≡ f (get_or (words n 0 r) i 0) (get_or (words n 0 s) i 0)
  two_operands f r s i h =
      stored n i (λ j. f (r j) (s j)) h ∙ ap₂ f (sym (stored n i r h)) (sym (stored n i s h))

  lane_functions : Intrinsics ℕ n
  lane_functions = record {
    Int = ℕ → ℕ;
    Floats = ℕ → ℕ;
    rol_epi32 = λ a k i. rotl 32 (a i) k;
    rol_epi64 = λ a k i. a i;
    srli_epi32 = λ a k i. shr (a i) k;
    slli_epi32 = λ a k i. shl 32 (a i) k;
    srli_epi64 = λ a k i. a i;
    slli_epi64 = λ a k i. a i;
    set1_epi32 = λ v i. v % 2 ^ 32;
    mullo_epi32 = λ a b i. a i * b i % 2 ^ 32;
    xor_si = λ a b i. bit_xor (a i) (b i);
    or_si = λ a b i. bit_or (a i) (b i);
    store_si = words n 0;
    load_si = λ ws i. get_or ws i 0;
    sub_ps = λ a b i. a i - b i;
    set1_ps = λ x i. x;
    castsi_ps = λ a. a;
    store_ps = words n 0;
    length-store_si = length-words n 0;
    length-store_ps = length-words n 0;
    lane-rol = λ a k i below h. one_operand (λ x. rotl 32 x k) a i h;
    lane-srli = λ a k i h. one_operand (λ x. shr x k) a i h;
    lane-slli = λ a k i h. one_operand (λ x. shl 32 x k) a i h;
    lane-set1 = λ v i h. stored n i (λ _. v % 2 ^ 32) h;
    lane-mullo = λ a b i h. two_operands (λ x y. x * y % 2 ^ 32) a b i h;
    lane-xor = λ a b i h. two_operands bit_xor a b i h;
    lane-or = λ a b i h. two_operands bit_or a b i h;
    lane-load = λ ws i h. stored n i (λ j. get_or ws j 0) h;
  }

abbrev sixteen : List ℕ
sixteen = 1 ∷ 2 ∷ 3 ∷ 4 ∷ 5 ∷ 6 ∷ 7 ∷ 8 ∷ 9 ∷ 10 ∷ 11 ∷ 12 ∷ 13 ∷ 14 ∷ 15 ∷ 16 ∷ []

abbrev generators : XoroshiroRng
generators = record { a_states = sixteen; b_states = sixteen }

lanes_independent_example :
    SameLane (avx128_traits false (lane_functions 4)) generators 3
    × SameLane (avx256_traits false (lane_functions 8)) generators 7
    × SameLane (avx512_traits (lane_functions 16)) generators 15
lanes_independent_example =
    lanes_independent false (lane_functions 4) (lane_functions 8) (lane_functions 16) generators 3 7
      15 (omega arith) (omega arith) (omega arith)
