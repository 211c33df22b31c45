-- ===== src/Rng/Lanes.antt =====
-- Without lane weaving, each lane of the generator of src/utils/xoroshiro_64_star.hpp is the scalar
-- generator of src/benchmarks/rng/arrayfill.hpp, on every instruction set.
use Prim.Native.Nat.{bit_or, bit_xor}
use benchmark_fun.Common.{
  ℕ, ◌-◌, ◌*◌, ◌/◌, ◌%◌, ◌^◌, ◌<◌, ◌≡◌, ap, ap₂, arith, ◌∙◌, Bool, true, false, List, get_or,
}
use benchmark_fun.Rng.Words.{shl, rotl}
use benchmark_fun.Rng.Bits.{bit_xor_comm}
use benchmark_fun.Rng.Traits.{InstructionSetTraits}
use benchmark_fun.Rng.Avx.{Intrinsics, avx128_traits, avx256_traits, avx512_traits}
use benchmark_fun.Rng.Xoroshiro.{XoroshiroRng, advance}
use benchmark_fun.Rng.Scalar.{ScalarXoroshiro64Star, next_u32}

abbrev pub lane : List ℕ → ℕ → ℕ
lane words i = get_or words i 0

-- The scalar generator whose state stands in a lane.
abbrev pub lane_of : XoroshiroRng → ℕ → ScalarXoroshiro64Star
lane_of rng i = record { s0 = lane rng.a_states i; s1 = lane rng.b_states i }

module _ {Float : Type 0} (traits : InstructionSetTraits Float) where
  open traits use {
    Mi, bytes, rol_epi32, slli_epi32, set1_epi32, mullo_epi32, xor_si, store_si, load_si,
  }

  -- The operations that act on each lane for itself.
  pub record LaneWise : Type 0 where
    pub lane-rol :
        (a : Mi) (k i : ℕ)
        → k < 32
        → i < bytes / 4
        → lane (store_si (rol_epi32 k a)) i ≡ rotl 32 (lane (store_si a) i) k
    pub lane-slli :
        (a : Mi) (k i : ℕ)
        → i < bytes / 4
        → lane (store_si (slli_epi32 a k)) i ≡ shl 32 (lane (store_si a) i) k
    pub lane-mullo :
        (a b : Mi) (i : ℕ)
        → i < bytes / 4
        → lane (store_si (mullo_epi32 a b)) i ≡ lane (store_si a) i * lane (store_si b) i % 2 ^ 32
    pub lane-set1 : (v i : ℕ) → i < bytes / 4 → lane (store_si (set1_epi32 v)) i ≡ v % 2 ^ 32
    pub lane-xor :
        (a b : Mi) (i : ℕ)
        → i < bytes / 4
        → lane (store_si (xor_si a b)) i ≡ bit_xor (lane (store_si a) i) (lane (store_si b) i)
    pub lane-load :
        (words : List ℕ) (i : ℕ) → i < bytes / 4 → lane (store_si (load_si words)) i ≡ lane words i

  -- One step without lane weaving, and the number of one with it, seen in one lane.
  abbrev pub SameLane : XoroshiroRng → ℕ → Type 0
  SameLane rng i =
      (lane (store_si (advance traits false rng).0) i ≡ (next_u32 (lane_of rng i)).0)
      × (lane_of (advance traits false rng).1 i ≡ (next_u32 (lane_of rng i)).1)
      × (lane (store_si (advance traits true rng).0) i ≡ (next_u32 (lane_of rng i)).0)

  same_lane : LaneWise → (rng : XoroshiroRng) (i : ℕ) → i < bytes / 4 → SameLane rng i
  unfolding advance next_u32
  same_lane laws rng i h =
      let a = load_si rng.a_states in
      let b = xor_si a (load_si rng.b_states) in
      let s0 = lane rng.a_states i in
      let s1 = lane rng.b_states i in
      let a_lane : lane (store_si a) i ≡ s0 = laws.lane-load rng.a_states i h in
      let b_lane : lane (store_si b) i ≡ bit_xor s1 s0 =
        laws.lane-xor a (load_si rng.b_states) i h
        ∙ ap₂ bit_xor a_lane (laws.lane-load rng.b_states i h)
        ∙ bit_xor_comm s0 s1 in
      let multiplier : lane (store_si (set1_epi32 0x9E3779BB)) i ≡ 0x9E3779BB =
        laws.lane-set1 0x9E3779BB i h in
      let rolled : lane (store_si (rol_epi32 26 a)) i ≡ rotl 32 s0 26 =
        laws.lane-rol a 26 i (omega arith) h ∙ ap (λ x. rotl 32 x 26) a_lane in
      let shifted : lane (store_si (slli_epi32 b 9)) i ≡ shl 32 (bit_xor s1 s0) 9 =
        laws.lane-slli b 9 i h ∙ ap (λ x. shl 32 x 9) b_lane in
      let mixed =
        laws.lane-xor (xor_si (rol_epi32 26 a) b) (slli_epi32 b 9) i h
        ∙ ap₂ bit_xor (laws.lane-xor (rol_epi32 26 a) b i h ∙ ap₂ bit_xor rolled b_lane) shifted in
      let number =
        laws.lane-mullo a (set1_epi32 0x9E3779BB) i h
        ∙ ap₂ (λ x y. x * y % 2 ^ 32) a_lane multiplier in
      (
        number,
        ap₂ (λ x y. record { s0 = x; s1 = y }) mixed
            (laws.lane-rol b 13 i (omega arith) h ∙ ap (λ x. rotl 32 x 13) b_lane),
        number,
      )

module _ {Float : Type 0} (intrinsics : Intrinsics Float 4) where
  open intrinsics use {
    Int, slli_epi32, srli_epi32, store_si, lane-rol, lane-srli, lane-slli, lane-set1, lane-mullo,
    lane-xor, lane-or, lane-load,
  }

  emulated_128 :
      (a : Int) (k i : ℕ)
      → k < 32
      → i < 4
      → lane (store_si (intrinsics.or_si (slli_epi32 a k) (srli_epi32 a (32 - k)))) i
        ≡ rotl 32 (lane (store_si a) i) k
  unfolding rotl
  emulated_128 a k i below h =
      lane-or (slli_epi32 a k) (srli_epi32 a (32 - k)) i h
      ∙ ap₂ bit_or (lane-slli a k i h) (lane-srli a (32 - k) i h)

  avx128-LaneWise : (avx512 : Bool) → LaneWise (avx128_traits avx512 intrinsics)
  avx128-LaneWise true = record {
    lane-rol = lane-rol;
    lane-slli = lane-slli;
    lane-mullo = lane-mullo;
    lane-set1 = lane-set1;
    lane-xor = lane-xor;
    lane-load = lane-load;
  }
  avx128-LaneWise false = record {
    lane-rol = emulated_128;
    lane-slli = lane-slli;
    lane-mullo = lane-mullo;
    lane-set1 = lane-set1;
    lane-xor = lane-xor;
    lane-load = lane-load;
  }

module _ {Float : Type 0} (intrinsics : Intrinsics Float 8) where
  open intrinsics use {
    Int, slli_epi32, srli_epi32, store_si, lane-rol, lane-srli, lane-slli, lane-set1, lane-mullo,
    lane-xor, lane-or, lane-load,
  }

  emulated_256 :
      (a : Int) (k i : ℕ)
      → k < 32
      → i < 8
      → lane (store_si (intrinsics.or_si (slli_epi32 a k) (srli_epi32 a (32 - k)))) i
        ≡ rotl 32 (lane (store_si a) i) k
  unfolding rotl
  emulated_256 a k i below h =
      lane-or (slli_epi32 a k) (srli_epi32 a (32 - k)) i h
      ∙ ap₂ bit_or (lane-slli a k i h) (lane-srli a (32 - k) i h)

  avx256-LaneWise : (avx512 : Bool) → LaneWise (avx256_traits avx512 intrinsics)
  avx256-LaneWise true = record {
    lane-rol = lane-rol;
    lane-slli = lane-slli;
    lane-mullo = lane-mullo;
    lane-set1 = lane-set1;
    lane-xor = lane-xor;
    lane-load = lane-load;
  }
  avx256-LaneWise false = record {
    lane-rol = emulated_256;
    lane-slli = lane-slli;
    lane-mullo = lane-mullo;
    lane-set1 = lane-set1;
    lane-xor = lane-xor;
    lane-load = lane-load;
  }

module _ {Float : Type 0} (intrinsics : Intrinsics Float 16) where
  open intrinsics use {
    Int, slli_epi32, srli_epi32, store_si, lane-rol, lane-srli, lane-slli, lane-set1, lane-mullo,
    lane-xor, lane-or, lane-load,
  }

  avx512-LaneWise : LaneWise (avx512_traits intrinsics)
  avx512-LaneWise = record {
    lane-rol = lane-rol;
    lane-slli = lane-slli;
    lane-mullo = lane-mullo;
    lane-set1 = lane-set1;
    lane-xor = lane-xor;
    lane-load = lane-load;
  }

-- Without lane weaving, one step of the generator on 4, 8 or 16 lanes gives in each lane the number
-- and the next state of the scalar generator that stands in that lane, whether the rotation is the
-- one of AVX512 or is put together from two shifts; with lane weaving, as the fills and batches
-- take it, a step gives the same numbers. A rotation of the compiler's is by less than 32 bits.
pub lanes_independent :
    {Float : Type 0} (avx512 : Bool) (on_4 : Intrinsics Float 4) (on_8 : Intrinsics Float 8)
    (on_16 : Intrinsics Float 16) (rng : XoroshiroRng) (i j k : ℕ)
    → i < 4
    → j < 8
    → k < 16
    → SameLane (avx128_traits avx512 on_4) rng i
      × SameLane (avx256_traits avx512 on_8) rng j
      × SameLane (avx512_traits on_16) rng k
lanes_independent avx512 on_4 on_8 on_16 rng i j k h h' h'' = (
  same_lane (avx128_traits avx512 on_4) (avx128-LaneWise on_4 avx512) rng i h,
  same_lane (avx256_traits avx512 on_8) (avx256-LaneWise on_8 avx512) rng j h',
  same_lane (avx512_traits on_16) (avx512-LaneWise on_16) rng k h'',
)
