-- ===== src/Rng/Avx.antt =====
-- `InstructionSetTraits` of AVX, AVX2 and AVX512 in src/utils/xoroshiro_64_star.hpp. The intrinsics
-- of the compiler are a parameter, with what their documentation says of each lane.
use Prim.Native.Nat.{bit_or, bit_xor}
use benchmark_fun.Common.{
  ℕ, ◌-◌, ◌*◌, ◌/◌, ◌%◌, ◌^◌, ◌<◌, ◌≡◌, refl, Bool, List, length, get_or, if◌then◌else◌, arith,
}
use benchmark_fun.Rng.Words.{shl, shr, rotl}
use benchmark_fun.Rng.Traits.{InstructionSetTraits}

-- The intrinsics on a register of `lanes` 32-bit lanes. The `rol` ones are of AVX512 at any width.
pub record Intrinsics (Float : Type 0) (lanes : ℕ) : Type 1 where
  pub Int : Type 0
  pub Floats : Type 0
  pub rol_epi32 : Int → ℕ → Int
  pub rol_epi64 : Int → ℕ → Int
  pub srli_epi32 : Int → ℕ → Int
  pub slli_epi32 : Int → ℕ → Int
  pub srli_epi64 : Int → ℕ → Int
  pub slli_epi64 : Int → ℕ → Int
  pub set1_epi32 : ℕ → Int
  pub mullo_epi32 : Int → Int → Int
  pub xor_si : Int → Int → Int
  pub or_si : Int → Int → Int
  pub store_si : Int → List ℕ
  pub load_si : List ℕ → Int
  pub sub_ps : Floats → Floats → Floats
  pub set1_ps : Float → Floats
  pub castsi_ps : Int → Floats
  pub store_ps : Floats → List Float
  pub length-store_si : (a : Int) → length (store_si a) ≡ lanes
  pub length-store_ps : (a : Floats) → length (store_ps a) ≡ lanes
  pub lane-rol :
      (a : Int) (k i : ℕ)
      → k < 32
      → i < lanes
      → get_or (store_si (rol_epi32 a k)) i 0 ≡ rotl 32 (get_or (store_si a) i 0) k
  pub lane-srli :
      (a : Int) (k i : ℕ)
      → i < lanes
      → get_or (store_si (srli_epi32 a k)) i 0 ≡ shr (get_or (store_si a) i 0) k
  pub lane-slli :
      (a : Int) (k i : ℕ)
      → i < lanes
      → get_or (store_si (slli_epi32 a k)) i 0 ≡ shl 32 (get_or (store_si a) i 0) k
  pub lane-set1 : (v i : ℕ) → i < lanes → get_or (store_si (set1_epi32 v)) i 0 ≡ v % 2 ^ 32
  pub lane-mullo :
      (a b : Int) (i : ℕ)
      → i < lanes
      → get_or (store_si (mullo_epi32 a b)) i 0
        ≡ get_or (store_si a) i 0 * get_or (store_si b) i 0 % 2 ^ 32
  pub lane-xor :
      (a b : Int) (i : ℕ)
      → i < lanes
      → get_or (store_si (xor_si a b)) i 0
        ≡ bit_xor (get_or (store_si a) i 0) (get_or (store_si b) i 0)
  pub lane-or :
      (a b : Int) (i : ℕ)
      → i < lanes
      → get_or (store_si (or_si a b)) i 0
        ≡ bit_or (get_or (store_si a) i 0) (get_or (store_si b) i 0)
  pub lane-load :
      (words : List ℕ) (i : ℕ)
      → i < lanes
      → get_or (store_si (load_si words)) i 0 ≡ get_or words i 0

-- `avx512` is whether the program is compiled with AVX512, `__AVX512F__`.
module _ {Float : Type 0} (avx512 : Bool) (intrinsics : Intrinsics Float 4) where
  open intrinsics use {
    Int, Floats, rol_epi32, rol_epi64, srli_epi32, slli_epi32, srli_epi64, slli_epi64, set1_epi32,
    mullo_epi32, xor_si, or_si, store_si, load_si, sub_ps, set1_ps, castsi_ps, store_ps,
    length-store_si, length-store_ps,
  }

  abbrev pub avx128_traits : InstructionSetTraits Float
  avx128_traits = record {
    Mi = Int;
    M = Floats;
    bytes = 128 / 8;
    rol_epi32 =
        λ k a. if avx512 then rol_epi32 a k else or_si (slli_epi32 a k) (srli_epi32 a (32 - k));
    rol_epi64 =
        λ k a. if avx512 then rol_epi64 a k else or_si (slli_epi64 a k) (srli_epi64 a (64 - k));
    srli_epi32 = srli_epi32;
    slli_epi32 = slli_epi32;
    slli_epi64 = slli_epi64;
    set1_epi32 = set1_epi32;
    mullo_epi32 = mullo_epi32;
    xor_si = xor_si;
    or_si = or_si;
    store_si = store_si;
    load_si = load_si;
    sub_ps = sub_ps;
    set1_ps = set1_ps;
    castsi_ps = castsi_ps;
    store_ps = store_ps;
    bytes_pos = omega arith;
    bytes_whole = refl;
    length-store_si = length-store_si;
    length-store_ps = length-store_ps;
  }

module _ {Float : Type 0} (avx512 : Bool) (intrinsics : Intrinsics Float 8) where
  open intrinsics use {
    Int, Floats, rol_epi32, rol_epi64, srli_epi32, slli_epi32, srli_epi64, slli_epi64, set1_epi32,
    mullo_epi32, xor_si, or_si, store_si, load_si, sub_ps, set1_ps, castsi_ps, store_ps,
    length-store_si, length-store_ps,
  }

  abbrev pub avx256_traits : InstructionSetTraits Float
  avx256_traits = record {
    Mi = Int;
    M = Floats;
    bytes = 256 / 8;
    rol_epi32 =
        λ k a. if avx512 then rol_epi32 a k else or_si (slli_epi32 a k) (srli_epi32 a (32 - k));
    rol_epi64 =
        λ k a. if avx512 then rol_epi64 a k else or_si (slli_epi64 a k) (srli_epi64 a (64 - k));
    srli_epi32 = srli_epi32;
    slli_epi32 = slli_epi32;
    slli_epi64 = slli_epi64;
    set1_epi32 = set1_epi32;
    mullo_epi32 = mullo_epi32;
    xor_si = xor_si;
    or_si = or_si;
    store_si = store_si;
    load_si = load_si;
    sub_ps = sub_ps;
    set1_ps = set1_ps;
    castsi_ps = castsi_ps;
    store_ps = store_ps;
    bytes_pos = omega arith;
    bytes_whole = refl;
    length-store_si = length-store_si;
    length-store_ps = length-store_ps;
  }

module _ {Float : Type 0} (intrinsics : Intrinsics Float 16) where
  open intrinsics use {
    Int, Floats, rol_epi32, rol_epi64, srli_epi32, slli_epi32, slli_epi64, set1_epi32, mullo_epi32,
    xor_si, or_si, store_si, load_si, sub_ps, set1_ps, castsi_ps, store_ps, length-store_si,
    length-store_ps,
  }

  abbrev pub avx512_traits : InstructionSetTraits Float
  avx512_traits = record {
    Mi = Int;
    M = Floats;
    bytes = 512 / 8;
    rol_epi32 = λ k a. rol_epi32 a k;
    rol_epi64 = λ k a. rol_epi64 a k;
    srli_epi32 = srli_epi32;
    slli_epi32 = slli_epi32;
    slli_epi64 = slli_epi64;
    set1_epi32 = set1_epi32;
    mullo_epi32 = mullo_epi32;
    xor_si = xor_si;
    or_si = or_si;
    store_si = store_si;
    load_si = load_si;
    sub_ps = sub_ps;
    set1_ps = set1_ps;
    castsi_ps = castsi_ps;
    store_ps = store_ps;
    bytes_pos = omega arith;
    bytes_whole = refl;
    length-store_si = length-store_si;
    length-store_ps = length-store_ps;
  }
