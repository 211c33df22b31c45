-- ===== src/Rng/Traits.antt =====
-- `InstructionSetTraits` of src/utils/xoroshiro_64_star.hpp: what the generator asks of a register.
-- The vector registers of AVX are any instance; the scalar fallback `NONE` is one.
use Prim.Native.Nat.{bit_or, bit_xor}
use benchmark_fun.Common.{
  ℕ, ◌*◌, ◌/◌, ◌%◌, ◌^◌, ◌<◌, ◌≡◌, refl, List, [], ◌∷◌, length, get_or, arith,
}
use benchmark_fun.Rng.Words.{shl, shr, rotl}

-- `Mi` is a register of integers, `M` one of floats, and `Float` what `float` is. The laws say that
-- a register holds whole words and that a store writes them all.
pub record InstructionSetTraits (Float : Type 0) : Type 1 where
  pub Mi : Type 0
  pub M : Type 0
  pub bytes : ℕ
  pub rol_epi32 : ℕ → Mi → Mi
  pub rol_epi64 : ℕ → Mi → Mi
  pub srli_epi32 : Mi → ℕ → Mi
  pub slli_epi32 : Mi → ℕ → Mi
  pub slli_epi64 : Mi → ℕ → Mi
  pub set1_epi32 : ℕ → Mi
  pub mullo_epi32 : Mi → Mi → Mi
  pub xor_si : Mi → Mi → Mi
  pub or_si : Mi → Mi → Mi
  pub store_si : Mi → List ℕ
  pub load_si : List ℕ → Mi
  pub sub_ps : M → M → M
  pub set1_ps : Float → M
  pub castsi_ps : Mi → M
  pub store_ps : M → List Float
  pub bytes_pos : 0 < bytes
  pub bytes_whole : bytes ≡ 4 * (bytes / 4)
  pub length-store_si : (m : Mi) → length (store_si m) ≡ bytes / 4
  pub length-store_ps : (m : M) → length (store_ps m) ≡ bytes / 4

-- A 32-bit register and the `float` of the compiler: its subtraction and `bit_cast` are parameters.
module _ (Float : Type 0) (sub : Float → Float → Float) (bit_cast : ℕ → Float) where
  abbrev pub none_traits : InstructionSetTraits Float
  none_traits = record {
    Mi = ℕ;
    M = Float;
    bytes = 4;
    rol_epi32 = λ k a. rotl 32 a k;
    rol_epi64 = λ k a. rotl 32 a k;
    srli_epi32 = shr;
    slli_epi32 = shl 32;
    slli_epi64 = shl 32;
    set1_epi32 = λ val. val;
    mullo_epi32 = λ a b. a * b % 2 ^ 32;
    xor_si = bit_xor;
    or_si = bit_or;
    store_si = λ source. source ∷ [];
    load_si = λ words. get_or words 0 0;
    sub_ps = sub;
    set1_ps = λ val. val;
    castsi_ps = bit_cast;
    store_ps = λ source. source ∷ [];
    bytes_pos = omega arith;
    bytes_whole = refl;
    length-store_si = λ _. refl;
    length-store_ps = λ _. refl;
  }
