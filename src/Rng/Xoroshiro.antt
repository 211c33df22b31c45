-- ===== src/Rng/Xoroshiro.antt =====
-- `XoroshiroRNG` of src/utils/xoroshiro_64_star.hpp over any instruction set. Memory is a function
-- from the index of a 4-byte word, its address over 4, to what the word holds.
use Prim.Native.Nat.{bit_xor}
use benchmark_fun.Common.{
  ℕ, zero, suc, ◌+◌, ◌-◌, ◌*◌, ◌/◌, ◌%◌, ◌^◌, Bool, true, Option, none, some, List, [], ◌∷◌, get_or,
  take, ltb, leb, ◌==◌, if◌then◌else◌, ◌>>=◌,
}
use benchmark_fun.Rng.Words.{splitmix64_next}
use benchmark_fun.Rng.Traits.{InstructionSetTraits}

pub record XoroshiroRng : Type 0 where
  pub a_states : List ℕ
  pub b_states : List ℕ

-- The words at an address and after it, set to those of a register or a part of it; a word past
-- their end keeps its value.
unfoldable pub store {ℓ} : {A : Type ℓ} → (ℕ → A) → ℕ → List A → ℕ → A
store mem dst words i = if leb (dst / 4) i then get_or words (i - dst / 4) (mem i) else mem i

-- The loop of the constructor, after `n` rounds: both arrays, and the seed.
abbrev pub seeded : ℕ → ℕ → XoroshiroRng × ℕ
seeded zero sm = (record { a_states = []; b_states = [] }, sm)
seeded (suc n) sm =
    let (a, sm1) = splitmix64_next sm in
    let (b, sm2) = splitmix64_next sm1 in
    let (rest, sm') = seeded n sm2 in
    (record { a_states = a % 2 ^ 32 ∷ rest.a_states; b_states = b % 2 ^ 32 ∷ rest.b_states }, sm')

module _ {Float : Type 0} (traits : InstructionSetTraits Float) where
  open traits use {
    Mi, M, bytes, rol_epi32, rol_epi64, srli_epi32, slli_epi32, slli_epi64, set1_epi32, mullo_epi32,
    xor_si, store_si, load_si, sub_ps, set1_ps, castsi_ps, store_ps,
  }

  abbrev pub batch_size : ℕ
  batch_size = bytes / 4

  abbrev pub create : ℕ → XoroshiroRng
  create seed = (seeded batch_size (bit_xor 0xfeedfacecafebeef seed)).0

  -- The result register, and the generators one state further; `lane_weaving` is the template's
  -- flag.
  unfoldable pub advance : Bool → XoroshiroRng → Mi × XoroshiroRng
  advance lane_weaving rng =
      let avx_a = load_si rng.a_states in
      let avx_b = xor_si avx_a (load_si rng.b_states) in
      let result = mullo_epi32 avx_a (set1_epi32 0x9E3779BB) in
      let rol = if lane_weaving then rol_epi64 else rol_epi32 in
      let slli = if lane_weaving then slli_epi64 else slli_epi32 in
      let avx_a' = xor_si (xor_si (rol 26 avx_a) avx_b) (slli avx_b 9) in
      (result, record { a_states = store_si avx_a'; b_states = store_si (rol 13 avx_b) })

  pub float_convert : Float → Mi → M
  float_convert one m =
      sub_ps (castsi_ps (xor_si (srli_epi32 m 9) (set1_epi32 0x3F800000))) (set1_ps one)

  -- What a batch is stored as: `get_batch_uint32`, and `get_batch_floats` where `one` is `1.0f`.
  unfoldable pub get_batch_uint32 : XoroshiroRng → List ℕ × XoroshiroRng
  unfolding advance
  get_batch_uint32 rng = let (result, rng') = advance true rng in (store_si result, rng')

  unfoldable pub get_batch_floats : Float → XoroshiroRng → List Float × XoroshiroRng
  unfolding advance float_convert
  get_batch_floats one rng =
      let (result, rng') = advance true rng in (store_ps (float_convert one result), rng')

  -- The fills write one batch after another; `get_batch` says which kind.
  module _ {ℓ} {A : Type ℓ} (get_batch : XoroshiroRng → List A × XoroshiroRng) where
    -- The loop `for (; dst < aligned_end; dst += BATCH_SIZE)` on byte addresses; fuel counts its
    -- rounds.
    unfoldable pub fill_batches :
        ℕ → ℕ → ℕ → (ℕ → A) → XoroshiroRng → Option (ℕ × (ℕ → A) × XoroshiroRng)
    fill_batches zero dst aligned_end mem rng = none
    fill_batches (suc fuel) dst aligned_end mem rng =
        let (words, rng') = get_batch rng in
        let rest = fill_batches fuel (dst + bytes) aligned_end (store mem dst words) rng' in
        if ltb dst aligned_end then rest else some (dst, mem, rng)

    unfoldable pub fill_aligned : ℕ → ℕ → (ℕ → A) → XoroshiroRng → Option ((ℕ → A) × XoroshiroRng)
    unfolding fill_batches
    fill_aligned dst num_elements mem rng =
        let end_address = dst + 4 * num_elements in
        let remainder_bytes = end_address % bytes in
        let aligned_end = end_address - 4 * (remainder_bytes / 4) in
        if dst % bytes == 0
        then (do
          (dst', mem', rng') ← fill_batches (suc num_elements) dst aligned_end mem rng
          let (words, rng'') = get_batch rng'
          some (
              if remainder_bytes == 0
              then (mem', rng')
              else (store mem' dst' (take (remainder_bytes / 4) words), rng'')))
        else none

    unfoldable pub fill_partial_aligned :
        ℕ → ℕ → (ℕ → A) → XoroshiroRng → Option ((ℕ → A) × XoroshiroRng)
    unfolding fill_aligned
    fill_partial_aligned dst num_elements mem rng =
        let bytes_needed = (bytes - dst % bytes) % bytes in
        let elements_needed_to_align = bytes_needed / 4 in
        let (words, rng') = get_batch rng in
        if dst % 4 == 0
        then (if leb num_elements elements_needed_to_align
            then some (store mem dst (take num_elements words), rng')
            else (if bytes_needed == 0
                then fill_aligned dst num_elements mem rng
                else fill_aligned (dst + 4 * elements_needed_to_align)
                    (num_elements - elements_needed_to_align)
                    (store mem dst (take elements_needed_to_align words)) rng'))
        else none

  -- The fills of floats are those of integers with `get_batch_floats`.
  abbrev pub fill_aligned_float :
      Float → ℕ → ℕ → (ℕ → Float) → XoroshiroRng → Option ((ℕ → Float) × XoroshiroRng)
  unfolding get_batch_floats fill_aligned
  fill_aligned_float one = fill_aligned (get_batch_floats one)

  abbrev pub fill_partial_aligned_float :
      Float → ℕ → ℕ → (ℕ → Float) → XoroshiroRng → Option ((ℕ → Float) × XoroshiroRng)
  unfolding get_batch_floats fill_partial_aligned
  fill_partial_aligned_float one = fill_partial_aligned (get_batch_floats one)
