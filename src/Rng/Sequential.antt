-- ===== src/Rng/Sequential.antt =====
-- `SequentialXoroshiroRNG` of src/utils/xoroshiro_64_star.hpp: one number at a time out of a
-- buffered batch. The indices are `uint8_t`; `none` is a read past a buffer's end.
use native.Mathlib.Decide.{ℕ_discrete}
use benchmark_fun.Common.{
  ℕ, zero, suc, ◌+◌, ◌/◌, ◌%◌, ◌^◌, ◌≤◌, ◌<◌, ◌≡◌, refl, sym, ap, ◌∙◌, Option, some, List, [], ◌∷◌,
  ◌++◌, length, get_elem?, drop, ◌==◌, if◌then◌else◌, ◌>>=◌, arith, eq_pos, eq_neg, next_item,
  drop_all,
}
use benchmark_fun.Rng.Traits.{InstructionSetTraits}
use benchmark_fun.Rng.Xoroshiro.{XoroshiroRng, create, get_batch_uint32, get_batch_floats}
use benchmark_fun.Rng.Fill.{stream}

pub record SequentialXoroshiroRng (Float : Type 0) : Type 0 where
  pub rng : XoroshiroRng
  pub int_buffer : List ℕ
  pub float_buffer : List Float
  pub int_idx : ℕ
  pub float_idx : ℕ

module _ {Float : Type 0} (traits : InstructionSetTraits Float) (one : Float) where
  open traits use {bytes, bytes_pos, bytes_whole, length-store_si}

  abbrev pub start : ℕ → SequentialXoroshiroRng Float
  start seed =
      let (ints, rng) = get_batch_uint32 traits (create traits seed) in
      let (floats, rng') = get_batch_floats traits one rng in
      record { rng = rng'; int_buffer = ints; float_buffer = floats; int_idx = 0; float_idx = 0 }

  pub get_uint32 : SequentialXoroshiroRng Float → Option (ℕ × SequentialXoroshiroRng Float)
  get_uint32 s =
      let (batch, rng) = get_batch_uint32 traits s.rng in
      let s' =
        if s.int_idx == bytes / 4
        then record s { rng = rng; int_buffer = batch; int_idx = 0 }
        else s in
      do
        word ← get_elem? s'.int_buffer s'.int_idx
        some (word, record s' { int_idx = (s'.int_idx + 1) % 2 ^ 8 })

  abbrev pub get_float :
      SequentialXoroshiroRng Float → Option (Float × SequentialXoroshiroRng Float)
  get_float s =
      let (batch, rng) = get_batch_floats traits one s.rng in
      let s' =
        if s.float_idx == bytes / 4
        then record s { rng = rng; float_buffer = batch; float_idx = 0 }
        else s in
      do
        x ← get_elem? s'.float_buffer s'.float_idx
        some (x, record s' { float_idx = (s'.float_idx + 1) % 2 ^ 8 })

  -- `n` calls of `get_uint32`, as the loop of `Xoroshiro64BufferedArrayFill::runBenchmark` makes
  -- them.
  pub draw : ℕ → SequentialXoroshiroRng Float → Option (List ℕ × SequentialXoroshiroRng Float)
  unfolding get_uint32
  draw zero s = some ([], s)
  draw (suc n) s = do (word, s') ← get_uint32 s; (words, s'') ← draw n s'; some (word ∷ words, s'')

module _ {Float : Type 0} (traits : InstructionSetTraits Float) (one : Float)
    (narrow : traits.bytes / 4 < 2 ^ 8) where
  open traits use {bytes, bytes_pos, bytes_whole, length-store_si}

  pub whole_batch : (rng : XoroshiroRng) → length (get_batch_uint32 traits rng).0 ≡ bytes / 4
  unfolding get_batch_uint32
  whole_batch rng = length-store_si _

  pub record IsValid (s : SequentialXoroshiroRng Float) : Type 0 where
    pub full : length s.int_buffer ≡ bytes / 4
    pub idx_in : s.int_idx ≤ bytes / 4

  -- What is left of the buffer, and the next `k` batches.
  abbrev pub pending : ℕ → SequentialXoroshiroRng Float → List ℕ
  pending k s =
      drop s.int_idx s.int_buffer ++ stream traits (get_batch_uint32 traits) whole_batch k s.rng

  -- One call takes the first of them.
  get_uint32_lem :
      (k : ℕ) (s : SequentialXoroshiroRng Float)
      → IsValid s
      → (word : ℕ) × (s' : SequentialXoroshiroRng Float) × (k' : ℕ) × (get_uint32 traits one s
          ≡ some (word, s'))
        × (word ∷ pending k' s' ≡ pending (suc k) s)
        × (k ≤ k')
        × IsValid s'
  unfolding get_uint32
  get_uint32_lem k s v = elim (ℕ_discrete s.int_idx (bytes / 4)) [
    | yes used ↦
        let (batch, rng') = get_batch_uint32 traits s.rng in
        let long = whole_batch s.rng in
        let (word, found, split) =
          next_item 0 batch (omega (arith, long, bytes_pos, bytes_whole)) in
        let moved : (0 + 1) % 2 ^ 8 ≡ 1 = omega arith in
        let spent : drop s.int_idx s.int_buffer ≡ [] =
          drop_all s.int_buffer s.int_idx (omega (arith, used, v.full)) in
        rw (eq_pos used, found, moved)
          (
            word,
            record s { rng = rng'; int_buffer = batch; int_idx = 1 },
            k,
            refl,
            ap (λ t. t ++ stream traits (get_batch_uint32 traits) whole_batch k rng') (sym split)
                ∙ ap (λ t. t ++ stream traits (get_batch_uint32 traits) whole_batch (suc k) s.rng)
                    (sym spent),
            omega arith,
            record { full = long; idx_in = omega (arith, bytes_pos, bytes_whole) },
          )
    | no left ↦
        let (word, found, split) =
          next_item s.int_idx s.int_buffer (omega (arith, v.full, v.idx_in)) in
        let moved : (s.int_idx + 1) % 2 ^ 8 ≡ suc s.int_idx = omega (arith, v.idx_in, narrow) in
        rw (eq_neg left, found, moved)
          (
            word,
            record s { int_idx = suc s.int_idx },
            suc k,
            refl,
            ap (λ t. t ++ stream traits (get_batch_uint32 traits) whole_batch (suc k) s.rng)
                (sym split),
            omega arith,
            record { full = v.full; idx_in = omega (arith, v.idx_in) },
          )
  ]

  -- From a buffer that is whole or used in part, `n` calls of `get_uint32` give `n` numbers: these
  -- and what is left then are what was left before and the next batches, so no number of a batch is
  -- skipped, given twice or moved.
  pub draw_lem :
      (n k : ℕ) (s : SequentialXoroshiroRng Float)
      → IsValid s
      → n ≤ k
      → (words : List ℕ) × (s' : SequentialXoroshiroRng Float) × (k' : ℕ) × (draw traits one n s
          ≡ some (words, s'))
        × (length words ≡ n)
        × (words ++ pending k' s' ≡ pending k s)
  unfolding draw
  draw_lem zero k s v h = ([], s, k, refl, refl, refl)
  draw_lem (suc n) zero s v h = absurd (omega arith)
  draw_lem (suc n) (suc k) s v h =
      let (word, s1, k1, called, taken, more, v1) = get_uint32_lem k s v in
      let (words, s2, k2, drawn, count, rest) = draw_lem n k1 s1 v1 (omega arith) in
      (word ∷ words, s2, k2, rw (called, drawn) refl, ap suc count, ap (λ t. word ∷ t) rest ∙ taken)
