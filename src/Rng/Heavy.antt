-- ===== src/Rng/Heavy.antt =====
-- `HeavyXoroshiroRNG` of one_and_dones/no_unique_address.cpp: unsigned and signed integers out of
-- one buffered batch, and floats out of another. The indices are `uint8_t`; `none` is a read past a
-- buffer's end.
use benchmark_fun.Common.{
  ℕ, ◌+◌, ◌-◌, ◌/◌, ◌%◌, ◌^◌, ℤ, pos, negsuc, Option, some, List, [], ◌∷◌, get_elem?, ltb, ◌==◌,
  if◌then◌else◌, ◌>>=◌,
}
use benchmark_fun.Rng.Traits.{InstructionSetTraits}
use benchmark_fun.Rng.Xoroshiro.{XoroshiroRng, create, get_batch_uint32, get_batch_floats}
pub mod Draws

pub record HeavyXoroshiroRng (Float : Type 0) : Type 0 where
  pub rng : XoroshiroRng
  pub raw_uint32_t_buffer : List ℕ
  pub float_buffer : List Float
  pub raw_idx : ℕ
  pub float_idx : ℕ

-- `std::bit_cast<int32_t>`: two's complement
abbrev pub to_int32 : ℕ → ℤ
to_int32 w = if ltb w (2 ^ 31) then pos w else negsuc (2 ^ 32 - 1 - w)

-- The methods, and what one returns.
pub data Call : Type 0 where
  uint32 int32 float : Call

pub data Drawn (Float : Type 0) : Type 0 where
  uint32 : ℕ → Drawn Float
  int32 : ℤ → Drawn Float
  float : Float → Drawn Float

module _ {Float : Type 0} (traits : InstructionSetTraits Float) (one : Float) where
  open traits use {bytes}

  unfoldable pub start : ℕ → HeavyXoroshiroRng Float
  start seed =
      let (raws, rng) = get_batch_uint32 traits (create traits seed) in
      let (floats, rng') = get_batch_floats traits one rng in
      record {
        rng = rng';
        raw_uint32_t_buffer = raws;
        float_buffer = floats;
        raw_idx = 0;
        float_idx = 0;
      }

  -- What `get_uint32` returns and `get_int32` casts.
  unfoldable pub get_uint32 : HeavyXoroshiroRng Float → Option (ℕ × HeavyXoroshiroRng Float)
  get_uint32 s =
      let (batch, rng) = get_batch_uint32 traits s.rng in
      let s' =
        if s.raw_idx == bytes / 4
        then record s { rng = rng; raw_uint32_t_buffer = batch; raw_idx = 0 }
        else s in
      do
        word ← get_elem? s'.raw_uint32_t_buffer s'.raw_idx
        some (word, record s' { raw_idx = (s'.raw_idx + 1) % 2 ^ 8 })

  unfoldable pub get_int32 : HeavyXoroshiroRng Float → Option (ℤ × HeavyXoroshiroRng Float)
  get_int32 s =
      let (batch, rng) = get_batch_uint32 traits s.rng in
      let s' =
        if s.raw_idx == bytes / 4
        then record s { rng = rng; raw_uint32_t_buffer = batch; raw_idx = 0 }
        else s in
      do
        word ← get_elem? s'.raw_uint32_t_buffer s'.raw_idx
        some (to_int32 word, record s' { raw_idx = (s'.raw_idx + 1) % 2 ^ 8 })

  unfoldable pub get_float : HeavyXoroshiroRng Float → Option (Float × HeavyXoroshiroRng Float)
  get_float s =
      let (batch, rng) = get_batch_floats traits one s.rng in
      let s' =
        if s.float_idx == bytes / 4
        then record s { rng = rng; float_buffer = batch; float_idx = 0 }
        else s in
      do
        x ← get_elem? s'.float_buffer s'.float_idx
        some (x, record s' { float_idx = (s'.float_idx + 1) % 2 ^ 8 })

  unfoldable pub call :
      Call → HeavyXoroshiroRng Float → Option (Drawn Float × HeavyXoroshiroRng Float)
  call Call.uint32 s = do (w, s') ← get_uint32 s; some (Drawn.uint32 w, s')
  call Call.int32 s = do (i, s') ← get_int32 s; some (Drawn.int32 i, s')
  call Call.float s = do (x, s') ← get_float s; some (Drawn.float x, s')

  unfoldable pub run :
      List Call → HeavyXoroshiroRng Float → Option (List (Drawn Float) × HeavyXoroshiroRng Float)
  run [] s = some ([], s)
  run (c ∷ calls) s = do (x, s') ← call c s; (xs, s'') ← run calls s'; some (x ∷ xs, s'')
