-- ===== src/Rng/Buffered.antt =====
-- `BufferedXoroshiroRNG` of one_and_dones/no_unique_address.cpp: the generator of Heavy with
-- members and methods only for the number types that are asked for. Its constructor leaves the
-- buffers uninitialized; `none` is a read of such a buffer, or past its end.
pub mod Unset
use benchmark_fun.Common.{
  ℕ, ◌+◌, ◌/◌, ◌%◌, ◌^◌, ◌≡◌, ◌≢◌, refl, ap, ◌∙◌, Bool, true, false, ◌||◌, ℤ, Option, none, some,
  List, [], ◌∷◌, get_elem?, ◌==◌, if◌then◌else◌, ◌>>=◌, arith, eq_pos, eq_neg, Bool-cases,
  Option-cases, inl, inr,
}
use benchmark_fun.Rng.Traits.{InstructionSetTraits}
use benchmark_fun.Rng.Xoroshiro.{XoroshiroRng, create, get_batch_uint32, get_batch_floats}
use benchmark_fun.Rng.Heavy
use benchmark_fun.Rng.Heavy.{HeavyXoroshiroRng, Call, Drawn, to_int32}

-- `std::same_as`, and the concept `OneOf`. A type is named by the method that returns it.
abbrev pub same_as : Call → Call → Bool
same_as Call.uint32 Call.uint32 = true
same_as Call.int32 Call.int32 = true
same_as Call.float Call.float = true
same_as _ _ = false

abbrev pub one_of : Call → List Call → Bool
one_of term [] = false
one_of term (c ∷ set) = same_as term c || one_of term set

-- `std::conditional_t<b, A, Empty<>>`
abbrev pub When : Bool → Type 0 → Type 0
When true A = A
When false A = Unit

abbrev pub has_raw : List Call → Bool
has_raw capabilities = one_of Call.uint32 capabilities || one_of Call.int32 capabilities

abbrev pub has_float : List Call → Bool
has_float capabilities = one_of Call.float capabilities

-- A buffer is `none` until it is first assigned.
pub record BufferedXoroshiroRng (Float : Type 0) (capabilities : List Call) : Type 0 where
  pub rng : XoroshiroRng
  pub raw_uint32_t_buffer : When (has_raw capabilities) (Option (List ℕ))
  pub float_buffer : When (has_float capabilities) (Option (List Float))
  pub raw_idx : When (has_raw capabilities) ℕ
  pub float_idx : When (has_float capabilities) ℕ

-- A value for a member that may be absent, and the value of one that is there.
abbrev pub member : {A : Type 0} (b : Bool) → A → When b A
member true a = a
member false a = tt

pub absent : {A : Type 0} → false ≡ true → A
absent h = cc

abbrev pub value_of : {A : Type 0} (b : Bool) → b ≡ true → When b A → A
value_of true h a = a
value_of false h a = absent h

pub or_left : (a b : Bool) → a ≡ true → a || b ≡ true
or_left true b h = refl
or_left false b h = absent h

pub or_right : (a b : Bool) → b ≡ true → a || b ≡ true
or_right true b h = refl
or_right false b h = h

abbrev pub start_buffered :
    {Float : Type 0} (traits : InstructionSetTraits Float) (capabilities : List Call)
    → ℕ
    → BufferedXoroshiroRng Float capabilities
start_buffered traits capabilities seed = record {
  rng = create traits seed;
  raw_uint32_t_buffer = member (has_raw capabilities) none;
  float_buffer = member (has_float capabilities) none;
  raw_idx = member (has_raw capabilities) 0;
  float_idx = member (has_float capabilities) 0;
}

module _ {Float : Type 0} (traits : InstructionSetTraits Float) (one : Float)
    (capabilities : List Call) where
  open traits use {bytes}

  -- A `requires` clause is an argument. The bodies of the source name the member that it makes sure
  -- of.
  module _ (raw : has_raw capabilities ≡ true) where
    abbrev with_raw :
        BufferedXoroshiroRng Float capabilities → BufferedXoroshiroRng Float capabilities
    with_raw s =
        let (batch, rng) = get_batch_uint32 traits s.rng in
        if value_of (has_raw capabilities) raw s.raw_idx == bytes / 4
        then record s {
          rng = rng;
          raw_uint32_t_buffer = member (has_raw capabilities) (some batch);
          raw_idx = member (has_raw capabilities) 0;
        }
        else s

    -- What `get_uint32` returns and `get_int32` casts.
    unfoldable pub next_raw :
        BufferedXoroshiroRng Float capabilities
        → Option (ℕ × BufferedXoroshiroRng Float capabilities)
    next_raw s =
        let s' = with_raw s in
        let idx = value_of (has_raw capabilities) raw s'.raw_idx in
        do
          buffer ← value_of (has_raw capabilities) raw s'.raw_uint32_t_buffer
          word ← get_elem? buffer idx
          some (word, record s' { raw_idx = member (has_raw capabilities) ((idx + 1) % 2 ^ 8) })

  unfoldable pub get_uint32 :
      one_of Call.uint32 capabilities ≡ true
      → BufferedXoroshiroRng Float capabilities
      → Option (ℕ × BufferedXoroshiroRng Float capabilities)
  unfolding next_raw
  get_uint32 req s =
      next_raw (or_left (one_of Call.uint32 capabilities) (one_of Call.int32 capabilities) req) s

  unfoldable pub get_int32 :
      one_of Call.int32 capabilities ≡ true
      → BufferedXoroshiroRng Float capabilities
      → Option (ℤ × BufferedXoroshiroRng Float capabilities)
  unfolding next_raw
  get_int32 req s = do
    (word, s') ←
        next_raw (or_right (one_of Call.uint32 capabilities) (one_of Call.int32 capabilities) req) s
    some (to_int32 word, s')

  unfoldable pub get_float :
      one_of Call.float capabilities ≡ true
      → BufferedXoroshiroRng Float capabilities
      → Option (Float × BufferedXoroshiroRng Float capabilities)
  get_float req s =
      let (batch, rng) = get_batch_floats traits one s.rng in
      let s' =
        if value_of (has_float capabilities) req s.float_idx == bytes / 4
        then record s {
          rng = rng;
          float_buffer = member (has_float capabilities) (some batch);
          float_idx = member (has_float capabilities) 0;
        }
        else s in
      let idx = value_of (has_float capabilities) req s'.float_idx in
      do
        buffer ← value_of (has_float capabilities) req s'.float_buffer
        x ← get_elem? buffer idx
        some (x, record s' { float_idx = member (has_float capabilities) ((idx + 1) % 2 ^ 8) })

  unfoldable pub call_buffered :
      (c : Call)
      → one_of c capabilities ≡ true
      → BufferedXoroshiroRng Float capabilities
      → Option (Drawn Float × BufferedXoroshiroRng Float capabilities)
  unfolding get_uint32 get_int32 get_float
  call_buffered Call.uint32 req s = do (w, s') ← get_uint32 req s; some (Drawn.uint32 w, s')
  call_buffered Call.int32 req s = do (i, s') ← get_int32 req s; some (Drawn.int32 i, s')
  call_buffered Call.float req s = do (x, s') ← get_float req s; some (Drawn.float x, s')
