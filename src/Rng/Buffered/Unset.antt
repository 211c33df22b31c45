-- ===== src/Rng/Buffered/Unset.antt =====
-- What the constructor of `BufferedXoroshiroRNG` of one_and_dones/no_unique_address.cpp leaves
-- undone.
use benchmark_fun.Common.{
  ℕ, ◌/◌, ◌≡◌, ◌≢◌, refl, Bool, true, false, Option, none, List, arith, eq_neg,
}
use benchmark_fun.Rng.Traits.{InstructionSetTraits}
use benchmark_fun.Rng.Heavy.{Call}
use benchmark_fun.Rng.Buffered.{
  one_of, has_raw, has_float, member, value_of, absent, start_buffered, next_raw, get_uint32,
  get_int32, get_float, call_buffered, or_left, or_right,
}

pub value_of-member : {A : Type 0} (b : Bool) (h : b ≡ true) (a : A) → value_of b h (member b a) ≡ a
value_of-member true h a = refl
value_of-member false h a = absent h

module _ {Float : Type 0} (traits : InstructionSetTraits Float) (one : Float)
    (capabilities : List Call) (seed : ℕ) where
  open traits use {bytes, bytes_pos, bytes_whole}

  not_last : 0 ≢ bytes / 4
  not_last e = absurd (omega (arith, e, bytes_pos, bytes_whole))

  next_raw-unset :
      (raw : has_raw capabilities ≡ true)
      → next_raw traits one capabilities raw (start_buffered traits capabilities seed) ≡ none
  unfolding next_raw
  next_raw-unset raw =
      rw
        (
          value_of-member {A = ℕ} (has_raw capabilities) raw 0,
          eq_neg not_last,
          value_of-member {A = Option (List ℕ)} (has_raw capabilities) raw none,
        )
        refl

  get_float-unset :
      (req : has_float capabilities ≡ true)
      → get_float traits one capabilities req (start_buffered traits capabilities seed) ≡ none
  unfolding get_float
  get_float-unset req =
      rw
        (
          value_of-member {A = ℕ} (has_float capabilities) req 0,
          eq_neg not_last,
          value_of-member {A = Option (List Float)} (has_float capabilities) req none,
        )
        refl

-- The first call on a new generator, whichever it is, reads a buffer that was never assigned: the
-- index starts at 0 and not at the end, so the call does not make a batch first.
pub buffered_unset :
    {Float : Type 0} (traits : InstructionSetTraits Float) (one : Float) (c : Call)
    (capabilities : List Call) (seed : ℕ) (req : one_of c capabilities ≡ true)
    → call_buffered traits one capabilities c req (start_buffered traits capabilities seed) ≡ none
unfolding call_buffered get_uint32 get_int32
buffered_unset traits one Call.uint32 capabilities seed req =
    rw
      (next_raw-unset traits one capabilities seed
        (or_left (one_of Call.uint32 capabilities) (one_of Call.int32 capabilities) req))
      refl
buffered_unset traits one Call.int32 capabilities seed req =
    rw
      (next_raw-unset traits one capabilities seed
        (or_right (one_of Call.uint32 capabilities) (one_of Call.int32 capabilities) req))
      refl
buffered_unset traits one Call.float capabilities seed req =
    rw (get_float-unset traits one capabilities seed req) refl
