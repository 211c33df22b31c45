-- ===== src/Rng/Heavy/Draws.antt =====
-- The numbers that `HeavyXoroshiroRNG` of one_and_dones/no_unique_address.cpp gives, whatever the
-- order of the calls.
use native.Mathlib.Decide.{ℕ_discrete}
use benchmark_fun.Common.{
  ℕ, suc, ◌+◌, ◌/◌, ◌%◌, ◌^◌, ◌≤◌, ◌<◌, ◌≡◌, refl, ap, Option, none, some, List, [], ◌∷◌, length,
  drop, ◌>>=◌, arith, eq_pos, eq_neg, next_item, drop_all,
}
use benchmark_fun.Rng.Traits.{InstructionSetTraits}
use benchmark_fun.Rng.Xoroshiro.{XoroshiroRng, get_batch_uint32, get_batch_floats}
use benchmark_fun.Rng.Heavy.{
  HeavyXoroshiroRng, Call, Drawn, to_int32, start, get_uint32, get_int32, get_float, call, run,
}

-- What is left of each kind, and the generator that the next batch of either comes from.
pub record Source (Float : Type 0) : Type 0 where
  pub rng : XoroshiroRng
  pub raws : List ℕ
  pub floats : List Float

abbrev pub uncons {ℓ} : {A : Type ℓ} → List A → Option (A × List A)
uncons [] = none
uncons (x ∷ xs) = some (x, xs)

-- The first of a list, or of a new batch when the list is used up.
abbrev pub next_of :
    {A : Type 0}
    → (XoroshiroRng → List A × XoroshiroRng)
    → XoroshiroRng
    → List A
    → Option (A × List A × XoroshiroRng)
next_of get_batch rng [] = do
  (x, rest) ← uncons (get_batch rng).0
  some (x, rest, (get_batch rng).1)
next_of get_batch rng (x ∷ rest) = some (x, rest, rng)

module _ {Float : Type 0} (traits : InstructionSetTraits Float) (one : Float) where
  open traits use {bytes, bytes_pos, bytes_whole, length-store_si, length-store_ps}

  abbrev pub take_raw : Source Float → Option (ℕ × Source Float)
  take_raw s = do
    (w, rest, rng) ← next_of (get_batch_uint32 traits) s.rng s.raws
    some (w, record s { rng = rng; raws = rest })

  abbrev pub take : Call → Source Float → Option (Drawn Float × Source Float)
  take Call.uint32 s = do (w, s') ← take_raw s; some (Drawn.uint32 w, s')
  take Call.int32 s = do (w, s') ← take_raw s; some (Drawn.int32 (to_int32 w), s')
  take Call.float s = do
    (x, rest, rng) ← next_of (get_batch_floats traits one) s.rng s.floats
    some (Drawn.float x, record s { rng = rng; floats = rest })

  abbrev pub take_all : List Call → Source Float → Option (List (Drawn Float) × Source Float)
  take_all [] s = some ([], s)
  take_all (c ∷ calls) s = do (x, s') ← take c s; (xs, s'') ← take_all calls s'; some (x ∷ xs, s'')

  abbrev pub view : HeavyXoroshiroRng Float → Source Float
  view s = record {
    rng = s.rng;
    raws = drop s.raw_idx s.raw_uint32_t_buffer;
    floats = drop s.float_idx s.float_buffer;
  }

  pub record IsValid (s : HeavyXoroshiroRng Float) : Type 0 where
    pub raws_full : length s.raw_uint32_t_buffer ≡ bytes / 4
    pub floats_full : length s.float_buffer ≡ bytes / 4
    pub raw_idx_in : s.raw_idx ≤ bytes / 4
    pub float_idx_in : s.float_idx ≤ bytes / 4

  whole_raws : (rng : XoroshiroRng) → length (get_batch_uint32 traits rng).0 ≡ bytes / 4
  unfolding get_batch_uint32
  whole_raws rng = length-store_si _

  whole_floats : (rng : XoroshiroRng) → length (get_batch_floats traits one rng).0 ≡ bytes / 4
  unfolding get_batch_floats
  whole_floats rng = length-store_ps _

  pub start-IsValid : (seed : ℕ) → IsValid (start traits one seed)
  unfolding start
  start-IsValid seed = record {
    raws_full = whole_raws _;
    floats_full = whole_floats _;
    raw_idx_in = omega arith;
    float_idx_in = omega arith;
  }

  module _ (narrow : bytes / 4 < 2 ^ 8) where
    -- An unsigned and a signed integer are the same word of the same source.
    raw_lem :
        (s : HeavyXoroshiroRng Float)
        → IsValid s
        → (w : ℕ) × (s' : HeavyXoroshiroRng Float) × (get_uint32 traits one s ≡ some (w, s'))
          × (get_int32 traits one s ≡ some (to_int32 w, s'))
          × (take_raw (view s) ≡ some (w, view s'))
          × IsValid s'
    unfolding get_uint32 get_int32
    raw_lem s v = elim (ℕ_discrete s.raw_idx (bytes / 4)) [
      | yes used ↦
          let (batch, rng') = get_batch_uint32 traits s.rng in
          let long = whole_raws s.rng in
          let (w, found, split) = next_item 0 batch (omega (arith, long, bytes_pos, bytes_whole)) in
          let spent : drop s.raw_idx s.raw_uint32_t_buffer ≡ [] =
            drop_all s.raw_uint32_t_buffer s.raw_idx (omega (arith, used, v.raws_full)) in
          let s' : HeavyXoroshiroRng Float = record s {
            rng = rng';
            raw_uint32_t_buffer = batch;
            raw_idx = 1;
          } in
          (
            w,
            s',
            rw (eq_pos used, found) refl,
            rw (eq_pos used, found) refl,
            rw (spent, ap uncons split) refl,
            record {
              raws_full = long;
              floats_full = v.floats_full;
              raw_idx_in = omega (arith, bytes_pos, bytes_whole);
              float_idx_in = v.float_idx_in;
            },
          )
      | no left ↦
          let (w, found, split) =
            next_item s.raw_idx s.raw_uint32_t_buffer (omega (arith, v.raws_full, v.raw_idx_in)) in
          let moved : (s.raw_idx + 1) % 2 ^ 8 ≡ suc s.raw_idx =
            omega (arith, v.raw_idx_in, narrow) in
          (
            w,
            record s { raw_idx = suc s.raw_idx },
            rw (eq_neg left, found, moved) refl,
            rw (eq_neg left, found, moved) refl,
            rw split refl,
            record {
              raws_full = v.raws_full;
              floats_full = v.floats_full;
              raw_idx_in = omega (arith, v.raw_idx_in, left);
              float_idx_in = v.float_idx_in;
            },
          )
    ]

    float_lem :
        (s : HeavyXoroshiroRng Float)
        → IsValid s
        → (x : Float) × (s' : HeavyXoroshiroRng Float) × (get_float traits one s ≡ some (x, s'))
          × (take Call.float (view s) ≡ some (Drawn.float x, view s'))
          × IsValid s'
    unfolding get_float
    float_lem s v = elim (ℕ_discrete s.float_idx (bytes / 4)) [
      | yes used ↦
          let (batch, rng') = get_batch_floats traits one s.rng in
          let long = whole_floats s.rng in
          let (x, found, split) = next_item 0 batch (omega (arith, long, bytes_pos, bytes_whole)) in
          let spent : drop s.float_idx s.float_buffer ≡ [] =
            drop_all s.float_buffer s.float_idx (omega (arith, used, v.floats_full)) in
          (
            x,
            record s { rng = rng'; float_buffer = batch; float_idx = 1 },
            rw (eq_pos used, found) refl,
            rw (spent, ap uncons split) refl,
            record {
              raws_full = v.raws_full;
              floats_full = long;
              raw_idx_in = v.raw_idx_in;
              float_idx_in = omega (arith, bytes_pos, bytes_whole);
            },
          )
      | no left ↦
          let (x, found, split) =
            next_item s.float_idx s.float_buffer (omega (arith, v.floats_full, v.float_idx_in)) in
          let moved : (s.float_idx + 1) % 2 ^ 8 ≡ suc s.float_idx =
            omega (arith, v.float_idx_in, narrow) in
          (
            x,
            record s { float_idx = suc s.float_idx },
            rw (eq_neg left, found, moved) refl,
            rw split refl,
            record {
              raws_full = v.raws_full;
              floats_full = v.floats_full;
              raw_idx_in = v.raw_idx_in;
              float_idx_in = omega (arith, v.float_idx_in, left);
            },
          )
    ]

    call_lem :
        (c : Call) (s : HeavyXoroshiroRng Float)
        → IsValid s
        → (x : Drawn Float) × (s' : HeavyXoroshiroRng Float) × (call traits one c s ≡ some (x, s'))
          × (take c (view s) ≡ some (x, view s'))
          × IsValid s'
    unfolding call
    call_lem Call.uint32 s v =
        let (w, s', unsigned, signed, taken, v') = raw_lem s v in
        (Drawn.uint32 w, s', rw unsigned refl, rw taken refl, v')
    call_lem Call.int32 s v =
        let (w, s', unsigned, signed, taken, v') = raw_lem s v in
        (Drawn.int32 (to_int32 w), s', rw signed refl, rw taken refl, v')
    call_lem Call.float s v =
        let (x, s', drawn, taken, v') = float_lem s v in
        (Drawn.float x, s', rw drawn refl, taken, v')

    -- Whatever the order of the calls, none reads past a buffer, and they return what two sources
    -- give that are never drawn from out of order: the words of one batch after another, which the
    -- unsigned and the signed calls share, and the floats of one batch after another. A batch is
    -- made only when a call finds its source used up, so the calls of either kind share the
    -- generator and no word of it is skipped. A register has fewer than 256 words.
    pub heavy_draws :
        (calls : List Call) (s : HeavyXoroshiroRng Float)
        → IsValid s
        → (xs : List (Drawn Float)) × (s' : HeavyXoroshiroRng Float) × (run traits one calls s
            ≡ some (xs, s'))
          × (take_all calls (view s) ≡ some (xs, view s'))
          × IsValid s'
    unfolding run
    heavy_draws [] s v = ([], s, refl, refl, v)
    heavy_draws (c ∷ calls) s v =
        let (x, s1, called, taken, v1) = call_lem c s v in
        let (xs, s2, ran, rest, v2) = heavy_draws calls s1 v1 in
        (x ∷ xs, s2, rw (called, ran) refl, rw (taken, rest) refl, v2)
