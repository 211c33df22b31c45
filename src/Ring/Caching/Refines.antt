-- ===== src/Ring/Caching/Refines.antt =====
-- The caching ring keeps the contract of `Ring.Api`, by its agreement with the classic one.
use benchmark_fun.Common.{
  ℕ, ◌^◌, ◌-◌, ◌<◌, ◌≡◌, refl, ap, ◌∙◌, Option, some, [], arith, replicate, length,
}
use benchmark_fun.Ring.Queue
use benchmark_fun.Ring.Api.{RingApi}
use benchmark_fun.Ring.Circle.{lag_self}
use benchmark_fun.Ring.Classic
use benchmark_fun.Ring.Classic.{RingBuffer}
use benchmark_fun.Ring.Caching.{CachingRingBuffer, IsValid, forget, init, reset, push, pop}
use benchmark_fun.Ring.Caching.Laws.{push-Agrees, pop-Agrees}

-- Two results of one call.
module _ {ℓ} {B : Type ℓ} {o : Option (B × RingBuffer)} {b c : B} {q r : RingBuffer}
    (left : o ≡ some (b, q)) (right : o ≡ some (c, r)) where
  same_answer : b ≡ c
  same_answer = cc

  same_ring : q ≡ r
  same_ring = cc

-- A new ring is valid and empty, and holds one item less than its array has places.
pub caching_init_lem :
    (capacity : ℕ)
    → 0 < capacity
    → capacity < 2 ^ 64
    → IsValid (init capacity)
      × (Classic.contents (forget (init capacity)) ≡ [])
      × (Classic.room (forget (init capacity)) ≡ capacity - 1)
unfolding init Classic.init
caching_init_lem capacity pos small =
    let ring = Classic.init_lem capacity pos small in
    let fits : 0 < length {A = ℕ} (replicate capacity 0) = ring.0.read_in in
    let lag = lag_self (length {A = ℕ} (replicate capacity 0)) ring.0.small 0 0 fits fits in
    (
      record {
        ring = ring.0;
        read_cache_in = fits;
        write_cache_in = fits;
        read_lag = lag.0;
        write_lag = lag.1;
      },
      refl,
      ring.2,
    )

pub caching_push_refines :
    (q : CachingRingBuffer) (val : ℕ)
    → IsValid q
    → (q' : CachingRingBuffer) × (push q val
        ≡ some ((Queue.push (Classic.room (forget q)) (Classic.contents (forget q)) val).0, q'))
      × (Classic.contents (forget q')
          ≡ (Queue.push (Classic.room (forget q)) (Classic.contents (forget q)) val).1)
      × (Classic.room (forget q') ≡ Classic.room (forget q))
      × IsValid q'
caching_push_refines q val v =
    let (b, q', code, classic_code, valid) = push-Agrees q val v in
    let (r, spec_code, holds, same_room, ring_valid) = Classic.push_refines (forget q) val v.ring in
    let same = same_ring classic_code spec_code in
    (
      q',
      code ∙ ap (λ b. some (b, q')) (same_answer classic_code spec_code),
      ap Classic.contents same ∙ holds,
      ap Classic.room same ∙ same_room,
      valid,
    )

pub caching_pop_refines :
    (q : CachingRingBuffer)
    → IsValid q
    → (q' : CachingRingBuffer) × (pop q ≡ some ((Queue.pop (Classic.contents (forget q))).0, q'))
      × (Classic.contents (forget q') ≡ (Queue.pop (Classic.contents (forget q))).1)
      × (Classic.room (forget q') ≡ Classic.room (forget q))
      × IsValid q'
caching_pop_refines q v =
    let (b, q', code, classic_code, valid) = pop-Agrees q v in
    let (r, spec_code, holds, same_room, ring_valid) = Classic.pop_refines (forget q) v.ring in
    let same = same_ring classic_code spec_code in
    (
      q',
      code ∙ ap (λ b. some (b, q')) (same_answer classic_code spec_code),
      ap Classic.contents same ∙ holds,
      ap Classic.room same ∙ same_room,
      valid,
    )

pub caching_reset_refines :
    (q : CachingRingBuffer)
    → IsValid q
    → (q' : CachingRingBuffer) × (some (reset q) ≡ some q')
      × (Classic.contents (forget q') ≡ [])
      × (Classic.room (forget q') ≡ Classic.room (forget q))
      × IsValid q'
unfolding reset
caching_reset_refines q v =
    let fits : 0 < length q.buffer = omega (arith, v.ring.read_in) in
    let lag = lag_self (length q.buffer) v.ring.small 0 0 fits fits in
    (
      reset q,
      refl,
      refl,
      refl,
      record {
        ring = record { small = v.ring.small; read_in = fits; write_in = fits };
        read_cache_in = fits;
        write_cache_in = fits;
        read_lag = lag.0;
        write_lag = lag.1;
      },
    )

abbrev pub caching : RingApi
caching = record {
  State = CachingRingBuffer;
  push = push;
  pop = pop;
  reset = λ q. some (reset q);
  IsValid = IsValid;
  room = λ q. Classic.room (forget q);
  contents = λ q. Classic.contents (forget q);
  push_refines = caching_push_refines;
  pop_refines = caching_pop_refines;
  reset_refines = caching_reset_refines;
}
