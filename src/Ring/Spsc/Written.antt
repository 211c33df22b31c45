-- ===== src/Ring/Spsc/Written.antt =====
-- What the stores of the producer change.
use native.Mathlib.Numerals.{add-one}
use benchmark_fun.Common.{
  ℕ, ◌≡◌, ◌≢◌, refl, sym, ◌∙◌, [], ◌∷◌, ◌++◌, length, get_or, set, arith, length-set, get_or-set,
  eq_neg,
}
use benchmark_fun.Ring.Window.{
  next_idx, occupied, window-set_same, window-snoc, next_idx-lt, occupied-next_write,
}
use benchmark_fun.Ring.Circle.{read_lag-write, write_lag-write, room_by_cache, item_by_cache}
use benchmark_fun.Ring.Caching.{CachingRingBuffer, IsValid}
use benchmark_fun.Ring.Spsc.{Producer, Consumer}
use benchmark_fun.Ring.Spsc.Inv.{ProducerKnows, ConsumerKnows, contents}

-- The other thread's steps leave a thread's knowledge alone.
module _ (q q' : CachingRingBuffer) where
  pub ConsumerKnows-same :
      (c : Consumer)
      → q'.buffer ≡ q.buffer
      → q'.read_idx ≡ q.read_idx
      → q'.write_idx_cache ≡ q.write_idx_cache
      → ConsumerKnows q c
      → ConsumerKnows q' c
  ConsumerKnows-same Consumer.idle b r w k = tt
  ConsumerKnows-same (Consumer.testing i) b r w k = omega arith
  ConsumerKnows-same (Consumer.reloading i) b r w k = omega arith
  ConsumerKnows-same (Consumer.taking i) b r w k = omega arith
  ConsumerKnows-same (Consumer.publishing i v) b r w k = ground arith

  pub ProducerKnows-same :
      (p : Producer)
      → q'.buffer ≡ q.buffer
      → q'.write_idx ≡ q.write_idx
      → q'.read_idx_cache ≡ q.read_idx_cache
      → ProducerKnows q p
      → ProducerKnows q' p
  ProducerKnows-same Producer.idle b w r k = tt
  ProducerKnows-same (Producer.testing i n v) b w r k = ground arith
  ProducerKnows-same (Producer.reloading i n v) b w r k = ground arith
  ProducerKnows-same (Producer.storing i n v) b w r k = ground arith
  ProducerKnows-same (Producer.publishing i n v) b w r k = ground arith

module _ (q : CachingRingBuffer) (v : IsValid q) where
  abbrev size : ℕ
  size = length q.buffer

  abbrev pub written : ℕ → CachingRingBuffer
  written val = record q { buffer = set q.buffer q.write_idx val }

  -- An index past the consumer's test is not the one that the producer writes at.
  pub past_test : q.read_idx ≢ q.write_idx_cache → q.read_idx ≢ q.write_idx
  past_test =
      item_by_cache size v.ring.small q.read_idx q.write_idx_cache q.write_idx v.ring.read_in
        v.write_cache_in v.ring.write_in v.write_lag

  pub ConsumerKnows-written :
      (c : Consumer) (val : ℕ) → ConsumerKnows q c → ConsumerKnows (written val) c
  ConsumerKnows-written Consumer.idle val k = tt
  ConsumerKnows-written (Consumer.testing i) val k = k
  ConsumerKnows-written (Consumer.reloading i) val k = k
  ConsumerKnows-written (Consumer.taking i) val k = k
  ConsumerKnows-written (Consumer.publishing i x) val k = (
    k.0,
    k.1,
    let n : q.read_idx ≢ q.write_idx_cache = λ e. k.1 (k.0 ∙ e) in
        let apart : q.write_idx ≢ i = λ e. past_test n (sym k.0 ∙ sym e) in
        get_or-set q.buffer q.write_idx i val 0 v.ring.write_in ∙ rw (eq_neg apart) k.2,
  )

  pub written-IsValid : (val : ℕ) → IsValid (written val)
  written-IsValid val =
      let e = length-set q.buffer q.write_idx val in
      record {
        ring = record {
          small = rw e v.ring.small;
          read_in = rw e v.ring.read_in;
          write_in = rw e v.ring.write_in;
        };
        read_cache_in = rw e v.read_cache_in;
        write_cache_in = rw e v.write_cache_in;
        read_lag = rw e v.read_lag;
        write_lag = rw e v.write_lag;
      }

  pub contents-written : (val : ℕ) → contents (written val) ≡ contents q
  contents-written val = rw (length-set q.buffer q.write_idx val) (
      window-set_same size v.ring.small q.buffer val q.write_idx
        (occupied size q.read_idx q.write_idx) q.read_idx (omega arith) v.ring.read_in
        v.ring.write_in refl)

  abbrev pub published : CachingRingBuffer
  published = record q { write_idx = next_idx size q.write_idx }

  module _ (room : next_idx size q.write_idx ≢ q.read_idx_cache) where
    real_room : next_idx size q.write_idx ≢ q.read_idx
    real_room =
        room_by_cache size v.ring.small q.read_idx_cache q.read_idx q.write_idx v.read_cache_in
          v.ring.read_in v.ring.write_in v.read_lag room

    pub published-IsValid : IsValid published
    published-IsValid = record {
      ring = record {
        small = v.ring.small;
        read_in = v.ring.read_in;
        write_in = next_idx-lt size v.ring.small q.write_idx v.ring.write_in;
      };
      read_cache_in = v.read_cache_in;
      write_cache_in = v.write_cache_in;
      read_lag =
          read_lag-write size v.ring.small q.read_idx_cache q.read_idx q.write_idx v.read_cache_in
            v.ring.read_in v.ring.write_in v.read_lag room;
      write_lag =
          write_lag-write size v.ring.small q.read_idx q.write_idx_cache q.write_idx v.ring.read_in
            v.write_cache_in v.ring.write_in v.write_lag real_room;
    }

    pub contents-published : contents published ≡ contents q ++ get_or q.buffer q.write_idx 0 ∷ []
    contents-published =
        rw
          (
            occupied-next_write size v.ring.small q.read_idx q.write_idx v.ring.read_in
                v.ring.write_in real_room,
            add-one,
          )
          (window-snoc size v.ring.small q.buffer q.write_idx (occupied size q.read_idx q.write_idx)
            q.read_idx v.ring.read_in v.ring.write_in refl)
