-- ===== src/Ring/Caching/Laws.antt =====
-- The caches change how often the other side's index is read, and nothing else.
use native.Mathlib.Decide.{ℕ_discrete}
use benchmark_fun.Common.{
  ℕ, ◌≡◌, ◌≢◌, true, false, Option, none, some, length, get_or, set, eq_pos, eq_neg, ltb_pos, arith,
  length-set, get_elem?-eq-get_or,
}
use benchmark_fun.Ring.Window.{next_idx}
use benchmark_fun.Ring.Circle.{
  read_lag-write, write_lag-write, read_lag-read, write_lag-read, room_by_cache, item_by_cache,
  lag_self,
}
use benchmark_fun.Ring.Classic
use benchmark_fun.Ring.Classic.{RingBuffer}
use benchmark_fun.Ring.Caching.{
  CachingRingBuffer, IsValid, forget, push, pop, store_item, take_item,
}

-- The answer of the caching ring, with the ring that it leaves, without its caches.
abbrev pub Agrees {ℓ} :
    {B : Type ℓ} → Option (B × CachingRingBuffer) → Option (B × RingBuffer) → Type ℓ
Agrees {B = B} caching classic =
    (b : B) × (q' : CachingRingBuffer) × (caching ≡ some (b, q'))
    × (classic ≡ some (b, forget q'))
    × IsValid q'

module _ (q : CachingRingBuffer) (v : IsValid q) where
  abbrev pub size : ℕ
  size = length q.buffer

  abbrev pub stored : ℕ → CachingRingBuffer
  stored val = record q {
    buffer = set q.buffer q.write_idx val;
    write_idx = next_idx size q.write_idx;
  }

  pub stored-IsValid :
      (val : ℕ) → next_idx size q.write_idx ≢ q.read_idx_cache → IsValid (stored val)
  stored-IsValid val n =
      let n' =
        room_by_cache size v.ring.small q.read_idx_cache q.read_idx q.write_idx v.read_cache_in
          v.ring.read_in v.ring.write_in v.read_lag n in
      record {
        ring = Classic.pushed-IsValid (forget q) v.ring val;
        read_cache_in = omega (arith, v.read_cache_in, length-set q.buffer q.write_idx val);
        write_cache_in = omega (arith, v.write_cache_in, length-set q.buffer q.write_idx val);
        read_lag = rw (length-set q.buffer q.write_idx val) (
            read_lag-write size v.ring.small q.read_idx_cache q.read_idx q.write_idx v.read_cache_in
              v.ring.read_in v.ring.write_in v.read_lag n);
        write_lag = rw (length-set q.buffer q.write_idx val) (
            write_lag-write size v.ring.small q.read_idx q.write_idx_cache q.write_idx
              v.ring.read_in v.write_cache_in v.ring.write_in v.write_lag n');
      }

  store_item-Agrees :
      (val : ℕ)
      → next_idx size q.write_idx ≢ q.read_idx_cache
      → Agrees (store_item q val (next_idx size q.write_idx)) (Classic.push (forget q) val)
  unfolding store_item
  store_item-Agrees val n =
      let n' =
        room_by_cache size v.ring.small q.read_idx_cache q.read_idx q.write_idx v.read_cache_in
          v.ring.read_in v.ring.write_in v.read_lag n in
      (
        true,
        stored val,
        rw (ltb_pos v.ring.write_in),
        (Classic.push-room (forget q) v.ring val n').0,
        stored-IsValid val n,
      )

  abbrev pub taken : CachingRingBuffer
  taken = record q { read_idx = next_idx size q.read_idx }

  pub taken-IsValid : q.read_idx ≢ q.write_idx_cache → IsValid taken
  taken-IsValid n =
      let n' =
        item_by_cache size v.ring.small q.read_idx q.write_idx_cache q.write_idx v.ring.read_in
          v.write_cache_in v.ring.write_in v.write_lag n in
      record {
        ring = (Classic.pop-some (forget q) v.ring n').2;
        read_cache_in = v.read_cache_in;
        write_cache_in = v.write_cache_in;
        read_lag =
            read_lag-read size v.ring.small q.read_idx_cache q.read_idx q.write_idx v.read_cache_in
              v.ring.read_in v.ring.write_in v.read_lag n';
        write_lag =
            write_lag-read size v.ring.small q.read_idx q.write_idx_cache q.write_idx v.ring.read_in
              v.write_cache_in v.ring.write_in v.write_lag n;
      }

  take_item-Agrees : q.read_idx ≢ q.write_idx_cache → Agrees (take_item q) (Classic.pop (forget q))
  unfolding take_item
  take_item-Agrees n =
      let n' =
        item_by_cache size v.ring.small q.read_idx q.write_idx_cache q.write_idx v.ring.read_in
          v.write_cache_in v.ring.write_in v.write_lag n in
      (
        some (get_or q.buffer q.read_idx 0),
        taken,
        rw (get_elem?-eq-get_or q.buffer q.read_idx 0 v.ring.read_in),
        (Classic.pop-some (forget q) v.ring n').0,
        taken-IsValid n,
      )

  pub refreshed_read-IsValid : IsValid (record q { read_idx_cache = q.read_idx })
  refreshed_read-IsValid = record {
    ring = v.ring;
    read_cache_in = v.ring.read_in;
    write_cache_in = v.write_cache_in;
    read_lag = (lag_self size v.ring.small q.read_idx q.write_idx v.ring.read_in v.ring.write_in).0;
    write_lag = v.write_lag;
  }

  pub refreshed_write-IsValid : IsValid (record q { write_idx_cache = q.write_idx })
  refreshed_write-IsValid = record {
    ring = v.ring;
    read_cache_in = v.read_cache_in;
    write_cache_in = v.ring.write_in;
    read_lag = v.read_lag;
    write_lag =
        (lag_self size v.ring.small q.read_idx q.write_idx v.ring.read_in v.ring.write_in).1;
  }

-- `push` of the caching ring answers as `push` of the classic ring with the same buffer and
-- indices, and leaves it the same ring: an old copy of the read index never makes it overwrite an
-- item.
pub push-Agrees :
    (q : CachingRingBuffer) (val : ℕ)
    → IsValid q
    → Agrees (push q val) (Classic.push (forget q) val)
unfolding push
push-Agrees q val v = elim (ℕ_discrete (next_idx (length q.buffer) q.write_idx) q.read_idx_cache) [
  | no n ↦ rw (eq_neg n) (store_item-Agrees q v val n)
  | yes e ↦ rw (eq_pos e) (elim (ℕ_discrete (next_idx (length q.buffer) q.write_idx) q.read_idx) [
    | yes full ↦ (
      false,
      record q { read_idx_cache = q.read_idx },
      rw (eq_pos full),
      (Classic.push-full (forget q) v.ring val full).0,
      refreshed_read-IsValid q v,
    )
    | no n ↦ rw (eq_neg n) (
        store_item-Agrees (record q { read_idx_cache = q.read_idx }) (refreshed_read-IsValid q v)
          val n)
  ])
]

-- `pop` of the caching ring answers as `pop` of the classic ring with the same buffer and indices,
-- and leaves it the same ring: an old copy of the write index never makes it read past the items.
pub pop-Agrees : (q : CachingRingBuffer) → IsValid q → Agrees (pop q) (Classic.pop (forget q))
unfolding pop
pop-Agrees q v = elim (ℕ_discrete q.read_idx q.write_idx_cache) [
  | no n ↦ rw (eq_neg n) (take_item-Agrees q v n)
  | yes e ↦ rw (eq_pos e) (elim (ℕ_discrete q.read_idx q.write_idx) [
    | yes empty ↦ (
      none,
      record q { write_idx_cache = q.write_idx },
      rw (eq_pos empty),
      unfold Classic.pop in rw (eq_pos empty),
      refreshed_write-IsValid q v,
    )
    | no n ↦ rw (eq_neg n) (
        take_item-Agrees (record q { write_idx_cache = q.write_idx }) (refreshed_write-IsValid q v)
          n)
  ])
]
