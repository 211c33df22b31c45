-- ===== src/Ring/Caching.antt =====
-- src/benchmarks/ring_buffers/cachy.hpp, and `ringbuffer2` of one_and_dones/ringbuffer.cpp, which
-- is the same code: each side looks at its own copy of the other's index first. One call at a time.
pub mod Laws
pub mod Refines
use benchmark_fun.Common.{
  ℕ, ◌<◌, ◌≡◌, Bool, true, false, Option, none, some, List, length, get_elem?, ◌+◌, write,
  replicate, ◌==◌, if◌then◌else◌, ◌>>=◌,
}
use benchmark_fun.Ring.Window.{next_idx, occupied}
use benchmark_fun.Ring.Classic
use benchmark_fun.Ring.Classic.{RingBuffer}

pub record CachingRingBuffer : Type 0 where
  pub buffer : List ℕ
  pub read_idx : ℕ
  pub write_idx : ℕ
  pub read_idx_cache : ℕ
  pub write_idx_cache : ℕ

unfoldable pub init : ℕ → CachingRingBuffer
init capacity = record {
  buffer = replicate capacity 0;
  read_idx = 0;
  write_idx = 0;
  read_idx_cache = 0;
  write_idx_cache = 0;
}

unfoldable pub reset : CachingRingBuffer → CachingRingBuffer
reset q = record q { read_idx = 0; write_idx = 0; read_idx_cache = 0; write_idx_cache = 0 }

-- the end of `push`, past its tests
pub store_item : CachingRingBuffer → ℕ → ℕ → Option (Bool × CachingRingBuffer)
store_item q val next_write_idx = do
  buffer ← write q.buffer q.write_idx val
  some (true, record q { buffer = buffer; write_idx = next_write_idx })

unfoldable pub push : CachingRingBuffer → ℕ → Option (Bool × CachingRingBuffer)
unfolding store_item
push q val =
    let next_write_idx = next_idx (length q.buffer) q.write_idx in
    if next_write_idx == q.read_idx_cache
    then (let q' = record q { read_idx_cache = q.read_idx } in
        if next_write_idx == q'.read_idx_cache
        then some (false, q')
        else store_item q' val next_write_idx)
    else store_item q val next_write_idx

-- the end of `pop`, past its tests
pub take_item : CachingRingBuffer → Option (Option ℕ × CachingRingBuffer)
take_item q = do
  val ← get_elem? q.buffer q.read_idx
  some (some val, record q { read_idx = next_idx (length q.buffer) q.read_idx })

unfoldable pub pop : CachingRingBuffer → Option (Option ℕ × CachingRingBuffer)
unfolding take_item
pop q =
    if q.read_idx == q.write_idx_cache
    then (let q' = record q { write_idx_cache = q.write_idx } in
        if q'.read_idx == q'.write_idx_cache then some (none, q') else take_item q')
    else take_item q

-- The ring without its caches.
abbrev pub forget : CachingRingBuffer → RingBuffer
forget q = record { buffer = q.buffer; read_idx = q.read_idx; write_idx = q.write_idx }

-- Each cache lags behind the index that it copies, and has not been lapped.
pub record IsValid (q : CachingRingBuffer) : Type 0 where
  pub ring : Classic.IsValid (forget q)
  pub read_cache_in : q.read_idx_cache < length q.buffer
  pub write_cache_in : q.write_idx_cache < length q.buffer
  pub read_lag :
      occupied (length q.buffer) q.read_idx_cache q.write_idx
      ≡ occupied (length q.buffer) q.read_idx_cache q.read_idx
        + occupied (length q.buffer) q.read_idx q.write_idx
  pub write_lag :
      occupied (length q.buffer) q.read_idx q.write_idx
      ≡ occupied (length q.buffer) q.read_idx q.write_idx_cache
        + occupied (length q.buffer) q.write_idx_cache q.write_idx
