-- ===== src/Ring/Condensed.antt =====
-- src/benchmarks/ring_buffers/condensed_cachy.hpp: the caching ring with each cache beside the
-- index that its own side writes.
use benchmark_fun.Common.{
  ℕ, ◌≡◌, refl, Bool, true, false, Option, none, some, List, length, get_elem?, write, replicate,
  ◌==◌, if◌then◌else◌, ◌>>=◌, arith,
}
use benchmark_fun.Ring.Window.{next_idx}
use benchmark_fun.Ring.Caching
use benchmark_fun.Ring.Caching.{CachingRingBuffer}

pub record ReadData : Type 0 where
  pub read_idx : ℕ
  pub write_idx_cache : ℕ

pub record WriteData : Type 0 where
  pub write_idx : ℕ
  pub read_idx_cache : ℕ

pub record CachingRingBufferCompressed : Type 0 where
  pub buffer : List ℕ
  pub read_data : ReadData
  pub write_data : WriteData

pub init : ℕ → CachingRingBufferCompressed
init capacity = record {
  buffer = replicate capacity 0;
  read_data = record { read_idx = 0; write_idx_cache = 0 };
  write_data = record { write_idx = 0; read_idx_cache = 0 };
}

pub reset : CachingRingBufferCompressed → CachingRingBufferCompressed
reset q = record q {
  read_data = record { read_idx = 0; write_idx_cache = 0 };
  write_data = record { write_idx = 0; read_idx_cache = 0 };
}

-- the end of `push`, past its tests
store_item : CachingRingBufferCompressed → ℕ → ℕ → Option (Bool × CachingRingBufferCompressed)
store_item q val next_write_idx = do
  buffer ← write q.buffer q.write_data.write_idx val
  some (
    true,
    record q {
      buffer = buffer;
      write_data = record {
        write_idx = next_write_idx;
        read_idx_cache = q.write_data.read_idx_cache;
      };
    },
  )

pub push : CachingRingBufferCompressed → ℕ → Option (Bool × CachingRingBufferCompressed)
unfolding store_item
push q val =
    let next_write_idx = next_idx (length q.buffer) q.write_data.write_idx in
    if next_write_idx == q.write_data.read_idx_cache
    then (let q' = record q {
      write_data = record {
        write_idx = q.write_data.write_idx;
        read_idx_cache = q.read_data.read_idx;
      };
    } in
        if next_write_idx == q'.write_data.read_idx_cache
        then some (false, q')
        else store_item q' val next_write_idx)
    else store_item q val next_write_idx

-- the end of `pop`, past its tests
take_item : CachingRingBufferCompressed → Option (Option ℕ × CachingRingBufferCompressed)
take_item q = do
  val ← get_elem? q.buffer q.read_data.read_idx
  some (
    some val,
    record q {
      read_data = record {
        read_idx = next_idx (length q.buffer) q.read_data.read_idx;
        write_idx_cache = q.read_data.write_idx_cache;
      };
    },
  )

pub pop : CachingRingBufferCompressed → Option (Option ℕ × CachingRingBufferCompressed)
unfolding take_item
pop q =
    if q.read_data.read_idx == q.read_data.write_idx_cache
    then (let q' = record q {
      read_data = record {
        read_idx = q.read_data.read_idx;
        write_idx_cache = q.write_data.write_idx;
      };
    } in
        if q'.read_data.read_idx == q'.read_data.write_idx_cache
        then some (none, q')
        else take_item q')
    else take_item q

-- The same fields in the order of cachy.hpp.
abbrev pub spread : CachingRingBufferCompressed → CachingRingBuffer
spread q = record {
  buffer = q.buffer;
  read_idx = q.read_data.read_idx;
  write_idx = q.write_data.write_idx;
  read_idx_cache = q.write_data.read_idx_cache;
  write_idx_cache = q.read_data.write_idx_cache;
}

abbrev pub spread_result {ℓ} :
    {B : Type ℓ} → Option (B × CachingRingBufferCompressed) → Option (B × CachingRingBuffer)
spread_result r = r >>= λ p. some (p.0, spread p.1)

-- The layout changes nothing but the layout: in every state, valid or not, each operation of the
-- condensed ring is that of the caching ring, its undefined behaviour included.
condensed_agrees :
    (q : CachingRingBufferCompressed) (val capacity : ℕ)
    → (spread_result (push q val) ≡ Caching.push (spread q) val)
      × (spread_result (pop q) ≡ Caching.pop (spread q))
      × (spread (reset q) ≡ Caching.reset (spread q))
      × (spread (init capacity) ≡ Caching.init capacity)
unfolding push pop reset init Caching.push Caching.pop Caching.reset Caching.init
condensed_agrees q val capacity = (ground arith, ground arith, refl, refl)
