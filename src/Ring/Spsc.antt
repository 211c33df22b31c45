-- ===== src/Ring/Spsc.antt =====
-- `push` and `pop` of src/benchmarks/ring_buffers/cachy.hpp as two threads that interleave at every
-- access to shared memory: each step loads or stores one shared variable. Steps are taken in one
-- order that both threads see; the acquire and release orders of the source are what make that
-- order of accesses visible to the other thread.
pub mod Inv
pub mod Written
pub mod Steps
pub mod Safety
use benchmark_fun.Common.{ℕ, ◌≡◌, ◌≢◌, List, [], ◌∷◌, ◌++◌, length, get_or, set}
use benchmark_fun.Ring.Window.{next_idx}
use benchmark_fun.Ring.Caching.{CachingRingBuffer, init}

-- Where the producer stands in `push(val)`, with `current_write_idx` and `next_write_idx`.
pub data Producer : Type 0 where
  idle : Producer
  testing reloading storing publishing : ℕ → ℕ → ℕ → Producer

-- Where the consumer stands in `pop`, with `current_read_idx`, and the item once it is read.
pub data Consumer : Type 0 where
  idle : Consumer
  testing reloading taking : ℕ → Consumer
  publishing : ℕ → ℕ → Consumer

-- `sent` and `received` record the successful calls.
pub record System : Type 0 where
  pub ring : CachingRingBuffer
  pub producer : Producer
  pub consumer : Consumer
  pub sent : List ℕ
  pub received : List ℕ

abbrev pub start : ℕ → System
start capacity = record {
  ring = init capacity;
  producer = Producer.idle;
  consumer = Consumer.idle;
  sent = [];
  received = [];
}

module _ (s : System) where
  open s use {ring}

  -- One access of the producer.
  pub data Produce : System → Type 0 where
    load_write_idx :
        (val : ℕ)
        → s.producer ≡ Producer.idle
        → Produce (record s {
          producer =
              Producer.testing ring.write_idx (next_idx (length ring.buffer) ring.write_idx) val;
        })
    room_by_cache :
        {w n val : ℕ}
        → s.producer ≡ Producer.testing w n val
        → n ≢ ring.read_idx_cache
        → Produce (record s { producer = Producer.storing w n val })
    full_by_cache :
        {w n val : ℕ}
        → s.producer ≡ Producer.testing w n val
        → n ≡ ring.read_idx_cache
        → Produce (record s { producer = Producer.reloading w n val })
    reload_room :
        {w n val : ℕ}
        → s.producer ≡ Producer.reloading w n val
        → n ≢ ring.read_idx
        → Produce (record s {
          ring = record ring { read_idx_cache = ring.read_idx };
          producer = Producer.storing w n val;
        })
    reload_full :
        {w n val : ℕ}
        → s.producer ≡ Producer.reloading w n val
        → n ≡ ring.read_idx
        → Produce (record s {
          ring = record ring { read_idx_cache = ring.read_idx };
          producer = Producer.idle;
        })
    store_item :
        {w n val : ℕ}
        → s.producer ≡ Producer.storing w n val
        → Produce (record s {
          ring = record ring { buffer = set ring.buffer w val };
          producer = Producer.publishing w n val;
        })
    store_write_idx :
        {w n val : ℕ}
        → s.producer ≡ Producer.publishing w n val
        → Produce (record s {
          ring = record ring { write_idx = n };
          producer = Producer.idle;
          sent = s.sent ++ val ∷ [];
        })

  -- One access of the consumer.
  pub data Consume : System → Type 0 where
    load_read_idx :
        s.consumer ≡ Consumer.idle
        → Consume (record s { consumer = Consumer.testing ring.read_idx })
    item_by_cache :
        {r : ℕ}
        → s.consumer ≡ Consumer.testing r
        → r ≢ ring.write_idx_cache
        → Consume (record s { consumer = Consumer.taking r })
    empty_by_cache :
        {r : ℕ}
        → s.consumer ≡ Consumer.testing r
        → r ≡ ring.write_idx_cache
        → Consume (record s { consumer = Consumer.reloading r })
    reload_item :
        {r : ℕ}
        → s.consumer ≡ Consumer.reloading r
        → r ≢ ring.write_idx
        → Consume (record s {
          ring = record ring { write_idx_cache = ring.write_idx };
          consumer = Consumer.taking r;
        })
    reload_empty :
        {r : ℕ}
        → s.consumer ≡ Consumer.reloading r
        → r ≡ ring.write_idx
        → Consume (record s {
          ring = record ring { write_idx_cache = ring.write_idx };
          consumer = Consumer.idle;
        })
    take_item :
        {r : ℕ}
        → s.consumer ≡ Consumer.taking r
        → Consume (record s { consumer = Consumer.publishing r (get_or ring.buffer r 0) })
    store_read_idx :
        {r val : ℕ}
        → s.consumer ≡ Consumer.publishing r val
        → Consume (record s {
          ring = record ring { read_idx = next_idx (length ring.buffer) r };
          consumer = Consumer.idle;
          received = s.received ++ val ∷ [];
        })

-- The two threads in any order.
pub data Reach (capacity : ℕ) : System → Type 0 where
  here : Reach capacity (start capacity)
  produced : {s t : System} → Reach capacity s → Produce s t → Reach capacity t
  consumed : {s t : System} → Reach capacity s → Consume s t → Reach capacity t
