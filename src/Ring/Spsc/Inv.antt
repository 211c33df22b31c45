-- ===== src/Ring/Spsc/Inv.antt =====
-- What holds between any two accesses of the producer and the consumer.
use benchmark_fun.Common.{ℕ, ◌≡◌, ◌≢◌, List, ◌++◌, length, get_or}
use benchmark_fun.Ring.Window.{next_idx}
use benchmark_fun.Ring.Classic
use benchmark_fun.Ring.Caching.{CachingRingBuffer, IsValid, forget}
use benchmark_fun.Ring.Spsc.{Producer, Consumer, System}

-- What the producer's locals say: they are its index and the next, and past the tests there is
-- room.
abbrev pub ProducerKnows : CachingRingBuffer → Producer → Type 0
ProducerKnows q Producer.idle = Unit
ProducerKnows q (Producer.testing w n val) = (w ≡ q.write_idx) × (n ≡ next_idx (length q.buffer) w)
ProducerKnows q (Producer.reloading w n val) =
    (w ≡ q.write_idx) × (n ≡ next_idx (length q.buffer) w)
ProducerKnows q (Producer.storing w n val) =
    (w ≡ q.write_idx) × (n ≡ next_idx (length q.buffer) w) × (n ≢ q.read_idx_cache)
ProducerKnows q (Producer.publishing w n val) =
    (w ≡ q.write_idx)
    × (n ≡ next_idx (length q.buffer) w)
    × (n ≢ q.read_idx_cache)
    × (get_or q.buffer w 0 ≡ val)

-- What the consumer's locals say: past the tests there is an item at its index.
abbrev pub ConsumerKnows : CachingRingBuffer → Consumer → Type 0
ConsumerKnows q Consumer.idle = Unit
ConsumerKnows q (Consumer.testing r) = r ≡ q.read_idx
ConsumerKnows q (Consumer.reloading r) = r ≡ q.read_idx
ConsumerKnows q (Consumer.taking r) = (r ≡ q.read_idx) × (r ≢ q.write_idx_cache)
ConsumerKnows q (Consumer.publishing r val) =
    (r ≡ q.read_idx) × (r ≢ q.write_idx_cache) × (get_or q.buffer r 0 ≡ val)

abbrev pub contents : CachingRingBuffer → List ℕ
contents q = Classic.contents (forget q)

pub record Inv (s : System) : Type 0 where
  pub ring_valid : IsValid s.ring
  pub producer_knows : ProducerKnows s.ring s.producer
  pub consumer_knows : ConsumerKnows s.ring s.consumer
  pub fifo : s.sent ≡ s.received ++ contents s.ring
