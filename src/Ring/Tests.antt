-- ===== src/Ring/Tests.antt =====
-- Runs of the ring buffers of src/benchmarks/ring_buffers, and their theorems at concrete rings.
use benchmark_fun.Common.{ℕ, ◌<◌, ◌≡◌, ◌≢◌, refl, true, false, some, [], ◌∷◌, ◌++◌, length, arith}
use benchmark_fun.Ring.Classic
use benchmark_fun.Ring.Classic.{RingBuffer}
use benchmark_fun.Ring.Caching
use benchmark_fun.Ring.Caching.{CachingRingBuffer, forget}
use benchmark_fun.Ring.Caching.Refines.{caching, caching_init_lem}
use benchmark_fun.Ring.Condensed.{CachingRingBufferCompressed}
use benchmark_fun.Ring.Spsc.{Producer, Consumer, System, Produce, Consume, Reach}
use benchmark_fun.Ring.Spsc.Inv.{contents}
use benchmark_fun.Ring.Spsc.Safety.{spsc_fifo, spsc_no_race}
use benchmark_fun.Ring.Tester.{
  Tester, popper, pusher, run_benchmark, starting, count_up, popped_in_order,
}

-- 8 and 9, round the end of an array of three
abbrev wrapped : RingBuffer
wrapped = record { buffer = 9 ∷ 7 ∷ 8 ∷ []; read_idx = 2; write_idx = 1 }

abbrev cached : CachingRingBuffer
cached = record {
  buffer = 9 ∷ 7 ∷ 8 ∷ [];
  read_idx = 2;
  write_idx = 1;
  read_idx_cache = 2;
  write_idx_cache = 0;
}

wrapped-IsValid : Classic.IsValid wrapped
wrapped-IsValid = omega arith

cached-IsValid : Caching.IsValid cached
cached-IsValid = ground arith

full_and_popped :
    (Classic.push wrapped 5 ≡ some (false, wrapped))
    × (Classic.pop wrapped ≡ some (some 8, record wrapped { read_idx = 0 }))
    × (Classic.reset wrapped ≡ record wrapped { read_idx = 0; write_idx = 0 })
    × (Classic.push (Classic.init 2) 5
        ≡ some (true, record { buffer = 5 ∷ 0 ∷ []; read_idx = 0; write_idx = 1 }))
unfolding Classic.push Classic.pop Classic.reset Classic.init
full_and_popped = (refl, refl, refl, refl)

abbrev condensed : CachingRingBufferCompressed
condensed = record {
  buffer = 9 ∷ 7 ∷ 8 ∷ [];
  read_data = record { read_idx = 2; write_idx_cache = 0 };
  write_data = record { write_idx = 1; read_idx_cache = 2 };
}

popped_in_order_example :
    (t : Tester CachingRingBuffer) × (run_benchmark caching 2
        (pusher ∷ popper ∷ popper ∷ pusher ∷ [])
        (starting caching 2 (Caching.init 2))
      ≡ some t)
    × (t.popped ≡ count_up (length t.popped))
popped_in_order_example =
    popped_in_order caching 2 (omega arith) (pusher ∷ popper ∷ popper ∷ pusher ∷ [])
      (Caching.init 2) (caching_init_lem 2 (omega arith) (omega arith)).0
      (caching_init_lem 2 (omega arith) (omega arith)).1

-- The producer has passed its tests, and so has the consumer, for the one item in the ring.
abbrev busy : System
busy = record {
  ring = record {
    buffer = 5 ∷ 0 ∷ 0 ∷ [];
    read_idx = 0;
    write_idx = 1;
    read_idx_cache = 0;
    write_idx_cache = 1;
  };
  producer = Producer.storing 1 2 6;
  consumer = Consumer.taking 0;
  sent = 5 ∷ [];
  received = [];
}

busy-Reach : Reach 3 busy
unfolding Caching.init
busy-Reach =
    Reach.consumed
      (Reach.consumed
        (Reach.consumed
          (Reach.produced
            (Reach.produced
              (Reach.produced
                (Reach.produced
                  (Reach.produced (Reach.produced Reach.here (Produce.load_write_idx 5 refl))
                    (Produce.room_by_cache refl (omega arith)))
                  (Produce.store_item refl))
                (Produce.store_write_idx refl))
              (Produce.load_write_idx 6 refl))
            (Produce.room_by_cache refl (omega arith)))
          (Consume.load_read_idx refl))
        (Consume.empty_by_cache refl refl))
      (Consume.reload_item refl (omega arith))

spsc_fifo_example : (5 ∷ [] ≡ [] ++ contents busy.ring) × (length (contents busy.ring) < 3)
spsc_fifo_example = spsc_fifo (omega arith) (omega arith) busy-Reach

spsc_no_race_example : (1 < 3) × (0 < 3) × (◌≢◌ {A = ℕ} 1 0)
spsc_no_race_example = spsc_no_race (omega arith) (omega arith) busy-Reach 1 2 6 0 refl refl
