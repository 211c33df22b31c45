-- ===== src/Ring/Spsc/Safety.antt =====
-- What the two threads of a caching ring can rely on in every reachable state.
use benchmark_fun.Common.{ℕ, ◌^◌, ◌<◌, ◌≡◌, ◌≢◌, sym, subst, ◌∙◌, arith, ◌++◌, length}
use benchmark_fun.Ring.Window.{occupied, occupied-lt, length-window}
use benchmark_fun.Ring.Spsc.{Producer, Consumer, System, Reach}
use benchmark_fun.Ring.Spsc.Inv.{ProducerKnows, ConsumerKnows, contents}
use benchmark_fun.Ring.Spsc.Written.{past_test}
use benchmark_fun.Ring.Spsc.Steps.{Reach-Inv}

module _ {capacity : ℕ} {s : System} (pos : 0 < capacity) (small : capacity < 2 ^ 64)
    (reach : Reach capacity s) where
  -- However the accesses of one producer and one consumer interleave, what was received is what was
  -- sent, in order, but for the items still in the ring, of which there are fewer than the array
  -- has places: no item is lost, doubled, overtaken or overwritten.
  pub spsc_fifo :
      (s.sent ≡ s.received ++ contents s.ring) × (length (contents s.ring) < length s.ring.buffer)
  spsc_fifo =
      let v = Reach-Inv pos small reach in
      (
        v.fifo,
        omega (
          arith,
          length-window s.ring.buffer (length s.ring.buffer) s.ring.read_idx
              (occupied (length s.ring.buffer) s.ring.read_idx s.ring.write_idx),
          occupied-lt (length s.ring.buffer) v.ring_valid.ring.small s.ring.read_idx
              s.ring.write_idx v.ring_valid.ring.read_in v.ring_valid.ring.write_in,
        ),
      )

  -- The two threads never access one place of the array at the same time, which the array, being
  -- not atomic, would not allow: when the producer is about to write at `w` and the consumer to
  -- read at `r`, both are in range and differ.
  pub spsc_no_race :
      (w n val r : ℕ)
      → s.producer ≡ Producer.storing w n val
      → s.consumer ≡ Consumer.taking r
      → (w < length s.ring.buffer) × (r < length s.ring.buffer) × (w ≢ r)
  spsc_no_race w n val r at_p at_c =
      let v = Reach-Inv pos small reach in
      let p = subst (ProducerKnows s.ring) at_p v.producer_knows in
      let c = subst (ConsumerKnows s.ring) at_c v.consumer_knows in
      let apart = past_test s.ring v.ring_valid (λ e. c.1 (c.0 ∙ e)) in
      (
        omega (arith, p.0, v.ring_valid.ring.write_in),
        omega (arith, c.0, v.ring_valid.ring.read_in),
        λ e. apart (sym c.0 ∙ sym e ∙ p.0),
      )
