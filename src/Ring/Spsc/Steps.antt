-- ===== src/Ring/Spsc/Steps.antt =====
-- Every access of either thread keeps what holds between any two.
use mathlib.Core.List.{append_assoc}
use benchmark_fun.Common.{
  ℕ, ◌^◌, ◌<◌, ◌≡◌, ◌≢◌, refl, sym, ap, subst, ◌∙◌, [], ◌∷◌, ◌++◌, length, get_or, set, length-set,
  get_or-set, eq_pos,
}
use benchmark_fun.Ring.Window.{next_idx}
use benchmark_fun.Ring.Classic
use benchmark_fun.Ring.Caching.{forget}
use benchmark_fun.Ring.Caching.Laws.{
  refreshed_read-IsValid, refreshed_write-IsValid, taken, taken-IsValid,
}
use benchmark_fun.Ring.Caching.Refines.{caching_init_lem}
use benchmark_fun.Ring.Spsc.{Producer, Consumer, System, Produce, Consume, Reach}
use benchmark_fun.Ring.Spsc.Inv.{ProducerKnows, ConsumerKnows, contents, Inv}
use benchmark_fun.Ring.Spsc.Written.{
  ConsumerKnows-same, ProducerKnows-same, written, past_test, ConsumerKnows-written,
  written-IsValid, contents-written, published, published-IsValid, contents-published,
}

Produce-Inv : {s t : System} → Produce s t → Inv s → Inv t
Produce-Inv {s} (Produce.load_write_idx val at) v = record {
  ring_valid = v.ring_valid;
  producer_knows = (refl, refl);
  consumer_knows = v.consumer_knows;
  fifo = v.fifo;
}
Produce-Inv {s} (Produce.room_by_cache at n) v =
    let k = subst (ProducerKnows s.ring) at v.producer_knows in
    record {
      ring_valid = v.ring_valid;
      producer_knows = (k.0, k.1, n);
      consumer_knows = v.consumer_knows;
      fifo = v.fifo;
    }
Produce-Inv {s} (Produce.full_by_cache at e) v =
    let k = subst (ProducerKnows s.ring) at v.producer_knows in
    record {
      ring_valid = v.ring_valid;
      producer_knows = (k.0, k.1);
      consumer_knows = v.consumer_knows;
      fifo = v.fifo;
    }
Produce-Inv {s} (Produce.reload_room at n) v =
    let k = subst (ProducerKnows s.ring) at v.producer_knows in
    record {
      ring_valid = refreshed_read-IsValid s.ring v.ring_valid;
      producer_knows = (k.0, k.1, n);
      consumer_knows =
          ConsumerKnows-same s.ring (record s.ring { read_idx_cache = s.ring.read_idx }) s.consumer
            refl refl refl v.consumer_knows;
      fifo = v.fifo;
    }
Produce-Inv {s} (Produce.reload_full at e) v = record {
  ring_valid = refreshed_read-IsValid s.ring v.ring_valid;
  producer_knows = tt;
  consumer_knows =
      ConsumerKnows-same s.ring (record s.ring { read_idx_cache = s.ring.read_idx }) s.consumer refl
        refl refl v.consumer_knows;
  fifo = v.fifo;
}
Produce-Inv {s} (Produce.store_item {w} {n} {val} at) v =
    let k = subst (ProducerKnows s.ring) at v.producer_knows in
    let stored : Inv (record s {
      ring = written s.ring v.ring_valid val;
      producer = Producer.publishing s.ring.write_idx n val;
    }) =
      record {
        ring_valid = written-IsValid s.ring v.ring_valid val;
        producer_knows = (
          refl,
          rw (length-set s.ring.buffer s.ring.write_idx val)
              (k.1 ∙ ap (next_idx (length s.ring.buffer)) k.0),
          k.2,
          get_or-set s.ring.buffer s.ring.write_idx s.ring.write_idx val 0
                v.ring_valid.ring.write_in
              ∙ rw (eq_pos {a = s.ring.write_idx} {b = s.ring.write_idx} refl) refl,
        );
        consumer_knows = ConsumerKnows-written s.ring v.ring_valid s.consumer val v.consumer_knows;
        fifo = v.fifo ∙ ap (λ c. s.received ++ c) (sym (contents-written s.ring v.ring_valid val));
      } in
    subst
      (λ i. Inv (record s {
        ring = record s.ring { buffer = set s.ring.buffer i val };
        producer = Producer.publishing i n val;
      }))
      (sym k.0) stored
Produce-Inv {s} (Produce.store_write_idx {w} {n} {val} at) v =
    let k = subst (ProducerKnows s.ring) at v.producer_knows in
    let next : n ≡ next_idx (length s.ring.buffer) s.ring.write_idx =
      k.1 ∙ ap (next_idx (length s.ring.buffer)) k.0 in
    let room : next_idx (length s.ring.buffer) s.ring.write_idx ≢ s.ring.read_idx_cache =
      λ e. k.2 (next ∙ e) in
    let item : get_or s.ring.buffer s.ring.write_idx 0 ≡ val =
      ap (λ i. get_or s.ring.buffer i 0) (sym k.0) ∙ k.3 in
    let moved : Inv (record s {
      ring = published s.ring v.ring_valid;
      producer = Producer.idle;
      sent = s.sent ++ val ∷ [];
    }) =
      record {
        ring_valid = published-IsValid s.ring v.ring_valid room;
        producer_knows = tt;
        consumer_knows =
            ConsumerKnows-same s.ring (published s.ring v.ring_valid) s.consumer refl refl refl
              v.consumer_knows;
        fifo =
            ap (λ c. c ++ val ∷ []) v.fifo
            ∙ append_assoc s.received (contents s.ring) (val ∷ [])
            ∙ ap (λ c. s.received ++ c)
                (ap (λ x. contents s.ring ++ x ∷ []) (sym item)
                  ∙ sym (contents-published s.ring v.ring_valid room));
      } in
    subst
      (λ m. Inv (record s {
        ring = record s.ring { write_idx = m };
        producer = Producer.idle;
        sent = s.sent ++ val ∷ [];
      }))
      (sym next) moved

Consume-Inv : {s t : System} → Consume s t → Inv s → Inv t
Consume-Inv {s} (Consume.load_read_idx at) v = record {
  ring_valid = v.ring_valid;
  producer_knows = v.producer_knows;
  consumer_knows = refl;
  fifo = v.fifo;
}
Consume-Inv {s} (Consume.item_by_cache {r} at n) v =
    let k = subst (ConsumerKnows s.ring) at v.consumer_knows in
    record {
      ring_valid = v.ring_valid;
      producer_knows = v.producer_knows;
      consumer_knows = (k, n);
      fifo = v.fifo;
    }
Consume-Inv {s} (Consume.empty_by_cache {r} at e) v =
    let k = subst (ConsumerKnows s.ring) at v.consumer_knows in
    record {
      ring_valid = v.ring_valid;
      producer_knows = v.producer_knows;
      consumer_knows = k;
      fifo = v.fifo;
    }
Consume-Inv {s} (Consume.reload_item {r} at n) v =
    let k = subst (ConsumerKnows s.ring) at v.consumer_knows in
    record {
      ring_valid = refreshed_write-IsValid s.ring v.ring_valid;
      producer_knows =
          ProducerKnows-same s.ring (record s.ring { write_idx_cache = s.ring.write_idx })
            s.producer refl refl refl v.producer_knows;
      consumer_knows = (k, n);
      fifo = v.fifo;
    }
Consume-Inv {s} (Consume.reload_empty at e) v = record {
  ring_valid = refreshed_write-IsValid s.ring v.ring_valid;
  producer_knows =
      ProducerKnows-same s.ring (record s.ring { write_idx_cache = s.ring.write_idx }) s.producer
        refl refl refl v.producer_knows;
  consumer_knows = tt;
  fifo = v.fifo;
}
Consume-Inv {s} (Consume.take_item {r} at) v =
    let k = subst (ConsumerKnows s.ring) at v.consumer_knows in
    record {
      ring_valid = v.ring_valid;
      producer_knows = v.producer_knows;
      consumer_knows = (k.0, k.1, refl);
      fifo = v.fifo;
    }
Consume-Inv {s} (Consume.store_read_idx {r} {val} at) v =
    let k = subst (ConsumerKnows s.ring) at v.consumer_knows in
    let there : s.ring.read_idx ≢ s.ring.write_idx_cache = λ e. k.1 (k.0 ∙ e) in
    let item : get_or s.ring.buffer s.ring.read_idx 0 ≡ val =
      ap (λ i. get_or s.ring.buffer i 0) (sym k.0) ∙ k.2 in
    let moved : Inv (record s {
      ring = taken s.ring v.ring_valid;
      consumer = Consumer.idle;
      received = s.received ++ val ∷ [];
    }) =
      record {
        ring_valid = taken-IsValid s.ring v.ring_valid there;
        producer_knows =
            ProducerKnows-same s.ring (taken s.ring v.ring_valid) s.producer refl refl refl
              v.producer_knows;
        consumer_knows = tt;
        fifo =
            v.fifo
            ∙ ap (λ c. s.received ++ c)
                ((Classic.pop-some (forget s.ring) v.ring_valid.ring
                    (past_test s.ring v.ring_valid there)).1
                  ∙ ap (λ x. x ∷ contents (taken s.ring v.ring_valid)) item)
            ∙ sym (append_assoc s.received (val ∷ []) (contents (taken s.ring v.ring_valid)));
      } in
    subst
      (λ i. Inv (record s {
        ring = record s.ring { read_idx = next_idx (length s.ring.buffer) i };
        consumer = Consumer.idle;
        received = s.received ++ val ∷ [];
      }))
      (sym k.0) moved

pub Reach-Inv :
    {capacity : ℕ} {s : System} → 0 < capacity → capacity < 2 ^ 64 → Reach capacity s → Inv s
Reach-Inv {capacity} pos small Reach.here =
    let (valid, nothing, room) = caching_init_lem capacity pos small in
    record { ring_valid = valid; producer_knows = tt; consumer_knows = tt; fifo = sym nothing }
Reach-Inv pos small (Reach.produced r step) = Produce-Inv step (Reach-Inv pos small r)
Reach-Inv pos small (Reach.consumed r step) = Consume-Inv step (Reach-Inv pos small r)
