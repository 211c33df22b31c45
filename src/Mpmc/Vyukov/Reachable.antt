-- ===== src/Mpmc/Vyukov/Reachable.antt =====
-- The invariant of src/benchmarks/MPMC/vyukov.hpp over every run of the threads, until the counters
-- would have left the positive numbers that the differences of positions are read as.
use benchmark_fun.Common.{
  ℕ, suc, ◌+◌, ◌^◌, ◌≤◌, ◌<◌, ◌≡◌, ◌≢◌, refl, subst, [], ◌∷◌, length, arith, length-append,
}
use benchmark_fun.Mpmc.Vyukov.{slot_of, start, Thread, System, Step, Reach}
use benchmark_fun.Mpmc.Vyukov.Inv.{Ok, Inv, moved-Inv}
use benchmark_fun.Mpmc.Vyukov.Push.{push_claim-Inv, write-Inv, publish-Inv}
use benchmark_fun.Mpmc.Vyukov.Pop.{pop_claim-Inv, read-Ok, release-Inv}

module _ (size : ℕ) (next : (pos : ℕ) → slot_of size (suc pos) ≢ slot_of size pos)
    (round : (pos : ℕ) → slot_of size (pos + size) ≡ slot_of size pos) (some_slots : 0 < size) where
  pub start-Inv :
      size ≤ 2 ^ 63
      → ((pos : ℕ) → slot_of size pos < size)
      → ((pos : ℕ) → slot_of size pos ≤ pos)
      → Inv size start
  start-Inv small below le = record {
    count = refl;
    read_le = omega arith;
    contents = λ pos e. absurd (omega (arith, e, le pos));
    threads_ok = λ _. omega arith;
    words = λ pos. omega (arith, below pos, small);
    popped_ok = omega arith;
    popped_once = omega arith;
  }

  pub pushed_mono :
      {s : System} (t : ℕ) {s' : System} → Step size s t s' → length s.pushed ≤ length s'.pushed
  pushed_mono t (Step.push_load_write_idx val at) = omega arith
  pushed_mono t (Step.push_free at free) = omega arith
  pushed_mono t (Step.push_full at full) = omega arith
  pushed_mono t (Step.push_behind at some few) = omega arith
  pushed_mono {s} t (Step.push_claim {val} at here) =
      omega (arith, length-append s.pushed (val ∷ []))
  pushed_mono t (Step.push_retry at) = omega arith
  pushed_mono t (Step.write at) = omega arith
  pushed_mono t (Step.publish at) = omega arith
  pushed_mono t (Step.pop_load_read_idx at) = omega arith
  pushed_mono t (Step.pop_written at written) = omega arith
  pushed_mono t (Step.pop_empty at empty) = omega arith
  pushed_mono t (Step.pop_behind at some few) = omega arith
  pushed_mono t (Step.pop_claim at here) = omega arith
  pushed_mono t (Step.pop_retry at) = omega arith
  pushed_mono t (Step.read at) = omega arith
  pushed_mono t (Step.release at) = omega arith

  module _ {s : System} (t : ℕ) (inv : Inv size s) where
    pub at-Ok : (th : Thread) → s.threads t ≡ th → Ok size s t th
    at-Ok th at = subst (λ x. Ok size s t x) at (inv.threads_ok t)

    pub step-Inv : {s' : System} → Step size s t s' → length s'.pushed + size ≤ 2 ^ 63 → Inv size s'
    step-Inv (Step.push_load_write_idx val at) room =
        moved-Inv size s t inv (Thread.push_loading val s.write_idx) (omega arith)
    step-Inv (Step.push_free {val} {pos} at free) room =
        let ok = at-Ok (Thread.push_loading val pos) at in
        moved-Inv size s t inv (Thread.push_claiming val pos)
          (ok, λ _. omega (arith, free, ok, inv.words pos, inv.count, room))
    step-Inv (Step.push_full at full) room = moved-Inv size s t inv Thread.idle (omega arith)
    step-Inv (Step.push_behind {val} at some few) room =
        moved-Inv size s t inv (Thread.push_loading val s.write_idx) (omega arith)
    step-Inv (Step.push_claim {val} {pos} at here) room =
        push_claim-Inv size next s t inv val pos here
          (omega (arith, inv.count, here, room, length-append s.pushed (val ∷ [])))
          (at-Ok (Thread.push_claiming val pos) at)
    step-Inv (Step.push_retry {val} at) room =
        moved-Inv size s t inv (Thread.push_loading val s.write_idx) (omega arith)
    step-Inv (Step.write {val} {pos} at) room =
        write-Inv size next s t inv val pos (at-Ok (Thread.writing val pos) at)
    step-Inv (Step.publish {pos} at) room =
        let ok = at-Ok (Thread.publishing pos) at in
        publish-Inv size next s t inv pos (omega (arith, ok.0, inv.count, room)) ok
    step-Inv (Step.pop_load_read_idx at) room =
        moved-Inv size s t inv (Thread.pop_loading s.read_idx) (omega arith)
    step-Inv (Step.pop_written {pos} at written) room =
        let ok = at-Ok (Thread.pop_loading pos) at in
        moved-Inv size s t inv (Thread.pop_claiming pos)
          (ok, λ _. omega (arith, written, ok, inv.words pos, inv.count, inv.read_le, room))
    step-Inv (Step.pop_empty at empty) room = moved-Inv size s t inv Thread.idle (omega arith)
    step-Inv (Step.pop_behind at some few) room =
        moved-Inv size s t inv (Thread.pop_loading s.read_idx) (omega arith)
    step-Inv (Step.pop_claim {pos} at here) room =
        pop_claim-Inv size next s t inv pos here (omega (arith, inv.count, inv.read_le, here, room))
          (at-Ok (Thread.pop_claiming pos) at)
    step-Inv (Step.pop_retry at) room =
        moved-Inv size s t inv (Thread.pop_loading s.read_idx) (omega arith)
    step-Inv (Step.read {pos} at) room =
        moved-Inv size s t inv (Thread.releasing pos (s.value (slot_of size pos)))
          (read-Ok size next s t inv pos (at-Ok (Thread.reading pos) at))
    step-Inv (Step.release {pos} {val} at) room =
        let ok = at-Ok (Thread.releasing pos val) at in
        release-Inv size next s t inv round pos val
          (omega (arith, ok.0, inv.count, inv.read_le, room)) some_slots ok

  pub reach-Inv :
      Inv size start → {s : System} → Reach size s → length s.pushed + size ≤ 2 ^ 63 → Inv size s
  reach-Inv init Reach.here room = init
  reach-Inv init (Reach.step t reach one) room =
      step-Inv t (reach-Inv init reach (omega (arith, pushed_mono t one, room))) one room
