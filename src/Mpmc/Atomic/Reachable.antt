-- ===== src/Mpmc/Atomic/Reachable.antt =====
-- The invariant of src/benchmarks/MPMC/atomics.hpp over every run of the threads in which none of
-- them stays behind for a round of the queue inside a call.
use benchmark_fun.Common.{ℕ, ◌+◌, ◌^◌, ◌≤◌, ◌<◌, ◌≡◌, sym, subst, ◌∙◌, length, arith}
use native.Mathlib.Nat.{mod-eq_of_lt}
use benchmark_fun.Mpmc.Atomic.{start, Thread, System, Step, Reach}
use benchmark_fun.Mpmc.Atomic.Inv.{same_ticket, Ok, Inv, moved-Inv}
use benchmark_fun.Mpmc.Atomic.Push.{push_room-Ok, push_claim-Inv}
use benchmark_fun.Mpmc.Atomic.Publish.{write-Inv, publish-Inv}
use benchmark_fun.Mpmc.Atomic.Pop.{pop_some-Ok, pop_claim-Inv, read-Ok, release-Inv, reset-Inv}

module _ (size : ℕ) where
  -- If the step is an exchange that reserves an item, fewer calls than there are items have
  -- reserved one since its thread loaded the index.
  abbrev pub Timely : {s : System} (t : ℕ) {s' : System} → Step size s t s' → Type 0
  Timely {s} t (Step.push_claim {ticket = ticket} at here) = length s.pushed < ticket + size
  Timely {s} t (Step.pop_claim {ticket = ticket} at here) = s.reads < ticket + size
  Timely t _ = 0 ≤ 0

  abbrev pub Prompt : {s : System} → Reach size s → Type 0
  Prompt Reach.here = 0 ≤ 0
  Prompt (Reach.step t reach one) = Prompt reach × Timely t one

module _ (size : ℕ) (some_slots : 0 < size) (small : size < 2 ^ 64) where
  pub start-Inv : Inv size start
  start-Inv = record {
    popped_le = omega arith;
    reads_le = omega arith;
    published_le = omega arith;
    room = omega (arith, some_slots);
    read_lem = sym (mod-eq_of_lt some_slots);
    reserved_read_lem = sym (mod-eq_of_lt some_slots);
    write_lem = sym (mod-eq_of_lt some_slots);
    reserved_write_lem = sym (mod-eq_of_lt some_slots);
    contents = λ p from below. absurd (omega (arith, below));
    in_order = λ p h. absurd (omega (arith, h));
    threads_ok = λ u. omega arith;
  }

  module _ {s : System} (t : ℕ) (inv : Inv size s) where
    pub at-Ok : (th : Thread) → s.threads t ≡ th → Ok size s t th
    at-Ok th at = subst (λ x. Ok size s t x) at (inv.threads_ok t)

    pub step-Inv : {s' : System} (one : Step size s t s') → Timely size t one → Inv size s'
    step-Inv (Step.resets quiet) h = reset-Inv size some_slots small s t inv quiet
    step-Inv (Step.push_call val at) h =
        moved-Inv size s t inv (Thread.push_starting val) (omega arith)
    step-Inv (Step.push_load {val} at) h =
        moved-Inv size s t inv (Thread.push_checking val s.reserved_write_idx (length s.pushed))
          (inv.reserved_write_lem, omega arith)
    step-Inv (Step.push_full at full) h = moved-Inv size s t inv Thread.idle (omega arith)
    step-Inv (Step.push_room {val} {reserved} {ticket} at free) h =
        moved-Inv size s t inv (Thread.push_claiming val reserved ticket) (
          push_room-Ok size some_slots small s t inv val reserved ticket free
            (at-Ok (Thread.push_checking val reserved ticket) at))
    step-Inv (Step.push_claim {val} {reserved} {ticket} at here) h =
        let ok = at-Ok (Thread.push_claiming val reserved ticket) at in
        let count =
          same_ticket size ticket (length s.pushed) ok.1 h
            (sym ok.0 ∙ sym here ∙ inv.reserved_write_lem) in
        push_claim-Inv size some_slots small s t inv val reserved ticket (sym count) ok
    step-Inv (Step.push_retry {val} at) h =
        moved-Inv size s t inv (Thread.push_starting val) (omega arith)
    step-Inv (Step.write {val} {reserved} {ticket} at) h =
        write-Inv size some_slots small s t inv val reserved ticket
          (at-Ok (Thread.writing val reserved ticket) at)
    step-Inv (Step.publish {reserved} {ticket} at here) h =
        publish-Inv size some_slots small s t inv reserved ticket here
          (at-Ok (Thread.publishing reserved ticket) at)
    step-Inv (Step.publish_retry {reserved} {ticket} at) h =
        moved-Inv size s t inv (Thread.publishing reserved ticket)
          (at-Ok (Thread.publishing reserved ticket) at)
    step-Inv (Step.pop_call at) h = moved-Inv size s t inv Thread.pop_starting (omega arith)
    step-Inv (Step.pop_load at) h =
        moved-Inv size s t inv (Thread.pop_checking s.reserved_read_idx s.reads)
          (inv.reserved_read_lem, omega arith)
    step-Inv (Step.pop_empty at nothing) h = moved-Inv size s t inv Thread.idle (omega arith)
    step-Inv (Step.pop_some {reserved} {ticket} at some_item) h =
        moved-Inv size s t inv (Thread.pop_claiming reserved ticket) (
          pop_some-Ok size some_slots small s t inv reserved ticket some_item
            (at-Ok (Thread.pop_checking reserved ticket) at))
    step-Inv (Step.pop_claim {reserved} {ticket} at here) h =
        let ok = at-Ok (Thread.pop_claiming reserved ticket) at in
        let count =
          same_ticket size ticket s.reads ok.1 h (sym ok.0 ∙ sym here ∙ inv.reserved_read_lem) in
        pop_claim-Inv size some_slots small s t inv reserved ticket (sym count) ok
    step-Inv (Step.pop_retry at) h = moved-Inv size s t inv Thread.pop_starting (omega arith)
    step-Inv (Step.read {reserved} {ticket} at) h =
        moved-Inv size s t inv (Thread.releasing (s.items reserved) reserved ticket) (
          read-Ok size some_slots small s t inv reserved ticket
            (at-Ok (Thread.reading reserved ticket) at))
    step-Inv (Step.release {val} {reserved} {ticket} at here) h =
        release-Inv size some_slots small s t inv val reserved ticket here
          (at-Ok (Thread.releasing val reserved ticket) at)
    step-Inv (Step.release_retry {val} {reserved} {ticket} at) h =
        moved-Inv size s t inv (Thread.releasing val reserved ticket)
          (at-Ok (Thread.releasing val reserved ticket) at)

  pub invariant : {s : System} (reach : Reach size s) → Prompt size reach → Inv size s
  invariant Reach.here prompt = start-Inv
  invariant (Reach.step t reach one) (prompt, timely) =
      step-Inv t (invariant reach prompt) one timely
