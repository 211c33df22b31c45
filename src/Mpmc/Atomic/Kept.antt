-- ===== src/Mpmc/Atomic/Kept.antt =====
-- In src/benchmarks/MPMC/atomics.hpp no ticket is dropped: as long as a push has not published its
-- item, or a pop not released it, a thread is at it.
use benchmark_fun.Common.{
  update, ℕ, suc, ◌+◌, ◌^◌, ◌<◌, ◌≡◌, refl, sym, subst, ◌∙◌, [], ◌∷◌, ◌++◌, length, length-append,
  arith,
}
use native.Mathlib.Decide.{dec_lt}
use benchmark_fun.Mpmc.Atomic.{Thread, System, Step, Reach}
use benchmark_fun.Mpmc.Atomic.Inv.{same_ticket, Inv}
use benchmark_fun.Mpmc.Atomic.Publish
use benchmark_fun.Mpmc.Atomic.Pop
use benchmark_fun.Mpmc.Atomic.Reachable.{at-Ok, Timely, Prompt, invariant}
use benchmark_fun.Mpmc.Atomic.Held.{Writes, Reads, Held, moved-Held, claimed-Held, released-Held}

-- Every ticket of a push that is not published, and of a pop that is not released, has its thread.
pub record Kept (s : System) : Type 0 where
  pub writers : Held Writes s.writer s.published (length s.pushed) s.threads
  pub readers : Held Reads s.reader (length s.popped) s.reads s.threads

module _ (size : ℕ) (some_slots : 0 < size) (small : size < 2 ^ 64) {s : System} (t : ℕ)
    (inv : Inv size s) (kept : Kept s) where
  writers_moved :
      (th th' : Thread)
      → s.threads t ≡ th
      → ((p : ℕ) → Writes p th → Writes p th')
      → Held Writes s.writer s.published (length s.pushed) (update s.threads t th')
  writers_moved th th' at keeps =
      moved-Held Writes s.writer s.threads t th' s.published (length s.pushed)
        (λ p w. keeps p (subst (Writes p) at w)) kept.writers

  readers_moved :
      (th th' : Thread)
      → s.threads t ≡ th
      → ((p : ℕ) → Reads p th → Reads p th')
      → Held Reads s.reader (length s.popped) s.reads (update s.threads t th')
  readers_moved th th' at keeps =
      moved-Held Reads s.reader s.threads t th' (length s.popped) s.reads
        (λ p r. keeps p (subst (Reads p) at r)) kept.readers

  -- A step that only moves its thread, which holds what it held.
  plain :
      (th th' : Thread)
      → s.threads t ≡ th
      → ((p : ℕ) → Writes p th → Writes p th')
      → ((p : ℕ) → Reads p th → Reads p th')
      → Kept (record s { threads = update s.threads t th' })
  plain th th' at writes reads = record {
    writers = writers_moved th th' at writes;
    readers = readers_moved th th' at reads;
  }

  step-Kept : {s' : System} (one : Step size s t s') → Timely size t one → Kept s'
  step-Kept (Step.push_call val at) h =
      plain (Thread.idle) (Thread.push_starting val) at (λ p w. absurd (omega (arith, w)))
        (λ p r. absurd (omega (arith, r)))
  step-Kept (Step.push_load {val} at) h =
      plain (Thread.push_starting val)
        (Thread.push_checking val s.reserved_write_idx (length s.pushed)) at
        (λ p w. absurd (omega (arith, w))) (λ p r. absurd (omega (arith, r)))
  step-Kept (Step.push_full {val} {reserved} {ticket} at full) h =
      plain (Thread.push_checking val reserved ticket) (Thread.idle) at
        (λ p w. absurd (omega (arith, w))) (λ p r. absurd (omega (arith, r)))
  step-Kept (Step.push_room {val} {reserved} {ticket} at free) h =
      plain (Thread.push_checking val reserved ticket) (Thread.push_claiming val reserved ticket) at
        (λ p w. absurd (omega (arith, w))) (λ p r. absurd (omega (arith, r)))
  step-Kept (Step.push_retry {val} {reserved} {ticket} at) h =
      plain (Thread.push_claiming val reserved ticket) (Thread.push_starting val) at
        (λ p w. absurd (omega (arith, w))) (λ p r. absurd (omega (arith, r)))
  step-Kept (Step.pop_call at) h =
      plain (Thread.idle) (Thread.pop_starting) at (λ p w. absurd (omega (arith, w)))
        (λ p r. absurd (omega (arith, r)))
  step-Kept (Step.pop_load at) h =
      plain (Thread.pop_starting) (Thread.pop_checking s.reserved_read_idx s.reads) at
        (λ p w. absurd (omega (arith, w))) (λ p r. absurd (omega (arith, r)))
  step-Kept (Step.pop_empty {reserved} {ticket} at nothing) h =
      plain (Thread.pop_checking reserved ticket) (Thread.idle) at
        (λ p w. absurd (omega (arith, w))) (λ p r. absurd (omega (arith, r)))
  step-Kept (Step.pop_some {reserved} {ticket} at some_item) h =
      plain (Thread.pop_checking reserved ticket) (Thread.pop_claiming reserved ticket) at
        (λ p w. absurd (omega (arith, w))) (λ p r. absurd (omega (arith, r)))
  step-Kept (Step.pop_retry {reserved} {ticket} at) h =
      plain (Thread.pop_claiming reserved ticket) (Thread.pop_starting) at
        (λ p w. absurd (omega (arith, w))) (λ p r. absurd (omega (arith, r)))
  step-Kept (Step.publish_retry {reserved} {ticket} at) h =
      plain (Thread.publishing reserved ticket) (Thread.publishing reserved ticket) at (λ p w. w)
        (λ p r. r)
  step-Kept (Step.release_retry {val} {reserved} {ticket} at) h =
      plain (Thread.releasing val reserved ticket) (Thread.releasing val reserved ticket) at
        (λ p w. w) (λ p r. r)
  step-Kept (Step.read {reserved} {ticket} at) h =
      plain (Thread.reading reserved ticket) (Thread.releasing (s.items reserved) reserved ticket)
        at (λ p w. absurd (omega (arith, w))) (λ p r. r)
  step-Kept (Step.write {val} {reserved} {ticket} at) h =
      let th' = Thread.publishing reserved ticket in
      record {
        writers = writers_moved (Thread.writing val reserved ticket) th' at (λ p w. w);
        readers =
            readers_moved (Thread.writing val reserved ticket) th' at
              (λ p r. absurd (omega (arith, r)));
      }
  step-Kept (Step.push_claim {val} {reserved} {ticket} at here) h =
      let th = Thread.push_claiming val reserved ticket in
      let th' = Thread.writing val reserved ticket in
      let ok = at-Ok size some_slots small t inv th at in
      let count =
        same_ticket size ticket (length s.pushed) ok.1 h
          (sym ok.0 ∙ sym here ∙ inv.reserved_write_lem) in
      let more : suc ticket ≡ length (s.pushed ++ val ∷ []) =
        omega (arith, count, length-append s.pushed (val ∷ [])) in
      record {
        writers =
            subst
              (λ n.
                Held Writes (update s.writer ticket (t + 1)) s.published n (update s.threads t th'))
              more
              (claimed-Held Writes s.writer s.threads t th' s.published ticket refl
                (λ p w. subst (Writes p) at w)
                (subst (λ n. Held Writes s.writer s.published n s.threads) (sym count)
                  kept.writers));
        readers = readers_moved th th' at (λ p r. absurd (omega (arith, r)));
      }
  step-Kept (Step.publish {reserved} {ticket} at here) h =
      let th = Thread.publishing reserved ticket in
      let ok = at-Ok size some_slots small t inv th at in
      let now = Publish.turn size some_slots small s t inv reserved ticket here ok in
      let next : suc s.published ≡ s.published + 1 = omega arith in
      record {
        writers =
            subst (λ n. Held Writes s.writer n (length s.pushed) (update s.threads t Thread.idle))
              next
              (released-Held Writes s.writer s.threads t Thread.idle s.published (length s.pushed)
                (λ p w. subst (Writes p) at w ∙ sym now) kept.writers);
        readers = readers_moved th Thread.idle at (λ p r. absurd (omega (arith, r)));
      }
  step-Kept (Step.pop_claim {reserved} {ticket} at here) h =
      let th = Thread.pop_claiming reserved ticket in
      let th' = Thread.reading reserved ticket in
      let ok = at-Ok size some_slots small t inv th at in
      let count =
        same_ticket size ticket s.reads ok.1 h (sym ok.0 ∙ sym here ∙ inv.reserved_read_lem) in
      let more : suc ticket ≡ s.reads + 1 = omega (arith, count) in
      record {
        writers = writers_moved th th' at (λ p w. absurd (omega (arith, w)));
        readers =
            subst
              (λ n.
                Held Reads (update s.reader ticket (t + 1)) (length s.popped) n
                  (update s.threads t th'))
              more
              (claimed-Held Reads s.reader s.threads t th' (length s.popped) ticket refl
                (λ p r. subst (Reads p) at r)
                (subst (λ n. Held Reads s.reader (length s.popped) n s.threads) (sym count)
                  kept.readers));
      }
  step-Kept (Step.release {val} {reserved} {ticket} at here) h =
      let th = Thread.releasing val reserved ticket in
      let ok = at-Ok size some_slots small t inv th at in
      let now = Pop.turn size some_slots small s t inv val reserved ticket here ok in
      let next : suc (length s.popped) ≡ length (s.popped ++ val ∷ []) =
        omega (arith, length-append s.popped (val ∷ [])) in
      record {
        writers = writers_moved th Thread.idle at (λ p w. absurd (omega (arith, w)));
        readers =
            subst (λ n. Held Reads s.reader n s.reads (update s.threads t Thread.idle)) next
              (released-Held Reads s.reader s.threads t Thread.idle (length s.popped) s.reads
                (λ p r. subst (Reads p) at r ∙ sym now) kept.readers);
      }
  step-Kept (Step.resets quiet) h = record {
    writers = λ p from below. absurd (omega (arith, below));
    readers = λ p from below. absurd (omega (arith, below));
  }

module _ (size : ℕ) (some_slots : 0 < size) (small : size < 2 ^ 64) where
  pub reach-Kept : {s : System} (reach : Reach size s) → Prompt size reach → Kept s
  reach-Kept Reach.here prompt = record {
    writers = λ p from below. absurd (omega (arith, below));
    readers = λ p from below. absurd (omega (arith, below));
  }
  reach-Kept (Reach.step t reach one) (prompt, timely) =
      step-Kept size some_slots small t (invariant size some_slots small reach prompt)
        (reach-Kept reach prompt) one timely

  -- When no thread is in the middle of a call, everything that was pushed is published, and every
  -- item that was reserved for a pop has been released.
  pub quiet_lem :
      {s : System} (reach : Reach size s)
      → Prompt size reach
      → ((t : ℕ) → s.threads t ≡ Thread.idle)
      → (s.published ≡ length s.pushed) × (s.reads ≡ length s.popped)
  quiet_lem {s} reach prompt quiet =
      let inv = invariant size some_slots small reach prompt in
      let kept = reach-Kept reach prompt in
      (
        elim (dec_lt s.published (length s.pushed)) [
          | yes less ↦
              let (u, named, holds) = kept.writers s.published (omega arith) less in
              let held = subst (Writes s.published) (quiet u) holds in absurd (omega (arith, held))
          | no h ↦ omega (arith, h, inv.published_le)
        ],
        elim (dec_lt (length s.popped) s.reads) [
          | yes less ↦
              let (u, named, holds) = kept.readers (length s.popped) (omega arith) less in
              let held = subst (Reads (length s.popped)) (quiet u) holds in
              absurd (omega (arith, held))
          | no h ↦ omega (arith, h, inv.popped_le)
        ],
      )
