-- ===== src/Mpmc/Vyukov/Lossless.antt =====
-- Where each value that was pushed is, in src/benchmarks/MPMC/vyukov.hpp.
use native.Mathlib.Decide.{ℕ_discrete}
use benchmark_fun.Common.{
  update, update_at, update_off, ℕ, suc, ◌+◌, ◌%◌, ◌^◌, ◌≤◌, ◌<◌, ◌≡◌, ◌≢◌, refl, sym, ap, subst,
  ◌∙◌, List, length, arith, get_elem?, some,
}
use benchmark_fun.Mpmc.Vyukov.{slot_of, start, Thread, System, Step, Reach}
use benchmark_fun.Mpmc.Vyukov.Inv.{Inv}
use benchmark_fun.Mpmc.Vyukov.Held.{Writes, Reads, Held, moved-Held, claimed-Held, released-Held}
use benchmark_fun.Mpmc.Vyukov.Push.{publish_off, not_read}
use benchmark_fun.Mpmc.Vyukov.Pop.{release_off, same_pos}
use benchmark_fun.Mpmc.Vyukov.Reachable.{pushed_mono, reach-Inv, at-Ok}

abbrev pub Popped : ℕ → List (ℕ × ℕ) → Type 0
Popped p popped = (i : ℕ) × (val : ℕ) × (get_elem? popped i ≡ some (p, val))

-- A position that nobody holds has been popped, if it is below `read_idx`, or else written.
pub record Kept (size : ℕ) (s : System) : Type 0 where
  pub writers : Held Writes s.writer s.threads
  pub readers : Held Reads s.reader s.threads
  pub all_popped : (p : ℕ) → p < s.read_idx → s.reader p ≡ 0 → Popped p s.popped
  pub all_written :
      (p : ℕ)
      → s.read_idx ≤ p
      → p < s.write_idx
      → s.writer p ≡ 0
      → s.sequence (slot_of size p) ≡ suc p

module _ (size : ℕ) (next : (pos : ℕ) → slot_of size (suc pos) ≢ slot_of size pos) where
  start-Kept : Kept size start
  start-Kept = record {
    writers = λ p u e. absurd (omega (arith, e));
    readers = λ p u e. absurd (omega (arith, e));
    all_popped = λ p h _. absurd (omega (arith, h));
    all_written = λ p _ h _. absurd (omega (arith, h));
  }

  module _ (round : (pos : ℕ) → slot_of size (pos + size) ≡ slot_of size pos)
      (some_slots : 0 < size) {s : System} (t : ℕ) (inv : Inv size s) (kept : Kept size s) where
    open s use {threads, reader, writer}

    moved-Kept :
        {th : Thread} (th' : Thread)
        → threads t ≡ th
        → ((p : ℕ) → Writes p th → Writes p th')
        → ((p : ℕ) → Reads p th → Reads p th')
        → Kept size (record s { threads = update threads t th' })
    moved-Kept th' at writes reads = record {
      writers =
          moved-Held Writes writer threads t th' (λ p h. writes p (subst (Writes p) at h))
            kept.writers;
      readers =
          moved-Held Reads reader threads t th' (λ p h. reads p (subst (Reads p) at h))
            kept.readers;
      all_popped = kept.all_popped;
      all_written = kept.all_written;
    }

    step-Kept : {s' : System} → Step size s t s' → length s'.pushed + size ≤ 2 ^ 63 → Kept size s'
    step-Kept (Step.push_load_write_idx val at) room =
        moved-Kept (Thread.push_loading val s.write_idx) at (λ _ h. h) (λ _ h. h)
    step-Kept (Step.push_free {val} {pos} at free) room =
        moved-Kept (Thread.push_claiming val pos) at (λ _ h. h) (λ _ h. h)
    step-Kept (Step.push_full at full) room = moved-Kept Thread.idle at (λ _ h. h) (λ _ h. h)
    step-Kept (Step.push_behind {val} at past few) room =
        moved-Kept (Thread.push_loading val s.write_idx) at (λ _ h. h) (λ _ h. h)
    step-Kept (Step.push_claim {val} {pos} at here) room = record {
      writers =
          claimed-Held Writes writer threads t (Thread.writing val pos) pos refl
            (λ p h. subst (Writes p) at h) kept.writers;
      readers =
          moved-Held Reads reader threads t (Thread.writing val pos) (λ p h. subst (Reads p) at h)
            kept.readers;
      all_popped = kept.all_popped;
      all_written = λ p le lt e. elim (ℕ_discrete pos p) [
        | yes same ↦ absurd (
            omega
              (arith, e, sym (update_at writer pos (t + 1)) ∙ ap (update writer pos (t + 1)) same))
        | no other ↦
            kept.all_written p le (omega (arith, lt, other, here))
              (sym (update_off writer pos p (t + 1) other) ∙ e)
      ];
    }
    step-Kept (Step.push_retry {val} at) room =
        moved-Kept (Thread.push_loading val s.write_idx) at (λ _ h. h) (λ _ h. h)
    step-Kept (Step.write {val} {pos} at) room =
        let moved = moved-Kept (Thread.publishing pos) at (λ _ h. h) (λ _ h. h) in
        record {
          writers = moved.writers;
          readers = moved.readers;
          all_popped = kept.all_popped;
          all_written = kept.all_written;
        }
    step-Kept (Step.publish {pos} at) room =
        let ok = at-Ok size next round some_slots t inv (Thread.publishing pos) at in
        let bound : suc pos < 2 ^ 64 = omega (arith, ok.0, inv.count, room) in
        record {
          writers =
              released-Held Writes writer threads t Thread.idle pos (λ p h. subst (Writes p) at h)
                kept.writers;
          readers =
              moved-Held Reads reader threads t Thread.idle (λ p h. subst (Reads p) at h)
                kept.readers;
          all_popped = kept.all_popped;
          all_written = λ p le lt e. elim (ℕ_discrete pos p) [
            | yes same ↦
                let new = update_at s.sequence (slot_of size pos) ((pos + 1) % 2 ^ 64) in
                subst
                  (λ q.
                    update s.sequence (slot_of size pos) ((pos + 1) % 2 ^ 64) (slot_of size q)
                    ≡ suc q)
                  same (omega (arith, new, bound))
            | no other ↦
                let old = kept.all_written p le lt (sym (update_off writer pos p 0 other) ∙ e) in
                publish_off size next s t inv pos bound ok p (suc p)
                  (not_read size next s t inv pos bound ok p old) old
          ];
        }
    step-Kept (Step.pop_load_read_idx at) room =
        moved-Kept (Thread.pop_loading s.read_idx) at (λ _ h. h) (λ _ h. h)
    step-Kept (Step.pop_written {pos} at written) room =
        moved-Kept (Thread.pop_claiming pos) at (λ _ h. h) (λ _ h. h)
    step-Kept (Step.pop_empty at empty) room = moved-Kept Thread.idle at (λ _ h. h) (λ _ h. h)
    step-Kept (Step.pop_behind at past few) room =
        moved-Kept (Thread.pop_loading s.read_idx) at (λ _ h. h) (λ _ h. h)
    step-Kept (Step.pop_claim {pos} at here) room = record {
      writers =
          moved-Held Writes writer threads t (Thread.reading pos) (λ p h. subst (Writes p) at h)
            kept.writers;
      readers =
          claimed-Held Reads reader threads t (Thread.reading pos) pos refl
            (λ p h. subst (Reads p) at h) kept.readers;
      all_popped = λ p lt e. elim (ℕ_discrete pos p) [
        | yes same ↦ absurd (
            omega
              (arith, e, sym (update_at reader pos (t + 1)) ∙ ap (update reader pos (t + 1)) same))
        | no other ↦
            kept.all_popped p (omega (arith, lt, other, here))
              (sym (update_off reader pos p (t + 1) other) ∙ e)
      ];
      all_written = λ p le lt e.
          kept.all_written p (omega (arith, le, here, room, inv.read_le, inv.count)) lt e;
    }
    step-Kept (Step.pop_retry at) room =
        moved-Kept (Thread.pop_loading s.read_idx) at (λ _ h. h) (λ _ h. h)
    step-Kept (Step.read {pos} at) room =
        moved-Kept (Thread.releasing pos (s.value (slot_of size pos))) at (λ _ h. h) (λ _ h. h)
    step-Kept (Step.release {pos} {val} at) room =
        let ok = at-Ok size next round some_slots t inv (Thread.releasing pos val) at in
        let bound : pos + size < 2 ^ 64 = omega (arith, ok.0, inv.count, inv.read_le, room) in
        record {
          writers =
              moved-Held Writes writer threads t Thread.idle (λ p h. subst (Writes p) at h)
                kept.writers;
          readers =
              released-Held Reads reader threads t Thread.idle pos (λ p h. subst (Reads p) at h)
                kept.readers;
          all_popped = λ p lt e. elim (ℕ_discrete pos p) [
            | yes same ↦ (0, val, ap (λ q. some (q, val)) same)
            | no other ↦
                let old = kept.all_popped p lt (sym (update_off reader pos p 0 other) ∙ e) in
                (suc old.0, old.1, old.2)
          ];
          all_written = λ p le lt e.
              let old = kept.all_written p le lt e in
              release_off size next s t inv round pos val bound some_slots ok p (suc p)
                (λ same. absurd (
                  omega (
                    arith,
                    same_pos size next s t inv round pos val bound some_slots ok p same old,
                    ok.0,
                    le,
                  )))
                old;
        }

  module _ (round : (pos : ℕ) → slot_of size (pos + size) ≡ slot_of size pos)
      (some_slots : 0 < size) (init : Inv size start) where
    pub reach-Kept : {s : System} → Reach size s → length s.pushed + size ≤ 2 ^ 63 → Kept size s
    reach-Kept Reach.here room = start-Kept
    reach-Kept (Reach.step {s} t reach one) room =
        let before : length s.pushed + size ≤ 2 ^ 63 =
          omega (arith, pushed_mono size next round some_slots t one, room) in
        step-Kept round some_slots t (reach-Inv size next round some_slots init reach before)
          (reach-Kept reach before) one room
