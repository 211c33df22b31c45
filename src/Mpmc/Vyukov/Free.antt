-- ===== src/Mpmc/Vyukov/Free.antt =====
-- How full the queue of src/benchmarks/MPMC/vyukov.hpp gets, and which of its slots are free.
use native.Mathlib.Decide.{ℕ_discrete, dec_le}
use benchmark_fun.Common.{
  update, update_at, update_off, agree, ℕ, suc, ◌+◌, ◌-◌, ◌%◌, ◌^◌, ◌≤◌, ◌<◌, ◌≡◌, ◌≢◌, sym, ap,
  subst, ◌∙◌, ◌⊎◌, inl, inr, [], ◌∷◌, length, arith, length-append,
}
use benchmark_fun.Mpmc.Vyukov.{slot_of, start, Thread, System, Step, Reach}
use benchmark_fun.Mpmc.Vyukov.Inv.{Ok, Inv}
use benchmark_fun.Mpmc.Vyukov.Held.{Writes, nobody_or_one}
use benchmark_fun.Mpmc.Vyukov.Lossless.{Kept, reach-Kept}
use benchmark_fun.Mpmc.Vyukov.Push.{publish_off}
use benchmark_fun.Mpmc.Vyukov.Pop.{release_off, not_written}
use benchmark_fun.Mpmc.Vyukov.Reachable.{pushed_mono, reach-Inv, at-Ok}

-- Nobody reads at the position that is one round before `p`.
abbrev pub Left : ℕ → (ℕ → ℕ) → ℕ → Type 0
Left size reader p = (q : ℕ) → q + size ≡ p → reader q ≡ 0

pub record Room (size : ℕ) (s : System) : Type 0 where
  pub bound : s.write_idx ≤ s.read_idx + size
  pub all_free :
      (p : ℕ)
      → s.write_idx ≤ p
      → p < s.read_idx + size
      → Left size s.reader p
      → s.sequence (slot_of size p) ≡ p

module _ (size : ℕ) (next : (pos : ℕ) → slot_of size (suc pos) ≢ slot_of size pos)
    (round : (pos : ℕ) → slot_of size (pos + size) ≡ slot_of size pos) (some_slots : 0 < size) where
  -- One slot would follow itself.
  pub more_slots : 1 < size
  more_slots = elim (dec_le 2 size) [
    | yes more ↦ more
    | no one ↦
        let step : 0 + size ≡ suc 0 = omega (arith, one, some_slots) in
        absurd (next 0 (ap (slot_of size) (sym step) ∙ round 0))
  ]

  module _ (s : System) (inv : Inv size s) (kept : Kept size s) where
    Writes-sequence :
        (p u : ℕ) (th : Thread) → Writes p th → Ok size s u th → s.sequence (slot_of size p) ≡ p
    Writes-sequence p u Thread.idle h ok = absurd (omega (arith, h))
    Writes-sequence p u (Thread.push_loading v q) h ok = absurd (omega (arith, h))
    Writes-sequence p u (Thread.push_claiming v q) h ok = absurd (omega (arith, h))
    Writes-sequence p u (Thread.writing v q) h ok =
        subst (λ x. s.sequence (slot_of size x) ≡ x) (sym h) ok.1
    Writes-sequence p u (Thread.publishing q) h ok =
        subst (λ x. s.sequence (slot_of size x) ≡ x) (sym h) ok.1
    Writes-sequence p u (Thread.pop_loading q) h ok = absurd (omega (arith, h))
    Writes-sequence p u (Thread.pop_claiming q) h ok = absurd (omega (arith, h))
    Writes-sequence p u (Thread.reading q) h ok = absurd (omega (arith, h))
    Writes-sequence p u (Thread.releasing q v) h ok = absurd (omega (arith, h))

    -- The sequence of the oldest item, written or not.
    pub oldest :
        s.read_idx < s.write_idx
        → (s.sequence (slot_of size s.read_idx) ≡ s.read_idx)
          ⊎ (s.sequence (slot_of size s.read_idx) ≡ suc s.read_idx)
    oldest some_items = elim (nobody_or_one (s.writer s.read_idx)) [
      | inl nobody ↦ inr (kept.all_written s.read_idx (omega arith) some_items nobody)
      | inr (u, e) ↦ inl (
          Writes-sequence s.read_idx u (s.threads u) (kept.writers s.read_idx u e)
            (inv.threads_ok u))
    ]

    -- A queue that is full has no slot that a push would take.
    not_full :
        Room size s
        → s.sequence (slot_of size s.write_idx) ≡ s.write_idx
        → s.write_idx < s.read_idx + size
    not_full free e = elim (dec_le (s.read_idx + size) s.write_idx) [
      | no less ↦ omega (arith, less)
      | yes full ↦
          let more = more_slots in
          let same : slot_of size s.write_idx ≡ slot_of size s.read_idx =
            let here : s.write_idx ≡ s.read_idx + size = omega (arith, full, free.bound) in
            ap (slot_of size) here ∙ round s.read_idx in
          absurd (elim (oldest (omega (arith, full, some_slots))) [
            | inl unwritten ↦ omega (arith, agree s.sequence same e unwritten, full, more)
            | inr written ↦ omega (arith, agree s.sequence same e written, full, more)
          ])
    ]

  module _ {s : System} (t : ℕ) (inv : Inv size s) (kept : Kept size s) (free : Room size s) where
    open s use {sequence, reader}

    claimed-Left :
        (pos p : ℕ)
        → s.read_idx ≡ pos
        → p < suc pos + size
        → Left size (update reader pos (t + 1)) p
        → (p < s.read_idx + size) × Left size reader p
    claimed-Left pos p here lt left =
        let less : p < s.read_idx + size = elim (ℕ_discrete (pos + size) p) [
          | yes last ↦ absurd (omega (arith, left pos last, update_at reader pos (t + 1)))
          | no other ↦ omega (arith, lt, other, here)
        ] in
        (
          less,
          λ q e.
              sym (
                update_off reader pos q (t + 1)
                  (λ same. absurd (omega (arith, same, e, less, here))))
              ∙ left q e,
        )

    released_free :
        (pos val p : ℕ)
        → (room : pos + size < 2 ^ 64) → (ok : Ok size s t (Thread.releasing pos val))
        → s.write_idx ≤ p
        → p < s.read_idx + size
        → Left size (update reader pos 0) p
        → update sequence (slot_of size pos) ((pos + (size - 1) + 1) % 2 ^ 64) (slot_of size p) ≡ p
    released_free pos val p room ok le lt left = elim (ℕ_discrete (pos + size) p) [
      | yes same ↦
          let stamp = (pos + (size - 1) + 1) % 2 ^ 64 in
          let slots : slot_of size pos ≡ slot_of size p =
            sym (round pos) ∙ ap (slot_of size) same in
          let new = update_at sequence (slot_of size pos) stamp in
          let moved = ap (update sequence (slot_of size pos) stamp) slots in
          omega (arith, sym moved ∙ new, same, room, some_slots)
      | no other ↦
          let before : Left size reader p = λ q e.
            sym (update_off reader pos q 0 (λ same. other (ap (λ x. x + size) same ∙ e)))
            ∙ left q e in
          let old = free.all_free p le lt before in
          release_off size next s t inv round pos val room some_slots ok p p
            (not_written size next s t inv round pos val room some_slots ok p old) old
    ]

    published_free :
        (pos p : ℕ)
        → (room : suc pos < 2 ^ 64) → (ok : Ok size s t (Thread.publishing pos)) → s.write_idx ≤ p
        → p < s.read_idx + size
        → Left size reader p
        → update sequence (slot_of size pos) ((pos + 1) % 2 ^ 64) (slot_of size p) ≡ p
    published_free pos p room ok le lt left =
        let old = free.all_free p le lt left in
        publish_off size next s t inv pos room ok p p
          (λ same. absurd (omega (arith, agree sequence same ok.1 old, le, ok.0))) old

    moved-Room : (th : Thread) → Room size (record s { threads = update s.threads t th })
    moved-Room th = record { bound = free.bound; all_free = free.all_free }

    step-Room : {s' : System} → Step size s t s' → length s'.pushed + size ≤ 2 ^ 63 → Room size s'
    step-Room (Step.push_load_write_idx val at) room =
        moved-Room (Thread.push_loading val s.write_idx)
    step-Room (Step.push_free {val} {pos} at _) room = moved-Room (Thread.push_claiming val pos)
    step-Room (Step.push_full at _) room = moved-Room Thread.idle
    step-Room (Step.push_behind {val} at _ _) room =
        moved-Room (Thread.push_loading val s.write_idx)
    step-Room (Step.push_claim {val} {pos} at here) room =
        let ok = at-Ok size next round some_slots t inv (Thread.push_claiming val pos) at in
        let sequence_here : sequence (slot_of size s.write_idx) ≡ s.write_idx =
          ap (λ x. sequence (slot_of size x)) here ∙ ok.1 here ∙ sym here in
        let less = not_full s inv kept free sequence_here in
        record {
          bound = omega (arith, less, here);
          all_free = λ p le lt left.
              free.all_free p
                (omega (
                  arith,
                  le,
                  here,
                  lt,
                  less,
                  room,
                  inv.count,
                  inv.read_le,
                  length-append s.pushed (val ∷ []),
                ))
                lt left;
        }
    step-Room (Step.push_retry {val} at) room = moved-Room (Thread.push_loading val s.write_idx)
    step-Room (Step.write {val} {pos} at) room = record {
      bound = free.bound;
      all_free = free.all_free;
    }
    step-Room (Step.publish {pos} at) room =
        let ok = at-Ok size next round some_slots t inv (Thread.publishing pos) at in
        let small : suc pos < 2 ^ 64 = omega (arith, ok.0, inv.count, room) in
        record {
          bound = free.bound;
          all_free = λ p le lt left. published_free pos p small ok le lt left;
        }
    step-Room (Step.pop_load_read_idx at) room = moved-Room (Thread.pop_loading s.read_idx)
    step-Room (Step.pop_written {pos} at _) room = moved-Room (Thread.pop_claiming pos)
    step-Room (Step.pop_empty at _) room = moved-Room Thread.idle
    step-Room (Step.pop_behind at _ _) room = moved-Room (Thread.pop_loading s.read_idx)
    step-Room (Step.pop_claim {pos} at here) room =
        let small : suc pos < 2 ^ 64 = omega (arith, here, inv.read_le, inv.count, room) in
        record {
          bound = omega (arith, free.bound, here, small);
          all_free = λ p le lt left.
              let (less, before) = claimed-Left pos p here (omega (arith, lt, small)) left in
              free.all_free p le less before;
        }
    step-Room (Step.pop_retry at) room = moved-Room (Thread.pop_loading s.read_idx)
    step-Room (Step.read {pos} at) room =
        moved-Room (Thread.releasing pos (s.value (slot_of size pos)))
    step-Room (Step.release {pos} {val} at) room =
        let ok = at-Ok size next round some_slots t inv (Thread.releasing pos val) at in
        let small : pos + size < 2 ^ 64 = omega (arith, ok.0, inv.count, inv.read_le, room) in
        record {
          bound = free.bound;
          all_free = λ p le lt left. released_free pos val p small ok le lt left;
        }

  module _ (init : Inv size start) (own_slot : (p : ℕ) → p < size → slot_of size p ≡ p) where
    start-Room : Room size start
    start-Room = record {
      bound = omega arith;
      all_free = λ p le lt left. own_slot p (omega (arith, lt));
    }

    pub reach-Room : {s : System} → Reach size s → length s.pushed + size ≤ 2 ^ 63 → Room size s
    reach-Room Reach.here room = start-Room
    reach-Room (Reach.step {s} t reach one) room =
        let before : length s.pushed + size ≤ 2 ^ 63 =
          omega (arith, pushed_mono size next round some_slots t one, room) in
        step-Room t (reach-Inv size next round some_slots init reach before)
          (reach-Kept size next round some_slots init reach before) (reach-Room reach before) one
          room
