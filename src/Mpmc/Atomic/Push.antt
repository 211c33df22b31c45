-- ===== src/Mpmc/Atomic/Push.antt =====
-- The steps of `push` of src/benchmarks/MPMC/atomics.hpp that change the queue.
use benchmark_fun.Common.{
  update, update_at, update_off, ℕ, suc, ◌+◌, ◌-◌, ◌%◌, ◌^◌, ◌<◌, ◌≡◌, ◌≢◌, refl, sym, ap, ◌∙◌, [],
  ◌∷◌, ◌++◌, length, get_or, arith, length-append, get_or-append_in, get_or-append_past,
}
use benchmark_fun.Mpmc.Atomic.{next_of, Thread, System}
use native.Mathlib.Decide.{ℕ_discrete}
use native.Mathlib.Nat.{add-mod_right}
use benchmark_fun.Mpmc.Atomic.Inv.{next_lem, Ok, Inv, all-Ok}

module _ (size : ℕ) (some_slots : 0 < size) (small : size < 2 ^ 64) (s : System) (t : ℕ)
    (inv : Inv size s) where
  open s use {items, pushed, writer}

  one_writer : {p q : ℕ} (u : ℕ) → t ≢ u → writer p ≡ suc t → writer q ≡ suc u → p ≢ q
  one_writer u d x y same = d (omega (arith, x, y, ap writer same))

  -- An index that differs from the one of the oldest item left leaves room.
  pub push_room-Ok :
      (val reserved ticket : ℕ)
      → next_of size reserved ≢ s.read_idx
      → Ok size s t (Thread.push_checking val reserved ticket)
      → Ok size s t (Thread.push_claiming val reserved ticket)
  push_room-Ok val reserved ticket free ok = (
    ok.0,
    ok.1,
    (λ e. elim (ℕ_discrete (suc ticket) (length s.popped + size)) [
      | yes full ↦ absurd (
          free (
            ap (next_of size) ok.0
            ∙ next_lem size some_slots small ticket
            ∙ ap (λ x. x % size) full
            ∙ add-mod_right (length s.popped) size
            ∙ sym inv.read_lem))
      | no h ↦ omega (arith, h, e, inv.room)
    ]),
  )

  appended : (val p : ℕ) → p < length pushed → get_or (pushed ++ val ∷ []) p 0 ≡ get_or pushed p 0
  appended val p h = get_or-append_in pushed (val ∷ []) p 0 h

  longer : (val : ℕ) → length (pushed ++ val ∷ []) ≡ suc (length pushed)
  longer val = omega (arith, length-append pushed (val ∷ []))

  abbrev claimed : ℕ → ℕ → ℕ → System
  claimed val reserved ticket = record s {
    reserved_write_idx = next_of size reserved;
    threads = update s.threads t (Thread.writing val reserved ticket);
    pushed = pushed ++ val ∷ [];
    writer = update writer ticket (t + 1);
  }

  module _ (val reserved ticket : ℕ) (count : length pushed ≡ ticket) where
    named_before : (p x : ℕ) → p < length pushed → writer p ≡ x → update writer ticket (t + 1) p ≡ x
    named_before p x h e =
        update_off writer ticket p (t + 1) (λ same. absurd (omega (arith, same, h, count))) ∙ e

    claimed_others :
        (u : ℕ) (other : Thread)
        → t ≢ u
        → Ok size s u other
        → Ok size (claimed val reserved ticket) u other
    claimed_others u Thread.idle d ok = ok
    claimed_others u (Thread.push_starting v) d ok = ok
    claimed_others u (Thread.push_checking v r p) d ok = (ok.0, omega (arith, ok.1, longer val))
    claimed_others u (Thread.push_claiming v r p) d ok =
        (ok.0, omega (arith, ok.1, longer val), (λ e. absurd (omega (arith, e, ok.1, longer val))))
    claimed_others u (Thread.writing v r p) d ok = (
      ok.0,
      ok.1,
      omega (arith, ok.2, longer val),
      named_before p (suc u) ok.2 ok.3,
      appended val p ok.2 ∙ ok.4,
    )
    claimed_others u (Thread.publishing r p) d ok = (
      ok.0,
      ok.1,
      omega (arith, ok.2, longer val),
      named_before p (suc u) ok.2 ok.3,
      ok.4 ∙ sym (appended val p ok.2),
    )
    claimed_others u Thread.pop_starting d ok = ok
    claimed_others u (Thread.pop_checking r p) d ok = ok
    claimed_others u (Thread.pop_claiming r p) d ok = ok
    claimed_others u (Thread.reading r p) d ok = ok
    claimed_others u (Thread.releasing v r p) d ok = (
      ok.0,
      ok.1,
      ok.2,
      ok.3,
      appended val p (omega (arith, ok.2, inv.reads_le, inv.published_le)) ∙ ok.4,
    )

    claimed_val : get_or (pushed ++ val ∷ []) ticket 0 ≡ val
    claimed_val =
        let first : ticket - length pushed ≡ 0 = omega (arith, count) in
        get_or-append_past pushed (val ∷ []) ticket 0 (omega (arith, count))
        ∙ ap (λ i. get_or (val ∷ []) i 0) first

    pub push_claim-Inv :
        Ok size s t (Thread.push_claiming val reserved ticket)
        → Inv size (claimed val reserved ticket)
    push_claim-Inv ok = record {
      popped_le = inv.popped_le;
      reads_le = inv.reads_le;
      published_le = omega (arith, inv.published_le, longer val);
      room = omega (arith, ok.2 count, count, longer val);
      read_lem = inv.read_lem;
      reserved_read_lem = inv.reserved_read_lem;
      write_lem = inv.write_lem;
      reserved_write_lem =
          ap (next_of size) ok.0
          ∙ next_lem size some_slots small ticket
          ∙ ap (λ x. x % size) (omega (arith, count, longer val));
      contents = λ p from below.
          inv.contents p from below ∙ sym (appended val p (omega (arith, below, inv.published_le)));
      in_order = λ p h.
          inv.in_order p h
          ∙ sym (appended val p (omega (arith, h, inv.popped_le, inv.reads_le, inv.published_le)));
      threads_ok =
          all-Ok size s (claimed val reserved ticket) t (Thread.writing val reserved ticket) refl
            (
              ok.0,
              omega (arith, inv.published_le, count),
              omega (arith, count, longer val),
              update_at writer ticket (t + 1) ∙ omega arith,
              claimed_val,
            )
            claimed_others inv.threads_ok;
    }
