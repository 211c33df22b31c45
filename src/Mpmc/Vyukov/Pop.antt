-- ===== src/Mpmc/Vyukov/Pop.antt =====
-- The steps of `pop` of src/benchmarks/MPMC/vyukov.hpp that change the queue.
use benchmark_fun.Common.{
  update, update_at, update_off, agree, ℕ, suc, ◌+◌, ◌-◌, ◌%◌, ◌^◌, ◌<◌, ◌≡◌, ◌≢◌, refl, sym, ap,
  ◌∙◌, ◌∷◌, get_or, arith, eq_pos, eq_neg,
}
use native.Mathlib.Decide.{ℕ_discrete}
use benchmark_fun.Mpmc.Vyukov.{slot_of, Thread, System}
use benchmark_fun.Mpmc.Vyukov.Inv.{Ok, Inv, all-Ok, AllPopped-mono, AllPopped-Fresh}

module _ (size : ℕ) (next : (pos : ℕ) → slot_of size (suc pos) ≢ slot_of size pos) (s : System)
    (t : ℕ) (inv : Inv size s) where
  open s use {sequence, write_idx, read_idx, pushed, popped, reader}

  abbrev claimed : ℕ → System
  claimed pos = record s {
    read_idx = (pos + 1) % 2 ^ 64;
    threads = update s.threads t (Thread.reading pos);
    reader = update reader pos (t + 1);
  }

  module _ (pos : ℕ) (here : read_idx ≡ pos) (bound : suc pos < 2 ^ 64) where
    reader_off : (p x : ℕ) → p < read_idx → reader p ≡ x → update reader pos (t + 1) p ≡ x
    reader_off p x h e =
        update_off reader pos p (t + 1) (λ same. absurd (omega (arith, same, h, here))) ∙ e

    claimed_others :
        (u : ℕ) (other : Thread) → t ≢ u → Ok size s u other → Ok size (claimed pos) u other
    claimed_others u Thread.idle d ok = ok
    claimed_others u (Thread.push_loading v p) d ok = ok
    claimed_others u (Thread.push_claiming v p) d ok = ok
    claimed_others u (Thread.writing v p) d ok = ok
    claimed_others u (Thread.publishing p) d ok = ok
    claimed_others u (Thread.pop_loading p) d ok = omega (arith, ok, here, bound)
    claimed_others u (Thread.pop_claiming p) d ok =
        (omega (arith, ok.0, here, bound), (λ e. absurd (omega (arith, e, ok.0, here, bound))))
    claimed_others u (Thread.reading p) d ok =
        (omega (arith, ok.0, here, bound), ok.1, reader_off p (suc u) ok.0 ok.2)
    claimed_others u (Thread.releasing p v) d ok =
        (omega (arith, ok.0, here, bound), ok.1, reader_off p (suc u) ok.0 ok.2, ok.3)

    pub pop_claim-Inv : Ok size s t (Thread.pop_claiming pos) → Inv size (claimed pos)
    pop_claim-Inv ok = record {
      count = inv.count;
      read_le = let written = inv.contents pos (ok.1 here) in omega (arith, written.0, bound);
      contents = inv.contents;
      threads_ok =
          all-Ok size s (claimed pos) t (Thread.reading pos) refl
            (omega (arith, bound), ok.1 here, update_at reader pos (t + 1) ∙ omega arith)
            claimed_others inv.threads_ok;
      words = inv.words;
      popped_ok =
          AllPopped-mono size pushed pushed reader (update reader pos (t + 1)) popped
            (omega (arith, here, bound)) (λ _ _. refl) (λ p h e. reader_off p 0 h e) inv.popped_ok;
      popped_once = inv.popped_once;
    }

  pub read-Ok :
      (pos : ℕ)
      → Ok size s t (Thread.reading pos)
      → Ok size s t (Thread.releasing pos (s.value (slot_of size pos)))
  read-Ok pos ok = (ok.0, ok.1, ok.2, sym ((inv.contents pos ok.1).1))

  one_reader : {p q : ℕ} (u : ℕ) → t ≢ u → reader p ≡ suc t → reader q ≡ suc u → p ≢ q
  one_reader u d x y same = d (omega (arith, x, y, ap reader same))

  abbrev released : ℕ → ℕ → System
  released pos val = record s {
    sequence = update sequence (slot_of size pos) ((pos + (size - 1) + 1) % 2 ^ 64);
    threads = update s.threads t Thread.idle;
    popped = (pos, val) ∷ popped;
    reader = update reader pos 0;
  }

  module _ (round : (pos : ℕ) → slot_of size (pos + size) ≡ slot_of size pos) (pos val : ℕ)
      (bound : pos + size < 2 ^ 64) (some_slots : 0 < size)
      (mine : Ok size s t (Thread.releasing pos val)) where
    abbrev stamp : ℕ
    stamp = (pos + (size - 1) + 1) % 2 ^ 64

    pub release_off :
        (p x : ℕ)
        → slot_of size pos ≢ slot_of size p
        → sequence (slot_of size p) ≡ x
        → update sequence (slot_of size pos) stamp (slot_of size p) ≡ x
    release_off p x d e = update_off sequence (slot_of size pos) (slot_of size p) stamp d ∙ e

    -- A slot that someone writes is not one that someone reads.
    pub not_written : (p : ℕ) → sequence (slot_of size p) ≡ p → slot_of size pos ≢ slot_of size p
    not_written p e same = next pos (ap (slot_of size) (agree sequence same mine.1 e) ∙ sym same)

    pub same_pos :
        (p : ℕ) → slot_of size pos ≡ slot_of size p → sequence (slot_of size p) ≡ suc p → pos ≡ p
    same_pos p same e = let stamps = agree sequence same mine.1 e in omega (arith, stamps)

    released_others :
        (u : ℕ) (other : Thread) → t ≢ u → Ok size s u other → Ok size (released pos val) u other
    released_others u Thread.idle d ok = ok
    released_others u (Thread.push_loading v p) d ok = ok
    released_others u (Thread.push_claiming v p) d ok =
        (ok.0, (λ e. release_off p p (not_written p (ok.1 e)) (ok.1 e)))
    released_others u (Thread.writing v p) d ok =
        (ok.0, release_off p p (not_written p ok.1) ok.1, ok.2, ok.3)
    released_others u (Thread.publishing p) d ok =
        (ok.0, release_off p p (not_written p ok.1) ok.1, ok.2, ok.3)
    released_others u (Thread.pop_loading p) d ok = ok
    released_others u (Thread.pop_claiming p) d ok = (
      ok.0,
      (λ e.
          release_off p (suc p)
            (λ same. absurd (omega (arith, same_pos p same (ok.1 e), e, mine.0))) (ok.1 e)),
    )
    released_others u (Thread.reading p) d ok =
        let apart = one_reader u d mine.2 ok.2 in
        (
          ok.0,
          release_off p (suc p) (λ same. apart (same_pos p same ok.1)) ok.1,
          update_off reader pos p 0 apart ∙ ok.2,
        )
    released_others u (Thread.releasing p v) d ok =
        let apart = one_reader u d mine.2 ok.2 in
        (
          ok.0,
          release_off p (suc p) (λ same. apart (same_pos p same ok.1)) ok.1,
          update_off reader pos p 0 apart ∙ ok.2,
          ok.3,
        )

    released_contents :
        (p : ℕ)
        → update sequence (slot_of size pos) stamp (slot_of size p) ≡ suc p
        → (p < write_idx) × (s.value (slot_of size p) ≡ get_or pushed p 0)
    released_contents p e = elim (ℕ_discrete (slot_of size pos) (slot_of size p)) [
      | yes same ↦
          let new = update_at sequence (slot_of size pos) stamp in
          let moved = ap (update sequence (slot_of size pos) stamp) same in
          let round_on : pos + size ≡ suc p = omega (arith, new, moved, e, bound, some_slots) in
          absurd (next p (ap (slot_of size) (sym round_on) ∙ round pos ∙ same))
      | no other ↦
          inv.contents p
            (sym (update_off sequence (slot_of size pos) (slot_of size p) stamp other) ∙ e)
    ]

    released_words : (p : ℕ) → update sequence (slot_of size pos) stamp (slot_of size p) < 2 ^ 64
    released_words p = elim (ℕ_discrete (slot_of size pos) (slot_of size p)) [
      | yes same ↦ rw (eq_pos same) (omega arith)
      | no other ↦ rw (eq_neg other) (inv.words p)
    ]

    still_none : (p : ℕ) → p < read_idx → reader p ≡ 0 → update reader pos 0 p ≡ 0
    still_none p _ e = elim (ℕ_discrete pos p) [
      | yes same ↦ rw (eq_pos same) refl
      | no other ↦ rw (eq_neg other) e
    ]

    pub release-Inv : Inv size (released pos val)
    release-Inv = record {
      count = inv.count;
      read_le = inv.read_le;
      contents = released_contents;
      threads_ok =
          all-Ok size s (released pos val) t Thread.idle refl (omega arith) released_others
            inv.threads_ok;
      words = released_words;
      popped_ok = (
        (mine.0, mine.3, update_at reader pos 0),
        AllPopped-mono size pushed pushed reader (update reader pos 0) popped (omega arith)
            (λ _ _. refl) still_none inv.popped_ok,
      );
      popped_once = (
        AllPopped-Fresh size read_idx pushed reader popped pos
            (λ e. absurd (omega (arith, e, mine.2))) inv.popped_ok,
        inv.popped_once,
      );
    }
