-- ===== src/Mpmc/Vyukov/Push.antt =====
-- The steps of `push` of src/benchmarks/MPMC/vyukov.hpp that change the queue.
use benchmark_fun.Common.{
  update, update_at, update_off, agree, ℕ, suc, ◌+◌, ◌-◌, ◌%◌, ◌^◌, ◌<◌, ◌≡◌, ◌≢◌, refl, sym, ap,
  subst, ◌∙◌, [], ◌∷◌, ◌++◌, length, get_or, arith, eq_pos, eq_neg, length-append, get_or-append_in,
  get_or-append_past,
}
use native.Mathlib.Decide.{ℕ_discrete}
use benchmark_fun.Mpmc.Vyukov.{slot_of, Thread, System}
use benchmark_fun.Mpmc.Vyukov.Inv.{Ok, Inv, all-Ok, AllPopped-mono}

module _ (size : ℕ) (next : (pos : ℕ) → slot_of size (suc pos) ≢ slot_of size pos) (s : System)
    (t : ℕ) (inv : Inv size s) where
  open s use {sequence, value, write_idx, read_idx, pushed, writer}

  appended : (val p : ℕ) → p < write_idx → get_or (pushed ++ val ∷ []) p 0 ≡ get_or pushed p 0
  appended val p h = get_or-append_in pushed (val ∷ []) p 0 (omega (arith, h, inv.count))

  abbrev claimed : ℕ → ℕ → System
  claimed val pos = record s {
    write_idx = (pos + 1) % 2 ^ 64;
    threads = update s.threads t (Thread.writing val pos);
    pushed = pushed ++ val ∷ [];
    writer = update writer pos (t + 1);
  }

  module _ (val pos : ℕ) (here : write_idx ≡ pos) (bound : suc pos < 2 ^ 64) where
    claimed_others :
        (u : ℕ) (other : Thread) → t ≢ u → Ok size s u other → Ok size (claimed val pos) u other
    claimed_others u Thread.idle d ok = ok
    claimed_others u (Thread.push_loading v p) d ok = omega (arith, ok, here, bound)
    claimed_others u (Thread.push_claiming v p) d ok =
        (omega (arith, ok.0, here, bound), (λ e. absurd (omega (arith, e, ok.0, here, bound))))
    claimed_others u (Thread.writing v p) d ok = (
      omega (arith, ok.0, here, bound),
      ok.1,
      update_off writer pos p (t + 1) (λ e. absurd (omega (arith, e, ok.0, here))) ∙ ok.2,
      appended val p ok.0 ∙ ok.3,
    )
    claimed_others u (Thread.publishing p) d ok = (
      omega (arith, ok.0, here, bound),
      ok.1,
      update_off writer pos p (t + 1) (λ e. absurd (omega (arith, e, ok.0, here))) ∙ ok.2,
      ok.3 ∙ sym (appended val p ok.0),
    )
    claimed_others u (Thread.pop_loading p) d ok = ok
    claimed_others u (Thread.pop_claiming p) d ok = ok
    claimed_others u (Thread.reading p) d ok = ok
    claimed_others u (Thread.releasing p v) d ok =
        (ok.0, ok.1, ok.2, appended val p (omega (arith, ok.0, inv.read_le)) ∙ ok.3)

    claimed_val : get_or (pushed ++ val ∷ []) pos 0 ≡ val
    claimed_val =
        let first : pos - length pushed ≡ 0 = omega (arith, here, inv.count) in
        get_or-append_past pushed (val ∷ []) pos 0 (omega (arith, here, inv.count))
        ∙ ap (λ i. get_or (val ∷ []) i 0) first

    pub push_claim-Inv : Ok size s t (Thread.push_claiming val pos) → Inv size (claimed val pos)
    push_claim-Inv ok = record {
      count = omega (arith, here, bound, inv.count, length-append pushed (val ∷ []));
      read_le = omega (arith, here, bound, inv.read_le);
      contents = λ p e.
          let old = inv.contents p e in
          (omega (arith, old.0, here, bound), old.1 ∙ sym (appended val p old.0));
      threads_ok =
          all-Ok size s (claimed val pos) t (Thread.writing val pos) refl
            (
              omega (arith, here, bound),
              ok.1 here,
              update_at writer pos (t + 1) ∙ omega arith,
              claimed_val,
            )
            claimed_others inv.threads_ok;
      words = inv.words;
      popped_ok =
          AllPopped-mono size pushed (pushed ++ val ∷ []) s.reader s.reader s.popped (omega arith)
            (λ p h. appended val p (omega (arith, h, inv.read_le))) (λ p _ h. h) inv.popped_ok;
      popped_once = inv.popped_once;
    }

  one_writer : {p q : ℕ} (u : ℕ) → t ≢ u → writer p ≡ suc t → writer q ≡ suc u → p ≢ q
  one_writer u d x y same = d (omega (arith, x, y, ap writer same))

  abbrev written : ℕ → ℕ → System
  written val pos = record s {
    value = update s.value (slot_of size pos) val;
    threads = update s.threads t (Thread.publishing pos);
  }

  module _ (val pos : ℕ) (mine : Ok size s t (Thread.writing val pos)) where
    value_off :
        (p x : ℕ)
        → slot_of size pos ≢ slot_of size p
        → s.value (slot_of size p) ≡ x
        → update s.value (slot_of size pos) val (slot_of size p) ≡ x
    value_off p x d e = update_off s.value (slot_of size pos) (slot_of size p) val d ∙ e

    written_others :
        (u : ℕ) (other : Thread) → t ≢ u → Ok size s u other → Ok size (written val pos) u other
    written_others u Thread.idle d ok = ok
    written_others u (Thread.push_loading v p) d ok = ok
    written_others u (Thread.push_claiming v p) d ok = ok
    written_others u (Thread.writing v p) d ok = ok
    written_others u (Thread.publishing p) d ok = (
      ok.0,
      ok.1,
      ok.2,
      value_off p _ (λ same. one_writer u d mine.2 ok.2 (agree sequence same mine.1 ok.1)) ok.3,
    )
    written_others u (Thread.pop_loading p) d ok = ok
    written_others u (Thread.pop_claiming p) d ok = ok
    written_others u (Thread.reading p) d ok = ok
    written_others u (Thread.releasing p v) d ok = ok

    pub write-Inv : Inv size (written val pos)
    write-Inv = record {
      count = inv.count;
      read_le = inv.read_le;
      contents = λ p e.
          let old = inv.contents p e in
          (
            old.0,
            value_off p _
                (λ same. next p (ap (slot_of size) (sym (agree sequence same mine.1 e)) ∙ same))
                old.1,
          );
      threads_ok =
          all-Ok size s (written val pos) t (Thread.publishing pos) refl
            (mine.0, mine.1, mine.2, update_at s.value (slot_of size pos) val ∙ sym mine.3)
            written_others inv.threads_ok;
      words = inv.words;
      popped_ok = inv.popped_ok;
      popped_once = inv.popped_once;
    }

  abbrev published : ℕ → System
  published pos = record s {
    sequence = update sequence (slot_of size pos) ((pos + 1) % 2 ^ 64);
    threads = update s.threads t Thread.idle;
    writer = update writer pos 0;
  }

  module _ (pos : ℕ) (bound : suc pos < 2 ^ 64) (mine : Ok size s t (Thread.publishing pos)) where
    pub publish_off :
        (p x : ℕ)
        → slot_of size pos ≢ slot_of size p
        → sequence (slot_of size p) ≡ x
        → update sequence (slot_of size pos) ((pos + 1) % 2 ^ 64) (slot_of size p) ≡ x
    publish_off p x d e =
        update_off sequence (slot_of size pos) (slot_of size p) ((pos + 1) % 2 ^ 64) d ∙ e

    -- A slot that someone reads is not one that someone writes.
    pub not_read : (p : ℕ) → sequence (slot_of size p) ≡ suc p → slot_of size pos ≢ slot_of size p
    not_read p e same = next p (ap (slot_of size) (sym (agree sequence same mine.1 e)) ∙ same)

    published_others :
        (u : ℕ) (other : Thread) → t ≢ u → Ok size s u other → Ok size (published pos) u other
    published_others u Thread.idle d ok = ok
    published_others u (Thread.push_loading v p) d ok = ok
    published_others u (Thread.push_claiming v p) d ok = (
      ok.0,
      (λ e.
          publish_off p p
            (λ same. absurd (omega (arith, agree sequence same mine.1 (ok.1 e), e, mine.0)))
            (ok.1 e)),
    )
    published_others u (Thread.writing v p) d ok =
        let apart = one_writer u d mine.2 ok.2 in
        (
          ok.0,
          publish_off p p (λ same. apart (agree sequence same mine.1 ok.1)) ok.1,
          update_off writer pos p 0 apart ∙ ok.2,
          ok.3,
        )
    published_others u (Thread.publishing p) d ok =
        let apart = one_writer u d mine.2 ok.2 in
        (
          ok.0,
          publish_off p p (λ same. apart (agree sequence same mine.1 ok.1)) ok.1,
          update_off writer pos p 0 apart ∙ ok.2,
          ok.3,
        )
    published_others u (Thread.pop_loading p) d ok = ok
    published_others u (Thread.pop_claiming p) d ok =
        (ok.0, (λ e. publish_off p (suc p) (not_read p (ok.1 e)) (ok.1 e)))
    published_others u (Thread.reading p) d ok =
        (ok.0, publish_off p (suc p) (not_read p ok.1) ok.1, ok.2)
    published_others u (Thread.releasing p v) d ok =
        (ok.0, publish_off p (suc p) (not_read p ok.1) ok.1, ok.2, ok.3)

    published_contents :
        (p : ℕ)
        → update sequence (slot_of size pos) ((pos + 1) % 2 ^ 64) (slot_of size p) ≡ suc p
        → (p < write_idx) × (s.value (slot_of size p) ≡ get_or pushed p 0)
    published_contents p e = elim (ℕ_discrete (slot_of size pos) (slot_of size p)) [
      | yes same ↦
          let new = update_at sequence (slot_of size pos) ((pos + 1) % 2 ^ 64) in
          let moved = ap (update sequence (slot_of size pos) ((pos + 1) % 2 ^ 64)) same in
          let here : pos ≡ p = omega (arith, new, moved, e, bound) in
          subst (λ q. (q < write_idx) × (s.value (slot_of size q) ≡ get_or pushed q 0)) here
            (mine.0, mine.3)
      | no other ↦ inv.contents p (
          sym (update_off sequence (slot_of size pos) (slot_of size p) ((pos + 1) % 2 ^ 64) other)
          ∙ e)
    ]

    published_words :
        (p : ℕ) → update sequence (slot_of size pos) ((pos + 1) % 2 ^ 64) (slot_of size p) < 2 ^ 64
    published_words p = elim (ℕ_discrete (slot_of size pos) (slot_of size p)) [
      | yes same ↦ rw (eq_pos same) (omega arith)
      | no other ↦ rw (eq_neg other) (inv.words p)
    ]

    pub publish-Inv : Inv size (published pos)
    publish-Inv = record {
      count = inv.count;
      read_le = inv.read_le;
      contents = published_contents;
      threads_ok =
          all-Ok size s (published pos) t Thread.idle refl (omega arith) published_others
            inv.threads_ok;
      words = published_words;
      popped_ok = inv.popped_ok;
      popped_once = inv.popped_once;
    }
