-- ===== src/Mpmc/Atomic/Publish.antt =====
-- The item and the index that a `push` of src/benchmarks/MPMC/atomics.hpp writes once it has a
-- ticket.
use benchmark_fun.Common.{
  update, update_at, update_off, ℕ, suc, ◌+◌, ◌%◌, ◌^◌, ◌≤◌, ◌<◌, ◌≡◌, ◌≢◌, refl, sym, ap, subst,
  ◌∙◌, length, get_or, arith, mod_apart,
}
use native.Mathlib.Decide.{dec_lt}
use benchmark_fun.Mpmc.Atomic.{next_of, Thread, System}
use benchmark_fun.Mpmc.Atomic.Inv.{same_ticket, next_lem, Ok, Inv, all-Ok}

module _ (size : ℕ) (some_slots : 0 < size) (small : size < 2 ^ 64) (s : System) (t : ℕ)
    (inv : Inv size s) where
  open s use {items, pushed, writer}

  one_writer : {p q : ℕ} (u : ℕ) → t ≢ u → writer p ≡ suc t → writer q ≡ suc u → p ≢ q
  one_writer u d x y same = d (omega (arith, x, y, ap writer same))

  -- Two tickets of items between the oldest left and the newest have different indexes.
  pub window :
      (p q : ℕ)
      → length s.popped ≤ p
      → p < length pushed
      → length s.popped ≤ q
      → q < length pushed
      → p ≢ q
      → p % size ≢ q % size
  window p q from below from' below' d = elim (dec_lt p q) [
    | yes less ↦ mod_apart size p q less (omega (arith, below', from, inv.room))
    | no h ↦ λ e.
        mod_apart size q p (omega (arith, h, d)) (omega (arith, below, from', inv.room)) (sym e)
  ]

  abbrev written : ℕ → ℕ → ℕ → System
  written val reserved ticket = record s {
    items = update items reserved val;
    threads = update s.threads t (Thread.publishing reserved ticket);
  }

  module _ (val reserved ticket : ℕ) (mine : Ok size s t (Thread.writing val reserved ticket)) where
    open inv use {popped_le, reads_le, published_le}

    item_off :
        (p x : ℕ)
        → length s.popped ≤ p
        → p < length pushed
        → ticket ≢ p
        → items (p % size) ≡ x
        → update items reserved val (p % size) ≡ x
    item_off p x from below d e =
        update_off items reserved (p % size) val (λ same.
          window ticket p (omega (arith, popped_le, reads_le, mine.1)) mine.2 from below d
            (sym mine.0 ∙ same))
        ∙ e

    written_others :
        (u : ℕ) (other : Thread)
        → t ≢ u
        → Ok size s u other
        → Ok size (written val reserved ticket) u other
    written_others u Thread.idle d ok = ok
    written_others u (Thread.push_starting v) d ok = ok
    written_others u (Thread.push_checking v r p) d ok = ok
    written_others u (Thread.push_claiming v r p) d ok = ok
    written_others u (Thread.writing v r p) d ok = ok
    written_others u (Thread.publishing r p) d ok = (
      ok.0,
      ok.1,
      ok.2,
      ok.3,
      ap (update items reserved val) ok.0
          ∙ item_off p _ (omega (arith, popped_le, reads_le, ok.1)) ok.2
              (one_writer u d mine.3 ok.3) (ap items (sym ok.0) ∙ ok.4),
    )
    written_others u Thread.pop_starting d ok = ok
    written_others u (Thread.pop_checking r p) d ok = ok
    written_others u (Thread.pop_claiming r p) d ok = ok
    written_others u (Thread.reading r p) d ok = ok
    written_others u (Thread.releasing v r p) d ok = ok

    pub write-Inv : Inv size (written val reserved ticket)
    write-Inv = record {
      popped_le = inv.popped_le;
      reads_le = inv.reads_le;
      published_le = inv.published_le;
      room = inv.room;
      read_lem = inv.read_lem;
      reserved_read_lem = inv.reserved_read_lem;
      write_lem = inv.write_lem;
      reserved_write_lem = inv.reserved_write_lem;
      contents = λ p from below.
          item_off p _ from (omega (arith, below, published_le))
            (λ same. absurd (omega (arith, same, below, mine.1))) (inv.contents p from below);
      in_order = inv.in_order;
      threads_ok =
          all-Ok size s (written val reserved ticket) t (Thread.publishing reserved ticket) refl
            (mine.0, mine.1, mine.2, mine.3, update_at items reserved val ∙ sym mine.4)
            written_others inv.threads_ok;
    }

  abbrev published : ℕ → System
  published reserved = record s {
    write_idx = next_of size reserved;
    threads = update s.threads t Thread.idle;
    published = s.published + 1;
  }

  module _ (reserved ticket : ℕ) (here : s.write_idx ≡ reserved)
      (mine : Ok size s t (Thread.publishing reserved ticket)) where
    open inv use {popped_le, reads_le, published_le}

    -- The exchange succeeds only for the oldest ticket that is not published.
    pub turn : s.published ≡ ticket
    turn =
        same_ticket size s.published ticket mine.1
          (omega (arith, mine.2, inv.room, popped_le, reads_le)) (sym inv.write_lem ∙ here ∙ mine.0)

    published_others :
        (u : ℕ) (other : Thread) → t ≢ u → Ok size s u other → Ok size (published reserved) u other
    published_others u Thread.idle d ok = ok
    published_others u (Thread.push_starting v) d ok = ok
    published_others u (Thread.push_checking v r p) d ok = ok
    published_others u (Thread.push_claiming v r p) d ok = ok
    published_others u (Thread.writing v r p) d ok =
        let apart = one_writer u d mine.3 ok.3 in
        (ok.0, omega (arith, ok.1, turn, apart), ok.2, ok.3, ok.4)
    published_others u (Thread.publishing r p) d ok =
        let apart = one_writer u d mine.3 ok.3 in
        (ok.0, omega (arith, ok.1, turn, apart), ok.2, ok.3, ok.4)
    published_others u Thread.pop_starting d ok = ok
    published_others u (Thread.pop_checking r p) d ok = ok
    published_others u (Thread.pop_claiming r p) d ok = (ok.0, ok.1, (λ e. omega (arith, ok.2 e)))
    published_others u (Thread.reading r p) d ok = ok
    published_others u (Thread.releasing v r p) d ok = ok

    published_contents :
        (p : ℕ) → length s.popped ≤ p → p < s.published + 1 → items (p % size) ≡ get_or pushed p 0
    published_contents p from below = elim (dec_lt p s.published) [
      | yes old ↦ inv.contents p from old
      | no new ↦
          let same : p ≡ ticket = omega (arith, below, new, turn) in
          subst (λ q. items (q % size) ≡ get_or pushed q 0) (sym same)
            (ap items (sym mine.0) ∙ mine.4)
    ]

    pub publish-Inv : Inv size (published reserved)
    publish-Inv = record {
      popped_le = inv.popped_le;
      reads_le = omega (arith, reads_le);
      published_le = omega (arith, mine.2, turn);
      room = inv.room;
      read_lem = inv.read_lem;
      reserved_read_lem = inv.reserved_read_lem;
      write_lem =
          ap (next_of size) mine.0
          ∙ next_lem size some_slots small ticket
          ∙ ap (λ x. x % size) (omega (arith, turn));
      reserved_write_lem = inv.reserved_write_lem;
      contents = published_contents;
      in_order = inv.in_order;
      threads_ok =
          all-Ok size s (published reserved) t Thread.idle refl (omega arith) published_others
            inv.threads_ok;
    }
