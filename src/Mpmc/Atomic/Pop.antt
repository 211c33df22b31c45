-- ===== src/Mpmc/Atomic/Pop.antt =====
-- The steps of `pop` of src/benchmarks/MPMC/atomics.hpp that change the queue, and `reset`.
use benchmark_fun.Common.{
  update, update_at, update_off, ℕ, suc, ◌+◌, ◌-◌, ◌%◌, ◌^◌, ◌<◌, ◌≡◌, ◌≢◌, refl, sym, ap, subst,
  ◌∙◌, [], ◌∷◌, ◌++◌, length, get_or, arith, length-append, get_or-append_in, get_or-append_past,
}
use native.Mathlib.Decide.{ℕ_discrete, dec_lt}
use native.Mathlib.Nat.{mod-eq_of_lt}
use benchmark_fun.Mpmc.Atomic.{next_of, reset, Thread, System}
use benchmark_fun.Mpmc.Atomic.Inv.{same_ticket, next_lem, Ok, Inv, all-Ok}

module _ (size : ℕ) (some_slots : 0 < size) (small : size < 2 ^ 64) (s : System) (t : ℕ)
    (inv : Inv size s) where
  open s use {items, pushed, popped, reader}
  open inv use {popped_le, reads_le, published_le}

  one_reader : {p q : ℕ} (u : ℕ) → t ≢ u → reader p ≡ suc t → reader q ≡ suc u → p ≢ q
  one_reader u d x y same = d (omega (arith, x, y, ap reader same))

  -- An index that differs from the one published next is that of a published item.
  pub pop_some-Ok :
      (reserved ticket : ℕ)
      → reserved ≢ s.write_idx
      → Ok size s t (Thread.pop_checking reserved ticket)
      → Ok size s t (Thread.pop_claiming reserved ticket)
  pop_some-Ok reserved ticket some_item ok = (
    ok.0,
    ok.1,
    (λ e. elim (ℕ_discrete ticket s.published) [
      | yes none_left ↦ absurd (some_item (ok.0 ∙ ap (λ x. x % size) none_left ∙ sym inv.write_lem))
      | no h ↦ omega (arith, h, e, reads_le)
    ]),
  )

  abbrev claimed : ℕ → ℕ → System
  claimed reserved ticket = record s {
    reserved_read_idx = next_of size reserved;
    threads = update s.threads t (Thread.reading reserved ticket);
    reads = s.reads + 1;
    reader = update reader ticket (t + 1);
  }

  module _ (reserved ticket : ℕ) (count : s.reads ≡ ticket) where
    named_before : (p x : ℕ) → p < s.reads → reader p ≡ x → update reader ticket (t + 1) p ≡ x
    named_before p x h e =
        update_off reader ticket p (t + 1) (λ same. absurd (omega (arith, same, h, count))) ∙ e

    claimed_others :
        (u : ℕ) (other : Thread)
        → t ≢ u
        → Ok size s u other
        → Ok size (claimed reserved ticket) u other
    claimed_others u Thread.idle d ok = ok
    claimed_others u (Thread.push_starting v) d ok = ok
    claimed_others u (Thread.push_checking v r p) d ok = ok
    claimed_others u (Thread.push_claiming v r p) d ok = ok
    claimed_others u (Thread.writing v r p) d ok = ok
    claimed_others u (Thread.publishing r p) d ok = ok
    claimed_others u Thread.pop_starting d ok = ok
    claimed_others u (Thread.pop_checking r p) d ok = (ok.0, omega (arith, ok.1))
    claimed_others u (Thread.pop_claiming r p) d ok =
        (ok.0, omega (arith, ok.1), (λ e. absurd (omega (arith, e, ok.1))))
    claimed_others u (Thread.reading r p) d ok =
        (ok.0, ok.1, omega (arith, ok.2), named_before p (suc u) ok.2 ok.3)
    claimed_others u (Thread.releasing v r p) d ok =
        (ok.0, ok.1, omega (arith, ok.2), named_before p (suc u) ok.2 ok.3, ok.4)

    pub pop_claim-Inv :
        Ok size s t (Thread.pop_claiming reserved ticket) → Inv size (claimed reserved ticket)
    pop_claim-Inv ok = record {
      popped_le = omega (arith, popped_le);
      reads_le = omega (arith, ok.2 count, count);
      published_le = inv.published_le;
      room = inv.room;
      read_lem = inv.read_lem;
      reserved_read_lem =
          ap (next_of size) ok.0
          ∙ next_lem size some_slots small ticket
          ∙ ap (λ x. x % size) (omega (arith, count));
      write_lem = inv.write_lem;
      reserved_write_lem = inv.reserved_write_lem;
      contents = inv.contents;
      in_order = inv.in_order;
      threads_ok =
          all-Ok size s (claimed reserved ticket) t (Thread.reading reserved ticket) refl
            (
              ok.0,
              omega (arith, popped_le, count),
              omega (arith, count),
              update_at reader ticket (t + 1) ∙ omega arith,
            )
            claimed_others inv.threads_ok;
    }

  pub read-Ok :
      (reserved ticket : ℕ)
      → Ok size s t (Thread.reading reserved ticket)
      → Ok size s t (Thread.releasing (items reserved) reserved ticket)
  read-Ok reserved ticket ok = (
    ok.0,
    ok.1,
    ok.2,
    ok.3,
    sym (inv.contents ticket ok.1 (omega (arith, ok.2, reads_le))) ∙ ap items (sym ok.0),
  )

  abbrev released : ℕ → ℕ → System
  released val reserved = record s {
    read_idx = next_of size reserved;
    threads = update s.threads t Thread.idle;
    popped = popped ++ val ∷ [];
  }

  module _ (val reserved ticket : ℕ) (here : s.read_idx ≡ reserved)
      (mine : Ok size s t (Thread.releasing val reserved ticket)) where
    -- The exchange succeeds only for the oldest ticket that is not released.
    pub turn : length popped ≡ ticket
    turn =
        same_ticket size (length popped) ticket mine.1
          (omega (arith, mine.2, reads_le, published_le, inv.room))
          (sym inv.read_lem ∙ here ∙ mine.0)

    longer : length (popped ++ val ∷ []) ≡ suc (length popped)
    longer = omega (arith, length-append popped (val ∷ []))

    released_others :
        (u : ℕ) (other : Thread)
        → t ≢ u
        → Ok size s u other
        → Ok size (released val reserved) u other
    released_others u Thread.idle d ok = ok
    released_others u (Thread.push_starting v) d ok = ok
    released_others u (Thread.push_checking v r p) d ok = ok
    released_others u (Thread.push_claiming v r p) d ok =
        (ok.0, ok.1, (λ e. omega (arith, ok.2 e, longer)))
    released_others u (Thread.writing v r p) d ok = ok
    released_others u (Thread.publishing r p) d ok = ok
    released_others u Thread.pop_starting d ok = ok
    released_others u (Thread.pop_checking r p) d ok = ok
    released_others u (Thread.pop_claiming r p) d ok = ok
    released_others u (Thread.reading r p) d ok =
        let apart = one_reader u d mine.3 ok.3 in
        (ok.0, omega (arith, ok.1, turn, apart, longer), ok.2, ok.3)
    released_others u (Thread.releasing v r p) d ok =
        let apart = one_reader u d mine.3 ok.3 in
        (ok.0, omega (arith, ok.1, turn, apart, longer), ok.2, ok.3, ok.4)

    released_in_order :
        (p : ℕ)
        → p < length (popped ++ val ∷ [])
        → get_or (popped ++ val ∷ []) p 0 ≡ get_or pushed p 0
    released_in_order p h = elim (dec_lt p (length popped)) [
      | yes old ↦ get_or-append_in popped (val ∷ []) p 0 old ∙ inv.in_order p old
      | no new ↦
          let first : p - length popped ≡ 0 = omega (arith, h, new, longer) in
          let same : p ≡ ticket = omega (arith, h, new, longer, turn) in
          get_or-append_past popped (val ∷ []) p 0 (omega (arith, new))
          ∙ ap (λ i. get_or (val ∷ []) i 0) first
          ∙ sym (ap (λ q. get_or pushed q 0) same ∙ mine.4)
    ]

    pub release-Inv : Inv size (released val reserved)
    release-Inv = record {
      popped_le = omega (arith, mine.2, turn, longer);
      reads_le = inv.reads_le;
      published_le = inv.published_le;
      room = omega (arith, inv.room, longer);
      read_lem =
          ap (next_of size) mine.0
          ∙ next_lem size some_slots small ticket
          ∙ ap (λ x. x % size) (omega (arith, turn, longer));
      reserved_read_lem = inv.reserved_read_lem;
      write_lem = inv.write_lem;
      reserved_write_lem = inv.reserved_write_lem;
      contents = λ p from below. inv.contents p (omega (arith, from, longer)) below;
      in_order = released_in_order;
      threads_ok =
          all-Ok size s (released val reserved) t Thread.idle refl (omega arith) released_others
            inv.threads_ok;
    }

  pub reset-Inv : ((u : ℕ) → s.threads u ≡ Thread.idle) → Inv size (reset s)
  reset-Inv quiet = record {
    popped_le = omega arith;
    reads_le = omega arith;
    published_le = omega arith;
    room = omega (arith, some_slots);
    read_lem = sym (mod-eq_of_lt some_slots);
    reserved_read_lem = sym (mod-eq_of_lt some_slots);
    write_lem = sym (mod-eq_of_lt some_slots);
    reserved_write_lem = sym (mod-eq_of_lt some_slots);
    contents = λ p from below. absurd (omega (arith, below));
    in_order = λ p h. absurd (omega (arith, h));
    threads_ok = λ u. subst (λ th. Ok size (reset s) u th) (sym (quiet u)) (omega arith);
  }
