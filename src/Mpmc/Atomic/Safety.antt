-- ===== src/Mpmc/Atomic/Safety.antt =====
-- What any number of threads can rely on with the queue of src/benchmarks/MPMC/atomics.hpp.
use benchmark_fun.Common.{
  ℕ, suc, ◌+◌, ◌%◌, ◌^◌, ◌≤◌, ◌<◌, ◌≡◌, ◌⊎◌, inl, inr, refl, sym, ap, ap₂, ◌∙◌, List, [], ◌∷◌,
  length, take, get_or, arith, Option, none, some,
}
use mathlib.Core.Option.{some-injective}
use native.Mathlib.Decide.{ℕ_discrete}
use benchmark_fun.Mpmc.Atomic.{Thread, System, Reach}
use benchmark_fun.Mpmc.Atomic.Inv.{Ok, Inv}
use benchmark_fun.Mpmc.Atomic.Publish.{window}
use benchmark_fun.Mpmc.Atomic.Reachable.{Prompt, invariant}

-- The item that a thread is about to write or to read.
abbrev pub touches : Thread → Option ℕ
touches (Thread.writing val reserved ticket) = some reserved
touches (Thread.reading reserved ticket) = some reserved
touches _ = none

-- The values of one list are the first ones of another.
first_ones :
    (xs ys : List ℕ)
    → length xs ≤ length ys
    → ((p : ℕ) → p < length xs → get_or xs p 0 ≡ get_or ys p 0)
    → xs ≡ take (length xs) ys
first_ones [] ys le same = refl
first_ones (x ∷ xs) [] le same = absurd (omega (arith, le))
first_ones (x ∷ xs) (y ∷ ys) le same =
    ap₂ ◌∷◌ (same 0 (omega arith))
      (first_ones xs ys (omega (arith, le)) (λ p h. same (suc p) (omega (arith, h))))

module _ (size : ℕ) (s : System) where
  -- The ticket by which thread `t` accesses item `i`, of a push or of a pop.
  abbrev Holds : ℕ → ℕ → Type 0
  Holds t i =
      (ticket : ℕ) × (i ≡ ticket % size)
      × (((s.published ≤ ticket) × (ticket < length s.pushed) × (s.writer ticket ≡ suc t))
          ⊎ ((length s.popped ≤ ticket) × (ticket < s.reads) × (s.reader ticket ≡ suc t)))

  touches-Holds : (t : ℕ) (th : Thread) (i : ℕ) → touches th ≡ some i → Ok size s t th → Holds t i
  touches-Holds t (Thread.writing v r p) i e ok =
      (p, sym (some-injective _ _ e) ∙ ok.0, inl (ok.1, ok.2, ok.3))
  touches-Holds t (Thread.reading r p) i e ok =
      (p, sym (some-injective _ _ e) ∙ ok.0, inr (ok.1, ok.2, ok.3))
  touches-Holds t Thread.idle i e ok = cc e
  touches-Holds t (Thread.push_starting v) i e ok = cc e
  touches-Holds t (Thread.push_checking v r p) i e ok = cc e
  touches-Holds t (Thread.push_claiming v r p) i e ok = cc e
  touches-Holds t (Thread.publishing r p) i e ok = cc e
  touches-Holds t Thread.pop_starting i e ok = cc e
  touches-Holds t (Thread.pop_checking r p) i e ok = cc e
  touches-Holds t (Thread.pop_claiming r p) i e ok = cc e
  touches-Holds t (Thread.releasing v r p) i e ok = cc e

  module _ (some_slots : 0 < size) (small : size < 2 ^ 64) (inv : Inv size s) where
    open inv use {popped_le, reads_le, published_le}

    -- Tickets that are in use and have one item are one.
    one_ticket :
        (p q : ℕ)
        → length s.popped ≤ p
        → p < length s.pushed
        → length s.popped ≤ q
        → q < length s.pushed
        → p % size ≡ q % size
        → p ≡ q
    one_ticket p q from below from' below' e = elim (ℕ_discrete p q) [
      | yes same ↦ same
      | no other ↦ absurd (window size some_slots small s 0 inv p q from below from' below' other e)
    ]

    same_holder : (t u i : ℕ) → Holds t i → Holds u i → t ≡ u
    same_holder t u i (p, at, inl (from, below, mine)) (q, at', inl (from', below', yours)) =
        let same =
          one_ticket p q (omega (arith, from, popped_le, reads_le)) below
            (omega (arith, from', popped_le, reads_le)) below' (sym at ∙ at') in
        omega (arith, mine, yours, ap s.writer same)
    same_holder t u i (p, at, inl (from, below, mine)) (q, at', inr (from', below', yours)) =
        let same =
          one_ticket p q (omega (arith, from, popped_le, reads_le)) below from'
            (omega (arith, below', reads_le, published_le)) (sym at ∙ at') in
        absurd (omega (arith, same, from, below', reads_le))
    same_holder t u i (p, at, inr (from, below, mine)) (q, at', inl (from', below', yours)) =
        let same =
          one_ticket p q from (omega (arith, below, reads_le, published_le))
            (omega (arith, from', popped_le, reads_le)) below' (sym at ∙ at') in
        absurd (omega (arith, same, from', below, reads_le))
    same_holder t u i (p, at, inr (from, below, mine)) (q, at', inr (from', below', yours)) =
        let same =
          one_ticket p q from (omega (arith, below, reads_le, published_le)) from'
            (omega (arith, below', reads_le, published_le)) (sym at ∙ at') in
        omega (arith, mine, yours, ap s.reader same)

module _ (size : ℕ) (some_slots : 0 < size) (small : size < 2 ^ 64) {s : System}
    (reach : Reach size s) (prompt : Prompt size reach) where
  -- However any number of threads interleave, the values of the pops that returned since the last
  -- reset, in the order of their returns, are the first ones that were pushed, in the order in
  -- which the pushes reserved their items, and there are never as many values in the queue, with
  -- those still being written or read, as it has items. The queue has at least one item and fewer
  -- than 2 ^ 64, and between a thread's load of a reserved index and its exchange of it fewer calls
  -- than there are items have reserved one.
  pub atomic_fifo :
      (s.popped ≡ take (length s.popped) s.pushed) × (length s.pushed < length s.popped + size)
  atomic_fifo =
      let v = invariant size some_slots small reach prompt in
      (
        first_ones s.popped s.pushed (omega (arith, v.popped_le, v.reads_le, v.published_le))
            v.in_order,
        v.room,
      )

  -- No two threads access one item, which is not atomic, at the same time: two threads that are
  -- about to write or to read the same item are the same thread. The queue has at least one item
  -- and fewer than 2 ^ 64, and between a thread's load of a reserved index and its exchange of it
  -- fewer calls than there are items have reserved one.
  pub atomic_no_race :
      (t u i : ℕ) → touches (s.threads t) ≡ some i → touches (s.threads u) ≡ some i → t ≡ u
  atomic_no_race t u i a b =
      let v = invariant size some_slots small reach prompt in
      same_holder size s some_slots small v t u i
        (touches-Holds size s t (s.threads t) i a (v.threads_ok t))
        (touches-Holds size s u (s.threads u) i b (v.threads_ok u))
