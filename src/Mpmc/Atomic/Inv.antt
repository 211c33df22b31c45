-- ===== src/Mpmc/Atomic/Inv.antt =====
-- What holds between any two accesses of the threads of src/benchmarks/MPMC/atomics.hpp.
use native.Mathlib.Decide.{ℕ_discrete, dec_lt}
use native.Mathlib.Nat.{mod-add-mod, mod-eq_of_lt, mod-lt}
use benchmark_fun.Common.{
  update, update_at, update_off, ℕ, suc, ◌+◌, ◌%◌, ◌^◌, ◌≤◌, ◌<◌, ◌≡◌, ◌≢◌, refl, sym, ap, subst,
  ◌∙◌, length, get_or, arith, mod_apart,
}
use benchmark_fun.Mpmc.Atomic.{next_of, Thread, System}

-- Tickets less than a round apart with one index are one ticket.
pub same_ticket : (size a b : ℕ) → a ≤ b → b < a + size → a % size ≡ b % size → a ≡ b
same_ticket size a b le near e = elim (dec_lt a b) [
  | yes less ↦ absurd (mod_apart size a b less near e)
  | no h ↦ omega (arith, h, le)
]

module _ (size : ℕ) (some_slots : 0 < size) (small : size < 2 ^ 64) where
  pub next_lem : (a : ℕ) → next_of size (a % size) ≡ suc a % size
  next_lem a =
      let below = mod-lt a some_slots in
      let word : (a % size + 1) % 2 ^ 64 ≡ a % size + 1 =
        mod-eq_of_lt (omega (arith, below, small)) in
      ap (λ x. x % size) word ∙ mod-add-mod a size 1 ∙ ap (λ x. x % size) (omega arith)

module _ (size : ℕ) where
  -- What a thread knows of its ticket.
  abbrev pub Ok : System → ℕ → Thread → Type 0
  Ok s t Thread.idle = 0 ≤ 0
  Ok s t (Thread.push_starting val) = 0 ≤ 0
  Ok s t (Thread.push_checking val reserved ticket) =
      (reserved ≡ ticket % size) × (ticket ≤ length s.pushed)
  Ok s t (Thread.push_claiming val reserved ticket) =
      (reserved ≡ ticket % size)
      × (ticket ≤ length s.pushed)
      × (length s.pushed ≡ ticket → suc ticket < length s.popped + size)
  Ok s t (Thread.writing val reserved ticket) =
      (reserved ≡ ticket % size)
      × (s.published ≤ ticket)
      × (ticket < length s.pushed)
      × (s.writer ticket ≡ suc t)
      × (get_or s.pushed ticket 0 ≡ val)
  Ok s t (Thread.publishing reserved ticket) =
      (reserved ≡ ticket % size)
      × (s.published ≤ ticket)
      × (ticket < length s.pushed)
      × (s.writer ticket ≡ suc t)
      × (s.items reserved ≡ get_or s.pushed ticket 0)
  Ok s t Thread.pop_starting = 0 ≤ 0
  Ok s t (Thread.pop_checking reserved ticket) = (reserved ≡ ticket % size) × (ticket ≤ s.reads)
  Ok s t (Thread.pop_claiming reserved ticket) =
      (reserved ≡ ticket % size) × (ticket ≤ s.reads) × (s.reads ≡ ticket → ticket < s.published)
  Ok s t (Thread.reading reserved ticket) =
      (reserved ≡ ticket % size)
      × (length s.popped ≤ ticket)
      × (ticket < s.reads)
      × (s.reader ticket ≡ suc t)
  Ok s t (Thread.releasing val reserved ticket) =
      (reserved ≡ ticket % size)
      × (length s.popped ≤ ticket)
      × (ticket < s.reads)
      × (s.reader ticket ≡ suc t)
      × (get_or s.pushed ticket 0 ≡ val)

  pub record Inv (s : System) : Type 0 where
    pub popped_le : length s.popped ≤ s.reads
    pub reads_le : s.reads ≤ s.published
    pub published_le : s.published ≤ length s.pushed
    pub room : length s.pushed < length s.popped + size
    pub read_lem : s.read_idx ≡ length s.popped % size
    pub reserved_read_lem : s.reserved_read_idx ≡ s.reads % size
    pub write_lem : s.write_idx ≡ s.published % size
    pub reserved_write_lem : s.reserved_write_idx ≡ length s.pushed % size
    pub contents :
        (p : ℕ) → length s.popped ≤ p → p < s.published → s.items (p % size) ≡ get_or s.pushed p 0
    pub in_order : (p : ℕ) → p < length s.popped → get_or s.popped p 0 ≡ get_or s.pushed p 0
    pub threads_ok : (t : ℕ) → Ok s t (s.threads t)

  -- Every thread is fine after a step of `t`, if `t` is and the others stay so.
  pub all-Ok :
      (s s' : System) (t : ℕ) (th : Thread)
      → s'.threads ≡ update s.threads t th
      → Ok s' t th
      → ((u : ℕ) (other : Thread) → t ≢ u → Ok s u other → Ok s' u other)
      → ((u : ℕ) → Ok s u (s.threads u))
      → (u : ℕ) → Ok s' u (s'.threads u)
  all-Ok s s' t th e mine others ok u = elim (ℕ_discrete t u) [
    | yes same ↦
        subst (λ v. Ok s' v (s'.threads v)) same
          (subst (λ x. Ok s' t x) (sym (ap (λ f. f t) e ∙ update_at s.threads t th)) mine)
    | no other ↦
        subst (λ x. Ok s' u x) (sym (ap (λ f. f u) e ∙ update_off s.threads t u th other))
          (others u (s.threads u) other (ok u))
  ]

  -- A step that only moves its thread.
  module _ (s : System) (t : ℕ) (inv : Inv s) where
    moved-Ok :
        (threads : ℕ → Thread) (u : ℕ) (other : Thread)
        → Ok s u other
        → Ok (record s { threads = threads }) u other
    moved-Ok threads u Thread.idle ok = ok
    moved-Ok threads u (Thread.push_starting val) ok = ok
    moved-Ok threads u (Thread.push_checking val reserved ticket) ok = ok
    moved-Ok threads u (Thread.push_claiming val reserved ticket) ok = ok
    moved-Ok threads u (Thread.writing val reserved ticket) ok = ok
    moved-Ok threads u (Thread.publishing reserved ticket) ok = ok
    moved-Ok threads u Thread.pop_starting ok = ok
    moved-Ok threads u (Thread.pop_checking reserved ticket) ok = ok
    moved-Ok threads u (Thread.pop_claiming reserved ticket) ok = ok
    moved-Ok threads u (Thread.reading reserved ticket) ok = ok
    moved-Ok threads u (Thread.releasing val reserved ticket) ok = ok

    pub moved-Inv : (th : Thread) → Ok s t th → Inv (record s { threads = update s.threads t th })
    moved-Inv th ok =
        let threads = update s.threads t th in
        let s' = record s { threads = threads } in
        record {
          popped_le = inv.popped_le;
          reads_le = inv.reads_le;
          published_le = inv.published_le;
          room = inv.room;
          read_lem = inv.read_lem;
          reserved_read_lem = inv.reserved_read_lem;
          write_lem = inv.write_lem;
          reserved_write_lem = inv.reserved_write_lem;
          contents = inv.contents;
          in_order = inv.in_order;
          threads_ok =
              all-Ok s s' t th refl (moved-Ok threads t th ok)
                (λ u other _ o. moved-Ok threads u other o) inv.threads_ok;
        }
