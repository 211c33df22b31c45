-- ===== src/Mpmc/Vyukov/Quiet.antt =====
-- What is in the queue of src/benchmarks/MPMC/vyukov.hpp when no thread is in the middle of a call.
use benchmark_fun.Common.{
  Runs, update, update_at, ℕ, zero, suc, ◌+◌, ◌%◌, ◌^◌, ◌≤◌, ◌<◌, ◌≡◌, refl, sym, ap, subst, ◌∙◌,
  ◌⊎◌, inl, inr, List, [], ◌∷◌, length, arith, some, get_elem?, get_elem?-eq-get_or, get_or,
}
use mathlib.Core.Option.{some-injective}
use benchmark_fun.Mpmc.Vyukov.{slot_of, diff, Thread, System, moved, Step, Reach}
use benchmark_fun.Common.{pow_pos, slot_next, slot_round}
use benchmark_fun.Mpmc.Vyukov.Lossless.{Kept, reach-Kept}
use benchmark_fun.Mpmc.Vyukov.Safety.{first_Inv, invariant, delivered}
use benchmark_fun.Mpmc.Vyukov.Only.{Own, busy}
use benchmark_fun.Mpmc.Vyukov.Held.{Reads, Writes, nobody_or_one}

pub le_or_lt : (a b : ℕ) → (a ≤ b) ⊎ (b < a)
le_or_lt a b = ground arith

get_elem?-lt : {x : ℕ} (xs : List ℕ) (i : ℕ) → get_elem? xs i ≡ some x → i < length xs
get_elem?-lt [] i at = cc at
get_elem?-lt (y ∷ xs) zero at = omega arith
get_elem?-lt (y ∷ xs) (suc i) at = omega (arith, get_elem?-lt xs i at)

module _ (k : ℕ) {s : System} (reach : Reach (2 ^ suc k) s)
    (room : length s.pushed + 2 ^ suc k ≤ 2 ^ 63) where
  pub kept : Kept (2 ^ suc k) s
  kept =
      reach-Kept (2 ^ suc k) (slot_next k) (slot_round (suc k)) (pow_pos (suc k))
        (first_Inv k (omega (arith, room))) reach room

  pub no_reader : ((t : ℕ) → s.threads t ≡ Thread.idle) → (p : ℕ) → s.reader p ≡ 0
  no_reader quiet p = elim (nobody_or_one (s.reader p)) [
    | inl nobody ↦ nobody
    | inr (u, e) ↦
        let held = subst (Reads p) (quiet u) (kept.readers p u e) in absurd (omega (arith, held))
  ]

  pub no_writer : ((t : ℕ) → s.threads t ≡ Thread.idle) → (p : ℕ) → s.writer p ≡ 0
  no_writer quiet p = elim (nobody_or_one (s.writer p)) [
    | inl nobody ↦ nobody
    | inr (u, e) ↦
        let held = subst (Writes p) (quiet u) (kept.writers p u e) in absurd (omega (arith, held))
  ]

  -- When no thread is in the middle of a call, every value that was pushed has either been returned
  -- by a pop, of its position, or waits in its slot, marked as written, at or above `read_idx`:
  -- none is lost or overwritten. The queue has two slots or more, and the values pushed and the
  -- slots are at most 2 ^ 63 together.
  pub vyukov_keeps_all :
      ((t : ℕ) → s.threads t ≡ Thread.idle)
      → (pos val : ℕ) → get_elem? s.pushed pos ≡ some val
      → ((i : ℕ) × (get_elem? s.popped i ≡ some (pos, val)))
        ⊎ ((s.read_idx ≤ pos)
            × (s.sequence (slot_of (2 ^ suc k) pos) ≡ suc pos)
            × (s.value (slot_of (2 ^ suc k) pos) ≡ val))
  vyukov_keeps_all quiet pos val at =
      let v = invariant k reach room in
      let below = get_elem?-lt s.pushed pos at in
      elim (le_or_lt s.read_idx pos) [
        | inl le ↦
            let written =
              kept.all_written pos le (omega (arith, below, v.count)) (no_writer quiet pos) in
            let there = get_elem?-eq-get_or s.pushed pos 0 below in
            inr (le, written, (v.contents pos written).1 ∙ some-injective _ _ (sym there ∙ at))
        | inr lt ↦
            let old = kept.all_popped pos lt (no_reader quiet pos) in
            let same =
              delivered (2 ^ suc k) s s.popped (omega (arith, v.count, v.read_le)) v.popped_ok old.0
                pos old.1 old.2 in
            inl (old.0, old.2 ∙ ap (λ x. some (pos, x)) (some-injective _ _ (sym same ∙ at)))
      ]

  -- What thread `t` alone, in the middle of a call, can come to.
  abbrev pub Alone : ℕ → Thread → System → Type 0
  Alone t called = Runs (Own (2 ^ suc k) t) (moved (2 ^ suc k) s t called)

  -- Alone, a thread can get to the end of its call.
  abbrev pub Arrives : ℕ → Thread → Type 0
  Arrives t called = (s' : System) × Alone t called s' × (s'.threads t ≡ Thread.idle)

  -- Alone, a thread can get to the end of its call, and however it does, these values are then
  -- pushed and popped.
  abbrev pub Returns : ℕ → Thread → List ℕ → List (ℕ × ℕ) → Type 0
  Returns t called pushed popped =
      Arrives t called
      × ((s' : System)
          → Alone t called s'
          → s'.threads t ≡ Thread.idle
          → (s'.pushed ≡ pushed) × (s'.popped ≡ popped))

  -- When more was pushed than popped, the oldest value waits in its slot.
  pub oldest :
      ((t : ℕ) → s.threads t ≡ Thread.idle)
      → s.read_idx < length s.pushed
      → (diff (s.sequence (slot_of (2 ^ suc k) s.read_idx)) ((s.read_idx + 1) % 2 ^ 64) ≡ 0)
        × (s.value (slot_of (2 ^ suc k) s.read_idx) ≡ get_or s.pushed s.read_idx 0)
  oldest quiet below =
      let v = invariant k reach room in
      let pos = s.read_idx in
      let written =
        kept.all_written pos (omega arith) (omega (arith, below, v.count)) (no_writer quiet pos) in
      (omega (arith, written, below, room), (v.contents pos written).1)

  -- Alone, a thread gets through a pop when more was pushed than popped.
  pub pop_through :
      ((t : ℕ) → s.threads t ≡ Thread.idle)
      → (t : ℕ) → s.read_idx < length s.pushed
      → Arrives t (Thread.pop_loading s.read_idx)
  pop_through quiet t below =
      let pos = s.read_idx in
      let ready = (oldest quiet below).0 in
      let loaded = update s.threads t (Thread.pop_loading pos) in
      let checked = update loaded t (Thread.pop_claiming pos) in
      let got = update checked t (Thread.reading pos) in
      let value = s.value (slot_of (2 ^ suc k) pos) in
      let last = update got t (Thread.releasing pos value) in
      let r2 = Runs.step Runs.here (
        busy (update_at s.threads t (Thread.pop_loading pos)) refl,
        Step.pop_written (update_at s.threads t (Thread.pop_loading pos)) ready,
      ) in
      let r3 = Runs.step r2 (
        busy (update_at loaded t (Thread.pop_claiming pos)) refl,
        Step.pop_claim (update_at loaded t (Thread.pop_claiming pos)) refl,
      ) in
      let r4 = Runs.step r3 (
        busy (update_at checked t (Thread.reading pos)) refl,
        Step.read (update_at checked t (Thread.reading pos)),
      ) in
      let r5 = Runs.step r4 (
        busy (update_at got t (Thread.releasing pos value)) refl,
        Step.release (update_at got t (Thread.releasing pos value)),
      ) in
      (_, r5, update_at last t Thread.idle)
