-- ===== src/Mpmc/Vyukov/Held.antt =====
-- Which thread of src/benchmarks/MPMC/vyukov.hpp has got which position.
use native.Mathlib.Decide.{ℕ_discrete}
use benchmark_fun.Common.{
  update, update_at, update_off, ℕ, zero, inl, inr, ◌⊎◌, refl, suc, ◌+◌, ◌≤◌, ◌≡◌, ◌≢◌, sym, ap,
  subst, ◌∙◌, arith, eq_pos, eq_neg,
}
use benchmark_fun.Mpmc.Vyukov.{Thread}

-- A thread has got this position, and has not let go of it.
abbrev pub Writes : ℕ → Thread → Type 0
Writes p (Thread.writing val pos) = p ≡ pos
Writes p (Thread.publishing pos) = p ≡ pos
Writes p _ = 1 ≤ 0

abbrev pub Reads : ℕ → Thread → Type 0
Reads p (Thread.reading pos) = p ≡ pos
Reads p (Thread.releasing pos val) = p ≡ pos
Reads p _ = 1 ≤ 0

pub nobody_or_one : (n : ℕ) → (n ≡ 0) ⊎ ((u : ℕ) × (n ≡ suc u))
nobody_or_one zero = inl refl
nobody_or_one (suc u) = inr (u, refl)

-- If `who p` names a thread, it holds `p`.
abbrev pub Held : (ℕ → Thread → Type 0) → (ℕ → ℕ) → (ℕ → Thread) → Type 0
Held Holds who threads = (p u : ℕ) → who p ≡ suc u → Holds p (threads u)

module _ (Holds : ℕ → Thread → Type 0) (who : ℕ → ℕ) (threads : ℕ → Thread) (t : ℕ)
    (th' : Thread) where
  held_at :
      (p u : ℕ)
      → (t ≡ u → Holds p th')
      → (t ≢ u → Holds p (threads u))
      → Holds p (update threads t th' u)
  held_at p u mine others = elim (ℕ_discrete t u) [
    | yes same ↦ rw (eq_pos same) (mine same)
    | no other ↦ rw (eq_neg other) (others other)
  ]

  -- The thread holds what it held.
  pub moved-Held :
      ((p : ℕ) → Holds p (threads t) → Holds p th')
      → Held Holds who threads
      → Held Holds who (update threads t th')
  moved-Held keeps old p u e =
      held_at p u (λ same. keeps p (old p t (e ∙ ap suc (sym same)))) (λ _. old p u e)

  -- The thread gets a position, and held none.
  pub claimed-Held :
      (pos : ℕ)
      → Holds pos th'
      → ((p : ℕ) → Holds p (threads t) → 1 ≤ 0)
      → Held Holds who threads
      → Held Holds (update who pos (t + 1)) (update threads t th')
  claimed-Held pos mine none_before old p u e = elim (ℕ_discrete pos p) [
    | yes same ↦
        let now : t + 1 ≡ suc u =
          sym (update_at who pos (t + 1)) ∙ ap (update who pos (t + 1)) same ∙ e in
        held_at p u (λ _. subst (λ q. Holds q th') same mine)
          (λ other. absurd (other (omega (arith, now))))
    | no other ↦
        let before = sym (update_off who pos p (t + 1) other) ∙ e in
        held_at p u
          (λ same. absurd (omega (arith, none_before p (old p t (before ∙ ap suc (sym same))))))
          (λ _. old p u before)
  ]

  -- The thread lets go of its position.
  pub released-Held :
      (pos : ℕ)
      → ((p : ℕ) → Holds p (threads t) → p ≡ pos)
      → Held Holds who threads
      → Held Holds (update who pos 0) (update threads t th')
  released-Held pos only old p u e = elim (ℕ_discrete pos p) [
    | yes same ↦ absurd (omega (arith, sym (update_at who pos 0) ∙ ap (update who pos 0) same ∙ e))
    | no other ↦
        let before = sym (update_off who pos p 0 other) ∙ e in
        held_at p u (λ same. absurd (other (sym (only p (old p t (before ∙ ap suc (sym same)))))))
          (λ _. old p u before)
  ]
