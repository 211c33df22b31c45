-- ===== src/Mpmc/Atomic/Held.antt =====
-- Which thread of src/benchmarks/MPMC/atomics.hpp has got which ticket.
use native.Mathlib.Decide.{ℕ_discrete, dec_lt}
use benchmark_fun.Common.{
  update, update_at, update_off, ℕ, suc, ◌+◌, ◌≤◌, ◌<◌, ◌≡◌, ◌≢◌, refl, sym, ap, subst, ◌∙◌, arith,
  eq_pos, eq_neg,
}
use benchmark_fun.Mpmc.Atomic.{Thread}

-- A thread has got this ticket, and has not let go of it.
abbrev pub Writes : ℕ → Thread → Type 0
Writes p (Thread.writing val reserved ticket) = p ≡ ticket
Writes p (Thread.publishing reserved ticket) = p ≡ ticket
Writes p _ = 1 ≤ 0

abbrev pub Reads : ℕ → Thread → Type 0
Reads p (Thread.reading reserved ticket) = p ≡ ticket
Reads p (Thread.releasing val reserved ticket) = p ≡ ticket
Reads p _ = 1 ≤ 0

-- The thread that `who` names has got the ticket, for each ticket in a range.
abbrev pub Held : (ℕ → Thread → Type 0) → (ℕ → ℕ) → ℕ → ℕ → (ℕ → Thread) → Type 0
Held Holds who first end threads =
    (p : ℕ) → first ≤ p → p < end → (u : ℕ) × (who p ≡ suc u) × Holds p (threads u)

module _ (Holds : ℕ → Thread → Type 0) (who : ℕ → ℕ) (threads : ℕ → Thread) (t : ℕ)
    (th' : Thread) where
  held_at :
      (p u : ℕ)
      → (t ≡ u → Holds p th')
      → (t ≢ u → Holds p (threads u))
      → Holds p (update threads t th' u)
  held_at p u mine others = elim (ℕ_discrete t u) [
    | yes same ↦ rw (eq_pos same) (mine same)
    | no other ↦ rw (eq_neg other) (others other)
  ]

  -- The thread holds what it held.
  pub moved-Held :
      (first end : ℕ)
      → ((p : ℕ) → Holds p (threads t) → Holds p th')
      → Held Holds who first end threads
      → Held Holds who first end (update threads t th')
  moved-Held first end keeps old p from below =
      let (u, named, holds) = old p from below in
      (
        u,
        named,
        held_at p u (λ same. keeps p (subst (λ v. Holds p (threads v)) (sym same) holds))
            (λ _. holds),
      )

  -- The thread gets the next ticket, and held none.
  pub claimed-Held :
      (first end : ℕ)
      → Holds end th'
      → ((p : ℕ) → Holds p (threads t) → 1 ≤ 0)
      → Held Holds who first end threads
      → Held Holds (update who end (t + 1)) first (suc end) (update threads t th')
  claimed-Held first end mine none_before old p from below = elim (dec_lt p end) [
    | yes before ↦
        let (u, named, holds) = old p from before in
        let other : end ≢ p = λ e. absurd (omega (arith, e, before)) in
        (
          u,
          update_off who end p (t + 1) other ∙ named,
          held_at p u
              (λ same.
                let bad = none_before p (subst (λ v. Holds p (threads v)) (sym same) holds) in
                absurd (omega (arith, bad)))
              (λ _. holds),
        )
    | no h ↦
        let here : end ≡ p = omega (arith, h, below) in
        let named : update who end (t + 1) p ≡ suc t =
          ap (update who end (t + 1)) (sym here) ∙ update_at who end (t + 1) ∙ omega arith in
        (t, named, held_at p t (λ _. subst (λ q. Holds q th') here mine) (λ d. absurd (d refl)))
  ]

  -- The thread lets go of the first ticket.
  pub released-Held :
      (first end : ℕ)
      → ((p : ℕ) → Holds p (threads t) → p ≡ first)
      → Held Holds who first end threads
      → Held Holds who (suc first) end (update threads t th')
  released-Held first end only old p from below =
      let (u, named, holds) = old p (omega (arith, from)) below in
      (
        u,
        named,
        held_at p u
            (λ same.
              let it = only p (subst (λ v. Holds p (threads v)) (sym same) holds) in
              absurd (omega (arith, it, from)))
            (λ _. holds),
      )
