-- ===== src/Mpmc/Locked/Inv.antt =====
-- The invariant of the queue of src/benchmarks/MPMC/locked.hpp.
use benchmark_fun.Common.{
  ℕ, suc, ◌≤◌, ◌<◌, ◌≡◌, ◌≢◌, ◌⊎◌, inl, inr, refl, sym, ap, subst, ◌∙◌, List, [], ◌∷◌, ◌++◌, length,
  some, update, update_at, update_off, arith,
}
use mathlib.Core.Option.{some-injective}
use mathlib.Core.List.{append_assoc}
use native.Mathlib.Decide.{ℕ_discrete}
use benchmark_fun.Mpmc.Locked.{front, drop_front, Thread, System, Step, Reach}

-- Whether a thread is between taking the lock and giving it back.
abbrev pub Inside : Thread → Type 0
Inside Thread.idle = 1 ≤ 0
Inside (Thread.push_waiting val) = 1 ≤ 0
Inside Thread.pop_waiting = 1 ≤ 0
Inside _ = 0 ≤ 0

abbrev pub Ok : System → ℕ → Thread → Type 0
Ok s t Thread.idle = 0 ≤ 0
Ok s t (Thread.push_waiting val) = 0 ≤ 0
Ok s t (Thread.pushing val) = s.owner ≡ suc t
Ok s t Thread.pop_waiting = 0 ≤ 0
Ok s t Thread.popping = s.owner ≡ suc t
Ok s t Thread.fronting = (s.owner ≡ suc t) × (0 < length s.queue)
Ok s t (Thread.dropping val) = (s.owner ≡ suc t) × ((rest : List ℕ) × (s.queue ≡ val ∷ rest))
Ok s t Thread.undefined = 1 ≤ 0

-- The lock is free, or its owner is inside.
abbrev pub Held : ℕ → (ℕ → Thread) → Type 0
Held owner threads = (owner ≡ 0) ⊎ ((u : ℕ) × (owner ≡ suc u) × Inside (threads u))

pub record Inv (s : System) : Type 0 where
  pub fifo : s.popped ++ s.queue ≡ s.pushed
  pub threads_ok : (t : ℕ) → Ok s t (s.threads t)
  pub owner_ok : Held s.owner s.threads

-- What a thread without the lock knows does not depend on the queue.
outside-Ok : (s s' : System) (u : ℕ) (th : Thread) → s.owner ≢ suc u → Ok s u th → Ok s' u th
outside-Ok s s' u Thread.idle out ok = ok
outside-Ok s s' u (Thread.push_waiting val) out ok = ok
outside-Ok s s' u (Thread.pushing val) out ok = absurd (out ok)
outside-Ok s s' u Thread.pop_waiting out ok = ok
outside-Ok s s' u Thread.popping out ok = absurd (out ok)
outside-Ok s s' u Thread.fronting out ok = absurd (out ok.0)
outside-Ok s s' u (Thread.dropping val) out ok = absurd (out ok.0)
outside-Ok s s' u Thread.undefined out ok = ok

moved-Ok :
    (s : System) (threads : ℕ → Thread) (u : ℕ) (th : Thread)
    → Ok s u th
    → Ok (record s { threads = threads }) u th
moved-Ok s threads u Thread.idle ok = ok
moved-Ok s threads u (Thread.push_waiting val) ok = ok
moved-Ok s threads u (Thread.pushing val) ok = ok
moved-Ok s threads u Thread.pop_waiting ok = ok
moved-Ok s threads u Thread.popping ok = ok
moved-Ok s threads u Thread.fronting ok = ok
moved-Ok s threads u (Thread.dropping val) ok = ok
moved-Ok s threads u Thread.undefined ok = ok

all-Ok :
    (s s' : System) (t : ℕ) (th : Thread)
    → s'.threads ≡ update s.threads t th
    → Ok s' t th
    → ((u : ℕ) (other : Thread) → t ≢ u → Ok s u other → Ok s' u other)
    → ((u : ℕ) → Ok s u (s.threads u))
    → (u : ℕ) → Ok s' u (s'.threads u)
all-Ok s s' t th e mine others ok u = elim (ℕ_discrete t u) [
  | yes same ↦
      subst (λ v. Ok s' v (s'.threads v)) same
        (subst (λ x. Ok s' t x) (sym (ap (λ f. f t) e ∙ update_at s.threads t th)) mine)
  | no other ↦
      subst (λ x. Ok s' u x) (sym (ap (λ f. f u) e ∙ update_off s.threads t u th other))
        (others u (s.threads u) other (ok u))
]

-- Who is inside stays there when another thread moves, or when it moves on inside.
moved-Held :
    (owner : ℕ) (threads : ℕ → Thread) (t : ℕ) (th : Thread)
    → (Inside (threads t) → Inside th)
    → Held owner threads
    → Held owner (update threads t th)
moved-Held owner threads t th stays (inl free) = inl free
moved-Held owner threads t th stays (inr (u, mine, inside)) = elim (ℕ_discrete t u) [
  | yes same ↦ inr (
    u,
    mine,
    subst (λ v. Inside (update threads t th v)) same
        (subst Inside (sym (update_at threads t th))
          (stays (subst (λ v. Inside (threads v)) (sym same) inside))),
  )
  | no other ↦ inr (u, mine, subst Inside (sym (update_off threads t u th other)) inside)
]

front-Inside : (queue : List ℕ) → Inside (front queue)
front-Inside [] = omega arith
front-Inside (val ∷ rest) = omega arith

got-Held :
    (threads : ℕ → Thread) (t : ℕ) (th : Thread) → Inside th → Held (suc t) (update threads t th)
got-Held threads t th inside = inr (t, refl, subst Inside (sym (update_at threads t th)) inside)

module _ (s : System) (t : ℕ) (inv : Inv s) where
  open inv use {fifo, threads_ok, owner_ok}

  -- A thread that is not inside may move anywhere.
  from_outside :
      (th th' : Thread) → s.threads t ≡ th → (Inside th → 1 ≤ 0) → Inside (s.threads t) → Inside th'
  from_outside th th' at out inside =
      let bad = out (subst Inside at inside) in absurd (omega (arith, bad))

  at-Ok : (th : Thread) → s.threads t ≡ th → Ok s t th
  at-Ok th at = subst (λ x. Ok s t x) at (threads_ok t)

  moved-Inv :
      (th : Thread)
      → (Inside (s.threads t) → Inside th)
      → Ok s t th
      → Inv (record s { threads = update s.threads t th })
  moved-Inv th stays ok =
      let threads = update s.threads t th in
      record {
        fifo = fifo;
        threads_ok =
            all-Ok s (record s { threads = threads }) t th refl (moved-Ok s threads t th ok)
              (λ u other d o. moved-Ok s threads u other o) threads_ok;
        owner_ok = moved-Held s.owner s.threads t th stays owner_ok;
      }

  -- A step that takes the lock or has it.
  locked-Inv :
      (s' : System) (th : Thread)
      → s'.threads ≡ update s.threads t th
      → ((u : ℕ) → t ≢ u → s.owner ≢ suc u)
      → Ok s' t th
      → s'.popped ++ s'.queue ≡ s'.pushed
      → Held s'.owner s'.threads
      → Inv s'
  locked-Inv s' th e alone ok kept held = record {
    fifo = kept;
    threads_ok =
        all-Ok s s' t th e ok (λ u other d o. outside-Ok s s' u other (alone u d) o) threads_ok;
    owner_ok = held;
  }

  free_lem : s.owner ≡ 0 → (u : ℕ) → t ≢ u → s.owner ≢ suc u
  free_lem free u d e = omega (arith, free, e)

  owned_lem : s.owner ≡ suc t → (u : ℕ) → t ≢ u → s.owner ≢ suc u
  owned_lem mine u d e = d (omega (arith, mine, e))

  front-Ok : (queue : List ℕ) → s.queue ≡ queue → Ok s t Thread.fronting → Ok s t (front queue)
  front-Ok [] e ok = let none_left = ap length e in omega (arith, ok.1, none_left)
  front-Ok (val ∷ rest) e ok = (ok.0, (rest, e))

  dropped :
      (val : ℕ) (rest : List ℕ)
      → Ok s t (Thread.dropping val)
      → drop_front s.queue ≡ some rest
      → (s.popped ++ val ∷ []) ++ rest ≡ s.pushed
  dropped val rest (mine, (rest', e)) gone =
      let same : rest' ≡ rest = some-injective _ _ (sym (ap drop_front e) ∙ gone) in
      append_assoc s.popped (val ∷ []) rest
      ∙ ap (λ xs. s.popped ++ val ∷ xs) (sym same)
      ∙ ap (λ xs. s.popped ++ xs) (sym e)
      ∙ fifo

  step-Inv : {s' : System} → Step s t s' → Inv s'
  step-Inv (Step.push_call val at) =
      moved-Inv (Thread.push_waiting val)
        (from_outside Thread.idle (Thread.push_waiting val) at (λ h. h)) (omega arith)
  step-Inv (Step.push_lock {val} at free) =
      locked-Inv _ (Thread.pushing val) refl (free_lem free) refl fifo
        (got-Held s.threads t (Thread.pushing val) (omega arith))
  step-Inv (Step.push {val} at) =
      locked-Inv _ Thread.idle refl (owned_lem (at-Ok (Thread.pushing val) at)) (omega arith)
        (sym (append_assoc s.popped s.queue (val ∷ [])) ∙ ap (λ xs. xs ++ val ∷ []) fifo) (inl refl)
  step-Inv (Step.pop_call at) =
      moved-Inv Thread.pop_waiting (from_outside Thread.idle Thread.pop_waiting at (λ h. h))
        (omega arith)
  step-Inv (Step.pop_lock at free) =
      locked-Inv _ Thread.popping refl (free_lem free) refl fifo
        (got-Held s.threads t Thread.popping (omega arith))
  step-Inv (Step.pop_empty at none_left) =
      locked-Inv _ Thread.idle refl (owned_lem (at-Ok Thread.popping at)) (omega arith) fifo
        (inl refl)
  step-Inv (Step.pop_some {val} {rest} at e) =
      let more = ap length e in
      moved-Inv Thread.fronting (λ _. omega arith) (at-Ok Thread.popping at, omega (arith, more))
  step-Inv (Step.pop_front at) =
      moved-Inv (front s.queue) (λ _. front-Inside s.queue)
        (front-Ok s.queue refl (at-Ok Thread.fronting at))
  step-Inv (Step.pop_drop {val} {rest} at gone) =
      let ok = at-Ok (Thread.dropping val) at in
      locked-Inv _ Thread.idle refl (owned_lem ok.0) (omega arith) (dropped val rest ok gone)
        (inl refl)
  step-Inv (Step.pop_drop_empty {val} at gone) =
      let (mine, (rest, e)) = at-Ok (Thread.dropping val) at in
      absurd (cc (sym (ap drop_front e) ∙ gone))

pub reach-Inv : {s : System} → Reach s → Inv s
reach-Inv Reach.here = record { fifo = refl; threads_ok = λ u. omega arith; owner_ok = inl refl }
reach-Inv (Reach.step {s} t reach one) = step-Inv s t (reach-Inv reach) one
