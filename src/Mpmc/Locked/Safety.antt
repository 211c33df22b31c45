-- ===== src/Mpmc/Locked/Safety.antt =====
-- What any number of threads can rely on with the queue of src/benchmarks/MPMC/locked.hpp.
use benchmark_fun.Common.{ℕ, suc, ◌≡◌, ◌≢◌, inl, inr, refl, ap, subst, List, [], ◌∷◌, ◌++◌, arith}
use benchmark_fun.Mpmc.Locked.{drop_front, Thread, System, Step, Reach}
use benchmark_fun.Mpmc.Locked.Inv.{Inside, Ok, Inv, reach-Inv}

lock_owner : (s : System) (t : ℕ) (th : Thread) → Inside th → Ok s t th → s.owner ≡ suc t
lock_owner s t Thread.idle inside ok = absurd (omega (arith, inside))
lock_owner s t (Thread.push_waiting val) inside ok = absurd (omega (arith, inside))
lock_owner s t (Thread.pushing val) inside ok = ok
lock_owner s t Thread.pop_waiting inside ok = absurd (omega (arith, inside))
lock_owner s t Thread.popping inside ok = ok
lock_owner s t Thread.fronting inside ok = ok.0
lock_owner s t (Thread.dropping val) inside ok = ok.0
lock_owner s t Thread.undefined inside ok = absurd (omega (arith, ok))

popping_step :
    (s : System) (t : ℕ)
    → s.threads t ≡ Thread.popping
    → (queue : List ℕ) → s.queue ≡ queue
    → (s' : System) × Step s t s'
popping_step s t at [] e = (_, Step.pop_empty at e)
popping_step s t at (val ∷ rest) e = (_, Step.pop_some at e)

-- Who has the lock can go on.
inside_step :
    (s : System) (t : ℕ) (th : Thread)
    → s.threads t ≡ th
    → Inside th
    → Ok s t th
    → (s' : System) × Step s t s'
inside_step s t Thread.idle at inside ok = absurd (omega (arith, inside))
inside_step s t (Thread.push_waiting val) at inside ok = absurd (omega (arith, inside))
inside_step s t (Thread.pushing val) at inside ok = (_, Step.push at)
inside_step s t Thread.pop_waiting at inside ok = absurd (omega (arith, inside))
inside_step s t Thread.popping at inside ok = popping_step s t at s.queue refl
inside_step s t Thread.fronting at inside ok = (_, Step.pop_front at)
inside_step s t (Thread.dropping val) at inside ok =
    let (mine, (rest, e)) = ok in (_, Step.pop_drop at (ap drop_front e))
inside_step s t Thread.undefined at inside ok = absurd (omega (arith, ok))

-- While the lock is free, a thread in a call can go on.
free_step :
    (s : System) (t : ℕ) (th : Thread)
    → s.owner ≡ 0
    → s.threads t ≡ th
    → th ≢ Thread.idle
    → Ok s t th
    → (s' : System) × Step s t s'
free_step s t Thread.idle free at busy ok = absurd (busy refl)
free_step s t (Thread.push_waiting val) free at busy ok = (_, Step.push_lock at free)
free_step s t (Thread.pushing val) free at busy ok = (_, Step.push at)
free_step s t Thread.pop_waiting free at busy ok = (_, Step.pop_lock at free)
free_step s t Thread.popping free at busy ok = inside_step s t _ at (omega arith) ok
free_step s t Thread.fronting free at busy ok = inside_step s t _ at (omega arith) ok
free_step s t (Thread.dropping val) free at busy ok = inside_step s t _ at (omega arith) ok
free_step s t Thread.undefined free at busy ok = absurd (omega (arith, ok))

-- While a thread is in a call, one that is in a call can go on.
someone_steps :
    (s : System)
    → Inv s
    → (t : ℕ) → s.threads t ≢ Thread.idle
    → (u : ℕ) × (s.threads u ≢ Thread.idle) × ((s' : System) × Step s u s')
someone_steps s inv t busy = elim (inv.owner_ok) [
  | inl free ↦ (t, busy, free_step s t (s.threads t) free refl busy (inv.threads_ok t))
  | inr (u, mine, inside) ↦ (
    u,
    λ e. let idle = subst Inside e inside in omega (arith, idle),
    inside_step s u (s.threads u) refl inside (inv.threads_ok u),
  )
]

-- However any number of threads interleave, the values popped and those still in the queue are the
-- values pushed, in the order in which the pushes ended; at most one thread is between taking the
-- lock and giving it back; no pop has called `front` or `pop` on an empty queue, which the
-- standard leaves undefined; and while a thread is in a call, a thread that is in a call can go on,
-- so there is no deadlock.
pub locked_fifo :
    {s : System}
    → Reach s
    → (s.popped ++ s.queue ≡ s.pushed)
      × ((t u : ℕ) → Inside (s.threads t) → Inside (s.threads u) → t ≡ u)
      × ((t : ℕ) → s.threads t ≢ Thread.undefined)
      × ((t : ℕ)
          → s.threads t ≢ Thread.idle
          → (u : ℕ) × (s.threads u ≢ Thread.idle) × ((s' : System) × Step s u s'))
locked_fifo {s} reach =
    let inv = reach-Inv reach in
    (
      inv.fifo,
      λ t u a b.
          let mine = lock_owner s t (s.threads t) a (inv.threads_ok t) in
          let yours = lock_owner s u (s.threads u) b (inv.threads_ok u) in
          omega (arith, mine, yours),
      λ t e. let bad = subst (λ th. Ok s t th) e (inv.threads_ok t) in omega (arith, bad),
      someone_steps s inv,
    )
