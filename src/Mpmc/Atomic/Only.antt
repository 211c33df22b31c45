-- ===== src/Mpmc/Atomic/Only.antt =====
-- What every run of one thread alone through a call of src/benchmarks/MPMC/atomics.hpp comes to,
-- the exchanges that fail for no reason included.
use benchmark_fun.Common.{
  Runs, update_at, ℕ, ◌≤◌, ◌≡◌, ◌≢◌, refl, sym, ap, ap₂, subst, ◌∙◌, Bool, true, false, List, [],
  ◌∷◌, ◌++◌, arith,
}
use benchmark_fun.Mpmc.Atomic.{next_of, Thread, System, moved, Step}

abbrev in_call : Thread → Bool
in_call Thread.idle = false
in_call _ = true

pub busy : {th th' : Thread} → th' ≡ th → in_call th ≡ true → th' ≢ Thread.idle
busy at h e = absurd (cc (sym h ∙ ap in_call (sym at ∙ e)))

-- A step of thread `t` in the middle of its call.
abbrev pub Own : ℕ → ℕ → System → System → Type 0
Own size t u v = (u.threads t ≢ Thread.idle) × Step size u t v

module _ (size : ℕ) (s : System) (t : ℕ) where
  module _ (val : ℕ) (pushed : List ℕ)
      (free : next_of size s.reserved_write_idx ≢ s.read_idx → s.pushed ++ val ∷ [] ≡ pushed)
      (full : next_of size s.reserved_write_idx ≡ s.read_idx → s.pushed ≡ pushed) where
    -- The thread has reserved nothing, and the rest is as at the beginning.
    abbrev Starting : System → ℕ → Type 0
    Starting u v =
        (v ≡ val)
        × (u.reserved_write_idx ≡ s.reserved_write_idx)
        × (u.read_idx ≡ s.read_idx)
        × (u.pushed ≡ s.pushed)
        × (u.popped ≡ s.popped)

    abbrev Ends : System → Type 0
    Ends u = (u.pushed ≡ pushed) × (u.popped ≡ s.popped)

    abbrev Pushing : System → Thread → Type 0
    Pushing u Thread.idle = Ends u
    Pushing u (Thread.push_starting v) = Starting u v
    Pushing u (Thread.push_checking v reserved ticket) =
        Starting u v × (reserved ≡ s.reserved_write_idx)
    Pushing u (Thread.push_claiming v reserved ticket) =
        Starting u v × (s.pushed ++ val ∷ [] ≡ pushed)
    Pushing u (Thread.writing v reserved ticket) = Ends u
    Pushing u (Thread.publishing reserved ticket) = Ends u
    Pushing u _ = 1 ≤ 0

    push_step : {u v : System} → Own size t u v → Pushing u (u.threads t) → Pushing v (v.threads t)
    push_step {u} {v} (busy, one) inv = go one
      where
        old : {th : Thread} → u.threads t ≡ th → Pushing u th
        old at = subst (Pushing u) at inv

        now : (w : System) (th : Thread) → w.threads t ≡ th → Pushing w th → Pushing w (w.threads t)
        now w th at ok = subst (Pushing w) (sym at) ok

        go : {w : System} → Step size u t w → Pushing w (w.threads t)
        go {w} (Step.resets quiet) = absurd (busy (quiet t))
        go {w} (Step.push_call v at) = absurd (busy at)
        go {w} (Step.push_load {val = v} at) =
            let begun = old at in
            now w (Thread.push_checking v u.reserved_write_idx _) (update_at u.threads t _)
              (begun, begun.1)
        go {w} (Step.push_full {val = v} {reserved} {ticket} at test) =
            let (begun, here) = old at in
            now w Thread.idle (update_at u.threads t _)
              (begun.3 ∙ full (ap (next_of size) (sym here) ∙ test ∙ begun.2), begun.4)
        go {w} (Step.push_room {val = v} {reserved} {ticket} at test) =
            let (begun, here) = old at in
            now w (Thread.push_claiming v reserved ticket) (update_at u.threads t _)
              (begun, free (λ e. test (ap (next_of size) here ∙ e ∙ sym begun.2)))
        go {w} (Step.push_claim {val = v} {reserved} {ticket} at here) =
            let (begun, ends) = old at in
            now w (Thread.writing v reserved ticket) (update_at u.threads t _)
              (ap₂ (λ xs x. xs ++ x ∷ []) begun.3 begun.0 ∙ ends, begun.4)
        go {w} (Step.push_retry {val = v} {reserved} {ticket} at) =
            now w (Thread.push_starting v) (update_at u.threads t _) (old at).0
        go {w} (Step.write {val = v} {reserved} {ticket} at) =
            now w (Thread.publishing reserved ticket) (update_at u.threads t _) (old at)
        go {w} (Step.publish at here) = now w Thread.idle (update_at u.threads t _) (old at)
        go {w} (Step.publish_retry {reserved} {ticket} at) =
            now w (Thread.publishing reserved ticket) (update_at u.threads t _) (old at)
        go {w} (Step.pop_call at) = absurd (busy at)
        go {w} (Step.pop_load at) = let no = old at in absurd (omega (arith, no))
        go {w} (Step.pop_empty at _) = let no = old at in absurd (omega (arith, no))
        go {w} (Step.pop_some at _) = let no = old at in absurd (omega (arith, no))
        go {w} (Step.pop_claim at _) = let no = old at in absurd (omega (arith, no))
        go {w} (Step.pop_retry at) = let no = old at in absurd (omega (arith, no))
        go {w} (Step.read at) = let no = old at in absurd (omega (arith, no))
        go {w} (Step.release at _) = let no = old at in absurd (omega (arith, no))
        go {w} (Step.release_retry at) = let no = old at in absurd (omega (arith, no))

    push_only :
        {u : System}
        → Runs (Own size t) (moved size s t (Thread.push_starting val)) u
        → Pushing u (u.threads t)
    push_only Runs.here =
        subst (Pushing (moved size s t (Thread.push_starting val)))
          (sym (update_at s.threads t (Thread.push_starting val))) (refl, refl, refl, refl, refl)
    push_only (Runs.step run one) = push_step one (push_only run)

    -- Every run of a push alone ends with these values.
    pub push_result :
        (u : System)
        → Runs (Own size t) (moved size s t (Thread.push_starting val)) u
        → u.threads t ≡ Thread.idle
        → Ends u
    push_result u run idle = subst (Pushing u) idle (push_only run)

  module _ (popped : List ℕ)
      (some_item : s.reserved_read_idx ≢ s.write_idx
        → s.popped ++ s.items s.reserved_read_idx ∷ [] ≡ popped)
      (empty : s.reserved_read_idx ≡ s.write_idx → s.popped ≡ popped) where
    -- The thread has reserved nothing, and the rest is as at the beginning.
    abbrev StartingPop : System → Type 0
    StartingPop u =
        (u.reserved_read_idx ≡ s.reserved_read_idx)
        × (u.write_idx ≡ s.write_idx)
        × (u.items ≡ s.items)
        × (u.pushed ≡ s.pushed)
        × (u.popped ≡ s.popped)

    abbrev Found : Type 0
    Found = s.popped ++ s.items s.reserved_read_idx ∷ [] ≡ popped

    abbrev Popping : System → Thread → Type 0
    Popping u Thread.idle = (u.pushed ≡ s.pushed) × (u.popped ≡ popped)
    Popping u Thread.pop_starting = StartingPop u
    Popping u (Thread.pop_checking reserved ticket) =
        StartingPop u × (reserved ≡ s.reserved_read_idx)
    Popping u (Thread.pop_claiming reserved ticket) =
        (StartingPop u × (reserved ≡ s.reserved_read_idx)) × Found
    Popping u (Thread.reading reserved ticket) =
        ((reserved ≡ s.reserved_read_idx)
          × (u.items ≡ s.items)
          × (u.pushed ≡ s.pushed)
          × (u.popped ≡ s.popped))
        × Found
    Popping u (Thread.releasing v reserved ticket) =
        ((v ≡ s.items s.reserved_read_idx) × (u.pushed ≡ s.pushed) × (u.popped ≡ s.popped)) × Found
    Popping u _ = 1 ≤ 0

    pop_step : {u v : System} → Own size t u v → Popping u (u.threads t) → Popping v (v.threads t)
    pop_step {u} {v} (busy, one) inv = go one
      where
        old : {th : Thread} → u.threads t ≡ th → Popping u th
        old at = subst (Popping u) at inv

        now : (w : System) (th : Thread) → w.threads t ≡ th → Popping w th → Popping w (w.threads t)
        now w th at ok = subst (Popping w) (sym at) ok

        go : {w : System} → Step size u t w → Popping w (w.threads t)
        go {w} (Step.resets quiet) = absurd (busy (quiet t))
        go {w} (Step.pop_call at) = absurd (busy at)
        go {w} (Step.pop_load at) =
            let begun = old at in
            now w (Thread.pop_checking u.reserved_read_idx u.reads) (update_at u.threads t _)
              (begun, begun.0)
        go {w} (Step.pop_empty {reserved} {ticket} at test) =
            let (begun, here) = old at in
            now w Thread.idle (update_at u.threads t _)
              (begun.3, begun.4 ∙ empty (sym here ∙ test ∙ begun.1))
        go {w} (Step.pop_some {reserved} {ticket} at test) =
            let (begun, here) = old at in
            now w (Thread.pop_claiming reserved ticket) (update_at u.threads t _)
              ((begun, here), some_item (λ e. test (here ∙ e ∙ sym begun.1)))
        go {w} (Step.pop_claim {reserved} {ticket} at _) =
            let ((begun, here), found) = old at in
            now w (Thread.reading reserved ticket) (update_at u.threads t _)
              ((here, begun.2, begun.3, begun.4), found)
        go {w} (Step.pop_retry at) =
            now w Thread.pop_starting (update_at u.threads t _) (old at).0.0
        go {w} (Step.read {reserved} {ticket} at) =
            let (got, found) = old at in
            now w (Thread.releasing (u.items reserved) reserved ticket) (update_at u.threads t _)
              ((ap₂ (λ f i. f i) got.1 got.0, got.2, got.3), found)
        go {w} (Step.release {val = v} at _) =
            let (got, found) = old at in
            now w Thread.idle (update_at u.threads t _)
              (got.1, ap₂ (λ xs x. xs ++ x ∷ []) got.2 got.0 ∙ found)
        go {w} (Step.release_retry {val = v} {reserved} {ticket} at) =
            now w (Thread.releasing v reserved ticket) (update_at u.threads t _) (old at)
        go {w} (Step.push_call v at) = absurd (busy at)
        go {w} (Step.push_load at) = let no = old at in absurd (omega (arith, no))
        go {w} (Step.push_full at _) = let no = old at in absurd (omega (arith, no))
        go {w} (Step.push_room at _) = let no = old at in absurd (omega (arith, no))
        go {w} (Step.push_claim at _) = let no = old at in absurd (omega (arith, no))
        go {w} (Step.push_retry at) = let no = old at in absurd (omega (arith, no))
        go {w} (Step.write at) = let no = old at in absurd (omega (arith, no))
        go {w} (Step.publish at _) = let no = old at in absurd (omega (arith, no))
        go {w} (Step.publish_retry at) = let no = old at in absurd (omega (arith, no))

    pop_only :
        {u : System}
        → Runs (Own size t) (moved size s t Thread.pop_starting) u
        → Popping u (u.threads t)
    pop_only Runs.here =
        subst (Popping (moved size s t Thread.pop_starting))
          (sym (update_at s.threads t Thread.pop_starting)) (refl, refl, refl, refl, refl)
    pop_only (Runs.step run one) = pop_step one (pop_only run)

    -- Every run of a pop alone ends with these values.
    pub pop_result :
        (u : System)
        → Runs (Own size t) (moved size s t Thread.pop_starting) u
        → u.threads t ≡ Thread.idle
        → (u.pushed ≡ s.pushed) × (u.popped ≡ popped)
    pop_result u run idle = subst (Popping u) idle (pop_only run)
