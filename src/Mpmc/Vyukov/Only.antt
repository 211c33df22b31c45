-- ===== src/Mpmc/Vyukov/Only.antt =====
-- What every run of one thread alone through a call of src/benchmarks/MPMC/vyukov.hpp comes to, the
-- exchanges that fail for no reason included.
use benchmark_fun.Common.{
  Runs, update_at, ℕ, ◌+◌, ◌%◌, ◌^◌, ◌≤◌, ◌≡◌, ◌≢◌, refl, sym, ap, ap₂, subst, ◌∙◌, Bool, true,
  false, List, [], ◌∷◌, ◌++◌, arith,
}
use benchmark_fun.Mpmc.Vyukov.{slot_of, diff, Thread, System, moved, Step}

abbrev in_call : Thread → Bool
in_call Thread.idle = false
in_call _ = true

pub busy : {th th' : Thread} → th' ≡ th → in_call th ≡ true → th' ≢ Thread.idle
busy at h e = absurd (cc (sym h ∙ ap in_call (sym at ∙ e)))

-- A step of thread `t` in the middle of its call.
abbrev pub Own : ℕ → ℕ → System → System → Type 0
Own size t u v = (u.threads t ≢ Thread.idle) × Step size u t v

module _ (size : ℕ) (s : System) (t : ℕ) where
  module _ (val : ℕ) (pushed : List ℕ)
      (free : diff (s.sequence (slot_of size s.write_idx)) s.write_idx ≡ 0
        → s.pushed ++ val ∷ [] ≡ pushed)
      (full : 2 ^ 63 ≤ diff (s.sequence (slot_of size s.write_idx)) s.write_idx
        → s.pushed ≡ pushed) where
    -- The thread has loaded `write_idx`, and the rest is as at the beginning.
    abbrev Loaded : System → ℕ → ℕ → Type 0
    Loaded u v pos =
        (v ≡ val)
        × (pos ≡ s.write_idx)
        × (u.sequence ≡ s.sequence)
        × (u.write_idx ≡ s.write_idx)
        × (u.pushed ≡ s.pushed)
        × (u.popped ≡ s.popped)

    abbrev Ends : System → Type 0
    Ends u = (u.pushed ≡ pushed) × (u.popped ≡ s.popped)

    abbrev Pushing : System → Thread → Type 0
    Pushing u Thread.idle = Ends u
    Pushing u (Thread.push_loading v pos) = Loaded u v pos
    Pushing u (Thread.push_claiming v pos) = Loaded u v pos × (s.pushed ++ val ∷ [] ≡ pushed)
    Pushing u (Thread.writing v pos) = Ends u
    Pushing u (Thread.publishing pos) = Ends u
    Pushing u _ = 1 ≤ 0

    same_diff :
        (u : System) (v pos : ℕ)
        → Loaded u v pos
        → diff (u.sequence (slot_of size pos)) pos
          ≡ diff (s.sequence (slot_of size s.write_idx)) s.write_idx
    same_diff u v pos loaded = ap₂ (λ f p. diff (f (slot_of size p)) p) loaded.2 loaded.1

    reload :
        (u : System) (v pos : ℕ)
        → Loaded u v pos
        → Loaded (moved size u t (Thread.push_loading v u.write_idx)) v u.write_idx
    reload u v pos (same, _, seq, idx, pushes, pops) = (same, idx, seq, idx, pushes, pops)

    push_step : {u v : System} → Own size t u v → Pushing u (u.threads t) → Pushing v (v.threads t)
    push_step {u} {v} (busy, one) inv = go one
      where
        old : {th : Thread} → u.threads t ≡ th → Pushing u th
        old at = subst (Pushing u) at inv

        now : (w : System) (th : Thread) → w.threads t ≡ th → Pushing w th → Pushing w (w.threads t)
        now w th at ok = subst (Pushing w) (sym at) ok

        go : {w : System} → Step size u t w → Pushing w (w.threads t)
        go {w} (Step.push_load_write_idx v at) = absurd (busy at)
        go {w} (Step.push_free {val = v} {pos} at test) =
            let loaded = old at in
            now w (Thread.push_claiming v pos) (update_at u.threads t _)
              (loaded, free (sym (same_diff u v pos loaded) ∙ test))
        go {w} (Step.push_full {val = v} {pos} at test) =
            let loaded = old at in
            let same = same_diff u v pos loaded in
            now w Thread.idle (update_at u.threads t _)
              (loaded.4 ∙ full (omega (arith, test, same)), loaded.5)
        go {w} (Step.push_behind {val = v} {pos} at _ _) =
            now w (Thread.push_loading v u.write_idx) (update_at u.threads t _)
              (reload u v pos (old at))
        go {w} (Step.push_claim {val = v} {pos} at here) =
            let (loaded, ends) = old at in
            now w (Thread.writing v pos) (update_at u.threads t _)
              (ap₂ (λ xs x. xs ++ x ∷ []) loaded.4 loaded.0 ∙ ends, loaded.5)
        go {w} (Step.push_retry {val = v} {pos} at) =
            now w (Thread.push_loading v u.write_idx) (update_at u.threads t _)
              (reload u v pos (old at).0)
        go {w} (Step.write {val = v} {pos} at) =
            now w (Thread.publishing pos) (update_at u.threads t _) (old at)
        go {w} (Step.publish {pos} at) = now w Thread.idle (update_at u.threads t _) (old at)
        go {w} (Step.pop_load_read_idx at) = absurd (busy at)
        go {w} (Step.pop_written at _) = let no = old at in absurd (omega (arith, no))
        go {w} (Step.pop_empty at _) = let no = old at in absurd (omega (arith, no))
        go {w} (Step.pop_behind at _ _) = let no = old at in absurd (omega (arith, no))
        go {w} (Step.pop_claim at _) = let no = old at in absurd (omega (arith, no))
        go {w} (Step.pop_retry at) = let no = old at in absurd (omega (arith, no))
        go {w} (Step.read at) = let no = old at in absurd (omega (arith, no))
        go {w} (Step.release at) = let no = old at in absurd (omega (arith, no))

    push_only :
        {u : System}
        → Runs (Own size t) (moved size s t (Thread.push_loading val s.write_idx)) u
        → Pushing u (u.threads t)
    push_only Runs.here =
        subst (Pushing (moved size s t (Thread.push_loading val s.write_idx)))
          (sym (update_at s.threads t (Thread.push_loading val s.write_idx)))
          (refl, refl, refl, refl, refl, refl)
    push_only (Runs.step run one) = push_step one (push_only run)

    -- Every run of a push alone ends with these values.
    pub push_result :
        (u : System)
        → Runs (Own size t) (moved size s t (Thread.push_loading val s.write_idx)) u
        → u.threads t ≡ Thread.idle
        → Ends u
    push_result u run idle = subst (Pushing u) idle (push_only run)

  module _ (popped : List (ℕ × ℕ))
      (written : diff (s.sequence (slot_of size s.read_idx)) ((s.read_idx + 1) % 2 ^ 64) ≡ 0
        → (s.read_idx, s.value (slot_of size s.read_idx)) ∷ s.popped ≡ popped)
      (empty : 2 ^ 63 ≤ diff (s.sequence (slot_of size s.read_idx)) ((s.read_idx + 1) % 2 ^ 64)
        → s.popped ≡ popped) where
    -- The thread has loaded `read_idx`, and the rest is as at the beginning.
    abbrev LoadedPop : System → ℕ → Type 0
    LoadedPop u pos =
        (pos ≡ s.read_idx)
        × (u.sequence ≡ s.sequence)
        × (u.value ≡ s.value)
        × (u.read_idx ≡ s.read_idx)
        × (u.pushed ≡ s.pushed)
        × (u.popped ≡ s.popped)

    abbrev Found : Type 0
    Found = (s.read_idx, s.value (slot_of size s.read_idx)) ∷ s.popped ≡ popped

    abbrev Popping : System → Thread → Type 0
    Popping u Thread.idle = (u.pushed ≡ s.pushed) × (u.popped ≡ popped)
    Popping u (Thread.pop_loading pos) = LoadedPop u pos
    Popping u (Thread.pop_claiming pos) = LoadedPop u pos × Found
    Popping u (Thread.reading pos) =
        ((pos ≡ s.read_idx) × (u.value ≡ s.value) × (u.pushed ≡ s.pushed) × (u.popped ≡ s.popped))
        × Found
    Popping u (Thread.releasing pos val) =
        ((pos ≡ s.read_idx)
          × (val ≡ s.value (slot_of size s.read_idx))
          × (u.pushed ≡ s.pushed)
          × (u.popped ≡ s.popped))
        × Found
    Popping u _ = 1 ≤ 0

    same_pop_diff :
        (u : System) (pos : ℕ)
        → LoadedPop u pos
        → diff (u.sequence (slot_of size pos)) ((pos + 1) % 2 ^ 64)
          ≡ diff (s.sequence (slot_of size s.read_idx)) ((s.read_idx + 1) % 2 ^ 64)
    same_pop_diff u pos loaded =
        ap₂ (λ f p. diff (f (slot_of size p)) ((p + 1) % 2 ^ 64)) loaded.1 loaded.0

    reload_pop :
        (u : System) (pos : ℕ)
        → LoadedPop u pos
        → LoadedPop (moved size u t (Thread.pop_loading u.read_idx)) u.read_idx
    reload_pop u pos (_, seq, vals, idx, pushes, pops) = (idx, seq, vals, idx, pushes, pops)

    pop_step : {u v : System} → Own size t u v → Popping u (u.threads t) → Popping v (v.threads t)
    pop_step {u} {v} (busy, one) inv = go one
      where
        old : {th : Thread} → u.threads t ≡ th → Popping u th
        old at = subst (Popping u) at inv

        now : (w : System) (th : Thread) → w.threads t ≡ th → Popping w th → Popping w (w.threads t)
        now w th at ok = subst (Popping w) (sym at) ok

        go : {w : System} → Step size u t w → Popping w (w.threads t)
        go {w} (Step.pop_load_read_idx at) = absurd (busy at)
        go {w} (Step.pop_written {pos} at test) =
            let loaded = old at in
            now w (Thread.pop_claiming pos) (update_at u.threads t _)
              (loaded, written (sym (same_pop_diff u pos loaded) ∙ test))
        go {w} (Step.pop_empty {pos} at test) =
            let loaded = old at in
            let same = same_pop_diff u pos loaded in
            now w Thread.idle (update_at u.threads t _)
              (loaded.4, loaded.5 ∙ empty (omega (arith, test, same)))
        go {w} (Step.pop_behind {pos} at _ _) =
            now w (Thread.pop_loading u.read_idx) (update_at u.threads t _)
              (reload_pop u pos (old at))
        go {w} (Step.pop_claim {pos} at here) =
            let (loaded, found) = old at in
            now w (Thread.reading pos) (update_at u.threads t _)
              ((loaded.0, loaded.2, loaded.4, loaded.5), found)
        go {w} (Step.pop_retry {pos} at) =
            now w (Thread.pop_loading u.read_idx) (update_at u.threads t _)
              (reload_pop u pos (old at).0)
        go {w} (Step.read {pos} at) =
            let (got, found) = old at in
            now w (Thread.releasing pos (u.value (slot_of size pos))) (update_at u.threads t _)
              ((got.0, ap₂ (λ f p. f (slot_of size p)) got.1 got.0, got.2, got.3), found)
        go {w} (Step.release {pos} {val} at) =
            let (got, found) = old at in
            now w Thread.idle (update_at u.threads t _) (
              got.2,
              ap (λ xs. (pos, val) ∷ xs) got.3 ∙ ap₂ (λ p x. (p, x) ∷ s.popped) got.0 got.1 ∙ found,
            )
        go {w} (Step.push_load_write_idx v at) = absurd (busy at)
        go {w} (Step.push_free at _) = let no = old at in absurd (omega (arith, no))
        go {w} (Step.push_full at _) = let no = old at in absurd (omega (arith, no))
        go {w} (Step.push_behind at _ _) = let no = old at in absurd (omega (arith, no))
        go {w} (Step.push_claim at _) = let no = old at in absurd (omega (arith, no))
        go {w} (Step.push_retry at) = let no = old at in absurd (omega (arith, no))
        go {w} (Step.write at) = let no = old at in absurd (omega (arith, no))
        go {w} (Step.publish at) = let no = old at in absurd (omega (arith, no))

    pop_only :
        {u : System}
        → Runs (Own size t) (moved size s t (Thread.pop_loading s.read_idx)) u
        → Popping u (u.threads t)
    pop_only Runs.here =
        subst (Popping (moved size s t (Thread.pop_loading s.read_idx)))
          (sym (update_at s.threads t (Thread.pop_loading s.read_idx)))
          (refl, refl, refl, refl, refl, refl)
    pop_only (Runs.step run one) = pop_step one (pop_only run)

    -- Every run of a pop alone ends with these values.
    pub pop_result :
        (u : System)
        → Runs (Own size t) (moved size s t (Thread.pop_loading s.read_idx)) u
        → u.threads t ≡ Thread.idle
        → (u.pushed ≡ s.pushed) × (u.popped ≡ popped)
    pop_result u run idle = subst (Popping u) idle (pop_only run)
