-- ===== src/Mpmc/Atomic/Alone.antt =====
-- A thread that calls `push` or `pop` of src/benchmarks/MPMC/atomics.hpp while no other is in a
-- call.
use benchmark_fun.Common.{
  Runs, update, update_at, ℕ, suc, ◌+◌, ◌%◌, ◌^◌, ◌≤◌, ◌<◌, ◌≡◌, ◌≢◌, refl, sym, ap, ◌∙◌, List, [],
  ◌∷◌, ◌++◌, length, get_or, if◌then◌else◌, ltb, ltb_pos, ltb_neg, mod_apart, arith,
}
use native.Mathlib.Nat.{add-mod_right}
use native.Mathlib.Decide.{dec_lt}
use benchmark_fun.Mpmc.Atomic.{next_of, Thread, System, moved, Step, Reach}
use benchmark_fun.Mpmc.Atomic.Inv.{next_lem}
use benchmark_fun.Mpmc.Atomic.Reachable.{Prompt, invariant}
use benchmark_fun.Mpmc.Atomic.Only.{Own, busy, push_result, pop_result}
use benchmark_fun.Mpmc.Atomic.Kept.{quiet_lem}

module _ (size : ℕ) (some_slots : 0 < size) (small : size < 2 ^ 64) {s : System}
    (reach : Reach size s) (prompt : Prompt size reach)
    (quiet : (t : ℕ) → s.threads t ≡ Thread.idle) where
  -- What thread `t` alone, at the start of a call, can come to.
  abbrev pub Alone : ℕ → Thread → System → Type 0
  Alone t called = Runs (Own size t) (moved size s t called)

  -- Alone, the thread can get to the end of its call, and however it does, these values are then
  -- pushed and popped.
  abbrev pub Returns : ℕ → Thread → List ℕ → List ℕ → Type 0
  Returns t called pushed popped =
      ((s' : System) × Alone t called s' × (s'.threads t ≡ Thread.idle))
      × ((s' : System)
          → Alone t called s'
          → s'.threads t ≡ Thread.idle
          → (s'.pushed ≡ pushed) × (s'.popped ≡ popped))

  next_idx_lem : next_of size s.reserved_write_idx ≡ suc (length s.pushed) % size
  next_idx_lem =
      let inv = invariant size some_slots small reach prompt in
      ap (next_of size) inv.reserved_write_lem ∙ next_lem size some_slots small (length s.pushed)

  push_through :
      (t val : ℕ)
      → next_of size s.reserved_write_idx ≢ s.read_idx
      → Returns t (Thread.push_starting val) (s.pushed ++ val ∷ []) s.popped
  push_through t val free =
      let inv = invariant size some_slots small reach prompt in
      let all_published = (quiet_lem size some_slots small reach prompt quiet).0 in
      let reserved = s.reserved_write_idx in
      let ticket = length s.pushed in
      let called = update s.threads t (Thread.push_starting val) in
      let loaded = update called t (Thread.push_checking val reserved ticket) in
      let checked = update loaded t (Thread.push_claiming val reserved ticket) in
      let got = update checked t (Thread.writing val reserved ticket) in
      let last = update got t (Thread.publishing reserved ticket) in
      let turn : s.write_idx ≡ reserved =
        inv.write_lem ∙ ap (λ n. n % size) all_published ∙ sym inv.reserved_write_lem in
      let r2 = Runs.step Runs.here (
        busy (update_at s.threads t (Thread.push_starting val)) refl,
        Step.push_load (update_at s.threads t (Thread.push_starting val)),
      ) in
      let r3 = Runs.step r2 (
        busy (update_at called t (Thread.push_checking val reserved ticket)) refl,
        Step.push_room (update_at called t (Thread.push_checking val reserved ticket)) free,
      ) in
      let r4 = Runs.step r3 (
        busy (update_at loaded t (Thread.push_claiming val reserved ticket)) refl,
        Step.push_claim (update_at loaded t (Thread.push_claiming val reserved ticket)) refl,
      ) in
      let r5 = Runs.step r4 (
        busy (update_at checked t (Thread.writing val reserved ticket)) refl,
        Step.write (update_at checked t (Thread.writing val reserved ticket)),
      ) in
      let r6 = Runs.step r5 (
        busy (update_at got t (Thread.publishing reserved ticket)) refl,
        Step.publish (update_at got t (Thread.publishing reserved ticket)) turn,
      ) in
      (
        (_, r6, update_at last t Thread.idle),
        push_result size s t val (s.pushed ++ val ∷ []) (λ _. refl) (λ e. absurd (free e)),
      )

  push_refused :
      (t val : ℕ)
      → next_of size s.reserved_write_idx ≡ s.read_idx
      → Returns t (Thread.push_starting val) s.pushed s.popped
  push_refused t val full =
      let reserved = s.reserved_write_idx in
      let ticket = length s.pushed in
      let called = update s.threads t (Thread.push_starting val) in
      let loaded = update called t (Thread.push_checking val reserved ticket) in
      let r2 = Runs.step Runs.here (
        busy (update_at s.threads t (Thread.push_starting val)) refl,
        Step.push_load (update_at s.threads t (Thread.push_starting val)),
      ) in
      let r3 = Runs.step r2 (
        busy (update_at called t (Thread.push_checking val reserved ticket)) refl,
        Step.push_full (update_at called t (Thread.push_checking val reserved ticket)) full,
      ) in
      (
        (_, r3, update_at loaded t Thread.idle),
        push_result size s t val s.pushed (λ room. absurd (room full)) (λ _. refl),
      )

  pop_through :
      (t : ℕ)
      → length s.popped < length s.pushed
      → Returns t Thread.pop_starting s.pushed
          (s.popped ++ get_or s.pushed (length s.popped) 0 ∷ [])
  pop_through t more =
      let inv = invariant size some_slots small reach prompt in
      let (all_published, all_read) = quiet_lem size some_slots small reach prompt quiet in
      let reserved = s.reserved_read_idx in
      let ticket = s.reads in
      let val = s.items reserved in
      let called = update s.threads t Thread.pop_starting in
      let loaded = update called t (Thread.pop_checking reserved ticket) in
      let checked = update loaded t (Thread.pop_claiming reserved ticket) in
      let got = update checked t (Thread.reading reserved ticket) in
      let last = update got t (Thread.releasing val reserved ticket) in
      let apart =
        mod_apart size s.reads s.published (omega (arith, all_published, all_read, more))
          (omega (arith, all_published, all_read, inv.room)) in
      let some_item : reserved ≢ s.write_idx =
        λ e. apart (sym inv.reserved_read_lem ∙ e ∙ inv.write_lem) in
      let turn : s.read_idx ≡ reserved =
        inv.read_lem ∙ ap (λ n. n % size) (sym all_read) ∙ sym inv.reserved_read_lem in
      let oldest : val ≡ get_or s.pushed (length s.popped) 0 =
        ap s.items (inv.reserved_read_lem ∙ ap (λ n. n % size) all_read)
        ∙ inv.contents (length s.popped) (omega arith) (omega (arith, all_published, more)) in
      let r2 = Runs.step Runs.here (
        busy (update_at s.threads t Thread.pop_starting) refl,
        Step.pop_load (update_at s.threads t Thread.pop_starting),
      ) in
      let r3 = Runs.step r2 (
        busy (update_at called t (Thread.pop_checking reserved ticket)) refl,
        Step.pop_some (update_at called t (Thread.pop_checking reserved ticket)) some_item,
      ) in
      let r4 = Runs.step r3 (
        busy (update_at loaded t (Thread.pop_claiming reserved ticket)) refl,
        Step.pop_claim (update_at loaded t (Thread.pop_claiming reserved ticket)) refl,
      ) in
      let r5 = Runs.step r4 (
        busy (update_at checked t (Thread.reading reserved ticket)) refl,
        Step.read (update_at checked t (Thread.reading reserved ticket)),
      ) in
      let r6 = Runs.step r5 (
        busy (update_at got t (Thread.releasing val reserved ticket)) refl,
        Step.release (update_at got t (Thread.releasing val reserved ticket)) turn,
      ) in
      (
        (_, r6, update_at last t Thread.idle),
        pop_result size s t (s.popped ++ get_or s.pushed (length s.popped) 0 ∷ [])
            (λ _. ap (λ x. s.popped ++ x ∷ []) oldest) (λ e. absurd (some_item e)),
      )

  pop_refused :
      (t : ℕ) → length s.pushed ≤ length s.popped → Returns t Thread.pop_starting s.pushed s.popped
  pop_refused t none_left =
      let inv = invariant size some_slots small reach prompt in
      let (all_published, all_read) = quiet_lem size some_slots small reach prompt quiet in
      let reserved = s.reserved_read_idx in
      let called = update s.threads t Thread.pop_starting in
      let loaded = update called t (Thread.pop_checking reserved s.reads) in
      let same : s.reads ≡ s.published =
        omega (arith, all_published, all_read, none_left, inv.reads_le) in
      let empty : reserved ≡ s.write_idx =
        inv.reserved_read_lem ∙ ap (λ n. n % size) same ∙ sym inv.write_lem in
      let r2 = Runs.step Runs.here (
        busy (update_at s.threads t Thread.pop_starting) refl,
        Step.pop_load (update_at s.threads t Thread.pop_starting),
      ) in
      let r3 = Runs.step r2 (
        busy (update_at called t (Thread.pop_checking reserved s.reads)) refl,
        Step.pop_empty (update_at called t (Thread.pop_checking reserved s.reads)) empty,
      ) in
      (
        (_, r3, update_at loaded t Thread.idle),
        pop_result size s t s.popped (λ more. absurd (more empty)) (λ _. refl),
      )

  -- When no thread is in the middle of a call, a thread that calls `push` or `pop` and runs alone
  -- can get to its end; and whenever it does, failed exchanges included, a push has added its value
  -- if the values in the queue were at least two fewer than its items, and else changed nothing; a
  -- pop has popped the oldest value that was not popped, and if there was none changed nothing. The
  -- queue has at least one item and fewer than 2 ^ 64, and until then no thread stayed behind for a
  -- round of the queue between its load of a reserved index and its exchange of it.
  pub atomic_alone :
      (t val : ℕ)
      → Returns t
          (Thread.push_starting val)
          (if ltb (suc (length s.pushed)) (length s.popped + size)
            then s.pushed ++ val ∷ []
            else s.pushed)
          s.popped
        × Returns t Thread.pop_starting s.pushed (
            if ltb (length s.popped) (length s.pushed)
            then s.popped ++ get_or s.pushed (length s.popped) 0 ∷ []
            else s.popped)
  atomic_alone t val =
      let inv = invariant size some_slots small reach prompt in
      (
        elim (dec_lt (suc (length s.pushed)) (length s.popped + size)) [
          | yes room ↦
              let apart =
                mod_apart size (length s.popped) (suc (length s.pushed))
                  (omega (arith, inv.popped_le, inv.reads_le, inv.published_le)) room in
              rw (ltb_pos room)
                (push_through t val (λ e. apart (sym (sym next_idx_lem ∙ e ∙ inv.read_lem))))
          | no h ↦
              let full : suc (length s.pushed) ≡ length s.popped + size =
                omega (arith, h, inv.room) in
              let le : length s.popped + size ≤ suc (length s.pushed) = omega (arith, full) in
              rw (ltb_neg le) (
                push_refused t val (
                  next_idx_lem
                  ∙ ap (λ n. n % size) full
                  ∙ add-mod_right (length s.popped) size
                  ∙ sym inv.read_lem))
        ],
        elim (dec_lt (length s.popped) (length s.pushed)) [
          | yes more ↦ rw (ltb_pos more) (pop_through t more)
          | no h ↦
              let none_left : length s.pushed ≤ length s.popped = omega (arith, h) in
              rw (ltb_neg none_left) (pop_refused t none_left)
        ],
      )
