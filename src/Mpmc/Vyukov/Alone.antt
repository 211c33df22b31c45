-- ===== src/Mpmc/Vyukov/Alone.antt =====
-- A thread that calls `push` or `pop` of src/benchmarks/MPMC/vyukov.hpp while no other is in a
-- call.
use benchmark_fun.Common.{
  Runs, update, update_at, ℕ, suc, ◌+◌, ◌%◌, ◌^◌, ◌≤◌, ◌<◌, ◌≡◌, refl, ap, ◌∙◌, [], ◌∷◌, ◌++◌,
  length, get_or, arith, ltb, ltb_pos, ltb_neg, inl, inr, if◌then◌else◌, pow_pos, slot_next,
  slot_round, slot_own,
}
use benchmark_fun.Mpmc.Vyukov.{slot_of, diff, Thread, System, Step, Reach}
use benchmark_fun.Mpmc.Vyukov.Free.{Room, reach-Room, more_slots}
use benchmark_fun.Mpmc.Vyukov.Safety.{first_Inv, invariant}
use benchmark_fun.Mpmc.Vyukov.Only.{busy, push_result, pop_result}
use benchmark_fun.Mpmc.Vyukov.Quiet.{
  kept, no_reader, no_writer, le_or_lt, Returns, Arrives, oldest, pop_through,
}

module _ (k : ℕ) {s : System} (reach : Reach (2 ^ suc k) s)
    (room : length s.pushed + 2 ^ suc k ≤ 2 ^ 63) where
  free : Room (2 ^ suc k) s
  free =
      reach-Room (2 ^ suc k) (slot_next k) (slot_round (suc k)) (pow_pos (suc k))
        (first_Inv k (omega (arith, room))) (slot_own (suc k)) reach room

  -- What a push or a pop finds at a slot: nothing, an item of the round before, and nothing yet.
  free_slot :
      s.sequence (slot_of (2 ^ suc k) s.write_idx) ≡ s.write_idx
      → diff (s.sequence (slot_of (2 ^ suc k) s.write_idx)) s.write_idx ≡ 0
  free_slot unused = let v = invariant k reach room in omega (arith, unused, v.count, room)

  full_slot :
      s.sequence (slot_of (2 ^ suc k) s.write_idx) + 2 ^ suc k ≡ suc s.write_idx
      → 2 ^ 63 ≤ diff (s.sequence (slot_of (2 ^ suc k) s.write_idx)) s.write_idx
  full_slot taken =
      let v = invariant k reach room in
      let more = more_slots (2 ^ suc k) (slot_next k) (slot_round (suc k)) (pow_pos (suc k)) in
      omega (arith, taken, more, v.count, room)

  empty_slot :
      s.sequence (slot_of (2 ^ suc k) s.read_idx) ≡ s.read_idx
      → s.read_idx ≤ length s.pushed
      → 2 ^ 63 ≤ diff (s.sequence (slot_of (2 ^ suc k) s.read_idx)) ((s.read_idx + 1) % 2 ^ 64)
  empty_slot unused le = omega (arith, unused, le, room)

  module _ (t val : ℕ) where
    abbrev pos : ℕ
    pos = s.write_idx

    -- Alone, a thread gets through a push whose slot is free.
    push_through :
        s.sequence (slot_of (2 ^ suc k) pos) ≡ pos
        → Arrives k reach room t (Thread.push_loading val s.write_idx)
    push_through unused =
        let ready = free_slot unused in
        let loaded = update s.threads t (Thread.push_loading val pos) in
        let checked = update loaded t (Thread.push_claiming val pos) in
        let got = update checked t (Thread.writing val pos) in
        let last = update got t (Thread.publishing pos) in
        let r2 = Runs.step Runs.here (
          busy (update_at s.threads t (Thread.push_loading val pos)) refl,
          Step.push_free (update_at s.threads t (Thread.push_loading val pos)) ready,
        ) in
        let r3 = Runs.step r2 (
          busy (update_at loaded t (Thread.push_claiming val pos)) refl,
          Step.push_claim (update_at loaded t (Thread.push_claiming val pos)) refl,
        ) in
        let r4 = Runs.step r3 (
          busy (update_at checked t (Thread.writing val pos)) refl,
          Step.write (update_at checked t (Thread.writing val pos)),
        ) in
        let r5 = Runs.step r4 (
          busy (update_at got t (Thread.publishing pos)) refl,
          Step.publish (update_at got t (Thread.publishing pos)),
        ) in
        (_, r5, update_at last t Thread.idle)

    -- Alone, a thread gets out of a push whose slot was written and not read.
    push_refused :
        s.sequence (slot_of (2 ^ suc k) pos) + 2 ^ suc k ≡ suc pos
        → Arrives k reach room t (Thread.push_loading val s.write_idx)
    push_refused taken =
        let behind = full_slot taken in
        let loaded = update s.threads t (Thread.push_loading val pos) in
        let r2 = Runs.step Runs.here (
          busy (update_at s.threads t (Thread.push_loading val pos)) refl,
          Step.push_full (update_at s.threads t (Thread.push_loading val pos)) behind,
        ) in
        (_, r2, update_at loaded t Thread.idle)

  -- Alone, a thread gets out of a pop whose slot is free.
  pop_refused :
      (t : ℕ)
      → s.sequence (slot_of (2 ^ suc k) s.read_idx) ≡ s.read_idx
      → s.read_idx ≤ length s.pushed
      → Arrives k reach room t (Thread.pop_loading s.read_idx)
  pop_refused t unused le =
      let pos = s.read_idx in
      let behind = empty_slot unused le in
      let loaded = update s.threads t (Thread.pop_loading pos) in
      let r2 = Runs.step Runs.here (
        busy (update_at s.threads t (Thread.pop_loading pos)) refl,
        Step.pop_empty (update_at s.threads t (Thread.pop_loading pos)) behind,
      ) in
      (_, r2, update_at loaded t Thread.idle)

  -- When no thread is in the middle of a call, there are no more values in the queue than it has
  -- slots, and a thread that calls `push` and runs alone can get from its load of `write_idx` to
  -- its end; and whenever it does, failed exchanges included, its value is added if there were
  -- fewer, and else nothing has changed. The queue has two slots or more, and the values pushed and
  -- the slots are at most 2 ^ 63 together.
  pub vyukov_push_alone :
      ((t : ℕ) → s.threads t ≡ Thread.idle)
      → (t val : ℕ)
      → (s.write_idx ≤ s.read_idx + 2 ^ suc k)
        × Returns k reach room t
            (Thread.push_loading val s.write_idx)
            (if ltb s.write_idx (s.read_idx + 2 ^ suc k) then s.pushed ++ val ∷ [] else s.pushed)
            s.popped
  vyukov_push_alone quiet t val = (
    free.bound,
    elim (le_or_lt (s.read_idx + 2 ^ suc k) s.write_idx) [
      | inr less ↦
          let unused =
            free.all_free s.write_idx (omega arith) less (λ q _. no_reader k reach room quiet q) in
          let ready = free_slot unused in
          rw (ltb_pos less) (
            push_through t val unused,
            push_result (2 ^ suc k) s t val (s.pushed ++ val ∷ []) (λ _. refl)
                (λ h. absurd (omega (arith, h, ready))),
          )
      | inl full ↦
          let here : s.write_idx ≡ s.read_idx + 2 ^ suc k = omega (arith, full, free.bound) in
          let some_items : s.read_idx < s.write_idx = omega (arith, full, pow_pos (suc k)) in
          let written =
            (kept k reach room).all_written s.read_idx (omega arith) some_items
              (no_writer k reach room quiet s.read_idx) in
          let same : s.sequence (slot_of (2 ^ suc k) s.write_idx) ≡ suc s.read_idx =
            ap (λ x. s.sequence (slot_of (2 ^ suc k) x)) here
            ∙ ap s.sequence (slot_round (suc k) s.read_idx)
            ∙ written in
          let behind = full_slot (omega (arith, same, here)) in
          rw (ltb_neg full) (
            push_refused t val (omega (arith, same, here)),
            push_result (2 ^ suc k) s t val s.pushed (λ h. absurd (omega (arith, h, behind)))
                (λ _. refl),
          )
    ],
  )

  -- When no thread is in the middle of a call, a thread that calls `pop` and runs alone can get
  -- from its load of `read_idx` to its end; and whenever it does, failed exchanges included, it has
  -- popped the value of the oldest position that was not popped, if more was pushed than popped,
  -- and else nothing has changed. The queue has two slots or more, and the values pushed and the
  -- slots are at most 2 ^ 63 together.
  pub vyukov_pop_alone :
      ((t : ℕ) → s.threads t ≡ Thread.idle)
      → (t : ℕ)
      → Returns k reach room t (Thread.pop_loading s.read_idx) s.pushed (
          if ltb s.read_idx (length s.pushed)
          then (s.read_idx, get_or s.pushed s.read_idx 0) ∷ s.popped
          else s.popped)
  vyukov_pop_alone quiet t =
      let v = invariant k reach room in
      elim (le_or_lt (length s.pushed) s.read_idx) [
        | inr more ↦
            let (ready, stored) = oldest k reach room quiet more in
            let found = ap (λ x. (s.read_idx, x) ∷ s.popped) stored in
            let popped = (s.read_idx, get_or s.pushed s.read_idx 0) ∷ s.popped in
            rw (ltb_pos more) (
              pop_through k reach room quiet t more,
              pop_result (2 ^ suc k) s t popped (λ _. found)
                  (λ h. absurd (omega (arith, h, ready))),
            )
        | inl none_left ↦
            let unused =
              free.all_free s.read_idx (omega (arith, none_left, v.count))
                (omega (arith, pow_pos (suc k))) (λ q _. no_reader k reach room quiet q) in
            let behind = empty_slot unused (omega (arith, v.count, v.read_le)) in
            rw (ltb_neg none_left) (
              pop_refused t unused (omega (arith, v.count, v.read_le)),
              pop_result (2 ^ suc k) s t s.popped (λ h. absurd (omega (arith, h, behind)))
                  (λ _. refl),
            )
      ]
