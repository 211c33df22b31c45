-- ===== src/Ring/SlotTests.antt =====
-- Runs of src/benchmarks/ring_buffers/slot.hpp, where its read index is about to wrap around.
use benchmark_fun.Common.{
  ℕ, zero, suc, ◌-◌, ◌^◌, ◌≤◌, ◌<◌, ◌≡◌, refl, true, false, some, [], ◌∷◌, length, arith,
}
use benchmark_fun.Ring.Slot
use benchmark_fun.Ring.Slot.{SlotRingBuffer, slot_on, push, pop, contents, room, IsValid}
use benchmark_fun.Ring.Slot.Fresh.{slot_ring, slot_init_lem}
use benchmark_fun.Ring.Tester.{
  Tester, popper, pusher, run_benchmark, starting, count_up, popped_in_order,
}

-- 8, at the last index before the wrap-around, in two slots
abbrev wrapping : SlotRingBuffer
wrapping = record {
  mask = 1;
  slots = record { written = false; value = 3 } ∷ record { written = true; value = 8 } ∷ [];
  read_idx = 2 ^ 64 - 1;
  write_idx = 0;
}

marks : (i : ℕ) → i < 1 → (slot_on wrapping i).written ≡ true
marks zero h = refl
marks (suc i) h = absurd (omega (arith, h))

no_marks : (i : ℕ) → 1 ≤ i → i < 2 → (slot_on wrapping i).written ≡ false
no_marks zero le lt = absurd (omega (arith, le))
no_marks (suc zero) le lt = refl
no_marks (suc (suc i)) le lt = absurd (omega (arith, lt))

wrapping-IsValid : IsValid wrapping
wrapping-IsValid = record {
  bits = 1;
  few_bits = omega arith;
  size = refl;
  masked = refl;
  read_word = omega arith;
  write_word = omega arith;
  used_le = omega arith;
  marked = marks;
  unmarked = no_marks;
}

run_in_order :
    (t : Tester SlotRingBuffer) × (run_benchmark slot_ring 2
        (pusher ∷ popper ∷ popper ∷ pusher ∷ [])
        (starting slot_ring 2 (Slot.init 2))
      ≡ some t)
    × (t.popped ≡ count_up (length t.popped))
run_in_order =
    popped_in_order slot_ring 2 (omega arith) (pusher ∷ popper ∷ popper ∷ pusher ∷ []) (Slot.init 2)
      (slot_init_lem 1 (omega arith)).0 (slot_init_lem 1 (omega arith)).1
