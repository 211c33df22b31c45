-- ===== src/Ring/Slot/Fresh.antt =====
-- New and reset rings of src/benchmarks/ring_buffers/slot.hpp, and its ring as the queue that the
-- tester takes.
use Prim.Native.Nat.{bit_and}
use benchmark_fun.Common.{
  ℕ, zero, suc, ◌+◌, ◌-◌, ◌%◌, ◌^◌, ◌<◌, ◌≡◌, refl, ap, ◌∙◌, false, some, List, [], ◌∷◌, length,
  get_or, replicate, arith, length-replicate, pow_pos,
}
use benchmark_fun.Ring.Api.{RingApi}
use benchmark_fun.Ring.Slot.{
  Slot, SlotRingBuffer, new_slot, unwrite, init, reset, push, pop, contents, room, IsValid,
}
use benchmark_fun.Ring.Slot.Laws.{room_le}
use benchmark_fun.Ring.Slot.Push.{slot_push_refines}
use benchmark_fun.Ring.Slot.Pop.{slot_pop_refines}

abbrev Unwritten : List Slot → Type 0
Unwritten slots = (i : ℕ) → (get_or slots i new_slot).written ≡ false

new-Unwritten : (n : ℕ) → Unwritten (replicate n new_slot)
new-Unwritten zero i = refl
new-Unwritten (suc n) zero = refl
new-Unwritten (suc n) (suc i) = new-Unwritten n i

cons-Unwritten :
    (slot : Slot) (slots : List Slot)
    → Unwritten slots
    → Unwritten (record slot { written = false } ∷ slots)
cons-Unwritten slot slots off zero = refl
cons-Unwritten slot slots off (suc i) = off i

unwrite_all :
    (slots : List Slot)
    → (rest : List Slot) × (unwrite (length slots) slots ≡ some rest)
      × (length rest ≡ length slots)
      × Unwritten rest
unwrite_all [] = ([], refl, refl, λ i. refl)
unwrite_all (slot ∷ slots) =
    let (rest, e, same, off) = unwrite_all slots in
    (record slot { written = false } ∷ rest, rw e refl, ap suc same, cons-Unwritten slot rest off)

-- Indexes at 0 over slots that are not written.
module _ (bits : ℕ) (few : bits < 64) (slots : List Slot) (sized : length slots ≡ 2 ^ bits)
    (off : Unwritten slots) where
  abbrev fresh : ℕ → SlotRingBuffer
  fresh mask = record { mask = mask; slots = slots; read_idx = 0; write_idx = 0 }

  fresh-IsValid : (mask : ℕ) → mask ≡ 2 ^ bits - 1 → IsValid (fresh mask)
  fresh-IsValid mask e = record {
    bits = bits;
    few_bits = few;
    size = sized;
    masked = e;
    read_word = omega arith;
    write_word = omega arith;
    used_le = omega arith;
    marked = λ i h. absurd (omega (arith, h));
    unmarked = λ i _ _. off (bit_and (0 + i) mask);
  }

-- A new ring whose capacity is a power of two is valid and empty, and has room for the whole
-- capacity.
pub slot_init_lem :
    (bits : ℕ)
    → bits < 64
    → IsValid (init (2 ^ bits))
      × (contents (init (2 ^ bits)) ≡ [])
      × (room (init (2 ^ bits)) ≡ 2 ^ bits)
unfolding init
slot_init_lem bits few =
    let sized = length-replicate (2 ^ bits) new_slot in
    (fresh-IsValid bits few _ sized (new-Unwritten (2 ^ bits)) (2 ^ bits - 1) refl, refl, sized)

pub slot_reset_refines :
    (q : SlotRingBuffer)
    → IsValid q
    → (q' : SlotRingBuffer) × (reset q ≡ some q')
      × (contents q' ≡ [])
      × (room q' ≡ room q)
      × IsValid q'
unfolding reset
slot_reset_refines q v =
    let (rest, e, same, off) = unwrite_all q.slots in
    let le = room_le q v in
    let all_slots : (q.mask + 1) % 2 ^ 64 ≡ length q.slots =
      omega (arith, v.masked, v.size, le, pow_pos v.bits) in
    (
      record q { slots = rest; read_idx = 0; write_idx = 0 },
      rw (all_slots, e) refl,
      refl,
      same,
      fresh-IsValid v.bits v.few_bits rest (same ∙ v.size) off q.mask v.masked,
    )

abbrev pub slot_ring : RingApi
slot_ring = record {
  State = SlotRingBuffer;
  push = push;
  pop = pop;
  reset = reset;
  IsValid = IsValid;
  room = room;
  contents = contents;
  push_refines = λ q val v. slot_push_refines q v val;
  pop_refines = slot_pop_refines;
  reset_refines = slot_reset_refines;
}
