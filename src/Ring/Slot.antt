-- ===== src/Ring/Slot.antt =====
-- src/benchmarks/ring_buffers/slot.hpp, one call at a time. Its indexes are words that go on and
-- on, and the mask takes them round the array `data`, here `slots`; the `data` of a slot is here
-- its `value`.
pub mod Laws
pub mod Push
pub mod Pop
pub mod Fresh
use Prim.Native.Nat.{bit_and}
use benchmark_fun.Common.{
  ℕ, ◌+◌, ◌-◌, ◌%◌, ◌^◌, ◌≤◌, ◌<◌, ◌≡◌, Bool, true, false, Option, none, some, List, [], ◌∷◌, map,
  length, get_elem?, get_or, write, replicate, if◌then◌else◌, ◌>>=◌, zero, suc,
}

pub record Slot : Type 0 where
  pub written : Bool
  pub value : ℕ

pub record SlotRingBuffer : Type 0 where
  pub mask : ℕ
  pub slots : List Slot
  pub read_idx : ℕ
  pub write_idx : ℕ

abbrev pub new_slot : Slot
new_slot = record { written = false; value = 0 }

-- The capacity is at least 1 and below 2 ^ 64.
unfoldable pub init : ℕ → SlotRingBuffer
init capacity = record {
  mask = capacity - 1;
  slots = replicate capacity new_slot;
  read_idx = 0;
  write_idx = 0;
}

-- the first `n` of the slots, which the loop of `reset` visits
abbrev pub unwrite : ℕ → List Slot → Option (List Slot)
unwrite zero slots = some slots
unwrite (suc n) [] = none
unwrite (suc n) (slot ∷ slots) = do
  rest ← unwrite n slots
  some (record slot { written = false } ∷ rest)

unfoldable pub reset : SlotRingBuffer → Option SlotRingBuffer
reset q = do
  slots ← unwrite ((q.mask + 1) % 2 ^ 64) q.slots
  some (record q { slots = slots; read_idx = 0; write_idx = 0 })

unfoldable pub push : SlotRingBuffer → ℕ → Option (Bool × SlotRingBuffer)
push q val = do
  slot ← get_elem? q.slots (bit_and q.write_idx q.mask)
  if slot.written then some (false, q) else (do
    slots ← write q.slots (bit_and q.write_idx q.mask) (record { written = true; value = val })
    some (true, record q { slots = slots; write_idx = (q.write_idx + 1) % 2 ^ 64 }))

unfoldable pub pop : SlotRingBuffer → Option (Option ℕ × SlotRingBuffer)
pop q = do
  slot ← get_elem? q.slots (bit_and q.read_idx q.mask)
  if slot.written
      then (do
        slots ← write q.slots (bit_and q.read_idx q.mask) (record slot { written = false })
        some (some slot.value, record q { slots = slots; read_idx = (q.read_idx + 1) % 2 ^ 64 }))
      else some (none, q)

-- The slot that is `i` places on from the next to be read.
abbrev pub slot_on : SlotRingBuffer → ℕ → Slot
slot_on q i = get_or q.slots (bit_and (q.read_idx + i) q.mask) new_slot

abbrev pub used : SlotRingBuffer → ℕ
used q = (q.write_idx + 2 ^ 64 - q.read_idx) % 2 ^ 64

abbrev pub first : ℕ → (ℕ → ℕ) → List ℕ
first zero f = []
first (suc n) f = f 0 ∷ first n (λ i. f (suc i))

abbrev pub contents : SlotRingBuffer → List ℕ
contents q = first (used q) (λ i. (slot_on q i).value)

abbrev pub room : SlotRingBuffer → ℕ
room q = length q.slots

-- `written` marks the slots from `read_idx` to `write_idx`, and no other.
pub record IsValid (q : SlotRingBuffer) : Type 0 where
  pub bits : ℕ
  pub few_bits : bits < 64
  pub size : length q.slots ≡ 2 ^ bits
  pub masked : q.mask ≡ 2 ^ bits - 1
  pub read_word : q.read_idx < 2 ^ 64
  pub write_word : q.write_idx < 2 ^ 64
  pub used_le : used q ≤ length q.slots
  pub marked : (i : ℕ) → i < used q → (slot_on q i).written ≡ true
  pub unmarked : (i : ℕ) → used q ≤ i → i < length q.slots → (slot_on q i).written ≡ false
