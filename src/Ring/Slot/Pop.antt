-- ===== src/Ring/Slot/Pop.antt =====
-- `pop` of src/benchmarks/ring_buffers/slot.hpp is that of a queue.
use Prim.Native.Nat.{bit_and}
use native.Mathlib.Decide.{dec_lt}
use benchmark_fun.Common.{
  ℕ, suc, ◌+◌, ◌%◌, ◌^◌, ◌≤◌, ◌<◌, ◌≡◌, ◌≢◌, refl, sym, ap, ◌∙◌, false, none, some, [], ◌∷◌, ◌==◌,
  length, get_elem?, get_or, set, eq_pos, eq_neg, if◌then◌else◌, arith, get_or-set, length-set,
}
use benchmark_fun.Ring.Queue
use benchmark_fun.Ring.Slot.{
  Slot, SlotRingBuffer, new_slot, pop, slot_on, used, first, contents, room, IsValid,
}
use benchmark_fun.Ring.Slot.Laws.{
  first_same, room_pos, room_le, index_in, index_apart, index_round, read_index, next_index, found,
  stored,
}

module _ (q : SlotRingBuffer) (v : IsValid q) where
  abbrev emptied : Slot
  emptied = record (slot_on q 0) { written = false }

  abbrev popped : SlotRingBuffer
  popped = record q {
    slots = set q.slots (bit_and q.read_idx q.mask) emptied;
    read_idx = (q.read_idx + 1) % 2 ^ 64;
  }

  -- What the code finds at the read index.
  tested : get_elem? q.slots (bit_and q.read_idx q.mask) ≡ some (slot_on q 0)
  tested = found q v q.read_idx ∙ ap (λ i. some (get_or q.slots i new_slot)) (read_index q v)

  module _ (some_used : 0 < used q) where
    used-popped : suc (used popped) ≡ used q
    used-popped = omega (arith, some_used, v.used_le, room_le q v, v.write_word, v.read_word)

    popped_on :
        (i : ℕ)
        → slot_on popped i ≡ (
            if bit_and q.read_idx q.mask == bit_and (q.read_idx + suc i) q.mask
            then emptied
            else slot_on q (suc i))
    popped_on i =
        ap (λ j. get_or (set q.slots (bit_and q.read_idx q.mask) emptied) j new_slot)
          (next_index q v i)
        ∙ get_or-set q.slots _ _ emptied new_slot (index_in q v q.read_idx)

    popped_off : (i : ℕ) → suc i < length q.slots → slot_on popped i ≡ slot_on q (suc i)
    popped_off i near =
        let apart : bit_and q.read_idx q.mask ≢ bit_and (q.read_idx + suc i) q.mask = λ e.
          index_apart q v 0 (suc i) (omega arith) (omega (arith, near))
            (sym (read_index q v) ∙ e) in
        popped_on i ∙ rw (eq_neg apart) refl

    popped_last : (i : ℕ) → suc i ≡ length q.slots → slot_on popped i ≡ emptied
    popped_last i last =
        let round = index_round q v in
        let same : bit_and q.read_idx q.mask ≡ bit_and (q.read_idx + suc i) q.mask =
          read_index q v ∙ sym round ∙ ap (λ n. bit_and (q.read_idx + n) q.mask) (sym last) in
        popped_on i ∙ rw (eq_pos same) refl

    contents-popped : contents q ≡ (slot_on q 0).value ∷ contents popped
    contents-popped =
        ap (λ n. first n (λ i. (slot_on q i).value)) (sym used-popped)
        ∙ ap (λ xs. (slot_on q 0).value ∷ xs)
            (first_same (used popped) (λ i. (slot_on q (suc i)).value)
              (λ i. (slot_on popped i).value)
              (λ i h.
                ap (λ x. x.value) (sym (popped_off i (omega (arith, h, used-popped, v.used_le))))))

    same_room : length popped.slots ≡ length q.slots
    same_room = length-set q.slots (bit_and q.read_idx q.mask) emptied

    no_marks :
        (i : ℕ) → used popped ≤ i → i < length popped.slots → (slot_on popped i).written ≡ false
    no_marks i le lt = elim (dec_lt (suc i) (length q.slots)) [
      | yes near ↦
          ap (λ x. x.written) (popped_off i near)
          ∙ v.unmarked (suc i) (omega (arith, le, used-popped)) near
      | no far ↦ ap (λ x. x.written) (popped_last i (omega (arith, far, lt, same_room)))
    ]

    popped-IsValid : IsValid popped
    popped-IsValid = record {
      bits = v.bits;
      few_bits = v.few_bits;
      size = same_room ∙ v.size;
      masked = v.masked;
      read_word = omega arith;
      write_word = v.write_word;
      used_le = omega (arith, used-popped, v.used_le, same_room);
      marked = λ i h.
          ap (λ x. x.written) (popped_off i (omega (arith, h, used-popped, v.used_le)))
          ∙ v.marked (suc i) (omega (arith, h, used-popped));
      unmarked = no_marks;
    }

    pop-some : pop q ≡ some (some (slot_on q 0).value, popped)
    unfolding pop
    pop-some = rw (tested, v.marked 0 some_used, stored q v q.read_idx emptied) refl

  pop-empty : used q ≡ 0 → pop q ≡ some (none, q)
  unfolding pop
  pop-empty none_used = rw (tested, v.unmarked 0 (omega (arith, none_used)) (room_pos q v)) refl

  -- A pop on a valid ring gives the oldest item and takes it away, or says that there is none, and
  -- leaves a valid ring with as much room.
  pub slot_pop_refines :
      (q' : SlotRingBuffer) × (pop q ≡ some ((Queue.pop (contents q)).0, q'))
      × (contents q' ≡ (Queue.pop (contents q)).1)
      × (room q' ≡ room q)
      × IsValid q'
  slot_pop_refines = elim (dec_lt 0 (used q)) [
    | yes some_used ↦
        let items = contents-popped some_used in
        (
          popped,
          pop-some some_used ∙ ap (λ xs. some ((Queue.pop xs).0, popped)) (sym items),
          ap (λ xs. (Queue.pop xs).1) (sym items),
          same_room some_used,
          popped-IsValid some_used,
        )
    | no none_used ↦
        let zero_used : used q ≡ 0 = omega (arith, none_used) in
        let nothing : contents q ≡ [] = ap (λ n. first n (λ i. (slot_on q i).value)) zero_used in
        (
          q,
          pop-empty (omega (arith, none_used))
              ∙ ap (λ xs. some ((Queue.pop xs).0, q)) (sym nothing),
          nothing ∙ ap (λ xs. (Queue.pop xs).1) (sym nothing),
          refl,
          v,
        )
  ]
