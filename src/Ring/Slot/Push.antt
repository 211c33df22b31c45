-- ===== src/Ring/Slot/Push.antt =====
-- `push` of src/benchmarks/ring_buffers/slot.hpp is that of a queue.
use Prim.Native.Nat.{bit_and}
use native.Mathlib.Decide.{ℕ_discrete, dec_lt}
use benchmark_fun.Common.{
  ℕ, suc, ◌+◌, ◌%◌, ◌^◌, ◌<◌, ◌≡◌, ◌≢◌, refl, sym, ap, ap₂, subst, ◌∙◌, true, false, some, [], ◌∷◌,
  ◌++◌, length, get_elem?, get_or, set, ltb_pos, ltb_neg, eq_pos, eq_neg, arith, get_or-set,
  length-set, ltb,
}
use benchmark_fun.Ring.Queue
use benchmark_fun.Ring.Slot.{
  Slot, SlotRingBuffer, new_slot, push, slot_on, used, first, contents, room, IsValid,
}
use benchmark_fun.Ring.Slot.Laws.{
  length-first, first-last, first_same, room_pos, room_le, index_in, index_apart, index_round,
  write_index, found, stored,
}

module _ (q : SlotRingBuffer) (v : IsValid q) (val : ℕ) where
  abbrev item : Slot
  item = record { written = true; value = val }

  abbrev pushed : SlotRingBuffer
  pushed = record q {
    slots = set q.slots (bit_and q.write_idx q.mask) item;
    write_idx = (q.write_idx + 1) % 2 ^ 64;
  }

  -- What the code finds at the write index.
  tested : get_elem? q.slots (bit_and q.write_idx q.mask) ≡ some (slot_on q (used q))
  tested = found q v q.write_idx ∙ ap (λ i. some (get_or q.slots i new_slot)) (write_index q v)

  module _ (free : used q < length q.slots) where
    used-pushed : used pushed ≡ suc (used q)
    used-pushed = omega (arith, free, room_le q v, v.write_word, v.read_word)

    pushed_at : slot_on pushed (used q) ≡ item
    pushed_at =
        get_or-set q.slots _ _ item new_slot (index_in q v q.write_idx)
        ∙ rw (eq_pos (write_index q v)) refl

    pushed_off : (i : ℕ) → i < length q.slots → used q ≢ i → slot_on pushed i ≡ slot_on q i
    pushed_off i in_range other =
        let apart : bit_and q.write_idx q.mask ≢ bit_and (q.read_idx + i) q.mask = λ e.
          elim (dec_lt i (used q)) [
            | yes less ↦
                index_apart q v i (used q) less (omega (arith, free)) (sym e ∙ write_index q v)
            | no more ↦
                index_apart q v (used q) i (omega (arith, more, other)) (omega (arith, in_range))
                  (sym (write_index q v) ∙ e)
          ] in
        get_or-set q.slots _ _ item new_slot (index_in q v q.write_idx) ∙ rw (eq_neg apart) refl

    contents-pushed : contents pushed ≡ contents q ++ val ∷ []
    contents-pushed =
        ap (λ n. first n (λ i. (slot_on pushed i).value)) used-pushed
        ∙ first-last (used q) (λ i. (slot_on pushed i).value)
        ∙ ap₂ (λ xs x. xs ++ x ∷ [])
            (first_same (used q) (λ i. (slot_on pushed i).value) (λ i. (slot_on q i).value)
              (λ i h.
                ap (λ x. x.value)
                  (pushed_off i (omega (arith, h, free)) (λ e. absurd (omega (arith, e, h))))))
            (ap (λ x. x.value) pushed_at)

    same_room : length pushed.slots ≡ length q.slots
    same_room = length-set q.slots (bit_and q.write_idx q.mask) item

    marks : (i : ℕ) → i < used pushed → (slot_on pushed i).written ≡ true
    marks i h = elim (ℕ_discrete (used q) i) [
      | yes same ↦ ap (λ x. x.written) (subst (λ j. slot_on pushed j ≡ item) same pushed_at)
      | no other ↦
          let less : i < used q = omega (arith, h, used-pushed, other) in
          ap (λ x. x.written) (pushed_off i (omega (arith, less, free)) other) ∙ v.marked i less
    ]

    pushed-IsValid : IsValid pushed
    pushed-IsValid = record {
      bits = v.bits;
      few_bits = v.few_bits;
      size = same_room ∙ v.size;
      masked = v.masked;
      read_word = v.read_word;
      write_word = omega arith;
      used_le = omega (arith, used-pushed, free, same_room);
      marked = marks;
      unmarked = λ i le lt.
          ap (λ x. x.written)
            (pushed_off i (omega (arith, lt, same_room))
              (λ e. absurd (omega (arith, e, le, used-pushed))))
          ∙ v.unmarked i (omega (arith, le, used-pushed)) (omega (arith, lt, same_room));
    }

    push-free : push q val ≡ some (true, pushed)
    unfolding push
    push-free =
        rw (tested, v.unmarked (used q) (omega arith) free, stored q v q.write_idx item) refl

  push-full : used q ≡ length q.slots → push q val ≡ some (false, q)
  unfolding push
  push-full full =
      let round : slot_on q (used q) ≡ slot_on q 0 =
        ap (λ i. get_or q.slots i new_slot)
          (ap (λ n. bit_and (q.read_idx + n) q.mask) full ∙ index_round q v) in
      rw (tested, round, v.marked 0 (omega (arith, full, room_pos q v))) refl

  -- A push on a valid ring answers whether there was room, adds the item behind the others if
  -- there was, changes nothing else, and leaves a valid ring with as much room.
  pub slot_push_refines :
      (q' : SlotRingBuffer) × (push q val ≡ some ((Queue.push (room q) (contents q) val).0, q'))
      × (contents q' ≡ (Queue.push (room q) (contents q) val).1)
      × (room q' ≡ room q)
      × IsValid q'
  slot_push_refines =
      let size = length-first (used q) (λ i. (slot_on q i).value) in
      elim (dec_lt (used q) (length q.slots)) [
        | yes free ↦
            let test : ltb (length (contents q)) (room q) ≡ true =
              ltb_pos (omega (arith, size, free)) in
            rw test
              (pushed, push-free free, contents-pushed free, same_room free, pushed-IsValid free)
        | no full ↦
            let test : ltb (length (contents q)) (room q) ≡ false =
              ltb_neg (omega (arith, size, full)) in
            rw test (q, push-full (omega (arith, full, v.used_le)), refl, refl, v)
      ]
