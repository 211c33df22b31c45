-- ===== src/Ring/Slot/Laws.antt =====
-- Where the indexes of src/benchmarks/ring_buffers/slot.hpp lead, and what an access changes.
use Prim.Native.Nat.{bit_and}
use native.Mathlib.Nat.{pow-le-pow_right}
use benchmark_fun.Common.{
  ℕ, zero, suc, ◌+◌, ◌%◌, ◌^◌, ◌≤◌, ◌<◌, ◌≡◌, ◌≢◌, refl, sym, ap, ap₂, ◌∙◌, some, [], ◌∷◌, ◌++◌,
  length, get_elem?, get_or, set, write, ltb_pos, arith, get_elem?-eq-get_or, pow_pos, slot_lt,
  slot_wrap, slot_wrap_add, slot_apart, slot_round,
}
use benchmark_fun.Ring.Slot.{Slot, SlotRingBuffer, new_slot, used, first, IsValid}

pub length-first : (n : ℕ) (f : ℕ → ℕ) → length (first n f) ≡ n
length-first zero f = refl
length-first (suc n) f = ap suc (length-first n (λ i. f (suc i)))

pub first-last : (n : ℕ) (f : ℕ → ℕ) → first (suc n) f ≡ first n f ++ f n ∷ []
first-last zero f = refl
first-last (suc n) f = ap (λ xs. f 0 ∷ xs) (first-last n (λ i. f (suc i)))

pub first_same : (n : ℕ) (f g : ℕ → ℕ) → ((i : ℕ) → i < n → f i ≡ g i) → first n f ≡ first n g
first_same zero f g same = refl
first_same (suc n) f g same =
    ap₂ (λ x xs. x ∷ xs) (same 0 (omega arith))
      (first_same n (λ i. f (suc i)) (λ i. g (suc i)) (λ i h. same (suc i) (omega (arith, h))))

module _ (q : SlotRingBuffer) (v : IsValid q) where
  pub room_pos : 0 < length q.slots
  room_pos = omega (arith, v.size, pow_pos v.bits)

  pub room_le : length q.slots ≤ 2 ^ 63
  room_le =
      let few : 2 ^ v.bits ≤ 2 ^ 63 =
        pow-le-pow_right {n = 2} (omega arith) {i = v.bits} {j = 63} (omega (arith, v.few_bits)) in
      omega (arith, v.size, few)

  pub index_in : (pos : ℕ) → bit_and pos q.mask < length q.slots
  index_in pos = omega (arith, ap (bit_and pos) v.masked, slot_lt v.bits pos, v.size)

  pub index_apart :
      (i j : ℕ)
      → i < j
      → j < i + length q.slots
      → bit_and (q.read_idx + i) q.mask ≢ bit_and (q.read_idx + j) q.mask
  index_apart i j less near e =
      slot_apart v.bits (q.read_idx + i) (q.read_idx + j) (omega (arith, less))
        (omega (arith, near, v.size))
        (ap (bit_and (q.read_idx + i)) (sym v.masked) ∙ e ∙ ap (bit_and (q.read_idx + j)) v.masked)

  pub read_index : bit_and q.read_idx q.mask ≡ bit_and (q.read_idx + 0) q.mask
  read_index = ap (λ i. bit_and i q.mask) (omega arith)

  pub index_round : bit_and (q.read_idx + length q.slots) q.mask ≡ bit_and (q.read_idx + 0) q.mask
  index_round =
      ap₂ bit_and (ap (λ n. q.read_idx + n) v.size) v.masked
      ∙ slot_round v.bits q.read_idx
      ∙ ap (bit_and q.read_idx) (sym v.masked)
      ∙ read_index

  -- The write index is as many places on as there are items.
  pub write_index : bit_and q.write_idx q.mask ≡ bit_and (q.read_idx + used q) q.mask
  write_index =
      let wrapped : q.write_idx ≡ (q.read_idx + used q) % 2 ^ 64 =
        omega (arith, v.write_word, v.read_word) in
      ap₂ bit_and wrapped v.masked
      ∙ slot_wrap v.bits (q.read_idx + used q) (omega (arith, v.few_bits))
      ∙ ap (bit_and (q.read_idx + used q)) (sym v.masked)

  pub next_index :
      (i : ℕ) → bit_and ((q.read_idx + 1) % 2 ^ 64 + i) q.mask ≡ bit_and (q.read_idx + suc i) q.mask
  next_index i =
      let on : q.read_idx + 1 + i ≡ q.read_idx + suc i = omega arith in
      ap (bit_and ((q.read_idx + 1) % 2 ^ 64 + i)) v.masked
      ∙ slot_wrap_add v.bits (q.read_idx + 1) i (omega (arith, v.few_bits))
      ∙ ap₂ bit_and on (sym v.masked)

  pub found :
      (pos : ℕ)
      → get_elem? q.slots (bit_and pos q.mask) ≡ some (get_or q.slots (bit_and pos q.mask) new_slot)
  found pos = get_elem?-eq-get_or q.slots (bit_and pos q.mask) new_slot (index_in pos)

  pub stored :
      (pos : ℕ) (slot : Slot)
      → write q.slots (bit_and pos q.mask) slot ≡ some (set q.slots (bit_and pos q.mask) slot)
  stored pos slot = rw (ltb_pos (index_in pos)) refl
