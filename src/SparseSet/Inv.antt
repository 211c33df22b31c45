-- ===== src/SparseSet/Inv.antt =====
-- The representation invariant of src/utils/sparse_set.hpp, and the map from IDs to objects that
-- a sparse set stands for.
use benchmark_fun.Common.{
  ℕ, ◌≤◌, ◌<◌, ◌≡◌, Option, none, length, get_elem?, get_or, ltb, if◌then◌else◌, arith, ltb_pos,
  ltb_neg,
}
use benchmark_fun.SparseSet.{id_mod, Metadata, SparseSet, empty_set}

abbrev pub no_metadata : Metadata
no_metadata = record { rid = 0; validity_id = 0 }

module _ {ℓ} {A : Type ℓ} where
  abbrev pub slots : SparseSet A → ℕ
  slots s = length s.m_metadata

  abbrev pub index_at : SparseSet A → ℕ → ℕ
  index_at s id = get_or s.m_indexes id 0

  abbrev pub rid_at : SparseSet A → ℕ → ℕ
  rid_at s i = (get_or s.m_metadata i no_metadata).rid

  abbrev pub validity_at : SparseSet A → ℕ → ℕ
  validity_at s i = (get_or s.m_metadata i no_metadata).validity_id

  -- the validity ID that the slot of an ID has now
  abbrev pub validity : SparseSet A → ℕ → ℕ
  validity s id = validity_at s (index_at s id)

  -- An object is stored under the ID.
  pub record IsLive (s : SparseSet A) (id : ℕ) : Type 0 where
    pub known : id < slots s
    pub stored : index_at s id < length s.m_data

  -- the object stored under an ID
  abbrev pub find : SparseSet A → ℕ → Option A
  find s id = if ltb id (slots s) then get_elem? s.m_data (index_at s id) else none

  -- The reverse IDs and the indexes are inverse permutations of the slots.
  pub record IsValid (s : SparseSet A) : Type 0 where
    pub same : length s.m_indexes ≡ slots s
    pub fits : length s.m_data ≤ slots s
    pub small : slots s < id_mod
    pub rid_lt : (i : ℕ) → i < slots s → rid_at s i < slots s
    pub index-rid : (i : ℕ) → i < slots s → index_at s (rid_at s i) ≡ i
    pub index_lt : (id : ℕ) → id < slots s → index_at s id < slots s
    pub rid-index : (id : ℕ) → id < slots s → rid_at s (index_at s id) ≡ id

  pub empty-IsValid : IsValid empty_set
  empty-IsValid = record {
    same = omega arith;
    fits = omega arith;
    small = omega arith;
    rid_lt = λ i h. absurd (omega arith);
    index-rid = λ i h. absurd (omega arith);
    index_lt = λ i h. absurd (omega arith);
    rid-index = λ i h. absurd (omega arith);
  }

  pub find_known :
      (s : SparseSet A) (id : ℕ) → id < slots s → find s id ≡ get_elem? s.m_data (index_at s id)
  find_known s id h = rw (ltb_pos h)

  pub find_unknown : (s : SparseSet A) (id : ℕ) → slots s ≤ id → find s id ≡ none
  find_unknown s id h = rw (ltb_neg h)
