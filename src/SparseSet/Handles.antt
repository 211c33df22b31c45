-- ===== src/SparseSet/Handles.antt =====
-- Handles of src/utils/sparse_set.hpp: what `isValid` says after other operations.
use native.Mathlib.Decide.{dec_lt}
use benchmark_fun.Common.{
  ℕ, zero, suc, ◌<◌, ◌≡◌, inl, inr, ap, refl, none, some, List, [], ◌∷◌, length, map, get_or, ltb,
  ◌==◌, arith, Bool-cases, get_elem?-eq-get_or, get_elem?_out,
}
use benchmark_fun.SparseSet.{incr, bump, Metadata, SparseSet, erase, clear, is_valid}
use benchmark_fun.SparseSet.Inv.{no_metadata, slots, index_at, validity, IsLive, find, IsValid}

length-bump : (ms : List Metadata) → length (map bump ms) ≡ length ms
length-bump [] = refl
length-bump (m ∷ ms) = ap suc (length-bump ms)

get_or-bump :
    (ms : List Metadata) (i : ℕ)
    → i < length ms
    → get_or (map bump ms) i no_metadata ≡ bump (get_or ms i no_metadata)
get_or-bump [] i h = absurd (omega arith)
get_or-bump (m ∷ ms) zero h = refl
get_or-bump (m ∷ ms) (suc i) h = get_or-bump ms i (omega arith)

module _ {ℓ} {A : Type ℓ} where
  -- `isValid(id, validity_id)` compares with the slot's validity ID.
  pub is_valid_known :
      (s : SparseSet A)
      → IsValid s
      → (id w : ℕ) → id < slots s
      → is_valid s id w ≡ some (w == validity s id)
  unfolding is_valid
  is_valid_known s v id w h = rw (
    get_elem?-eq-get_or s.m_indexes id 0 (omega (arith, v.same)),
    get_elem?-eq-get_or s.m_metadata (index_at s id) no_metadata (v.index_lt id h),
  )

  pub erase-IsLive : (s s' : SparseSet A) (id : ℕ) → IsValid s → erase s id ≡ some s' → IsLive s id
  unfolding erase
  erase-IsLive s s' id v e = elim (dec_lt id (slots s)) [
    | no new ↦ absurd (ground (arith, v.same, get_elem?_out s.m_indexes id))
    | yes old ↦ elim (dec_lt (index_at s id) (length s.m_data)) [
      | yes stored ↦ record { known = old; stored = stored }
      | no freed ↦ absurd (
          ground (
            arith,
            v.same,
            get_elem?-eq-get_or s.m_indexes id 0,
            get_elem?_out s.m_data (index_at s id),
          ))
    ]
  ]

  pub record Cleared (s s' : SparseSet A) : Type ℓ where
    pub valid : IsValid s'
    pub same_slots : slots s' ≡ slots s
    pub gone : (k : ℕ) → find s' k ≡ none
    pub validities : (k : ℕ) → k < slots s → validity s' k ≡ incr (validity s k)

  pub clear-Cleared : (s : SparseSet A) → IsValid s → Cleared s (clear s)
  unfolding clear
  clear-Cleared s v = record {
    valid = record {
      same = omega (arith, v.same, length-bump s.m_metadata);
      fits = omega arith;
      small = omega (arith, v.small, length-bump s.m_metadata);
      rid_lt =
          λ i h. ground (arith, length-bump s.m_metadata, get_or-bump s.m_metadata i, v.rid_lt i);
      index-rid = λ i h.
          ground (arith, length-bump s.m_metadata, get_or-bump s.m_metadata i, v.index-rid i);
      index_lt = λ k h. omega (arith, length-bump s.m_metadata, v.index_lt k);
      rid-index = λ k h. ground (
        arith,
        length-bump s.m_metadata,
        get_or-bump s.m_metadata (index_at s k),
        v.index_lt k,
        v.rid-index k,
      );
    };
    same_slots = length-bump s.m_metadata;
    gone = λ k. elim (Bool-cases (ltb k (slots (clear s)))) [ inl e ↦ rw e | inr e ↦ rw e ];
    validities = λ k h. ground (arith, get_or-bump s.m_metadata (index_at s k), v.index_lt k h);
  }
