-- ===== src/SparseSet/Insert.antt =====
-- `push_back` and `emplace_back` of src/utils/sparse_set.hpp: a freed slot is used again, or a
-- new one is made.
use native.Mathlib.Decide.{dec_lt, ℕ_discrete}
use benchmark_fun.Common.{
  ℕ, ◌+◌, ◌<◌, ◌≡◌, sym, ap, ◌∙◌, Bool, some, [], ◌∷◌, ◌++◌, length, get_elem?, get_or, set, ◌==◌,
  if◌then◌else◌, arith, length-set, length-append, ltb_pos, ltb_neg, eq_pos, eq_neg,
  get_elem?-eq-get_or, get_or-set, get_or-push, get_elem?-push,
}
use benchmark_fun.SparseSet.{id_mod, SparseSet, push_back, get_next_id}
use benchmark_fun.SparseSet.Inv.{
  no_metadata, slots, index_at, rid_at, find, IsValid, find_known, find_unknown,
}
use benchmark_fun.SparseSet.Reuse.{Inserted, reused, push_back-reused, reused-Inserted}

-- Every slot is in use: a new one is made, with its own index for its ID.
module _ {ℓ} {A : Type ℓ} (s : SparseSet A) (v : IsValid s) (x : A)
    (full : length s.m_data ≡ slots s) (room : slots s + 1 < id_mod) where
  abbrev count : ℕ
  count = length s.m_data

  abbrev grown : SparseSet A
  grown = record {
    m_data = s.m_data ++ x ∷ [];
    m_metadata = s.m_metadata ++ record { rid = count; validity_id = 0 } ∷ [];
    m_indexes = set (s.m_indexes ++ count ∷ []) count count;
  }

  abbrev GrowFacts : Type 0
  GrowFacts =
      (slots grown ≡ slots s + 1)
      × (length (s.m_indexes ++ count ∷ []) ≡ slots s + 1)
      × (length grown.m_indexes ≡ slots s + 1)

  grow_facts : GrowFacts
  grow_facts = omega (
    arith,
    v.same,
    length-append s.m_metadata (record { rid = count; validity_id = 0 } ∷ []),
    length-append s.m_indexes (count ∷ []),
    length-set (s.m_indexes ++ count ∷ []) count count,
  )

  push_back-grown : push_back s x ≡ some (count, grown)
  unfolding push_back
  push_back-grown =
      rw (ltb_neg {a = count} {b = slots s} (omega arith)) (ground (arith, grow_facts))

  index_grown : (k : ℕ) → index_at grown k ≡ (if k == count then count else index_at s k)
  index_grown k = ground (
    arith,
    grow_facts,
    v.same,
    get_or-set (s.m_indexes ++ count ∷ []) count k count 0,
    get_or-push s.m_indexes k count 0,
  )

  meta_grown :
      (k : ℕ)
      → get_or grown.m_metadata k no_metadata ≡ (
          if k == count
          then record { rid = count; validity_id = 0 }
          else get_or s.m_metadata k no_metadata)
  meta_grown k =
      ground
        (arith, get_or-push s.m_metadata k (record { rid = count; validity_id = 0 }) no_metadata)

  grown-IsValid : IsValid grown
  grown-IsValid = record {
    same = omega (arith, grow_facts);
    fits = omega (arith, grow_facts, length-append s.m_data (x ∷ []));
    small = omega (arith, grow_facts);
    rid_lt = λ i h. ground (arith, grow_facts, meta_grown i, v.rid_lt i);
    index-rid = λ i h. ground (
      arith,
      grow_facts,
      meta_grown i,
      index_grown (rid_at s i),
      index_grown count,
      v.index-rid i,
      v.rid_lt i,
    );
    index_lt = λ k h. ground (arith, grow_facts, index_grown k, v.index_lt k);
    rid-index = λ k h. ground (
      arith,
      grow_facts,
      index_grown k,
      meta_grown count,
      meta_grown (index_at s k),
      v.index_lt k,
      v.rid-index k,
    );
  }

  find-grown : (k : ℕ) → find grown k ≡ (if k == count then some x else find s k)
  find-grown k = elim (ℕ_discrete k count) [
    | yes same ↦ rw (eq_pos same) (
        find_known grown k (omega (arith, grow_facts))
        ∙ get_elem?-push s.m_data (index_at grown k) x
        ∙ ap (λ (b : Bool). if b then some x else get_elem? s.m_data (index_at grown k))
            (eq_pos (ground (arith, index_grown k))))
    | no other ↦ rw (eq_neg other) (elim (dec_lt k (slots s)) [
      | yes old ↦
          let i : index_at grown k ≡ index_at s k = ground (arith, index_grown k) in
          find_known grown k (omega (arith, grow_facts))
          ∙ get_elem?-push s.m_data (index_at grown k) x
          ∙ ap (λ (b : Bool). if b then some x else get_elem? s.m_data (index_at grown k))
              (eq_neg (λ p. absurd (omega (arith, i, v.index_lt k old))))
          ∙ ap (get_elem? s.m_data) i
          ∙ sym (find_known s k old)
      | no new ↦
          find_unknown grown k (omega (arith, grow_facts)) ∙ sym (find_unknown s k (omega arith))
    ])
  ]

  grown-Inserted : Inserted s x count grown
  grown-Inserted = record {
    valid = grown-IsValid;
    one_more = length-append s.m_data (x ∷ []);
    no_fewer = omega (arith, grow_facts);
    at_most = omega (arith, grow_facts);
    fresh = find_unknown s count (omega arith);
    finds = find-grown;
    validities = λ k h.
        ground (arith, index_grown k, meta_grown count, meta_grown (index_at s k), v.index_lt k h);
  }

module _ {ℓ} {A : Type ℓ} where
  -- An insertion succeeds while the slots can be counted; it stores the object under the ID that
  -- `get_next_id` had announced, which stored nothing, and keeps the invariant, every other ID's
  -- object and every other slot's validity ID.
  pub push_back_lem :
      (s : SparseSet A) (x : A)
      → IsValid s
      → slots s + 1 < id_mod
      → (id : ℕ) × (s' : SparseSet A) × (push_back s x ≡ some (id, s'))
        × (get_next_id s ≡ some id)
        × Inserted s x id s'
  unfolding get_next_id
  push_back_lem s x v room = elim (dec_lt (length s.m_data) (slots s)) [
    | yes free ↦ (
      rid_at s (length s.m_data),
      reused s v x free,
      push_back-reused s v x free,
      rw (ltb_pos free, get_elem?-eq-get_or s.m_metadata (length s.m_data) no_metadata free),
      reused-Inserted s v x free,
    )
    | no none_free ↦
        let full : length s.m_data ≡ slots s = omega (arith, v.fits) in
        (
          length s.m_data,
          grown s v x full room,
          push_back-grown s v x full room,
          rw (ltb_neg {a = length s.m_data} {b = slots s} (omega arith)),
          grown-Inserted s v x full room,
        )
  ]
