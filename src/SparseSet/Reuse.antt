-- ===== src/SparseSet/Reuse.antt =====
-- `push_back` and `emplace_back` of src/utils/sparse_set.hpp where a freed slot is used again.
use native.Mathlib.Decide.{dec_lt, ℕ_discrete}
use benchmark_fun.Common.{
  ℕ, ◌+◌, ◌≤◌, ◌<◌, ◌≡◌, ◌≢◌, sym, ap, ◌∙◌, Bool, none, some, [], ◌∷◌, ◌++◌, length, get_elem?,
  get_or, set, ◌==◌, if◌then◌else◌, arith, length-set, length-append, eq_pos, eq_neg,
  get_elem?-eq-get_or, get_or-set, get_elem?-push, get_elem?_out,
}
use benchmark_fun.SparseSet.{incr, bump, SparseSet, push_back}
use benchmark_fun.SparseSet.Inv.{
  no_metadata, slots, index_at, rid_at, validity, find, IsValid, find_known, find_unknown,
}

-- What an insertion of `x` under `id` leaves.
pub record Inserted {ℓ} {A : Type ℓ} (s : SparseSet A) (x : A) (id : ℕ) (s' : SparseSet A)
    : Type ℓ where
  pub valid : IsValid s'
  pub one_more : length s'.m_data ≡ length s.m_data + 1
  pub no_fewer : slots s ≤ slots s'
  pub at_most : slots s' ≤ slots s + 1
  pub fresh : find s id ≡ none
  pub finds : (k : ℕ) → find s' k ≡ (if k == id then some x else find s k)
  pub validities :
      (k : ℕ)
      → k < slots s
      → validity s' k ≡ (if k == id then incr (validity s k) else validity s k)

-- A freed slot is there: the one behind the last object.
module _ {ℓ} {A : Type ℓ} (s : SparseSet A) (v : IsValid s) (x : A)
    (free : length s.m_data < slots s) where
  abbrev top : ℕ
  top = length s.m_data

  abbrev free_id : ℕ
  free_id = rid_at s top

  abbrev pub reused : SparseSet A
  reused = record {
    m_data = s.m_data ++ x ∷ [];
    m_metadata = set s.m_metadata top (bump (get_or s.m_metadata top no_metadata));
    m_indexes = set s.m_indexes free_id top;
  }

  abbrev ReuseFacts : Type 0
  ReuseFacts =
      (free_id < slots s)
      × (index_at s free_id ≡ top)
      × (slots reused ≡ slots s)
      × (length reused.m_indexes ≡ slots s)

  reuse_facts : ReuseFacts
  reuse_facts = omega (
    arith,
    v.rid_lt top,
    v.index-rid top,
    v.same,
    length-set s.m_metadata top (bump (get_or s.m_metadata top no_metadata)),
    length-set s.m_indexes free_id top,
  )

  pub push_back-reused : push_back s x ≡ some (free_id, reused)
  unfolding push_back
  push_back-reused =
      ground (arith, reuse_facts, v.same, get_elem?-eq-get_or s.m_metadata top no_metadata)

  index_reused : (k : ℕ) → index_at reused k ≡ index_at s k
  index_reused k = ground (arith, reuse_facts, v.same, get_or-set s.m_indexes free_id k top 0)

  meta_reused :
      (k : ℕ)
      → get_or reused.m_metadata k no_metadata ≡ (
          if top == k
          then bump (get_or s.m_metadata k no_metadata)
          else get_or s.m_metadata k no_metadata)
  meta_reused k = ground (
    arith,
    get_or-set s.m_metadata top k (bump (get_or s.m_metadata top no_metadata)) no_metadata,
  )

  reused-IsValid : IsValid reused
  reused-IsValid = record {
    same = omega (arith, reuse_facts);
    fits = omega (arith, reuse_facts, length-append s.m_data (x ∷ []));
    small = omega (arith, reuse_facts, v.small);
    rid_lt = λ i h. ground (arith, reuse_facts, meta_reused i, v.rid_lt i);
    index-rid =
        λ i h. ground (arith, reuse_facts, meta_reused i, index_reused (rid_at s i), v.index-rid i);
    index_lt = λ k h. ground (arith, reuse_facts, index_reused k, v.index_lt k);
    rid-index = λ k h.
        ground (arith, reuse_facts, index_reused k, meta_reused (index_at s k), v.rid-index k);
  }

  find-reused : (k : ℕ) → find reused k ≡ (if k == free_id then some x else find s k)
  find-reused k = elim (dec_lt k (slots s)) [
    | yes old ↦
        let e : find reused k ≡ get_elem? reused.m_data (index_at s k) =
          find_known reused k (omega (arith, reuse_facts))
          ∙ ap (get_elem? reused.m_data) (index_reused k) in
        let e' : find s k ≡ get_elem? s.m_data (index_at s k) = find_known s k old in
        elim (ℕ_discrete k free_id) [
          | yes same ↦ rw (eq_pos same) (
              e
              ∙ get_elem?-push s.m_data (index_at s k) x
              ∙ ap (λ (b : Bool). if b then some x else get_elem? s.m_data (index_at s k))
                  (eq_pos (rw same (omega (arith, reuse_facts)))))
          | no other ↦
              let n : index_at s k ≢ top = λ p. other (sym (v.rid-index k old) ∙ ap (rid_at s) p) in
              rw (eq_neg other) (
                e
                ∙ get_elem?-push s.m_data (index_at s k) x
                ∙ ap (λ (b : Bool). if b then some x else get_elem? s.m_data (index_at s k))
                    (eq_neg n)
                ∙ sym e')
        ]
    | no new ↦
        let other : k ≢ free_id = λ p. new (rw p (omega (arith, reuse_facts))) in
        rw (eq_neg other) (
          find_unknown reused k (omega (arith, reuse_facts)) ∙ sym (find_unknown s k (omega arith)))
  ]

  validity-reused :
      (k : ℕ)
      → k < slots s
      → validity reused k ≡ (if k == free_id then incr (validity s k) else validity s k)
  validity-reused k h =
      ground (arith, reuse_facts, index_reused k, meta_reused (index_at s k), v.rid-index k)

  pub reused-Inserted : Inserted s x free_id reused
  reused-Inserted = record {
    valid = reused-IsValid;
    one_more = length-append s.m_data (x ∷ []);
    no_fewer = omega (arith, reuse_facts);
    at_most = omega (arith, reuse_facts);
    fresh =
        find_known s free_id (omega (arith, reuse_facts))
        ∙ get_elem?_out s.m_data (index_at s free_id) (omega (arith, reuse_facts));
    finds = find-reused;
    validities = validity-reused;
  }
