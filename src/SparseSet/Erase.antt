-- ===== src/SparseSet/Erase.antt =====
-- `erase` of src/utils/sparse_set.hpp: swap with the last object, then drop it.
use benchmark_fun.Common.{
  ℕ, ◌+◌, ◌-◌, ◌<◌, ◌≡◌, ◌≢◌, ◌⊎◌, inl, inr, sym, ap, ◌∙◌, eq_pos, eq_neg, Option, none, some, List,
  length, get_elem?, get_or, set, swap, pop_back, ◌==◌, if◌then◌else◌, arith, length-set,
  length-pop_back, get_elem?-eq-get_or, get_or-set, get_elem?-set, get_elem?-pop_back, get_elem?_in,
  get_elem?_out,
}
use native.Mathlib.Decide.{dec_lt}
use benchmark_fun.SparseSet.{incr, decr, bump, Metadata, SparseSet, erase}
use benchmark_fun.SparseSet.Inv.{
  find_known, find_unknown, no_metadata, slots, index_at, rid_at, validity, IsLive, find, IsValid,
}

-- A swap in range, read at any index.
module _ {ℓ} {A : Type ℓ} (xs : List A) (i j : ℕ) (hi : i < length xs) (hj : j < length xs) where
  pub swap_in : (d : A) → swap xs i j ≡ some (set (set xs i (get_or xs j d)) j (get_or xs i d))
  swap_in d = ground (arith, get_elem?-eq-get_or xs i d hi, get_elem?-eq-get_or xs j d hj)

  pub get_or-swapped :
      (d a b : A) (k : ℕ)
      → get_or (set (set xs i b) j a) k d
        ≡ (if j == k then a else if i == k then b else get_or xs k d)
  get_or-swapped d a b k =
      ground (arith, get_or-set (set xs i b) j k a d, get_or-set xs i k b d, length-set xs i b)

-- The state after the erasure of the object at `d`, which leaves the slot of the last object.
module _ {ℓ} {A : Type ℓ} (s : SparseSet A) (v : IsValid s) (id : ℕ) (live : IsLive s id) where
  abbrev at_id : ℕ
  at_id = index_at s id

  abbrev last : ℕ
  last = length s.m_data - 1

  abbrev last_id : ℕ
  last_id = rid_at s last

  abbrev meta : ℕ → Metadata
  meta i = get_or s.m_metadata i no_metadata

  abbrev bumped : List Metadata
  bumped = set s.m_metadata at_id (bump (meta at_id))

  abbrev new_metadata : List Metadata
  new_metadata =
      set (set bumped at_id (get_or bumped last no_metadata)) last (get_or bumped at_id no_metadata)

  abbrev new_indexes : List ℕ
  new_indexes = set (set s.m_indexes id (index_at s last_id)) last_id at_id

  -- the last object's place, and the ranges of the indexes that the method uses
  abbrev Facts : Type 0
  Facts =
      (last < length s.m_data)
      × (decr (length s.m_data) ≡ last)
      × (last_id < slots s)
      × (index_at s last_id ≡ last)
      × (rid_at s at_id ≡ id)

  facts : Facts
  facts = ground (
    arith,
    v.rid_lt last,
    v.index-rid last,
    v.rid-index id live.known,
    live.stored,
    live.known,
    v.fits,
    v.small,
  )

  length-bumped : length bumped ≡ slots s
  length-bumped = length-set s.m_metadata at_id (bump (meta at_id))

  meta_new :
      (k : ℕ)
      → get_or new_metadata k no_metadata
        ≡ (if last == k then bump (meta at_id) else if at_id == k then meta last else meta k)
  meta_new k = ground (
    arith,
    facts,
    length-bumped,
    live.stored,
    v.fits,
    get_or-swapped bumped at_id last (omega (arith, length-bumped, live.stored, v.fits))
        (omega (arith, length-bumped, facts, v.fits)) no_metadata (get_or bumped at_id no_metadata)
        (get_or bumped last no_metadata) k,
    get_or-set s.m_metadata at_id k (bump (meta at_id)) no_metadata,
    get_or-set s.m_metadata at_id last (bump (meta at_id)) no_metadata,
    get_or-set s.m_metadata at_id at_id (bump (meta at_id)) no_metadata,
  )

  index_new :
      (k : ℕ)
      → get_or new_indexes k 0
        ≡ (if last_id == k then at_id else if id == k then last else index_at s k)
  index_new k = ground (
    arith,
    facts,
    get_or-swapped s.m_indexes id last_id (omega (arith, v.same, live.known))
        (omega (arith, v.same, facts)) 0 at_id (index_at s last_id) k,
  )

  -- The new state, once the swaps of the objects and of the rest have succeeded.
  module _ (x y : A) (hx : get_elem? s.m_data at_id ≡ some x)
      (hy : get_elem? s.m_data last ≡ some y) where
    abbrev erased : SparseSet A
    erased = record {
      m_data = pop_back (set (set s.m_data at_id y) last x);
      m_metadata = new_metadata;
      m_indexes = new_indexes;
    }

    erase-erased : erase s id ≡ some erased
    unfolding erase
    erase-erased = ground (
      arith,
      facts,
      live.stored,
      live.known,
      v.same,
      v.fits,
      length-bumped,
      get_elem?-eq-get_or s.m_indexes id 0,
      get_elem?-eq-get_or s.m_metadata last no_metadata,
      get_elem?-eq-get_or s.m_metadata at_id no_metadata,
      get_elem?-eq-get_or bumped at_id no_metadata,
      get_elem?-eq-get_or bumped last no_metadata,
      get_elem?-eq-get_or s.m_indexes last_id 0,
    )

    length-erased : length erased.m_data ≡ length s.m_data - 1
    length-erased = omega (
      arith,
      length-pop_back (set (set s.m_data at_id y) last x),
      length-set (set s.m_data at_id y) last x,
      length-set s.m_data at_id y,
    )

    slots-erased : slots erased ≡ slots s
    slots-erased = omega (
      arith,
      length-bumped,
      length-set (set bumped at_id (get_or bumped last no_metadata)) last
          (get_or bumped at_id no_metadata),
      length-set bumped at_id (get_or bumped last no_metadata),
    )

    length-new_indexes : length new_indexes ≡ slots s
    length-new_indexes = omega (
      arith,
      v.same,
      length-set (set s.m_indexes id (index_at s last_id)) last_id at_id,
      length-set s.m_indexes id (index_at s last_id),
    )

    erased-IsValid : IsValid erased
    erased-IsValid = record {
      same = omega (arith, length-new_indexes, slots-erased);
      fits = omega (arith, length-erased, slots-erased, v.fits);
      small = omega (arith, slots-erased, v.small);
      rid_lt = λ i h.
          ground (arith, slots-erased, facts, live, v.fits, meta_new i, v.rid_lt i, v.rid_lt at_id);
      index-rid = λ i h. ground (
        arith,
        slots-erased,
        facts,
        live.known,
        meta_new i,
        index_new (rid_at s i),
        index_new id,
        index_new last_id,
        v.index-rid i,
      );
      index_lt = λ k h.
          ground (arith, slots-erased, facts, live.stored, v.fits, index_new k, v.index_lt k);
      rid-index = λ k h. ground (
        arith,
        slots-erased,
        facts,
        live.stored,
        index_new k,
        meta_new at_id,
        meta_new last,
        meta_new (index_at s k),
        v.rid-index k,
      );
    }

    objects : List A
    objects = set (set s.m_data at_id y) last x

    -- the object at an index after the swap, where the hole at the end is gone
    object_at : ℕ → Option A
    object_at = get_elem? (pop_back (set (set s.m_data at_id y) last x))

    last_object : object_at last ≡ none
    unfolding object_at
    last_object =
        get_elem?_out (pop_back (set (set s.m_data at_id y) last x)) last
          (omega (arith, length-erased))

    object_at_id : at_id < last → object_at at_id ≡ get_elem? s.m_data last
    unfolding object_at
    object_at_id h = ground (
      arith,
      get_elem?-pop_back (set (set s.m_data at_id y) last x) at_id,
      length-set (set s.m_data at_id y) last x,
      length-set s.m_data at_id y,
      get_elem?-set (set s.m_data at_id y) last at_id x,
      get_elem?-set s.m_data at_id at_id y,
    )

    object_at_other : (k : ℕ) → k ≢ at_id → k ≢ last → object_at k ≡ get_elem? s.m_data k
    unfolding object_at
    object_at_other k h h' = elim (dec_lt k last) [
      | yes below ↦ ground (
        arith,
        get_elem?-pop_back (set (set s.m_data at_id y) last x) k,
        length-set (set s.m_data at_id y) last x,
        length-set s.m_data at_id y,
        get_elem?-set (set s.m_data at_id y) last k x,
        get_elem?-set s.m_data at_id k y,
      )
      | no above ↦
          let e : object_at k ≡ none =
            get_elem?_out (pop_back (set (set s.m_data at_id y) last x)) k
              (omega (arith, length-erased)) in
          let e' : get_elem? s.m_data k ≡ none = get_elem?_out s.m_data k (omega arith) in cc
    ]

    -- where an ID leads after the swap
    Place : ℕ → Type 0
    Place k =
        (k ≡ id) × (index_at erased k ≡ last)
        ⊎ (k ≢ id) × (index_at erased k ≡ at_id) × (index_at s k ≡ last) × (at_id < last)
        ⊎ (k ≢ id)
          × (index_at erased k ≡ index_at s k)
          × (index_at s k ≢ at_id)
          × (index_at s k ≢ last)

    place : (k : ℕ) → k < slots s → Place k
    unfolding Place
    place k h = ground (arith, facts, live.stored, index_new k, v.rid-index k)

    find-erased : (k : ℕ) → find erased k ≡ (if k == id then none else find s k)
    unfolding object_at Place
    find-erased k = elim (dec_lt k (slots s)) [
      | yes old ↦
          let e : find erased k ≡ object_at (index_at erased k) =
            find_known erased k (omega (arith, slots-erased)) in
          let e' : find s k ≡ get_elem? s.m_data (index_at s k) = find_known s k old in
          elim (place k old) [
            | inl (same, i) ↦ rw (eq_pos same) (e ∙ ap object_at i ∙ last_object)
            | inr (inl (other, i, i', below)) ↦ rw (eq_neg other) (
                e ∙ ap object_at i ∙ object_at_id below ∙ ap (get_elem? s.m_data) (sym i') ∙ sym e')
            | inr (inr (other, i, n, n')) ↦
                rw (eq_neg other)
                  (e ∙ ap object_at i ∙ object_at_other (index_at s k) n n' ∙ sym e')
          ]
      | no new ↦
          let other : k ≢ id = λ p. new (rw p live.known) in
          rw (eq_neg other) (
            find_unknown erased k (omega (arith, slots-erased))
            ∙ sym (find_unknown s k (omega arith)))
    ]

    validity-erased :
        (k : ℕ)
        → k < slots s
        → validity erased k ≡ (if k == id then incr (validity s k) else validity s k)
    validity-erased k h = ground (
      arith,
      facts,
      index_new k,
      meta_new at_id,
      meta_new last,
      meta_new (index_at s k),
      v.rid-index k,
    )

    before-erased :
        (k : ℕ) → k < slots s → index_at erased k < at_id → index_at erased k ≡ index_at s k
    unfolding Place
    before-erased k h p = omega (arith, place k h, live.stored)

-- What an erasure of `id` leaves.
pub record Erased {ℓ} {A : Type ℓ} (s : SparseSet A) (id : ℕ) (s' : SparseSet A) : Type ℓ where
  pub valid : IsValid s'
  pub one_less : length s'.m_data + 1 ≡ length s.m_data
  pub same_slots : slots s' ≡ slots s
  pub finds : (k : ℕ) → find s' k ≡ (if k == id then none else find s k)
  pub validities :
      (k : ℕ)
      → k < slots s
      → validity s' k ≡ (if k == id then incr (validity s k) else validity s k)
  pub before : (k : ℕ) → k < slots s → index_at s' k < index_at s id → index_at s' k ≡ index_at s k

module _ {ℓ} {A : Type ℓ} where
  -- Erasing an ID that stores an object succeeds and keeps the invariant; it removes that ID from
  -- the map, leaves every other ID its object, and increments that one slot's validity ID.
  pub erase_lem :
      (s : SparseSet A) (id : ℕ)
      → IsValid s
      → IsLive s id
      → (s' : SparseSet A) × (erase s id ≡ some s') × Erased s id s'
  erase_lem s id v live =
      let (x, hx) = get_elem?_in s.m_data (index_at s id) live.stored in
      let (y, hy) = get_elem?_in s.m_data (length s.m_data - 1) (omega (arith, live.stored)) in
      (
        erased s v id live x y hx hy,
        erase-erased s v id live x y hx hy,
        record {
          valid = erased-IsValid s v id live x y hx hy;
          one_less = omega (arith, length-erased s v id live x y hx hy, live.stored);
          same_slots = slots-erased s v id live x y hx hy;
          finds = find-erased s v id live x y hx hy;
          validities = validity-erased s v id live x y hx hy;
          before = before-erased s v id live x y hx hy;
        },
      )
