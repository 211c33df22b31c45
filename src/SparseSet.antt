-- ===== src/SparseSet.antt =====
-- src/utils/sparse_set.hpp: a vector of objects under IDs that survive insertions and erasures.
-- Each method returns the new state; `none` is an access out of range, undefined in C++, or a
-- failed `assert`. Objects are any type.
pub mod Inv
pub mod Erase
pub mod Reuse
pub mod Insert
pub mod RemoveIf
pub mod Handles
pub mod Calls
pub mod Lifetimes
mod Tests
use benchmark_fun.Common.{
  ℕ, zero, suc, ◌+◌, ◌-◌, ◌%◌, ◌^◌, Bool, true, false, ◌&&◌, not, Option, none, some, List, [], ◌∷◌,
  ◌++◌, map, length, get_elem?, set, write, swap, pop_back, ltb, leb, ◌==◌, if◌then◌else◌, ◌>>=◌,
}

-- `ID` is `uint64_t`.
abbrev pub id_mod : ℕ
id_mod = 2 ^ 64

-- `++x` and `x - 1` on `uint64_t`
abbrev pub incr : ℕ → ℕ
incr x = (x + 1) % id_mod

abbrev pub decr : ℕ → ℕ
decr x = (x + id_mod - 1) % id_mod

pub record Metadata : Type 0 where
  pub rid : ℕ
  pub validity_id : ℕ

pub record SparseSet {ℓ} (A : Type ℓ) : Type ℓ where
  pub m_data : List A
  pub m_metadata : List Metadata
  pub m_indexes : List ℕ

-- A handle names its vector by address; `none` is the null pointer.
pub record Handle : Type 0 where
  pub m_id : ℕ
  pub m_validity_id : ℕ
  pub m_vector : Option ℕ

abbrev pub bump : Metadata → Metadata
bump m = record m { validity_id = incr m.validity_id }

-- `handle.m_vector == this`
abbrev pub is_from : ℕ → Handle → Bool
is_from this h = elim h.m_vector [ none ↦ false | some address ↦ address == this ]

-- How `erase(handle)` ends; out of range is an access of `isValid` or `erase(id)`.
pub data Erasure {ℓ} (A : Type ℓ) : Type ℓ where
  finished : SparseSet A → Erasure A
  assert_failed out_of_range : Erasure A

module _ {ℓ} {A : Type ℓ} where
  abbrev pub empty_set : SparseSet A
  empty_set = record { m_data = []; m_metadata = []; m_indexes = [] }

  pub size : SparseSet A → ℕ
  size s = length s.m_data

  pub empty : SparseSet A → Bool
  empty s = elim s.m_data [ [] ↦ true | _ ↦ false ]

  pub get_data_index : SparseSet A → ℕ → Option ℕ
  get_data_index s id = get_elem? s.m_indexes id

  pub at : SparseSet A → ℕ → Option A
  at s id = do i ← get_elem? s.m_indexes id; get_elem? s.m_data i

  pub get_validity_id : SparseSet A → ℕ → Option ℕ
  get_validity_id s id = do
    i ← get_elem? s.m_indexes id
    m ← get_elem? s.m_metadata i
    some m.validity_id

  pub is_valid : SparseSet A → ℕ → ℕ → Option Bool
  is_valid s id validity_id = do
    i ← get_elem? s.m_indexes id
    m ← get_elem? s.m_metadata i
    some (validity_id == m.validity_id)

  pub is_valid_id : SparseSet A → ℕ → Bool
  is_valid_id s id = ltb id (length s.m_indexes)

  -- The ID that an insertion would use.
  pub get_next_id : SparseSet A → Option ℕ
  get_next_id s =
      if ltb (length s.m_data) (length s.m_metadata)
      then (do m ← get_elem? s.m_metadata (length s.m_data); some m.rid)
      else some (length s.m_data)

  pub get_free_id : SparseSet A → Option (ℕ × SparseSet A)
  get_free_id s =
      if ltb (length s.m_data) (length s.m_metadata)
      then (do
        m ← get_elem? s.m_metadata (length s.m_data)
        metadata ← write s.m_metadata (length s.m_data) (bump m)
        some (m.rid, record s { m_metadata = metadata }))
      else some (
        length s.m_data,
        record s {
          m_metadata = s.m_metadata ++ record { rid = length s.m_data; validity_id = 0 } ∷ [];
          m_indexes = s.m_indexes ++ length s.m_data ∷ [];
        },
      )

  pub get_free_slot : SparseSet A → Option (ℕ × SparseSet A)
  unfolding get_free_id
  get_free_slot s = do
    (id, s') ← get_free_id s
    indexes ← write s'.m_indexes id (length s'.m_data)
    some (id, record s' { m_indexes = indexes })

  pub push_back : SparseSet A → A → Option (ℕ × SparseSet A)
  unfolding get_free_slot
  push_back s object = do
    (id, s') ← get_free_slot s
    some (id, record s' { m_data = s'.m_data ++ object ∷ [] })

  -- `emplace_back` constructs the object from its arguments at the end of the vector.
  pub emplace_back {κ} :
      {Args : Type κ} → (Args → A) → SparseSet A → Args → Option (ℕ × SparseSet A)
  unfolding get_free_slot
  emplace_back construct s args = do
    (id, s') ← get_free_slot s
    some (id, record s' { m_data = s'.m_data ++ construct args ∷ [] })

  pub erase : SparseSet A → ℕ → Option (SparseSet A)
  erase s id = do
    data_id ← get_elem? s.m_indexes id
    let last_data_id = decr (length s.m_data)
    last ← get_elem? s.m_metadata last_data_id
    erased ← get_elem? s.m_metadata data_id
    metadata ← write s.m_metadata data_id (bump erased)
    objects ← swap s.m_data data_id last_data_id
    metadata' ← swap metadata data_id last_data_id
    indexes ← swap s.m_indexes id last.rid
    some (record { m_data = pop_back objects; m_metadata = metadata'; m_indexes = indexes })

  pub erase_via_data : SparseSet A → ℕ → Option (SparseSet A)
  unfolding erase
  erase_via_data s idx = do m ← get_elem? s.m_metadata idx; erase s m.rid

  -- The loop of `remove_if` at index `i`, a `uint32_t`; fuel counts its rounds.
  pub remove_if_from : (A → Bool) → ℕ → ℕ → SparseSet A → Option (SparseSet A)
  unfolding erase_via_data
  remove_if_from predicate zero i s = none
  remove_if_from predicate (suc fuel) i s = elim (get_elem? s.m_data i) [
    | none ↦ some s
    | some x ↦ elim (predicate x) [
      | true ↦ do s' ← erase_via_data s i; remove_if_from predicate fuel i s'
      | false ↦ remove_if_from predicate fuel ((i + 1) % 2 ^ 32) s
    ]
  ]

  pub remove_if : (A → Bool) → SparseSet A → Option (SparseSet A)
  unfolding remove_if_from
  remove_if predicate s = remove_if_from predicate (suc (length s.m_data)) 0 s

  pub clear : SparseSet A → SparseSet A
  clear s = record s { m_data = []; m_metadata = map bump s.m_metadata }

  -- `create_handle` and `create_handle_from_data` of the vector at address `this`.
  pub create_handle : ℕ → SparseSet A → ℕ → Option Handle
  create_handle this s id = do
    i ← get_elem? s.m_indexes id
    m ← (if ltb i (length s.m_data) then get_elem? s.m_metadata i else none)
    some (record { m_id = id; m_validity_id = m.validity_id; m_vector = some this })

  pub create_handle_from_data : ℕ → SparseSet A → ℕ → Option Handle
  create_handle_from_data this s idx = do
    m ← (if ltb idx (length s.m_data) then get_elem? s.m_metadata idx else none)
    some (record { m_id = m.rid; m_validity_id = m.validity_id; m_vector = some this })

  -- Handles look their vector up in a store of the vectors that are alive.
  pub handle_is_valid : (ℕ → Option (SparseSet A)) → Handle → Option Bool
  unfolding is_valid
  handle_is_valid store h = elim h.m_vector [
    | none ↦ some false
    | some address ↦ do s ← store address; is_valid s h.m_id h.m_validity_id
  ]

  pub deref : (ℕ → Option (SparseSet A)) → Handle → Option A
  unfolding at
  deref store h = do address ← h.m_vector; s ← store address; at s h.m_id

  abbrev pub erasure : Option (SparseSet A) → Erasure A
  erasure none = Erasure.out_of_range
  erasure (some s) = Erasure.finished s

  -- `erase(handle)` on the vector at address `this`, with its two asserts.
  pub erase_handle : (ℕ → Option (SparseSet A)) → ℕ → Handle → Erasure A
  unfolding handle_is_valid erase
  erase_handle store this h =
      let here = erasure (store this >>= λ s. erase s h.m_id) in
      let checked = elim (handle_is_valid store h) as (λ _. Erasure A) [
        | none ↦ Erasure.out_of_range
        | some valid ↦ if valid then here else Erasure.assert_failed
      ] in
      if is_from this h then checked else Erasure.assert_failed

-- A client's calls that change a set, in order.
pub data Op {ℓ} (A : Type ℓ) : Type ℓ where
  insert : A → Op A
  remove : ℕ → Op A
  remove_all : Op A

module _ {ℓ} {A : Type ℓ} where
  pub step : SparseSet A → Op A → Option (SparseSet A)
  step s (insert x) = do (id, s') ← push_back s x; some s'
  step s (remove id) = erase s id
  step s remove_all = some (clear s)

  pub run : SparseSet A → List (Op A) → Option (SparseSet A)
  run s [] = some s
  run s (op ∷ ops) = step s op >>= λ s'. run s' ops
