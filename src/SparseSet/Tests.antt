-- ===== src/SparseSet/Tests.antt =====
-- Runs of src/utils/sparse_set.hpp, and its theorems at concrete sets.
use benchmark_fun.Common.{
  ℕ, ◌+◌, ◌≡◌, refl, true, false, Option, none, some, [], ◌∷◌, ◌==◌, ltb, if◌then◌else◌, arith,
}
use benchmark_fun.SparseSet.{
  SparseSet, Handle, insert, remove, empty_set, size, empty, get_data_index, get_validity_id,
  is_valid_id, get_next_id, push_back, emplace_back, erase, erase_via_data, remove_if, clear,
  create_handle, create_handle_from_data, handle_is_valid, deref, erase_handle, Erasure, step, run,
}
use benchmark_fun.SparseSet.Inv.{IsValid, IsLive, find}
use benchmark_fun.SparseSet.Erase.{Erased, erase_lem}
use benchmark_fun.SparseSet.Insert.{push_back_lem}
use benchmark_fun.SparseSet.Reuse.{Inserted}
use benchmark_fun.SparseSet.RemoveIf.{keep, remove_if_lem}
use benchmark_fun.SparseSet.Lifetimes.{handle_stays_invalid, handle_stays_valid, erase_handle_once}

-- 10, 20 and 30 were pushed, and then the first was erased: its slot, with ID 0, is free.
abbrev two : SparseSet ℕ
two = record {
  m_data = 30 ∷ 20 ∷ [];
  m_metadata =
      record { rid = 2; validity_id = 0 }
      ∷ record { rid = 1; validity_id = 0 }
      ∷ record { rid = 0; validity_id = 1 }
      ∷ [];
  m_indexes = 2 ∷ 1 ∷ 0 ∷ [];
}

two-IsValid : IsValid two
two-IsValid = grind arith

-- The object with ID 2 is erased from `two`.
abbrev one : SparseSet ℕ
one = record {
  m_data = 20 ∷ [];
  m_metadata =
      record { rid = 1; validity_id = 0 }
      ∷ record { rid = 2; validity_id = 1 }
      ∷ record { rid = 0; validity_id = 1 }
      ∷ [];
  m_indexes = 2 ∷ 0 ∷ 1 ∷ [];
}

-- 40 is pushed, into the slot of ID 2.
abbrev again : SparseSet ℕ
again = record {
  m_data = 20 ∷ 40 ∷ [];
  m_metadata =
      record { rid = 1; validity_id = 0 }
      ∷ record { rid = 2; validity_id = 2 }
      ∷ record { rid = 0; validity_id = 1 }
      ∷ [];
  m_indexes = 2 ∷ 0 ∷ 1 ∷ [];
}

abbrev at_seven : SparseSet ℕ → ℕ → Option (SparseSet ℕ)
at_seven s address = if address == 7 then some s else none

abbrev handle_2 : Handle
handle_2 = record { m_id = 2; m_validity_id = 0; m_vector = some 7 }

abbrev handle_1 : Handle
handle_1 = record { m_id = 1; m_validity_id = 0; m_vector = some 7 }

two_is_reached : run empty_set (insert 10 ∷ insert 20 ∷ insert 30 ∷ remove 0 ∷ []) ≡ some two
unfolding run step push_back erase
two_is_reached = refl

sizes :
    (size two ≡ 2)
    × (empty two ≡ false)
    × (empty (empty_set {A = ℕ}) ≡ true)
    × (get_data_index two 2 ≡ some 0)
    × (get_validity_id two 0 ≡ some 1)
    × (is_valid_id two 0 ≡ true)
    × (is_valid_id two 3 ≡ false)
unfolding size empty get_data_index get_validity_id is_valid_id
sizes = (refl, refl, refl, refl, refl, refl, refl)

handles :
    (create_handle 7 two 2 ≡ some handle_2)
    × (create_handle 7 two 0 ≡ none)
    × (create_handle_from_data 7 two 1 ≡ some handle_1)
    × (handle_is_valid (at_seven two) (record handle_2 { m_vector = none }) ≡ some false)
unfolding create_handle create_handle_from_data handle_is_valid
handles = (refl, refl, refl, refl)

erase_via_data-two : erase_via_data two 0 ≡ some one
unfolding erase_via_data
erase_via_data-two = refl

emplace_back-one : emplace_back (λ (n : ℕ). n + 1) one 39 ≡ some (2, again)
unfolding emplace_back
emplace_back-one = refl

remove_if-two : remove_if (λ x. ltb 25 x) two ≡ some one
unfolding remove_if
remove_if-two = refl

clear-one : clear one ≡ record {
  m_data = [];
  m_metadata =
      record { rid = 1; validity_id = 1 }
      ∷ record { rid = 2; validity_id = 2 }
      ∷ record { rid = 0; validity_id = 2 }
      ∷ [];
  m_indexes = 2 ∷ 0 ∷ 1 ∷ [];
}
unfolding clear
clear-one = refl

handle_stays_invalid_example : handle_is_valid (at_seven again) handle_2 ≡ some false
unfolding create_handle erase run step push_back
handle_stays_invalid_example =
    handle_stays_invalid (at_seven again) 7 two one again (insert 40 ∷ []) 2 handle_2 two-IsValid
      (omega arith) refl refl refl refl

handle_stays_valid_example :
    (handle_is_valid (at_seven again) handle_1 ≡ some true)
    × (deref (at_seven again) handle_1 ≡ some 20)
unfolding create_handle erase run step push_back
handle_stays_valid_example =
    handle_stays_valid (at_seven again) 7 two again (remove 2 ∷ insert 40 ∷ []) 1 20 handle_1
      two-IsValid (omega arith) refl (omega arith, (tt, tt)) refl refl refl

erase_handle_once_example :
    (erase_handle (at_seven two) 7 handle_2 ≡ Erasure.finished one)
    × (erase_handle (at_seven again) 7 handle_2 ≡ Erasure.assert_failed)
unfolding create_handle erase run step push_back
erase_handle_once_example =
    erase_handle_once (at_seven two) (at_seven again) 7 two one again (insert 40 ∷ []) 2 handle_2
      two-IsValid (omega arith) refl refl refl refl refl

two_has_2 : IsLive two 2
two_has_2 = omega arith

erase_lem_example : (s : SparseSet ℕ) × (erase two 2 ≡ some s) × Erased two 2 s
erase_lem_example = erase_lem two 2 two-IsValid two_has_2

push_back_lem_example :
    (id : ℕ) × (s : SparseSet ℕ) × (push_back two 40 ≡ some (id, s))
    × (get_next_id two ≡ some id)
    × Inserted two 40 id s
push_back_lem_example = push_back_lem two 40 two-IsValid (omega arith)

remove_if_lem_example :
    (s : SparseSet ℕ) × (remove_if (λ x. ltb 25 x) two ≡ some s)
    × IsValid s
    × ((k : ℕ) → find s k ≡ keep (λ x. ltb 25 x) (find two k))
remove_if_lem_example = remove_if_lem (λ x. ltb 25 x) two two-IsValid (omega arith)
