-- ===== src/Csv/Get.antt =====
-- `get` of one_and_dones/compile_time_csv/example.cpp: a cell of a row by the name of its member.
use benchmark_fun.Common.{
  ℕ, zero, suc, ◌<◌, ◌≡◌, ◌≢◌, refl, List, [], ◌∷◌, map, length, get_or, arith,
}
use benchmark_fun.Common.{Text, text_eq_same, text_eq_other}
use benchmark_fun.Csv.{Member, ok, throws, no_member, get}

abbrev pub names_of : List Member → List Text
names_of members = map (λ m. m.name) members

-- In a row with a cell for each member, the name of a member gives its cell, where no member before
-- it has that name.
get_found :
    (members : List Member) (row : List ℕ) (i : ℕ)
    → length row ≡ length members
    → i < length members
    → ((j : ℕ) → j < i → get_or (names_of members) j [] ≢ get_or (names_of members) i [])
    → get (get_or (names_of members) i []) members row ≡ ok (get_or row i 0)
unfolding get
get_found [] row i h lt fresh = absurd (omega arith)
get_found (m ∷ members) [] i h lt fresh = absurd (omega arith)
get_found (m ∷ members) (cell ∷ row) zero h lt fresh = rw (text_eq_same m.name) refl
get_found (m ∷ members) (cell ∷ row) (suc i) h lt fresh =
    rw (text_eq_other m.name (get_or (names_of members) i []) (fresh 0 (omega arith))) (
      get_found members row i (omega arith) (omega arith) (λ j before. fresh (suc j) (omega arith)))

-- A name that no member has is refused.
get_missing :
    (members : List Member) (row : List ℕ) (name : Text)
    → ((j : ℕ) → j < length members → get_or (names_of members) j [] ≢ name)
    → get name members row ≡ throws no_member
unfolding get
get_missing [] row name h = refl
get_missing (m ∷ members) [] name h = refl
get_missing (m ∷ members) (cell ∷ row) name h =
    rw (text_eq_other m.name name (h 0 (omega arith)))
      (get_missing members row name (λ j lt. h (suc j) (omega arith)))
