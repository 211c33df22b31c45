-- ===== src/Benchmarks/Search.antt =====
-- src/benchmarks/binary_search/binary_search.hpp with the standard policy. The numbers that the
-- generator writes are arguments; `std::sort` and `std::lower_bound` are parameters.
use benchmark_fun.Common.{
  ℕ, zero, suc, ◌*◌, ◌%◌, ◌≤◌, ◌<◌, ◌≡◌, refl, ap, ◌∙◌, List, [], ◌∷◌, ◌++◌, length, get_or,
  get_elem?, get_elem?-eq-get_or, Option, none, some, ◌==◌, eq_pos, if◌then◌else◌, ◌>>=◌, arith,
}
use native.Mathlib.Decide.{dec_le}
use native.Mathlib.Nat.{mod-lt}
use mathlib.Core.List.{Mem, Pairwise, mem-cons_self, mem-cons_of_mem}
use benchmark_fun.Benchmarks.Evaluation.Order.{IsSorted, Sorts, length-sort}

pub record StandardBinarySearch : Type 0 where
  pub data_of : List ℕ
  pub search : List ℕ

-- `data[e % NUM_ELEMENTS]` for each number drawn
abbrev pub picked : List ℕ → List ℕ → Option (List ℕ)
picked items [] = some []
picked items (e ∷ drawn) = do
  found ← get_elem? items (e % length items)
  rest ← picked items drawn
  some (found ∷ rest)

-- `none` is also the failed assert of `fill_aligned_uint32` on the address of `search`, which
-- stands directly behind `data`, of 4 bytes an element; `data` is aligned to a register, of so many
-- bytes.
abbrev pub refill_search : ℕ → List ℕ → StandardBinarySearch → Option StandardBinarySearch
refill_search register_bytes drawn b =
    let filled = (do search ← picked b.data_of drawn; some (record b { search = search })) in
    if 4 * length b.data_of % register_bytes == 0 then filled else none

abbrev pub new_search : ℕ → (List ℕ → List ℕ) → List ℕ → List ℕ → Option StandardBinarySearch
new_search register_bytes sort filled drawn =
    refill_search register_bytes drawn (record { data_of = sort filled; search = [] })

module _ (lower_bound : List ℕ → ℕ → ℕ) where
  -- `none` is an access behind the last element.
  abbrev pub find : StandardBinarySearch → ℕ → Option ℕ
  find b e = get_elem? b.data_of (lower_bound b.data_of e)

  -- What is stored in `sink`, in order.
  abbrev pub find_all : StandardBinarySearch → List ℕ → Option (List ℕ)
  find_all b [] = some []
  find_all b (e ∷ search) = do sink ← find b e; rest ← find_all b search; some (sink ∷ rest)

  abbrev pub run_benchmark : ℕ → StandardBinarySearch → Option (List ℕ)
  run_benchmark zero b = some []
  run_benchmark (suc iterations) b = do
    sinks ← find_all b b.search
    rest ← run_benchmark iterations b
    some (sinks ++ rest)

abbrev pub repeated : ℕ → List ℕ → List ℕ
repeated zero xs = []
repeated (suc n) xs = xs ++ repeated n xs

-- What `std::lower_bound` promises of sorted elements: it parts those below the value from the
-- others.
pub record Parts (lower_bound : List ℕ → ℕ → ℕ) : Type 0 where
  pub below :
      (xs : List ℕ) (e i : ℕ)
      → IsSorted xs
      → i < lower_bound xs e
      → i < length xs
      → get_or xs i 0 < e
  pub from :
      (xs : List ℕ) (e i : ℕ)
      → IsSorted xs
      → lower_bound xs e ≤ i
      → i < length xs
      → e ≤ get_or xs i 0

get_or-Mem : (xs : List ℕ) (i : ℕ) → i < length xs → Mem (get_or xs i 0) xs
get_or-Mem [] i h = absurd (omega (arith, h))
get_or-Mem (x ∷ xs) zero h = mem-cons_self
get_or-Mem (x ∷ xs) (suc i) h = mem-cons_of_mem x (get_or-Mem xs i (omega (arith, h)))

pub ascending :
    (xs : List ℕ) (i j : ℕ) → IsSorted xs → i ≤ j → j < length xs → get_or xs i 0 ≤ get_or xs j 0
ascending [] i j sorted le h = absurd (omega (arith, h))
ascending (x ∷ xs) zero zero sorted le h = omega arith
ascending (x ∷ xs) zero (suc j) (Pairwise.cons from sorted) le h =
    from (get_or xs j 0) (get_or-Mem xs j (omega (arith, h)))
ascending (x ∷ xs) (suc i) zero sorted le h = absurd (omega (arith, le))
ascending (x ∷ xs) (suc i) (suc j) (Pairwise.cons from sorted) le h =
    ascending xs i j sorted (omega (arith, le)) (omega (arith, h))

-- Each value stands somewhere in the data.
abbrev AllIn : List ℕ → List ℕ → Type 0
AllIn items [] = 0 ≤ 0
AllIn items (e ∷ search) =
    ((i : ℕ) × (i < length items) × (get_or items i 0 ≡ e)) × AllIn items search

picked-AllIn :
    (items drawn : List ℕ)
    → 0 < length items
    → (search : List ℕ) × (picked items drawn ≡ some search) × AllIn items search
picked-AllIn items [] some_items = ([], refl, omega arith)
picked-AllIn items (e ∷ drawn) some_items =
    let (search, ran, ok) = picked-AllIn items drawn some_items in
    let i = e % length items in
    let below : i < length items = mod-lt e some_items in
    (
      get_or items i 0 ∷ search,
      rw (get_elem?-eq-get_or items i 0 below, ran) refl,
      ((i, below, refl), ok),
    )

module _ (sort : List ℕ → List ℕ) (lower_bound : List ℕ → ℕ → ℕ) (sorts : Sorts sort)
    (parts : Parts lower_bound) where
  find_lem :
      (b : StandardBinarySearch) (e i : ℕ)
      → IsSorted b.data_of
      → i < length b.data_of
      → get_or b.data_of i 0 ≡ e
      → find lower_bound b e ≡ some e
  find_lem b e i sorted h at =
      let j = lower_bound b.data_of e in
      let before : j ≤ i = elim (dec_le j i) [
        | yes le ↦ le
        | no more ↦
            let less = parts.below b.data_of e i sorted (omega (arith, more)) h in
            absurd (omega (arith, less, at))
      ] in
      let inside : j < length b.data_of = omega (arith, before, h) in
      let up = parts.from b.data_of e j sorted (omega arith) inside in
      let down = ascending b.data_of j i sorted before h in
      let same : get_or b.data_of j 0 ≡ e = omega (arith, up, down, at) in
      get_elem?-eq-get_or b.data_of j 0 inside ∙ ap some same

  find_all_lem :
      (b : StandardBinarySearch) (search : List ℕ)
      → IsSorted b.data_of
      → AllIn b.data_of search
      → find_all lower_bound b search ≡ some search
  find_all_lem b [] sorted ok = refl
  find_all_lem b (e ∷ search) sorted ((i, h, at), ok) =
      rw (find_lem b e i sorted h at, find_all_lem b search sorted ok) refl

  run_lem :
      (iterations : ℕ) (b : StandardBinarySearch)
      → IsSorted b.data_of
      → AllIn b.data_of b.search
      → run_benchmark lower_bound iterations b ≡ some (repeated iterations b.search)
  run_lem zero b sorted ok = refl
  run_lem (suc iterations) b sorted ok =
      rw (find_all_lem b b.search sorted ok, run_lem iterations b sorted ok) refl

  -- With at least one number to search among, and as many as fill whole registers, the constructor
  -- and a refill read no element out of range, whatever the generator draws, and every search after
  -- them finds the number that it is for and never reads behind the last element. `std::sort` gives
  -- a permutation that ascends, and `std::lower_bound` parts the elements below a value from the
  -- others if they ascend.
  pub searches_find :
      (register_bytes : ℕ) (filled drawn redrawn : List ℕ) (iterations : ℕ)
      → 0 < length filled
      → 4 * length filled % register_bytes ≡ 0
      → (b : StandardBinarySearch) × (b' : StandardBinarySearch) × (new_search register_bytes sort
            filled drawn
          ≡ some b)
        × (run_benchmark lower_bound iterations b ≡ some (repeated iterations b.search))
        × (refill_search register_bytes redrawn b ≡ some b')
        × (run_benchmark lower_bound iterations b' ≡ some (repeated iterations b'.search))
  searches_find register_bytes filled drawn redrawn iterations some_items whole =
      let items = sort filled in
      let sorted = sorts.ascends filled in
      let more : 0 < length items = omega (arith, some_items, length-sort sort sorts filled) in
      let aligned : 4 * length items % register_bytes ≡ 0 =
        ap (λ n. 4 * n % register_bytes) (length-sort sort sorts filled) ∙ whole in
      let (search, ran, ok) = picked-AllIn items drawn more in
      let (search', ran', ok') = picked-AllIn items redrawn more in
      let b : StandardBinarySearch = record { data_of = items; search = search } in
      let b' : StandardBinarySearch = record { data_of = items; search = search' } in
      (
        b,
        b',
        rw (ran, eq_pos aligned) refl,
        run_lem iterations b sorted ok,
        rw (ran', eq_pos aligned) refl,
        run_lem iterations b' sorted ok',
      )
