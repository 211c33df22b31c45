-- ===== src/Benchmarks/Policies.antt =====
-- `ExecutionPolicies` of src/benchmarks/execution_policies/policies.hpp, with `float` and its
-- functions as parameters. `std::for_each` calls its function once for each element, in any order
-- under a parallel policy: the order of the indices is an argument.
use benchmark_fun.Common.{
  ℕ, zero, suc, ◌+◌, ◌<◌, ◌≤◌, ◌≡◌, ◌≢◌, refl, sym, ap, ◌∙◌, Option, none, List, [], ◌∷◌, length,
  get_elem?, ◌==◌, if◌then◌else◌, arith, eq_pos, eq_neg, get_elem?_out,
}
use native.Mathlib.Decide.{ℕ_discrete, dec_lt}
use mathlib.Core.Option

-- How often an index is visited.
abbrev pub count : ℕ → List ℕ → ℕ
count i [] = 0
count i (j ∷ order) = (if j == i then 1 else 0) + count i order

abbrev indices : ℕ → ℕ → List ℕ
indices zero i = []
indices (suc n) i = i ∷ indices n (suc i)

count-indices_before : (n i j : ℕ) → j < i → count j (indices n i) ≡ 0
count-indices_before zero i j h = refl
count-indices_before (suc n) i j h =
    let other : i ≢ j = λ e. omega arith in
    rw (eq_neg other) (omega (arith, count-indices_before n (suc i) j (omega arith)))

count-indices : (n i j : ℕ) → i ≤ j → j < i + n → count j (indices n i) ≡ 1
count-indices zero i j low high = absurd (omega arith)
count-indices (suc n) i j low high = elim (ℕ_discrete i j) [
  | yes same ↦ rw (eq_pos same) (omega (arith, count-indices_before n (suc i) j (omega arith)))
  | no other ↦
      rw (eq_neg other) (omega (arith, count-indices n (suc i) j (omega arith) (omega arith)))
]

module _ {T : Type 0} where
  -- `v = std::sin(v + transform) + std::cos(v)`, four times
  abbrev pub heavy_transform : (T → T) → (T → T) → (T → T → T) → T → T → T
  heavy_transform sin cos add transform coord =
      let step : T → T = λ v. add (sin (add v transform)) (cos v) in step (step (step (step coord)))

  -- A call on the element at an index.
  abbrev pub apply_at : (T → T) → ℕ → List T → List T
  apply_at f i [] = []
  apply_at f zero (coord ∷ coords) = f coord ∷ coords
  apply_at f (suc i) (coord ∷ coords) = coord ∷ apply_at f i coords

  pub for_each : (T → T) → List ℕ → List T → List T
  for_each f [] coords = coords
  for_each f (i ∷ order) coords = for_each f order (apply_at f i coords)

  -- `for (size_t i{}; i < coords.size(); ++i)`, for `n` indices from `i` on
  pub indexed_loop : (T → T) → ℕ → ℕ → List T → List T
  indexed_loop f zero i coords = coords
  indexed_loop f (suc n) i coords = indexed_loop f n (suc i) (apply_at f i coords)

  abbrev times : ℕ → (T → T) → Option T → Option T
  times zero f x = x
  times (suc n) f x = times n f (Option.map f x)

  apply_at-same :
      (f : T → T) (i : ℕ) (coords : List T)
      → get_elem? (apply_at f i coords) i ≡ Option.map f (get_elem? coords i)
  apply_at-same f i [] = refl
  apply_at-same f zero (x ∷ coords) = refl
  apply_at-same f (suc i) (x ∷ coords) = apply_at-same f i coords

  apply_at-other :
      (f : T → T) (i j : ℕ) (coords : List T)
      → i ≢ j
      → get_elem? (apply_at f i coords) j ≡ get_elem? coords j
  apply_at-other f i j [] h = refl
  apply_at-other f zero zero (x ∷ coords) h = absurd (h refl)
  apply_at-other f zero (suc j) (x ∷ coords) h = refl
  apply_at-other f (suc i) zero (x ∷ coords) h = refl
  apply_at-other f (suc i) (suc j) (x ∷ coords) h = apply_at-other f i j coords (λ e. h (ap suc e))

  get_elem?-for_each :
      (f : T → T) (order : List ℕ) (coords : List T) (i : ℕ)
      → get_elem? (for_each f order coords) i ≡ times (count i order) f (get_elem? coords i)
  unfolding for_each
  get_elem?-for_each f [] coords i = refl
  get_elem?-for_each f (j ∷ order) coords i =
      get_elem?-for_each f order (apply_at f j coords) i ∙ elim (ℕ_discrete j i) [
        | yes same ↦
            let more : count i (j ∷ order) ≡ suc (count i order) = rw (eq_pos same) (omega arith) in
            ap (λ k. times (count i order) f (get_elem? (apply_at f k coords) i)) same
            ∙ ap (times (count i order) f) (apply_at-same f i coords)
            ∙ ap (λ k. times k f (get_elem? coords i)) (sym more)
        | no other ↦
            let more : count i (j ∷ order) ≡ count i order = rw (eq_neg other) (omega arith) in
            ap (times (count i order) f) (apply_at-other f j i coords other)
            ∙ ap (λ k. times k f (get_elem? coords i)) (sym more)
      ]

  indexed_loop_is_for_each :
      (f : T → T) (n i : ℕ) (coords : List T)
      → indexed_loop f n i coords ≡ for_each f (indices n i) coords
  unfolding indexed_loop for_each
  indexed_loop_is_for_each f zero i coords = refl
  indexed_loop_is_for_each f (suc n) i coords =
      indexed_loop_is_for_each f n (suc i) (apply_at f i coords)

  times-none : (n : ℕ) (f : T → T) → times n f none ≡ none
  times-none zero f = refl
  times-none (suc n) f = times-none n f

  -- A policy that visits each index once, in whatever order, leaves at each index what the indexed
  -- loop over the whole vector leaves there.
  policies_agree :
      (f : T → T) (order : List ℕ) (coords : List T)
      → ((i : ℕ) → i < length coords → count i order ≡ 1)
      → (i : ℕ)
      → get_elem? (for_each f order coords) i
        ≡ get_elem? (indexed_loop f (length coords) 0 coords) i
  policies_agree f order coords once i =
      get_elem?-for_each f order coords i
      ∙ elim (dec_lt i (length coords)) [
        | yes inside ↦
            ap (λ k. times k f (get_elem? coords i))
              (once i inside ∙ sym (count-indices (length coords) 0 i (omega arith) (omega arith)))
        | no outside ↦
            let gone : get_elem? coords i ≡ none = get_elem?_out coords i (omega arith) in
            rw gone (
              times-none (count i order) f
              ∙ sym (times-none (count i (indices (length coords) 0)) f))
      ]
      ∙ sym (get_elem?-for_each f (indices (length coords) 0) coords i)
      ∙ ap (λ l. get_elem? l i) (sym (indexed_loop_is_for_each f (length coords) 0 coords))
