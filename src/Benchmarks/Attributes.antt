-- ===== src/Benchmarks/Attributes.antt =====
-- `AttributeOptimisation` of src/benchmarks/attributes/likely_attributes.hpp: four ways to count.
-- The counters are `size_t`, and the numbers are not negative.
use benchmark_fun.Common.{
  ℕ, zero, suc, ◌+◌, ◌*◌, ◌/◌, ◌%◌, ◌^◌, ◌≡◌, refl, ap, subst, ◌∙◌, Bool, true, false, List, [],
  ◌∷◌, ltb, ◌==◌, if◌then◌else◌, arith, ◌<◌, ◌≤◌, ◌≢◌, ap₂, ltb_pos, ltb_neg, eq_pos, eq_neg,
}
use native.Mathlib.Decide.{dec_lt, ℕ_discrete}

pub data Attribute : Type 0 where
  likely unlikely default_behavior branchless : Attribute

pub record Counts : Type 0 where
  pub successes : ℕ
  pub equalities : ℕ

abbrev pub size_needed_for_success : ℕ
size_needed_for_success = (100000 + 0) / 20 * 6

abbrev pub of_bool : Bool → ℕ
of_bool true = 1
of_bool false = 0

abbrev pub add_success : Counts → Counts
add_success c = record c { successes = (c.successes + 1) % 2 ^ 64 }

abbrev pub add_equality : Counts → Counts
add_equality c = record c { equalities = (c.equalities + 1) % 2 ^ 64 }

abbrev branching : ℕ → Counts → Counts
branching number c =
    if ltb size_needed_for_success number
    then add_success c
    else (if number == size_needed_for_success then add_equality c else c)

pub visit : Attribute → ℕ → Counts → Counts
visit likely number c = branching number c
visit unlikely number c = branching number c
visit default_behavior number c = branching number c
visit branchless number c = record {
  successes = (c.successes + of_bool (ltb size_needed_for_success number)) % 2 ^ 64;
  equalities = (c.equalities + of_bool (number == size_needed_for_success)) % 2 ^ 64;
}

pub visit_all : Attribute → List ℕ → Counts → Counts
unfolding visit
visit_all a [] c = c
visit_all a (number ∷ numbers) c = visit_all a numbers (visit a number c)

pub run_benchmark : ℕ → Attribute → List ℕ → Counts → Counts
unfolding visit_all
run_benchmark zero a numbers c = c
run_benchmark (suc iterations) a numbers c =
    run_benchmark iterations a numbers (visit_all a numbers c)

pub record InRange (c : Counts) : Type 0 where
  pub successes-lt : c.successes < 2 ^ 64
  pub equalities-lt : c.equalities < 2 ^ 64

unchanged : (x : ℕ) → x < 2 ^ 64 → (x + 0) % 2 ^ 64 ≡ x
unchanged x h = omega arith

branchless_agrees :
    (number : ℕ) (c : Counts)
    → InRange c
    → visit branchless number c ≡ visit default_behavior number c
unfolding visit
branchless_agrees number c v = elim (dec_lt size_needed_for_success number) [
  | yes above ↦
      let other : number ≢ size_needed_for_success = λ e. omega arith in
      rw (ltb_pos above, eq_neg other)
        (ap (λ e. record { successes = (c.successes + 1) % 2 ^ 64; equalities = e })
          (unchanged c.equalities v.equalities-lt))
  | no below ↦
      let at_most : number ≤ size_needed_for_success = omega arith in
      rw (ltb_neg at_most) (elim (ℕ_discrete number size_needed_for_success) [
        | yes same ↦ rw (eq_pos same) (
            ap (λ s. record { successes = s; equalities = (c.equalities + 1) % 2 ^ 64 })
              (unchanged c.successes v.successes-lt))
        | no other ↦ rw (eq_neg other) (
            ap₂ (λ s e. record { successes = s; equalities = e })
              (unchanged c.successes v.successes-lt) (unchanged c.equalities v.equalities-lt))
      ])
]

visit_agrees :
    (a : Attribute) (number : ℕ) (c : Counts)
    → InRange c
    → visit a number c ≡ visit default_behavior number c
unfolding visit
visit_agrees likely number c v = refl
visit_agrees unlikely number c v = refl
visit_agrees default_behavior number c v = refl
visit_agrees branchless number c v = branchless_agrees number c v

visit-InRange : (number : ℕ) (c : Counts) → InRange c → InRange (visit branchless number c)
unfolding visit
visit-InRange number c v = record { successes-lt = omega arith; equalities-lt = omega arith }

default-InRange : (number : ℕ) (c : Counts) → InRange c → InRange (visit default_behavior number c)
default-InRange number c v =
    subst (λ d. InRange d) (branchless_agrees number c v) (visit-InRange number c v)

visit_all_agrees :
    (a : Attribute) (numbers : List ℕ) (c : Counts)
    → InRange c
    → (visit_all a numbers c ≡ visit_all default_behavior numbers c)
      × InRange (visit_all default_behavior numbers c)
unfolding visit_all
visit_all_agrees a [] c v = (refl, v)
visit_all_agrees a (number ∷ numbers) c v =
    let (rest, range) =
      visit_all_agrees a numbers (visit default_behavior number c) (default-InRange number c v) in
    (ap (visit_all a numbers) (visit_agrees a number c v) ∙ rest, range)

-- From counters in the range of their type, all four versions of the loop, the branchless one
-- included, count the same.
attributes_agree :
    (iterations : ℕ) (a : Attribute) (numbers : List ℕ) (c : Counts)
    → InRange c
    → run_benchmark iterations a numbers c ≡ run_benchmark iterations default_behavior numbers c
unfolding run_benchmark
attributes_agree zero a numbers c v = refl
attributes_agree (suc iterations) a numbers c v =
    let (visited, range) = visit_all_agrees a numbers c v in
    ap (run_benchmark iterations a numbers) visited
    ∙ attributes_agree iterations a numbers (visit_all default_behavior numbers c) range
