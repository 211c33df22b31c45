-- ===== src/Benchmarks/Evaluation/Order.antt =====
-- Ascending lists of times. A list has only one ascending permutation, so `std::sort` has one
-- result.
use benchmark_fun.Common.{ℕ, ◌≤◌, ◌≡◌, ap₂, ◌∙◌, List, [], ◌∷◌, ◌++◌, length, arith}
use native.Mathlib.Bridge.{le_prop}
use mathlib.Core.Logic.{∥∥₁_elim}
use mathlib.Core.List.{Mem, Perm, Permᴰ, Pairwise, Pairwise-append, forall_mem-cons, mem-cons_self}
use mathlib.Core.List.Pairwise
use mathlib.Core.List.Perm

abbrev pub IsSorted : List ℕ → Type 0
IsSorted = Pairwise ◌≤◌

-- What `std::sort` promises.
pub record Sorts (sort : List ℕ → List ℕ) : Type 0 where
  pub permutes : (times : List ℕ) → Perm (sort times) times
  pub ascends : (times : List ℕ) → IsSorted (sort times)

length_of_steps : {xs ys : List ℕ} → Permᴰ xs ys → length xs ≡ length ys
length_of_steps Permᴰ.nil = omega arith
length_of_steps (Permᴰ.cons e d) = omega (arith, length_of_steps d)
length_of_steps (Permᴰ.swap e e') = omega arith
length_of_steps (Permᴰ.trans d d') = length_of_steps d ∙ length_of_steps d'

-- A number that the steps of a permutation keep is kept by the permutation.
pub Perm-eq :
    (f : List ℕ → ℕ) {xs ys : List ℕ} → (Permᴰ xs ys → f xs ≡ f ys) → Perm xs ys → f xs ≡ f ys
Perm-eq f {xs} {ys} keeps p =
    let le : f xs ≤ f ys = ∥∥₁_elim p le_prop (λ d. let e = keeps d in omega (arith, e)) in
    let ge : f ys ≤ f xs = ∥∥₁_elim p le_prop (λ d. let e = keeps d in omega (arith, e)) in
    omega (arith, le, ge)

pub Perm-length : {xs ys : List ℕ} → Perm xs ys → length xs ≡ length ys
Perm-length = Perm-eq length length_of_steps

-- Up to the head of an ascending list is up to all of it.
all_from : {a b : ℕ} {xs : List ℕ} → a ≤ b → IsSorted (b ∷ xs) → (x : ℕ) → Mem x (b ∷ xs) → a ≤ x
all_from {a} {b} le (Pairwise.cons h _) =
    (forall_mem-cons (λ x. le_prop)).1 (le, λ x m. let up = h x m in omega (arith, le, up))

heads_le : {a b : ℕ} {xs ys : List ℕ} → IsSorted (a ∷ xs) → Perm (b ∷ ys) (a ∷ xs) → a ≤ b
heads_le {a} {b} sorted p =
    let same : a ≤ a = omega arith in all_from same sorted b ((Perm.mem_iff p).0 mem-cons_self)

pub one_order : (xs ys : List ℕ) → IsSorted xs → IsSorted ys → Perm xs ys → xs ≡ ys
one_order [] ys sx sy p = Perm.nil-eq p
one_order (x ∷ xs) [] sx sy p = Perm.eq-nil p
one_order (x ∷ xs) (y ∷ ys) sx sy p =
    let up = heads_le sx (Perm.symm p) in
    let down = heads_le sy p in
    let same : x ≡ y = omega (arith, up, down) in
    let tails = Perm.cons_inv (Perm.trans p (Perm.symm (Perm.cons' same Perm.rfl))) in
    ap₂ ◌∷◌ same (one_order xs ys (Pairwise.of_cons sx) (Pairwise.of_cons sy) tails)

module _ (sort : List ℕ → List ℕ) (sorts : Sorts sort) where
  -- Times all of which are up to all of some others stay in front of them.
  pub sort_parts :
      (xs low high : List ℕ)
      → Perm xs (low ++ high)
      → ((a : ℕ) → Mem a low → (b : ℕ) → Mem b high → a ≤ b)
      → sort xs ≡ sort low ++ sort high
  sort_parts xs low high p apart =
      one_order (sort xs) (sort low ++ sort high) (sorts.ascends xs)
        ((Pairwise-append (λ a b. le_prop)).1 (
          sorts.ascends low,
          sorts.ascends high,
          λ a m b m'.
              apart a ((Perm.mem_iff (sorts.permutes low)).0 m) b
                ((Perm.mem_iff (sorts.permutes high)).0 m'),
        ))
        (Perm.trans (Perm.trans (sorts.permutes xs) p)
          (Perm.symm (Perm.append (sorts.permutes low) (sorts.permutes high))))

  pub length-sort : (xs : List ℕ) → length (sort xs) ≡ length xs
  length-sort xs = Perm-length (sorts.permutes xs)
