-- ===== src/SparseSet/Calls.antt =====
-- What one call of src/utils/sparse_set.hpp, or a sequence of them, does to the validity IDs.
use native.Mathlib.Decide.{dec_lt}
use benchmark_fun.Common.{
  ℕ, suc, ◌+◌, ◌%◌, ◌≤◌, ◌<◌, ◌≡◌, ◌≢◌, ◌⊎◌, inl, inr, sym, ap, subst, ◌∙◌, refl, some, List, [],
  ◌∷◌, length, ◌==◌, if◌then◌else◌, arith, eq_neg, Option-cases, ◌>>=◌,
}
use benchmark_fun.SparseSet.{id_mod, incr, SparseSet, Op, insert, remove, remove_all, step, run}
use benchmark_fun.SparseSet.Inv.{slots, validity, find, IsValid, find_unknown}
use benchmark_fun.SparseSet.Erase.{erase_lem}
use benchmark_fun.SparseSet.Insert.{push_back_lem}
use benchmark_fun.SparseSet.Handles.{erase-IsLive, clear-Cleared}

pub some-eq {ℓ} : {A : Type ℓ} {a b : A} → some a ≡ some b → a ≡ b
some-eq e = cc

-- The call does not erase the object under the ID.
abbrev pub Avoids {ℓ} : {A : Type ℓ} → ℕ → Op A → Type 0
Avoids id (insert x) = Unit
Avoids id (remove j) = j ≢ id
Avoids id remove_all = ⊥

abbrev pub AllAvoid {ℓ} : {A : Type ℓ} → ℕ → List (Op A) → Type 0
AllAvoid id [] = Unit
AllAvoid id (op ∷ ops) = Avoids id op × AllAvoid id ops

ages-of-if : (v v' k id : ℕ) → v' ≡ (if k == id then incr v else v) → (v' ≡ v) ⊎ (v' ≡ incr v)
ages-of-if v v' k id e = ground arith

module _ {ℓ} {A : Type ℓ} where
  -- What any call does to the slots.
  pub record Stepped (s s' : SparseSet A) : Type 0 where
    pub valid : IsValid s'
    pub no_fewer : slots s ≤ slots s'
    pub at_most : slots s' ≤ slots s + 1
    pub ages :
        (k : ℕ)
        → k < slots s
        → (validity s' k ≡ validity s k) ⊎ (validity s' k ≡ incr (validity s k))

  -- What a call leaves to an object that it does not erase.
  pub record Kept (s s' : SparseSet A) (id : ℕ) : Type ℓ where
    pub same_object : find s' id ≡ find s id
    pub same_validity : validity s' id ≡ validity s id

  pub known_of_find : (s : SparseSet A) (id : ℕ) {x : A} → find s id ≡ some x → id < slots s
  known_of_find s id e = elim (dec_lt id (slots s)) [
    | yes h ↦ h
    | no h ↦ cc (find_unknown s id (omega arith))
  ]

  pub step-Stepped :
      (s s' : SparseSet A) (op : Op A)
      → IsValid s
      → slots s + 1 < id_mod
      → step s op ≡ some s'
      → Stepped s s'
  unfolding step
  step-Stepped s s' (insert x) v room e =
      let (id, t, done, next, i) = push_back_lem s x v room in
      let same : t ≡ s' =
        some-eq (sym (ap (λ o. o >>= λ (r : ℕ × SparseSet A). some r.1) done) ∙ e) in
      subst (Stepped s) same (record {
        valid = i.valid;
        no_fewer = i.no_fewer;
        at_most = i.at_most;
        ages = λ k h. ages-of-if (validity s k) (validity t k) k id (i.validities k h);
      })
  step-Stepped s s' (remove id) v room e =
      let (t, done, r) = erase_lem s id v (erase-IsLive s s' id v e) in
      let same : t ≡ s' = some-eq (sym done ∙ e) in
      subst (Stepped s) same (record {
        valid = r.valid;
        no_fewer = omega (arith, r.same_slots);
        at_most = omega (arith, r.same_slots);
        ages = λ k h. ages-of-if (validity s k) (validity t k) k id (r.validities k h);
      })
  step-Stepped s s' remove_all v room e =
      let c = clear-Cleared s v in
      subst (Stepped s) (some-eq e) (record {
        valid = c.valid;
        no_fewer = omega (arith, c.same_slots);
        at_most = omega (arith, c.same_slots);
        ages = λ k h. inr (c.validities k h);
      })

  pub step-Kept :
      (s s' : SparseSet A) (op : Op A) (id : ℕ) {x : A}
      → IsValid s
      → slots s + 1 < id_mod
      → find s id ≡ some x
      → Avoids id op
      → step s op ≡ some s'
      → Kept s s' id
  unfolding step
  step-Kept s s' (insert y) id v room stored away e =
      let (j, t, done, next, i) = push_back_lem s y v room in
      let same : t ≡ s' =
        some-eq (sym (ap (λ o. o >>= λ (r : ℕ × SparseSet A). some r.1) done) ∙ e) in
      let other : id ≢ j = λ p. cc (i.fresh, ap (find s) p) in
      subst (λ t. Kept s t id) same
        (record {
          same_object = i.finds id ∙ rw (eq_neg other);
          same_validity = i.validities id (known_of_find s id stored) ∙ rw (eq_neg other);
        })
  step-Kept s s' (remove j) id v room stored away e =
      let (t, done, r) = erase_lem s j v (erase-IsLive s s' j v e) in
      let same : t ≡ s' = some-eq (sym done ∙ e) in
      let other : id ≢ j = λ p. away (sym p) in
      subst (λ t. Kept s t id) same
        (record {
          same_object = r.finds id ∙ rw (eq_neg other);
          same_validity = r.validities id (known_of_find s id stored) ∙ rw (eq_neg other);
        })
  step-Kept s s' remove_all id v room stored away e = absurd away

  -- What any sequence of calls does to a slot: its validity ID goes up by at most one a call.
  pub record Aged (s s' : SparseSet A) (n : ℕ) : Type 0 where
    pub valid : IsValid s'
    pub no_fewer : slots s ≤ slots s'
    pub ages :
        (k : ℕ)
        → k < slots s
        → (d : ℕ) × (d ≤ n) × (validity s' k % id_mod ≡ (validity s k + d) % id_mod)

  Aged-cons : (s t s' : SparseSet A) (n : ℕ) → Stepped s t → Aged t s' n → Aged s s' (suc n)
  Aged-cons s t s' n first rest = record {
    valid = rest.valid;
    no_fewer = omega (arith, first.no_fewer, rest.no_fewer);
    ages = λ k h.
        let (d, few, e) = rest.ages k (omega (arith, first.no_fewer)) in
        elim (first.ages k h) [
          | inl same ↦ (d, omega arith, omega arith)
          | inr up ↦ (d + 1, omega arith, omega arith)
        ];
  }

  pub run-Aged :
      (s s' : SparseSet A) (ops : List (Op A))
      → IsValid s
      → slots s + length ops < id_mod
      → run s ops ≡ some s'
      → Aged s s' (length ops)
  unfolding run
  run-Aged s s' [] v room e =
      subst (λ t. Aged s t 0) (some-eq e)
        (record { valid = v; no_fewer = omega arith; ages = λ k h. (0, omega arith, omega arith) })
  run-Aged s s' (op ∷ ops) v room e = elim (Option-cases (step s op)) [
    | inl fault ↦ absurd (cc (sym e ∙ ap (λ o. o >>= λ t. run t ops) fault))
    | inr (t, first) ↦
        let st = step-Stepped s t op v (omega arith) first in
        Aged-cons s t s' (length ops) st (
          run-Aged t s' ops st.valid (omega (arith, st.at_most))
            (sym (ap (λ o. o >>= λ t. run t ops) first) ∙ e))
  ]

  pub run-Kept :
      (s s' : SparseSet A) (ops : List (Op A)) (id : ℕ) {x : A}
      → IsValid s
      → slots s + length ops < id_mod
      → find s id ≡ some x
      → AllAvoid id ops
      → run s ops ≡ some s'
      → Kept s s' id
  unfolding run
  run-Kept s s' [] id v room stored away e =
      subst (λ t. Kept s t id) (some-eq e) (record { same_object = refl; same_validity = refl })
  run-Kept s s' (op ∷ ops) id v room stored away e = elim (Option-cases (step s op)) [
    | inl fault ↦ cc (sym e ∙ ap (λ o. o >>= λ t. run t ops) fault)
    | inr (t, first) ↦
        let st = step-Stepped s t op v (omega arith) first in
        let k = step-Kept s t op id v (omega arith) stored away.0 first in
        let rest =
          run-Kept t s' ops id st.valid (omega (arith, st.at_most)) (k.same_object ∙ stored) away.1
            (sym (ap (λ o. o >>= λ t. run t ops) first) ∙ e) in
        record {
          same_object = rest.same_object ∙ k.same_object;
          same_validity = rest.same_validity ∙ k.same_validity;
        }
  ]
