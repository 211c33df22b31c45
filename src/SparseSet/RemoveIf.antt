-- ===== src/SparseSet/RemoveIf.antt =====
-- `remove_if` of src/utils/sparse_set.hpp: the index stays where an object was erased, since
-- another one has taken its place.
use native.Mathlib.Decide.{dec_lt, ℕ_discrete}
use benchmark_fun.Common.{
  ℕ, zero, suc, ◌+◌, ◌%◌, ◌^◌, ◌≤◌, ◌<◌, ◌≡◌, ◌≢◌, inl, inr, sym, ap, subst, ◌∙◌, refl, Bool, true,
  false, Option, none, some, length, get_elem?, ◌==◌, if◌then◌else◌, arith, eq_pos, eq_neg,
  Bool-cases, get_elem?-eq-get_or, get_elem?_in, get_elem?_out,
}
use benchmark_fun.SparseSet.{SparseSet, erase, erase_via_data, remove_if_from, remove_if}
use benchmark_fun.SparseSet.Inv.{
  no_metadata, slots, index_at, rid_at, IsLive, find, IsValid, find_known, find_unknown,
}
use benchmark_fun.SparseSet.Erase.{Erased, erase_lem}

-- What the predicate leaves of a map's entry.
abbrev pub keep {ℓ} : {A : Type ℓ} → (A → Bool) → Option A → Option A
keep p none = none
keep p (some x) = if p x then none else some x

module _ {ℓ} {A : Type ℓ} (p : A → Bool) where
  -- No object in front of index `i` matches.
  abbrev IsKept : SparseSet A → ℕ → Type ℓ
  IsKept s i = (k : ℕ) → k < slots s → index_at s k < i → keep p (find s k) ≡ find s k

  record Removed (s s' : SparseSet A) : Type ℓ where
    valid : IsValid s'
    same_slots : slots s' ≡ slots s
    finds : (k : ℕ) → find s' k ≡ keep p (find s k)

  keep-skip :
      (o : Option A) (k id : ℕ)
      → (k ≢ id → keep p o ≡ o)
      → keep p (if k == id then none else o) ≡ (if k == id then none else o)
  keep-skip o k id h = elim (ℕ_discrete k id) [ yes e ↦ rw (eq_pos e) | no n ↦ rw (eq_neg n) (h n) ]

  module _ (s : SparseSet A) (v : IsValid s) (i : ℕ) (h : i < length s.m_data) (x : A)
      (at_i : get_elem? s.m_data i ≡ some x) where
    id : ℕ
    id = rid_at s i

    id-IsLive : IsLive s id
    unfolding id
    id-IsLive = record {
      known = v.rid_lt i (omega (arith, v.fits));
      stored = omega (arith, v.index-rid i, v.fits);
    }

    index-id : index_at s id ≡ i
    unfolding id
    index-id = v.index-rid i (omega (arith, v.fits))

    erase_via_data-eq-erase : erase_via_data s i ≡ erase s id
    unfolding erase_via_data id
    erase_via_data-eq-erase =
        rw (get_elem?-eq-get_or s.m_metadata i no_metadata (omega (arith, v.fits)))

    find-id : find s id ≡ some x
    find-id = find_known s id (id-IsLive.known) ∙ ap (get_elem? s.m_data) index-id ∙ at_i

    IsKept-Erased : {s' : SparseSet A} → Erased s id s' → IsKept s i → IsKept s' i
    IsKept-Erased {s' = s'} e kept k hk hi =
        subst (λ o. keep p o ≡ o) (sym (e.finds k)) (keep-skip (find s k) k id old_kept)
      where
        known : k < slots s
        known = omega (arith, e.same_slots)

        old_kept : k ≢ id → keep p (find s k) ≡ find s k
        old_kept n = kept k known (omega (arith, e.before k known, index-id))

    IsKept-suc : p x ≡ false → IsKept s i → IsKept s (i + 1)
    IsKept-suc px kept k hk hi = elim (dec_lt (index_at s k) i) [
      | yes below ↦ kept k hk below
      | no here ↦
          let at_k : find s k ≡ some x =
            find_known s k hk ∙ ap (get_elem? s.m_data) (omega arith) ∙ at_i in
          subst (λ o. keep p o ≡ o) (sym at_k) (rw px)
    ]

    keep-Erased :
        p x ≡ true
        → {s' : SparseSet A} → Erased s id s'
        → (k : ℕ) → keep p (find s' k) ≡ keep p (find s k)
    keep-Erased px e k = ap (keep p) (e.finds k) ∙ elim (ℕ_discrete k id) [
      | yes same ↦
          let at_k : find s k ≡ some x = ap (find s) same ∙ find-id in
          rw (eq_pos same) (subst (λ o. none ≡ keep p o) (sym at_k) (rw px))
      | no other ↦ rw (eq_neg other)
    ]

    -- One round of the loop at an object in range.
    module _ (fuel : ℕ) where
      round_removes :
          p x ≡ true
          → {s' : SparseSet A} → erase s id ≡ some s'
          → remove_if_from p (suc fuel) i s ≡ remove_if_from p fuel i s'
      unfolding remove_if_from
      round_removes px e = rw (at_i, remove_if_from) (rw px (rw (erase_via_data-eq-erase, e)))

      round_keeps :
          p x ≡ false
          → i + 1 < 2 ^ 32
          → remove_if_from p (suc fuel) i s ≡ remove_if_from p fuel (i + 1) s
      unfolding remove_if_from
      round_keeps px small =
          let no_wrap : (i + 1) % 2 ^ 32 ≡ i + 1 = omega arith in
          rw (at_i, remove_if_from) (rw px (ap (λ j. remove_if_from p fuel j s) no_wrap))

  remove_if_from_lem :
      (fuel i : ℕ) (s : SparseSet A)
      → IsValid s
      → length s.m_data < fuel + i
      → length s.m_data < 2 ^ 32
      → i ≤ length s.m_data
      → IsKept s i
      → (s' : SparseSet A) × (remove_if_from p fuel i s ≡ some s') × Removed s s'
  remove_if_from_lem zero i s v enough small h kept = absurd (omega arith)
  remove_if_from_lem (suc fuel) i s v enough small h kept = elim (dec_lt i (length s.m_data)) [
    | no past ↦ (
      s,
      unfold remove_if_from in rw (get_elem?_out s.m_data i (omega arith), remove_if_from),
      record { valid = v; same_slots = refl; finds = λ k. sym (all_kept k past) },
    )
    | yes inside ↦
        let (x, at_i) = get_elem?_in s.m_data i inside in
        elim (Bool-cases (p x)) [
          | inl px ↦
              let (s₁, done, e) =
                erase_lem s (id s v i inside x at_i) v (id-IsLive s v i inside x at_i) in
              let (s₂, done₂, r) =
                remove_if_from_lem fuel i s₁ e.valid (omega (arith, e.one_less))
                  (omega (arith, e.one_less)) (omega (arith, e.one_less))
                  (IsKept-Erased s v i inside x at_i e kept) in
              (
                s₂,
                round_removes s v i inside x at_i fuel px done ∙ done₂,
                record {
                  valid = r.valid;
                  same_slots = r.same_slots ∙ e.same_slots;
                  finds = λ k. r.finds k ∙ keep-Erased s v i inside x at_i px e k;
                },
              )
          | inr px ↦
              let (s₂, done₂, r) =
                remove_if_from_lem fuel (i + 1) s v (omega arith) small (omega arith)
                  (IsKept-suc s v i inside x at_i px kept) in
              (s₂, round_keeps s v i inside x at_i fuel px (omega arith) ∙ done₂, r)
        ]
  ]
    where
      all_kept : (k : ℕ) → ¬ (i < length s.m_data) → keep p (find s k) ≡ find s k
      all_kept k past = elim (dec_lt k (slots s)) [
        | no new ↦ subst (λ o. keep p o ≡ o) (sym (find_unknown s k (omega arith))) refl
        | yes old ↦ elim (dec_lt (index_at s k) i) [
          | yes below ↦ kept k old below
          | no above ↦
              let gone : find s k ≡ none =
                find_known s k old ∙ get_elem?_out s.m_data (index_at s k) (omega arith) in
              subst (λ o. keep p o ≡ o) (sym gone) refl
        ]
      ]

  -- With fewer than 2 ^ 32 objects, which its 32-bit index can count, the loop ends without an
  -- access out of range; exactly the matching objects leave the map, and the invariant is kept.
  pub remove_if_lem :
      (s : SparseSet A)
      → IsValid s
      → length s.m_data < 2 ^ 32
      → (s' : SparseSet A) × (remove_if p s ≡ some s')
        × IsValid s'
        × ((k : ℕ) → find s' k ≡ keep p (find s k))
  unfolding remove_if
  remove_if_lem s v small =
      let (s', done, r) =
        remove_if_from_lem (suc (length s.m_data)) 0 s v (omega arith) small (omega arith)
          (λ k hk none_below. absurd (omega arith)) in
      (s', done, r.valid, r.finds)
