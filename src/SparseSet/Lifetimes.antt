-- ===== src/SparseSet/Lifetimes.antt =====
-- How long a handle of src/utils/sparse_set.hpp is valid, over any sequence of calls.
use native.Mathlib.Decide.{dec_lt}
use benchmark_fun.Common.{
  ℕ, ◌+◌, ◌<◌, ◌≡◌, ◌≢◌, sym, ap, subst, ◌∙◌, refl, Bool, true, false, Option, some, List, length,
  ◌==◌, if◌then◌else◌, arith, ltb_pos, eq_pos, eq_neg, get_elem?-eq-get_or, get_elem?_out,
}
use benchmark_fun.SparseSet.{
  id_mod, incr, SparseSet, Handle, Op, erase, create_handle, handle_is_valid, deref, erase_handle,
  erasure, Erasure, run,
}
use benchmark_fun.SparseSet.Inv.{
  no_metadata, slots, index_at, validity, IsLive, find, IsValid, find_known,
}
use benchmark_fun.SparseSet.Erase.{Erased, erase_lem}
use benchmark_fun.SparseSet.Handles.{is_valid_known, erase-IsLive}
use benchmark_fun.SparseSet.Calls.{some-eq, AllAvoid, Kept, Aged, known_of_find, run-Aged, run-Kept}

-- A handle to `id` made with validity ID `w` by the vector at `this`.
abbrev handle_to : ℕ → ℕ → ℕ → Handle
handle_to this id w = record { m_id = id; m_validity_id = w; m_vector = some this }

module _ {ℓ} {A : Type ℓ} where
  create_handle_live :
      (this : ℕ) (s : SparseSet A) (id : ℕ)
      → IsValid s
      → IsLive s id
      → create_handle this s id
        ≡ some (record { m_id = id; m_validity_id = validity s id; m_vector = some this })
  unfolding create_handle
  create_handle_live this s id v live = rw (
    get_elem?-eq-get_or s.m_indexes id 0 (omega (arith, v.same, live.known)),
    ltb_pos live.stored,
    get_elem?-eq-get_or s.m_metadata (index_at s id) no_metadata (v.index_lt id live.known),
  )

  IsLive-of-find : (s : SparseSet A) (id : ℕ) {x : A} → find s id ≡ some x → IsLive s id
  IsLive-of-find s id e = elim (dec_lt (index_at s id) (length s.m_data)) [
    | yes h ↦ record { known = known_of_find s id e; stored = h }
    | no h ↦ cc (
      find_known s id (known_of_find s id e),
      get_elem?_out s.m_data (index_at s id) (omega arith),
    )
  ]

  module _ (store : ℕ → Option (SparseSet A)) (this : ℕ) (s : SparseSet A) (v : IsValid s)
      (at_this : store this ≡ some s) (id w : ℕ) where
    handle_is_valid-handle_to :
        id < slots s → handle_is_valid store (handle_to this id w) ≡ some (w == validity s id)
    unfolding handle_is_valid
    handle_is_valid-handle_to h = rw at_this (is_valid_known s v id w h)

    deref-handle_to : id < slots s → deref store (handle_to this id w) ≡ find s id
    unfolding deref
    deref-handle_to h =
        rw (at_this, get_elem?-eq-get_or s.m_indexes id 0 (omega (arith, v.same)))
          (sym (find_known s id h))

  -- Whatever calls follow that do not erase its object, insertions and erasures of others included,
  -- a handle made to a stored object stays valid and leads to that same object, so long as the
  -- slots at the time and the calls after it are together fewer than 2 ^ 64.
  pub handle_stays_valid :
      (store : ℕ → Option (SparseSet A)) (this : ℕ) (s s' : SparseSet A) (ops : List (Op A))
      (id : ℕ) (x : A) (h : Handle)
      → IsValid s
      → slots s + length ops < id_mod
      → find s id ≡ some x
      → AllAvoid id ops
      → create_handle this s id ≡ some h
      → run s ops ≡ some s'
      → store this ≡ some s'
      → (handle_is_valid store h ≡ some true) × (deref store h ≡ some x)
  handle_stays_valid store this s s' ops id x h v room stored away made ran at_this =
      subst (λ h. (handle_is_valid store h ≡ some true) × (deref store h ≡ some x)) is_handle
        (
          handle_is_valid-handle_to store this s' aged.valid at_this id (validity s id) known
              ∙ ap some (eq_pos (sym kept.same_validity)),
          deref-handle_to store this s' aged.valid at_this id (validity s id) known
              ∙ kept.same_object
              ∙ stored,
        )
    where
      is_handle : handle_to this id (validity s id) ≡ h
      is_handle = some-eq (sym (create_handle_live this s id v (IsLive-of-find s id stored)) ∙ made)

      aged : Aged s s' (length ops)
      aged = run-Aged s s' ops v room ran

      kept : Kept s s' id
      kept = run-Kept s s' ops id v room stored away ran

      known : id < slots s'
      known = omega (arith, aged.no_fewer, known_of_find s id stored)

  -- Once its object is erased by `erase(id)`, a handle stays invalid, whatever calls follow, also
  -- when its slot is used again, so long as the slots at the time of the erasure and the calls
  -- after it are together fewer than 2 ^ 64 - 1: beyond that IDs or the 64-bit validity ID might
  -- come round.
  pub handle_stays_invalid :
      (store : ℕ → Option (SparseSet A)) (this : ℕ) (s s₁ s' : SparseSet A) (ops : List (Op A))
      (id : ℕ) (h : Handle)
      → IsValid s
      → slots s + length ops + 1 < id_mod
      → create_handle this s id ≡ some h
      → erase s id ≡ some s₁
      → run s₁ ops ≡ some s'
      → store this ≡ some s'
      → handle_is_valid store h ≡ some false
  handle_stays_invalid store this s s₁ s' ops id h v room made gone ran at_this =
      let live = erase-IsLive s s₁ id v gone in
      let (t, done, r) = erase_lem s id v live in
      let same : t ≡ s₁ = some-eq (sym done ∙ gone) in
      let e : Erased s id s₁ = subst (Erased s id) same r in
      let aged = run-Aged s₁ s' ops e.valid (omega (arith, e.same_slots)) ran in
      let known : id < slots s₁ = omega (arith, e.same_slots, live.known) in
      let bumped : validity s₁ id ≡ incr (validity s id) =
        e.validities id live.known ∙ rw (eq_pos {a = id} {b = id} refl) in
      let (d, few, age) = aged.ages id known in
      let stale : validity s id ≢ validity s' id = λ p. absurd (omega arith) in
      let is_handle : handle_to this id (validity s id) ≡ h =
        some-eq (sym (create_handle_live this s id v live) ∙ made) in
      subst (λ h. handle_is_valid store h ≡ some false) is_handle
        (handle_is_valid-handle_to store this s' aged.valid at_this id (validity s id)
            (omega (arith, aged.no_fewer))
          ∙ ap some (eq_neg stale))

  create_handle-IsLive :
      (this : ℕ) (s : SparseSet A) (id : ℕ) (h : Handle)
      → IsValid s
      → create_handle this s id ≡ some h
      → IsLive s id
  unfolding create_handle
  create_handle-IsLive this s id h v made = elim (dec_lt id (slots s)) [
    | no new ↦ absurd (ground (arith, v.same, get_elem?_out s.m_indexes id))
    | yes old ↦ elim (dec_lt (index_at s id) (length s.m_data)) [
      | yes stored ↦ record { known = old; stored = stored }
      | no freed ↦ absurd (ground (arith, v.same, get_elem?-eq-get_or s.m_indexes id 0))
    ]
  ]

  -- What `erase(handle)` does at an answer of `isValid`.
  erase_handle-at :
      (store : ℕ → Option (SparseSet A)) (this id w : ℕ) (s : SparseSet A) (valid : Bool)
      → store this ≡ some s
      → handle_is_valid store (handle_to this id w) ≡ some valid
      → erase_handle store this (handle_to this id w)
        ≡ (if valid then erasure (erase s id) else Erasure.assert_failed)
  unfolding erase_handle
  erase_handle-at store this id w s valid at_this answer =
      rw (answer, at_this, eq_pos {a = this} {b = this} refl)

  -- A handle made to a stored object erases that object through its vector, as `erase(id)` does.
  -- Whatever calls follow, a second `erase` with the same handle then fails its assert, also when
  -- its slot holds another object, which `erase(id)` would erase; so long as the slots at the time
  -- and the calls in between are together fewer than 2 ^ 64 - 1.
  pub erase_handle_once :
      (store store' : ℕ → Option (SparseSet A)) (this : ℕ) (s s₁ s' : SparseSet A)
      (ops : List (Op A)) (id : ℕ) (h : Handle)
      → IsValid s
      → slots s + length ops + 1 < id_mod
      → store this ≡ some s
      → create_handle this s id ≡ some h
      → erase s id ≡ some s₁
      → run s₁ ops ≡ some s'
      → store' this ≡ some s'
      → (erase_handle store this h ≡ Erasure.finished s₁)
        × (erase_handle store' this h ≡ Erasure.assert_failed)
  erase_handle_once store store' this s s₁ s' ops id h v room at_this made gone ran at_this' =
      let live = create_handle-IsLive this s id h v made in
      let w = validity s id in
      let is_handle : handle_to this id w ≡ h =
        some-eq (sym (create_handle_live this s id v live) ∙ made) in
      let fresh : handle_is_valid store (handle_to this id w) ≡ some true =
        handle_is_valid-handle_to store this s v at_this id w live.known
        ∙ ap some (eq_pos {a = w} {b = w} refl) in
      let stale : handle_is_valid store' (handle_to this id w) ≡ some false =
        subst (λ h. handle_is_valid store' h ≡ some false) (sym is_handle)
          (handle_stays_invalid store' this s s₁ s' ops id h v room made gone ran at_this') in
      subst
        (λ h.
          (erase_handle store this h ≡ Erasure.finished s₁)
          × (erase_handle store' this h ≡ Erasure.assert_failed))
        is_handle
        (
          erase_handle-at store this id w s true at_this fresh ∙ ap erasure gone,
          erase_handle-at store' this id w s' false at_this' stale,
        )
