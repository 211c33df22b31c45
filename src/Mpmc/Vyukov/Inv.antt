-- ===== src/Mpmc/Vyukov/Inv.antt =====
-- What holds between any two accesses of the threads of src/benchmarks/MPMC/vyukov.hpp.
use native.Mathlib.Decide.{ℕ_discrete}
use benchmark_fun.Common.{
  update, update_at, update_off, ℕ, suc, ◌^◌, ◌≤◌, ◌<◌, ◌≡◌, ◌≢◌, refl, sym, ap, subst, ◌∙◌, List,
  [], ◌∷◌, length, get_or, arith,
}
use benchmark_fun.Mpmc.Vyukov.{slot_of, Thread, System}

module _ (size : ℕ) where
  -- What a thread knows of the position that it works at.
  abbrev pub Ok : System → ℕ → Thread → Type 0
  Ok s t Thread.idle = 0 ≤ 0
  Ok s t (Thread.push_loading val pos) = pos ≤ s.write_idx
  Ok s t (Thread.push_claiming val pos) =
      (pos ≤ s.write_idx) × (s.write_idx ≡ pos → s.sequence (slot_of size pos) ≡ pos)
  Ok s t (Thread.writing val pos) =
      (pos < s.write_idx)
      × (s.sequence (slot_of size pos) ≡ pos)
      × (s.writer pos ≡ suc t)
      × (get_or s.pushed pos 0 ≡ val)
  Ok s t (Thread.publishing pos) =
      (pos < s.write_idx)
      × (s.sequence (slot_of size pos) ≡ pos)
      × (s.writer pos ≡ suc t)
      × (s.value (slot_of size pos) ≡ get_or s.pushed pos 0)
  Ok s t (Thread.pop_loading pos) = pos ≤ s.read_idx
  Ok s t (Thread.pop_claiming pos) =
      (pos ≤ s.read_idx) × (s.read_idx ≡ pos → s.sequence (slot_of size pos) ≡ suc pos)
  Ok s t (Thread.reading pos) =
      (pos < s.read_idx) × (s.sequence (slot_of size pos) ≡ suc pos) × (s.reader pos ≡ suc t)
  Ok s t (Thread.releasing pos val) =
      (pos < s.read_idx)
      × (s.sequence (slot_of size pos) ≡ suc pos)
      × (s.reader pos ≡ suc t)
      × (get_or s.pushed pos 0 ≡ val)

  -- Each pop returned what was pushed at its position, and its slot has been released.
  abbrev pub AllPopped : ℕ → List ℕ → (ℕ → ℕ) → List (ℕ × ℕ) → Type 0
  AllPopped read_idx pushed reader [] = 0 ≤ 0
  AllPopped read_idx pushed reader ((pos, val) ∷ popped) =
      ((pos < read_idx) × (get_or pushed pos 0 ≡ val) × (reader pos ≡ 0))
      × AllPopped read_idx pushed reader popped

  -- A position that none of the pops had.
  abbrev pub Fresh : ℕ → List (ℕ × ℕ) → Type 0
  Fresh pos [] = 0 ≤ 0
  Fresh pos ((other, _) ∷ popped) = (pos ≢ other) × Fresh pos popped

  abbrev pub Distinct : List (ℕ × ℕ) → Type 0
  Distinct [] = 0 ≤ 0
  Distinct ((pos, _) ∷ popped) = Fresh pos popped × Distinct popped

  pub record Inv (s : System) : Type 0 where
    pub count : s.write_idx ≡ length s.pushed
    pub read_le : s.read_idx ≤ s.write_idx
    pub contents :
        (pos : ℕ)
        → s.sequence (slot_of size pos) ≡ suc pos
        → (pos < s.write_idx) × (s.value (slot_of size pos) ≡ get_or s.pushed pos 0)
    pub threads_ok : (t : ℕ) → Ok s t (s.threads t)
    pub words : (pos : ℕ) → s.sequence (slot_of size pos) < 2 ^ 64
    pub popped_ok : AllPopped s.read_idx s.pushed s.reader s.popped
    pub popped_once : Distinct s.popped

  -- Every thread is fine after a step of `t`, if `t` is and the others stay so.
  pub all-Ok :
      (s s' : System) (t : ℕ) (th : Thread)
      → s'.threads ≡ update s.threads t th
      → Ok s' t th
      → ((u : ℕ) (other : Thread) → t ≢ u → Ok s u other → Ok s' u other)
      → ((u : ℕ) → Ok s u (s.threads u))
      → (u : ℕ) → Ok s' u (s'.threads u)
  all-Ok s s' t th e mine others ok u = elim (ℕ_discrete t u) [
    | yes same ↦
        subst (λ v. Ok s' v (s'.threads v)) same
          (subst (λ x. Ok s' t x) (sym (ap (λ f. f t) e ∙ update_at s.threads t th)) mine)
    | no other ↦
        subst (λ x. Ok s' u x) (sym (ap (λ f. f u) e ∙ update_off s.threads t u th other))
          (others u (s.threads u) other (ok u))
  ]

  pub AllPopped-mono :
      {r r' : ℕ} (pushed pushed' : List ℕ) (reader reader' : ℕ → ℕ) (xs : List (ℕ × ℕ))
      → r ≤ r'
      → ((p : ℕ) → p < r → get_or pushed' p 0 ≡ get_or pushed p 0)
      → ((p : ℕ) → p < r → reader p ≡ 0 → reader' p ≡ 0)
      → AllPopped r pushed reader xs
      → AllPopped r' pushed' reader' xs
  AllPopped-mono pushed pushed' reader reader' [] le values readers ok = ok
  AllPopped-mono pushed pushed' reader reader' ((pos, val) ∷ xs) le values readers (ok, rest) = (
    (omega (arith, ok.0), values pos ok.0 ∙ ok.1, readers pos ok.0 ok.2),
    AllPopped-mono pushed pushed' reader reader' xs le values readers rest,
  )

  -- A position that someone reads has not been popped.
  pub AllPopped-Fresh :
      (r : ℕ) (pushed : List ℕ) (reader : ℕ → ℕ) (xs : List (ℕ × ℕ)) (pos : ℕ)
      → reader pos ≢ 0
      → AllPopped r pushed reader xs
      → Fresh pos xs
  AllPopped-Fresh r pushed reader [] pos busy ok = ok
  AllPopped-Fresh r pushed reader ((other, _) ∷ xs) pos busy (ok, rest) =
      ((λ same. busy (ap reader same ∙ ok.2)), AllPopped-Fresh r pushed reader xs pos busy rest)

  -- A step that only moves its thread.
  module _ (s : System) (t : ℕ) (inv : Inv s) where
    moved-Ok :
        (threads : ℕ → Thread) (u : ℕ) (other : Thread)
        → Ok s u other
        → Ok (record s { threads = threads }) u other
    moved-Ok threads u Thread.idle ok = ok
    moved-Ok threads u (Thread.push_loading val pos) ok = ok
    moved-Ok threads u (Thread.push_claiming val pos) ok = ok
    moved-Ok threads u (Thread.writing val pos) ok = ok
    moved-Ok threads u (Thread.publishing pos) ok = ok
    moved-Ok threads u (Thread.pop_loading pos) ok = ok
    moved-Ok threads u (Thread.pop_claiming pos) ok = ok
    moved-Ok threads u (Thread.reading pos) ok = ok
    moved-Ok threads u (Thread.releasing pos val) ok = ok

    pub moved-Inv : (th : Thread) → Ok s t th → Inv (record s { threads = update s.threads t th })
    moved-Inv th ok =
        let threads = update s.threads t th in
        let s' = record s { threads = threads } in
        record {
          count = inv.count;
          read_le = inv.read_le;
          contents = inv.contents;
          threads_ok =
              all-Ok s s' t th refl (moved-Ok threads t th ok)
                (λ u other _ o. moved-Ok threads u other o) inv.threads_ok;
          words = inv.words;
          popped_ok = inv.popped_ok;
          popped_once = inv.popped_once;
        }
