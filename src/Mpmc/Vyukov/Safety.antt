-- ===== src/Mpmc/Vyukov/Safety.antt =====
-- What any number of threads can rely on with the queue of src/benchmarks/MPMC/vyukov.hpp.
use benchmark_fun.Common.{
  agree, ℕ, zero, suc, ◌+◌, ◌^◌, ◌≤◌, ◌≡◌, ◌≢◌, refl, sym, ap, ◌∙◌, List, [], ◌∷◌, length, arith,
  Option, none, some, get_elem?, get_elem?-eq-get_or,
}
use mathlib.Core.Option.{some-injective}
use benchmark_fun.Mpmc.Vyukov.{slot_of, start, Thread, System, Reach}
use benchmark_fun.Common.{pow_pos, slot_next, slot_round, slot_lt, slot_le}
use benchmark_fun.Mpmc.Vyukov.Inv.{Ok, AllPopped, Fresh, Distinct, Inv}
use benchmark_fun.Mpmc.Vyukov.Reachable.{start-Inv, reach-Inv}

-- Two entries of the pops have different positions.
abbrev pub EachOnce : List (ℕ × ℕ) → Type 0
EachOnce popped =
    (i j pos val val' : ℕ)
    → get_elem? popped i ≡ some (pos, val)
    → get_elem? popped j ≡ some (pos, val')
    → i ≡ j

abbrev pub Delivered : List ℕ → List (ℕ × ℕ) → Type 0
Delivered pushed popped =
    (i pos val : ℕ) → get_elem? popped i ≡ some (pos, val) → get_elem? pushed pos ≡ some val

-- The slot whose value a thread is about to write or to read.
abbrev pub touches : ℕ → Thread → Option ℕ
touches size (Thread.writing val pos) = some (slot_of size pos)
touches size (Thread.reading pos) = some (slot_of size pos)
touches size _ = none

pub first_Inv : (k : ℕ) → 2 ^ suc k ≤ 2 ^ 63 → Inv (2 ^ suc k) start
first_Inv k small =
    start-Inv (2 ^ suc k) (slot_next k) (slot_round (suc k)) (pow_pos (suc k)) small
      (slot_lt (suc k)) (slot_le (suc k))

pub invariant :
    (k : ℕ) {s : System}
    → Reach (2 ^ suc k) s
    → length s.pushed + 2 ^ suc k ≤ 2 ^ 63
    → Inv (2 ^ suc k) s
invariant k reach room =
    let init = first_Inv k (omega (arith, room)) in
    reach-Inv (2 ^ suc k) (slot_next k) (slot_round (suc k)) (pow_pos (suc k)) init reach room

-- The parts of a pair that an entry is.
pub same_entry :
    {a b pos val : ℕ}
    → ◌≡◌ {A = Option (ℕ × ℕ)} (some (a, b)) (some (pos, val))
    → (a ≡ pos) × (b ≡ val)
same_entry e = let pair = some-injective _ _ e in (ap (λ x. x.0) pair, ap (λ x. x.1) pair)

pub delivered :
    (size : ℕ) (s : System) (xs : List (ℕ × ℕ))
    → s.read_idx ≤ length s.pushed
    → AllPopped size s.read_idx s.pushed s.reader xs
    → Delivered s.pushed xs
delivered size s [] le ok i pos val at = cc at
delivered size s ((pos', val') ∷ xs) le (ok, rest) zero pos val at =
    let same = same_entry at in
    ap (get_elem? s.pushed) (sym same.0)
    ∙ get_elem?-eq-get_or s.pushed pos' 0 (omega (arith, ok.0, le))
    ∙ ap some (ok.1 ∙ same.1)
delivered size s ((pos', val') ∷ xs) le (ok, rest) (suc i) pos val at =
    delivered size s xs le rest i pos val at

fresh :
    (size : ℕ) (xs : List (ℕ × ℕ)) (pos : ℕ)
    → Fresh size pos xs
    → (i pos' val : ℕ) → get_elem? xs i ≡ some (pos', val)
    → pos ≢ pos'
fresh size [] pos ok i pos' val at = cc at
fresh size ((other, v) ∷ xs) pos (ok, rest) zero pos' val at = λ e. ok (e ∙ sym ((same_entry at).0))
fresh size ((other, v) ∷ xs) pos (ok, rest) (suc i) pos' val at =
    fresh size xs pos rest i pos' val at

each_once : (size : ℕ) (xs : List (ℕ × ℕ)) → Distinct size xs → EachOnce xs
each_once size [] ok i j pos val val' at at' = cc at
each_once size ((p, v) ∷ xs) (ok, rest) zero zero pos val val' at at' = refl
each_once size ((p, v) ∷ xs) (ok, rest) zero (suc j) pos val val' at at' =
    absurd (fresh size xs p ok j pos val' at' ((same_entry at).0))
each_once size ((p, v) ∷ xs) (ok, rest) (suc i) zero pos val val' at at' =
    absurd (fresh size xs p ok i pos val at ((same_entry at').0))
each_once size ((p, v) ∷ xs) (ok, rest) (suc i) (suc j) pos val val' at at' =
    ap suc (each_once size xs rest i j pos val val' at at')

module _ (size : ℕ) (next : (pos : ℕ) → slot_of size (suc pos) ≢ slot_of size pos) (s : System)
    (t u : ℕ) where
  same_thread :
      (th th' : Thread) (i : ℕ)
      → touches size th ≡ some i
      → touches size th' ≡ some i
      → Ok size s t th
      → Ok size s u th'
      → t ≡ u
  same_thread (Thread.writing v p) (Thread.writing w q) i a b ok ok' =
      let same = agree s.sequence (some-injective _ _ (a ∙ sym b)) ok.1 ok'.1 in
      omega (arith, ok.2, ok'.2, ap s.writer same)
  same_thread (Thread.writing v p) (Thread.reading q) i a b ok ok' =
      let slots = some-injective _ _ (a ∙ sym b) in
      absurd (next q (ap (slot_of size) (sym (agree s.sequence slots ok.1 ok'.1)) ∙ slots))
  same_thread (Thread.reading p) (Thread.writing w q) i a b ok ok' =
      let slots = some-injective _ _ (b ∙ sym a) in
      absurd (next p (ap (slot_of size) (sym (agree s.sequence slots ok'.1 ok.1)) ∙ slots))
  same_thread (Thread.reading p) (Thread.reading q) i a b ok ok' =
      let stamps = agree s.sequence (some-injective _ _ (a ∙ sym b)) ok.1 ok'.1 in
      let same : p ≡ q = omega (arith, stamps) in omega (arith, ok.2, ok'.2, ap s.reader same)
  same_thread Thread.idle th' i a b ok ok' = cc a
  same_thread (Thread.push_loading v p) th' i a b ok ok' = cc a
  same_thread (Thread.push_claiming v p) th' i a b ok ok' = cc a
  same_thread (Thread.publishing p) th' i a b ok ok' = cc a
  same_thread (Thread.pop_loading p) th' i a b ok ok' = cc a
  same_thread (Thread.pop_claiming p) th' i a b ok ok' = cc a
  same_thread (Thread.releasing p v) th' i a b ok ok' = cc a
  same_thread (Thread.writing v p) Thread.idle i a b ok ok' = cc b
  same_thread (Thread.writing v p) (Thread.push_loading w q) i a b ok ok' = cc b
  same_thread (Thread.writing v p) (Thread.push_claiming w q) i a b ok ok' = cc b
  same_thread (Thread.writing v p) (Thread.publishing q) i a b ok ok' = cc b
  same_thread (Thread.writing v p) (Thread.pop_loading q) i a b ok ok' = cc b
  same_thread (Thread.writing v p) (Thread.pop_claiming q) i a b ok ok' = cc b
  same_thread (Thread.writing v p) (Thread.releasing q w) i a b ok ok' = cc b
  same_thread (Thread.reading p) Thread.idle i a b ok ok' = cc b
  same_thread (Thread.reading p) (Thread.push_loading w q) i a b ok ok' = cc b
  same_thread (Thread.reading p) (Thread.push_claiming w q) i a b ok ok' = cc b
  same_thread (Thread.reading p) (Thread.publishing q) i a b ok ok' = cc b
  same_thread (Thread.reading p) (Thread.pop_loading q) i a b ok ok' = cc b
  same_thread (Thread.reading p) (Thread.pop_claiming q) i a b ok ok' = cc b
  same_thread (Thread.reading p) (Thread.releasing q w) i a b ok ok' = cc b

module _ (k : ℕ) {s : System} (reach : Reach (2 ^ suc k) s)
    (room : length s.pushed + 2 ^ suc k ≤ 2 ^ 63) where
  -- However any number of threads interleave in a queue of two slots or more, as long as the values
  -- pushed and the slots are at most 2 ^ 63 together, a pop that returned a value returned the one
  -- that was pushed at its position, and no two of the pops had the same position: no item is made
  -- up, torn or delivered twice.
  pub vyukov_delivers : Delivered s.pushed s.popped × EachOnce s.popped
  vyukov_delivers =
      let v = invariant k reach room in
      (
        delivered (2 ^ suc k) s s.popped (omega (arith, v.count, v.read_le)) v.popped_ok,
        each_once (2 ^ suc k) s.popped v.popped_once,
      )

  -- No two threads access the value of one slot, which is not atomic, at the same time: two threads
  -- that are about to write or to read the value of the same slot are the same thread. The queue
  -- has two slots or more, and the values pushed and the slots are at most 2 ^ 63 together.
  pub vyukov_no_race :
      (t u i : ℕ)
      → touches (2 ^ suc k) (s.threads t) ≡ some i
      → touches (2 ^ suc k) (s.threads u) ≡ some i
      → t ≡ u
  vyukov_no_race t u i a b =
      let v = invariant k reach room in
      same_thread (2 ^ suc k) (slot_next k) s t u (s.threads t) (s.threads u) i a b (v.threads_ok t)
        (v.threads_ok u)
