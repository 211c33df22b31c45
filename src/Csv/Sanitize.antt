-- ===== src/Csv/Sanitize.antt =====
-- `sanitize` of one_and_dones/compile_time_csv/example.cpp: what is skipped at both ends of a text.
use native.Mathlib.Decide.{ℕ_discrete, dec_lt}
use benchmark_fun.Common.{
  ℕ, zero, suc, ◌+◌, ◌-◌, ◌≤◌, ◌<◌, ◌≡◌, ◌≢◌, refl, sym, ap, ◌∙◌, [], ◌∷◌, ◌++◌, length, get_or,
  take, drop, replicate, arith, eq_pos, eq_neg, ltb_pos, ltb_neg, length-append, length-replicate,
  get_or-append_in, get_or-append_past, take-append,
}
use benchmark_fun.Common.{Text}
use benchmark_fun.Csv.{skip_front, skip_back, sanitize}

module _ (line : Text) (skip : ℕ) where
  -- Where a loop stops that moves `begin` up, or `last` down.
  record Front (begin last stop : ℕ) : Type 0 where
    above : begin ≤ stop
    below : stop ≤ last
    skipped : (i : ℕ) → begin ≤ i → i < stop → get_or line i 0 ≡ skip
    kept : stop < last → get_or line stop 0 ≢ skip

  record Back (begin last stop : ℕ) : Type 0 where
    above : begin ≤ stop
    below : stop ≤ last
    skipped : (i : ℕ) → stop ≤ i → i < last → get_or line i 0 ≡ skip
    kept : begin < stop → get_or line (stop - 1) 0 ≢ skip

  front_lem :
      (fuel begin last : ℕ)
      → begin ≤ last
      → last ≤ begin + fuel
      → Front begin last (skip_front fuel line skip begin last)
  unfolding skip_front
  front_lem zero begin last h enough = record {
    above = omega arith;
    below = h;
    skipped = λ i low high. absurd (omega arith);
    kept = λ lt. absurd (omega arith);
  }
  front_lem (suc fuel) begin last h enough = elim (dec_lt begin last) [
    | no stuck ↦ rw (ltb_neg {a = begin} {b = last} (omega arith)) (record {
      above = omega arith;
      below = h;
      skipped = λ i low high. absurd (omega arith);
      kept = λ lt. absurd (stuck lt);
    })
    | yes more ↦ elim (ℕ_discrete (get_or line begin 0) skip) [
      | no other ↦
          rw (ltb_pos more, eq_neg other)
            (record {
              above = omega arith;
              below = h;
              skipped = λ i low high. absurd (omega arith);
              kept = λ lt. other;
            })
      | yes same ↦
          let rest = front_lem fuel (begin + 1) last (omega arith) (omega arith) in
          rw (ltb_pos more, eq_pos same)
            (record {
              above = omega (arith, rest.above);
              below = rest.below;
              skipped = λ i low high. elim (ℕ_discrete i begin) [
                | yes e ↦ ap (λ k. get_or line k 0) e ∙ same
                | no later ↦ rest.skipped i (omega arith) high
              ];
              kept = rest.kept;
            })
    ]
  ]

  back_lem :
      (fuel begin last : ℕ)
      → begin ≤ last
      → last ≤ begin + fuel
      → Back begin last (skip_back fuel line skip begin last)
  unfolding skip_back
  back_lem zero begin last h enough = record {
    above = h;
    below = omega arith;
    skipped = λ i low high. absurd (omega arith);
    kept = λ lt. absurd (omega arith);
  }
  back_lem (suc fuel) begin last h enough = elim (dec_lt begin last) [
    | no stuck ↦ rw (ltb_neg {a = begin} {b = last} (omega arith)) (record {
      above = h;
      below = omega arith;
      skipped = λ i low high. absurd (omega arith);
      kept = λ lt. absurd (stuck lt);
    })
    | yes more ↦ elim (ℕ_discrete (get_or line (last - 1) 0) skip) [
      | no other ↦
          rw (ltb_pos more, eq_neg other)
            (record {
              above = h;
              below = omega arith;
              skipped = λ i low high. absurd (omega arith);
              kept = λ lt. other;
            })
      | yes same ↦
          let rest = back_lem fuel begin (last - 1) (omega arith) (omega arith) in
          rw (ltb_pos more, eq_pos same)
            (record {
              above = rest.above;
              below = omega (arith, rest.below);
              skipped = λ i low high. elim (ℕ_discrete i (last - 1)) [
                | yes e ↦ ap (λ k. get_or line k 0) e ∙ same
                | no earlier ↦ rest.skipped i low (omega arith)
              ];
              kept = rest.kept;
            })
    ]
  ]

  -- A text loses exactly the characters `skip` before its first other character and behind its last
  -- one: what is left lies between two positions, every character outside them is `skip`, and
  -- neither the first nor the last character between them is.
  sanitize_lem :
      (begin : ℕ) × (last : ℕ) × (begin ≤ last)
      × (last ≤ length line)
      × (sanitize line skip ≡ take (last - begin) (drop begin line))
      × ((i : ℕ) → i < begin → get_or line i 0 ≡ skip)
      × ((i : ℕ) → last ≤ i → i < length line → get_or line i 0 ≡ skip)
      × (begin < last → (get_or line begin 0 ≢ skip) × (get_or line (last - 1) 0 ≢ skip))
  unfolding sanitize
  sanitize_lem =
      let begin = skip_front (length line) line skip 0 (length line) in
      let last = skip_back (length line) line skip begin (length line) in
      let front = front_lem (length line) 0 (length line) (omega arith) (omega arith) in
      let back =
        back_lem (length line) begin (length line) front.below (omega (arith, front.above)) in
      (
        begin,
        last,
        back.above,
        back.below,
        refl,
        λ i lt. front.skipped i (omega arith) lt,
        back.skipped,
        λ lt. (front.kept (omega (arith, lt, back.below)), back.kept lt),
      )

get_or-replicate : (n i x d : ℕ) → i < n → get_or (replicate n x) i d ≡ x
get_or-replicate zero i x d h = absurd (omega arith)
get_or-replicate (suc n) zero x d h = refl
get_or-replicate (suc n) (suc i) x d h = get_or-replicate n i x d (omega arith)

drop-append : (xs ys : Text) (n : ℕ) → n ≡ length xs → drop n (xs ++ ys) ≡ ys
drop-append [] ys n h = let e : n ≡ 0 = h in ap (λ k. drop k ys) e
drop-append (x ∷ xs) ys zero h = absurd (omega arith)
drop-append (x ∷ xs) ys (suc n) h = drop-append xs ys n (omega arith)

abbrev pub padded : ℕ → ℕ → ℕ → Text → Text
padded skip a b core = replicate a skip ++ (core ++ replicate b skip)

-- A text between paddings, that starts and ends with another character.
module _ (skip a b : ℕ) (core : Text) (some_core : 0 < length core) (first : get_or core 0 0 ≢ skip)
    (final : get_or core (length core - 1) 0 ≢ skip) where
  length-padded : length (padded skip a b core) ≡ a + length core + b
  length-padded = omega (
    arith,
    length-append (replicate a skip) (core ++ replicate b skip),
    length-append core (replicate b skip),
    length-replicate {0} {A = ℕ} a skip,
    length-replicate {0} {A = ℕ} b skip,
  )

  in_front : (i : ℕ) → i < a → get_or (padded skip a b core) i 0 ≡ skip
  in_front i h =
      let long = length-replicate {0} {A = ℕ} a skip in
      get_or-append_in (replicate a skip) (core ++ replicate b skip) i 0 (omega arith)
      ∙ get_or-replicate a i skip 0 h

  behind_front :
      (i : ℕ)
      → a ≤ i
      → get_or (padded skip a b core) i 0 ≡ get_or (core ++ replicate b skip) (i - a) 0
  behind_front i h =
      let long = length-replicate {0} {A = ℕ} a skip in
      get_or-append_past (replicate a skip) (core ++ replicate b skip) i 0 (omega arith)
      ∙ ap (λ n. get_or (core ++ replicate b skip) (i - n) 0) long

  in_core :
      (i : ℕ)
      → a ≤ i
      → i < a + length core
      → get_or (padded skip a b core) i 0 ≡ get_or core (i - a) 0
  in_core i h lt =
      behind_front i h ∙ get_or-append_in core (replicate b skip) (i - a) 0 (omega arith)

  in_back :
      (i : ℕ)
      → a + length core ≤ i
      → i < a + length core + b
      → get_or (padded skip a b core) i 0 ≡ skip
  in_back i h lt =
      behind_front i (omega arith)
      ∙ get_or-append_past core (replicate b skip) (i - a) 0 (omega arith)
      ∙ get_or-replicate b (i - a - length core) skip 0 (omega arith)

  -- `sanitize` takes the paddings off.
  pub sanitize-padded : sanitize (padded skip a b core) skip ≡ core
  sanitize-padded =
      let (begin, last, ordered, inside, result, before, after, edges) =
        sanitize_lem (padded skip a b core) skip in
      let long = length-padded in
      let not_first : ¬ (a < begin) = λ lt.
        let e : a - a ≡ 0 = omega arith in
        first (
          sym (in_core a (omega arith) (omega arith) ∙ ap (λ k. get_or core k 0) e)
          ∙ before a lt) in
      let z = a + length core - 1 in
      let not_final : ¬ (last ≤ z) = λ le.
        let e : z - a ≡ length core - 1 = omega arith in
        final (
          sym (in_core z (omega arith) (omega arith) ∙ ap (λ k. get_or core k 0) e)
          ∙ after z le (omega arith)) in
      let some_left : begin < last = omega (arith, not_first, not_final) in
      let (edge, edge') = edges some_left in
      let not_before : ¬ (begin < a) = λ lt. edge (in_front begin lt) in
      let not_behind : ¬ (a + length core < last) =
        λ lt. edge' (in_back (last - 1) (omega arith) (omega arith)) in
      let at_begin : begin ≡ a = omega (arith, not_before, not_first) in
      let count : last - begin ≡ length core = omega (arith, not_final, not_behind, at_begin) in
      result
      ∙ ap (λ n. take n (drop begin (padded skip a b core))) count
      ∙ ap (take (length core)) (
          drop-append (replicate a skip) (core ++ replicate b skip) begin
            (at_begin ∙ sym (length-replicate {0} {A = ℕ} a skip)))
      ∙ take-append core (replicate b skip)
