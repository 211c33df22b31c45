-- ===== src/Csv/Split.antt =====
-- `split` of one_and_dones/compile_time_csv/example.cpp: its loop over positions against pieces
-- that are cut off from the front.
use mathlib.Core.List.{append_assoc, append-nil}
use benchmark_fun.Common.{
  ℕ, zero, suc, ◌+◌, ◌-◌, ◌≤◌, ◌<◌, ◌≡◌, ◌≢◌, refl, sym, ap, ◌∙◌, List, [], ◌∷◌, ◌++◌, length,
  get_or, take, drop, ◌==◌, if◌then◌else◌, arith, Bool-cases, inl, inr, eq_pos, eq_neg,
}
use native.Mathlib.Decide.{ℕ_discrete}
use benchmark_fun.Common.{Text}
use benchmark_fun.Csv.{substr, split_from, split}

-- The pieces of a text, where `piece` is the start of the first.
abbrev cut : ℕ → Text → Text → List Text
cut delimiter piece [] = piece ∷ []
cut delimiter piece (c ∷ s) =
    let found = piece ∷ cut delimiter [] s in
    let other = cut delimiter (piece ++ c ∷ []) s in if c == delimiter then found else other

-- One more character of a text behind those already taken.
drop_step : (i : ℕ) (s : Text) → i < length s → drop i s ≡ get_or s i 0 ∷ drop (suc i) s
drop_step i [] h = absurd (omega arith)
drop_step zero (c ∷ s) h = refl
drop_step (suc i) (c ∷ s) h = drop_step i s (omega arith)

drop_all : (s : Text) (i : ℕ) → i ≡ length s → drop i s ≡ []
drop_all [] i h = let e : i ≡ 0 = h in rw e refl
drop_all (c ∷ s) zero h = absurd (omega arith)
drop_all (c ∷ s) (suc i) h = drop_all s i (omega arith)

take_step : (n : ℕ) (s : Text) → n < length s → take (suc n) s ≡ take n s ++ get_or s n 0 ∷ []
take_step n [] h = absurd (omega arith)
take_step zero (c ∷ s) h = refl
take_step (suc n) (c ∷ s) h = ap (λ t. c ∷ t) (take_step n s (omega arith))

length-drop : (i : ℕ) (s : Text) → length (drop i s) ≡ length s - i
length-drop zero s = omega arith
length-drop (suc i) [] = omega arith
length-drop (suc i) (c ∷ s) = let e = length-drop i s in omega arith

get_or-drop : (i j : ℕ) (s : Text) → get_or (drop i s) j 0 ≡ get_or s (i + j) 0
get_or-drop zero j s = let e : 0 + j ≡ j = omega arith in ap (λ k. get_or s k 0) (sym e)
get_or-drop (suc i) j [] = refl
get_or-drop (suc i) j (c ∷ s) =
    let e : suc i + j ≡ suc (i + j) = omega arith in
    get_or-drop i j s ∙ ap (λ k. get_or (c ∷ s) k 0) (sym e)

substr_step :
    (s : Text) (start i : ℕ)
    → start ≤ i
    → i < length s
    → substr s start (i + 1 - start) ≡ substr s start (i - start) ++ get_or s i 0 ∷ []
substr_step s start i h lt =
    let more : i + 1 - start ≡ suc (i - start) = omega arith in
    let inside : i - start < length (drop start s) = omega (arith, length-drop start s) in
    let e : start + (i - start) ≡ i = omega arith in
    ap (λ n. take n (drop start s)) more
    ∙ take_step (i - start) (drop start s) inside
    ∙ ap (λ c. take (i - start) (drop start s) ++ c ∷ [])
        (get_or-drop start (i - start) s ∙ ap (λ k. get_or s k 0) e)

-- From any position, the loop pushes the pieces of what it has not read.
split_from-cut :
    (line : Text) (delimiter rounds start i : ℕ)
    → start ≤ i
    → i + rounds ≡ length line + 1
    → i ≤ length line
    → split_from line delimiter rounds start i
      ≡ cut delimiter (substr line start (i - start)) (drop i line)
unfolding split_from
split_from-cut line delimiter zero start i h count in_line = absurd (omega arith)
split_from-cut line delimiter (suc rounds) start i h count in_line =
    elim (ℕ_discrete i (length line)) [
      | yes at_end ↦
          let last : rounds ≡ 0 = omega arith in
          rw (eq_pos at_end, drop_all line i at_end, last, split_from) refl
      | no inside ↦
          let lt : i < length line = omega arith in
          let next : i + 1 ≡ suc i = omega arith in
          let fresh =
            split_from-cut line delimiter rounds (i + 1) (i + 1) (omega arith) (omega arith)
              (omega arith) in
          let longer =
            split_from-cut line delimiter rounds start (i + 1) (omega arith) (omega arith)
              (omega arith) in
          let none_yet : substr line (i + 1) (i + 1 - (i + 1)) ≡ [] =
            let e : i + 1 - (i + 1) ≡ 0 = omega arith in ap (λ n. substr line (i + 1) n) e in
          elim (Bool-cases (get_or line i 0 == delimiter)) [
            | inl found ↦
                rw (eq_neg inside, drop_step i line lt, found)
                  (ap (λ t. substr line start (i - start) ∷ t)
                    (fresh
                      ∙ ap (λ p. cut delimiter p (drop (i + 1) line)) none_yet
                      ∙ ap (λ k. cut delimiter [] (drop k line)) next))
            | inr other ↦
                rw (eq_neg inside, drop_step i line lt, other)
                  (longer
                    ∙ ap (λ p. cut delimiter p (drop (i + 1) line)) (substr_step line start i h lt)
                    ∙ ap
                        (λ k.
                          cut delimiter (substr line start (i - start) ++ get_or line i 0 ∷ [])
                            (drop k line))
                        next)
          ]
    ]

split-cut : (line : Text) (delimiter : ℕ) → split line delimiter ≡ cut delimiter [] line
unfolding split
split-cut line delimiter =
    split_from-cut line delimiter (length line + 1) 0 0 (omega arith) (omega arith) (omega arith)

-- Parts with a delimiter between each two.
abbrev pub join : ℕ → List Text → Text
join delimiter [] = []
join delimiter (p ∷ []) = p
join delimiter (p ∷ q ∷ ps) = p ++ delimiter ∷ join delimiter (q ∷ ps)

abbrev pub Lacks : ℕ → Text → Type 0
Lacks delimiter [] = 0 ≤ 0
Lacks delimiter (c ∷ s) = (c ≢ delimiter) × Lacks delimiter s

abbrev pub AllLack : ℕ → List Text → Type 0
AllLack delimiter [] = 0 ≤ 0
AllLack delimiter (p ∷ ps) = Lacks delimiter p × AllLack delimiter ps

-- A text has a first piece.
cut_first :
    (delimiter : ℕ) (piece s : Text)
    → (p : Text) × (ps : List Text) × (cut delimiter piece s ≡ p ∷ ps)
cut_first delimiter piece [] = (piece, [], refl)
cut_first delimiter piece (c ∷ s) = elim (Bool-cases (c == delimiter)) [
  | inl found ↦ rw found (piece, cut delimiter [] s, refl)
  | inr other ↦ rw other (cut_first delimiter (piece ++ c ∷ []) s)
]

join-cut : (delimiter : ℕ) (piece s : Text) → join delimiter (cut delimiter piece s) ≡ piece ++ s
join-cut delimiter piece [] = sym (append-nil piece)
join-cut delimiter piece (c ∷ s) = elim (ℕ_discrete c delimiter) [
  | yes found ↦
      let (p, ps, e) = cut_first delimiter [] s in
      rw (eq_pos found) (
        ap (λ l. join delimiter (piece ∷ l)) e
        ∙ ap (λ t. piece ++ delimiter ∷ t) (sym (ap (join delimiter) e) ∙ join-cut delimiter [] s)
        ∙ ap (λ d. piece ++ d ∷ s) (sym found))
  | no other ↦
      rw (eq_neg other) (join-cut delimiter (piece ++ c ∷ []) s ∙ append_assoc piece (c ∷ []) s)
]

cut-AllLack :
    (delimiter : ℕ) (piece s : Text)
    → Lacks delimiter piece
    → AllLack delimiter (cut delimiter piece s)
cut-AllLack delimiter piece [] h = (h, omega arith)
cut-AllLack delimiter piece (c ∷ s) h = elim (ℕ_discrete c delimiter) [
  | yes found ↦ rw (eq_pos found) (h, cut-AllLack delimiter [] s (omega arith))
  | no other ↦
      rw (eq_neg other)
        (cut-AllLack delimiter (piece ++ c ∷ []) s (Lacks-snoc delimiter piece c h other))
]
  where
    Lacks-snoc :
        (delimiter : ℕ) (piece : Text) (c : ℕ)
        → Lacks delimiter piece
        → c ≢ delimiter
        → Lacks delimiter (piece ++ c ∷ [])
    Lacks-snoc delimiter [] c h other = (other, omega arith)
    Lacks-snoc delimiter (d ∷ piece) c h other = (h.0, Lacks-snoc delimiter piece c h.1 other)

cut-skip :
    (delimiter : ℕ) (piece p s : Text)
    → Lacks delimiter p
    → cut delimiter piece (p ++ s) ≡ cut delimiter (piece ++ p) s
cut-skip delimiter piece [] s h = ap (λ q. cut delimiter q s) (sym (append-nil piece))
cut-skip delimiter piece (c ∷ p) s h = rw (eq_neg h.0) (
    cut-skip delimiter (piece ++ c ∷ []) p s h.1
    ∙ ap (λ q. cut delimiter q s) (append_assoc piece (c ∷ []) p))

cut-join :
    (delimiter : ℕ) (p : Text) (ps : List Text)
    → AllLack delimiter (p ∷ ps)
    → cut delimiter [] (join delimiter (p ∷ ps)) ≡ p ∷ ps
cut-join delimiter p [] h =
    ap (cut delimiter []) (sym (append-nil p)) ∙ cut-skip delimiter [] p [] h.0
cut-join delimiter p (q ∷ ps) h =
    let at_delimiter : delimiter ≡ delimiter = refl in
    cut-skip delimiter [] p (delimiter ∷ join delimiter (q ∷ ps)) h.0
    ∙ rw (eq_pos at_delimiter) (ap (λ l. p ∷ l) (cut-join delimiter q ps h.1))

-- Splitting a line gives parts without the delimiter, and these with the delimiter between them are
-- the line: no character is lost, added or moved.
split_lem :
    (line : Text) (delimiter : ℕ)
    → (join delimiter (split line delimiter) ≡ line) × AllLack delimiter (split line delimiter)
split_lem line delimiter =
    rw (split-cut line delimiter)
      (join-cut delimiter [] line, cut-AllLack delimiter [] line (omega arith))

-- Parts without the delimiter, one at least, come back from the line that they make.
pub split-join :
    (delimiter : ℕ) (p : Text) (ps : List Text)
    → AllLack delimiter (p ∷ ps)
    → split (join delimiter (p ∷ ps)) delimiter ≡ p ∷ ps
split-join delimiter p ps h =
    split-cut (join delimiter (p ∷ ps)) delimiter ∙ cut-join delimiter p ps h
