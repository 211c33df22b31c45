-- ===== src/Common/Texts.antt =====
-- Texts as the lists of their characters' codes, in ASCII.
use Prim.Native.Nat.{ℕ, zero, suc, ◌+◌, ◌/◌, ◌%◌}
use Prim.Native.String.{String}
use Prim.Native.Char.{code}
use mathlib.Core.Path.{◌≡◌, refl, subst}
use mathlib.Core.Logic.{◌≢◌, ◌↔◌, inl, inr}
use mathlib.Core.Bool.{Bool, true, false, ◌&&◌}
use mathlib.Core.List.{List, [], ◌∷◌, ◌++◌}
use native.Mathlib.Omega.{arith}
use benchmark_fun.Common.Tests.{ltb, ◌==◌, if◌then◌else◌, Bool-cases, eq_pos}

abbrev pub Text : Type 0
Text = List ℕ

abbrev pub codes : String → Text
codes String.[] = []
codes (String.◌∷◌ c s) = code c ∷ codes s

abbrev pub text_eq : Text → Text → Bool
text_eq [] [] = true
text_eq (c ∷ s) (d ∷ t) = c == d && text_eq s t
text_eq _ _ = false

pub text_eq_same : (s : Text) → text_eq s s ≡ true
text_eq_same [] = refl
text_eq_same (c ∷ s) = let e : c ≡ c = refl in rw (eq_pos e, text_eq_same s) refl

text_eq_sound : (s t : Text) → text_eq s t ≡ true → s ≡ t
text_eq_sound [] [] h = refl
text_eq_sound [] (d ∷ t) h = cc
text_eq_sound (c ∷ s) [] h = cc
text_eq_sound (c ∷ s) (d ∷ t) h = ground (arith, text_eq_sound s t)

pub text_eq_other : (s t : Text) → s ≢ t → text_eq s t ≡ false
text_eq_other s t h = elim (Bool-cases (text_eq s t)) [
  | inl same ↦ absurd (h (text_eq_sound s t same))
  | inr other ↦ other
]

pub text_eq_iff : (s t : Text) → (text_eq s t ≡ true) ↔ (s ≡ t)
text_eq_iff s t = (text_eq_sound s t, λ e. subst (λ u. text_eq s u ≡ true) e (text_eq_same s))

-- The digits of a number, as `std::format` writes it; a number has at most as many as it is large, and one.
abbrev digits_within : ℕ → ℕ → Text
digits_within zero n = []
digits_within (suc fuel) n =
    let before = digits_within fuel (n / 10) in
    if ltb n 10 then (48 + n) ∷ [] else before ++ (48 + n % 10) ∷ []

abbrev pub decimal : ℕ → Text
decimal n = digits_within (n + 1) n
