-- ===== src/Common/Update.antt =====
-- A function with one value changed: memory, and what is kept for each thread or position.
use Prim.Native.Nat.{ℕ}
use mathlib.Core.Path.{◌≡◌, refl, sym, ap, ◌∙◌}
use mathlib.Core.Logic.{◌≢◌}
use benchmark_fun.Common.Tests.{◌==◌, if◌then◌else◌, eq_pos, eq_neg}

abbrev pub update {ℓ} : {A : Type ℓ} → (ℕ → A) → ℕ → A → ℕ → A
update f i a j = if i == j then a else f j

pub update_at {ℓ} : {A : Type ℓ} (f : ℕ → A) (i : ℕ) (a : A) → update f i a i ≡ a
update_at f i a = let e : i ≡ i = refl in rw (eq_pos e) refl

pub update_off {ℓ} : {A : Type ℓ} (f : ℕ → A) (i j : ℕ) (a : A) → i ≢ j → update f i a j ≡ f j
update_off f i j a h = rw (eq_neg h) refl

-- An entry has one value.
pub agree : (f : ℕ → ℕ) {i j a b : ℕ} → i ≡ j → f i ≡ a → f j ≡ b → a ≡ b
agree f same x y = sym x ∙ ap f same ∙ y
