-- ===== src/Common/Relation.antt =====
-- Any number of steps of a relation, one after the other.
pub data Runs {ℓ ℓ'} {A : Type ℓ} (R : A → A → Type ℓ') (x : A) : A → Type (ℓ ⊔ ℓ') where
  here : Runs R x x
  step : {y z : A} → Runs R x y → R y z → Runs R x z
