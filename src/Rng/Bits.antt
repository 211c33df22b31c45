-- ===== src/Rng/Bits.antt =====
-- Laws of `^` and `|` on machine words.
use Prim.Native.Nat.{bit_xor, bit_or, bit_xor-bitwise, bit_or-bitwise, digits, differ, max}
use Prim.Native.Nat.{◌^◌}
use benchmark_fun.Common.{
  ℕ, zero, suc, ◌+◌, ◌-◌, ◌*◌, ◌/◌, ◌%◌, ◌≤◌, ◌<◌, ◌≡◌, refl, ap, ◌∙◌, arith,
}
use benchmark_fun.Rng.Words.{rotl}

-- More rounds than digits change nothing.
xor_rounds : ℕ → ℕ → ℕ → ℕ
xor_rounds n a b = digits (λ b. b) differ n a b

or_rounds : ℕ → ℕ → ℕ → ℕ
or_rounds n a b = digits (λ b. b) max n a b

xor_rounds_enough : (n m a b : ℕ) → a ≤ n → a ≤ m → xor_rounds n a b ≡ xor_rounds m a b
unfolding xor_rounds
xor_rounds_enough zero zero a b p q = refl
xor_rounds_enough zero (suc m) zero b p q = refl
xor_rounds_enough zero (suc m) (suc a) b p q = absurd (omega arith)
xor_rounds_enough (suc n) zero zero b p q = refl
xor_rounds_enough (suc n) zero (suc a) b p q = absurd (omega arith)
xor_rounds_enough (suc n) (suc m) zero b p q = refl
xor_rounds_enough (suc n) (suc m) (suc a) b p q =
    omega (arith, xor_rounds_enough n m (suc a / 2) (b / 2) (omega arith) (omega arith))

or_rounds_enough : (n m a b : ℕ) → a ≤ n → a ≤ m → or_rounds n a b ≡ or_rounds m a b
unfolding or_rounds
or_rounds_enough zero zero a b p q = refl
or_rounds_enough zero (suc m) zero b p q = refl
or_rounds_enough zero (suc m) (suc a) b p q = absurd (omega arith)
or_rounds_enough (suc n) zero zero b p q = refl
or_rounds_enough (suc n) zero (suc a) b p q = absurd (omega arith)
or_rounds_enough (suc n) (suc m) zero b p q = refl
or_rounds_enough (suc n) (suc m) (suc a) b p q =
    omega (arith, or_rounds_enough n m (suc a / 2) (b / 2) (omega arith) (omega arith))

pub zero-bit_xor : (b : ℕ) → bit_xor 0 b ≡ b
zero-bit_xor b = bit_xor-bitwise 0 b

zero-bit_or : (b : ℕ) → bit_or 0 b ≡ b
zero-bit_or b = bit_or-bitwise 0 b

pub bit_xor_step : (a b : ℕ) → bit_xor a b ≡ bit_xor (a / 2) (b / 2) * 2 + differ (a % 2) (b % 2)
unfolding xor_rounds
bit_xor_step zero b = omega (arith, zero-bit_xor b, zero-bit_xor (b / 2))
bit_xor_step (suc a) b = omega (
  arith,
  bit_xor-bitwise (suc a) b,
  bit_xor-bitwise (suc a / 2) (b / 2),
  xor_rounds_enough a (suc a / 2) (suc a / 2) (b / 2) (omega arith) (omega arith),
)

bit_or_step : (a b : ℕ) → bit_or a b ≡ bit_or (a / 2) (b / 2) * 2 + max (a % 2) (b % 2)
unfolding or_rounds
bit_or_step zero b = omega (arith, zero-bit_or b, zero-bit_or (b / 2))
bit_or_step (suc a) b = omega (
  arith,
  bit_or-bitwise (suc a) b,
  bit_or-bitwise (suc a / 2) (b / 2),
  or_rounds_enough a (suc a / 2) (suc a / 2) (b / 2) (omega arith) (omega arith),
)

differ_comm : (x y : ℕ) → differ x y ≡ differ y x
differ_comm zero zero = refl
differ_comm zero (suc y) = refl
differ_comm (suc x) zero = refl
differ_comm (suc x) (suc y) = differ_comm x y

differ-lt : (x y : ℕ) → x < 2 → y < 2 → differ x y < 2
differ-lt zero y p q = q
differ-lt (suc x) zero p q = p
differ-lt (suc x) (suc y) p q = differ-lt x y (omega arith) (omega arith)

differ-cancel : (x y : ℕ) → x < 2 → y < 2 → differ (differ x y) y ≡ x
differ-cancel zero zero p q = refl
differ-cancel zero (suc zero) p q = refl
differ-cancel (suc zero) zero p q = refl
differ-cancel (suc zero) (suc zero) p q = refl
differ-cancel (suc (suc x)) y p q = absurd (omega arith)
differ-cancel x (suc (suc y)) p q = absurd (omega arith)

xor_digits :
    (a b : ℕ)
    → (bit_xor a b / 2 ≡ bit_xor (a / 2) (b / 2)) × (bit_xor a b % 2 ≡ differ (a % 2) (b % 2))
xor_digits a b = (
  omega (arith, bit_xor_step a b, differ-lt (a % 2) (b % 2) (omega arith) (omega arith)),
  omega (arith, bit_xor_step a b, differ-lt (a % 2) (b % 2) (omega arith) (omega arith)),
)

xor_comm_below : (n a b : ℕ) → a ≤ n → b ≤ n → bit_xor a b ≡ bit_xor b a
xor_comm_below zero zero zero p q = refl
xor_comm_below zero (suc a) b p q = absurd (omega arith)
xor_comm_below zero a (suc b) p q = absurd (omega arith)
xor_comm_below (suc n) a b p q = omega (
  arith,
  bit_xor_step a b,
  bit_xor_step b a,
  differ_comm (a % 2) (b % 2),
  xor_comm_below n (a / 2) (b / 2) (omega arith) (omega arith),
)

pub bit_xor_comm : (a b : ℕ) → bit_xor a b ≡ bit_xor b a
bit_xor_comm a b = xor_comm_below (a + b) a b (omega arith) (omega arith)

xor_cancel_below : (n a b : ℕ) → a ≤ n → b ≤ n → bit_xor (bit_xor a b) b ≡ a
xor_cancel_below zero zero zero p q = refl
xor_cancel_below zero (suc a) b p q = absurd (omega arith)
xor_cancel_below zero a (suc b) p q = absurd (omega arith)
xor_cancel_below (suc n) a b p q =
    let (high, low) = xor_digits a b in
    let tail = xor_cancel_below n (a / 2) (b / 2) (omega arith) (omega arith) in
    let bit = differ-cancel (a % 2) (b % 2) (omega arith) (omega arith) in
    omega (
      arith,
      bit_xor_step (bit_xor a b) b,
      ap (λ h. bit_xor h (b / 2)) high,
      ap (λ l. differ l (b % 2)) low,
      tail,
      bit,
    )

-- A second `^ b` takes the first one back.
pub bit_xor-cancel : (a b : ℕ) → bit_xor (bit_xor a b) b ≡ a
bit_xor-cancel a b = xor_cancel_below (a + b) a b (omega arith) (omega arith)

pub bit_xor-lt : (w a b : ℕ) → a < 2 ^ w → b < 2 ^ w → bit_xor a b < 2 ^ w
bit_xor-lt zero a b p q =
    let e : a ≡ 0 = omega arith in omega (arith, zero-bit_xor b, ap (λ x. bit_xor x b) e)
bit_xor-lt (suc w) a b p q = omega (
  arith,
  bit_xor_step a b,
  differ-lt (a % 2) (b % 2) (omega arith) (omega arith),
  bit_xor-lt w (a / 2) (b / 2) (omega arith) (omega arith),
)

or-zero_below : (n a : ℕ) → a ≤ n → bit_or a 0 ≡ a
or-zero_below zero zero h = refl
or-zero_below zero (suc a) h = absurd (omega arith)
or-zero_below (suc n) a h = omega (arith, bit_or_step a 0, or-zero_below n (a / 2) (omega arith))

-- Where no digit of one word meets one of the other, `|` adds.
pub bit_or_disjoint : (k a b : ℕ) → b < 2 ^ k → bit_or (a * 2 ^ k) b ≡ a * 2 ^ k + b
bit_or_disjoint zero a b h =
    let e : b ≡ 0 = omega arith in rw e (omega (arith, or-zero_below (a * 1) (a * 1) (omega arith)))
bit_or_disjoint (suc k) a b h =
    let power : 2 ^ suc k ≡ 2 ^ k * 2 = omega arith in
    let twice : a * 2 ^ suc k ≡ a * (2 ^ k * 2) = ap (λ p. a * p) power in
    let half : a * 2 ^ suc k / 2 ≡ a * 2 ^ k = omega (arith, twice) in
    omega (
      arith,
      twice,
      bit_or_step (a * 2 ^ suc k) b,
      ap (λ x. bit_or x (b / 2)) half,
      bit_or_disjoint k a (b / 2) (omega arith),
    )

-- A rotation by k puts the low digits on top of the j high ones.
rotl_sum :
    (w k j x : ℕ)
    → w - k ≡ j
    → x * 2 ^ k % 2 ^ w ≡ x % 2 ^ j * 2 ^ k
    → x / 2 ^ j < 2 ^ k
    → rotl w x k ≡ x % 2 ^ j * 2 ^ k + x / 2 ^ j
unfolding rotl
rotl_sum w k j x split top low =
    ap (λ i. bit_or (x * 2 ^ k % 2 ^ w) (x / 2 ^ i)) split
    ∙ ap (λ t. bit_or t (x / 2 ^ j)) top
    ∙ bit_or_disjoint k (x % 2 ^ j) (x / 2 ^ j) low

-- A rotation keeps the range of words, and the opposite one takes it back.
module _ (x : ℕ) where
  pub rotl_32_by_26 : x < 2 ^ 32 → (rotl 32 x 26 < 2 ^ 32) × (rotl 32 (rotl 32 x 26) 6 ≡ x)
  rotl_32_by_26 h =
      let there = rotl_sum 32 26 6 x refl (omega arith) (omega arith) in
      let back =
        rotl_sum 32 6 26 (rotl 32 x 26) refl (omega (arith, there)) (omega (arith, there)) in
      (omega (arith, there), omega (arith, there, back))

  pub rotl_32_by_13 : x < 2 ^ 32 → (rotl 32 x 13 < 2 ^ 32) × (rotl 32 (rotl 32 x 13) 19 ≡ x)
  rotl_32_by_13 h =
      let there = rotl_sum 32 13 19 x refl (omega arith) (omega arith) in
      let back =
        rotl_sum 32 19 13 (rotl 32 x 13) refl (omega (arith, there)) (omega (arith, there)) in
      (omega (arith, there), omega (arith, there, back))

  pub rotl_64_by_24 : x < 2 ^ 64 → (rotl 64 x 24 < 2 ^ 64) × (rotl 64 (rotl 64 x 24) 40 ≡ x)
  rotl_64_by_24 h =
      let there = rotl_sum 64 24 40 x refl (omega arith) (omega arith) in
      let back =
        rotl_sum 64 40 24 (rotl 64 x 24) refl (omega (arith, there)) (omega (arith, there)) in
      (omega (arith, there), omega (arith, there, back))

  pub rotl_64_by_37 : x < 2 ^ 64 → (rotl 64 x 37 < 2 ^ 64) × (rotl 64 (rotl 64 x 37) 27 ≡ x)
  rotl_64_by_37 h =
      let there = rotl_sum 64 37 27 x refl (omega arith) (omega arith) in
      let back =
        rotl_sum 64 27 37 (rotl 64 x 37) refl (omega (arith, there)) (omega (arith, there)) in
      (omega (arith, there), omega (arith, there, back))
