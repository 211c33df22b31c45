-- ===== src/Common/Masks.antt =====
-- `pos & mask` for a mask one below a power of two, which is how src/benchmarks/MPMC/vyukov.hpp and
-- src/benchmarks/ring_buffers/slot.hpp go through their slots.
use Prim.Native.Nat.{
  ℕ, zero, suc, ◌+◌, ◌-◌, ◌*◌, ◌/◌, ◌%◌, ◌^◌, ◌≤◌, ◌<◌, bit_and, bit_and-bitwise, digits, min,
}
use mathlib.Core.Path.{◌≡◌, refl, sym, ap, subst, ◌∙◌}
use mathlib.Core.Logic.{◌≢◌}
use native.Mathlib.Decide.{dec_lt}
use native.Mathlib.Omega.{arith}
use native.Mathlib.Nat.{
  div-add-mod, mod-lt, mod-le, mul-add-mod_self_left, mod-eq_of_lt, mod-add-mod, add-mod_right,
  mul_assoc, mul-suc, mul-le-mul_left, pow-suc, mul-one,
}

and_rounds : ℕ → ℕ → ℕ → ℕ
and_rounds n a b = digits (λ _. zero) min n a b

and_rounds_enough : (n m a b : ℕ) → a ≤ n → a ≤ m → and_rounds n a b ≡ and_rounds m a b
unfolding and_rounds
and_rounds_enough zero zero a b p q = refl
and_rounds_enough (suc n) zero zero b p q = refl
and_rounds_enough (suc n) zero (suc a) b p q = absurd (omega arith)
and_rounds_enough zero (suc m) zero b p q = refl
and_rounds_enough zero (suc m) (suc a) b p q = absurd (omega arith)
and_rounds_enough (suc n) (suc m) zero b p q = refl
and_rounds_enough (suc n) (suc m) (suc a) b p q =
    let tail = and_rounds_enough n m (suc a / 2) (b / 2) (omega arith) (omega arith) in omega arith

none-bit_and : (b : ℕ) → bit_and 0 b ≡ 0
none-bit_and b = bit_and-bitwise 0 b

-- The lowest digit, and the others.
bit_and_low : (a b : ℕ) → bit_and a b ≡ bit_and (a / 2) (b / 2) * 2 + min (a % 2) (b % 2)
unfolding and_rounds
bit_and_low zero b = omega (arith, none-bit_and b, none-bit_and (b / 2))
bit_and_low (suc a) b =
    let same = and_rounds_enough a (suc a / 2) (suc a / 2) (b / 2) (omega arith) (omega arith) in
    omega (arith, bit_and-bitwise (suc a) b, bit_and-bitwise (suc a / 2) (b / 2), same)

bit_and-none_below : (n a : ℕ) → a ≤ n → bit_and a 0 ≡ 0
bit_and-none_below zero a h =
    let e : a ≡ 0 = omega arith in ap (λ x. bit_and x 0) e ∙ none-bit_and 0
bit_and-none_below (suc n) a h =
    omega (arith, bit_and_low a 0, bit_and-none_below n (a / 2) (omega arith))

pub pow_pos : (k : ℕ) → 0 < 2 ^ k
pow_pos zero = omega arith
pow_pos (suc k) = omega (arith, pow_pos k)

pub mask_lem : (k pos : ℕ) → bit_and pos (2 ^ k - 1) ≡ pos % 2 ^ k
mask_lem zero pos = omega (arith, bit_and-none_below pos pos (omega arith))
mask_lem (suc k) pos =
    let n = 2 ^ k in
    let power : 2 ^ suc k ≡ n * 2 = omega arith in
    let some_slots : 0 < n = pow_pos k in
    let half : (2 ^ suc k - 1) / 2 ≡ n - 1 = omega arith in
    let odd : (2 ^ suc k - 1) % 2 ≡ 1 = omega arith in
    let r = pos / 2 % n in
    let below : r < n = mod-lt (pos / 2) some_slots in
    let split = div-add-mod (pos / 2) n in
    let scaled : n * 2 * (pos / 2 / n) ≡ n * (pos / 2 / n) * 2 = omega arith in
    let whole : pos ≡ n * 2 * (pos / 2 / n) + (r * 2 + pos % 2) = omega arith in
    let reduced : pos % (n * 2) ≡ r * 2 + pos % 2 =
      ap (λ x. x % (n * 2)) whole
      ∙ mul-add-mod_self_left (n * 2) (pos / 2 / n) (r * 2 + pos % 2)
      ∙ mod-eq_of_lt (omega arith) in
    let tail : bit_and (pos / 2) ((2 ^ suc k - 1) / 2) ≡ r =
      ap (bit_and (pos / 2)) half ∙ mask_lem k (pos / 2) in
    let digit : min (pos % 2) ((2 ^ suc k - 1) % 2) ≡ pos % 2 =
      ap (min (pos % 2)) odd ∙ omega arith in
    omega (arith, bit_and_low pos (2 ^ suc k - 1), tail, digit, reduced, ap (λ x. pos % x) power)

-- Positions next to each other have different slots, if there are two slots or more.
pub slot_next : (k pos : ℕ) → bit_and (suc pos) (2 ^ suc k - 1) ≢ bit_and pos (2 ^ suc k - 1)
slot_next k pos e =
    let some_slots = pow_pos k in
    let odd : (2 ^ suc k - 1) % 2 ≡ 1 = omega arith in
    let digit : min (pos % 2) ((2 ^ suc k - 1) % 2) ≡ min (pos % 2) 1 = ap (min (pos % 2)) odd in
    let digit' : min (suc pos % 2) ((2 ^ suc k - 1) % 2) ≡ min (suc pos % 2) 1 =
      ap (min (suc pos % 2)) odd in
    absurd (
      omega (
        arith,
        e,
        bit_and_low (suc pos) (2 ^ suc k - 1),
        bit_and_low pos (2 ^ suc k - 1),
        digit,
        digit',
      ))

-- One round through the slots leads back.
pub slot_round : (k pos : ℕ) → bit_and (pos + 2 ^ k) (2 ^ k - 1) ≡ bit_and pos (2 ^ k - 1)
slot_round k pos = mask_lem k (pos + 2 ^ k) ∙ add-mod_right pos (2 ^ k) ∙ sym (mask_lem k pos)

pub slot_lt : (k pos : ℕ) → bit_and pos (2 ^ k - 1) < 2 ^ k
slot_lt k pos = subst (λ x. x < 2 ^ k) (sym (mask_lem k pos)) (mod-lt pos (pow_pos k))

pub slot_le : (k pos : ℕ) → bit_and pos (2 ^ k - 1) ≤ pos
slot_le k pos = omega (arith, mask_lem k pos, mod-le pos (2 ^ k))

pow_add : (k n : ℕ) → 2 ^ (k + n) ≡ 2 ^ k * 2 ^ n
pow_add k zero = ap (λ i. 2 ^ i) (omega arith) ∙ sym (mul-one (2 ^ k))
pow_add k (suc n) =
    let step : k + suc n ≡ suc (k + n) = omega arith in
    ap (λ i. 2 ^ i) step
    ∙ pow-suc 2 (k + n)
    ∙ ap (λ x. x * 2) (pow_add k n)
    ∙ mul_assoc (2 ^ k) (2 ^ n) 2
    ∙ ap (λ x. 2 ^ k * x) (sym (pow-suc 2 n))

mod-mod_pow : (k n x : ℕ) → x % 2 ^ (k + n) % 2 ^ k ≡ x % 2 ^ k
mod-mod_pow k n x =
    let m = 2 ^ (k + n) in
    let split : 2 ^ k * (2 ^ n * (x / m)) + x % m ≡ x =
      ap (λ y. y + x % m)
        (sym (mul_assoc (2 ^ k) (2 ^ n) (x / m)) ∙ ap (λ y. y * (x / m)) (sym (pow_add k n)))
      ∙ div-add-mod x m in
    sym (mul-add-mod_self_left (2 ^ k) (2 ^ n * (x / m)) (x % m)) ∙ ap (λ y. y % 2 ^ k) split

-- A position that wraps around stays at its slot.
pub slot_wrap : (k pos : ℕ) → k ≤ 64 → bit_and (pos % 2 ^ 64) (2 ^ k - 1) ≡ bit_and pos (2 ^ k - 1)
slot_wrap k pos h =
    let whole : k + (64 - k) ≡ 64 = omega arith in
    mask_lem k (pos % 2 ^ 64)
    ∙ ap (λ i. pos % 2 ^ i % 2 ^ k) (sym whole)
    ∙ mod-mod_pow k (64 - k) pos
    ∙ sym (mask_lem k pos)

pub mod_apart : (size a b : ℕ) → a < b → b < a + size → a % size ≢ b % size
mod_apart size a b less near e =
    let x = div-add-mod a size in
    let y = div-add-mod b size in
    let lower : a / size < b / size = elim (dec_lt (a / size) (b / size)) [
      | yes h ↦ h
      | no h ↦
          let upper : b / size ≤ a / size = omega (arith, h) in
          absurd (omega (arith, x, y, e, less, mul-le-mul_left size upper))
    ] in
    let more = mul-le-mul_left size lower in
    absurd (omega (arith, x, y, e, more, mul-suc size (a / size)))

-- Positions less than a round apart have different slots.
pub slot_apart : (k a b : ℕ) → a < b → b < a + 2 ^ k → bit_and a (2 ^ k - 1) ≢ bit_and b (2 ^ k - 1)
slot_apart k a b less near e =
    mod_apart (2 ^ k) a b less near (sym (mask_lem k a) ∙ e ∙ mask_lem k b)

pub slot_wrap_add :
    (k pos i : ℕ) → k ≤ 64 → bit_and (pos % 2 ^ 64 + i) (2 ^ k - 1) ≡ bit_and (pos + i) (2 ^ k - 1)
slot_wrap_add k pos i h =
    sym (slot_wrap k (pos % 2 ^ 64 + i) h)
    ∙ ap (λ x. bit_and x (2 ^ k - 1)) (mod-add-mod pos (2 ^ 64) i)
    ∙ slot_wrap k (pos + i) h

pub slot_own : (k pos : ℕ) → pos < 2 ^ k → bit_and pos (2 ^ k - 1) ≡ pos
slot_own k pos h = mask_lem k pos ∙ mod-eq_of_lt h
