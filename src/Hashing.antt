-- ===== src/Hashing.antt =====
-- `string_hash` of one_and_dones/hashing.cpp on a text without its null terminator, in `long long`:
-- a character below 'a' counts negative, and `%` keeps the sign.
pub mod Impl
mod Tests
use native.Mathlib.Nat.{mul-le-mul}
use benchmark_fun.Common.{
  ℕ, zero, suc, ◌+◌, ◌-◌, ◌*◌, ◌/◌, ◌%◌, ◌^◌, ◌≤◌, ◌<◌, ◌≡◌, refl, sym, ap, ◌∙◌, Bool, true, false,
  List, [], ◌∷◌, leb, ℤ, pos, negsuc, if◌then◌else◌, arith,
}

abbrev pub minus : ℕ → ℕ → ℤ
minus a b = if leb b a then pos (a - b) else negsuc (b - a - 1)

infixl 20 ◌+ℤ◌
abbrev pub ◌+ℤ◌ : ℤ → ℤ → ℤ
pos a +ℤ pos b = pos (a + b)
pos a +ℤ negsuc b = minus a (b + 1)
negsuc a +ℤ pos b = minus b (a + 1)
negsuc a +ℤ negsuc b = negsuc (a + b + 1)

abbrev pub scale : ℤ → ℕ → ℤ
scale (pos a) p = pos (a * p)
scale (negsuc a) p = minus 0 ((a + 1) * p)

abbrev pub rem : ℤ → ℕ → ℤ
rem (pos a) m = pos (a % m)
rem (negsuc a) m = minus 0 ((a + 1) % m)

abbrev pub abs : ℤ → ℕ
abs (pos a) = a
abs (negsuc a) = a + 1

abbrev pub m : ℕ
m = 1000000007

-- `hash + (arr[idx] - 'a' + 1) * p_pow`, before its remainder
abbrev pub unreduced : ℤ → ℕ → ℕ → ℤ
unreduced hash p_pow c = hash +ℤ scale (minus (c + 1) b'a') p_pow

-- The loop, from a hash and a power of `p`.
pub hash_from : ℤ → ℕ → List ℕ → ℤ
hash_from hash p_pow [] = hash
hash_from hash p_pow (c ∷ s) = hash_from (rem (unreduced hash p_pow c) m) (p_pow * 31 % m) s

pub string_hash : List ℕ → ℤ
unfolding hash_from
string_hash s = hash_from (pos 0) 1 s

abs-minus : (a b c : ℕ) → a ≤ c → b ≤ c → abs (minus a b) ≤ c
abs-minus a b c h k = ground arith

abs-add : (x y : ℤ) → abs (x +ℤ y) ≤ abs x + abs y
abs-add (pos a) (pos b) = omega arith
abs-add (pos a) (negsuc b) = ground arith
abs-add (negsuc a) (pos b) = ground arith
abs-add (negsuc a) (negsuc b) = omega arith

abs-scale : (x : ℤ) (p : ℕ) → abs (scale x p) ≡ abs x * p
abs-scale (pos a) p = refl
abs-scale (negsuc a) p = ground arith

abs-rem : (x : ℤ) → abs (rem x m) < m
abs-rem (pos a) = omega arith
abs-rem (negsuc a) = ground arith

-- One round from a hash and a power below `m`, on an ASCII character: the product and the sum
-- before the remainder are far within the range of `long long`, and what the round leaves is below
-- `m` again.
round_fits :
    (hash : ℤ) (p_pow c : ℕ)
    → abs hash < m
    → p_pow < m
    → c < 2 ^ 7
    → (abs (scale (minus (c + 1) b'a') p_pow) < 2 ^ 63)
      × (abs (unreduced hash p_pow c) < 2 ^ 63)
      × (abs (rem (unreduced hash p_pow c) m) < m)
      × (p_pow * 31 % m < m)
round_fits hash p_pow c h k ascii =
    let d = minus (c + 1) b'a' in
    let small : abs d ≤ 128 = abs-minus (c + 1) b'a' 128 (omega arith) (omega arith) in
    let bound : abs d * p_pow ≤ 128 * m =
      mul-le-mul small (let le : p_pow ≤ m = omega arith in le) in
    (
      omega (arith, abs-scale d p_pow, bound),
      omega (arith, abs-add hash (scale d p_pow), abs-scale d p_pow, bound),
      abs-rem (unreduced hash p_pow c),
      omega arith,
    )

-- What holds of each round of the loop.
abbrev pub Fits : ℤ → ℕ → List ℕ → Type 0
Fits hash p_pow [] = abs hash < m
Fits hash p_pow (c ∷ s) =
    (abs (scale (minus (c + 1) b'a') p_pow) < 2 ^ 63)
    × (abs (unreduced hash p_pow c) < 2 ^ 63)
    × (p_pow * 31 < 2 ^ 63)
    × Fits (rem (unreduced hash p_pow c) m) (p_pow * 31 % m) s

abbrev pub AllAscii : List ℕ → Type 0
AllAscii [] = 0 ≤ 0
AllAscii (c ∷ s) = (c < 2 ^ 7) × AllAscii s

hash_from-Fits :
    (hash : ℤ) (p_pow : ℕ) (s : List ℕ)
    → abs hash < m
    → p_pow < m
    → AllAscii s
    → Fits hash p_pow s × (abs (hash_from hash p_pow s) < m)
unfolding hash_from
hash_from-Fits hash p_pow [] h k ascii = (h, h)
hash_from-Fits hash p_pow (c ∷ s) h k ascii =
    let (product, sum, reduced, power) = round_fits hash p_pow c h k ascii.0 in
    let (rest, result) =
      hash_from-Fits (rem (unreduced hash p_pow c) m) (p_pow * 31 % m) s reduced power ascii.1 in
    ((product, sum, omega arith, rest), result)

-- On ASCII text no sum and no product of the loop leaves the range of `long long`, and the hash is
-- below 1,000,000,007 in size, so that the conversion to `int` keeps it.
pub string_hash-Fits : (s : List ℕ) → AllAscii s → Fits (pos 0) 1 s × (abs (string_hash s) < m)
unfolding string_hash
string_hash-Fits s h = hash_from-Fits (pos 0) 1 s (omega arith) (omega arith) h

-- The polynomial of the text at 31: 'a' counts 1, 'b' 2, and so on.
abbrev pub polynomial : List ℕ → ℕ
polynomial [] = 0
polynomial (c ∷ s) = (c - b'`') + 31 * polynomial s

abbrev pub AllLetters : List ℕ → Type 0
AllLetters [] = 0 ≤ 0
AllLetters (c ∷ s) = (b'a' ≤ c) × (c ≤ b'z') × AllLetters s

hash_from-polynomial :
    (h p_pow q n : ℕ) (s : List ℕ)
    → AllLetters s
    → p_pow ≡ q % m
    → h ≡ n % m
    → hash_from (pos h) p_pow s ≡ pos ((n + q * polynomial s) % m)
unfolding hash_from
hash_from-polynomial h p_pow q n [] letters e f = ap pos (omega arith)
hash_from-polynomial h p_pow q n (c ∷ s) letters e f =
    let low = letters.0 in
    let d = c - b'`' in
    let count : minus (c + 1) b'a' ≡ pos d = ground arith in
    let split : d * q ≡ d * (q / m * m + p_pow) = ap (λ t. d * t) (omega arith) in
    let sum : (h + d * p_pow) % m ≡ (n + d * q) % m = omega (arith, split) in
    let power : p_pow * 31 % m ≡ q * 31 % m = omega arith in
    let total : n + d * q + q * 31 * polynomial s ≡ n + q * (d + 31 * polynomial s) = omega arith in
    ap (λ x. hash_from (rem (pos h +ℤ scale x p_pow) m) (p_pow * 31 % m) s) count
    ∙ hash_from-polynomial ((h + d * p_pow) % m) (p_pow * 31 % m) (q * 31) (n + d * q) s letters.2
        power sum
    ∙ ap (λ x. pos (x % m)) total

-- On lowercase letters, the hash is the polynomial of the text at 31, modulo 1,000,000,007.
pub string_hash-polynomial : (s : List ℕ) → AllLetters s → string_hash s ≡ pos (polynomial s % m)
unfolding string_hash
string_hash-polynomial s letters =
    let e : 0 + 1 * polynomial s ≡ polynomial s = omega arith in
    hash_from-polynomial 0 1 1 0 s letters (omega arith) (omega arith) ∙ ap (λ x. pos (x % m)) e
