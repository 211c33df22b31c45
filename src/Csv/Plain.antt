-- ===== src/Csv/Plain.antt =====
-- Texts with no character that one_and_dones/compile_time_csv/example.cpp splits at or skips.
use mathlib.Core.List.{append-nil}
use benchmark_fun.Common.{
  ℕ, zero, suc, ◌+◌, ◌-◌, ◌*◌, ◌%◌, ◌^◌, ◌≤◌, ◌<◌, ◌≡◌, ◌≢◌, refl, sym, ap, ◌∙◌, List, [], ◌∷◌,
  ◌++◌, length, get_or, arith, length-append, get_or-append_in, get_or-append_past,
}
use benchmark_fun.Common.{Text}
use benchmark_fun.Csv.{sanitize, push_digit, digits_value, parse_size_t}
use benchmark_fun.Csv.Split.{Lacks, AllLack, join}
use benchmark_fun.Csv.Sanitize.{padded, sanitize-padded}

-- neither a space, a comma, a dot nor the end of a line
abbrev pub Plain : Text → Type 0
Plain s = Lacks b' ' s × Lacks b',' s × Lacks b'.' s × Lacks b'\n' s × 0 < length s

pub Lacks-get_or : (d i : ℕ) (s : Text) → Lacks d s → i < length s → get_or s i 0 ≢ d
Lacks-get_or d i [] h lt = absurd (omega arith)
Lacks-get_or d zero (c ∷ s) h lt = h.0
Lacks-get_or d (suc i) (c ∷ s) h lt = Lacks-get_or d i s h.1 (omega arith)

pub Lacks-append : (d : ℕ) (s t : Text) → Lacks d s → Lacks d t → Lacks d (s ++ t)
Lacks-append d [] t h k = k
Lacks-append d (c ∷ s) t h k = (h.0, Lacks-append d s t h.1 k)

pub Lacks-join : (d e : ℕ) (ps : List Text) → e ≢ d → AllLack d ps → Lacks d (join e ps)
Lacks-join d e [] other h = omega arith
Lacks-join d e (p ∷ []) other h = h.0
Lacks-join d e (p ∷ q ∷ ps) other h =
    Lacks-append d p (e ∷ join e (q ∷ ps)) h.0 (other, Lacks-join d e (q ∷ ps) other h.1)

abbrev pub AllSome : List Text → Type 0
AllSome [] = 0 ≤ 0
AllSome (p ∷ ps) = 0 < length p × AllSome ps

-- The first and the last character of parts joined are those of a part.
pub join-first :
    (d : ℕ) (p : Text) (ps : List Text)
    → AllSome (p ∷ ps)
    → (0 < length (join d (p ∷ ps))) × (get_or (join d (p ∷ ps)) 0 0 ≡ get_or p 0 0)
join-first d p [] h = (h.0, refl)
join-first d p (q ∷ ps) h = (
  omega (arith, length-append p (d ∷ join d (q ∷ ps)), h.0),
  get_or-append_in p (d ∷ join d (q ∷ ps)) 0 0 h.0,
)

pub join-last :
    (d : ℕ) (p : Text) (ps : List Text)
    → AllSome (p ∷ ps)
    → AllLack d (p ∷ ps)
    → get_or (join d (p ∷ ps)) (length (join d (p ∷ ps)) - 1) 0 ≢ d
join-last d p [] h k = Lacks-get_or d (length p - 1) p k.0 (let e = h.0 in omega arith)
join-last d p (q ∷ ps) h k =
    let rest = join d (q ∷ ps) in
    let some_rest = (join-first d q ps h.1).0 in
    let long = length-append p (d ∷ rest) in
    let place : length (p ++ d ∷ rest) - 1 - length p ≡ suc (length rest - 1) = omega arith in
    λ e. join-last d q ps h.1 k.1 (
      sym (
        get_or-append_past p (d ∷ rest) (length (p ++ d ∷ rest) - 1) 0 (omega arith)
        ∙ ap (λ i. get_or (d ∷ rest) i 0) place)
      ∙ e)

pub sanitize-same :
    (skip : ℕ) (s : Text)
    → 0 < length s
    → get_or s 0 0 ≢ skip
    → get_or s (length s - 1) 0 ≢ skip
    → sanitize s skip ≡ s
sanitize-same skip s long first final =
    ap (λ t. sanitize t skip) (sym (append-nil s)) ∙ sanitize-padded skip 0 0 s long first final

pub sanitize-Plain : (s : Text) → Plain s → sanitize s b' ' ≡ s
sanitize-Plain s (h, _, _, _, long) =
    sanitize-same b' ' s long (Lacks-get_or b' ' 0 s h long)
      (Lacks-get_or b' ' (length s - 1) s h (omega arith))

-- Decimal digits, and the number that they spell, without a bound.
abbrev pub AllDigits : Text → Type 0
AllDigits [] = 0 ≤ 0
AllDigits (c ∷ s) = (b'0' ≤ c) × (c ≤ b'9') × AllDigits s

abbrev pub spelled : ℕ → Text → ℕ
spelled n [] = n
spelled n (c ∷ s) = spelled (n * 10 + (c - b'0')) s

digits_value-spelled :
    (n m : ℕ) (s : Text) → m ≡ n % 2 ^ 64 → AllDigits s → digits_value m s ≡ spelled n s % 2 ^ 64
digits_value-spelled n m [] e h = e
digits_value-spelled n m (c ∷ s) e h =
    digits_value-spelled (n * 10 + (c - b'0')) (push_digit m c) s (let low = h.0 in omega arith) h.2

pub digits_plain : (d : ℕ) (s : Text) → (d < b'0') → AllDigits s → Lacks d s
digits_plain d [] below h = omega arith
digits_plain d (c ∷ s) below h = let low = h.0 in ((λ e. omega arith), digits_plain d s below h.2)

pub digits-Plain : (s : Text) → AllDigits s → 0 < length s → Plain s
digits-Plain s h long = (
  digits_plain b' ' s (omega arith) h,
  digits_plain b',' s (omega arith) h,
  digits_plain b'.' s (omega arith) h,
  digits_plain b'\n' s (omega arith) h,
  long,
)

-- Digits between any number of spaces give the number that they spell, modulo 2 ^ 64.
pub parse_size_t_lem :
    (before behind : ℕ) (s : Text)
    → AllDigits s
    → 0 < length s
    → parse_size_t (padded b' ' before behind s) ≡ spelled 0 s % 2 ^ 64
unfolding parse_size_t
parse_size_t_lem before behind s h long =
    let plain = (digits-Plain s h long).0 in
    ap (digits_value 0) (
      sanitize-padded b' ' before behind s long (Lacks-get_or b' ' 0 s plain long)
        (Lacks-get_or b' ' (length s - 1) s plain (omega arith)))
    ∙ digits_value-spelled 0 0 s (omega arith) h
