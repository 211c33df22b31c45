-- ===== src/Rng/Store.antt =====
-- Stores to memory of src/utils/xoroshiro_64_star.hpp, one behind another.
use benchmark_fun.Common.{
  get_or-append_in, get_or-append_past, get_or_past, ℕ, ◌+◌, ◌-◌, ◌*◌, ◌/◌, ◌≡◌, List, [], ◌++◌,
  length, leb, if◌then◌else◌, arith,
}
use benchmark_fun.Rng.Xoroshiro.{store}

module _ {A : Type 0} where
  store_at :
      (mem : ℕ → A) (dst : ℕ) (xs ys : List A) (i : ℕ)
      → store (store mem dst xs) (dst + 4 * length xs) ys i ≡ store mem dst (xs ++ ys) i
  unfolding store
  store_at mem dst xs ys i = ground (
    arith,
    get_or-append_in xs ys (i - dst / 4) (mem i),
    get_or-append_past xs ys (i - dst / 4) (mem i),
    get_or_past xs (i - dst / 4) (mem i),
  )

  -- Two stores, one behind the other, are one.
  pub store-append :
      (mem : ℕ → A) (dst : ℕ) (xs ys : List A)
      → store (store mem dst xs) (dst + 4 * length xs) ys ≡ store mem dst (xs ++ ys)
  store-append mem dst xs ys = λ t i. store_at mem dst xs ys i t

  pub store-nil : (mem : ℕ → A) (dst : ℕ) → store mem dst [] ≡ mem
  unfolding store
  store-nil mem dst = λ t i. same i t
    where
      same : (i : ℕ) → (if leb (dst / 4) i then mem i else mem i) ≡ mem i
      same i = ground arith
