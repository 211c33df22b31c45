-- ===== src/Ring/Window.antt =====
-- The items of a circular array between a read index and a write index.
use benchmark_fun.Common.{
  ℕ, zero, suc, ◌+◌, ◌-◌, ◌%◌, ◌^◌, ◌≤◌, ◌<◌, ◌≡◌, ◌≢◌, refl, ap, ap₂, List, [], ◌∷◌, ◌++◌, length,
  get_or, set, leb, ◌==◌, if◌then◌else◌, arith, get_or-set,
}

-- `++i` on `size_t`, and back to 0 at the end of the array
abbrev pub next_idx : ℕ → ℕ → ℕ
next_idx size i = let n = (i + 1) % 2 ^ 64 in if n == size then 0 else n

-- How many steps lead from the read index to the write index.
abbrev pub occupied : ℕ → ℕ → ℕ → ℕ
occupied size r w = if leb r w then w - r else size + w - r

-- the `k` items from index `r` on
abbrev pub window : List ℕ → ℕ → ℕ → ℕ → List ℕ
window buf size r zero = []
window buf size r (suc k) = get_or buf r 0 ∷ window buf size (next_idx size r) k

pub length-window : (buf : List ℕ) (size r k : ℕ) → length (window buf size r k) ≡ k
length-window buf size r zero = refl
length-window buf size r (suc k) = ap suc (length-window buf size (next_idx size r) k)

module _ (size : ℕ) (small : size < 2 ^ 64) where
  pub next_idx-lt : (i : ℕ) → i < size → next_idx size i < size
  next_idx-lt i h = ground arith

  pub occupied-lt : (r w : ℕ) → r < size → w < size → occupied size r w < size
  occupied-lt r w hr hw = ground arith

  pub occupied-next_write :
      (r w : ℕ)
      → r < size
      → w < size
      → next_idx size w ≢ r
      → occupied size r (next_idx size w) ≡ occupied size r w + 1
  occupied-next_write r w hr hw h = ground arith

  pub occupied-next_read :
      (r w : ℕ)
      → r < size
      → w < size
      → r ≢ w
      → occupied size r w ≡ occupied size (next_idx size r) w + 1
  occupied-next_read r w hr hw h = ground arith

  -- The array is full, but for the one item left unused, exactly when the next index is the read
  -- index, and empty exactly when the two indexes agree.
  pub occupied-full :
      (r w : ℕ) → r < size → w < size → next_idx size w ≡ r → occupied size r w + 1 ≡ size
  occupied-full r w hr hw h = ground arith

  pub occupied-empty : (r w : ℕ) → r < size → w < size → occupied size r w ≡ 0 → r ≡ w
  occupied-empty r w hr hw h = ground arith

  -- A write at the write index is behind the window, and extends it.
  pub window-set :
      (buf : List ℕ) (val w k r : ℕ)
      → size ≤ length buf
      → r < size
      → w < size
      → k ≡ occupied size r w
      → window (set buf w val) size r (suc k) ≡ window buf size r k ++ val ∷ []
  window-set buf val w zero r hs hr hw e = ground (arith, get_or-set buf w r val 0)
  window-set buf val w (suc k) r hs hr hw e =
      let n : r ≢ w = λ p. absurd (ground arith) in
      ap₂ ◌∷◌ (ground (arith, get_or-set buf w r val 0)) (
        window-set buf val w k (next_idx size r) hs (next_idx-lt r hr) hw
          (omega (arith, occupied-next_read r w hr hw n)))

  -- A write at the write index alone changes nothing of the window.
  pub window-set_same :
      (buf : List ℕ) (val w k r : ℕ)
      → size ≤ length buf
      → r < size
      → w < size
      → k ≡ occupied size r w
      → window (set buf w val) size r k ≡ window buf size r k
  window-set_same buf val w zero r hs hr hw e = refl
  window-set_same buf val w (suc k) r hs hr hw e =
      let n : r ≢ w = λ p. absurd (ground arith) in
      ap₂ ◌∷◌ (ground (arith, get_or-set buf w r val 0)) (
        window-set_same buf val w k (next_idx size r) hs (next_idx-lt r hr) hw
          (omega (arith, occupied-next_read r w hr hw n)))

  -- The window that is one longer ends in the item at the write index.
  pub window-snoc :
      (buf : List ℕ) (w k r : ℕ)
      → r < size
      → w < size
      → k ≡ occupied size r w
      → window buf size r (suc k) ≡ window buf size r k ++ get_or buf w 0 ∷ []
  window-snoc buf w zero r hr hw e =
      ap (λ i. get_or buf i 0 ∷ []) (occupied-empty r w hr hw (omega arith))
  window-snoc buf w (suc k) r hr hw e =
      let n : r ≢ w = λ p. absurd (ground arith) in
      ap (λ l. get_or buf r 0 ∷ l)
        (window-snoc buf w k (next_idx size r) (next_idx-lt r hr) hw
          (omega (arith, occupied-next_read r w hr hw n)))
