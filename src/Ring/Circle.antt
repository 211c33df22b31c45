-- ===== src/Ring/Circle.antt =====
-- Facts about three indices on the circle of a ring buffer's array: a read index, a write index,
-- and a copy of one that lags behind it.
use benchmark_fun.Common.{ℕ, ◌+◌, ◌^◌, ◌<◌, ◌≡◌, ◌≢◌, arith}
use benchmark_fun.Ring.Window.{next_idx, occupied}

module _ (size : ℕ) (small : size < 2 ^ 64) where
  pub read_lag-write :
      (c r w : ℕ)
      → c < size
      → r < size
      → w < size
      → occupied size c w ≡ occupied size c r + occupied size r w
      → next_idx size w ≢ c
      → occupied size c (next_idx size w) ≡ occupied size c r + occupied size r (next_idx size w)
  read_lag-write c r w hc hr hw e n = ground arith

  pub write_lag-write :
      (r c w : ℕ)
      → r < size
      → c < size
      → w < size
      → occupied size r w ≡ occupied size r c + occupied size c w
      → next_idx size w ≢ r
      → occupied size r (next_idx size w) ≡ occupied size r c + occupied size c (next_idx size w)
  write_lag-write r c w hr hc hw e n = ground arith

  pub read_lag-read :
      (c r w : ℕ)
      → c < size
      → r < size
      → w < size
      → occupied size c w ≡ occupied size c r + occupied size r w
      → r ≢ w
      → occupied size c w ≡ occupied size c (next_idx size r) + occupied size (next_idx size r) w
  read_lag-read c r w hc hr hw e n = ground arith

  pub write_lag-read :
      (r c w : ℕ)
      → r < size
      → c < size
      → w < size
      → occupied size r w ≡ occupied size r c + occupied size c w
      → r ≢ c
      → occupied size (next_idx size r) w ≡ occupied size (next_idx size r) c + occupied size c w
  write_lag-read r c w hr hc hw e n = ground arith

  -- A cache that shows room or an item tells the truth.
  pub room_by_cache :
      (c r w : ℕ)
      → c < size
      → r < size
      → w < size
      → occupied size c w ≡ occupied size c r + occupied size r w
      → next_idx size w ≢ c
      → next_idx size w ≢ r
  room_by_cache c r w hc hr hw e n p = ground arith

  pub item_by_cache :
      (r c w : ℕ)
      → r < size
      → c < size
      → w < size
      → occupied size r w ≡ occupied size r c + occupied size c w
      → r ≢ c
      → r ≢ w
  item_by_cache r c w hr hc hw e n p = ground arith

  pub lag_self :
      (r w : ℕ)
      → r < size
      → w < size
      → (occupied size r w ≡ occupied size r r + occupied size r w)
        × (occupied size r w ≡ occupied size r w + occupied size w w)
  lag_self r w hr hw = ground arith
