-- ===== src/Ring/Queue.antt =====
-- A FIFO of at most `room` integers, oldest first: what every ring buffer promises.
use benchmark_fun.Common.{
  ℕ, Bool, true, false, Option, none, some, List, [], ◌∷◌, ◌++◌, length, ltb, if◌then◌else◌,
}

abbrev pub push : ℕ → List ℕ → ℕ → Bool × List ℕ
push room q val = if ltb (length q) room then (true, q ++ val ∷ []) else (false, q)

abbrev pub pop : List ℕ → Option ℕ × List ℕ
pop [] = (none, [])
pop (x ∷ q) = (some x, q)
