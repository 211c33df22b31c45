-- ===== src/Ring/Api.antt =====
-- What src/benchmarks/ring_buffers/ring_buffer_tester.hpp asks of its `Queue` parameter, with the
-- contract that makes the answers right. Outer options are undefined behaviour; the inner one of
-- `pop` is its `false`.
use benchmark_fun.Common.{ℕ, ◌≡◌, Bool, Option, some, List, []}
use benchmark_fun.Ring.Queue

pub record RingApi : Type 1 where
  pub State : Type 0
  pub push : State → ℕ → Option (Bool × State)
  pub pop : State → Option (Option ℕ × State)
  pub reset : State → Option State
  pub IsValid : State → Type 0
  pub room : State → ℕ
  pub contents : State → List ℕ
  pub push_refines :
      (s : State) (val : ℕ)
      → IsValid s
      → (s' : State) × (push s val ≡ some ((Queue.push (room s) (contents s) val).0, s'))
        × (contents s' ≡ (Queue.push (room s) (contents s) val).1)
        × (room s' ≡ room s)
        × IsValid s'
  pub pop_refines :
      (s : State)
      → IsValid s
      → (s' : State) × (pop s ≡ some ((Queue.pop (contents s)).0, s'))
        × (contents s' ≡ (Queue.pop (contents s)).1)
        × (room s' ≡ room s)
        × IsValid s'
  pub reset_refines :
      (s : State)
      → IsValid s
      → (s' : State) × (reset s ≡ some s') × (contents s' ≡ []) × (room s' ≡ room s) × IsValid s'
