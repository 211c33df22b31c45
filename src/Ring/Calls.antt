-- ===== src/Ring/Calls.antt =====
-- Sequences of calls on the rings of src/benchmarks/ring_buffers, from a new ring on.
use benchmark_fun.Common.{
  ℕ, ◌-◌, ◌^◌, ◌<◌, ◌≡◌, refl, ap, ◌∙◌, Bool, Option, some, List, [], ◌∷◌, ◌>>=◌,
}
use benchmark_fun.Ring.Queue
use benchmark_fun.Ring.Api.{RingApi}
use benchmark_fun.Ring.Classic
use benchmark_fun.Ring.Classic.{RingBuffer, classic}
use benchmark_fun.Ring.Caching
use benchmark_fun.Ring.Caching.{CachingRingBuffer}
use benchmark_fun.Ring.Caching.Refines.{caching, caching_init_lem}
use benchmark_fun.Ring.Slot
use benchmark_fun.Ring.Slot.{SlotRingBuffer}
use benchmark_fun.Ring.Slot.Fresh.{slot_ring, slot_init_lem}

pub data Call : Type 0 where
  push : ℕ → Call
  pop reset : Call

-- What a call returns; `popped none` is `false` of `pop`.
pub data Answer : Type 0 where
  pushed : Bool → Answer
  popped : Option ℕ → Answer
  cleared : Answer

-- What a queue with this room answers, and what it then holds.
abbrev pub answer : ℕ → Call → List ℕ → Answer × List ℕ
answer room (Call.push val) q = (Answer.pushed (Queue.push room q val).0, (Queue.push room q val).1)
answer room Call.pop q = (Answer.popped (Queue.pop q).0, (Queue.pop q).1)
answer room Call.reset q = (Answer.cleared, [])

abbrev pub answers : ℕ → List Call → List ℕ → List Answer
answers room [] q = []
answers room (c ∷ calls) q = (answer room c q).0 ∷ answers room calls (answer room c q).1

module _ (api : RingApi) where
  open api use {State, IsValid, room, contents, push_refines, pop_refines, reset_refines}

  abbrev pub call : Call → State → Option (Answer × State)
  call (Call.push val) s = do (b, s') ← api.push s val; some (Answer.pushed b, s')
  call Call.pop s = do (item, s') ← api.pop s; some (Answer.popped item, s')
  call Call.reset s = do s' ← api.reset s; some (Answer.cleared, s')

  abbrev pub run_calls : List Call → State → Option (List Answer × State)
  run_calls [] s = some ([], s)
  run_calls (c ∷ calls) s = do
    (a, s') ← call c s
    (as', s'') ← run_calls calls s'
    some (a ∷ as', s'')

  call_refines :
      (c : Call) (s : State)
      → IsValid s
      → (s' : State) × (call c s ≡ some ((answer (room s) c (contents s)).0, s'))
        × (contents s' ≡ (answer (room s) c (contents s)).1)
        × (room s' ≡ room s)
        × IsValid s'
  call_refines (Call.push val) s v =
      let (s', e, holds, same, v') = push_refines s val v in (s', rw e refl, holds, same, v')
  call_refines Call.pop s v =
      let (s', e, holds, same, v') = pop_refines s v in (s', rw e refl, holds, same, v')
  call_refines Call.reset s v =
      let (s', e, holds, same, v') = reset_refines s v in (s', rw e refl, holds, same, v')

  pub calls_refine :
      (calls : List Call) (s : State)
      → IsValid s
      → (s' : State) × (run_calls calls s ≡ some (answers (room s) calls (contents s), s'))
        × IsValid s'
  calls_refine [] s v = (s, refl, v)
  calls_refine (c ∷ calls) s v =
      let (s1, e, holds, same, v1) = call_refines c s v in
      let (s2, runs, v2) = calls_refine calls s1 v1 in
      let moved : answers (room s1) calls (contents s1)
          ≡ answers (room s) calls (answer (room s) c (contents s)).1 =
        ap (λ n. answers n calls (contents s1)) same ∙ ap (answers (room s) calls) holds in
      (s2, rw (e, runs, moved) refl, v2)

  -- The same from a state that is known to be empty.
  calls_from :
      (calls : List Call) (s : State) (n : ℕ)
      → IsValid s
      → contents s ≡ []
      → room s ≡ n
      → (s' : State) × (run_calls calls s ≡ some (answers n calls [], s')) × IsValid s'
  calls_from calls s n v empty same =
      let (s', runs, v') = calls_refine calls s v in
      (
        s',
        runs
            ∙ ap (λ a. some (a, s'))
                (ap (answers (room s) calls) empty ∙ ap (λ k. answers k calls []) same),
        v',
      )

-- From a new classic ring on, every sequence of pushes, pops and resets is free of undefined
-- behaviour and is answered as by an empty queue with room for one item less than the array has
-- places.
pub classic_calls :
    (capacity : ℕ) (calls : List Call)
    → 0 < capacity
    → capacity < 2 ^ 64
    → (q : RingBuffer) × (run_calls classic calls (Classic.init capacity)
        ≡ some (answers (capacity - 1) calls [], q))
      × Classic.IsValid q
classic_calls capacity calls pos small =
    let (v, empty, room) = Classic.init_lem capacity pos small in
    calls_from classic calls (Classic.init capacity) (capacity - 1) v empty room

-- From a new caching ring on, every sequence of pushes, pops and resets is free of undefined
-- behaviour and is answered as by an empty queue with room for one item less than the array has
-- places: the copies of the two indexes, which may be out of date, do not show in any answer.
pub caching_calls :
    (capacity : ℕ) (calls : List Call)
    → 0 < capacity
    → capacity < 2 ^ 64
    → (q : CachingRingBuffer) × (run_calls caching calls (Caching.init capacity)
        ≡ some (answers (capacity - 1) calls [], q))
      × Caching.IsValid q
caching_calls capacity calls pos small =
    let (v, empty, room) = caching_init_lem capacity pos small in
    calls_from caching calls (Caching.init capacity) (capacity - 1) v empty room

-- From a new slot ring on, whose capacity is a power of two, every sequence of pushes, pops and
-- resets is free of undefined behaviour and is answered as by an empty queue with room for the
-- whole capacity, however often the indexes wrap around.
pub slot_calls :
    (bits : ℕ) (calls : List Call)
    → bits < 64
    → (q : SlotRingBuffer) × (run_calls slot_ring calls (Slot.init (2 ^ bits))
        ≡ some (answers (2 ^ bits) calls [], q))
      × Slot.IsValid q
slot_calls bits calls few =
    let (v, empty, room) = slot_init_lem bits few in
    calls_from slot_ring calls (Slot.init (2 ^ bits)) (2 ^ bits) v empty room
