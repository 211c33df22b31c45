-- ===== src/Ring/CallTests.antt =====
-- A sequence of calls that fills each ring of src/benchmarks/ring_buffers, goes round it and resets
-- it.
use benchmark_fun.Common.{◌≡◌, true, false, some, none, List, [], ◌∷◌, arith}
use benchmark_fun.Ring.Classic
use benchmark_fun.Ring.Classic.{RingBuffer, classic}
use benchmark_fun.Ring.Caching
use benchmark_fun.Ring.Caching.{CachingRingBuffer}
use benchmark_fun.Ring.Caching.Refines.{caching}
use benchmark_fun.Ring.Slot
use benchmark_fun.Ring.Slot.{SlotRingBuffer}
use benchmark_fun.Ring.Slot.Fresh.{slot_ring}
use benchmark_fun.Ring.Calls.{Call, Answer, run_calls, classic_calls, caching_calls, slot_calls}

abbrev calls : List Call
calls =
    Call.push 5
    ∷ Call.push 6
    ∷ Call.push 7
    ∷ Call.pop
    ∷ Call.push 8
    ∷ Call.pop
    ∷ Call.reset
    ∷ Call.pop
    ∷ []

abbrev answered : List Answer
answered =
    Answer.pushed true
    ∷ Answer.pushed true
    ∷ Answer.pushed false
    ∷ Answer.popped (some 5)
    ∷ Answer.pushed true
    ∷ Answer.popped (some 6)
    ∷ Answer.cleared
    ∷ Answer.popped none
    ∷ []

classic_calls_example :
    (q : RingBuffer) × (run_calls classic calls (Classic.init 3) ≡ some (answered, q))
    × Classic.IsValid q
classic_calls_example = classic_calls 3 calls (omega arith) (omega arith)

caching_calls_example :
    (q : CachingRingBuffer) × (run_calls caching calls (Caching.init 3) ≡ some (answered, q))
    × Caching.IsValid q
caching_calls_example = caching_calls 3 calls (omega arith) (omega arith)

slot_calls_example :
    (q : SlotRingBuffer) × (run_calls slot_ring calls (Slot.init 2) ≡ some (answered, q))
    × Slot.IsValid q
slot_calls_example = slot_calls 1 calls (omega arith)
