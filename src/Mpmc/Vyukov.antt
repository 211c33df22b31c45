-- ===== src/Mpmc/Vyukov.antt =====
-- src/benchmarks/MPMC/vyukov.hpp with any number of threads, that interleave at each access to
-- shared memory: a step loads or stores one shared variable or tries one compare-and-exchange,
-- which may also fail for no reason. The accesses have one order that all threads see.
pub mod Inv
pub mod Push
pub mod Pop
pub mod Reachable
pub mod Safety
pub mod Held
pub mod Lossless
pub mod Free
pub mod Quiet
pub mod Only
pub mod Alone
use Prim.Native.Nat.{bit_and}
use benchmark_fun.Common.{ℕ, ◌+◌, ◌-◌, ◌%◌, ◌^◌, ◌≤◌, ◌<◌, ◌≡◌, ◌≢◌, List, [], ◌∷◌, ◌++◌, update}

-- `pos & mask`, with `mask` one below the size
abbrev pub slot_of : ℕ → ℕ → ℕ
slot_of size pos = bit_and pos (size - 1)

-- `(intptr_t)a - (intptr_t)b` as a word; it is negative from 2 ^ 63 on.
abbrev pub diff : ℕ → ℕ → ℕ
diff a b = (a + 2 ^ 64 - b) % 2 ^ 64

-- Where a thread stands in `push(val)` or `pop`, with its `pos`: before it loads a sequence, before
-- its compare-and-exchange, and before its two accesses to the slot that it has got.
pub data Thread : Type 0 where
  idle : Thread
  push_loading push_claiming writing : ℕ → ℕ → Thread
  publishing : ℕ → Thread
  pop_loading pop_claiming reading : ℕ → Thread
  releasing : ℕ → ℕ → Thread

-- The queue, the threads, and a record of what happened: `pushed` are the values by position,
-- `popped` the positions and values of the pops that returned. `writer` and `reader` name the
-- thread that got a position, one up; 0 is nobody.
pub record System : Type 0 where
  pub sequence : ℕ → ℕ
  pub value : ℕ → ℕ
  pub write_idx : ℕ
  pub read_idx : ℕ
  pub threads : ℕ → Thread
  pub pushed : List ℕ
  pub popped : List (ℕ × ℕ)
  pub writer : ℕ → ℕ
  pub reader : ℕ → ℕ

abbrev pub start : System
start = record {
  sequence = λ i. i;
  value = λ _. 0;
  write_idx = 0;
  read_idx = 0;
  threads = λ _. Thread.idle;
  pushed = [];
  popped = [];
  writer = λ _. 0;
  reader = λ _. 0;
}

module _ (size : ℕ) (s : System) (t : ℕ) where
  open s use {sequence, value, write_idx, read_idx, threads}

  -- The same system with thread `t` elsewhere.
  abbrev pub moved : Thread → System
  moved th = record s { threads = update threads t th }

  -- One access of thread `t`.
  pub data Step : System → Type 0 where
    push_load_write_idx :
        (val : ℕ) → threads t ≡ Thread.idle → Step (moved (Thread.push_loading val write_idx))
    push_free :
        {val pos : ℕ}
        → threads t ≡ Thread.push_loading val pos
        → diff (sequence (slot_of size pos)) pos ≡ 0
        → Step (moved (Thread.push_claiming val pos))
    push_full :
        {val pos : ℕ}
        → threads t ≡ Thread.push_loading val pos
        → 2 ^ 63 ≤ diff (sequence (slot_of size pos)) pos
        → Step (moved Thread.idle)
    push_behind :
        {val pos : ℕ}
        → threads t ≡ Thread.push_loading val pos
        → 0 < diff (sequence (slot_of size pos)) pos
        → diff (sequence (slot_of size pos)) pos < 2 ^ 63
        → Step (moved (Thread.push_loading val write_idx))
    push_claim :
        {val pos : ℕ}
        → threads t ≡ Thread.push_claiming val pos
        → write_idx ≡ pos
        → Step (record s {
          write_idx = (pos + 1) % 2 ^ 64;
          threads = update threads t (Thread.writing val pos);
          pushed = s.pushed ++ val ∷ [];
          writer = update s.writer pos (t + 1);
        })
    push_retry :
        {val pos : ℕ}
        → threads t ≡ Thread.push_claiming val pos
        → Step (moved (Thread.push_loading val write_idx))
    write :
        {val pos : ℕ}
        → threads t ≡ Thread.writing val pos
        → Step (record s {
          value = update value (slot_of size pos) val;
          threads = update threads t (Thread.publishing pos);
        })
    publish :
        {pos : ℕ}
        → threads t ≡ Thread.publishing pos
        → Step (record s {
          sequence = update sequence (slot_of size pos) ((pos + 1) % 2 ^ 64);
          threads = update threads t Thread.idle;
          writer = update s.writer pos 0;
        })
    pop_load_read_idx : threads t ≡ Thread.idle → Step (moved (Thread.pop_loading read_idx))
    pop_written :
        {pos : ℕ}
        → threads t ≡ Thread.pop_loading pos
        → diff (sequence (slot_of size pos)) ((pos + 1) % 2 ^ 64) ≡ 0
        → Step (moved (Thread.pop_claiming pos))
    pop_empty :
        {pos : ℕ}
        → threads t ≡ Thread.pop_loading pos
        → 2 ^ 63 ≤ diff (sequence (slot_of size pos)) ((pos + 1) % 2 ^ 64)
        → Step (moved Thread.idle)
    pop_behind :
        {pos : ℕ}
        → threads t ≡ Thread.pop_loading pos
        → 0 < diff (sequence (slot_of size pos)) ((pos + 1) % 2 ^ 64)
        → diff (sequence (slot_of size pos)) ((pos + 1) % 2 ^ 64) < 2 ^ 63
        → Step (moved (Thread.pop_loading read_idx))
    pop_claim :
        {pos : ℕ}
        → threads t ≡ Thread.pop_claiming pos
        → read_idx ≡ pos
        → Step (record s {
          read_idx = (pos + 1) % 2 ^ 64;
          threads = update threads t (Thread.reading pos);
          reader = update s.reader pos (t + 1);
        })
    pop_retry :
        {pos : ℕ} → threads t ≡ Thread.pop_claiming pos → Step (moved (Thread.pop_loading read_idx))
    read :
        {pos : ℕ}
        → threads t ≡ Thread.reading pos
        → Step (moved (Thread.releasing pos (value (slot_of size pos))))
    release :
        {pos val : ℕ}
        → threads t ≡ Thread.releasing pos val
        → Step (record s {
          sequence = update sequence (slot_of size pos) ((pos + (size - 1) + 1) % 2 ^ 64);
          threads = update threads t Thread.idle;
          popped = (pos, val) ∷ s.popped;
          reader = update s.reader pos 0;
        })

-- Steps of the threads, in any order.
pub data Reach (size : ℕ) : System → Type 0 where
  here : Reach size start
  step : {s s' : System} (t : ℕ) → Reach size s → Step size s t s' → Reach size s'
