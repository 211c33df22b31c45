-- ===== src/Mpmc/Atomic.antt =====
-- src/benchmarks/MPMC/atomics.hpp with any number of threads, that interleave at each access to
-- shared memory: a step loads one shared variable, accesses one item or tries one
-- compare-and-exchange, which may also fail for no reason. The accesses have one order that all
-- threads see. `reset` is one step, while no thread is in a call.
pub mod Inv
pub mod Push
pub mod Publish
pub mod Pop
pub mod Reachable
pub mod Held
pub mod Kept
pub mod Only
pub mod Alone
pub mod Safety
use benchmark_fun.Common.{ℕ, ◌+◌, ◌%◌, ◌^◌, ◌≡◌, ◌≢◌, List, [], ◌∷◌, ◌++◌, length, update}

-- `(reserved + 1) % data.size()`
abbrev pub next_of : ℕ → ℕ → ℕ
next_of size reserved = (reserved + 1) % 2 ^ 64 % size

-- Where a thread stands in `push(val)` or `pop`: before it loads the reserved index, before it
-- compares that with the other side's index, before its exchange of the reserved index, before its
-- access to the item and before its exchange of the index that it publishes. It has its `reserved`;
-- `ticket` records how many calls had reserved an item when it loaded it.
pub data Thread : Type 0 where
  idle : Thread
  push_starting : ℕ → Thread
  push_checking push_claiming writing : (val reserved ticket : ℕ) → Thread
  publishing : (reserved ticket : ℕ) → Thread
  pop_starting : Thread
  pop_checking pop_claiming reading : (reserved ticket : ℕ) → Thread
  releasing : (val reserved ticket : ℕ) → Thread

-- The queue, whose `data` are the `items`, the threads, and a record of what happened since the
-- last reset: `pushed` are the values whose push has reserved an item, in that order, `popped` the
-- values whose pop has released its item, and `reads` and `published` the number of pops that have
-- reserved one and of pushes that have published one. `writer` and `reader` name the thread that
-- got a ticket, one up; 0 is nobody.
pub record System : Type 0 where
  pub items : ℕ → ℕ
  pub read_idx : ℕ
  pub reserved_read_idx : ℕ
  pub write_idx : ℕ
  pub reserved_write_idx : ℕ
  pub threads : ℕ → Thread
  pub pushed : List ℕ
  pub published : ℕ
  pub reads : ℕ
  pub popped : List ℕ
  pub writer : ℕ → ℕ
  pub reader : ℕ → ℕ

abbrev pub start : System
start = record {
  items = λ _. 0;
  read_idx = 0;
  reserved_read_idx = 0;
  write_idx = 0;
  reserved_write_idx = 0;
  threads = λ _. Thread.idle;
  pushed = [];
  published = 0;
  reads = 0;
  popped = [];
  writer = λ _. 0;
  reader = λ _. 0;
}

-- The items stay.
abbrev pub reset : System → System
reset s = record s {
  read_idx = 0;
  reserved_read_idx = 0;
  write_idx = 0;
  reserved_write_idx = 0;
  pushed = [];
  published = 0;
  reads = 0;
  popped = [];
}

module _ (size : ℕ) (s : System) (t : ℕ) where
  open s use {items, read_idx, reserved_read_idx, write_idx, reserved_write_idx, threads}

  -- The same system with thread `t` elsewhere.
  abbrev pub moved : Thread → System
  moved th = record s { threads = update threads t th }

  -- One access of thread `t`.
  pub data Step : System → Type 0 where
    resets : ((u : ℕ) → threads u ≡ Thread.idle) → Step (reset s)
    push_call : (val : ℕ) → threads t ≡ Thread.idle → Step (moved (Thread.push_starting val))
    push_load :
        {val : ℕ}
        → threads t ≡ Thread.push_starting val
        → Step (moved (Thread.push_checking val reserved_write_idx (length s.pushed)))
    push_full :
        {val reserved ticket : ℕ}
        → threads t ≡ Thread.push_checking val reserved ticket
        → next_of size reserved ≡ read_idx
        → Step (moved Thread.idle)
    push_room :
        {val reserved ticket : ℕ}
        → threads t ≡ Thread.push_checking val reserved ticket
        → next_of size reserved ≢ read_idx
        → Step (moved (Thread.push_claiming val reserved ticket))
    push_claim :
        {val reserved ticket : ℕ}
        → threads t ≡ Thread.push_claiming val reserved ticket
        → reserved_write_idx ≡ reserved
        → Step (record s {
          reserved_write_idx = next_of size reserved;
          threads = update threads t (Thread.writing val reserved ticket);
          pushed = s.pushed ++ val ∷ [];
          writer = update s.writer ticket (t + 1);
        })
    push_retry :
        {val reserved ticket : ℕ}
        → threads t ≡ Thread.push_claiming val reserved ticket
        → Step (moved (Thread.push_starting val))
    write :
        {val reserved ticket : ℕ}
        → threads t ≡ Thread.writing val reserved ticket
        → Step (record s {
          items = update items reserved val;
          threads = update threads t (Thread.publishing reserved ticket);
        })
    publish :
        {reserved ticket : ℕ}
        → threads t ≡ Thread.publishing reserved ticket
        → write_idx ≡ reserved
        → Step (record s {
          write_idx = next_of size reserved;
          threads = update threads t Thread.idle;
          published = s.published + 1;
        })
    publish_retry :
        {reserved ticket : ℕ}
        → threads t ≡ Thread.publishing reserved ticket
        → Step (moved (Thread.publishing reserved ticket))
    pop_call : threads t ≡ Thread.idle → Step (moved Thread.pop_starting)
    pop_load :
        threads t ≡ Thread.pop_starting
        → Step (moved (Thread.pop_checking reserved_read_idx s.reads))
    pop_empty :
        {reserved ticket : ℕ}
        → threads t ≡ Thread.pop_checking reserved ticket
        → reserved ≡ write_idx
        → Step (moved Thread.idle)
    pop_some :
        {reserved ticket : ℕ}
        → threads t ≡ Thread.pop_checking reserved ticket
        → reserved ≢ write_idx
        → Step (moved (Thread.pop_claiming reserved ticket))
    pop_claim :
        {reserved ticket : ℕ}
        → threads t ≡ Thread.pop_claiming reserved ticket
        → reserved_read_idx ≡ reserved
        → Step (record s {
          reserved_read_idx = next_of size reserved;
          threads = update threads t (Thread.reading reserved ticket);
          reads = s.reads + 1;
          reader = update s.reader ticket (t + 1);
        })
    pop_retry :
        {reserved ticket : ℕ}
        → threads t ≡ Thread.pop_claiming reserved ticket
        → Step (moved Thread.pop_starting)
    read :
        {reserved ticket : ℕ}
        → threads t ≡ Thread.reading reserved ticket
        → Step (moved (Thread.releasing (items reserved) reserved ticket))
    release :
        {val reserved ticket : ℕ}
        → threads t ≡ Thread.releasing val reserved ticket
        → read_idx ≡ reserved
        → Step (record s {
          read_idx = next_of size reserved;
          threads = update threads t Thread.idle;
          popped = s.popped ++ val ∷ [];
        })
    release_retry :
        {val reserved ticket : ℕ}
        → threads t ≡ Thread.releasing val reserved ticket
        → Step (moved (Thread.releasing val reserved ticket))

-- Steps of the threads, in any order.
pub data Reach (size : ℕ) : System → Type 0 where
  here : Reach size start
  step : {s s' : System} (t : ℕ) → Reach size s → Step size s t s' → Reach size s'
