-- ===== src/Mpmc/Locked.antt =====
-- src/benchmarks/MPMC/locked.hpp with any number of threads: a step takes the lock, or makes one
-- call of the standard queue and, after the last one, gives the lock back. `std::mutex` has one
-- owner at a time; `std::queue` is a list with its oldest value first, on which `front` and `pop`
-- are undefined when it is empty.
pub mod Inv
pub mod Safety
use benchmark_fun.Common.{ℕ, suc, ◌≡◌, List, [], ◌∷◌, ◌++◌, Option, none, some, update}

-- Where a thread stands in `push(val)` or `pop`: waiting for the lock, or inside; `pop` then tests
-- for an empty queue, copies the front and drops it.
pub data Thread : Type 0 where
  idle : Thread
  push_waiting pushing : ℕ → Thread
  pop_waiting popping fronting : Thread
  dropping : ℕ → Thread
  -- A call of `front` or `pop` on an empty queue.
  undefined : Thread

-- `owner` names the thread that has the lock, one up, or is 0. `pushed` and `popped` record the
-- values of the calls that are done.
pub record System : Type 0 where
  pub owner : ℕ
  pub queue : List ℕ
  pub threads : ℕ → Thread
  pub pushed : List ℕ
  pub popped : List ℕ

abbrev pub start : System
start = record { owner = 0; queue = []; threads = λ _. Thread.idle; pushed = []; popped = [] }

-- `inp = q.front()`
abbrev pub front : List ℕ → Thread
front [] = Thread.undefined
front (val ∷ rest) = Thread.dropping val

-- `q.pop()`
abbrev pub drop_front : List ℕ → Option (List ℕ)
drop_front [] = none
drop_front (val ∷ rest) = some rest

module _ (s : System) (t : ℕ) where
  open s use {owner, queue, threads}

  abbrev pub moved : Thread → System
  moved th = record s { threads = update threads t th }

  abbrev pub acquired : Thread → System
  acquired th = record s { owner = suc t; threads = update threads t th }

  -- One access of thread `t`.
  pub data Step : System → Type 0 where
    push_call : (val : ℕ) → threads t ≡ Thread.idle → Step (moved (Thread.push_waiting val))
    push_lock :
        {val : ℕ}
        → threads t ≡ Thread.push_waiting val
        → owner ≡ 0
        → Step (acquired (Thread.pushing val))
    push :
        {val : ℕ}
        → threads t ≡ Thread.pushing val
        → Step (record s {
          owner = 0;
          queue = queue ++ val ∷ [];
          threads = update threads t Thread.idle;
          pushed = s.pushed ++ val ∷ [];
        })
    pop_call : threads t ≡ Thread.idle → Step (moved Thread.pop_waiting)
    pop_lock : threads t ≡ Thread.pop_waiting → owner ≡ 0 → Step (acquired Thread.popping)
    pop_empty :
        threads t ≡ Thread.popping
        → queue ≡ []
        → Step (record s { owner = 0; threads = update threads t Thread.idle })
    pop_some :
        {val : ℕ} {rest : List ℕ}
        → threads t ≡ Thread.popping
        → queue ≡ val ∷ rest
        → Step (moved Thread.fronting)
    pop_front : threads t ≡ Thread.fronting → Step (moved (front queue))
    pop_drop :
        {val : ℕ} {rest : List ℕ}
        → threads t ≡ Thread.dropping val
        → drop_front queue ≡ some rest
        → Step (record s {
          owner = 0;
          queue = rest;
          threads = update threads t Thread.idle;
          popped = s.popped ++ val ∷ [];
        })
    pop_drop_empty :
        {val : ℕ}
        → threads t ≡ Thread.dropping val
        → drop_front queue ≡ none
        → Step (moved Thread.undefined)

-- Steps of the threads, in any order.
pub data Reach : System → Type 0 where
  here : Reach start
  step : {s s' : System} (t : ℕ) → Reach s → Step s t s' → Reach s'
