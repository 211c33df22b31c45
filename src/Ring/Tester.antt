-- ===== src/Ring/Tester.antt =====
-- The threads of `BufferTester::runBenchmark` in
-- src/benchmarks/ring_buffers/ring_buffer_tester.hpp, over any ring that keeps the contract: a
-- schedule picks which thread makes its next call; a call is one step of it.
use benchmark_fun.Common.{
  ℕ, zero, suc, ◌+◌, ◌^◌, ◌≤◌, ◌<◌, ◌≡◌, refl, sym, ap, ◌∙◌, Bool, true, false, Option, none, some,
  List, [], ◌∷◌, ◌++◌, length, ltb, ltb_pos, if◌then◌else◌, ◌>>=◌, arith, take, take-append,
  take-append_of_le, take-length, Bool-cases, inl, inr, length-append,
}
use native.Mathlib.Numerals.{add-one}
use native.Mathlib.Decide.{dec_le}
use mathlib.Core.List.{append_assoc}
use benchmark_fun.Ring.Queue
use benchmark_fun.Ring.Api.{RingApi}

pub data Thread : Type 0 where
  popper pusher : Thread

-- `i` of the pusher's loop, the values that the popper has got, and the ring.
pub record Tester (State : Type 0) : Type 0 where
  pub next_push : ℕ
  pub popped : List ℕ
  pub queue : State

-- 0, 1, …, n - 1
abbrev pub count_up : ℕ → List ℕ
count_up zero = []
count_up (suc n) = count_up n ++ n ∷ []

length-count_up : (n : ℕ) → length (count_up n) ≡ n
length-count_up zero = refl
length-count_up (suc n) = omega (arith, length-append (count_up n) (n ∷ []), length-count_up n)

take-count_up : (m n : ℕ) → m ≤ n → take m (count_up n) ≡ count_up m
take-count_up m zero h = let e : m ≡ 0 = omega arith in rw e
take-count_up m (suc n) h = elim (dec_le m n) [
  | yes below ↦
      take-append_of_le m (count_up n) (n ∷ []) (omega (arith, length-count_up n))
      ∙ take-count_up m n below
  | no top ↦
      let e : m ≡ suc n = omega arith in
      rw e (
        ap (λ k. take k (count_up (suc n))) (sym (length-count_up (suc n)))
        ∙ take-length (count_up (suc n)))
]

Queue-push-room :
    (room : ℕ) (q : List ℕ) (x : ℕ)
    → ltb (length q) room ≡ true
    → Queue.push room q x ≡ (true, q ++ x ∷ [])
Queue-push-room room q x h = rw h

Queue-push-full :
    (room : ℕ) (q : List ℕ) (x : ℕ) → ltb (length q) room ≡ false → Queue.push room q x ≡ (false, q)
Queue-push-full room q x h = rw h

-- `++i` of an `int`, which is undefined at the largest one
abbrev pub next_int : ℕ → Option ℕ
next_int i = if ltb (i + 1) (2 ^ 31) then some (i + 1) else none

-- A call of `pop` that fails is repeated, one that succeeds ends the popper's round.
abbrev pub popped_one : List ℕ → Option ℕ → Option (List ℕ)
popped_one popped none = some popped
popped_one popped (some val) = do _ ← next_int (length popped); some (popped ++ val ∷ [])

-- A `pop` moves the oldest item over to those that were popped, if there is one.
Queue-pop-moves :
    (popped q : List ℕ)
    → length popped + 1 < 2 ^ 31
    → (popped' : List ℕ) × (popped_one popped (Queue.pop q).0 ≡ some popped')
      × (popped' ++ (Queue.pop q).1 ≡ popped ++ q)
Queue-pop-moves popped [] few = (popped, refl, refl)
Queue-pop-moves popped (x ∷ q) few =
    (popped ++ x ∷ [], rw (ltb_pos few) refl, append_assoc popped (x ∷ []) q)

module _ (api : RingApi) (iterations : ℕ) where
  open api use {
    State, push, pop, reset, IsValid, room, contents, push_refines, pop_refines, reset_refines,
  }

  -- One turn of a thread: one round of its busy wait, or nothing once its loop is over. The
  -- popper's `i` is the number of values that it has got.
  pub turn : Thread → Tester State → Option (Tester State)
  turn pusher t =
      if ltb t.next_push iterations
      then (do
        (ok, queue) ← push t.queue t.next_push
        next ← (if ok then next_int t.next_push else some t.next_push)
        some (record t { next_push = next; queue = queue }))
      else some t
  turn popper t =
      if ltb (length t.popped) iterations
      then (do
        (out, queue) ← pop t.queue
        popped ← popped_one t.popped out
        some (record t { popped = popped; queue = queue }))
      else some t

  pub run_benchmark : List Thread → Tester State → Option (Tester State)
  unfolding turn
  run_benchmark [] t = some t
  run_benchmark (who ∷ schedule) t = turn who t >>= run_benchmark schedule

  pub record InOrder (t : Tester State) : Type 0 where
    pub valid : IsValid t.queue
    pub all_there : t.popped ++ contents t.queue ≡ count_up t.next_push

  abbrev Turned : Thread → Tester State → Type 0
  Turned who t = (t' : Tester State) × (turn who t ≡ some t') × InOrder t'

  -- What the pusher's turn makes of the answer of `push`.
  abbrev pushed : Tester State → State → Bool × List ℕ → Option (Tester State)
  pushed t q r = do
    next ← (if r.0 then next_int t.next_push else some t.next_push)
    some (record t { next_push = next; queue = q })

  -- An `int` can count the iterations.
  abbrev pub Countable : Type 0
  Countable = iterations < 2 ^ 31

  one_more : Countable → (i : ℕ) → ltb i iterations ≡ true → i + 1 < 2 ^ 31
  one_more small i more = ground (arith, small, more)

  turn-pusher : Countable → (t : Tester State) → InOrder t → Turned pusher t
  unfolding turn
  turn-pusher small t v = elim (Bool-cases (ltb t.next_push iterations)) [
    | inr done ↦ (t, rw done, v)
    | inl more ↦
        let (q, code, holds, same, valid) = push_refines t.queue t.next_push v.valid in
        elim (Bool-cases (ltb (length (contents t.queue)) (room t.queue))) [
          | inl free ↦
              let room_left = Queue-push-room (room t.queue) (contents t.queue) t.next_push free in
              (
                record t { next_push = t.next_push + 1; queue = q },
                rw (more, code)
                    (ap (pushed t q) room_left
                      ∙ rw (ltb_pos (one_more small t.next_push more)) refl),
                record {
                  valid = valid;
                  all_there =
                      ap (λ c. t.popped ++ c) (holds ∙ ap (λ (r : Bool × List ℕ). r.1) room_left)
                      ∙ sym (append_assoc t.popped (contents t.queue) (t.next_push ∷ []))
                      ∙ ap (λ c. c ++ t.next_push ∷ []) v.all_there
                      ∙ ap count_up (sym (add-one t.next_push));
                },
              )
          | inr full ↦
              let no_room = Queue-push-full (room t.queue) (contents t.queue) t.next_push full in
              (
                record t { queue = q },
                rw (more, code) (ap (pushed t q) no_room),
                record {
                  valid = valid;
                  all_there =
                      ap (λ c. t.popped ++ c) (holds ∙ ap (λ (r : Bool × List ℕ). r.1) no_room)
                      ∙ v.all_there;
                },
              )
        ]
  ]

  turn-popper : Countable → (t : Tester State) → InOrder t → Turned popper t
  unfolding turn
  turn-popper small t v = elim (Bool-cases (ltb (length t.popped) iterations)) [
    | inr done ↦ (t, rw done, v)
    | inl more ↦
        let (q, code, holds, same, valid) = pop_refines t.queue v.valid in
        let (popped, answer, moved) =
          Queue-pop-moves t.popped (contents t.queue) (one_more small (length t.popped) more) in
        (
          record t { popped = popped; queue = q },
          rw (more, code) (ap (λ o. o >>= λ c. some (record t { popped = c; queue = q })) answer),
          record { valid = valid; all_there = ap (λ c. popped ++ c) holds ∙ moved ∙ v.all_there },
        )
  ]

  -- Under every schedule of the two threads no call is undefined, and at every moment what was
  -- popped, followed by what the ring holds, is 0, 1, 2 and so on up to the pusher's counter.
  pub run_benchmark_lem :
      Countable
      → (schedule : List Thread) (t : Tester State) → InOrder t
      → (t' : Tester State) × (run_benchmark schedule t ≡ some t') × InOrder t'
  unfolding run_benchmark
  run_benchmark_lem small [] t v = (t, refl, v)
  run_benchmark_lem small (popper ∷ schedule) t v =
      let (t₁, first, v₁) = turn-popper small t v in
      let (t₂, rest, v₂) = run_benchmark_lem small schedule t₁ v₁ in
      (t₂, ap (λ o. o >>= run_benchmark schedule) first ∙ rest, v₂)
  run_benchmark_lem small (pusher ∷ schedule) t v =
      let (t₁, first, v₁) = turn-pusher small t v in
      let (t₂, rest, v₂) = run_benchmark_lem small schedule t₁ v₁ in
      (t₂, ap (λ o. o >>= run_benchmark schedule) first ∙ rest, v₂)

  abbrev pub starting : State → Tester State
  starting q = record { next_push = 0; popped = []; queue = q }

  -- Started on a valid empty ring, under every schedule of the calls of the two threads, each taken
  -- as one step, the run meets no undefined behaviour, and the values popped so far are exactly 0,
  -- 1, 2 and so on in order: the check that the tester has commented out would never throw. There
  -- are fewer than 2 ^ 31 iterations, which the `int` counters can count.
  pub popped_in_order :
      Countable
      → (schedule : List Thread) (q : State) → IsValid q
      → contents q ≡ []
      → (t : Tester State) × (run_benchmark schedule (starting q) ≡ some t)
        × (t.popped ≡ count_up (length t.popped))
  popped_in_order small schedule q v e =
      let (t, runs, order) =
        run_benchmark_lem small schedule (starting q) (record { valid = v; all_there = e }) in
      (
        t,
        runs,
        sym (take-append t.popped (contents t.queue))
            ∙ ap (take (length t.popped)) order.all_there
            ∙ take-count_up (length t.popped) t.next_push (
                omega (
                  arith,
                  ap (λ (c : List ℕ). length c) order.all_there,
                  length-append t.popped (contents t.queue),
                  length-count_up t.next_push,
                )),
      )
