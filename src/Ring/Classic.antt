-- ===== src/Ring/Classic.antt =====
-- src/benchmarks/ring_buffers/classic.hpp, and `ringbuffer` of one_and_dones/ringbuffer.cpp, which
-- is the same code: one call at a time.
use benchmark_fun.Common.{
  ℕ, ◌+◌, ◌-◌, ◌^◌, ◌<◌, ◌≡◌, ◌≢◌, refl, ap, sym, eq_pos, eq_neg, ltb_pos, ◌∙◌, Bool, true, false,
  Option, none, some, List, [], ◌∷◌, ◌++◌, length, get_elem?, get_or, set, write, replicate, ◌==◌,
  if◌then◌else◌, ◌>>=◌, arith, length-set, length-replicate, get_elem?-eq-get_or,
}
use native.Mathlib.Numerals.{add-one}
use native.Mathlib.Decide.{ℕ_discrete}
use benchmark_fun.Ring.Queue
use benchmark_fun.Ring.Api.{RingApi}
use benchmark_fun.Ring.Window.{
  next_idx, occupied, window, length-window, next_idx-lt, occupied-lt, occupied-next_write,
  occupied-next_read, occupied-full, window-set,
}

pub record RingBuffer : Type 0 where
  pub buffer : List ℕ
  pub read_idx : ℕ
  pub write_idx : ℕ

unfoldable pub init : ℕ → RingBuffer
init capacity = record { buffer = replicate capacity 0; read_idx = 0; write_idx = 0 }

unfoldable pub reset : RingBuffer → RingBuffer
reset q = record q { read_idx = 0; write_idx = 0 }

unfoldable pub push : RingBuffer → ℕ → Option (Bool × RingBuffer)
push q val =
    let next_write_idx = next_idx (length q.buffer) q.write_idx in
    if next_write_idx == q.read_idx then some (false, q) else (do
      buffer ← write q.buffer q.write_idx val
      some (true, record q { buffer = buffer; write_idx = next_write_idx }))

unfoldable pub pop : RingBuffer → Option (Option ℕ × RingBuffer)
pop q = if q.read_idx == q.write_idx then some (none, q) else (do
  val ← get_elem? q.buffer q.read_idx
  some (some val, record q { read_idx = next_idx (length q.buffer) q.read_idx }))

pub record IsValid (q : RingBuffer) : Type 0 where
  pub small : length q.buffer < 2 ^ 64
  pub read_in : q.read_idx < length q.buffer
  pub write_in : q.write_idx < length q.buffer

abbrev pub contents : RingBuffer → List ℕ
contents q =
    window q.buffer (length q.buffer) q.read_idx (occupied (length q.buffer) q.read_idx q.write_idx)

-- One slot stays unused.
abbrev pub room : RingBuffer → ℕ
room q = length q.buffer - 1

pub init_lem :
    (capacity : ℕ)
    → 0 < capacity
    → capacity < 2 ^ 64
    → IsValid (init capacity)
      × (contents (init capacity) ≡ [])
      × (room (init capacity) ≡ capacity - 1)
unfolding init
init_lem capacity pos small = (
  omega (arith, length-replicate {0} {A = ℕ} capacity 0),
  refl,
  omega (arith, length-replicate {0} {A = ℕ} capacity 0),
)

module _ (q : RingBuffer) (v : IsValid q) where
  abbrev pub size : ℕ
  size = length q.buffer

  abbrev used : ℕ
  used = occupied size q.read_idx q.write_idx

  length-contents : length (contents q) ≡ used
  length-contents = length-window q.buffer size q.read_idx used

  pub push-full :
      (val : ℕ)
      → next_idx size q.write_idx ≡ q.read_idx
      → (push q val ≡ some (false, q))
        × (Queue.push (room q) (contents q) val ≡ (false, contents q))
  unfolding push
  push-full val e = ground (
    arith,
    length-contents,
    occupied-full size v.small q.read_idx q.write_idx v.read_in v.write_in,
  )

  abbrev pub pushed : ℕ → RingBuffer
  pushed val = record q {
    buffer = set q.buffer q.write_idx val;
    write_idx = next_idx size q.write_idx;
  }

  pub pushed-IsValid : (val : ℕ) → IsValid (pushed val)
  pushed-IsValid val = record {
    small = omega (arith, length-set q.buffer q.write_idx val, v.small);
    read_in = omega (arith, length-set q.buffer q.write_idx val, v.read_in);
    write_in = omega (
      arith,
      length-set q.buffer q.write_idx val,
      next_idx-lt size v.small q.write_idx v.write_in,
    );
  }

  contents-pushed :
      (val : ℕ)
      → next_idx size q.write_idx ≢ q.read_idx
      → contents (pushed val) ≡ contents q ++ val ∷ []
  contents-pushed val n =
      rw
        (
          length-set q.buffer q.write_idx val,
          occupied-next_write size v.small q.read_idx q.write_idx v.read_in v.write_in n,
          add-one,
        )
        (window-set size v.small q.buffer val q.write_idx used q.read_idx (omega arith) v.read_in
          v.write_in refl)

  pub push-room :
      (val : ℕ)
      → next_idx size q.write_idx ≢ q.read_idx
      → (push q val ≡ some (true, pushed val))
        × (Queue.push (room q) (contents q) val ≡ (true, contents q ++ val ∷ []))
  unfolding push
  push-room val n =
      let less : used + 1 < size = omega (
        arith,
        occupied-next_write size v.small q.read_idx q.write_idx v.read_in v.write_in n,
        occupied-lt size v.small q.read_idx (next_idx size q.write_idx) v.read_in
            (next_idx-lt size v.small q.write_idx v.write_in),
      ) in
      (
        rw (eq_neg n, ltb_pos v.write_in),
        rw (ltb_pos {a = length (contents q)} {b = room q} (omega (arith, length-contents))),
      )

  pub pop-some :
      (q.read_idx ≢ q.write_idx)
      → let q' = record q { read_idx = next_idx size q.read_idx } in
        (pop q ≡ some (some (get_or q.buffer q.read_idx 0), q'))
        × (contents q ≡ get_or q.buffer q.read_idx 0 ∷ contents q')
        × IsValid q'
  unfolding pop
  pop-some n = (
    rw (eq_neg n, get_elem?-eq-get_or q.buffer q.read_idx 0 v.read_in),
    rw (occupied-next_read size v.small q.read_idx q.write_idx v.read_in v.write_in n, add-one)
        refl,
    record {
      small = v.small;
      read_in = next_idx-lt size v.small q.read_idx v.read_in;
      write_in = v.write_in;
    },
  )

  contents-empty : q.read_idx ≡ q.write_idx → contents q ≡ []
  contents-empty e = rw (nothing_used) refl
    where
      nothing_used : used ≡ 0
      nothing_used = ground arith

-- A call of `push` answers as the bounded queue of the ring's contents does, and leaves the ring
-- holding that queue.
pub push_refines :
    (q : RingBuffer) (val : ℕ)
    → IsValid q
    → (q' : RingBuffer) × (push q val ≡ some ((Queue.push (room q) (contents q) val).0, q'))
      × (contents q' ≡ (Queue.push (room q) (contents q) val).1)
      × (room q' ≡ room q)
      × IsValid q'
push_refines q val v = elim (ℕ_discrete (next_idx (length q.buffer) q.write_idx) q.read_idx) [
  | yes full ↦ let (code, spec) = push-full q v val full in (q, rw spec code, rw spec, refl, v)
  | no n ↦
      let (code, spec) = push-room q v val n in
      (
        pushed q v val,
        rw spec code,
        rw spec (contents-pushed q v val n),
        ap (λ k. k - 1) (length-set q.buffer q.write_idx val),
        pushed-IsValid q v val,
      )
]

-- A call of `pop` answers as the queue of the ring's contents does, and leaves the ring holding
-- the rest.
pub pop_refines :
    (q : RingBuffer)
    → IsValid q
    → (q' : RingBuffer) × (pop q ≡ some ((Queue.pop (contents q)).0, q'))
      × (contents q' ≡ (Queue.pop (contents q)).1)
      × (room q' ≡ room q)
      × IsValid q'
pop_refines q v = elim (ℕ_discrete q.read_idx q.write_idx) [
  | yes e ↦
      let nothing = contents-empty q v e in
      (
        q,
        unfold pop in rw (eq_pos e) (ap (λ c. some ((Queue.pop c).0, q)) (sym nothing)),
        nothing ∙ ap (λ c. (Queue.pop c).1) (sym nothing),
        refl,
        v,
      )
  | no n ↦
      let (code, items, valid) = pop-some q v n in
      (
        record q { read_idx = next_idx (length q.buffer) q.read_idx },
        code
            ∙ ap
                (λ c.
                  some (
                    (Queue.pop c).0,
                    record q { read_idx = next_idx (length q.buffer) q.read_idx },
                  ))
                (sym items),
        ap (λ c. (Queue.pop c).1) (sym items),
        refl,
        valid,
      )
]

-- `reset` empties the ring.
pub reset_refines :
    (q : RingBuffer)
    → IsValid q
    → (q' : RingBuffer) × (some (reset q) ≡ some q')
      × (contents q' ≡ [])
      × (room q' ≡ room q)
      × IsValid q'
unfolding reset
reset_refines q v = (
  record q { read_idx = 0; write_idx = 0 },
  refl,
  refl,
  refl,
  record {
    small = v.small;
    read_in = omega (arith, v.read_in);
    write_in = omega (arith, v.read_in);
  },
)

abbrev pub classic : RingApi
classic = record {
  State = RingBuffer;
  push = push;
  pop = pop;
  reset = λ q. some (reset q);
  IsValid = IsValid;
  room = room;
  contents = contents;
  push_refines = push_refines;
  pop_refines = pop_refines;
  reset_refines = reset_refines;
}
