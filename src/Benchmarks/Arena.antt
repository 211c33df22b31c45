-- ===== src/Benchmarks/Arena.antt =====
-- `Arena<true>` of src/benchmarks/allocation/arena.hpp: addresses as numbers, moved up to the
-- alignment of each block, in words of 64 bits that wrap around. The source never compares with
-- `end`.
use benchmark_fun.Common.{ℕ, ◌+◌, ◌-◌, ◌*◌, ◌%◌, ◌^◌, ◌≤◌, ◌<◌, ◌≡◌, List, [], ◌∷◌}

pub record Arena : Type 0 where
  pub begin : ℕ
  pub end : ℕ
  pub current : ℕ

-- `CAPACITY`
abbrev pub capacity : ℕ
capacity = 1000000

-- The constructor, with the address that `new` gives.
abbrev pub new_arena : ℕ → Arena
new_arena begin = record { begin = begin; end = begin + capacity; current = begin }

-- `allocate<T>(n)`, with what the call needs of `T`.
pub record Request : Type 0 where
  pub align : ℕ
  pub size : ℕ
  pub count : ℕ

abbrev pub align_up : ℕ → ℕ → ℕ
align_up current align = (current + (align - current % align) % align) % 2 ^ 64

pub allocate : Arena → Request → ℕ × Arena
allocate a r =
    let ptr = align_up a.current r.align in
    (ptr, record a { current = (ptr + r.size * r.count % 2 ^ 64) % 2 ^ 64 })

abbrev pub reset : Arena → Arena
reset a = record a { current = a.begin }

pub record Block : Type 0 where
  pub request : Request
  pub ptr : ℕ

pub allocate_all : List Request → Arena → List Block × Arena
unfolding allocate
allocate_all [] a = ([], a)
allocate_all (r ∷ rs) a =
    let (ptr, a') = allocate a r in
    let (blocks, a'') = allocate_all rs a' in (record { request = r; ptr = ptr } ∷ blocks, a'')

-- Blocks between two addresses, each aligned and behind the end of the one before it.
abbrev pub Apart : ℕ → List Block → ℕ → Type 0
Apart low [] high = low ≤ high
Apart low (b ∷ blocks) high =
    (low ≤ b.ptr)
    × (b.ptr % b.request.align ≡ 0)
    × Apart (b.ptr + b.request.size * b.request.count) blocks high

-- Enough bytes for the requests, wherever they start.
abbrev pub need : List Request → ℕ
need [] = 0
need (r ∷ rs) = r.align + r.size * r.count + need rs

abbrev pub Alignments : List Request → Type 0
Alignments [] = 0 ≤ 0
Alignments (r ∷ rs) = (0 < r.align) × Alignments rs
