-- ===== src/Hashing/Impl.antt =====
-- `hash_impl` of one_and_dones/hashing.cpp, the fold over an index sequence that `string_hash`
-- could call. `none` is an index out of range, which does not compile.
use benchmark_fun.Common.{
  ℕ, zero, suc, ◌+◌, ◌*◌, ◌%◌, ◌≡◌, refl, Option, some, List, [], ◌∷◌, length, drop, get_elem?,
  ◌>>=◌, ℤ, pos, arith, next_item, drop_all,
}
use benchmark_fun.Hashing.{m, unreduced, rem, hash_from, string_hash}

-- The indexes in turn, from a hash and a power of `p`.
pub update_all : List ℕ → ℤ → ℕ → List ℕ → Option ℤ
update_all arr hash p_pow [] = some hash
update_all arr hash p_pow (idx ∷ idxs) = do
  c ← get_elem? arr idx
  update_all arr (rem (unreduced hash p_pow c) m) (p_pow * 31 % m) idxs

unfoldable pub hash_impl : List ℕ → List ℕ → Option ℤ
unfolding update_all
hash_impl arr idxs = update_all arr (pos 0) 1 idxs

-- `std::make_index_sequence<n>`, from `k` on
abbrev pub index_sequence : ℕ → ℕ → List ℕ
index_sequence k zero = []
index_sequence k (suc n) = k ∷ index_sequence (suc k) n

update_all-hash_from :
    (arr : List ℕ) (hash : ℤ) (p_pow k n : ℕ)
    → k + n ≡ length arr
    → update_all arr hash p_pow (index_sequence k n) ≡ some (hash_from hash p_pow (drop k arr))
unfolding update_all hash_from
update_all-hash_from arr hash p_pow k zero e = rw (drop_all arr k (omega (arith, e))) refl
update_all-hash_from arr hash p_pow k (suc n) e =
    let (c, found, split) = next_item k arr (omega (arith, e)) in
    rw (found, split)
      (update_all-hash_from arr (rem (unreduced hash p_pow c) m) (p_pow * 31 % m) (suc k) n
        (omega (arith, e)))

-- Over the index sequence of the text, the fold gives the hash of the loop, and no index is out of
-- range.
pub hash_impl-string_hash :
    (s : List ℕ) → hash_impl s (index_sequence 0 (length s)) ≡ some (string_hash s)
unfolding hash_impl string_hash
hash_impl-string_hash s = update_all-hash_from s (pos 0) 1 0 (length s) (omega arith)
