-- ===== src/Hashing/Tests.antt =====
-- The theorems on one_and_dones/hashing.cpp at "testing".
use benchmark_fun.Common.{ℕ, ◌<◌, ◌≡◌, ◌%◌, List, length, some, arith, pos}
use benchmark_fun.Hashing.Impl.{hash_impl, index_sequence, hash_impl-string_hash}
use benchmark_fun.Common.{codes}
use benchmark_fun.Hashing.{
  abs, m, string_hash, Fits, polynomial, string_hash-Fits, string_hash-polynomial,
}

abbrev testing : List ℕ
testing = codes "testing"

string_hash-Fits_example : Fits (pos 0) 1 testing × (abs (string_hash testing) < m)
string_hash-Fits_example = string_hash-Fits testing (omega arith)

string_hash-polynomial_example : string_hash testing ≡ pos (polynomial testing % m)
string_hash-polynomial_example = string_hash-polynomial testing (omega arith)

hash_impl-string_hash_example :
    hash_impl testing (index_sequence 0 (length testing)) ≡ some (string_hash testing)
hash_impl-string_hash_example = hash_impl-string_hash testing
