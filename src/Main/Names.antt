-- ===== src/Main/Names.antt =====
-- The names that the constructors under src/benchmarks give to the benchmarks of main.cpp.
use benchmark_fun.Common.{ℕ, ◌%◌, ◌++◌, Text, codes, decimal, ltb, ◌==◌, if◌then◌else◌}
use benchmark_fun.Benchmarks.Attributes.{Attribute}

abbrev pub xoroshiro128plus : Text
xoroshiro128plus = codes "Xoroshiro128+ RNG"

abbrev pub mersenne_twister : Text
mersenne_twister = codes "Mersenne twister RNG"

abbrev pub branch_prediction_sorted : Text
branch_prediction_sorted = codes "Branch Prediction Sorted Version"

abbrev pub branch_prediction_unsorted : Text
branch_prediction_unsorted = codes "Branch Prediction Unsorted Version"

abbrev pub bool_access : Text
bool_access = codes "bool vector random access"

abbrev pub char_access : Text
char_access = codes "char vector random access"

abbrev pub uint8_access : Text
uint8_access = codes "uint8_t vector random access"

pub data Element : Type 0 where
  float double long_double uint8 float16 : Element

abbrev type_name : Element → Text
type_name Element.float = codes "float"
type_name Element.double = codes "double"
type_name Element.long_double = codes "long double"
type_name Element.uint8 = codes "uint8_t"
type_name Element.float16 = codes "16 bit float"

abbrev pub aos_name : Element → Text
aos_name element = codes "Array of Structures Iteration over " ++ type_name element

abbrev pub soa_name : Element → Text
soa_name element = codes "Structure of Arrays iteration over " ++ type_name element

abbrev attribute : Attribute → Text
attribute Attribute.likely = codes "LIKELY"
attribute Attribute.unlikely = codes "UNLIKELY"
attribute Attribute.default_behavior = codes "DEFAULT BEHAVIOR"
attribute Attribute.branchless = codes "BRANCHLESS VERSION"

abbrev pub attribute_name : Attribute → Text
attribute_name a = codes "Compiler Branch Prediction with attribute " ++ attribute a

pub data Policy : Type 0 where
  indexed_loop sequenced unsequenced parallel parallel_unsequenced : Policy

abbrev policy : Policy → Text
policy Policy.indexed_loop = codes "Generic Indexed Loop"
policy Policy.sequenced = codes "Sequenced"
policy Policy.unsequenced = codes "Unsequenced"
policy Policy.parallel = codes "Parallel"
policy Policy.parallel_unsequenced = codes "Parallel and Unsequenced"

abbrev pub policy_name : Policy → Text
policy_name p = policy p ++ codes " Execution Policy Benchmark"

abbrev pub vector_name : ℕ → Text
vector_name reserved =
    if reserved == 0 then codes "No Reservation Vector" else codes "15 GB reservation vector"

abbrev pub string_name : ℕ → Text
string_name n = codes "String of size " ++ decimal n

abbrev pub array_write_name : ℕ → Text
array_write_name access_index =
    (if access_index % 8 == 0 then codes "aligned" else codes "unaligned")
    ++ (if ltb 56 access_index then codes " and crossing cacheline boundaries" else codes "")
    ++ codes " array write, byte offset "
    ++ decimal access_index

abbrev pub mersenne_twister_array_fill : Text
mersenne_twister_array_fill = codes "Mersenne twister RNG"

abbrev pub xoroshiro64_array_fill : Text
xoroshiro64_array_fill = codes "Xoroshiro64 RNG"

abbrev pub xoroshiro64_buffered_array_fill : Text
xoroshiro64_buffered_array_fill = codes "Buffered Xoroshiro64 RNG"

abbrev pub xoroshiro64_simd_array_fill : Text
xoroshiro64_simd_array_fill = codes "SIMD Xoroshiro64 RNG"

abbrev pub classic_ring : Text
classic_ring = codes "Classic ring buffer"

abbrev pub caching_ring : Text
caching_ring = codes "Caching ring buffer"

abbrev pub condensed_ring : Text
condensed_ring = codes "Condensed caching ring buffer"

abbrev pub slot_ring : Text
slot_ring = codes "Slot ring buffer"

abbrev pub ring_name : Text → Text
ring_name queue = queue ++ codes " benchmark"

pub data Allocator : Type 0 where
  arena new : Allocator

abbrev pub allocator_name : Allocator → Text
allocator_name Allocator.arena = codes "Arena Allocator"
allocator_name Allocator.new = codes "New Allocator"

abbrev pub mutex_queue : Text
mutex_queue = codes "Mutex MPMC Queue"

abbrev pub vyukov_queue : Text
vyukov_queue = codes "Vyukov MPMC"

abbrev pub queue_name : Text → ℕ → Text
queue_name queue num_pairs =
    queue
    ++ codes " benchmark for "
    ++ decimal num_pairs
    ++ codes " consumers and "
    ++ decimal num_pairs
    ++ codes " producers"
