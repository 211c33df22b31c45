-- ===== src/Main.antt =====
-- main.cpp: which benchmarks each of its functions hands to `executeBench`, and how often. A
-- benchmark is its name here; the names are those that the constructors under src/benchmarks give.
pub mod Names
pub mod Reports
mod Tests
use benchmark_fun.Common.{ℕ, List, [], ◌∷◌, ◌++◌, Text, map}
use benchmark_fun.Main.Names.{
  Element, Policy, Allocator, aos_name, soa_name, attribute_name, policy_name, vector_name,
  string_name, array_write_name, ring_name, allocator_name, queue_name,
}
use benchmark_fun.Benchmarks.Attributes.{Attribute}
use benchmark_fun.Main.Names

-- One call of `executeBench`.
pub record Run : Type 0 where
  pub iterations : ℕ
  pub num_samples : ℕ
  pub benches : List Text

abbrev pub run_rng_benchmark : List Run
run_rng_benchmark =
    record {
      iterations = 1000000;
      num_samples = 300;
      benches = Names.xoroshiro128plus ∷ Names.mersenne_twister ∷ [];
    }
    ∷ []

abbrev pub run_branch_prediction_benchmark : List Run
run_branch_prediction_benchmark =
    record {
      iterations = 120;
      num_samples = 300;
      benches = Names.branch_prediction_sorted ∷ Names.branch_prediction_unsorted ∷ [];
    }
    ∷ []

abbrev pub run_vector_random_access_benchmark : List Run
run_vector_random_access_benchmark =
    record {
      iterations = 1;
      num_samples = 1000;
      benches = Names.bool_access ∷ Names.char_access ∷ Names.uint8_access ∷ [];
    }
    ∷ []

abbrev iterate_both : Element → Run
iterate_both element = record {
  iterations = 1;
  num_samples = 1000;
  benches = aos_name element ∷ soa_name element ∷ [];
}

abbrev pub test_soa_aos_iteration : List Run
test_soa_aos_iteration =
    iterate_both Element.uint8
    ∷ iterate_both Element.float
    ∷ iterate_both Element.double
    ∷ iterate_both Element.long_double
    ∷ iterate_both Element.float16
    ∷ []

abbrev pub run_attribute_benchmark : List Run
run_attribute_benchmark =
    record {
      iterations = 5;
      num_samples = 5000;
      benches = map attribute_name (
          Attribute.likely ∷ Attribute.unlikely ∷ Attribute.default_behavior ∷ Attribute.branchless
          ∷ []);
    }
    ∷ []

abbrev pub run_execution_policy_benchmark : List Run
run_execution_policy_benchmark =
    record {
      iterations = 10;
      num_samples = 50;
      benches = map policy_name (
          Policy.indexed_loop ∷ Policy.sequenced ∷ Policy.unsequenced ∷ Policy.parallel
          ∷ Policy.parallel_unsequenced ∷ []);
    }
    ∷ []

abbrev pub run_reserved_vector_benchmark : List Run
run_reserved_vector_benchmark =
    record { iterations = 5000000; num_samples = 30; benches = vector_name 0 ∷ [] } ∷ []

abbrev pub run_string_optimsation_benchmark : List Run
run_string_optimsation_benchmark =
    record {
      iterations = 10000;
      num_samples = 300;
      benches = map string_name (15 ∷ 16 ∷ 17 ∷ 18 ∷ []);
    }
    ∷ []

abbrev pub run_array_write_benchmark : List Run
run_array_write_benchmark =
    record {
      iterations = 500000;
      num_samples = 500;
      benches = map array_write_name (0 ∷ 7 ∷ 8 ∷ 13 ∷ 16 ∷ 32 ∷ 55 ∷ 56 ∷ 57 ∷ 58 ∷ 59 ∷ 63 ∷ []);
    }
    ∷ []

abbrev pub array_fill : List Run
array_fill =
    record {
      iterations = 100;
      num_samples = 50;
      benches =
          Names.mersenne_twister_array_fill ∷ Names.xoroshiro64_array_fill
          ∷ Names.xoroshiro64_buffered_array_fill ∷ Names.xoroshiro64_simd_array_fill ∷ [];
    }
    ∷ []

abbrev pub ring_buffer_implementations : List Run
ring_buffer_implementations =
    record {
      iterations = 1000000;
      num_samples = 100;
      benches =
          map ring_name
            (Names.classic_ring ∷ Names.caching_ring ∷ Names.condensed_ring ∷ Names.slot_ring ∷ []);
    }
    ∷ []

abbrev both_allocators : Run
both_allocators = record {
  iterations = 1;
  num_samples = 1000;
  benches = allocator_name Allocator.new ∷ allocator_name Allocator.arena ∷ [];
}

abbrev pub allocator_bench : List Run
allocator_bench = both_allocators ∷ []

abbrev pub allocation_and_deletion_bench : List Run
allocation_and_deletion_bench = both_allocators ∷ []

abbrev pub allocation_and_deletion_and_variable_alloc_bench : List Run
allocation_and_deletion_and_variable_alloc_bench = both_allocators ∷ []

abbrev pub mpmc_queue_bench : List Run
mpmc_queue_bench =
    record {
      iterations = 10000;
      num_samples = 300;
      benches = queue_name Names.mutex_queue 10 ∷ queue_name Names.vyukov_queue 10 ∷ [];
    }
    ∷ []

-- What `main` calls, inside its `try`.
abbrev pub main : List Run
main = mpmc_queue_bench

-- The calls in all functions that are compiled, those that `main` does not call too.
abbrev pub all_runs : List Run
all_runs =
    run_rng_benchmark ++ run_branch_prediction_benchmark ++ run_vector_random_access_benchmark
    ++ test_soa_aos_iteration ++ run_attribute_benchmark ++ run_execution_policy_benchmark
    ++ run_reserved_vector_benchmark ++ run_string_optimsation_benchmark
    ++ run_array_write_benchmark ++ array_fill ++ ring_buffer_implementations ++ allocator_bench
    ++ allocation_and_deletion_bench ++ allocation_and_deletion_and_variable_alloc_bench
    ++ mpmc_queue_bench
