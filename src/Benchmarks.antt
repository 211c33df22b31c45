-- ===== src/Benchmarks.antt =====
-- Smaller parts: src/benchmarks/allocation/arena.hpp, src/benchmarks/attributes,
-- src/benchmarks/SOA_AOS, src/benchmarks/execution_policies, src/benchmarks/binary_search,
-- src/benchmarks/branch_prediction, src/benchmarks/bench_runner.hpp and src/timer.hpp.
pub mod Arena
pub mod Attributes
pub mod Layouts
pub mod Timer
pub mod Collection
pub mod Evaluation
pub mod Runner
pub mod Search
mod Prediction
pub mod Policies
mod Tests
mod RunnerTests
