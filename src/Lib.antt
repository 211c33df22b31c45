-- ===== src/Lib.antt =====
-- Verification of the data structures, queues and generators of the benchmark collection.
--
-- The program measures small C++ components against one another. Each is a class in a header under
-- src/, driven by a loop `runBenchmark`; main.cpp chooses which to run and `executeBench` runs
-- them. What is modelled is the components, the loops that call them and the store of the
-- measurements.
--
-- * SparseSet.antt models src/utils/sparse_set.hpp: the class is the record `SparseSet` with the
--   three vectors of the source, each method a function of the same name in snake case that returns
--   the new state. `none` is an access out of range or a failed assert. A `Handle` finds its vector
--   by address in a store. SparseSet/Inv.antt has the invariant and the map from IDs to objects;
--   Erase, Insert, Reuse, RemoveIf and Handles are about single operations, Calls and Lifetimes
--   about sequences of calls. `remove_if` runs on fuel, one more than there are objects: each round
--   drops one or moves past one.
-- * Ring.antt models src/benchmarks/ring_buffers. Classic, Caching, Condensed and Slot are
--   classic.hpp, cachy.hpp, condensed_cachy.hpp and slot.hpp, called one call at a time.
--   Ring/Queue.antt is the FIFO that they implement and Ring/Api.antt the contract that
--   Ring/Tester.antt, the threads of ring_buffer_tester.hpp, takes as an argument; Ring/Calls.antt
--   is about sequences of calls. Ring/Spsc.antt runs cachy.hpp as two threads that interleave at
--   each access to shared memory, as a step relation; the accesses have one order that both threads
--   see.
-- * Mpmc.antt models src/benchmarks/MPMC/vyukov.hpp as a step relation: any number of threads, each
--   of which makes one access to shared memory at a step, in one order that all threads see.
--   Positions are words; what is stated holds while the values pushed and the slots are at most 2 ^
--   63 together, so long as the signed differences of the source mean what they should.
--   Common/Masks.antt is about the mask, Mpmc/Vyukov/Inv, Push, Pop and Reachable about the
--   invariant, Held and Lossless about who has got which position, Free about the slots that a push
--   may take. Mpmc/Atomic.antt models src/benchmarks/MPMC/atomics.hpp the same way, with its
--   `reset`. What is stated of it supposes that no thread stays behind for a round of the queue
--   between its load of a reserved index and its exchange of it: the index is then the same number
--   again, and the exchange succeeds although it should not. Mpmc/AtomicTests has a run in which
--   that loses two values. Mpmc/Atomic/Held and Kept are about the threads that hold a ticket, Only
--   and Alone about one that runs alone while no other is in a call; Mpmc/Vyukov has the same two.
--   Mpmc/Locked.antt models src/benchmarks/MPMC/locked.hpp, at the lock and each call of the
--   standard queue. Mpmc/Bencher.antt has the threads that src/benchmarks/MPMC/MPMC_bencher.hpp
--   starts, with their cores.
-- * Rng.antt models src/utils/xoroshiro_64_star.hpp and src/benchmarks/rng. Words are native
--   numbers with their wrap-around written out. Traits is `InstructionSetTraits`, an argument of
--   the generator, with the scalar `NONE` and the AVX sets as instances; the intrinsics of the
--   compiler and `float` are parameters. A fill runs on fuel, one more than its elements: each
--   round writes at least one. Memory is a function from word indices.
-- * Rng/Heavy.antt and Rng/Buffered.antt model the two generators of
--   one_and_dones/no_unique_address.cpp. A capability is named by the method that returns its type;
--   a member whose type is conditional on the capabilities is a type that computes from them, and a
--   `requires` clause is an argument.
-- * Benchmarks.antt models src/benchmarks/allocation/arena.hpp, src/benchmarks/attributes,
--   src/benchmarks/SOA_AOS, src/benchmarks/execution_policies, src/benchmarks/bench_runner.hpp and
--   src/timer.hpp. Benchmarks/Collection, Evaluation and Runner are the sample store, the
--   evaluation and `executeBench`, Runner/Measured the times that it takes; what a benchmark may
--   change beside the timer and the store is a `World`, which a benchmark may also fail to give,
--   `double`, boost's quantiles and `std::sort` are arguments. Bytes printed are left out.
--   Benchmarks/Search and Prediction are src/benchmarks/binary_search and branch_prediction, on the
--   same terms.
-- * Csv.antt models one_and_dones/compile_time_csv/example.cpp, from the text to the table and
--   `get`. Its loops run over positions; those of `sanitize` are given as many rounds as the text
--   is long. Which names `define_aggregate` takes as the members of a class is an argument.
-- * Hashing.antt models both hashes of one_and_dones/hashing.cpp in integers with a sign.
-- * Stats.antt models the confidence interval of src/stats/student_T_tests.hpp and Stats/Shapiro
--   the test for normality of src/stats/anovas.hpp. `double` and its functions are arguments, as
--   are boost's distributions. `sameGroupMeans` is not modelled: it asks a joined view for its
--   `size()`, which that has not, so it cannot be instantiated.
-- * Main.antt models main.cpp: for each of its functions the calls of `executeBench`, with the
--   names of the benchmarks (Main/Names). It uses Benchmarks/Runner.
--
-- Not modelled: loops that only call the standard library, what the threads of
-- src/benchmarks/MPMC/MPMC_bencher.hpp compute between their calls, and the demonstrations of
-- one_and_dones that print what a compiler does; one_and_dones/ringbuffer.cpp is the original
-- author's.
pub mod Common
pub mod SparseSet
pub mod Ring
pub mod Mpmc
pub mod Rng
pub mod Benchmarks
pub mod Csv
pub mod Hashing
pub mod Stats
pub mod Main
