-- ===== src/Mpmc.antt =====
-- The queues of src/benchmarks/MPMC, for many producers and many consumers.
pub mod Vyukov
pub mod Atomic
pub mod Locked
pub mod Bencher
mod Tests
mod AtomicTests
mod LockedTests
