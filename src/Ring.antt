-- ===== src/Ring.antt =====
-- The single-producer single-consumer ring buffers of src/benchmarks/ring_buffers and
-- one_and_dones/ringbuffer.cpp, each behind the interface of `Ring.Api`, and their tester.
pub mod Queue
pub mod Api
pub mod Window
pub mod Circle
pub mod Classic
pub mod Caching
pub mod Condensed
pub mod Slot
pub mod Spsc
pub mod Calls
pub mod Tester
mod Tests
mod SlotTests
mod CallTests
