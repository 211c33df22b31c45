-- ===== src/Rng.antt =====
-- src/utils/xoroshiro_64_star.hpp, and its users in src/benchmarks/rng.
pub mod Words
pub mod Traits
pub mod Avx
pub mod Xoroshiro
pub mod Bits
pub mod Scalar
pub mod Lanes
pub mod Store
pub mod Fill
pub mod Sequential
pub mod Heavy
pub mod Buffered
pub mod Plus
mod Tests
mod LaneTests
mod HeavyTests
