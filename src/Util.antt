-- ===== src/Util.antt =====
-- The containers of include/util.
mod Tests
pub mod BoundedQueue
pub mod DynArray
pub mod Pool
pub mod Rng
pub mod JsonScan
