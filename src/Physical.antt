-- ===== src/Physical.antt =====
-- The physical components of a worker: src/components/physical.
mod Tests
pub mod Ram
pub mod Disk
pub mod Cpu
pub mod CpuPool
