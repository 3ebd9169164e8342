-- ===== src/Memory.antt =====
-- src/memory: the cache hierarchy, the physical memory with its devices, and the prefetcher.
pub mod Bytes
pub mod Cache
pub mod Vmem
pub mod Mmio
pub mod Pmem
mod Tests
