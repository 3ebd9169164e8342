-- ===== src/Memory/Cache.antt =====
-- src/memory/cache.c, include/memory/cache.h and src/memory/prefetch.c: a set-associative L1 over
-- a shared L2, write-back and write-allocate, with LRU replacement. `Lines` holds the data and the
-- lookup, `Fetch` the block transfers, `Access` the reads and writes, `Snoop` the coherence helpers.
pub mod Lines
pub mod Level
pub mod Lookup
pub mod Fetch
pub mod Install
pub mod Unwritten
pub mod Transfer
pub mod Access
pub mod Transparent
pub mod Snoop
