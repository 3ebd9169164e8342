-- ===== src/Memory/Cache/Transparent.antt =====
-- The hierarchy as one memory: what a program reads is the view, and only its writes change it.
pub mod Fill
pub mod Entry
pub mod Clean
pub mod Gone
pub mod Snoops
pub mod Pair
pub mod Probe
pub mod Client
pub mod Tests
