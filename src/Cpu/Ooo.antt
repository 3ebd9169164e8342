-- ===== src/Cpu/Ooo.antt =====
-- src/cpu/ooo.c with include/cpu/ooo.h and include/cpu/exec_cfg.h: the out-of-order engine.
pub mod State
pub mod Rename
pub mod Flush
pub mod Wake
pub mod Mshr
pub mod Machine
pub mod Commit
pub mod Units
pub mod Lsu
pub mod Cycle
pub mod Stages
pub mod Names
pub mod Stations
pub mod Places
pub mod Masks
pub mod Forwarding
pub mod Tests
