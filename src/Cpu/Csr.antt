-- ===== src/Cpu/Csr.antt =====
-- src/cpu/csr.c and include/cpu/csr.h: the control and status registers, the privilege levels and
-- the physical memory protection. The C globals are the record `Hart`; each function takes it and
-- returns the new one. The table of CSRs and the two switches are in the children.
pub mod Table
pub mod Access
pub mod Priv
pub mod Pmp
pub mod Rights
pub mod Counts
pub mod Protection
pub mod Traps
pub mod ReadBack
pub mod Tests
