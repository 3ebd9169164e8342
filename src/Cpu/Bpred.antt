-- ===== src/Cpu/Bpred.antt =====
-- The branch predictors: src/cpu/bpred.c (tournament, branch targets, return addresses) and
-- src/cpu/bpred2.c. `Model` and `Second` hold the code, the rest the proofs.
pub mod Model
pub mod Second
pub mod Bounds
pub mod Targets
pub mod Returns
pub mod Nesting
pub mod Tests
