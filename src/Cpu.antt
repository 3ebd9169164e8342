-- ===== src/Cpu.antt =====
-- src/cpu: the instruction set, the control registers, the predictors and the out-of-order engine.
pub mod State
pub mod Csr
pub mod Ftrace
pub mod Ir
pub mod Bpred
pub mod Ooo
pub mod Pipeline
