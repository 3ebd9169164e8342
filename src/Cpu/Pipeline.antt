-- ===== src/Cpu/Pipeline.antt =====
-- src/cpu/pipeline.c with include/cpu/pipeline.h: the in-order pipeline.
pub mod State
pub mod Stages
pub mod Cycle
pub mod Order
pub mod Progress
mod Tests
