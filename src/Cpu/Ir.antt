-- ===== src/Cpu/Ir.antt =====
-- src/cpu/ir.c, include/cpu/ir.h and the immediates of include/cpu/decode.h: decoding of RV64
-- instructions into `IrInst`, their executors and the write-back. `Inst` holds the data, `Decode`
-- the decoder, `Exec` and `Alu` the executors.
pub mod Inst
pub mod Decode
pub mod Alu
pub mod Access
pub mod Exec
pub mod MemAccess
pub mod Kept
pub mod Addresses
pub mod Immediates
pub mod Isa
pub mod Groups
pub mod RoundTrip
pub mod Step
pub mod Tests
