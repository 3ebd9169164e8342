-- ===== src/Cpu/State.antt =====
-- include/cpu/reg.h and include/simulator/state.h: the architectural registers and what the
-- simulator knows of the run.
use sustemu.Base.{ℕ}

-- `CPU_state`: 32 integer registers and the program counter.
pub record CpuState : Type 0 where
  pub gpr : ℕ → ℕ
  pub pc : ℕ

-- `init_regs`
unfoldable pub init_regs : CpuState
init_regs = record { gpr = λ i. 0; pc = 0x8000_0000 }

-- `nemu_state`
pub data NemuState : Type 0 where
  running stop end abort quit : NemuState
