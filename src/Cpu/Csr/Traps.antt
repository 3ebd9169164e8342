-- ===== src/Cpu/Csr/Traps.antt =====
-- An environment call and the return from it, as `exec_ecall` and `exec_mret` of src/cpu/ir.c and
-- the transfers of src/cpu/csr.c make them.
use sustemu.Base.{◌≡◌, refl, some}
use sustemu.Cpu.Csr.Table.{machine, priv_check, check_rows, row_grants, csr_table}
use sustemu.Cpu.Csr.Access.{read_csr, read_reg}
use sustemu.Cpu.Csr.Priv.{raise_intr, exception_priv_transfer}
use sustemu.Cpu.Ir.Inst.{IrInst}
use sustemu.Cpu.Ir.Exec.{Sim, exec_ecall, exec_mret}

-- The state that a call leaves: machine mode, with its own address saved and its cause, and the
-- simulator still running as it was
pub record Trapped (ir : IrInst) (s : Sim) (ir' : IrInst) (s' : Sim) : Type 0 where
  pub dnpc : ir'.dnpc ≡ s.hart.csr.mtvec
  pub mepc : s'.hart.csr.mepc ≡ ir.pc
  pub mcause : s'.hart.csr.mcause ≡ 11
  pub level : s'.hart.priv_level ≡ machine
  pub state : s'.hart.state ≡ s.hart.state

-- An environment call goes to the trap vector in machine mode with its own address and cause 11
-- saved, and a return from there comes back to its address.
pub exec_mret-exec_ecall :
    (ir ret : IrInst) (s : Sim)
    → let (ir', s') = exec_ecall ir s in
      Trapped ir s ir' s'
      × (r : IrInst) × (t : Sim) × (exec_mret ret s' ≡ some (r, t))
      × (r.dnpc ≡ ir.pc)
unfolding exec_ecall exec_mret raise_intr exception_priv_transfer read_csr priv_check check_rows
    row_grants csr_table read_reg
exec_mret-exec_ecall ir ret s = (
  record { dnpc = refl; mepc = refl; mcause = refl; level = refl; state = refl },
  _,
  _,
  refl,
  refl,
)
