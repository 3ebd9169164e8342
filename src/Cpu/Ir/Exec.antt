-- ===== src/Cpu/Ir/Exec.antt =====
-- `ir_execute`, `ir_writeback` and the executors of src/cpu/ir.c that touch the control registers,
-- the run state or the call trace.
use sustemu.Base.{
  ℕ, ◌-◌, ◌%◌, Bool, true, false, Option, none, some, ◌==◌, if◌then◌else◌, ◌&&◌, ◌||◌, bit_or,
  bit_and, update, ◌>>=◌,
}
use sustemu.Word.{add64, not64, sext, uext}
use sustemu.Cpu.State.{CpuState, end}
use sustemu.Cpu.Csr.Table.{Hart}
use sustemu.Cpu.Csr.Access.{read_csr, set_csr}
use sustemu.Cpu.Csr.Priv.{raise_intr, exception_priv_transfer, mret_priv_transfer}
use sustemu.Cpu.Ftrace.{Ftrace, add_ftrace}
use sustemu.Cpu.Ir.Inst
use sustemu.Cpu.Ir.Inst.{IrInst, ExecFn}
use sustemu.Cpu.Ir.Alu
use sustemu.Cpu.Ir.Alu.{with_result}
use sustemu.Cpu.Ir.Access

-- The globals that an executor may change.
pub record Sim : Type 0 where
  pub hart : Hart
  pub ftrace : Ftrace

-- Whether an operand slot names register n.
abbrev pub is_reg : Option ℕ → ℕ → Bool
is_reg none n = false
is_reg (some r) n = r == n

unfoldable pub exec_jal : IrInst → Sim → IrInst × Sim
exec_jal ir s =
    let target = add64 ir.pc ir.src1_val in
    (
      record ir { type = Inst.itype_jal; result = ir.snpc; dnpc = target },
      if is_reg ir.rd 1 || is_reg ir.rd 5
          then record s { ftrace = add_ftrace s.ftrace target true }
          else s,
    )

-- `& ~(vaddr_t)1` clears the lowest bit.
unfoldable pub exec_jalr : IrInst → Sim → IrInst × Sim
exec_jalr ir s =
    let sum = add64 ir.src1_val ir.src2_val in
    let target = sum - sum % 2 in
    (
      record ir { type = Inst.itype_jalr; result = ir.snpc; dnpc = target },
      if is_reg ir.rd 0 && is_reg ir.rs1 1
          then record s { ftrace = add_ftrace s.ftrace target false }
          else if is_reg ir.rd 1 || is_reg ir.rd 5
          then record s { ftrace = add_ftrace s.ftrace target true }
          else s,
    )

abbrev pub csr_inst : IrInst → ℕ → IrInst
csr_inst ir v = record ir { type = Inst.itype_csr; serializing = true; result = v; dnpc = ir.snpc }

-- The register is read only when the whole operand is nonzero.
unfoldable pub exec_csrrw : IrInst → Sim → Option (IrInst × Sim)
exec_csrrw ir s = do
  (v, h) ← if ir.src2_val == 0 then some (ir.result, s.hart) else read_csr s.hart csr_no
  h' ← set_csr h csr_no ir.src1_val
  some (csr_inst ir v, record s { hart = h' })
  where
    csr_no : ℕ
    csr_no = ir.src2_val % 0x1000

unfoldable pub exec_csrrs : IrInst → Sim → Option (IrInst × Sim)
exec_csrrs ir s = do
  (v, h) ← read_csr s.hart csr_no
  h' ← if ir.src1_val == 0 then some h else set_csr h csr_no (bit_or v ir.src1_val)
  some (csr_inst ir v, record s { hart = h' })
  where
    csr_no : ℕ
    csr_no = ir.src2_val % 0x1000

unfoldable pub exec_csrrc : IrInst → Sim → Option (IrInst × Sim)
exec_csrrc ir s = do
  (v, h) ← read_csr s.hart csr_no
  h' ← if ir.src1_val == 0 then some h else set_csr h csr_no (bit_and v (not64 ir.src1_val))
  some (csr_inst ir v, record s { hart = h' })
  where
    csr_no : ℕ
    csr_no = ir.src2_val % 0x1000

abbrev pub system_inst : IrInst → ℕ → IrInst
system_inst ir target = record ir {
  type = Inst.itype_system;
  serializing = true;
  rd = none;
  dnpc = target;
}

unfoldable pub exec_ecall : IrInst → Sim → IrInst × Sim
exec_ecall ir s =
    let (target, h) = raise_intr s.hart 11 ir.pc in
    (system_inst ir target, record s { hart = exception_priv_transfer h })

unfoldable pub exec_mret : IrInst → Sim → Option (IrInst × Sim)
exec_mret ir s = do
  (target, h) ← read_csr s.hart 0x341
  some (system_inst ir target, record s { hart = mret_priv_transfer h })

unfoldable pub exec_ebreak : IrInst → Sim → IrInst × Sim
exec_ebreak ir s = (system_inst ir ir.snpc, record s { hart = record h { state = end } })
  where
    h : Hart
    h = s.hart

-- An executor that leaves the globals alone.
abbrev keep : Sim → Option IrInst → Option (IrInst × Sim)
keep s r = r >>= λ ir. some (ir, s)

-- The call through `exec_fn`
unfoldable pub dispatch : ExecFn → IrInst → Sim → Option (IrInst × Sim)
dispatch Inst.auipc ir s = keep s (Alu.exec_auipc ir)
dispatch Inst.lui ir s = keep s (Alu.exec_lui ir)
dispatch Inst.add ir s = keep s (Alu.exec_add ir)
dispatch Inst.mul ir s = keep s (Alu.exec_mul ir)
dispatch Inst.sub ir s = keep s (Alu.exec_sub ir)
dispatch Inst.or ir s = keep s (Alu.exec_or ir)
dispatch Inst.xor ir s = keep s (Alu.exec_xor ir)
dispatch Inst.and ir s = keep s (Alu.exec_and ir)
dispatch Inst.slt ir s = keep s (Alu.exec_slt ir)
dispatch Inst.sltu ir s = keep s (Alu.exec_sltu ir)
dispatch Inst.sll ir s = keep s (Alu.exec_sll ir)
dispatch Inst.srl ir s = keep s (Alu.exec_srl ir)
dispatch Inst.sra ir s = keep s (Alu.exec_sra ir)
dispatch Inst.div ir s = keep s (Alu.exec_div ir)
dispatch Inst.divu ir s = keep s (Alu.exec_divu ir)
dispatch Inst.rem ir s = keep s (Alu.exec_rem ir)
dispatch Inst.remu ir s = keep s (Alu.exec_remu ir)
dispatch Inst.addw ir s = keep s (Alu.exec_addw ir)
dispatch Inst.mulw ir s = keep s (Alu.exec_mulw ir)
dispatch Inst.subw ir s = keep s (Alu.exec_subw ir)
dispatch Inst.sllw ir s = keep s (Alu.exec_sllw ir)
dispatch Inst.srlw ir s = keep s (Alu.exec_srlw ir)
dispatch Inst.sraw ir s = keep s (Alu.exec_sraw ir)
dispatch Inst.divw ir s = keep s (Alu.exec_divw ir)
dispatch Inst.divuw ir s = keep s (Alu.exec_divuw ir)
dispatch Inst.remw ir s = keep s (Alu.exec_remw ir)
dispatch Inst.remuw ir s = keep s (Alu.exec_remuw ir)
dispatch Inst.addi ir s = keep s (Alu.exec_addi ir)
dispatch Inst.ori ir s = keep s (Alu.exec_ori ir)
dispatch Inst.xori ir s = keep s (Alu.exec_xori ir)
dispatch Inst.andi ir s = keep s (Alu.exec_andi ir)
dispatch Inst.slti ir s = keep s (Alu.exec_slti ir)
dispatch Inst.sltiu ir s = keep s (Alu.exec_sltiu ir)
dispatch Inst.slli ir s = keep s (Alu.exec_slli ir)
dispatch Inst.srli ir s = keep s (Alu.exec_srli ir)
dispatch Inst.srai ir s = keep s (Alu.exec_srai ir)
dispatch Inst.addiw ir s = keep s (Alu.exec_addiw ir)
dispatch Inst.slliw ir s = keep s (Alu.exec_slliw ir)
dispatch Inst.srliw ir s = keep s (Alu.exec_srliw ir)
dispatch Inst.sraiw ir s = keep s (Alu.exec_sraiw ir)
dispatch Inst.beq ir s = keep s (Access.exec_beq ir)
dispatch Inst.bne ir s = keep s (Access.exec_bne ir)
dispatch Inst.blt ir s = keep s (Access.exec_blt ir)
dispatch Inst.bge ir s = keep s (Access.exec_bge ir)
dispatch Inst.bltu ir s = keep s (Access.exec_bltu ir)
dispatch Inst.bgeu ir s = keep s (Access.exec_bgeu ir)
dispatch Inst.ld ir s = keep s (Access.exec_ld ir)
dispatch Inst.lw ir s = keep s (Access.exec_lw ir)
dispatch Inst.lh ir s = keep s (Access.exec_lh ir)
dispatch Inst.lb ir s = keep s (Access.exec_lb ir)
dispatch Inst.lwu ir s = keep s (Access.exec_lwu ir)
dispatch Inst.lhu ir s = keep s (Access.exec_lhu ir)
dispatch Inst.lbu ir s = keep s (Access.exec_lbu ir)
dispatch Inst.sd ir s = keep s (Access.exec_sd ir)
dispatch Inst.sw ir s = keep s (Access.exec_sw ir)
dispatch Inst.sh ir s = keep s (Access.exec_sh ir)
dispatch Inst.sb ir s = keep s (Access.exec_sb ir)
dispatch Inst.fence ir s = keep s (Access.exec_fence ir)
dispatch Inst.inv ir s = keep s (Access.exec_inv ir)
dispatch Inst.jal ir s = some (exec_jal ir s)
dispatch Inst.jalr ir s = some (exec_jalr ir s)
dispatch Inst.ecall ir s = some (exec_ecall ir s)
dispatch Inst.ebreak ir s = some (exec_ebreak ir s)
dispatch Inst.csrrw ir s = exec_csrrw ir s
dispatch Inst.csrrs ir s = exec_csrrs ir s
dispatch Inst.csrrc ir s = exec_csrrc ir s
dispatch Inst.mret ir s = exec_mret ir s

unfoldable pub ir_execute : IrInst → Sim → Option (IrInst × Sim)
ir_execute ir s = dispatch ir.exec_fn ir s

unfoldable pub ir_writeback : IrInst → CpuState → CpuState
ir_writeback ir cpu = record cpu { gpr = update (written ir.rd) 0 0 }
  where
    written : Option ℕ → ℕ → ℕ
    written none = cpu.gpr
    written (some rd) = update cpu.gpr rd ir.result

-- The extension of a loaded value in `ir_mem_access` and `ooo_unit_lsu`
unfoldable pub extend_load : Bool → ℕ → ℕ → ℕ
extend_load sign width raw =
    if width == 1
    then (if sign then sext raw 8 else uext raw 8)
    else if width == 2
    then (if sign then sext raw 16 else uext raw 16)
    else if width == 4
    then (if sign then sext raw 32 else uext raw 32)
    else raw
