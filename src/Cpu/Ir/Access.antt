-- ===== src/Cpu/Ir/Access.antt =====
-- The executors of src/cpu/ir.c for branches, loads and stores.
use sustemu.Base.{ℕ, Bool, true, false, Option, none, some, ltb, ◌==◌, if◌then◌else◌, not}
use sustemu.Word.{add64, slt64}
use sustemu.Cpu.Ir.Inst
use sustemu.Cpu.Ir.Inst.{IrInst}

-- The part that the six branches share, given their condition.
abbrev branch : IrInst → Bool → Option IrInst
branch ir taken = some (record ir {
  type = Inst.itype_branch;
  taken = taken;
  dnpc = if taken then add64 ir.pc ir.imm else ir.snpc;
})

-- The part that the seven loads share.
abbrev load : IrInst → ℕ → Bool → Option IrInst
load ir width sign = some (record ir {
  type = Inst.itype_load;
  mem_addr = add64 ir.src1_val ir.src2_val;
  mem_width = width;
  mem_sign = sign;
  dnpc = ir.snpc;
})

-- The part that the four stores share.
abbrev store : IrInst → ℕ → Option IrInst
store ir width = some (record ir {
  type = Inst.itype_store;
  mem_addr = add64 ir.src1_val ir.imm;
  mem_width = width;
  dnpc = ir.snpc;
})

unfoldable pub exec_beq : IrInst → Option IrInst
exec_beq ir = branch ir (ir.src1_val == ir.src2_val)

unfoldable pub exec_bne : IrInst → Option IrInst
exec_bne ir = branch ir (not (ir.src1_val == ir.src2_val))

unfoldable pub exec_blt : IrInst → Option IrInst
exec_blt ir = branch ir (slt64 ir.src1_val ir.src2_val)

unfoldable pub exec_bge : IrInst → Option IrInst
exec_bge ir = branch ir (not (slt64 ir.src1_val ir.src2_val))

unfoldable pub exec_bltu : IrInst → Option IrInst
exec_bltu ir = branch ir (ltb ir.src1_val ir.src2_val)

unfoldable pub exec_bgeu : IrInst → Option IrInst
exec_bgeu ir = branch ir (not (ltb ir.src1_val ir.src2_val))

unfoldable pub exec_ld : IrInst → Option IrInst
exec_ld ir = load ir 8 false

unfoldable pub exec_lw : IrInst → Option IrInst
exec_lw ir = load ir 4 true

unfoldable pub exec_lh : IrInst → Option IrInst
exec_lh ir = load ir 2 true

unfoldable pub exec_lb : IrInst → Option IrInst
exec_lb ir = load ir 1 true

unfoldable pub exec_lwu : IrInst → Option IrInst
exec_lwu ir = load ir 4 false

unfoldable pub exec_lhu : IrInst → Option IrInst
exec_lhu ir = load ir 2 false

unfoldable pub exec_lbu : IrInst → Option IrInst
exec_lbu ir = load ir 1 false

unfoldable pub exec_sd : IrInst → Option IrInst
exec_sd ir = store ir 8

unfoldable pub exec_sw : IrInst → Option IrInst
exec_sw ir = store ir 4

unfoldable pub exec_sh : IrInst → Option IrInst
exec_sh ir = store ir 2

unfoldable pub exec_sb : IrInst → Option IrInst
exec_sb ir = store ir 1

unfoldable pub exec_inv : IrInst → Option IrInst
exec_inv ir = some (record ir { type = Inst.itype_invalid; fault = true; dnpc = ir.snpc })

unfoldable pub exec_fence : IrInst → Option IrInst
exec_fence ir = some (record ir {
  type = Inst.itype_fence;
  serializing = true;
  rd = none;
  result = 0;
  dnpc = ir.snpc;
})
