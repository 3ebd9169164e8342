-- ===== src/Cpu/Ir/Groups.antt =====
-- What the groups of `ir_decode` make of the fields of each format.
use mathlib.Core.Path.{ap₂}
use sustemu.Base.{ℕ, ◌<◌, ◌≡◌, refl, ◌∙◌, ap, arith}
use sustemu.Word.{bits}
use sustemu.Cpu.State.{CpuState}
use sustemu.Cpu.Ir.Inst.{IrInst, ExecFn}
use sustemu.Cpu.Ir.Decode.{
  ir_decode, decode_group, reset_inst, ir_fill_operands, type_r, type_i, type_s, type_b,
  OperandType, pick_op, pick_op_32, pick_op_imm, pick_op_imm_32, pick_load, pick_store, pick_branch,
}
use sustemu.Cpu.Ir.Isa.{
  i_add, i_sub, i_mul, i_or, i_rem, i_xor, i_div, i_and, i_remu, i_slt, i_sltu, i_sll, i_srl, i_sra,
  i_divu, i_addw, i_subw, i_mulw, i_sllw, i_srlw, i_sraw, i_divuw, i_divw, i_remw, i_remuw, i_addi,
  i_ori, i_xori, i_andi, i_slti, i_sltiu, i_lbu, i_lb, i_lw, i_ld, i_lh, i_lhu, i_lwu, i_addiw,
  i_jalr, i_sb, i_sh, i_sw, i_sd, i_beq, i_bne, i_blt, i_bge, i_bltu, i_bgeu, RegOp, reg_fn,
  reg_opcode, reg_funct3, reg_funct7, ImmOp, imm_fn, imm_opcode, imm_funct3, StoreOp, store_fn,
  store_funct3, BranchOp, branch_fn, branch_funct3,
}

-- The decoder sees the opcode, funct3 and funct7 only.
pub by_fields :
    (cpu : CpuState) (raw pc snpc op f3 f7 : ℕ) (ir : IrInst)
    → bits raw 6 2 ≡ op
    → bits raw 14 12 ≡ f3
    → bits raw 31 25 ≡ f7
    → ir_decode cpu raw pc snpc ir ≡ decode_group cpu (reset_inst raw pc snpc ir) raw op f3 f7
unfolding ir_decode
by_fields cpu raw pc snpc op f3 f7 ir p q r =
    ap₂ (λ x y. decode_group cpu (reset_inst raw pc snpc ir) raw x y (bits raw 31 25)) p q
    ∙ ap (decode_group cpu (reset_inst raw pc snpc ir) raw op f3) r

unfoldable pub filled : CpuState → ℕ → ℕ → ℕ → IrInst → OperandType → ExecFn → IrInst
filled cpu raw pc snpc ir t f = record (ir_fill_operands cpu (reset_inst raw pc snpc ir) raw t) {
  exec_fn = f;
}

pub reg_group :
    (cpu : CpuState) (raw pc snpc : ℕ) (ir : IrInst) (o : RegOp)
    → decode_group cpu (reset_inst raw pc snpc ir) raw (reg_opcode o) (reg_funct3 o) (reg_funct7 o)
      ≡ filled cpu raw pc snpc ir type_r (reg_fn o)
unfolding decode_group filled pick_op pick_op_32
reg_group cpu raw pc snpc ir i_add = refl
reg_group cpu raw pc snpc ir i_sub = refl
reg_group cpu raw pc snpc ir i_mul = refl
reg_group cpu raw pc snpc ir i_or = refl
reg_group cpu raw pc snpc ir i_rem = refl
reg_group cpu raw pc snpc ir i_xor = refl
reg_group cpu raw pc snpc ir i_div = refl
reg_group cpu raw pc snpc ir i_and = refl
reg_group cpu raw pc snpc ir i_remu = refl
reg_group cpu raw pc snpc ir i_slt = refl
reg_group cpu raw pc snpc ir i_sltu = refl
reg_group cpu raw pc snpc ir i_sll = refl
reg_group cpu raw pc snpc ir i_srl = refl
reg_group cpu raw pc snpc ir i_sra = refl
reg_group cpu raw pc snpc ir i_divu = refl
reg_group cpu raw pc snpc ir i_addw = refl
reg_group cpu raw pc snpc ir i_subw = refl
reg_group cpu raw pc snpc ir i_mulw = refl
reg_group cpu raw pc snpc ir i_sllw = refl
reg_group cpu raw pc snpc ir i_srlw = refl
reg_group cpu raw pc snpc ir i_sraw = refl
reg_group cpu raw pc snpc ir i_divuw = refl
reg_group cpu raw pc snpc ir i_divw = refl
reg_group cpu raw pc snpc ir i_remw = refl
reg_group cpu raw pc snpc ir i_remuw = refl

pub imm_group :
    (cpu : CpuState) (raw pc snpc f7 : ℕ) (ir : IrInst) (o : ImmOp)
    → decode_group cpu (reset_inst raw pc snpc ir) raw (imm_opcode o) (imm_funct3 o) f7
      ≡ filled cpu raw pc snpc ir type_i (imm_fn o)
unfolding decode_group filled pick_op_imm pick_load pick_op_imm_32
imm_group cpu raw pc snpc f7 ir i_addi = refl
imm_group cpu raw pc snpc f7 ir i_ori = refl
imm_group cpu raw pc snpc f7 ir i_xori = refl
imm_group cpu raw pc snpc f7 ir i_andi = refl
imm_group cpu raw pc snpc f7 ir i_slti = refl
imm_group cpu raw pc snpc f7 ir i_sltiu = refl
imm_group cpu raw pc snpc f7 ir i_lbu = refl
imm_group cpu raw pc snpc f7 ir i_lb = refl
imm_group cpu raw pc snpc f7 ir i_lw = refl
imm_group cpu raw pc snpc f7 ir i_ld = refl
imm_group cpu raw pc snpc f7 ir i_lh = refl
imm_group cpu raw pc snpc f7 ir i_lhu = refl
imm_group cpu raw pc snpc f7 ir i_lwu = refl
imm_group cpu raw pc snpc f7 ir i_addiw = refl
imm_group cpu raw pc snpc f7 ir i_jalr = refl

pub store_group :
    (cpu : CpuState) (raw pc snpc f7 : ℕ) (ir : IrInst) (o : StoreOp)
    → decode_group cpu (reset_inst raw pc snpc ir) raw 0x08 (store_funct3 o) f7
      ≡ filled cpu raw pc snpc ir type_s (store_fn o)
unfolding decode_group filled pick_store
store_group cpu raw pc snpc f7 ir i_sb = refl
store_group cpu raw pc snpc f7 ir i_sh = refl
store_group cpu raw pc snpc f7 ir i_sw = refl
store_group cpu raw pc snpc f7 ir i_sd = refl

pub branch_group :
    (cpu : CpuState) (raw pc snpc f7 : ℕ) (ir : IrInst) (o : BranchOp)
    → decode_group cpu (reset_inst raw pc snpc ir) raw 0x18 (branch_funct3 o) f7
      ≡ filled cpu raw pc snpc ir type_b (branch_fn o)
unfolding decode_group filled pick_branch
branch_group cpu raw pc snpc f7 ir i_beq = refl
branch_group cpu raw pc snpc f7 ir i_bne = refl
branch_group cpu raw pc snpc f7 ir i_blt = refl
branch_group cpu raw pc snpc f7 ir i_bge = refl
branch_group cpu raw pc snpc f7 ir i_bltu = refl
branch_group cpu raw pc snpc f7 ir i_bgeu = refl

pub reg_bounds : (o : RegOp) → (reg_opcode o < 32) × (reg_funct3 o < 8) × (reg_funct7 o < 128)
reg_bounds i_add = (omega arith, omega arith, omega arith)
reg_bounds i_sub = (omega arith, omega arith, omega arith)
reg_bounds i_mul = (omega arith, omega arith, omega arith)
reg_bounds i_or = (omega arith, omega arith, omega arith)
reg_bounds i_rem = (omega arith, omega arith, omega arith)
reg_bounds i_xor = (omega arith, omega arith, omega arith)
reg_bounds i_div = (omega arith, omega arith, omega arith)
reg_bounds i_and = (omega arith, omega arith, omega arith)
reg_bounds i_remu = (omega arith, omega arith, omega arith)
reg_bounds i_slt = (omega arith, omega arith, omega arith)
reg_bounds i_sltu = (omega arith, omega arith, omega arith)
reg_bounds i_sll = (omega arith, omega arith, omega arith)
reg_bounds i_srl = (omega arith, omega arith, omega arith)
reg_bounds i_sra = (omega arith, omega arith, omega arith)
reg_bounds i_divu = (omega arith, omega arith, omega arith)
reg_bounds i_addw = (omega arith, omega arith, omega arith)
reg_bounds i_subw = (omega arith, omega arith, omega arith)
reg_bounds i_mulw = (omega arith, omega arith, omega arith)
reg_bounds i_sllw = (omega arith, omega arith, omega arith)
reg_bounds i_srlw = (omega arith, omega arith, omega arith)
reg_bounds i_sraw = (omega arith, omega arith, omega arith)
reg_bounds i_divuw = (omega arith, omega arith, omega arith)
reg_bounds i_divw = (omega arith, omega arith, omega arith)
reg_bounds i_remw = (omega arith, omega arith, omega arith)
reg_bounds i_remuw = (omega arith, omega arith, omega arith)

pub imm_bounds : (o : ImmOp) → (imm_opcode o < 32) × (imm_funct3 o < 8)
imm_bounds i_addi = (omega arith, omega arith)
imm_bounds i_ori = (omega arith, omega arith)
imm_bounds i_xori = (omega arith, omega arith)
imm_bounds i_andi = (omega arith, omega arith)
imm_bounds i_slti = (omega arith, omega arith)
imm_bounds i_sltiu = (omega arith, omega arith)
imm_bounds i_lbu = (omega arith, omega arith)
imm_bounds i_lb = (omega arith, omega arith)
imm_bounds i_lw = (omega arith, omega arith)
imm_bounds i_ld = (omega arith, omega arith)
imm_bounds i_lh = (omega arith, omega arith)
imm_bounds i_lhu = (omega arith, omega arith)
imm_bounds i_lwu = (omega arith, omega arith)
imm_bounds i_addiw = (omega arith, omega arith)
imm_bounds i_jalr = (omega arith, omega arith)

pub store_bound : (o : StoreOp) → (store_funct3 o < 8)
store_bound i_sb = omega arith
store_bound i_sh = omega arith
store_bound i_sw = omega arith
store_bound i_sd = omega arith

pub branch_bound : (o : BranchOp) → (branch_funct3 o < 8)
branch_bound i_beq = omega arith
branch_bound i_bne = omega arith
branch_bound i_blt = omega arith
branch_bound i_bge = omega arith
branch_bound i_bltu = omega arith
branch_bound i_bgeu = omega arith
