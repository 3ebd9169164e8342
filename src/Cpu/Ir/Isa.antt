-- ===== src/Cpu/Ir/Isa.antt =====
-- The instruction manual's side of `ir_decode`: the opcodes of RV64IM and how an instruction of each
-- format is put together from its fields.
use sustemu.Base.{ℕ, ◌+◌, ◌*◌, ◌/◌, ◌%◌, ◌^◌}
use sustemu.Cpu.Ir.Inst
use sustemu.Cpu.Ir.Inst.{ExecFn}

-- Two source registers and a destination
pub data RegOp : Type 0 where
  i_add i_sub i_mul i_or i_rem i_xor i_div i_and : RegOp
  i_remu i_slt i_sltu i_sll i_srl i_sra i_divu i_addw : RegOp
  i_subw i_mulw i_sllw i_srlw i_sraw i_divuw i_divw i_remw : RegOp
  i_remuw : RegOp

abbrev pub reg_fn : RegOp → ExecFn
reg_fn i_add = Inst.add
reg_fn i_sub = Inst.sub
reg_fn i_mul = Inst.mul
reg_fn i_or = Inst.or
reg_fn i_rem = Inst.rem
reg_fn i_xor = Inst.xor
reg_fn i_div = Inst.div
reg_fn i_and = Inst.and
reg_fn i_remu = Inst.remu
reg_fn i_slt = Inst.slt
reg_fn i_sltu = Inst.sltu
reg_fn i_sll = Inst.sll
reg_fn i_srl = Inst.srl
reg_fn i_sra = Inst.sra
reg_fn i_divu = Inst.divu
reg_fn i_addw = Inst.addw
reg_fn i_subw = Inst.subw
reg_fn i_mulw = Inst.mulw
reg_fn i_sllw = Inst.sllw
reg_fn i_srlw = Inst.srlw
reg_fn i_sraw = Inst.sraw
reg_fn i_divuw = Inst.divuw
reg_fn i_divw = Inst.divw
reg_fn i_remw = Inst.remw
reg_fn i_remuw = Inst.remuw

abbrev pub reg_opcode : RegOp → ℕ
reg_opcode i_add = 0xc
reg_opcode i_sub = 0xc
reg_opcode i_mul = 0xc
reg_opcode i_or = 0xc
reg_opcode i_rem = 0xc
reg_opcode i_xor = 0xc
reg_opcode i_div = 0xc
reg_opcode i_and = 0xc
reg_opcode i_remu = 0xc
reg_opcode i_slt = 0xc
reg_opcode i_sltu = 0xc
reg_opcode i_sll = 0xc
reg_opcode i_srl = 0xc
reg_opcode i_sra = 0xc
reg_opcode i_divu = 0xc
reg_opcode i_addw = 0xe
reg_opcode i_subw = 0xe
reg_opcode i_mulw = 0xe
reg_opcode i_sllw = 0xe
reg_opcode i_srlw = 0xe
reg_opcode i_sraw = 0xe
reg_opcode i_divuw = 0xe
reg_opcode i_divw = 0xe
reg_opcode i_remw = 0xe
reg_opcode i_remuw = 0xe

abbrev pub reg_funct3 : RegOp → ℕ
reg_funct3 i_add = 0
reg_funct3 i_sub = 0
reg_funct3 i_mul = 0
reg_funct3 i_or = 6
reg_funct3 i_rem = 6
reg_funct3 i_xor = 4
reg_funct3 i_div = 4
reg_funct3 i_and = 7
reg_funct3 i_remu = 7
reg_funct3 i_slt = 2
reg_funct3 i_sltu = 3
reg_funct3 i_sll = 1
reg_funct3 i_srl = 5
reg_funct3 i_sra = 5
reg_funct3 i_divu = 5
reg_funct3 i_addw = 0
reg_funct3 i_subw = 0
reg_funct3 i_mulw = 0
reg_funct3 i_sllw = 1
reg_funct3 i_srlw = 5
reg_funct3 i_sraw = 5
reg_funct3 i_divuw = 5
reg_funct3 i_divw = 4
reg_funct3 i_remw = 6
reg_funct3 i_remuw = 7

abbrev pub reg_funct7 : RegOp → ℕ
reg_funct7 i_add = 0x0
reg_funct7 i_sub = 0x20
reg_funct7 i_mul = 0x1
reg_funct7 i_or = 0x0
reg_funct7 i_rem = 0x1
reg_funct7 i_xor = 0x0
reg_funct7 i_div = 0x1
reg_funct7 i_and = 0x0
reg_funct7 i_remu = 0x1
reg_funct7 i_slt = 0x0
reg_funct7 i_sltu = 0x0
reg_funct7 i_sll = 0x0
reg_funct7 i_srl = 0x0
reg_funct7 i_sra = 0x20
reg_funct7 i_divu = 0x1
reg_funct7 i_addw = 0x0
reg_funct7 i_subw = 0x20
reg_funct7 i_mulw = 0x1
reg_funct7 i_sllw = 0x0
reg_funct7 i_srlw = 0x0
reg_funct7 i_sraw = 0x20
reg_funct7 i_divuw = 0x1
reg_funct7 i_divw = 0x1
reg_funct7 i_remw = 0x1
reg_funct7 i_remuw = 0x1

-- A source register, an immediate of 12 bits and a destination
pub data ImmOp : Type 0 where
  i_addi i_ori i_xori i_andi i_slti i_sltiu i_lbu i_lb : ImmOp
  i_lw i_ld i_lh i_lhu i_lwu i_addiw i_jalr : ImmOp

abbrev pub imm_fn : ImmOp → ExecFn
imm_fn i_addi = Inst.addi
imm_fn i_ori = Inst.ori
imm_fn i_xori = Inst.xori
imm_fn i_andi = Inst.andi
imm_fn i_slti = Inst.slti
imm_fn i_sltiu = Inst.sltiu
imm_fn i_lbu = Inst.lbu
imm_fn i_lb = Inst.lb
imm_fn i_lw = Inst.lw
imm_fn i_ld = Inst.ld
imm_fn i_lh = Inst.lh
imm_fn i_lhu = Inst.lhu
imm_fn i_lwu = Inst.lwu
imm_fn i_addiw = Inst.addiw
imm_fn i_jalr = Inst.jalr

abbrev pub imm_opcode : ImmOp → ℕ
imm_opcode i_addi = 0x4
imm_opcode i_ori = 0x4
imm_opcode i_xori = 0x4
imm_opcode i_andi = 0x4
imm_opcode i_slti = 0x4
imm_opcode i_sltiu = 0x4
imm_opcode i_lbu = 0x0
imm_opcode i_lb = 0x0
imm_opcode i_lw = 0x0
imm_opcode i_ld = 0x0
imm_opcode i_lh = 0x0
imm_opcode i_lhu = 0x0
imm_opcode i_lwu = 0x0
imm_opcode i_addiw = 0x6
imm_opcode i_jalr = 0x19

abbrev pub imm_funct3 : ImmOp → ℕ
imm_funct3 i_addi = 0
imm_funct3 i_ori = 6
imm_funct3 i_xori = 4
imm_funct3 i_andi = 7
imm_funct3 i_slti = 2
imm_funct3 i_sltiu = 3
imm_funct3 i_lbu = 4
imm_funct3 i_lb = 0
imm_funct3 i_lw = 2
imm_funct3 i_ld = 3
imm_funct3 i_lh = 1
imm_funct3 i_lhu = 5
imm_funct3 i_lwu = 6
imm_funct3 i_addiw = 0
imm_funct3 i_jalr = 0

-- Stores
pub data StoreOp : Type 0 where
  i_sb i_sh i_sw i_sd : StoreOp

abbrev pub store_fn : StoreOp → ExecFn
store_fn i_sb = Inst.sb
store_fn i_sh = Inst.sh
store_fn i_sw = Inst.sw
store_fn i_sd = Inst.sd

abbrev pub store_funct3 : StoreOp → ℕ
store_funct3 i_sb = 0
store_funct3 i_sh = 1
store_funct3 i_sw = 2
store_funct3 i_sd = 3

-- Branches
pub data BranchOp : Type 0 where
  i_beq i_bne i_blt i_bge i_bltu i_bgeu : BranchOp

abbrev pub branch_fn : BranchOp → ExecFn
branch_fn i_beq = Inst.beq
branch_fn i_bne = Inst.bne
branch_fn i_blt = Inst.blt
branch_fn i_bge = Inst.bge
branch_fn i_bltu = Inst.bltu
branch_fn i_bgeu = Inst.bgeu

abbrev pub branch_funct3 : BranchOp → ℕ
branch_funct3 i_beq = 0
branch_funct3 i_bne = 1
branch_funct3 i_blt = 4
branch_funct3 i_bge = 5
branch_funct3 i_bltu = 6
branch_funct3 i_bgeu = 7

-- The word of an instruction of each format, its fields from the top down. The offset of a store is a
-- number of 12 bits, that of a branch one of 13 whose lowest is 0.
abbrev pub encode_reg : RegOp → ℕ → ℕ → ℕ → ℕ
encode_reg o rd rs1 rs2 =
    reg_funct7 o * 2 ^ 25
    + rs2 * 2 ^ 20
    + rs1 * 2 ^ 15
    + reg_funct3 o * 2 ^ 12
    + rd * 2 ^ 7
    + reg_opcode o * 4
    + 3

abbrev pub encode_imm : ImmOp → ℕ → ℕ → ℕ → ℕ
encode_imm o rd rs1 imm =
    imm * 2 ^ 20 + rs1 * 2 ^ 15 + imm_funct3 o * 2 ^ 12 + rd * 2 ^ 7 + imm_opcode o * 4 + 3

abbrev pub encode_store : StoreOp → ℕ → ℕ → ℕ → ℕ
encode_store o rs1 rs2 off =
    off / 2 ^ 5 * 2 ^ 25
    + rs2 * 2 ^ 20
    + rs1 * 2 ^ 15
    + store_funct3 o * 2 ^ 12
    + off % 2 ^ 5 * 2 ^ 7
    + 0x08 * 4
    + 3

abbrev pub encode_branch : BranchOp → ℕ → ℕ → ℕ → ℕ
encode_branch o rs1 rs2 off =
    off / 2 ^ 12 * 2 ^ 31
    + off / 2 ^ 5 % 2 ^ 6 * 2 ^ 25
    + rs2 * 2 ^ 20
    + rs1 * 2 ^ 15
    + branch_funct3 o * 2 ^ 12
    + off / 2 % 2 ^ 4 * 2 ^ 8
    + off / 2 ^ 11 % 2 * 2 ^ 7
    + 0x18 * 4
    + 3
