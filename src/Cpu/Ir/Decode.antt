-- ===== src/Cpu/Ir/Decode.antt =====
-- `ir_decode` and `ir_fill_operands` of src/cpu/ir.c with the immediates of include/cpu/decode.h.
-- One function for each group of the opcode's `switch`.
use sustemu.Base.{ℕ, ◌*◌, ◌/◌, ◌^◌, true, false, none, some, ◌==◌, if◌then◌else◌, bit_or}
use sustemu.Word.{bits, sext, shl64}
use sustemu.Cpu.State.{CpuState}
use sustemu.Cpu.Ir.Inst
use sustemu.Cpu.Ir.Inst.{IrInst, ExecFn}

unfoldable pub imm_i : ℕ → ℕ
imm_i i = sext (bits i 31 20) 12

unfoldable pub imm_u : ℕ → ℕ
imm_u i = shl64 (sext (bits i 31 12) 20) 12

unfoldable pub imm_s : ℕ → ℕ
imm_s i = bit_or (shl64 (sext (bits i 31 25) 7) 5) (bits i 11 7)

unfoldable pub imm_j : ℕ → ℕ
imm_j i =
    bit_or
      (bit_or (bit_or (shl64 (sext (bits i 31 31) 1) 20) (bits i 19 12 * 2 ^ 12))
        (bits i 20 20 * 2 ^ 11))
      (bits i 30 21 * 2 ^ 1)

unfoldable pub imm_b : ℕ → ℕ
imm_b i =
    bit_or
      (bit_or (bit_or (shl64 (sext (bits i 31 31) 1) 12) (bits i 7 7 * 2 ^ 11))
        (bits i 30 25 * 2 ^ 5))
      (bits i 11 8 * 2 ^ 1)

-- The `TYPE_*` constants.
pub data OperandType : Type 0 where
  type_i type_u type_s type_j type_r type_b type_n : OperandType

unfoldable pub ir_fill_operands : CpuState → IrInst → ℕ → OperandType → IrInst
ir_fill_operands cpu ir i type_i = record ir {
  rd = some (bits i 11 7);
  rs1 = some (bits i 19 15);
  rs2 = none;
  src1_val = cpu.gpr (bits i 19 15);
  src2_val = imm_i i;
}
ir_fill_operands cpu ir i type_u = record ir {
  rd = some (bits i 11 7);
  rs1 = none;
  rs2 = none;
  src1_val = imm_u i;
}
ir_fill_operands cpu ir i type_s = record ir {
  rd = none;
  rs1 = some (bits i 19 15);
  rs2 = some (bits i 24 20);
  imm = imm_s i;
  src1_val = cpu.gpr (bits i 19 15);
  src2_val = cpu.gpr (bits i 24 20);
}
ir_fill_operands cpu ir i type_j = record ir {
  rd = some (bits i 11 7);
  rs1 = none;
  rs2 = none;
  src1_val = imm_j i;
}
ir_fill_operands cpu ir i type_r = record ir {
  rd = some (bits i 11 7);
  rs1 = some (bits i 19 15);
  rs2 = some (bits i 24 20);
  src1_val = cpu.gpr (bits i 19 15);
  src2_val = cpu.gpr (bits i 24 20);
}
ir_fill_operands cpu ir i type_b = record ir {
  rd = none;
  rs1 = some (bits i 19 15);
  rs2 = some (bits i 24 20);
  src1_val = cpu.gpr (bits i 19 15);
  src2_val = cpu.gpr (bits i 24 20);
  imm = imm_b i;
}
ir_fill_operands cpu ir i type_n = record ir { rd = none; rs1 = none; rs2 = none }

-- I-type ALU, opcode 0x04
unfoldable pub pick_op_imm : ℕ → ℕ → ExecFn
pick_op_imm funct3 funct7 =
    if funct3 == 0
    then Inst.addi
    else if funct3 == 6
    then Inst.ori
    else if funct3 == 4
    then Inst.xori
    else if funct3 == 7
    then Inst.andi
    else if funct3 == 2
    then Inst.slti
    else if funct3 == 3
    then Inst.sltiu
    else if funct3 == 1
    then Inst.slli
    else if funct3 == 5
    then (if funct7 / 2 == 0x20 then Inst.srai else Inst.srli)
    else Inst.inv

-- Loads, opcode 0x00
unfoldable pub pick_load : ℕ → ExecFn
pick_load funct3 =
    if funct3 == 4
    then Inst.lbu
    else if funct3 == 0
    then Inst.lb
    else if funct3 == 2
    then Inst.lw
    else if funct3 == 3
    then Inst.ld
    else if funct3 == 1
    then Inst.lh
    else if funct3 == 5
    then Inst.lhu
    else if funct3 == 6
    then Inst.lwu
    else Inst.inv

-- Stores, opcode 0x08
unfoldable pub pick_store : ℕ → ExecFn
pick_store funct3 =
    if funct3 == 0
    then Inst.sb
    else if funct3 == 1
    then Inst.sh
    else if funct3 == 2
    then Inst.sw
    else if funct3 == 3
    then Inst.sd
    else Inst.inv

-- Branches, opcode 0x18
unfoldable pub pick_branch : ℕ → ExecFn
pick_branch funct3 =
    if funct3 == 0
    then Inst.beq
    else if funct3 == 1
    then Inst.bne
    else if funct3 == 4
    then Inst.blt
    else if funct3 == 5
    then Inst.bge
    else if funct3 == 6
    then Inst.bltu
    else if funct3 == 7
    then Inst.bgeu
    else Inst.inv

-- I-type W, opcode 0x06
unfoldable pub pick_op_imm_32 : ℕ → ℕ → ExecFn
pick_op_imm_32 funct3 funct7 =
    if funct3 == 0
    then Inst.addiw
    else if funct3 == 1
    then Inst.slliw
    else if funct3 == 5
    then (if funct7 == 0x20 then Inst.sraiw else Inst.srliw)
    else Inst.inv

-- The ladder on funct7 that the R-type groups share.
abbrev by_funct7 : ℕ → ExecFn → ExecFn → ExecFn → ExecFn
by_funct7 funct7 at0 at20 at1 =
    if funct7 == 0x00
    then at0
    else if funct7 == 0x20
    then at20
    else if funct7 == 0x01
    then at1
    else Inst.inv

-- R-type, opcode 0x0c
unfoldable pub pick_op : ℕ → ℕ → ExecFn
pick_op funct3 funct7 =
    if funct3 == 0
    then by_funct7 funct7 Inst.add Inst.sub Inst.mul
    else if funct3 == 6
    then by_funct7 funct7 Inst.or Inst.inv Inst.rem
    else if funct3 == 4
    then by_funct7 funct7 Inst.xor Inst.inv Inst.div
    else if funct3 == 7
    then by_funct7 funct7 Inst.and Inst.inv Inst.remu
    else if funct3 == 2
    then by_funct7 funct7 Inst.slt Inst.inv Inst.inv
    else if funct3 == 3
    then by_funct7 funct7 Inst.sltu Inst.inv Inst.divu
    else if funct3 == 1
    then by_funct7 funct7 Inst.sll Inst.inv Inst.inv
    else if funct3 == 5
    then by_funct7 funct7 Inst.srl Inst.sra Inst.divu
    else Inst.inv

-- R-type W, opcode 0x0e
unfoldable pub pick_op_32 : ℕ → ℕ → ExecFn
pick_op_32 funct3 funct7 =
    if funct3 == 0
    then by_funct7 funct7 Inst.addw Inst.subw Inst.mulw
    else if funct3 == 1
    then by_funct7 funct7 Inst.sllw Inst.inv Inst.inv
    else if funct3 == 5
    then by_funct7 funct7 Inst.srlw Inst.sraw Inst.divuw
    else if funct3 == 4
    then by_funct7 funct7 Inst.inv Inst.inv Inst.divw
    else if funct3 == 6
    then by_funct7 funct7 Inst.inv Inst.inv Inst.remw
    else if funct3 == 7
    then by_funct7 funct7 Inst.inv Inst.inv Inst.remuw
    else Inst.inv

-- System, opcode 0x1c
unfoldable pub decode_system : CpuState → IrInst → ℕ → ℕ → IrInst
unfolding ir_fill_operands
decode_system cpu ir raw funct3 =
    let i = ir_fill_operands cpu ir raw type_i in
    let n = ir_fill_operands cpu ir raw type_n in
    if funct3 == 1
    then record i { exec_fn = Inst.csrrw; serializing = true }
    else if funct3 == 2
    then record i { exec_fn = Inst.csrrs; serializing = true }
    else if funct3 == 3
    then record i { exec_fn = Inst.csrrc; serializing = true }
    else if funct3 == 0
    then (if raw == 0x0000_0073
        then record n { exec_fn = Inst.ecall; serializing = true }
        else if raw == 0x3020_0073
        then record n { exec_fn = Inst.mret; serializing = true }
        else if raw == 0x0010_0073
        then record n { exec_fn = Inst.ebreak; serializing = true }
        else n)
    else ir

-- What `ir_decode` sets before it looks at the opcode; the fields that it leaves alone keep what
-- the slot held.
unfoldable pub reset_inst : ℕ → ℕ → ℕ → IrInst → IrInst
reset_inst raw pc snpc ir = record ir {
  pc = pc;
  snpc = snpc;
  raw = raw;
  type = Inst.itype_invalid;
  rd = none;
  rs1 = none;
  rs2 = none;
  dnpc = snpc;
  taken = false;
  mem_addr = 0;
  mem_width = 0;
  serializing = false;
  fault = false;
  phys_rd = none;
  rob_idx = none;
  cycles_rem = 0;
  exec_fn = Inst.inv;
}

-- The `switch` on the opcode, bits 6 to 2
unfoldable pub decode_group : CpuState → IrInst → ℕ → ℕ → ℕ → ℕ → IrInst
unfolding ir_fill_operands decode_system
decode_group cpu ir raw opcode funct3 funct7 =
    if opcode == 0x04
    then record (fill type_i) { exec_fn = pick_op_imm funct3 funct7 }
    else if opcode == 0x00
    then record (fill type_i) { exec_fn = pick_load funct3 }
    else if opcode == 0x08
    then record (fill type_s) { exec_fn = pick_store funct3 }
    else if opcode == 0x18
    then record (fill type_b) { exec_fn = pick_branch funct3 }
    else if opcode == 0x1b
    then record (fill type_j) { exec_fn = Inst.jal }
    else if opcode == 0x19
    then record (fill type_i) { exec_fn = Inst.jalr }
    else if opcode == 0x05
    then record (fill type_u) { exec_fn = Inst.auipc }
    else if opcode == 0x0d
    then record (fill type_u) { exec_fn = Inst.lui }
    else if opcode == 0x06
    then record (fill type_i) { exec_fn = pick_op_imm_32 funct3 funct7 }
    else if opcode == 0x0c
    then record (fill type_r) { exec_fn = pick_op funct3 funct7 }
    else if opcode == 0x0e
    then record (fill type_r) { exec_fn = pick_op_32 funct3 funct7 }
    else if opcode == 0x1c
    then decode_system cpu ir raw funct3
    else if opcode == 0x03
    then record (fill type_n) { exec_fn = Inst.fence; serializing = true }
    else ir
  where
    fill : OperandType → IrInst
    fill t = ir_fill_operands cpu ir raw t

unfoldable pub ir_decode : CpuState → ℕ → ℕ → ℕ → IrInst → IrInst
unfolding reset_inst decode_group
ir_decode cpu raw pc snpc ir =
    decode_group cpu (reset_inst raw pc snpc ir) raw (bits raw 6 2) (bits raw 14 12)
      (bits raw 31 25)
