-- ===== src/Cpu/Ir/RoundTrip.antt =====
-- `ir_decode` undoes the encoding of the instruction manual, format by format.
use sustemu.Base.{ℕ, ◌%◌, ◌^◌, ◌<◌, ◌≡◌, refl, ◌∙◌, ap, arith, some, none}
use sustemu.Word.{bits, sext}
use sustemu.Cpu.State.{CpuState}
use sustemu.Cpu.Ir.Inst.{IrInst, ExecFn}
use sustemu.Cpu.Ir.Decode.{ir_decode, reset_inst, ir_fill_operands, imm_i}
use sustemu.Cpu.Ir.Immediates.{imm_s-s_field, imm_b-b_field}
use sustemu.Cpu.Ir.Isa.{
  RegOp, reg_fn, reg_opcode, reg_funct3, reg_funct7, ImmOp, imm_fn, imm_opcode, imm_funct3, StoreOp,
  store_fn, store_funct3, BranchOp, branch_fn, branch_funct3, encode_reg, encode_imm, encode_branch,
  encode_store,
}
use sustemu.Cpu.Ir.Groups.{
  by_fields, filled, reg_group, imm_group, store_group, branch_group, reg_bounds, imm_bounds,
  store_bound, branch_bound,
}

-- What an instruction with two source registers decodes to
pub record DecodedReg (cpu : CpuState) (ir : IrInst) (f : ExecFn) (d s t : ℕ) : Type 0 where
  pub exec_fn : ir.exec_fn ≡ f
  pub rd : ir.rd ≡ some d
  pub rs1 : ir.rs1 ≡ some s
  pub rs2 : ir.rs2 ≡ some t
  pub src1_val : ir.src1_val ≡ cpu.gpr s
  pub src2_val : ir.src2_val ≡ cpu.gpr t

-- Every register-register instruction of the table, with any registers, decodes to its own executor
-- with its registers and their values.
pub ir_decode-encode_reg :
    (cpu : CpuState) (pc snpc : ℕ) (ir : IrInst) (o : RegOp) (rd rs1 rs2 : ℕ)
    → rd < 32
    → rs1 < 32
    → rs2 < 32
    → DecodedReg cpu (ir_decode cpu (encode_reg o rd rs1 rs2) pc snpc ir) (reg_fn o) rd rs1 rs2
unfolding ir_fill_operands filled
ir_decode-encode_reg cpu pc snpc ir o rd rs1 rs2 hd hs ht =
    let (ho, h3, h7) = reg_bounds o in
    rw
      (
        by_fields cpu raw pc snpc (reg_opcode o) (reg_funct3 o) (reg_funct7 o) ir (omega arith)
            (omega arith) (omega arith),
        reg_group cpu raw pc snpc ir o,
      )
      (record {
        exec_fn = refl;
        rd = ap some (omega arith);
        rs1 = ap some (omega arith);
        rs2 = ap some (omega arith);
        src1_val = ap cpu.gpr (omega arith);
        src2_val = ap cpu.gpr (omega arith);
      })
  where
    raw : ℕ
    raw = encode_reg o rd rs1 rs2

-- What an instruction with one source register and an immediate decodes to
pub record DecodedImm (cpu : CpuState) (ir : IrInst) (f : ExecFn) (d s imm : ℕ) : Type 0 where
  pub exec_fn : ir.exec_fn ≡ f
  pub rd : ir.rd ≡ some d
  pub rs1 : ir.rs1 ≡ some s
  pub src1_val : ir.src1_val ≡ cpu.gpr s
  pub src2_val : ir.src2_val ≡ sext imm 12

-- Every instruction of the table with an immediate, with any registers and any immediate of 12 bits,
-- decodes to its own executor with its registers and the sign-extended immediate.
pub ir_decode-encode_imm :
    (cpu : CpuState) (pc snpc : ℕ) (ir : IrInst) (o : ImmOp) (rd rs1 imm : ℕ)
    → rd < 32
    → rs1 < 32
    → imm < 2 ^ 12
    → DecodedImm cpu (ir_decode cpu (encode_imm o rd rs1 imm) pc snpc ir) (imm_fn o) rd rs1 imm
unfolding ir_fill_operands filled imm_i
ir_decode-encode_imm cpu pc snpc ir o rd rs1 imm hd hs hi =
    let (ho, h3) = imm_bounds o in
    rw
      (
        by_fields cpu raw pc snpc (imm_opcode o) (imm_funct3 o) (bits raw 31 25) ir (omega arith)
            (omega arith) refl,
        imm_group cpu raw pc snpc (bits raw 31 25) ir o,
      )
      (record {
        exec_fn = refl;
        rd = ap some (omega arith);
        rs1 = ap some (omega arith);
        src1_val = ap cpu.gpr (omega arith);
        src2_val = ap (λ x. sext x 12) (omega arith);
      })
  where
    raw : ℕ
    raw = encode_imm o rd rs1 imm

-- What a store or a branch decodes to: the two registers' values and an offset
pub record DecodedPair (cpu : CpuState) (ir : IrInst) (p n : ℕ) (f : ExecFn) (s t off : ℕ)
    : Type 0 where
  pub pc : ir.pc ≡ p
  pub snpc : ir.snpc ≡ n
  pub exec_fn : ir.exec_fn ≡ f
  pub rd : ir.rd ≡ none
  pub src1_val : ir.src1_val ≡ cpu.gpr s
  pub src2_val : ir.src2_val ≡ cpu.gpr t
  pub imm : ir.imm ≡ off

-- Every store, with any registers and any offset of 12 bits, decodes to its own executor with no
-- destination, the values of its registers and the sign-extended offset.
pub ir_decode-encode_store :
    (cpu : CpuState) (pc snpc : ℕ) (ir : IrInst) (o : StoreOp) (rs1 rs2 off : ℕ)
    → rs1 < 32
    → rs2 < 32
    → off < 2 ^ 12
    → DecodedPair cpu
        (ir_decode cpu (encode_store o rs1 rs2 off) pc snpc ir)
        pc
        snpc
        (store_fn o)
        rs1
        rs2
        (sext off 12)
unfolding ir_fill_operands filled reset_inst
ir_decode-encode_store cpu pc snpc ir o rs1 rs2 off hs ht hi =
    let h3 = store_bound o in
    rw
      (
        by_fields cpu raw pc snpc 0x08 (store_funct3 o) (bits raw 31 25) ir (omega arith)
            (omega arith) refl,
        store_group cpu raw pc snpc (bits raw 31 25) ir o,
      )
      (record {
        pc = refl;
        snpc = refl;
        exec_fn = refl;
        rd = refl;
        src1_val = ap cpu.gpr (omega arith);
        src2_val = ap cpu.gpr (omega arith);
        imm = imm_s-s_field raw ∙ ap (λ x. sext x 12) (omega arith);
      })
  where
    raw : ℕ
    raw = encode_store o rs1 rs2 off

-- Every branch, with any registers and any even offset of 13 bits, decodes to its own executor with
-- no destination, the values of its registers and the sign-extended offset.
pub ir_decode-encode_branch :
    (cpu : CpuState) (pc snpc : ℕ) (ir : IrInst) (o : BranchOp) (rs1 rs2 off : ℕ)
    → rs1 < 32
    → rs2 < 32
    → off < 2 ^ 13
    → off % 2 ≡ 0
    → DecodedPair cpu
        (ir_decode cpu (encode_branch o rs1 rs2 off) pc snpc ir)
        pc
        snpc
        (branch_fn o)
        rs1
        rs2
        (sext off 13)
unfolding ir_fill_operands filled reset_inst
ir_decode-encode_branch cpu pc snpc ir o rs1 rs2 off hs ht hi even =
    let h3 = branch_bound o in
    rw
      (
        by_fields cpu raw pc snpc 0x18 (branch_funct3 o) (bits raw 31 25) ir (omega arith)
            (omega arith) refl,
        branch_group cpu raw pc snpc (bits raw 31 25) ir o,
      )
      (record {
        pc = refl;
        snpc = refl;
        exec_fn = refl;
        rd = refl;
        src1_val = ap cpu.gpr (omega arith);
        src2_val = ap cpu.gpr (omega arith);
        imm = imm_b-b_field raw ∙ ap (λ x. sext x 13) (omega arith);
      })
  where
    raw : ℕ
    raw = encode_branch o rs1 rs2 off
