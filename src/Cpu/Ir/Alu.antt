-- ===== src/Cpu/Ir/Alu.antt =====
-- The executors `ir_exec_*` of src/cpu/ir.c that only compute: arithmetic, branches, and the
-- addresses of loads and stores. Where C's arithmetic is undefined (a division that traps, a shift by
-- 64 or more) the result is `none`; the product of `mulw` wraps, as compiled code does.
use sustemu.Base.{
  ℕ, ◌*◌, ◌%◌, ◌^◌, Option, none, some, ltb, if◌then◌else◌, bit_and, bit_or, bit_xor, to_int, ◌>>=◌,
}
use sustemu.Word.{add64, sub64, mul64, shl64, shr64, sar64, sext, slt64, sdiv, srem, udiv, urem}
use sustemu.Cpu.Ir.Inst
use sustemu.Cpu.Ir.Inst.{IrInst, IrInstType}

-- `ir->type = t; ir->result = v; ir->dnpc = ir->snpc;`
abbrev pub with_result : IrInstType → IrInst → ℕ → IrInst
with_result t ir v = record ir { type = t; result = v; dnpc = ir.snpc }

abbrev alu : IrInst → ℕ → Option IrInst
alu ir v = some (with_result Inst.itype_alu ir v)

-- A shift whose count C allows.
abbrev pub shift : (ℕ → ℕ → ℕ) → ℕ → ℕ → Option ℕ
shift op a k = if ltb k 64 then some (op a k) else none

unfoldable pub exec_auipc : IrInst → Option IrInst
exec_auipc ir = some (with_result Inst.itype_auipc ir (add64 ir.src1_val ir.pc))

unfoldable pub exec_lui : IrInst → Option IrInst
exec_lui ir = some (with_result Inst.itype_lui ir (bit_and ir.src1_val 0xffff_ffff_ffff_f000))

unfoldable pub exec_add : IrInst → Option IrInst
exec_add ir = alu ir (add64 ir.src1_val ir.src2_val)

unfoldable pub exec_mul : IrInst → Option IrInst
exec_mul ir = alu ir (mul64 ir.src1_val ir.src2_val)

unfoldable pub exec_sub : IrInst → Option IrInst
exec_sub ir = alu ir (sub64 ir.src1_val ir.src2_val)

unfoldable pub exec_or : IrInst → Option IrInst
exec_or ir = alu ir (bit_or ir.src1_val ir.src2_val)

unfoldable pub exec_xor : IrInst → Option IrInst
exec_xor ir = alu ir (bit_xor ir.src1_val ir.src2_val)

unfoldable pub exec_and : IrInst → Option IrInst
exec_and ir = alu ir (bit_and ir.src1_val ir.src2_val)

unfoldable pub exec_slt : IrInst → Option IrInst
exec_slt ir = alu ir (to_int (slt64 ir.src1_val ir.src2_val))

unfoldable pub exec_sltu : IrInst → Option IrInst
exec_sltu ir = alu ir (to_int (ltb ir.src1_val ir.src2_val))

unfoldable pub exec_sll : IrInst → Option IrInst
exec_sll ir = alu ir (shl64 ir.src1_val (ir.src2_val % 64))

unfoldable pub exec_srl : IrInst → Option IrInst
exec_srl ir = alu ir (shr64 ir.src1_val (ir.src2_val % 64))

unfoldable pub exec_sra : IrInst → Option IrInst
exec_sra ir = alu ir (sar64 ir.src1_val (ir.src2_val % 64))

unfoldable pub exec_div : IrInst → Option IrInst
exec_div ir = (sdiv 64 ir.src1_val ir.src2_val) >>= alu ir

unfoldable pub exec_divu : IrInst → Option IrInst
exec_divu ir = (udiv ir.src1_val ir.src2_val) >>= alu ir

unfoldable pub exec_rem : IrInst → Option IrInst
exec_rem ir = (srem 64 ir.src1_val ir.src2_val) >>= alu ir

unfoldable pub exec_remu : IrInst → Option IrInst
exec_remu ir = (urem ir.src1_val ir.src2_val) >>= alu ir

unfoldable pub exec_addw : IrInst → Option IrInst
exec_addw ir = alu ir (sext (add64 ir.src1_val ir.src2_val % 2 ^ 32) 32)

unfoldable pub exec_mulw : IrInst → Option IrInst
exec_mulw ir = alu ir (sext (ir.src1_val % 2 ^ 32 * (ir.src2_val % 2 ^ 32)) 32)

unfoldable pub exec_subw : IrInst → Option IrInst
exec_subw ir = alu ir (sext (sub64 ir.src1_val ir.src2_val % 2 ^ 32) 32)

unfoldable pub exec_sllw : IrInst → Option IrInst
exec_sllw ir = alu ir (sext (shl64 (ir.src1_val % 2 ^ 32) (ir.src2_val % 32) % 2 ^ 32) 32)

unfoldable pub exec_srlw : IrInst → Option IrInst
exec_srlw ir = alu ir (sext (shr64 (ir.src1_val % 2 ^ 32) (ir.src2_val % 32) % 2 ^ 32) 32)

unfoldable pub exec_sraw : IrInst → Option IrInst
exec_sraw ir = alu ir (sext (sar64 (sext ir.src1_val 32) (ir.src2_val % 32)) 32)

unfoldable pub exec_divw : IrInst → Option IrInst
exec_divw ir = (sdiv 32 ir.src1_val ir.src2_val >>= λ v. some (sext v 32)) >>= alu ir

unfoldable pub exec_divuw : IrInst → Option IrInst
exec_divuw ir =
    (udiv (ir.src1_val % 2 ^ 32) (ir.src2_val % 2 ^ 32) >>= λ v. some (sext v 32)) >>= alu ir

unfoldable pub exec_remw : IrInst → Option IrInst
exec_remw ir = (srem 32 ir.src1_val ir.src2_val >>= λ v. some (sext (v % 2 ^ 32) 32)) >>= alu ir

unfoldable pub exec_remuw : IrInst → Option IrInst
exec_remuw ir =
    (urem (ir.src1_val % 2 ^ 32) (ir.src2_val % 2 ^ 32) >>= λ v. some (sext (v % 2 ^ 32) 32))
    >>= alu ir

unfoldable pub exec_addi : IrInst → Option IrInst
exec_addi ir = alu ir (add64 ir.src1_val ir.src2_val)

unfoldable pub exec_ori : IrInst → Option IrInst
exec_ori ir = alu ir (bit_or ir.src1_val ir.src2_val)

unfoldable pub exec_xori : IrInst → Option IrInst
exec_xori ir = alu ir (bit_xor ir.src1_val ir.src2_val)

unfoldable pub exec_andi : IrInst → Option IrInst
exec_andi ir = alu ir (bit_and ir.src1_val ir.src2_val)

unfoldable pub exec_slti : IrInst → Option IrInst
exec_slti ir = alu ir (to_int (slt64 ir.src1_val ir.src2_val))

unfoldable pub exec_sltiu : IrInst → Option IrInst
exec_sltiu ir = alu ir (to_int (ltb ir.src1_val ir.src2_val))

unfoldable pub exec_slli : IrInst → Option IrInst
exec_slli ir = (shift shl64 ir.src1_val ir.src2_val) >>= alu ir

unfoldable pub exec_srli : IrInst → Option IrInst
exec_srli ir = (shift shr64 ir.src1_val ir.src2_val) >>= alu ir

unfoldable pub exec_srai : IrInst → Option IrInst
exec_srai ir = alu ir (sar64 ir.src1_val (ir.src2_val % 64))

unfoldable pub exec_addiw : IrInst → Option IrInst
exec_addiw ir = alu ir (sext (add64 ir.src1_val ir.src2_val % 2 ^ 32) 32)

unfoldable pub exec_slliw : IrInst → Option IrInst
exec_slliw ir =
    (shift shl64 (ir.src1_val % 2 ^ 32) ir.src2_val >>= λ v. some (sext (v % 2 ^ 32) 32)) >>= alu ir

unfoldable pub exec_srliw : IrInst → Option IrInst
exec_srliw ir =
    (shift shr64 (ir.src1_val % 2 ^ 32) ir.src2_val >>= λ v. some (sext (v % 2 ^ 32) 32)) >>= alu ir

unfoldable pub exec_sraiw : IrInst → Option IrInst
exec_sraiw ir = alu ir (sext (sar64 (sext ir.src1_val 32) (ir.src2_val % 32)) 32)
