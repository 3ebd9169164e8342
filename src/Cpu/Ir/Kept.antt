-- ===== src/Cpu/Ir/Kept.antt =====
-- What execution leaves of an instruction: all but its result, its destination and where it goes.
use sustemu.Base.{
  ℕ, ◌%◌, ◌^◌, bit_or, bit_and, ◌==◌, ◌≡◌, refl, Option, some, none, if◌then◌else◌, ◌>>=◌, Post,
  Post-then,
}
use sustemu.Cpu.Csr.Access.{read_csr, set_csr}
use sustemu.Cpu.Ir.Inst
use sustemu.Cpu.Ir.Inst.{IrInst, ExecFn}
use sustemu.Word.{sext, shl64, shr64, sdiv, srem, udiv, urem, not64}
use sustemu.Cpu.Ir.Alu.{
  with_result, shift, exec_auipc, exec_lui, exec_add, exec_mul, exec_sub, exec_or, exec_xor,
  exec_and, exec_slt, exec_sltu, exec_sll, exec_srl, exec_sra, exec_div, exec_divu, exec_rem,
  exec_remu, exec_addw, exec_mulw, exec_subw, exec_sllw, exec_srlw, exec_sraw, exec_divw,
  exec_divuw, exec_remw, exec_remuw, exec_addi, exec_ori, exec_xori, exec_andi, exec_slti,
  exec_sltiu, exec_slli, exec_srli, exec_srai, exec_addiw, exec_slliw, exec_srliw, exec_sraiw,
}
use sustemu.Cpu.Ir.Access.{
  exec_beq, exec_bne, exec_blt, exec_bge, exec_bltu, exec_bgeu, exec_ld, exec_lw, exec_lh, exec_lb,
  exec_lwu, exec_lhu, exec_lbu, exec_sd, exec_sw, exec_sh, exec_sb, exec_fence, exec_inv,
}
use sustemu.Cpu.Ir.Exec.{
  Sim, dispatch, ir_execute, exec_jal, exec_jalr, exec_ecall, exec_ebreak, exec_csrrw, exec_csrrs,
  exec_csrrc, exec_mret,
}

pub record Kept : Type 0 where
  pub pc : ℕ
  pub snpc : ℕ
  pub raw : ℕ
  pub rs1 : Option ℕ
  pub rs2 : Option ℕ
  pub src1_val : ℕ
  pub src2_val : ℕ
  pub predicted : ℕ

abbrev pub kept : IrInst → Kept
kept ir = record {
  pc = ir.pc;
  snpc = ir.snpc;
  raw = ir.raw;
  rs1 = ir.rs1;
  rs2 = ir.rs2;
  src1_val = ir.src1_val;
  src2_val = ir.src2_val;
  predicted = ir.bp_predicted_pc;
}

module _ (ir : IrInst) (s : Sim) where
  abbrev Same : IrInst × Sim → Type 0
  Same r = kept r.0 ≡ kept ir

  computed :
      (o : Option ℕ)
      → Post Same ((o >>= λ v. some (with_result Inst.itype_alu ir v)) >>= λ i. some (i, s))
  computed none = tt
  computed (some v) = refl

  dispatch-Same : (f : ExecFn) → Post Same (dispatch f ir s)
  unfolding dispatch exec_auipc exec_lui exec_add exec_mul exec_sub exec_or exec_xor exec_and
      exec_slt exec_sltu exec_sll exec_srl exec_sra exec_div exec_divu exec_rem exec_remu exec_addw
      exec_mulw exec_subw exec_sllw exec_srlw exec_sraw exec_divw exec_divuw exec_remw exec_remuw
      exec_addi exec_ori exec_xori exec_andi exec_slti exec_sltiu exec_slli exec_srli exec_srai
      exec_addiw exec_slliw exec_srliw exec_sraiw exec_beq exec_bne exec_blt exec_bge exec_bltu
      exec_bgeu exec_ld exec_lw exec_lh exec_lb exec_lwu exec_lhu exec_lbu exec_sd exec_sw exec_sh
      exec_sb exec_fence exec_inv exec_jal exec_jalr exec_ecall exec_ebreak exec_csrrw exec_csrrs
      exec_csrrc exec_mret
  dispatch-Same Inst.auipc = refl
  dispatch-Same Inst.lui = refl
  dispatch-Same Inst.add = refl
  dispatch-Same Inst.mul = refl
  dispatch-Same Inst.sub = refl
  dispatch-Same Inst.or = refl
  dispatch-Same Inst.xor = refl
  dispatch-Same Inst.and = refl
  dispatch-Same Inst.slt = refl
  dispatch-Same Inst.sltu = refl
  dispatch-Same Inst.sll = refl
  dispatch-Same Inst.srl = refl
  dispatch-Same Inst.sra = refl
  dispatch-Same Inst.div = computed (sdiv 64 ir.src1_val ir.src2_val)
  dispatch-Same Inst.divu = computed (udiv ir.src1_val ir.src2_val)
  dispatch-Same Inst.rem = computed (srem 64 ir.src1_val ir.src2_val)
  dispatch-Same Inst.remu = computed (urem ir.src1_val ir.src2_val)
  dispatch-Same Inst.addw = refl
  dispatch-Same Inst.mulw = refl
  dispatch-Same Inst.subw = refl
  dispatch-Same Inst.sllw = refl
  dispatch-Same Inst.srlw = refl
  dispatch-Same Inst.sraw = refl
  dispatch-Same Inst.divw = computed (sdiv 32 ir.src1_val ir.src2_val >>= λ v. some (sext v 32))
  dispatch-Same Inst.divuw =
      computed (udiv (ir.src1_val % 2 ^ 32) (ir.src2_val % 2 ^ 32) >>= λ v. some (sext v 32))
  dispatch-Same Inst.remw =
      computed (srem 32 ir.src1_val ir.src2_val >>= λ v. some (sext (v % 2 ^ 32) 32))
  dispatch-Same Inst.remuw =
      computed
        (urem (ir.src1_val % 2 ^ 32) (ir.src2_val % 2 ^ 32) >>= λ v. some (sext (v % 2 ^ 32) 32))
  dispatch-Same Inst.addi = refl
  dispatch-Same Inst.ori = refl
  dispatch-Same Inst.xori = refl
  dispatch-Same Inst.andi = refl
  dispatch-Same Inst.slti = refl
  dispatch-Same Inst.sltiu = refl
  dispatch-Same Inst.slli = computed (shift shl64 ir.src1_val ir.src2_val)
  dispatch-Same Inst.srli = computed (shift shr64 ir.src1_val ir.src2_val)
  dispatch-Same Inst.srai = refl
  dispatch-Same Inst.addiw = refl
  dispatch-Same Inst.slliw =
      computed (shift shl64 (ir.src1_val % 2 ^ 32) ir.src2_val >>= λ v. some (sext (v % 2 ^ 32) 32))
  dispatch-Same Inst.srliw =
      computed (shift shr64 (ir.src1_val % 2 ^ 32) ir.src2_val >>= λ v. some (sext (v % 2 ^ 32) 32))
  dispatch-Same Inst.sraiw = refl
  dispatch-Same Inst.beq = refl
  dispatch-Same Inst.bne = refl
  dispatch-Same Inst.blt = refl
  dispatch-Same Inst.bge = refl
  dispatch-Same Inst.bltu = refl
  dispatch-Same Inst.bgeu = refl
  dispatch-Same Inst.ld = refl
  dispatch-Same Inst.lw = refl
  dispatch-Same Inst.lh = refl
  dispatch-Same Inst.lb = refl
  dispatch-Same Inst.lwu = refl
  dispatch-Same Inst.lhu = refl
  dispatch-Same Inst.lbu = refl
  dispatch-Same Inst.sd = refl
  dispatch-Same Inst.sw = refl
  dispatch-Same Inst.sh = refl
  dispatch-Same Inst.sb = refl
  dispatch-Same Inst.fence = refl
  dispatch-Same Inst.inv = refl
  dispatch-Same Inst.jal = refl
  dispatch-Same Inst.jalr = refl
  dispatch-Same Inst.ecall = refl
  dispatch-Same Inst.ebreak = refl
  dispatch-Same Inst.csrrw =
      Post-then Same
        (if ir.src2_val == 0
          then some (ir.result, s.hart)
          else read_csr s.hart (ir.src2_val % 0x1000))
        _ (λ r. Post-then Same (set_csr r.1 (ir.src2_val % 0x1000) ir.src1_val) _ (λ h. refl))
  dispatch-Same Inst.csrrs = Post-then Same (read_csr s.hart (ir.src2_val % 0x1000)) _ (λ r.
      Post-then Same
        (if ir.src1_val == 0
          then some r.1
          else set_csr r.1 (ir.src2_val % 0x1000) (bit_or r.0 ir.src1_val))
        _ (λ h. refl))
  dispatch-Same Inst.csrrc = Post-then Same (read_csr s.hart (ir.src2_val % 0x1000)) _ (λ r.
      Post-then Same
        (if ir.src1_val == 0
          then some r.1
          else set_csr r.1 (ir.src2_val % 0x1000) (bit_and r.0 (not64 ir.src1_val)))
        _ (λ h. refl))
  dispatch-Same Inst.mret = Post-then Same (read_csr s.hart 0x341) _ (λ r. refl)

  pub ir_execute-kept : Post (λ (r : IrInst × Sim). kept r.0 ≡ kept ir) (ir_execute ir s)
  unfolding ir_execute
  ir_execute-kept = dispatch-Same ir.exec_fn
