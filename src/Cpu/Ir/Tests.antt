-- ===== src/Cpu/Ir/Tests.antt =====
-- Instruction words of the guest programs through the decoder.
use sustemu.Base.Int.{pos}
use sustemu.Base.{[], ◌*◌, ◌≡◌, refl, arith, true, false, some, none}
use sustemu.Word.{sext}
use sustemu.Cpu.State.{CpuState}
use sustemu.Cpu.Ir.Inst
use sustemu.Cpu.Ir.Inst.{IrInst}
use sustemu.Cpu.Ir.Decode.{ir_decode, imm_s, imm_b, imm_j}
use sustemu.Cpu.Ir.Exec.{Sim, exec_ecall, exec_mret, ir_execute}
use sustemu.Cpu.Csr.Tests.{boot}
use sustemu.Cpu.Csr.Traps.{Trapped, exec_mret-exec_ecall}
use sustemu.Cpu.Ir.Immediates.{immediates-fields, s_field, b_field, j_field}
use sustemu.Cpu.Ir.Isa.{
  encode_reg, encode_imm, encode_store, encode_branch, i_sub, i_addi, i_sd, i_bne, reg_fn, imm_fn,
  store_fn, branch_fn,
}
use sustemu.Cpu.Ir.RoundTrip.{
  DecodedReg, DecodedImm, DecodedPair, ir_decode-encode_reg, ir_decode-encode_imm,
  ir_decode-encode_store, ir_decode-encode_branch,
}
use sustemu.Cpu.Ir.Step.{ir_execute-branch}

abbrev pub blank : IrInst
blank = record {
  pc = 0;
  snpc = 0;
  raw = 0;
  type = Inst.itype_invalid;
  rd = none;
  rs1 = none;
  rs2 = none;
  src1_val = 0;
  src2_val = 0;
  imm = 0;
  mem_addr = 0;
  mem_width = 0;
  mem_sign = false;
  result = 0;
  dnpc = 0;
  taken = false;
  bp_predict_taken = false;
  bp_predicted_pc = 0;
  ras_top_snap = 0;
  ras_cnt_snap = 0;
  serializing = false;
  fault = false;
  phys_rd = none;
  rob_idx = none;
  cycles_rem = 0;
  exec_fn = Inst.inv;
}

-- Register i holds 10 times its number.
abbrev tens : CpuState
tens = record { gpr = λ i. 10 * i; pc = 0x8000_0000 }

-- `sub x3, x1, x2`
word_of_sub : encode_reg i_sub 3 1 2 ≡ 0x4020_81b3
word_of_sub = refl

-- `addi sp, sp, -16`
word_of_addi : encode_imm i_addi 2 2 0xff0 ≡ 0xff01_0113
word_of_addi = refl

-- `sd ra, 8(sp)`
word_of_sd : encode_store i_sd 2 1 8 ≡ 0x0011_3423
word_of_sd = refl

-- `bne a0, a1, -4`
word_of_bne : encode_branch i_bne 10 11 0x1ffc ≡ 0xfeb5_1ee3
word_of_bne = refl

ir_decode-encode_reg_example :
    DecodedReg tens (ir_decode tens (encode_reg i_sub 3 1 2) 100 104 blank) (reg_fn i_sub) 3 1 2
ir_decode-encode_reg_example =
    ir_decode-encode_reg tens 100 104 blank i_sub 3 1 2 (omega arith) (omega arith) (omega arith)

ir_decode-encode_imm_example :
    DecodedImm tens
      (ir_decode tens (encode_imm i_addi 2 2 0xff0) 100 104 blank)
      (imm_fn i_addi)
      2
      2
      0xff0
ir_decode-encode_imm_example =
    ir_decode-encode_imm tens 100 104 blank i_addi 2 2 0xff0 (omega arith) (omega arith)
      (omega arith)

ir_decode-encode_store_example :
    DecodedPair tens
      (ir_decode tens (encode_store i_sd 2 1 8) 100 104 blank)
      100
      104
      (store_fn i_sd)
      2
      1
      (sext 8 12)
ir_decode-encode_store_example =
    ir_decode-encode_store tens 100 104 blank i_sd 2 1 8 (omega arith) (omega arith) (omega arith)

ir_decode-encode_branch_example :
    DecodedPair tens
      (ir_decode tens (encode_branch i_bne 10 11 0x1ffc) 100 104 blank)
      100
      104
      (branch_fn i_bne)
      10
      11
      (sext 0x1ffc 13)
ir_decode-encode_branch_example =
    ir_decode-encode_branch tens 100 104 blank i_bne 10 11 0x1ffc (omega arith) (omega arith)
      (omega arith) (omega arith)

immediates-fields_example :
    (imm_s 0xff1f_f06f ≡ sext (s_field 0xff1f_f06f) 12)
    × (imm_b 0xff1f_f06f ≡ sext (b_field 0xff1f_f06f) 13)
    × (imm_j 0xff1f_f06f ≡ sext (j_field 0xff1f_f06f) 21)
immediates-fields_example = immediates-fields 0xff1f_f06f

abbrev pub boot_sim : Sim
boot_sim = record {
  hart = boot;
  ftrace = record { enabled = false; symtab = []; depth = pos 0; elements = [] };
}

ir_execute-branch_example :
    (ir' : IrInst) × (ir_execute
        (ir_decode tens (encode_branch i_bne 10 11 0x1ffc) 100 104 blank)
        boot_sim
      ≡ some (ir', boot_sim))
    × (ir'.taken ≡ true)
    × (ir'.dnpc ≡ 96)
    × (ir'.rd ≡ none)
ir_execute-branch_example =
    ir_execute-branch tens boot_sim 100 104 blank i_bne 10 11 0x1ffc (omega arith) (omega arith)
      (omega arith) (omega arith)

exec_mret-exec_ecall_example :
    let (ir', s') = exec_ecall (record blank { pc = 0x8000_0010 }) boot_sim in
    Trapped (record blank { pc = 0x8000_0010 }) boot_sim ir' s'
    × (r : IrInst) × (t : Sim) × (exec_mret blank s' ≡ some (r, t))
    × (r.dnpc ≡ 0x8000_0010)
exec_mret-exec_ecall_example =
    exec_mret-exec_ecall (record blank { pc = 0x8000_0010 }) blank boot_sim
