-- ===== src/Cpu/Ir/Step.antt =====
-- The write-back, and whole instructions from the word to the register file.
use mathlib.Core.Path.{ap₂}
use sustemu.Base.{
  ◌+◌, arith, ℕ, ◌%◌, ◌^◌, ◌<◌, ◌≡◌, refl, sym, ◌∙◌, ap, Bool, false, Option, some, none, ◌==◌,
  if◌then◌else◌, Bool-cases, inl, inr, ==→eq, ==→ne, eq→==, ne→==, ltb, not,
}
use sustemu.Word.{sext, add64, slt64}
use sustemu.Cpu.State.{CpuState}
use sustemu.Cpu.Ir.Inst
use sustemu.Cpu.Ir.Inst.{IrInst, ExecFn}
use sustemu.Cpu.Ir.Decode.{ir_decode}
use sustemu.Cpu.Ir.Access.{exec_beq, exec_bne, exec_blt, exec_bge, exec_bltu, exec_bgeu}
use sustemu.Cpu.Ir.Exec.{Sim, is_reg, ir_execute, ir_writeback, dispatch}
use sustemu.Cpu.Ir.Isa.{
  BranchOp, i_beq, i_bne, i_blt, i_bge, i_bltu, i_bgeu, branch_fn, encode_branch,
}
use sustemu.Cpu.Ir.RoundTrip.{DecodedPair, ir_decode-encode_branch}

-- After the write-back register 0 holds 0, the destination holds the result, and every other register
-- and the program counter are as before.
pub ir_writeback_lem :
    (ir : IrInst) (cpu : CpuState) (r : ℕ)
    → ((ir_writeback ir cpu).gpr r
        ≡ (if r == 0 then 0 else if is_reg ir.rd r then ir.result else cpu.gpr r))
      × ((ir_writeback ir cpu).pc ≡ cpu.pc)
unfolding ir_writeback
ir_writeback_lem ir cpu r =
    (elim (Bool-cases (r == 0)) [ inl e ↦ rw e refl | inr e ↦ other e ir.rd ], refl)
  where
    other :
        (r == 0) ≡ false
        → (o : Option ℕ)
        → (ir_writeback (record ir { rd = o }) cpu).gpr r
          ≡ (if r == 0 then 0 else if is_reg o r then ir.result else cpu.gpr r)
    other e none = rw e refl
    other e (some rd) = rw e (elim (Bool-cases (r == rd)) [
      | inl q ↦ rw (q, eq→== rd r (sym (==→eq r rd q))) refl
      | inr q ↦ rw (q, ne→== rd r (λ x. ==→ne r rd q (sym x))) refl
    ])

-- Two words as signed numbers, with the sign bit turned over so that their order is that of ℕ
abbrev pub signed_less : ℕ → ℕ → Bool
signed_less a b = ltb ((a + 2 ^ 63) % 2 ^ 64) ((b + 2 ^ 63) % 2 ^ 64)

slt64-signed_less : (a b : ℕ) → slt64 a b ≡ signed_less a b
unfolding slt64
slt64-signed_less a b = ground arith

-- The condition of each branch
abbrev pub holds : BranchOp → ℕ → ℕ → Bool
holds i_beq a b = a == b
holds i_bne a b = not (a == b)
holds i_blt a b = signed_less a b
holds i_bge a b = not (signed_less a b)
holds i_bltu a b = ltb a b
holds i_bgeu a b = not (ltb a b)

branched : BranchOp → IrInst → IrInst
branched o ir = record ir {
  type = Inst.itype_branch;
  taken = holds o ir.src1_val ir.src2_val;
  dnpc = if holds o ir.src1_val ir.src2_val then add64 ir.pc ir.imm else ir.snpc;
}

dispatch-branch :
    (o : BranchOp) (ir : IrInst) (s : Sim) → dispatch (branch_fn o) ir s ≡ some (branched o ir, s)
unfolding dispatch branched exec_beq exec_bne exec_blt exec_bge exec_bltu exec_bgeu
dispatch-branch i_beq ir s = refl
dispatch-branch i_bne ir s = refl
dispatch-branch i_blt ir s = rw (slt64-signed_less ir.src1_val ir.src2_val) refl
dispatch-branch i_bge ir s = rw (slt64-signed_less ir.src1_val ir.src2_val) refl
dispatch-branch i_bltu ir s = refl
dispatch-branch i_bgeu ir s = refl

-- A branch word with any registers and any even offset of 13 bits, decoded and executed, is taken
-- exactly when its condition holds of the two registers; it then goes to its own address
-- plus the signed offset, else to the next instruction, and nothing else of the simulator changes.
pub ir_execute-branch :
    (cpu : CpuState) (s : Sim) (pc snpc : ℕ) (ir : IrInst) (o : BranchOp) (rs1 rs2 off : ℕ)
    → rs1 < 32
    → rs2 < 32
    → off < 2 ^ 13
    → off % 2 ≡ 0
    → let taken = holds o (cpu.gpr rs1) (cpu.gpr rs2) in
      (ir' : IrInst) × (ir_execute (ir_decode cpu (encode_branch o rs1 rs2 off) pc snpc ir) s
        ≡ some (ir', s))
      × (ir'.taken ≡ taken)
      × (ir'.dnpc ≡ (if taken then add64 pc (sext off 13) else snpc))
      × (ir'.rd ≡ none)
unfolding ir_execute branched
ir_execute-branch cpu s pc snpc ir o rs1 rs2 off hs ht hi even = (
  branched o i,
  ap (λ f. dispatch f i s) d.exec_fn ∙ dispatch-branch o i s,
  ap₂ (holds o) d.src1_val d.src2_val,
  rw (d.src1_val, d.src2_val, d.pc, d.snpc, d.imm) refl,
  d.rd,
)
  where
    i : IrInst
    i = ir_decode cpu (encode_branch o rs1 rs2 off) pc snpc ir

    d : DecodedPair cpu i pc snpc (branch_fn o) rs1 rs2 (sext off 13)
    d = ir_decode-encode_branch cpu pc snpc ir o rs1 rs2 off hs ht hi even
