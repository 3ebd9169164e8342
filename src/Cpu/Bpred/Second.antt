-- ===== src/Cpu/Bpred/Second.antt =====
-- src/cpu/bpred2.c: the second predictor on the same tables. `spec_lht`, the file's static table,
-- is never written and stays 0.
use sustemu.Base.{ℕ, ◌/◌, ◌%◌, ◌^◌, Bool, true, leb, ◌==◌, if◌then◌else◌, not, ◌&&◌, update}
use sustemu.Word.{add64}
use sustemu.Cpu.Ir.Inst.{IrInst}
use sustemu.Cpu.Bpred.Model.{
  BranchPredictor, BpredResult, btb_idx, lht_idx, saturate, shift_in, count_outcome,
}

-- The tag is a `uint32_t` here.
abbrev pub short_tag : ℕ → ℕ
short_tag pc = pc / 2 ^ 11 % 2 ^ 32

abbrev pub btb2_hits : BranchPredictor → ℕ → Bool
btb2_hits bp pc = (bp.btb (btb_idx pc)).valid && (bp.btb (btb_idx pc)).tag == short_tag pc

abbrev pub spec_lht : ℕ → ℕ
spec_lht i = 0

unfoldable pub bpred2_predict : BranchPredictor → ℕ → BpredResult
bpred2_predict bp pc = record {
  btb_hit = btb2_hits bp pc;
  target = if btb2_hits bp pc then (bp.btb (btb_idx pc)).target else 0;
  taken = leb 2 (bp.lpht (spec_lht (lht_idx pc) % 1024));
}

unfoldable pub train_btb2 : BranchPredictor → ℕ → ℕ → Bool → BranchPredictor
train_btb2 bp pc target actual =
    if actual
    then record bp {
      btb =
          update bp.btb (btb_idx pc) (record { tag = short_tag pc; target = target; valid = true });
      btb_misses = if btb2_hits bp pc then bp.btb_misses else add64 bp.btb_misses 1;
    }
    else bp

unfoldable pub train2 : BranchPredictor → ℕ → Bool → BranchPredictor
unfolding saturate
train2 bp pc actual = record bp {
  lpht = update bp.lpht lphi (saturate actual (bp.lpht lphi));
  lht = update bp.lht li (shift_in 10 hist actual);
  ghr = shift_in 12 bp.ghr actual;
}
  where
    li : ℕ
    li = lht_idx pc

    hist : ℕ
    hist = bp.lht li

    lphi : ℕ
    lphi = hist % 1024

unfoldable pub bpred2_update : BranchPredictor → IrInst → BranchPredictor
unfolding train_btb2 train2
bpred2_update bp ir =
    let actual = not (ir.dnpc == ir.snpc) in
    train2 (train_btb2 (count_outcome bp ir) ir.pc ir.dnpc actual) ir.pc actual
