-- ===== src/Cpu/Bpred/Model.antt =====
-- `BranchPredictor` of include/cpu/bpred.h and the functions of src/cpu/bpred.c.
use sustemu.Base.{
  ℕ, ◌+◌, ◌-◌, ◌*◌, ◌/◌, ◌%◌, ◌^◌, Bool, true, false, ltb, leb, ◌==◌, if◌then◌else◌, not, ◌&&◌,
  ◌||◌, update, bit_xor, to_int,
}
use sustemu.Word.{add64, bits}
use sustemu.Cpu.Ir.Inst
use sustemu.Cpu.Ir.Inst.{IrInst, IrInstType}

pub record BtbEntry : Type 0 where
  pub tag : ℕ
  pub target : ℕ
  pub valid : Bool

pub record BranchPredictor : Type 0 where
  pub btb : ℕ → BtbEntry
  pub lht : ℕ → ℕ
  pub lpht : ℕ → ℕ
  pub ghr : ℕ
  pub gpht : ℕ → ℕ
  pub choice : ℕ → ℕ
  pub ras : ℕ → ℕ
  pub ras_top : ℕ
  pub ras_count : ℕ
  pub predictions : ℕ
  pub mispredictions : ℕ
  pub btb_misses : ℕ

pub record BpredResult : Type 0 where
  pub taken : Bool
  pub target : ℕ
  pub btb_hit : Bool

abbrev pub ras_size : ℕ
ras_size = 16

-- `bpred_init`
unfoldable pub bpred_init : BranchPredictor
bpred_init = record {
  btb = λ i. record { tag = 0; target = 0; valid = false };
  lht = λ i. 0;
  lpht = λ i. 0;
  ghr = 0;
  gpht = λ i. 0;
  choice = λ i. 0;
  ras = λ i. 0;
  ras_top = 0;
  ras_count = 0;
  predictions = 0;
  mispredictions = 0;
  btb_misses = 0;
}

-- `raw & 0x707f`: the opcode and funct3 of a `jalr`
abbrev is_jalr : ℕ → Bool
is_jalr raw = raw % 2 ^ 7 == 0x67 && bits raw 14 12 == 0

unfoldable pub is_call : ℕ → Bool
is_call raw =
    if raw % 2 ^ 7 == 0x6f
    then rd == 1 || rd == 5
    else if is_jalr raw
    then (rd == 1 || rd == 5) && not (rs1 == rd)
    else false
  where
    rd : ℕ
    rd = bits raw 11 7

    rs1 : ℕ
    rs1 = bits raw 19 15

unfoldable pub is_ret : ℕ → Bool
is_ret raw = if is_jalr raw then rd == 0 && (rs1 == 1 || rs1 == 5) else false
  where
    rd : ℕ
    rd = bits raw 11 7

    rs1 : ℕ
    rs1 = bits raw 19 15

-- `(pc >> 2) & (BTB_SIZE - 1)` and `pc >> 11`
abbrev pub btb_idx : ℕ → ℕ
btb_idx pc = pc / 2 ^ 2 % 512

abbrev pub btb_tag : ℕ → ℕ
btb_tag pc = pc / 2 ^ 11

abbrev pub lht_idx : ℕ → ℕ
lht_idx pc = pc / 2 ^ 2 % 1024

abbrev pub gpht_idx : ℕ → ℕ → ℕ
gpht_idx ghr pc = bit_xor ghr (pc / 2 ^ 2 % 2 ^ 32) % 4096

abbrev pub btb_hits : BranchPredictor → ℕ → Bool
btb_hits bp pc = (bp.btb (btb_idx pc)).valid && (bp.btb (btb_idx pc)).tag == btb_tag pc

-- The pop for a return
abbrev pub ras_pop : BranchPredictor → BranchPredictor
ras_pop bp = record bp {
  ras_top = (bp.ras_top + ras_size - 1) % ras_size;
  ras_count = bp.ras_count - 1;
}

-- The push for a call
abbrev pub ras_push : BranchPredictor → ℕ → BranchPredictor
ras_push bp pc =
    let new_top = (bp.ras_top + 1) % ras_size in
    record bp {
      ras = update bp.ras new_top (add64 pc 4);
      ras_top = new_top;
      ras_count = if ltb bp.ras_count ras_size then bp.ras_count + 1 else bp.ras_count;
    }

-- The branch target buffer and the tournament, for what is not a predicted return
unfoldable pub lookup : BranchPredictor → ℕ → BpredResult
lookup bp pc = record {
  taken =
      if leb 2 (bp.choice gi) then leb 2 (bp.gpht gi) else leb 2 (bp.lpht (bp.lht (lht_idx pc)));
  target = if btb_hits bp pc then (bp.btb (btb_idx pc)).target else 0;
  btb_hit = btb_hits bp pc;
}
  where
    gi : ℕ
    gi = gpht_idx bp.ghr pc

unfoldable pub bpred_predict : BranchPredictor → ℕ → ℕ → BpredResult × BranchPredictor
unfolding is_ret is_call lookup
bpred_predict bp pc raw =
    if is_ret raw && ltb 0 bp.ras_count
    then (record { taken = true; target = bp.ras bp.ras_top; btb_hit = true }, ras_pop bp)
    else (let bp' = if is_call raw then ras_push bp pc else bp in (lookup bp' pc, bp'))

-- `if (actual && c < 3) c++; if (!actual && c > 0) c--;`
unfoldable pub saturate : Bool → ℕ → ℕ
saturate actual c = if actual then (if ltb c 3 then c + 1 else c) else c - 1

-- The choice counter, by the two predictors and the outcome
unfoldable pub saturate_choice : Bool → Bool → Bool → ℕ → ℕ
unfolding saturate
saturate_choice local_pred global_pred actual c =
    if local_pred
    then (if global_pred then c else saturate (not actual) c)
    else if global_pred
    then saturate actual c
    else c

-- `((h << 1) | actual) & ((1 << width) - 1)`
abbrev pub shift_in : ℕ → ℕ → Bool → ℕ
shift_in width h actual = (h * 2 + to_int actual) % 2 ^ width

abbrev pub is_control : IrInstType → Bool
is_control Inst.itype_branch = true
is_control Inst.itype_jal = true
is_control Inst.itype_jalr = true
is_control _ = false

-- The branch target buffer after an outcome, and the misses that it counts
unfoldable pub train_btb : BranchPredictor → ℕ → ℕ → Bool → BranchPredictor
train_btb bp pc target actual =
    if actual
    then record bp {
      btb = update bp.btb (btb_idx pc) (record { tag = btb_tag pc; target = target; valid = true });
      btb_misses = if btb_hits bp pc then bp.btb_misses else add64 bp.btb_misses 1;
    }
    else bp

-- The tables of the tournament after an outcome
unfoldable pub train : BranchPredictor → ℕ → Bool → BranchPredictor
unfolding saturate saturate_choice
train bp pc actual = record bp {
  lpht = update bp.lpht hist (saturate actual (bp.lpht hist));
  lht = update bp.lht li (shift_in 10 hist actual);
  gpht = update bp.gpht gi (saturate actual (bp.gpht gi));
  choice =
      update bp.choice gi
        (saturate_choice (leb 2 (bp.lpht hist)) (leb 2 (bp.gpht gi)) actual (bp.choice gi));
  ghr = shift_in 12 bp.ghr actual;
}
  where
    li : ℕ
    li = lht_idx pc

    hist : ℕ
    hist = bp.lht li

    gi : ℕ
    gi = gpht_idx bp.ghr pc

-- The statistics of an outcome
abbrev pub count_outcome : BranchPredictor → IrInst → BranchPredictor
count_outcome bp ir = record bp {
  predictions = add64 bp.predictions 1;
  mispredictions =
      if ir.dnpc == ir.bp_predicted_pc then bp.mispredictions else add64 bp.mispredictions 1;
}

unfoldable pub bpred_update : BranchPredictor → IrInst → BranchPredictor
unfolding train_btb train
bpred_update bp ir =
    let actual = not (ir.dnpc == ir.snpc) in
    if is_control ir.type
    then train (train_btb (count_outcome bp ir) ir.pc ir.dnpc actual) ir.pc actual
    else bp
