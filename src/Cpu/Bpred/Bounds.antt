-- ===== src/Cpu/Bpred/Bounds.antt =====
-- Every index into a predictor's table stays in its range, and every counter on its two bits.
use sustemu.Base.{
  ℕ, ◌≤◌, ◌<◌, Bool, true, false, ltb, ◌==◌, update, arith, inl, inr, Bool-cases, not, ◌&&◌, List,
  [], ◌∷◌,
}
use sustemu.Cpu.Ir.Inst.{IrInst}
use sustemu.Cpu.Bpred.Model.{
  BranchPredictor, bpred_init, bpred_predict, bpred_update, saturate, saturate_choice, train,
  train_btb, is_control, is_ret, is_call, ras_push, ras_pop, count_outcome,
}

-- `lht` indexes `lpht`, `ras_top` the return stack.
pub record InBounds (bp : BranchPredictor) : Type 0 where
  pub lht : (i : ℕ) → bp.lht i < 1024
  pub lpht : (i : ℕ) → bp.lpht i ≤ 3
  pub ghr : bp.ghr < 4096
  pub gpht : (i : ℕ) → bp.gpht i ≤ 3
  pub choice : (i : ℕ) → bp.choice i ≤ 3
  pub ras_top : bp.ras_top < 16
  pub ras_count : bp.ras_count ≤ 16

update_all :
    (P : ℕ → Type 0) (f : ℕ → ℕ) (i v : ℕ)
    → ((j : ℕ) → P (f j))
    → P v
    → (j : ℕ) → P (update f i v j)
update_all P f i v h p j = elim (Bool-cases (j == i)) [ inl e ↦ rw e p | inr e ↦ rw e (h j) ]

saturate_le : (b : Bool) (c : ℕ) → c ≤ 3 → saturate b c ≤ 3
unfolding saturate
saturate_le true c h = ground arith
saturate_le false c h = omega arith

saturate_choice_le : (l g b : Bool) (c : ℕ) → c ≤ 3 → saturate_choice l g b c ≤ 3
unfolding saturate_choice
saturate_choice_le true true b c h = h
saturate_choice_le true false b c h = saturate_le (not b) c h
saturate_choice_le false true b c h = saturate_le b c h
saturate_choice_le false false b c h = h

pub bpred_init-InBounds : InBounds bpred_init
unfolding bpred_init
bpred_init-InBounds = record {
  lht = λ i. omega arith;
  lpht = λ i. omega arith;
  ghr = omega arith;
  gpht = λ i. omega arith;
  choice = λ i. omega arith;
  ras_top = omega arith;
  ras_count = omega arith;
}

train-InBounds : (bp : BranchPredictor) (pc : ℕ) (b : Bool) → InBounds bp → InBounds (train bp pc b)
unfolding train
train-InBounds bp pc b h = record {
  lht = update_all (λ x. x < 1024) bp.lht _ _ h.lht (omega arith);
  lpht = update_all (λ x. x ≤ 3) bp.lpht _ _ h.lpht (saturate_le b _ (h.lpht _));
  ghr = omega arith;
  gpht = update_all (λ x. x ≤ 3) bp.gpht _ _ h.gpht (saturate_le b _ (h.gpht _));
  choice = update_all (λ x. x ≤ 3) bp.choice _ _ h.choice (saturate_choice_le _ _ b _ (h.choice _));
  ras_top = h.ras_top;
  ras_count = h.ras_count;
}

train_btb-InBounds :
    (bp : BranchPredictor) (pc t : ℕ) (b : Bool) → InBounds bp → InBounds (train_btb bp pc t b)
unfolding train_btb
train_btb-InBounds bp pc t true h = record {
  lht = h.lht;
  lpht = h.lpht;
  ghr = h.ghr;
  gpht = h.gpht;
  choice = h.choice;
  ras_top = h.ras_top;
  ras_count = h.ras_count;
}
train_btb-InBounds bp pc t false h = h

count_outcome-InBounds :
    (bp : BranchPredictor) (ir : IrInst) → InBounds bp → InBounds (count_outcome bp ir)
count_outcome-InBounds bp ir h = record {
  lht = h.lht;
  lpht = h.lpht;
  ghr = h.ghr;
  gpht = h.gpht;
  choice = h.choice;
  ras_top = h.ras_top;
  ras_count = h.ras_count;
}

-- Training on any instruction keeps the indices in range and the counters between 0 and 3.
pub bpred_update-InBounds :
    (bp : BranchPredictor) (ir : IrInst) → InBounds bp → InBounds (bpred_update bp ir)
unfolding bpred_update
bpred_update-InBounds bp ir h = elim (Bool-cases (is_control ir.type)) [
  | inl e ↦ rw e (
      train-InBounds _ ir.pc _
        (train_btb-InBounds _ ir.pc ir.dnpc _ (count_outcome-InBounds bp ir h)))
  | inr e ↦ rw e h
]

ras_push-InBounds : (bp : BranchPredictor) (pc : ℕ) → InBounds bp → InBounds (ras_push bp pc)
ras_push-InBounds bp pc h = record {
  lht = h.lht;
  lpht = h.lpht;
  ghr = h.ghr;
  gpht = h.gpht;
  choice = h.choice;
  ras_top = omega arith;
  ras_count = ground (arith, h.ras_count);
}

ras_pop-InBounds : (bp : BranchPredictor) → InBounds bp → InBounds (ras_pop bp)
ras_pop-InBounds bp h = record {
  lht = h.lht;
  lpht = h.lpht;
  ghr = h.ghr;
  gpht = h.gpht;
  choice = h.choice;
  ras_top = omega arith;
  ras_count = omega (arith, h.ras_count);
}

-- So does a prediction, whatever the instruction.
pub bpred_predict-InBounds :
    (bp : BranchPredictor) (pc raw : ℕ) → InBounds bp → InBounds (bpred_predict bp pc raw).1
unfolding bpred_predict
bpred_predict-InBounds bp pc raw h = elim (Bool-cases (is_ret raw && ltb 0 bp.ras_count)) [
  | inl a ↦ rw a (ras_pop-InBounds bp h)
  | inr a ↦ elim (Bool-cases (is_call raw)) [
    | inl c ↦ rw (a, c) (ras_push-InBounds bp pc h)
    | inr c ↦ rw (a, c) h
  ]
]

-- What the core asks of a predictor: a prediction at a fetch, an outcome at a commit.
pub data Event : Type 0 where
  fetched : ℕ → ℕ → Event
  committed : IrInst → Event

pub run : BranchPredictor → List Event → BranchPredictor
run bp [] = bp
run bp (fetched pc raw ∷ es) = run (bpred_predict bp pc raw).1 es
run bp (committed ir ∷ es) = run (bpred_update bp ir) es

run_from : (es : List Event) (bp : BranchPredictor) → InBounds bp → InBounds (run bp es)
unfolding run
run_from [] bp h = h
run_from (fetched pc raw ∷ es) bp h =
    run_from es (bpred_predict bp pc raw).1 (bpred_predict-InBounds bp pc raw h)
run_from (committed ir ∷ es) bp h = run_from es (bpred_update bp ir) (bpred_update-InBounds bp ir h)

-- From `bpred_init`, no sequence of predictions and outcomes takes an index out of its table or a
-- counter beyond its two bits.
pub run-InBounds : (es : List Event) → InBounds (run bpred_init es)
run-InBounds es = run_from es bpred_init bpred_init-InBounds
