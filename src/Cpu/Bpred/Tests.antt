-- ===== src/Cpu/Bpred/Tests.antt =====
-- Runs of the predictors from their start.
use sustemu.Base.{◌≡◌, refl, true, [], ◌∷◌, arith}
use sustemu.Cpu.Ir.Inst
use sustemu.Cpu.Ir.Inst.{IrInst}
use sustemu.Cpu.Ir.Tests.{blank}
use sustemu.Cpu.Bpred.Model.{bpred_init, bpred_predict, bpred_update, is_ret, is_call}
use sustemu.Cpu.Bpred.Nesting.{
  Nest, over, passed, outcome, around, run_nest, IsNest, bpred_predict-run_nest,
}
use sustemu.Cpu.Bpred.Second.{bpred2_predict, bpred2_update}
use sustemu.Cpu.Bpred.Bounds.{InBounds, bpred_init-InBounds, fetched, committed, run, run-InBounds}
use sustemu.Cpu.Bpred.Targets.{bpred_predict-bpred_update, bpred2_predict-bpred2_update}
use sustemu.Cpu.Bpred.Returns.{returns, step_returns, bpred_predict-returns}

-- A jump at 100 that went to 200
abbrev jump : IrInst
jump = record blank { pc = 100; snpc = 104; dnpc = 200; type = Inst.itype_jal }

run-InBounds_example :
    InBounds (run bpred_init (fetched 100 0x6f ∷ committed jump ∷ fetched 100 0x6f ∷ []))
run-InBounds_example = run-InBounds (fetched 100 0x6f ∷ committed jump ∷ fetched 100 0x6f ∷ [])

-- `jal zero, 100` is no return.
bpred_predict-bpred_update_example :
    let r = (bpred_predict (bpred_update bpred_init jump) 100 0x6f).0 in
    (r.btb_hit ≡ true) × (r.target ≡ 200)
unfolding is_ret
bpred_predict-bpred_update_example =
    bpred_predict-bpred_update bpred_init jump 0x6f refl (λ e. omega arith) refl

bpred2_predict-bpred2_update_example :
    let r = bpred2_predict (bpred2_update bpred_init jump) 100 in
    (r.btb_hit ≡ true) × (r.target ≡ 200)
bpred2_predict-bpred2_update_example =
    bpred2_predict-bpred2_update bpred_init jump (λ e. omega arith)

-- `jal ra, 0` at 100
bpred_predict-returns_example :
    returns (bpred_predict bpred_init 100 0xef).1 ≡ step_returns (returns bpred_init) 100 0xef
bpred_predict-returns_example = bpred_predict-returns bpred_init 100 0xef bpred_init-InBounds

-- `jal ra` calls, and an instruction that is neither a call nor a return, before each `ret`
abbrev one_call : Nest
one_call = around 200 0xef (passed 300 0x13 (outcome jump over)) 304 0x8067 over

bpred_predict-run_nest_example :
    (bpred_predict (run_nest one_call (bpred_predict bpred_init 100 0xef).1) 204 0x8067).0
    ≡ record { taken = true; target = 104; btb_hit = true }
unfolding is_ret is_call IsNest
bpred_predict-run_nest_example =
    bpred_predict-run_nest bpred_init 100 0xef one_call 204 0x8067 bpred_init-InBounds refl refl
      (refl, refl, (refl, refl, tt), tt)
