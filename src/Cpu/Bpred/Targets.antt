-- ===== src/Cpu/Bpred/Targets.antt =====
-- The branch target buffer remembers the target that a taken branch resolved to.
use sustemu.Base.{ℕ, ◌≡◌, ◌≢◌, refl, true, false, update_self, inl, inr, Bool-cases, eq→==, ne→==}
use sustemu.Cpu.Ir.Inst.{IrInst}
use sustemu.Cpu.Bpred.Model.{
  BranchPredictor, bpred_predict, bpred_update, lookup, train, train_btb, is_control, is_ret,
  is_call, ras_push, btb_idx, btb_tag, btb_hits,
}
use sustemu.Cpu.Bpred.Second.{
  bpred2_predict, bpred2_update, train2, train_btb2, short_tag, btb2_hits,
}

-- What the buffer holds for an address
pub data Known (bp : BranchPredictor) (pc t : ℕ) : Type 0 where
  known :
      bp.btb (btb_idx pc) ≡ record { tag = btb_tag pc; target = t; valid = true } → Known bp pc t

bpred_update-Known :
    (bp : BranchPredictor) (ir : IrInst)
    → is_control ir.type ≡ true
    → ir.dnpc ≢ ir.snpc
    → Known (bpred_update bp ir) ir.pc ir.dnpc
unfolding bpred_update train train_btb
bpred_update-Known bp ir c ne =
    known (rw (c, ne→== ir.dnpc ir.snpc ne) (update_self bp.btb (btb_idx ir.pc) _))

lookup-Known :
    (bp : BranchPredictor) (pc t : ℕ)
    → Known bp pc t
    → ((lookup bp pc).btb_hit ≡ true) × ((lookup bp pc).target ≡ t)
unfolding lookup
lookup-Known bp pc t (known e) = (hit, rw (hit, e) refl)
  where
    hit : btb_hits bp pc ≡ true
    hit = rw e (eq→== (btb_tag pc) (btb_tag pc) refl)

-- After a taken branch or jump has been committed, the next prediction for its address hits the
-- buffer and names the target that it went to, unless the instruction there is a return.
pub bpred_predict-bpred_update :
    (bp : BranchPredictor) (ir : IrInst) (raw : ℕ)
    → is_control ir.type ≡ true
    → ir.dnpc ≢ ir.snpc
    → is_ret raw ≡ false
    → let r = (bpred_predict (bpred_update bp ir) ir.pc raw).0 in
      (r.btb_hit ≡ true) × (r.target ≡ ir.dnpc)
unfolding bpred_predict
bpred_predict-bpred_update bp ir raw c ne nr = elim (Bool-cases (is_call raw)) [
  | inl e ↦ rw (nr, e) (lookup-Known _ ir.pc ir.dnpc (pushed (bpred_update-Known bp ir c ne)))
  | inr e ↦
      rw (nr, e) (lookup-Known (bpred_update bp ir) ir.pc ir.dnpc (bpred_update-Known bp ir c ne))
]
  where
    pushed :
        Known (bpred_update bp ir) ir.pc ir.dnpc
        → Known (ras_push (bpred_update bp ir) ir.pc) ir.pc ir.dnpc
    pushed (known e) = known e

-- After an instruction that did not fall through has been committed to the second predictor, the next
-- prediction for its address hits the buffer and names the address that it went to.
pub bpred2_predict-bpred2_update :
    (bp : BranchPredictor) (ir : IrInst)
    → ir.dnpc ≢ ir.snpc
    → let r = bpred2_predict (bpred2_update bp ir) ir.pc in
      (r.btb_hit ≡ true) × (r.target ≡ ir.dnpc)
unfolding bpred2_predict bpred2_update train2 train_btb2
bpred2_predict-bpred2_update bp ir ne = (hit, rw (hit, e) refl)
  where
    e :
        (bpred2_update bp ir).btb (btb_idx ir.pc)
        ≡ record { tag = short_tag ir.pc; target = ir.dnpc; valid = true }
    e = rw (ne→== ir.dnpc ir.snpc ne) (update_self bp.btb (btb_idx ir.pc) _)

    hit : btb2_hits (bpred2_update bp ir) ir.pc ≡ true
    hit = rw e (eq→== (short_tag ir.pc) (short_tag ir.pc) refl)
