-- ===== src/Cpu/Ooo/Names/Executing.antt =====
-- What the integer units and the multiplier do to renaming: nothing, but for the flush behind a
-- mispredicted branch.
use sustemu.Base.{
  Post, Post-bind, ℕ, zero, suc, ◌+◌, ◌-◌, ◌≡◌, refl, sym, ◌∙◌, ap, subst, true, ◌==◌, ltb, not,
  Bool-cases, inl, inr, if-cases, arith,
}
use sustemu.Base.Int.{ℤ, pos, negsuc}
use sustemu.Cpu.Ir.Inst.{IrInst}
use sustemu.Cpu.Ir.Exec.{ir_execute}
use sustemu.Cpu.Bpred.Model.{is_control}
use sustemu.Cpu.Ooo.State.{Ooo, Latch}
use sustemu.Cpu.Ooo.Flush.{rob_age}
use sustemu.Cpu.Ooo.Machine.{Machine, Config, with_ooo, set_rob, store_ir, complete, write_result}
use sustemu.Cpu.Ooo.Units.{
  execute, check_branch, mispredicted, train_predictors, int_slot, ooo_unit_int, mul_visit,
  mul_finish, mul_latency, ooo_unit_mul, set_fault, with_operands, predicted, drop_int, set_mul,
  idle, count_down,
}
use sustemu.Cpu.Ooo.Names.Frame.{front, front-set_rob, front-write_result, IsConsistent}
use sustemu.Cpu.Ooo.Names.Flushing.{ooo_flush_after-Dropped, Dropped, empty_front}
use sustemu.Cpu.Ooo.Names.Retiring.{Good, any}
use sustemu.Memory.Vmem.{is_cached}

module _ {S : Type 0} where
  abbrev pub SameFront : Machine S → Machine S → Type 0
  SameFront m m' = front m'.ooo ≡ front m.ooo

  pub Good-same : (m m' : Machine S) → Good m → SameFront m m' → Good m'
  Good-same m m' g e = subst IsConsistent (sym e) g

  pub execute-front :
      (l : Latch) (m : Machine S) → Post (λ (r : IrInst × Machine S). SameFront m r.1) (execute l m)
  unfolding execute
  execute-front l m =
      Post-bind (λ x. Unit {0}) (λ (r : IrInst × Machine S). SameFront m r.1)
        (ir_execute (with_operands (m.ooo.rob l.rob_idx).ir l) m.sim) _ (any _)
        (λ r u.
          front-set_rob complete (λ e. refl) (λ e. refl) l.rob_idx
            (write_result l.phys_rd r.0.result (set_rob l.rob_idx (store_ir r.0) m.ooo))
          ∙ front-write_result l.phys_rd r.0.result (set_rob l.rob_idx (store_ir r.0) m.ooo)
          ∙ front-set_rob (store_ir r.0) (λ e. refl) (λ e. refl) l.rob_idx m.ooo)

  pub train-front :
      (c : Config) (ir : IrInst) (m : Machine S) → SameFront m (train_predictors c ir m)
  unfolding train_predictors
  train-front c ir m =
      if-cases (SameFront m) c.bpred2_mode (λ e. refl)
        (λ e. if-cases (SameFront m) c.bpred_mode (λ f. refl) (λ f. refl))

  mispredicted-Good :
      (c : Config) (b : ℕ) (ir : IrInst) (m : Machine S)
      → Good m
      → (m.ooo.rob b).valid ≡ true
      → Post Good (mispredicted c b ir m)
  unfolding mispredicted
  mispredicted-Good c b ir m g v =
      let (o', p, d) = ooo_flush_after-Dropped b m.ooo g.sound v in
      if-cases (Post Good) (not (is_cached ir.dnpc))
        (λ e.
          Good-same m (with_ooo m (set_rob b set_fault)) g
            (front-set_rob set_fault (λ x. refl) (λ x. refl) b m.ooo))
        (λ e. elim (Bool-cases c.bpred_mode) [
          | inl f ↦ rw (f, p) (flushed o' d)
          | inr f ↦ rw (f, p) (flushed o' d)
        ])
    where
      -- Latches without their instructions still name registers of the file.
      flushed :
          (o' : Ooo)
          → Dropped (empty_front m.ooo) o' (m.ooo.rob_count - (rob_age m.ooo b + 1))
          → IsConsistent (front o')
      flushed o' d = record {
        sound = d.sound;
        waiting = rw d.rn g.waiting;
        fetched = rw d.fi g.fetched;
      }

  check_branch-Good :
      (c : Config) (b : ℕ) (ir : IrInst) (m : Machine S)
      → Good m
      → (m.ooo.rob b).valid ≡ true
      → Post Good (check_branch c b ir m)
  unfolding check_branch
  check_branch-Good c b ir m g v =
      if-cases (Post Good) (not (is_control ir.type)) (λ e. g)
        (λ e.
          if-cases (Post Good) (ir.dnpc == predicted ir) (λ f. trained)
            (λ f.
              mispredicted-Good c b ir (train_predictors c ir m) trained
                (ap (λ x. x.named.valids b) (train-front c ir m) ∙ v)))
    where
      trained : Good (train_predictors c ir m)
      trained = Good-same m (train_predictors c ir m) g (train-front c ir m)

  pub int_slot-Good : (c : Config) (s : ℕ) (m : Machine S) → Good m → Post Good (int_slot c s m)
  unfolding int_slot
  int_slot-Good c s m g =
      if-cases (Post Good) (not l.valid) (λ e. g)
        (λ e.
          if-cases (Post Good) (not (m.ooo.rob l.rob_idx).valid) (λ v. g)
            (λ v.
              Post-bind (λ (r : IrInst × Machine S). SameFront m r.1) Good
                (execute l (with_ooo m (drop_int s))) _ (execute-front l (with_ooo m (drop_int s)))
                (λ r same.
                  check_branch-Good c l.rob_idx r.0 r.1 (Good-same m r.1 g same)
                    (ap (λ x. x.named.valids l.rob_idx) same ∙ ground arith))))
    where
      l : Latch
      l = m.ooo.latch_int s

  pub ooo_unit_int-Good : (c : Config) (m : Machine S) → Good m → Post Good (ooo_unit_int c m)
  unfolding ooo_unit_int
  ooo_unit_int-Good c m g =
      Post-bind Good Good (int_slot c 0 m) _ (int_slot-Good c 0 m g)
        (λ m' g'. int_slot-Good c 1 m' g')

  mul_finish-Good : (s : ℕ) (m : Machine S) → Good m → Post Good (mul_finish s m)
  unfolding mul_finish
  mul_finish-Good s m g =
      if-cases (Post Good) (not (m.ooo.rob l.rob_idx).valid) (λ v. g)
        (λ v.
          Post-bind (λ (r : IrInst × Machine S). SameFront m r.1) Good
            (execute l (with_ooo m (set_mul s idle))) _
            (execute-front l (with_ooo m (set_mul s idle))) (λ r same. Good-same m r.1 g same))
    where
      l : Latch
      l = m.ooo.latch_mul s

  mul_visit-Good : (n : ℤ) (s : ℕ) (m : Machine S) → Good m → Post Good (mul_visit n s m)
  unfolding mul_visit
  mul_visit-Good (negsuc zero) s m g =
      let lat = mul_latency (m.ooo.rob (m.ooo.latch_mul s).rob_idx).ir.raw in
      if-cases (Post Good) (ltb 1 lat) (λ e. g)
        (λ e. mul_finish-Good s (with_ooo m (set_mul s (count_down (pos (lat - 1))))) g)
  mul_visit-Good (negsuc (suc n)) s m g = mul_finish-Good s m g
  mul_visit-Good (pos zero) s m g = mul_finish-Good s m g
  mul_visit-Good (pos (suc n)) s m g = g

  pub ooo_unit_mul-Good : (m : Machine S) → Good m → Post Good (ooo_unit_mul m)
  unfolding ooo_unit_mul
  ooo_unit_mul-Good m g =
      if-cases (Post Good) (m.ooo.latch_mul 0).valid
        (λ e. mul_visit-Good (m.ooo.latch_mul 0).cycles_rem 0 m g) (λ e. g)
