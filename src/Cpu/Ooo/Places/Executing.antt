-- ===== src/Cpu/Ooo/Places/Executing.antt =====
-- The integer units and the multiplier of src/cpu/ooo.c, and where their instructions are.
use sustemu.Base.{
  Post, Post-bind, Post-then, Post-both, subst, ℕ, zero, suc, ◌+◌, ◌-◌, ◌<◌, ◌≡◌, refl, sym, ◌∙◌,
  ap, true, false, ◌==◌, if◌then◌else◌, ltb, not, to_int, if-cases, Bool-cases, inl, inr, arith,
  ==→eq,
}
use sustemu.Base.Int.{ℤ, pos, negsuc}
use sustemu.Cpu.Ir.Inst.{IrInst}
use sustemu.Cpu.Ir.Exec.{ir_execute}
use sustemu.Cpu.Bpred.Model.{is_control}
use sustemu.Cpu.Ooo.State.{Ooo, Latch}
use sustemu.Cpu.Ooo.Flush.{ooo_flush_after}
use sustemu.Cpu.Ooo.Machine.{Machine, Config, with_ooo, set_rob, store_ir, complete, write_result}
use sustemu.Cpu.Ooo.Units.{
  execute, check_branch, mispredicted, train_predictors, int_slot, ooo_unit_int, mul_visit,
  mul_finish, mul_latency, ooo_unit_mul, set_fault, with_operands, predicted, drop_int, set_mul,
  idle, count_down,
}
use sustemu.Cpu.Ooo.Names.Retiring.{Good}
use sustemu.Cpu.Ooo.Names.Executing.{
  SameFront, Good-same, execute-front, train-front, int_slot-Good,
}
use sustemu.Cpu.Ooo.Places.{places, due, IsPlaced}
use sustemu.Cpu.Ooo.Places.Finishing.{
  finished, same_due, done_due, write_result-places, write_result-due, drop_int-places,
  idle_mul-places, set_mul-places,
}
use sustemu.Cpu.Ooo.Places.Flushing.{ooo_flush_after-IsPlaced}
use sustemu.Memory.Vmem.{is_cached}

-- A latch whose slot is empty holds nothing that is due.
pub not_due :
    (o : Ooo) (k i : ℕ) → (o.rob k).valid ≡ false → due o i ≡ (if i == k then false else due o i)
not_due o k i e = elim (Bool-cases (i == k)) [
  | inl q ↦ rw q (ap (due o) (==→eq i k q) ∙ rw e refl)
  | inr q ↦ rw q refl
]

module _ {S : Type 0} where
  abbrev pub Placed : Machine S → Type 0
  Placed m = IsPlaced m.ooo

  -- What an execution leaves of the places, and what is due after it
  abbrev Executed : Latch → Machine S → Machine S → Type 0
  Executed l m m' =
      ((i : ℕ) → places m'.ooo i ≡ places m.ooo i)
      × ((i : ℕ) → due m'.ooo i ≡ (if i == l.rob_idx then false else due m.ooo i))

  execute-Executed :
      (l : Latch) (m : Machine S)
      → Post (λ (r : IrInst × Machine S). Executed l m r.1) (execute l m)
  unfolding execute
  execute-Executed l m =
      Post-then (λ (r : IrInst × Machine S). Executed l m r.1)
        (ir_execute (with_operands (m.ooo.rob l.rob_idx).ir l) m.sim) _
        (λ r. (
          λ i. write_result-places l.phys_rd r.0.result (set_rob l.rob_idx (store_ir r.0) m.ooo) i,
          λ i.
              done_due complete (λ e. refl) l.rob_idx
                (write_result l.phys_rd r.0.result (set_rob l.rob_idx (store_ir r.0) m.ooo)) i
              ∙ ap (λ b. if i == l.rob_idx then false else b)
                  (write_result-due l.phys_rd r.0.result (set_rob l.rob_idx (store_ir r.0) m.ooo) i
                    ∙ same_due (store_ir r.0) (λ e. refl) (λ e. refl) l.rob_idx m.ooo i),
        ))

  train-ooo : (c : Config) (ir : IrInst) (m : Machine S) → (train_predictors c ir m).ooo ≡ m.ooo
  unfolding train_predictors
  train-ooo c ir m =
      if-cases (λ (m' : Machine S). m'.ooo ≡ m.ooo) c.bpred2_mode (λ e. refl)
        (λ e. if-cases (λ (m' : Machine S). m'.ooo ≡ m.ooo) c.bpred_mode (λ f. refl) (λ f. refl))

  mispredicted-Placed :
      (c : Config) (b : ℕ) (ir : IrInst) (m : Machine S)
      → Good m
      → (m.ooo.rob b).valid ≡ true
      → Placed m
      → Post Placed (mispredicted c b ir m)
  unfolding mispredicted
  mispredicted-Placed c b ir m g v p =
      if-cases (Post Placed) (not (is_cached ir.dnpc))
        (λ e i hi. p i hi ∙ ap to_int (sym (same_due set_fault (λ x. refl) (λ x. refl) b m.ooo i)))
        (λ e. elim (Bool-cases c.bpred_mode) [
          | inl f ↦ rw f (Post-bind IsPlaced Placed (ooo_flush_after b m.ooo) _ flushed (λ o k. k))
          | inr f ↦ rw f (Post-bind IsPlaced Placed (ooo_flush_after b m.ooo) _ flushed (λ o k. k))
        ])
    where
      flushed : Post IsPlaced (ooo_flush_after b m.ooo)
      flushed = ooo_flush_after-IsPlaced b m.ooo g.sound v p

  check_branch-Placed :
      (c : Config) (b : ℕ) (ir : IrInst) (m : Machine S)
      → Good m
      → (m.ooo.rob b).valid ≡ true
      → Placed m
      → Post Placed (check_branch c b ir m)
  unfolding check_branch
  check_branch-Placed c b ir m g v p =
      if-cases (Post Placed) (not (is_control ir.type)) (λ e. p)
        (λ e.
          if-cases (Post Placed) (ir.dnpc == predicted ir) (λ f. trained)
            (λ f.
              mispredicted-Placed c b ir (train_predictors c ir m)
                (Good-same m (train_predictors c ir m) g (train-front c ir m))
                (ap (λ o. (o.rob b).valid) (train-ooo c ir m) ∙ v) trained))
    where
      trained : Placed (train_predictors c ir m)
      trained = subst IsPlaced (sym (train-ooo c ir m)) p

  int_slot-Placed :
      (c : Config) (s : ℕ) (m : Machine S)
      → s < 2
      → Good m
      → Placed m
      → Post Placed (int_slot c s m)
  unfolding int_slot
  int_slot-Placed c s m hs g p =
      if-cases (Post Placed) (not l.valid) (λ e. p)
        (λ e.
          if-cases (Post Placed) (not (m.ooo.rob l.rob_idx).valid)
            (λ v.
              finished m.ooo (drop_int s m.ooo) l.rob_idx p
                (λ i. drop_int-places s m.ooo i hs (held e))
                (λ i. not_due m.ooo l.rob_idx i (ground arith)))
            (λ v.
              Post-bind (λ (r : IrInst × Machine S). SameFront m r.1 × Executed l dropped r.1)
                Placed (execute l dropped) _
                (Post-both _ _ (execute l dropped) (execute-front l dropped)
                  (execute-Executed l dropped))
                (λ r (same, x).
                  check_branch-Placed c l.rob_idx r.0 r.1 (Good-same m r.1 g same)
                    (ap (λ f. f.named.valids l.rob_idx) same ∙ ground arith)
                    (finished m.ooo r.1.ooo l.rob_idx p
                      (λ i.
                        ap (λ n. n + to_int (i == l.rob_idx)) (x.0 i)
                        ∙ drop_int-places s m.ooo i hs (held e))
                      x.1))))
    where
      l : Latch
      l = m.ooo.latch_int s

      dropped : Machine S
      dropped = with_ooo m (drop_int s)

      held : not l.valid ≡ false → l.valid ≡ true
      held e = ground arith

  pub ooo_unit_int-Placed :
      (c : Config) (m : Machine S) → Good m → Placed m → Post Placed (ooo_unit_int c m)
  unfolding ooo_unit_int
  ooo_unit_int-Placed c m g p =
      Post-bind (λ m'. Good m' × Placed m') Placed (int_slot c 0 m) _
        (Post-both Good Placed (int_slot c 0 m) (int_slot-Good c 0 m g)
          (int_slot-Placed c 0 m (omega arith) g p))
        (λ m' (g', p'). int_slot-Placed c 1 m' (omega arith) g' p')

  mul_finish-Placed :
      (m : Machine S) → (m.ooo.latch_mul 0).valid ≡ true → Placed m → Post Placed (mul_finish 0 m)
  unfolding mul_finish
  mul_finish-Placed m v p =
      if-cases (Post Placed) (not (m.ooo.rob l.rob_idx).valid)
        (λ e.
          finished m.ooo (set_mul 0 idle m.ooo) l.rob_idx p (λ i. idle_mul-places m.ooo i v)
            (λ i. not_due m.ooo l.rob_idx i (ground arith)))
        (λ e.
          Post-bind (λ (r : IrInst × Machine S). Executed l dropped r.1) Placed (execute l dropped)
            _ (execute-Executed l dropped)
            (λ r x.
              finished m.ooo r.1.ooo l.rob_idx p
                (λ i. ap (λ n. n + to_int (i == l.rob_idx)) (x.0 i) ∙ idle_mul-places m.ooo i v)
                x.1))
    where
      l : Latch
      l = m.ooo.latch_mul 0

      dropped : Machine S
      dropped = with_ooo m (set_mul 0 idle)

  counted-Placed :
      (n : ℤ) (m : Machine S) → Placed m → Placed (with_ooo m (set_mul 0 (count_down n)))
  counted-Placed n m p i hi = set_mul-places (count_down n) m.ooo i (λ l. refl) ∙ p i hi

  mul_visit-Placed :
      (n : ℤ) (m : Machine S)
      → (m.ooo.latch_mul 0).valid ≡ true
      → Placed m
      → Post Placed (mul_visit n 0 m)
  unfolding mul_visit
  mul_visit-Placed (negsuc zero) m v p =
      let lat = mul_latency (m.ooo.rob (m.ooo.latch_mul 0).rob_idx).ir.raw in
      if-cases (Post Placed) (ltb 1 lat) (λ e. counted-Placed (pos (lat - 1)) m p)
        (λ e.
          mul_finish-Placed (with_ooo m (set_mul 0 (count_down (pos (lat - 1))))) v
            (counted-Placed (pos (lat - 1)) m p))
  mul_visit-Placed (negsuc (suc n)) m v p = mul_finish-Placed m v p
  mul_visit-Placed (pos zero) m v p = mul_finish-Placed m v p
  mul_visit-Placed (pos (suc n)) m v p =
      if-cases (λ f. Placed (with_ooo m (set_mul 0 f)))
        (m.ooo.rob (m.ooo.latch_mul 0).rob_idx).valid (λ e. counted-Placed (pos n) m p)
        (λ e.
          finished m.ooo (set_mul 0 idle m.ooo) (m.ooo.latch_mul 0).rob_idx p
            (λ i. idle_mul-places m.ooo i v) (λ i. not_due m.ooo (m.ooo.latch_mul 0).rob_idx i e))

  pub ooo_unit_mul-Placed : (m : Machine S) → Placed m → Post Placed (ooo_unit_mul m)
  unfolding ooo_unit_mul
  ooo_unit_mul-Placed m p =
      if-cases (Post Placed) (m.ooo.latch_mul 0).valid
        (λ e. mul_visit-Placed (m.ooo.latch_mul 0).cycles_rem m e p) (λ e. p)
