-- ===== src/Cpu/Ooo/Stations/Executing.antt =====
-- The stations while commit and the units of src/cpu/ooo.c work
use sustemu.Base.{
  Post, Post-bind, Post-then, ℕ, zero, suc, ◌-◌, ◌==◌, ltb, leb, not, ◌&&◌, ◌||◌, if-cases,
  Bool-cases, inl, inr,
}
use sustemu.Base.Int.{ℤ, pos, negsuc}
use sustemu.Cpu.State.{CpuState}
use sustemu.Cpu.Ir.Inst.{IrInst}
use sustemu.Cpu.Ir.Exec.{ir_execute}
use sustemu.Cpu.Bpred.Model.{is_control}
use sustemu.Cpu.Ooo.State.{Ooo, RobEntry, StoreBufEntry, Latch, store_buf_size, lat_l2_hit}
use sustemu.Cpu.Ooo.Flush.{ooo_flush_after}
use sustemu.Cpu.Ooo.Wake.{is_fence}
use sustemu.Cpu.Ooo.Machine.{Machine, Config, with_ooo, set_rob, store_ir}
use sustemu.Cpu.Ooo.Commit.{
  Turn, retire, is_store, commit_store, commit_entry, commit_one, ooo_stage_commit, drain_one,
  ooo_drain_store_buf, sbuf_push, set_tick,
}
use sustemu.Cpu.Ooo.Units.{
  execute, check_branch, mispredicted, train_predictors, int_slot, ooo_unit_int, mul_visit,
  mul_finish, mul_latency, ooo_unit_mul, with_operands, predicted, drop_int, set_mul, idle,
  count_down,
}
use sustemu.Cpu.Ooo.Stations.{IsScheduled}
use sustemu.Cpu.Ooo.Stations.Waking.{write_result-IsScheduled}
use sustemu.Cpu.Ooo.Stations.Leaving.{retire-IsScheduled, ooo_flush_after-IsScheduled}
use sustemu.Memory.Vmem.{VirtualMemory, is_cached}

module _ {S : Type 0} where
  abbrev pub Scheduled : Machine S → Type 0
  Scheduled m = IsScheduled m.ooo

  abbrev pub ScheduledTurn : Turn S → Type 0
  ScheduledTurn t = IsScheduled t.1.ooo

  commit_entry-Scheduled :
      (e : RobEntry) (m : Machine S) → Scheduled m → Post Scheduled (commit_entry e m)
  unfolding commit_entry
  commit_entry-Scheduled e m s =
      Post-bind (λ (r : CpuState × Ooo). IsScheduled r.1) Scheduled
        (retire e.arch_rd e.phys_rd e.old_phys m.cpu m.ooo) _
        (retire-IsScheduled e.arch_rd e.phys_rd e.old_phys m.cpu m.ooo s) (λ r k. k)

  execute-Scheduled :
      (l : Latch) (m : Machine S)
      → Scheduled m
      → Post (λ (r : IrInst × Machine S). Scheduled r.1) (execute l m)
  unfolding execute
  execute-Scheduled l m s =
      Post-then (λ (r : IrInst × Machine S). Scheduled r.1)
        (ir_execute (with_operands (m.ooo.rob l.rob_idx).ir l) m.sim) _
        (λ r.
          write_result-IsScheduled l.phys_rd r.0.result (set_rob l.rob_idx (store_ir r.0) m.ooo) s)

  train-Scheduled :
      (c : Config) (ir : IrInst) (m : Machine S) → Scheduled m → Scheduled (train_predictors c ir m)
  unfolding train_predictors
  train-Scheduled c ir m s =
      if-cases Scheduled c.bpred2_mode (λ e. s)
        (λ e. if-cases Scheduled c.bpred_mode (λ f. s) (λ f. s))

  mispredicted-Scheduled :
      (c : Config) (b : ℕ) (ir : IrInst) (m : Machine S)
      → Scheduled m
      → Post Scheduled (mispredicted c b ir m)
  unfolding mispredicted
  mispredicted-Scheduled c b ir m s =
      if-cases (Post Scheduled) (not (is_cached ir.dnpc)) (λ e. s)
        (λ e. elim (Bool-cases c.bpred_mode) [
          | inl f ↦
              rw f (Post-bind IsScheduled Scheduled (ooo_flush_after b m.ooo) _ flushed (λ o k. k))
          | inr f ↦
              rw f (Post-bind IsScheduled Scheduled (ooo_flush_after b m.ooo) _ flushed (λ o k. k))
        ])
    where
      flushed : Post IsScheduled (ooo_flush_after b m.ooo)
      flushed = ooo_flush_after-IsScheduled b m.ooo s

  check_branch-Scheduled :
      (c : Config) (b : ℕ) (ir : IrInst) (m : Machine S)
      → Scheduled m
      → Post Scheduled (check_branch c b ir m)
  unfolding check_branch
  check_branch-Scheduled c b ir m s =
      if-cases (Post Scheduled) (not (is_control ir.type)) (λ e. s)
        (λ e.
          if-cases (Post Scheduled) (ir.dnpc == predicted ir) (λ f. train-Scheduled c ir m s)
            (λ f.
              mispredicted-Scheduled c b ir (train_predictors c ir m) (train-Scheduled c ir m s)))

  int_slot-Scheduled :
      (c : Config) (s : ℕ) (m : Machine S) → Scheduled m → Post Scheduled (int_slot c s m)
  unfolding int_slot
  int_slot-Scheduled c s m k =
      if-cases (Post Scheduled) (not l.valid) (λ e. k)
        (λ e.
          if-cases (Post Scheduled) (not (m.ooo.rob l.rob_idx).valid) (λ v. k)
            (λ v.
              Post-bind (λ (r : IrInst × Machine S). Scheduled r.1) Scheduled
                (execute l (with_ooo m (drop_int s))) _
                (execute-Scheduled l (with_ooo m (drop_int s)) k)
                (λ r h. check_branch-Scheduled c l.rob_idx r.0 r.1 h)))
    where
      l : Latch
      l = m.ooo.latch_int s

  pub ooo_unit_int-Scheduled :
      (c : Config) (m : Machine S) → Scheduled m → Post Scheduled (ooo_unit_int c m)
  unfolding ooo_unit_int
  ooo_unit_int-Scheduled c m k =
      Post-bind Scheduled Scheduled (int_slot c 0 m) _ (int_slot-Scheduled c 0 m k)
        (λ m' h. int_slot-Scheduled c 1 m' h)

  mul_finish-Scheduled : (s : ℕ) (m : Machine S) → Scheduled m → Post Scheduled (mul_finish s m)
  unfolding mul_finish
  mul_finish-Scheduled s m k =
      if-cases (Post Scheduled) (not (m.ooo.rob l.rob_idx).valid) (λ v. k)
        (λ v.
          Post-bind (λ (r : IrInst × Machine S). Scheduled r.1) Scheduled
            (execute l (with_ooo m (set_mul s idle))) _
            (execute-Scheduled l (with_ooo m (set_mul s idle)) k) (λ r h. h))
    where
      l : Latch
      l = m.ooo.latch_mul s

  mul_visit-Scheduled :
      (n : ℤ) (s : ℕ) (m : Machine S) → Scheduled m → Post Scheduled (mul_visit n s m)
  unfolding mul_visit
  mul_visit-Scheduled (negsuc zero) s m k =
      let lat = mul_latency (m.ooo.rob (m.ooo.latch_mul s).rob_idx).ir.raw in
      if-cases (Post Scheduled) (ltb 1 lat) (λ e. k)
        (λ e. mul_finish-Scheduled s (with_ooo m (set_mul s (count_down (pos (lat - 1))))) k)
  mul_visit-Scheduled (negsuc (suc n)) s m k = mul_finish-Scheduled s m k
  mul_visit-Scheduled (pos zero) s m k = mul_finish-Scheduled s m k
  mul_visit-Scheduled (pos (suc n)) s m k = k

  pub ooo_unit_mul-Scheduled : (m : Machine S) → Scheduled m → Post Scheduled (ooo_unit_mul m)
  unfolding ooo_unit_mul
  ooo_unit_mul-Scheduled m k =
      if-cases (Post Scheduled) (m.ooo.latch_mul 0).valid
        (λ e. mul_visit-Scheduled (m.ooo.latch_mul 0).cycles_rem 0 m k) (λ e. k)

module _ {S : Type 0} (vm : VirtualMemory S) where
  commit_store-Scheduled :
      (e : RobEntry) (m : Machine S) → Scheduled m → Post ScheduledTurn (commit_store vm e m)
  unfolding commit_store sbuf_push
  commit_store-Scheduled e m s =
      if-cases (Post ScheduledTurn) (not (is_store e.ir.type)) (λ p. s)
        (λ p.
          if-cases (Post ScheduledTurn) (is_cached e.ir.mem_addr)
            (λ q.
              if-cases (Post ScheduledTurn) (leb store_buf_size m.ooo.sbuf_count) (λ r. s) (λ r. s))
            (λ q.
              Post-then ScheduledTurn
                (vm.vaddr_write m.mem e.ir.mem_addr e.ir.mem_width e.store_data) _ (λ mem. s)))

  commit_one-Scheduled : (m : Machine S) → Scheduled m → Post ScheduledTurn (commit_one vm m)
  unfolding commit_one
  commit_one-Scheduled m s =
      if-cases (Post ScheduledTurn) (m.ooo.rob_count == 0) (λ p. s)
        (λ p.
          if-cases (Post ScheduledTurn) (not e.valid || not e.ready) (λ q. s)
            (λ q.
              if-cases (Post ScheduledTurn) (is_fence e.ir.type && ltb 0 m.ooo.sbuf_count) (λ r. s)
                (λ r.
                  if-cases (Post ScheduledTurn) e.ir.fault (λ f. tt)
                    (λ f.
                      Post-bind ScheduledTurn ScheduledTurn (commit_store vm e m) _
                        (commit_store-Scheduled e m s)
                        (λ t k.
                          if-cases (Post ScheduledTurn) t.0
                            (λ c.
                              Post-bind Scheduled ScheduledTurn (commit_entry e t.1) _
                                (commit_entry-Scheduled e t.1 k) (λ m' h. h))
                            (λ c. k))))))
    where
      e : RobEntry
      e = m.ooo.rob m.ooo.rob_head

  pub ooo_stage_commit-Scheduled :
      (m : Machine S) → Scheduled m → Post Scheduled (ooo_stage_commit vm m)
  unfolding ooo_stage_commit
  ooo_stage_commit-Scheduled m s =
      Post-bind ScheduledTurn Scheduled (commit_one vm m) _ (commit_one-Scheduled m s) (λ t k.
        if-cases (Post Scheduled) t.0
          (λ c.
            Post-bind ScheduledTurn Scheduled (commit_one vm t.1) _ (commit_one-Scheduled t.1 k)
              (λ t' h. h))
          (λ c. k))

  drain_one-Scheduled : (m : Machine S) → Scheduled m → Post Scheduled (drain_one vm m)
  unfolding drain_one
  drain_one-Scheduled m s =
      Post-then Scheduled (vm.vaddr_write m.mem e.addr e.width e.data_word) _ (λ mem. s)
    where
      e : StoreBufEntry
      e = m.ooo.sbuf m.ooo.sbuf_head

  pub ooo_drain_store_buf-Scheduled :
      (c : Config) (m : Machine S) → Scheduled m → Post Scheduled (ooo_drain_store_buf vm c m)
  unfolding ooo_drain_store_buf
  ooo_drain_store_buf-Scheduled c m s =
      if-cases (Post Scheduled) (m.ooo.sbuf_count == 0) (λ p. s)
        (λ p.
          if-cases (Post Scheduled) (ltb 1 c.num_cores)
            (λ q.
              if-cases (Post Scheduled) (ltb 0 m.ooo.sbuf_drain_tick) (λ r. s)
                (λ r. drain_one-Scheduled (with_ooo m (set_tick (lat_l2_hit - 1))) s))
            (λ q. drain_one-Scheduled m s))
