-- ===== src/Cpu/Ooo/Stations/Reached.antt =====
-- The stations over whole cycles of src/cpu/ooo.c
use sustemu.Base.{
  Post, Post-bind, Post-then, Post-both, ℕ, ◌%◌, ◌^◌, ◌≡◌, refl, sym, subst, true, false, Bool,
  Option, some, not, ◌&&◌, ◌||◌, if-cases, arith,
}
use sustemu.Cpu.Ir.Inst.{IrInst}
use sustemu.Cpu.Bpred.Model.{BpredResult}
use sustemu.Cpu.Ooo.State.{Ooo, eu_eq, eu_int}
use sustemu.Cpu.Ooo.Rename.{ooo_stage_rn}
use sustemu.Cpu.Ooo.Wake.{ooo_stage_is}
use sustemu.Cpu.Ooo.Machine.{Machine, Config, with_ooo}
use sustemu.Cpu.Ooo.Cycle.{
  annotate, predict, fetch_slot, ooo_stage_if, ooo_stage_id, count_cycle, ooo_init, init_machine,
  is_control_raw,
}
use sustemu.Cpu.Ooo.Names.Frame.{IsConsistent, front-ooo_stage_is}
use sustemu.Cpu.Ooo.Names.Retiring.{Good}
use sustemu.Cpu.Ooo.Names.Running.{Good-IsKept}
use sustemu.Cpu.Ooo.Names.Reached.{init_machine-Good}
use sustemu.Cpu.Ooo.Stages.{IsKept, run_cycles, run_cycles-IsKept}
use sustemu.Cpu.Ooo.Stations.{IsScheduled}
use sustemu.Cpu.Ooo.Stations.Leaving.{ooo_stage_is-IsScheduled}
use sustemu.Cpu.Ooo.Stations.Renaming.{ooo_stage_rn-IsScheduled}
use sustemu.Cpu.Ooo.Stations.Executing.{
  Scheduled, ScheduledTurn, ooo_unit_int-Scheduled, ooo_unit_mul-Scheduled,
  ooo_stage_commit-Scheduled, ooo_drain_store_buf-Scheduled,
}
use sustemu.Cpu.Ooo.Stations.Loading.{ooo_unit_lsu-Scheduled}
use sustemu.Memory.Vmem.{VirtualMemory, is_cached}

module _ {S : Type 0} where
  annotate-Scheduled :
      (c : Config) (s pc raw : ℕ) (ir : IrInst) (m : Machine S)
      → Scheduled m
      → Scheduled (annotate c s pc raw ir m).1
  unfolding annotate predict
  annotate-Scheduled c s pc raw ir m k =
      if-cases ScheduledTurn ((c.bpred_mode || c.bpred2_mode) && is_control_raw raw)
        (λ e.
          if-cases (λ (r : BpredResult × Machine S). Scheduled r.1) c.bpred2_mode (λ f. k) (λ f. k))
        (λ e. k)

  abbrev pub Sound : Machine S → Type 0
  Sound m = Good m × Scheduled m

module _ {S : Type 0} (vm : VirtualMemory S) where
  fetch_slot-Scheduled :
      (c : Config) (s : ℕ) (m : Machine S) → Scheduled m → Post ScheduledTurn (fetch_slot vm c s m)
  unfolding fetch_slot
  fetch_slot-Scheduled c s m k =
      if-cases (Post ScheduledTurn) (not (is_cached (m.ooo.fetch_pc % 2 ^ 32))) (λ e. k)
        (λ e. Post-then ScheduledTurn (vm.vaddr_ifetch m.mem (m.ooo.fetch_pc % 2 ^ 32) 4) _ (λ r.
          annotate-Scheduled c s (m.ooo.fetch_pc % 2 ^ 32) (r.0 % 2 ^ 32) _ (record m { mem = r.1 })
            k))

  ooo_stage_if-Scheduled :
      (c : Config) (m : Machine S) → Scheduled m → Post Scheduled (ooo_stage_if vm c m)
  unfolding ooo_stage_if
  ooo_stage_if-Scheduled c m k =
      if-cases (Post Scheduled) (m.ooo.latch_if_id 0).valid (λ e. k)
        (λ e.
          Post-bind ScheduledTurn Scheduled (fetch_slot vm c 0 m) _ (fetch_slot-Scheduled c 0 m k)
            (λ t h.
              if-cases (Post Scheduled) t.0
                (λ f.
                  Post-bind ScheduledTurn Scheduled (fetch_slot vm c 1 t.1) _
                    (fetch_slot-Scheduled c 1 t.1 h) (λ t' j. j))
                (λ f. h)))

  ooo_stage_id-IsScheduled : (o : Ooo) → IsScheduled o → IsScheduled (ooo_stage_id o)
  unfolding ooo_stage_id
  ooo_stage_id-IsScheduled o k =
      if-cases IsScheduled (not (o.latch_if_id 0).valid || (o.latch_id_rn 0).valid) (λ e. k)
        (λ e. k)

  -- Every stage keeps renaming sound and the stations scheduled.
  pub Sound-IsKept : IsKept vm Sound
  unfolding count_cycle
  Sound-IsKept = record {
    drain = λ c m h. both _ (good.drain c m h.0) (ooo_drain_store_buf-Scheduled vm c m h.1);
    commit = λ m h. both _ (good.commit m h.0) (ooo_stage_commit-Scheduled vm m h.1);
    clock = λ m h. h;
    int = λ c m h. both _ (good.int c m h.0) (ooo_unit_int-Scheduled c m h.1);
    mul = λ m h. both _ (good.mul m h.0) (ooo_unit_mul-Scheduled m h.1);
    lsu = λ m h. both _ (good.lsu m h.0) (ooo_unit_lsu-Scheduled vm m h.1);
    rename = λ m h.
        let g = subst IsConsistent (sym (front-ooo_stage_is m.ooo)) h.0 in
        Post-both (λ o. Good (with_ooo m (λ x. o))) IsScheduled (ooo_stage_rn (ooo_stage_is m.ooo))
          (good.rename m h.0)
          (ooo_stage_rn-IsScheduled (ooo_stage_is m.ooo) g.sound g.waiting
            (ooo_stage_is-IsScheduled m.ooo h.1));
    decode = λ m h. (good.decode m h.0, ooo_stage_id-IsScheduled m.ooo h.1);
    fetch = λ c m h. both _ (good.fetch c m h.0) (ooo_stage_if-Scheduled c m h.1);
    count = λ m h. h;
  }
    where
      good : IsKept vm Good
      good = Good-IsKept vm

      both : (r : Option (Machine S)) → Post Good r → Post Scheduled r → Post Sound r
      both r p q = Post-both Good Scheduled r p q

  init_machine-Scheduled : (c : Config) (m : Machine S) → Scheduled (init_machine c m)
  unfolding init_machine ooo_init
  init_machine-Scheduled c m i hi = record {
    free_bit = ground arith;
    ready_bit = λ e. sym (idle (eu_eq e eu_int));
    src1 = λ v n. cc;
    src2 = λ v n. cc;
  }
    where
      idle : (b : Bool) → (b && false) ≡ false
      idle true = refl
      idle false = refl

  pub init_machine-Sound : (c : Config) (m : Machine S) → Sound (init_machine c m)
  init_machine-Sound c m = (init_machine-Good vm c m, init_machine-Scheduled c m)

  -- After any number of cycles from `ooo_init` on any machine that the run survives, the stations are scheduled: for
  -- each of the 16 the free mask has its bit exactly when it holds no instruction; the ready mask of a unit has
  -- its bit exactly when it holds an instruction of that unit with both sources there; and a source that is
  -- not there waits for a physical register other than 0 whose value has not been written, so that no
  -- station has missed a result.
  pub run_cycles-IsScheduled :
      (n : ℕ) (c : Config) (m m' : Machine S)
      → run_cycles vm n c (init_machine c m) ≡ some m'
      → IsScheduled m'.ooo
  run_cycles-IsScheduled n c m m' e =
      (subst (Post Sound) e
        (run_cycles-IsKept vm Sound Sound-IsKept n c (init_machine c m) (init_machine-Sound c m))).1
