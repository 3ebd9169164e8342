-- ===== src/Cpu/Ooo/Stations/Loading.antt =====
-- The stations while `ooo_unit_lsu` works
use sustemu.Base.{
  Post, Post-bind, Post-then, ℕ, zero, suc, ◌-◌, ◌%◌, ◌^◌, Option, none, some, ◌==◌, ltb, leb, not,
  ◌&&◌, ◌||◌, if-cases,
}
use sustemu.Base.Int.{ℤ, pos, negsuc}
use sustemu.Cpu.Ir.Inst.{IrInst}
use sustemu.Cpu.Ir.Exec.{ir_execute}
use sustemu.Cpu.Ooo.State.{Ooo, Latch}
use sustemu.Cpu.Ooo.Mshr.{mshr_find_or_alloc}
use sustemu.Cpu.Ooo.Machine.{Machine, with_ooo, set_rob, store_ir}
use sustemu.Cpu.Ooo.Units.{set_fault, with_operands}
use sustemu.Cpu.Ooo.Commit.{is_store}
use sustemu.Cpu.Ooo.Lsu.{
  set_lsu, set_result, release, still_used, load_fault, load_done, load_value, do_fill, drop_fill,
  start_miss, start_load, finish_store, first_visit, lsu_visit, lsu_slot, ooo_unit_lsu,
  level_to_lat, at,
}
use sustemu.Cpu.Ooo.Stations.{IsScheduled}
use sustemu.Cpu.Ooo.Stations.Waking.{cdb_broadcast-IsScheduled}
use sustemu.Cpu.Ooo.Stations.Executing.{Scheduled}
use sustemu.Memory.Vmem.{VirtualMemory, is_cached}

release-IsScheduled :
    (mi : Option ℕ) (s : ℕ) (o : Ooo) → IsScheduled o → IsScheduled (release mi s o)
unfolding release
release-IsScheduled none s o k = k
release-IsScheduled (some mi) s o k = if-cases IsScheduled (still_used o s mi) (λ e. k) (λ e. k)

load_fault-IsScheduled :
    (s : ℕ) (l : Latch) (o : Ooo) → IsScheduled o → IsScheduled (load_fault s l o)
unfolding load_fault
load_fault-IsScheduled s l o k = given l.phys_rd
  where
    marked : Ooo
    marked = set_rob l.rob_idx (set_result 0) (set_rob l.rob_idx set_fault o)

    given : (p : Option ℕ) → IsScheduled (load_fault s (record l { phys_rd = p }) o)
    given none = k
    given (some zero) = k
    given (some (suc r)) = cdb_broadcast-IsScheduled (suc r) 0 marked k

load_done-IsScheduled :
    (p : Option ℕ) (i s v : ℕ) (o : Ooo) → IsScheduled o → Post IsScheduled (load_done p i s v o)
unfolding load_done
load_done-IsScheduled none i s v o k = tt
load_done-IsScheduled (some r) i s v o k = cdb_broadcast-IsScheduled r v o k

module _ {S : Type 0} (vm : VirtualMemory S) where
  do_fill-Scheduled :
      (mi : Option ℕ) (s : ℕ) (m : Machine S) → Scheduled m → Post Scheduled (do_fill vm mi s m)
  unfolding do_fill
  do_fill-Scheduled mi s m k =
      if-cases (Post Scheduled)
        (not (is_cached (ir.mem_addr % 2 ^ 32)) && not (leb 0xa000_0000 (ir.mem_addr % 2 ^ 32)))
        (λ e. load_fault-IsScheduled s l m.ooo k)
        (λ e. Post-then Scheduled (vm.vaddr_fill_and_read m.mem ir.mem_addr ir.mem_width) _ (λ r.
          let v = load_value m.ooo l.rob_idx ir r.0 in
          let o' = set_rob l.rob_idx (set_result v) m.ooo in
          Post-bind IsScheduled Scheduled (load_done l.phys_rd l.rob_idx s v (release mi s o')) _
            (load_done-IsScheduled l.phys_rd l.rob_idx s v (release mi s o')
              (release-IsScheduled mi s o' k))
            (λ o h. h)))
    where
      l : Latch
      l = m.ooo.latch_lsu s

      ir : IrInst
      ir = (m.ooo.rob l.rob_idx).ir

  drop_fill-Scheduled :
      (mi : Option ℕ) (s : ℕ) (m : Machine S) → Scheduled m → Post Scheduled (drop_fill vm mi s m)
  unfolding drop_fill
  drop_fill-Scheduled none s m k = k
  drop_fill-Scheduled (some mi) s m k =
      if-cases (Post Scheduled) (ltb 0 (m.ooo.mshr mi).cycles_rem) (λ e. k)
        (λ e.
          Post-then Scheduled (vm.vaddr_fill_and_read m.mem (m.ooo.mshr mi).line_addr 8) _
            (λ r. release-IsScheduled (some mi) s m.ooo k))

  start_miss-Scheduled :
      (addr lat s : ℕ) (m : Machine S) → Scheduled m → Scheduled (start_miss addr lat s m)
  unfolding start_miss
  start_miss-Scheduled addr lat s m k =
      allocated (mshr_find_or_alloc m.ooo.mshr (addr - addr % 64) lat).0
    where
      allocated :
          (mi : Option ℕ)
          → Scheduled (elim mi [
            | none ↦ m
            | some i ↦ with_ooo m (λ o.
                set_lsu s
                  (at i)
                  (record o { mshr = (mshr_find_or_alloc m.ooo.mshr (addr - addr % 64) lat).1 }))
          ])
      allocated none = k
      allocated (some i) = k

  start_load-Scheduled :
      (ir : IrInst) (s : ℕ) (m : Machine S) → Scheduled m → Post Scheduled (start_load vm ir s m)
  unfolding start_load
  start_load-Scheduled ir s m k =
      if-cases (Post Scheduled) (leb 0xa000_0000 ir.mem_addr)
        (λ e.
          if-cases (Post Scheduled) ((m.ooo.latch_lsu s).rob_idx == m.ooo.rob_head)
            (λ f. do_fill-Scheduled none s m k) (λ f. k))
        (λ e.
          if-cases (Post Scheduled) (level_to_lat (vm.vaddr_probe_level m.mem ir.mem_addr).0 == 1)
            (λ f. do_fill-Scheduled none s probed k)
            (λ f.
              start_miss-Scheduled ir.mem_addr
                (level_to_lat (vm.vaddr_probe_level m.mem ir.mem_addr).0) s probed k))
    where
      probed : Machine S
      probed = record m { mem = (vm.vaddr_probe_level m.mem ir.mem_addr).1 }

  first_visit-Scheduled :
      (s : ℕ) (m : Machine S) → Scheduled m → Post Scheduled (first_visit vm s m)
  unfolding first_visit finish_store
  first_visit-Scheduled s m k =
      Post-then Scheduled (ir_execute (with_operands (m.ooo.rob l.rob_idx).ir l) m.sim) _ (λ r.
        if-cases (Post Scheduled) (is_store r.0.type) (λ e. k)
          (λ e.
            start_load-Scheduled r.0 s
              (record m { sim = r.1; ooo = set_rob l.rob_idx (store_ir r.0) m.ooo }) k))
    where
      l : Latch
      l = m.ooo.latch_lsu s

  lsu_visit-Scheduled :
      (mi : Option ℕ) (n : ℤ) (s : ℕ) (m : Machine S)
      → Scheduled m
      → Post Scheduled (lsu_visit vm mi n s m)
  unfolding lsu_visit
  lsu_visit-Scheduled none (negsuc zero) s m k = first_visit-Scheduled s m k
  lsu_visit-Scheduled none (negsuc (suc zero)) s m k =
      if-cases (Post Scheduled) ((m.ooo.latch_lsu s).rob_idx == m.ooo.rob_head)
        (λ e. do_fill-Scheduled none s m k) (λ e. k)
  lsu_visit-Scheduled none (negsuc (suc (suc n))) s m k = do_fill-Scheduled none s m k
  lsu_visit-Scheduled none (pos n) s m k = do_fill-Scheduled none s m k
  lsu_visit-Scheduled (some mi) n s m k =
      if-cases (Post Scheduled) (ltb 0 (m.ooo.mshr mi).cycles_rem) (λ e. k)
        (λ e. do_fill-Scheduled (some mi) s m k)

  lsu_slot-Scheduled : (s : ℕ) (m : Machine S) → Scheduled m → Post Scheduled (lsu_slot vm s m)
  unfolding lsu_slot
  lsu_slot-Scheduled s m k =
      if-cases (Post Scheduled) (not l.valid) (λ e. k)
        (λ e.
          if-cases (Post Scheduled) (not (m.ooo.rob l.rob_idx).valid || l.flushed)
            (λ f. drop_fill-Scheduled l.mshr_idx s m k)
            (λ f. lsu_visit-Scheduled l.mshr_idx l.cycles_rem s m k))
    where
      l : Latch
      l = m.ooo.latch_lsu s

  pub ooo_unit_lsu-Scheduled : (m : Machine S) → Scheduled m → Post Scheduled (ooo_unit_lsu vm m)
  unfolding ooo_unit_lsu
  ooo_unit_lsu-Scheduled m k =
      Post-bind Scheduled Scheduled (lsu_slot vm 0 m) _ (lsu_slot-Scheduled 0 m k)
        (λ m' h. lsu_slot-Scheduled 1 m' h)
