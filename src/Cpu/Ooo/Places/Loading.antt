-- ===== src/Cpu/Ooo/Places/Loading.antt =====
-- `ooo_unit_lsu`, and where its instructions are.
use sustemu.Base.{
  Post, Post-bind, Post-then, ℕ, zero, suc, ◌-◌, ◌%◌, ◌^◌, ◌<◌, ◌≡◌, refl, sym, ◌∙◌, ap, true,
  Option, none, some, ◌==◌, ltb, leb, not, ◌&&◌, ◌||◌, to_int, if-cases, arith,
}
use sustemu.Base.Int.{ℤ, pos, negsuc}
use sustemu.Cpu.Ir.Inst.{IrInst}
use sustemu.Cpu.Ir.Exec.{ir_execute}
use sustemu.Cpu.Ooo.State.{Ooo, RobEntry, Latch}
use sustemu.Cpu.Ooo.Mshr.{mshr_find_or_alloc}
use sustemu.Cpu.Ooo.Machine.{Machine, with_ooo, set_rob, store_ir}
use sustemu.Cpu.Ooo.Units.{with_operands, count_down}
use sustemu.Cpu.Ooo.Commit.{is_store}
use sustemu.Cpu.Ooo.Lsu.{
  set_lsu, set_result, release, load_done, load_value, do_fill, drop_fill, start_miss, start_load,
  finish_store, first_visit, lsu_visit, lsu_slot, ooo_unit_lsu, level_to_lat, at,
}
use sustemu.Cpu.Ooo.Places.{IsPlaced}
use sustemu.Cpu.Ooo.Places.Finishing.{same_due, done_due, set_lsu-places}
use sustemu.Cpu.Ooo.Places.Executing.{Placed}
use sustemu.Memory.Vmem.{VirtualMemory, is_cached}
use sustemu.Cpu.Ooo.Places.Ending.{
  Holds, ended, release-Quiet, load_fault-IsPlaced, load_done-IsPlaced, idle-IsPlaced,
}

module _ {S : Type 0} (vm : VirtualMemory S) (s : ℕ) (hs : s < 2) where
  do_fill-Placed :
      (mi : Option ℕ) (m : Machine S) → Holds s m.ooo → Placed m → Post Placed (do_fill vm mi s m)
  unfolding do_fill
  do_fill-Placed mi m h p =
      if-cases (Post Placed)
        (not (is_cached (ir.mem_addr % 2 ^ 32)) && not (leb 0xa000_0000 (ir.mem_addr % 2 ^ 32)))
        (λ e. load_fault-IsPlaced s m.ooo hs h p)
        (λ e. Post-then Placed (vm.vaddr_fill_and_read m.mem ir.mem_addr ir.mem_width) _ (λ r.
          let v = load_value m.ooo l.rob_idx ir r.0 in
          let o' = set_rob l.rob_idx (set_result v) m.ooo in
          let q = release-Quiet mi s o' in
          Post-bind IsPlaced Placed (load_done l.phys_rd l.rob_idx s v (release mi s o')) _
            (load_done-IsPlaced l.phys_rd s v m.ooo (release mi s o') hs h p (record {
              latches = q.latches;
              same = q.same;
              due_as = λ i.
                  q.due_as i ∙ same_due (set_result v) (λ x. refl) (λ x. refl) l.rob_idx m.ooo i;
            }))
            (λ o k. k)))
    where
      l : Latch
      l = m.ooo.latch_lsu s

      ir : IrInst
      ir = (m.ooo.rob l.rob_idx).ir

  drop_fill-Placed :
      (mi : Option ℕ) (m : Machine S)
      → (m.ooo.latch_lsu s).valid ≡ true
      → (not (m.ooo.rob (m.ooo.latch_lsu s).rob_idx).valid || (m.ooo.latch_lsu s).flushed) ≡ true
      → Placed m
      → Post Placed (drop_fill vm mi s m)
  unfolding drop_fill
  drop_fill-Placed none m v c p =
      idle-IsPlaced s m.ooo m.ooo hs v c p
        (record { latches = refl; same = λ i. refl; due_as = λ i. refl })
  drop_fill-Placed (some mi) m v c p =
      if-cases (Post Placed) (ltb 0 (m.ooo.mshr mi).cycles_rem) (λ e. p)
        (λ e. Post-then Placed (vm.vaddr_fill_and_read m.mem (m.ooo.mshr mi).line_addr 8) _ (λ r.
          idle-IsPlaced s m.ooo (release (some mi) s m.ooo) hs v c p
            (release-Quiet (some mi) s m.ooo)))

  start_miss-Placed : (addr lat : ℕ) (m : Machine S) → Placed m → Placed (start_miss addr lat s m)
  unfolding start_miss
  start_miss-Placed addr lat m p =
      allocated (mshr_find_or_alloc m.ooo.mshr (addr - addr % 64) lat).0
    where
      allocated :
          (mi : Option ℕ)
          → Placed (elim mi [
            | none ↦ m
            | some i ↦ with_ooo m (λ o.
                set_lsu s
                  (at i)
                  (record o { mshr = (mshr_find_or_alloc m.ooo.mshr (addr - addr % 64) lat).1 }))
          ])
      allocated none = p
      allocated (some j) = λ i hi. set_lsu-places s (at j) m.ooo i hs refl ∙ p i hi

  start_load-Placed :
      (ir : IrInst) (m : Machine S) → Holds s m.ooo → Placed m → Post Placed (start_load vm ir s m)
  unfolding start_load
  start_load-Placed ir m h p =
      if-cases (Post Placed) (leb 0xa000_0000 ir.mem_addr)
        (λ e.
          if-cases (Post Placed) ((m.ooo.latch_lsu s).rob_idx == m.ooo.rob_head)
            (λ f. do_fill-Placed none m h p)
            (λ f i hi. set_lsu-places s (count_down (negsuc 1)) m.ooo i hs refl ∙ p i hi))
        (λ e.
          if-cases (Post Placed) (level_to_lat (vm.vaddr_probe_level m.mem ir.mem_addr).0 == 1)
            (λ f. do_fill-Placed none probed h p)
            (λ f.
              start_miss-Placed ir.mem_addr
                (level_to_lat (vm.vaddr_probe_level m.mem ir.mem_addr).0) probed p))
    where
      probed : Machine S
      probed = record m { mem = (vm.vaddr_probe_level m.mem ir.mem_addr).1 }

  finish_store-IsPlaced :
      (ir : IrInst) (o : Ooo) → Holds s o → IsPlaced o → IsPlaced (finish_store ir s o)
  unfolding finish_store
  finish_store-IsPlaced ir o h p =
      ended s o (set_rob (o.latch_lsu s).rob_idx keep o) hs h p refl (λ i. refl)
        (λ i. done_due keep (λ e. refl) (o.latch_lsu s).rob_idx o i)
    where
      keep : RobEntry → RobEntry
      keep e = record e { store_data = ir.src2_val; ready = true }

  first_visit-Placed : (m : Machine S) → Holds s m.ooo → Placed m → Post Placed (first_visit vm s m)
  unfolding first_visit
  first_visit-Placed m h p =
      Post-then Placed (ir_execute (with_operands (m.ooo.rob l.rob_idx).ir l) m.sim) _ (λ r.
        let m' = record m { sim = r.1; ooo = set_rob l.rob_idx (store_ir r.0) m.ooo } in
        let p' = stored r.0 in
        if-cases (Post Placed) (is_store r.0.type) (λ e. finish_store-IsPlaced r.0 m'.ooo h p')
          (λ e. start_load-Placed r.0 m' h p'))
    where
      l : Latch
      l = m.ooo.latch_lsu s

      stored : (ir : IrInst) → IsPlaced (set_rob l.rob_idx (store_ir ir) m.ooo)
      stored ir i hi =
          p i hi
          ∙ ap to_int (sym (same_due (store_ir ir) (λ e. refl) (λ e. refl) l.rob_idx m.ooo i))

  lsu_visit-Placed :
      (mi : Option ℕ) (n : ℤ) (m : Machine S)
      → Holds s m.ooo
      → Placed m
      → Post Placed (lsu_visit vm mi n s m)
  unfolding lsu_visit
  lsu_visit-Placed none (negsuc zero) m h p = first_visit-Placed m h p
  lsu_visit-Placed none (negsuc (suc zero)) m h p =
      if-cases (Post Placed) ((m.ooo.latch_lsu s).rob_idx == m.ooo.rob_head)
        (λ e. do_fill-Placed none m h p) (λ e. p)
  lsu_visit-Placed none (negsuc (suc (suc n))) m h p = do_fill-Placed none m h p
  lsu_visit-Placed none (pos n) m h p = do_fill-Placed none m h p
  lsu_visit-Placed (some mi) n m h p =
      if-cases (Post Placed) (ltb 0 (m.ooo.mshr mi).cycles_rem) (λ e. p)
        (λ e. do_fill-Placed (some mi) m h p)

  lsu_slot-Placed : (m : Machine S) → Placed m → Post Placed (lsu_slot vm s m)
  unfolding lsu_slot
  lsu_slot-Placed m p =
      if-cases (Post Placed) (not l.valid) (λ e. p)
        (λ e.
          if-cases (Post Placed) (not (m.ooo.rob l.rob_idx).valid || l.flushed)
            (λ f. drop_fill-Placed l.mshr_idx m (ground arith) f p)
            (λ f. lsu_visit-Placed l.mshr_idx l.cycles_rem m (ground arith, ground arith) p))
    where
      l : Latch
      l = m.ooo.latch_lsu s

module _ {S : Type 0} (vm : VirtualMemory S) where
  pub ooo_unit_lsu-Placed : (m : Machine S) → Placed m → Post Placed (ooo_unit_lsu vm m)
  unfolding ooo_unit_lsu
  ooo_unit_lsu-Placed m p =
      Post-bind Placed Placed (lsu_slot vm 0 m) _ (lsu_slot-Placed vm 0 (omega arith) m p)
        (λ m' k. lsu_slot-Placed vm 1 (omega arith) m' k)
