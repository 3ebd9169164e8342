-- ===== src/Cpu/Ooo/Names/Loading.antt =====
-- The load/store units leave renaming alone.
use sustemu.Base.{
  Post, Post-bind, ℕ, zero, suc, ◌-◌, ◌%◌, ◌^◌, ◌≡◌, refl, ◌∙◌, true, Option, none, some, ◌==◌, ltb,
  leb, not, ◌&&◌, ◌||◌, ◌>>=◌, if-cases,
}
use sustemu.Base.Int.{ℤ, pos, negsuc}
use sustemu.Cpu.Ir.Inst.{IrInst}
use sustemu.Cpu.Ir.Exec.{ir_execute, Sim}
use sustemu.Cpu.Ooo.State.{Ooo, Latch}
use sustemu.Cpu.Ooo.Wake.{cdb_broadcast}
use sustemu.Cpu.Ooo.Mshr.{mshr_find_or_alloc}
use sustemu.Cpu.Ooo.Machine.{Machine, with_ooo, set_rob, store_ir, complete, write_phys}
use sustemu.Cpu.Ooo.Units.{set_fault, with_operands}
use sustemu.Cpu.Ooo.Commit.{is_store}
use sustemu.Cpu.Ooo.Lsu.{
  set_lsu, set_result, release, still_used, load_fault, load_done, load_value, do_fill, drop_fill,
  start_miss, start_load, finish_store, first_visit, lsu_visit, lsu_slot, ooo_unit_lsu,
  level_to_lat, at,
}
use sustemu.Cpu.Ooo.Names.Frame.{front, front-set_rob, front-cdb_broadcast}
use sustemu.Cpu.Ooo.Names.Retiring.{Good, any}
use sustemu.Cpu.Ooo.Names.Executing.{SameFront, Good-same}
use sustemu.Memory.Vmem.{VirtualMemory, is_cached}

front-set_result : (v i : ℕ) (o : Ooo) → front (set_rob i (set_result v) o) ≡ front o
front-set_result v i o = front-set_rob (set_result v) (λ e. refl) (λ e. refl) i o

front-complete : (i : ℕ) (o : Ooo) → front (set_rob i complete o) ≡ front o
front-complete i o = front-set_rob complete (λ e. refl) (λ e. refl) i o

front-release : (mi : Option ℕ) (s : ℕ) (o : Ooo) → front (release mi s o) ≡ front o
unfolding release
front-release none s o = refl
front-release (some mi) s o =
    if-cases (λ o'. front o' ≡ front o) (still_used o s mi) (λ e. refl) (λ e. refl)

front-load_fault : (s : ℕ) (l : Latch) (o : Ooo) → front (load_fault s l o) ≡ front o
unfolding load_fault cdb_broadcast
front-load_fault s l o = given l.phys_rd
  where
    marked : Ooo
    marked = set_rob l.rob_idx (set_result 0) (set_rob l.rob_idx set_fault o)

    quiet : front marked ≡ front o
    quiet =
        front-set_result 0 l.rob_idx (set_rob l.rob_idx set_fault o)
        ∙ front-set_rob set_fault (λ e. refl) (λ e. refl) l.rob_idx o

    given : (p : Option ℕ) → front (load_fault s (record l { phys_rd = p }) o) ≡ front o
    given none = front-complete l.rob_idx marked ∙ quiet
    given (some zero) = front-complete l.rob_idx marked ∙ quiet
    given (some (suc r)) =
        front-complete l.rob_idx (cdb_broadcast (suc r) (write_phys (suc r) 0 marked))
        ∙ front-cdb_broadcast (suc r) (write_phys (suc r) 0 marked)
        ∙ quiet

front-load_done :
    (p : Option ℕ) (i s v : ℕ) (o : Ooo) → Post (λ o'. front o' ≡ front o) (load_done p i s v o)
unfolding load_done
front-load_done none i s v o = tt
front-load_done (some r) i s v o =
    front-set_result v i (set_rob i complete (cdb_broadcast r (write_phys r v o)))
    ∙ front-complete i (cdb_broadcast r (write_phys r v o))
    ∙ front-cdb_broadcast r (write_phys r v o)

front-finish_store : (ir : IrInst) (s : ℕ) (o : Ooo) → front (finish_store ir s o) ≡ front o
unfolding finish_store
front-finish_store ir s o =
    front-set_rob (λ e. record e { store_data = ir.src2_val; ready = true }) (λ e. refl) (λ e. refl)
      (o.latch_lsu s).rob_idx o

module _ {S : Type 0} (vm : VirtualMemory S) where
  do_fill-front : (mi : Option ℕ) (s : ℕ) (m : Machine S) → Post (SameFront m) (do_fill vm mi s m)
  unfolding do_fill
  do_fill-front mi s m =
      if-cases (Post (SameFront m))
        (not (is_cached (ir.mem_addr % 2 ^ 32)) && not (leb 0xa000_0000 (ir.mem_addr % 2 ^ 32)))
        (λ e. front-load_fault s l m.ooo)
        (λ e.
          Post-bind (λ x. Unit {0}) (SameFront m)
            (vm.vaddr_fill_and_read m.mem ir.mem_addr ir.mem_width) _ (any _) filled)
    where
      l : Latch
      l = m.ooo.latch_lsu s

      ir : IrInst
      ir = (m.ooo.rob l.rob_idx).ir

      filled :
          (r : ℕ × S)
          → Unit {0}
          → Post (SameFront m) (
              load_done l.phys_rd l.rob_idx s (load_value m.ooo l.rob_idx ir r.0) (
                release mi s
                  (set_rob l.rob_idx (set_result (load_value m.ooo l.rob_idx ir r.0)) m.ooo))
              >>= λ o. some (record m { mem = r.1; ooo = o }))
      filled r u =
          let v = load_value m.ooo l.rob_idx ir r.0 in
          let o' = set_rob l.rob_idx (set_result v) m.ooo in
          Post-bind (λ o''. front o'' ≡ front (release mi s o')) (SameFront m)
            (load_done l.phys_rd l.rob_idx s v (release mi s o')) _
            (front-load_done l.phys_rd l.rob_idx s v (release mi s o'))
            (λ o'' e. e ∙ front-release mi s o' ∙ front-set_result v l.rob_idx m.ooo)

  drop_fill-front :
      (mi : Option ℕ) (s : ℕ) (m : Machine S) → Post (SameFront m) (drop_fill vm mi s m)
  unfolding drop_fill
  drop_fill-front none s m = refl
  drop_fill-front (some mi) s m =
      if-cases (Post (SameFront m)) (ltb 0 (m.ooo.mshr mi).cycles_rem) (λ e. refl)
        (λ e.
          Post-bind (λ x. Unit {0}) (SameFront m)
            (vm.vaddr_fill_and_read m.mem (m.ooo.mshr mi).line_addr 8) _ (any _)
            (λ r u. front-release (some mi) s m.ooo))

  start_miss-front : (addr lat s : ℕ) (m : Machine S) → SameFront m (start_miss addr lat s m)
  unfolding start_miss
  start_miss-front addr lat s m = allocated (mshr_find_or_alloc m.ooo.mshr (addr - addr % 64) lat).0
    where
      allocated :
          (mi : Option ℕ)
          → SameFront m (elim mi [
            | none ↦ m
            | some i ↦ with_ooo m (λ o.
                set_lsu s
                  (at i)
                  (record o { mshr = (mshr_find_or_alloc m.ooo.mshr (addr - addr % 64) lat).1 }))
          ])
      allocated none = refl
      allocated (some i) = refl

  start_load-front :
      (ir : IrInst) (s : ℕ) (m : Machine S) → Post (SameFront m) (start_load vm ir s m)
  unfolding start_load
  start_load-front ir s m =
      if-cases (Post (SameFront m)) (leb 0xa000_0000 ir.mem_addr)
        (λ e.
          if-cases (Post (SameFront m)) ((m.ooo.latch_lsu s).rob_idx == m.ooo.rob_head)
            (λ f. do_fill-front none s m) (λ f. refl))
        (λ e.
          if-cases (Post (SameFront m))
            (level_to_lat (vm.vaddr_probe_level m.mem ir.mem_addr).0 == 1)
            (λ f. do_fill-front none s probed)
            (λ f.
              start_miss-front ir.mem_addr (level_to_lat (vm.vaddr_probe_level m.mem ir.mem_addr).0)
                s probed))
    where
      probed : Machine S
      probed = record m { mem = (vm.vaddr_probe_level m.mem ir.mem_addr).1 }

  first_visit-front : (s : ℕ) (m : Machine S) → Post (SameFront m) (first_visit vm s m)
  unfolding first_visit
  first_visit-front s m =
      Post-bind (λ x. Unit {0}) (SameFront m)
        (ir_execute (with_operands (m.ooo.rob l.rob_idx).ir l) m.sim) _ (any _)
        (λ r u.
          if-cases (Post (SameFront m)) (is_store r.0.type)
            (λ e. front-finish_store r.0 s (after r).ooo ∙ quiet r)
            (λ e.
              Post-weaken (after r) (quiet r) (start_load vm r.0 s (after r))
                (start_load-front r.0 s (after r))))
    where
      l : Latch
      l = m.ooo.latch_lsu s

      after : IrInst × Sim → Machine S
      after r = record m { sim = r.1; ooo = set_rob l.rob_idx (store_ir r.0) m.ooo }

      quiet : (r : IrInst × Sim) → SameFront m (after r)
      quiet r = front-set_rob (store_ir r.0) (λ e. refl) (λ e. refl) l.rob_idx m.ooo

      Post-weaken :
          (m' : Machine S)
          → SameFront m m'
          → (r : Option (Machine S)) → Post (SameFront m') r
          → Post (SameFront m) r
      Post-weaken m' e none p = tt
      Post-weaken m' e (some x) p = p ∙ e

  lsu_visit-front :
      (mi : Option ℕ) (n : ℤ) (s : ℕ) (m : Machine S) → Post (SameFront m) (lsu_visit vm mi n s m)
  unfolding lsu_visit
  lsu_visit-front none (negsuc zero) s m = first_visit-front s m
  lsu_visit-front none (negsuc (suc zero)) s m =
      if-cases (Post (SameFront m)) ((m.ooo.latch_lsu s).rob_idx == m.ooo.rob_head)
        (λ e. do_fill-front none s m) (λ e. refl)
  lsu_visit-front none (negsuc (suc (suc n))) s m = do_fill-front none s m
  lsu_visit-front none (pos n) s m = do_fill-front none s m
  lsu_visit-front (some mi) n s m =
      if-cases (Post (SameFront m)) (ltb 0 (m.ooo.mshr mi).cycles_rem) (λ e. refl)
        (λ e. do_fill-front (some mi) s m)

  lsu_slot-front : (s : ℕ) (m : Machine S) → Post (SameFront m) (lsu_slot vm s m)
  unfolding lsu_slot
  lsu_slot-front s m =
      if-cases (Post (SameFront m)) (not l.valid) (λ e. refl)
        (λ e.
          if-cases (Post (SameFront m)) (not (m.ooo.rob l.rob_idx).valid || l.flushed)
            (λ f. drop_fill-front l.mshr_idx s m)
            (λ f. lsu_visit-front l.mshr_idx l.cycles_rem s m))
    where
      l : Latch
      l = m.ooo.latch_lsu s

  pub ooo_unit_lsu-Good : (m : Machine S) → Good m → Post Good (ooo_unit_lsu vm m)
  unfolding ooo_unit_lsu
  ooo_unit_lsu-Good m g =
      Post-bind (SameFront m) Good (lsu_slot vm 0 m) _ (lsu_slot-front 0 m)
        (λ m' e. made_good m' (Good-same m m' g e) (lsu_slot vm 1 m') (lsu_slot-front 1 m'))
    where
      made_good :
          (m' : Machine S)
          → Good m'
          → (r : Option (Machine S)) → Post (SameFront m') r
          → Post Good r
      made_good m' h none p = tt
      made_good m' h (some x) p = Good-same m' x h p
