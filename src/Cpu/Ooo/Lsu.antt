-- ===== src/Cpu/Ooo/Lsu.antt =====
-- `ooo_unit_lsu`: address calculation, misses in flight, and loads that take their bytes from stores
-- that are still on their way to memory (`STLF_TRY`).
use sustemu.Base.{
  ℕ, zero, suc, ◌+◌, ◌-◌, ◌*◌, ◌%◌, ◌^◌, Bool, true, false, Option, none, some, ◌==◌, if◌then◌else◌,
  ◌&&◌, ◌||◌, not, leb, ltb, update, ◌>>=◌,
}
use sustemu.Base.Int.{ℤ, pos, negsuc}
use sustemu.Word.{add64, shr64}
use sustemu.Cpu.Ir.Inst.{IrInst}
use sustemu.Cpu.Ir.Exec.{ir_execute, extend_load}
use sustemu.Cpu.Ooo.State.{
  Ooo, RobEntry, StoreBufEntry, MshrEntry, Latch, rob_size, store_buf_size, lat_l1_hit, lat_l2_hit,
  lat_dram,
}
use sustemu.Cpu.Ooo.Rename.{is_store_raw, take_ℤ}
use sustemu.Cpu.Ooo.Flush.{rob_age}
use sustemu.Cpu.Ooo.Wake.{cdb_broadcast}
use sustemu.Cpu.Ooo.Mshr.{mshr_find_or_alloc}
use sustemu.Cpu.Ooo.Machine.{Machine, with_ooo, set_rob, store_ir, complete, write_phys}
use sustemu.Cpu.Ooo.Units.{set_fault, with_operands, idle, count_down}
use sustemu.Cpu.Ooo.Commit.{is_store}
use sustemu.Memory.Vmem.{VirtualMemory, is_cached}

-- A store whose bytes have not reached memory: address, width and data
pub record Pending : Type 0 where
  pub addr : ℕ
  pub width : ℕ
  pub data_word : ℕ

-- `STLF_TRY`: a store that contains the load's bytes gives the result; any other leaves it.
unfoldable pub stlf_try : Pending → ℕ → ℕ → Bool → ℕ → ℕ
unfolding extend_load
stlf_try p la lw sign out =
    if leb p.addr la && leb (add64 la lw) (add64 p.addr p.width)
    then extend_load sign lw (shr64 p.data_word ((la - p.addr) * 8))
    else out

-- The valid entries of the store buffer from slot i on, k of them, the oldest first
unfoldable pub scan_sbuf : ℕ → ℕ → Ooo → ℕ → ℕ → Bool → ℕ → ℕ
unfolding stlf_try
scan_sbuf zero i o la lw sign out = out
scan_sbuf (suc k) i o la lw sign out =
    scan_sbuf k ((i + 1) % store_buf_size) o la lw sign
      (if (o.sbuf i).valid then stlf_try (waiting (o.sbuf i)) la lw sign out else out)
  where
    waiting : StoreBufEntry → Pending
    waiting e = record { addr = e.addr; width = e.width; data_word = e.data_word }

-- The executed stores of the reorder buffer from slot i on, k of them, the oldest first
unfoldable pub scan_rob : ℕ → ℕ → Ooo → ℕ → ℕ → Bool → ℕ → ℕ
unfolding stlf_try
scan_rob zero i o la lw sign out = out
scan_rob (suc k) i o la lw sign out = scan_rob k ((i + 1) % rob_size) o la lw sign (
    if (o.rob i).valid && ((o.rob i).ready && is_store_raw (o.rob i).ir.raw)
    then stlf_try (executed (o.rob i)) la lw sign out
    else out)
  where
    executed : RobEntry → Pending
    executed e = record { addr = e.ir.mem_addr; width = e.ir.mem_width; data_word = e.store_data }

-- The value of a load: the extended word of memory, unless a younger store contains its bytes
unfoldable pub load_value : Ooo → ℕ → IrInst → ℕ → ℕ
unfolding extend_load scan_sbuf scan_rob
load_value o rob_idx ir raw =
    scan_rob (rob_age o rob_idx) o.rob_head o ir.mem_addr ir.mem_width ir.mem_sign (
      scan_sbuf o.sbuf_count o.sbuf_head o ir.mem_addr ir.mem_width ir.mem_sign
        (extend_load ir.mem_sign ir.mem_width raw))

abbrev pub set_lsu : ℕ → (Latch → Latch) → Ooo → Ooo
set_lsu s f o = record o { latch_lsu = update o.latch_lsu s (f (o.latch_lsu s)) }

abbrev pub set_result : ℕ → RobEntry → RobEntry
set_result v e = record e { ir = record ir { result = v } }
  where
    ir : IrInst
    ir = e.ir

-- Whether the other load unit waits for the same miss
abbrev pub still_used : Ooo → ℕ → ℕ → Bool
still_used o s mi = (o.latch_lsu (1 - s)).valid && waits (o.latch_lsu (1 - s)).mshr_idx
  where
    waits : Option ℕ → Bool
    waits none = false
    waits (some i) = i == mi

abbrev free_mshr : MshrEntry → MshrEntry
free_mshr e = record e { valid = false }

unfoldable pub release : Option ℕ → ℕ → Ooo → Ooo
release none s o = o
release (some mi) s o =
    if still_used o s mi then o else record o { mshr = update o.mshr mi (free_mshr (o.mshr mi)) }

abbrev pub at : ℕ → Latch → Latch
at mi l = record l { mshr_idx = some mi; cycles_rem = pos 0 }

-- `level_to_lat`
abbrev pub level_to_lat : ℕ → ℕ
level_to_lat zero = lat_l1_hit
level_to_lat (suc zero) = lat_l2_hit
level_to_lat (suc (suc n)) = lat_dram

-- A load of an address where nothing answers: it is marked, and its register gets 0.
unfoldable pub load_fault : ℕ → Latch → Ooo → Ooo
load_fault s l o = set_lsu s idle (
    set_rob l.rob_idx complete
      (give l.phys_rd (set_rob l.rob_idx (set_result 0) (set_rob l.rob_idx set_fault o))))
  where
    give : Option ℕ → Ooo → Ooo
    give none o' = o'
    give (some zero) o' = o'
    give (some (suc r)) o' = cdb_broadcast (suc r) (write_phys (suc r) 0 o')

-- The write-back of a load. One without a register would index the file at -1.
unfoldable pub load_done : Option ℕ → ℕ → ℕ → ℕ → Ooo → Option Ooo
load_done none rob_idx s v o = none
load_done (some r) rob_idx s v o = some (
    set_lsu s idle (
      set_rob rob_idx (set_result v)
        (set_rob rob_idx complete (cdb_broadcast r (write_phys r v o)))))

-- The data of a store is kept for the commit.
unfoldable pub finish_store : IrInst → ℕ → Ooo → Ooo
finish_store ir s o = set_lsu s idle (counted (set_rob (o.latch_lsu s).rob_idx keep o))
  where
    keep : RobEntry → RobEntry
    keep e = record e { store_data = ir.src2_val; ready = true }

    counted : Ooo → Ooo
    counted o' = record o' { unready_store_count = take_ℤ o'.unready_store_count 1 }

module _ {S : Type 0} where
  -- A load that misses level 1 needs a register of a miss; without one it tries again.
  unfoldable pub start_miss : ℕ → ℕ → ℕ → Machine S → Machine S
  start_miss addr lat s m =
      let (mi, mshr) = mshr_find_or_alloc m.ooo.mshr (addr - addr % 64) lat in
      elim mi [ none ↦ m | some i ↦ with_ooo m (λ o. set_lsu s (at i) (record o { mshr = mshr })) ]

module _ {S : Type 0} (vm : VirtualMemory S) where
  -- `lsu_do_fill`, with the miss that the load waited for
  unfoldable pub do_fill : Option ℕ → ℕ → Machine S → Option (Machine S)
  do_fill mi s m =
      let l = m.ooo.latch_lsu s in
      let ir = (m.ooo.rob l.rob_idx).ir in
      let pa = ir.mem_addr % 2 ^ 32 in
      if not (is_cached pa) && not (leb 0xa000_0000 pa)
      then some (with_ooo m (load_fault s l))
      else (vm.vaddr_fill_and_read m.mem ir.mem_addr ir.mem_width >>= λ r.
          load_done l.phys_rd l.rob_idx s (load_value m.ooo l.rob_idx ir r.0) (
            release mi s (set_rob l.rob_idx (set_result (load_value m.ooo l.rob_idx ir r.0)) m.ooo))
          >>= λ o. some (record m { mem = r.1; ooo = o }))

  -- A load that was flushed while its miss was in flight: the line is filled, nothing is written.
  unfoldable pub drop_fill : Option ℕ → ℕ → Machine S → Option (Machine S)
  drop_fill none s m = some (with_ooo m (set_lsu s idle))
  drop_fill (some mi) s m =
      if ltb 0 (m.ooo.mshr mi).cycles_rem
      then some m
      else (vm.vaddr_fill_and_read m.mem (m.ooo.mshr mi).line_addr 8 >>= λ r.
          some (record m { mem = r.1; ooo = set_lsu s idle (release (some mi) s m.ooo) }))

  unfoldable pub start_load : IrInst → ℕ → Machine S → Option (Machine S)
  start_load ir s m =
      if leb 0xa000_0000 ir.mem_addr
      then (if (m.ooo.latch_lsu s).rob_idx == m.ooo.rob_head
          then do_fill none s m
          else some (with_ooo m (set_lsu s (count_down (negsuc 1)))))
      else (let (level, mem) = vm.vaddr_probe_level m.mem ir.mem_addr in
          let m' = record m { mem = mem } in
          if level_to_lat level == 1
          then do_fill none s m'
          else some (start_miss ir.mem_addr (level_to_lat level) s m'))

  -- The first visit: the address, and then a store is finished and a load starts.
  unfoldable pub first_visit : ℕ → Machine S → Option (Machine S)
  first_visit s m =
      let l = m.ooo.latch_lsu s in
      ir_execute (with_operands (m.ooo.rob l.rob_idx).ir l) m.sim >>= λ r.
      let m' = record m { sim = r.1; ooo = set_rob l.rob_idx (store_ir r.0) m.ooo } in
      if is_store r.0.type then some (with_ooo m' (finish_store r.0 s)) else start_load r.0 s m'

  -- What a latch does in a cycle, by the miss that it waits for and its count
  unfoldable pub lsu_visit : Option ℕ → ℤ → ℕ → Machine S → Option (Machine S)
  lsu_visit none (negsuc zero) s m = first_visit s m
  lsu_visit none (negsuc (suc zero)) s m =
      if (m.ooo.latch_lsu s).rob_idx == m.ooo.rob_head then do_fill none s m else some m
  lsu_visit none (negsuc (suc (suc n))) s m = do_fill none s m
  lsu_visit none (pos n) s m = do_fill none s m
  lsu_visit (some mi) n s m =
      if ltb 0 (m.ooo.mshr mi).cycles_rem then some m else do_fill (some mi) s m

  unfoldable pub lsu_slot : ℕ → Machine S → Option (Machine S)
  lsu_slot s m =
      let l = m.ooo.latch_lsu s in
      if not l.valid
      then some m
      else if not (m.ooo.rob l.rob_idx).valid || l.flushed
      then drop_fill l.mshr_idx s m
      else lsu_visit l.mshr_idx l.cycles_rem s m

  unfoldable pub ooo_unit_lsu : Machine S → Option (Machine S)
  ooo_unit_lsu m = lsu_slot 0 m >>= λ m'. lsu_slot 1 m'
