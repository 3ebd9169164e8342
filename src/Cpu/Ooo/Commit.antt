-- ===== src/Cpu/Ooo/Commit.antt =====
-- `ooo_stage_commit` and `ooo_drain_store_buf`. The trace and the differential test of a commit are
-- not modelled.
use sustemu.Base.{
  ℕ, zero, suc, ◌+◌, ◌-◌, ◌%◌, Bool, true, false, Option, none, some, ◌==◌, if◌then◌else◌, ◌&&◌,
  ◌||◌, not, leb, ltb, update, ◌>>=◌,
}
use sustemu.Cpu.State.{CpuState}
use sustemu.Cpu.Ir.Inst
use sustemu.Cpu.Ir.Inst.{IrInstType}
use sustemu.Cpu.Ooo.State.{Ooo, RobEntry, Stats, rob_size, store_buf_size, lat_l2_hit}
use sustemu.Cpu.Ooo.Rename.{freelist_push}
use sustemu.Cpu.Ooo.Flush.{unready}
use sustemu.Cpu.Ooo.Wake.{is_fence}
use sustemu.Cpu.Ooo.Machine.{Machine, Config, with_ooo}
use sustemu.Memory.Vmem.{VirtualMemory, is_cached}

abbrev pub is_store : IrInstType → Bool
is_store Inst.itype_store = true
is_store t = false

unfoldable pub sbuf_push : ℕ → ℕ → ℕ → Ooo → Ooo
sbuf_push addr v width o = record o {
  sbuf =
      update o.sbuf o.sbuf_tail
        (record { addr = addr; data_word = v; width = width; valid = true });
  sbuf_tail = (o.sbuf_tail + 1) % store_buf_size;
  sbuf_count = o.sbuf_count + 1;
}

-- The registers that a commit makes architectural. An entry that writes a register and has no
-- physical one would index the file at -1.
unfoldable pub retire : Option ℕ → Option ℕ → Option ℕ → CpuState → Ooo → Option (CpuState × Ooo)
unfolding freelist_push
retire none p old cpu o = some (cpu, o)
retire (some zero) p old cpu o = some (cpu, o)
retire (some (suc r)) none old cpu o = none
retire (some (suc r)) (some p) none cpu o = none
retire (some (suc r)) (some p) (some old) cpu o = some (
  record cpu { gpr = update cpu.gpr (suc r) (o.prf p).value },
  record o {
    rrat = update o.rrat (suc r) p;
    prf = update o.prf old (unready (o.prf old));
    freelist = freelist_push o.freelist old;
  },
)

-- The entry leaves the reorder buffer.
abbrev pub pop_rob : RobEntry → Ooo → Ooo
pop_rob e o = record o {
  rob = update o.rob o.rob_head (record e { valid = false });
  rob_head = (o.rob_head + 1) % rob_size;
  rob_count = o.rob_count - 1;
  stats = record st { insts = st.insts + 1 };
}
  where
    st : Stats
    st = o.stats

abbrev pub set_tick : ℕ → Ooo → Ooo
set_tick n o = record o { sbuf_drain_tick = n }

-- Whether the loop goes on after this turn, and the machine
abbrev pub Turn : Type 0 → Type 0
Turn S = Bool × Machine S

module _ {S : Type 0} where
  -- What follows the store: registers, program counter, and the head of the reorder buffer
  unfoldable pub commit_entry : RobEntry → Machine S → Option (Machine S)
  commit_entry e m = retire e.arch_rd e.phys_rd e.old_phys m.cpu m.ooo >>= λ r.
      some (record m {
        cpu = record { gpr = update r.0.gpr 0 0; pc = e.ir.dnpc };
        ooo = pop_rob e r.1;
      })

module _ {S : Type 0} (vm : VirtualMemory S) where
  -- A store enters the store buffer, which may be full, or is written at once when it is not cached.
  unfoldable pub commit_store : RobEntry → Machine S → Option (Turn S)
  unfolding sbuf_push
  commit_store e m =
      if not (is_store e.ir.type)
      then some (true, m)
      else if is_cached e.ir.mem_addr
      then (if leb store_buf_size m.ooo.sbuf_count
          then some (false, m)
          else some (true, with_ooo m (sbuf_push e.ir.mem_addr e.store_data e.ir.mem_width)))
      else (vm.vaddr_write m.mem e.ir.mem_addr e.ir.mem_width e.store_data >>= λ mem.
          some (true, record m { mem = mem }))

  -- One turn of the loop. A faulted instruction that gets here is a panic.
  unfoldable pub commit_one : Machine S → Option (Turn S)
  commit_one m =
      let e = m.ooo.rob m.ooo.rob_head in
      if m.ooo.rob_count == 0
      then some (false, m)
      else if not e.valid || not e.ready
      then some (false, m)
      else if is_fence e.ir.type && ltb 0 m.ooo.sbuf_count
      then some (false, m)
      else if e.ir.fault
      then none
      else (commit_store e m >>= λ t.
          if t.0 then (commit_entry e t.1 >>= λ m'. some (true, m')) else some (false, t.1))

  -- `COMMIT_WIDTH` is 2.
  unfoldable pub ooo_stage_commit : Machine S → Option (Machine S)
  ooo_stage_commit m =
      commit_one m >>= λ t. if t.0 then (commit_one t.1 >>= λ t'. some t'.1) else some t.1

  -- The oldest store of the buffer goes to memory.
  unfoldable pub drain_one : Machine S → Option (Machine S)
  drain_one m =
      let o = m.ooo in
      let e = o.sbuf o.sbuf_head in
      vm.vaddr_write m.mem e.addr e.width e.data_word >>= λ mem. some (record m {
        mem = mem;
        ooo = record o {
          sbuf = update o.sbuf o.sbuf_head (record e { valid = false });
          sbuf_head = (o.sbuf_head + 1) % store_buf_size;
          sbuf_count = o.sbuf_count - 1;
        };
      })

  -- With several cores a store drains every eighth cycle.
  unfoldable pub ooo_drain_store_buf : Config → Machine S → Option (Machine S)
  ooo_drain_store_buf c m =
      if m.ooo.sbuf_count == 0
      then some m
      else if ltb 1 c.num_cores
      then (if ltb 0 m.ooo.sbuf_drain_tick
          then some (with_ooo m (set_tick (m.ooo.sbuf_drain_tick - 1)))
          else drain_one (with_ooo m (set_tick (lat_l2_hit - 1))))
      else drain_one m
