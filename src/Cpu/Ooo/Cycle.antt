-- ===== src/Cpu/Ooo/Cycle.antt =====
-- `ooo_stage_id`, `ooo_stage_if`, `ooo_init` and `ooo_cycle`: the front end, and one clock cycle.
use sustemu.Base.{
  ℕ, zero, suc, ◌+◌, ◌%◌, ◌^◌, Bool, true, false, Option, some, ◌==◌, if◌then◌else◌, ◌&&◌, ◌||◌,
  not, ltb, update, ◌>>=◌,
}
use sustemu.Word.{add64, bits}
use sustemu.Base.Int.{pos}
use sustemu.Cpu.State.{CpuState}
use sustemu.Cpu.Csr.Table.{Hart}
use sustemu.Cpu.Ir.Inst
use sustemu.Cpu.Ir.Inst.{IrInst}
use sustemu.Cpu.Ir.Decode.{ir_decode}
use sustemu.Cpu.Ir.Exec.{Sim}
use sustemu.Cpu.Bpred.Model.{BpredResult, bpred_init, bpred_predict}
use sustemu.Cpu.Bpred.Second.{bpred2_predict}
use sustemu.Cpu.Ooo.State.{Ooo, FreeList, Latch, Stats, eu_int, rs_size, num_phys_regs}
use sustemu.Cpu.Ooo.Rename.{ooo_stage_rn, freelist_push, drop_latch}
use sustemu.Cpu.Ooo.Wake.{ooo_stage_is}
use sustemu.Cpu.Ooo.Mshr.{mshr_tick}
use sustemu.Cpu.Ooo.Machine.{Machine, Config, with_ooo}
use sustemu.Cpu.Ooo.Commit.{ooo_stage_commit, ooo_drain_store_buf, Turn}
use sustemu.Cpu.Ooo.Units.{ooo_unit_int, ooo_unit_mul}
use sustemu.Cpu.Ooo.Lsu.{ooo_unit_lsu}
use sustemu.Memory.Vmem.{VirtualMemory, is_cached}

unfoldable pub ooo_stage_id : Ooo → Ooo
ooo_stage_id o = if not (o.latch_if_id 0).valid || (o.latch_id_rn 0).valid then o else record o {
  latch_id_rn = λ s. if ltb s 2 then o.latch_if_id s else o.latch_id_rn s;
  latch_if_id = λ s. if ltb s 2 then drop_latch (o.latch_if_id s) else o.latch_if_id s;
}

-- Opcode bits 6 to 2 of the branches, `jal` and `jalr`
abbrev pub is_control_raw : ℕ → Bool
is_control_raw raw = bits raw 6 2 == 0x18 || (bits raw 6 2 == 0x1b || bits raw 6 2 == 0x19)

abbrev pub set_fetch : ℕ → Ooo → Ooo
set_fetch pc o = record o { fetch_pc = pc }

abbrev pub set_if : ℕ → IrInst → Ooo → Ooo
set_if s ir o = record o { latch_if_id = update o.latch_if_id s (record { ir = ir; valid = true }) }

module _ {S : Type 0} where
  -- The prediction for a fetched instruction, and the machine after the return stack has changed
  unfoldable pub predict : Config → ℕ → ℕ → Machine S → BpredResult × Machine S
  predict c pc raw m =
      if c.bpred2_mode
      then (bpred2_predict m.bpred2 pc, m)
      else (let (r, b) = bpred_predict m.bpred pc raw in (r, record m { bpred = b }))

  -- A fetched instruction with its prediction: whether the group goes on, and the machine
  unfoldable pub annotate : Config → ℕ → ℕ → ℕ → IrInst → Machine S → Turn S
  annotate c s pc raw ir m =
      if (c.bpred_mode || c.bpred2_mode) && is_control_raw raw
      then (let (r, m') = predict c pc raw m in
          let goes = r.taken && r.btb_hit in
          let ir' = record ir {
            ras_top_snap = m.bpred.ras_top;
            ras_cnt_snap = m.bpred.ras_count;
            bp_predict_taken = r.taken;
            bp_predicted_pc = if goes then r.target else pc + 4;
          } in
          (
            not goes,
            with_ooo m' (λ o. set_fetch (if goes then r.target else pc + 4) (set_if s ir' o)),
          ))
      else (true, with_ooo m (λ o. set_fetch (pc + 4) (set_if s sequential o)))
    where
      sequential : IrInst
      sequential = record ir { bp_predict_taken = false; bp_predicted_pc = pc + 4 }

  -- The counters at the end of a cycle
  unfoldable pub count_cycle : Machine S → Machine S
  count_cycle m = record m { ooo = record o { stats = st' }; sim = record sim { hart = h' } }
    where
      o : Ooo
      o = m.ooo

      sim : Sim
      sim = m.sim

      h : Hart
      h = sim.hart

      st : Stats
      st = o.stats

      st' : Stats
      st' = record st { cycles = st.cycles + 1 }

      h' : Hart
      h' = record h { sim_cycles = add64 h.sim_cycles 1; sim_instret = st.insts }

  abbrev pub tick : Machine S → Machine S
  tick m = with_ooo m (λ o. record o { mshr = mshr_tick o.mshr })

module _ {S : Type 0} (vm : VirtualMemory S) where
  unfoldable pub fetch_slot : Config → ℕ → Machine S → Option (Turn S)
  fetch_slot c s m =
      let pc = m.ooo.fetch_pc % 2 ^ 32 in
      if not (is_cached pc)
      then some (false, with_ooo m (set_fetch (pc + 4)))
      else (vm.vaddr_ifetch m.mem pc 4 >>= λ r.
          let raw = r.0 % 2 ^ 32 in
          some (
            annotate c s pc raw (ir_decode m.cpu raw pc (pc + 4) (m.ooo.latch_if_id s).ir)
              (record m { mem = r.1 })))

  -- `FETCH_WIDTH` is 2.
  unfoldable pub ooo_stage_if : Config → Machine S → Option (Machine S)
  ooo_stage_if c m =
      if (m.ooo.latch_if_id 0).valid
      then some m
      else (fetch_slot c 0 m >>= λ t.
          if t.0 then (fetch_slot c 1 t.1 >>= λ t'. some t'.1) else some t.1)

  -- The stages run from the last to the first, so that each sees the latches of the cycle before.
  unfoldable pub ooo_cycle : Config → Machine S → Option (Machine S)
  ooo_cycle c m₀ = do
    m₁ ← ooo_drain_store_buf vm c m₀
    m₂ ← ooo_stage_commit vm m₁
    m₃ ← ooo_unit_int c (tick m₂)
    m₄ ← ooo_unit_mul m₃
    m₅ ← ooo_unit_lsu vm m₄
    o ← ooo_stage_rn (ooo_stage_is m₅.ooo)
    m₆ ← ooo_stage_if c (record m₅ { ooo = ooo_stage_id o })
    some (count_cycle m₆)

-- `memset` to zero; nothing calls the null function pointer of a blank slot, for which `inv` stands.
abbrev blank_inst : IrInst
blank_inst = record {
  pc = 0;
  snpc = 0;
  raw = 0;
  type = Inst.itype_alu;
  rd = some 0;
  rs1 = some 0;
  rs2 = some 0;
  src1_val = 0;
  src2_val = 0;
  imm = 0;
  mem_addr = 0;
  mem_width = 0;
  mem_sign = false;
  result = 0;
  dnpc = 0;
  taken = false;
  bp_predict_taken = false;
  bp_predicted_pc = 0;
  ras_top_snap = 0;
  ras_cnt_snap = 0;
  serializing = false;
  fault = false;
  phys_rd = some 0;
  rob_idx = some 0;
  cycles_rem = 0;
  exec_fn = Inst.inv;
}

abbrev blank_latch : Latch
blank_latch = record {
  rob_idx = 0;
  phys_rd = some 0;
  valid = false;
  cycles_rem = pos 0;
  mshr_idx = some 0;
  flushed = false;
  src1_val = 0;
  src2_val = 0;
}

-- The loop that frees n registers from register r on
unfoldable pub free_from : ℕ → ℕ → FreeList → FreeList
unfolding freelist_push
free_from zero r f = f
free_from (suc n) r f = free_from n (r + 1) (freelist_push f r)

abbrev no_registers : FreeList
no_registers = record { regs = λ i. 0; head = 0; tail = 0; count = 0 }

-- `ooo_init` on the registers of a core: `memset` to zero, and then what is not zero
unfoldable pub ooo_init : CpuState → Ooo
unfolding free_from
ooo_init cpu = record {
  prf = λ i. record {
    value = if i == 0 then 0 else if ltb i 32 then cpu.gpr i else 0;
    ready = ltb i num_phys_regs;
  };
  rat = λ i. if ltb i 32 then i else 0;
  rrat = λ i. if ltb i 32 then i else 0;
  freelist = free_from 32 32 no_registers;
  rob = λ i. record {
    ir = blank_inst;
    arch_rd = some 0;
    phys_rd = some 0;
    old_phys = some 0;
    store_data = 0;
    ready = false;
    valid = false;
  };
  rob_head = 0;
  rob_tail = 0;
  rob_count = 0;
  rs = λ i. record {
    valid = false;
    phys_rd = some 0;
    rob_idx = 0;
    src1_ready = false;
    src1_val = 0;
    src1_ptag = 0;
    src2_ready = false;
    src2_val = 0;
    src2_ptag = 0;
    eu_type = eu_int;
  };
  unready_store_count = pos 0;
  rs_ready_mask = λ e i. false;
  rs_free_mask = λ i. ltb i rs_size;
  latch_if_id = λ s. record { ir = blank_inst; valid = false };
  latch_id_rn = λ s. record { ir = blank_inst; valid = false };
  latch_int = λ s. blank_latch;
  latch_mul = λ s. blank_latch;
  latch_lsu = λ s. blank_latch;
  mshr = λ i. record { valid = false; line_addr = 0; cycles_rem = 0 };
  fetch_pc = cpu.pc;
  sbuf = λ i. record { addr = 0; data_word = 0; width = 0; valid = false };
  sbuf_head = 0;
  sbuf_tail = 0;
  sbuf_count = 0;
  sbuf_drain_tick = 0;
  stats = record {
    cycles = 0;
    insts = 0;
    rob_full_stalls = 0;
    rs_full_stalls = 0;
    mispred_flushes = 0;
    serializing_stalls = 0;
  };
}

-- `ooo_init` with the predictors that it resets
unfoldable pub init_machine : {S : Type 0} → Config → Machine S → Machine S
init_machine c m = record m {
  ooo = ooo_init m.cpu;
  bpred = if c.bpred_mode then bpred_init else m.bpred;
  bpred2 = if c.bpred2_mode then bpred_init else m.bpred2;
}
