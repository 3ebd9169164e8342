-- ===== src/Cpu/Pipeline/Stages.antt =====
-- The five stages of src/cpu/pipeline.c. The differential test in `stage_WB` compares and prints;
-- it is not modelled.
use sustemu.Base.{
  ℕ, zero, suc, ◌+◌, ◌-◌, ◌%◌, ◌^◌, Bool, true, false, Option, some, none, ltb, ◌==◌, if◌then◌else◌,
  ◌&&◌, ◌||◌, not, ◌>>=◌,
}
use sustemu.Word.{add64}
use sustemu.Cpu.Csr.Table.{fail}
use sustemu.Cpu.Ir.Inst
use sustemu.Cpu.Ir.Inst.{IrInst, IrInstType}
use sustemu.Cpu.Ir.Decode.{ir_decode}
use sustemu.Cpu.Ir.Exec.{Sim, is_reg, ir_execute, ir_writeback}
use sustemu.Cpu.Ir.MemAccess.{ir_mem_access}
use sustemu.Cpu.Bpred.Model.{bpred_predict, bpred_update}
use sustemu.Cpu.Ooo.State.{PipeReg}
use sustemu.Cpu.Ooo.Cycle.{is_control_raw}
use sustemu.Cpu.Pipeline.State.{Pipeline, Core, drop, hold, with_pipe, with_stats, latch, set_latch}
use sustemu.Memory.Vmem.{VirtualMemory}

abbrev pub is_load : IrInstType → Bool
is_load Inst.itype_load = true
is_load t = false

-- `INV`: the run aborts, with a bad status.
abbrev pub inv : Sim → Sim
inv s = record s { hart = fail s.hart }

-- `a > 0 && a == b` for register numbers that may be -1
abbrev pub same_reg : Option ℕ → Option ℕ → Bool
same_reg none b = false
same_reg (some zero) b = false
same_reg (some (suc r)) b = is_reg b (suc r)

abbrev pub jump : ℕ → Pipeline → Pipeline
jump pc q = record q { fetch_pc = pc }

-- The register that `rs` names, unless it is register 0 or none
abbrev pub reread : (ℕ → ℕ) → Option ℕ → ℕ → ℕ
reread gpr none v = v
reread gpr (some zero) v = v
reread gpr (some (suc r)) v = gpr (suc r)

unfoldable pub read_registers : (ℕ → ℕ) → IrInst → IrInst
read_registers gpr ir = record ir {
  src1_val = reread gpr ir.rs1 ir.src1_val;
  src2_val = reread gpr ir.rs2 ir.src2_val;
}

-- One forwarding path: the result of an older instruction replaces the operands that it writes.
unfoldable pub forward : Bool → IrInst → IrInst → IrInst
forward on older ir = record ir {
  src1_val = if on && same_reg older.rd ir.rs1 then older.result else ir.src1_val;
  src2_val = if on && same_reg older.rd ir.rs2 then older.result else ir.src2_val;
}

-- The load in EX writes a register that the instruction in ID reads.
unfoldable pub load_use : PipeReg → IrInst → Bool
load_use ex ir =
    ex.valid && (is_load ex.ir.type && (same_reg ex.ir.rd ir.rs1 || same_reg ex.ir.rd ir.rs2))

-- The operands of the instruction in ID: the register file, then the older result, then the newer
unfoldable pub operands : PipeReg → PipeReg → (ℕ → ℕ) → IrInst → IrInst
operands mem ex gpr ir =
    forward (ex.valid && not (is_load ex.ir.type)) ex.ir
      (forward mem.valid mem.ir (read_registers gpr ir))

abbrev pub fetched : IrInst → Bool → ℕ → PipeReg → PipeReg
fetched ir taken pc r = record {
  ir = record ir { bp_predict_taken = taken; bp_predicted_pc = pc };
  valid = true;
}

module _ {S : Type 0} where
  unfoldable pub stage_wb : Core S → Core S
  stage_wb c =
      let l = latch c c.cpu_pipe.wb in
      if not l.valid
      then c
      else (let cpu = ir_writeback l.ir c.cpu in
          with_stats (λ st. record st { insts = st.insts + 1 })
            (set_latch c.cpu_pipe.wb drop (record c { cpu = record cpu { pc = l.ir.dnpc } })))

  -- A load that missed level 1 freezes the pipeline for the rest of its latency.
  unfoldable pub stall_miss : ℕ → IrInst → Core S → Core S
  stall_miss lat ir c =
      if ltb 1 lat && is_load ir.type
      then with_stats (λ st. record st { stall_cache_miss = st.stall_cache_miss + (lat - 1) })
          (with_pipe (λ q. record q { mem_stall_rem = lat - 1 }) c)
      else c

  -- The wrong path leaves ID and the fetch slot.
  unfoldable pub flush : ℕ → Core S → Core S
  flush pc c = with_pipe (jump pc) (set_latch c.g_fetch_slot drop (set_latch c.cpu_pipe.id drop c))

  -- The instruction in EX has gone elsewhere than fetched.
  unfoldable pub redirect : Bool → IrInst → Core S → Core S
  redirect bpred_mode ir c =
      if bpred_mode
      then (let c' =
            if is_control_raw ir.raw then record c { bpred = bpred_update c.bpred ir } else c in
          if ir.dnpc == ir.bp_predicted_pc then c' else flush ir.dnpc c')
      else if ir.dnpc == ir.snpc
      then c
      else with_stats (λ st. record st { stall_control = st.stall_control + 1 }) (flush ir.dnpc c)

  unfoldable pub stage_ex : Bool → Core S → Option (Core S)
  stage_ex bpred_mode c =
      let l = latch c c.cpu_pipe.ex in
      if not l.valid
      then some c
      else (ir_execute l.ir c.sim >>= λ r.
          let sim = if r.0.fault then inv r.1 else r.1 in
          some
            (redirect bpred_mode r.0 (set_latch c.cpu_pipe.ex (hold r.0) (record c { sim = sim }))))

  unfoldable pub stage_id : Core S → Core S
  stage_id c =
      let l = latch c c.cpu_pipe.id in
      let ex = latch c c.cpu_pipe.ex in
      if not l.valid
      then c
      else if load_use ex l.ir
      then record (with_stats (λ st. record st { stall_load_use = st.stall_load_use + 1 })
          (set_latch c.cpu_pipe.id (hold (read_registers c.cpu.gpr l.ir)) c)) {
            g_pipe_stalled = true;
          }
      else set_latch c.cpu_pipe.id (hold (operands (latch c c.cpu_pipe.mem) ex c.cpu.gpr l.ir)) c

  -- The fetched instruction with its prediction, and where the fetch goes on
  unfoldable pub predict_next : Bool → ℕ → ℕ → IrInst → Core S → Core S
  predict_next bpred_mode pc raw ir c =
      if bpred_mode && is_control_raw raw
      then (let (r, b) = bpred_predict c.bpred pc raw in
          let next = if r.taken && r.btb_hit then r.target else add64 pc 4 in
          with_pipe (jump next)
            (set_latch c.g_fetch_slot (fetched ir r.taken next) (record c { bpred = b })))
      else with_pipe (jump (add64 pc 4))
          (set_latch c.g_fetch_slot (fetched ir false (add64 pc 4)) c)

module _ {S : Type 0} (vm : VirtualMemory S) where
  unfoldable pub stage_mem : Core S → Option (Core S)
  stage_mem c =
      let l = latch c c.cpu_pipe.mem in
      if not l.valid
      then some c
      else (ir_mem_access vm true l.ir c.vmem >>= λ r.
          some (stall_miss r.1 r.0 (set_latch c.cpu_pipe.mem (hold r.0) (record c { vmem = r.2 }))))

  unfoldable pub stage_if : Bool → Core S → Option (Core S)
  stage_if bpred_mode c =
      if c.g_pipe_stalled
      then some c
      else (let pc = c.cpu_pipe.fetch_pc in
          vm.vaddr_ifetch c.vmem pc 4 >>= λ r.
          let raw = r.0 % 2 ^ 32 in
          let ir = ir_decode c.cpu raw pc (add64 pc 4) (latch c c.g_fetch_slot).ir in
          some (predict_next bpred_mode pc raw ir (record c { vmem = r.1 })))
