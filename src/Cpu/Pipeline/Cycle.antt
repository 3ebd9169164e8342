-- ===== src/Cpu/Pipeline/Cycle.antt =====
-- `pipeline_init` and `pipeline_cycle` of src/cpu/pipeline.c. The trace of a cycle only prints.
use sustemu.Base.{ℕ, zero, suc, ◌+◌, Bool, false, Option, some, ltb, if◌then◌else◌, ◌>>=◌}
use sustemu.Word.{add64}
use sustemu.Cpu.Csr.Table.{Hart}
use sustemu.Cpu.Ir.Exec.{Sim}
use sustemu.Cpu.Bpred.Model.{bpred_init}
use sustemu.Cpu.Pipeline.State.{Pipeline, PipeStats, Core, drop, with_pipe, with_stats}
use sustemu.Cpu.Pipeline.Stages.{stage_wb, stage_mem, stage_ex, stage_id, stage_if}
use sustemu.Memory.Vmem.{VirtualMemory}

abbrev no_stats : PipeStats
no_stats = record {
  cycles = 0;
  insts = 0;
  stall_load_use = 0;
  stall_control = 0;
  stall_cache_miss = 0;
}

module _ {S : Type 0} where
  unfoldable pub pipeline_init : Bool → Core S → Core S
  pipeline_init bpred_mode c = record c {
    cpu_pipe = record q {
      id = 0;
      ex = 1;
      mem = 2;
      wb = 3;
      slots = λ i. if ltb i 4 then drop (q.slots i) else q.slots i;
      fetch_pc = c.cpu.pc;
      mem_stall_rem = 0;
    };
    pipe_stats = no_stats;
    bpred = if bpred_mode then bpred_init else c.bpred;
  }
    where
      q : Pipeline
      q = c.cpu_pipe

  -- The start of a cycle: the slot behind `wb` is the one to fetch into.
  abbrev pub begin : Core S → Core S
  begin c = record c { g_pipe_stalled = false; g_fetch_slot = c.cpu_pipe.wb }

  -- The pointers move on; after a load-use stall ID stays, and EX gets the empty fetch slot.
  unfoldable pub rotate : Core S → Core S
  rotate c =
      if c.g_pipe_stalled
      then with_pipe (λ q. record q { wb = q.mem; mem = q.ex; ex = c.g_fetch_slot }) c
      else with_pipe (λ q. record q { wb = q.mem; mem = q.ex; ex = q.id; id = c.g_fetch_slot }) c

  abbrev count_sim : (ℕ → ℕ) → Core S → Core S
  count_sim instret c = record c {
    sim = record sim {
      hart = record h { sim_cycles = add64 h.sim_cycles 1; sim_instret = instret h.sim_instret };
    };
  }
    where
      sim : Sim
      sim = c.sim

      h : Hart
      h = sim.hart

  abbrev pub count_cycle : Core S → Core S
  count_cycle c =
      count_sim (λ n. c.pipe_stats.insts)
        (with_stats (λ st. record st { cycles = st.cycles + 1 }) c)

  -- A cycle in which the pipeline waits for a missed load
  abbrev pub wait : ℕ → Core S → Core S
  wait n c =
      count_sim (λ k. k)
        (with_stats (λ st. record st { cycles = st.cycles + 1 })
          (with_pipe (λ q. record q { mem_stall_rem = n }) c))

module _ {S : Type 0} (vm : VirtualMemory S) where
  -- The stages run from the last to the first.
  unfoldable pub advance : Bool → Core S → Option (Core S)
  advance bpred_mode c = do
    c₁ ← stage_mem vm (stage_wb (begin c))
    c₂ ← stage_ex bpred_mode c₁
    c₃ ← stage_if vm bpred_mode (stage_id c₂)
    some (rotate c₃)

  unfoldable pub cycle_with : Bool → ℕ → Core S → Option (Core S)
  cycle_with bpred_mode zero c = advance bpred_mode c >>= λ c'. some (count_cycle c')
  cycle_with bpred_mode (suc n) c = some (wait n c)

  unfoldable pub pipeline_cycle : Bool → Core S → Option (Core S)
  pipeline_cycle bpred_mode c = cycle_with bpred_mode c.cpu_pipe.mem_stall_rem c
