-- ===== src/Cpu/Pipeline/State.antt =====
-- The state of include/cpu/pipeline.h and the globals that a cycle reads and writes. A latch is
-- named by the slot that its pointer points to.
use sustemu.Base.{ℕ, Bool, false, update}
use sustemu.Cpu.State.{CpuState}
use sustemu.Cpu.Ir.Inst.{IrInst}
use sustemu.Cpu.Ir.Exec.{Sim}
use sustemu.Cpu.Bpred.Model.{BranchPredictor}
use sustemu.Cpu.Ooo.State.{PipeReg}

pub record Pipeline : Type 0 where
  pub id : ℕ
  pub ex : ℕ
  pub mem : ℕ
  pub wb : ℕ
  pub slots : ℕ → PipeReg
  pub fetch_pc : ℕ
  pub mem_stall_rem : ℕ

pub record PipeStats : Type 0 where
  pub cycles : ℕ
  pub insts : ℕ
  pub stall_load_use : ℕ
  pub stall_control : ℕ
  pub stall_cache_miss : ℕ

-- `cpu_pipe`, `pipe_stats`, `cpu`, the globals of the executors, the memory, `bpred`, and the two
-- globals of a cycle. `g_pipe_rotated`, which stays 0, is left out.
pub record Core (S : Type 0) : Type 0 where
  pub cpu_pipe : Pipeline
  pub pipe_stats : PipeStats
  pub cpu : CpuState
  pub sim : Sim
  pub vmem : S
  pub bpred : BranchPredictor
  pub g_pipe_stalled : Bool
  pub g_fetch_slot : ℕ

abbrev pub drop : PipeReg → PipeReg
drop r = record r { valid = false }

abbrev pub hold : IrInst → PipeReg → PipeReg
hold ir r = record r { ir = ir }

module _ {S : Type 0} where
  abbrev pub with_pipe : (Pipeline → Pipeline) → Core S → Core S
  with_pipe f c = record c { cpu_pipe = f c.cpu_pipe }

  abbrev pub with_stats : (PipeStats → PipeStats) → Core S → Core S
  with_stats f c = record c { pipe_stats = f c.pipe_stats }

  -- The latch behind a pointer
  abbrev pub latch : Core S → ℕ → PipeReg
  latch c p = c.cpu_pipe.slots p

  -- `*p = f(*p)`
  abbrev pub set_latch : ℕ → (PipeReg → PipeReg) → Core S → Core S
  set_latch p f = with_pipe (λ q. record q { slots = update q.slots p (f (q.slots p)) })
