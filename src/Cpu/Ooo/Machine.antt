-- ===== src/Cpu/Ooo/Machine.antt =====
-- What an engine runs on: the memory that it calls through src/memory/vmem.c, the registers, the
-- predictors, and the globals that the stages read.
use sustemu.Base.{ℕ, zero, suc, Bool, true, Option, none, some, update}
use sustemu.Cpu.State.{CpuState}
use sustemu.Cpu.Ir.Inst.{IrInst}
use sustemu.Cpu.Ir.Exec.{Sim}
use sustemu.Cpu.Bpred.Model.{BranchPredictor}
use sustemu.Cpu.Ooo.State.{Ooo, RobEntry}
use sustemu.Cpu.Ooo.Wake.{cdb_broadcast}

-- `g_bpred_mode`, `g_bpred2_mode` and `g_num_cores`
pub record Config : Type 0 where
  pub bpred_mode : Bool
  pub bpred2_mode : Bool
  pub num_cores : ℕ

pub record Machine (S : Type 0) : Type 0 where
  pub ooo : Ooo
  pub cpu : CpuState
  pub sim : Sim
  pub mem : S
  pub bpred : BranchPredictor
  pub bpred2 : BranchPredictor

module _ {S : Type 0} where
  abbrev pub with_ooo : Machine S → (Ooo → Ooo) → Machine S
  with_ooo m f = record m { ooo = f m.ooo }

-- `prf[r].value = v; prf[r].ready = 1;`
abbrev pub write_phys : ℕ → ℕ → Ooo → Ooo
write_phys r v o = record o { prf = update o.prf r (record { value = v; ready = true }) }

-- `rob[i] = f(rob[i])`
abbrev pub set_rob : ℕ → (RobEntry → RobEntry) → Ooo → Ooo
set_rob i f o = record o { rob = update o.rob i (f (o.rob i)) }

abbrev pub store_ir : IrInst → RobEntry → RobEntry
store_ir ir e = record e { ir = ir }

abbrev pub complete : RobEntry → RobEntry
complete e = record e { ready = true }

-- The result of an instruction reaches its register, when it has one, and whoever waits for it.
unfoldable pub write_result : Option ℕ → ℕ → Ooo → Ooo
write_result none v o = o
write_result (some zero) v o = write_phys 0 v o
write_result (some (suc r)) v o = cdb_broadcast (suc r) (write_phys (suc r) v o)
