-- ===== src/Cpu/Ooo/State.antt =====
-- The state of include/cpu/ooo.h. An `int` that is -1 for "none" is an `Option`, a bit mask is the
-- function of its bits, and the counters of `OOOStats` stand with the state.
use sustemu.Base.{ℕ, Bool, true, false, Option}
use sustemu.Base.Int.{ℤ}
use sustemu.Cpu.Ir.Inst.{IrInst}

-- The numbers of include/cpu/exec_cfg.h and include/cpu/ooo.h
abbrev pub num_phys_regs : ℕ
num_phys_regs = 64

abbrev pub free_list_size : ℕ
free_list_size = 64

abbrev pub rob_size : ℕ
rob_size = 32

abbrev pub rs_size : ℕ
rs_size = 16

abbrev pub mshr_size : ℕ
mshr_size = 8

abbrev pub store_buf_size : ℕ
store_buf_size = 16

abbrev pub lat_int_mul : ℕ
lat_int_mul = 3

abbrev pub lat_int_div : ℕ
lat_int_div = 20

abbrev pub lat_l1_hit : ℕ
lat_l1_hit = 1

abbrev pub lat_l2_hit : ℕ
lat_l2_hit = 8

abbrev pub lat_dram : ℕ
lat_dram = 40

-- `EU_INT`, `EU_MUL` and `EU_LSU`
pub data EuType : Type 0 where
  eu_int eu_mul eu_lsu : EuType

abbrev pub eu_eq : EuType → EuType → Bool
eu_eq eu_int eu_int = true
eu_eq eu_mul eu_mul = true
eu_eq eu_lsu eu_lsu = true
eu_eq a b = false

pub record PhysReg : Type 0 where
  pub value : ℕ
  pub ready : Bool

-- A circular queue of register numbers
pub record FreeList : Type 0 where
  pub regs : ℕ → ℕ
  pub head : ℕ
  pub tail : ℕ
  pub count : ℕ

pub record RobEntry : Type 0 where
  pub ir : IrInst
  pub arch_rd : Option ℕ
  pub phys_rd : Option ℕ
  pub old_phys : Option ℕ
  pub store_data : ℕ
  pub ready : Bool
  pub valid : Bool

-- The field `cycles_rem`, which nothing uses, is left out.
pub record RsEntry : Type 0 where
  pub valid : Bool
  pub phys_rd : Option ℕ
  pub rob_idx : ℕ
  pub src1_ready : Bool
  pub src1_val : ℕ
  pub src1_ptag : ℕ
  pub src2_ready : Bool
  pub src2_val : ℕ
  pub src2_ptag : ℕ
  pub eu_type : EuType

pub record MshrEntry : Type 0 where
  pub valid : Bool
  pub line_addr : ℕ
  pub cycles_rem : ℕ

-- `OOOLatch`: `cycles_rem` is -1 before the first visit and -2 for a load that waits for the head
-- of the reorder buffer.
pub record Latch : Type 0 where
  pub rob_idx : ℕ
  pub phys_rd : Option ℕ
  pub valid : Bool
  pub cycles_rem : ℤ
  pub mshr_idx : Option ℕ
  pub flushed : Bool
  pub src1_val : ℕ
  pub src2_val : ℕ

-- `PipeReg`
pub record PipeReg : Type 0 where
  pub ir : IrInst
  pub valid : Bool

pub record StoreBufEntry : Type 0 where
  pub addr : ℕ
  pub data_word : ℕ
  pub width : ℕ
  pub valid : Bool

pub record Stats : Type 0 where
  pub cycles : ℕ
  pub insts : ℕ
  pub rob_full_stalls : ℕ
  pub rs_full_stalls : ℕ
  pub mispred_flushes : ℕ
  pub serializing_stalls : ℕ

pub record Ooo : Type 0 where
  pub prf : ℕ → PhysReg
  pub rat : ℕ → ℕ
  pub rrat : ℕ → ℕ
  pub freelist : FreeList
  pub rob : ℕ → RobEntry
  pub rob_head : ℕ
  pub rob_tail : ℕ
  pub rob_count : ℕ
  pub rs : ℕ → RsEntry
  pub unready_store_count : ℤ
  pub rs_ready_mask : EuType → ℕ → Bool
  pub rs_free_mask : ℕ → Bool
  pub latch_if_id : ℕ → PipeReg
  pub latch_id_rn : ℕ → PipeReg
  pub latch_int : ℕ → Latch
  pub latch_mul : ℕ → Latch
  pub latch_lsu : ℕ → Latch
  pub mshr : ℕ → MshrEntry
  pub fetch_pc : ℕ
  pub sbuf : ℕ → StoreBufEntry
  pub sbuf_head : ℕ
  pub sbuf_tail : ℕ
  pub sbuf_count : ℕ
  pub sbuf_drain_tick : ℕ
  pub stats : Stats
