-- ===== src/Cpu/Pipeline/Order.antt =====
-- What it means that the pipeline keeps the order of the program: the instruction in a latch comes
-- next after the older ones, and its operands are those that these leave in the register file.
pub mod Pointers
pub mod Retire
pub mod Execute
pub mod Fetch
pub mod Rotate
pub mod Made
pub mod Makes
pub mod Reached
use sustemu.Base.{ℕ, suc, ◌≡◌, Bool, true, false, Option, some, if◌then◌else◌, ◌&&◌}
use sustemu.Cpu.Ir.Inst.{IrInst}
use sustemu.Cpu.Ir.Exec.{is_reg}
use sustemu.Cpu.Ir.Kept.{Kept, kept}
use sustemu.Cpu.Ooo.State.{PipeReg}
use sustemu.Cpu.Pipeline.State.{Core, latch}
use sustemu.Cpu.Pipeline.Stages.{is_load}

-- The latches without their pointers, and the architectural state
pub record View : Type 0 where
  pub id : PipeReg
  pub ex : PipeReg
  pub mem : PipeReg
  pub wb : PipeReg
  pub fetch_pc : ℕ
  pub pc : ℕ
  pub gpr : ℕ → ℕ

abbrev pub view : {S : Type 0} → Core S → View
view c = record {
  id = latch c c.cpu_pipe.id;
  ex = latch c c.cpu_pipe.ex;
  mem = latch c c.cpu_pipe.mem;
  wb = latch c c.cpu_pipe.wb;
  fetch_pc = c.cpu_pipe.fetch_pc;
  pc = c.cpu.pc;
  gpr = c.cpu.gpr;
}

-- The registers once the instruction of a latch has written v
abbrev pub shown : PipeReg → ℕ → (ℕ → ℕ) → ℕ → ℕ
shown l v g r = if l.valid && is_reg l.ir.rd r then v else g r

-- The next address after an executed instruction, and after a fetched one
abbrev pub next : PipeReg → ℕ → ℕ
next l pc = if l.valid then l.ir.dnpc else pc

abbrev pub foreseen : PipeReg → ℕ → ℕ
foreseen l pc = if l.valid then l.ir.bp_predicted_pc else pc

-- The operands are the registers that the instruction names, register 0 aside.
abbrev pub Reads : Kept → (ℕ → ℕ) → Type 0
Reads k g =
    (r : ℕ)
    → (k.rs1 ≡ some (suc r) → k.src1_val ≡ g (suc r))
      × (k.rs2 ≡ some (suc r) → k.src2_val ≡ g (suc r))

abbrev pub At : PipeReg → ℕ → (ℕ → ℕ) → Type 0
At l pc g = l.valid ≡ true → (l.ir.pc ≡ pc) × Reads (kept l.ir) g

-- A result that the instruction may still get: a load has none before its memory access.
abbrev pub Possible : PipeReg → ℕ → Type 0
Possible l v = is_load l.ir.type ≡ false → v ≡ l.ir.result

-- Without a predictor the fetch goes on behind the instruction.
abbrev pub Plain : Bool → PipeReg → Type 0
Plain bpred_mode l = bpred_mode ≡ false → l.valid ≡ true → l.ir.bp_predicted_pc ≡ l.ir.snpc

-- Between two cycles
pub record IsInOrder (bpred_mode : Bool) (v : View) : Type 0 where
  pub wb : At v.wb v.pc v.gpr
  pub mem : At v.mem (next v.wb v.pc) (shown v.wb v.wb.ir.result v.gpr)
  pub ex :
      (x : ℕ)
      → Possible v.mem x
      → At v.ex (next v.mem (next v.wb v.pc)) (shown v.mem x (shown v.wb v.wb.ir.result v.gpr))
  pub id : v.id.valid ≡ true → v.id.ir.pc ≡ foreseen v.ex (next v.mem (next v.wb v.pc))
  pub fetch : v.fetch_pc ≡ foreseen v.id (foreseen v.ex (next v.mem (next v.wb v.pc)))
  pub plain_ex : Plain bpred_mode v.ex
  pub plain_id : Plain bpred_mode v.id

-- After `stage_WB`
pub record IsRetired (bpred_mode : Bool) (v : View) : Type 0 where
  pub wb : v.wb.valid ≡ false
  pub mem : At v.mem v.pc v.gpr
  pub ex : (x : ℕ) → Possible v.mem x → At v.ex (next v.mem v.pc) (shown v.mem x v.gpr)
  pub id : v.id.valid ≡ true → v.id.ir.pc ≡ foreseen v.ex (next v.mem v.pc)
  pub fetch : v.fetch_pc ≡ foreseen v.id (foreseen v.ex (next v.mem v.pc))
  pub plain_ex : Plain bpred_mode v.ex
  pub plain_id : Plain bpred_mode v.id

-- After `stage_MEM`
pub record IsLoaded (bpred_mode : Bool) (v : View) : Type 0 where
  pub wb : v.wb.valid ≡ false
  pub mem : At v.mem v.pc v.gpr
  pub ex : At v.ex (next v.mem v.pc) (shown v.mem v.mem.ir.result v.gpr)
  pub id : v.id.valid ≡ true → v.id.ir.pc ≡ foreseen v.ex (next v.mem v.pc)
  pub fetch : v.fetch_pc ≡ foreseen v.id (foreseen v.ex (next v.mem v.pc))
  pub plain_ex : Plain bpred_mode v.ex
  pub plain_id : Plain bpred_mode v.id

-- After `stage_EX`
pub record IsExecuted (bpred_mode : Bool) (v : View) : Type 0 where
  pub wb : v.wb.valid ≡ false
  pub mem : At v.mem v.pc v.gpr
  pub ex : At v.ex (next v.mem v.pc) (shown v.mem v.mem.ir.result v.gpr)
  pub id : v.id.valid ≡ true → v.id.ir.pc ≡ next v.ex (next v.mem v.pc)
  pub fetch : v.fetch_pc ≡ foreseen v.id (next v.ex (next v.mem v.pc))
  pub plain_id : Plain bpred_mode v.id

-- The operands of ID, whatever a load in EX will return
abbrev pub HasOperands : View → Type 0
HasOperands v =
    (x : ℕ)
    → Possible v.ex x
    → v.id.valid ≡ true
    → Reads (kept v.id.ir) (shown v.ex x (shown v.mem v.mem.ir.result v.gpr))

-- After `stage_IF` in a cycle that does not stall
pub record IsFetched (bpred_mode : Bool) (v : View) : Type 0 where
  pub mem : At v.mem v.pc v.gpr
  pub ex : At v.ex (next v.mem v.pc) (shown v.mem v.mem.ir.result v.gpr)
  pub id : v.id.valid ≡ true → v.id.ir.pc ≡ next v.ex (next v.mem v.pc)
  pub operands : HasOperands v
  pub wb : v.wb.valid ≡ true → v.wb.ir.pc ≡ foreseen v.id (next v.ex (next v.mem v.pc))
  pub fetch : v.fetch_pc ≡ foreseen v.wb (foreseen v.id (next v.ex (next v.mem v.pc)))
  pub plain_id : Plain bpred_mode v.id
  pub plain_wb : Plain bpred_mode v.wb
