-- ===== src/Cpu/Pipeline/Order/Fetch.antt =====
-- `stage_ID` and `stage_IF` keep the order: the operands are forwarded, or ID waits for a load.
use sustemu.Base.{
  ℕ, zero, suc, ◌+◌, ◌≡◌, refl, sym, ◌∙◌, subst, Bool, true, false, Option, none, some, ◌&&◌, not,
  if◌then◌else◌, if-cases, arith,
}
use sustemu.Cpu.Ir.Inst.{IrInst}
use sustemu.Cpu.Ir.Exec.{is_reg}
use sustemu.Cpu.Ooo.State.{PipeReg}
use sustemu.Cpu.Pipeline.State.{Core, hold, with_stats, latch, set_latch}
use sustemu.Cpu.Pipeline.Stages.{
  is_load, same_reg, reread, read_registers, forward, load_use, operands, stage_id,
}
use sustemu.Cpu.Pipeline.Order.{View, view, shown, Possible, IsExecuted, HasOperands}
use sustemu.Cpu.Pipeline.Order.Pointers.{set_id}
use sustemu.Cpu.Pipeline.Order.Retire.{Mid}

-- One operand after both forwarding paths
abbrev operand : PipeReg → PipeReg → (ℕ → ℕ) → Option ℕ → ℕ → ℕ
operand mem ex gpr rs v =
    if (ex.valid && not (is_load ex.ir.type)) && same_reg ex.ir.rd rs
    then ex.ir.result
    else if mem.valid && same_reg mem.ir.rd rs
    then mem.ir.result
    else reread gpr rs v

same_reg-is_reg : (o : Option ℕ) (r : ℕ) → same_reg o (some (suc r)) ≡ is_reg o (suc r)
same_reg-is_reg none r = refl
same_reg-is_reg (some zero) r = ground arith
same_reg-is_reg (some (suc n)) r = ground arith

-- Unless the load-use test holds, it is what the registers show after the instructions in MEM and
-- in EX, whatever a load in EX returns.
operand-shown :
    (mem ex : PipeReg) (gpr : ℕ → ℕ) (r v x : ℕ)
    → Possible ex x
    → (ex.valid && (is_load ex.ir.type && same_reg ex.ir.rd (some (suc r)))) ≡ false
    → operand mem ex gpr (some (suc r)) v ≡ shown ex x (shown mem mem.ir.result gpr) (suc r)
operand-shown mem ex gpr r v x p free =
    rw (same_reg-is_reg ex.ir.rd r, same_reg-is_reg mem.ir.rd r)
      (go ex.valid (is_load ex.ir.type) (is_reg ex.ir.rd (suc r)) p
        (rw (same_reg-is_reg ex.ir.rd r) at free))
  where
    go :
        (valid load hit : Bool)
        → (load ≡ false → x ≡ ex.ir.result)
        → (valid && (load && hit)) ≡ false
        → (if (valid && not load) && hit then ex.ir.result else shown mem mem.ir.result gpr (suc r))
          ≡ (if valid && hit then x else shown mem mem.ir.result gpr (suc r))
    go false load hit q f = refl
    go true false false q f = refl
    go true false true q f = sym (q refl)
    go true true false q f = refl
    go true true true q f = absurd (ground arith)

module _ (v : View) where
  decided : IrInst
  decided = operands v.mem v.ex v.gpr v.id.ir

  -- The operands of ID when it does not wait
  decided-HasOperands :
      load_use v.ex v.id.ir ≡ false → HasOperands (record v { id = hold decided v.id })
  unfolding decided operands forward read_registers load_use
  decided-HasOperands free x p valid r = (
    λ e.
        rw e (operand-shown v.mem v.ex v.gpr r v.id.ir.src1_val x p (ground (arith, rw e at free))),
    λ e.
        rw e (operand-shown v.mem v.ex v.gpr r v.id.ir.src2_val x p (ground (arith, rw e at free))),
  )

-- Reading operands changes no address of the instruction in ID.
hold-IsExecuted :
    (b : Bool) (v : View) (ir : IrInst)
    → (ir.pc ≡ v.id.ir.pc)
      × (ir.snpc ≡ v.id.ir.snpc)
      × (ir.bp_predicted_pc ≡ v.id.ir.bp_predicted_pc)
    → IsExecuted b v
    → IsExecuted b (record v { id = hold ir v.id })
hold-IsExecuted b v ir (p, s, q) e = record {
  wb = e.wb;
  mem = e.mem;
  ex = e.ex;
  id = λ valid. p ∙ e.id valid;
  fetch = rw q e.fetch;
  plain_id = λ x valid. q ∙ e.plain_id x valid ∙ sym s;
}

-- After `stage_ID`
pub record IsDecoded {S : Type 0} (b : Bool) (c : Core S) : Type 0 where
  pub mid : Mid (IsExecuted b) c
  pub operands : c.g_pipe_stalled ≡ false → HasOperands (view c)

module _ {S : Type 0} (b : Bool) (c : Core S) (m : Mid (IsExecuted b) c) where
  l : PipeReg
  l = latch c c.cpu_pipe.id

  held : (ir : IrInst) → Core S
  held ir = set_latch c.cpu_pipe.id (hold ir) c

  held-Mid :
      (ir : IrInst)
      → (ir.pc ≡ l.ir.pc) × (ir.snpc ≡ l.ir.snpc) × (ir.bp_predicted_pc ≡ l.ir.bp_predicted_pc)
      → Mid (IsExecuted b) (held ir)
  unfolding l held
  held-Mid ir same = record {
    apart = m.apart;
    slot = m.slot;
    holds =
        subst (IsExecuted b) (sym (set_id c (hold ir) m.apart))
          (hold-IsExecuted b (view c) ir same m.holds);
  }

  pub stage_id-IsDecoded : IsDecoded b (stage_id c)
  unfolding stage_id l held decided operands forward read_registers
  stage_id-IsDecoded =
      if-cases (IsDecoded b) (not l.valid)
        (λ e. record { mid = m; operands = λ g x p valid. absurd (ground (arith, e, valid)) })
        (λ e.
          if-cases (IsDecoded b) (load_use (latch c c.cpu_pipe.ex) l.ir)
            (λ u. waiting (held-Mid (read_registers c.cpu.gpr l.ir) (refl, refl, refl)))
            (λ u. record {
              mid = held-Mid (decided (view c)) (refl, refl, refl);
              operands = λ g.
                  subst HasOperands (sym (set_id c (hold (decided (view c))) m.apart))
                    (decided-HasOperands (view c) u);
            }))
    where
      waiting :
          Mid (IsExecuted b) (held (read_registers c.cpu.gpr l.ir))
          → IsDecoded b
              (record (with_stats
                (λ st. record st { stall_load_use = st.stall_load_use + 1 })
                (held (read_registers c.cpu.gpr l.ir))) { g_pipe_stalled = true })
      waiting h = record {
        mid = record { apart = h.apart; slot = h.slot; holds = h.holds };
        operands = λ g. absurd (ground (arith, g));
      }
