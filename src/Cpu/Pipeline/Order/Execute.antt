-- ===== src/Cpu/Pipeline/Order/Execute.antt =====
-- `stage_EX` keeps the order: what it has fetched behind an instruction that goes elsewhere leaves.
use sustemu.Base.{
  ℕ, ◌+◌, ◌≡◌, refl, sym, ap, ◌∙◌, subst, Bool, true, false, ◌==◌, not, if◌then◌else◌, if-cases,
  ==→eq, Post, Post-bind, arith,
}
use sustemu.Cpu.Ir.Inst.{IrInst}
use sustemu.Cpu.Ir.Exec.{Sim, ir_execute}
use sustemu.Cpu.Ir.Kept.{kept, ir_execute-kept}
use sustemu.Cpu.Bpred.Model.{bpred_update}
use sustemu.Cpu.Ooo.State.{PipeReg}
use sustemu.Cpu.Ooo.Cycle.{is_control_raw}
use sustemu.Cpu.Pipeline.State.{Core, drop, hold, with_stats, latch, set_latch}
use sustemu.Cpu.Pipeline.Stages.{stage_ex, redirect, flush, inv}
use sustemu.Cpu.Pipeline.Order.{View, view, shown, next, At, Reads, Plain, IsLoaded, IsExecuted}
use sustemu.Cpu.Pipeline.Order.Pointers.{IsApart, set_id, set_ex, set_wb}
use sustemu.Cpu.Pipeline.Order.Retire.{Mid}

module _ (b : Bool) (v : View) (l : IsLoaded b v) where
  execute_none : v.ex.valid ≡ false → IsExecuted b v
  execute_none e = record {
    wb = l.wb;
    mem = l.mem;
    ex = l.ex;
    id = rw e (rw e at l.id);
    fetch = rw e (rw e at l.fetch);
    plain_id = l.plain_id;
  }

  -- An executed instruction in EX
  module _ (ir : IrInst) (k : kept ir ≡ kept v.ex.ir) (e : v.ex.valid ≡ true) where
    executed-At : At (hold ir v.ex) (next v.mem v.pc) (shown v.mem v.mem.ir.result v.gpr)
    executed-At valid = (
      ap (λ x. x.pc) k ∙ (l.ex valid).0,
      subst (λ x. Reads x (shown v.mem v.mem.ir.result v.gpr)) (sym k) (l.ex valid).1,
    )

    execute_straight :
        ir.dnpc ≡ v.ex.ir.bp_predicted_pc → IsExecuted b (record v { ex = hold ir v.ex })
    execute_straight q = record {
      wb = l.wb;
      mem = l.mem;
      ex = executed-At;
      id = rw (e, q) (rw e at l.id);
      fetch = rw (e, q) (rw e at l.fetch);
      plain_id = l.plain_id;
    }

    execute_away :
        IsExecuted b
          (record v { ex = hold ir v.ex; id = drop v.id; wb = drop v.wb; fetch_pc = ir.dnpc })
    execute_away = record {
      wb = refl;
      mem = l.mem;
      ex = executed-At;
      id = λ q. absurd (ground (arith, q));
      fetch = rw e refl;
      plain_id = λ x q. absurd (ground (arith, q));
    }

-- The view after a flush
abbrev pub away : ℕ → View → View
away pc v = record v { id = drop v.id; wb = drop v.wb; fetch_pc = pc }

-- The address that the fetch went on to is the predicted one, with a predictor and without.
expected :
    (b : Bool) (l : PipeReg) (ir : IrInst)
    → kept ir ≡ kept l.ir
    → Plain b l
    → l.valid ≡ true
    → (if b then ir.bp_predicted_pc else ir.snpc) ≡ l.ir.bp_predicted_pc
expected true l ir k p e = ap (λ x. x.predicted) k
expected false l ir k p e = ap (λ x. x.snpc) k ∙ sym (p refl e)

module _ {S : Type 0} where
  view-flush :
      (pc : ℕ) (c : Core S)
      → IsApart c.cpu_pipe
      → c.g_fetch_slot ≡ c.cpu_pipe.wb
      → view (flush pc c) ≡ away pc (view c)
  unfolding flush
  view-flush pc c a slot = rw slot (
      ap {A = View} {B = View} (λ x. record x { fetch_pc = pc })
        (set_wb (set_latch c.cpu_pipe.id drop c) drop a)
      ∙ ap {A = View} {B = View} (λ x. record x { wb = drop x.wb; fetch_pc = pc })
          (set_id c drop a))

  pub flush-Mid :
      (P : View → Type 0) (pc : ℕ) (c : Core S)
      → IsApart c.cpu_pipe
      → c.g_fetch_slot ≡ c.cpu_pipe.wb
      → P (away pc (view c))
      → Mid P (flush pc c)
  unfolding flush
  flush-Mid P pc c a slot p = record {
    apart = a;
    slot = slot;
    holds = subst P (sym (view-flush pc c a slot)) p;
  }

  -- The core after EX has executed its instruction, with whatever the predictor has learnt
  pub redirect-Mid :
      (P : View → Type 0) (b : Bool) (ir : IrInst) (c : Core S)
      → IsApart c.cpu_pipe
      → c.g_fetch_slot ≡ c.cpu_pipe.wb
      → (ir.dnpc ≡ (if b then ir.bp_predicted_pc else ir.snpc) → P (view c))
      → P (away ir.dnpc (view c))
      → Mid P (redirect b ir c)
  unfolding redirect
  redirect-Mid P true ir c a slot straight gone =
      if-cases
        (λ (c' : Core S). Mid P (if ir.dnpc == ir.bp_predicted_pc then c' else flush ir.dnpc c'))
        (is_control_raw ir.raw)
        (λ q. go (record c { bpred = bpred_update c.bpred ir }) a slot straight gone)
        (λ q. go c a slot straight gone)
    where
      go :
          (c' : Core S)
          → IsApart c'.cpu_pipe
          → c'.g_fetch_slot ≡ c'.cpu_pipe.wb
          → (ir.dnpc ≡ ir.bp_predicted_pc → P (view c'))
          → P (away ir.dnpc (view c'))
          → Mid P (if ir.dnpc == ir.bp_predicted_pc then c' else flush ir.dnpc c')
      go c' a' slot' s g =
          if-cases (Mid P) (ir.dnpc == ir.bp_predicted_pc)
            (λ q. record {
              apart = a';
              slot = slot';
              holds = s (==→eq ir.dnpc ir.bp_predicted_pc q);
            })
            (λ q. flush-Mid P ir.dnpc c' a' slot' g)
  redirect-Mid P false ir c a slot straight gone =
      if-cases (Mid P) (ir.dnpc == ir.snpc)
        (λ q. record { apart = a; slot = slot; holds = straight (==→eq ir.dnpc ir.snpc q) })
        (λ q. counted (flush-Mid P ir.dnpc c a slot gone))
    where
      counted :
          Mid P (flush ir.dnpc c)
          → Mid P (
              with_stats
                (λ st. record st { stall_control = st.stall_control + 1 })
                (flush ir.dnpc c))
      counted m = record { apart = m.apart; slot = m.slot; holds = m.holds }

  pub stage_ex-IsExecuted :
      (b : Bool) (c : Core S) → Mid (IsLoaded b) c → Post (Mid (IsExecuted b)) (stage_ex b c)
  unfolding stage_ex
  stage_ex-IsExecuted b c m =
      if-cases (Post (Mid (IsExecuted b))) (not l.valid)
        (λ e. record {
          apart = m.apart;
          slot = m.slot;
          holds = execute_none b (view c) m.holds (ground (arith, e));
        })
        (λ e.
          Post-bind (λ (r : IrInst × Sim). kept r.0 ≡ kept l.ir) (Mid (IsExecuted b))
            (ir_execute l.ir c.sim) _ (ir_execute-kept l.ir c.sim)
            (λ r k. executed r.0 (if r.0.fault then inv r.1 else r.1) k (ground (arith, e))))
    where
      l : PipeReg
      l = latch c c.cpu_pipe.ex

      executed :
          (ir : IrInst) (sim : Sim)
          → kept ir ≡ kept l.ir
          → l.valid ≡ true
          → Mid
              (IsExecuted b)
              (redirect b ir (set_latch c.cpu_pipe.ex (hold ir) (record c { sim = sim })))
      executed ir sim k e =
          redirect-Mid (IsExecuted b) b ir
            (set_latch c.cpu_pipe.ex (hold ir) (record c { sim = sim })) m.apart m.slot
            (λ q. subst (IsExecuted b) (sym (set_ex c (hold ir) m.apart)) (
              execute_straight b (view c) m.holds ir k e
                (q ∙ expected b l ir k m.holds.plain_ex e)))
            (subst (λ x. IsExecuted b (away ir.dnpc x)) (sym (set_ex c (hold ir) m.apart))
              (execute_away b (view c) m.holds ir k e))
