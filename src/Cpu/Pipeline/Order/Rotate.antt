-- ===== src/Cpu/Pipeline/Order/Rotate.antt =====
-- `stage_IF` and the rotation of the pointers keep the order, and so does a whole cycle.
use sustemu.Base.{
  ℕ, zero, suc, ◌%◌, ◌^◌, ◌≡◌, refl, sym, ap, ◌∙◌, subst, Bool, true, false, ◌&&◌, if◌then◌else◌,
  if-cases, Post, Post-bind, Post-then, arith,
}
use sustemu.Word.{add64}
use sustemu.Cpu.Ir.Inst.{IrInst}
use sustemu.Cpu.Ir.Decode.{ir_decode}
use sustemu.Cpu.Ir.Addresses.{ir_decode-pc}
use sustemu.Cpu.Bpred.Model.{bpred_predict}
use sustemu.Cpu.Ooo.State.{PipeReg}
use sustemu.Cpu.Ooo.Cycle.{is_control_raw}
use sustemu.Cpu.Pipeline.State.{Core, with_pipe, latch, set_latch}
use sustemu.Cpu.Pipeline.Stages.{
  fetched, jump, predict_next, stage_if, stage_id, stage_ex, stage_mem, stage_wb,
}
use sustemu.Cpu.Pipeline.Cycle.{begin, rotate, advance, cycle_with, pipeline_cycle}
use sustemu.Cpu.Pipeline.Order.{View, view, HasOperands, IsInOrder, IsLoaded, IsExecuted, IsFetched}
use sustemu.Cpu.Pipeline.Order.Pointers.{IsApart, set_wb}
use sustemu.Cpu.Pipeline.Order.Retire.{Mid, stage_wb-IsRetired, stage_mem-IsLoaded}
use sustemu.Cpu.Pipeline.Order.Execute.{stage_ex-IsExecuted}
use sustemu.Cpu.Pipeline.Order.Fetch.{IsDecoded, stage_id-IsDecoded}
use sustemu.Memory.Vmem.{VirtualMemory}

-- Between cycles
pub record IsReady {S : Type 0} (b : Bool) (c : Core S) : Type 0 where
  pub apart : IsApart c.cpu_pipe
  pub holds : IsInOrder b (view c)

-- After `stage_IF`: either it has fetched, or the cycle stalls.
Fetched : {S : Type 0} → Bool → Core S → Type 0
Fetched b c =
    (c.g_pipe_stalled ≡ true → IsExecuted b (view c))
    × (c.g_pipe_stalled ≡ false → IsFetched b (view c))

-- A fetched instruction in the view
fetch_into : View → PipeReg → ℕ → View
fetch_into v r pc = record v { wb = r; fetch_pc = pc }

module _ (b : Bool) (v : View) (e : IsExecuted b v) (h : HasOperands v) where
  fetch-IsFetched :
      (r : PipeReg)
      → r.valid ≡ true
      → r.ir.pc ≡ v.fetch_pc
      → (b ≡ false → r.ir.bp_predicted_pc ≡ r.ir.snpc)
      → IsFetched b (fetch_into v r r.ir.bp_predicted_pc)
  unfolding fetch_into
  fetch-IsFetched r valid at plain = record {
    mem = e.mem;
    ex = e.ex;
    id = e.id;
    operands = h;
    wb = λ q. at ∙ e.fetch;
    fetch = rw valid refl;
    plain_id = e.plain_id;
    plain_wb = λ q w. plain q;
  }

-- The latches after a rotation, with and without a stall
moved : View → View
moved v = record v { wb = v.mem; mem = v.ex; ex = v.id; id = v.wb }

stalled : View → View
stalled v = record v { wb = v.mem; mem = v.ex; ex = v.wb }

moved-IsInOrder : (b : Bool) (v : View) → IsFetched b v → IsInOrder b (moved v)
unfolding moved
moved-IsInOrder b v f = record {
  wb = f.mem;
  mem = f.ex;
  ex = λ x p valid. (f.id valid, f.operands x p valid);
  id = f.wb;
  fetch = f.fetch;
  plain_ex = f.plain_id;
  plain_id = f.plain_wb;
}

stalled-IsInOrder : (b : Bool) (v : View) → IsExecuted b v → IsInOrder b (stalled v)
unfolding stalled
stalled-IsInOrder b v e = record {
  wb = e.mem;
  mem = e.ex;
  ex = λ x p valid. absurd (ground (arith, e.wb, valid));
  id = rw e.wb e.id;
  fetch = rw e.wb e.fetch;
  plain_ex = λ q valid. absurd (ground (arith, e.wb, valid));
  plain_id = e.plain_id;
}

-- Before the rotation
record IsDone {S : Type 0} (b : Bool) (c : Core S) : Type 0 where
  apart : IsApart c.cpu_pipe
  slot : c.g_fetch_slot ≡ c.cpu_pipe.wb
  holds : Fetched b c

module _ {S : Type 0} (b : Bool) where
  -- The fetch slot holds a new instruction, and the fetch goes on where it is predicted to go.
  done :
      (c : Core S) (ir : IrInst) (taken : Bool) (pc : ℕ)
      → Mid (IsExecuted b) c
      → HasOperands (view c)
      → c.g_pipe_stalled ≡ false
      → ir.pc ≡ c.cpu_pipe.fetch_pc
      → (b ≡ false → pc ≡ ir.snpc)
      → IsDone b (with_pipe (jump pc) (set_latch c.g_fetch_slot (fetched ir taken pc) c))
  unfolding Fetched fetch_into
  done c ir taken pc m h g at plain = record {
    apart = m.apart;
    slot = m.slot;
    holds = (
      λ q. absurd (ground (arith, q, g)),
      λ q.
          subst (IsFetched b)
            (rw m.slot (
              ap {A = View} {B = View} (λ x. record x { fetch_pc = pc })
                (sym (set_wb c (fetched ir taken pc) m.apart))))
            (fetch-IsFetched b (view c) m.holds h (fetched ir taken pc (latch c c.cpu_pipe.wb)) refl
              at plain),
    );
  }

  predict_next-IsDone :
      (c : Core S) (pc raw : ℕ) (ir : IrInst)
      → Mid (IsExecuted b) c
      → HasOperands (view c)
      → c.g_pipe_stalled ≡ false
      → ir.pc ≡ c.cpu_pipe.fetch_pc
      → ir.snpc ≡ add64 pc 4
      → IsDone b (predict_next b pc raw ir c)
  unfolding predict_next
  predict_next-IsDone c pc raw ir m h g at behind =
      if-cases (IsDone b) (b && is_control_raw raw)
        (λ q.
          let (r, p) = bpred_predict c.bpred pc raw in
          done (record c { bpred = p }) ir r.taken
            (if r.taken && r.btb_hit then r.target else add64 pc 4)
            (record { apart = m.apart; slot = m.slot; holds = m.holds }) h g at
            (λ e. absurd (ground (arith, rw e at q))))
        (λ q. done c ir false (add64 pc 4) m h g at (λ e. sym behind))

module _ {S : Type 0} (vm : VirtualMemory S) (b : Bool) where
  stage_if-IsDone : (c : Core S) → IsDecoded b c → Post (IsDone b) (stage_if vm b c)
  unfolding stage_if Fetched
  stage_if-IsDone c d =
      if-cases (Post (IsDone b)) c.g_pipe_stalled
        (λ q. record {
          apart = d.mid.apart;
          slot = d.mid.slot;
          holds = (λ g. d.mid.holds, λ g. absurd (ground (arith, q, g)));
        })
        (λ q. Post-then (IsDone b) (vm.vaddr_ifetch c.vmem c.cpu_pipe.fetch_pc 4) _ (λ r.
          let pc = c.cpu_pipe.fetch_pc in
          let raw = r.0 % 2 ^ 32 in
          let (at, behind) = ir_decode-pc c.cpu raw pc (add64 pc 4) (latch c c.g_fetch_slot).ir in
          predict_next-IsDone b (record c { vmem = r.1 }) pc raw
            (ir_decode c.cpu raw pc (add64 pc 4) (latch c c.g_fetch_slot).ir)
            (record { apart = d.mid.apart; slot = d.mid.slot; holds = d.mid.holds }) (d.operands q)
            q at behind))

  rotate-IsReady : (c : Core S) → IsDone b c → IsReady b (rotate c)
  unfolding rotate Fetched moved stalled
  rotate-IsReady c d =
      if-cases (IsReady b) c.g_pipe_stalled
        (λ q. rw d.slot (record {
          apart = record {
            id_ex = d.apart.id_wb;
            id_mem = d.apart.id_ex;
            id_wb = d.apart.id_mem;
            ex_mem = λ e. d.apart.ex_wb (sym e);
            ex_wb = λ e. d.apart.mem_wb (sym e);
            mem_wb = d.apart.ex_mem;
          };
          holds = stalled-IsInOrder b (view c) (d.holds.0 q);
        }))
        (λ q. rw d.slot (record {
          apart = record {
            id_ex = λ e. d.apart.id_wb (sym e);
            id_mem = λ e. d.apart.ex_wb (sym e);
            id_wb = λ e. d.apart.mem_wb (sym e);
            ex_mem = d.apart.id_ex;
            ex_wb = d.apart.id_mem;
            mem_wb = d.apart.ex_mem;
          };
          holds = moved-IsInOrder b (view c) (d.holds.1 q);
        }))

  advance-IsReady : (c : Core S) → IsReady b c → Post (IsReady b) (advance vm b c)
  unfolding advance
  advance-IsReady c r =
      Post-bind (Mid (IsLoaded b)) (IsReady b) (stage_mem vm (stage_wb (begin c))) _
        (stage_mem-IsLoaded vm b (stage_wb (begin c)) (
          stage_wb-IsRetired b (begin c)
            (record { apart = r.apart; slot = refl; holds = r.holds })))
        (λ c₁ l.
          Post-bind (Mid (IsExecuted b)) (IsReady b) (stage_ex b c₁) _ (stage_ex-IsExecuted b c₁ l)
            (λ c₂ e.
              Post-bind (IsDone b) (IsReady b) (stage_if vm b (stage_id c₂)) _
                (stage_if-IsDone (stage_id c₂) (stage_id-IsDecoded b c₂ e)) rotate-IsReady))

  cycle_with-IsReady : (n : ℕ) (c : Core S) → IsReady b c → Post (IsReady b) (cycle_with vm b n c)
  unfolding cycle_with
  cycle_with-IsReady zero c r =
      Post-bind (IsReady b) (IsReady b) (advance vm b c) _ (advance-IsReady c r)
        (λ c' r'. record { apart = r'.apart; holds = r'.holds })
  cycle_with-IsReady (suc n) c r = record { apart = r.apart; holds = r.holds }

  -- A cycle of the pipeline keeps the order.
  pub pipeline_cycle-IsReady : (c : Core S) → IsReady b c → Post (IsReady b) (pipeline_cycle vm b c)
  unfolding pipeline_cycle
  pipeline_cycle-IsReady c r = cycle_with-IsReady c.cpu_pipe.mem_stall_rem c r
