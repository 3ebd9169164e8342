-- ===== src/Cpu/Pipeline/Progress/Occupied.antt =====
-- The stages and the rotation move every instruction on by one latch.
use sustemu.Base.{
  ℕ, ◌+◌, ◌%◌, ◌^◌, ◌≡◌, refl, sym, ap, ◌∙◌, subst, Bool, true, false, ◌&&◌, not, if◌then◌else◌,
  if-cases, Post, Post-then, arith,
}
use sustemu.Word.{add64}
use sustemu.Cpu.Ir.Inst.{IrInst}
use sustemu.Cpu.Ir.Decode.{ir_decode}
use sustemu.Cpu.Ir.Exec.{Sim, ir_execute}
use sustemu.Cpu.Ir.MemAccess.{ir_mem_access}
use sustemu.Cpu.Bpred.Model.{bpred_predict}
use sustemu.Cpu.Ooo.State.{PipeReg}
use sustemu.Cpu.Ooo.Cycle.{is_control_raw}
use sustemu.Cpu.Pipeline.State.{Core, drop, hold, with_pipe, with_stats, latch, set_latch}
use sustemu.Cpu.Pipeline.Stages.{
  inv, fetched, jump, operands, read_registers, load_use, redirect, predict_next, stage_if,
  stage_id, stage_ex, stage_mem, stage_wb,
}
use sustemu.Cpu.Pipeline.Cycle.{rotate}
use sustemu.Cpu.Pipeline.Order.{View, view}
use sustemu.Cpu.Pipeline.Order.Pointers.{set_id, set_ex, set_mem, set_wb}
use sustemu.Cpu.Pipeline.Order.Retire.{Mid, stall_miss-Mid}
use sustemu.Cpu.Pipeline.Order.Execute.{away, redirect-Mid}
use sustemu.Cpu.Pipeline.Progress.{Occupied}
use sustemu.Memory.Vmem.{VirtualMemory}

module _ {S : Type 0} (vm : VirtualMemory S) (b x e i : Bool) where
  abbrev pub Here : View → Type 0
  Here = Occupied x e i

  pub stage_wb-Here : (c : Core S) → Mid Here c → Mid Here (stage_wb c)
  unfolding stage_wb
  stage_wb-Here c m =
      if-cases (Mid Here) (not (latch c c.cpu_pipe.wb).valid) (λ q. m)
        (λ q. record {
          apart = m.apart;
          slot = m.slot;
          holds = subst Here (sym (set_wb c drop m.apart)) m.holds;
        })

  pub stage_mem-Here : (c : Core S) → Mid Here c → Post (Mid Here) (stage_mem vm c)
  unfolding stage_mem
  stage_mem-Here c m =
      if-cases (Post (Mid Here)) (not l.valid) (λ q. m)
        (λ q. Post-then (Mid Here) (ir_mem_access vm true l.ir c.vmem) _ (λ r.
          stall_miss-Mid Here r.1 r.0
            (set_latch c.cpu_pipe.mem (hold r.0) (record c { vmem = r.2 }))
            (record {
              apart = m.apart;
              slot = m.slot;
              holds =
                  subst Here (sym (set_mem (record c { vmem = r.2 }) (hold r.0) m.apart)) m.holds;
            })))
    where
      l : PipeReg
      l = latch c c.cpu_pipe.mem

  pub stage_ex-Here : (c : Core S) → Mid Here c → Post (Mid Here) (stage_ex b c)
  unfolding stage_ex
  stage_ex-Here c m =
      if-cases (Post (Mid Here)) (not l.valid) (λ q. m)
        (λ q.
          Post-then (Mid Here) (ir_execute l.ir c.sim) _
            (λ r. executed r.0 (if r.0.fault then inv r.1 else r.1) (ground (arith, q))))
    where
      l : PipeReg
      l = latch c c.cpu_pipe.ex

      executed :
          (ir : IrInst) (sim : Sim)
          → l.valid ≡ true
          → Mid Here (redirect b ir (set_latch c.cpu_pipe.ex (hold ir) (record c { sim = sim })))
      executed ir sim valid =
          let (h, k, n) = m.holds in
          redirect-Mid Here b ir (set_latch c.cpu_pipe.ex (hold ir) (record c { sim = sim }))
            m.apart m.slot (λ q. subst Here (sym (set_ex c (hold ir) m.apart)) m.holds)
            (subst (λ y. Here (away ir.dnpc y)) (sym (set_ex c (hold ir) m.apart))
              (h, k, λ q. absurd (ground (arith, valid, k, q))))

  -- ID waits only for an instruction in EX.
  pub record IsMoving (c : Core S) : Type 0 where
    pub mid : Mid Here c
    pub going : e ≡ false → c.g_pipe_stalled ≡ false

  pub stage_id-IsMoving :
      (c : Core S) → Mid Here c → c.g_pipe_stalled ≡ false → IsMoving (stage_id c)
  unfolding stage_id load_use
  stage_id-IsMoving c m g =
      if-cases IsMoving (not l.valid) (λ q. record { mid = m; going = λ n. g })
        (λ q.
          if-cases IsMoving (load_use (latch c c.cpu_pipe.ex) l.ir)
            (λ u. record {
              mid = counted (held (read_registers c.cpu.gpr l.ir));
              going = λ n. absurd (ground (arith, rw (m.holds.1 ∙ n) at u));
            })
            (λ u. record {
              mid = held (operands (latch c c.cpu_pipe.mem) (latch c c.cpu_pipe.ex) c.cpu.gpr l.ir);
              going = λ n. g;
            }))
    where
      l : PipeReg
      l = latch c c.cpu_pipe.id

      held : (ir : IrInst) → Mid Here (set_latch c.cpu_pipe.id (hold ir) c)
      held ir = record {
        apart = m.apart;
        slot = m.slot;
        holds = subst Here (sym (set_id c (hold ir) m.apart)) m.holds;
      }

      counted :
          {c' : Core S}
          → Mid Here c'
          → Mid Here
              (record (with_stats (λ st. record st { stall_load_use = st.stall_load_use + 1 }) c') {
                g_pipe_stalled = true;
              })
      counted h = record { apart = h.apart; slot = h.slot; holds = h.holds }

  -- Before the rotation
  pub record IsFull (c : Core S) : Type 0 where
    pub mid : Mid Here c
    pub going : e ≡ false → c.g_pipe_stalled ≡ false
    pub full : c.g_pipe_stalled ≡ false → (latch c c.cpu_pipe.wb).valid ≡ true

  filled :
      (c : Core S) (ir : IrInst) (taken : Bool) (pc : ℕ)
      → Mid Here c
      → (e ≡ false → c.g_pipe_stalled ≡ false)
      → IsFull (with_pipe (jump pc) (set_latch c.g_fetch_slot (fetched ir taken pc) c))
  filled c ir taken pc m g = record {
    mid = record { apart = m.apart; slot = m.slot; holds = subst Here placed m.holds };
    going = g;
    full = λ q. subst (λ v. v.wb.valid ≡ true) placed refl;
  }
    where
      placed :
          record (view c) { wb = fetched ir taken pc (latch c c.cpu_pipe.wb); fetch_pc = pc }
          ≡ view (with_pipe (jump pc) (set_latch c.g_fetch_slot (fetched ir taken pc) c))
      placed = rw m.slot (
          ap {A = View} {B = View} (λ y. record y { fetch_pc = pc })
            (sym (set_wb c (fetched ir taken pc) m.apart)))

  predict_next-IsFull :
      (c : Core S) (pc raw : ℕ) (ir : IrInst)
      → Mid Here c
      → (e ≡ false → c.g_pipe_stalled ≡ false)
      → IsFull (predict_next b pc raw ir c)
  unfolding predict_next
  predict_next-IsFull c pc raw ir m g =
      if-cases IsFull (b && is_control_raw raw)
        (λ q.
          let (r, p) = bpred_predict c.bpred pc raw in
          filled (record c { bpred = p }) ir r.taken
            (if r.taken && r.btb_hit then r.target else add64 pc 4)
            (record { apart = m.apart; slot = m.slot; holds = m.holds }) g)
        (λ q. filled c ir false (add64 pc 4) m g)

  pub stage_if-IsFull : (c : Core S) → IsMoving c → Post IsFull (stage_if vm b c)
  unfolding stage_if
  stage_if-IsFull c d =
      if-cases (Post IsFull) c.g_pipe_stalled
        (λ q. record { mid = d.mid; going = d.going; full = λ n. absurd (ground (arith, q, n)) })
        (λ q. Post-then IsFull (vm.vaddr_ifetch c.vmem c.cpu_pipe.fetch_pc 4) _ (λ r.
          let pc = c.cpu_pipe.fetch_pc in
          let raw = r.0 % 2 ^ 32 in
          predict_next-IsFull (record c { vmem = r.1 }) pc raw
            (ir_decode c.cpu raw pc (add64 pc 4) (latch c c.g_fetch_slot).ir)
            (record { apart = d.mid.apart; slot = d.mid.slot; holds = d.mid.holds }) d.going))

  -- One latch further
  abbrev pub Moved : View → Type 0
  Moved v =
      (v.wb.valid ≡ x) × (v.mem.valid ≡ e) × (e ≡ false → (v.ex.valid ≡ i) × (v.id.valid ≡ true))

  pub rotate-Moved : (c : Core S) → IsFull c → Moved (view (rotate c))
  unfolding rotate
  rotate-Moved c d =
      let (h, k, n) = d.mid.holds in
      if-cases (λ (c' : Core S). Moved (view c')) c.g_pipe_stalled
        (λ q. (h, k, λ z. absurd (ground (arith, q, d.going z))))
        (λ q. rw d.mid.slot (h, k, λ z. (n z, d.full q)))
