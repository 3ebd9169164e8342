-- ===== src/Cpu/Pipeline/Order/Reached.antt =====
-- The states that the pipeline reaches from `pipeline_init`, and what it retires in them.
use mathlib.Core.Path.{ap₂}
use native.Mathlib.Decide.{ℕ_discrete}
use sustemu.Base.{
  ℕ, zero, suc, ◌<◌, ◌≡◌, refl, sym, ap, ◌∙◌, subst, Bool, true, Option, none, some, ◌>>=◌, Post,
  Post-step, Post-both, arith,
}
use sustemu.Cpu.Ir.Inst.{IrInst}
use sustemu.Cpu.Ir.Exec.{Sim, ir_execute, ir_writeback}
use sustemu.Cpu.Ir.Kept.{kept, ir_execute-kept}
use sustemu.Cpu.Ir.MemAccess.{ir_mem_access}
use sustemu.Cpu.Pipeline.State.{Core, latch}
use sustemu.Cpu.Pipeline.Stages.{reread, read_registers, stage_wb}
use sustemu.Cpu.Pipeline.Cycle.{advance, cycle_with, pipeline_init, pipeline_cycle}
use sustemu.Cpu.Pipeline.Order.{View, view, Reads}
use sustemu.Cpu.Pipeline.Order.Pointers.{IsApart}
use sustemu.Cpu.Pipeline.Order.Retire.{SameBut, ir_mem_access-SameBut}
use sustemu.Cpu.Pipeline.Order.Rotate.{IsReady, pipeline_cycle-IsReady}
use sustemu.Cpu.Pipeline.Order.Made.{
  Loads, IsFetchedInst, IsExecutedInst, IsAccessedInst, Made, Made-mono, IsFetchedInst-mono,
  IsExecutedInst-mono, IsAccessedInst-mono,
}
use sustemu.Cpu.Pipeline.Order.Makes.{Rotated, advance-Rotated}
use sustemu.Memory.Vmem.{VirtualMemory}

-- Operands that are the registers stay when they are read again.
read_registers-fixed :
    (gpr : ℕ → ℕ) (ir : IrInst) → Reads (kept ir) gpr → read_registers gpr ir ≡ ir
unfolding read_registers
read_registers-fixed gpr ir h =
    ap₂ (λ (a b : ℕ). record ir { src1_val = a; src2_val = b })
      (same ir.rs1 ir.src1_val (λ r. (h r).0)) (same ir.rs2 ir.src2_val (λ r. (h r).1))
  where
    same :
        (o : Option ℕ) (v : ℕ) → ((r : ℕ) → o ≡ some (suc r) → v ≡ gpr (suc r)) → reread gpr o v ≡ v
    same none v k = refl
    same (some zero) v k = refl
    same (some (suc r)) v k = sym (k r refl)

module _ {S : Type 0} (vm : VirtualMemory S) (b : Bool) where
  -- n cycles
  unfoldable pub run_pipeline : ℕ → Core S → Option (Core S)
  run_pipeline zero c = some c
  run_pipeline (suc n) c = run_pipeline n c >>= λ c'. pipeline_cycle vm b c'

  pub pipeline_init-IsReady : (c : Core S) → IsReady b (pipeline_init b c)
  unfolding pipeline_init
  pipeline_init-IsReady c = record {
    apart = record {
      id_ex = omega arith;
      id_mem = omega arith;
      id_wb = omega arith;
      ex_mem = omega arith;
      ex_wb = omega arith;
      mem_wb = omega arith;
    };
    holds = record {
      wb = λ e. absurd (ground (arith, e));
      mem = λ e. absurd (ground (arith, e));
      ex = λ x p e. absurd (ground (arith, e));
      id = λ e. absurd (ground (arith, e));
      fetch = refl;
      plain_ex = λ q e. absurd (ground (arith, e));
      plain_id = λ q e. absurd (ground (arith, e));
    };
  }

  module _ (c₀ : Core S) where
    -- A cycle of the run from c₀, before the n-th, that does not wait for a missed load
    abbrev pub Earlier : ℕ → Core S → Type 0
    Earlier n d = (k : ℕ) × (k < n) × (run_pipeline k c₀ ≡ some d) × (d.cpu_pipe.mem_stall_rem ≡ 0)

    -- The latest such cycle: those after it have waited, and the memory is as it left it.
    abbrev pub Latest : ℕ → Core S → Core S → Type 0
    Latest n c d =
        (k : ℕ) × (e : Core S) × (k < n)
        × (run_pipeline k c₀ ≡ some d)
        × (d.cpu_pipe.mem_stall_rem ≡ 0)
        × (advance vm b d ≡ some e)
        × (c.vmem ≡ e.vmem)
        × ((j : ℕ) (x : Core S)
            → k < j
            → j < n
            → run_pipeline j c₀ ≡ some x
            → 0 < x.cpu_pipe.mem_stall_rem)

    -- An instruction, fetched in a cycle of the run at the address of the state c and with its operands
    -- read from the registers of c, that a cycle of the run has executed with the state of the
    -- simulator that it had, and that has made its memory access as `ir` in the memory that the latest
    -- cycle started with
    abbrev pub IsStep : ℕ → Core S → IrInst → Type 0
    IsStep n c ir =
        (inst : IrInst) × (executed : IrInst) × (x : Core S) × (y : Core S) × (sim : Sim)
        × (z : Core S) × (lat : ℕ) × (s : S) × IsFetchedInst vm b (Earlier n) inst
        × (inst.pc ≡ c.cpu.pc)
        × (read_registers c.cpu.gpr inst ≡ inst)
        × Loads vm b (Earlier n) x y
        × (ir_execute inst y.sim ≡ some (executed, sim))
        × Latest n c z
        × (ir_mem_access vm true executed z.vmem ≡ some (ir, lat, s))

    retired-IsStep :
        (n : ℕ) (c : Core S) (ir : IrInst)
        → (ir.pc ≡ c.cpu.pc) × Reads (kept ir) c.cpu.gpr
        → IsAccessedInst vm b (Earlier n) (Latest n c) ir
        → IsStep n c ir
    retired-IsStep n c ir (at, reads)
          (executed, z, lat, s, latest, (inst, x, y, sim, loads, f, e), m) =
        (
          inst,
          executed,
          x,
          y,
          sim,
          z,
          lat,
          s,
          f,
          sym (ap (λ x. x.pc) same) ∙ at,
          read_registers-fixed c.cpu.gpr inst (subst (λ x. Reads x c.cpu.gpr) same reads),
          loads,
          e,
          latest,
          m,
        )
      where
        same : kept ir ≡ kept inst
        same =
            (subst (Post (λ (r : IrInst × ℕ × S). SameBut executed r.0)) m
              (ir_mem_access-SameBut vm true executed z.vmem)).0
            ∙ subst (Post (λ (r : IrInst × Sim). kept r.0 ≡ kept inst)) e
                (ir_execute-kept inst y.sim)

    -- After n cycles
    abbrev Sourced : ℕ → Core S → Type 0
    Sourced n c =
        Made (IsFetchedInst vm b (Earlier n)) (IsFetchedInst vm b (Earlier n))
          (IsExecutedInst vm b (Earlier n)) (IsAccessedInst vm b (Earlier n) (Latest n c)) (view c)

    sooner : (n : ℕ) (d : Core S) → Earlier n d → Earlier (suc n) d
    sooner n d (k, h, r, w) = (k, omega arith, r, w)

    -- The latches with one cycle more, where WB has what W says
    more-Sourced :
        (n : ℕ) (W W' : IrInst → Type 0)
        → ((ir : IrInst) → W ir → W' ir)
        → (v : View)
        → Made
            (IsFetchedInst vm b (Earlier n))
            (IsFetchedInst vm b (Earlier n))
            (IsExecutedInst vm b (Earlier n))
            W
            v
        → Made
            (IsFetchedInst vm b (Earlier (suc n)))
            (IsFetchedInst vm b (Earlier (suc n)))
            (IsExecutedInst vm b (Earlier (suc n)))
            W'
            v
    more-Sourced n W W' k =
        Made-mono _ _ _ W _ _ _ W'
          (IsFetchedInst-mono vm b (Earlier n) (Earlier (suc n)) (sooner n))
          (IsFetchedInst-mono vm b (Earlier n) (Earlier (suc n)) (sooner n))
          (IsExecutedInst-mono vm b (Earlier n) (Earlier (suc n)) (sooner n)) k

    cycle_with-Sourced :
        (m n : ℕ) (c : Core S)
        → c.cpu_pipe.mem_stall_rem ≡ m
        → run_pipeline n c₀ ≡ some c
        → IsApart c.cpu_pipe
        → Sourced n c
        → Post (Sourced (suc n)) (cycle_with vm b m c)
    unfolding cycle_with
    cycle_with-Sourced zero n c w r a h = Post-step (Sourced (suc n)) (advance vm b c) _ (λ c' p.
        let (id, ex, mem, wb) =
          subst (Post (λ (x : Core S). Rotated vm b (Earlier (suc n)) c (view x))) p (
            advance-Rotated vm b (Earlier (suc n)) (IsAccessedInst vm b (Earlier n) (Latest n c)) c
              here a
              (more-Sourced n (IsAccessedInst vm b (Earlier n) (Latest n c))
                (IsAccessedInst vm b (Earlier n) (Latest n c)) (λ ir x. x) (view c) h)) in
        (
          id,
          ex,
          mem,
          λ v.
              IsAccessedInst-mono vm b (Earlier (suc n)) (Earlier (suc n)) (λ d e. e) (λ d. d ≡ c)
                (Latest (suc n) c')
                (λ d q.
                  subst (Latest (suc n) c') (sym q)
                    (n, c', omega arith, r, w, p, refl, λ j x k l. absurd (omega arith)))
                (latch c' c'.cpu_pipe.wb).ir (wb v),
        ))
      where
        here : Earlier (suc n) c
        here = (n, omega arith, r, w)
    cycle_with-Sourced (suc m) n c w r a h =
        more-Sourced n (IsAccessedInst vm b (Earlier n) (Latest n c))
          (IsAccessedInst vm b (Earlier (suc n)) (Latest (suc n) c))
          (IsAccessedInst-mono vm b (Earlier n) (Earlier (suc n)) (sooner n) (Latest n c)
            (Latest (suc n) c)
            (λ d (k, e, l, u, z, p, q, waited). (
              k,
              e,
              omega arith,
              u,
              z,
              p,
              q,
              λ j x a t v. elim (ℕ_discrete j n) [
                | yes f ↦ subst (λ y. 0 < y.cpu_pipe.mem_stall_rem) (now f v) (omega (arith, w))
                | no f ↦ waited j x a (omega arith) v
              ],
            )))
          (view c) h
      where
        now : {j : ℕ} {x : Core S} → j ≡ n → run_pipeline j c₀ ≡ some x → c ≡ x
        now f v = cc (sym r ∙ ap (λ i. run_pipeline i c₀) (sym f) ∙ v)

    run_pipeline-Sourced :
        (n : ℕ)
        → IsReady b c₀
        → Sourced 0 c₀
        → Post (λ c. IsReady b c × Sourced n c) (run_pipeline n c₀)
    unfolding run_pipeline pipeline_cycle
    run_pipeline-Sourced zero r h = (r, h)
    run_pipeline-Sourced (suc n) r h =
        Post-step (λ c. IsReady b c × Sourced (suc n) c) (run_pipeline n c₀) _
          (λ c p.
            let (r', h') =
              subst (Post (λ c. IsReady b c × Sourced n c)) p (run_pipeline-Sourced n r h) in
            Post-both (IsReady b) (Sourced (suc n)) (pipeline_cycle vm b c)
              (pipeline_cycle-IsReady vm b c r')
              (cycle_with-Sourced c.cpu_pipe.mem_stall_rem n c refl p r'.apart h'))

  pipeline_init-Sourced : (c : Core S) → Sourced (pipeline_init b c) 0 (pipeline_init b c)
  unfolding pipeline_init
  pipeline_init-Sourced c = (
    (λ e. absurd (ground (arith, e))),
    (λ e. absurd (ground (arith, e))),
    (λ e. absurd (ground (arith, e))),
    λ e. absurd (ground (arith, e)),
  )

module _ {S : Type 0} (vm : VirtualMemory S) where
  -- After n cycles from `pipeline_init` that the run survives, an instruction in WB is the decoding,
  -- register operands aside, of the word that the memory gave to `stage_IF` at the program counter of the
  -- architectural state, in an earlier cycle of the run; it has the operands that its registers now hold,
  -- has been executed with them in a cycle of the run, with the state that the simulator had then, and
  -- has made its memory access in the memory that the latest cycle which did not wait for a load
  -- started with, while the memory of now is what that cycle left; and `stage_WB` writes its result and moves the
  -- program counter to its successor.
  pub run_pipeline-retires :
      (n : ℕ) (b : Bool) (c c' : Core S)
      → run_pipeline vm b n (pipeline_init b c) ≡ some c'
      → let w = latch c' c'.cpu_pipe.wb in
        w.valid ≡ true
        → IsStep vm b (pipeline_init b c) n c' w.ir
          × ((stage_wb c').cpu ≡ record (ir_writeback w.ir c'.cpu) { pc = w.ir.dnpc })
  unfolding stage_wb
  run_pipeline-retires n b c c' e valid =
      let start = pipeline_init b c in
      let (r, h) = subst (Post (λ d. IsReady b d × Sourced vm b start n d)) e (
        run_pipeline-Sourced vm b start n (pipeline_init-IsReady vm b c)
          (pipeline_init-Sourced vm b c)) in
      (
        retired-IsStep vm b start n c' (latch c' c'.cpu_pipe.wb).ir (r.holds.wb valid) (h.3 valid),
        rw valid refl,
      )
