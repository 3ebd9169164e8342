-- ===== src/Cpu/Pipeline/Order/Made.antt =====
-- Where the instructions in the latches come from: the cycles that fetched them, executed them and
-- made their memory accesses.
use mathlib.Core.Path.{ap₂}
use sustemu.Base.{
  zero, suc, none, Option, ◌%◌, ◌^◌, ◌∙◌, ◌&&◌, ℕ, ◌+◌, ◌≡◌, refl, sym, subst, Bool, true, false,
  some, not, if◌then◌else◌, if-cases, Post, Post-step, arith,
}
use sustemu.Word.{add64}
use sustemu.Cpu.Ir.Inst.{IrInst}
use sustemu.Cpu.Ir.Decode.{ir_decode}
use sustemu.Cpu.Ir.Exec.{Sim, ir_execute}
use sustemu.Cpu.Ir.MemAccess.{ir_mem_access}
use sustemu.Cpu.Ooo.State.{PipeReg}
use sustemu.Cpu.Pipeline.State.{Core, drop, hold, with_stats, latch, set_latch}
use sustemu.Cpu.Pipeline.Stages.{
  is_load, same_reg, reread, inv, operands, forward, read_registers, load_use, redirect, stage_id,
  stage_ex, stage_mem, stage_wb,
}
use sustemu.Cpu.Pipeline.Cycle.{begin}
use sustemu.Cpu.Pipeline.Order.{View}
use sustemu.Cpu.Pipeline.Order.Pointers.{set_id, set_ex, set_mem, set_wb}
use sustemu.Cpu.Pipeline.Order.Retire.{Mid, stall_miss-Mid}
use sustemu.Cpu.Pipeline.Order.Execute.{away, redirect-Mid}
use sustemu.Memory.Vmem.{VirtualMemory}

-- The value of an operand that is not a register of the file, such as an immediate
abbrev fixed : Option ℕ → ℕ → ℕ
fixed rs v = reread (λ r. 0) rs v

-- An instruction without what it reads from the registers and without its prediction
abbrev pub static : IrInst → IrInst
static ir = record ir {
  src1_val = fixed ir.rs1 ir.src1_val;
  src2_val = fixed ir.rs2 ir.src2_val;
  bp_predict_taken = false;
  bp_predicted_pc = 0;
}

-- A cycle starts in a core of H.
module _ {S : Type 0} (vm : VirtualMemory S) (b : Bool) (H : Core S → Type 0) where
  -- The cycle that starts in d comes to l after `stage_MEM`.
  abbrev pub Loads : Core S → Core S → Type 0
  Loads d l = H d × (stage_mem vm (stage_wb (begin d)) ≡ some l)

  -- `stage_IF` of such a cycle finds the core c.
  abbrev pub Fetches : Core S → Type 0
  Fetches c =
      (d : Core S) × (l : Core S) × (e : Core S) × Loads d l
      × (stage_ex b l ≡ some e)
      × (c ≡ stage_id e)

  -- The word that the memory of that core gives at its `fetch_pc`, decoded there
  abbrev pub IsFetchedInst : IrInst → Type 0
  IsFetchedInst ir =
      (c : Core S) × (word : ℕ) × (s : S) × Fetches c
      × (c.g_pipe_stalled ≡ false)
      × (vm.vaddr_ifetch c.vmem c.cpu_pipe.fetch_pc 4 ≡ some (word, s))
      × (ir.pc ≡ c.cpu_pipe.fetch_pc)
      × (static ir
          ≡ static (
              ir_decode c.cpu (word % 2 ^ 32) c.cpu_pipe.fetch_pc (add64 c.cpu_pipe.fetch_pc 4)
                (latch c c.g_fetch_slot).ir))

  -- A fetched instruction, executed by `stage_EX` of such a cycle
  abbrev pub IsExecutedInst : IrInst → Type 0
  IsExecutedInst ir =
      (before : IrInst) × (d : Core S) × (l : Core S) × (sim : Sim) × Loads d l
      × IsFetchedInst before
      × (ir_execute before l.sim ≡ some (ir, sim))

  -- An executed instruction with its memory access, made in the memory of a core of A
  abbrev pub IsAccessedInst : (Core S → Type 0) → IrInst → Type 0
  IsAccessedInst A ir =
      (before : IrInst) × (d : Core S) × (lat : ℕ) × (s : S) × A d
      × IsExecutedInst before
      × (ir_mem_access vm true before d.vmem ≡ some (ir, lat, s))

-- The same for more cores
module _ {S : Type 0} (vm : VirtualMemory S) (b : Bool) (H H' : Core S → Type 0)
    (more : (d : Core S) → H d → H' d) where
  pub IsFetchedInst-mono : (ir : IrInst) → IsFetchedInst vm b H ir → IsFetchedInst vm b H' ir
  IsFetchedInst-mono ir (c, word, s, (d, l, e, (h, m), x, i), g, f, a, k) =
      (c, word, s, (d, l, e, (more d h, m), x, i), g, f, a, k)

  pub IsExecutedInst-mono : (ir : IrInst) → IsExecutedInst vm b H ir → IsExecutedInst vm b H' ir
  IsExecutedInst-mono ir (before, d, l, sim, (h, m), f, e) =
      (before, d, l, sim, (more d h, m), IsFetchedInst-mono before f, e)

  pub IsAccessedInst-mono :
      (A A' : Core S → Type 0)
      → ((d : Core S) → A d → A' d)
      → (ir : IrInst) → IsAccessedInst vm b H A ir
      → IsAccessedInst vm b H' A' ir
  IsAccessedInst-mono A A' also ir (before, d, lat, s, a, x, e) =
      (before, d, lat, s, also d a, IsExecutedInst-mono before x, e)

-- Operands are read and forwarded for registers only.
reread_again : (gpr : ℕ → ℕ) (rs : Option ℕ) (v : ℕ) → fixed rs (reread gpr rs v) ≡ fixed rs v
reread_again gpr none v = refl
reread_again gpr (some zero) v = refl
reread_again gpr (some (suc r)) v = refl

fixed-forward :
    (on : Bool) (rd rs : Option ℕ) (x v : ℕ)
    → fixed rs (if on && same_reg rd rs then x else v) ≡ fixed rs v
fixed-forward false rd rs x v = refl
fixed-forward true rd (some (suc r)) x v = refl
fixed-forward true none none x v = refl
fixed-forward true (some zero) none x v = refl
fixed-forward true (some (suc d)) none x v = refl
fixed-forward true none (some zero) x v = refl
fixed-forward true (some zero) (some zero) x v = refl
fixed-forward true (some (suc d)) (some zero) x v = ground arith

static_as :
    (ir : IrInst) (v w : ℕ)
    → fixed ir.rs1 v ≡ fixed ir.rs1 ir.src1_val
    → fixed ir.rs2 w ≡ fixed ir.rs2 ir.src2_val
    → static (record ir { src1_val = v; src2_val = w }) ≡ static ir
static_as ir v w p q =
    ap₂
      (λ (x y : ℕ). record ir {
        src1_val = x;
        src2_val = y;
        bp_predict_taken = false;
        bp_predicted_pc = 0;
      })
      p q

static-read_registers : (gpr : ℕ → ℕ) (ir : IrInst) → static (read_registers gpr ir) ≡ static ir
unfolding read_registers
static-read_registers gpr ir =
    static_as ir (reread gpr ir.rs1 ir.src1_val) (reread gpr ir.rs2 ir.src2_val)
      (reread_again gpr ir.rs1 ir.src1_val) (reread_again gpr ir.rs2 ir.src2_val)

static-forward : (on : Bool) (older ir : IrInst) → static (forward on older ir) ≡ static ir
unfolding forward
static-forward on older ir =
    static_as ir _ _ (fixed-forward on older.rd ir.rs1 older.result ir.src1_val)
      (fixed-forward on older.rd ir.rs2 older.result ir.src2_val)

static-operands :
    (mem ex : PipeReg) (gpr : ℕ → ℕ) (ir : IrInst) → static (operands mem ex gpr ir) ≡ static ir
unfolding operands
static-operands mem ex gpr ir =
    static-forward (ex.valid && not (is_load ex.ir.type)) ex.ir
      (forward mem.valid mem.ir (read_registers gpr ir))
    ∙ static-forward mem.valid mem.ir (read_registers gpr ir)
    ∙ static-read_registers gpr ir

abbrev Each : (IrInst → Type 0) → PipeReg → Type 0
Each P l = l.valid ≡ true → P l.ir

-- What holds of the valid latches ID, EX, MEM and WB
abbrev pub Made : (F E M W : IrInst → Type 0) → View → Type 0
Made F E M W v = Each F v.id × Each E v.ex × Each M v.mem × Each W v.wb

pub Made-mono :
    (F E M W F' E' M' W' : IrInst → Type 0)
    → ((ir : IrInst) → F ir → F' ir)
    → ((ir : IrInst) → E ir → E' ir)
    → ((ir : IrInst) → M ir → M' ir)
    → ((ir : IrInst) → W ir → W' ir)
    → (v : View) → Made F E M W v
    → Made F' E' M' W' v
Made-mono F E M W F' E' M' W' f g h k v (i, e, x, w) =
    (λ q. f v.id.ir (i q), λ q. g v.ex.ir (e q), λ q. h v.mem.ir (x q), λ q. k v.wb.ir (w q))

abbrev pub Nothing : IrInst → Type 0
Nothing ir = true ≡ false

dropped : (P : IrInst → Type 0) (l : PipeReg) → Each P (drop l)
dropped P l e = absurd (ground (arith, e))

module _ {S : Type 0} (F E M W : IrInst → Type 0) where
  pub stage_wb-Made : (c : Core S) → Mid (Made F E M W) c → Mid (Made F E M Nothing) (stage_wb c)
  unfolding stage_wb
  stage_wb-Made c m =
      let (i, e, x, w) = m.holds in
      if-cases (Mid (Made F E M Nothing)) (not l.valid)
        (λ q. record {
          apart = m.apart;
          slot = m.slot;
          holds = (i, e, x, λ r. absurd (ground (arith, q, r)));
        })
        (λ q. record {
          apart = m.apart;
          slot = m.slot;
          holds =
              subst (Made F E M Nothing) (sym (set_wb c drop m.apart)) (i, e, x, dropped Nothing l);
        })
    where
      l : PipeReg
      l = latch c c.cpu_pipe.wb

  pub stage_mem-Made :
      (vm : VirtualMemory S) (A : IrInst → Type 0) (c : Core S)
      → ((ir ir' : IrInst) (s' : S) (lat : ℕ)
          → M ir
          → ir_mem_access vm true ir c.vmem ≡ some (ir', lat, s')
          → A ir')
      → Mid (Made F E M W) c
      → Post (Mid (Made F E A W)) (stage_mem vm c)
  unfolding stage_mem
  stage_mem-Made vm A c step m =
      let (i, e, x, w) = m.holds in
      if-cases (Post (Mid (Made F E A W))) (not l.valid)
        (λ q. record {
          apart = m.apart;
          slot = m.slot;
          holds = (i, e, λ r. absurd (ground (arith, q, r)), w);
        })
        (λ q. Post-step (Mid (Made F E A W)) (ir_mem_access vm true l.ir c.vmem) _ (λ r p.
          stall_miss-Mid (Made F E A W) r.1 r.0
            (set_latch c.cpu_pipe.mem (hold r.0) (record c { vmem = r.2 }))
            (record {
              apart = m.apart;
              slot = m.slot;
              holds =
                  subst (Made F E A W) (sym (set_mem (record c { vmem = r.2 }) (hold r.0) m.apart))
                    (i, e, λ v. step l.ir r.0 r.2 r.1 (x v) p, w);
            })))
    where
      l : PipeReg
      l = latch c c.cpu_pipe.mem

  pub stage_ex-Made :
      (b : Bool) (X : IrInst → Type 0) (c : Core S)
      → ((ir ir' : IrInst) (s' : Sim) → E ir → ir_execute ir c.sim ≡ some (ir', s') → X ir')
      → Mid (Made F E M W) c
      → Post (Mid (Made F X M W)) (stage_ex b c)
  unfolding stage_ex
  stage_ex-Made b X c step m =
      let (i, e, x, w) = m.holds in
      if-cases (Post (Mid (Made F X M W))) (not l.valid)
        (λ q. record {
          apart = m.apart;
          slot = m.slot;
          holds = (i, λ r. absurd (ground (arith, q, r)), x, w);
        })
        (λ q. Post-step (Mid (Made F X M W)) (ir_execute l.ir c.sim) _ (λ r p.
          executed r.0 (if r.0.fault then inv r.1 else r.1) (λ v. step l.ir r.0 r.1 (e v) p)))
    where
      l : PipeReg
      l = latch c c.cpu_pipe.ex

      executed :
          (ir : IrInst) (sim : Sim)
          → (l.valid ≡ true → X ir)
          → Mid
              (Made F X M W)
              (redirect b ir (set_latch c.cpu_pipe.ex (hold ir) (record c { sim = sim })))
      executed ir sim k =
          let (i, e, x, w) = m.holds in
          redirect-Mid (Made F X M W) b ir
            (set_latch c.cpu_pipe.ex (hold ir) (record c { sim = sim })) m.apart m.slot
            (λ q. subst (Made F X M W) (sym (set_ex c (hold ir) m.apart)) (i, k, x, w))
            (subst (λ y. Made F X M W (away ir.dnpc y)) (sym (set_ex c (hold ir) m.apart))
              (dropped F (latch c c.cpu_pipe.id), k, x, dropped W (latch c c.cpu_pipe.wb)))

  pub stage_id-Made :
      ((ir ir' : IrInst) → static ir' ≡ static ir → F ir → F ir')
      → (c : Core S) → Mid (Made F E M W) c
      → Mid (Made F E M W) (stage_id c)
  unfolding stage_id
  stage_id-Made step c m =
      if-cases (Mid (Made F E M W)) (not l.valid) (λ q. m)
        (λ q.
          if-cases (Mid (Made F E M W)) (load_use (latch c c.cpu_pipe.ex) l.ir)
            (λ u.
              waiting (held (read_registers c.cpu.gpr l.ir) (static-read_registers c.cpu.gpr l.ir)))
            (λ u.
              held (operands (latch c c.cpu_pipe.mem) (latch c c.cpu_pipe.ex) c.cpu.gpr l.ir)
                (static-operands (latch c c.cpu_pipe.mem) (latch c c.cpu_pipe.ex) c.cpu.gpr l.ir)))
    where
      l : PipeReg
      l = latch c c.cpu_pipe.id

      held :
          (ir : IrInst)
          → static ir ≡ static l.ir
          → Mid (Made F E M W) (set_latch c.cpu_pipe.id (hold ir) c)
      held ir same =
          let (i, e, x, w) = m.holds in
          record {
            apart = m.apart;
            slot = m.slot;
            holds =
                subst (Made F E M W) (sym (set_id c (hold ir) m.apart))
                  (λ v. step l.ir ir same (i v), e, x, w);
          }

      waiting :
          {c' : Core S}
          → Mid (Made F E M W) c'
          → Mid
              (Made F E M W)
              (record (with_stats (λ st. record st { stall_load_use = st.stall_load_use + 1 }) c') {
                g_pipe_stalled = true;
              })
      waiting h = record { apart = h.apart; slot = h.slot; holds = h.holds }
