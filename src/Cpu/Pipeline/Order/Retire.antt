-- ===== src/Cpu/Pipeline/Order/Retire.antt =====
-- `stage_WB` and `stage_MEM` keep the order.
use sustemu.Base.{
  ℕ, suc, ◌≡◌, refl, sym, ap, ◌∙◌, subst, Bool, true, false, ltb, ◌&&◌, not, if◌then◌else◌,
  if-cases, ne→==, Post, Post-bind, Post-then, arith,
}
use sustemu.Cpu.Ir.Inst
use sustemu.Cpu.Ir.Inst.{IrInst, IrInstType}
use sustemu.Cpu.Ir.Exec.{is_reg, ir_writeback}
use sustemu.Cpu.Ir.Step.{ir_writeback_lem}
use sustemu.Cpu.Ir.Kept.{Kept, kept}
use sustemu.Cpu.Ir.MemAccess.{ir_mem_access, access_as, read_word}
use sustemu.Cpu.Ooo.State.{PipeReg}
use sustemu.Cpu.Pipeline.State.{Core, drop, hold, latch, set_latch}
use sustemu.Cpu.Pipeline.Stages.{is_load, stage_wb, stage_mem, stall_miss}
use sustemu.Cpu.Pipeline.Order.{View, view, shown, next, At, Reads, IsInOrder, IsRetired, IsLoaded}
use sustemu.Cpu.Pipeline.Order.Pointers.{IsApart, set_wb, set_mem}
use sustemu.Memory.Vmem.{VirtualMemory}

-- Within a cycle: the pointers are apart, and the slot to fetch into is the one behind `wb`.
pub record Mid {S : Type 0} (P : View → Type 0) (c : Core S) : Type 0 where
  pub apart : IsApart c.cpu_pipe
  pub slot : c.g_fetch_slot ≡ c.cpu_pipe.wb
  pub holds : P (view c)

pub Reads-ext :
    (k : Kept) (g g' : ℕ → ℕ) → ((r : ℕ) → g (suc r) ≡ g' (suc r)) → Reads k g → Reads k g'
Reads-ext k g g' h m r = (λ e. (m r).0 e ∙ h r, λ e. (m r).1 e ∙ h r)

At-ext :
    (l : PipeReg) (pc : ℕ) (g g' : ℕ → ℕ)
    → ((r : ℕ) → g (suc r) ≡ g' (suc r))
    → At l pc g
    → At l pc g'
At-ext l pc g g' h m valid = ((m valid).0, Reads-ext (kept l.ir) g g' h (m valid).1)

shown-ext :
    (l : PipeReg) (x : ℕ) (g g' : ℕ → ℕ) (r : ℕ) → g r ≡ g' r → shown l x g r ≡ shown l x g' r
shown-ext l x g g' r h = ap (λ y. if l.valid && is_reg l.ir.rd r then x else y) h

-- The view after the instruction in WB has retired
abbrev retired : View → View
retired v = record v {
  wb = drop v.wb;
  pc = w.ir.dnpc;
  gpr = (ir_writeback w.ir (record { gpr = v.gpr; pc = v.pc })).gpr;
}
  where
    w : PipeReg
    w = v.wb

module _ (b : Bool) (v : View) (i : IsInOrder b v) where
  retire_none : v.wb.valid ≡ false → IsRetired b v
  retire_none e = record {
    wb = e;
    mem = rw e at i.mem;
    ex = rw e at i.ex;
    id = rw e at i.id;
    fetch = rw e at i.fetch;
    plain_ex = i.plain_ex;
    plain_id = i.plain_id;
  }

  retire_one : v.wb.valid ≡ true → IsRetired b (retired v)
  retire_one e = record {
    wb = refl;
    mem = At-ext v.mem v.wb.ir.dnpc left (retired v).gpr written (rw e at i.mem);
    ex = λ x p.
        At-ext v.ex (next v.mem v.wb.ir.dnpc) (shown v.mem x left) (shown v.mem x (retired v).gpr)
          (λ r. shown-ext v.mem x left (retired v).gpr (suc r) (written r)) (rw e at (i.ex x p));
    id = rw e at i.id;
    fetch = rw e at i.fetch;
    plain_ex = i.plain_ex;
    plain_id = i.plain_id;
  }
    where
      left : ℕ → ℕ
      left r = if is_reg v.wb.ir.rd r then v.wb.ir.result else v.gpr r

      written : (r : ℕ) → left (suc r) ≡ (retired v).gpr (suc r)
      written r =
          rw
            (
              (ir_writeback_lem v.wb.ir (record { gpr = v.gpr; pc = v.pc }) (suc r)).0,
              ne→== (suc r) 0 (omega arith),
            )
            refl

-- An empty MEM latch has nothing to load.
load_none : (b : Bool) (v : View) → IsRetired b v → v.mem.valid ≡ false → IsLoaded b v
load_none b v r e = record {
  wb = r.wb;
  mem = r.mem;
  ex = r.ex v.mem.ir.result (λ q. refl);
  id = r.id;
  fetch = r.fetch;
  plain_ex = r.plain_ex;
  plain_id = r.plain_id;
}

-- What the memory access leaves of an instruction
abbrev pub SameBut : IrInst → IrInst → Type 0
SameBut a b =
    (kept b ≡ kept a)
    × (b.type ≡ a.type)
    × (b.rd ≡ a.rd)
    × (b.dnpc ≡ a.dnpc)
    × (is_load a.type ≡ false → b.result ≡ a.result)

module _ {S : Type 0} (vm : VirtualMemory S) (timed : Bool) (ir : IrInst) (s : S) where
  access_as-SameBut :
      (t : IrInstType)
      → ir.type ≡ t
      → Post (λ (r : IrInst × ℕ × S). SameBut ir r.0) (access_as vm t timed ir s)
  unfolding access_as
  access_as-SameBut Inst.itype_load e =
      Post-then (λ (r : IrInst × ℕ × S). SameBut ir r.0)
        (read_word vm timed ir.mem_addr ir.mem_width s) _
        (λ r. (refl, refl, refl, refl, λ q. absurd (ground (arith, rw e at q))))
  access_as-SameBut Inst.itype_store e =
      Post-then (λ (r : IrInst × ℕ × S). SameBut ir r.0)
        (vm.vaddr_write s ir.mem_addr ir.mem_width ir.src2_val) _
        (λ r. (refl, refl, refl, refl, λ q. refl))
  access_as-SameBut Inst.itype_alu e = (refl, refl, refl, refl, λ q. refl)
  access_as-SameBut Inst.itype_branch e = (refl, refl, refl, refl, λ q. refl)
  access_as-SameBut Inst.itype_jal e = (refl, refl, refl, refl, λ q. refl)
  access_as-SameBut Inst.itype_jalr e = (refl, refl, refl, refl, λ q. refl)
  access_as-SameBut Inst.itype_lui e = (refl, refl, refl, refl, λ q. refl)
  access_as-SameBut Inst.itype_auipc e = (refl, refl, refl, refl, λ q. refl)
  access_as-SameBut Inst.itype_csr e = (refl, refl, refl, refl, λ q. refl)
  access_as-SameBut Inst.itype_system e = (refl, refl, refl, refl, λ q. refl)
  access_as-SameBut Inst.itype_fence e = (refl, refl, refl, refl, λ q. refl)
  access_as-SameBut Inst.itype_invalid e = (refl, refl, refl, refl, λ q. refl)

  pub ir_mem_access-SameBut :
      Post (λ (r : IrInst × ℕ × S). SameBut ir r.0) (ir_mem_access vm timed ir s)
  unfolding ir_mem_access
  ir_mem_access-SameBut = access_as-SameBut ir.type refl

-- With its result final, the instruction in MEM shows what EX reads.
load_one :
    (b : Bool) (v : View) (ir : IrInst)
    → IsRetired b v
    → SameBut v.mem.ir ir
    → IsLoaded b (record v { mem = hold ir v.mem })
load_one b v ir r (k, t, d, n, u) = record {
  wb = r.wb;
  mem = λ valid.
      (ap (λ x. x.pc) k ∙ (r.mem valid).0, subst (λ x. Reads x v.gpr) (sym k) (r.mem valid).1);
  ex = λ valid. (
    (r.ex ir.result u valid).0 ∙ ap (λ x. if v.mem.valid then x else v.pc) (sym n),
    Reads-ext (kept v.ex.ir) (shown v.mem ir.result v.gpr) (shown (hold ir v.mem) ir.result v.gpr)
        (λ q.
          ap (λ o. if v.mem.valid && is_reg o (suc q) then ir.result else v.gpr (suc q)) (sym d))
        (r.ex ir.result u valid).1,
  );
  id = λ valid. rw n (r.id valid);
  fetch = rw n r.fetch;
  plain_ex = r.plain_ex;
  plain_id = r.plain_id;
}

module _ {S : Type 0} (b : Bool) where
  pub stage_wb-IsRetired : (c : Core S) → Mid (IsInOrder b) c → Mid (IsRetired b) (stage_wb c)
  unfolding stage_wb
  stage_wb-IsRetired c m =
      if-cases (Mid (IsRetired b)) (not (latch c c.cpu_pipe.wb).valid)
        (λ e. record {
          apart = m.apart;
          slot = m.slot;
          holds = retire_none b (view c) m.holds (ground (arith, e));
        })
        (λ e. record {
          apart = m.apart;
          slot = m.slot;
          holds =
              subst (IsRetired b)
                (ap {A = View} {B = View}
                  (λ x. record x { pc = w.ir.dnpc; gpr = (ir_writeback w.ir c.cpu).gpr })
                  (sym (set_wb c drop m.apart)))
                (retire_one b (view c) m.holds (ground (arith, e)));
        })
    where
      w : PipeReg
      w = latch c c.cpu_pipe.wb

module _ {S : Type 0} where
  pub stall_miss-Mid :
      (P : View → Type 0) (lat : ℕ) (ir : IrInst) (c : Core S)
      → Mid P c
      → Mid P (stall_miss lat ir c)
  unfolding stall_miss
  stall_miss-Mid P lat ir c m =
      if-cases (Mid P) (ltb 1 lat && is_load ir.type)
        (λ q. record { apart = m.apart; slot = m.slot; holds = m.holds }) (λ q. m)

  hold-IsLoaded :
      (b : Bool) (ir : IrInst) (c : Core S)
      → Mid (IsRetired b) c
      → SameBut (latch c c.cpu_pipe.mem).ir ir
      → Mid (IsLoaded b) (set_latch c.cpu_pipe.mem (hold ir) c)
  hold-IsLoaded b ir c m p = record {
    apart = m.apart;
    slot = m.slot;
    holds =
        subst (IsLoaded b) (sym (set_mem c (hold ir) m.apart)) (load_one b (view c) ir m.holds p);
  }

module _ {S : Type 0} (vm : VirtualMemory S) (b : Bool) where
  pub stage_mem-IsLoaded :
      (c : Core S) → Mid (IsRetired b) c → Post (Mid (IsLoaded b)) (stage_mem vm c)
  unfolding stage_mem
  stage_mem-IsLoaded c m =
      if-cases (Post (Mid (IsLoaded b))) (not l.valid)
        (λ e. record {
          apart = m.apart;
          slot = m.slot;
          holds = load_none b (view c) m.holds (ground (arith, e));
        })
        (λ e.
          Post-bind (λ (r : IrInst × ℕ × S). SameBut l.ir r.0) (Mid (IsLoaded b))
            (ir_mem_access vm true l.ir c.vmem) _ (ir_mem_access-SameBut vm true l.ir c.vmem)
            (λ r p.
              stall_miss-Mid (IsLoaded b) r.1 r.0
                (set_latch c.cpu_pipe.mem (hold r.0) (record c { vmem = r.2 }))
                (hold-IsLoaded b r.0 (record c { vmem = r.2 })
                  (record { apart = m.apart; slot = m.slot; holds = m.holds }) p)))
    where
      l : PipeReg
      l = latch c c.cpu_pipe.mem
