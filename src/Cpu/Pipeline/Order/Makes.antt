-- ===== src/Cpu/Pipeline/Order/Makes.antt =====
-- A cycle and where the instructions in the latches come from
use sustemu.Base.{
  ℕ, ◌%◌, ◌^◌, ◌≡◌, refl, sym, ap, ◌∙◌, subst, Bool, true, false, some, not, ◌&&◌, if◌then◌else◌,
  if-cases, Post, Post-bind, Post-step, arith,
}
use sustemu.Word.{add64}
use sustemu.Cpu.Ir.Inst.{IrInst}
use sustemu.Cpu.Ir.MemAccess.{ir_mem_access}
use sustemu.Cpu.Ir.Decode.{ir_decode}
use sustemu.Cpu.Ir.Addresses.{ir_decode-pc}
use sustemu.Cpu.Bpred.Model.{bpred_predict}
use sustemu.Cpu.Ooo.Cycle.{is_control_raw}
use sustemu.Cpu.Pipeline.State.{Core, with_pipe, latch, set_latch}
use sustemu.Cpu.Pipeline.Stages.{
  fetched, jump, predict_next, stage_if, stage_id, stage_ex, stage_mem, stage_wb,
}
use sustemu.Cpu.Pipeline.Cycle.{begin, rotate, advance}
use sustemu.Cpu.Pipeline.Order.{View, view}
use sustemu.Cpu.Pipeline.Order.Pointers.{IsApart, set_wb}
use sustemu.Cpu.Pipeline.Order.Retire.{Mid}
use sustemu.Cpu.Pipeline.Order.Made.{
  static, Fetches, IsFetchedInst, IsExecutedInst, IsAccessedInst, Made, Nothing, stage_wb-Made,
  stage_mem-Made, stage_ex-Made, stage_id-Made,
}
use sustemu.Memory.Vmem.{VirtualMemory}

module _ {S : Type 0} (vm : VirtualMemory S) (b : Bool) (H : Core S → Type 0) where
  abbrev F : IrInst → Type 0
  F = IsFetchedInst vm b H

  abbrev X : IrInst → Type 0
  X = IsExecutedInst vm b H

  -- An instruction with the access that it has made in the cycle that starts in c
  abbrev A : Core S → IrInst → Type 0
  A c = IsAccessedInst vm b H (λ d. d ≡ c)

  module _ (c₀ : Core S) where
    -- Before the rotation
    abbrev Whole : View → Type 0
    Whole = Made F X (A c₀) F

    abbrev Loaded : View → Type 0
    Loaded = Made F F (A c₀) Nothing

    abbrev Unfetched : View → Type 0
    Unfetched = Made F X (A c₀) Nothing

    done-Whole :
        (c : Core S) (ir : IrInst) (taken : Bool) (pc : ℕ)
        → Mid Unfetched c
        → F (record ir { bp_predict_taken = taken; bp_predicted_pc = pc })
        → Mid Whole (with_pipe (jump pc) (set_latch c.g_fetch_slot (fetched ir taken pc) c))
    done-Whole c ir taken pc m f =
        let (i, e, x, w) = m.holds in
        record { apart = m.apart; slot = m.slot; holds = subst Whole placed (i, e, x, λ v. f) }
      where
        placed :
            record (view c) { wb = fetched ir taken pc (latch c c.cpu_pipe.wb); fetch_pc = pc }
            ≡ view (with_pipe (jump pc) (set_latch c.g_fetch_slot (fetched ir taken pc) c))
        placed = rw m.slot (
            ap {A = View} {B = View} (λ y. record y { fetch_pc = pc })
              (sym (set_wb c (fetched ir taken pc) m.apart)))

    predict_next-Whole :
        (c : Core S) (pc raw : ℕ) (ir : IrInst)
        → Mid Unfetched c
        → F ir
        → Mid Whole (predict_next b pc raw ir c)
    unfolding predict_next
    predict_next-Whole c pc raw ir m f =
        if-cases (Mid Whole) (b && is_control_raw raw)
          (λ q.
            let (r, p) = bpred_predict c.bpred pc raw in
            done-Whole (record c { bpred = p }) ir r.taken
              (if r.taken && r.btb_hit then r.target else add64 pc 4)
              (record { apart = m.apart; slot = m.slot; holds = m.holds }) f)
          (λ q. done-Whole c ir false (add64 pc 4) m f)

    stage_if-Whole :
        (c : Core S) → Fetches vm b H c → Mid Unfetched c → Post (Mid Whole) (stage_if vm b c)
    unfolding stage_if
    stage_if-Whole c fetches m =
        let (i, e, x, w) = m.holds in
        if-cases (Post (Mid Whole)) c.g_pipe_stalled
          (λ q. record {
            apart = m.apart;
            slot = m.slot;
            holds = (i, e, x, λ v. absurd (ground (arith, w v)));
          })
          (λ q. Post-step (Mid Whole) (vm.vaddr_ifetch c.vmem c.cpu_pipe.fetch_pc 4) _ (λ r p.
            let pc = c.cpu_pipe.fetch_pc in
            let raw = r.0 % 2 ^ 32 in
            let old = (latch c c.g_fetch_slot).ir in
            predict_next-Whole (record c { vmem = r.1 }) pc raw
              (ir_decode c.cpu raw pc (add64 pc 4) old)
              (record { apart = m.apart; slot = m.slot; holds = m.holds })
              (c, r.0, r.1, fetches, q, p, (ir_decode-pc c.cpu raw pc (add64 pc 4) old).0, refl)))

    -- After the rotation
    abbrev pub Rotated : View → Type 0
    Rotated = Made F F X (A c₀)

    rotate-Rotated : (c : Core S) → Mid Whole c → Rotated (view (rotate c))
    unfolding rotate
    rotate-Rotated c m =
        let (i, e, x, w) = m.holds in
        if-cases (λ (c' : Core S). Rotated (view c')) c.g_pipe_stalled (λ q. rw m.slot (i, w, e, x))
          (λ q. rw m.slot (w, i, e, x))

  -- What decoding gave stays when operands are read.
  same_static : (ir ir' : IrInst) → static ir' ≡ static ir → F ir → F ir'
  same_static ir ir' same (c, word, s, f, g, p, at, e) =
      (c, word, s, f, g, p, ap (λ x. x.pc) same ∙ at, same ∙ e)

  stage_wb-vmem : (c : Core S) → (stage_wb c).vmem ≡ c.vmem
  unfolding stage_wb
  stage_wb-vmem c =
      if-cases (λ (c' : Core S). c'.vmem ≡ c.vmem) (not (latch c c.cpu_pipe.wb).valid) (λ q. refl)
        (λ q. refl)

  pub advance-Rotated :
      (W : IrInst → Type 0) (c : Core S)
      → H c
      → IsApart c.cpu_pipe
      → Made F F X W (view c)
      → Post (λ (c' : Core S). Rotated c (view c')) (advance vm b c)
  unfolding advance
  advance-Rotated W c h a holds = Post-step Goal (stage_mem vm (stage_wb (begin c))) _ (λ c₁ p.
      Post-step Goal (stage_ex b c₁) _ (λ c₂ q.
        Post-bind (Mid (Whole c)) Goal (stage_if vm b (stage_id c₂)) _
          (stage_if-Whole c (stage_id c₂) (c, c₁, c₂, (h, p), q, refl)
            (stage_id-Made F X (A c) Nothing same_static c₂ (executed c₁ c₂ p q)))
          (rotate-Rotated c)))
    where
      Goal : Core S → Type 0
      Goal c' = Rotated c (view c')

      loaded : (c₁ : Core S) → stage_mem vm (stage_wb (begin c)) ≡ some c₁ → Mid (Loaded c) c₁
      loaded c₁ p = subst (Post (Mid (Loaded c))) p (
          stage_mem-Made F F X Nothing vm (A c) (stage_wb (begin c))
            (λ ir ir' s' lat x e. (
              ir,
              c,
              lat,
              s',
              refl,
              x,
              subst (λ s. ir_mem_access vm true ir s ≡ some (ir', lat, s'))
                  (stage_wb-vmem (begin c)) e,
            ))
            (stage_wb-Made F F X W (begin c) (record { apart = a; slot = refl; holds = holds })))

      executed :
          (c₁ c₂ : Core S)
          → stage_mem vm (stage_wb (begin c)) ≡ some c₁
          → stage_ex b c₁ ≡ some c₂
          → Mid (Unfetched c) c₂
      executed c₁ c₂ p q = subst (Post (Mid (Unfetched c))) q (
          stage_ex-Made F F (A c) Nothing b X c₁ (λ ir ir' s' f e. (ir, c, c₁, s', (h, p), f, e))
            (loaded c₁ p))
