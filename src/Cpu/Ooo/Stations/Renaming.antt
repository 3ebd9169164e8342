-- ===== src/Cpu/Ooo/Stations/Renaming.antt =====
-- A renamed instruction enters a free station: what it waits for is still to come.
use sustemu.Base.{
  Post, Post-bind, ℕ, zero, suc, ◌+◌, ◌-◌, ◌<◌, ◌≡◌, refl, sym, ◌∙◌, ap, subst, Bool, true, false,
  Option, none, some, ◌==◌, ◌&&◌, ◌||◌, not, ltb, leb, if◌then◌else◌, update, update_self,
  Bool-cases, inl, inr, arith, if-cases, ◌>>=◌,
}
use sustemu.Cpu.Ir.Inst.{IrInst}
use sustemu.Cpu.Ooo.State.{Ooo, Stats, PhysReg, RsEntry, PipeReg, EuType, eu_eq, rs_size, rob_size}
use sustemu.Cpu.Ooo.Rename.{
  rename_one, rename_loop, alloc_phys, source, freelist_pop, rs_mask_update, classify,
  takes_register, compact, ooo_stage_rn, popcount, drop_latch, all_ready, set_bit,
}
use sustemu.Cpu.Ooo.Masks.{IsLowest, IsLowest-popcount, popcount-clear, popcount-le}
use sustemu.Cpu.Ooo.Names.{names, IsSound}
use sustemu.Cpu.Ooo.Names.Renaming.{
  InFile, RegsInFile, WaitersInFile, renames, enter_as-IsSound, drop-InFile,
}
use sustemu.Cpu.Ooo.Names.Reached.{mapped}
use sustemu.Cpu.Ooo.Stations.{Waits, IsStation, IsScheduled}
use sustemu.Cpu.Ooo.Stations.Waking.{Quieter, put-IsStation}

-- A source that is not there is a renamed register without its value.
source-Waits :
    (o : Ooo) (r : Option ℕ) (v : ℕ)
    → IsSound (names o)
    → InFile r
    → (source o r v).ready ≡ false
    → Waits o.prf (source o r v).ptag
unfolding source
source-Waits o none v k f e = cc
source-Waits o (some zero) v k f e = cc
source-Waits o (some (suc r)) v k f e = ((mapped (names o) k (suc r) (omega arith) f).0, e)

module _ (o : Ooo) (ir : IrInst) (slot : ℕ) (low : IsLowest rs_size 0 o.rs_free_mask slot)
    (k : IsSound (names o)) (f : RegsInFile ir) (s : IsScheduled o) where
  -- The station of the instruction
  abbrev entered : Option ℕ → RsEntry
  entered p =
      let src1 = source o ir.rs1 ir.src1_val in
      let src2 = source o ir.rs2 ir.src2_val in
      record {
        valid = true;
        phys_rd = p;
        rob_idx = o.rob_tail;
        src1_ready = src1.ready;
        src1_val = src1.val;
        src1_ptag = src1.ptag;
        src2_ready = src2.ready;
        src2_val = src2.val;
        src2_ptag = src2.ptag;
        eu_type = classify ir.raw;
      }

  inside : slot < 16
  inside = omega (arith, low.3)

  -- A free station has no ready bit.
  quiet : (e : EuType) → o.rs_ready_mask e slot ≡ false
  quiet e =
      (s slot inside).ready_bit e
      ∙ idle (eu_eq e (o.rs slot).eu_type) (o.rs slot).valid (all_ready (o.rs slot))
          (sym (s slot inside).free_bit ∙ low.1)
    where
      idle : (a b c : Bool) → not b ≡ true → (a && (b && c)) ≡ false
      idle true true c h = cc
      idle false true c h = refl
      idle true false c h = refl
      idle false false c h = refl

  entered-IsStation :
      (prf : ℕ → PhysReg) (p : Option ℕ)
      → Quieter o.prf prf
      → let r = entered p in
        IsStation prf r
          (λ e. if eu_eq e r.eu_type then r.valid && all_ready r else o.rs_ready_mask e slot)
          false
  entered-IsStation prf p q = record {
    free_bit = refl;
    ready_bit = λ e. rw (quiet e) (bit (eu_eq e (classify ir.raw)) (all_ready (entered p)));
    src1 = λ v n. let (h, w) = source-Waits o ir.rs1 ir.src1_val k f.1 n in (h, q _ h w);
    src2 = λ v n. let (h, w) = source-Waits o ir.rs2 ir.src2_val k f.2 n in (h, q _ h w);
  }
    where
      bit : (a b : Bool) → (if a then b else false) ≡ (a && b)
      bit true b = refl
      bit false b = refl

  placed :
      (prf : ℕ → PhysReg) (p : Option ℕ)
      → Quieter o.prf prf
      → (j : ℕ) → j < 16
      → let x = update o.rs slot (entered p) slot in
        IsStation prf
          (update o.rs slot (entered p) j)
          (λ e. set_bit o.rs_ready_mask x.eu_type slot (x.valid && all_ready x) e j)
          (update o.rs_free_mask slot false j)
  placed prf p q =
      subst
        (λ (x : RsEntry).
          (j : ℕ)
          → j < 16
          → IsStation prf (update o.rs slot (entered p) j)
              (λ e. set_bit o.rs_ready_mask x.eu_type slot (x.valid && all_ready x) e j)
              (update o.rs_free_mask slot false j))
        (sym (update_self o.rs slot (entered p)))
        (put-IsStation prf o slot (entered p) (classify ir.raw) (all_ready (entered p)) false q s
          (entered-IsStation prf p q))

  pub rename_one-IsScheduled :
      (rd : Option ℕ) → Post IsScheduled (rename_one o (record ir { rd = rd }))
  unfolding rename_one alloc_phys rs_mask_update freelist_pop
  rename_one-IsScheduled none = rw low.0 (placed o.prf none (λ t h w. w))
  rename_one-IsScheduled (some zero) = rw low.0 (placed o.prf (some 0) (λ t h w. w))
  rename_one-IsScheduled (some (suc r)) =
      rw low.0 (
        placed (update o.prf p (record { value = 0; ready = false })) (some p) (λ t h w. taken t w))
    where
      p : ℕ
      p = o.freelist.regs o.freelist.head

      taken :
          (t : ℕ)
          → (o.prf t).ready ≡ false
          → (update o.prf p (record { value = 0; ready = false }) t).ready ≡ false
      taken t w = elim (Bool-cases (t == p)) [ inl e ↦ rw e refl | inr e ↦ rw e w ]

-- What a renamed instruction keeps, `ooo_stage_rn` keeps while renaming is sound.
module _ (P : Ooo → Type 0) (counted : (o : Ooo) (st : Stats) → P o → P (record o { stats = st }))
    (moved : (o : Ooo) (l : ℕ → PipeReg) → P o → P (record o { latch_id_rn = l }))
    (step : (o : Ooo) (ir : IrInst) (slot : ℕ)
      → IsLowest rs_size 0 o.rs_free_mask slot
      → IsSound (names o)
      → o.rob_count < 32
      → RegsInFile ir
      → P o
      → Post P (rename_one o ir)) where
  rename_loop-keeps :
      (k n used : ℕ) (o : Ooo)
      → IsSound (names o)
      → WaitersInFile o
      → used + popcount rs_size o.rs_free_mask ≡ 16
      → P o
      → Post P (rename_loop k n used o)
  unfolding rename_loop
  rename_loop-keeps zero n used o k f c s = s
  rename_loop-keeps (suc j) n used o k f c s =
      if-cases (Post P) (not l.valid) (λ e. s)
        (λ e.
          if-cases (Post P) (l.ir.serializing && (ltb 0 o.rob_count || ltb 0 n))
            (λ e₁. if-cases P (n == 0) (λ z. counted o _ s) (λ z. s))
            (λ e₁.
              if-cases (Post P) (leb rob_size o.rob_count) (λ e₂. counted o _ s)
                (λ e₂.
                  if-cases (Post P) (leb rs_size used) (λ e₃. counted o _ s)
                    (λ e₃.
                      if-cases (Post P) (takes_register l.ir.rd && o.freelist.count == 0)
                        (λ e₄. counted o _ s)
                        (λ e₄.
                          more e₂ e₃ e₄ (λ o' a b c' s'.
                            rename_loop-keeps j (n + 1) (used + 1) o' a b c' s'))))))
    where
      l : PipeReg
      l = o.latch_id_rn n

      after : Ooo → Ooo
      after o' = record o' { latch_id_rn = update o'.latch_id_rn n (drop_latch (o'.latch_id_rn n)) }

      more :
          leb rob_size o.rob_count ≡ false
          → leb rs_size used ≡ false
          → (takes_register l.ir.rd && o.freelist.count == 0) ≡ false
          → ((o' : Ooo)
              → IsSound (names o')
              → WaitersInFile o'
              → used + 1 + popcount rs_size o'.rs_free_mask ≡ 16
              → P o'
              → Post P (rename_loop j (n + 1) (used + 1) o'))
          → Post P (rename_one o l.ir >>= λ o'. rename_loop j (n + 1) (used + 1) (after o'))
      more e₂ e₃ e₄ ih =
          let (slot, low) = IsLowest-popcount rs_size o.rs_free_mask (ground arith) in
          let (o', e, same, rn, fi, mask) = renames o l.ir slot low.0 l.ir.rd in
          subst (λ r. Post P (r >>= λ o'. rename_loop j (n + 1) (used + 1) (after o'))) (sym e)
            (ih (after o')
              (subst IsSound (sym same)
                (enter_as-IsSound (names o) l.ir.rd k (ground arith) (f n).0 e₄))
              (drop-InFile o'.latch_id_rn n (subst (λ x. (s : ℕ) → RegsInFile (x s).ir) (sym rn) f))
              (ap (λ m. used + 1 + popcount rs_size m) mask
                ∙ omega (arith, popcount-clear rs_size slot o.rs_free_mask low.3 low.1))
              (moved o' _ (subst (Post P) e (step o l.ir slot low k (ground arith) (f n) s))))

  pub ooo_stage_rn-keeps :
      (o : Ooo) → IsSound (names o) → WaitersInFile o → P o → Post P (ooo_stage_rn o)
  unfolding ooo_stage_rn compact
  ooo_stage_rn-keeps o k f s =
      if-cases (Post P) (not (o.latch_id_rn 0).valid) (λ e. s)
        (λ e.
          Post-bind P P (rename_loop 2 0 (rs_size - popcount rs_size o.rs_free_mask) o) _
            (rename_loop-keeps 2 0 (rs_size - popcount rs_size o.rs_free_mask) o k f
              (omega (arith, popcount-le rs_size o.rs_free_mask)) s)
            (λ o' s'.
              if-cases P (not (o'.latch_id_rn 0).valid && (o'.latch_id_rn 1).valid)
                (λ c. moved o' _ s') (λ c. s')))

-- `ooo_stage_rn` keeps the stations scheduled, while renaming is sound.
pub ooo_stage_rn-IsScheduled :
    (o : Ooo)
    → IsSound (names o)
    → WaitersInFile o
    → IsScheduled o
    → Post IsScheduled (ooo_stage_rn o)
ooo_stage_rn-IsScheduled =
    ooo_stage_rn-keeps IsScheduled (λ o st s. s) (λ o l s. s)
      (λ o ir slot low k room f s. rename_one-IsScheduled o ir slot low k f s ir.rd)
