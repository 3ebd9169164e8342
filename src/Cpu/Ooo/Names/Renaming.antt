-- ===== src/Cpu/Ooo/Names/Renaming.antt =====
-- What `ooo_stage_rn` does to renaming.
use sustemu.Base.{
  ℕ, zero, suc, ◌+◌, ◌-◌, ◌<◌, ◌≡◌, refl, sym, ◌∙◌, ap, subst, false, Option, none, some, update,
  arith, ◌==◌, if◌then◌else◌, ltb, leb, not, ◌&&◌, ◌||◌, ◌>>=◌, Bool-cases, inl, inr,
}
use sustemu.Cpu.Ir.Inst.{IrInst}
use sustemu.Cpu.Ooo.State.{Ooo, PipeReg, rs_size, rob_size}
use sustemu.Cpu.Ooo.Rename.{
  rename_one, rename_loop, alloc_phys, lowest_from, freelist_pop, rs_mask_update, takes_register,
  compact, ooo_stage_rn, popcount, drop_latch,
}
use sustemu.Cpu.Ooo.Masks.{IsLowest-popcount, popcount-clear, popcount-le}
use sustemu.Cpu.Ooo.Names.{Names, plain, dest_of, names, IsSound}
use sustemu.Cpu.Ooo.Names.Live.{names-entry}
use sustemu.Cpu.Ooo.Names.Entering.{step_in, enter, step_in-IsSound, enter-IsSound}

abbrev pub enter_as : Names → Option ℕ → Names
enter_as s none = step_in s plain
enter_as s (some zero) = step_in s plain
enter_as s (some (suc r)) = enter s (suc r)

-- An instruction's destination is a register of the file.
abbrev pub InFile : Option ℕ → Type 0
InFile none = Unit {0}
InFile (some r) = r < 32

module _ (o : Ooo) (ir : IrInst) (slot : ℕ)
    (e : lowest_from rs_size 0 o.rs_free_mask ≡ some slot) where
  abbrev Renames : Option ℕ → Type 0
  Renames rd =
      (o' : Ooo) × (rename_one o (record ir { rd = rd }) ≡ some o')
      × (names o' ≡ enter_as (names o) rd)
      × (o'.latch_id_rn ≡ o.latch_id_rn)
      × (o'.latch_if_id ≡ o.latch_if_id)
      × (o'.rs_free_mask ≡ update o.rs_free_mask slot false)

  pub renames : (rd : Option ℕ) → Renames rd
  unfolding rename_one alloc_phys rs_mask_update dest_of freelist_pop
  renames none =
      rw e (_, refl, names-entry (step_in (names o) plain) o.rob o.rob_tail _, refl, refl, refl)
  renames (some zero) =
      rw e (_, refl, names-entry (step_in (names o) plain) o.rob o.rob_tail _, refl, refl, refl)
  renames (some (suc r)) =
      rw e (_, refl, names-entry (enter (names o) (suc r)) o.rob o.rob_tail _, refl, refl, refl)

pub enter_as-IsSound :
    (s : Names) (rd : Option ℕ)
    → IsSound s
    → s.rob_count < 32
    → InFile rd
    → (takes_register rd && s.freelist.count == 0) ≡ false
    → IsSound (enter_as s rd)
enter_as-IsSound s none k h f n = step_in-IsSound s k h
enter_as-IsSound s (some zero) k h f n = step_in-IsSound s k h
enter_as-IsSound s (some (suc r)) k h f n =
    enter-IsSound s (suc r) k h (omega arith) f (ground arith)

-- Nor are its sources outside the file.
abbrev pub RegsInFile : IrInst → Type 0
RegsInFile ir = InFile ir.rd × InFile ir.rs1 × InFile ir.rs2

-- The instructions that wait to be renamed name registers of the file.
abbrev pub WaitersInFile : Ooo → Type 0
WaitersInFile o = (s : ℕ) → RegsInFile (o.latch_id_rn s).ir

abbrev pub Renamed : Option Ooo → Ooo → Type 0
Renamed r o =
    (o' : Ooo) × (r ≡ some o')
    × IsSound (names o')
    × WaitersInFile o'
    × (o'.latch_if_id ≡ o.latch_if_id)

pub drop-InFile :
    (l : ℕ → PipeReg) (n : ℕ)
    → ((s : ℕ) → RegsInFile (l s).ir)
    → (s : ℕ) → RegsInFile (update l n (drop_latch (l n)) s).ir
drop-InFile l n f s = elim (Bool-cases (s == n)) [ inl e ↦ rw e (f n) | inr e ↦ rw e (f s) ]

-- The loop never runs out of stations: their count is that of the mask.
rename_loop-IsSound :
    (k n used : ℕ) (o : Ooo)
    → IsSound (names o)
    → WaitersInFile o
    → used + popcount rs_size o.rs_free_mask ≡ 16
    → Renamed (rename_loop k n used o) o
unfolding rename_loop
rename_loop-IsSound zero n used o k f c = (o, refl, k, f, refl)
rename_loop-IsSound (suc j) n used o k f c = elim (Bool-cases (not (o.latch_id_rn n).valid)) [
  | inl e ↦ rw e (o, refl, k, f, refl)
  | inr e ↦
      rw e (elim (Bool-cases ((o.latch_id_rn n).ir.serializing && (ltb 0 o.rob_count || ltb 0 n))) [
        | inl e₁ ↦ rw e₁ (elim (Bool-cases (n == 0)) [
          | inl z ↦ rw z (_, refl, k, f, refl)
          | inr z ↦ rw z (_, refl, k, f, refl)
        ])
        | inr e₁ ↦ rw e₁ (elim (Bool-cases (leb rob_size o.rob_count)) [
          | inl e₂ ↦ rw e₂ (_, refl, k, f, refl)
          | inr e₂ ↦ rw e₂ (elim (Bool-cases (leb rs_size used)) [
            | inl e₃ ↦ rw e₃ (_, refl, k, f, refl)
            | inr e₃ ↦ rw e₃ (elim (Bool-cases (takes_register l.ir.rd && o.freelist.count == 0)) [
              | inl e₄ ↦ rw e₄ (_, refl, k, f, refl)
              | inr e₄ ↦
                  rw e₄ (
                    more e₂ e₃ e₄ (λ o' a b c'. rename_loop-IsSound j (n + 1) (used + 1) o' a b c'))
            ])
          ])
        ])
      ])
]
  where
    l : PipeReg
    l = o.latch_id_rn n

    after : Ooo → Ooo
    after o' = record o' { latch_id_rn = update o'.latch_id_rn n (drop_latch (o'.latch_id_rn n)) }

    more :
        leb rob_size o.rob_count ≡ false
        → leb rs_size used ≡ false
        → (takes_register l.ir.rd && o.freelist.count == 0) ≡ false
        → ((o' : Ooo)
            → IsSound (names o')
            → WaitersInFile o'
            → used + 1 + popcount rs_size o'.rs_free_mask ≡ 16
            → Renamed (rename_loop j (n + 1) (used + 1) o') o')
        → Renamed (rename_one o l.ir >>= λ o'. rename_loop j (n + 1) (used + 1) (after o')) o
    more e₂ e₃ e₄ ih =
        let (slot, low) = IsLowest-popcount rs_size o.rs_free_mask (ground arith) in
        let (o', e, same, rn, fi, mask) = renames o l.ir slot low.0 l.ir.rd in
        let (r, e', k', f', fi') =
          ih (after o')
            (subst IsSound (sym same)
              (enter_as-IsSound (names o) l.ir.rd k (ground arith) (f n).0 e₄))
            (drop-InFile o'.latch_id_rn n (subst (λ x. (s : ℕ) → RegsInFile (x s).ir) (sym rn) f))
            (ap (λ m. used + 1 + popcount rs_size m) mask
              ∙ omega (arith, popcount-clear rs_size slot o.rs_free_mask low.3 low.1)) in
        (
          r,
          ap (λ x. x >>= λ o'. rename_loop j (n + 1) (used + 1) (after o')) e ∙ e',
          k',
          f',
          fi' ∙ fi,
        )

compact-Renamed : (o : Ooo) → IsSound (names o) → WaitersInFile o → Renamed (some (compact o)) o
unfolding compact
compact-Renamed o k f = elim (Bool-cases (not (o.latch_id_rn 0).valid && (o.latch_id_rn 1).valid)) [
  | inr e ↦ rw e (o, refl, k, f, refl)
  | inl e ↦ rw e (_, refl, k, shifted, refl)
]
  where
    shifted :
        (s : ℕ)
        → RegsInFile
            (update
              (update o.latch_id_rn 0 (o.latch_id_rn 1))
              1
              (drop_latch (o.latch_id_rn 1))
              s).ir
    shifted s = elim (Bool-cases (s == 1)) [
      | inl e ↦ rw e (f 1)
      | inr e ↦ rw e (elim (Bool-cases (s == 0)) [ inl z ↦ rw z (f 1) | inr z ↦ rw z (f s) ])
    ]

then_compact : (r : Option Ooo) (o : Ooo) → Renamed r o → Renamed (r >>= λ o'. some (compact o')) o
then_compact r o (o', p, k, f, fi) =
    let (o'', q, k', f', fi') = compact-Renamed o' k f in
    (o'', ap (λ x. x >>= λ y. some (compact y)) p ∙ q, k', f', fi' ∙ fi)

-- While renaming is sound and the waiting instructions name registers of the file, `ooo_stage_rn`
-- returns, and renaming is sound after it.
pub ooo_stage_rn-IsSound :
    (o : Ooo) → IsSound (names o) → WaitersInFile o → Renamed (ooo_stage_rn o) o
unfolding ooo_stage_rn
ooo_stage_rn-IsSound o k f = elim (Bool-cases (not (o.latch_id_rn 0).valid)) [
  | inl e ↦ rw e (o, refl, k, f, refl)
  | inr e ↦
      subst (λ b. Renamed (if b then some o else loop >>= λ o'. some (compact o')) o) (sym e)
        (then_compact loop o (
          rename_loop-IsSound 2 0 (rs_size - popcount rs_size o.rs_free_mask) o k f
            (omega (arith, popcount-le rs_size o.rs_free_mask))))
]
  where
    loop : Option Ooo
    loop = rename_loop 2 0 (rs_size - popcount rs_size o.rs_free_mask) o
