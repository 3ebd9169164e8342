-- ===== src/Cpu/Ooo/Places/Renaming.antt =====
-- `ooo_stage_rn`: an instruction enters the reorder buffer and a station.
use sustemu.Base.{
  Post, Post-both, ℕ, zero, suc, ◌+◌, ◌<◌, ◌≡◌, refl, sym, ◌∙◌, ap, Bool, true, false, Option, none,
  some, ◌==◌, ◌&&◌, not, to_int, update, Bool-cases, inl, inr, arith, ==→eq,
}
use sustemu.Cpu.Ir.Inst.{IrInst}
use sustemu.Cpu.Ooo.State.{Ooo, RsEntry, RobEntry, rs_size}
use sustemu.Cpu.Ooo.Rename.{
  rename_one, alloc_phys, freelist_pop, rs_mask_update, popcount, ooo_stage_rn,
}
use sustemu.Cpu.Ooo.Masks.{IsLowest, popcount-put}
use sustemu.Cpu.Ooo.Names.{names, IsSound}
use sustemu.Cpu.Ooo.Names.Renaming.{WaitersInFile}
use sustemu.Cpu.Ooo.Stations.{IsScheduled}
use sustemu.Cpu.Ooo.Stations.Renaming.{rename_one-IsScheduled, ooo_stage_rn-keeps}
use sustemu.Cpu.Ooo.Places.{in_station, places, due, IsPlaced}

module _ (o : Ooo) (ir : IrInst) (slot : ℕ) (low : IsLowest rs_size 0 o.rs_free_mask slot)
    (k : IsSound (names o)) (room : o.rob_count < 32) (s : IsScheduled o) (p : IsPlaced o) where
  -- The tail of the reorder buffer is empty.
  empty : (o.rob o.rob_tail).valid ≡ false
  empty = k.filled o.rob_tail ∙ ground (arith, k.rob_tail_at, k.rob_head_in, room)

  vacant : (o.rs slot).valid ≡ false
  vacant = idle (o.rs slot).valid (sym (s slot (omega (arith, low.3))).free_bit ∙ low.1)
    where
      idle : (b : Bool) → not b ≡ true → b ≡ false
      idle b h = ground arith

  entered :
      (r : RsEntry) (e : RobEntry) (i : ℕ)
      → r.valid ≡ true
      → r.rob_idx ≡ o.rob_tail
      → e.valid ≡ true
      → e.ready ≡ false
      → i < 32
      → places (record o { rs = update o.rs slot r }) i
        ≡ to_int ((update o.rob o.rob_tail e i).valid && not (update o.rob o.rob_tail e i).ready)
  entered r e i v n w u hi = elim (Bool-cases (i == o.rob_tail)) [
    | inl q ↦ rw (q, w, u) (omega (arith, moved, p i hi, ap to_int (here q), ap to_int (new ∙ q)))
    | inr q ↦ rw q (omega (arith, moved, p i hi, ap to_int (new ∙ q)))
  ]
    where
      new : in_station i r ≡ (i == o.rob_tail)
      new = rw (v, n) refl

      here : (i == o.rob_tail) ≡ true → due o i ≡ false
      here q =
          ap (λ x. (o.rob x).valid && not (o.rob x).ready) (==→eq i o.rob_tail q) ∙ rw empty refl

      moved :
          popcount 16 (λ j. in_station i (update o.rs slot r j))
          ≡ popcount 16 (λ j. in_station i (o.rs j)) + to_int (in_station i r)
      moved = omega (
        arith,
        popcount-put (in_station i) 16 slot o.rs r (omega (arith, low.3)),
        ap (λ b. to_int (b && i == (o.rs slot).rob_idx)) vacant,
      )

  pub rename_one-IsPlaced : (rd : Option ℕ) → Post IsPlaced (rename_one o (record ir { rd = rd }))
  unfolding rename_one alloc_phys rs_mask_update freelist_pop
  rename_one-IsPlaced none = rw low.0 (λ i hi. entered _ _ i refl refl refl refl hi)
  rename_one-IsPlaced (some zero) = rw low.0 (λ i hi. entered _ _ i refl refl refl refl hi)
  rename_one-IsPlaced (some (suc r)) = rw low.0 (λ i hi. entered _ _ i refl refl refl refl hi)

pub ooo_stage_rn-IsPlaced :
    (o : Ooo)
    → IsSound (names o)
    → WaitersInFile o
    → IsScheduled o
    → IsPlaced o
    → Post (λ o'. IsScheduled o' × IsPlaced o') (ooo_stage_rn o)
ooo_stage_rn-IsPlaced o k f s p =
    ooo_stage_rn-keeps (λ o'. IsScheduled o' × IsPlaced o') (λ o st h. h) (λ o l h. h)
      (λ o ir slot low k room f h.
        Post-both IsScheduled IsPlaced (rename_one o ir)
          (rename_one-IsScheduled o ir slot low k f h.0 ir.rd)
          (rename_one-IsPlaced o ir slot low k room h.0 h.1 ir.rd))
      o k f (s, p)
