-- ===== src/Cpu/Ooo/Places/Issuing.antt =====
-- `ooo_stage_is`: an instruction goes from its station to a latch.
use sustemu.Base.{
  Post, ℕ, ◌+◌, ◌<◌, ◌≡◌, refl, sym, ◌∙◌, ap, Bool, true, false, Option, none, some, ◌==◌, ◌&&◌,
  not, to_int, update, if-cases, arith,
}
use sustemu.Base.Int.{negsuc}
use sustemu.Cpu.Ooo.State.{Ooo, RsEntry, Latch, EuType, eu_int, eu_mul, eu_lsu, eu_eq, rs_size}
use sustemu.Cpu.Ooo.Rename.{rs_mask_clear, all_ready, popcount}
use sustemu.Cpu.Ooo.Wake.{latch_from_rs, set_latch, issue_slot, latches, select, ooo_stage_is}
use sustemu.Cpu.Ooo.Masks.{popcount-put}
use sustemu.Cpu.Ooo.Stations.{IsScheduled}
use sustemu.Cpu.Ooo.Stations.Leaving.{Selected, select-Selected, issue_slot-IsScheduled}
use sustemu.Cpu.Ooo.Places.{in_station, in_latch, in_lsu, places, due, IsPlaced}

-- The number of latches of a kind of unit
abbrev units : EuType → ℕ
units eu_int = 2
units eu_mul = 1
units eu_lsu = 2

module _ (s i : ℕ) (o : Ooo) (hi : i < 16) (held : (o.rs i).valid ≡ true) where
  abbrev r : RsEntry
  r = o.rs i

  abbrev latched : Latch
  latched = record {
    rob_idx = r.rob_idx;
    src1_val = r.src1_val;
    src2_val = r.src2_val;
    phys_rd = r.phys_rd;
    cycles_rem = negsuc 0;
    mshr_idx = none;
    flushed = false;
    valid = true;
  }

  left :
      (k : ℕ)
      → popcount 16 (λ j. in_station k (update o.rs i (record r { valid = false }) j))
          + to_int (k == r.rob_idx)
        ≡ popcount 16 (λ j. in_station k (o.rs j))
  left k = omega (
    arith,
    popcount-put (in_station k) 16 i o.rs (record r { valid = false }) hi,
    ap (λ v. to_int (v && k == r.rob_idx)) held,
  )

  latch_from_rs-places :
      (e : EuType)
      → s < units e
      → (latches e o s).valid ≡ false
      → (k : ℕ) → places (latch_from_rs e s i o) k ≡ places o k
  unfolding latch_from_rs set_latch rs_mask_clear latches
  latch_from_rs-places eu_int h idle k = omega (
    arith,
    left k,
    popcount-put (in_latch k) 2 s o.latch_int latched h,
    ap (λ v. to_int (v && k == (o.latch_int s).rob_idx)) idle,
  )
  latch_from_rs-places eu_mul h idle k = omega (
    arith,
    left k,
    popcount-put (in_latch k) 1 s o.latch_mul latched h,
    ap (λ v. to_int (v && k == (o.latch_mul s).rob_idx)) idle,
  )
  latch_from_rs-places eu_lsu h idle k = omega (
    arith,
    left k,
    popcount-put (in_lsu k) 2 s o.latch_lsu latched h,
    ap (λ v. to_int (v && (not (o.latch_lsu s).flushed && k == (o.latch_lsu s).rob_idx))) idle,
  )

latch_from_rs-due : (e : EuType) (s i k : ℕ) (o : Ooo) → due (latch_from_rs e s i o) k ≡ due o k
unfolding latch_from_rs set_latch rs_mask_clear
latch_from_rs-due eu_int s i k o = refl
latch_from_rs-due eu_mul s i k o = refl
latch_from_rs-due eu_lsu s i k o = refl

-- A station with a ready bit holds an instruction.
Selected-valid :
    (e : EuType) (o : Ooo) (i : ℕ) → IsScheduled o → Selected e o i → (o.rs i).valid ≡ true
Selected-valid e o i k (hi, b) =
    taken (eu_eq e (o.rs i).eu_type) (o.rs i).valid (all_ready (o.rs i))
      (sym ((k i hi).ready_bit e) ∙ b)
  where
    taken : (a b c : Bool) → (a && (b && c)) ≡ true → b ≡ true
    taken a b c h = ground arith

issue_slot-IsPlaced :
    (e : EuType) (s : ℕ) (o : Ooo)
    → s < units e
    → IsScheduled o
    → IsPlaced o
    → IsPlaced (issue_slot e s o)
unfolding issue_slot
issue_slot-IsPlaced e s o hs k p =
    if-cases IsPlaced (latches e o s).valid (λ c. p)
      (λ c.
        issued c (select rs_size 0 e o none) (select-Selected rs_size 0 e o none tt (omega arith)))
  where
    issued :
        (latches e o s).valid ≡ false
        → (r : Option ℕ) → Post (Selected e o) r
        → IsPlaced (elim r [ none ↦ o | some i ↦ latch_from_rs e s i o ])
    issued c none h = p
    issued c (some i) h = λ j hj.
        latch_from_rs-places s i o h.0 (Selected-valid e o i k h) e hs c j
        ∙ p j hj
        ∙ ap to_int (sym (latch_from_rs-due e s i j o))

pub ooo_stage_is-IsPlaced : (o : Ooo) → IsScheduled o → IsPlaced o → IsPlaced (ooo_stage_is o)
unfolding ooo_stage_is
ooo_stage_is-IsPlaced o k p =
    let o₁ = issue_slot eu_int 0 o in
    let o₂ = issue_slot eu_int 1 o₁ in
    let o₃ = issue_slot eu_mul 0 o₂ in
    let o₄ = issue_slot eu_lsu 0 o₃ in
    let k₁ = issue_slot-IsScheduled eu_int 0 o k in
    let k₂ = issue_slot-IsScheduled eu_int 1 o₁ k₁ in
    let k₃ = issue_slot-IsScheduled eu_mul 0 o₂ k₂ in
    let k₄ = issue_slot-IsScheduled eu_lsu 0 o₃ k₃ in
    let p₁ = issue_slot-IsPlaced eu_int 0 o (omega arith) k p in
    let p₂ = issue_slot-IsPlaced eu_int 1 o₁ (omega arith) k₁ p₁ in
    let p₃ = issue_slot-IsPlaced eu_mul 0 o₂ (omega arith) k₂ p₂ in
    let p₄ = issue_slot-IsPlaced eu_lsu 0 o₃ (omega arith) k₃ p₃ in
    issue_slot-IsPlaced eu_lsu 1 o₄ (omega arith) k₄ p₄
