-- ===== src/Cpu/Ooo/Places/Finishing.antt =====
-- The steps that the units share at the end of an instruction, and where it is.
use sustemu.Base.{
  ◌≤◌, ℕ, zero, suc, ◌+◌, ◌<◌, ◌≡◌, refl, sym, ◌∙◌, ap, Bool, true, false, Option, none, some, ◌==◌,
  ◌&&◌, not, to_int, if◌then◌else◌, Bool-cases, inl, inr, arith, if-cases, ==→eq,
}
use sustemu.Cpu.Ooo.State.{Ooo, RsEntry, RobEntry, Latch}
use sustemu.Cpu.Ooo.Rename.{popcount}
use sustemu.Cpu.Ooo.Wake.{cdb_broadcast, hear1, hear2, taken_slot}
use sustemu.Cpu.Ooo.Machine.{set_rob, write_phys, write_result}
use sustemu.Cpu.Ooo.Units.{drop_int, set_mul, idle}
use sustemu.Cpu.Ooo.Lsu.{set_lsu}
use sustemu.Cpu.Ooo.Masks.{popcount-ext, popcount-put}
use sustemu.Cpu.Ooo.Places.{in_station, in_latch, in_lsu, places, due, IsPlaced}

-- An instruction that was in one place and due is in none and not due.
pub finished :
    (o o' : Ooo) (k : ℕ)
    → IsPlaced o
    → ((i : ℕ) → places o' i + to_int (i == k) ≡ places o i)
    → ((i : ℕ) → due o' i ≡ (if i == k then false else due o i))
    → IsPlaced o'
finished o o' k p h d i hi = elim (Bool-cases (i == k)) [
  | inl q ↦ rw (d i, q) (omega (arith, h i, p i hi, ap to_int q, small (due o i)))
  | inr q ↦ rw (d i, q) (omega (arith, h i, p i hi, ap to_int q))
]
  where
    small : (b : Bool) → to_int b ≤ 1
    small true = omega arith
    small false = omega arith

-- An entry that changes but keeps its valid and ready bits
pub same_due :
    (f : RobEntry → RobEntry)
    → ((e : RobEntry) → (f e).valid ≡ e.valid)
    → ((e : RobEntry) → (f e).ready ≡ e.ready)
    → (k : ℕ) (o : Ooo) (i : ℕ) → due (set_rob k f o) i ≡ due o i
same_due f v r k o i = elim (Bool-cases (i == k)) [
  | inl q ↦ rw (q, v (o.rob k), r (o.rob k)) (ap (due o) (sym (==→eq i k q)))
  | inr q ↦ rw q refl
]

pub done_due :
    (f : RobEntry → RobEntry)
    → ((e : RobEntry) → (f e).ready ≡ true)
    → (k : ℕ) (o : Ooo) (i : ℕ) → due (set_rob k f o) i ≡ (if i == k then false else due o i)
done_due f r k o i = elim (Bool-cases (i == k)) [
  | inl q ↦ rw (q, r (o.rob k)) (off (f (o.rob k)).valid)
  | inr q ↦ rw q refl
]
  where
    off : (b : Bool) → (b && false) ≡ false
    off true = refl
    off false = refl

-- A broadcast moves nothing.
pub cdb_broadcast-places : (tag : ℕ) (o : Ooo) (i : ℕ) → places (cdb_broadcast tag o) i ≡ places o i
unfolding cdb_broadcast
cdb_broadcast-places tag o i =
    ap
      (λ n.
        n
        + popcount 2 (λ s. in_latch i (o.latch_int s))
        + popcount 1 (λ s. in_latch i (o.latch_mul s))
        + popcount 2 (λ s. in_lsu i (o.latch_lsu s)))
      (popcount-ext 16 _ (λ j. in_station i (o.rs j))
        (λ j h.
          if-cases (λ r. in_station i r ≡ in_station i (o.rs j)) (taken_slot o j)
            (λ e. second (hear1 o tag (o.rs j)) ∙ first (o.rs j)) (λ e. refl)))
  where
    first : (r : RsEntry) → in_station i (hear1 o tag r) ≡ in_station i r
    first r =
        if-cases (λ x. in_station i x ≡ in_station i r) (not r.src1_ready && r.src1_ptag == tag)
          (λ e. refl) (λ e. refl)

    second : (r : RsEntry) → in_station i (hear2 o tag r) ≡ in_station i r
    second r =
        if-cases (λ x. in_station i x ≡ in_station i r) (not r.src2_ready && r.src2_ptag == tag)
          (λ e. refl) (λ e. refl)

pub write_result-places :
    (d : Option ℕ) (v : ℕ) (o : Ooo) (i : ℕ) → places (write_result d v o) i ≡ places o i
unfolding write_result
write_result-places none v o i = refl
write_result-places (some zero) v o i = refl
write_result-places (some (suc r)) v o i = cdb_broadcast-places (suc r) (write_phys (suc r) v o) i

pub write_result-due :
    (d : Option ℕ) (v : ℕ) (o : Ooo) (i : ℕ) → due (write_result d v o) i ≡ due o i
unfolding write_result cdb_broadcast
write_result-due none v o i = refl
write_result-due (some zero) v o i = refl
write_result-due (some (suc r)) v o i = refl

-- The latches that are left
pub drop_int-places :
    (s : ℕ) (o : Ooo) (i : ℕ)
    → s < 2
    → (o.latch_int s).valid ≡ true
    → places (drop_int s o) i + to_int (i == (o.latch_int s).rob_idx) ≡ places o i
drop_int-places s o i h v = omega (
  arith,
  popcount-put (in_latch i) 2 s o.latch_int (record (o.latch_int s) { valid = false }) h,
  ap (λ b. to_int (b && i == (o.latch_int s).rob_idx)) v,
)

pub idle_mul-places :
    (o : Ooo) (i : ℕ)
    → (o.latch_mul 0).valid ≡ true
    → places (set_mul 0 idle o) i + to_int (i == (o.latch_mul 0).rob_idx) ≡ places o i
idle_mul-places o i v = omega (
  arith,
  popcount-put (in_latch i) 1 0 o.latch_mul (idle (o.latch_mul 0)) (omega arith),
  ap (λ b. to_int (b && i == (o.latch_mul 0).rob_idx)) v,
)

pub idle_lsu-places :
    (s : ℕ) (o : Ooo) (i : ℕ)
    → s < 2
    → (o.latch_lsu s).valid ≡ true
    → (o.latch_lsu s).flushed ≡ false
    → places (set_lsu s idle o) i + to_int (i == (o.latch_lsu s).rob_idx) ≡ places o i
idle_lsu-places s o i h v f = omega (
  arith,
  popcount-put (in_lsu i) 2 s o.latch_lsu (idle (o.latch_lsu s)) h,
  ap (λ b. to_int (b && (not (o.latch_lsu s).flushed && i == (o.latch_lsu s).rob_idx))) v,
  ap (λ b. to_int (not b && i == (o.latch_lsu s).rob_idx)) f,
)

-- A latch that changes but holds the same, or that held nothing
pub set_mul-places :
    (f : Latch → Latch) (o : Ooo) (i : ℕ)
    → ((l : Latch) → in_latch i (f l) ≡ in_latch i l)
    → places (set_mul 0 f o) i ≡ places o i
set_mul-places f o i h = omega (
  arith,
  popcount-put (in_latch i) 1 0 o.latch_mul (f (o.latch_mul 0)) (omega arith),
  ap to_int (h (o.latch_mul 0)),
)

pub set_lsu-places :
    (s : ℕ) (f : Latch → Latch) (o : Ooo) (i : ℕ)
    → s < 2
    → in_lsu i (f (o.latch_lsu s)) ≡ in_lsu i (o.latch_lsu s)
    → places (set_lsu s f o) i ≡ places o i
set_lsu-places s f o i hs h =
    omega (arith, popcount-put (in_lsu i) 2 s o.latch_lsu (f (o.latch_lsu s)) hs, ap to_int h)
