-- ===== src/Cpu/Ooo/Stations/Leaving.antt =====
-- Stations that are left: by an instruction that issues, or by one that is flushed.
use sustemu.Base.{
  Post, Post-bind, ℕ, zero, suc, ◌+◌, ◌-◌, ◌%◌, ◌<◌, ◌≤◌, ◌≡◌, refl, ap, Bool, true, false, Option,
  none, some, ◌==◌, ◌&&◌, not, ltb, if◌then◌else◌, update, Bool-cases, inl, inr, arith, if-cases,
}
use sustemu.Cpu.State.{CpuState}
use sustemu.Cpu.Ooo.State.{
  Ooo, PhysReg, RobEntry, RsEntry, EuType, eu_int, eu_mul, eu_lsu, eu_eq, rs_size, rob_size,
}
use sustemu.Cpu.Ooo.Rename.{set_bit, all_ready, rs_mask_clear}
use sustemu.Cpu.Ooo.Wake.{
  latch_from_rs, set_latch, issue_slot, latches, select, ooo_stage_is, may_issue, older,
}
use sustemu.Cpu.Ooo.Flush.{
  undo_rename, unready, flush_entry, flush_rob, flush_rs, flush_latches, flushed_rs,
  ooo_flush_after, rob_age,
}
use sustemu.Cpu.Ooo.Commit.{retire}
use sustemu.Cpu.Ooo.Stations.{IsStation, IsScheduled}
use sustemu.Cpu.Ooo.Stations.Waking.{Quieter, Quieter-IsStation, with_bits, put-IsStation}

-- A station that is left, with its ready bit gone and its free bit set
left-IsStation :
    (prf : ℕ → PhysReg) (r : RsEntry) (ready : EuType → Bool) (free : Bool)
    → IsStation prf r ready free
    → IsStation prf
        (record r { valid = false })
        (λ e. if eu_eq e r.eu_type then false else ready e)
        true
left-IsStation prf r ready free s = record {
  free_bit = refl;
  ready_bit = λ e. rw (s.ready_bit e) (gone (eu_eq e r.eu_type) (r.valid && all_ready r));
  src1 = λ q n. absurd (never q);
  src2 = λ q n. absurd (never q);
}
  where
    never : false ≡ true → ⊥
    never q = cc

    gone : (b c : Bool) → (if b then false else b && c) ≡ (b && false)
    gone true c = refl
    gone false c = refl

latch_from_rs-IsScheduled :
    (e : EuType) (s i : ℕ) (o : Ooo) → i < 16 → IsScheduled o → IsScheduled (latch_from_rs e s i o)
unfolding latch_from_rs set_latch rs_mask_clear
latch_from_rs-IsScheduled e s i o hi k = latched e
  where
    gone :
        (j : ℕ)
        → j < 16
        → IsStation o.prf
            (update o.rs i (record (o.rs i) { valid = false }) j)
            (λ x. set_bit o.rs_ready_mask (o.rs i).eu_type i false x j)
            (update o.rs_free_mask i true j)
    gone =
        put-IsStation o.prf o i (record (o.rs i) { valid = false }) (o.rs i).eu_type false true
          (λ t h w. w) k
          (left-IsStation o.prf (o.rs i) (λ x. o.rs_ready_mask x i) (o.rs_free_mask i) (k i hi))

    latched : (e : EuType) → IsScheduled (latch_from_rs e s i o)
    latched eu_int = gone
    latched eu_mul = gone
    latched eu_lsu = gone

-- The selected station is one of the sixteen, and may issue.
abbrev pub Selected : EuType → Ooo → ℕ → Type 0
Selected e o i = (i < 16) × (o.rs_ready_mask e i ≡ true)

pub select-Selected :
    (n i : ℕ) (e : EuType) (o : Ooo) (best : Option ℕ)
    → Post (Selected e o) best
    → i + n ≤ 16
    → Post (Selected e o) (select n i e o best)
unfolding select
select-Selected zero i e o best h l = h
select-Selected (suc n) i e o best h l =
    select-Selected n (i + 1) e o _
      (if-cases (Post (Selected e o)) (may_issue e o i) (λ c. candidate best h (bit c)) (λ c. h))
      (omega arith)
  where
    bit : may_issue e o i ≡ true → o.rs_ready_mask e i ≡ true
    bit c = elim (Bool-cases (o.rs_ready_mask e i)) [
      | inl q ↦ q
      | inr q ↦ absurd (never (rw q at c))
    ]
      where
        never : false ≡ true → ⊥
        never q = cc

    candidate :
        (best : Option ℕ)
        → Post (Selected e o) best
        → o.rs_ready_mask e i ≡ true
        → Post (Selected e o) (older o i best)
    candidate none p c = (omega arith, c)
    candidate (some b) p c =
        if-cases (Post (Selected e o))
          (ltb (rob_age o (o.rs i).rob_idx) (rob_age o (o.rs b).rob_idx)) (λ x. (omega arith, c))
          (λ x. p)

pub issue_slot-IsScheduled :
    (e : EuType) (s : ℕ) (o : Ooo) → IsScheduled o → IsScheduled (issue_slot e s o)
unfolding issue_slot
issue_slot-IsScheduled e s o k =
    if-cases IsScheduled (latches e o s).valid (λ c. k)
      (λ c.
        issued (select rs_size 0 e o none) (select-Selected rs_size 0 e o none tt (omega arith)))
  where
    issued :
        (r : Option ℕ)
        → Post (Selected e o) r
        → IsScheduled (elim r [ none ↦ o | some i ↦ latch_from_rs e s i o ])
    issued none h = k
    issued (some i) h = latch_from_rs-IsScheduled e s i o h.0 k

pub ooo_stage_is-IsScheduled : (o : Ooo) → IsScheduled o → IsScheduled (ooo_stage_is o)
unfolding ooo_stage_is
ooo_stage_is-IsScheduled o k =
    let o₁ = issue_slot eu_int 0 o in
    let o₂ = issue_slot eu_int 1 o₁ in
    let o₃ = issue_slot eu_mul 0 o₂ in
    let k₁ = issue_slot-IsScheduled eu_int 0 o k in
    let k₂ = issue_slot-IsScheduled eu_int 1 o₁ k₁ in
    let k₃ = issue_slot-IsScheduled eu_mul 0 o₂ k₂ in
    issue_slot-IsScheduled eu_lsu 1 (issue_slot eu_lsu 0 o₃) (issue_slot-IsScheduled eu_lsu 0 o₃ k₃)

-- The flush of the stations
flush_rs-IsScheduled : (b : ℕ) (o : Ooo) → IsScheduled o → IsScheduled (flush_rs b o)
unfolding flush_rs
flush_rs-IsScheduled b o k i hi = elim (Bool-cases (flushed_rs o b i)) [
  | inl e ↦ rw e (
      with_bits o.prf (record (o.rs i) { valid = false })
        (λ x. if eu_eq x (o.rs i).eu_type then false else o.rs_ready_mask x i) _ true
        (λ x.
          ap (λ c. if c then false else o.rs_ready_mask x i) (and_true (eu_eq x (o.rs i).eu_type)))
        (left-IsStation o.prf (o.rs i) (λ x. o.rs_ready_mask x i) (o.rs_free_mask i) (k i hi)))
  | inr e ↦ rw e (
      with_bits o.prf (o.rs i) (λ x. o.rs_ready_mask x i) _ (o.rs_free_mask i)
        (λ x.
          ap (λ c. if c then false else o.rs_ready_mask x i) (and_false (eu_eq x (o.rs i).eu_type)))
        (k i hi))
]
  where
    and_true : (c : Bool) → (c && true) ≡ c
    and_true true = refl
    and_true false = refl

    and_false : (c : Bool) → (c && false) ≡ false
    and_false true = refl
    and_false false = refl

-- A register that is freed has no value.
unready-Quieter : (prf : ℕ → PhysReg) (p : ℕ) → Quieter prf (update prf p (unready (prf p)))
unready-Quieter prf p t h w = elim (Bool-cases (t == p)) [ inl e ↦ rw e refl | inr e ↦ rw e w ]

freed-IsScheduled :
    (o : Ooo) (p : ℕ)
    → IsScheduled o
    → IsScheduled (record o { prf = update o.prf p (unready (o.prf p)) })
freed-IsScheduled o p k = λ i hi.
    Quieter-IsStation o.prf (update o.prf p (unready (o.prf p))) (o.rs i) (λ x. o.rs_ready_mask x i)
      (o.rs_free_mask i) (unready-Quieter o.prf p) (k i hi)

pub retire-IsScheduled :
    (a p q : Option ℕ) (cpu : CpuState) (o : Ooo)
    → IsScheduled o
    → Post (λ (r : CpuState × Ooo). IsScheduled r.1) (retire a p q cpu o)
unfolding retire
retire-IsScheduled none p q cpu o k = k
retire-IsScheduled (some zero) p q cpu o k = k
retire-IsScheduled (some (suc r)) none q cpu o k = tt
retire-IsScheduled (some (suc r)) (some p) none cpu o k = tt
retire-IsScheduled (some (suc r)) (some p) (some old) cpu o k = freed-IsScheduled o old k

undo_rename-IsScheduled :
    (a p q : Option ℕ) (o : Ooo) → IsScheduled o → Post IsScheduled (undo_rename a p q o)
unfolding undo_rename
undo_rename-IsScheduled none p q o k = k
undo_rename-IsScheduled (some zero) p q o k = k
undo_rename-IsScheduled (some (suc r)) none q o k = tt
undo_rename-IsScheduled (some (suc r)) (some p) none o k = tt
undo_rename-IsScheduled (some (suc r)) (some p) (some old) o k = freed-IsScheduled o p k

flush_entry-IsScheduled : (o : Ooo) → IsScheduled o → Post IsScheduled (flush_entry o)
unfolding flush_entry
flush_entry-IsScheduled o k =
    if-cases (Post IsScheduled) (not e.valid) (λ c. k)
      (λ c.
        Post-bind IsScheduled IsScheduled (undo_rename e.arch_rd e.phys_rd e.old_phys o) _
          (undo_rename-IsScheduled e.arch_rd e.phys_rd e.old_phys o k) (λ o' k'. k'))
  where
    e : RobEntry
    e = o.rob ((o.rob_tail + rob_size - 1) % rob_size)

flush_rob-IsScheduled : (n t : ℕ) (o : Ooo) → IsScheduled o → Post IsScheduled (flush_rob n t o)
unfolding flush_rob
flush_rob-IsScheduled zero t o k = if-cases (Post IsScheduled) (o.rob_tail == t) (λ c. k) (λ c. tt)
flush_rob-IsScheduled (suc n) t o k =
    if-cases (Post IsScheduled) (o.rob_tail == t) (λ c. k)
      (λ c.
        Post-bind IsScheduled IsScheduled (flush_entry o) _ (flush_entry-IsScheduled o k)
          (λ o' k'. flush_rob-IsScheduled n t o' k'))

pub ooo_flush_after-IsScheduled :
    (b : ℕ) (o : Ooo) → IsScheduled o → Post IsScheduled (ooo_flush_after b o)
unfolding ooo_flush_after flush_latches
ooo_flush_after-IsScheduled b o k =
    Post-bind IsScheduled IsScheduled (flush_rob rob_size ((b + 1) % rob_size) o) _
      (flush_rob-IsScheduled rob_size ((b + 1) % rob_size) o k)
      (λ o' k'. flush_rs-IsScheduled b o' k')
