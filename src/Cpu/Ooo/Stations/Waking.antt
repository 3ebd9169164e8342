-- ===== src/Cpu/Ooo/Stations/Waking.antt =====
-- A result that is written and broadcast reaches every station that waits for it.
use sustemu.Base.{
  ℕ, zero, suc, ◌<◌, ◌≡◌, refl, sym, ◌∙◌, ap, Bool, true, false, Option, none, some, ◌==◌, ◌&&◌,
  ◌||◌, not, ltb, if◌then◌else◌, update, Bool-cases, inl, inr, arith, ==→eq,
}
use sustemu.Cpu.Ooo.State.{Ooo, PhysReg, RsEntry, EuType, eu_eq, rs_size}
use sustemu.Cpu.Ooo.Rename.{all_ready, set_bit}
use sustemu.Cpu.Ooo.Wake.{cdb_broadcast, hear1, hear2}
use sustemu.Cpu.Ooo.Machine.{write_phys, write_result}
use sustemu.Cpu.Ooo.Stations.{Waits, IsStation, IsScheduled}

-- A register file with fewer values
abbrev pub Quieter : (ℕ → PhysReg) → (ℕ → PhysReg) → Type 0
Quieter prf prf' = (t : ℕ) → 0 < t → (prf t).ready ≡ false → (prf' t).ready ≡ false

pub Quieter-IsStation :
    (prf prf' : ℕ → PhysReg) (r : RsEntry) (ready : EuType → Bool) (free : Bool)
    → Quieter prf prf'
    → IsStation prf r ready free
    → IsStation prf' r ready free
Quieter-IsStation prf prf' r ready free q s = record {
  free_bit = s.free_bit;
  ready_bit = s.ready_bit;
  src1 = λ v n. let (h, w) = s.src1 v n in (h, q r.src1_ptag h w);
  src2 = λ v n. let (h, w) = s.src2 v n in (h, q r.src2_ptag h w);
}

-- The file after register tag has its value
abbrev filled : (ℕ → PhysReg) → ℕ → ℕ → ℕ → PhysReg
filled prf tag v = update prf tag (record { value = v; ready = true })

filled-Waits :
    (prf : ℕ → PhysReg) (tag v t : ℕ)
    → (t == tag) ≡ false
    → Waits prf t
    → Waits (filled prf tag v) t
filled-Waits prf tag v t ne (h, w) = (h, rw ne w)

-- The ready bit after a broadcast, by the sources before it: heard or not
ready_bit_heard :
    (b s1 w1 s2 w2 : Bool)
    → (if b
          && ((not s1 && w1 || not s2 && w2)
              && ((if not s1 && w1 then true else s1) && (if not s2 && w2 then true else s2)))
        then true
        else b && (s1 && s2))
      ≡ (b && ((if not s1 && w1 then true else s1) && (if not s2 && w2 then true else s2)))
ready_bit_heard false s1 w1 s2 w2 = refl
ready_bit_heard true true w1 true w2 = refl
ready_bit_heard true true w1 false true = refl
ready_bit_heard true true w1 false false = refl
ready_bit_heard true false true true w2 = refl
ready_bit_heard true false false true w2 = refl
ready_bit_heard true false true false true = refl
ready_bit_heard true false true false false = refl
ready_bit_heard true false false false true = refl
ready_bit_heard true false false false false = refl

-- A station after it has heard of a value, by whether each source waits for it
abbrev heard_as : Bool → Bool → ℕ → RsEntry → RsEntry
heard_as w1 w2 v r = record r {
  src1_ready = if not r.src1_ready && w1 then true else r.src1_ready;
  src1_val = if not r.src1_ready && w1 then v else r.src1_val;
  src2_ready = if not r.src2_ready && w2 then true else r.src2_ready;
  src2_val = if not r.src2_ready && w2 then v else r.src2_val;
}

hear-heard_as :
    (o : Ooo) (tag : ℕ) (r : RsEntry)
    → hear2 o tag (hear1 o tag r)
      ≡ heard_as (r.src1_ptag == tag) (r.src2_ptag == tag) (o.prf tag).value r
hear-heard_as o tag r = elim (Bool-cases (not r.src1_ready && r.src1_ptag == tag)) [
  | inl e ↦ elim (Bool-cases (not r.src2_ready && r.src2_ptag == tag)) [
    | inl f ↦ rw (e, f) refl
    | inr f ↦ rw (e, f) refl
  ]
  | inr e ↦ elim (Bool-cases (not r.src2_ready && r.src2_ptag == tag)) [
    | inl f ↦ rw (e, f) refl
    | inr f ↦ rw (e, f) refl
  ]
]

-- A source that has not heard waits for another register.
still-Waits :
    (prf : ℕ → PhysReg) (tag v t : ℕ) (s : Bool)
    → (s ≡ false → Waits prf t)
    → (if not s && t == tag then true else s) ≡ false
    → Waits (filled prf tag v) t
still-Waits prf tag v t true w e = absurd (absurd_eq e)
  where
    absurd_eq : true ≡ false → ⊥
    absurd_eq q = cc
still-Waits prf tag v t false w e = filled-Waits prf tag v t (not_heard e) (w refl)
  where
    not_heard : (if t == tag then true else false) ≡ false → (t == tag) ≡ false
    not_heard q = ground arith

-- A broadcast at a station: one that is taken hears it, one that is free does not.
pub heard-IsStation :
    (prf : ℕ → PhysReg) (tag v w : ℕ) (r : RsEntry) (ready : EuType → Bool) (free : Bool)
    → IsStation prf r ready free
    → let r' = heard_as (r.src1_ptag == tag) (r.src2_ptag == tag) w r in
      IsStation
        (filled prf tag v)
        (if not free then r' else r)
        (λ e.
          if eu_eq e r.eu_type
            && (not free
                && ((not r.src1_ready && r.src1_ptag == tag
                      || not r.src2_ready && r.src2_ptag == tag)
                    && all_ready r'))
          then true
          else ready e)
        free
heard-IsStation prf tag v w r ready free s = elim (Bool-cases r.valid) [
  | inr e ↦
      rw (s.free_bit, e)
        (record {
          free_bit = refl;
          ready_bit = λ k. silent k e;
          src1 = λ q n. absurd (never (sym q));
          src2 = λ q n. absurd (never (sym q));
        })
  | inl e ↦
      rw (s.free_bit, e)
        (record {
          free_bit = refl;
          ready_bit = λ k.
              rw (s.ready_bit k, e)
                (ready_bit_heard (eu_eq k r.eu_type) r.src1_ready (r.src1_ptag == tag) r.src2_ready
                  (r.src2_ptag == tag));
          src1 = λ q n. still-Waits prf tag v r.src1_ptag r.src1_ready (s.src1 e) n;
          src2 = λ q n. still-Waits prf tag v r.src2_ptag r.src2_ready (s.src2 e) n;
        })
]
  where
    never : true ≡ false → ⊥
    never q = cc

    silent :
        (k : EuType)
        → r.valid ≡ false
        → (if eu_eq k r.eu_type && false then true else ready k) ≡ (eu_eq k r.eu_type && false)
    silent k e = rw (s.ready_bit k, e) (quiet (eu_eq k r.eu_type))
      where
        quiet : (b : Bool) → (if b && false then true else b && false) ≡ (b && false)
        quiet true = refl
        quiet false = refl

-- A result that is written and broadcast keeps the stations scheduled.
pub cdb_broadcast-IsScheduled :
    (tag v : ℕ) (o : Ooo) → IsScheduled o → IsScheduled (cdb_broadcast tag (write_phys tag v o))
unfolding cdb_broadcast
cdb_broadcast-IsScheduled tag v o s i hi =
    rw (inside, hear-heard_as (write_phys tag v o) tag (o.rs i))
      (heard-IsStation o.prf tag v ((write_phys tag v o).prf tag).value (o.rs i)
        (λ e. o.rs_ready_mask e i) (o.rs_free_mask i) (s i hi))
  where
    inside : ltb i rs_size ≡ true
    inside = ground arith

pub write_result-IsScheduled :
    (d : Option ℕ) (v : ℕ) (o : Ooo) → IsScheduled o → IsScheduled (write_result d v o)
unfolding write_result
write_result-IsScheduled none v o s = s
write_result-IsScheduled (some zero) v o s = λ i hi.
    Quieter-IsStation o.prf (write_phys 0 v o).prf (o.rs i) (λ e. o.rs_ready_mask e i)
      (o.rs_free_mask i) (λ t h w. ground arith) (s i hi)
write_result-IsScheduled (some (suc r)) v o s = cdb_broadcast-IsScheduled (suc r) v o s

pub with_bits :
    (prf : ℕ → PhysReg) (r : RsEntry) (ready ready' : EuType → Bool) (free : Bool)
    → ((e : EuType) → ready' e ≡ ready e)
    → IsStation prf r ready free
    → IsStation prf r ready' free
with_bits prf r ready ready' free h s = record {
  free_bit = s.free_bit;
  ready_bit = λ e. h e ∙ s.ready_bit e;
  src1 = s.src1;
  src2 = s.src2;
}

-- One station changes, with its bits.
pub put-IsStation :
    (prf : ℕ → PhysReg) (o : Ooo) (i : ℕ) (r : RsEntry) (u : EuType) (b f : Bool)
    → Quieter o.prf prf
    → IsScheduled o
    → IsStation prf r (λ e. if eu_eq e u then b else o.rs_ready_mask e i) f
    → (j : ℕ) → j < 16
    → IsStation prf
        (update o.rs i r j)
        (λ e. set_bit o.rs_ready_mask u i b e j)
        (update o.rs_free_mask i f j)
put-IsStation prf o i r u b f q k s j hj =
    with_bits prf (update o.rs i r j)
      (λ e. if eu_eq e u then (if j == i then b else m e j) else m e j) (λ e. set_bit m u i b e j)
      (update o.rs_free_mask i f j) (λ e. bit_at e)
      (elim (Bool-cases (j == i)) [
        | inl e ↦ rw e (
            with_bits prf r (λ x. if eu_eq x u then b else m x i)
              (λ x. if eu_eq x u then b else m x j) f
              (λ x. ap (λ y. if eu_eq x u then b else m x y) (==→eq j i e)) s)
        | inr e ↦ rw e (
            with_bits prf (o.rs j) (λ x. m x j) (λ x. if eu_eq x u then m x j else m x j)
              (o.rs_free_mask j) (λ x. same (eu_eq x u) (m x j))
              (Quieter-IsStation o.prf prf (o.rs j) (λ x. m x j) (o.rs_free_mask j) q (k j hj)))
      ])
  where
    m : EuType → ℕ → Bool
    m = o.rs_ready_mask

    same : (c d : Bool) → (if c then d else d) ≡ d
    same true d = refl
    same false d = refl

    bit_at :
        (e : EuType)
        → set_bit m u i b e j ≡ (if eu_eq e u then (if j == i then b else m e j) else m e j)
    bit_at e = elim (Bool-cases (eu_eq e u)) [ inl c ↦ rw c refl | inr c ↦ rw c refl ]
