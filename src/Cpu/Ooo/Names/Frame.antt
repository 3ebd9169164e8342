-- ===== src/Cpu/Ooo/Names/Frame.antt =====
-- The operations of the engine that leave renaming alone.
use mathlib.Core.Path.{ap₂}
use sustemu.Base.{
  ℕ, zero, suc, ◌≡◌, refl, sym, ◌∙◌, ap, fun_ext, Bool, Option, none, some, update, ◌==◌,
  Bool-cases, inl, inr, ==→eq,
}
use sustemu.Cpu.Ooo.State.{Ooo, RobEntry, PipeReg, EuType, eu_int, eu_mul, eu_lsu, rs_size}
use sustemu.Cpu.Ooo.Rename.{rs_mask_clear}
use sustemu.Cpu.Ooo.Wake.{
  cdb_broadcast, set_latch, latch_from_rs, issue_slot, select, latches, ooo_stage_is,
}
use sustemu.Cpu.Ooo.Machine.{set_rob, write_result}
use sustemu.Cpu.Ooo.Names.{Names, Dest, dest, names, IsSound}
use sustemu.Cpu.Ooo.Names.Renaming.{RegsInFile}

-- Renaming and the two front latches
pub record Front : Type 0 where
  pub named : Names
  pub rn : ℕ → PipeReg
  pub fi : ℕ → PipeReg

abbrev pub front : Ooo → Front
front o = record { named = names o; rn = o.latch_id_rn; fi = o.latch_if_id }

-- Renaming is sound, and what waits for it names registers of the file.
pub record IsConsistent (f : Front) : Type 0 where
  pub sound : IsSound f.named
  pub waiting : (s : ℕ) → RegsInFile (f.rn s).ir
  pub fetched : (s : ℕ) → RegsInFile (f.fi s).ir

abbrev with_dests : Front → (ℕ → Dest) → (ℕ → Bool) → Front
with_dests f d v = record f { named = record s { dests = d; valids = v } }
  where
    s : Names
    s = f.named

same-set :
    {B : Type 0} (g : RobEntry → B) (f : RobEntry → RobEntry)
    → ((e : RobEntry) → g (f e) ≡ g e)
    → (rob : ℕ → RobEntry) (i : ℕ)
    → ◌≡◌ {A = ℕ → B} (λ j. g (update rob i (f (rob i)) j)) (λ j. g (rob j))
same-set g f h rob i = fun_ext (λ j. elim (Bool-cases (j == i)) [
  | inl e ↦ rw e (h (rob i) ∙ ap (λ x. g (rob x)) (sym (==→eq j i e)))
  | inr e ↦ rw e refl
])

-- A change of an entry that keeps its destination and its valid bit
pub front-set_rob :
    (f : RobEntry → RobEntry)
    → ((e : RobEntry) → dest (f e) ≡ dest e)
    → ((e : RobEntry) → (f e).valid ≡ e.valid)
    → (i : ℕ) (o : Ooo) → front (set_rob i f o) ≡ front o
front-set_rob f h v i o =
    ap₂ (with_dests (front o)) (same-set dest f h o.rob i) (same-set (λ e. e.valid) f v o.rob i)

pub front-cdb_broadcast : (tag : ℕ) (o : Ooo) → front (cdb_broadcast tag o) ≡ front o
unfolding cdb_broadcast
front-cdb_broadcast tag o = refl

pub front-write_result : (d : Option ℕ) (v : ℕ) (o : Ooo) → front (write_result d v o) ≡ front o
unfolding write_result cdb_broadcast
front-write_result none v o = refl
front-write_result (some zero) v o = refl
front-write_result (some (suc r)) v o = refl

front-latch_from_rs : (e : EuType) (s i : ℕ) (o : Ooo) → front (latch_from_rs e s i o) ≡ front o
unfolding latch_from_rs set_latch rs_mask_clear
front-latch_from_rs eu_int s i o = refl
front-latch_from_rs eu_mul s i o = refl
front-latch_from_rs eu_lsu s i o = refl

front-issue_slot : (e : EuType) (s : ℕ) (o : Ooo) → front (issue_slot e s o) ≡ front o
unfolding issue_slot
front-issue_slot e s o = elim (Bool-cases (latches e o s).valid) [
  | inl v ↦ rw v refl
  | inr v ↦ rw v (issued (select rs_size 0 e o none))
]
  where
    issued : (r : Option ℕ) → front (elim r [ none ↦ o | some i ↦ latch_from_rs e s i o ]) ≡ front o
    issued none = refl
    issued (some i) = front-latch_from_rs e s i o

pub front-ooo_stage_is : (o : Ooo) → front (ooo_stage_is o) ≡ front o
unfolding ooo_stage_is
front-ooo_stage_is o =
    front-issue_slot eu_lsu 1 fourth
    ∙ front-issue_slot eu_lsu 0 third
    ∙ front-issue_slot eu_mul 0 second
    ∙ front-issue_slot eu_int 1 first
    ∙ front-issue_slot eu_int 0 o
  where
    first : Ooo
    first = issue_slot eu_int 0 o

    second : Ooo
    second = issue_slot eu_int 1 first

    third : Ooo
    third = issue_slot eu_mul 0 second

    fourth : Ooo
    fourth = issue_slot eu_lsu 0 third
