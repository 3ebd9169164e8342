-- ===== src/Cpu/Ooo/Places/Ending.antt =====
-- How an instruction leaves the load/store units: with a value, with a fault, or flushed.
use sustemu.Base.{
  Post, ℕ, zero, suc, ◌+◌, ◌<◌, ◌≡◌, refl, sym, ◌∙◌, ap, subst, Bool, true, false, Option, none,
  some, ◌==◌, not, ◌&&◌, ◌||◌, to_int, if◌then◌else◌, if-cases, Bool-cases, inl, inr, arith,
}
use sustemu.Cpu.Ooo.State.{Ooo, Latch}
use sustemu.Cpu.Ooo.Wake.{cdb_broadcast}
use sustemu.Cpu.Ooo.Machine.{set_rob, complete, write_phys}
use sustemu.Cpu.Ooo.Units.{set_fault, idle}
use sustemu.Cpu.Ooo.Lsu.{set_lsu, set_result, release, still_used, load_fault, load_done}
use sustemu.Cpu.Ooo.Places.{in_lsu, places, due, IsPlaced}
use sustemu.Cpu.Ooo.Places.Finishing.{
  finished, same_due, done_due, cdb_broadcast-places, idle_lsu-places, set_lsu-places,
}
use sustemu.Cpu.Ooo.Places.Executing.{not_due}

-- Latch s of the load/store units holds an instruction.
abbrev pub Holds : ℕ → Ooo → Type 0
Holds s o = ((o.latch_lsu s).valid ≡ true) × ((o.latch_lsu s).flushed ≡ false)

-- An operation that leaves the latches and what is due
pub record Quiet (o o' : Ooo) : Type 0 where
  pub latches : o'.latch_lsu ≡ o.latch_lsu
  pub same : (i : ℕ) → places o' i ≡ places o i
  pub due_as : (i : ℕ) → due o' i ≡ due o i

-- The end of an instruction: its entry becomes ready, and its latch idle.
pub ended :
    (s : ℕ) (o o' : Ooo)
    → s < 2
    → Holds s o
    → IsPlaced o
    → o'.latch_lsu ≡ o.latch_lsu
    → ((i : ℕ) → places o' i ≡ places o i)
    → ((i : ℕ) → due o' i ≡ (if i == (o.latch_lsu s).rob_idx then false else due o i))
    → IsPlaced (set_lsu s idle o')
ended s o o' hs (v, f) p e h d =
    finished o (set_lsu s idle o') (o.latch_lsu s).rob_idx p
      (λ i.
        subst
          (λ (l : ℕ → Latch).
            places (set_lsu s idle o') i + to_int (i == (l s).rob_idx) ≡ places o i)
          e
          (idle_lsu-places s o' i hs (ap (λ l. (l s).valid) e ∙ v) (ap (λ l. (l s).flushed) e ∙ f)
            ∙ h i))
      d

pub release-Quiet : (mi : Option ℕ) (s : ℕ) (o : Ooo) → Quiet o (release mi s o)
unfolding release
release-Quiet none s o = record { latches = refl; same = λ i. refl; due_as = λ i. refl }
release-Quiet (some mi) s o =
    if-cases (Quiet o) (still_used o s mi)
      (λ e. record { latches = refl; same = λ i. refl; due_as = λ i. refl })
      (λ e. record { latches = refl; same = λ i. refl; due_as = λ i. refl })

pub load_fault-IsPlaced :
    (s : ℕ) (o : Ooo) → s < 2 → Holds s o → IsPlaced o → IsPlaced (load_fault s (o.latch_lsu s) o)
unfolding load_fault cdb_broadcast
load_fault-IsPlaced s o hs h p = given l.phys_rd
  where
    l : Latch
    l = o.latch_lsu s

    marked : Ooo
    marked = set_rob l.rob_idx (set_result 0) (set_rob l.rob_idx set_fault o)

    marked-due : (i : ℕ) → due marked i ≡ due o i
    marked-due i =
        same_due (set_result 0) (λ e. refl) (λ e. refl) l.rob_idx (set_rob l.rob_idx set_fault o) i
        ∙ same_due set_fault (λ e. refl) (λ e. refl) l.rob_idx o i

    -- The entry is done, in a state with the same entries as the marked one.
    done :
        (o' : Ooo)
        → o'.latch_lsu ≡ o.latch_lsu
        → ((i : ℕ) → places o' i ≡ places o i)
        → ((i : ℕ) → due o' i ≡ due marked i)
        → IsPlaced (set_lsu s idle (set_rob l.rob_idx complete o'))
    done o' e q d = ended s o (set_rob l.rob_idx complete o') hs h p e q (λ i.
        done_due complete (λ x. refl) l.rob_idx o' i
        ∙ ap (λ b. if i == l.rob_idx then false else b) (d i ∙ marked-due i))

    given : (r : Option ℕ) → IsPlaced (load_fault s (record l { phys_rd = r }) o)
    given none = done marked refl (λ i. refl) (λ i. refl)
    given (some zero) = done marked refl (λ i. refl) (λ i. refl)
    given (some (suc r)) =
        done (cdb_broadcast (suc r) (write_phys (suc r) 0 marked)) refl
          (λ i. cdb_broadcast-places (suc r) (write_phys (suc r) 0 marked) i) (λ i. refl)

pub load_done-IsPlaced :
    (r : Option ℕ) (s v : ℕ) (o o' : Ooo)
    → s < 2
    → Holds s o
    → IsPlaced o
    → Quiet o o'
    → Post IsPlaced (load_done r (o.latch_lsu s).rob_idx s v o')
unfolding load_done cdb_broadcast
load_done-IsPlaced none s v o o' hs h p q = tt
load_done-IsPlaced (some r) s v o o' hs h p q =
    ended s o (set_rob k (set_result v) (set_rob k complete heard)) hs h p q.latches
      (λ i. cdb_broadcast-places r (write_phys r v o') i ∙ q.same i)
      (λ i.
        same_due (set_result v) (λ e. refl) (λ e. refl) k (set_rob k complete heard) i
        ∙ done_due complete (λ e. refl) k heard i
        ∙ ap (λ b. if i == k then false else b) (q.due_as i))
  where
    k : ℕ
    k = (o.latch_lsu s).rob_idx

    heard : Ooo
    heard = cdb_broadcast r (write_phys r v o')

-- A latch that holds nothing, or an instruction that is not due, becomes idle.
pub idle-IsPlaced :
    (s : ℕ) (o o' : Ooo)
    → s < 2
    → (o.latch_lsu s).valid ≡ true
    → (not (o.rob (o.latch_lsu s).rob_idx).valid || (o.latch_lsu s).flushed) ≡ true
    → IsPlaced o
    → Quiet o o'
    → IsPlaced (set_lsu s idle o')
idle-IsPlaced s o o' hs v c p q = elim (Bool-cases (o.latch_lsu s).flushed) [
  | inr f ↦
      ended s o o' hs (v, f) p q.latches q.same
        (λ i. q.due_as i ∙ not_due o (o.latch_lsu s).rob_idx i (ground (arith, c, f)))
  | inl f ↦ λ i hi.
      set_lsu-places s idle o' i hs (empty i f) ∙ q.same i ∙ p i hi ∙ ap to_int (sym (q.due_as i))
]
  where
    empty :
        (i : ℕ)
        → (o.latch_lsu s).flushed ≡ true
        → in_lsu i (idle (o'.latch_lsu s)) ≡ in_lsu i (o'.latch_lsu s)
    empty i f = sym (
        ap (λ (l : ℕ → Latch). in_lsu i (l s)) q.latches
        ∙ ap (λ b. (o.latch_lsu s).valid && (not b && i == (o.latch_lsu s).rob_idx)) f
        ∙ off (o.latch_lsu s).valid)
      where
        off : (b : Bool) → (b && false) ≡ false
        off true = refl
        off false = refl
