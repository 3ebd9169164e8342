-- ===== src/Cpu/Ooo/Names/Live.antt =====
-- Writes of entries, and maps replayed over lists of instructions: one more at the end, one less at either end.
use mathlib.Core.Path.{ap₂}
use sustemu.Base.{
  ℕ, ◌+◌, ◌≡◌, refl, fun_ext, List, [], ◌∷◌, ◌++◌, update, arith, ◌==◌, Bool, Bool-cases, inl, inr,
  false, ==→eq,
}
use sustemu.Cpu.Ooo.State.{RobEntry}
use sustemu.Cpu.Ooo.Names.{
  Names, dest, Dest, plain, broken, renamed, replay, IsChain, writers, count, count_new,
}

pub replay-append : (m : ℕ → ℕ) (ds es : List Dest) → replay m (ds ++ es) ≡ replay (replay m ds) es
unfolding replay
replay-append m [] es = refl
replay-append m (plain ∷ ds) es = replay-append m ds es
replay-append m (broken ∷ ds) es = replay-append m ds es
replay-append m (renamed r p old ∷ ds) es = replay-append (update m r p) ds es

pub IsChain-snoc :
    (m : ℕ → ℕ) (ds : List Dest) (d : Dest)
    → IsChain m ds
    → IsChain (replay m ds) (d ∷ [])
    → IsChain m (ds ++ (d ∷ []))
unfolding replay
IsChain-snoc m [] d c e = e
IsChain-snoc m (plain ∷ ds) d c e = IsChain-snoc m ds d c e
IsChain-snoc m (broken ∷ ds) d c e = c
IsChain-snoc m (renamed r p old ∷ ds) d c e =
    (c.0, c.1, c.2, IsChain-snoc (update m r p) ds d c.3 e)

pub IsChain-init :
    (m : ℕ → ℕ) (ds : List Dest) (d : Dest)
    → IsChain m (ds ++ (d ∷ []))
    → IsChain m ds × IsChain (replay m ds) (d ∷ [])
unfolding replay
IsChain-init m [] d c = (tt, c)
IsChain-init m (plain ∷ ds) d c = IsChain-init m ds d c
IsChain-init m (broken ∷ ds) d c = absurd c
IsChain-init m (renamed r p old ∷ ds) d c =
    let (a, b) = IsChain-init (update m r p) ds d c.3 in ((c.0, c.1, c.2, a), b)

pub writers-append : (ds es : List Dest) → writers (ds ++ es) ≡ writers ds + writers es
writers-append [] es = omega arith
writers-append (plain ∷ ds) es = writers-append ds es
writers-append (broken ∷ ds) es = writers-append ds es
writers-append (renamed r p old ∷ ds) es = omega (arith, writers-append ds es)

pub count_new-append :
    (p : ℕ) (ds es : List Dest) → count_new p (ds ++ es) ≡ count_new p ds + count_new p es
count_new-append p [] es = omega arith
count_new-append p (plain ∷ ds) es = count_new-append p ds es
count_new-append p (broken ∷ ds) es = count_new-append p ds es
count_new-append p (renamed r q old ∷ ds) es = omega (arith, count_new-append p ds es)

pub count-append : (p : ℕ) (xs ys : List ℕ) → count p (xs ++ ys) ≡ count p xs + count p ys
count-append p [] ys = omega arith
count-append p (x ∷ xs) ys = omega (arith, count-append p xs ys)

-- A map that gets back what an update took is the map before it.
pub update-back : (m : ℕ → ℕ) (r p : ℕ) → update (update m r p) r (m r) ≡ m
update-back m r p = fun_ext (λ x. ground arith)

-- An array read through a function, after a write
pub update-through {ℓ κ} :
    {A : Type ℓ} {B : Type κ} (f : A → B) (g : ℕ → A) (i : ℕ) (v : A)
    → (λ j. f (update g i v j)) ≡ update (λ j. f (g j)) i (f v)
update-through f g i v =
    fun_ext (λ j. elim (Bool-cases (j == i)) [ inl e ↦ rw e refl | inr e ↦ rw e refl ])

abbrev pub invalid : RobEntry → RobEntry
invalid e = record e { valid = false }

abbrev pub with_entries : Names → (ℕ → Dest) → (ℕ → Bool) → Names
with_entries s d v = record s { dests = d; valids = v }

pub names-entry :
    (s : Names) (rob : ℕ → RobEntry) (i : ℕ) (e : RobEntry)
    → with_entries s (λ j. dest (update rob i e j)) (λ j. (update rob i e j).valid)
      ≡ with_entries s
          (update (λ j. dest (rob j)) i (dest e))
          (update (λ j. (rob j).valid) i e.valid)
names-entry s rob i e =
    ap₂ (with_entries s) (update-through dest rob i e) (update-through (λ x. x.valid) rob i e)

-- An entry that loses its valid bit keeps its destination.
pub names-clear :
    (s : Names) (rob : ℕ → RobEntry) (i : ℕ)
    → with_entries s
        (λ j. dest (update rob i (invalid (rob i)) j))
        (λ j. (update rob i (invalid (rob i)) j).valid)
      ≡ with_entries s (λ j. dest (rob j)) (update (λ j. (rob j).valid) i false)
names-clear s rob i =
    ap₂ (with_entries s)
      (fun_ext
        (λ j. elim (Bool-cases (j == i)) [ inl e ↦ rw (e, ==→eq j i e) refl | inr e ↦ rw e refl ]))
      (update-through (λ x. x.valid) rob i (invalid (rob i)))
