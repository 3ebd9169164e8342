-- ===== src/Memory/Cache/Level/Laws.antt =====
-- The lookup of a level, and the arithmetic of sets and tags.
use native.Mathlib.Decide.{ℕ_discrete}
use native.Mathlib.Nat.{
  mul-add-mod_self_right, mul-add-div, div-add-mod, div-eq_of_lt, mod-eq_of_lt, mul_comm,
}
use sustemu.Base.{
  ℕ, zero, suc, ◌+◌, ◌*◌, ◌%◌, ◌≤◌, ◌<◌, ◌≡◌, sym, ◌∙◌, ap, Bool, true, false, none, some, arith,
  Bool-cases, Option-cases, inl, inr, subst,
}
use sustemu.Memory.Cache.Lines.{first_way}
use sustemu.Memory.Cache.Level.{
  Level, Content, IsUnique, block, idx, tg, hit, holder, level, block_of,
}

pub first_way-some :
    (n i : ℕ) (p : ℕ → Bool) (j : ℕ)
    → first_way n i p ≡ some j
    → (i ≤ j) × (j < i + n) × (p j ≡ true)
unfolding first_way
first_way-some zero i p j h = cc
first_way-some (suc n) i p j h = elim (Bool-cases (p i)) [
  | inl e ↦ ground arith
  | inr e ↦ ground (arith, first_way-some n (i + 1) p j)
]

pub first_way-none :
    (n i : ℕ) (p : ℕ → Bool) (j : ℕ) → first_way n i p ≡ none → i ≤ j → j < i + n → p j ≡ false
unfolding first_way
first_way-none zero i p j h lo hi = absurd (omega arith)
first_way-none (suc n) i p j h lo hi = elim (Bool-cases (p i)) [
  | inl e ↦ absurd (none_ne (rw e at h))
  | inr e ↦ elim (ℕ_discrete i j) [
    | yes q ↦ subst (λ x. p x ≡ false) q e
    | no q ↦ first_way-none n (i + 1) p j (rw e at h) (omega arith) (omega arith)
  ]
]
  where
    none_ne : some i ≡ none → ⊥
    none_ne q = cc

pub block_of-idx : (c : Level) (b : ℕ) → block_of c (idx c b) (tg c b) ≡ block b
block_of-idx c b = omega (arith, div-add-mod (block b) c.nsets, mul_comm c.nsets (tg c b))

pub idx_of_block : (c : Level) (k t b : ℕ) → k < c.nsets → block b ≡ block_of c k t → idx c b ≡ k
idx_of_block c k t b h e = rw e (mul-add-mod_self_right t c.nsets k ∙ mod-eq_of_lt h)

pub tg_of_block : (c : Level) (k t b : ℕ) → k < c.nsets → block b ≡ block_of c k t → tg c b ≡ t
tg_of_block c k t b h e =
    rw (e, mul_comm t c.nsets)
      (mul-add-div {m = c.nsets} (omega arith) t k ∙ omega (arith, div-eq_of_lt h))

-- The holder of an address is a way whose line hits.
pub holder-hit :
    (c : Level) (b i : ℕ)
    → holder c b ≡ some i
    → (i < c.ways) × (hit (c.line (idx c b) i) (tg c b) ≡ true)
unfolding holder
holder-hit c b i h =
    let f = first_way-some c.ways 0 (λ j. hit (c.line (idx c b) j) (tg c b)) i h in
    (omega (arith, f.1), f.2)

pub holder-none-miss :
    (c : Level) (b i : ℕ)
    → holder c b ≡ none
    → i < c.ways
    → hit (c.line (idx c b) i) (tg c b) ≡ false
unfolding holder
holder-none-miss c b i h hi =
    first_way-none c.ways 0 (λ j. hit (c.line (idx c b) j) (tg c b)) i h (omega arith) (omega arith)

pub hit_parts : (l : Content) (t : ℕ) → hit l t ≡ true → (l.valid ≡ true) × (l.tag ≡ t)
hit_parts l t h = ground arith

pub hit_of_parts : (l : Content) (t : ℕ) → l.valid ≡ true → l.tag ≡ t → hit l t ≡ true
hit_of_parts l t h e = ground arith

-- Under the invariant a way that hits is the holder.
pub holder_of_hit :
    (c : Level) (b i : ℕ)
    → IsUnique c
    → i < c.ways
    → hit (c.line (idx c b) i) (tg c b) ≡ true
    → holder c b ≡ some i
unfolding holder
holder_of_hit c b i v hi h = elim (Option-cases (holder c b)) [
  | inl e ↦ absurd (true_ne (sym h ∙ holder-none-miss c b i e hi))
  | inr (j, e) ↦ e ∙ ap some (same j e)
]
  where
    true_ne : true ≡ false → ⊥
    true_ne q = cc

    same : (j : ℕ) → holder c b ≡ some j → j ≡ i
    same j e =
        let (hj, tj) = holder-hit c b j e in
        let p = hit_parts (c.line (idx c b) j) (tg c b) tj in
        let q = hit_parts (c.line (idx c b) i) (tg c b) h in
        v (idx c b) j i hj hi p.0 q.0 (p.1 ∙ sym q.1)

pub holder_of_miss :
    (c : Level) (b : ℕ)
    → ((i : ℕ) → i < c.ways → hit (c.line (idx c b) i) (tg c b) ≡ false)
    → holder c b ≡ none
unfolding holder
holder_of_miss c b h = elim (Option-cases (holder c b)) [
  | inl e ↦ e
  | inr (j, e) ↦ let (hj, tj) = holder-hit c b j e in absurd (true_ne (sym tj ∙ h j hj))
]
  where
    true_ne : true ≡ false → ⊥
    true_ne q = cc

pub level_of_holder :
    (c : Level) (below : ℕ → ℕ) (b i : ℕ)
    → holder c b ≡ some i
    → level c below b ≡ (c.line (idx c b) i).bytes (b % 64)
unfolding level
level_of_holder c below b i h = rw (h, level)

pub level_of_none :
    (c : Level) (below : ℕ → ℕ) (b : ℕ) → holder c b ≡ none → level c below b ≡ below b
unfolding level
level_of_none c below b h = rw (h, level)

pub not_hit : (l : Content) (t : ℕ) → (l.valid ≡ true → l.tag ≡ t → ⊥) → hit l t ≡ false
not_hit l t f = elim (Bool-cases (hit l t)) [
  | inl e ↦ let (p, q) = hit_parts l t e in absurd (f p q)
  | inr e ↦ e
]

pub not_true : {b : Bool} → b ≡ false → b ≡ true → ⊥
not_true p q = cc

-- Two addresses with one set and one tag lie in one block.
pub block_eq : (c : Level) (a b : ℕ) → idx c a ≡ idx c b → tg c a ≡ tg c b → block a ≡ block b
block_eq c a b p q = sym (block_of-idx c a) ∙ rw (p, q) (block_of-idx c b)

-- Reading a clean line's byte by its address.
pub block_split : (c : Level) (b : ℕ) → block_of c (idx c b) (tg c b) * 64 + b % 64 ≡ b
block_split c b = omega (arith, block_of-idx c b)
