-- ===== src/Memory/Cache/Level/Update.antt =====
-- What replacing one line does to the view of a level.
use mathlib.Core.Path.{subst₂}
use native.Mathlib.Nat.{mod-lt}
use native.Mathlib.Decide.{ℕ_discrete}
use sustemu.Base.{
  ℕ, ◌+◌, ◌*◌, ◌/◌, ◌%◌, ◌<◌, ◌≡◌, ◌≢◌, refl, sym, ◌∙◌, ap, eq→==, ==→eq, true, false, none, some,
  ◌==◌, ◌&&◌, if◌then◌else◌, arith, Bool-cases, Option-cases, inl, inr, ◌⊎◌,
}
use sustemu.Memory.Cache.Level.{
  Level, Content, IsSound, IsUnique, block, idx, tg, hit, holder, level, block_of, put,
}
use sustemu.Memory.Cache.Level.Laws.{
  block_of-idx, idx_of_block, tg_of_block, holder-hit, hit_parts, hit_of_parts, holder_of_hit,
  holder_of_miss, level_of_holder, level_of_none, holder-none-miss, not_hit, not_true, block_eq,
}

-- What is below has taken the replaced line, if that was dirty, and is otherwise as it was. Nothing
-- is asked of the block of the address that the new line is for.
abbrev pub Written : Level → ℕ → ℕ → (ℕ → ℕ) → (ℕ → ℕ) → Type 0
Written c a v below below' =
    (b : ℕ)
    → block b ≢ block a
    → let old = c.line (idx c a) v in
      below' b ≡ (
        if old.valid && (old.dirty && block b == block_of c (idx c a) old.tag)
        then old.bytes (b % 64)
        else below b)

-- No way but v holds the address.
abbrev pub OnlyWay : Level → ℕ → ℕ → Type 0
OnlyWay c a v = (i : ℕ) → i < c.ways → i ≢ v → hit (c.line (idx c a) i) (tg c a) ≡ false

module _ (c : Level) (below below' : ℕ → ℕ) (a v : ℕ) (n : Content) (sound : IsSound c below)
    (hv : v < c.ways) (only : OnlyWay c a v) (valid : n.valid ≡ true) (tagged : n.tag ≡ tg c a)
    (written : Written c a v below below') where
  abbrev pub after : Level
  after = put c (idx c a) v n

  abbrev pub old : Content
  old = c.line (idx c a) v

  line_self : after.line (idx c a) v ≡ n
  line_self = ground arith

  pub line_other : (k i : ℕ) → (k ≢ idx c a) ⊎ (i ≢ v) → after.line k i ≡ c.line k i
  line_other k i h = ground arith

  pub is_v : (k i : ℕ) → ((k ≡ idx c a) × (i ≡ v)) ⊎ ((k ≢ idx c a) ⊎ (i ≢ v))
  is_v k i = elim (ℕ_discrete k (idx c a)) [
    | yes p ↦ elim (ℕ_discrete i v) [ yes q ↦ inl (p, q) | no q ↦ inr (inr q) ]
    | no p ↦ inr (inl p)
  ]

  -- A line with the address's set and tag in another way would break `only`.
  pub other_tag :
      (i : ℕ)
      → i < c.ways
      → i ≢ v
      → (c.line (idx c a) i).valid ≡ true
      → (c.line (idx c a) i).tag ≢ tg c a
  other_tag i hi ne val e =
      true_ne (sym (hit_of_parts (c.line (idx c a) i) (tg c a) val e) ∙ only i hi ne)
    where
      true_ne : true ≡ false → ⊥
      true_ne q = cc

  -- A line of the new level: where it is valid it is the new one, or an old one elsewhere.
  pub after-IsUnique : IsUnique after
  after-IsUnique k i j hi hj p q e = elim (is_v k i) [
    | inl (kp, ip) ↦ elim (is_v k j) [
      | inl (_, jp) ↦ ip ∙ sym jp
      | inr o ↦ absurd (clash k i j hj kp ip o q e)
    ]
    | inr o ↦ elim (is_v k j) [
      | inl (kp, jp) ↦ absurd (clash k j i hi kp jp o p (sym e))
      | inr o' ↦
          sound.unique k i j hi hj (ap (λ l. l.valid) (sym (line_other k i o)) ∙ p)
            (ap (λ l. l.valid) (sym (line_other k j o')) ∙ q)
            (ap (λ l. l.tag) (sym (line_other k i o)) ∙ e ∙ ap (λ l. l.tag) (line_other k j o'))
    ]
  ]
    where
      clash :
          (k i j : ℕ)
          → j < c.ways
          → k ≡ idx c a
          → i ≡ v
          → ((k ≢ idx c a) ⊎ (j ≢ v))
          → (after.line k j).valid ≡ true
          → (after.line k i).tag ≡ (after.line k j).tag
          → ⊥
      clash k i j hj kp ip (inl ne) q e = ne kp
      clash k i j hj kp ip (inr ne) q e =
          other_tag j hj ne (rw (← kp) (ap (λ l. l.valid) (sym (line_other k j (inr ne))) ∙ q)) (
            rw (← kp) (
              ap (λ l. l.tag) (sym (line_other k j (inr ne)))
              ∙ sym e
              ∙ ap (λ l. l.tag) (subst₂ (λ x y. after.line x y ≡ n) (sym kp) (sym ip) line_self)
              ∙ tagged))

  -- The new line answers for the whole block of the address.
  pub level-put_self : (b : ℕ) → block b ≡ block a → level after below' b ≡ n.bytes (b % 64)
  level-put_self b e = level_of_holder after below' b v held ∙ ap (λ l. l.bytes (b % 64)) here
    where
      here : after.line (idx after b) v ≡ n
      here = rw e line_self

      held : holder after b ≡ some v
      held =
          holder_of_hit after b v after-IsUnique hv
            (rw (here) (hit_of_parts n (tg c b) valid (tagged ∙ ap (λ x. x / c.nsets) (sym e))))

  new_misses : (b : ℕ) → block b ≢ block a → idx c b ≡ idx c a → hit n (tg c b) ≡ false
  new_misses b ne same = not_hit n (tg c b) λ _ e. ne (block_eq c b a same (sym e ∙ tagged))

  hit_other : (k i t : ℕ) → (k ≢ idx c a) ⊎ (i ≢ v) → hit (after.line k i) t ≡ hit (c.line k i) t
  hit_other k i t o = ap (λ l. hit l t) (line_other k i o)

  pub line_here : (k i : ℕ) → k ≡ idx c a → i ≡ v → after.line k i ≡ n
  line_here k i p q = rw (p, q) line_self

  hit_self : (k i t : ℕ) → k ≡ idx c a → i ≡ v → hit (after.line k i) t ≡ hit n t
  hit_self k i t p q = ap (λ l. hit l t) (line_here k i p q)

  -- A way of another block's set misses unless an old line there hits.
  after_misses :
      (b : ℕ)
      → block b ≢ block a
      → ((i : ℕ)
          → i < c.ways
          → ((idx c b ≢ idx c a) ⊎ (i ≢ v))
          → hit (c.line (idx c b) i) (tg c b) ≡ false)
      → holder after b ≡ none
  after_misses b ne others = holder_of_miss after b λ i hi. elim (is_v (idx c b) i) [
    | inl (p, q) ↦ hit_self (idx c b) i (tg c b) p q ∙ new_misses b ne p
    | inr o ↦ hit_other (idx c b) i (tg c b) o ∙ others i hi o
  ]

  -- The old line held b: what is below holds its byte now.
  replaced :
      (b i : ℕ)
      → block b ≢ block a
      → holder c b ≡ some i
      → idx c b ≡ idx c a
      → i ≡ v
      → level after below' b ≡ level c below b
  replaced b i ne e p q =
      level_of_none after below' b (after_misses b ne others)
      ∙ written b ne
      ∙ taken
      ∙ sym (level_of_holder c below b i e)
    where
      th : hit (c.line (idx c b) i) (tg c b) ≡ true
      th = (holder-hit c b i e).1

      parts : ((c.line (idx c b) i).valid ≡ true) × ((c.line (idx c b) i).tag ≡ tg c b)
      parts = hit_parts (c.line (idx c b) i) (tg c b) th

      here : c.line (idx c b) i ≡ old
      here = rw (p, q) refl

      others :
          (j : ℕ)
          → j < c.ways
          → ((idx c b ≢ idx c a) ⊎ (j ≢ v))
          → hit (c.line (idx c b) j) (tg c b) ≡ false
      others j hj o = not_hit (c.line (idx c b) j) (tg c b) λ val t.
          other o
            (sound.unique (idx c b) j i hj (holder-hit c b i e).0 val parts.0 (t ∙ sym parts.1))
        where
          other : ((idx c b ≢ idx c a) ⊎ (j ≢ v)) → j ≡ i → ⊥
          other (inl o) r = o p
          other (inr o) r = o (r ∙ q)

      old_valid : old.valid ≡ true
      old_valid = ap (λ l. l.valid) (sym here) ∙ parts.0

      old_tag : old.tag ≡ tg c b
      old_tag = ap (λ l. l.tag) (sym here) ∙ parts.1

      in_block : block b ≡ block_of c (idx c a) old.tag
      in_block = sym (block_of-idx c b) ∙ rw (old_tag, p) refl

      place : block_of c (idx c a) old.tag * 64 + b % 64 ≡ b
      place = rw (← in_block) (omega arith)

      taken :
          (if old.valid && (old.dirty && block b == block_of c (idx c a) old.tag)
            then old.bytes (b % 64)
            else below b)
          ≡ (c.line (idx c b) i).bytes (b % 64)
      taken = elim (Bool-cases old.dirty) [
        | inl d ↦ rw (old_valid, d, eq→== _ _ in_block) (ap (λ l. l.bytes (b % 64)) (sym here))
        | inr d ↦
            rw (old_valid, d)
              (ap below (sym place)
                ∙ sym (
                    sound.clean (idx c a) v (mod-lt (block a) sound.some_set) hv old_valid d
                      (b % 64) (omega arith))
                ∙ ap (λ l. l.bytes (b % 64)) (sym here))
      ]

  -- Another way held b, and does so still.
  kept :
      (b i : ℕ)
      → holder c b ≡ some i
      → ((idx c b ≢ idx c a) ⊎ (i ≢ v))
      → level after below' b ≡ level c below b
  kept b i e o =
      level_of_holder after below' b i held
      ∙ ap (λ l. l.bytes (b % 64)) (line_other (idx c b) i o)
      ∙ sym (level_of_holder c below b i e)
    where
      held : holder after b ≡ some i
      held =
          holder_of_hit after b i after-IsUnique (holder-hit c b i e).0
            (hit_other (idx c b) i (tg c b) o ∙ (holder-hit c b i e).1)

  -- The old line is not of a block that a way of its set would have to hold.
  old_elsewhere :
      (b : ℕ)
      → holder c b ≡ none
      → (old.valid && (old.dirty && block b == block_of c (idx c a) old.tag)) ≡ false
  old_elsewhere b e = elim (Bool-cases (block b == block_of c (idx c a) old.tag)) [
    | inl q ↦ elim (Bool-cases old.valid) [
      | inl val ↦ absurd (not_true (holder-none-miss c b v e hv) (found val (==→eq _ _ q)))
      | inr inv ↦ rw inv
    ]
    | inr q ↦ ground arith
  ]
    where
      found :
          old.valid ≡ true
          → block b ≡ block_of c (idx c a) old.tag
          → hit (c.line (idx c b) v) (tg c b) ≡ true
      found val q =
          let k = idx_of_block c (idx c a) old.tag b (mod-lt (block a) sound.some_set) q in
          let t = tg_of_block c (idx c a) old.tag b (mod-lt (block a) sound.some_set) q in
          hit_of_parts (c.line (idx c b) v) (tg c b) (ap (λ x. (c.line x v).valid) k ∙ val)
            (ap (λ x. (c.line x v).tag) k ∙ sym t)

  missed : (b : ℕ) → block b ≢ block a → holder c b ≡ none → level after below' b ≡ level c below b
  missed b ne e =
      level_of_none after below' b (after_misses b ne (λ i hi _. holder-none-miss c b i e hi))
      ∙ written b ne
      ∙ rw (old_elsewhere b e) refl
      ∙ sym (level_of_none c below b e)

  -- Every other address reads as before.
  pub level-put_other : (b : ℕ) → block b ≢ block a → level after below' b ≡ level c below b
  level-put_other b ne = elim (Option-cases (holder c b)) [
    | inl e ↦ missed b ne e
    | inr (i, e) ↦ elim (is_v (idx c b) i) [
      | inl (p, q) ↦ replaced b i ne e p q
      | inr o ↦ kept b i e o
    ]
  ]
