-- ===== src/Memory/Cache/Level/Invariant.antt =====
-- Replacing one line keeps the invariant of a level.
use native.Mathlib.Nat.{mod-lt}
use sustemu.Base.{
  ℕ, ◌+◌, ◌*◌, ◌%◌, ◌<◌, ◌≡◌, ◌≢◌, sym, ◌∙◌, ap, ==→eq, true, false, ◌==◌, ◌&&◌, if◌then◌else◌,
  arith, Bool-cases, inl, inr, ◌⊎◌, subst,
}
use sustemu.Memory.Cache.Level.{
  Level, Content, IsSound, IsClean, RamBlock, block, idx, tg, block_of, put,
}
use sustemu.Memory.Cache.Level.Laws.{block_of-idx, idx_of_block, tg_of_block}
use sustemu.Memory.Cache.Level.Update.{
  Written, OnlyWay, line_other, is_v, other_tag, after-IsUnique, line_here,
}

module _ (c : Level) (below below' : ℕ → ℕ) (a v : ℕ) (n : Content) (sound : IsSound c below)
    (hv : v < c.ways) (only : OnlyWay c a v) (valid : n.valid ≡ true) (tagged : n.tag ≡ tg c a)
    (written : Written c a v below below') (ram : RamBlock (block a))
    (new_clean : n.dirty ≡ false → (o : ℕ) → o < 64 → n.bytes o ≡ below' (block a * 64 + o)) where
  abbrev after : Level
  after = put c (idx c a) v n

  abbrev old : Content
  old = c.line (idx c a) v

  -- The lines that were not replaced.
  module _ (k i : ℕ) (hk : k < c.nsets) (hi : i < c.ways) (o : (k ≢ idx c a) ⊎ (i ≢ v)) where
    same : after.line k i ≡ c.line k i
    same = line_other c below below' a v n sound hv only valid tagged written k i o

    abbrev l : Content
    l = c.line k i

    elsewhere : l.valid ≡ true → block_of c k l.tag ≢ block a
    elsewhere val e = split o
      where
        kp : idx c a ≡ k
        kp = idx_of_block c k l.tag a hk (sym e)

        tp : tg c a ≡ l.tag
        tp = tg_of_block c k l.tag a hk (sym e)

        split : ((k ≢ idx c a) ⊎ (i ≢ v)) → ⊥
        split (inl ne) = ne (sym kp)
        split (inr ne) =
            other_tag c below below' a v n sound hv only valid tagged written i hi ne
              (ap (λ x. (c.line x i).valid) kp ∙ val) (ap (λ x. (c.line x i).tag) kp ∙ sym tp)

    not_old : l.valid ≡ true → old.valid ≡ true → block_of c k l.tag ≢ block_of c (idx c a) old.tag
    not_old val oval e = split o
      where
        hs : idx c a < c.nsets
        hs = mod-lt (block a) sound.some_set

        b : ℕ
        b = block_of c k l.tag * 64

        bl : block b ≡ block_of c k l.tag
        bl = omega arith

        kp : k ≡ idx c a
        kp = sym (idx_of_block c k l.tag b hk bl) ∙ idx_of_block c (idx c a) old.tag b hs (bl ∙ e)

        tp : l.tag ≡ old.tag
        tp = sym (tg_of_block c k l.tag b hk bl) ∙ tg_of_block c (idx c a) old.tag b hs (bl ∙ e)

        split : ((k ≢ idx c a) ⊎ (i ≢ v)) → ⊥
        split (inl ne) = ne kp
        split (inr ne) = ne (
            sound.unique (idx c a) i v hi hv (ap (λ x. (c.line x i).valid) (sym kp) ∙ val) oval
              (ap (λ x. (c.line x i).tag) (sym kp) ∙ tp))

    below_same :
        l.valid ≡ true
        → (x : ℕ) → x < 64
        → below' (block_of c k l.tag * 64 + x) ≡ below (block_of c k l.tag * 64 + x)
    below_same val x hx = written b ne ∙ kept
      where
        b : ℕ
        b = block_of c k l.tag * 64 + x

        bl : block b ≡ block_of c k l.tag
        bl = omega arith

        ne : block b ≢ block a
        ne e = elsewhere val (sym bl ∙ e)

        kept :
            (if old.valid && (old.dirty && block b == block_of c (idx c a) old.tag)
              then old.bytes (b % 64)
              else below b)
            ≡ below b
        kept = elim (Bool-cases old.valid) [
          | inr inv ↦ rw inv
          | inl oval ↦ elim (Bool-cases (block b == block_of c (idx c a) old.tag)) [
            | inl q ↦ absurd (not_old val oval (sym bl ∙ ==→eq _ _ q))
            | inr q ↦ ground arith
          ]
        ]

    IsClean-other :
        (after.line k i).valid ≡ true
        → (after.line k i).dirty ≡ false
        → IsClean after below' k (after.line k i)
    IsClean-other val cl =
        subst (λ z. IsClean after below' k z) (sym same)
          λ x hx.
            sound.clean k i hk hi val' (ap (λ z. z.dirty) (sym same) ∙ cl) x hx
            ∙ sym (below_same val' x hx)
      where
        val' : l.valid ≡ true
        val' = ap (λ z. z.valid) (sym same) ∙ val

    ram_other : (after.line k i).valid ≡ true → RamBlock (block_of after k (after.line k i).tag)
    ram_other val =
        subst (λ z. RamBlock (block_of after k z.tag)) (sym same)
          (sound.in_ram k i hk hi (ap (λ z. z.valid) (sym same) ∙ val))

  here : (k i : ℕ) → k ≡ idx c a → i ≡ v → after.line k i ≡ n
  here k i p q = line_here c below below' a v n sound hv only valid tagged written k i p q

  new_block : (k : ℕ) → k ≡ idx c a → block_of c k n.tag ≡ block a
  new_block k p = rw (p, tagged) (block_of-idx c a)

  pub put-IsSound : IsSound after below'
  put-IsSound = record {
    some_set = sound.some_set;
    unique = after-IsUnique c below below' a v n sound hv only valid tagged written;
    in_ram = λ k i hk hi val.
        elim (is_v c below below' a v n sound hv only valid tagged written k i) [
          | inl (p, q) ↦
              subst (λ z. RamBlock (block_of c k z.tag)) (sym (here k i p q))
                (subst RamBlock (sym (new_block k p)) ram)
          | inr o ↦ ram_other k i hk hi o val
        ];
    clean = λ k i hk hi val cl.
        elim (is_v c below below' a v n sound hv only valid tagged written k i) [
          | inl (p, q) ↦
              subst (λ z. IsClean after below' k z) (sym (here k i p q))
                λ x hx.
                  new_clean (ap (λ z. z.dirty) (sym (here k i p q)) ∙ cl) x hx
                  ∙ ap (λ y. below' (y * 64 + x)) (sym (new_block k p))
          | inr o ↦ IsClean-other k i hk hi o val cl
        ];
  }
