-- ===== src/Memory/Cache/Level/Drop.antt =====
-- A level that drops a clean line shows the same.
use native.Mathlib.Decide.{ℕ_discrete}
use native.Mathlib.Nat.{mod-lt}
use sustemu.Base.{
  ℕ, ◌%◌, ◌<◌, ◌≡◌, refl, sym, ap, ◌∙◌, subst, true, false, Option-cases, inl, inr, arith,
}
use sustemu.Memory.Cache.Level.{Level, Content, IsSound, block, idx, tg, hit, holder, level, put}
use sustemu.Memory.Cache.Level.Laws.{
  holder-hit, holder-none-miss, holder_of_hit, holder_of_miss, level_of_holder, level_of_none,
  hit_parts, not_hit, block_split,
}
use sustemu.Memory.Cache.Level.Moves.{new_line, old_line, is_new}

module _ (c : Level) (below : ℕ → ℕ) (a v : ℕ) (n : Content) (sound : IsSound c below)
    (hv : v < c.ways) (dead : n.valid ≡ false) where
  abbrev pub dropped : Level
  dropped = put c (idx c a) v n

  -- A valid line of the level after the drop is the old one.
  live_line : (k i : ℕ) → (dropped.line k i).valid ≡ true → dropped.line k i ≡ c.line k i
  live_line k i e = ground (arith, dead, e)

  pub dropped-IsSound : IsSound dropped below
  dropped-IsSound = record {
    some_set = sound.some_set;
    unique = λ k i j hi hj p q e.
        sound.unique k i j hi hj (ap (λ l. l.valid) (sym (live_line k i p)) ∙ p)
          (ap (λ l. l.valid) (sym (live_line k j q)) ∙ q)
          (ap (λ l. l.tag) (sym (live_line k i p)) ∙ e ∙ ap (λ l. l.tag) (live_line k j q));
    in_ram = λ k i hk hi p.
        rw (live_line k i p)
          (sound.in_ram k i hk hi (ap (λ l. l.valid) (sym (live_line k i p)) ∙ p));
    clean = λ k i hk hi p d. rw (live_line k i p) (
        sound.clean k i hk hi (ap (λ l. l.valid) (sym (live_line k i p)) ∙ p)
          (ap (λ l. l.dirty) (sym (live_line k i p)) ∙ d));
  }

  dead_misses : (t : ℕ) → hit n t ≡ false
  dead_misses t = rw dead refl

  missed :
      (b i : ℕ)
      → hit (c.line (idx c b) i) (tg c b) ≡ false
      → hit (dropped.line (idx c b) i) (tg c b) ≡ false
  missed b i h = elim (is_new c a v b i) [
    | inl (p, q) ↦ rw (new_line c a v n b i p q) (dead_misses (tg c b))
    | inr o ↦ rw (old_line c a v n b i o) h
  ]

  module _ (held : hit (c.line (idx c a) v) (tg c a) ≡ true)
      (clean : (c.line (idx c a) v).dirty ≡ false) where
    -- The dropped line showed what is below.
    showed :
        (b : ℕ)
        → idx c b ≡ idx c a
        → hit (c.line (idx c b) v) (tg c b) ≡ true
        → (c.line (idx c b) v).bytes (b % 64) ≡ below b
    showed b p h =
        sound.clean (idx c b) v (mod-lt (block b) sound.some_set) hv
          (hit_parts (c.line (idx c b) v) (tg c b) h).0 (ap (λ k. (c.line k v).dirty) p ∙ clean)
          (b % 64) (omega arith)
        ∙ ap below (rw (hit_parts (c.line (idx c b) v) (tg c b) h).1 (block_split c b))

    pub dropped-level : (b : ℕ) → level dropped below b ≡ level c below b
    dropped-level b = elim (Option-cases (holder c b)) [
      | inl e ↦
          level_of_none dropped below b
            (holder_of_miss dropped b (λ i hi. missed b i (holder-none-miss c b i e hi)))
          ∙ sym (level_of_none c below b e)
      | inr (j, e) ↦ elim (is_new c a v b j) [
        | inl (p, q) ↦
            let h = (holder-hit c b j e).1 in
            level_of_none dropped below b (holder_of_miss dropped b (alone b j p q h))
            ∙ sym (showed b p (subst (λ i. hit (c.line (idx c b) i) (tg c b) ≡ true) q h))
            ∙ ap (λ i. (c.line (idx c b) i).bytes (b % 64)) (sym q)
            ∙ sym (level_of_holder c below b j e)
        | inr o ↦
            let (hj, h) = holder-hit c b j e in
            level_of_holder dropped below b j
              (holder_of_hit dropped b j dropped-IsSound.unique hj (rw (old_line c a v n b j o) h))
            ∙ ap (λ l. l.bytes (b % 64)) (old_line c a v n b j o)
            ∙ sym (level_of_holder c below b j e)
      ]
    ]
      where
        alone :
            (b j : ℕ)
            → idx c b ≡ idx c a
            → j ≡ v
            → hit (c.line (idx c b) j) (tg c b) ≡ true
            → (i : ℕ) → i < c.ways
            → hit (dropped.line (idx c b) i) (tg c b) ≡ false
        alone b j p q h i hi = elim (ℕ_discrete i v) [
          | yes r ↦ rw (new_line c a v n b i p r) (dead_misses (tg c b))
          | no r ↦ missed b i (
              not_hit (c.line (idx c b) i) (tg c b) (λ val t.
                let (w, u) = hit_parts (c.line (idx c b) j) (tg c b) h in
                r (
                  sound.unique (idx c b) i j hi (subst (λ z. z < c.ways) (sym q) hv) val w
                    (t ∙ sym u)
                  ∙ q)))
        ]
