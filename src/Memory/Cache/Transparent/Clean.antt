-- ===== src/Memory/Cache/Transparent/Clean.antt =====
-- The write-back of a held line in `cache_snoop_flush_dirty` and `cache_snoop_invalidate`: the block goes
-- down to level 2 and the line stays, clean.
use sustemu.Base.{
  ℕ, ◌*◌, ◌+◌, ◌%◌, ◌/◌, ◌<◌, ◌≡◌, ◌≢◌, refl, sym, ◌∙◌, ap, subst, true, false, inl, inr, arith,
}
use native.Mathlib.Decide.{ℕ_discrete}
use sustemu.Memory.Cache.Lines.{CacheLine, set_idx, line_at, put_line}
use sustemu.Memory.Cache.Level.{RamBlock, Level, Content, block, idx, tg, hit, put, level}
use sustemu.Memory.Cache.Level.Laws.{not_true}
use sustemu.Memory.Cache.Level.Update.{OnlyWay}
use sustemu.Memory.Cache.Level.Moves.{
  Reads, put-Reads, holds, IsUnwritten, is_new, new_line, old_line,
}
use sustemu.Memory.Cache.Level.Share.{unwritten-level}
use sustemu.Memory.Cache.Lookup.{content, contents, Located, set_idx-contents, tag_of-contents}
use sustemu.Memory.Cache.Unwritten.{put_line-put}
use sustemu.Memory.Cache.Install.{
  Installed, install, hit_line, hit-Written, hit-level, Located-OnlyWay,
}
use sustemu.Memory.Cache.Fetch.{Bus, Hier, block_base, write_l2}
use sustemu.Memory.Cache.Snoop.{write_back}
use sustemu.Memory.Cache.Transfer.Down.{WroteL2, write_l2-WroteL2}
use sustemu.Memory.Cache.Transparent.Fill.{lower, view, IsCoherent}

-- What a snoop leaves of the side that it looks at
pub record Snooped {M : Type 0} (h h' : Hier M) (a : ℕ) : Type 0 where
  pub coherent : IsCoherent h'
  pub same : (b : ℕ) → view h' b ≡ view h b
  pub reads : Reads (contents h.l1) (contents h'.l1) (lower h) (lower h') a
  pub fewer :
      (x i : ℕ)
      → i < (contents h.l1).ways
      → holds (contents h'.l1) x i ≡ true
      → holds (contents h.l1) x i ≡ true

-- A line put over one with the same tag holds no more.
pub put-fewer :
    (c : Level) (a v : ℕ) (n : Content)
    → (n.valid ≡ true → (c.line (idx c a) v).valid ≡ true)
    → n.tag ≡ (c.line (idx c a) v).tag
    → (x i : ℕ) → holds (put c (idx c a) v n) x i ≡ true
    → holds c x i ≡ true
put-fewer c a v n val t x i h = elim (is_new c a v x i) [
  | inr o ↦ subst (λ l. hit l (tg c x) ≡ true) (old_line c a v n x i o) h
  | inl (p, q) ↦
      let e = subst (λ l. hit l (tg c x) ≡ true) (new_line c a v n x i p q) h in
      rw (p, q) (kept x e)
]
  where
    kept : (x : ℕ) → hit n (tg c x) ≡ true → hit (c.line (idx c a) v) (tg c x) ≡ true
    kept x e = ground (arith, val, t)

module _ {M : Type 0} (bus : Bus M) (h : Hier M) (a i : ℕ) (g : IsCoherent h)
    (r : RamBlock (block a)) (found : Located h.l1 a true i) where
  abbrev line : CacheLine
  line = line_at h.l1 (set_idx h.l1 a) i

  abbrev cleaned : CacheLine
  cleaned = record line { dirty = false }

  -- The side after the write-back, with the line clean
  abbrev pub flushed : Hier M
  flushed =
      let h₁ = write_back bus h a line in
      record h₁ { l1 = put_line h₁.l1 (set_idx h.l1 a) i cleaned }

  at_block : block (block_base a) ≡ block a
  at_block = omega arith

  wrote :
      let (c', m') = write_l2 bus h.l2 (block_base a) line.bytes h.mem in
      WroteL2 bus h.l2 (block_base a) line.bytes h.mem c' m'
  wrote = write_l2-WroteL2 bus h.l2 (block_base a) line.bytes h.mem g.good_l2 (rw at_block r)

  abbrev low : ℕ → ℕ
  low =
      let (c', m') = write_l2 bus h.l2 (block_base a) line.bytes h.mem in level (contents c') m'.ram

  low_self : (b : ℕ) → block b ≡ block a → low b ≡ line.bytes (b % 64)
  low_self b p = wrote.self b (p ∙ sym at_block)

  low_other : (b : ℕ) → block b ≢ block a → low b ≡ lower h b
  low_other b p = wrote.other b (λ q. p (q ∙ at_block))

  pub located-OnlyWay : OnlyWay (contents h.l1) a i
  located-OnlyWay = Located-OnlyWay h.l1 (lower h) a true i g.good_l1 found

  installed : Installed h.l1 (lower h) low a cleaned (put_line h.l1 (set_idx h.l1 a) i cleaned)
  installed =
      install h.l1 (lower h) low a i cleaned g.good_l1 found.in_range located-OnlyWay
        (hit_line h.l1 a i found).0 (hit_line h.l1 a i found).1
        (λ b p. low_other b p ∙ hit-Written h.l1 (lower h) a i g.good_l1.formed found b p) r
        (λ e o ho. sym (low_self (block a * 64 + o) (omega arith) ∙ ap line.bytes (omega arith)))

  as_put :
      contents (put_line h.l1 (set_idx h.l1 a) i cleaned)
      ≡ put (contents h.l1) (idx (contents h.l1) a) i (content cleaned)
  as_put = put_line-put h.l1 a i cleaned g.good_l1.formed.offset

  pub line_here : (contents h.l1).line (idx (contents h.l1) a) i ≡ content line
  line_here =
      ap (λ k. content (line_at h.l1 k i)) (sym (set_idx-contents h.l1 a g.good_l1.formed.offset))

  pub flushed-Snooped : Snooped h flushed a
  unfolding write_back
  flushed-Snooped = record {
    coherent = record {
      good_l1 = record {
        formed = record {
          offset = installed.good.formed.offset;
          some_way = installed.good.formed.some_way;
          mru_in = installed.good.formed.mru_in;
        };
        sound = installed.good.sound;
      };
      good_l2 = wrote.good;
    };
    same = λ b. elim (ℕ_discrete (block b) (block a)) [
      | yes p ↦ installed.self b p ∙ sym (hit-level h.l1 (lower h) a i b g.good_l1 found p)
      | no p ↦ installed.other b p
    ];
    reads =
        subst (λ z. Reads (contents h.l1) z (lower h) low a) (sym as_put)
          (put-Reads (contents h.l1) (lower h) low a i (content cleaned)
            (λ _. (hit_line h.l1 a i found).1 ∙ tag_of-contents h.l1 a g.good_l1.formed.offset) kept
            (λ _. refl));
    fewer = λ x j hj q.
        put-fewer (contents h.l1) a i (content cleaned) (λ v. ap (λ l. l.valid) line_here ∙ v)
          (sym (ap (λ l. l.tag) line_here)) x j (subst (λ z. holds z x j ≡ true) as_put q);
  }
    where
      kept : (x : ℕ) → IsUnwritten (contents h.l1) x → low x ≡ lower h x
      kept x u = elim (ℕ_discrete (block x) (block a)) [
        | no p ↦ low_other x p
        | yes p ↦
            low_self x p
            ∙ sym (hit-level h.l1 (lower h) a i x g.good_l1 found p)
            ∙ unwritten-level (contents h.l1) (lower h) x g.good_l1.sound u
      ]

  -- Then the side has not written the block.
  pub flushed-IsUnwritten : (x : ℕ) → block x ≡ block a → IsUnwritten (contents flushed.l1) x
  unfolding write_back
  flushed-IsUnwritten x p = subst (λ z. IsUnwritten z x) (sym as_put) after
    where
      c : Level
      c = contents h.l1

      after : IsUnwritten (put c (idx c a) i (content cleaned)) x
      after j hj q = elim (is_new c a i x j) [
        | inl (s, t) ↦ ap (λ l. l.dirty) (new_line c a i (content cleaned) x j s t)
        | inr o ↦ absurd (
            not_true
              (located-OnlyWay j hj
                (λ e. elim o [ inl s ↦ s (ap (λ n. n % c.nsets) p) | inr s ↦ s e ]))
              (subst (λ n. hit (c.line (n % c.nsets) j) (n / c.nsets) ≡ true) p
                (subst (λ l. hit l (tg c x) ≡ true) (old_line c a i (content cleaned) x j o) q)))
      ]
