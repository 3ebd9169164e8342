-- ===== src/Memory/Cache/Transparent/Gone.antt =====
-- What a snoop does to a line when it is not written back: a clean line goes away, or nothing happens.
use sustemu.Base.{ℕ, ◌%◌, ◌/◌, ◌^◌, ◌<◌, ◌≡◌, refl, sym, ◌∙◌, ap, subst, true, false, inl, inr}
use sustemu.Memory.Cache.Lines.{Cache, CacheLine, set_idx, tag_of, line_at, put_line, line_hits}
use sustemu.Memory.Cache.Level.{RamBlock, Level, IsSound, block, idx, tg, hit, put, level}
use sustemu.Memory.Cache.Level.Laws.{not_true, hit_parts}
use sustemu.Memory.Cache.Level.Drop.{dropped-IsSound, dropped-level}
use sustemu.Memory.Cache.Level.Moves.{
  Reads, Reads-refl, put-Reads, Moves-then, holds, dirty, IsAbsent, is_new, new_line, old_line,
}
use sustemu.Memory.Cache.Lookup.{
  content, contents, Located, IsWellFormed, put_line-IsWellFormed, set_idx-contents,
  tag_of-contents,
}
use sustemu.Memory.Cache.Unwritten.{put_line-put}
use sustemu.Memory.Cache.Install.{IsGood-of_same, Located-OnlyWay}
use sustemu.Memory.Cache.Fetch.{Hier}
use sustemu.Memory.Cache.Transparent.Fill.{lower, IsCoherent}
use sustemu.Memory.Cache.Transparent.Clean.{Snooped}

-- A side that a snoop does not touch
pub Snooped-refl : {M : Type 0} (h : Hier M) (a : ℕ) → IsCoherent h → Snooped h h a
Snooped-refl h a g = record {
  coherent = g;
  same = λ b. refl;
  reads = Reads-refl (contents h.l1) (contents h.l1) (lower h) a refl;
  fewer = λ x i hi q. q;
}

-- The way that a search of the sets returned
pub found-Located :
    (c : Cache) (a i : ℕ)
    → i < c.w
    → line_hits (line_at c (set_idx c a) i) (tag_of c a) ≡ true
    → Located c a true i
found-Located c a i hi e = record { in_range = hi; matches = λ _. e; misses = λ q. cc }

-- What the search of the sets says of the level
pub seen_at :
    (c : Cache) (a x i : ℕ)
    → c.off ≡ 6
    → block x ≡ block a
    → line_hits (line_at c (set_idx c a) i) (tag_of c a) ≡ holds (contents c) x i
seen_at c a x i e p = rw (set_idx-contents c a e, tag_of-contents c a e, p) refl

pub seen_dirty :
    (c : Cache) (a x i : ℕ)
    → c.off ≡ 6
    → block x ≡ block a
    → (line_at c (set_idx c a) i).dirty ≡ dirty (contents c) x i
seen_dirty c a x i e p =
    ap (λ k. (line_at c k i).dirty) (set_idx-contents c a e ∙ ap (λ n. n % 2 ^ c.s) (sym p))

-- A step, and then a line that goes away over the same memory
pub Snooped-then :
    {M : Type 0} (h h₁ : Hier M) (l1 : Cache) (a : ℕ)
    → Snooped h h₁ a
    → Snooped h₁ (record h₁ { l1 = l1 }) a
    → Snooped h (record h₁ { l1 = l1 }) a
Snooped-then h h₁ l1 a s t = record {
  coherent = t.coherent;
  same = λ b. t.same b ∙ s.same b;
  reads = record {
    moves =
        Moves-then (contents h.l1) (contents h₁.l1) (contents l1) (lower h) (lower h₁) a
          s.reads.moves t.reads.moves;
    here = λ x i p hi q d.
        let (q', d') = t.reads.here x i p (size i hi) q d in s.reads.here x i p hi q' d';
  };
  fewer = λ x i hi q. s.fewer x i hi (t.fewer x i (size i hi) q);
}
  where
    size : (i : ℕ) → i < h.l1.w → i < h₁.l1.w
    size i hi = subst (λ n. i < n) (sym s.reads.moves.ways) hi

-- The same contents, in another cache
pub Snooped-of_same :
    {M : Type 0} (h h₁ : Hier M) (l1 : Cache) (a : ℕ)
    → Snooped h h₁ a
    → IsWellFormed l1
    → contents l1 ≡ contents h₁.l1
    → Snooped h (record h₁ { l1 = l1 }) a
Snooped-of_same h h₁ l1 a s v e = record {
  coherent = record {
    good_l1 = IsGood-of_same h₁.l1 l1 (lower h₁) s.coherent.good_l1 v e;
    good_l2 = s.coherent.good_l2;
  };
  same = λ b. ap (λ z. level z (lower h₁) b) e ∙ s.same b;
  reads = subst (λ z. Reads (contents h.l1) z (lower h) (lower h₁) a) (sym e) s.reads;
  fewer = λ x i hi q. s.fewer x i hi (subst (λ z. holds z x i ≡ true) e q);
}

-- A clean line that goes away
module _ {M : Type 0} (h : Hier M) (a i : ℕ) (dead : CacheLine) (g : IsCoherent h)
    (r : RamBlock (block a)) (found : Located h.l1 a true i) (gone : dead.valid ≡ false)
    (unwritten : (line_at h.l1 (set_idx h.l1 a) i).dirty ≡ false) where
  abbrev c : Level
  c = contents h.l1

  abbrev after : Cache
  after = put_line h.l1 (set_idx h.l1 a) i dead

  as_put : contents after ≡ put c (idx c a) i (content dead)
  as_put = put_line-put h.l1 a i dead g.good_l1.formed.offset

  at : set_idx h.l1 a ≡ idx c a
  at = set_idx-contents h.l1 a g.good_l1.formed.offset

  held : hit (c.line (idx c a) i) (tg c a) ≡ true
  held = sym (seen_at h.l1 a a i g.good_l1.formed.offset refl) ∙ found.matches refl

  never : {X : Type 0} → dead.valid ≡ true → X
  never e = absurd (not_true gone e)

  sound : IsSound (put c (idx c a) i (content dead)) (lower h)
  sound = dropped-IsSound c (lower h) a i (content dead) g.good_l1.sound found.in_range gone

  pub drop-Snooped : Snooped h (record h { l1 = after }) a
  drop-Snooped = record {
    coherent = record {
      good_l1 = record {
        formed = put_line-IsWellFormed (set_idx h.l1 a) i dead g.good_l1.formed;
        sound = subst (λ z. IsSound z (lower h)) (sym as_put) sound;
      };
      good_l2 = g.good_l2;
    };
    same = λ b.
        ap (λ z. level z (lower h) b) as_put
        ∙ dropped-level c (lower h) a i (content dead) g.good_l1.sound found.in_range gone held
            (ap (λ k. (line_at h.l1 k i).dirty) (sym at) ∙ unwritten) b;
    reads =
        subst (λ z. Reads c z (lower h) (lower h) a) (sym as_put)
          (put-Reads c (lower h) (lower h) a i (content dead) never (λ x u. refl) never);
    fewer = λ x j hj q. less x j (subst (λ z. holds z x j ≡ true) as_put q);
  }
    where
      less : (x j : ℕ) → holds (put c (idx c a) i (content dead)) x j ≡ true → holds c x j ≡ true
      less x j q = elim (is_new c a i x j) [
        | inr o ↦ subst (λ l. hit l (tg c x) ≡ true) (old_line c a i (content dead) x j o) q
        | inl (s, t) ↦
            never
              (hit_parts (content dead) (tg c x)
                (subst (λ l. hit l (tg c x) ≡ true) (new_line c a i (content dead) x j s t) q)).0
      ]

  pub drop-IsAbsent : (x : ℕ) → block x ≡ block a → IsAbsent (contents after) x
  drop-IsAbsent x p =
      subst (λ z. IsAbsent z x) (sym as_put)
        λ j hj. elim (is_new c a i x j) [
          | inl (s, t) ↦
              subst (λ l. hit l (tg c x) ≡ false) (sym (new_line c a i (content dead) x j s t))
                (rw gone refl)
          | inr o ↦
              subst (λ l. hit l (tg c x) ≡ false) (sym (old_line c a i (content dead) x j o))
                (subst (λ n. hit (c.line (n % c.nsets) j) (n / c.nsets) ≡ false) (sym p)
                  (Located-OnlyWay h.l1 (lower h) a true i g.good_l1 found j hj
                    (λ e. elim o [ inl s ↦ s (ap (λ n. n % c.nsets) p) | inr s ↦ s e ])))
        ]
