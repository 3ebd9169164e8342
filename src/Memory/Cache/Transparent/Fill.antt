-- ===== src/Memory/Cache/Transparent/Fill.antt =====
-- `evict_l1` and `fetch_block`: a block comes into level 1 and the view stays.
use mathlib.Core.Path.{ap₂}
use sustemu.Base.{
  ℕ, ◌+◌, ◌*◌, ◌/◌, ◌%◌, ◌^◌, ◌<◌, ◌≡◌, refl, sym, ◌∙◌, ap, true, false, arith, Bool-cases, inl,
  inr, subst, if◌then◌else◌, ◌&&◌, ◌==◌, eq→==, ne→==,
}
use native.Mathlib.Decide.{ℕ_discrete}
use native.Mathlib.Nat.{mod-lt}
use sustemu.Word.{add64}
use sustemu.Memory.Cache.Lines.{Cache, CacheLine, set_idx, tag_of, put_line, line_at}
use sustemu.Memory.Cache.Level.{RamBlock, block, idx, tg, put, level, block_of}
use sustemu.Memory.Cache.Level.Update.{OnlyWay, Written}
use sustemu.Memory.Cache.Lookup.{
  content, contents, IsWellFormed, Located, set_idx-contents, tag_of-contents,
}
use sustemu.Memory.Cache.Level.Moves.{Reads, put-Reads}
use sustemu.Memory.Cache.Unwritten.{Taken-kept, put_line-put}
use sustemu.Memory.Cache.Install.{
  IsGood, Installed, install, IsGood-of_same, Taken, miss-level, miss-kept, Located-OnlyWay,
}
use sustemu.Memory.Cache.Fetch.{
  Mem, Bus, Hier, evict_l1, fetch_block, read_l2, write_l2, victim_addr,
}
use sustemu.Memory.Cache.Transfer.Down.{WroteL2, write_l2-WroteL2, victim_addr_lem}
use sustemu.Memory.Cache.Transfer.Up.{ReadL2, read_l2-ReadL2}

module _ {M : Type 0} where
  -- What level 2 and the memory show
  abbrev pub lower : Hier M → ℕ → ℕ
  lower h = level (contents h.l2) h.mem.ram

  -- The byte that a program sees at an address
  abbrev pub view : Hier M → ℕ → ℕ
  view h = level (contents h.l1) (lower h)

  pub record IsCoherent (h : Hier M) : Type 0 where
    pub good_l1 : IsGood h.l1 (lower h)
    pub good_l2 : IsGood h.l2 h.mem.ram

module _ {M : Type 0} (bus : Bus M) where
  record EvictedL1 (h : Hier M) (a way : ℕ) (h' : Hier M) : Type 0 where
    same : contents h'.l1 ≡ contents h.l1
    formed : IsWellFormed h'.l1
    good_l2 : IsGood h'.l2 h'.mem.ram
    taken : Taken h.l1 a way (lower h) (lower h')
    shape : (h'.l1.s ≡ h.l1.s) × (h'.l1.off ≡ h.l1.off)

  evict_l1-EvictedL1 :
      (h : Hier M) (a way : ℕ)
      → IsCoherent h
      → way < h.l1.w
      → EvictedL1 h a way (evict_l1 bus h a (line_at h.l1 (set_idx h.l1 a) way))
  unfolding evict_l1
  evict_l1-EvictedL1 h a way g hw = elim (Bool-cases l.valid) [
    | inr e ↦ rw e (record {
      same = refl;
      formed = g.good_l1.formed;
      good_l2 = g.good_l2;
      taken = λ b. ground (arith, here);
      shape = (refl, refl);
    })
    | inl e ↦ elim (Bool-cases l.dirty) [
      | inr d ↦
          rw (e, d)
            (record {
              same = refl;
              formed = formed (add64 c.evictions 1) c.writebacks;
              good_l2 = g.good_l2;
              taken = λ b. ground (arith, here);
              shape = (refl, refl);
            })
      | inl d ↦
          rw (e, d)
            (record {
              same = refl;
              formed = formed (add64 c.evictions 1) (add64 c.writebacks 1);
              good_l2 = (wrote e).good;
              taken = λ b. dirty e d b ∙ ap (λ z. shown z b) (sym here);
              shape = (refl, refl);
            })
    ]
  ]
    where
      c : Cache
      c = h.l1

      l : CacheLine
      l = line_at h.l1 (set_idx h.l1 a) way

      k : ℕ
      k = idx (contents c) a

      here : line_at c k way ≡ l
      here = ap (λ x. line_at c x way) (sym (set_idx-contents c a g.good_l1.formed.offset))

      formed : (x y : ℕ) → IsWellFormed (record c { evictions = x; writebacks = y })
      formed x y = record {
        offset = g.good_l1.formed.offset;
        some_way = g.good_l1.formed.some_way;
        mru_in = g.good_l1.formed.mru_in;
      }

      ram_l : l.valid ≡ true → RamBlock (block_of (contents c) k l.tag)
      ram_l e =
          subst (λ z. RamBlock (block_of (contents c) k z.tag)) here
            (g.good_l1.sound.in_ram k way (mod-lt (block a) g.good_l1.sound.some_set) hw
              (ap (λ z. z.valid) here ∙ e))

      p : ℕ
      p = victim_addr c l.tag a

      at_block : l.valid ≡ true → block p ≡ block_of (contents c) k l.tag
      at_block e = rw (victim_addr_lem c l.tag a g.good_l1.formed.offset (ram_l e)) (omega arith)

      wrote :
          (e : l.valid ≡ true)
          → let (c', m') = write_l2 bus h.l2 p l.bytes h.mem in
            WroteL2 bus h.l2 p l.bytes h.mem c' m'
      wrote e = write_l2-WroteL2 bus h.l2 p l.bytes h.mem g.good_l2 (rw (at_block e) (ram_l e))

      shown : CacheLine → ℕ → ℕ
      shown z b =
          if z.valid && (z.dirty && block b == block_of (contents c) k z.tag)
          then z.bytes (b % 64)
          else lower h b

      dirty :
          l.valid ≡ true
          → l.dirty ≡ true
          → (b : ℕ)
          → let (c', m') = write_l2 bus h.l2 p l.bytes h.mem in
            level (contents c') m'.ram b ≡ shown l b
      dirty e d b = elim (ℕ_discrete (block b) (block p)) [
        | yes q ↦ (wrote e).self b q ∙ rw (e, d, eq→== _ _ (q ∙ at_block e)) refl
        | no q ↦ (wrote e).other b q ∙ rw (e, d, ne→== _ _ (λ r. q (r ∙ sym (at_block e)))) refl
      ]

  -- What holds when an address's block has come into a way of level 1.
  pub record Filled (h : Hier M) (a way : ℕ) (h' : Hier M) : Type 0 where
    pub coherent : IsCoherent h'
    pub same : (b : ℕ) → view h' b ≡ view h b
    pub located : Located h'.l1 a true way
    pub reads : Reads (contents h.l1) (contents h'.l1) (lower h) (lower h') a

  fill :
      (h h₁ : Hier M) (a way : ℕ) (f : ℕ → ℕ) (l2 : Cache) (m : Mem M)
      → IsCoherent h
      → RamBlock (block a)
      → Located h.l1 a false way
      → EvictedL1 h a way h₁
      → ReadL2 bus h₁.l2 a h₁.mem f l2 m
      → let l1 = put_line h₁.l1 (set_idx h₁.l1 a) way (record {
        valid = true;
        dirty = false;
        tag = tag_of h₁.l1 a;
        last_access = h₁.l1.timer;
        bytes = f;
      }) in
        Filled h a way (record { l1 = l1; l2 = l2; mem = m })
  fill h h₁ a way f l2 m g r d e u = record {
    coherent = record { good_l1 = i.good; good_l2 = u.good };
    same = λ b. elim (ℕ_discrete (block b) (block a)) [
      | yes p ↦
          i.self b p
          ∙ u.bytes (b % 64) (omega arith)
          ∙ ap (lower h₁) (omega arith)
          ∙ miss-kept h.l1 (lower h) (lower h₁) a way b g.good_l1.formed d e.taken p
              g.good_l1.sound.some_set
          ∙ sym (miss-level h.l1 (lower h) a way b g.good_l1.formed d p)
      | no p ↦ i.other b p ∙ ap (λ x. level x (lower h) b) e.same
    ];
    located = record { in_range = hw; matches = λ _. ground arith; misses = λ q. cc };
    reads =
        subst (λ z. Reads (contents h.l1) z (lower h) low a) (sym level_after)
          (put-Reads (contents h.l1) (lower h) low a way (content l) (λ _. tagged)
            (λ x free.
              u.same x
              ∙ Taken-kept h.l1 a way (lower h) (lower h₁) e.taken d.in_range
                  g.good_l1.sound.some_set x free)
            (λ _. refl));
  }
    where
      l : CacheLine
      l = record {
        valid = true;
        dirty = false;
        tag = tag_of h₁.l1 a;
        last_access = h₁.l1.timer;
        bytes = f;
      }

      low : ℕ → ℕ
      low = level (contents l2) m.ram

      tagged : tag_of h₁.l1 a ≡ tg (contents h.l1) a
      tagged = tag_of-contents h₁.l1 a e.formed.offset ∙ ap (λ z. tg z a) e.same

      level_after :
          contents (put_line h₁.l1 (set_idx h₁.l1 a) way l)
          ≡ put (contents h.l1) (idx (contents h.l1) a) way (content l)
      level_after =
          put_line-put h₁.l1 a way l e.formed.offset
          ∙ ap (λ z. put z (idx z a) way (content l)) e.same

      hw : way < h₁.l1.w
      hw = subst (λ x. way < x) (ap (λ x. x.ways) (sym e.same)) d.in_range

      g₁ : IsGood h₁.l1 (lower h)
      g₁ = IsGood-of_same h.l1 h₁.l1 (lower h) g.good_l1 e.formed e.same

      only : OnlyWay (contents h₁.l1) a way
      only =
          subst (λ x. OnlyWay x a way) (sym e.same)
            (Located-OnlyWay h.l1 (lower h) a false way g.good_l1 d)

      written : Written (contents h₁.l1) a way (lower h) low
      written b ne =
          u.same b
          ∙ subst (λ x. Written x a way (lower h) (lower h₁)) (sym e.same) (λ b ne. e.taken b) b ne

      i : Installed h₁.l1 (lower h) low a l (put_line h₁.l1 (set_idx h₁.l1 a) way l)
      i =
          install h₁.l1 (lower h) low a way l g₁ hw only refl refl written r
            (λ q o ho. u.bytes o ho ∙ sym (u.same (block a * 64 + o)))

  -- `fetch_block` into the way of a miss
  pub fetch_block-Filled :
      (h : Hier M) (a way : ℕ)
      → IsCoherent h
      → RamBlock (block a)
      → Located h.l1 a false way
      → Filled h a way (fetch_block bus h a way)
  unfolding fetch_block
  fetch_block-Filled h a way g r d =
      let e = evict_l1-EvictedL1 h a way g d.in_range in
      let h₁ = evict_l1 bus h a (line_at h.l1 (set_idx h.l1 a) way) in
      let u = read_l2-ReadL2 bus h₁.l2 a h₁.mem e.good_l2 r in
      let (f, l2, m) = read_l2 bus h₁.l2 a h₁.mem in
      subst
        (λ k. Filled h a way (record {
          l1 = put_line h₁.l1 k way (record {
            valid = true;
            dirty = false;
            tag = tag_of h₁.l1 a;
            last_access = h₁.l1.timer;
            bytes = f;
          });
          l2 = l2;
          mem = m;
        }))
        (ap₂ (λ x y. a / 2 ^ x % 2 ^ y) e.shape.1 e.shape.0) (fill h h₁ a way f l2 m g r d e u)
