-- ===== src/Memory/Cache/Transparent/Entry.antt =====
-- `cache_read` and `cache_write` of src/memory/cache.c against the view of the hierarchy.
use mathlib.Core.Path.{ap₂}
use sustemu.Base.{
  refl, ◌⊎◌, ℕ, ◌+◌, ◌*◌, ◌%◌, ◌≤◌, ◌<◌, ◌≡◌, ◌≢◌, sym, ◌∙◌, ap, Bool, true, false, arith, some,
  Bool-cases, inl, inr, subst, leb,
}
use native.Mathlib.Decide.{ℕ_discrete}
use sustemu.Memory.Bytes.{le_read, le_write, le_read-ext, le_write-other, le_write-shift}
use sustemu.Memory.Cache.Lines.{Cache, CacheLine, set_idx, put_line, line_at, find_line}
use sustemu.Memory.Cache.Level.{Fits, RamBlock, block, level}
use sustemu.Memory.Cache.Level.Moves.{Moves, Moves-then, put-Moves, Reads, Reads-refl}
use sustemu.Memory.Cache.Unwritten.{put_line-put}
use sustemu.Memory.Cache.Lookup.{content, contents, Located, tag_of-contents}
use sustemu.Memory.Cache.Install.{
  Installed, install, hit_line, hit-Written, hit-level, Located-OnlyWay,
}
use sustemu.Memory.Cache.Fetch.{Bus, Hier, fetch_block}
use sustemu.Memory.Cache.Access.{obtain, cache_read, cache_write, read_line, write_line}
use sustemu.Memory.Cache.Transfer.Down.{Ready, find_line-Ready}
use sustemu.Memory.Cache.Transparent.Fill.{lower, view, IsCoherent, Filled, fetch_block-Filled}

module _ {M : Type 0} (bus : Bus M) where
  pub looked :
      (h : Hier M) (a way : ℕ) (hit : Bool) (l1 : Cache)
      → IsCoherent h
      → Ready bus h.l1 (lower h) a hit way l1
      → IsCoherent (record h { l1 = l1 }) × ((b : ℕ) → view (record h { l1 = l1 }) b ≡ view h b)
  looked h a way hit l1 g d =
      (record { good_l1 = d.good; good_l2 = g.good_l2 }, λ b. ap (λ x. level x (lower h) b) d.same)

  pub obtain-Filled :
      (h : Hier M) (a : ℕ)
      → IsCoherent h
      → RamBlock (block a)
      → let (way, h') = obtain bus h a in Filled bus h a way h'
  unfolding obtain
  obtain-Filled h a g r = elim (Bool-cases (find_line h.l1 a).0) [
    | inl e ↦ rw e (record {
      coherent = seen.0;
      same = seen.1;
      located = subst (λ x. Located l1 a x way) e ready.located;
      reads = Reads-refl (contents h.l1) (contents l1) (lower h) a ready.same;
    })
    | inr e ↦ rw e (missed (subst (λ x. Located l1 a x way) e ready.located))
  ]
    where
      way : ℕ
      way = (find_line h.l1 a).1

      l1 : Cache
      l1 = (find_line h.l1 a).2

      ready : Ready bus h.l1 (lower h) a (find_line h.l1 a).0 way l1
      ready = find_line-Ready bus h.l1 (lower h) a g.good_l1

      seen :
          IsCoherent (record h { l1 = l1 }) × ((b : ℕ) → view (record h { l1 = l1 }) b ≡ view h b)
      seen = looked h a way (find_line h.l1 a).0 l1 g ready

      missed :
          Located l1 a false way → Filled bus h a way (fetch_block bus (record h { l1 = l1 }) a way)
      missed d =
          let f = fetch_block-Filled bus (record h { l1 = l1 }) a way seen.0 r d in
          record {
            coherent = f.coherent;
            same = λ b. f.same b ∙ seen.1 b;
            located = f.located;
            reads =
                subst
                  (λ z.
                    Reads z (contents (fetch_block bus (record h { l1 = l1 }) a way).l1) (lower h)
                      (lower (fetch_block bus (record h { l1 = l1 }) a way)) a)
                  ready.same f.reads;
          }

  -- The bytes of a filled line are those that the hierarchy showed.
  pub read_line-Filled :
      (h : Hier M) (a len way : ℕ) (h' : Hier M)
      → Filled bus h a way h'
      → Fits a len
      → read_line (line_at h'.l1 (set_idx h'.l1 a) way) (a % 64) len ≡ some (le_read len (view h) a)
  unfolding read_line
  read_line-Filled h a len way h' f fits = rw (inside, narrow) (ap some word)
    where
      inside : leb (a % 64 + len) 64 ≡ true
      inside = ground (arith, fits.0)

      narrow : leb len 8 ≡ true
      narrow = ground (arith, fits.1)

      word :
          le_read len (line_at h'.l1 (set_idx h'.l1 a) way).bytes (a % 64) ≡ le_read len (view h) a
      word = le_read-ext len (line_at h'.l1 (set_idx h'.l1 a) way).bytes (view h) (a % 64) a λ i hi.
          ap (line_at h'.l1 (set_idx h'.l1 a) way).bytes (omega arith)
          ∙ sym
              (hit-level h'.l1 (lower h') a way (a + i) f.coherent.good_l1 f.located (omega arith))
          ∙ f.same (a + i)

  -- What a read does, to the program and to another level over the same memory
  pub cache_read-Reads :
      (h : Hier M) (a len : ℕ)
      → IsCoherent h
      → RamBlock (block a)
      → Fits a len
      → (h' : Hier M) × (cache_read bus h a len ≡ some (le_read len (view h) a, h'))
        × IsCoherent h'
        × ((b : ℕ) → view h' b ≡ view h b)
        × Reads (contents h.l1) (contents h'.l1) (lower h) (lower h') a
  unfolding cache_read
  cache_read-Reads h a len g r fits =
      let (way, h') = obtain bus h a in
      let f = obtain-Filled h a g r in
      (
        h',
        rw (read_line-Filled h a len way h' f fits, cache_read) refl,
        f.coherent,
        f.same,
        f.reads,
      )

  -- On a coherent hierarchy, a read of at most 8 bytes within one block of the guest's memory returns the bytes that the
  -- hierarchy shows at the address, in little-endian order; the hierarchy stays coherent and shows the same everywhere.
  pub cache_read-view :
      (h : Hier M) (a len : ℕ)
      → IsCoherent h
      → RamBlock (block a)
      → Fits a len
      → (h' : Hier M) × (cache_read bus h a len ≡ some (le_read len (view h) a, h'))
        × IsCoherent h'
        × ((b : ℕ) → view h' b ≡ view h b)
  cache_read-view h a len g r fits =
      let (h', e, c, same, reads) = cache_read-Reads h a len g r fits in (h', e, c, same)

  -- What a write does, to the program and to another level over the same memory
  pub cache_write-Moves :
      (h : Hier M) (a len v : ℕ)
      → IsCoherent h
      → RamBlock (block a)
      → Fits a len
      → (h' : Hier M) × (cache_write bus h a len v ≡ some h')
        × IsCoherent h'
        × ((b : ℕ) → view h' b ≡ le_write len (view h) a v b)
        × Moves (contents h.l1) (contents h'.l1) (lower h) (lower h') a
  unfolding cache_write write_line
  cache_write-Moves h a len v g r fits = (
    record h₁ { l1 = l1 },
    rw (inside, narrow, cache_write),
    record { good_l1 = i.good; good_l2 = f.coherent.good_l2 },
    λ b. elim (ℕ_discrete (block b) (block a)) [
      | yes p ↦ i.self b p ∙ within b p
      | no p ↦ i.other b p ∙ f.same b ∙ sym (le_write-other len (view h) a v b (outside b p))
    ],
    Moves-then (contents h.l1) (contents h₁.l1) (contents l1) (lower h) (lower h₁) a f.reads.moves (
        subst (λ z. Moves (contents h₁.l1) z (lower h₁) (lower h₁) a)
          (sym (put_line-put h₁.l1 a way l f.coherent.good_l1.formed.offset))
          (put-Moves (contents h₁.l1) (lower h₁) (lower h₁) a way (content l)
            (λ q.
              (hit_line h₁.l1 a way f.located).1
              ∙ tag_of-contents h₁.l1 a f.coherent.good_l1.formed.offset)
            (λ x u. refl))),
  )
    where
      way : ℕ
      way = (obtain bus h a).0

      h₁ : Hier M
      h₁ = (obtain bus h a).1

      f : Filled bus h a way h₁
      f = obtain-Filled h a g r

      k : ℕ
      k = set_idx h₁.l1 a

      old : CacheLine
      old = line_at h₁.l1 k way

      l : CacheLine
      l = record old { bytes = le_write len old.bytes (a % 64) v; dirty = true }

      l1 : Cache
      l1 = put_line h₁.l1 k way l

      inside : leb (a % 64 + len) 64 ≡ true
      inside = ground (arith, fits.0)

      narrow : leb len 8 ≡ true
      narrow = ground (arith, fits.1)

      i : Installed h₁.l1 (lower h₁) (lower h₁) a l l1
      i =
          install h₁.l1 (lower h₁) (lower h₁) a way l f.coherent.good_l1 f.located.in_range
            (Located-OnlyWay h₁.l1 (lower h₁) a true way f.coherent.good_l1 f.located)
            (hit_line h₁.l1 a way f.located).0 (hit_line h₁.l1 a way f.located).1
            (hit-Written h₁.l1 (lower h₁) a way f.coherent.good_l1.formed f.located) r (λ e. cc)

      outside : (b : ℕ) → block b ≢ block a → (b < a) ⊎ (a + len ≤ b)
      outside b p = ground arith

      within : (b : ℕ) → block b ≡ block a → l.bytes (b % 64) ≡ le_write len (view h) a v b
      within b p =
          le_write-shift len old.bytes (view h) (a % 64) (block a * 64) v (b % 64) (
            sym (hit-level h₁.l1 (lower h₁) a way b f.coherent.good_l1 f.located p)
            ∙ f.same b
            ∙ ap (view h) (omega arith))
          ∙ ap₂ (λ x y. le_write len (view h) x v y) (omega arith) (omega arith)

  -- On a coherent hierarchy, a write of at most 8 bytes within one block of the guest's memory changes the bytes that it
  -- names, and what the hierarchy shows is otherwise as before; the hierarchy stays coherent.
  pub cache_write-view :
      (h : Hier M) (a len v : ℕ)
      → IsCoherent h
      → RamBlock (block a)
      → Fits a len
      → (h' : Hier M) × (cache_write bus h a len v ≡ some h')
        × IsCoherent h'
        × ((b : ℕ) → view h' b ≡ le_write len (view h) a v b)
  cache_write-view h a len v g r fits =
      let (h', e, c, same, moves) = cache_write-Moves h a len v g r fits in (h', e, c, same)
