-- ===== src/Memory/Cache/Transparent/Snoops.antt =====
-- `cache_snoop_flush_dirty` and `cache_snoop_invalidate` of src/memory/cache.c: the side that they look
-- at shows what it showed, and its line for the address is clean, or gone.
use sustemu.Base.{
  ℕ, ◌^◌, ◌≡◌, refl, sym, ◌∙◌, ap, subst, fun_ext, Bool, true, false, none, Bool-cases,
  Option-cases, inl, inr, arith, ◌&&◌,
}
use sustemu.Memory.Cache.Lines.{
  Cache, CacheLine, set_idx, tag_of, line_at, put_line, first_way, line_hits,
}
use sustemu.Memory.Cache.Level.{RamBlock, Content, block}
use sustemu.Memory.Cache.Level.Laws.{first_way-some, first_way-none}
use sustemu.Memory.Cache.Level.Moves.{IsUnwritten, IsAbsent}
use sustemu.Memory.Cache.Lookup.{contents, Located, IsWellFormed, put_line-IsWellFormed}
use sustemu.Memory.Cache.Fetch.{Bus, Hier}
use sustemu.Memory.Cache.Snoop.{write_back, snoop_flush_dirty, snoop_invalidate}
use sustemu.Memory.Cache.Transparent.Fill.{IsCoherent}
use sustemu.Memory.Cache.Transparent.Clean.{Snooped, flushed, flushed-Snooped, flushed-IsUnwritten}
use sustemu.Memory.Cache.Transparent.Gone.{
  Snooped-refl, found-Located, seen_at, seen_dirty, Snooped-then, Snooped-of_same, drop-Snooped,
  drop-IsAbsent,
}

module _ {M : Type 0} (bus : Bus M) (h : Hier M) (a : ℕ) (g : IsCoherent h)
    (r : RamBlock (block a)) where
  abbrev is_dirty : ℕ → Bool
  is_dirty i =
      line_hits (line_at h.l1 (set_idx h.l1 a) i) (tag_of h.l1 a)
      && (line_at h.l1 (set_idx h.l1 a) i).dirty

  -- The flush leaves the other side as it was, with no dirty line of the block.
  pub snoop_flush_dirty-Snooped :
      Snooped h (snoop_flush_dirty bus h a) a
      × ((x : ℕ) → block x ≡ block a → IsUnwritten (contents (snoop_flush_dirty bus h a).l1) x)
  unfolding snoop_flush_dirty
  snoop_flush_dirty-Snooped = elim (Option-cases (first_way h.l1.w 0 is_dirty)) [
    | inl e ↦ rw (e, snoop_flush_dirty) (Snooped-refl h a g, λ x p i hi q. clean e x p i hi q)
    | inr (i, e) ↦
        let (lo, hi, t) = first_way-some h.l1.w 0 is_dirty i e in
        let f = found-Located h.l1 a i (omega arith) (ground arith) in
        rw (e, snoop_flush_dirty)
          (flushed-Snooped bus h a i g r f, flushed-IsUnwritten bus h a i g r f)
  ]
    where
      clean :
          first_way h.l1.w 0 is_dirty ≡ none
          → (x : ℕ) → block x ≡ block a
          → IsUnwritten (contents h.l1) x
      clean e x p i hi q =
          let n = first_way-none h.l1.w 0 is_dirty i e (omega arith) (omega arith) in
          let s = seen_at h.l1 a x i g.good_l1.formed.offset p ∙ q in
          sym (seen_dirty h.l1 a x i g.good_l1.formed.offset p) ∙ ground (arith, n, s)

  abbrev hits : ℕ → Bool
  hits i = line_hits (line_at h.l1 (set_idx h.l1 a) i) (tag_of h.l1 a)

  module _ (i : ℕ) (found : Located h.l1 a true i) where
    abbrev line : CacheLine
    line = line_at h.l1 (set_idx h.l1 a) i

    abbrev dead : CacheLine
    dead = record line { valid = false; dirty = false }

    abbrev flush : Hier M
    flush = flushed bus h a i g r found

    kept_line : line_at flush.l1 (set_idx flush.l1 a) i ≡ record line { dirty = false }
    unfolding write_back
    kept_line = ground arith

    flush_found : Located flush.l1 a true i
    unfolding write_back
    flush_found =
        found-Located flush.l1 a i found.in_range
          (ap (λ l. line_hits l (tag_of h.l1 a)) kept_line ∙ found.matches refl)

    abbrev written : Hier M
    written = write_back bus h a line

    -- A dirty line goes down before it goes away.
    written-Snooped :
        Snooped h (record written { l1 = put_line written.l1 (set_idx h.l1 a) i dead }) a
        × ((x : ℕ)
            → block x ≡ block a
            → IsAbsent (contents (put_line written.l1 (set_idx h.l1 a) i dead)) x)
    unfolding write_back
    written-Snooped = (
      Snooped-of_same h (record flush { l1 = twice }) once a
          (Snooped-then h flush twice a s
            (drop-Snooped flush a i dead s.coherent r flush_found refl clean))
          (put_line-IsWellFormed (set_idx h.l1 a) i dead formed) same,
      λ x p.
          subst (λ z. IsAbsent z x) (sym same)
            (drop-IsAbsent flush a i dead s.coherent r flush_found refl clean x p),
    )
      where
        s : Snooped h flush a
        s = flushed-Snooped bus h a i g r found

        once : Cache
        once = put_line written.l1 (set_idx h.l1 a) i dead

        twice : Cache
        twice = put_line flush.l1 (set_idx h.l1 a) i dead

        clean : (line_at flush.l1 (set_idx flush.l1 a) i).dirty ≡ false
        clean = ap (λ l. l.dirty) kept_line

        formed : IsWellFormed written.l1
        formed = record {
          offset = g.good_l1.formed.offset;
          some_way = g.good_l1.formed.some_way;
          mru_in = g.good_l1.formed.mru_in;
        }

        same : contents once ≡ contents twice
        same =
            ap (λ (f : ℕ → ℕ → Content). record { nsets = 2 ^ h.l1.s; ways = h.l1.w; line = f })
              (fun_ext λ k'. fun_ext λ i'. ground arith)

  -- The invalidation leaves what the other side shows, with no line of the block.
  pub snoop_invalidate-Snooped :
      Snooped h (snoop_invalidate bus h a) a
      × ((x : ℕ) → block x ≡ block a → IsAbsent (contents (snoop_invalidate bus h a).l1) x)
  unfolding snoop_invalidate
  snoop_invalidate-Snooped = elim (Option-cases (first_way h.l1.w 0 hits)) [
    | inl e ↦ rw (e, snoop_invalidate) (Snooped-refl h a g, missing e)
    | inr (i, e) ↦
        let (lo, hi, t) = first_way-some h.l1.w 0 hits i e in
        let f = found-Located h.l1 a i (omega arith) t in
        elim (Bool-cases (line_at h.l1 (set_idx h.l1 a) i).dirty) [
          | inl d ↦ rw (e, d, snoop_invalidate) (written-Snooped i f)
          | inr d ↦
              rw (e, d, snoop_invalidate)
                (
                  drop-Snooped h a i (dead i f) g r f refl d,
                  drop-IsAbsent h a i (dead i f) g r f refl d,
                )
        ]
  ]
    where
      missing :
          first_way h.l1.w 0 hits ≡ none → (x : ℕ) → block x ≡ block a → IsAbsent (contents h.l1) x
      missing e x p i hi =
          sym (seen_at h.l1 a x i g.good_l1.formed.offset p)
          ∙ first_way-none h.l1.w 0 hits i e (omega arith) (omega arith)
