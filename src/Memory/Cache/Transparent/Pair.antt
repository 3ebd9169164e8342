-- ===== src/Memory/Cache/Transparent/Pair.antt =====
-- Two level-1 caches over one level 2: the snoops, the reads and the writes of one side keep the
-- agreement of both with a flat memory.
use sustemu.Base.{sym, ℕ, ◌+◌, ◌≤◌, ◌<◌, ◌≡◌, ◌≢◌, refl, ◌∙◌, ap, true, some, arith, ◌⊎◌}
use mathlib.Core.Path.{ap₂, subst₂}
use native.Mathlib.Decide.{ℕ_discrete}
use sustemu.Memory.Bytes.{le_read, le_write, le_read-ext, le_write-ext, le_write-other}
use sustemu.Memory.Cache.Lines.{Cache}
use sustemu.Memory.Cache.Level.{Fits, Level, level, RamBlock, block}
use sustemu.Memory.Cache.Level.Laws.{not_true}
use sustemu.Memory.Cache.Level.Moves.{
  Reads, holds, IsAbsent, IsUnwritten, Reads-IsApart, Moves-IsApart, Moves-IsApart_from,
}
use sustemu.Memory.Cache.Level.Share.{
  IsShared, IsShared-swap, IsShared-step, IsAbsent-IsUnwritten, fewer-IsApart,
}
use sustemu.Memory.Cache.Lookup.{contents, IsWellFormed}
use sustemu.Memory.Cache.Install.{IsGood}
use sustemu.Memory.Cache.Fetch.{Mem, Bus, Hier}
use sustemu.Memory.Cache.Access.{cache_read, cache_write, cache_read_level, cache_probe_level}
use sustemu.Memory.Cache.Snoop.{snoop_flush_dirty, snoop_invalidate}
use sustemu.Memory.Cache.Transparent.Fill.{lower, view, IsCoherent}
use sustemu.Memory.Cache.Transparent.Entry.{cache_read-Reads, cache_write-Moves}
use sustemu.Memory.Cache.Transparent.Probe.{
  cache_read_level-Reads, cache_probe_level-contents, cache_probe_level-IsSeenAs,
}
use sustemu.Memory.Cache.Transparent.Clean.{Snooped}
use sustemu.Memory.Cache.Transparent.Snoops.{snoop_flush_dirty-Snooped, snoop_invalidate-Snooped}

-- A side h and the level-1 cache d of the other side, over the level 2 and the memory of h
pub record IsPair {M : Type 0} (h : Hier M) (d : Cache) (flat : ℕ → ℕ) : Type 0 where
  pub formed_c : IsWellFormed h.l1
  pub formed_d : IsWellFormed d
  pub good_l2 : IsGood h.l2 h.mem.ram
  pub shared : IsShared (contents h.l1) (contents d) (lower h) flat

module _ {M : Type 0} where
  abbrev pub swap : Hier M → Cache → Hier M
  swap h d = record h { l1 = d }

  pub IsPair-swap :
      (h : Hier M) (d : Cache) (flat : ℕ → ℕ) → IsPair h d flat → IsPair (swap h d) h.l1 flat
  IsPair-swap h d flat p = record {
    formed_c = p.formed_d;
    formed_d = p.formed_c;
    good_l2 = p.good_l2;
    shared = IsShared-swap p.shared;
  }

  IsPair-IsCoherent : (h : Hier M) (d : Cache) (flat : ℕ → ℕ) → IsPair h d flat → IsCoherent h
  IsPair-IsCoherent h d flat p = record {
    good_l1 = record { formed = p.formed_c; sound = p.shared.sound_c };
    good_l2 = p.good_l2;
  }

  snooped :
      (h h' : Hier M) (d : Cache) (flat : ℕ → ℕ) (a : ℕ)
      → IsPair h d flat
      → Snooped h h' a
      → IsPair h' d flat
  snooped h h' d flat a p s = record {
    formed_c = s.coherent.good_l1.formed;
    formed_d = p.formed_d;
    good_l2 = s.coherent.good_l2;
    shared =
        IsShared-step (contents h.l1) (contents h'.l1) (contents d) (lower h) (lower h') flat flat a
          p.shared s.reads.moves s.coherent.good_l1.sound
          (Reads-IsApart (contents h.l1) (contents h'.l1) (contents d) (lower h) (lower h') a
            s.reads p.shared.apart_c)
          (fewer-IsApart (contents h.l1) (contents h'.l1) (contents d) s.reads.moves.ways s.fewer
            p.shared.apart_d)
          (λ x e. s.same x ∙ e) (λ x j hj q. refl);
  }

module _ {M : Type 0} (bus : Bus M) where
  -- The other side's dirty copy goes down: it has then not written the block.
  pub flush-IsPair :
      (h : Hier M) (d : Cache) (flat : ℕ → ℕ) (a : ℕ)
      → IsPair h d flat
      → RamBlock (block a)
      → let o = snoop_flush_dirty bus (swap h d) a in
        IsPair (record o { l1 = h.l1 }) o.l1 flat
        × ((x : ℕ) → block x ≡ block a → IsUnwritten (contents o.l1) x)
  flush-IsPair h d flat a p r =
      let q = IsPair-swap h d flat p in
      let o = snoop_flush_dirty bus (swap h d) a in
      let (s, u) =
        snoop_flush_dirty-Snooped bus (swap h d) a (IsPair-IsCoherent (swap h d) h.l1 flat q) r in
      (IsPair-swap o h.l1 flat (snooped (swap h d) o h.l1 flat a q s), u)

  -- The other side's copy goes away: it then does not hold the block.
  pub invalidate-IsPair :
      (h : Hier M) (d : Cache) (flat : ℕ → ℕ) (a : ℕ)
      → IsPair h d flat
      → RamBlock (block a)
      → let o = snoop_invalidate bus (swap h d) a in
        IsPair (record o { l1 = h.l1 }) o.l1 flat
        × ((x : ℕ) → block x ≡ block a → IsAbsent (contents o.l1) x)
  invalidate-IsPair h d flat a p r =
      let q = IsPair-swap h d flat p in
      let o = snoop_invalidate bus (swap h d) a in
      let (s, u) =
        snoop_invalidate-Snooped bus (swap h d) a (IsPair-IsCoherent (swap h d) h.l1 flat q) r in
      (IsPair-swap o h.l1 flat (snooped (swap h d) o h.l1 flat a q s), u)

  -- What a read of a block that the other side has not written leaves, and the bytes that it shows
  module _ (h : Hier M) (d : Cache) (flat : ℕ → ℕ) (a len : ℕ) (p : IsPair h d flat)
      (r : RamBlock (block a)) (fits : Fits a len)
      (free : (x : ℕ) → block x ≡ block a → IsUnwritten (contents d) x) where
    read-IsPair :
        (h' : Hier M)
        → IsCoherent h'
        → ((b : ℕ) → view h' b ≡ view h b)
        → Reads (contents h.l1) (contents h'.l1) (lower h) (lower h') a
        → IsPair h' d flat
    read-IsPair h' g same reads = record {
      formed_c = g.good_l1.formed;
      formed_d = p.formed_d;
      good_l2 = g.good_l2;
      shared =
          IsShared-step (contents h.l1) (contents h'.l1) (contents d) (lower h) (lower h') flat flat
            a p.shared reads.moves g.good_l1.sound
            (Reads-IsApart (contents h.l1) (contents h'.l1) (contents d) (lower h) (lower h') a
              reads p.shared.apart_c)
            (Moves-IsApart_from (contents h.l1) (contents h'.l1) (contents d) (lower h) (lower h') a
              reads.moves free p.shared.apart_d)
            (λ x e. same x ∙ e) (λ x j hj q. refl);
    }

    word_seen : le_read len (view h) a ≡ le_read len flat a
    word_seen =
        le_read-ext len (view h) flat a a
          λ i hi. p.shared.see_c (a + i) (free (a + i) (omega arith))

    pub cache_read-IsPair :
        (h' : Hier M) × (cache_read bus h a len ≡ some (le_read len flat a, h')) × IsPair h' d flat
    cache_read-IsPair =
        let (h', e, g, same, reads) =
          cache_read-Reads bus h a len (IsPair-IsCoherent h d flat p) r fits in
        (h', e ∙ ap (λ v. some (v, h')) word_seen, read-IsPair h' g same reads)

    pub cache_read_level-IsPair :
        (n : ℕ) × (h' : Hier M) × (cache_read_level bus h a len ≡ some (n, le_read len flat a, h'))
        × IsPair h' d flat
    cache_read_level-IsPair =
        let (n, h', e, seen, reads) =
          cache_read_level-Reads bus h a len (IsPair-IsCoherent h d flat p) r fits in
        (
          n,
          h',
          e ∙ ap (λ v. some (n, v, h')) word_seen,
          read-IsPair h' seen.coherent seen.same reads,
        )

  -- A probe keeps the agreement.
  pub cache_probe_level-IsPair :
      (h : Hier M) (d : Cache) (flat : ℕ → ℕ) (a : ℕ)
      → IsPair h d flat
      → IsPair (cache_probe_level bus h a).1 d flat
  cache_probe_level-IsPair h d flat a p =
      let g = IsPair-IsCoherent h d flat p in
      let h' = (cache_probe_level bus h a).1 in
      let (l1, l2, m) = cache_probe_level-contents bus h a g in
      let s = cache_probe_level-IsSeenAs bus h a g in
      record {
        formed_c = s.coherent.good_l1.formed;
        formed_d = p.formed_d;
        good_l2 = s.coherent.good_l2;
        shared =
            subst₂ (λ c below. IsShared c (contents d) below flat) (sym l1)
              (sym (ap₂ (λ (x : Level) (y : Mem M). level x y.ram) l2 m)) p.shared;
      }

  -- A write to a block that the other side does not hold is the flat memory's write.
  pub cache_write-IsPair :
      (h : Hier M) (d : Cache) (flat : ℕ → ℕ) (a len v : ℕ)
      → IsPair h d flat
      → RamBlock (block a)
      → Fits a len
      → ((x : ℕ) → block x ≡ block a → IsAbsent (contents d) x)
      → (h' : Hier M) × (cache_write bus h a len v ≡ some h') × IsPair h' d (le_write len flat a v)
  cache_write-IsPair h d flat a len v p r fits free =
      let (h', e, g, same, moves) =
        cache_write-Moves bus h a len v (IsPair-IsCoherent h d flat p) r fits in
      (
        h',
        e,
        record {
          formed_c = g.good_l1.formed;
          formed_d = p.formed_d;
          good_l2 = g.good_l2;
          shared =
              IsShared-step (contents h.l1) (contents h'.l1) (contents d) (lower h) (lower h') flat
                (le_write len flat a v) a p.shared moves g.good_l1.sound
                (Moves-IsApart (contents h.l1) (contents h'.l1) (contents d) (lower h) (lower h') a
                  moves free p.shared.apart_c)
                (Moves-IsApart_from (contents h.l1) (contents h'.l1) (contents d) (lower h)
                  (lower h') a moves (λ x q. IsAbsent-IsUnwritten (contents d) x (free x q))
                  p.shared.apart_d)
                (λ x e. same x ∙ le_write-ext len (view h) flat a v x e) elsewhere;
        },
      )
    where
      elsewhere :
          (x j : ℕ) → j < d.w → holds (contents d) x j ≡ true → le_write len flat a v x ≡ flat x
      elsewhere x j hj q = elim (ℕ_discrete (block x) (block a)) [
        | yes e ↦ absurd (not_true (free x e j hj) q)
        | no e ↦ le_write-other len flat a v x (outside e)
      ]
        where
          outside : block x ≢ block a → (x < a) ⊎ (a + len ≤ x)
          outside e = ground arith
