-- ===== src/Memory/Vmem/Agreed.antt =====
-- The data accesses of src/memory/vmem.c on two cores whose caches agree with a flat memory.
use sustemu.Base.{
  ℕ, ◌-◌, ◌≤◌, ◌≡◌, ◌≢◌, sym, ap, subst, true, ltb, if◌then◌else◌, update, update_self, update_ne,
  arith, ◌⊎◌, inl, inr,
}
use mathlib.Core.Path.{subst₂}
use sustemu.Memory.Cache.Lines.{Cache}
use sustemu.Memory.Cache.Level.{RamBlock, block}
use sustemu.Memory.Cache.Lookup.{contents}
use sustemu.Memory.Cache.Level.Moves.{IsUnwritten, IsAbsent}
use sustemu.Memory.Cache.Fetch.{Bus, Hier}
use sustemu.Memory.Cache.Snoop.{snoop_flush_dirty, snoop_invalidate}
use sustemu.Memory.Cache.Transparent.Pair.{IsPair, IsPair-swap, flush-IsPair, invalidate-IsPair}
use sustemu.Memory.Vmem.{System, is_cached, data_side, with_data, flush_other, invalidate_other}

module _ {M : Type 0} where
  -- The data caches of the two cores agree with a flat memory, seen from the current core.
  pub record IsAgreed (s : System M) (flat : ℕ → ℕ) : Type 0 where
    pub two : s.num_cores ≡ 2
    pub hart : s.current_hartid ≤ 1
    pub pair :
        IsPair
          (record { l1 = s.l1d s.current_hartid; l2 = s.l2; mem = s.mem })
          (s.l1d (1 - s.current_hartid))
          flat

  -- `g_current_hartid` and the caches of the current core are those of core t.
  abbrev pub on_core : ℕ → System M → System M
  on_core t s = record s { current_hartid = t }

  pub IsAgreed-on_core :
      (s : System M) (flat : ℕ → ℕ) (t : ℕ) → t ≤ 1 → IsAgreed s flat → IsAgreed (on_core t s) flat
  IsAgreed-on_core s flat t ht g = record {
    two = g.two;
    hart = ht;
    pair = elim same_or_other [
      | inl e ↦ subst sides (sym e) g.pair
      | inr e ↦ subst sides (sym e) (
          subst
            (λ n.
              IsPair (record { l1 = s.l1d (1 - s.current_hartid); l2 = s.l2; mem = s.mem })
                (s.l1d n) flat)
            back
            (IsPair-swap (record { l1 = s.l1d s.current_hartid; l2 = s.l2; mem = s.mem })
              (s.l1d (1 - s.current_hartid)) flat g.pair))
    ];
  }
    where
      sides : ℕ → Type 0
      sides n = IsPair (record { l1 = s.l1d n; l2 = s.l2; mem = s.mem }) (s.l1d (1 - n)) flat

      same_or_other : (t ≡ s.current_hartid) ⊎ (t ≡ 1 - s.current_hartid)
      same_or_other = ground (arith, ht, g.hart)

      back : s.current_hartid ≡ 1 - (1 - s.current_hartid)
      back = omega (arith, g.hart)

pub cached : (a : ℕ) → RamBlock (block a) → is_cached a ≡ true
cached a r = ground arith

apart_harts : (t : ℕ) → t ≢ 1 - t
apart_harts t = omega arith

module _ {M : Type 0} (bus : Bus M) where
  -- The system after a snoop of the other core's cache
  snooped_system :
      (s : System M) (flat : ℕ → ℕ) (o : Hier M)
      → s.num_cores ≡ 2
      → s.current_hartid ≤ 1
      → IsPair (record o { l1 = s.l1d s.current_hartid }) o.l1 flat
      → IsAgreed
          (record s { l1d = update s.l1d (1 - s.current_hartid) o.l1; l2 = o.l2; mem = o.mem })
          flat
  snooped_system s flat o two hart p = record {
    two = two;
    hart = hart;
    pair =
        subst₂ (λ c d. IsPair (record o { l1 = c }) d flat)
          (sym (update_ne s.l1d (1 - t) t o.l1 (apart_harts t)))
          (sym (update_self s.l1d (1 - t) o.l1)) p;
  }
    where
      t : ℕ
      t = s.current_hartid

  -- The system after an access to the current core's cache
  pub accessed_system :
      (s : System M) (flat : ℕ → ℕ) (h : Hier M)
      → s.num_cores ≡ 2
      → s.current_hartid ≤ 1
      → IsPair h (s.l1d (1 - s.current_hartid)) flat
      → IsAgreed (with_data bus s h) flat
  accessed_system s flat h two hart p = record {
    two = two;
    hart = hart;
    pair =
        subst₂ (λ c d. IsPair (record h { l1 = c }) d flat) (sym (update_self s.l1d t h.l1))
          (sym (update_ne s.l1d t (1 - t) h.l1 (λ e. apart_harts t (sym e)))) p;
  }
    where
      t : ℕ
      t = s.current_hartid

  abbrev pub other_cache : System M → Cache
  other_cache s = s.l1d (1 - s.current_hartid)

  -- Agreed, and the other core has not written the block, or does not hold it.
  abbrev pub Flushed : (ℕ → ℕ) → ℕ → System M → Type 0
  Flushed flat a s =
      IsAgreed s flat × ((x : ℕ) → block x ≡ block a → IsUnwritten (contents (other_cache s)) x)

  abbrev pub Invalidated : (ℕ → ℕ) → ℕ → System M → Type 0
  Invalidated flat a s =
      IsAgreed s flat × ((x : ℕ) → block x ≡ block a → IsAbsent (contents (other_cache s)) x)

  pub with_two : {X : Type 0} (n : ℕ) (x y : X) → n ≡ 2 → (if ltb 1 n then x else y) ≡ x
  with_two n x y e = ap (λ m. if ltb 1 m then x else y) e

  pub flush_other-Flushed :
      (s : System M) (flat : ℕ → ℕ) (a : ℕ)
      → IsAgreed s flat
      → RamBlock (block a)
      → Flushed flat a (flush_other bus s a)
  unfolding flush_other
  flush_other-Flushed s flat a g r = subst (Flushed flat a) (sym (with_two s.num_cores _ s g.two)) (
    snooped_system s flat o g.two g.hart f.0,
    λ x p. subst (λ c. IsUnwritten (contents c) x) (sym (update_self s.l1d (1 - t) o.l1)) (f.1 x p),
  )
    where
      t : ℕ
      t = s.current_hartid

      h : Hier M
      h = data_side bus s

      o : Hier M
      o = snoop_flush_dirty bus (record h { l1 = s.l1d (1 - t) }) a

      f :
          IsPair (record o { l1 = h.l1 }) o.l1 flat
          × ((x : ℕ) → block x ≡ block a → IsUnwritten (contents o.l1) x)
      f = flush-IsPair bus h (s.l1d (1 - t)) flat a g.pair r

  pub invalidate_other-Invalidated :
      (s : System M) (flat : ℕ → ℕ) (a : ℕ)
      → IsAgreed s flat
      → RamBlock (block a)
      → Invalidated flat a (invalidate_other bus s a)
  unfolding invalidate_other
  invalidate_other-Invalidated s flat a g r =
      subst (Invalidated flat a) (sym (with_two s.num_cores _ s g.two)) (
        snooped_system s flat o g.two g.hart f.0,
        λ x p.
            subst (λ c. IsAbsent (contents c) x) (sym (update_self s.l1d (1 - t) o.l1)) (f.1 x p),
      )
    where
      t : ℕ
      t = s.current_hartid

      h : Hier M
      h = data_side bus s

      o : Hier M
      o = snoop_invalidate bus (record h { l1 = s.l1d (1 - t) }) a

      f :
          IsPair (record o { l1 = h.l1 }) o.l1 flat
          × ((x : ℕ) → block x ≡ block a → IsAbsent (contents o.l1) x)
      f = invalidate-IsPair bus h (s.l1d (1 - t)) flat a g.pair r
