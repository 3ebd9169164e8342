-- ===== src/Memory/Vmem/Accesses.antt =====
-- The reads, probes and writes of src/memory/vmem.c keep the agreement of two cores.
use sustemu.Base.{ℕ, ◌≡◌, refl, some}
use sustemu.Memory.Bytes.{le_read, le_write}
use sustemu.Memory.Cache.Level.{Fits, RamBlock, block}
use sustemu.Memory.Cache.Fetch.{Bus}
use sustemu.Memory.Cache.Access.{cache_probe_level, cache_fill_and_read}
use sustemu.Memory.Cache.Transparent.Pair.{
  cache_read_level-IsPair, cache_probe_level-IsPair, cache_read-IsPair, cache_write-IsPair,
}
use sustemu.Memory.Vmem.{
  vaddr_read_level, vaddr_fill_and_read, vaddr_probe_level, System, data_side, with_data,
  flush_other, invalidate_other, vaddr_read, vaddr_write,
}
use sustemu.Memory.Vmem.Agreed.{
  IsAgreed, other_cache, flush_other-Flushed, invalidate_other-Invalidated, accessed_system, cached,
}

module _ {M : Type 0} (bus : Bus M) where
  -- A load of the current core returns the flat memory's bytes.
  pub vaddr_read-IsAgreed :
      (s : System M) (flat : ℕ → ℕ) (a len : ℕ)
      → IsAgreed s flat
      → RamBlock (block a)
      → Fits a len
      → (s' : System M) × (vaddr_read bus s a len ≡ some (le_read len flat a, s'))
        × IsAgreed s' flat
  unfolding vaddr_read
  vaddr_read-IsAgreed s flat a len g r fits =
      let (g₁, free) = flush_other-Flushed bus s flat a g r in
      let s₁ = flush_other bus s a in
      let (h, e, p) =
        cache_read-IsPair bus (data_side bus s₁) (other_cache bus s₁) flat a len g₁.pair r fits
          free in
      (
        with_data bus s₁ h,
        rw (cached a r, e, vaddr_read),
        accessed_system bus s₁ flat h g₁.two g₁.hart p,
      )

  pub vaddr_read_level-IsAgreed :
      (s : System M) (flat : ℕ → ℕ) (a len : ℕ)
      → IsAgreed s flat
      → RamBlock (block a)
      → Fits a len
      → (n : ℕ) × (s' : System M) × (vaddr_read_level bus s a len
          ≡ some (n, le_read len flat a, s'))
        × IsAgreed s' flat
  unfolding vaddr_read_level
  vaddr_read_level-IsAgreed s flat a len g r fits =
      let (g₁, free) = flush_other-Flushed bus s flat a g r in
      let s₁ = flush_other bus s a in
      let (n, h, e, p) =
        cache_read_level-IsPair bus (data_side bus s₁) (other_cache bus s₁) flat a len g₁.pair r
          fits free in
      (
        n,
        with_data bus s₁ h,
        rw (cached a r, e, vaddr_read_level),
        accessed_system bus s₁ flat h g₁.two g₁.hart p,
      )

  -- `vaddr_fill_and_read` has the body of `vaddr_read`, since `cache_fill_and_read` is `cache_read`.
  pub vaddr_fill_and_read-vaddr_read :
      (s : System M) (a len : ℕ) → vaddr_fill_and_read bus s a len ≡ vaddr_read bus s a len
  unfolding vaddr_fill_and_read vaddr_read cache_fill_and_read
  vaddr_fill_and_read-vaddr_read s a len = refl

  pub vaddr_probe_level-IsAgreed :
      (s : System M) (flat : ℕ → ℕ) (a : ℕ)
      → IsAgreed s flat
      → RamBlock (block a)
      → IsAgreed (vaddr_probe_level bus s a).1 flat
  unfolding vaddr_probe_level
  vaddr_probe_level-IsAgreed s flat a g r =
      rw (cached a r, vaddr_probe_level)
        (accessed_system bus s flat (cache_probe_level bus (data_side bus s) a).1 g.two g.hart
          (cache_probe_level-IsPair bus (data_side bus s) (other_cache bus s) flat a g.pair))

  -- A store of the current core is the flat memory's store.
  pub vaddr_write-IsAgreed :
      (s : System M) (flat : ℕ → ℕ) (a len v : ℕ)
      → IsAgreed s flat
      → RamBlock (block a)
      → Fits a len
      → (s' : System M) × (vaddr_write bus s a len v ≡ some s')
        × IsAgreed s' (le_write len flat a v)
  unfolding vaddr_write
  vaddr_write-IsAgreed s flat a len v g r fits =
      let (g₁, free) = invalidate_other-Invalidated bus s flat a g r in
      let s₁ = invalidate_other bus s a in
      let (h, e, p) =
        cache_write-IsPair bus (data_side bus s₁) (other_cache bus s₁) flat a len v g₁.pair r fits
          free in
      (
        with_data bus s₁ h,
        rw (cached a r, e, vaddr_write),
        accessed_system bus s₁ (le_write len flat a v) h g₁.two g₁.hart p,
      )
