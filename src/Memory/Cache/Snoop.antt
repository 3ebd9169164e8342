-- ===== src/Memory/Cache/Snoop.antt =====
-- The coherence helpers of src/memory/cache.c: `cache_snoop_invalidate` and
-- `cache_snoop_flush_dirty`, on the other core's level-1 cache and the shared level 2.
use sustemu.Base.{ℕ, false, none, some, if◌then◌else◌, ◌&&◌}
use sustemu.Word.{add64}
use sustemu.Memory.Cache.Lines.{
  Cache, CacheLine, set_idx, tag_of, line_at, put_line, line_hits, first_way,
}
use sustemu.Memory.Cache.Fetch.{Bus, Hier, write_l2, block_base}

abbrev pub count_writeback : Cache → Cache
count_writeback c = record c { writebacks = add64 c.writebacks 1 }

-- The state is the other core's cache as `l1`, with the shared level 2 and memory.
module _ {M : Type 0} (bus : Bus M) where
  -- `access_l2(L2_cache, block_paddr, set->lines[i].data, true)`, counted to the other cache
  unfoldable pub write_back : Hier M → ℕ → CacheLine → Hier M
  unfolding write_l2
  write_back h addr l =
      let (l2, m) = write_l2 bus h.l2 (block_base addr) l.bytes h.mem in
      record { l1 = count_writeback h.l1; l2 = l2; mem = m }

  unfoldable pub snoop_invalidate : Hier M → ℕ → Hier M
  unfolding first_way write_back
  snoop_invalidate h addr = elim (first_way h.l1.w 0 (λ i. line_hits (line_at h.l1 k i) tag)) [
    | none ↦ h
    | some i ↦
        let l = line_at h.l1 k i in
        let h' = if l.dirty then write_back h addr l else h in
        record h' { l1 = put_line h'.l1 k i (record l { valid = false; dirty = false }) }
  ]
    where
      k : ℕ
      k = set_idx h.l1 addr

      tag : ℕ
      tag = tag_of h.l1 addr

  unfoldable pub snoop_flush_dirty : Hier M → ℕ → Hier M
  unfolding first_way write_back
  snoop_flush_dirty h addr =
      elim (first_way h.l1.w 0
        (λ i. line_hits (line_at h.l1 k i) tag && (line_at h.l1 k i).dirty)) [
          | none ↦ h
          | some i ↦
              let l = line_at h.l1 k i in
              let h' = write_back h addr l in
              record h' { l1 = put_line h'.l1 k i (record l { dirty = false }) }
        ]
    where
      k : ℕ
      k = set_idx h.l1 addr

      tag : ℕ
      tag = tag_of h.l1 addr
