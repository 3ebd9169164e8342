-- ===== src/Memory/Cache/Access.antt =====
-- The entry points of src/memory/cache.c: reads, writes and level probes. An access that runs past
-- the end of its block reads or writes outside the line's array, and one of more than 8 bytes outside
-- the word it is copied to or from; C leaves both undefined: `none`.
use sustemu.Base.{ℕ, ◌+◌, ◌%◌, true, Option, none, some, leb, if◌then◌else◌, ◌&&◌}
use sustemu.Memory.Bytes.{le_read, le_write}
use sustemu.Memory.Cache.Lines.{
  Cache, CacheLine, find_line, find_line_quiet, set_idx, line_at, put_line, block_size, init_cache,
}
use sustemu.Memory.Cache.Fetch.{Bus, Hier, fetch_block, cache_prefetch}

-- `init_cache_system`: the level-1 caches and the shared level 2
unfoldable pub init_l1 : Cache
unfolding init_cache
init_l1 = init_cache 6 8

unfoldable pub init_l2 : Cache
unfolding init_cache
init_l2 = init_cache 8 16

-- `memcpy(&res, line->data + offset, len)`
unfoldable pub read_line : CacheLine → ℕ → ℕ → Option ℕ
read_line l offset len =
    if leb (offset + len) block_size && leb len 8 then some (le_read len l.bytes offset) else none

-- `memcpy(line->data + offset, &data, len); line->dirty = 1;`
unfoldable pub write_line : CacheLine → ℕ → ℕ → ℕ → Option CacheLine
write_line l offset len v =
    if leb (offset + len) block_size && leb len 8
    then some (record l { bytes = le_write len l.bytes offset v; dirty = true })
    else none

module _ {M : Type 0} (bus : Bus M) where
  -- The line of an address, fetched if it is missing: the way, and the hierarchy after it
  unfoldable pub obtain : Hier M → ℕ → ℕ × Hier M
  unfolding find_line fetch_block cache_prefetch
  obtain h addr =
      let (hit, way, l1) = find_line h.l1 addr in
      let h' = record h { l1 = l1 } in
      (way, if hit then h' else cache_prefetch bus (fetch_block bus h' addr way) addr)

  unfoldable pub cache_read : Hier M → ℕ → ℕ → Option (ℕ × Hier M)
  unfolding obtain read_line
  cache_read h₀ addr len =
      let (way, h) = obtain h₀ addr in
      elim (read_line (line_at h.l1 (set_idx h.l1 addr) way) (addr % block_size) len) [
        | none ↦ none
        | some v ↦ some (v, h)
      ]

  unfoldable pub cache_write : Hier M → ℕ → ℕ → ℕ → Option (Hier M)
  unfolding obtain write_line
  cache_write h₀ addr len v =
      let (way, h) = obtain h₀ addr in
      let k = set_idx h.l1 addr in
      elim (write_line (line_at h.l1 k way) (addr % block_size) len v) [
        | none ↦ none
        | some l ↦ some (record h { l1 = put_line h.l1 k way l })
      ]

  -- `cache_probe_level`: 0 for level 1, 1 for level 2, 2 for memory. The lookups may move the
  -- `mru_way` of a set.
  unfoldable pub cache_probe_level : Hier M → ℕ → ℕ × Hier M
  unfolding find_line_quiet
  cache_probe_level h addr =
      let (l1_hit, _, l1) = find_line_quiet h.l1 addr in
      let (l2_hit, _, l2) = find_line_quiet h.l2 addr in
      if l1_hit
      then (0, record h { l1 = l1 })
      else (if l2_hit then 1 else 2, record h { l1 = l1; l2 = l2 })

  -- `cache_read_level`: the probe of level 2 comes between the lookup and the fetch.
  unfoldable pub cache_read_level : Hier M → ℕ → ℕ → Option (ℕ × ℕ × Hier M)
  unfolding find_line find_line_quiet fetch_block cache_prefetch read_line
  cache_read_level h₀ addr len =
      let (hit, way, l1) = find_line h₀.l1 addr in
      let (l2_hit, _, l2) = find_line_quiet h₀.l2 addr in
      let h =
        if hit
        then record h₀ { l1 = l1 }
        else cache_prefetch bus (fetch_block bus (record h₀ { l1 = l1; l2 = l2 }) addr way) addr in
      elim (read_line (line_at h.l1 (set_idx h.l1 addr) way) (addr % block_size) len) [
        | none ↦ none
        | some v ↦ some (if hit then 0 else if l2_hit then 1 else 2, v, h)
      ]

  -- `cache_fill_and_read` has the body of `cache_read`.
  unfoldable pub cache_fill_and_read : Hier M → ℕ → ℕ → Option (ℕ × Hier M)
  unfolding cache_read
  cache_fill_and_read h addr len = cache_read h addr len
