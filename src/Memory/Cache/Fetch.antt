-- ===== src/Memory/Cache/Fetch.antt =====
-- The block transfers of src/memory/cache.c: `load_block_from_mem`, `store_block_to_mem`,
-- `access_l2`, `fetch_block` and `cache_prefetch`, with the hint of src/memory/prefetch.c. The bus
-- behind the fallback of the two block transfers (`paddr_read`, `paddr_write`) is an argument.
use sustemu.Base.{
  ℕ, zero, suc, ◌+◌, ◌-◌, ◌%◌, ◌^◌, Bool, true, false, ltb, leb, ◌==◌, if◌then◌else◌, ◌&&◌,
}
use sustemu.Word.{add64, shl64}
use sustemu.Memory.Bytes.{le_read, le_write}
use sustemu.Memory.Cache.Lines.{
  Cache, CacheLine, find_line, find_line_quiet, set_idx, tag_of, line_at, put_line, block_size,
}

-- The host's `pmem` array by guest address, and whatever lies behind the device registers.
pub record Mem (M : Type 0) : Type 0 where
  pub ram : ℕ → ℕ
  pub io : M

-- `paddr_read` and `paddr_write`, which the fallback of the block transfers calls.
pub record Bus (M : Type 0) : Type 0 where
  pub paddr_read : Mem M → ℕ → ℕ → ℕ × Mem M
  pub paddr_write : Mem M → ℕ → ℕ → ℕ → Mem M

abbrev pub mbase : ℕ
mbase = 0x8000_0000

abbrev pub msize : ℕ
msize = 0x800_0000

-- The test of the fast path
abbrev pub in_ram : ℕ → Bool
in_ram pa = leb mbase pa && leb (pa + block_size) (mbase + msize)

-- A level-1 cache, the shared level 2, and the memory below
pub record Hier (M : Type 0) : Type 0 where
  pub l1 : Cache
  pub l2 : Cache
  pub mem : Mem M

-- `prefetch_hint`: the placeholder that asks for no prefetch
unfoldable pub prefetch_hint : ℕ → ℕ
prefetch_hint addr = 0

-- `addr & ~(paddr_t)(BLOCK_SIZE - 1)`
abbrev pub block_base : ℕ → ℕ
block_base addr = addr - addr % block_size

-- The address that a victim's tag and its set stand for: the `|` of the two parts, which share no
-- bit, is their sum.
abbrev pub victim_addr : Cache → ℕ → ℕ → ℕ
victim_addr c tag addr = shl64 tag (c.s + c.off) + shl64 (set_idx c addr) c.off

module _ {M : Type 0} (bus : Bus M) where
  -- The fallback loop of `load_block_from_mem`, n words from offset i on
  unfoldable pub load_words : ℕ → ℕ → ℕ → (ℕ → ℕ) → Mem M → (ℕ → ℕ) × Mem M
  unfolding le_write
  load_words zero i addr dest m = (dest, m)
  load_words (suc n) i addr dest m =
      let (v, m') = bus.paddr_read m (add64 addr i) 8 in
      load_words n (i + 8) addr (le_write 8 dest i v) m'

  unfoldable pub load_block : ℕ → (ℕ → ℕ) → Mem M → (ℕ → ℕ) × Mem M
  unfolding load_words
  load_block addr dest m =
      let pa = addr % 2 ^ 32 in
      if in_ram pa then (λ o. m.ram (pa + o), m) else load_words 8 0 addr dest m

  -- The fallback loop of `store_block_to_mem`
  unfoldable pub store_words : ℕ → ℕ → ℕ → (ℕ → ℕ) → Mem M → Mem M
  unfolding le_read
  store_words zero i addr src m = m
  store_words (suc n) i addr src m =
      store_words n (i + 8) addr src (bus.paddr_write m (add64 addr i) 8 (le_read 8 src i))

  unfoldable pub store_block : ℕ → (ℕ → ℕ) → Mem M → Mem M
  unfolding store_words
  store_block addr src m =
      let pa = addr % 2 ^ 32 in
      if in_ram pa
      then record m {
        ram = λ a. if leb pa a && ltb a (pa + block_size) then src (a - pa) else m.ram a;
      }
      else store_words 8 0 addr src m

  -- A miss of `access_l2`: the dirty victim goes to memory.
  unfoldable pub evict_l2 : Cache → ℕ → CacheLine → Mem M → Cache × Mem M
  unfolding store_block
  evict_l2 l2 addr victim m =
      if victim.valid && victim.dirty
      then (
        record l2 { evictions = add64 l2.evictions 1; writebacks = add64 l2.writebacks 1 },
        store_block (victim_addr l2 victim.tag addr) victim.bytes m,
      )
      else (l2, m)

  -- `access_l2(…, is_write = true)`: a block arrives from level 1.
  unfoldable pub write_l2 : Cache → ℕ → (ℕ → ℕ) → Mem M → Cache × Mem M
  unfolding find_line evict_l2
  write_l2 l2₀ addr block m₀ =
      let (hit, way, l2₁) = find_line l2₀ addr in
      let k = set_idx l2₁ addr in
      let line = line_at l2₁ k way in
      if hit
      then (put_line l2₁ k way (record line { bytes = block; dirty = true }), m₀)
      else (let (l2₂, m) = evict_l2 l2₁ addr line m₀ in
          (
            put_line l2₂ k way (record {
              valid = true;
              dirty = true;
              tag = tag_of l2₂ addr;
              last_access = l2₂.timer;
              bytes = block;
            }),
            m,
          ))

  -- `access_l2(…, is_write = false)`: a block is read for level 1.
  unfoldable pub read_l2 : Cache → ℕ → Mem M → (ℕ → ℕ) × Cache × Mem M
  unfolding find_line evict_l2 load_block
  read_l2 l2₀ addr m₀ =
      let (hit, way, l2₁) = find_line l2₀ addr in
      let k = set_idx l2₁ addr in
      let line = line_at l2₁ k way in
      if hit
      then (line.bytes, l2₁, m₀)
      else (let (l2₂, m₁) = evict_l2 l2₁ addr line m₀ in
          let (block, m) = load_block (block_base addr) line.bytes m₁ in
          (
            block,
            put_line l2₂ k way (record {
              valid = true;
              dirty = false;
              tag = tag_of l2₂ addr;
              last_access = l2₂.timer;
              bytes = block;
            }),
            m,
          ))

  -- Step 1 of `fetch_block`: a valid victim is counted, a dirty one written to level 2.
  unfoldable pub evict_l1 : Hier M → ℕ → CacheLine → Hier M
  unfolding write_l2
  evict_l1 h addr victim =
      let l1 = h.l1 in
      if victim.valid
      then (if victim.dirty
          then (let (l2, m) = write_l2 h.l2 (victim_addr l1 victim.tag addr) victim.bytes h.mem in
              record {
                l1 = record l1 {
                  evictions = add64 l1.evictions 1;
                  writebacks = add64 l1.writebacks 1;
                };
                l2 = l2;
                mem = m;
              })
          else record h { l1 = record l1 { evictions = add64 l1.evictions 1 } })
      else h

  -- `fetch_block` into the way that the lookup chose
  unfoldable pub fetch_block : Hier M → ℕ → ℕ → Hier M
  unfolding evict_l1 read_l2
  fetch_block h₀ addr way =
      let k = set_idx h₀.l1 addr in
      let h = evict_l1 h₀ addr (line_at h₀.l1 k way) in
      let (block, l2, m) = read_l2 h.l2 addr h.mem in
      record {
        l1 = put_line h.l1 k way (record {
          valid = true;
          dirty = false;
          tag = tag_of h.l1 addr;
          last_access = h.l1.timer;
          bytes = block;
        });
        l2 = l2;
        mem = m;
      }

  -- One round of `cache_prefetch`: the block of the hint, unless level 1 has it
  unfoldable pub prefetch_block : Hier M → ℕ → Hier M
  unfolding find_line_quiet fetch_block
  prefetch_block h hint =
      let (already, way, l1) = find_line_quiet h.l1 hint in
      if already then record h { l1 = l1 } else fetch_block (record h { l1 = l1 }) hint way

  unfoldable pub prefetch_loop : ℕ → Hier M → ℕ → Hier M
  unfolding prefetch_block prefetch_hint
  prefetch_loop zero h cur = h
  prefetch_loop (suc n) h cur =
      let hint = prefetch_hint cur in
      let rest = prefetch_loop n (prefetch_block h hint) hint in if hint == 0 then h else rest

  -- `cache_prefetch`, at degree 2
  unfoldable pub cache_prefetch : Hier M → ℕ → Hier M
  unfolding prefetch_loop
  cache_prefetch h miss_addr = prefetch_loop 2 h miss_addr
