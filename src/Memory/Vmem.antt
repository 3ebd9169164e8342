-- ===== src/Memory/Vmem.antt =====
-- src/memory/vmem.c: the accesses of a core. An address of the guest's memory goes through the
-- caches, after the other core's level 1 has been told; any other goes to the bus.
pub mod Agreed
pub mod Accesses
pub mod Start
pub mod Cores
pub mod Tests
use sustemu.Base.{ℕ, ◌-◌, Bool, Option, some, leb, ltb, if◌then◌else◌, ◌&&◌, update, ◌>>=◌}
use sustemu.Memory.Cache.Lines.{Cache}
use sustemu.Memory.Cache.Fetch.{Mem, Bus, Hier}
use sustemu.Memory.Cache.Access.{
  cache_read, cache_write, cache_read_level, cache_probe_level, cache_fill_and_read,
}
use sustemu.Memory.Cache.Snoop.{snoop_flush_dirty, snoop_invalidate}

-- The operations that a core calls, over the state that they share
pub record VirtualMemory (S : Type 0) : Type 0 where
  pub vaddr_ifetch : S → ℕ → ℕ → Option (ℕ × S)
  pub vaddr_read : S → ℕ → ℕ → Option (ℕ × S)
  pub vaddr_read_level : S → ℕ → ℕ → Option (ℕ × ℕ × S)
  pub vaddr_fill_and_read : S → ℕ → ℕ → Option (ℕ × S)
  pub vaddr_probe_level : S → ℕ → ℕ × S
  pub vaddr_write : S → ℕ → ℕ → ℕ → Option S

-- `g_num_cores`, `g_current_hartid`, the level-1 caches of the cores, the shared level 2, and the
-- memory. `L1I_cache` and `L1D_cache` are those of the current core.
pub record System (M : Type 0) : Type 0 where
  pub num_cores : ℕ
  pub current_hartid : ℕ
  pub l1i : ℕ → Cache
  pub l1d : ℕ → Cache
  pub l2 : Cache
  pub mem : Mem M

abbrev pub is_cached : ℕ → Bool
is_cached addr = leb 0x8000_0000 addr && ltb addr 0x8800_0000

module _ {M : Type 0} (bus : Bus M) where
  -- The caches that the current core's data accesses see, and the system after they have changed
  abbrev pub data_side : System M → Hier M
  data_side s = record { l1 = s.l1d s.current_hartid; l2 = s.l2; mem = s.mem }

  abbrev pub with_data : System M → Hier M → System M
  with_data s h = record s { l1d = update s.l1d s.current_hartid h.l1; l2 = h.l2; mem = h.mem }

  abbrev pub inst_side : System M → Hier M
  inst_side s = record { l1 = s.l1i s.current_hartid; l2 = s.l2; mem = s.mem }

  abbrev pub with_inst : System M → Hier M → System M
  with_inst s h = record s { l1i = update s.l1i s.current_hartid h.l1; l2 = h.l2; mem = h.mem }

  -- The other core's data cache over the same level 2. There are two cores, numbered 0 and 1.
  abbrev other_side : System M → Hier M
  other_side s = record { l1 = s.l1d (1 - s.current_hartid); l2 = s.l2; mem = s.mem }

  abbrev with_other : System M → Hier M → System M
  with_other s h = record s {
    l1d = update s.l1d (1 - s.current_hartid) h.l1;
    l2 = h.l2;
    mem = h.mem;
  }

  -- `if (g_num_cores > 1)`: a dirty copy of the other core goes down first.
  unfoldable pub flush_other : System M → ℕ → System M
  unfolding snoop_flush_dirty
  flush_other s addr =
      if ltb 1 s.num_cores then with_other s (snoop_flush_dirty bus (other_side s) addr) else s

  -- `if (g_num_cores > 1)`: a copy of the other core goes away first.
  unfoldable pub invalidate_other : System M → ℕ → System M
  unfolding snoop_invalidate
  invalidate_other s addr =
      if ltb 1 s.num_cores then with_other s (snoop_invalidate bus (other_side s) addr) else s

  -- The accesses of the devices and of what lies outside the guest's memory
  abbrev direct_read : System M → ℕ → ℕ → Option (ℕ × System M)
  direct_read s addr len =
      let (v, m) = bus.paddr_read s.mem addr len in some (v, record s { mem = m })

  unfoldable pub vaddr_ifetch : System M → ℕ → ℕ → Option (ℕ × System M)
  unfolding cache_read
  vaddr_ifetch s addr len =
      if is_cached addr
      then (cache_read bus (inst_side s) addr len >>= λ r. some (r.0, with_inst s r.1))
      else direct_read s addr len

  unfoldable pub vaddr_read : System M → ℕ → ℕ → Option (ℕ × System M)
  unfolding flush_other cache_read
  vaddr_read s addr len =
      if is_cached addr
      then (let s' = flush_other s addr in
          cache_read bus (data_side s') addr len >>= λ r. some (r.0, with_data s' r.1))
      else direct_read s addr len

  -- The level that answered, the word, and the system
  unfoldable pub vaddr_read_level : System M → ℕ → ℕ → Option (ℕ × ℕ × System M)
  unfolding flush_other cache_read_level
  vaddr_read_level s addr len =
      if is_cached addr
      then (let s' = flush_other s addr in
          cache_read_level bus (data_side s') addr len >>= λ r. some (r.0, r.1, with_data s' r.2))
      else (direct_read s addr len >>= λ r. some (0, r.0, r.1))

  unfoldable pub vaddr_probe_level : System M → ℕ → ℕ × System M
  unfolding cache_probe_level
  vaddr_probe_level s addr =
      if is_cached addr
      then (let (n, h) = cache_probe_level bus (data_side s) addr in (n, with_data s h))
      else (0, s)

  unfoldable pub vaddr_fill_and_read : System M → ℕ → ℕ → Option (ℕ × System M)
  unfolding flush_other cache_fill_and_read
  vaddr_fill_and_read s addr len =
      if is_cached addr
      then (let s' = flush_other s addr in
          cache_fill_and_read bus (data_side s') addr len >>= λ r. some (r.0, with_data s' r.1))
      else direct_read s addr len

  unfoldable pub vaddr_write : System M → ℕ → ℕ → ℕ → Option (System M)
  unfolding invalidate_other cache_write
  vaddr_write s addr len v =
      if is_cached addr
      then (let s' = invalidate_other s addr in
          cache_write bus (data_side s') addr len v >>= λ h. some (with_data s' h))
      else some (record s { mem = bus.paddr_write s.mem addr len v })

  -- The functions of the file as the engine calls them
  abbrev pub vmem : VirtualMemory (System M)
  vmem = record {
    vaddr_ifetch = vaddr_ifetch;
    vaddr_read = vaddr_read;
    vaddr_read_level = vaddr_read_level;
    vaddr_fill_and_read = vaddr_fill_and_read;
    vaddr_probe_level = vaddr_probe_level;
    vaddr_write = vaddr_write;
  }
