-- ===== src/Memory/Mmio.antt =====
-- src/memory/mmio.c: the maps of the devices. A pointer into the devices' space is its offset; a
-- device's callback is a function on that space and on the rest of the world.
pub mod Dispatch
use sustemu.Base.{
  ℕ, zero, suc, ◌+◌, ◌-◌, ◌%◌, ◌^◌, Bool, true, false, Option, none, some, leb, ltb, ◌==◌,
  if◌then◌else◌, ◌&&◌, update, ◌>>=◌,
}
use sustemu.Word.{add64, sub64}
use sustemu.Memory.Bytes.{host_read, host_write}

-- The bytes of `io_space`, and whatever the callbacks reach besides
pub record Io (D : Type 0) : Type 0 where
  pub bytes : ℕ → ℕ
  pub world : D

-- `IOMap` without its name, which only the log prints
pub record IoMap (D : Type 0) : Type 0 where
  pub low : ℕ
  pub high : ℕ
  pub space : ℕ
  pub callback : Option (ℕ → ℕ → Bool → Io D → Io D)

pub record Mmio (D : Type 0) : Type 0 where
  pub maps : ℕ → IoMap D
  pub nr_map : ℕ
  pub p_space : ℕ
  pub io : Io D

module _ {D : Type 0} where
  unfoldable pub map_inside : IoMap D → ℕ → Bool
  map_inside m addr = leb m.low addr && leb addr m.high

  -- The loop from map i on, with k maps to go
  unfoldable pub find_from : ℕ → ℕ → (ℕ → IoMap D) → ℕ → Option ℕ
  find_from zero i maps addr = none
  find_from (suc k) i maps addr =
      if map_inside (maps i) addr then some i else find_from k (i + 1) maps addr

  unfoldable pub find_mapid_by_addr : Mmio D → ℕ → Option ℕ
  find_mapid_by_addr s addr = find_from s.nr_map 0 s.maps addr

  unfoldable pub fetch_mmio_map : Mmio D → ℕ → Option (IoMap D)
  fetch_mmio_map s addr = find_mapid_by_addr s addr >>= λ i. some (s.maps i)

  unfoldable pub invoke_callback : Option (ℕ → ℕ → Bool → Io D → Io D) → ℕ → ℕ → Bool → Io D → Io D
  invoke_callback none offset len is_write io = io
  invoke_callback (some c) offset len is_write io = c offset len is_write io

  abbrev pub new_map : ℕ → ℕ → ℕ → Option (ℕ → ℕ → Bool → Io D → Io D) → IoMap D
  new_map addr space len callback = record {
    low = addr;
    high = sub64 (add64 addr len) 1;
    space = space;
    callback = callback;
  }

  -- Sixteen maps at most: one more fails the assertion.
  unfoldable pub add_mmio_map :
      ℕ → ℕ → ℕ → Option (ℕ → ℕ → Bool → Io D → Io D) → Mmio D → Option (Mmio D)
  add_mmio_map addr space len callback s =
      if ltb s.nr_map 16
      then some (record s {
        maps = update s.maps s.nr_map (new_map addr space len callback);
        nr_map = s.nr_map + 1;
      })
      else none

  -- The device hears of a read before it happens, and the callback's offset has 32 bits.
  unfoldable pub map_read : ℕ → ℕ → IoMap D → Mmio D → ℕ × Mmio D
  map_read addr len m s =
      let offset = sub64 addr m.low in
      let io = invoke_callback m.callback (offset % 2 ^ 32) len false s.io in
      (host_read io.bytes (m.space + offset) len, record s { io = io })

  -- And of a write after it
  unfoldable pub map_write : ℕ → ℕ → ℕ → IoMap D → Mmio D → Mmio D
  map_write addr len v m s =
      let offset = sub64 addr m.low in
      record s {
        io =
            invoke_callback m.callback (offset % 2 ^ 32) len true (written (m.space + offset) s.io);
      }
    where
      written : ℕ → Io D → Io D
      written p io = record io { bytes = host_write io.bytes p len v }

  -- Without a device at the address the simulator panics.
  unfoldable pub mmio_read : ℕ → ℕ → Mmio D → Option (ℕ × Mmio D)
  mmio_read addr len s = fetch_mmio_map s addr >>= λ m. some (map_read addr len m s)

  unfoldable pub mmio_write : ℕ → ℕ → ℕ → Mmio D → Option (Mmio D)
  mmio_write addr len v s = fetch_mmio_map s addr >>= λ m. some (map_write addr len v m s)

  -- `new_space`: the pointer, and the space after it has been given away in whole pages
  unfoldable pub new_space : ℕ → Mmio D → ℕ × Mmio D
  new_space size s =
      let whole = size + 4096 - 1 in
      (s.p_space, record s { p_space = s.p_space + (whole - whole % 4096) })
