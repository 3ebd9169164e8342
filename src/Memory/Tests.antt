-- ===== src/Memory/Tests.antt =====
-- Runs of the bus: a serial port, a second device over it, and a protected word.
use sustemu.Base.{
  ℕ, ◌+◌, ◌*◌, ◌%◌, ◌^◌, ◌≡◌, refl, Bool, none, some, leb, if◌then◌else◌, ◌&&◌, update, inl, arith,
  ◌>>=◌,
}
use sustemu.Word.{add64, sub64}
use sustemu.Cpu.Csr.Tests.{guarded_user}
use sustemu.Memory.Bytes.{host_read, host_write, le_read, le_write}
use sustemu.Memory.Cache.Fetch.{Mem}
use sustemu.Memory.Mmio.{
  Io, Mmio, map_inside, find_from, find_mapid_by_addr, fetch_mmio_map, invoke_callback,
  add_mmio_map, new_map, map_read, map_write, mmio_read, mmio_write, new_space,
}
use sustemu.Memory.Mmio.Dispatch.{or_else, fetch_mmio_map-add_mmio_map}
use sustemu.Memory.Pmem.{Outside, paddr_read, paddr_write}
use sustemu.Memory.Pmem.Roundtrip.{paddr_read-paddr_write}

-- A device that counts how often it is called
abbrev count : ℕ → ℕ → Bool → Io ℕ → Io ℕ
count offset len is_write io = record io { world = io.world + 1 }

abbrev no_maps : Mmio ℕ
no_maps = record {
  maps = λ i. new_map 0 0 1 none;
  nr_map = 0;
  p_space = 0;
  io = record { bytes = λ i. 0; world = 0 };
}

abbrev serial : Mmio ℕ
serial = record no_maps {
  maps = update no_maps.maps 0 (new_map 0xa000_03f8 0 8 (some count));
  nr_map = 1;
}

-- The serial port stores the byte and hears of the write and of the read; nothing is at 0xa0000000.
serial_echo :
    (mmio_write 0xa000_03f8 1 0x41 serial >>= λ m.
    mmio_read 0xa000_03f8 1 m >>= λ r. some (r.0 + 1000 * r.1.io.world))
    ≡ some (0x41 + 1000 * 2)
unfolding mmio_write mmio_read fetch_mmio_map find_mapid_by_addr find_from map_inside map_read
    map_write invoke_callback host_read host_write le_read le_write
serial_echo = refl

no_device : mmio_read 0xa000_0000 4 serial ≡ none
unfolding mmio_read fetch_mmio_map find_mapid_by_addr find_from map_inside
no_device = refl

whole_pages : (new_space 5000 serial).1.p_space ≡ 8192
unfolding new_space
whole_pages = refl

fetch_mmio_map-add_mmio_map_example :
    (s' : Mmio ℕ) × (add_mmio_map 0xa000_03fc 4096 8 none serial ≡ some s')
    × ((addr : ℕ)
        → fetch_mmio_map s' addr
          ≡ or_else (fetch_mmio_map serial addr) (
              if leb 0xa000_03fc addr && leb addr (sub64 (add64 0xa000_03fc 8) 1)
              then some (new_map 0xa000_03fc 4096 8 none)
              else none))
fetch_mmio_map-add_mmio_map_example =
    fetch_mmio_map-add_mmio_map serial 0xa000_03fc 4096 8 none (omega arith)

-- A user program whose protection refuses writes from 0x80000000 on
abbrev user_bus : Mem (Outside ℕ)
user_bus = record {
  ram = λ i. 0;
  io = record { hart = guarded_user; g_fb_base = some 0; mmio = serial };
}

paddr_read-paddr_write_example :
    (s' : Mem (Outside ℕ)) × (paddr_write user_bus 0x1_8000_0000 2 0x1_0203 ≡ some s')
    × (s'.io.mmio.io.world ≡ 0)
    × ((paddr_read s' 0x8000_0000 2 >>= λ r. some r.0) ≡ some (0x1_0203 % 256 ^ 2))
paddr_read-paddr_write_example =
    paddr_read-paddr_write user_bus 0x1_8000_0000 0x8000_0000 2 0x1_0203 refl refl
      (inl (omega arith, omega arith))
