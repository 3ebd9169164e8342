-- ===== src/Memory/Pmem.antt =====
-- src/memory/pmem.c: an access of the bus, which is the guest's memory, the framebuffer or a
-- device. The host's array is indexed by guest address, as in the cache model.
pub mod Roundtrip
use sustemu.Base.{
  ℕ, ◌+◌, ◌-◌, ◌*◌, ◌%◌, ◌^◌, Bool, true, false, Option, none, some, leb, ltb, if◌then◌else◌, ◌&&◌,
  ◌>>=◌,
}
use sustemu.Cpu.Csr.Table.{Hart}
use sustemu.Cpu.Csr.Pmp.{pmp_check}
use sustemu.Memory.Bytes.{host_read, host_write}
use sustemu.Memory.Cache.Fetch.{Mem, mbase, msize}
use sustemu.Memory.Mmio.{Io, Mmio, mmio_read, mmio_write}

abbrev pub fb_addr : ℕ
fb_addr = 0xa100_0000

abbrev pub fb_size : ℕ
fb_size = 400 * 300 * 4

-- What lies beside the guest's memory: the core's protection, the framebuffer in the devices'
-- space once `init_vga` has run, and the devices
pub record Outside (D : Type 0) : Type 0 where
  pub hart : Hart
  pub g_fb_base : Option ℕ
  pub mmio : Mmio D

unfoldable pub is_ram : ℕ → Bool
is_ram addr = leb mbase addr && ltb addr (mbase + msize)

-- The framebuffer's byte of an address, on the fast path
unfoldable pub fb_byte : Option ℕ → ℕ → Option ℕ
fb_byte none addr = none
fb_byte (some base) addr =
    if leb fb_addr addr && ltb addr (fb_addr + fb_size)
    then some (base + (addr - fb_addr))
    else none

module _ {D : Type 0} where
  -- `pmp_check`, whose verdict both functions ignore
  unfoldable pub checked : ℕ → Bool → Mem (Outside D) → Mem (Outside D)
  checked addr is_write s = record s {
    io = record s.io { hart = (pmp_check s.io.hart addr false is_write).1 };
  }

  unfoldable pub with_mmio : Mmio D → Mem (Outside D) → Mem (Outside D)
  with_mmio m s = record s { io = record s.io { mmio = m } }

  unfoldable pub write_fb : ℕ → ℕ → ℕ → Mmio D → Mmio D
  write_fb p len v m = record m { io = record m.io { bytes = host_write m.io.bytes p len v } }

  -- The part after the mask. An access of the array past its end is undefined.
  unfoldable pub read_masked : Mem (Outside D) → ℕ → ℕ → Option (ℕ × Mem (Outside D))
  read_masked s addr len =
      if is_ram addr
      then (if leb (addr + len) (mbase + msize) then some (host_read s.ram addr len, s) else none)
      else elim (fb_byte s.io.g_fb_base addr) [
        | some p ↦ some (host_read s.io.mmio.io.bytes p len, s)
        | none ↦ mmio_read addr len s.io.mmio >>= λ r. some (r.0, with_mmio r.1 s)
      ]

  unfoldable pub write_masked : Mem (Outside D) → ℕ → ℕ → ℕ → Option (Mem (Outside D))
  write_masked s addr len v =
      if is_ram addr
      then (if leb (addr + len) (mbase + msize)
          then some (record s { ram = host_write s.ram addr len v })
          else none)
      else elim (fb_byte s.io.g_fb_base addr) [
        | some p ↦ some (with_mmio (write_fb p len v s.io.mmio) s)
        | none ↦ mmio_write addr len v s.io.mmio >>= λ m. some (with_mmio m s)
      ]

  unfoldable pub paddr_read : Mem (Outside D) → ℕ → ℕ → Option (ℕ × Mem (Outside D))
  paddr_read s addr len = read_masked (checked addr false s) (addr % 2 ^ 32) len

  unfoldable pub paddr_write : Mem (Outside D) → ℕ → ℕ → ℕ → Option (Mem (Outside D))
  paddr_write s addr len v = write_masked (checked addr true s) (addr % 2 ^ 32) len v
