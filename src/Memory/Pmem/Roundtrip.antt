-- ===== src/Memory/Pmem/Roundtrip.antt =====
-- A store on the bus and the load after it.
use sustemu.Base.{
  ℕ, ◌+◌, ◌-◌, ◌%◌, ◌^◌, ◌≤◌, ◌<◌, ◌≡◌, refl, ◌∙◌, ap, Bool, true, false, Option, some, leb, ◌==◌,
  ◌||◌, ◌⊎◌, inl, inr, ◌>>=◌, arith,
}
use sustemu.Memory.Bytes.{host_read, host_write, le_read-le_write}
use sustemu.Memory.Cache.Fetch.{Mem, mbase, msize}
use sustemu.Memory.Pmem.{
  Outside, is_ram, fb_byte, fb_addr, fb_size, checked, with_mmio, write_fb, read_masked,
  write_masked, paddr_read, paddr_write,
}

abbrev pub is_width : ℕ → Bool
is_width len = len == 1 || (len == 2 || (len == 4 || len == 8))

-- An access of the guest's memory that does not run past its end, or one of the framebuffer
abbrev pub Direct : Option ℕ → ℕ → ℕ → Type 0
Direct fb a len =
    ((mbase ≤ a) × (a + len ≤ mbase + msize))
    ⊎ ((base : ℕ) × (fb ≡ some base) × (fb_addr ≤ a) × (a < fb_addr + fb_size))

host_read-host_write :
    (f : ℕ → ℕ) (a len v : ℕ)
    → is_width len ≡ true
    → host_read (host_write f a len v) a len ≡ v % 256 ^ len
unfolding host_read host_write
host_read-host_write f a len v w = rw w (le_read-le_write len f a v)

width-pos : (len : ℕ) → is_width len ≡ true → 0 < len
width-pos len w = ground arith

in_ram : (a len : ℕ) → mbase ≤ a → a + len ≤ mbase + msize → 0 < len → is_ram a ≡ true
unfolding is_ram
in_ram a len lo hi pos = ground arith

fits : (a len : ℕ) → a + len ≤ mbase + msize → leb (a + len) (mbase + msize) ≡ true
fits a len hi = ground arith

not_ram : (a : ℕ) → fb_addr ≤ a → is_ram a ≡ false
unfolding is_ram
not_ram a lo = ground arith

in_fb :
    (base a : ℕ)
    → fb_addr ≤ a
    → a < fb_addr + fb_size
    → fb_byte (some base) a ≡ some (base + (a - fb_addr))
unfolding fb_byte
in_fb base a lo hi = ground arith

module _ {D : Type 0} (s : Mem (Outside D)) (a a' len v : ℕ) where
  masked_ram :
      is_width len ≡ true
      → mbase ≤ a % 2 ^ 32
      → a % 2 ^ 32 + len ≤ mbase + msize
      → (s' : Mem (Outside D)) × (paddr_write s a len v ≡ some s')
        × (s'.io.mmio ≡ s.io.mmio)
        × ((read_masked (checked a' false s') (a % 2 ^ 32) len >>= λ r. some r.0)
            ≡ some (v % 256 ^ len))
  unfolding paddr_write write_masked read_masked checked
  masked_ram w lo hi = (
    record (checked a true s) { ram = host_write s.ram (a % 2 ^ 32) len v },
    rw (here, fits (a % 2 ^ 32) len hi) refl,
    refl,
    rw (here, fits (a % 2 ^ 32) len hi) (ap some (host_read-host_write s.ram (a % 2 ^ 32) len v w)),
  )
    where
      here : is_ram (a % 2 ^ 32) ≡ true
      here = in_ram (a % 2 ^ 32) len lo hi (width-pos len w)

  masked_fb :
      (base : ℕ)
      → is_width len ≡ true
      → s.io.g_fb_base ≡ some base
      → fb_addr ≤ a % 2 ^ 32
      → a % 2 ^ 32 < fb_addr + fb_size
      → (s' : Mem (Outside D)) × (paddr_write s a len v ≡ some s')
        × (s'.io.mmio.io.world ≡ s.io.mmio.io.world)
        × ((read_masked (checked a' false s') (a % 2 ^ 32) len >>= λ r. some r.0)
            ≡ some (v % 256 ^ len))
  unfolding paddr_write write_masked read_masked checked with_mmio write_fb
  masked_fb base w fb lo hi = (
    with_mmio (write_fb p len v s.io.mmio) (checked a true s),
    rw (not_ram (a % 2 ^ 32) lo, located) refl,
    refl,
    rw (not_ram (a % 2 ^ 32) lo, located)
        (ap some (host_read-host_write s.io.mmio.io.bytes p len v w)),
  )
    where
      p : ℕ
      p = base + (a % 2 ^ 32 - fb_addr)

      located : fb_byte s.io.g_fb_base (a % 2 ^ 32) ≡ some p
      located = ap (λ o. fb_byte o (a % 2 ^ 32)) fb ∙ in_fb base (a % 2 ^ 32) lo hi

  -- A store of 1, 2, 4 or 8 bytes to the guest's memory, not past its end, or to the framebuffer
  -- succeeds without a device's callback, whatever the protection says, and a load of that width
  -- from any address with the same low 32 bits returns the low bytes of the word.
  pub paddr_read-paddr_write :
      a' % 2 ^ 32 ≡ a % 2 ^ 32
      → is_width len ≡ true
      → Direct s.io.g_fb_base (a % 2 ^ 32) len
      → (s' : Mem (Outside D)) × (paddr_write s a len v ≡ some s')
        × (s'.io.mmio.io.world ≡ s.io.mmio.io.world)
        × ((paddr_read s' a' len >>= λ r. some r.0) ≡ some (v % 256 ^ len))
  unfolding paddr_read
  paddr_read-paddr_write same w (inl (lo, hi)) =
      let (s', e, m, r) = masked_ram w lo hi in (s', e, ap (λ x. x.io.world) m, rw same r)
  paddr_read-paddr_write same w (inr (base, fb, lo, hi)) =
      let (s', e, m, r) = masked_fb base w fb lo hi in (s', e, m, rw same r)
