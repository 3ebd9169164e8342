-- ===== src/Cpu/Csr/Access.antt =====
-- `set_csr` and `read_csr` with `set_pmpcfg` and `is_pmp_on`. A write past the end of
-- `pmpcfg[PMP_NUMBER_IN_SUSTEMU]` and the failed `Assert` of `read_csr` are `none`.
use sustemu.Base.{
  ℕ, suc, zero, ◌+◌, ◌*◌, ◌%◌, Bool, true, false, Option, none, some, ltb, ◌==◌, if◌then◌else◌, not,
  ◌&&◌, update, bit_and, bit_or, ◌>>=◌,
}
use sustemu.Word.{shr64, shl64}
use sustemu.Cpu.Csr.Table.{Hart, CacheCounts, priv_check, pmp_number}

-- `(cfg & PMP_A) != PMP_A_OFF`
unfoldable pub is_pmp_on : ℕ → Bool
is_pmp_on cfg = not (bit_and cfg 0x18 == 0)

-- `pmp_on_count` is a `uint8_t`.
unfoldable pub set_pmpcfg : Hart → ℕ → ℕ → Option Hart
unfolding is_pmp_on
set_pmpcfg h id byte =
    if ltb id pmp_number
    then (let old_on = is_pmp_on (h.pmpcfg id) in
        let new_on = is_pmp_on byte in
        let count =
          if old_on && not new_on
          then (h.pmp_on_count + 255) % 256
          else if not old_on && new_on
          then (h.pmp_on_count + 1) % 256
          else h.pmp_on_count in
        some (record h { pmpcfg = update h.pmpcfg id byte; pmp_on_count = count }))
    else none

-- `for (i = i0; i < i0 + n; i++) set_pmpcfg(i + base, (data >> (i * 8)) & 0xFF)`
unfoldable pub set_pmpcfgs : ℕ → ℕ → ℕ → ℕ → Hart → Option Hart
unfolding set_pmpcfg
set_pmpcfgs zero i base word h = some h
set_pmpcfgs (suc n) i base word h =
    set_pmpcfg h (i + base) (shr64 word (i * 8) % 256) >>= set_pmpcfgs n (i + 1) base word

-- The `switch` of `set_csr`; a number with no case changes nothing.
unfoldable pub write_csr : Hart → ℕ → ℕ → Option Hart
unfolding set_pmpcfgs
write_csr h csr_no v =
    if csr_no == 0x341
    then some (record h { csr = record c { mepc = v } })
    else if csr_no == 0x342
    then some (record h { csr = record c { mcause = v } })
    else if csr_no == 0x305
    then some (record h { csr = record c { mtvec = v } })
    else if csr_no == 0xf14
    then some h
    else if csr_no == 0x343
    then some (record h { csr = record c { mtval = v } })
    else if csr_no == 0x344
    then some (record h { csr = record c { mip = v } })
    else if csr_no == 0x304
    then some (record h { csr = record c { mie = v } })
    else if csr_no == 0x303
    then some (record h { csr = record c { mideleg = v } })
    else if csr_no == 0x302
    then some (record h { csr = record c { medeleg = v } })
    else if csr_no == 0x340
    then some (record h { csr = record c { mscratch = v } })
    else if csr_no == 0x100
    then some (record h { csr = record c { sstatus = v } })
    else if csr_no == 0x104
    then some (record h { csr = record c { sie = v } })
    else if csr_no == 0x105
    then some (record h { csr = record c { stvec = v } })
    else if csr_no == 0x140
    then some (record h { csr = record c { sscratch = v } })
    else if csr_no == 0x143
    then some (record h { csr = record c { stval = v } })
    else if csr_no == 0x144
    then some (record h { csr = record c { sip = v } })
    else if csr_no == 0x180
    then some (record h { csr = record c { satp = v } })
    else if csr_no == 0x3a0
    then set_pmpcfgs 8 0 0 v h
    else if csr_no == 0x3a2
    then set_pmpcfgs 8 0 8 v h
    else if csr_no == 0x3b0
    then some (record h { pmpaddr = update h.pmpaddr 0 v })
    else if csr_no == 0x3b2
    then some (record h { pmpaddr = update h.pmpaddr 1 v })
    else if csr_no == 0x3b4
    then some (record h { pmpaddr = update h.pmpaddr 2 v })
    else if csr_no == 0x3b6
    then some (record h { pmpaddr = update h.pmpaddr 3 v })
    else if csr_no == 0x3b8
    then some (record h { pmpaddr = update h.pmpaddr 4 v })
    else some h
  where
    open h use {csr as c}

unfoldable pub set_csr : Hart → ℕ → ℕ → Option Hart
unfolding write_csr
set_csr h csr_no v =
    let (granted, h') = priv_check h csr_no true in
    if granted then write_csr h' csr_no v else some h'

-- `val |= (uint64_t)pmpcfg[i] << (i * 8)` for the indices from i on
unfoldable pub pmpcfg_word : (ℕ → ℕ) → ℕ → ℕ → ℕ → ℕ
pmpcfg_word cfg zero i acc = acc
pmpcfg_word cfg (suc n) i acc = pmpcfg_word cfg n (i + 1) (bit_or acc (shl64 (cfg i) (i * 8)))

abbrev pub hits_of : Option CacheCounts → ℕ
hits_of none = 0
hits_of (some c) = c.hits

abbrev pub misses_of : Option CacheCounts → ℕ
misses_of none = 0
misses_of (some c) = c.misses

-- The `switch` of `read_csr`; a number with no case reaches the `Assert`.
unfoldable pub read_reg : Hart → ℕ → Option ℕ
unfolding pmpcfg_word
read_reg h csr_no =
    if csr_no == 0x341
    then some c.mepc
    else if csr_no == 0x342
    then some c.mcause
    else if csr_no == 0x305
    then some c.mtvec
    else if csr_no == 0x300
    then some c.mstatus
    else if csr_no == 0xf14
    then some h.current_hartid
    else if csr_no == 0x343
    then some c.mtval
    else if csr_no == 0x344
    then some c.mip
    else if csr_no == 0x304
    then some c.mie
    else if csr_no == 0x303
    then some c.mideleg
    else if csr_no == 0x302
    then some c.medeleg
    else if csr_no == 0x301
    then some 0x8000_0000_0000_1100
    else if csr_no == 0x340
    then some c.mscratch
    else if csr_no == 0x100
    then some c.sstatus
    else if csr_no == 0x104
    then some c.sie
    else if csr_no == 0x105
    then some c.stvec
    else if csr_no == 0x140
    then some c.sscratch
    else if csr_no == 0x141
    then some c.sepc
    else if csr_no == 0x142
    then some c.scause
    else if csr_no == 0x143
    then some c.stval
    else if csr_no == 0x144
    then some c.sip
    else if csr_no == 0x3a0
    then some (pmpcfg_word h.pmpcfg 8 0 0)
    else if csr_no == 0x3b0
    then some (h.pmpaddr 0)
    else if csr_no == 0x3b2
    then some (h.pmpaddr 1)
    else if csr_no == 0xc00
    then some h.sim_cycles
    else if csr_no == 0xc02
    then some h.sim_instret
    else if csr_no == 0xc03
    then some (hits_of h.l1d_cache)
    else if csr_no == 0xc04
    then some (misses_of h.l1d_cache)
    else if csr_no == 0xc05
    then some (hits_of h.l1i_cache)
    else if csr_no == 0xc06
    then some (misses_of h.l1i_cache)
    else if csr_no == 0xc07
    then some (hits_of h.l2_cache)
    else if csr_no == 0xc08
    then some (misses_of h.l2_cache)
    else none
  where
    open h use {csr as c}

-- A refused read returns the marker value.
unfoldable pub read_csr : Hart → ℕ → Option (ℕ × Hart)
unfolding read_reg
read_csr h csr_no =
    let (granted, h') = priv_check h csr_no false in
    if granted then read_reg h' csr_no >>= (λ v. some (v, h')) else some (0xbadbeef, h')
