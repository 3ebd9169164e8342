-- ===== src/Cpu/Csr/Priv.antt =====
-- Traps and returns of src/cpu/csr.c: `raise_intr`, `exception_priv_transfer` and
-- `mret_priv_transfer`. The masks are written as the source writes them.
use sustemu.Base.{ℕ, bit_and, bit_or}
use sustemu.Word.{not64, shl64, shr64}
use sustemu.Cpu.Csr.Table.{Hart, machine}

-- It returns the trap vector; the third argument of the source is unused.
unfoldable pub raise_intr : Hart → ℕ → ℕ → ℕ × Hart
raise_intr h csr_no epc = (h.csr.mtvec, record h { csr = record c { mepc = epc; mcause = csr_no } })
  where
    open h use {csr as c}

-- `csr.mstatus` after a trap from a level
unfoldable pub trap_mstatus : ℕ → ℕ → ℕ
trap_mstatus level m =
    let a = bit_or (bit_and m (not64 0x18000)) (shl64 level 11) in
    let b = bit_or (shl64 (bit_and a 0x08) 4) (bit_and a (not64 0x80)) in bit_and b (not64 0x08)

unfoldable pub exception_priv_transfer : Hart → Hart
unfolding trap_mstatus
exception_priv_transfer h = record h {
  csr = record c { mstatus = trap_mstatus h.priv_level c.mstatus };
  priv_level = machine;
}
  where
    open h use {csr as c}

-- `csr.mstatus` after a return
unfoldable pub mret_mstatus : ℕ → ℕ
mret_mstatus m =
    let a = bit_and m (not64 0x18000) in
    bit_or (bit_or (shr64 (bit_and a 0x80) 4) (bit_and a (not64 0x80))) 0x80

unfoldable pub mret_priv_transfer : Hart → Hart
unfolding mret_mstatus
mret_priv_transfer h = record h {
  csr = record c { mstatus = mret_mstatus c.mstatus };
  priv_level = shr64 (bit_and c.mstatus 0x18000) 11;
}
  where
    open h use {csr as c}
