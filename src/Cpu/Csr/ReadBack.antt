-- ===== src/Cpu/Csr/ReadBack.antt =====
-- A control register that is written holds what was written.
use sustemu.Base.{ℕ, ◌≡◌, refl, sym, subst, some}
use sustemu.Cpu.Csr.Table.{Hart, machine, priv_check}
use sustemu.Cpu.Csr.Access.{set_csr, write_csr, read_csr, read_reg}

-- The registers that hold any word
pub data PlainReg : Type 0 where
  r_mepc r_mcause r_mtvec r_mtval r_mip r_mie : PlainReg
  r_mideleg r_medeleg r_mscratch r_sstatus r_sie r_stvec : PlainReg
  r_sscratch r_stval r_sip r_pmpaddr0 r_pmpaddr2 : PlainReg

abbrev pub number : PlainReg → ℕ
number r_mepc = 0x341
number r_mcause = 0x342
number r_mtvec = 0x305
number r_mtval = 0x343
number r_mip = 0x344
number r_mie = 0x304
number r_mideleg = 0x303
number r_medeleg = 0x302
number r_mscratch = 0x340
number r_sstatus = 0x100
number r_sie = 0x104
number r_stvec = 0x105
number r_sscratch = 0x140
number r_stval = 0x143
number r_sip = 0x144
number r_pmpaddr0 = 0x3b0
number r_pmpaddr2 = 0x3b2

-- The write succeeds, and the read gives the word and changes nothing.
abbrev pub ReadsBack : Hart → ℕ → PlainReg → Type 0
ReadsBack h v r =
    (h' : Hart) × (set_csr h (number r) v ≡ some h') × (read_csr h' (number r) ≡ some (v, h'))

at_machine : (h : Hart) (v : ℕ) (r : PlainReg) → ReadsBack (record h { priv_level = machine }) v r
unfolding set_csr priv_check write_csr read_csr read_reg
at_machine h v r_mepc = (_, refl, refl)
at_machine h v r_mcause = (_, refl, refl)
at_machine h v r_mtvec = (_, refl, refl)
at_machine h v r_mtval = (_, refl, refl)
at_machine h v r_mip = (_, refl, refl)
at_machine h v r_mie = (_, refl, refl)
at_machine h v r_mideleg = (_, refl, refl)
at_machine h v r_medeleg = (_, refl, refl)
at_machine h v r_mscratch = (_, refl, refl)
at_machine h v r_sstatus = (_, refl, refl)
at_machine h v r_sie = (_, refl, refl)
at_machine h v r_stvec = (_, refl, refl)
at_machine h v r_sscratch = (_, refl, refl)
at_machine h v r_stval = (_, refl, refl)
at_machine h v r_sip = (_, refl, refl)
at_machine h v r_pmpaddr0 = (_, refl, refl)
at_machine h v r_pmpaddr2 = (_, refl, refl)

-- In machine mode, each of these registers can be written with any word and then read back.
pub read_csr-set_csr :
    (h : Hart) (v : ℕ) (r : PlainReg)
    → h.priv_level ≡ machine
    → (h' : Hart) × (set_csr h (number r) v ≡ some h') × (read_csr h' (number r) ≡ some (v, h'))
read_csr-set_csr h v r e =
    subst (λ l. ReadsBack (record h { priv_level = l }) v r) (sym e) (at_machine h v r)
