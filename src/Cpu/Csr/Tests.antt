-- ===== src/Cpu/Csr/Tests.antt =====
-- Runs of the control registers on a hart after reset, in machine mode.
use sustemu.Base.{ℕ, zero, suc, ◌<◌, ◌≡◌, refl, true, false, none, arith, update}
use sustemu.Cpu.State.{running}
use sustemu.Cpu.Csr.Table.{Hart, Csr, priv_check, fail}
use sustemu.Cpu.Csr.Access.{is_pmp_on, set_csr}
use sustemu.Cpu.Csr.Pmp.{pmp_check, pmp_matches, pmp_grants, pmp_range, napot_size, napot_loop}
use sustemu.Cpu.Csr.ReadBack.{r_mepc, read_csr-set_csr}
use sustemu.Cpu.Csr.Access.{read_csr}
use sustemu.Base.{some}
use sustemu.Cpu.Csr.Rights.{Permitted, priv_check-Permitted}
use sustemu.Cpu.Csr.Counts.{IsCounted, counted, set_csr-IsCounted, count_on}
use sustemu.Cpu.Csr.Protection.{pmp_check-first_match, pmp_check-no_match}

abbrev no_csr : Csr
no_csr = record {
  mstatus = 0;
  mepc = 0;
  mcause = 0;
  mtvec = 0;
  mideleg = 0;
  medeleg = 0;
  mie = 0;
  mip = 0;
  mtval = 0;
  misa = 0;
  mscratch = 0;
  sstatus = 0;
  sepc = 0;
  scause = 0;
  sie = 0;
  sip = 0;
  stval = 0;
  stvec = 0;
  satp = 0;
  sscratch = 0;
}

abbrev pub boot : Hart
boot = record {
  csr = no_csr;
  priv_level = 3;
  sim_cycles = 0;
  sim_instret = 0;
  current_hartid = 0;
  pmpcfg = λ i. 0;
  pmpaddr = λ i. 0;
  pmp_on_count = 0;
  state = running;
  is_bad = false;
  l1d_cache = none;
  l1i_cache = none;
  l2_cache = none;
}

priv_check-Permitted_example : Permitted boot 0x341 true × ((priv_check boot 0x341 true).1 ≡ boot)
unfolding priv_check
priv_check-Permitted_example = priv_check-Permitted boot 0x341 true granted
  where
    granted : (priv_check boot 0x341 true).0 ≡ true
    granted = refl

-- Entry 2 is a read-only NAPOT range, switched on.
abbrev guarded : Hart
guarded = record boot {
  pmpcfg = update boot.pmpcfg 2 0x19;
  pmpaddr = update boot.pmpaddr 2 0x2000_0000;
  pmp_on_count = 1;
}

boot-IsCounted : IsCounted boot
unfolding count_on is_pmp_on
boot-IsCounted = counted refl

-- `pmpcfg0` written with entry 2 on
abbrev cfg_after : ℕ → ℕ
cfg_after =
    update
      (update
        (update (update (update (update (update (update boot.pmpcfg 0 0) 1 0) 2 0x19) 3 0) 4 0) 5 0)
        6 0)
      7 0

set_csr-IsCounted_example : IsCounted (record boot { pmpcfg = cfg_after; pmp_on_count = 1 })
unfolding set_csr priv_check
set_csr-IsCounted_example =
    set_csr-IsCounted boot (record boot { pmpcfg = cfg_after; pmp_on_count = 1 }) 0x3a0 0x19_0000
      boot-IsCounted refl

abbrev pub guarded_user : Hart
guarded_user = record guarded { priv_level = 0 }

first_two_off : (k : ℕ) → k < 2 → pmp_matches guarded_user k 0x8000_0000 ≡ false
unfolding pmp_matches pmp_range napot_size napot_loop
first_two_off zero h = refl
first_two_off (suc zero) h = refl
first_two_off (suc (suc k)) h = absurd (omega arith)

entry_two_on : pmp_matches guarded_user 2 0x8000_0000 ≡ true
unfolding pmp_matches pmp_range napot_size napot_loop
entry_two_on = refl

pmp_check-first_match_example :
    pmp_check guarded_user 0x8000_0000 false true ≡ (false, fail guarded_user)
unfolding pmp_grants
pmp_check-first_match_example =
    pmp_check-first_match guarded_user 0x8000_0000 false true 2 (omega arith) (omega arith)
      entry_two_on first_two_off

abbrev boot_user : Hart
boot_user = record boot { priv_level = 0 }

all_off : (k : ℕ) → k < 8 → pmp_matches boot_user k 0x8000_0000 ≡ false
unfolding pmp_matches
all_off k h = refl

pmp_check-no_match_example : pmp_check boot_user 0x8000_0000 true false ≡ (false, fail boot_user)
pmp_check-no_match_example =
    pmp_check-no_match boot_user 0x8000_0000 true false (omega arith) all_off

read_csr-set_csr_example :
    (h' : Hart) × (set_csr boot 0x341 0x8000_0004 ≡ some h')
    × (read_csr h' 0x341 ≡ some (0x8000_0004, h'))
read_csr-set_csr_example = read_csr-set_csr boot 0x8000_0004 r_mepc refl
