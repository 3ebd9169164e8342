-- ===== src/Cpu/Csr/Table.antt =====
-- The register numbers of include/cpu/csr.h, the global state of src/cpu/csr.c, and `csr_table`
-- with `priv_check`.
use sustemu.Base.{ℕ, Bool, true, false, List, [], ◌∷◌, Option, ltb, ◌==◌, if◌then◌else◌, ◌&&◌, not}
use sustemu.Cpu.State.{NemuState, abort}

abbrev pub user : ℕ
user = 0

abbrev pub supervisor : ℕ
supervisor = 1

abbrev pub machine : ℕ
machine = 3

abbrev pub pmp_number : ℕ
pmp_number = 8

-- `CSR`
pub record Csr : Type 0 where
  pub mstatus : ℕ
  pub mepc : ℕ
  pub mcause : ℕ
  pub mtvec : ℕ
  pub mideleg : ℕ
  pub medeleg : ℕ
  pub mie : ℕ
  pub mip : ℕ
  pub mtval : ℕ
  pub misa : ℕ
  pub mscratch : ℕ
  pub sstatus : ℕ
  pub sepc : ℕ
  pub scause : ℕ
  pub sie : ℕ
  pub sip : ℕ
  pub stval : ℕ
  pub stvec : ℕ
  pub satp : ℕ
  pub sscratch : ℕ

-- The hits and misses of one cache, as the counter CSRs show them; `none` is a null `Cache *`.
pub record CacheCounts : Type 0 where
  pub hits : ℕ
  pub misses : ℕ

-- The globals that csr.c reads and writes, with `state` and `is_bad` of src/simulator/state.c.
pub record Hart : Type 0 where
  pub csr : Csr
  pub priv_level : ℕ
  pub sim_cycles : ℕ
  pub sim_instret : ℕ
  pub current_hartid : ℕ
  pub pmpcfg : ℕ → ℕ
  pub pmpaddr : ℕ → ℕ
  pub pmp_on_count : ℕ
  pub state : NemuState
  pub is_bad : Bool
  pub l1d_cache : Option CacheCounts
  pub l1i_cache : Option CacheCounts
  pub l2_cache : Option CacheCounts

-- A row of `csr_table`: number, lowest level, readable, writable.
pub record CsrRow : Type 0 where
  pub id : ℕ
  pub level : ℕ
  pub readable : Bool
  pub writable : Bool

row : ℕ → ℕ → Bool → Bool → CsrRow
row id level r w = record { id = id; level = level; readable = r; writable = w }

unfoldable pub csr_table : List CsrRow
unfolding row
csr_table =
    row 0x300 machine true true
    ∷ row 0x301 machine true false
    ∷ row 0x302 machine true true
    ∷ row 0x303 machine true true
    ∷ row 0x304 machine true true
    ∷ row 0x305 machine true true
    ∷ row 0x306 machine true false
    ∷ row 0x340 machine true true
    ∷ row 0x341 machine true true
    ∷ row 0x342 machine true true
    ∷ row 0x343 machine true true
    ∷ row 0x344 machine true true
    ∷ row 0xf14 machine true false
    ∷ row 0x100 supervisor true true
    ∷ row 0x104 supervisor true true
    ∷ row 0x105 supervisor true true
    ∷ row 0x140 supervisor true true
    ∷ row 0x141 supervisor true true
    ∷ row 0x142 supervisor true true
    ∷ row 0x143 supervisor true true
    ∷ row 0x144 supervisor true true
    ∷ row 0x180 supervisor true true
    ∷ row 0x3a0 machine true true
    ∷ row 0x3a2 machine true true
    ∷ row 0x3a4 machine true true
    ∷ row 0x3a6 machine true true
    ∷ row 0x3a8 machine true true
    ∷ row 0x3aa machine true true
    ∷ row 0x3ac machine true true
    ∷ row 0x3ae machine true true
    ∷ row 0x3b0 machine true true
    ∷ row 0x3b2 machine true true
    ∷ row 0x3b4 machine true true
    ∷ row 0x3b6 machine true true
    ∷ row 0x3b8 machine true true
    ∷ row 0xc00 user true false
    ∷ row 0xc02 user true false
    ∷ row 0xc03 user true false
    ∷ row 0xc04 user true false
    ∷ row 0xc05 user true false
    ∷ row 0xc06 user true false
    ∷ row 0xc07 user true false
    ∷ row 0xc08 user true false
    ∷ []

-- `set_bad(); state = NEMU_ABORT;`
abbrev pub fail : Hart → Hart
fail h = record h { is_bad = true; state = abort }

-- What the first row that names `no` grants at a level.
unfoldable pub row_grants : CsrRow → ℕ → Bool → Bool
row_grants r level is_write =
    if ltb level r.level
    then false
    else if not is_write && not r.readable
    then false
    else if is_write && not r.writable
    then false
    else true

-- The loop of `priv_check` over the rows: a number that no row names is refused without a fault.
unfoldable pub check_rows : List CsrRow → Hart → ℕ → Bool → Bool × Hart
unfolding row_grants
check_rows [] h csr_no is_write = (false, h)
check_rows (r ∷ rs) h csr_no is_write =
    let rest = check_rows rs h csr_no is_write in
    if csr_no == r.id
    then (if row_grants r h.priv_level is_write then (true, h) else (false, fail h))
    else rest

unfoldable pub priv_check : Hart → ℕ → Bool → Bool × Hart
unfolding check_rows csr_table
priv_check h csr_no is_write = check_rows csr_table h csr_no is_write
