-- ===== src/Cpu/Ooo/Stations.antt =====
-- The reservation stations of src/cpu/ooo.c: the free and ready masks against the stations, and
-- what a station waits for against the register file.
pub mod Waking
pub mod Leaving
pub mod Renaming
pub mod Executing
pub mod Loading
pub mod Reached
use sustemu.Base.{ℕ, ◌<◌, ◌≡◌, Bool, true, false, ◌&&◌, not}
use sustemu.Cpu.Ooo.State.{Ooo, PhysReg, RsEntry, EuType, eu_eq}
use sustemu.Cpu.Ooo.Rename.{all_ready}

-- A source that is still to come is a renamed register whose value has not been written.
abbrev pub Waits : (ℕ → PhysReg) → ℕ → Type 0
Waits prf tag = (0 < tag) × ((prf tag).ready ≡ false)

-- A station with its ready bits and its free bit, over a register file
pub record IsStation (prf : ℕ → PhysReg) (r : RsEntry) (ready : EuType → Bool) (free : Bool)
    : Type 0 where
  pub free_bit : free ≡ not r.valid
  pub ready_bit : (e : EuType) → ready e ≡ (eu_eq e r.eu_type && (r.valid && all_ready r))
  pub src1 : r.valid ≡ true → r.src1_ready ≡ false → Waits prf r.src1_ptag
  pub src2 : r.valid ≡ true → r.src2_ready ≡ false → Waits prf r.src2_ptag

-- The masks say which stations are free and which may issue, and no station has missed the result
-- that it waits for.
abbrev pub IsScheduled : Ooo → Type 0
IsScheduled o =
    (i : ℕ) → i < 16 → IsStation o.prf (o.rs i) (λ e. o.rs_ready_mask e i) (o.rs_free_mask i)
