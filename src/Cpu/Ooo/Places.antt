-- ===== src/Cpu/Ooo/Places.antt =====
-- Where the instructions in flight of src/cpu/ooo.c are: until it has executed, each is in one
-- reservation station or in one latch of a unit.
pub mod Issuing
pub mod Ending
pub mod Loading
pub mod Executing
pub mod Finishing
pub mod Flushing
pub mod Renaming
pub mod Committing
pub mod Reached
use sustemu.Base.{ℕ, ◌+◌, ◌<◌, ◌≡◌, Bool, to_int, ◌==◌, ◌&&◌, not}
use sustemu.Cpu.Ooo.State.{Ooo, RsEntry, Latch}
use sustemu.Cpu.Ooo.Rename.{popcount}

-- Whether a station or a latch holds the instruction of slot i of the reorder buffer. A latch of the
-- load/store units that is marked as flushed holds none.
abbrev pub in_station : ℕ → RsEntry → Bool
in_station i r = r.valid && i == r.rob_idx

abbrev pub in_latch : ℕ → Latch → Bool
in_latch i l = l.valid && i == l.rob_idx

abbrev pub in_lsu : ℕ → Latch → Bool
in_lsu i l = l.valid && (not l.flushed && i == l.rob_idx)

-- How many do: sixteen stations, two integer units, one multiplier and two load/store units
abbrev pub places : Ooo → ℕ → ℕ
places o i =
    popcount 16 (λ j. in_station i (o.rs j))
    + popcount 2 (λ s. in_latch i (o.latch_int s))
    + popcount 1 (λ s. in_latch i (o.latch_mul s))
    + popcount 2 (λ s. in_lsu i (o.latch_lsu s))

-- Whether slot i holds an instruction that has not executed
abbrev pub due : Ooo → ℕ → Bool
due o i = (o.rob i).valid && not (o.rob i).ready

-- An instruction that has not executed is in one place, and no other slot is in any.
abbrev pub IsPlaced : Ooo → Type 0
IsPlaced o = (i : ℕ) → i < 32 → places o i ≡ to_int (due o i)
