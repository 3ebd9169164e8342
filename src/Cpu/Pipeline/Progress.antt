-- ===== src/Cpu/Pipeline/Progress.antt =====
-- How far the instructions in the pipeline are from retiring.
pub mod Occupied
pub mod Counts
pub mod Rate
use sustemu.Base.{ℕ, ◌+◌, ◌*◌, ◌≡◌, Bool, true, false, if◌then◌else◌}
use sustemu.Cpu.Pipeline.State.{Core}
use sustemu.Cpu.Pipeline.Order.{View, view}

-- Which of MEM, EX and ID hold an instruction; ID matters only while EX holds none.
abbrev pub Occupied : (x e i : Bool) → View → Type 0
Occupied x e i v = (v.mem.valid ≡ x) × (v.ex.valid ≡ e) × (e ≡ false → v.id.valid ≡ i)

-- The cycles without a stall that the oldest instruction still needs, by the latches WB, MEM, EX and
-- ID that hold one
abbrev pub distance : (w x e i : Bool) → ℕ
distance w x e i = if w then 1 else if x then 2 else if e then 3 else if i then 4 else 5

-- A stall is shorter than 40 cycles.
abbrev pub rank : {S : Type 0} → Core S → ℕ
rank c =
    let v = view c in
    40 * distance v.wb.valid v.mem.valid v.ex.valid v.id.valid + c.cpu_pipe.mem_stall_rem
