-- ===== src/Cpu/Ooo/Mshr.antt =====
-- `mshr_find_or_alloc` and `mshr_tick`: the registers of the misses in flight.
pub mod Unique
use sustemu.Base.{
  ℕ, zero, suc, ◌+◌, ◌-◌, true, Option, none, some, ◌==◌, if◌then◌else◌, ◌&&◌, not, ltb, update,
}
use sustemu.Cpu.Ooo.State.{MshrEntry, mshr_size}

-- What the scan finds: an entry of the line, or else the first free slot
pub data Found : Type 0 where
  in_flight : ℕ → Found
  free : Option ℕ → Found

-- The first free slot stays the one that was found first.
abbrev pub keep_first : Option ℕ → ℕ → Option ℕ
keep_first none i = some i
keep_first (some j) i = some j

-- The scan from slot i on, with k slots to go
unfoldable pub mshr_scan : ℕ → ℕ → ℕ → Option ℕ → (ℕ → MshrEntry) → Found
mshr_scan zero i line free_slot mshr = free free_slot
mshr_scan (suc k) i line free_slot mshr =
    let next =
      mshr_scan k (i + 1) line (if (mshr i).valid then free_slot else keep_first free_slot i)
        mshr in
    if (mshr i).valid && (mshr i).line_addr == line then in_flight i else next

unfoldable pub mshr_find_or_alloc : (ℕ → MshrEntry) → ℕ → ℕ → Option ℕ × (ℕ → MshrEntry)
unfolding mshr_scan
mshr_find_or_alloc mshr line lat = elim (mshr_scan mshr_size 0 line none mshr) [
  | in_flight i ↦ (some i, mshr)
  | free none ↦ (none, mshr)
  | free (some i) ↦
      (some i, update mshr i (record { valid = true; line_addr = line; cycles_rem = lat - 1 }))
]

-- A count that has run down stays at 0.
unfoldable pub mshr_tick : (ℕ → MshrEntry) → ℕ → MshrEntry
mshr_tick mshr i =
    if ltb i mshr_size && ((mshr i).valid && ltb 0 (mshr i).cycles_rem)
    then counted (mshr i)
    else mshr i
  where
    counted : MshrEntry → MshrEntry
    counted e = record e { cycles_rem = e.cycles_rem - 1 }
