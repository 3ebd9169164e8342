-- ===== src/Cpu/Csr/Pmp.antt =====
-- `pmp_check` of src/cpu/csr.c: physical memory protection, first match.
use sustemu.Base.{
  ℕ, zero, suc, ◌+◌, ◌-◌, ◌%◌, Bool, true, false, ltb, leb, ◌==◌, if◌then◌else◌, not, ◌&&◌, ◌||◌,
  bit_and, bit_or, Option, none, some,
}
use sustemu.Word.{shl64, shr64, sub64, add64, not64}
use sustemu.Cpu.Csr.Table.{Hart, machine, pmp_number, fail}

-- `while (mask & 1) { mask >>= 1; size <<= 1; }`: a 64-bit mask has at most 64 ones at its end.
unfoldable pub napot_loop : ℕ → ℕ → ℕ → ℕ
napot_loop zero mask size = size
napot_loop (suc fuel) mask size =
    let rest = napot_loop fuel (shr64 mask 1) (shl64 size 1) in if mask % 2 == 1 then rest else size

-- `size` of a NAPOT entry
unfoldable pub napot_size : ℕ → ℕ
unfolding napot_loop
napot_size addr = napot_loop 64 (bit_or (shl64 addr 2) 3) 1

-- `[start, end)` of entry i, by the address mode of its configuration byte
unfoldable pub pmp_range : Hart → ℕ → ℕ → ℕ × ℕ
unfolding napot_size
pmp_range h i mode =
    if mode == 0x08
    then (if i == 0 then 0 else shl64 (h.pmpaddr (i - 1)) 2, shl64 (h.pmpaddr i) 2)
    else if mode == 0x10
    then (shl64 (h.pmpaddr i) 2, add64 (shl64 (h.pmpaddr i) 2) 4)
    else if mode == 0x18
    then (let size = napot_size (h.pmpaddr i) in
        let start = bit_and (shl64 (h.pmpaddr i) 2) (not64 (sub64 size 1)) in
        (start, add64 start size))
    else (0, 0)

-- Whether entry i is on and holds the address.
unfoldable pub pmp_matches : Hart → ℕ → ℕ → Bool
unfolding pmp_range
pmp_matches h i addr =
    let mode = bit_and (h.pmpcfg i) 0x18 in
    let (start, end) = pmp_range h i mode in not (mode == 0) && leb start addr && ltb addr end

-- What a matching entry grants: anything to machine mode unless it is locked, else by its R, W, X.
unfoldable pub pmp_grants : ℕ → ℕ → Bool → Bool → Bool
pmp_grants level cfg is_execute is_write =
    let r = not (bit_and cfg 0x01 == 0) in
    let w = not (bit_and cfg 0x02 == 0) in
    let x = not (bit_and cfg 0x04 == 0) in
    if level == machine && bit_and cfg 0x80 == 0
    then true
    else not (is_execute && not x || is_write && not w || not is_execute && not is_write && not r)

-- The `for` loop over the entries from i on: the verdict of the first match, if any.
unfoldable pub pmp_scan : ℕ → ℕ → Hart → ℕ → Bool → Bool → Option Bool
pmp_scan zero i h addr is_execute is_write = none
pmp_scan (suc n) i h addr is_execute is_write =
    let rest = pmp_scan n (i + 1) h addr is_execute is_write in
    if pmp_matches h i addr
    then some (pmp_grants h.priv_level (h.pmpcfg i) is_execute is_write)
    else rest

unfoldable pub pmp_check : Hart → ℕ → Bool → Bool → Bool × Hart
unfolding pmp_scan
pmp_check h addr is_execute is_write =
    if h.pmp_on_count == 0 && h.priv_level == machine
    then (true, h)
    else elim (pmp_scan pmp_number 0 h addr is_execute is_write) [
      | some true ↦ (true, h)
      | some false ↦ (false, fail h)
      | none ↦ if h.priv_level == machine then (true, h) else (false, fail h)
    ]
