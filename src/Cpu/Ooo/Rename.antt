-- ===== src/Cpu/Ooo/Rename.antt =====
-- The free list, the ready and free masks of the reservation stations, and `ooo_stage_rn`.
use sustemu.Base.{
  ℕ, zero, suc, ◌+◌, ◌-◌, ◌/◌, ◌%◌, Bool, true, false, Option, none, some, ◌==◌, if◌then◌else◌,
  ◌&&◌, ◌||◌, not, leb, ltb, update, ◌>>=◌,
}
use sustemu.Base.Int.{ℤ, pos_part, neg_part, sub_ℕ}
use sustemu.Cpu.Ir.Inst.{IrInst}
use sustemu.Cpu.Ooo.State.{
  Ooo, FreeList, PhysReg, RsEntry, PipeReg, Stats, EuType, eu_int, eu_mul, eu_lsu, eu_eq,
  free_list_size, rob_size, rs_size,
}

-- The register is read before the count is looked at: the callers look at it.
unfoldable pub freelist_pop : FreeList → ℕ × FreeList
freelist_pop f =
    (f.regs f.head, record f { head = (f.head + 1) % free_list_size; count = f.count - 1 })

unfoldable pub freelist_push : FreeList → ℕ → FreeList
freelist_push f r = record f {
  regs = update f.regs f.tail r;
  tail = (f.tail + 1) % free_list_size;
  count = f.count + 1;
}

-- Bit i of one unit's mask
abbrev pub set_bit : (EuType → ℕ → Bool) → EuType → ℕ → Bool → EuType → ℕ → Bool
set_bit m e i b e' = if eu_eq e' e then update (m e') i b else m e'

abbrev pub all_ready : RsEntry → Bool
all_ready r = r.src1_ready && r.src2_ready

unfoldable pub rs_mask_update : Ooo → ℕ → Ooo
rs_mask_update o i = record o {
  rs_ready_mask = set_bit o.rs_ready_mask r.eu_type i (r.valid && all_ready r);
}
  where
    r : RsEntry
    r = o.rs i

unfoldable pub rs_mask_clear : Ooo → ℕ → EuType → Ooo
rs_mask_clear o i e = record o {
  rs_ready_mask = set_bit o.rs_ready_mask e i false;
  rs_free_mask = update o.rs_free_mask i true;
}

-- `__builtin_ctz` on a mask of n bits, from bit i on: undefined when no bit is set
unfoldable pub lowest_from : ℕ → ℕ → (ℕ → Bool) → Option ℕ
lowest_from zero i m = none
lowest_from (suc n) i m = if m i then some i else lowest_from n (i + 1) m

-- `__builtin_popcount` on a mask of n bits
unfoldable pub popcount : ℕ → (ℕ → Bool) → ℕ
popcount zero m = 0
popcount (suc n) m = popcount n m + (if m n then 1 else 0)

-- `(raw & 0x7f) == 0x23`, and the same for the opcode of loads
abbrev pub is_store_raw : ℕ → Bool
is_store_raw raw = raw % 0x80 == 0x23

abbrev pub is_load_raw : ℕ → Bool
is_load_raw raw = raw % 0x80 == 0x03

-- Instructions of the M extension: opcode 0x33 or 0x3b, and funct7 1
abbrev pub is_mul_raw : ℕ → Bool
is_mul_raw raw = (raw % 0x80 == 0x33 || raw % 0x80 == 0x3b) && raw / 0x200_0000 == 1

unfoldable pub classify : ℕ → EuType
classify raw =
    if is_load_raw raw || is_store_raw raw
    then eu_lsu
    else if is_mul_raw raw
    then eu_mul
    else eu_int

abbrev pub add_ℤ : ℤ → ℕ → ℤ
add_ℤ z n = sub_ℕ (pos_part z + n) (neg_part z)

abbrev pub take_ℤ : ℤ → ℕ → ℤ
take_ℤ z n = sub_ℕ (pos_part z) (neg_part z + n)

-- A source operand of a station: whether it is there, its value, and the register it waits for
pub record Operand : Type 0 where
  pub ready : Bool
  pub val : ℕ
  pub ptag : ℕ

unfoldable pub source : Ooo → Option ℕ → ℕ → Operand
source o none v = record { ready = true; val = v; ptag = 0 }
source o (some zero) v = record { ready = true; val = 0; ptag = 0 }
source o (some (suc r)) v = record {
  ready = p.ready;
  val = if p.ready then p.value else 0;
  ptag = o.rat (suc r);
}
  where
    p : PhysReg
    p = o.prf (o.rat (suc r))

-- The destination of an instruction: its physical register, the one it supersedes, and the engine
-- after the free list, the map and the register file have changed
unfoldable pub alloc_phys : Ooo → Option ℕ → Option ℕ × Option ℕ × Ooo
unfolding freelist_pop
alloc_phys o none = (none, none, o)
alloc_phys o (some zero) = (some 0, some 0, o)
alloc_phys o (some (suc r)) =
    let (p, f) = freelist_pop o.freelist in
    (
      some p,
      some (o.rat (suc r)),
      record o {
        freelist = f;
        rat = update o.rat (suc r) p;
        prf = update o.prf p (record { value = 0; ready = false });
      },
    )

-- One instruction of the group, past the checks: its entry in the reorder buffer, its destination,
-- and its station
unfoldable pub rename_one : Ooo → IrInst → Option Ooo
unfolding alloc_phys source lowest_from classify rs_mask_update
rename_one o ir =
    let (phys_rd, old_phys, o') = alloc_phys o ir.rd in
    let src1 = source o ir.rs1 ir.src1_val in
    let src2 = source o ir.rs2 ir.src2_val in
    lowest_from rs_size 0 o.rs_free_mask >>= λ slot. some (
      rs_mask_update
        (record o' {
          rob = update o.rob o.rob_tail (record {
            ir = ir;
            arch_rd = ir.rd;
            phys_rd = phys_rd;
            old_phys = old_phys;
            store_data = 0;
            ready = false;
            valid = true;
          });
          rob_tail = (o.rob_tail + 1) % rob_size;
          rob_count = o.rob_count + 1;
          unready_store_count =
              if is_store_raw ir.raw then add_ℤ o.unready_store_count 1 else o.unready_store_count;
          rs_free_mask = update o.rs_free_mask slot false;
          rs = update o.rs slot (record {
            valid = true;
            phys_rd = phys_rd;
            rob_idx = o.rob_tail;
            src1_ready = src1.ready;
            src1_val = src1.val;
            src1_ptag = src1.ptag;
            src2_ready = src2.ready;
            src2_val = src2.val;
            src2_ptag = src2.ptag;
            eu_type = classify ir.raw;
          });
        })
        slot)

abbrev pub drop_latch : PipeReg → PipeReg
drop_latch l = record l { valid = false }

-- Whether the instruction takes a register off the free list
abbrev pub takes_register : Option ℕ → Bool
takes_register none = false
takes_register (some r) = not (r == 0)

abbrev rob_full : Ooo → Ooo
rob_full o = record o { stats = record st { rob_full_stalls = st.rob_full_stalls + 1 } }
  where
    st : Stats
    st = o.stats

abbrev rs_full : Ooo → Ooo
rs_full o = record o { stats = record st { rs_full_stalls = st.rs_full_stalls + 1 } }
  where
    st : Stats
    st = o.stats

abbrev serializing : Ooo → Ooo
serializing o = record o { stats = record st { serializing_stalls = st.serializing_stalls + 1 } }
  where
    st : Stats
    st = o.stats

-- The loop of `ooo_stage_rn` from slot n on, with k slots to go
unfoldable pub rename_loop : ℕ → ℕ → ℕ → Ooo → Option Ooo
unfolding rename_one
rename_loop zero n rs_used o = some o
rename_loop (suc k) n rs_used o =
    let l = o.latch_id_rn n in
    if not l.valid
    then some o
    else if l.ir.serializing && (ltb 0 o.rob_count || ltb 0 n)
    then some (if n == 0 then serializing o else o)
    else if leb rob_size o.rob_count
    then some (rob_full o)
    else if leb rs_size rs_used
    then some (rs_full o)
    else if takes_register l.ir.rd && o.freelist.count == 0
    then some (rob_full o)
    else (rename_one o l.ir >>= λ o'.
        rename_loop k (n + 1) (rs_used + 1)
          (record o' { latch_id_rn = update o'.latch_id_rn n (drop_latch (o'.latch_id_rn n)) }))

-- A second instruction that remains moves to slot 0.
unfoldable pub compact : Ooo → Ooo
compact o =
    if not (o.latch_id_rn 0).valid && (o.latch_id_rn 1).valid
    then record o {
      latch_id_rn =
          update (update o.latch_id_rn 0 (o.latch_id_rn 1)) 1 (drop_latch (o.latch_id_rn 1));
    }
    else o

unfoldable pub ooo_stage_rn : Ooo → Option Ooo
unfolding rename_loop compact popcount
ooo_stage_rn o =
    if not (o.latch_id_rn 0).valid
    then some o
    else (rename_loop 2 0 (rs_size - popcount rs_size o.rs_free_mask) o >>= λ o'. some (compact o'))
