-- ===== src/Cpu/Ooo/Wake.antt =====
-- `cdb_broadcast`, `latch_from_rs` and `ooo_stage_is`: waking the reservation stations and issuing
-- the oldest that are ready.
use sustemu.Base.{
  ℕ, zero, suc, ◌+◌, ◌%◌, Bool, true, false, Option, none, some, ◌==◌, if◌then◌else◌, ◌&&◌, ◌||◌,
  not, ltb, update,
}
use sustemu.Base.Int.{negsuc}
use sustemu.Cpu.Ir.Inst
use sustemu.Cpu.Ir.Inst.{IrInstType}
use sustemu.Cpu.Ooo.State.{
  Ooo, RobEntry, RsEntry, Latch, EuType, eu_int, eu_mul, eu_lsu, eu_eq, rob_size, rs_size,
}
use sustemu.Cpu.Ooo.Rename.{all_ready, is_load_raw, is_store_raw, rs_mask_clear}
use sustemu.Cpu.Ooo.Flush.{rob_age}

-- One station hears that a register is ready.
abbrev pub hear1 : Ooo → ℕ → RsEntry → RsEntry
hear1 o tag r =
    if not r.src1_ready && r.src1_ptag == tag
    then record r { src1_val = (o.prf tag).value; src1_ready = true }
    else r

abbrev pub hear2 : Ooo → ℕ → RsEntry → RsEntry
hear2 o tag r =
    if not r.src2_ready && r.src2_ptag == tag
    then record r { src2_val = (o.prf tag).value; src2_ready = true }
    else r

abbrev pub waits_for : ℕ → RsEntry → Bool
waits_for tag r =
    (not r.src1_ready && r.src1_ptag == tag) || (not r.src2_ready && r.src2_ptag == tag)

-- The slots of `valid_mask`, which are those that the free mask leaves out; they are independent.
abbrev pub taken_slot : Ooo → ℕ → Bool
taken_slot o i = ltb i rs_size && not (o.rs_free_mask i)

unfoldable pub cdb_broadcast : ℕ → Ooo → Ooo
cdb_broadcast tag o = record o {
  rs = λ i. if taken_slot o i then hear2 o tag (hear1 o tag (o.rs i)) else o.rs i;
  rs_ready_mask = λ e i.
      if eu_eq e (o.rs i).eu_type
        && (taken_slot o i
            && (waits_for tag (o.rs i) && all_ready (hear2 o tag (hear1 o tag (o.rs i)))))
      then true
      else o.rs_ready_mask e i;
}

-- The latches of one kind of unit
unfoldable pub latches : EuType → Ooo → ℕ → Latch
latches eu_int o = o.latch_int
latches eu_mul o = o.latch_mul
latches eu_lsu o = o.latch_lsu

unfoldable pub set_latch : EuType → ℕ → Latch → Ooo → Ooo
set_latch eu_int s l o = record o { latch_int = update o.latch_int s l }
set_latch eu_mul s l o = record o { latch_mul = update o.latch_mul s l }
set_latch eu_lsu s l o = record o { latch_lsu = update o.latch_lsu s l }

-- The station of index i goes to latch s of a unit.
unfoldable pub latch_from_rs : EuType → ℕ → ℕ → Ooo → Ooo
unfolding rs_mask_clear set_latch
latch_from_rs e s i o = leave (
    rs_mask_clear
      (set_latch e s
        (record {
          rob_idx = r.rob_idx;
          src1_val = r.src1_val;
          src2_val = r.src2_val;
          phys_rd = r.phys_rd;
          cycles_rem = negsuc 0;
          mshr_idx = none;
          flushed = false;
          valid = true;
        })
        o)
      i r.eu_type)
  where
    r : RsEntry
    r = o.rs i

    leave : Ooo → Ooo
    leave o' = record o' { rs = update o'.rs i (record r { valid = false }) }

abbrev pub is_fence : IrInstType → Bool
is_fence Inst.itype_fence = true
is_fence t = false

-- An entry that keeps a younger load from issuing: a store that has not executed, or a fence while
-- committed stores wait
abbrev pub blocks : Ooo → RobEntry → Bool
blocks o e =
    e.valid && (not e.ready && is_store_raw e.ir.raw || is_fence e.ir.type && ltb 0 o.sbuf_count)

-- The entries from slot j on, k of them
unfoldable pub blocked_from : ℕ → ℕ → Ooo → Bool
blocked_from zero j o = false
blocked_from (suc k) j o = blocks o (o.rob j) || blocked_from k ((j + 1) % rob_size) o

-- The loop runs from the head to the load, once for each entry between.
unfoldable pub blocked : ℕ → Ooo → Bool
unfolding blocked_from
blocked rob_idx o = blocked_from (rob_age o rob_idx) o.rob_head o

abbrev pub older : Ooo → ℕ → Option ℕ → Option ℕ
older o i none = some i
older o i (some b) =
    if ltb (rob_age o (o.rs i).rob_idx) (rob_age o (o.rs b).rob_idx) then some i else some b

abbrev pub is_lsu : EuType → Bool
is_lsu eu_lsu = true
is_lsu e = false

abbrev pub may_issue : EuType → Ooo → ℕ → Bool
may_issue e o i =
    o.rs_ready_mask e i
    && not (is_lsu e && (is_load_raw (o.rob (o.rs i).rob_idx).ir.raw && blocked (o.rs i).rob_idx o))

-- The scan of the ready mask from bit i on, with k bits to go
unfoldable pub select : ℕ → ℕ → EuType → Ooo → Option ℕ → Option ℕ
unfolding blocked
select zero i e o best = best
select (suc k) i e o best = select k (i + 1) e o (if may_issue e o i then older o i best else best)

unfoldable pub issue_slot : EuType → ℕ → Ooo → Ooo
unfolding select latch_from_rs latches
issue_slot e s o =
    if (latches e o s).valid
    then o
    else elim (select rs_size 0 e o none) [ none ↦ o | some i ↦ latch_from_rs e s i o ]

-- Two integer units, one multiplier, and two units for loads and stores
unfoldable pub ooo_stage_is : Ooo → Ooo
unfolding issue_slot
ooo_stage_is o =
    issue_slot eu_lsu 1
      (issue_slot eu_lsu 0 (issue_slot eu_mul 0 (issue_slot eu_int 1 (issue_slot eu_int 0 o))))
