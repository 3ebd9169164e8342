-- ===== src/Cpu/Ooo/Flush.antt =====
-- `rob_newer_than` and `ooo_flush_after`: the recovery from a misprediction.
use sustemu.Base.{
  ℕ, zero, suc, ◌+◌, ◌-◌, ◌%◌, Bool, true, false, Option, none, some, ◌==◌, if◌then◌else◌, ◌&&◌,
  not, ltb, update, ◌>>=◌,
}
use sustemu.Cpu.Ooo.State.{Ooo, PhysReg, RsEntry, Latch, eu_eq, rob_size, rs_size}
use sustemu.Cpu.Ooo.Rename.{freelist_push, is_store_raw, take_ℤ, drop_latch}

-- How long after the head of the reorder buffer a slot was allocated
abbrev pub rob_age : Ooo → ℕ → ℕ
rob_age o a = (a + rob_size - o.rob_head) % rob_size

unfoldable pub rob_newer_than : Ooo → ℕ → ℕ → Bool
rob_newer_than o a b = ltb (rob_age o b) (rob_age o a)

abbrev pub unready : PhysReg → PhysReg
unready p = record p { ready = false }

-- The map gets back what the instruction superseded, and its register becomes free. An entry that
-- writes a register and has no physical one would index the file at -1.
unfoldable pub undo_rename : Option ℕ → Option ℕ → Option ℕ → Ooo → Option Ooo
unfolding freelist_push
undo_rename none p old o = some o
undo_rename (some zero) p old o = some o
undo_rename (some (suc r)) none old o = none
undo_rename (some (suc r)) (some p) none o = none
undo_rename (some (suc r)) (some p) (some old) o = some (record o {
  rat = update o.rat (suc r) old;
  prf = update o.prf p (unready (o.prf p));
  freelist = freelist_push o.freelist p;
})

-- One turn of the loop that moves the tail back
unfoldable pub flush_entry : Ooo → Option Ooo
unfolding undo_rename
flush_entry o =
    let t = (o.rob_tail + rob_size - 1) % rob_size in
    let e = o.rob t in
    if not e.valid
    then some (record o { rob_tail = t })
    else (undo_rename e.arch_rd e.phys_rd e.old_phys o >>= λ o'. some (record o' {
      rob_tail = t;
      rob = update o.rob t (record e { valid = false });
      rob_count = o.rob_count - 1;
      unready_store_count =
          if not e.ready && is_store_raw e.ir.raw
          then take_ℤ o.unready_store_count 1
          else o.unready_store_count;
    }))

-- The loop runs at most once for each slot.
unfoldable pub flush_rob : ℕ → ℕ → Ooo → Option Ooo
unfolding flush_entry
flush_rob zero new_tail o = if o.rob_tail == new_tail then some o else none
flush_rob (suc n) new_tail o =
    if o.rob_tail == new_tail then some o else (flush_entry o >>= λ o'. flush_rob n new_tail o')

-- The stations are independent of one another.
abbrev pub flushed_rs : Ooo → ℕ → ℕ → Bool
flushed_rs o b i = ltb i rs_size && ((o.rs i).valid && rob_newer_than o (o.rs i).rob_idx b)

unfoldable pub flush_rs : ℕ → Ooo → Ooo
unfolding rob_newer_than
flush_rs b o = record o {
  rs_ready_mask =
      λ e i. if eu_eq e (o.rs i).eu_type && flushed_rs o b i then false else o.rs_ready_mask e i;
  rs_free_mask = λ i. if flushed_rs o b i then true else o.rs_free_mask i;
  rs = λ i. if flushed_rs o b i then drop_rs (o.rs i) else o.rs i;
}
  where
    drop_rs : RsEntry → RsEntry
    drop_rs r = record r { valid = false }

abbrev pub newer_latch : Ooo → ℕ → Latch → Bool
newer_latch o b l = l.valid && rob_newer_than o l.rob_idx b

-- A load with a miss in flight stays, marked, until its line arrives.
abbrev pub flush_lsu : Latch → Latch
flush_lsu l = elim (l.mshr_idx) [
  | none ↦ record l { valid = false }
  | some mi ↦ record l { flushed = true }
]

-- Every unit has fewer latches than these arrays have indices; the others are never valid.
unfoldable pub flush_latches : ℕ → Ooo → Ooo
unfolding rob_newer_than
flush_latches b o = record o {
  latch_int = λ s. if newer_latch o b (o.latch_int s) then drop (o.latch_int s) else o.latch_int s;
  latch_mul = λ s. if newer_latch o b (o.latch_mul s) then drop (o.latch_mul s) else o.latch_mul s;
  latch_lsu =
      λ s. if newer_latch o b (o.latch_lsu s) then flush_lsu (o.latch_lsu s) else o.latch_lsu s;
  latch_if_id = λ s. drop_latch (o.latch_if_id s);
  latch_id_rn = λ s. drop_latch (o.latch_id_rn s);
}
  where
    drop : Latch → Latch
    drop l = record l { valid = false }

unfoldable pub ooo_flush_after : ℕ → Ooo → Option Ooo
unfolding flush_rob flush_rs flush_latches
ooo_flush_after b o =
    flush_rob rob_size ((b + 1) % rob_size) o >>= λ o'. some (flush_latches b (flush_rs b o'))
