-- ===== src/Cpu/Ooo/Units.antt =====
-- `ooo_unit_int` and `ooo_unit_mul`: execution, the write-back of results, and the check of a
-- branch against its prediction.
use sustemu.Base.{
  ℕ, zero, suc, ◌+◌, ◌-◌, ◌/◌, ◌%◌, true, false, Option, some, ◌==◌, if◌then◌else◌, not, ltb,
  update, ◌>>=◌,
}
use sustemu.Base.Int.{ℤ, pos, negsuc}
use sustemu.Cpu.Ir.Inst.{IrInst}
use sustemu.Cpu.Ir.Exec.{ir_execute}
use sustemu.Cpu.Bpred.Model.{BranchPredictor, bpred_update, is_control}
use sustemu.Cpu.Bpred.Second.{bpred2_update}
use sustemu.Cpu.Ooo.State.{Ooo, RobEntry, Latch, Stats, lat_int_mul, lat_int_div}
use sustemu.Cpu.Ooo.Rename.{is_mul_raw}
use sustemu.Cpu.Ooo.Flush.{ooo_flush_after}
use sustemu.Cpu.Ooo.Machine.{Machine, Config, with_ooo, set_rob, store_ir, complete, write_result}
use sustemu.Memory.Vmem.{is_cached}

abbrev pub drop_int : ℕ → Ooo → Ooo
drop_int s o = record o { latch_int = update o.latch_int s (idle (o.latch_int s)) }
  where
    idle : Latch → Latch
    idle l = record l { valid = false }

abbrev pub set_mul : ℕ → (Latch → Latch) → Ooo → Ooo
set_mul s f o = record o { latch_mul = update o.latch_mul s (f (o.latch_mul s)) }

abbrev pub idle : Latch → Latch
idle l = record l { valid = false }

abbrev pub count_down : ℤ → Latch → Latch
count_down n l = record l { cycles_rem = n }

abbrev pub with_operands : IrInst → Latch → IrInst
with_operands ir l = record ir { src1_val = l.src1_val; src2_val = l.src2_val }

abbrev pub set_fault : RobEntry → RobEntry
set_fault e = record e { ir = record ir { fault = true } }
  where
    ir : IrInst
    ir = e.ir

-- `ir.bp_predicted_pc ? ir.bp_predicted_pc : ir.snpc`
abbrev pub predicted : IrInst → ℕ
predicted ir = if ir.bp_predicted_pc == 0 then ir.snpc else ir.bp_predicted_pc

unfoldable pub mul_latency : ℕ → ℕ
mul_latency raw =
    if is_mul_raw raw then (if ltb (raw / 0x1000 % 8) 4 then lat_int_mul else lat_int_div) else 1

module _ {S : Type 0} where
  -- Execution of an entry with the values of a latch, and its result
  unfoldable pub execute : Latch → Machine S → Option (IrInst × Machine S)
  execute l m = ir_execute (with_operands (m.ooo.rob l.rob_idx).ir l) m.sim >>= λ r. some (
    r.0,
    record m {
      sim = r.1;
      ooo =
          set_rob l.rob_idx complete
            (write_result l.phys_rd r.0.result (set_rob l.rob_idx (store_ir r.0) m.ooo));
    },
  )

  unfoldable pub train_predictors : Config → IrInst → Machine S → Machine S
  train_predictors c ir m =
      if c.bpred2_mode
      then record m { bpred2 = bpred2_update m.bpred2 ir }
      else if c.bpred_mode
      then record m { bpred = bpred_update m.bpred ir }
      else m

  -- The return-address stack goes back to where it was when the branch was fetched.
  abbrev restore_ras : Config → IrInst → Machine S → Machine S
  restore_ras c ir m = if c.bpred_mode then record m { bpred = snapshot m.bpred } else m
    where
      snapshot : BranchPredictor → BranchPredictor
      snapshot b = record b { ras_top = ir.ras_top_snap; ras_count = ir.ras_cnt_snap }

  -- The entry's instruction went elsewhere than predicted: a target outside the guest's memory only
  -- marks the entry.
  unfoldable pub mispredicted : Config → ℕ → IrInst → Machine S → Option (Machine S)
  mispredicted c rob_idx ir m =
      if not (is_cached ir.dnpc)
      then some (with_ooo m (set_rob rob_idx set_fault))
      else (let m' = restore_ras c ir m in
          ooo_flush_after rob_idx m'.ooo >>= λ o. some (record m' { ooo = redirect o }))
    where
      redirect : Ooo → Ooo
      redirect o = record o {
        fetch_pc = ir.dnpc;
        stats = record st { mispred_flushes = st.mispred_flushes + 1 };
      }
        where
          st : Stats
          st = o.stats

  unfoldable pub check_branch : Config → ℕ → IrInst → Machine S → Option (Machine S)
  check_branch c rob_idx ir m =
      if not (is_control ir.type)
      then some m
      else (let m' = train_predictors c ir m in
          if ir.dnpc == predicted ir then some m' else mispredicted c rob_idx ir m')

  unfoldable pub int_slot : Config → ℕ → Machine S → Option (Machine S)
  int_slot c s m =
      let l = m.ooo.latch_int s in
      if not l.valid
      then some m
      else (let m' = with_ooo m (drop_int s) in
          if not (m.ooo.rob l.rob_idx).valid
          then some m'
          else (execute l m' >>= λ r. check_branch c l.rob_idx r.0 r.1))

  unfoldable pub ooo_unit_int : Config → Machine S → Option (Machine S)
  ooo_unit_int c m = int_slot c 0 m >>= λ m'. int_slot c 1 m'

  -- The last cycle of the multiplier: the latch is free again.
  unfoldable pub mul_finish : ℕ → Machine S → Option (Machine S)
  mul_finish s m =
      let l = m.ooo.latch_mul s in
      let m' = with_ooo m (set_mul s idle) in
      if not (m.ooo.rob l.rob_idx).valid then some m' else (execute l m' >>= λ r. some r.1)

  -- What one cycle does with the count of a busy latch
  unfoldable pub mul_visit : ℤ → ℕ → Machine S → Option (Machine S)
  mul_visit (negsuc zero) s m =
      let lat = mul_latency (m.ooo.rob (m.ooo.latch_mul s).rob_idx).ir.raw in
      let m' = with_ooo m (set_mul s (count_down (pos (lat - 1)))) in
      if ltb 1 lat then some m' else mul_finish s m'
  mul_visit (negsuc (suc n)) s m = mul_finish s m
  mul_visit (pos zero) s m = mul_finish s m
  mul_visit (pos (suc n)) s m = some (
      with_ooo m (
        set_mul s
          (if (m.ooo.rob (m.ooo.latch_mul s).rob_idx).valid then count_down (pos n) else idle)))

  unfoldable pub ooo_unit_mul : Machine S → Option (Machine S)
  ooo_unit_mul m =
      let l = m.ooo.latch_mul 0 in if l.valid then mul_visit l.cycles_rem 0 m else some m
