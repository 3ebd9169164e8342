-- ===== src/Cpu/Ooo/Tests.antt =====
-- Runs of the out-of-order engine on a flat memory with a small program.
use sustemu.Base.{
  ℕ, ◌+◌, ◌<◌, ◌≡◌, ◌≢◌, refl, arith, Bool, true, false, Option, none, some, List, [], ◌∷◌, ◌++◌,
  ◌==◌, if◌then◌else◌,
}
use sustemu.Memory.Bytes.{le_read, le_write}
use sustemu.Memory.Vmem.{VirtualMemory}
use sustemu.Cpu.State.{init_regs}
use sustemu.Cpu.Ir.Tests.{boot_sim}
use sustemu.Cpu.Ir.Decode.{ir_decode, imm_i, imm_b, pick_op_imm}
use sustemu.Cpu.Ir.Exec.{ir_execute, dispatch, extend_load}
use sustemu.Cpu.Ir.Alu.{exec_addi}
use sustemu.Cpu.Ir.Access.{exec_beq, exec_lb, exec_inv}
use sustemu.Cpu.Bpred.Model.{bpred_init}
use sustemu.Cpu.Ooo.Rename.{
  freelist_pop, freelist_push, rs_mask_update, rs_mask_clear, lowest_from, popcount, classify,
  source, alloc_phys, rename_one, rename_loop, compact, ooo_stage_rn,
}
use sustemu.Cpu.Ooo.Flush.{
  rob_newer_than, undo_rename, flush_entry, flush_rob, flush_rs, flush_latches, ooo_flush_after,
}
use sustemu.Cpu.Ooo.Wake.{
  cdb_broadcast, latches, set_latch, latch_from_rs, blocked_from, blocked, select, issue_slot,
  ooo_stage_is,
}
use sustemu.Cpu.Ooo.Mshr.{mshr_scan, mshr_find_or_alloc, mshr_tick}
use sustemu.Cpu.Ooo.Machine.{Machine, Config, write_result}
use sustemu.Cpu.Ooo.Commit.{
  sbuf_push, retire, commit_entry, commit_store, commit_one, ooo_stage_commit, drain_one,
  ooo_drain_store_buf,
}
use sustemu.Cpu.Ooo.Units.{
  mul_latency, execute, train_predictors, mispredicted, check_branch, int_slot, ooo_unit_int,
  mul_finish, mul_visit, ooo_unit_mul,
}
use sustemu.Cpu.Ooo.Lsu.{
  stlf_try, scan_sbuf, scan_rob, load_value, release, load_fault, load_done, finish_store,
  start_miss, do_fill, drop_fill, start_load, first_visit, lsu_visit, lsu_slot, ooo_unit_lsu,
}
use sustemu.Cpu.Ooo.Cycle.{
  free_from, ooo_stage_id, predict, annotate, count_cycle, fetch_slot, ooo_stage_if, ooo_cycle,
  ooo_init, init_machine,
}
use sustemu.Cpu.Ir.Inst.{IrInst}
use sustemu.Cpu.Ir.Tests.{blank}
use sustemu.Cpu.Ooo.State.{Ooo, MshrEntry}
use sustemu.Cpu.Ooo.Flush.{rob_age}
use sustemu.Cpu.Ooo.Forwarding.{
  sbuf_pending, rob_pending, pending, drain, AllClear, covers, half, load_value-drain,
}
use sustemu.Cpu.Ooo.Mshr.Unique.{IsUnique, Granted, mshr_find_or_alloc-IsUnique}
use sustemu.Cpu.Ooo.Names.{Dest, names, live, free, replay, count, IsSound}
use sustemu.Cpu.Ooo.Names.Renaming.{Renamed, ooo_stage_rn-IsSound}
use sustemu.Cpu.Ooo.Names.Flushing.{ooo_flush_after-restores}
use sustemu.Cpu.Ooo.Places.{IsPlaced}
use sustemu.Cpu.Ooo.Places.Reached.{run_cycles-IsPlaced}
use sustemu.Cpu.Ooo.Stations.{IsScheduled}
use sustemu.Cpu.Ooo.Stations.Reached.{run_cycles-IsScheduled}
use sustemu.Cpu.Ooo.Names.Start.{ooo_init-IsSound}
use sustemu.Cpu.Ooo.Stages.{run_cycles}
use sustemu.Cpu.Ooo.Names.Reached.{run_cycles-IsSound, run_cycles-apart}

-- Every access goes straight to the bytes.
abbrev pub flat : VirtualMemory (ℕ → ℕ)
flat = record {
  vaddr_ifetch = λ s a n. some (le_read n s a, s);
  vaddr_read = λ s a n. some (le_read n s a, s);
  vaddr_read_level = λ s a n. some (0, le_read n s a, s);
  vaddr_fill_and_read = λ s a n. some (le_read n s a, s);
  vaddr_probe_level = λ s a. (0, s);
  vaddr_write = λ s a n v. some (le_write n s a v);
}

-- `addi x1, x0, 5`, a jump over `addi x2, x0, 9`, `addi x3, x1, 1`
abbrev pub program : ℕ → ℕ
program a =
    if a == 0x8000_0000
    then 0x93
    else if a == 0x8000_0002
    then 0x50
    else if a == 0x8000_0004
    then 0x63
    else if a == 0x8000_0005
    then 0x04
    else if a == 0x8000_0008
    then 0x13
    else if a == 0x8000_0009
    then 0x01
    else if a == 0x8000_000a
    then 0x90
    else if a == 0x8000_000c
    then 0x93
    else if a == 0x8000_000d
    then 0x81
    else if a == 0x8000_000e
    then 0x10
    else 0

abbrev plain_config : Config
plain_config = record { bpred_mode = false; bpred2_mode = false; num_cores = 1 }

abbrev fresh : Machine (ℕ → ℕ)
fresh = record {
  ooo = ooo_init init_regs;
  cpu = init_regs;
  sim = boot_sim;
  mem = program;
  bpred = bpred_init;
  bpred2 = bpred_init;
}

abbrev reached : Option (Machine (ℕ → ℕ)) → Machine (ℕ → ℕ)
reached none = fresh
reached (some m) = m

-- The machine after n cycles
run_to : ℕ → Machine (ℕ → ℕ)
run_to n = reached (run_cycles flat n plain_config (init_machine plain_config fresh))

abbrev results : Machine (ℕ → ℕ) → List ℕ
results m = m.cpu.gpr 1 ∷ m.cpu.gpr 2 ∷ m.cpu.gpr 3 ∷ m.cpu.pc ∷ m.ooo.stats.mispred_flushes ∷ []

is_some : {A : Type 0} → Option A → Bool
is_some none = false
is_some (some a) = true

some_of : (r : Option (Machine (ℕ → ℕ))) → is_some r ≡ true → r ≡ some (reached r)
unfolding is_some
some_of none e = cc
some_of (some m) e = refl

survives : is_some (run_cycles flat 4 plain_config (init_machine plain_config fresh)) ≡ true
unfolding is_some init_regs run_cycles freelist_pop freelist_push rs_mask_update rs_mask_clear
    lowest_from popcount classify source alloc_phys rename_one rename_loop compact ooo_stage_rn
    rob_newer_than undo_rename flush_entry flush_rob flush_rs flush_latches ooo_flush_after
    cdb_broadcast latches set_latch latch_from_rs blocked_from blocked select issue_slot
    ooo_stage_is mshr_scan mshr_find_or_alloc mshr_tick write_result sbuf_push retire commit_entry
    commit_store commit_one ooo_stage_commit drain_one ooo_drain_store_buf mul_latency execute
    train_predictors mispredicted check_branch int_slot ooo_unit_int mul_finish mul_visit
    ooo_unit_mul stlf_try scan_sbuf scan_rob load_value release load_fault load_done finish_store
    start_miss do_fill drop_fill start_load first_visit lsu_visit lsu_slot ooo_unit_lsu ooo_stage_id
    predict annotate count_cycle fetch_slot ooo_stage_if ooo_cycle ooo_init init_machine le_read
    le_write ir_decode imm_i imm_b pick_op_imm ir_execute dispatch exec_addi exec_beq exec_lb
    exec_inv extend_load free_from
survives = refl

-- After four cycles the first two instructions are in flight.
renamed : (run_to 4).ooo.rat 1 ≡ 32
unfolding init_regs run_to run_cycles freelist_pop freelist_push rs_mask_update rs_mask_clear
    lowest_from popcount classify source alloc_phys rename_one rename_loop compact ooo_stage_rn
    rob_newer_than undo_rename flush_entry flush_rob flush_rs flush_latches ooo_flush_after
    cdb_broadcast latches set_latch latch_from_rs blocked_from blocked select issue_slot
    ooo_stage_is mshr_scan mshr_find_or_alloc mshr_tick write_result sbuf_push retire commit_entry
    commit_store commit_one ooo_stage_commit drain_one ooo_drain_store_buf mul_latency execute
    train_predictors mispredicted check_branch int_slot ooo_unit_int mul_finish mul_visit
    ooo_unit_mul stlf_try scan_sbuf scan_rob load_value release load_fault load_done finish_store
    start_miss do_fill drop_fill start_load first_visit lsu_visit lsu_slot ooo_unit_lsu ooo_stage_id
    predict annotate count_cycle fetch_slot ooo_stage_if ooo_cycle ooo_init init_machine le_read
    le_write ir_decode imm_i imm_b pick_op_imm ir_execute dispatch exec_addi exec_beq exec_lb
    exec_inv extend_load free_from
renamed = refl

four_cycles : run_cycles flat 4 plain_config (init_machine plain_config fresh) ≡ some (run_to 4)
unfolding run_to
four_cycles = some_of (run_cycles flat 4 plain_config (init_machine plain_config fresh)) survives

run_cycles-IsSound_example : IsSound (names (run_to 4).ooo)
run_cycles-IsSound_example = run_cycles-IsSound flat 4 plain_config fresh (run_to 4) four_cycles

run_cycles-IsScheduled_example : IsScheduled (run_to 4).ooo
run_cycles-IsScheduled_example =
    run_cycles-IsScheduled flat 4 plain_config fresh (run_to 4) four_cycles

run_cycles-IsPlaced_example : IsPlaced (run_to 4).ooo
run_cycles-IsPlaced_example = run_cycles-IsPlaced flat 4 plain_config fresh (run_to 4) four_cycles

run_cycles-apart_example :
    ((run_to 4).ooo.rat 1 ≢ (run_to 4).ooo.rat 3)
    × (0 < (run_to 4).ooo.rat 1)
    × ((run_to 4).ooo.rat 1 < 64)
    × (count ((run_to 4).ooo.rat 1) (free (names (run_to 4).ooo)) ≡ 0)
    × (count ((run_to 4).ooo.rat 3) (free (names (run_to 4).ooo)) ≡ 0)
run_cycles-apart_example =
    run_cycles-apart flat 4 plain_config fresh (run_to 4) 1 3 four_cycles (omega arith)
      (omega arith) (omega arith)

branch_in_flight : ((run_to 4).ooo.rob 1).valid ≡ true
unfolding init_regs run_to run_cycles freelist_pop freelist_push rs_mask_update rs_mask_clear
    lowest_from popcount classify source alloc_phys rename_one rename_loop compact ooo_stage_rn
    rob_newer_than undo_rename flush_entry flush_rob flush_rs flush_latches ooo_flush_after
    cdb_broadcast latches set_latch latch_from_rs blocked_from blocked select issue_slot
    ooo_stage_is mshr_scan mshr_find_or_alloc mshr_tick write_result sbuf_push retire commit_entry
    commit_store commit_one ooo_stage_commit drain_one ooo_drain_store_buf mul_latency execute
    train_predictors mispredicted check_branch int_slot ooo_unit_int mul_finish mul_visit
    ooo_unit_mul stlf_try scan_sbuf scan_rob load_value release load_fault load_done finish_store
    start_miss do_fill drop_fill start_load first_visit lsu_visit lsu_slot ooo_unit_lsu ooo_stage_id
    predict annotate count_cycle fetch_slot ooo_stage_if ooo_cycle ooo_init init_machine le_read
    le_write ir_decode imm_i imm_b pick_op_imm ir_execute dispatch exec_addi exec_beq exec_lb
    exec_inv extend_load free_from
branch_in_flight = refl

ooo_flush_after-restores_example :
    (o' : Ooo) × (ooo_flush_after 1 (run_to 4).ooo ≡ some o')
    × (o'.rob_head ≡ (run_to 4).ooo.rob_head)
    × (o'.rob_count ≡ rob_age (run_to 4).ooo 1 + 1)
    × ((es : List Dest) × (live (names (run_to 4).ooo) ≡ live (names o') ++ es))
    × (o'.rat ≡ replay (run_to 4).ooo.rrat (live (names o')))
    × IsSound (names o')
ooo_flush_after-restores_example =
    ooo_flush_after-restores 1 (run_to 4).ooo run_cycles-IsSound_example branch_in_flight

-- Two instructions wait, and both write register 5.
abbrev two_waiting : Ooo
two_waiting = record o {
  latch_id_rn = λ s. record { ir = record blank { rd = some 5; rs1 = some 5 }; valid = true };
}
  where
    o : Ooo
    o = ooo_init init_regs

two_waiting-IsSound : IsSound (names two_waiting)
two_waiting-IsSound = ooo_init-IsSound init_regs

ooo_stage_rn-IsSound_example : Renamed (ooo_stage_rn two_waiting) two_waiting
ooo_stage_rn-IsSound_example =
    ooo_stage_rn-IsSound two_waiting two_waiting-IsSound (λ s. omega arith)

-- A word waits in the store buffer.
abbrev one_store : Ooo
one_store = record o {
  sbuf = λ i. record { addr = 0x8000_0010; data_word = 0x1122_3344; width = 4; valid = true };
  sbuf_count = 1;
}
  where
    o : Ooo
    o = ooo_init init_regs

-- A load of its upper half
abbrev upper_half : IrInst
upper_half = record blank { mem_addr = 0x8000_0012; mem_width = 2; mem_sign = false }

one_store-AllClear : AllClear 0x8000_0012 2 (pending one_store 0)
unfolding ooo_init sbuf_pending rob_pending
one_store-AllClear =
    (covers (omega arith) (omega arith) (omega arith) (omega arith) (omega arith), tt)

load_value-drain_example :
    load_value one_store 0 upper_half (le_read 2 program 0x8000_0012)
    ≡ extend_load false 2 (le_read 2 (drain (pending one_store 0) program) 0x8000_0012)
load_value-drain_example =
    load_value-drain one_store 0 upper_half program half (omega arith) one_store-AllClear

forwarded_half : load_value one_store 0 upper_half 0 ≡ 0x1122
unfolding ooo_init load_value scan_sbuf scan_rob stlf_try extend_load
forwarded_half = refl

-- A load of eight bytes, of which the store has four, takes none of them.
stale_double :
    load_value one_store 0
      (record blank { mem_addr = 0x8000_0010; mem_width = 8; mem_sign = false })
      7
    ≡ 7
unfolding ooo_init load_value scan_sbuf scan_rob stlf_try extend_load
stale_double = refl

abbrev no_misses : ℕ → MshrEntry
no_misses i = record { valid = false; line_addr = 0; cycles_rem = 0 }

abbrev one_miss : ℕ → MshrEntry
one_miss = (mshr_find_or_alloc no_misses 0x8000_0040 40).1

one_miss-IsUnique : IsUnique one_miss
one_miss-IsUnique =
    (mshr_find_or_alloc-IsUnique no_misses 0x8000_0040 40 (λ line i j hi hj p q. cc)).1

mshr_find_or_alloc-IsUnique_example :
    Granted one_miss 0x8000_0040 8 (mshr_find_or_alloc one_miss 0x8000_0040 8)
    × IsUnique (mshr_find_or_alloc one_miss 0x8000_0040 8).1
mshr_find_or_alloc-IsUnique_example =
    mshr_find_or_alloc-IsUnique one_miss 0x8000_0040 8 one_miss-IsUnique
