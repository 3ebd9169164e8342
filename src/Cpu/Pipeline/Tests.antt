-- ===== src/Cpu/Pipeline/Tests.antt =====
-- Runs of the pipeline on a flat memory with a small program.
use sustemu.Cpu.Pipeline.Progress.Rate.{run_pipeline-rate}
use sustemu.Base.{ℕ, ◌+◌, ◌*◌, ◌≤◌, ◌≡◌, refl, Bool, true, false, Option, none, some, List, [], ◌∷◌}
use sustemu.Memory.Bytes.{le_read, le_write}
use sustemu.Cpu.State.{init_regs}
use sustemu.Cpu.Ir.Tests.{boot_sim, blank}
use sustemu.Cpu.Ir.Decode.{ir_decode, imm_i, imm_b, pick_op_imm, pick_branch, pick_load}
use sustemu.Cpu.Ir.Exec.{ir_execute, ir_writeback, dispatch, extend_load}
use sustemu.Cpu.Ir.Alu.{exec_addi}
use sustemu.Cpu.Ir.Access.{exec_beq, exec_lb, exec_inv}
use sustemu.Cpu.Ir.MemAccess.{ir_mem_access, access_as, read_word}
use sustemu.Cpu.Bpred.Model.{bpred_init}
use sustemu.Cpu.Ooo.Tests.{flat, program}
use sustemu.Cpu.Pipeline.State.{Core, latch}
use sustemu.Cpu.Pipeline.Stages.{
  read_registers, forward, load_use, operands, stage_wb, stall_miss, flush, redirect, stage_ex,
  stage_id, predict_next, stage_mem, stage_if,
}
use sustemu.Cpu.Pipeline.Cycle.{pipeline_init, rotate, advance, cycle_with, pipeline_cycle}
use sustemu.Cpu.Pipeline.Order.Reached.{IsStep, run_pipeline, run_pipeline-retires}

abbrev fresh_core : Core (ℕ → ℕ)
fresh_core = record {
  cpu_pipe = record {
    id = 0;
    ex = 0;
    mem = 0;
    wb = 0;
    slots = λ i. record { ir = blank; valid = false };
    fetch_pc = 0;
    mem_stall_rem = 0;
  };
  pipe_stats = record {
    cycles = 0;
    insts = 0;
    stall_load_use = 0;
    stall_control = 0;
    stall_cache_miss = 0;
  };
  cpu = init_regs;
  sim = boot_sim;
  vmem = program;
  bpred = bpred_init;
  g_pipe_stalled = false;
  g_fetch_slot = 0;
}

abbrev reached_core : Option (Core (ℕ → ℕ)) → Core (ℕ → ℕ)
reached_core none = fresh_core
reached_core (some c) = c

-- The core after n cycles
core_after : ℕ → Core (ℕ → ℕ)
core_after n = reached_core (run_pipeline flat false n (pipeline_init false fresh_core))

abbrev values : Core (ℕ → ℕ) → List ℕ
values c =
    c.cpu.gpr 1
    ∷ c.cpu.gpr 2
    ∷ c.cpu.gpr 3
    ∷ c.cpu.pc
    ∷ c.pipe_stats.insts
    ∷ c.pipe_stats.stall_control
    ∷ []

-- The jump skips the second addition, and the third one reads the first one's result.
three_retired : values (core_after 8) ≡ (5 ∷ 0 ∷ 6 ∷ 0x8000_0010 ∷ 3 ∷ 1 ∷ [])
unfolding core_after init_regs run_pipeline le_read le_write ir_decode imm_i imm_b pick_op_imm
    pick_branch pick_load ir_execute ir_writeback dispatch extend_load exec_addi exec_beq exec_lb
    exec_inv ir_mem_access access_as read_word read_registers forward load_use operands stage_wb
    stall_miss flush redirect stage_ex stage_id predict_next stage_mem stage_if pipeline_init rotate
    advance cycle_with pipeline_cycle
three_retired = refl

is_some : Option (Core (ℕ → ℕ)) → Bool
is_some none = false
is_some (some c) = true

some_of : (r : Option (Core (ℕ → ℕ))) → is_some r ≡ true → r ≡ some (reached_core r)
unfolding is_some
some_of none e = cc
some_of (some c) e = refl

-- After seven cycles the third instruction is in WB.
survives : is_some (run_pipeline flat false 7 (pipeline_init false fresh_core)) ≡ true
unfolding is_some init_regs run_pipeline le_read le_write ir_decode imm_i imm_b pick_op_imm
    pick_branch pick_load ir_execute ir_writeback dispatch extend_load exec_addi exec_beq exec_lb
    exec_inv ir_mem_access access_as read_word read_registers forward load_use operands stage_wb
    stall_miss flush redirect stage_ex stage_id predict_next stage_mem stage_if pipeline_init rotate
    advance cycle_with pipeline_cycle
survives = refl

in_wb : (latch (core_after 7) (core_after 7).cpu_pipe.wb).valid ≡ true
unfolding core_after init_regs run_pipeline le_read le_write ir_decode imm_i imm_b pick_op_imm
    pick_branch pick_load ir_execute ir_writeback dispatch extend_load exec_addi exec_beq exec_lb
    exec_inv ir_mem_access access_as read_word read_registers forward load_use operands stage_wb
    stall_miss flush redirect stage_ex stage_id predict_next stage_mem stage_if pipeline_init rotate
    advance cycle_with pipeline_cycle
in_wb = refl

seven_cycles : run_pipeline flat false 7 (pipeline_init false fresh_core) ≡ some (core_after 7)
unfolding core_after
seven_cycles = some_of (run_pipeline flat false 7 (pipeline_init false fresh_core)) survives

run_pipeline-retires_example :
    IsStep flat false
      (pipeline_init false fresh_core)
      7
      (core_after 7)
      (latch (core_after 7) (core_after 7).cpu_pipe.wb).ir
    × ((stage_wb (core_after 7)).cpu
        ≡ record (ir_writeback
            (latch (core_after 7) (core_after 7).cpu_pipe.wb).ir
            (core_after 7).cpu) { pc = (latch (core_after 7) (core_after 7).cpu_pipe.wb).ir.dnpc })
run_pipeline-retires_example =
    run_pipeline-retires flat 7 false fresh_core (core_after 7) seven_cycles in_wb

-- A run that is long enough for the rate to say something
survives_long : is_some (run_pipeline flat false 320 (pipeline_init false fresh_core)) ≡ true
unfolding is_some init_regs run_pipeline le_read le_write ir_decode imm_i imm_b pick_op_imm
    pick_branch pick_load ir_execute ir_writeback dispatch extend_load exec_addi exec_beq exec_lb
    exec_inv ir_mem_access access_as read_word read_registers forward load_use operands stage_wb
    stall_miss flush redirect stage_ex stage_id predict_next stage_mem stage_if pipeline_init rotate
    advance cycle_with pipeline_cycle
survives_long = refl

many_cycles : run_pipeline flat false 320 (pipeline_init false fresh_core) ≡ some (core_after 320)
unfolding core_after
many_cycles = some_of (run_pipeline flat false 320 (pipeline_init false fresh_core)) survives_long

run_pipeline-rate_example : 320 ≤ 240 * (core_after 320).pipe_stats.insts + 200
run_pipeline-rate_example = run_pipeline-rate flat false 320 fresh_core (core_after 320) many_cycles
