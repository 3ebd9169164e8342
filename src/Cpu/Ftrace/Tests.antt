-- ===== src/Cpu/Ftrace/Tests.antt =====
-- A traced call inside a call.
use sustemu.Base.{◌≡◌, true, [], ◌∷◌}
use sustemu.Base.Int.{pos}
use sustemu.Cpu.Ftrace.{Ftrace}
use sustemu.Cpu.Ftrace.Nesting.{done, call, run_calls, run_calls-depth}

abbrev traced : Ftrace
traced = record {
  enabled = true;
  symtab = record { st_name = 1; st_value = 0x100; st_size = 0x40 } ∷ [];
  depth = pos 0;
  elements = [];
}

run_calls-depth_example :
    (run_calls (call 0x100 (call 0x120 done 0x104 done) 0x80 done) traced).depth ≡ pos 0
run_calls-depth_example = run_calls-depth (call 0x100 (call 0x120 done 0x104 done) 0x80 done) traced
