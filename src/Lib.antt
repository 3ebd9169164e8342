-- ===== src/Lib.antt =====
-- SUSTemu is a simulator of RV64 machines: it decodes guest instructions (cpu/ir.c), executes them in a
-- functional mode, an in-order pipeline or an out-of-order engine, keeps control registers with
-- physical memory protection (cpu/csr.c), predicts branches (cpu/bpred.c, cpu/bpred2.c), reaches guest
-- memory through two levels of caches (memory/cache.c), and serves devices by memory-mapped registers
-- (device/). The paths below are those of the repository, below src/ and include/.
--
-- * Base holds the names, tests on numbers, arrays as functions, lists, signed integers and the
--   bitwise or of disjoint fields. Word holds the 64-bit operations of C that the source uses.
-- * Cpu/Ir models cpu/ir.c with include/cpu/ir.h and the immediates of include/cpu/decode.h: `IrInst`
--   is `IR_Inst`, `ir_decode` the decoder by one function for each opcode group, `exec_*` the executors
--   `ir_exec_*`, `ir_execute` the call through the function pointer, `ir_writeback` the write-back. Isa is
--   the instruction manual's encoding, which the proofs decode.
-- * Cpu/Csr models cpu/csr.c: `Hart` is the globals of that file with the run state, `priv_check`,
--   `set_csr`, `read_csr`, the traps and `pmp_check` are the functions of the same names. Cpu/Ftrace
--   models the call trace of monitor/elftl.c: `find_func` is `findFunc`, `add_ftrace` itself.
-- * Cpu/Bpred models both branch predictors: Model is cpu/bpred.c, Second is cpu/bpred2.c.
-- * Cpu/Ooo models cpu/ooo.c with include/cpu/ooo.h and include/cpu/exec_cfg.h: `Ooo` is `OOOState` with
--   the counters, `Machine` adds the registers, the predictors and the memory that the engine calls.
--   Rename, Flush, Wake, Mshr, Commit, Units, Lsu and Cycle hold the functions of the same names,
--   one for each stage of `ooo_cycle`. Names holds the proofs about renaming, where a circular buffer
--   is read as a list by Base/Ring; Stations those about the reservation stations and their
--   wake-up; Places those about where the instructions wait that have not executed. Stages says that
--   whole cycles keep what every stage keeps. Forwarding is about loads that take their bytes from
--   waiting stores.
-- * Cpu/Pipeline models cpu/pipeline.c: State holds the latches, named by their slots, Stages the five
--   stages, Cycle `pipeline_init` and `pipeline_cycle`. Order is about what the latches hold: Pointers
--   drops the pointers, Retire, Execute, Fetch and Rotate follow the order of the program through the
--   stages, Made and Makes where the instructions come from. Progress is about how far each instruction
--   is from retiring.
-- * Memory/Vmem models memory/vmem.c over the caches of two cores; `VirtualMemory` is what the engine
--   needs of it. Agreed, Accesses and Cores are about the data accesses of both cores in any order;
--   nothing is proved of the instruction caches of two cores, which no snoop reaches.
-- * Memory/Pmem models memory/pmem.c: an access reaches the guest's memory, the framebuffer or a device
--   of Memory/Mmio, which models memory/mmio.c with a device's callback as a function on the devices'
--   space and the rest of the world.
-- * Memory/Cache models memory/cache.c and memory/prefetch.c: `Hier` is a level-1 cache, the shared
--   level 2 and the memory below. Lines holds the data and the lookups, Fetch the block transfers,
--   Access the entry points, Snoop the coherence helpers. Level, Lookup, Install, Transfer and
--   Transparent hold the proofs: a level is a partial map from blocks to bytes, and the view of the
--   hierarchy is what the levels show over the memory.
-- * Device/Keyboard models the key queue of device/keyboard.c.
--
-- Conventions. Words are natural numbers, wrapped where C wraps; a pointer to a cache line is its set
-- and way; an array is a function of its index. `none` is a run that C leaves undefined or an assertion
-- that fails: a division by 0, a shift by 64 or more, an access that runs past its cache block or past
-- the guest's memory, an access of more than 8 bytes in the caches, an address without a device, a seventeenth map, a write past `pmpcfg`, the
-- assertions of the key queue. The bus behind the fallback of the block transfers (`paddr_read`,
-- `paddr_write`) is an argument of the caches, of which nothing is assumed; so is SDL's key map. The
-- scan of the device maps has as many steps as there are maps; the loop of a NAPOT
-- range has fuel 64, which is enough for the ones at the end of a 64-bit mask; the loop
-- that moves the tail of the reorder buffer back has fuel 32, one for each slot; every other loop runs
-- over a fixed number of ways, entries, slots or words. In the engine `none` is also the panic of a
-- faulted instruction that commits, and an access of the register file at -1.
--
-- Not modelled: the differential test, the traces and the reports of the out-of-order engine and its
-- `ooo_cycle_core`, the same parts of the pipeline, the multi-core stepping (cpu/core.c), the execution
-- loop (cpu/exec.c), the monitor's expressions, watchpoints and commands, the host's pointers behind
-- the guest's memory (guest_to_host, init_map), the devices that only copy to SDL, files or the clock,
-- and printing. The guest software under am/, litenes/, labs/ and test/ is not part of the simulator.
pub mod Base
pub mod Word
pub mod Memory
pub mod Cpu
pub mod Device
