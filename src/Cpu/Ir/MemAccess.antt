-- ===== src/Cpu/Ir/MemAccess.antt =====
-- `ir_mem_access` of src/cpu/ir.c: the load or store that an executed instruction stands for.
use sustemu.Base.{ℕ, Bool, Option, some, if◌then◌else◌, ◌>>=◌}
use sustemu.Cpu.Ir.Inst
use sustemu.Cpu.Ir.Inst.{IrInst, IrInstType}
use sustemu.Cpu.Ir.Exec.{extend_load}
use sustemu.Cpu.Ooo.State.{lat_l1_hit}
use sustemu.Cpu.Ooo.Lsu.{level_to_lat}
use sustemu.Memory.Vmem.{VirtualMemory}

-- The instruction, its latency, and the memory
abbrev pub Accessed : Type 0 → Type 0
Accessed S = Option (IrInst × ℕ × S)

abbrev pub loaded : IrInst → ℕ → IrInst
loaded ir raw = record ir { result = extend_load ir.mem_sign ir.mem_width raw }

module _ {S : Type 0} (vm : VirtualMemory S) where
  -- Whether `out_lat` is given: without it the latency that the caller holds stays 0.
  unfoldable pub read_word : Bool → ℕ → ℕ → S → Option (ℕ × ℕ × S)
  read_word timed addr width s =
      if timed
      then (vm.vaddr_read_level s addr width >>= λ r. some (r.1, level_to_lat r.0, r.2))
      else (vm.vaddr_read s addr width >>= λ r. some (r.0, 0, r.1))

  unfoldable pub access_as : IrInstType → Bool → IrInst → S → Accessed S
  access_as Inst.itype_load timed ir s =
      read_word timed ir.mem_addr ir.mem_width s >>= λ r. some (loaded ir r.0, r.1, r.2)
  access_as Inst.itype_store timed ir s =
      vm.vaddr_write s ir.mem_addr ir.mem_width ir.src2_val >>= λ s'.
      some (ir, if timed then lat_l1_hit else 0, s')
  access_as t timed ir s = some (ir, 0, s)

  unfoldable pub ir_mem_access : Bool → IrInst → S → Accessed S
  ir_mem_access timed ir s = access_as ir.type timed ir s
