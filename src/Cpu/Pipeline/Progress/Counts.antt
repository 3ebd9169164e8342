-- ===== src/Cpu/Pipeline/Progress/Counts.antt =====
-- What the stages do to the count of retired instructions and to the stall.
use sustemu.Base.{
  ℕ, zero, suc, ◌+◌, ◌%◌, ◌^◌, ◌≤◌, ◌≡◌, refl, Bool-cases, inl, inr, Bool, true, false, ltb, ◌==◌,
  ◌&&◌, not, if◌then◌else◌, if-cases, Post, Post-bind, Post-then, arith,
}
use sustemu.Cpu.Ir.Inst
use sustemu.Cpu.Ir.Inst.{IrInst, IrInstType}
use sustemu.Cpu.Ir.Exec.{ir_execute}
use sustemu.Cpu.Ir.MemAccess.{ir_mem_access, access_as, read_word}
use sustemu.Cpu.Ooo.Lsu.{level_to_lat}
use sustemu.Cpu.Ooo.Cycle.{is_control_raw}
use sustemu.Cpu.Pipeline.State.{Core, hold, latch, set_latch}
use sustemu.Cpu.Pipeline.Stages.{
  is_load, inv, redirect, flush, load_use, stall_miss, predict_next, stage_if, stage_id, stage_ex,
  stage_mem, stage_wb,
}
use sustemu.Cpu.Pipeline.Cycle.{rotate}
use sustemu.Memory.Vmem.{VirtualMemory}

module _ {S : Type 0} where
  abbrev pub Keeps : Core S → Core S → Type 0
  Keeps c c' =
      (c'.pipe_stats.insts ≡ c.pipe_stats.insts)
      × (c'.cpu_pipe.mem_stall_rem ≡ c.cpu_pipe.mem_stall_rem)

  abbrev pub KeepsAll : Core S → Core S → Type 0
  KeepsAll c c' = Keeps c c' × (c'.g_pipe_stalled ≡ c.g_pipe_stalled)

  redirect-Keeps : (b : Bool) (ir : IrInst) (c : Core S) → KeepsAll c (redirect b ir c)
  unfolding redirect flush
  redirect-Keeps true ir c =
      if-cases
        (λ (c' : Core S).
          KeepsAll c (if ir.dnpc == ir.bp_predicted_pc then c' else flush ir.dnpc c'))
        (is_control_raw ir.raw)
        (λ q.
          if-cases (KeepsAll c) (ir.dnpc == ir.bp_predicted_pc) (λ r. ((refl, refl), refl))
            (λ r. ((refl, refl), refl)))
        (λ q.
          if-cases (KeepsAll c) (ir.dnpc == ir.bp_predicted_pc) (λ r. ((refl, refl), refl))
            (λ r. ((refl, refl), refl)))
  redirect-Keeps false ir c =
      if-cases (KeepsAll c) (ir.dnpc == ir.snpc) (λ r. ((refl, refl), refl))
        (λ r. ((refl, refl), refl))

  pub stage_ex-Keeps : (b : Bool) (c : Core S) → Post (KeepsAll c) (stage_ex b c)
  unfolding stage_ex
  stage_ex-Keeps b c =
      if-cases (Post (KeepsAll c)) (not (latch c c.cpu_pipe.ex).valid) (λ q. ((refl, refl), refl))
        (λ q. Post-then (KeepsAll c) (ir_execute (latch c c.cpu_pipe.ex).ir c.sim) _ (λ r.
          redirect-Keeps b r.0 (
            set_latch c.cpu_pipe.ex (hold r.0)
              (record c { sim = if r.0.fault then inv r.1 else r.1 }))))

  pub stage_id-Keeps : (c : Core S) → Keeps c (stage_id c)
  unfolding stage_id
  stage_id-Keeps c =
      if-cases (Keeps c) (not (latch c c.cpu_pipe.id).valid) (λ q. (refl, refl))
        (λ q.
          if-cases (Keeps c) (load_use (latch c c.cpu_pipe.ex) (latch c c.cpu_pipe.id).ir)
            (λ r. (refl, refl)) (λ r. (refl, refl)))

  pub rotate-Keeps : (c : Core S) → Keeps c (rotate c)
  unfolding rotate
  rotate-Keeps c = if-cases (Keeps c) c.g_pipe_stalled (λ q. (refl, refl)) (λ q. (refl, refl))

  pub stage_wb-Counts :
      (c : Core S)
      → ((stage_wb c).pipe_stats.insts
          ≡ c.pipe_stats.insts + (if (latch c c.cpu_pipe.wb).valid then 1 else 0))
        × ((stage_wb c).cpu_pipe.mem_stall_rem ≡ c.cpu_pipe.mem_stall_rem)
        × ((stage_wb c).g_pipe_stalled ≡ c.g_pipe_stalled)
  unfolding stage_wb
  stage_wb-Counts c = elim (Bool-cases (latch c c.cpu_pipe.wb).valid) [
    | inl q ↦ rw q (refl, refl, refl)
    | inr q ↦ rw q (omega arith, refl, refl)
  ]

module _ {S : Type 0} (vm : VirtualMemory S) where
  level_to_lat-le : (n : ℕ) → level_to_lat n ≤ 40
  level_to_lat-le zero = omega arith
  level_to_lat-le (suc zero) = omega arith
  level_to_lat-le (suc (suc n)) = omega arith

  read_word-lat :
      (addr width : ℕ) (s : S) → Post (λ (r : ℕ × ℕ × S). r.1 ≤ 40) (read_word vm true addr width s)
  unfolding read_word
  read_word-lat addr width s =
      Post-then (λ (r : ℕ × ℕ × S). r.1 ≤ 40) (vm.vaddr_read_level s addr width) _
        (λ r. level_to_lat-le r.0)

  access_as-lat :
      (t : IrInstType) (ir : IrInst) (s : S)
      → Post (λ (r : IrInst × ℕ × S). r.1 ≤ 40) (access_as vm t true ir s)
  unfolding access_as
  access_as-lat Inst.itype_load ir s =
      Post-bind (λ (r : ℕ × ℕ × S). r.1 ≤ 40) (λ (r : IrInst × ℕ × S). r.1 ≤ 40)
        (read_word vm true ir.mem_addr ir.mem_width s) _ (read_word-lat ir.mem_addr ir.mem_width s)
        (λ r h. h)
  access_as-lat Inst.itype_store ir s =
      Post-then (λ (r : IrInst × ℕ × S). r.1 ≤ 40)
        (vm.vaddr_write s ir.mem_addr ir.mem_width ir.src2_val) _ (λ r. omega arith)
  access_as-lat Inst.itype_alu ir s = omega arith
  access_as-lat Inst.itype_branch ir s = omega arith
  access_as-lat Inst.itype_jal ir s = omega arith
  access_as-lat Inst.itype_jalr ir s = omega arith
  access_as-lat Inst.itype_lui ir s = omega arith
  access_as-lat Inst.itype_auipc ir s = omega arith
  access_as-lat Inst.itype_csr ir s = omega arith
  access_as-lat Inst.itype_system ir s = omega arith
  access_as-lat Inst.itype_fence ir s = omega arith
  access_as-lat Inst.itype_invalid ir s = omega arith

  -- After `stage_MEM` the stall is at most 39 cycles, if there was none before.
  abbrev pub Stalls : Core S → Core S → Type 0
  Stalls c c' =
      (c'.pipe_stats.insts ≡ c.pipe_stats.insts)
      × (c'.cpu_pipe.mem_stall_rem ≤ 39)
      × (c'.g_pipe_stalled ≡ c.g_pipe_stalled)

  pub stage_mem-Stalls :
      (c : Core S) → c.cpu_pipe.mem_stall_rem ≡ 0 → Post (Stalls c) (stage_mem vm c)
  unfolding stage_mem stall_miss ir_mem_access
  stage_mem-Stalls c h =
      if-cases (Post (Stalls c)) (not (latch c c.cpu_pipe.mem).valid)
        (λ q. (refl, omega (arith, h), refl))
        (λ q.
          Post-bind (λ (r : IrInst × ℕ × S). r.1 ≤ 40) (Stalls c)
            (access_as vm l.type true l c.vmem) _ (access_as-lat l.type l c.vmem)
            (λ r k.
              if-cases (Stalls c) (ltb 1 r.1 && is_load r.0.type)
                (λ p. (refl, omega (arith, k), refl)) (λ p. (refl, omega (arith, h), refl))))
    where
      l : IrInst
      l = (latch c c.cpu_pipe.mem).ir

  pub stage_if-Keeps : (b : Bool) (c : Core S) → Post (Keeps c) (stage_if vm b c)
  unfolding stage_if predict_next
  stage_if-Keeps b c =
      if-cases (Post (Keeps c)) c.g_pipe_stalled (λ q. (refl, refl))
        (λ q. Post-then (Keeps c) (vm.vaddr_ifetch c.vmem c.cpu_pipe.fetch_pc 4) _ (λ r.
          if-cases (Keeps c) (b && is_control_raw (r.0 % 2 ^ 32)) (λ p. (refl, refl))
            (λ p. (refl, refl))))
