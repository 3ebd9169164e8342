-- ===== src/Cpu/Pipeline/Progress/Rate.antt =====
-- The rate at which the pipeline retires instructions.
use sustemu.Base.{
  ℕ, zero, suc, ◌+◌, ◌*◌, ◌≤◌, ◌≡◌, refl, ◌∙◌, subst, Bool, true, false, some, if◌then◌else◌, Post,
  Post-bind, Post-both, Post-mono, arith,
}
use sustemu.Cpu.Pipeline.State.{Core}
use sustemu.Cpu.Pipeline.Stages.{stage_if, stage_id, stage_ex, stage_mem, stage_wb}
use sustemu.Cpu.Pipeline.Cycle.{begin, rotate, advance, cycle_with, pipeline_cycle, pipeline_init}
use sustemu.Cpu.Pipeline.Order.{View, view}
use sustemu.Cpu.Pipeline.Order.Pointers.{IsApart}
use sustemu.Cpu.Pipeline.Order.Retire.{Mid}
use sustemu.Cpu.Pipeline.Order.Rotate.{IsReady, pipeline_cycle-IsReady}
use sustemu.Cpu.Pipeline.Order.Reached.{run_pipeline, pipeline_init-IsReady}
use sustemu.Cpu.Pipeline.Progress.{distance, rank}
use sustemu.Cpu.Pipeline.Progress.Occupied.{
  Here, IsFull, Moved, stage_wb-Here, stage_mem-Here, stage_ex-Here, stage_id-IsMoving,
  stage_if-IsFull, rotate-Moved,
}
use sustemu.Cpu.Pipeline.Progress.Counts.{
  Keeps, KeepsAll, Stalls, stage_wb-Counts, stage_mem-Stalls, stage_ex-Keeps, stage_id-Keeps,
  stage_if-Keeps, rotate-Keeps,
}
use sustemu.Memory.Vmem.{VirtualMemory}

distance-le : (w x e i : Bool) → distance w x e i ≤ 5
distance-le true x e i = omega arith
distance-le false true e i = omega arith
distance-le false false true i = omega arith
distance-le false false false true = omega arith
distance-le false false false false = omega arith

-- A cycle retires an instruction, or the oldest one comes nearer by more than any stall.
nearer :
    (n s : ℕ) (w x e i w' x' e' i' : Bool)
    → s ≤ 39
    → w' ≡ x
    → x' ≡ e
    → (e ≡ false → (e' ≡ i) × (i' ≡ true))
    → 240 * n + 1 + (40 * distance w' x' e' i' + s)
      ≤ 240 * (n + (if w then 1 else 0)) + 40 * distance w x e i
nearer n s true x e i w' x' e' i' h p q r = omega (arith, distance-le w' x' e' i')
nearer n s false true e i w' x' e' i' h p q r = rw p (omega arith)
nearer n s false false true i w' x' e' i' h p q r = rw (p, q) (omega arith)
nearer n s false false false true w' x' e' i' h p q r = rw (p, q, (r refl).0) (omega arith)
nearer n s false false false false w' x' e' i' h p q r =
    rw (p, q, (r refl).0, (r refl).1) (omega arith)

module _ {S : Type 0} (vm : VirtualMemory S) (b : Bool) where
  -- Retired instructions pay for cycles.
  abbrev Pays : Core S → Core S → Type 0
  Pays c c' = 240 * c.pipe_stats.insts + 1 + rank c' ≤ 240 * c'.pipe_stats.insts + rank c

  advance-Pays :
      (c : Core S)
      → IsApart c.cpu_pipe
      → c.cpu_pipe.mem_stall_rem ≡ 0
      → Post (Pays c) (advance vm b c)
  unfolding advance
  advance-Pays c a z =
      Post-bind (λ (d : Core S). Mid (Here vm b x e i) d × Stalls vm c₀ d) (Pays c)
        (stage_mem vm c₀) _
        (Post-both (Mid (Here vm b x e i)) (Stalls vm c₀) (stage_mem vm c₀)
          (stage_mem-Here vm b x e i c₀ (stage_wb-Here vm b x e i (begin c) start))
          (stage_mem-Stalls vm c₀ (n.1 ∙ z)))
        (λ c₁ (m₁, s₁).
          Post-bind (λ (d : Core S). Mid (Here vm b x e i) d × KeepsAll c₁ d) (Pays c)
            (stage_ex b c₁) _
            (Post-both (Mid (Here vm b x e i)) (KeepsAll c₁) (stage_ex b c₁)
              (stage_ex-Here vm b x e i c₁ m₁) (stage_ex-Keeps b c₁))
            (λ c₂ (m₂, s₂).
              Post-bind (λ (d : Core S). IsFull vm b x e i d × Keeps (stage_id c₂) d) (Pays c)
                (stage_if vm b (stage_id c₂)) _
                (Post-both (IsFull vm b x e i) (Keeps (stage_id c₂)) (stage_if vm b (stage_id c₂))
                  (stage_if-IsFull vm b x e i (stage_id c₂)
                    (stage_id-IsMoving vm b x e i c₂ m₂ (s₂.1 ∙ s₁.2 ∙ n.2)))
                  (stage_if-Keeps vm b (stage_id c₂)))
                (λ c₃ (f, s₃).
                  paid c₃ (rotate-Moved vm b x e i c₃ f)
                    (s₃.0 ∙ (stage_id-Keeps c₂).0 ∙ s₂.0.0 ∙ s₁.0 ∙ n.0)
                    (omega (arith, s₃.1, (stage_id-Keeps c₂).1, s₂.0.1, s₁.1)))))
    where
      v : View
      v = view c

      x : Bool
      x = v.mem.valid

      e : Bool
      e = v.ex.valid

      i : Bool
      i = v.id.valid

      c₀ : Core S
      c₀ = stage_wb (begin c)

      start : Mid (Here vm b x e i) (begin c)
      start = record { apart = a; slot = refl; holds = (refl, refl, λ q. refl) }

      n :
          (c₀.pipe_stats.insts ≡ c.pipe_stats.insts + (if v.wb.valid then 1 else 0))
          × (c₀.cpu_pipe.mem_stall_rem ≡ c.cpu_pipe.mem_stall_rem)
          × (c₀.g_pipe_stalled ≡ false)
      n = stage_wb-Counts (begin c)

      paid :
          (c₃ : Core S)
          → Moved vm b x e i (view (rotate c₃))
          → c₃.pipe_stats.insts ≡ c.pipe_stats.insts + (if v.wb.valid then 1 else 0)
          → c₃.cpu_pipe.mem_stall_rem ≤ 39
          → Pays c (rotate c₃)
      paid c₃ (h, k, g) q s = omega (
        arith,
        z,
        q,
        rotate-Keeps c₃,
        nearer c.pipe_stats.insts c₃.cpu_pipe.mem_stall_rem v.wb.valid x e i w'.wb.valid
            w'.mem.valid w'.ex.valid w'.id.valid s h k g,
      )
        where
          w' : View
          w' = view (rotate c₃)

  cycle_with-Pays :
      (n : ℕ) (c : Core S)
      → IsApart c.cpu_pipe
      → c.cpu_pipe.mem_stall_rem ≡ n
      → Post (Pays c) (cycle_with vm b n c)
  unfolding cycle_with
  cycle_with-Pays zero c a z =
      Post-bind (Pays c) (Pays c) (advance vm b c) _ (advance-Pays c a z) (λ c' p. p)
  cycle_with-Pays (suc n) c a z = omega (arith, z)

  pipeline_cycle-Pays : (c : Core S) → IsApart c.cpu_pipe → Post (Pays c) (pipeline_cycle vm b c)
  unfolding pipeline_cycle
  pipeline_cycle-Pays c a = cycle_with-Pays c.cpu_pipe.mem_stall_rem c a refl

  abbrev Paid : ℕ → Core S → Core S → Type 0
  Paid n c c' = 240 * c.pipe_stats.insts + n + rank c' ≤ 240 * c'.pipe_stats.insts + rank c

  abbrev Running : ℕ → Core S → Core S → Type 0
  Running n c d = IsReady b d × Paid n c d

  run_pipeline-Pays :
      (n : ℕ) (c : Core S) → IsReady b c → Post (Running n c) (run_pipeline vm b n c)
  unfolding run_pipeline
  run_pipeline-Pays zero c r = (r, omega arith)
  run_pipeline-Pays (suc n) c r =
      Post-bind (Running n c) (Running (suc n) c) (run_pipeline vm b n c) _
        (run_pipeline-Pays n c r)
        (λ d (q, p).
          Post-mono (λ (e : Core S). IsReady b e × Pays d e) (Running (suc n) c)
            (pipeline_cycle vm b d) (λ e (q', p'). (q', omega (arith, p, p')))
            (Post-both (IsReady b) (Pays d) (pipeline_cycle vm b d)
              (pipeline_cycle-IsReady vm b d q) (pipeline_cycle-Pays d q.apart)))

  -- From `pipeline_init` on, n cycles that the run survives retire at least (n - 200) / 240 instructions.
  pub run_pipeline-rate :
      (n : ℕ) (c c' : Core S)
      → run_pipeline vm b n (pipeline_init b c) ≡ some c'
      → n ≤ 240 * c'.pipe_stats.insts + 200
  unfolding pipeline_init
  run_pipeline-rate n c c' h = omega (
    arith,
    (subst (Post (Running n (pipeline_init b c))) h
        (run_pipeline-Pays n (pipeline_init b c) (pipeline_init-IsReady vm b c))).1,
  )
