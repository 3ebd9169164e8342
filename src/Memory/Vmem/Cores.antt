-- ===== src/Memory/Vmem/Cores.antt =====
-- Two cores over one memory: the data accesses of src/memory/vmem.c, by either core in any order,
-- against one flat memory.
use sustemu.Base.{◌∙◌, ℕ, ◌≤◌, ◌≡◌, refl, Option, some, List, [], ◌∷◌, ◌>>=◌}
use sustemu.Memory.Bytes.{le_write}
use sustemu.Memory.Cache.Level.{Fits, RamBlock, block}
use sustemu.Memory.Cache.Fetch.{Bus}
use sustemu.Memory.Cache.Transparent.Client.{Request, load, store, run_flat}
use sustemu.Memory.Vmem.{
  System, vaddr_read, vaddr_write, vaddr_read_level, vaddr_fill_and_read, vaddr_probe_level,
}
use sustemu.Memory.Vmem.Agreed.{IsAgreed, IsAgreed-on_core, on_core}
use sustemu.Memory.Vmem.Accesses.{
  vaddr_read-IsAgreed, vaddr_write-IsAgreed, vaddr_read_level-IsAgreed,
  vaddr_fill_and_read-vaddr_read, vaddr_probe_level-IsAgreed,
}

-- What a core asks of its data cache: the functions of vmem.c that a load, a store or a unit of the
-- out-of-order engine calls
pub data Access : Type 0 where
  read : ℕ → ℕ → Access
  read_level : ℕ → ℕ → Access
  fill_and_read : ℕ → ℕ → Access
  probe : ℕ → Access
  write : ℕ → ℕ → ℕ → Access

-- It has at most 8 bytes and stays within one block of the guest's memory.
abbrev pub IsInBlock : Access → Type 0
IsInBlock (read a len) = RamBlock (block a) × Fits a len
IsInBlock (read_level a len) = RamBlock (block a) × Fits a len
IsInBlock (fill_and_read a len) = RamBlock (block a) × Fits a len
IsInBlock (probe a) = RamBlock (block a)
IsInBlock (write a len v) = RamBlock (block a) × Fits a len

-- An access and the core that makes it
abbrev pub Turn : Type 0
Turn = ℕ × Access

abbrev pub AllTurns : List Turn → Type 0
AllTurns [] = Unit {0}
AllTurns (t ∷ ts) = ((t.0 ≤ 1) × IsInBlock t.1) × AllTurns ts

-- What the accesses ask of a flat memory: a probe asks nothing.
abbrev pub requests : List Turn → List Request
requests [] = []
requests ((t, read a len) ∷ ts) = load a len ∷ requests ts
requests ((t, read_level a len) ∷ ts) = load a len ∷ requests ts
requests ((t, fill_and_read a len) ∷ ts) = load a len ∷ requests ts
requests ((t, probe a) ∷ ts) = requests ts
requests ((t, write a len v) ∷ ts) = store a len v ∷ requests ts

module _ {M : Type 0} (bus : Bus M) where
  -- The words that the reads return when the cores take turns in the order of the list
  pub run_cores : System M → List Turn → Option (List ℕ)
  run_cores s [] = some []
  run_cores s ((t, read a len) ∷ ts) =
      vaddr_read bus (on_core t s) a len >>= λ r. run_cores r.1 ts >>= λ vs. some (r.0 ∷ vs)
  run_cores s ((t, read_level a len) ∷ ts) =
      vaddr_read_level bus (on_core t s) a len >>= λ r. run_cores r.2 ts >>= λ vs. some (r.1 ∷ vs)
  run_cores s ((t, fill_and_read a len) ∷ ts) = vaddr_fill_and_read bus (on_core t s) a len >>= λ r.
      run_cores r.1 ts >>= λ vs. some (r.0 ∷ vs)
  run_cores s ((t, probe a) ∷ ts) = run_cores (vaddr_probe_level bus (on_core t s) a).1 ts
  run_cores s ((t, write a len v) ∷ ts) =
      vaddr_write bus (on_core t s) a len v >>= λ s'. run_cores s' ts

  -- Every interleaving of reads, timed reads, fills, probes and writes by the two cores, each of at
  -- most 8 bytes within a block of the guest's memory, from data caches that agree with a flat memory, returns exactly what
  -- the reads and writes return on that one flat memory.
  pub run_cores-flat :
      (ts : List Turn) (s : System M) (flat : ℕ → ℕ)
      → IsAgreed s flat
      → AllTurns ts
      → run_cores s ts ≡ some (run_flat flat (requests ts))
  unfolding run_cores run_flat
  run_cores-flat [] s flat g ok = refl
  run_cores-flat ((t, read a len) ∷ ts) s flat g ok =
      let g₁ = IsAgreed-on_core s flat t ok.0.0 g in
      let (s', e, g') = vaddr_read-IsAgreed bus (on_core t s) flat a len g₁ ok.0.1.0 ok.0.1.1 in
      rw (e, run_cores-flat ts s' flat g' ok.1) refl
  run_cores-flat ((t, read_level a len) ∷ ts) s flat g ok =
      let g₁ = IsAgreed-on_core s flat t ok.0.0 g in
      let (n, s', e, g') =
        vaddr_read_level-IsAgreed bus (on_core t s) flat a len g₁ ok.0.1.0 ok.0.1.1 in
      rw (e, run_cores-flat ts s' flat g' ok.1) refl
  run_cores-flat ((t, fill_and_read a len) ∷ ts) s flat g ok =
      let g₁ = IsAgreed-on_core s flat t ok.0.0 g in
      let (s', e, g') = vaddr_read-IsAgreed bus (on_core t s) flat a len g₁ ok.0.1.0 ok.0.1.1 in
      rw
        (
          vaddr_fill_and_read-vaddr_read bus (on_core t s) a len ∙ e,
          run_cores-flat ts s' flat g' ok.1,
        )
        refl
  run_cores-flat ((t, probe a) ∷ ts) s flat g ok =
      run_cores-flat ts (vaddr_probe_level bus (on_core t s) a).1 flat
        (vaddr_probe_level-IsAgreed bus (on_core t s) flat a (IsAgreed-on_core s flat t ok.0.0 g)
          ok.0.1)
        ok.1
  run_cores-flat ((t, write a len v) ∷ ts) s flat g ok =
      let g₁ = IsAgreed-on_core s flat t ok.0.0 g in
      let (s', e, g') = vaddr_write-IsAgreed bus (on_core t s) flat a len v g₁ ok.0.1.0 ok.0.1.1 in
      rw (e, run_cores-flat ts s' (le_write len flat a v) g' ok.1) refl
