-- ===== src/Memory/Vmem/Tests.antt =====
-- Two cores with fresh caches over a memory of sevens, behind a bus with no device.
use sustemu.Base.{ℕ, ◌+◌, ◌≡◌, refl, arith, some, List, [], ◌∷◌}
use sustemu.Memory.Bytes.{le_read, le_write}
use sustemu.Memory.Cache.Fetch.{Mem, Bus}
use sustemu.Memory.Cache.Transparent.Client.{run_flat}
use sustemu.Memory.Vmem.{System}
use sustemu.Memory.Vmem.Start.{two_fresh, two_fresh-IsAgreed}
use sustemu.Memory.Vmem.Cores.{
  read, read_level, fill_and_read, probe, write, Turn, AllTurns, requests, run_cores,
  run_cores-flat,
}

abbrev sevens : Mem ℕ
sevens = record { ram = λ a. 7; io = 0 }

abbrev silent : Bus ℕ
silent = record { paddr_read = λ m a len. (0, m); paddr_write = λ m a len v. m }

abbrev two_cores : System ℕ
two_cores = two_fresh sevens

abbrev start : ℕ
start = 0x8000_0000

-- Core 0 writes, core 1 reads it and writes over a part, core 0 looks for the block and reads the whole.
abbrev turns : List Turn
turns =
    (0, write start 4 300)
    ∷ (1, read start 2)
    ∷ (1, write (start + 1) 1 2)
    ∷ (0, probe start)
    ∷ (0, read_level start 4)
    ∷ (1, fill_and_read start 4)
    ∷ []

turns-AllTurns : AllTurns turns
turns-AllTurns = (
  (omega arith, ((omega arith, omega arith), omega arith)),
  (
    (omega arith, ((omega arith, omega arith), omega arith)),
    (
      (omega arith, ((omega arith, omega arith), omega arith)),
      (
        (omega arith, (omega arith, omega arith)),
        (
          (omega arith, ((omega arith, omega arith), omega arith)),
          ((omega arith, ((omega arith, omega arith), omega arith)), tt),
        ),
      ),
    ),
  ),
)

-- The flat memory's answers: 300, and twice 512 + 44.
turns_flat : run_flat sevens.ram (requests turns) ≡ 300 ∷ 556 ∷ 556 ∷ []
unfolding run_flat le_read le_write
turns_flat = refl

run_cores-flat_example :
    run_cores silent two_cores turns ≡ some (run_flat sevens.ram (requests turns))
run_cores-flat_example =
    run_cores-flat silent turns two_cores sevens.ram (two_fresh-IsAgreed sevens) turns-AllTurns
