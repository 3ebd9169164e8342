-- ===== src/Memory/Cache/Transparent/Tests.antt =====
-- Runs of the hierarchy: a fresh one over a memory of sevens, behind a bus with no device.
use sustemu.Base.{ℕ, ◌+◌, ◌%◌, ◌^◌, ◌≡◌, arith, some, List, [], ◌∷◌}
use sustemu.Memory.Bytes.{le_read, le_write}
use sustemu.Memory.Cache.Level.{RamBlock, block}
use sustemu.Memory.Cache.Fetch.{Mem, Bus, Hier}
use sustemu.Memory.Cache.Access.{cache_read, cache_write, cache_probe_level, cache_read_level}
use sustemu.Memory.Cache.Transparent.Probe.{
  IsSeenAs, cache_probe_level-IsSeenAs, cache_read_level-view,
}
use sustemu.Memory.Cache.Transparent.Fill.{view, IsCoherent}
use sustemu.Memory.Cache.Transparent.Entry.{cache_read-view, cache_write-view}
use sustemu.Memory.Cache.Transparent.Client.{
  fresh, fresh-IsCoherent, Request, load, store, AllAligned, run_flat, run_cache, run_cache-flat,
  cache_read-cache_write,
}

abbrev sevens : Mem ℕ
sevens = record { ram = λ a. 7; io = 0 }

abbrev silent : Bus ℕ
silent = record { paddr_read = λ m a len. (0, m); paddr_write = λ m a len v. m }

abbrev start : ℕ
start = 0x8000_0000

start-RamBlock : RamBlock (block start)
start-RamBlock = (omega arith, omega arith)

fresh-IsCoherent_example :
    IsCoherent (fresh sevens) × ((b : ℕ) → view (fresh sevens) b ≡ sevens.ram b)
fresh-IsCoherent_example = fresh-IsCoherent sevens

cache_read-view_example :
    (h' : Hier ℕ) × (cache_read silent (fresh sevens) start 4
      ≡ some (le_read 4 (view (fresh sevens)) start, h'))
    × IsCoherent h'
    × ((b : ℕ) → view h' b ≡ view (fresh sevens) b)
cache_read-view_example =
    cache_read-view silent (fresh sevens) start 4 (fresh-IsCoherent sevens).0 start-RamBlock
      (omega arith)

cache_write-view_example :
    (h' : Hier ℕ) × (cache_write silent (fresh sevens) start 4 300 ≡ some h')
    × IsCoherent h'
    × ((b : ℕ) → view h' b ≡ le_write 4 (view (fresh sevens)) start 300 b)
cache_write-view_example =
    cache_write-view silent (fresh sevens) start 4 300 (fresh-IsCoherent sevens).0 start-RamBlock
      (omega arith)

abbrev program : List Request
program = store start 4 300 ∷ load start 2 ∷ load (start + 64) 1 ∷ []

program-AllAligned : AllAligned program
program-AllAligned = (
  (start-RamBlock, omega arith),
  ((start-RamBlock, omega arith), (((omega arith, omega arith), omega arith), tt)),
)

run_cache-flat_example :
    run_cache silent (fresh sevens) program ≡ some (run_flat (view (fresh sevens)) program)
run_cache-flat_example =
    run_cache-flat silent program (fresh sevens) (fresh-IsCoherent sevens).0 program-AllAligned

cache_read-cache_write_example :
    run_cache silent (fresh sevens) (store start 2 70000 ∷ load start 2 ∷ [])
    ≡ some ((70000 % 256 ^ 2) ∷ [])
cache_read-cache_write_example =
    cache_read-cache_write silent (fresh sevens) start 2 70000 (fresh-IsCoherent sevens).0
      start-RamBlock (omega arith)

cache_probe_level-IsSeenAs_example :
    IsSeenAs (fresh sevens) (cache_probe_level silent (fresh sevens) start).1
cache_probe_level-IsSeenAs_example =
    cache_probe_level-IsSeenAs silent (fresh sevens) start (fresh-IsCoherent sevens).0

cache_read_level-view_example :
    (n : ℕ) × (h' : Hier ℕ) × (cache_read_level silent (fresh sevens) start 4
      ≡ some (n, le_read 4 (view (fresh sevens)) start, h'))
    × IsSeenAs (fresh sevens) h'
cache_read_level-view_example =
    cache_read_level-view silent (fresh sevens) start 4 (fresh-IsCoherent sevens).0 start-RamBlock
      (omega arith)
