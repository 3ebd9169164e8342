-- ===== src/Cpu/Ooo/Names.antt =====
-- Register renaming in src/cpu/ooo.c, seen from outside: which physical register stands for which
-- architectural one, and what the instructions in flight will change.
pub mod Counts
pub mod Live
pub mod Entering
pub mod Undoing
pub mod Leaving
pub mod Renaming
pub mod Flushing
pub mod Frame
pub mod Retiring
pub mod Executing
pub mod Loading
pub mod Running
pub mod Start
pub mod Reached
use sustemu.Base.{
  ℕ, zero, suc, ◌+◌, ◌-◌, ◌%◌, ◌<◌, ◌≤◌, ◌≡◌, Bool, Option, none, some, List, [], ◌∷◌, ltb, ◌==◌,
  if◌then◌else◌, ◌&&◌, update,
}
use sustemu.Base.Ring.{ring}
use sustemu.Cpu.Ooo.State.{Ooo, RobEntry, FreeList, rob_size, free_list_size}

-- What an instruction in flight does to the map: nothing, or architectural register r gets physical
-- register p in place of the old one. `broken` is an entry that C reads out of bounds.
pub data Dest : Type 0 where
  plain broken : Dest
  renamed : (r p old : ℕ) → Dest

unfoldable pub dest_of : Option ℕ → Option ℕ → Option ℕ → Dest
dest_of none p old = plain
dest_of (some zero) p old = plain
dest_of (some (suc r)) (some p) (some old) = renamed (suc r) p old
dest_of (some (suc r)) none old = broken
dest_of (some (suc r)) (some p) none = broken

abbrev pub dest : RobEntry → Dest
dest e = dest_of e.arch_rd e.phys_rd e.old_phys

-- The part of the engine that renaming is about
pub record Names : Type 0 where
  pub rat : ℕ → ℕ
  pub rrat : ℕ → ℕ
  pub freelist : FreeList
  pub rob_head : ℕ
  pub rob_tail : ℕ
  pub rob_count : ℕ
  pub dests : ℕ → Dest
  pub valids : ℕ → Bool

abbrev pub names : Ooo → Names
names o = record {
  rat = o.rat;
  rrat = o.rrat;
  freelist = o.freelist;
  rob_head = o.rob_head;
  rob_tail = o.rob_tail;
  rob_count = o.rob_count;
  dests = λ i. dest (o.rob i);
  valids = λ i. (o.rob i).valid;
}

-- The instructions in flight, the oldest first, and the free registers in the order of their use
abbrev pub live : Names → List Dest
live s = ring rob_size s.dests s.rob_head s.rob_count

abbrev pub free : Names → List ℕ
free s = ring free_list_size s.freelist.regs s.freelist.head s.freelist.count

-- The map after some instructions, from the map before them
pub replay : (ℕ → ℕ) → List Dest → ℕ → ℕ
replay m [] = m
replay m (plain ∷ ds) = replay m ds
replay m (broken ∷ ds) = replay m ds
replay m (renamed r p old ∷ ds) = replay (update m r p) ds

-- Every instruction superseded the register that the map held when it was renamed.
abbrev pub IsChain : (ℕ → ℕ) → List Dest → Type 0
IsChain m [] = Unit {0}
IsChain m (plain ∷ ds) = IsChain m ds
IsChain m (broken ∷ ds) = ⊥
IsChain m (renamed r p old ∷ ds) = (0 < r) × (r < 32) × (old ≡ m r) × IsChain (update m r p) ds

abbrev pub writers : List Dest → ℕ
writers [] = 0
writers (renamed r p old ∷ ds) = suc (writers ds)
writers (plain ∷ ds) = writers ds
writers (broken ∷ ds) = writers ds

-- How often a register occurs: in a list, among registers 1 to n of a map, and as the destination or
-- the superseded register of an instruction in flight
abbrev pub count : ℕ → List ℕ → ℕ
count p [] = 0
count p (x ∷ xs) = (if x == p then 1 else 0) + count p xs

abbrev pub count_map : ℕ → (ℕ → ℕ) → ℕ → ℕ
count_map p m zero = 0
count_map p m (suc n) = (if m (suc n) == p then 1 else 0) + count_map p m n

abbrev pub count_new : ℕ → List Dest → ℕ
count_new p [] = 0
count_new p (renamed r q old ∷ ds) = (if q == p then 1 else 0) + count_new p ds
count_new p (plain ∷ ds) = count_new p ds
count_new p (broken ∷ ds) = count_new p ds

abbrev pub count_old : ℕ → List Dest → ℕ
count_old p [] = 0
count_old p (renamed r q old ∷ ds) = (if old == p then 1 else 0) + count_old p ds
count_old p (plain ∷ ds) = count_old p ds
count_old p (broken ∷ ds) = count_old p ds

-- Everything that owns physical register p: the committed map, the free list, and the instructions
-- in flight
abbrev pub owners : ℕ → Names → ℕ
owners p s = count_map p s.rrat 31 + (count p (free s) + count_new p (live s))

-- Registers 1 to 63 are handed out; register 0 stands for architectural register 0.
abbrev pub share : ℕ → ℕ
share p = if ltb 0 p && ltb p 64 then 1 else 0

-- Renaming is sound: both queues are where their counts say, the map is the committed map with the
-- instructions in flight replayed, and every physical register but 0 has
-- exactly one owner.
pub record IsSound (s : Names) : Type 0 where
  pub rob_head_in : s.rob_head < 32
  pub rob_count_in : s.rob_count ≤ 32
  pub rob_tail_at : s.rob_tail ≡ (s.rob_head + s.rob_count) % 32
  pub free_head_in : s.freelist.head < 64
  pub free_tail_at : s.freelist.tail ≡ (s.freelist.head + s.freelist.count) % 64
  pub filled : (i : ℕ) → s.valids i ≡ (ltb i 32 && ltb ((i + 32 - s.rob_head) % 32) s.rob_count)
  pub chain : IsChain s.rrat (live s)
  pub map : s.rat ≡ replay s.rrat (live s)
  pub balance : s.freelist.count + writers (live s) ≡ 32
  pub once : (p : ℕ) → owners p s ≡ share p
