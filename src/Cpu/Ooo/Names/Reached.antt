-- ===== src/Cpu/Ooo/Names/Reached.antt =====
-- The states that the engine reaches from `ooo_init`, and what sound renaming means in them.
use sustemu.Base.{
  Post, ℕ, zero, suc, ◌+◌, ◌<◌, ◌≤◌, ◌≡◌, ◌≢◌, refl, sym, ap, subst, some, ◌==◌, arith, Bool-cases,
  inl, inr,
}
use sustemu.Cpu.Ooo.Machine.{Machine, Config}
use sustemu.Cpu.Ooo.Cycle.{ooo_init, init_machine}
use sustemu.Cpu.Ooo.Stages.{run_cycles, run_cycles-IsKept}
use sustemu.Cpu.Ooo.Names.{Names, names, live, free, count, count_map, count_old, share, IsSound}
use sustemu.Cpu.Ooo.Names.Counts.{count_map-replay}
use sustemu.Cpu.Ooo.Names.Retiring.{Good}
use sustemu.Cpu.Ooo.Names.Running.{Good-IsKept}
use sustemu.Cpu.Ooo.Names.Start.{ooo_init-IsSound}
use sustemu.Memory.Vmem.{VirtualMemory}

module _ {S : Type 0} (vm : VirtualMemory S) where
  pub init_machine-Good : (c : Config) (m : Machine S) → Good (init_machine c m)
  unfolding init_machine ooo_init
  init_machine-Good c m = record {
    sound = ooo_init-IsSound m.cpu;
    waiting = λ s. (omega arith, omega arith, omega arith);
    fetched = λ s. (omega arith, omega arith, omega arith);
  }

  -- After any number of cycles from `ooo_init` on any machine that the run survives, renaming is sound: the speculative
  -- map is the committed map with the instructions in flight replayed, each of these superseded the
  -- register that the map held before it, the two queues agree with their counts, an entry of the
  -- reorder buffer is valid exactly between its ends, and each of the physical registers 1 to 63 has one owner
  -- among the committed map, the free list and the instructions in flight.
  pub run_cycles-IsSound :
      (n : ℕ) (c : Config) (m m' : Machine S)
      → run_cycles vm n c (init_machine c m) ≡ some m'
      → IsSound (names m'.ooo)
  run_cycles-IsSound n c m m' e =
      (subst (Post Good) e (
        run_cycles-IsKept vm Good (Good-IsKept vm) n c (init_machine c m)
          (init_machine-Good c m))).sound

count_map-one : (p : ℕ) (m : ℕ → ℕ) (n r : ℕ) → 0 < r → r ≤ n → m r ≡ p → 0 < count_map p m n
count_map-one p m zero r h k e = absurd (omega arith)
count_map-one p m (suc n) r h k e = elim (Bool-cases (r == suc n)) [
  | inl q ↦ ground arith
  | inr q ↦ ground (arith, count_map-one p m n r h)
]

count_map-two :
    (p : ℕ) (m : ℕ → ℕ) (n r q : ℕ)
    → 0 < r
    → r < q
    → q ≤ n
    → m r ≡ p
    → m q ≡ p
    → 1 < count_map p m n
count_map-two p m zero r q h k l e f = absurd (omega arith)
count_map-two p m (suc n) r q h k l e f = elim (Bool-cases (q == suc n)) [
  | inl x ↦ ground (arith, count_map-one p m n r h)
  | inr x ↦ ground (arith, count_map-two p m n r q h k)
]

share_of_owned : (p a b c : ℕ) → a + b + c ≡ share p → 0 < a → (0 < p) × (p < 64) × (c ≡ 0)
share_of_owned p a b c e h = ground arith

share-le : (p : ℕ) → share p ≤ 1
share-le p = ground arith

module _ (s : Names) (k : IsSound s) where
  -- The owners of a register, by the speculative map
  speculative : (p : ℕ) → count_map p s.rat 31 + count_old p (live s) + count p (free s) ≡ share p
  speculative p = omega (
    arith,
    ap (λ m. count_map p m 31) k.map,
    count_map-replay p s.rrat (live s) k.chain,
    k.once p,
  )

  pub mapped :
      (r : ℕ) → 0 < r → r < 32 → (0 < s.rat r) × (s.rat r < 64) × (count (s.rat r) (free s) ≡ 0)
  mapped r h l =
      share_of_owned (s.rat r) (count_map (s.rat r) s.rat 31) (count_old (s.rat r) (live s))
        (count (s.rat r) (free s)) (speculative (s.rat r))
        (count_map-one (s.rat r) s.rat 31 r h (omega arith) refl)

  apart : (r q : ℕ) → 0 < r → r < q → q < 32 → s.rat r ≢ s.rat q
  apart r q h l m e = absurd (
      omega (
        arith,
        count_map-two (s.rat r) s.rat 31 r q h l (omega arith) refl (sym e),
        speculative (s.rat r),
        share-le (s.rat r),
      ))

module _ {S : Type 0} (vm : VirtualMemory S) where
  -- After any number of cycles from `ooo_init` on any machine that the run survives, no two of the
  -- registers 1 to 31 are mapped to one physical register, and the physical register of each is one of 1 to 63
  -- and not on the free list.
  pub run_cycles-apart :
      (n : ℕ) (c : Config) (m m' : Machine S) (r q : ℕ)
      → run_cycles vm n c (init_machine c m) ≡ some m'
      → 0 < r
      → r < q
      → q < 32
      → (m'.ooo.rat r ≢ m'.ooo.rat q)
        × (0 < m'.ooo.rat r)
        × (m'.ooo.rat r < 64)
        × (count (m'.ooo.rat r) (free (names m'.ooo)) ≡ 0)
        × (count (m'.ooo.rat q) (free (names m'.ooo)) ≡ 0)
  run_cycles-apart n c m m' r q e h l u =
      let k = run_cycles-IsSound vm n c m m' e in
      let a = mapped (names m'.ooo) k r h (omega arith) in
      let b = mapped (names m'.ooo) k q (omega arith) u in
      (apart (names m'.ooo) k r q h l u, a.0, a.1, a.2, b.2)
