-- ===== src/Cpu/Ooo/Names/Counts.antt =====
-- How often a physical register occurs in a map, before and after a change of it.
use sustemu.Base.{
  ℕ, zero, suc, ◌+◌, ◌<◌, ◌≤◌, ◌≡◌, refl, List, [], ◌∷◌, update, arith, ◌==◌, if◌then◌else◌,
}
use sustemu.Cpu.Ooo.Names.{
  Dest, plain, broken, renamed, replay, IsChain, count_new, count_old, count_map,
}

one : ℕ → ℕ → ℕ
one q p = if q == p then 1 else 0

count_map-above :
    (p : ℕ) (m : ℕ → ℕ) (r q n : ℕ) → n < r → count_map p (update m r q) n ≡ count_map p m n
count_map-above p m r q zero h = refl
count_map-above p m r q (suc n) h = ground (arith, count_map-above p m r q n (omega arith))

-- The new register is counted in place of the one that the map held.
pub count_map-update :
    (p : ℕ) (m : ℕ → ℕ) (r q n : ℕ)
    → 0 < r
    → r ≤ n
    → count_map p (update m r q) n + (if m r == p then 1 else 0)
      ≡ count_map p m n + (if q == p then 1 else 0)
count_map-update p m r q zero h k = absurd (omega arith)
count_map-update p m r q (suc n) h k =
    ground (arith, count_map-above p m (suc n) q n, count_map-update p m r q n h)

-- Over a whole chain: what the instructions supersede is what the map loses.
pub count_map-replay :
    (p : ℕ) (m : ℕ → ℕ) (ds : List Dest)
    → IsChain m ds
    → count_map p (replay m ds) 31 + count_old p ds ≡ count_map p m 31 + count_new p ds
unfolding replay
count_map-replay p m [] c = refl
count_map-replay p m (plain ∷ ds) c = count_map-replay p m ds c
count_map-replay p m (broken ∷ ds) c = absurd c
count_map-replay p m (renamed r q old ∷ ds) c = rw c.2 (
    omega (
      arith,
      count_map-update p m r q 31 c.0 (omega arith),
      count_map-replay p (update m r q) ds c.3,
    ))
