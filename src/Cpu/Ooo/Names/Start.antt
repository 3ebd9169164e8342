-- ===== src/Cpu/Ooo/Names/Start.antt =====
-- Renaming after `ooo_init`.
use sustemu.Base.{
  ℕ, zero, suc, ◌<◌, ◌≤◌, ◌≡◌, refl, Bool, true, false, List, [], ◌∷◌, ◌==◌, if◌then◌else◌, ltb,
  ◌&&◌, arith, Bool-cases, inl, inr, all_below, all_below_sound, ==→eq,
}
use sustemu.Base.Ring.{ring}
use sustemu.Cpu.State.{CpuState}
use sustemu.Cpu.Ooo.Cycle.{ooo_init}
use sustemu.Cpu.Ooo.Names.{names, free, replay, count, count_map, owners, share, IsSound}

same_share :
    (cpu : CpuState) → all_below 64 (λ p. owners p (names (ooo_init cpu)) == share p) ≡ true
unfolding ooo_init ring
same_share cpu = refl

-- No register from 64 on is in the map or in the list of registers below 64.
count_map-above : (p : ℕ) (m : ℕ → ℕ) (n : ℕ) → 64 ≤ p → ((i : ℕ) → m i < 64) → count_map p m n ≡ 0
count_map-above p m zero h b = refl
count_map-above p m (suc n) h b = ground (arith, b (suc n), count_map-above p m n h b)

all_small : List ℕ → Bool
all_small [] = true
all_small (x ∷ xs) = ltb x 64 && all_small xs

count-above : (p : ℕ) (xs : List ℕ) → 64 ≤ p → all_small xs ≡ true → count p xs ≡ 0
unfolding all_small
count-above p [] h b = refl
count-above p (x ∷ xs) h b = ground (arith, count-above p xs h)

free_small : (cpu : CpuState) → all_small (free (names (ooo_init cpu))) ≡ true
unfolding ooo_init ring all_small
free_small cpu = refl

pub ooo_init-IsSound : (cpu : CpuState) → IsSound (names (ooo_init cpu))
unfolding ooo_init ring replay
ooo_init-IsSound cpu = record {
  rob_head_in = omega arith;
  rob_count_in = omega arith;
  rob_tail_at = refl;
  free_head_in = omega arith;
  free_tail_at = refl;
  filled = λ i. ground arith;
  chain = tt;
  map = refl;
  balance = refl;
  once = λ p. elim (Bool-cases (ltb p 64)) [
    | inl e ↦ ==→eq (owners p (names (ooo_init cpu))) (share p) (
        all_below_sound 64 (λ q. owners q (names (ooo_init cpu)) == share q) p (same_share cpu)
          (ground arith))
    | inr e ↦ omega (
      arith,
      count_map-above p (λ i. if ltb i 32 then i else 0) 31 (ground arith) (λ i. ground arith),
      count-above p (free (names (ooo_init cpu))) (ground arith) (free_small cpu),
      outside p e,
    )
  ];
}
  where
    outside : (p : ℕ) → ltb p 64 ≡ false → share p ≡ 0
    outside p e = ground arith
