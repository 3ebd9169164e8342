-- ===== src/Cpu/Csr/Protection.antt =====
-- The verdict of `pmp_check`: the lowest entry that holds the address decides.
use sustemu.Base.{
  ℕ, zero, suc, ◌+◌, ◌≤◌, ◌<◌, ◌≡◌, refl, sym, ◌∙◌, ap, subst, Bool, true, false, Option, some,
  none, arith, ◌==◌, if◌then◌else◌, Bool-cases, inl, inr, ==→eq,
}
use sustemu.Cpu.Csr.Table.{Hart, machine, fail}
use sustemu.Cpu.Csr.Pmp.{pmp_matches, pmp_grants, pmp_scan, pmp_check}

module _ (h : Hart) (addr : ℕ) (x w : Bool) where
  pmp_scan_first :
      (n i j : ℕ)
      → i ≤ j
      → j < i + n
      → pmp_matches h j addr ≡ true
      → ((k : ℕ) → i ≤ k → k < j → pmp_matches h k addr ≡ false)
      → pmp_scan n i h addr x w ≡ some (pmp_grants h.priv_level (h.pmpcfg j) x w)
  unfolding pmp_scan
  pmp_scan_first zero i j lo hi m before = absurd (omega arith)
  pmp_scan_first (suc n) i j lo hi m before = elim (Bool-cases (i == j)) [
    | inl e ↦
        subst (λ k. pmp_scan (suc n) i h addr x w ≡ some (pmp_grants h.priv_level (h.pmpcfg k) x w))
          (==→eq i j e) (rw (subst (λ k. pmp_matches h k addr ≡ true) (sym (==→eq i j e)) m) refl)
    | inr e ↦ rw (before i (omega arith) (ground arith)) (
        pmp_scan_first n (i + 1) j (ground arith) (omega arith) m
          (λ k a b. before k (omega arith) b))
  ]

  pmp_scan-none :
      (n i : ℕ)
      → ((k : ℕ) → i ≤ k → k < i + n → pmp_matches h k addr ≡ false)
      → pmp_scan n i h addr x w ≡ none
  unfolding pmp_scan
  pmp_scan-none zero i no_match = refl
  pmp_scan-none (suc n) i no_match =
      rw (no_match i (omega arith) (omega arith))
        (pmp_scan-none n (i + 1) (λ k a b. no_match k (omega arith) (omega arith)))

  decide : Option Bool → Bool × Hart
  decide (some true) = (true, h)
  decide (some false) = (false, fail h)
  decide none = (false, fail h)

  decide-some : (b : Bool) → decide (some b) ≡ (if b then (true, h) else (false, fail h))
  unfolding decide
  decide-some true = refl
  decide-some false = refl

  below_machine : h.priv_level < machine → pmp_check h addr x w ≡ decide (pmp_scan 8 0 h addr x w)
  unfolding pmp_check decide
  below_machine lv = elim (Bool-cases (h.pmp_on_count == 0)) [
    | inl e ↦
        rw (e, user_level) (by_cases (h.priv_level == machine) user_level (pmp_scan 8 0 h addr x w))
    | inr e ↦ rw e (by_cases (h.priv_level == machine) user_level (pmp_scan 8 0 h addr x w))
  ]
    where
      user_level : (h.priv_level == machine) ≡ false
      user_level = ground arith

      by_cases :
          (b : Bool)
          → b ≡ false
          → (o : Option Bool)
          → (elim o as (λ o. Bool × Hart) [
            | some true ↦ (true, h)
            | some false ↦ (false, fail h)
            | none ↦ if b then (true, h) else (false, fail h)
          ])
            ≡ decide o
      by_cases true p o = absurd cc
      by_cases false p (some true) = refl
      by_cases false p (some false) = refl
      by_cases false p none = refl

  -- Outside machine mode, the lowest entry that is on and holds the address decides: the access is
  -- allowed when that entry's permissions allow it, and otherwise the run is aborted.
  pub pmp_check-first_match :
      (j : ℕ)
      → h.priv_level < machine
      → j < 8
      → pmp_matches h j addr ≡ true
      → ((k : ℕ) → k < j → pmp_matches h k addr ≡ false)
      → pmp_check h addr x w
        ≡ (if pmp_grants h.priv_level (h.pmpcfg j) x w then (true, h) else (false, fail h))
  pmp_check-first_match j lv hj m before =
      below_machine lv
      ∙ ap decide (pmp_scan_first 8 0 j (omega arith) hj m (λ k _ b. before k b))
      ∙ decide-some (pmp_grants h.priv_level (h.pmpcfg j) x w)

  -- Outside machine mode, an address that no entry holds is refused and the run is aborted.
  pub pmp_check-no_match :
      h.priv_level < machine
      → ((k : ℕ) → k < 8 → pmp_matches h k addr ≡ false)
      → pmp_check h addr x w ≡ (false, fail h)
  unfolding decide
  pmp_check-no_match lv no_match =
      below_machine lv ∙ ap decide (pmp_scan-none 8 0 (λ k _ b. no_match k b))
