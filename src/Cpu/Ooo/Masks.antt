-- ===== src/Cpu/Ooo/Masks.antt =====
-- Bit masks: the lowest set bit and the number of bits, which the free mask of the stations uses.
use sustemu.Base.{
  ℕ, zero, suc, ◌+◌, ◌<◌, ◌≤◌, ◌≡◌, refl, ◌∙◌, ap, Bool, true, false, some, update, arith, ◌==◌,
  to_int, if◌then◌else◌, Bool-cases, inl, inr, ◌⊎◌, ne→==, ==→eq, ==→ne,
}
use sustemu.Cpu.Ooo.Rename.{lowest_from, popcount}

-- What a set bit that is found satisfies
abbrev pub IsLowest : ℕ → ℕ → (ℕ → Bool) → ℕ → Type 0
IsLowest n i m s = (lowest_from n i m ≡ some s) × (m s ≡ true) × (i ≤ s) × (s < i + n)

pub IsLowest-cases :
    (n i : ℕ) (m : ℕ → Bool)
    → ((j : ℕ) → i ≤ j → j < i + n → m j ≡ false) ⊎ ((s : ℕ) × IsLowest n i m s)
unfolding lowest_from
IsLowest-cases zero i m = inl (λ j a b. absurd (omega arith))
IsLowest-cases (suc n) i m = elim (Bool-cases (m i)) [
  | inl e ↦ inr (i, (rw e refl, e, omega arith, omega arith))
  | inr e ↦ elim (IsLowest-cases n (i + 1) m) [
    | inr (s, (f, t, a, b)) ↦ inr (s, (rw (e, f) refl, t, omega arith, omega arith))
    | inl h ↦ inl (λ j a b. elim (Bool-cases (j == i)) [
      | inl q ↦ ap m (==→eq j i q) ∙ e
      | inr q ↦ let ne : (j ≡ i → ⊥) = ==→ne j i q in h j (omega arith) (omega arith)
    ])
  ]
]

pub popcount-none : (n : ℕ) (m : ℕ → Bool) → ((j : ℕ) → j < n → m j ≡ false) → popcount n m ≡ 0
unfolding popcount
popcount-none zero m h = refl
popcount-none (suc n) m h =
    rw (h n (omega arith), popcount-none n m (λ j a. h j (omega arith))) refl

popcount-above :
    (n s : ℕ) (m : ℕ → Bool) (b : Bool) → n ≤ s → popcount n (update m s b) ≡ popcount n m
unfolding popcount
popcount-above zero s m b h = refl
popcount-above (suc n) s m b h =
    rw (popcount-above n s m b (omega arith), ne→== n s (λ e. omega arith)) refl

pub popcount-clear :
    (n s : ℕ) (m : ℕ → Bool) → s < n → m s ≡ true → popcount n (update m s false) + 1 ≡ popcount n m
unfolding popcount
popcount-clear zero s m h t = absurd (omega arith)
popcount-clear (suc n) s m h t = elim (Bool-cases (n == s)) [
  | inl e ↦
      rw (popcount-above n s m false (omega (arith, ==→eq n s e)), e, ap m (==→eq n s e) ∙ t)
        (omega arith)
  | inr e ↦
      let ne : (n ≡ s → ⊥) = ==→ne n s e in
      rw e (omega (arith, popcount-clear n s m (omega arith) t))
]

pub popcount-le : (n : ℕ) (m : ℕ → Bool) → popcount n m ≤ n
unfolding popcount
popcount-le zero m = omega arith
popcount-le (suc n) m = ground (arith, popcount-le n m)

-- A free slot is found as long as the count says that there is one.
pub IsLowest-popcount : (n : ℕ) (m : ℕ → Bool) → 0 < popcount n m → (s : ℕ) × IsLowest n 0 m s
IsLowest-popcount n m h = elim (IsLowest-cases n 0 m) [
  | inr r ↦ r
  | inl f ↦ absurd (omega (arith, popcount-none n m (λ j a. f j (omega arith) (omega arith))))
]

pub popcount-ext :
    (n : ℕ) (m m' : ℕ → Bool) → ((j : ℕ) → j < n → m j ≡ m' j) → popcount n m ≡ popcount n m'
unfolding popcount
popcount-ext zero m m' h = refl
popcount-ext (suc n) m m' h =
    rw (h n (omega arith), popcount-ext n m m' (λ j a. h j (omega arith))) refl

-- One bit of a mask changes.
popcount-update :
    (n s : ℕ) (m : ℕ → Bool) (b : Bool)
    → s < n
    → popcount n (update m s b) + to_int (m s) ≡ popcount n m + to_int b
unfolding popcount
popcount-update zero s m b h = absurd (omega arith)
popcount-update (suc n) s m b h = elim (Bool-cases (n == s)) [
  | inl e ↦
      rw (popcount-above n s m b (omega (arith, ==→eq n s e)), e)
        (omega (arith, ap (λ k. to_int (m k)) (==→eq n s e)))
  | inr e ↦
      let ne : (n ≡ s → ⊥) = ==→ne n s e in
      rw e (omega (arith, popcount-update n s m b (omega arith)))
]

-- One element of an array changes, of which a property is counted.
pub popcount-put :
    {X : Type 0} (p : X → Bool) (n s : ℕ) (f : ℕ → X) (x : X)
    → s < n
    → popcount n (λ j. p (update f s x j)) + to_int (p (f s))
      ≡ popcount n (λ j. p (f j)) + to_int (p x)
popcount-put p n s f x h =
    ap (λ k. k + to_int (p (f s)))
      (popcount-ext n (λ j. p (update f s x j)) (update (λ j. p (f j)) s (p x)) (λ j a. at j))
    ∙ popcount-update n s (λ j. p (f j)) (p x) h
  where
    at : (j : ℕ) → p (update f s x j) ≡ update (λ j. p (f j)) s (p x) j
    at j = elim (Bool-cases (j == s)) [ inl e ↦ rw e refl | inr e ↦ rw e refl ]

-- A mask that is cleared on a condition
pub popcount-clear_if :
    (n : ℕ) (c : Bool) (m m' : ℕ → Bool)
    → ((j : ℕ) → j < n → m' j ≡ (if c then false else m j))
    → popcount n m' ≡ (if c then 0 else popcount n m)
popcount-clear_if n true m m' h = popcount-none n m' h
popcount-clear_if n false m m' h = popcount-ext n m' m h
