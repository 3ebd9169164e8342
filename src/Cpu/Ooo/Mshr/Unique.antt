-- ===== src/Cpu/Ooo/Mshr/Unique.antt =====
-- A line has at most one miss in flight, and one is refused only when all eight registers are taken.
use sustemu.Base.{
  ℕ, zero, suc, ◌+◌, ◌-◌, ◌<◌, ◌≤◌, ◌≡◌, ◌≢◌, refl, sym, ◌∙◌, ap, subst, Bool, true, false, Option,
  none, some, ◌==◌, ◌⊎◌, inl, inr, arith, Bool-cases, update, update_ne, update_self, ==→eq, ==→ne,
}
use native.Mathlib.Decide.{ℕ_discrete}
use sustemu.Cpu.Ooo.State.{MshrEntry, mshr_size}
use sustemu.Cpu.Ooo.Mshr.{Found, in_flight, free, keep_first, mshr_scan, mshr_find_or_alloc}

-- Slot j is the line's miss.
abbrev pub IsMiss : (ℕ → MshrEntry) → ℕ → ℕ → Type 0
IsMiss m line j = ((m j).valid ≡ true) × ((m j).line_addr ≡ line)

-- What the scan of slots i to i + k - 1 tells, given the free slot that it started with
abbrev Outcome : ℕ → ℕ → (ℕ → MshrEntry) → ℕ → Option ℕ → Found → Type 0
Outcome k i m line fs (in_flight j) = (i ≤ j) × (j < i + k) × IsMiss m line j
Outcome k i m line (some x) (free f) =
    (f ≡ some x) × ((j : ℕ) → i ≤ j → j < i + k → IsMiss m line j → ⊥)
Outcome k i m line none (free none) =
    ((j : ℕ) → i ≤ j → j < i + k → (m j).valid ≡ true)
    × ((j : ℕ) → i ≤ j → j < i + k → IsMiss m line j → ⊥)
Outcome k i m line none (free (some x)) =
    (i ≤ x)
    × (x < i + k)
    × ((m x).valid ≡ false)
    × ((j : ℕ) → i ≤ j → j < x → (m j).valid ≡ true)
    × ((j : ℕ) → i ≤ j → j < i + k → IsMiss m line j → ⊥)

-- No slot of a range, from its first and the others
from_first :
    (k i : ℕ) (P : ℕ → Type 0)
    → P i
    → ((j : ℕ) → i + 1 ≤ j → j < i + 1 + k → P j)
    → (j : ℕ) → i ≤ j
    → j < i + suc k
    → P j
from_first k i P here rest j a b = elim (ℕ_discrete i j) [
  | yes e ↦ subst P e here
  | no n ↦ rest j (omega arith) (omega arith)
]

-- One slot more at the front, which is not the line's miss
widen :
    (k i : ℕ) (m : ℕ → MshrEntry) (line : ℕ) (fs : Option ℕ) (r : Found)
    → (m i).valid ≡ true
    → (IsMiss m line i → ⊥)
    → Outcome k (i + 1) m line fs r
    → Outcome (suc k) i m line fs r
widen k i m line none (in_flight j) v n o = (omega arith, omega arith, o.2)
widen k i m line (some x) (in_flight j) v n o = (omega arith, omega arith, o.2)
widen k i m line (some x) (free f) v n o = (o.0, from_first k i (λ j. IsMiss m line j → ⊥) n o.1)
widen k i m line none (free none) v n o = (
  from_first k i (λ j. (m j).valid ≡ true) v o.0,
  from_first k i (λ j. IsMiss m line j → ⊥) n o.1,
)
widen k i m line none (free (some x)) v n o = (
  omega arith,
  omega arith,
  o.2,
  λ j a l. elim (ℕ_discrete i j) [
    | yes e ↦ subst (λ y. (m y).valid ≡ true) e v
    | no ne ↦ o.3 j (omega arith) l
  ],
  from_first k i (λ j. IsMiss m line j → ⊥) n o.4,
)

-- The same, when the slot is free
widen_free :
    (k i : ℕ) (m : ℕ → MshrEntry) (line : ℕ) (fs : Option ℕ) (r : Found)
    → (m i).valid ≡ false
    → Outcome k (i + 1) m line (keep_first fs i) r
    → Outcome (suc k) i m line fs r
widen_free k i m line none (in_flight j) v o = (omega arith, omega arith, o.2)
widen_free k i m line (some x) (in_flight j) v o = (omega arith, omega arith, o.2)
widen_free k i m line (some x) (free f) v o =
    (o.0, from_first k i (λ j. IsMiss m line j → ⊥) (λ h. not_both v h.0) o.1)
  where
    not_both : {b : Bool} → b ≡ false → b ≡ true → ⊥
    not_both p q = cc
widen_free k i m line none (free none) v o = absurd (never o.0)
  where
    never : {A : Type 0} {x : A} → none ≡ some x → ⊥
    never e = cc
widen_free k i m line none (free (some x)) v o = (
  at_least (index o.0),
  below (index o.0),
  ap (λ j. (m j).valid) (index o.0) ∙ v,
  λ j a l. absurd (none_before j (index o.0) a l),
  from_first k i (λ j. IsMiss m line j → ⊥) (λ h. not_both v h.0) o.1,
)
  where
    not_both : {b : Bool} → b ≡ false → b ≡ true → ⊥
    not_both p q = cc

    index : some x ≡ some i → x ≡ i
    index e = cc

    none_before : (j : ℕ) → x ≡ i → i ≤ j → j < x → ⊥
    none_before j e a l = absurd (omega arith)

    at_least : x ≡ i → i ≤ x
    at_least e = omega arith

    below : x ≡ i → x < i + suc k
    below e = omega arith

scan-Outcome :
    (k i line : ℕ) (fs : Option ℕ) (m : ℕ → MshrEntry)
    → Outcome k i m line fs (mshr_scan k i line fs m)
unfolding mshr_scan
scan-Outcome zero i line none m = (λ j a b. absurd (omega arith), λ j a b. absurd (omega arith))
scan-Outcome zero i line (some x) m = (refl, λ j a b. absurd (omega arith))
scan-Outcome (suc k) i line fs m = elim (Bool-cases (m i).valid) [
  | inr v ↦ rw v (widen_free k i m line fs _ v (scan-Outcome k (i + 1) line (keep_first fs i) m))
  | inl v ↦ elim (Bool-cases ((m i).line_addr == line)) [
    | inl e ↦ rw (v, e) (hit fs v (==→eq (m i).line_addr line e))
    | inr e ↦
        rw (v, e)
          (widen k i m line fs _ v (λ h. ==→ne (m i).line_addr line e h.1)
            (scan-Outcome k (i + 1) line fs m))
  ]
]
  where
    hit :
        (fs' : Option ℕ)
        → (m i).valid ≡ true
        → (m i).line_addr ≡ line
        → Outcome (suc k) i m line fs' (in_flight i)
    hit none v e = (omega arith, omega arith, (v, e))
    hit (some x) v e = (omega arith, omega arith, (v, e))

-- No two registers wait for the same line.
abbrev pub IsUnique : (ℕ → MshrEntry) → Type 0
IsUnique m =
    (line i j : ℕ) → i < mshr_size → j < mshr_size → IsMiss m line i → IsMiss m line j → i ≡ j

-- What a register that starts to wait for a line holds
abbrev pub started : ℕ → ℕ → MshrEntry
started line lat = record { valid = true; line_addr = line; cycles_rem = lat - 1 }

-- The line's miss is found and nothing changes, or there is none and the first free register is
-- taken.
abbrev pub FoundOrTaken : (ℕ → MshrEntry) → ℕ → ℕ → ℕ → (ℕ → MshrEntry) → Type 0
FoundOrTaken m line lat i m' =
    (IsMiss m line i × (m' ≡ m))
    ⊎ (((m i).valid ≡ false)
        × ((j : ℕ) → j < i → (m j).valid ≡ true)
        × ((j : ℕ) → j < mshr_size → IsMiss m line j → ⊥)
        × (m' i ≡ started line lat))

-- The register of a line is found or taken, and the others stay; without one all are busy with
-- other lines.
abbrev pub Granted : (ℕ → MshrEntry) → ℕ → ℕ → Option ℕ × (ℕ → MshrEntry) → Type 0
Granted m line lat (none, m') =
    ((j : ℕ) → j < mshr_size → ((m j).valid ≡ true) × ((m j).line_addr ≢ line)) × (m' ≡ m)
Granted m line lat (some i, m') =
    (i < mshr_size)
    × IsMiss m' line i
    × ((j : ℕ) → j ≢ i → m' j ≡ m j)
    × FoundOrTaken m line lat i m'

taken-IsUnique :
    (m : ℕ → MshrEntry) (line lat x : ℕ)
    → IsUnique m
    → ((j : ℕ) → 0 ≤ j → j < mshr_size → IsMiss m line j → ⊥)
    → IsUnique (update m x (record { valid = true; line_addr = line; cycles_rem = lat }))
taken-IsUnique m line lat x u n l i j hi hj p q = elim (ℕ_discrete i x) [
  | yes e ↦ elim (ℕ_discrete j x) [
    | yes f ↦ e ∙ sym f
    | no f ↦ absurd (n j (omega arith) hj (subst (IsMiss_at j) (sym (fresh i e p)) (old j f q)))
  ]
  | no e ↦ elim (ℕ_discrete j x) [
    | yes f ↦ absurd (n i (omega arith) hi (subst (IsMiss_at i) (sym (fresh j f q)) (old i e p)))
    | no f ↦ u l i j hi hj (old i e p) (old j f q)
  ]
]
  where
    new : MshrEntry
    new = record { valid = true; line_addr = line; cycles_rem = lat }

    old : (k : ℕ) → k ≢ x → IsMiss (update m x new) l k → IsMiss m l k
    old k ne h = subst (λ e. (e.valid ≡ true) × (e.line_addr ≡ l)) (update_ne m x k new ne) h

    fresh : (k : ℕ) → k ≡ x → IsMiss (update m x new) l k → line ≡ l
    fresh k e h =
        (subst (λ e'. (e'.valid ≡ true) × (e'.line_addr ≡ l))
          (ap (update m x new) e ∙ update_self m x new) h).1

    IsMiss_at : ℕ → ℕ → Type 0
    IsMiss_at k l' = IsMiss m l' k

-- When no two registers of misses wait for one line, `mshr_find_or_alloc` keeps it so. It returns the
-- register below 8 that waits for the line, and changes nothing; or, when none does, the first free
-- one, which then waits for the line with the latency less one, and every other stays as it was; or
-- it changes nothing and returns -1, and then all eight wait for other lines.
pub mshr_find_or_alloc-IsUnique :
    (m : ℕ → MshrEntry) (line lat : ℕ)
    → IsUnique m
    → Granted m line lat (mshr_find_or_alloc m line lat)
      × IsUnique (mshr_find_or_alloc m line lat).1
unfolding mshr_find_or_alloc
mshr_find_or_alloc-IsUnique m line lat u =
    granted (mshr_scan mshr_size 0 line none m) (scan-Outcome mshr_size 0 line none m)
  where
    answer : Found → Option ℕ × (ℕ → MshrEntry)
    answer f = elim f [
      | in_flight i ↦ (some i, m)
      | free none ↦ (none, m)
      | free (some i) ↦
          (some i, update m i (record { valid = true; line_addr = line; cycles_rem = lat - 1 }))
    ]

    granted :
        (f : Found)
        → Outcome mshr_size 0 m line none f
        → Granted m line lat (answer f) × IsUnique (answer f).1
    granted (in_flight i) (a, b, h) = ((omega arith, h, λ j n. refl, inl (h, refl)), u)
    granted (free none) (full, other) = (
      (
        λ j b. (full j (omega arith) b, λ e. other j (omega arith) b (full j (omega arith) b, e)),
        refl,
      ),
      u,
    )
    granted (free (some i)) (a, b, v, first, other) =
        let new : MshrEntry = started line lat in
        (
          (
            omega arith,
            (ap (λ e. e.valid) (update_self m i new), ap (λ e. e.line_addr) (update_self m i new)),
            λ j n. update_ne m i j new n,
            inr (
              v,
              λ j l. first j (omega arith) l,
              λ j l. other j (omega arith) l,
              update_self m i new,
            ),
          ),
          taken-IsUnique m line (lat - 1) i u other,
        )
