-- ===== src/Memory/Mmio/Dispatch.antt =====
-- Which device answers at an address.
use sustemu.Base.{
  ℕ, zero, suc, ◌+◌, ◌<◌, ◌≡◌, refl, ◌∙◌, ap, subst, Bool, true, false, Option, none, some, leb,
  if◌then◌else◌, ◌&&◌, inl, inr, lt→ltb, update, update_self, update_ne, arith, Bool-cases, ◌>>=◌,
}
use sustemu.Word.{add64, sub64}
use sustemu.Memory.Mmio.{
  Io, IoMap, Mmio, map_inside, find_from, find_mapid_by_addr, fetch_mmio_map, add_mmio_map, new_map,
}

-- The first of two answers
abbrev pub or_else {ℓ} : {A : Type ℓ} → Option A → Option A → Option A
or_else none b = b
or_else (some a) b = some a

module _ {D : Type 0} where
  -- One map more at the end of the scan
  find_from-snoc :
      (k i : ℕ) (maps : ℕ → IoMap D) (m : IoMap D) (addr : ℕ)
      → find_from (suc k) i (update maps (i + k) m) addr
        ≡ or_else (find_from k i maps addr) (if map_inside m addr then some (i + k) else none)
  unfolding find_from
  find_from-snoc zero i maps m addr =
      ap (λ x. if map_inside x addr then some i else none)
        (ap (update maps (i + 0) m) here ∙ update_self maps (i + 0) m)
      ∙ ap (λ j. if map_inside m addr then some j else none) here
    where
      here : i ≡ i + 0
      here = omega arith
  find_from-snoc (suc k) i maps m addr =
      ap (λ x. if map_inside x addr then some i else find_from (suc k) (i + 1) more addr) kept
      ∙ elim (Bool-cases (map_inside (maps i) addr)) [
        | inl e ↦ rw e refl
        | inr e ↦ rw e (
            subst
              (λ j.
                find_from (suc k) (i + 1) (update maps j m) addr
                ≡ or_else (find_from k (i + 1) maps addr)
                    (if map_inside m addr then some j else none))
              along (find_from-snoc k (i + 1) maps m addr))
      ]
    where
      more : ℕ → IoMap D
      more = update maps (i + suc k) m

      kept : more i ≡ maps i
      kept = update_ne maps (i + suc k) i m (λ e. ground arith)

      along : i + 1 + k ≡ i + suc k
      along = omega arith

  find_from-lt :
      (k i : ℕ) (maps : ℕ → IoMap D) (addr j : ℕ) → find_from k i maps addr ≡ some j → j < i + k
  unfolding find_from
  find_from-lt zero i maps addr j h = ground arith
  find_from-lt (suc k) i maps addr j h = elim (Bool-cases (map_inside (maps i) addr)) [
    | inl e ↦ lemma_here (rw e at h)
    | inr e ↦ lemma_later (find_from-lt k (i + 1) maps addr j) (rw e at h)
  ]
    where
      lemma_here : some i ≡ some j → j < i + suc k
      lemma_here q = grind arith

      lemma_later :
          (find_from k (i + 1) maps addr ≡ some j → j < i + 1 + k)
          → find_from k (i + 1) maps addr ≡ some j
          → j < i + suc k
      lemma_later f q = omega (arith, f q)

  -- A map past those in use changes no answer.
  fetch-update :
      (o : Option ℕ) (maps : ℕ → IoMap D) (n : ℕ) (m : IoMap D) (hit : Bool)
      → ((j : ℕ) → o ≡ some j → j < n)
      → (or_else o (if hit then some n else none) >>= λ i. some (update maps n m i))
        ≡ or_else (o >>= λ i. some (maps i)) (if hit then some m else none)
  fetch-update none maps n m true h = ap some (update_self maps n m)
  fetch-update none maps n m false h = refl
  fetch-update (some j) maps n m hit h =
      ap some (update_ne maps n j m (λ e. ground (arith, h j refl)))

  -- While there are fewer than 16 maps, add_mmio_map succeeds, and an address that a device
  -- answered keeps its device; any other in the new device's range is answered by the new one.
  pub fetch_mmio_map-add_mmio_map :
      (s : Mmio D) (low space len : ℕ) (callback : Option (ℕ → ℕ → Bool → Io D → Io D))
      → s.nr_map < 16
      → (s' : Mmio D) × (add_mmio_map low space len callback s ≡ some s')
        × ((addr : ℕ)
            → fetch_mmio_map s' addr
              ≡ or_else (fetch_mmio_map s addr) (
                  if leb low addr && leb addr (sub64 (add64 low len) 1)
                  then some (new_map low space len callback)
                  else none))
  unfolding fetch_mmio_map find_mapid_by_addr add_mmio_map map_inside
  fetch_mmio_map-add_mmio_map s low space len callback room = (
    record s { maps = more; nr_map = s.nr_map + 1 },
    rw (lt→ltb s.nr_map 16 room) refl,
    λ addr.
        ap (λ o. o >>= λ i. some (more i))
          (subst (λ n. find_from n 0 more addr ≡ found addr) (omega arith) (scan addr))
        ∙ fetch-update (find_from s.nr_map 0 s.maps addr) s.maps s.nr_map new (map_inside new addr)
            (λ j h. omega (arith, find_from-lt s.nr_map 0 s.maps addr j h)),
  )
    where
      new : IoMap D
      new = new_map low space len callback

      more : ℕ → IoMap D
      more = update s.maps s.nr_map new

      found : ℕ → Option ℕ
      found addr =
          or_else (find_from s.nr_map 0 s.maps addr)
            (if map_inside new addr then some s.nr_map else none)

      scan : (addr : ℕ) → find_from (suc s.nr_map) 0 more addr ≡ found addr
      scan addr =
          subst
            (λ n.
              find_from (suc s.nr_map) 0 (update s.maps n new) addr
              ≡ or_else (find_from s.nr_map 0 s.maps addr)
                  (if map_inside new addr then some n else none))
            (omega arith) (find_from-snoc s.nr_map 0 s.maps new addr)
