-- ===== src/Base/Ring.antt =====
-- A circular array of n slots as the list of its occupied slots, the oldest first.
use Prim.Native.Nat.{ℕ, zero, suc, ◌+◌, ◌-◌, ◌≤◌, ◌<◌}
use mathlib.Core.Path.{◌≡◌, refl, sym, ap, ◌∙◌}
use mathlib.Core.Path.{ap₂}
use mathlib.Core.List.{List, [], ◌∷◌, ◌++◌}
use native.Mathlib.Omega.{arith}
use sustemu.Base.Tests.{◌==◌, ltb, leb, if◌then◌else◌}
use sustemu.Base.Arrays.{update, update_ne, update_self}

-- `(i + 1) % n` and `(h + k) % n` for operands up to n
abbrev pub next : ℕ → ℕ → ℕ
next n i = if i + 1 == n then 0 else i + 1

abbrev pub wrap : ℕ → ℕ → ℕ
wrap n x = if ltb x n then x else x - n

-- How far slot i lies behind slot h
abbrev pub gap : ℕ → ℕ → ℕ → ℕ
gap n h i = if leb h i then i - h else i + n - h

module _ {ℓ} {A : Type ℓ} (n : ℕ) where
  unfoldable pub ring : (ℕ → A) → ℕ → ℕ → List A
  ring f h zero = []
  ring f h (suc k) = f h ∷ ring f (next n h) k

  pub ring-pop : (f : ℕ → A) (h k : ℕ) → ring f h (suc k) ≡ f h ∷ ring f (next n h) k
  unfolding ring
  ring-pop f h k = refl

  pub ring-snoc :
      (f : ℕ → A) (h k : ℕ)
      → h < n
      → k < n
      → ring f h (suc k) ≡ ring f h k ++ (f (wrap n (h + k)) ∷ [])
  unfolding ring
  ring-snoc f h zero p q = ap (λ i. f i ∷ []) (ground arith)
  ring-snoc f h (suc k) p q =
      ap (λ xs. f h ∷ xs)
        (ring-snoc f (next n h) k (ground arith) (omega arith)
          ∙ ap (λ i. ring f (next n h) k ++ (f i ∷ [])) (ground arith))

  -- A write outside the occupied slots is not seen.
  pub ring-update :
      (f : ℕ → A) (h k i : ℕ) (v : A)
      → h < n
      → i < n
      → k ≤ gap n h i
      → ring (update f i v) h k ≡ ring f h k
  unfolding ring
  ring-update f h zero i v p q g = refl
  ring-update f h (suc k) i v p q g =
      ap₂ (λ x xs. x ∷ xs) (update_ne f i h v (λ e. ground arith))
        (ring-update f (next n h) k i v (ground arith) q (ground arith))

  -- A write just behind the occupied slots makes the list longer.
  pub ring-push :
      (f : ℕ → A) (h k t : ℕ) (v : A)
      → h < n
      → k < n
      → t ≡ wrap n (h + k)
      → ring (update f t v) h (suc k) ≡ ring f h k ++ (v ∷ [])
  ring-push f h k t v p q e =
      ring-snoc (update f t v) h k p q
      ∙ ap₂ (λ xs x. xs ++ (x ∷ [])) (ring-update f h k t v p (ground arith) (ground arith))
          (ap (update f t v) (sym e) ∙ update_self f t v)

  pub ring-ext : (f g : ℕ → A) (h k : ℕ) → ((i : ℕ) → f i ≡ g i) → ring f h k ≡ ring g h k
  unfolding ring
  ring-ext f g h zero e = refl
  ring-ext f g h (suc k) e = ap₂ (λ x xs. x ∷ xs) (e h) (ring-ext f g (next n h) k e)
