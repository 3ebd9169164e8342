-- ===== src/Memory/Bytes.antt =====
-- Little-endian words over bytes: `host_read` and `host_write` of src/memory/pmem.c, and the
-- `memcpy` between a `word_t` and a cache line.
use mathlib.Core.Path.{ap₂, subst₂}
use native.Mathlib.Nat.{
  div-div-eq-div-mul, mul-add-mod_self_left, mod-eq_of_lt, mod-lt, div-add-mod, pow-suc, mul_comm,
  one-le-pow,
}
use sustemu.Base.{
  sym, ℕ, zero, suc, ◌+◌, ◌*◌, ◌/◌, ◌%◌, ◌^◌, ◌≤◌, ◌<◌, ◌≡◌, refl, arith, ◌==◌, if◌then◌else◌, ◌||◌,
  ◌⊎◌, ◌∙◌, ap, update, update_self,
}

-- The word of the n bytes from an offset on
unfoldable pub le_read : ℕ → (ℕ → ℕ) → ℕ → ℕ
le_read zero f off = 0
le_read (suc n) f off = f off + 256 * le_read n f (off + 1)

-- The low n bytes of a word, stored from an offset on
unfoldable pub le_write : ℕ → (ℕ → ℕ) → ℕ → ℕ → ℕ → ℕ
le_write zero f off v = f
le_write (suc n) f off v = le_write n (update f off (v % 256)) (off + 1) (v / 256)

-- The `switch` on the width in `host_read`: any other width reads 0.
unfoldable pub host_read : (ℕ → ℕ) → ℕ → ℕ → ℕ
unfolding le_read
host_read f addr len =
    if len == 1 || (len == 2 || (len == 4 || len == 8)) then le_read len f addr else 0

unfoldable pub host_write : (ℕ → ℕ) → ℕ → ℕ → ℕ → ℕ → ℕ
unfolding le_write
host_write f addr len v =
    if len == 1 || (len == 2 || (len == 4 || len == 8)) then le_write len f addr v else f

-- A read sees the bytes of its range only.
pub le_read-ext :
    (n : ℕ) (f g : ℕ → ℕ) (off off' : ℕ)
    → ((i : ℕ) → i < n → f (off + i) ≡ g (off' + i))
    → le_read n f off ≡ le_read n g off'
unfolding le_read
le_read-ext zero f g off off' h = refl
le_read-ext (suc n) f g off off' h =
    ap₂ (λ (x y : ℕ). x + 256 * y) head
      (le_read-ext n f g (off + 1) (off' + 1)
        (λ i hi. subst₂ (λ x y. f x ≡ g y) (omega arith) (omega arith) (h (suc i) (omega arith))))
  where
    head : f off ≡ g off'
    head = subst₂ (λ x y. f x ≡ g y) (omega arith) (omega arith) (h 0 (omega arith))

-- A write leaves the bytes outside its range.
pub le_write-other :
    (n : ℕ) (f : ℕ → ℕ) (off v i : ℕ) → (i < off) ⊎ (off + n ≤ i) → le_write n f off v i ≡ f i
unfolding le_write
le_write-other zero f off v i h = refl
le_write-other (suc n) f off v i h =
    le_write-other n (update f off (v % 256)) (off + 1) (v / 256) i (ground arith) ∙ ground arith

-- A write into an array that is a window of another.
pub le_write-shift :
    (n : ℕ) (f g : ℕ → ℕ) (off d v i : ℕ)
    → f i ≡ g (d + i)
    → le_write n f off v i ≡ le_write n g (d + off) v (d + i)
unfolding le_write
le_write-shift zero f g off d v i h = h
le_write-shift (suc n) f g off d v i h =
    le_write-shift n (update f off (v % 256)) (update g (d + off) (v % 256)) (off + 1) d (v / 256) i
      (ground arith)
    ∙ ap (λ x. le_write n (update g (d + off) (v % 256)) x (v / 256) (d + i)) (omega arith)

-- A write leaves two arrays alike where they were.
pub le_write-ext :
    (n : ℕ) (f g : ℕ → ℕ) (off v i : ℕ) → f i ≡ g i → le_write n f off v i ≡ le_write n g off v i
le_write-ext n f g off v i h =
    le_write-shift n f g off 0 v i (h ∙ ap g (omega arith))
    ∙ ap₂ (λ s t. le_write n g s v t) (omega arith) (omega arith)

-- The low digit and the rest of a remainder
mod_digit : (v m : ℕ) → 0 < m → v % 256 + 256 * (v / 256 % m) ≡ v % (256 * m)
mod_digit v m h = sym (
    ap (λ x. x % (256 * m)) whole
    ∙ mul-add-mod_self_left (256 * m) (v / 256 / m) low
    ∙ mod-eq_of_lt (omega (arith, mod-lt (v / 256) h)))
  where
    low : ℕ
    low = v % 256 + 256 * (v / 256 % m)

    whole : v ≡ 256 * m * (v / 256 / m) + low
    whole = omega (arith, div-add-mod (v / 256) m)

-- Bytes read back after a write are those written.
pub le_read-le_write :
    (n : ℕ) (f : ℕ → ℕ) (off v : ℕ) → le_read n (le_write n f off v) off ≡ v % 256 ^ n
unfolding le_read le_write
le_read-le_write zero f off v = omega arith
le_read-le_write (suc n) f off v =
    ap₂ (λ (x y : ℕ). x + 256 * y)
      (le_write-other n (update f off (v % 256)) (off + 1) (v / 256) off (ground arith)
        ∙ update_self f off (v % 256))
      (le_read-le_write n (update f off (v % 256)) (off + 1) (v / 256))
    ∙ rw (pow-suc 256 n, mul_comm (256 ^ n) 256)
        (mod_digit v (256 ^ n) (omega (arith, one-le-pow n 256 (omega arith))))

-- The first bytes of a written word are its low bytes.
le_read-le_write_low :
    (n m : ℕ) (f : ℕ → ℕ) (off v : ℕ) → n ≤ m → le_read n (le_write m f off v) off ≡ v % 256 ^ n
unfolding le_read le_write
le_read-le_write_low zero m f off v h = omega arith
le_read-le_write_low (suc n) zero f off v h = absurd (omega arith)
le_read-le_write_low (suc n) (suc m) f off v h =
    ap₂ (λ (x y : ℕ). x + 256 * y)
      (le_write-other m (update f off (v % 256)) (off + 1) (v / 256) off (ground arith)
        ∙ update_self f off (v % 256))
      (le_read-le_write_low n m (update f off (v % 256)) (off + 1) (v / 256) (omega arith))
    ∙ rw (pow-suc 256 n, mul_comm (256 ^ n) 256)
        (mod_digit v (256 ^ n) (omega (arith, one-le-pow n 256 (omega arith))))

-- Bytes read from within a written word are that part of the word.
pub le_read-le_write_within :
    (k n m : ℕ) (f : ℕ → ℕ) (off v : ℕ)
    → k + n ≤ m
    → le_read n (le_write m f off v) (off + k) ≡ v / 256 ^ k % 256 ^ n
unfolding le_write
le_read-le_write_within zero n m f off v h =
    ap (le_read n (le_write m f off v)) (omega arith)
    ∙ le_read-le_write_low n m f off v (omega arith)
    ∙ ap (λ x. x % 256 ^ n) (omega arith)
le_read-le_write_within (suc k) n zero f off v h = absurd (omega arith)
le_read-le_write_within (suc k) n (suc m) f off v h =
    ap (le_read n (le_write m (update f off (v % 256)) (off + 1) (v / 256))) (omega arith)
    ∙ le_read-le_write_within k n m (update f off (v % 256)) (off + 1) (v / 256) (omega arith)
    ∙ ap (λ x. x % 256 ^ n)
        (div-div-eq-div-mul v 256 (256 ^ k) ∙ ap (λ x. v / x) (omega (arith, pow-suc 256 k)))

-- Bytes outside a written word are those before the write.
pub le_read-le_write_apart :
    (n m : ℕ) (f : ℕ → ℕ) (off a v : ℕ)
    → (a + n ≤ off) ⊎ (off + m ≤ a)
    → le_read n (le_write m f off v) a ≡ le_read n f a
le_read-le_write_apart n m f off a v h =
    le_read-ext n (le_write m f off v) f a a
      (λ i hi. le_write-other m f off v (a + i) (ground arith))
