-- ===== src/Base/Tests.antt =====
-- C's comparisons of unsigned numbers, its conditional, and the chain of steps that may fault.
use Prim.Native.Nat.{ℕ, zero, suc, ◌≤◌, ◌<◌, compare, Ordering}
use mathlib.Core.Path.{◌≡◌, refl}
use mathlib.Core.Logic.{◌≢◌, ◌⊎◌, inl, inr}
use mathlib.Core.Bool.{Bool, true, false}
use mathlib.Core.Option.{Option, none, some}
use native.Mathlib.Omega.{arith}

abbrev pub ltb : ℕ → ℕ → Bool
ltb a b = elim (compare a b) [ Ordering.lt ↦ true | _ ↦ false ]

abbrev pub leb : ℕ → ℕ → Bool
leb a b = elim (compare a b) [ Ordering.gt ↦ false | _ ↦ true ]

infix 50 ◌==◌
abbrev pub ◌==◌ : ℕ → ℕ → Bool
a == b = elim (compare a b) [ Ordering.eq ↦ true | _ ↦ false ]

infix 1 if◌then◌else◌
abbrev pub if◌then◌else◌ {ℓ} : {A : Type ℓ} → Bool → A → A → A
if true then x else y = x
if false then x else y = y

-- A C truth value as a number.
abbrev pub to_int : Bool → ℕ
to_int b = if b then 1 else 0

-- `none` is a run that C leaves undefined, or an assertion that fails.
infixl 5 ◌>>=◌
abbrev pub ◌>>=◌ {ℓ κ} : {A : Type ℓ} {B : Type κ} → Option A → (A → Option B) → Option B
none >>= f = none
some a >>= f = f a

pub Bool-cases : (b : Bool) → (b ≡ true) ⊎ (b ≡ false)
Bool-cases true = inl refl
Bool-cases false = inr refl

pub Option-cases {ℓ} : {A : Type ℓ} (o : Option A) → (o ≡ none) ⊎ ((a : A) × (o ≡ some a))
Option-cases none = inl refl
Option-cases (some a) = inr (a, refl)

pub lt→ltb : (a b : ℕ) → a < b → ltb a b ≡ true
lt→ltb a b h = ground arith

pub le→ltb : (a b : ℕ) → b ≤ a → ltb a b ≡ false
le→ltb a b h = ground arith

pub ==→eq : (a b : ℕ) → (a == b) ≡ true → a ≡ b
==→eq a b h = ground arith

pub ==→ne : (a b : ℕ) → (a == b) ≡ false → a ≢ b
==→ne a b h = ground arith

pub eq→== : (a b : ℕ) → a ≡ b → (a == b) ≡ true
eq→== a b h = ground arith

pub ne→== : (a b : ℕ) → a ≢ b → (a == b) ≡ false
ne→== a b h = ground arith

-- A small range is checked value by value.
abbrev pub all_below : ℕ → (ℕ → Bool) → Bool
all_below zero p = true
all_below (suc n) p = if p n then all_below n p else false

pub all_below_sound : (n : ℕ) (p : ℕ → Bool) (x : ℕ) → all_below n p ≡ true → x < n → p x ≡ true
all_below_sound zero p x h lt = absurd (omega arith)
all_below_sound (suc n) p x h lt = ground (arith, all_below_sound n p x)

-- To prove something of both branches of a test.
pub if-cases {ℓ κ} :
    {A : Type ℓ} (P : A → Type κ) (b : Bool) {x y : A}
    → (b ≡ true → P x)
    → (b ≡ false → P y)
    → P (if b then x else y)
if-cases P true f g = f refl
if-cases P false f g = g refl

-- What a result satisfies, when there is one.
abbrev pub Post {ℓ κ} : {A : Type ℓ} → (A → Type κ) → Option A → Type κ
Post P none = Unit
Post P (some a) = P a

pub Post-bind {ℓ κ η} :
    {A : Type ℓ} {B : Type κ} (P : A → Type η) (Q : B → Type η) (r : Option A) (f : A → Option B)
    → Post P r
    → ((a : A) → P a → Post Q (f a))
    → Post Q (r >>= f)
Post-bind P Q none f p k = tt
Post-bind P Q (some a) f p k = k a p

-- A step whose result does not matter
pub Post-then {ℓ κ η} :
    {A : Type ℓ} {B : Type κ} (Q : B → Type η) (r : Option A) (f : A → Option B)
    → ((a : A) → Post Q (f a))
    → Post Q (r >>= f)
Post-then Q none f k = tt
Post-then Q (some a) f k = k a

-- A step with the result that it gave
pub Post-step {ℓ κ η} :
    {A : Type ℓ} {B : Type κ} (Q : B → Type η) (r : Option A) (f : A → Option B)
    → ((a : A) → r ≡ some a → Post Q (f a))
    → Post Q (r >>= f)
Post-step Q none f k = tt
Post-step Q (some a) f k = k a refl

pub Post-both {ℓ κ η} :
    {A : Type ℓ} (P : A → Type κ) (Q : A → Type η) (r : Option A)
    → Post P r
    → Post Q r
    → Post (λ a. P a × Q a) r
Post-both P Q none p q = tt
Post-both P Q (some a) p q = (p, q)

pub Post-mono {ℓ κ η} :
    {A : Type ℓ} (P : A → Type κ) (Q : A → Type η) (r : Option A)
    → ((a : A) → P a → Q a)
    → Post P r
    → Post Q r
Post-mono P Q none k p = tt
Post-mono P Q (some a) k p = k a p
