-- ===== src/Memory/Cache/Level.antt =====
-- A cache level seen without its replacement state: for each set and way, what the line holds. The
-- view that a level gives of the memory below it is `level`.
pub mod Laws
pub mod Update
pub mod Invariant
pub mod Moves
pub mod Drop
pub mod Share
use sustemu.Base.{
  ℕ, ◌+◌, ◌*◌, ◌/◌, ◌%◌, ◌≤◌, ◌<◌, ◌≡◌, Bool, true, false, Option, none, some, ◌==◌, ◌&&◌,
  if◌then◌else◌,
}
use sustemu.Memory.Cache.Lines.{first_way}

pub record Content : Type 0 where
  pub valid : Bool
  pub dirty : Bool
  pub tag : ℕ
  pub bytes : ℕ → ℕ

-- `nsets` is 2 ^ s.
pub record Level : Type 0 where
  pub nsets : ℕ
  pub ways : ℕ
  pub line : ℕ → ℕ → Content

abbrev pub block : ℕ → ℕ
block b = b / 64

abbrev pub idx : Level → ℕ → ℕ
idx c b = block b % c.nsets

abbrev pub tg : Level → ℕ → ℕ
tg c b = block b / c.nsets

abbrev pub hit : Content → ℕ → Bool
hit l t = l.valid && l.tag == t

-- The way that holds an address
pub holder : Level → ℕ → Option ℕ
holder c b = first_way c.ways 0 (λ i. hit (c.line (idx c b) i) (tg c b))

-- The byte at an address: from the line that holds it, else from below
pub level : Level → (ℕ → ℕ) → ℕ → ℕ
level c below b = elim (holder c b) [
  | none ↦ below b
  | some i ↦ (c.line (idx c b) i).bytes (b % 64)
]

abbrev pub put : Level → ℕ → ℕ → Content → Level
put c k i l = record c { line = λ k' i'. if k' == k && i' == i then l else c.line k' i' }

-- The block number that a set and a tag stand for
abbrev pub block_of : Level → ℕ → ℕ → ℕ
block_of c k t = t * c.nsets + k

-- The blocks of the guest's memory, 0x8000_0000 to 0x8800_0000
abbrev pub RamBlock : ℕ → Type 0
RamBlock n = (0x200_0000 ≤ n) × (n < 0x220_0000)

-- An access of at most a word, within one block
abbrev pub Fits : ℕ → ℕ → Type 0
Fits a len = (a % 64 + len ≤ 64) × (len ≤ 8)

-- A clean line agrees with what is below it.
abbrev pub IsClean : Level → (ℕ → ℕ) → ℕ → Content → Type 0
IsClean c below k l = (o : ℕ) → o < 64 → l.bytes o ≡ below (block_of c k l.tag * 64 + o)

-- No two ways of a set hold the same tag.
abbrev pub IsUnique : Level → Type 0
IsUnique c =
    (k i j : ℕ)
    → i < c.ways
    → j < c.ways
    → (c.line k i).valid ≡ true
    → (c.line k j).valid ≡ true
    → (c.line k i).tag ≡ (c.line k j).tag
    → i ≡ j

-- The invariant of a level over the memory below it.
pub record IsSound (c : Level) (below : ℕ → ℕ) : Type 0 where
  pub some_set : 0 < c.nsets
  pub unique : IsUnique c
  pub in_ram :
      (k i : ℕ)
      → k < c.nsets
      → i < c.ways
      → (c.line k i).valid ≡ true
      → RamBlock (block_of c k (c.line k i).tag)
  pub clean :
      (k i : ℕ)
      → k < c.nsets
      → i < c.ways
      → (c.line k i).valid ≡ true
      → (c.line k i).dirty ≡ false
      → IsClean c below k (c.line k i)
