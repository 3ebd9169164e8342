-- ===== src/Memory/Cache/Install.antt =====
-- Putting a line for an address into the way that a lookup returned, on the cache itself.
use native.Mathlib.Nat.{mod-lt}
use sustemu.Base.{
  ℕ, ◌+◌, ◌*◌, ◌%◌, ◌^◌, ◌<◌, ◌≡◌, ◌≢◌, refl, sym, ne→==, ==→eq, if◌then◌else◌, ◌==◌, ◌&&◌, ◌∙◌, ap,
  Bool, true, false, arith, Bool-cases, inl, inr, subst,
}
use sustemu.Memory.Cache.Lines.{Cache, CacheLine, set_idx, tag_of, put_line, line_at}
use sustemu.Memory.Cache.Level.{IsSound, RamBlock, block, block_of, idx, tg, hit, level, put}
use sustemu.Memory.Cache.Level.Laws.{
  block_of-idx, hit_parts, not_hit, hit_of_parts, holder_of_hit, holder_of_miss, level_of_holder,
  level_of_none, tg_of_block, not_true,
}
use sustemu.Memory.Cache.Level.Update.{Written, OnlyWay, level-put_self, level-put_other}
use sustemu.Memory.Cache.Level.Invariant.{put-IsSound}
use sustemu.Memory.Cache.Lookup.{
  content, contents, IsWellFormed, Located, set_idx-contents, tag_of-contents, contents-put_line,
  put_line-IsWellFormed,
}

-- A cache that is well formed and sound over what is below.
pub record IsGood (c : Cache) (below : ℕ → ℕ) : Type 0 where
  pub formed : IsWellFormed c
  pub sound : IsSound (contents c) below

-- No other way holds the address that a lookup located.
pub Located-OnlyWay :
    (c : Cache) (below : ℕ → ℕ) (a : ℕ) (h : Bool) (way : ℕ)
    → IsGood c below
    → Located c a h way
    → OnlyWay (contents c) a way
Located-OnlyWay c below a h way g l i hi ne = elim (Bool-cases h) [
  | inr e ↦ rw (← k, ← t) (l.misses e i hi)
  | inl e ↦ not_hit (content (line_at c (idx (contents c) a) i)) (tg (contents c) a) λ val q.
      let m = hit_parts (content (line_at c (set_idx c a) way)) (tag_of c a) (l.matches e) in
      ne (
        g.sound.unique (idx (contents c) a) i way hi l.in_range val
          (ap (λ x. (line_at c x way).valid) (sym k) ∙ m.0)
          (q ∙ sym t ∙ sym m.1 ∙ ap (λ x. (line_at c x way).tag) k))
]
  where
    k : set_idx c a ≡ idx (contents c) a
    k = set_idx-contents c a g.formed.offset

    t : tag_of c a ≡ tg (contents c) a
    t = tag_of-contents c a g.formed.offset

-- What holds of a cache after a line for the address went into a way.
pub record Installed (c : Cache) (below below' : ℕ → ℕ) (a : ℕ) (l : CacheLine) (c' : Cache)
    : Type 0 where
  pub good : IsGood c' below'
  pub self : (b : ℕ) → block b ≡ block a → level (contents c') below' b ≡ l.bytes (b % 64)
  pub other :
      (b : ℕ) → block b ≢ block a → level (contents c') below' b ≡ level (contents c) below b

pub install :
    (c : Cache) (below below' : ℕ → ℕ) (a way : ℕ) (l : CacheLine)
    → IsGood c below
    → way < c.w
    → OnlyWay (contents c) a way
    → l.valid ≡ true
    → l.tag ≡ tag_of c a
    → Written (contents c) a way below below'
    → RamBlock (block a)
    → (l.dirty ≡ false → (o : ℕ) → o < 64 → l.bytes o ≡ below' (block a * 64 + o))
    → Installed c below below' a l (put_line c (set_idx c a) way l)
install c below below' a way l g hw only val t written ram clean = record {
  good = record {
    formed = put_line-IsWellFormed (set_idx c a) way l g.formed;
    sound =
        subst (λ x. IsSound x below') (sym same)
          (put-IsSound (contents c) below below' a way (content l) g.sound hw only val t' written
            ram clean);
  };
  self = λ b e.
      ap (λ x. level x below' b) same
      ∙ level-put_self (contents c) below below' a way (content l) g.sound hw only val t' written b
          e;
  other = λ b ne.
      ap (λ x. level x below' b) same
      ∙ level-put_other (contents c) below below' a way (content l) g.sound hw only val t' written b
          ne;
}
  where
    same :
        contents (put_line c (set_idx c a) way l)
        ≡ put (contents c) (idx (contents c) a) way (content l)
    same =
        contents-put_line c (set_idx c a) way l
        ∙ ap (λ x. put (contents c) x way (content l)) (set_idx-contents c a g.formed.offset)

    t' : l.tag ≡ tg (contents c) a
    t' = t ∙ tag_of-contents c a g.formed.offset

-- The located line's address fields, on a hit
pub hit_line :
    (c : Cache) (a way : ℕ)
    → Located c a true way
    → ((line_at c (set_idx c a) way).valid ≡ true)
      × ((line_at c (set_idx c a) way).tag ≡ tag_of c a)
hit_line c a way l = hit_parts (content (line_at c (set_idx c a) way)) (tag_of c a) (l.matches refl)

-- On a hit nothing is evicted.
pub hit-Written :
    (c : Cache) (below : ℕ → ℕ) (a way : ℕ)
    → IsWellFormed c
    → Located c a true way
    → Written (contents c) a way below below
hit-Written c below a way v l b ne = rw not_block (ground arith)
  where
    k : set_idx c a ≡ idx (contents c) a
    k = set_idx-contents c a v.offset

    tagged : (line_at c (idx (contents c) a) way).tag ≡ tg (contents c) a
    tagged =
        ap (λ x. (line_at c x way).tag) (sym k)
        ∙ (hit_line c a way l).1
        ∙ tag_of-contents c a v.offset

    not_block :
        (block b
          == block_of (contents c) (idx (contents c) a) (line_at c (idx (contents c) a) way).tag)
        ≡ false
    not_block = ne→== _ _ λ e. ne (e ∙ rw tagged (block_of-idx (contents c) a))

-- A cache with the same contents is as good.
pub IsGood-of_same :
    (c c' : Cache) (below : ℕ → ℕ)
    → IsGood c below
    → IsWellFormed c'
    → contents c' ≡ contents c
    → IsGood c' below
IsGood-of_same c c' below g v e = record {
  formed = v;
  sound = subst (λ x. IsSound x below) (sym e) g.sound;
}

-- What is below has taken the line of a way, if that was dirty, and is otherwise as it was.
abbrev pub Taken : Cache → ℕ → ℕ → (ℕ → ℕ) → (ℕ → ℕ) → Type 0
Taken c a way below below' =
    (b : ℕ)
    → let old = line_at c (idx (contents c) a) way in
      below' b ≡ (
        if old.valid && (old.dirty && block b == block_of (contents c) (idx (contents c) a) old.tag)
        then old.bytes (b % 64)
        else below b)

-- On a hit the level shows the line's bytes throughout the block.
pub hit-level :
    (c : Cache) (below : ℕ → ℕ) (a way b : ℕ)
    → IsGood c below
    → Located c a true way
    → block b ≡ block a
    → level (contents c) below b ≡ (line_at c (set_idx c a) way).bytes (b % 64)
hit-level c below a way b g l e =
    level_of_holder (contents c) below b way (
      holder_of_hit (contents c) b way g.sound.unique l.in_range (
        rw (e, ← set_idx-contents c a g.formed.offset, ← tag_of-contents c a g.formed.offset)
          (l.matches refl)))
    ∙ ap (λ x. (line_at c x way).bytes (b % 64))
        (ap (λ x. x % 2 ^ c.s) e ∙ sym (set_idx-contents c a g.formed.offset))

-- On a miss the level shows what is below.
pub miss-level :
    (c : Cache) (below : ℕ → ℕ) (a way b : ℕ)
    → IsWellFormed c
    → Located c a false way
    → block b ≡ block a
    → level (contents c) below b ≡ below b
miss-level c below a way b v l e = level_of_none (contents c) below b (
    holder_of_miss (contents c) b λ i hi.
      rw (e, ← set_idx-contents c a v.offset, ← tag_of-contents c a v.offset) (l.misses refl i hi))

-- On a miss the victim is of another block, so what is below keeps this one.
pub miss-kept :
    (c : Cache) (below below' : ℕ → ℕ) (a way b : ℕ)
    → IsWellFormed c
    → Located c a false way
    → Taken c a way below below'
    → block b ≡ block a
    → 0 < 2 ^ c.s
    → below' b ≡ below b
miss-kept c below below' a way b v l taken e pos = taken b ∙ rw cond refl
  where
    k : ℕ
    k = idx (contents c) a

    missed : hit (content (line_at c k way)) (tg (contents c) a) ≡ false
    missed =
        rw (← set_idx-contents c a v.offset, ← tag_of-contents c a v.offset)
          (l.misses refl way l.in_range)

    cond :
        ((line_at c k way).valid
          && ((line_at c k way).dirty && block b == block_of (contents c) k (line_at c k way).tag))
        ≡ false
    cond = elim (Bool-cases (block b == block_of (contents c) k (line_at c k way).tag)) [
      | inr q ↦ ground arith
      | inl q ↦
          let t =
            tg_of_block (contents c) k (line_at c k way).tag a (mod-lt (block a) pos)
              (sym e ∙ ==→eq _ _ q) in
          elim (Bool-cases (line_at c k way).valid) [
            | inl val ↦ absurd (
                not_true missed
                  (hit_of_parts (content (line_at c k way)) (tg (contents c) a) val (sym t)))
            | inr inv ↦ rw inv
          ]
    ]
