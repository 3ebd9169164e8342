-- ===== src/Memory/Cache/Transfer/Down.antt =====
-- Evictions and write-backs: what `store_block`, `evict_l2` and `write_l2` do to the view.
use mathlib.Core.Path.{ap₂}
use native.Mathlib.Nat.{mod-lt}
use native.Mathlib.Numerals.{towards_suc}
use sustemu.Base.{
  ℕ, ◌+◌, ◌-◌, ◌*◌, ◌/◌, ◌%◌, ◌^◌, ◌<◌, ◌≡◌, ◌≢◌, refl, sym, ◌∙◌, ap, Bool, true, false, arith,
  ==→eq, ==→ne, Bool-cases, inl, inr, subst, ltb, leb, if◌then◌else◌, ◌&&◌, ◌==◌,
}
use sustemu.Memory.Cache.Lines.{Cache, CacheLine, set_idx, tag_of, put_line, line_at, find_line}
use sustemu.Memory.Cache.Level.{RamBlock, block, idx, level, block_of}
use sustemu.Memory.Cache.Level.Update.{Written, OnlyWay}
use sustemu.Memory.Cache.Lookup.{
  contents, IsWellFormed, Located, set_idx-contents, find_line-Found, relocate,
}
use sustemu.Memory.Cache.Install.{
  IsGood, Installed, install, Located-OnlyWay, hit_line, hit-Written, IsGood-of_same, Taken,
}
use sustemu.Memory.Cache.Fetch.{Mem, Bus, store_block, evict_l2, write_l2, victim_addr, in_ram}

two_pow_add_six : (s : ℕ) → 2 ^ (s + 6) ≡ 64 * 2 ^ s
two_pow_add_six s = simp towards_suc (omega arith)

-- A victim's address is that of its block.
pub victim_addr_lem :
    (c : Cache) (t a : ℕ)
    → c.off ≡ 6
    → RamBlock (block_of (contents c) (idx (contents c) a) t)
    → victim_addr c t a ≡ block_of (contents c) (idx (contents c) a) t * 64
victim_addr_lem c t a e r = rw (e, two_pow_add_six c.s) (omega arith)

module _ {M : Type 0} (bus : Bus M) where
  -- Storing a block of the guest's memory replaces its 64 bytes.
  pub ram-store_block :
      (n : ℕ) (f : ℕ → ℕ) (m : Mem M) (b : ℕ)
      → RamBlock n
      → (store_block bus (n * 64) f m).ram b ≡ (if block b == n then f (b % 64) else m.ram b)
  unfolding store_block
  ram-store_block n f m b r =
      rw (e, q)
        (elim (Bool-cases (block b == n)) [
          | inl h ↦ rw (h, here (==→eq _ _ h)) (ap f (off (==→eq _ _ h)))
          | inr h ↦ rw (h, away (==→ne _ _ h))
        ])
    where
      e : n * 64 % 2 ^ 32 ≡ n * 64
      e = omega arith

      q : in_ram (n * 64) ≡ true
      q = ground arith

      here : block b ≡ n → (leb (n * 64) b && ltb b (n * 64 + 64)) ≡ true
      here p = ground arith

      off : block b ≡ n → b - n * 64 ≡ b % 64
      off p = omega arith

      away : block b ≢ n → (leb (n * 64) b && ltb b (n * 64 + 64)) ≡ false
      away p = ground arith

  -- A victim that a lookup chose, and the memory after its eviction
  pub record Evicted (c : Cache) (a way : ℕ) (m : Mem M) (c' : Cache) (m' : Mem M) : Type 0 where
    pub same : contents c' ≡ contents c
    pub formed : IsWellFormed c'
    pub taken : Taken c a way m.ram m'.ram
    pub shape : (c'.s ≡ c.s) × (c'.off ≡ c.off) × (c'.w ≡ c.w)

  pub evict_l2-Evicted :
      (c : Cache) (a way : ℕ) (m : Mem M)
      → IsGood c m.ram
      → way < c.w
      → let (c', m') = evict_l2 bus c a (line_at c (set_idx c a) way) m in Evicted c a way m c' m'
  unfolding evict_l2
  evict_l2-Evicted c a way m g hw = elim (Bool-cases (l.valid && l.dirty)) [
    | inl e ↦ rw e (record {
      same = refl;
      formed = record {
        offset = g.formed.offset;
        some_way = g.formed.some_way;
        mru_in = g.formed.mru_in;
      };
      taken = λ b. dirty e b;
      shape = (refl, refl, refl);
    })
    | inr e ↦ rw e (record {
      same = refl;
      formed = g.formed;
      taken = λ b. clean e b;
      shape = (refl, refl, refl);
    })
  ]
    where
      l : CacheLine
      l = line_at c (set_idx c a) way

      k : ℕ
      k = idx (contents c) a

      here : l ≡ line_at c k way
      here = ap (λ x. line_at c x way) (set_idx-contents c a g.formed.offset)

      taken : CacheLine → ℕ → ℕ
      taken z b =
          if z.valid && (z.dirty && block b == block_of (contents c) k z.tag)
          then z.bytes (b % 64)
          else m.ram b

      valid_of : (z : CacheLine) → (z.valid && z.dirty) ≡ true → z.valid ≡ true
      valid_of z e = ground arith

      in_ram_l : (l.valid && l.dirty) ≡ true → RamBlock (block_of (contents c) k l.tag)
      in_ram_l e =
          subst (λ z. RamBlock (block_of (contents c) k z.tag)) (sym here)
            (g.sound.in_ram k way (mod-lt (block a) g.sound.some_set) hw
              (ap (λ z. z.valid) (sym here) ∙ valid_of l e))

      both :
          (z : CacheLine) (b : ℕ)
          → (z.valid && z.dirty) ≡ true
          → (if block b == block_of (contents c) k z.tag then z.bytes (b % 64) else m.ram b)
            ≡ taken z b
      both z b e = ground arith

      dirty :
          (l.valid && l.dirty) ≡ true
          → (b : ℕ)
          → (store_block bus (victim_addr c l.tag a) l.bytes m).ram b ≡ taken (line_at c k way) b
      dirty e b =
          ap (λ x. (store_block bus x l.bytes m).ram b)
            (victim_addr_lem c l.tag a g.formed.offset (in_ram_l e))
          ∙ ram-store_block (block_of (contents c) k l.tag) l.bytes m b (in_ram_l e)
          ∙ both l b e
          ∙ ap (λ z. taken z b) here

      neither : (z : CacheLine) (b : ℕ) → (z.valid && z.dirty) ≡ false → m.ram b ≡ taken z b
      neither z b e = ground arith

      clean : (l.valid && l.dirty) ≡ false → (b : ℕ) → m.ram b ≡ taken (line_at c k way) b
      clean e b = neither l b e ∙ ap (λ z. taken z b) here

  -- A block written to level 2 shows there, and nothing else changes.
  pub record WroteL2 (c : Cache) (a : ℕ) (f : ℕ → ℕ) (m : Mem M) (c' : Cache) (m' : Mem M)
      : Type 0 where
    pub good : IsGood c' m'.ram
    pub self : (b : ℕ) → block b ≡ block a → level (contents c') m'.ram b ≡ f (b % 64)
    pub other :
        (b : ℕ) → block b ≢ block a → level (contents c') m'.ram b ≡ level (contents c) m.ram b

  -- What a lookup leaves: a cache as good, the verdict about it, and no other holder.
  pub record Ready (c : Cache) (below : ℕ → ℕ) (a : ℕ) (h : Bool) (way : ℕ) (c₁ : Cache)
      : Type 0 where
    pub same : contents c₁ ≡ contents c
    pub good : IsGood c₁ below
    pub located : Located c₁ a h way
    pub only : OnlyWay (contents c₁) a way

  pub find_line-Ready :
      (c : Cache) (below : ℕ → ℕ) (a : ℕ)
      → IsGood c below
      → let (h, way, c₁) = find_line c a in Ready c below a h way c₁
  find_line-Ready c below a g =
      let (h, way, c₁) = find_line c a in
      let f = find_line-Found c a g.formed in
      let g₁ = IsGood-of_same c c₁ below g f.well_formed f.same in
      let l₁ = relocate c c₁ a h way g.formed f.well_formed f.same f.located in
      record {
        same = f.same;
        good = g₁;
        located = l₁;
        only = Located-OnlyWay c₁ below a h way g₁ l₁;
      }

  wrote_of_Installed :
      (c c₁ : Cache) (a : ℕ) (l : CacheLine) (m : Mem M) (c' : Cache) (m' : Mem M)
      → contents c₁ ≡ contents c
      → Installed c₁ m.ram m'.ram a l c'
      → WroteL2 c a l.bytes m c' m'
  wrote_of_Installed c c₁ a l m c' m' e i = record {
    good = i.good;
    self = i.self;
    other = λ b ne. i.other b ne ∙ ap (λ x. level x m.ram b) e;
  }

  write_hit :
      (c c₁ : Cache) (a way : ℕ) (f : ℕ → ℕ) (m : Mem M)
      → RamBlock (block a)
      → Ready c m.ram a true way c₁
      → WroteL2 c a f m
          (put_line c₁
            (set_idx c₁ a)
            way
            (record (line_at c₁ (set_idx c₁ a) way) { bytes = f; dirty = true }))
          m
  write_hit c c₁ a way f m r d = wrote_of_Installed c c₁ a l m _ m d.same (
      install c₁ m.ram m.ram a way l d.good d.located.in_range d.only
        (hit_line c₁ a way d.located).0 (hit_line c₁ a way d.located).1
        (hit-Written c₁ m.ram a way d.good.formed d.located) r (λ e. cc))
    where
      l : CacheLine
      l = record (line_at c₁ (set_idx c₁ a) way) { bytes = f; dirty = true }

  -- A line put into the way of a miss, after the victim has gone
  pub fill_miss :
      (c c₁ c₂ : Cache) (a way : ℕ) (l : CacheLine) (m m' : Mem M)
      → RamBlock (block a)
      → Ready c m.ram a false way c₁
      → Evicted c₁ a way m c₂ m'
      → l.valid ≡ true
      → l.tag ≡ tag_of c₂ a
      → (l.dirty ≡ false → (o : ℕ) → o < 64 → l.bytes o ≡ m'.ram (block a * 64 + o))
      → Installed c₂ m.ram m'.ram a l (put_line c₂ (set_idx c₂ a) way l)
  fill_miss c c₁ c₂ a way l m m' r d e val t clean =
      install c₂ m.ram m'.ram a way l (IsGood-of_same c₁ c₂ m.ram d.good e.formed e.same)
        (rw e.shape.2 d.located.in_range) (subst (λ x. OnlyWay x a way) (sym e.same) d.only) val t
        (subst (λ x. Written x a way m.ram m'.ram) (sym e.same) (λ b ne. e.taken b)) r clean

  pub write_l2-WroteL2 :
      (c : Cache) (a : ℕ) (f : ℕ → ℕ) (m : Mem M)
      → IsGood c m.ram
      → RamBlock (block a)
      → let (c', m') = write_l2 bus c a f m in WroteL2 c a f m c' m'
  unfolding write_l2
  write_l2-WroteL2 c a f m g r = elim (Bool-cases (find_line c a).0) [
    | inl e ↦ rw e (write_hit c c₁ a way f m r (subst (λ h. Ready c m.ram a h way c₁) e ready))
    | inr e ↦ rw e (miss (subst (λ h. Ready c m.ram a h way c₁) e ready))
  ]
    where
      way : ℕ
      way = (find_line c a).1

      c₁ : Cache
      c₁ = (find_line c a).2

      ready : Ready c m.ram a (find_line c a).0 way c₁
      ready = find_line-Ready c m.ram a g

      c₂ : Cache
      c₂ = (evict_l2 bus c₁ a (line_at c₁ (set_idx c₁ a) way) m).0

      m' : Mem M
      m' = (evict_l2 bus c₁ a (line_at c₁ (set_idx c₁ a) way) m).1

      l : CacheLine
      l = record {
        valid = true;
        dirty = true;
        tag = tag_of c₂ a;
        last_access = c₂.timer;
        bytes = f;
      }

      miss : Ready c m.ram a false way c₁ → WroteL2 c a f m (put_line c₂ (set_idx c₁ a) way l) m'
      miss d =
          let e = evict_l2-Evicted c₁ a way m d.good d.located.in_range in
          subst (λ k. WroteL2 c a f m (put_line c₂ k way l) m')
            (ap₂ (λ x y. a / 2 ^ x % 2 ^ y) e.shape.1 e.shape.0)
            (wrote_of_Installed c c₂ a l m _ m' (e.same ∙ d.same)
              (fill_miss c c₁ c₂ a way l m m' r d e refl refl (λ q. cc)))
