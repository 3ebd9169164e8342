-- ===== src/Memory/Cache/Transfer/Up.antt =====
-- Fetches: what `load_block`, `read_l2` and `fetch_block` do to the view.
use mathlib.Core.Path.{ap₂}
use sustemu.Base.{
  ℕ, ◌+◌, ◌*◌, ◌/◌, ◌%◌, ◌^◌, ◌<◌, ◌≡◌, refl, sym, ◌∙◌, ap, true, false, arith, Bool-cases, inl,
  inr, subst,
}
use native.Mathlib.Decide.{ℕ_discrete}
use sustemu.Memory.Cache.Lines.{Cache, CacheLine, set_idx, tag_of, put_line, line_at, find_line}
use sustemu.Memory.Cache.Level.{RamBlock, block, level}
use sustemu.Memory.Cache.Lookup.{contents}
use sustemu.Memory.Cache.Install.{IsGood, Installed, hit-level, miss-level, miss-kept}
use sustemu.Memory.Cache.Fetch.{Mem, Bus, load_block, evict_l2, read_l2, block_base, in_ram}
use sustemu.Memory.Cache.Transfer.Down.{
  Evicted, evict_l2-Evicted, Ready, find_line-Ready, fill_miss,
}

-- `addr & ~63` cut to 32 bits, for an address in the guest's memory
load_addr : (a : ℕ) → RamBlock (block a) → block_base a % 2 ^ 32 ≡ block a * 64
load_addr a r = omega arith

module _ {M : Type 0} (bus : Bus M) where
  load_block_lem :
      (a : ℕ) (dest : ℕ → ℕ) (m : Mem M)
      → RamBlock (block a)
      → load_block bus (block_base a) dest m ≡ (λ o. m.ram (block a * 64 + o), m)
  unfolding load_block
  load_block_lem a dest m r = rw (load_addr a r, q) refl
    where
      q : in_ram (block a * 64) ≡ true
      q = ground arith

  pub record ReadL2 (c : Cache) (a : ℕ) (m : Mem M) (f : ℕ → ℕ) (c' : Cache) (m' : Mem M)
      : Type 0 where
    pub good : IsGood c' m'.ram
    pub same : (b : ℕ) → level (contents c') m'.ram b ≡ level (contents c) m.ram b
    pub bytes : (o : ℕ) → o < 64 → f o ≡ level (contents c) m.ram (block a * 64 + o)

  read_hit :
      (c c₁ : Cache) (a way : ℕ) (m : Mem M)
      → Ready bus c m.ram a true way c₁
      → ReadL2 c a m (line_at c₁ (set_idx c₁ a) way).bytes c₁ m
  read_hit c c₁ a way m d = record {
    good = d.good;
    same = λ b. ap (λ x. level x m.ram b) d.same;
    bytes = λ o ho.
        sym (ap (line_at c₁ (set_idx c₁ a) way).bytes (omega arith))
        ∙ sym (hit-level c₁ m.ram a way (block a * 64 + o) d.good d.located (omega arith))
        ∙ ap (λ x. level x m.ram (block a * 64 + o)) d.same;
  }

  read_miss :
      (c c₁ c₂ : Cache) (a way : ℕ) (m m' : Mem M) (l : CacheLine)
      → RamBlock (block a)
      → Ready bus c m.ram a false way c₁
      → Evicted bus c₁ a way m c₂ m'
      → l.valid ≡ true
      → l.tag ≡ tag_of c₂ a
      → l.bytes ≡ (λ o. m'.ram (block a * 64 + o))
      → ReadL2 c a m l.bytes (put_line c₂ (set_idx c₂ a) way l) m'
  read_miss c c₁ c₂ a way m m' l r d e val t fe = record {
    good = i.good;
    same = λ b. elim (ℕ_discrete (block b) (block a)) [
      | yes p ↦ i.self b p ∙ (ap (λ g. g (b % 64)) fe) ∙ ap m'.ram (omega arith) ∙ inside b p
      | no p ↦ i.other b p ∙ ap (λ x. level x m.ram b) (e.same ∙ d.same)
    ];
    bytes = λ o ho. (ap (λ g. g o) fe) ∙ inside (block a * 64 + o) (omega arith);
  }
    where
      i : Installed c₂ m.ram m'.ram a l (put_line c₂ (set_idx c₂ a) way l)
      i = fill_miss bus c c₁ c₂ a way l m m' r d e val t (λ q o ho. (ap (λ g. g o) fe))

      inside : (b : ℕ) → block b ≡ block a → m'.ram b ≡ level (contents c) m.ram b
      inside b p =
          miss-kept c₁ m.ram m'.ram a way b d.good.formed d.located e.taken p d.good.sound.some_set
          ∙ sym (miss-level c₁ m.ram a way b d.good.formed d.located p)
          ∙ ap (λ x. level x m.ram b) d.same

  pub read_l2-ReadL2 :
      (c : Cache) (a : ℕ) (m : Mem M)
      → IsGood c m.ram
      → RamBlock (block a)
      → let (f, c', m') = read_l2 bus c a m in ReadL2 c a m f c' m'
  unfolding read_l2
  read_l2-ReadL2 c a m g r = elim (Bool-cases (find_line c a).0) [
    | inl e ↦ rw e (read_hit c c₁ a way m (subst (λ h. Ready bus c m.ram a h way c₁) e ready))
    | inr e ↦
        rw (e, load_block_lem a (line_at c₁ (set_idx c₁ a) way).bytes m' r)
          (miss (subst (λ h. Ready bus c m.ram a h way c₁) e ready))
  ]
    where
      way : ℕ
      way = (find_line c a).1

      c₁ : Cache
      c₁ = (find_line c a).2

      ready : Ready bus c m.ram a (find_line c a).0 way c₁
      ready = find_line-Ready bus c m.ram a g

      c₂ : Cache
      c₂ = (evict_l2 bus c₁ a (line_at c₁ (set_idx c₁ a) way) m).0

      m' : Mem M
      m' = (evict_l2 bus c₁ a (line_at c₁ (set_idx c₁ a) way) m).1

      l : CacheLine
      l = record {
        valid = true;
        dirty = false;
        tag = tag_of c₂ a;
        last_access = c₂.timer;
        bytes = λ o. m'.ram (block a * 64 + o);
      }

      miss :
          Ready bus c m.ram a false way c₁
          → ReadL2 c a m l.bytes (put_line c₂ (set_idx c₁ a) way l) m'
      miss d =
          let e = evict_l2-Evicted bus c₁ a way m d.good d.located.in_range in
          subst (λ k. ReadL2 c a m l.bytes (put_line c₂ k way l) m')
            (ap₂ (λ x y. a / 2 ^ x % 2 ^ y) e.shape.1 e.shape.0)
            (read_miss c c₁ c₂ a way m m' l r d e refl refl refl)
