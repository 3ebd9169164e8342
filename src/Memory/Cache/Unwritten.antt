-- ===== src/Memory/Cache/Unwritten.antt =====
-- An eviction changes what is below only where the level had written.
use native.Mathlib.Nat.{mod-lt}
use sustemu.Base.{
  ℕ, ◌^◌, ◌<◌, ◌≡◌, refl, sym, ap, ◌∙◌, true, false, ◌==◌, ◌&&◌, Bool-cases, inl, inr, ==→eq, arith,
}
use sustemu.Memory.Cache.Lines.{Cache, CacheLine, line_at, put_line, set_idx}
use sustemu.Memory.Cache.Level.{idx, block, block_of, put}
use sustemu.Memory.Cache.Level.Laws.{idx_of_block, tg_of_block, hit_of_parts}
use sustemu.Memory.Cache.Level.Moves.{IsUnwritten}
use sustemu.Memory.Cache.Lookup.{content, contents, set_idx-contents, contents-put_line}
use sustemu.Memory.Cache.Install.{Taken}

pub Taken-kept :
    (c : Cache) (a way : ℕ) (below below' : ℕ → ℕ)
    → Taken c a way below below'
    → way < c.w
    → 0 < 2 ^ c.s
    → (x : ℕ) → IsUnwritten (contents c) x
    → below' x ≡ below x
Taken-kept c a way below below' taken hw pos x u = taken x ∙ rw never refl
  where
    k : ℕ
    k = idx (contents c) a

    l : CacheLine
    l = line_at c k way

    clean : l.valid ≡ true → (block x == block_of (contents c) k l.tag) ≡ true → l.dirty ≡ false
    clean v e =
        let b = ==→eq _ _ e in
        let p = idx_of_block (contents c) k l.tag x (mod-lt (block a) pos) b in
        let t = tg_of_block (contents c) k l.tag x (mod-lt (block a) pos) b in
        ap (λ i. (line_at c i way).dirty) (sym p)
        ∙ u way hw (rw (p, t) (hit_of_parts (content l) l.tag v refl))

    never : (l.valid && (l.dirty && block x == block_of (contents c) k l.tag)) ≡ false
    never = elim (Bool-cases l.valid) [
      | inr v ↦ rw v refl
      | inl v ↦ elim (Bool-cases (block x == block_of (contents c) k l.tag)) [
        | inr e ↦ ground (arith, e)
        | inl e ↦ rw (clean v e) (ground arith)
      ]
    ]

-- A line put into a cache, on the level
pub put_line-put :
    (c : Cache) (a way : ℕ) (l : CacheLine)
    → c.off ≡ 6
    → contents (put_line c (set_idx c a) way l)
      ≡ put (contents c) (idx (contents c) a) way (content l)
put_line-put c a way l e =
    contents-put_line c (set_idx c a) way l
    ∙ ap (λ x. put (contents c) x way (content l)) (set_idx-contents c a e)
