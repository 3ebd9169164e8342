-- ===== src/Memory/Cache/Lookup.antt =====
-- What `find_line` and `find_line_quiet` promise: the way they return, and that nothing but the
-- replacement state and the statistics changes.
use mathlib.Core.Path.{ap₂}
use native.Mathlib.Decide.{ℕ_discrete}
use native.Mathlib.Nat.{div-div-eq-div-mul}
use native.Mathlib.Numerals.{towards_suc}
use sustemu.Base.{
  ℕ, zero, suc, ◌+◌, ◌-◌, ◌*◌, ◌^◌, ◌≤◌, ◌<◌, ◌≡◌, refl, sym, ◌∙◌, ap, fun_ext, Bool, true, false,
  Option, some, ◌==◌, arith, Bool-cases, Option-cases, inl, inr, subst,
}
use sustemu.Word.{add64}
use sustemu.Memory.Cache.Lines.{
  Cache, CacheLine, set_idx, tag_of, line_hits, scan_ways, locate, put_line, line_at, set_mru,
  find_line, find_line_quiet,
}
use sustemu.Memory.Cache.Level.{Level, Content, put, idx, tg, hit}

abbrev pub content : CacheLine → Content
content l = record { valid = l.valid; dirty = l.dirty; tag = l.tag; bytes = l.bytes }

-- A cache without its replacement state and statistics
abbrev pub contents : Cache → Level
contents c = record { nsets = 2 ^ c.s; ways = c.w; line = λ k i. content (line_at c k i) }

pub record IsWellFormed (c : Cache) : Type 0 where
  pub offset : c.off ≡ 6
  pub some_way : 0 < c.w
  pub mru_in : (k m : ℕ) → (c.sets k).mru_way ≡ some m → m < c.w

pub set_idx-contents : (c : Cache) (a : ℕ) → c.off ≡ 6 → set_idx c a ≡ idx (contents c) a
set_idx-contents c a e = rw e refl

two_pow_add_six : (s : ℕ) → 2 ^ (s + 6) ≡ 64 * 2 ^ s
two_pow_add_six s = simp towards_suc (omega arith)

pub tag_of-contents : (c : Cache) (a : ℕ) → c.off ≡ 6 → tag_of c a ≡ tg (contents c) a
tag_of-contents c a e = rw (e, two_pow_add_six c.s) (sym (div-div-eq-div-mul a 64 (2 ^ c.s)))

pub contents-put_line :
    (c : Cache) (k i : ℕ) (l : CacheLine)
    → contents (put_line c k i l) ≡ put (contents c) k i (content l)
contents-put_line c k i l =
    ap (λ (f : ℕ → ℕ → Content). record { nsets = 2 ^ c.s; ways = c.w; line = f })
      (fun_ext λ k'. fun_ext λ i'. ground arith)

-- A stamp on a line does not show.
pub contents-set_mru : (c : Cache) (k i : ℕ) → contents (set_mru c k i) ≡ contents c
contents-set_mru c k i =
    ap (λ (f : ℕ → ℕ → Content). record { nsets = 2 ^ c.s; ways = c.w; line = f })
      (fun_ext λ k'. fun_ext λ i'. ground arith)

-- What a lookup settles on: a way in range; on a hit its line matches, on a miss no line does.
pub record Located (c : Cache) (a : ℕ) (h : Bool) (way : ℕ) : Type 0 where
  pub in_range : way < c.w
  pub matches : h ≡ true → line_hits (line_at c (set_idx c a) way) (tag_of c a) ≡ true
  pub misses :
      h ≡ false → (i : ℕ) → i < c.w → line_hits (line_at c (set_idx c a) i) (tag_of c a) ≡ false

record Scanned (lines : ℕ → CacheLine) (t i n : ℕ) (h : Bool) (way : ℕ) : Type 0 where
  in_range : way < i + n
  matches : h ≡ true → line_hits (lines way) t ≡ true
  misses : h ≡ false → (j : ℕ) → i ≤ j → j < i + n → line_hits (lines j) t ≡ false

skip_way :
    {lines : ℕ → CacheLine} {t i n : ℕ} {h : Bool} {way : ℕ}
    → line_hits (lines i) t ≡ false
    → Scanned lines t (i + 1) n h way
    → Scanned lines t i (suc n) h way
skip_way {lines} {t} {i} e r = record {
  in_range = omega (arith, r.in_range);
  matches = r.matches;
  misses = λ q j lo hi. elim (ℕ_discrete i j) [
    | yes p ↦ subst (λ x. line_hits (lines x) t ≡ false) p e
    | no p ↦ r.misses q j (omega arith) (omega arith)
  ];
}

scan_ways-Scanned :
    (n i : ℕ) (lines : ℕ → CacheLine) (t min_time lru : ℕ)
    → lru < i + n
    → let (h, way) = scan_ways n i lines t min_time lru in Scanned lines t i n h way
unfolding scan_ways
scan_ways-Scanned zero i lines t min_time lru h = record {
  in_range = h;
  matches = λ e. cc;
  misses = λ e j lo hi. absurd (omega arith);
}
scan_ways-Scanned (suc n) i lines t min_time lru h = elim (Bool-cases (line_hits (lines i) t)) [
  | inl e ↦ rw e (record { in_range = omega arith; matches = λ _. e; misses = λ q j lo hi. cc })
  | inr e ↦ rw e (skip_way e (scan_ways-Scanned n (i + 1) lines t _ _ (ground arith)))
]

pub locate-Located :
    (c : Cache) (a : ℕ) → IsWellFormed c → let (h, way) = locate c a in Located c a h way
unfolding locate
locate-Located c a v = elim (Option-cases mru) [
  | inl e ↦ rw (e, locate) scanned
  | inr (m, e) ↦ elim (Bool-cases (line_hits (line_at c k m) t)) [
    | inl q ↦
        rw (e, q, locate) (record { in_range = v.mru_in k m e; matches = λ _. q; misses = λ p. cc })
    | inr q ↦ rw (e, q, locate) scanned
  ]
]
  where
    k : ℕ
    k = set_idx c a

    t : ℕ
    t = tag_of c a

    mru : Option ℕ
    mru = (c.sets k).mru_way

    scanned :
        let (h, way) = scan_ways c.w 0 (c.sets (set_idx c a)).lines (tag_of c a) (2 ^ 64 - 1) 0 in
        Located c a h way
    scanned =
        let r =
          scan_ways-Scanned c.w 0 (c.sets (set_idx c a)).lines (tag_of c a) (2 ^ 64 - 1) 0
            (omega (arith, v.some_way)) in
        record {
          in_range = omega (arith, r.in_range);
          matches = r.matches;
          misses = λ p i hi. r.misses p i (omega arith) (omega arith);
        }

hit_at :
    (c : Cache) (a i : ℕ)
    → IsWellFormed c
    → line_hits (line_at c (set_idx c a) i) (tag_of c a)
      ≡ hit ((contents c).line (idx (contents c) a) i) (tg (contents c) a)
hit_at c a i v =
    ap₂ (λ x y. hit (content (line_at c x i)) y) (set_idx-contents c a v.offset)
      (tag_of-contents c a v.offset)

-- A lookup's verdict holds of any cache with the same contents.
pub relocate :
    (c c' : Cache) (a : ℕ) (h : Bool) (way : ℕ)
    → IsWellFormed c
    → IsWellFormed c'
    → contents c' ≡ contents c
    → Located c a h way
    → Located c' a h way
relocate c c' a h way v v' same l = record {
  in_range = subst (λ x. way < x) (sym width) l.in_range;
  matches = λ e. eq way ∙ l.matches e;
  misses = λ e i hi. eq i ∙ l.misses e i (subst (λ x. i < x) width hi);
}
  where
    width : c'.w ≡ c.w
    width = ap (λ x. x.ways) same

    eq :
        (i : ℕ)
        → line_hits (line_at c' (set_idx c' a) i) (tag_of c' a)
          ≡ line_hits (line_at c (set_idx c a) i) (tag_of c a)
    eq i =
        hit_at c' a i v' ∙ ap (λ x. hit (x.line (idx x a) i) (tg x a)) same ∙ sym (hit_at c a i v)

-- `find_line` returns the located way and changes only the replacement state.
pub record Found (c : Cache) (a : ℕ) (h : Bool) (way : ℕ) (c' : Cache) : Type 0 where
  pub located : Located c a h way
  pub same : contents c' ≡ contents c
  pub same_shape : (c'.s ≡ c.s) × (c'.off ≡ c.off) × (c'.w ≡ c.w)
  pub well_formed : IsWellFormed c'

pub put_line-IsWellFormed :
    {c : Cache} (k i : ℕ) (l : CacheLine) → IsWellFormed c → IsWellFormed (put_line c k i l)
put_line-IsWellFormed {c} k i l v = record {
  offset = v.offset;
  some_way = v.some_way;
  mru_in = λ k' m e. elim (Bool-cases (k' == k)) [
    | inl q ↦ v.mru_in k m (rw q at e)
    | inr q ↦ v.mru_in k' m (rw q at e)
  ];
}

some_eq : {x y : ℕ} → some x ≡ some y → x ≡ y
some_eq e = cc

set_mru-IsWellFormed :
    {c : Cache} (k i : ℕ) → i < c.w → IsWellFormed c → IsWellFormed (set_mru c k i)
set_mru-IsWellFormed {c} k i h v = record {
  offset = v.offset;
  some_way = v.some_way;
  mru_in = λ k' m e. elim (Bool-cases (k' == k)) [
    | inl q ↦ subst (λ x. x < c.w) (some_eq (rw q at e)) h
    | inr q ↦ v.mru_in k' m (rw q at e)
  ];
}

put_same : (c : Level) (k i : ℕ) → put c k i (c.line k i) ≡ c
put_same c k i =
    ap (λ (f : ℕ → ℕ → Content). record c { line = f }) (fun_ext λ k'. fun_ext λ i'. ground arith)

pub find_line-Found :
    (c : Cache) (a : ℕ) → IsWellFormed c → let (h, way, c') = find_line c a in Found c a h way c'
unfolding find_line
find_line-Found c a v = elim (Bool-cases (locate c a).0) [
  | inl e ↦ rw e (record {
    located = subst (λ x. Located c a x (locate c a).1) e (locate-Located c a v);
    same =
        contents-set_mru (put_line c k way stamped) k way
        ∙ contents-put_line c k way stamped
        ∙ put_same (contents c) k way;
    same_shape = (refl, refl, refl);
    well_formed = record { offset = v.offset; some_way = v.some_way; mru_in = ok.mru_in };
  })
  | inr e ↦ rw e (record {
    located = subst (λ x. Located c a x (locate c a).1) e (locate-Located c a v);
    same = refl;
    same_shape = (refl, refl, refl);
    well_formed = record { offset = v.offset; some_way = v.some_way; mru_in = v.mru_in };
  })
]
  where
    k : ℕ
    k = set_idx c a

    way : ℕ
    way = (locate c a).1

    stamped : CacheLine
    stamped = record (line_at c k way) { last_access = add64 c.timer 1 }

    ok : IsWellFormed (set_mru (put_line c k way stamped) k way)
    ok =
        set_mru-IsWellFormed k way ((locate-Located c a v).in_range)
          (put_line-IsWellFormed k way stamped v)

pub find_line_quiet-Found :
    (c : Cache) (a : ℕ)
    → IsWellFormed c
    → let (h, way, c') = find_line_quiet c a in Found c a h way c'
unfolding find_line_quiet
find_line_quiet-Found c a v = elim (Bool-cases (locate c a).0) [
  | inl e ↦ rw e (record {
    located = subst (λ x. Located c a x (locate c a).1) e (locate-Located c a v);
    same = contents-set_mru c (set_idx c a) (locate c a).1;
    same_shape = (refl, refl, refl);
    well_formed =
        set_mru-IsWellFormed (set_idx c a) (locate c a).1 ((locate-Located c a v).in_range) v;
  })
  | inr e ↦ rw e (record {
    located = subst (λ x. Located c a x (locate c a).1) e (locate-Located c a v);
    same = refl;
    same_shape = (refl, refl, refl);
    well_formed = v;
  })
]
