-- ===== src/Memory/Cache/Level/Moves.antt =====
-- What one operation on a level may do, seen from another level over the same memory: lines of other
-- blocks only disappear, and what is below changes only where a dirty line was.
use sustemu.Base.{
  ℕ, ◌+◌, ◌*◌, ◌<◌, ◌≡◌, ◌≢◌, refl, sym, ◌∙◌, ap, subst, Bool, true, false, arith, Bool-cases, inl,
  inr, ◌⊎◌,
}
use native.Mathlib.Decide.{ℕ_discrete}
use sustemu.Memory.Cache.Level.{Level, Content, IsSound, block, idx, tg, hit, block_of, put}
use sustemu.Memory.Cache.Level.Laws.{
  idx_of_block, tg_of_block, hit_parts, hit_of_parts, not_true, block_eq,
}

-- Whether way i of a level holds an address, and whether its line for the address is dirty
abbrev pub holds : Level → ℕ → ℕ → Bool
holds c x i = hit (c.line (idx c x) i) (tg c x)

abbrev pub dirty : Level → ℕ → ℕ → Bool
dirty c x i = (c.line (idx c x) i).dirty

-- No way of a level holds an address.
abbrev pub IsAbsent : Level → ℕ → Type 0
IsAbsent c x = (i : ℕ) → i < c.ways → holds c x i ≡ false

-- No way of a level holds an address with a dirty line.
abbrev pub IsUnwritten : Level → ℕ → Type 0
IsUnwritten c x = (i : ℕ) → i < c.ways → holds c x i ≡ true → dirty c x i ≡ false

pub record Moves (c c' : Level) (below below' : ℕ → ℕ) (a : ℕ) : Type 0 where
  pub ways : c'.ways ≡ c.ways
  pub away :
      (x i : ℕ)
      → block x ≢ block a
      → i < c.ways
      → holds c' x i ≡ true
      → (holds c x i ≡ true) × (dirty c' x i ≡ dirty c x i)
  pub kept : (x : ℕ) → IsUnwritten c x → below' x ≡ below x

-- Nor is a line of the address's own block more written than it was.
pub record Reads (c c' : Level) (below below' : ℕ → ℕ) (a : ℕ) : Type 0 where
  pub moves : Moves c c' below below' a
  pub here :
      (x i : ℕ)
      → block x ≡ block a
      → i < c.ways
      → holds c' x i ≡ true
      → dirty c' x i ≡ true
      → (holds c x i ≡ true) × (dirty c x i ≡ true)

pub Reads-refl : (c c' : Level) (below : ℕ → ℕ) (a : ℕ) → c' ≡ c → Reads c c' below below a
Reads-refl c c' below a e =
    subst (λ z. Reads c z below below a) (sym e)
      (record {
        moves = record { ways = refl; away = λ x i ne hi h. (h, refl); kept = λ x u. refl };
        here = λ x i p hi h d. (h, d);
      })

-- An operation and then a line of the same address put over the same memory
pub Moves-then :
    (c c' c'' : Level) (below below' : ℕ → ℕ) (a : ℕ)
    → Moves c c' below below' a
    → Moves c' c'' below' below' a
    → Moves c c'' below below' a
Moves-then c c' c'' below below' a m n = record {
  ways = n.ways ∙ m.ways;
  away = λ x i ne hi h.
      let (h', e') = n.away x i ne (subst (λ w. i < w) (sym m.ways) hi) h in
      let (h'', e'') = m.away x i ne hi h' in (h'', e' ∙ e'');
  kept = m.kept;
}

pub is_new :
    (c : Level) (a v x i : ℕ) → ((idx c x ≡ idx c a) × (i ≡ v)) ⊎ ((idx c x ≢ idx c a) ⊎ (i ≢ v))
is_new c a v x i = elim (ℕ_discrete (idx c x) (idx c a)) [
  | yes p ↦ elim (ℕ_discrete i v) [ yes q ↦ inl (p, q) | no q ↦ inr (inr q) ]
  | no p ↦ inr (inl p)
]

pub new_line :
    (c : Level) (a v : ℕ) (n : Content) (x i : ℕ)
    → idx c x ≡ idx c a
    → i ≡ v
    → (put c (idx c a) v n).line (idx c x) i ≡ n
new_line c a v n x i p q = ground arith

pub old_line :
    (c : Level) (a v : ℕ) (n : Content) (x i : ℕ)
    → (idx c x ≢ idx c a) ⊎ (i ≢ v)
    → (put c (idx c a) v n).line (idx c x) i ≡ c.line (idx c x) i
old_line c a v n x i p = ground arith

-- In another block the line of a way that holds an address was there before a `put`.
pub put-line_away :
    (c : Level) (a v : ℕ) (n : Content) (x i : ℕ)
    → (n.valid ≡ true → n.tag ≡ tg c a)
    → block x ≢ block a
    → holds (put c (idx c a) v n) x i ≡ true
    → (put c (idx c a) v n).line (idx c x) i ≡ c.line (idx c x) i
put-line_away c a v n x i t ne h = elim (ℕ_discrete (idx c x) (idx c a)) [
  | no p ↦ old_line c a v n x i (inl p)
  | yes p ↦ elim (ℕ_discrete i v) [
    | no q ↦ old_line c a v n x i (inr q)
    | yes q ↦
        let (val, e) =
          hit_parts n (tg c x) (subst (λ l. hit l (tg c x) ≡ true) (new_line c a v n x i p q) h) in
        absurd (ne (block_eq c x a p (sym e ∙ t val)))
  ]
]

module _ (c : Level) (below below' : ℕ → ℕ) (a v : ℕ) (n : Content)
    (t : n.valid ≡ true → n.tag ≡ tg c a)
    (kept : (x : ℕ) → IsUnwritten c x → below' x ≡ below x) where
  abbrev after : Level
  after = put c (idx c a) v n

  pub put-Moves : Moves c after below below' a
  put-Moves = record {
    ways = refl;
    away = λ x i ne hi h.
        let e = put-line_away c a v n x i t ne h in
        (subst (λ l. hit l (tg c x) ≡ true) e h, ap (λ l. l.dirty) e);
    kept = kept;
  }

  pub put-Reads : (n.valid ≡ true → n.dirty ≡ false) → Reads c after below below' a
  put-Reads clean = record {
    moves = put-Moves;
    here = λ x i p hi h d. elim (is_new c a v x i) [
      | inl (q, r) ↦
          let e = new_line c a v n x i q r in
          absurd (
            not_true (clean (hit_parts n (tg c x) (subst (λ l. hit l (tg c x) ≡ true) e h)).0)
              (ap (λ l. l.dirty) (sym e) ∙ d))
      | inr q ↦
          let e = old_line c a v n x i q in
          (subst (λ l. hit l (tg c x) ≡ true) e h, ap (λ l. l.dirty) (sym e) ∙ d)
    ];
  }

-- Two levels over one memory: a block that one has written the other does not hold.
pub record IsApart (c d : Level) : Type 0 where
  pub apart : (x i : ℕ) → i < c.ways → holds c x i ≡ true → dirty c x i ≡ true → IsAbsent d x

-- The other level stays sound when what is below changes only where the first had written.
pub Moves-IsSound :
    (c c' d : Level) (below below' : ℕ → ℕ) (a : ℕ)
    → Moves c c' below below' a
    → IsApart c d
    → IsSound d below
    → IsSound d below'
Moves-IsSound c c' d below below' a m p s = record {
  some_set = s.some_set;
  unique = s.unique;
  in_ram = s.in_ram;
  clean = λ k i hk hi val cl o ho.
      s.clean k i hk hi val cl o ho ∙ sym (m.kept (addr k i o) (unwritten k i o hk hi ho val));
}
  where
    addr : ℕ → ℕ → ℕ → ℕ
    addr k i o = block_of d k (d.line k i).tag * 64 + o

    held :
        (k i o : ℕ)
        → k < d.nsets
        → o < 64
        → (d.line k i).valid ≡ true
        → holds d (addr k i o) i ≡ true
    held k i o hk ho val =
        rw
          (
            idx_of_block d k (d.line k i).tag (addr k i o) hk (omega arith),
            tg_of_block d k (d.line k i).tag (addr k i o) hk (omega arith),
          )
          (hit_of_parts (d.line k i) (d.line k i).tag val refl)

    unwritten :
        (k i o : ℕ)
        → k < d.nsets
        → i < d.ways
        → o < 64
        → (d.line k i).valid ≡ true
        → IsUnwritten c (addr k i o)
    unwritten k i o hk hi ho val j hj h = elim (Bool-cases (dirty c (addr k i o) j)) [
      | inr e ↦ e
      | inl e ↦ absurd (not_true (p.apart (addr k i o) j hj h e i hi) (held k i o hk ho val))
    ]

-- A dirty line of the first level stays alone, when the other does not hold its own block or the
-- operation only reads.
pub Reads-IsApart :
    (c c' d : Level) (below below' : ℕ → ℕ) (a : ℕ)
    → Reads c c' below below' a
    → IsApart c d
    → IsApart c' d
Reads-IsApart c c' d below below' a r p = record {
  apart = λ x i hi h e. elim (ℕ_discrete (block x) (block a)) [
    | yes q ↦ let (h', e') = r.here x i q (size i hi) h e in p.apart x i (size i hi) h' e'
    | no q ↦
        let (h', e') = r.moves.away x i q (size i hi) h in p.apart x i (size i hi) h' (sym e' ∙ e)
  ];
}
  where
    size : (i : ℕ) → i < c'.ways → i < c.ways
    size i hi = subst (λ n. i < n) r.moves.ways hi

pub Moves-IsApart :
    (c c' d : Level) (below below' : ℕ → ℕ) (a : ℕ)
    → Moves c c' below below' a
    → ((x : ℕ) → block x ≡ block a → IsAbsent d x)
    → IsApart c d
    → IsApart c' d
Moves-IsApart c c' d below below' a m free p = record {
  apart = λ x i hi h e. elim (ℕ_discrete (block x) (block a)) [
    | yes q ↦ free x q
    | no q ↦ let (h', e') = m.away x i q (size i hi) h in p.apart x i (size i hi) h' (sym e' ∙ e)
  ];
}
  where
    size : (i : ℕ) → i < c'.ways → i < c.ways
    size i hi = subst (λ n. i < n) m.ways hi

-- A dirty line of the other level stays alone, when the other has not written the operation's block.
pub Moves-IsApart_from :
    (c c' d : Level) (below below' : ℕ → ℕ) (a : ℕ)
    → Moves c c' below below' a
    → ((x : ℕ) → block x ≡ block a → IsUnwritten d x)
    → IsApart d c
    → IsApart d c'
Moves-IsApart_from c c' d below below' a m free p = record {
  apart = λ x i hi h e j hj. elim (ℕ_discrete (block x) (block a)) [
    | yes q ↦ absurd (not_true (free x q i hi h) e)
    | no q ↦ elim (Bool-cases (holds c' x j)) [
      | inr f ↦ f
      | inl t ↦
          let hj' = subst (λ n. j < n) m.ways hj in
          absurd (not_true (p.apart x i hi h e j hj') (m.away x j q hj' t).0)
    ]
  ];
}
