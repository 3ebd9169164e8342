-- ===== src/Memory/Cache/Level/Share.antt =====
-- Two levels over one memory, and what an operation on one of them leaves of their agreement.
use sustemu.Base.{
  ℕ, ◌%◌, ◌<◌, ◌≡◌, sym, ◌∙◌, ap, subst, true, Bool-cases, Option-cases, inl, inr, arith,
}
use native.Mathlib.Nat.{mod-lt}
use sustemu.Memory.Cache.Level.{Level, IsSound, block, idx, tg, holder, level}
use sustemu.Memory.Cache.Level.Laws.{
  hit_parts, not_true, block_split, holder-hit, holder-none-miss, level_of_holder, level_of_none,
}
use sustemu.Memory.Cache.Level.Moves.{
  Moves, IsApart, IsAbsent, IsUnwritten, holds, dirty, Moves-IsSound,
}

-- Both levels are sound, no block that one has written is in the other, and where the other has not
-- written, each shows the flat memory.
pub record IsShared (c d : Level) (below flat : ℕ → ℕ) : Type 0 where
  pub sound_c : IsSound c below
  pub sound_d : IsSound d below
  pub apart_c : IsApart c d
  pub apart_d : IsApart d c
  pub see_c : (x : ℕ) → IsUnwritten d x → level c below x ≡ flat x
  pub see_d : (x : ℕ) → IsUnwritten c x → level d below x ≡ flat x

pub IsShared-swap :
    {c d : Level} {below flat : ℕ → ℕ} → IsShared c d below flat → IsShared d c below flat
IsShared-swap s = record {
  sound_c = s.sound_d;
  sound_d = s.sound_c;
  apart_c = s.apart_d;
  apart_d = s.apart_c;
  see_c = s.see_d;
  see_d = s.see_c;
}

-- Where a level has not written, it shows what is below.
pub unwritten-level :
    (c : Level) (below : ℕ → ℕ) (x : ℕ)
    → IsSound c below
    → IsUnwritten c x
    → level c below x ≡ below x
unwritten-level c below x s u = elim (Option-cases (holder c x)) [
  | inl e ↦ level_of_none c below x e
  | inr (i, e) ↦
      let (hi, h) = holder-hit c x i e in
      let (val, t) = hit_parts (c.line (idx c x) i) (tg c x) h in
      level_of_holder c below x i e
      ∙ s.clean (idx c x) i (mod-lt (block x) s.some_set) hi val (u i hi h) (x % 64)
          (mod-lt x (omega arith))
      ∙ ap below (rw t (block_split c x))
]

pub IsAbsent-IsUnwritten : (c : Level) (x : ℕ) → IsAbsent c x → IsUnwritten c x
IsAbsent-IsUnwritten c x f i hi h = absurd (not_true (f i hi) h)

-- A level that another does not share a dirty line with has not written what the other holds.
pub held-IsUnwritten :
    (c d : Level) (x j : ℕ) → IsApart c d → j < d.ways → holds d x j ≡ true → IsUnwritten c x
held-IsUnwritten c d x j p hj t i hi h = elim (Bool-cases (dirty c x i)) [
  | inr e ↦ e
  | inl e ↦ absurd (not_true (p.apart x i hi h e j hj) t)
]

-- A level with fewer lines stays apart from the other's dirty ones.
pub fewer-IsApart :
    (c c' d : Level)
    → c'.ways ≡ c.ways
    → ((x i : ℕ) → i < c.ways → holds c' x i ≡ true → holds c x i ≡ true)
    → IsApart d c
    → IsApart d c'
fewer-IsApart c c' d w f p = record {
  apart = λ x i hi h e j hj. elim (Bool-cases (holds c' x j)) [
    | inr q ↦ q
    | inl q ↦
        let hj' = subst (λ n. j < n) w hj in
        absurd (not_true (p.apart x i hi h e j hj') (f x j hj' q))
  ];
}

-- The agreement goes on when the one level shows the new flat memory wherever it showed the old one,
-- and the flat memory has not changed at what the other level holds.
pub IsShared-step :
    (c c' d : Level) (below below' flat flat' : ℕ → ℕ) (a : ℕ)
    → IsShared c d below flat
    → Moves c c' below below' a
    → IsSound c' below'
    → IsApart c' d
    → IsApart d c'
    → ((x : ℕ) → level c below x ≡ flat x → level c' below' x ≡ flat' x)
    → ((x j : ℕ) → j < d.ways → holds d x j ≡ true → flat' x ≡ flat x)
    → IsShared c' d below' flat'
IsShared-step c c' d below below' flat flat' a s m sound apart_c apart_d shows kept = record {
  sound_c = sound;
  sound_d = Moves-IsSound c c' d below below' a m s.apart_c s.sound_d;
  apart_c = apart_c;
  apart_d = apart_d;
  see_c = λ x u. shows x (s.see_c x u);
  see_d = λ x u. elim (Option-cases (holder d x)) [
    | inl e ↦
        level_of_none d below' x e
        ∙ sym (unwritten-level c' below' x sound u)
        ∙ shows x (s.see_c x (IsAbsent-IsUnwritten d x (λ i hi. holder-none-miss d x i e hi)))
    | inr (j, e) ↦
        let (hj, h) = holder-hit d x j e in
        level_of_holder d below' x j e
        ∙ sym (level_of_holder d below x j e)
        ∙ s.see_d x (held-IsUnwritten c d x j s.apart_c hj h)
        ∙ sym (kept x j hj h)
  ];
}
