-- ===== src/Memory/Cache/Transparent/Probe.antt =====
-- `cache_probe_level` and `cache_read_level`: looking which level holds an address shows nothing new.
use sustemu.Base.{
  refl, ℕ, ◌%◌, ◌≡◌, sym, ◌∙◌, ap, subst, Bool, true, false, some, none, Option, Bool-cases, inl,
  inr, if◌then◌else◌,
}
use sustemu.Memory.Bytes.{le_read}
use sustemu.Memory.Cache.Lines.{Cache, find_line, find_line_quiet, set_idx, line_at}
use sustemu.Memory.Cache.Level.{Fits, level, RamBlock, block}
use sustemu.Memory.Cache.Lookup.{contents, Located, find_line_quiet-Found}
use sustemu.Memory.Cache.Install.{IsGood, IsGood-of_same}
use sustemu.Memory.Cache.Fetch.{Bus, Hier, fetch_block, cache_prefetch}
use sustemu.Memory.Cache.Access.{cache_probe_level, cache_read_level, read_line}
use sustemu.Memory.Cache.Transfer.Down.{Ready, find_line-Ready}
use mathlib.Core.Path.{subst₂}
use sustemu.Memory.Cache.Level.Moves.{Reads, Reads-refl}
use sustemu.Memory.Cache.Transparent.Fill.{lower, view, IsCoherent, Filled, fetch_block-Filled}
use sustemu.Memory.Cache.Transparent.Entry.{looked, read_line-Filled}

-- What holds of a hierarchy that shows what another shows
pub record IsSeenAs {M : Type 0} (h h' : Hier M) : Type 0 where
  pub coherent : IsCoherent h'
  pub same : (b : ℕ) → view h' b ≡ view h b

module _ {M : Type 0} (bus : Bus M) where
  quiet_l1 :
      (h : Hier M) (a : ℕ)
      → IsCoherent h
      → IsSeenAs h (record h { l1 = (find_line_quiet h.l1 a).2 })
  quiet_l1 h a g =
      let f = find_line_quiet-Found h.l1 a g.good_l1.formed in
      record {
        coherent = record {
          good_l1 =
              IsGood-of_same h.l1 (find_line_quiet h.l1 a).2 (lower h) g.good_l1 f.well_formed
                f.same;
          good_l2 = g.good_l2;
        };
        same = λ b. ap (λ x. level x (lower h) b) f.same;
      }

  quiet_l2 :
      (h : Hier M) (a : ℕ)
      → IsCoherent h
      → IsSeenAs h (record h { l2 = (find_line_quiet h.l2 a).2 })
  quiet_l2 h a g =
      let l2 = (find_line_quiet h.l2 a).2 in
      let f = find_line_quiet-Found h.l2 a g.good_l2.formed in
      record {
        coherent = record {
          good_l1 = subst (λ x. IsGood h.l1 (level x h.mem.ram)) (sym f.same) g.good_l1;
          good_l2 = IsGood-of_same h.l2 l2 h.mem.ram g.good_l2 f.well_formed f.same;
        };
        same = λ b. ap (λ x. level (contents h.l1) (level x h.mem.ram) b) f.same;
      }

  -- A probe of the levels leaves a coherent hierarchy coherent and showing the same everywhere, although it
  -- may move the way that a set tries first.
  pub cache_probe_level-IsSeenAs :
      (h : Hier M) (a : ℕ) → IsCoherent h → IsSeenAs h (cache_probe_level bus h a).1
  unfolding cache_probe_level
  cache_probe_level-IsSeenAs h a g = elim (Bool-cases (find_line_quiet h.l1 a).0) [
    | inl e ↦ rw e one
    | inr e ↦ rw e both
  ]
    where
      one : IsSeenAs h (record h { l1 = (find_line_quiet h.l1 a).2 })
      one = quiet_l1 h a g

      h₁ : Hier M
      h₁ = record h { l1 = (find_line_quiet h.l1 a).2 }

      two : IsSeenAs h₁ (record h₁ { l2 = (find_line_quiet h₁.l2 a).2 })
      two = quiet_l2 h₁ a one.coherent

      both : IsSeenAs h (record h₁ { l2 = (find_line_quiet h₁.l2 a).2 })
      both = record { coherent = two.coherent; same = λ b. two.same b ∙ one.same b }

  -- What it does, to the program and to another level over the same memory
  pub cache_read_level-Reads :
      (h : Hier M) (a len : ℕ)
      → IsCoherent h
      → RamBlock (block a)
      → Fits a len
      → (n : ℕ) × (h' : Hier M) × (cache_read_level bus h a len
          ≡ some (n, le_read len (view h) a, h'))
        × IsSeenAs h h'
        × Reads (contents h.l1) (contents h'.l1) (lower h) (lower h') a
  unfolding cache_read_level
  cache_read_level-Reads h a len g r fits = elim (Bool-cases (find_line h.l1 a).0) [
    | inl e ↦
        let f = hit (subst (λ x. Located l1 a x way) e ready.located) in
        (
          0,
          h₁,
          ap body e ∙ ap (finish 0 h₁) (read_line-Filled bus h a len way h₁ f fits),
          record { coherent = f.coherent; same = f.same },
          f.reads,
        )
    | inr e ↦
        let f = missed (subst (λ x. Located l1 a x way) e ready.located) in
        (
          if (find_line_quiet h.l2 a).0 then 1 else 2,
          h₃,
          ap body e
              ∙ ap (finish (if (find_line_quiet h.l2 a).0 then 1 else 2) h₃)
                  (read_line-Filled bus h a len way h₃ f fits),
          record { coherent = f.coherent; same = f.same },
          f.reads,
        )
  ]
    where
      way : ℕ
      way = (find_line h.l1 a).1

      l1 : Cache
      l1 = (find_line h.l1 a).2

      ready : Ready bus h.l1 (lower h) a (find_line h.l1 a).0 way l1
      ready = find_line-Ready bus h.l1 (lower h) a g.good_l1

      h₁ : Hier M
      h₁ = record h { l1 = l1 }

      seen : IsCoherent h₁ × ((b : ℕ) → view h₁ b ≡ view h b)
      seen = looked bus h a way (find_line h.l1 a).0 l1 g ready

      hit : Located l1 a true way → Filled bus h a way h₁
      hit d = record {
        coherent = seen.0;
        same = seen.1;
        located = d;
        reads = Reads-refl (contents h.l1) (contents l1) (lower h) a ready.same;
      }

      h₂ : Hier M
      h₂ = record h₁ { l2 = (find_line_quiet h₁.l2 a).2 }

      quiet : IsSeenAs h₁ h₂
      quiet = quiet_l2 h₁ a seen.0

      h₃ : Hier M
      h₃ = fetch_block bus h₂ a way

      missed : Located l1 a false way → Filled bus h a way h₃
      missed d =
          let f = fetch_block-Filled bus h₂ a way quiet.coherent r d in
          record {
            coherent = f.coherent;
            same = λ b. f.same b ∙ quiet.same b ∙ seen.1 b;
            located = f.located;
            reads =
                subst₂ (λ c below. Reads c (contents h₃.l1) below (lower h₃) a) ready.same
                  (ap (λ x. level x h.mem.ram)
                    (find_line_quiet-Found h₁.l2 a g.good_l2.formed).same)
                  f.reads;
          }

      finish : ℕ → Hier M → Option ℕ → Option (ℕ × ℕ × Hier M)
      finish n h' none = none
      finish n h' (some v) = some (n, v, h')

      body : Bool → Option (ℕ × ℕ × Hier M)
      body b =
          let h' = if b then h₁ else cache_prefetch bus h₃ a in
          elim (read_line (line_at h'.l1 (set_idx h'.l1 a) way) (a % 64) len) [
            | none ↦ none
            | some v ↦ some (if b then 0 else if (find_line_quiet h.l2 a).0 then 1 else 2, v, h')
          ]

  -- On a coherent hierarchy, `cache_read_level` of at most 8 bytes within one block of the guest's memory returns some level with the bytes that
  -- the hierarchy shows at the address; the hierarchy stays coherent and shows the same everywhere.
  pub cache_read_level-view :
      (h : Hier M) (a len : ℕ)
      → IsCoherent h
      → RamBlock (block a)
      → Fits a len
      → (n : ℕ) × (h' : Hier M) × (cache_read_level bus h a len
          ≡ some (n, le_read len (view h) a, h'))
        × IsSeenAs h h'
  cache_read_level-view h a len g r fits =
      let (n, h', e, seen, reads) = cache_read_level-Reads h a len g r fits in (n, h', e, seen)

  -- A probe changes no line.
  pub cache_probe_level-contents :
      (h : Hier M) (a : ℕ)
      → IsCoherent h
      → let h' = (cache_probe_level bus h a).1 in
        (contents h'.l1 ≡ contents h.l1) × (contents h'.l2 ≡ contents h.l2) × (h'.mem ≡ h.mem)
  unfolding cache_probe_level
  cache_probe_level-contents h a g =
      let f = find_line_quiet-Found h.l1 a g.good_l1.formed in
      let f₂ = find_line_quiet-Found h.l2 a g.good_l2.formed in
      elim (Bool-cases (find_line_quiet h.l1 a).0) [
        | inl e ↦ rw e (f.same, refl, refl)
        | inr e ↦ rw e (f.same, f₂.same, refl)
      ]
