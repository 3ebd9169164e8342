-- ===== src/Cpu/Ooo/Names/Flushing.antt =====
-- What `ooo_flush_after` does to renaming: the instructions behind the branch are undone, and no
-- other.
use sustemu.Base.{
  ℕ, zero, suc, ◌+◌, ◌-◌, ◌%◌, ◌<◌, ◌≤◌, ◌≡◌, ◌≢◌, refl, sym, ◌∙◌, ap, subst, true, Option, none,
  some, List, [], ◌∷◌, ◌++◌, update, arith, if◌then◌else◌, ltb, not, ◌&&◌, ◌>>=◌, eq→==, ne→==,
}
use mathlib.Core.List.{append_assoc, append-nil}
use sustemu.Cpu.Ooo.State.{Ooo, RobEntry, rob_size}
use sustemu.Cpu.Ooo.Rename.{is_store_raw, take_ℤ, drop_latch}
use sustemu.Cpu.Ooo.Flush.{
  undo_rename, flush_entry, flush_rob, ooo_flush_after, flush_rs, flush_latches, rob_age,
}
use sustemu.Cpu.Ooo.Names.{
  Names, Dest, plain, broken, renamed, dest, dest_of, names, live, replay, IsSound,
}
use sustemu.Cpu.Ooo.Names.Live.{names-clear, invalid}
use sustemu.Cpu.Ooo.Names.Undoing.{undo, undo_as, last, step_out, live-undo, undo_as-IsSound}

module _ (o : Ooo) where
  abbrev youngest : RobEntry
  youngest = o.rob ((o.rob_tail + rob_size - 1) % rob_size)

  -- The rest of a turn, once the map is back
  abbrev drop_youngest : Ooo → Ooo
  drop_youngest o' = record o' {
    rob_tail = (o.rob_tail + rob_size - 1) % rob_size;
    rob = update o.rob ((o.rob_tail + rob_size - 1) % rob_size) (invalid youngest);
    rob_count = o.rob_count - 1;
    unready_store_count =
        if not youngest.ready && is_store_raw youngest.ir.raw
        then take_ℤ o.unready_store_count 1
        else o.unready_store_count;
  }

  undo_rename_lem :
      (a p q : Option ℕ)
      → dest_of a p q ≢ broken
      → (o' : Ooo) × (undo_rename a p q o ≡ some o')
        × (names (drop_youngest o') ≡ undo_as (dest_of a p q) (names o))
        × (o'.latch_id_rn ≡ o.latch_id_rn)
        × (o'.latch_if_id ≡ o.latch_if_id)
  unfolding undo_rename dest_of
  undo_rename_lem none p q h =
      (o, refl, names-clear (step_out (names o)) o.rob (last (names o)), refl, refl)
  undo_rename_lem (some zero) p q h =
      (o, refl, names-clear (step_out (names o)) o.rob (last (names o)), refl, refl)
  undo_rename_lem (some (suc r)) none q h = absurd (h refl)
  undo_rename_lem (some (suc r)) (some p) none h = absurd (h refl)
  undo_rename_lem (some (suc r)) (some p) (some old) h = (
    _,
    refl,
    names-clear (undo_as (renamed (suc r) p old) (names o)) o.rob (last (names o)),
    refl,
    refl,
  )

-- The state after some instructions are given up: those that stay are the oldest.
pub record Dropped (o o' : Ooo) (d : ℕ) : Type 0 where
  pub sound : IsSound (names o')
  pub count : o'.rob_count + d ≡ o.rob_count
  pub head : o'.rob_head ≡ o.rob_head
  pub rrat : o'.rrat ≡ o.rrat
  pub kept : (es : List Dest) × (live (names o) ≡ live (names o') ++ es)
  pub rn : o'.latch_id_rn ≡ o.latch_id_rn
  pub fi : o'.latch_if_id ≡ o.latch_if_id

undo_keeps :
    (d : Dest) (s : Names)
    → ((undo_as d s).rrat ≡ s.rrat)
      × ((undo_as d s).rob_head ≡ s.rob_head)
      × (live (undo_as d s) ≡ live (step_out s))
undo_keeps plain s = (refl, refl, refl)
undo_keeps broken s = (refl, refl, refl)
undo_keeps (renamed r p old) s = (refl, refl, refl)

flush_entry-Dropped :
    (o : Ooo)
    → IsSound (names o)
    → 0 < o.rob_count
    → (o' : Ooo) × (flush_entry o ≡ some o')
      × Dropped o o' 1
      × (o'.rob_tail ≡ (o.rob_tail + rob_size - 1) % rob_size)
unfolding flush_entry
flush_entry-Dropped o k h =
    let (r, e, same, rn, fi) =
      undo_rename_lem o (youngest o).arch_rd (youngest o).phys_rd (youngest o).old_phys sound.1 in
    let keeps = undo_keeps (dest (youngest o)) (names o) in
    rw (valid, e)
      (
        drop_youngest o r,
        refl,
        record {
          sound = subst IsSound (sym same) sound.0;
          count = omega arith;
          head = ap (λ s. s.rob_head) same ∙ keeps.1;
          rrat = ap (λ s. s.rrat) same ∙ keeps.0;
          kept = (
            dest (youngest o) ∷ [],
            live-undo (names o) k h
                ∙ ap (λ ds. ds ++ (dest (youngest o) ∷ [])) (sym (ap live same ∙ keeps.2)),
          );
          rn = rn;
          fi = fi;
        },
        refl,
      )
  where
    valid : (youngest o).valid ≡ true
    valid = k.filled (last (names o)) ∙ ground (arith, k.rob_tail_at, k.rob_head_in, k.rob_count_in)

    sound : IsSound (undo (names o)) × (dest (youngest o) ≢ broken)
    sound = undo_as-IsSound (names o) k h (dest (youngest o)) (live-undo (names o) k h)

Dropped-next : (o o' o'' : Ooo) (d : ℕ) → Dropped o o' 1 → Dropped o' o'' d → Dropped o o'' (suc d)
Dropped-next o o' o'' d a b = record {
  sound = b.sound;
  count = omega (arith, a.count, b.count);
  head = b.head ∙ a.head;
  rrat = b.rrat ∙ a.rrat;
  kept = (
    b.kept.0 ++ a.kept.0,
    a.kept.1
        ∙ ap (λ ds. ds ++ a.kept.0) b.kept.1
        ∙ append_assoc (live (names o'')) b.kept.0 a.kept.0,
  );
  rn = b.rn ∙ a.rn;
  fi = b.fi ∙ a.fi;
}

Dropped-refl : (o : Ooo) → IsSound (names o) → Dropped o o 0
Dropped-refl o k = record {
  sound = k;
  count = omega arith;
  head = refl;
  rrat = refl;
  kept = ([], sym (append-nil (live (names o))));
  rn = refl;
  fi = refl;
}

-- The loop ends after d turns when d instructions are behind the new tail.
flush_rob-Dropped :
    (n d t : ℕ) (o : Ooo)
    → IsSound (names o)
    → d ≤ n
    → d < o.rob_count
    → t ≡ (o.rob_head + (o.rob_count - d)) % 32
    → (o' : Ooo) × (flush_rob n t o ≡ some o') × Dropped o o' d
unfolding flush_rob
flush_rob-Dropped zero zero t o k h lt e =
    rw (eq→== o.rob_tail t (omega (arith, k.rob_tail_at))) (o, refl, Dropped-refl o k)
flush_rob-Dropped zero (suc d) t o k h lt e = absurd (omega arith)
flush_rob-Dropped (suc n) zero t o k h lt e =
    rw (eq→== o.rob_tail t (omega (arith, k.rob_tail_at))) (o, refl, Dropped-refl o k)
flush_rob-Dropped (suc n) (suc d) t o k h lt e =
    let (o', p, a, tail) = flush_entry-Dropped o k (omega arith) in
    let (o'', q, b) =
      flush_rob-Dropped n d t o' a.sound (omega arith) (omega (arith, a.count))
        (e ∙ omega (arith, a.count, a.head)) in
    rw (ne→== o.rob_tail t (λ x. omega (arith, k.rob_tail_at, k.rob_count_in)), p)
      (o'', q, Dropped-next o o' o'' d a b)

-- The front latches without their instructions
abbrev pub empty_front : Ooo → Ooo
empty_front o = record o {
  latch_id_rn = λ s. drop_latch (o.latch_id_rn s);
  latch_if_id = λ s. drop_latch (o.latch_if_id s);
}

-- The tail goes back to just behind slot b.
pub flush_rob-Dropped_to :
    (b : ℕ) (o : Ooo)
    → IsSound (names o)
    → (o.rob b).valid ≡ true
    → (o' : Ooo) × (flush_rob rob_size ((b + 1) % rob_size) o ≡ some o')
      × Dropped o o' (o.rob_count - (rob_age o b + 1))
flush_rob-Dropped_to b o k v =
    let live_b : (ltb b 32 && ltb ((b + 32 - o.rob_head) % 32) o.rob_count) ≡ true =
      sym (k.filled b) ∙ v in
    flush_rob-Dropped 32 (o.rob_count - (rob_age o b + 1)) ((b + 1) % rob_size) o k
      (omega (arith, k.rob_count_in)) (ground arith) (ground (arith, k.rob_head_in, k.rob_count_in))

pub ooo_flush_after-Dropped :
    (b : ℕ) (o : Ooo)
    → IsSound (names o)
    → (o.rob b).valid ≡ true
    → (o' : Ooo) × (ooo_flush_after b o ≡ some o')
      × Dropped (empty_front o) o' (o.rob_count - (rob_age o b + 1))
unfolding ooo_flush_after flush_rs flush_latches
ooo_flush_after-Dropped b o k v =
    let (o', e, d) = flush_rob-Dropped_to b o k v in
    (
      flush_latches b (flush_rs b o'),
      ap (λ r. r >>= λ x. some (flush_latches b (flush_rs b x))) e,
      record {
        sound = d.sound;
        count = d.count;
        head = d.head;
        rrat = d.rrat;
        kept = d.kept;
        rn = ap (λ l s. drop_latch (l s)) d.rn;
        fi = ap (λ l s. drop_latch (l s)) d.fi;
      },
    )

-- When renaming is sound and slot b of the reorder buffer holds an instruction, `ooo_flush_after` returns: that instruction
-- is now the youngest and the older ones are as they were, in the same order; the
-- speculative map is the committed map, which has not changed, with these instructions replayed, so it is
-- the map from just after that instruction was renamed; and renaming is sound.
pub ooo_flush_after-restores :
    (b : ℕ) (o : Ooo)
    → IsSound (names o)
    → (o.rob b).valid ≡ true
    → (o' : Ooo) × (ooo_flush_after b o ≡ some o')
      × (o'.rob_head ≡ o.rob_head)
      × (o'.rob_count ≡ rob_age o b + 1)
      × ((es : List Dest) × (live (names o) ≡ live (names o') ++ es))
      × (o'.rat ≡ replay o.rrat (live (names o')))
      × IsSound (names o')
ooo_flush_after-restores b o k v =
    let (o', e, d) = ooo_flush_after-Dropped b o k v in
    (
      o',
      e,
      d.head,
      left o' d.count,
      d.kept,
      d.sound.map ∙ ap (λ m. replay m (live (names o'))) d.rrat,
      d.sound,
    )
  where
    younger : rob_age o b < o.rob_count
    younger = age_of_live (sym (k.filled b) ∙ v)
      where
        age_of_live :
            (ltb b 32 && ltb ((b + 32 - o.rob_head) % 32) o.rob_count) ≡ true
            → rob_age o b < o.rob_count
        age_of_live h = ground arith

    left :
        (o' : Ooo)
        → o'.rob_count + (o.rob_count - (rob_age o b + 1)) ≡ o.rob_count
        → o'.rob_count ≡ rob_age o b + 1
    left o' h = omega (arith, younger)
