-- ===== src/Cpu/Ooo/Places/Flushing.antt =====
-- `ooo_flush_after`, and where the instructions are.
use sustemu.Base.{
  Post, Post-bind, Post-mono, ℕ, zero, suc, ◌+◌, ◌-◌, ◌%◌, ◌<◌, ◌≡◌, refl, sym, ◌∙◌, ap, subst,
  Bool, true, false, Option, none, some, ◌==◌, ◌&&◌, not, ltb, to_int, if◌then◌else◌, update,
  Bool-cases, inl, inr, arith, if-cases, ◌>>=◌, ==→eq, Option-cases, ◌⊎◌,
}
use sustemu.Cpu.Ooo.State.{Ooo, RsEntry, RobEntry, Latch, rob_size, rs_size}
use sustemu.Cpu.Ooo.Rename.{popcount}
use sustemu.Cpu.Ooo.Flush.{
  undo_rename, flush_entry, flush_rob, flush_rs, flush_latches, flush_lsu, flushed_rs,
  ooo_flush_after, rob_newer_than, rob_age,
}
use sustemu.Cpu.Ooo.Masks.{popcount-clear_if}
use sustemu.Cpu.Ooo.Names.{names, IsSound}
use sustemu.Cpu.Ooo.Names.Flushing.{Dropped, flush_rob-Dropped_to}
use sustemu.Cpu.Ooo.Places.{in_station, in_latch, in_lsu, places, due, IsPlaced}

-- The stations and the latches stay, and so do the entries that are still valid.
record Keeps (o o' : Ooo) : Type 0 where
  rs : o'.rs ≡ o.rs
  int : o'.latch_int ≡ o.latch_int
  mul : o'.latch_mul ≡ o.latch_mul
  lsu : o'.latch_lsu ≡ o.latch_lsu
  kept : (i : ℕ) → (o'.rob i).valid ≡ true → o'.rob i ≡ o.rob i

Keeps-then : (o o' o'' : Ooo) → Keeps o o' → Keeps o' o'' → Keeps o o''
Keeps-then o o' o'' a b = record {
  rs = b.rs ∙ a.rs;
  int = b.int ∙ a.int;
  mul = b.mul ∙ a.mul;
  lsu = b.lsu ∙ a.lsu;
  kept = λ i v. b.kept i v ∙ a.kept i (ap (λ e. e.valid) (sym (b.kept i v)) ∙ v);
}

Keeps-refl : (o : Ooo) → Keeps o o
Keeps-refl o = record { rs = refl; int = refl; mul = refl; lsu = refl; kept = λ i v. refl }

undo_rename-Keeps :
    (a p q : Option ℕ) (o : Ooo)
    → Post
        (λ o'.
          (o'.rs ≡ o.rs)
          × (o'.latch_int ≡ o.latch_int)
          × (o'.latch_mul ≡ o.latch_mul)
          × (o'.latch_lsu ≡ o.latch_lsu))
        (undo_rename a p q o)
unfolding undo_rename
undo_rename-Keeps none p q o = (refl, refl, refl, refl)
undo_rename-Keeps (some zero) p q o = (refl, refl, refl, refl)
undo_rename-Keeps (some (suc r)) none q o = tt
undo_rename-Keeps (some (suc r)) (some p) none o = tt
undo_rename-Keeps (some (suc r)) (some p) (some old) o = (refl, refl, refl, refl)

flush_entry-Keeps : (o : Ooo) → Post (Keeps o) (flush_entry o)
unfolding flush_entry
flush_entry-Keeps o =
    if-cases (Post (Keeps o)) (not e.valid)
      (λ c. record { rs = refl; int = refl; mul = refl; lsu = refl; kept = λ i v. refl })
      (λ c.
        Post-bind _ (Keeps o) (undo_rename e.arch_rd e.phys_rd e.old_phys o) _
          (undo_rename-Keeps e.arch_rd e.phys_rd e.old_phys o)
          (λ o' (a, b, c', d). record { rs = a; int = b; mul = c'; lsu = d; kept = others }))
  where
    t : ℕ
    t = (o.rob_tail + rob_size - 1) % rob_size

    e : RobEntry
    e = o.rob t

    others :
        (i : ℕ)
        → (update o.rob t (record e { valid = false }) i).valid ≡ true
        → update o.rob t (record e { valid = false }) i ≡ o.rob i
    others i v = elim (Bool-cases (i == t)) [
      | inl q ↦ absurd (gone (rw q at v))
      | inr q ↦ rw q refl
    ]
      where
        gone : false ≡ true → ⊥
        gone x = cc

flush_rob-Keeps : (n t : ℕ) (o : Ooo) → Post (Keeps o) (flush_rob n t o)
unfolding flush_rob
flush_rob-Keeps zero t o = if-cases (Post (Keeps o)) (o.rob_tail == t) (λ c. Keeps-refl o) (λ c. tt)
flush_rob-Keeps (suc n) t o =
    if-cases (Post (Keeps o)) (o.rob_tail == t) (λ c. Keeps-refl o)
      (λ c. Post-bind (Keeps o) (Keeps o) (flush_entry o) _ (flush_entry-Keeps o) (λ o' a.
        Post-mono (Keeps o') (Keeps o) (flush_rob n t o') (λ o'' b. Keeps-then o o' o'' a b)
          (flush_rob-Keeps n t o')))

-- What a flush leaves of a place, for slots that are newer or not
module _ (newer : ℕ → Bool) (i : ℕ) where
  station_left :
      (r : RsEntry)
      → in_station i (if r.valid && newer r.rob_idx then record r { valid = false } else r)
        ≡ (if newer i then false else in_station i r)
  station_left r = elim (Bool-cases (i == r.rob_idx)) [
    | inl q ↦ rw (==→eq i r.rob_idx q) (ground arith)
    | inr q ↦ ground arith
  ]

  latch_left :
      (l : Latch)
      → in_latch i (if l.valid && newer l.rob_idx then record l { valid = false } else l)
        ≡ (if newer i then false else in_latch i l)
  latch_left l = elim (Bool-cases (i == l.rob_idx)) [
    | inl q ↦ rw (==→eq i l.rob_idx q) (ground arith)
    | inr q ↦ ground arith
  ]

  lsu_left :
      (l : Latch)
      → in_lsu i (if l.valid && newer l.rob_idx then flush_lsu l else l)
        ≡ (if newer i then false else in_lsu i l)
  lsu_left l = elim (Bool-cases (l.valid && newer l.rob_idx)) [
    | inl c ↦ rw c (flushed (Option-cases l.mshr_idx) ∙ sym (none_newer c))
    | inr c ↦ rw c (sym (some_older c))
  ]
    where
      flushed :
          (l.mshr_idx ≡ none) ⊎ ((m : ℕ) × (l.mshr_idx ≡ some m)) → in_lsu i (flush_lsu l) ≡ false
      flushed (inl e) = rw e refl
      flushed (inr (m, e)) = rw e (off l.valid)
        where
          off : (b : Bool) → (b && (false && i == l.rob_idx)) ≡ false
          off true = refl
          off false = refl

      none_newer :
          (l.valid && newer l.rob_idx) ≡ true → (if newer i then false else in_lsu i l) ≡ false
      none_newer c = elim (Bool-cases (i == l.rob_idx)) [
        | inl q ↦ rw (==→eq i l.rob_idx q) (ground (arith, c))
        | inr q ↦ ground (arith, q)
      ]

      some_older :
          (l.valid && newer l.rob_idx) ≡ false
          → (if newer i then false else in_lsu i l) ≡ in_lsu i l
      some_older c = elim (Bool-cases (i == l.rob_idx)) [
        | inl q ↦ rw (==→eq i l.rob_idx q) (ground (arith, c))
        | inr q ↦ ground (arith, q)
      ]

-- The places after a flush of the stations and the latches
flushed-places :
    (b i : ℕ) (o : Ooo)
    → places (flush_latches b (flush_rs b o)) i ≡ (if rob_newer_than o i b then 0 else places o i)
unfolding flush_rs flush_latches
flushed-places b i o =
    sum (rob_newer_than o i b) _ _ _ _ _ _ _ _
      (popcount-clear_if 16 (newer i) (λ j. in_station i (o.rs j)) _ (λ j h. at_station j h))
      (popcount-clear_if 2 (newer i) (λ s. in_latch i (o.latch_int s)) _
        (λ s h. latch_left newer i (o.latch_int s)))
      (popcount-clear_if 1 (newer i) (λ s. in_latch i (o.latch_mul s)) _
        (λ s h. latch_left newer i (o.latch_mul s)))
      (popcount-clear_if 2 (newer i) (λ s. in_lsu i (o.latch_lsu s)) _
        (λ s h. lsu_left newer i (o.latch_lsu s)))
  where
    newer : ℕ → Bool
    newer k = rob_newer_than o k b

    at_station :
        (j : ℕ)
        → j < 16
        → in_station i (if flushed_rs o b j then record (o.rs j) { valid = false } else o.rs j)
          ≡ (if newer i then false else in_station i (o.rs j))
    at_station j h = rw inside (station_left newer i (o.rs j))
      where
        inside : ltb j rs_size ≡ true
        inside = ground arith

    sum :
        (c : Bool) (a b c' d a' b' c'' d' : ℕ)
        → a' ≡ (if c then 0 else a)
        → b' ≡ (if c then 0 else b)
        → c'' ≡ (if c then 0 else c')
        → d' ≡ (if c then 0 else d)
        → a' + b' + c'' + d' ≡ (if c then 0 else a + b + c' + d)
    sum true a b c' d a' b' c'' d' e f g h = omega arith
    sum false a b c' d a' b' c'' d' e f g h = omega arith

Keeps-places : (o o' : Ooo) (i : ℕ) → Keeps o o' → places o' i ≡ places o i
Keeps-places o o' i k =
    sums (ap (λ f. popcount 16 (λ j. in_station i (f j))) k.rs)
      (ap (λ f. popcount 2 (λ s. in_latch i (f s))) k.int)
      (ap (λ f. popcount 1 (λ s. in_latch i (f s))) k.mul)
      (ap (λ f. popcount 2 (λ s. in_lsu i (f s))) k.lsu)
  where
    sums :
        {a b c d a' b' c' d' : ℕ}
        → a ≡ a'
        → b ≡ b'
        → c ≡ c'
        → d ≡ d'
        → a + b + c + d ≡ a' + b' + c' + d'
    sums e f g h = omega arith

-- A flush behind an instruction in flight keeps each instruction in one place.
pub ooo_flush_after-IsPlaced :
    (b : ℕ) (o : Ooo)
    → IsSound (names o)
    → (o.rob b).valid ≡ true
    → IsPlaced o
    → Post IsPlaced (ooo_flush_after b o)
unfolding ooo_flush_after rob_newer_than flush_rs flush_latches
ooo_flush_after-IsPlaced b o k v p =
    let (o', e, d) = flush_rob-Dropped_to b o k v in
    subst (λ r. Post IsPlaced (r >>= λ x. some (flush_latches b (flush_rs b x)))) (sym e)
      (placed o' d (subst (Post (Keeps o)) e (flush_rob-Keeps rob_size ((b + 1) % rob_size) o)))
  where
    placed :
        (o' : Ooo)
        → Dropped o o' (o.rob_count - (rob_age o b + 1))
        → Keeps o o'
        → IsPlaced (flush_latches b (flush_rs b o'))
    placed o' d keeps i hi = flushed-places b i o' ∙ elim (Bool-cases (rob_newer_than o' i b)) [
      | inl c ↦ rw c (ap to_int (sym (gone c)))
      | inr c ↦
          let live = stays c in
          rw c (
            Keeps-places o o' i keeps
            ∙ p i hi
            ∙ ap (λ (x : RobEntry). to_int (x.valid && not x.ready)) (sym (keeps.kept i live)))
    ]
      where
        count : o'.rob_count ≡ rob_age o' b + 1
        count =
            let live_b : (ltb b 32 && ltb ((b + 32 - o.rob_head) % 32) o.rob_count) ≡ true =
              sym (k.filled b) ∙ v in
            ground (arith, d.count, d.head)

        gone : rob_newer_than o' i b ≡ true → due o' i ≡ false
        gone c = rw (d.sound.filled i) (none ((o'.rob i).ready))
          where
            none :
                (r : Bool)
                → ((ltb i 32 && ltb ((i + 32 - o'.rob_head) % 32) o'.rob_count) && not r) ≡ false
            none r = ground (arith, c, count)

        stays : rob_newer_than o' i b ≡ false → (o'.rob i).valid ≡ true
        stays c = d.sound.filled i ∙ ground (arith, c, count, hi)
