-- ===== src/Cpu/Ooo/Names/Entering.antt =====
-- Renaming when an instruction enters the reorder buffer and perhaps takes a register
use sustemu.Base.{
  ℕ, zero, suc, ◌+◌, ◌-◌, ◌%◌, ◌<◌, ◌≡◌, refl, ◌∙◌, ap, subst, true, [], ◌∷◌, ◌++◌, update, arith,
  ltb, ◌&&◌,
}
use sustemu.Base.Ring.{ring, ring-pop, ring-push}
use sustemu.Cpu.Ooo.State.{FreeList}
use sustemu.Cpu.Ooo.Rename.{freelist_pop}
use sustemu.Cpu.Ooo.Names.{
  Names, Dest, plain, renamed, replay, IsSound, live, count, count_new, count_map, share,
}
use sustemu.Cpu.Ooo.Names.Live.{replay-append, IsChain-snoc, writers-append, count_new-append}

-- The tail of the reorder buffer takes an entry.
abbrev pub step_in : Names → Dest → Names
step_in s d = record s {
  dests = update s.dests s.rob_tail d;
  valids = update s.valids s.rob_tail true;
  rob_tail = (s.rob_tail + 1) % 32;
  rob_count = s.rob_count + 1;
}

abbrev map_to : Names → ℕ → Names
map_to s r = record s {
  rat = update s.rat r (freelist_pop s.freelist).0;
  freelist = (freelist_pop s.freelist).1;
}

pub live-step_in :
    (s : Names) (d : Dest) → IsSound s → s.rob_count < 32 → live (step_in s d) ≡ live s ++ (d ∷ [])
live-step_in s d k h =
    ap (ring 32 (update s.dests s.rob_tail d) s.rob_head) (omega arith)
    ∙ ring-push 32 s.dests s.rob_head s.rob_count s.rob_tail d k.rob_head_in h
        (ground (arith, k.rob_tail_at, k.rob_head_in))

filled-step_in :
    (s : Names) (d : Dest)
    → IsSound s
    → s.rob_count < 32
    → (i : ℕ)
    → (step_in s d).valids i ≡ (ltb i 32 && ltb ((i + 32 - s.rob_head) % 32) (s.rob_count + 1))
filled-step_in s d k h i = ground (arith, k.filled i, k.rob_tail_at, k.rob_head_in)

pub step_in-IsSound : (s : Names) → IsSound s → s.rob_count < 32 → IsSound (step_in s plain)
unfolding replay
step_in-IsSound s k h = record {
  rob_head_in = k.rob_head_in;
  rob_count_in = omega arith;
  rob_tail_at = omega (arith, k.rob_tail_at);
  free_head_in = k.free_head_in;
  free_tail_at = k.free_tail_at;
  filled = filled-step_in s plain k h;
  chain = rw l (IsChain-snoc s.rrat (live s) plain k.chain tt);
  map = rw (l, replay-append s.rrat (live s) (plain ∷ [])) k.map;
  balance = rw (l, writers-append (live s) (plain ∷ [])) (omega (arith, k.balance));
  once = λ p. rw (l, count_new-append p (live s) (plain ∷ [])) (omega (arith, k.once p));
}
  where
    l : live (step_in s plain) ≡ live s ++ (plain ∷ [])
    l = live-step_in s plain k h

-- A renamed instruction takes the first free register.
abbrev pub enter : Names → ℕ → Names
enter s r = step_in (map_to s r) (renamed r (s.freelist.regs s.freelist.head) (s.rat r))

free-pop :
    (f : FreeList) (n : ℕ)
    → f.head < 64
    → f.count ≡ suc n
    → ring 64 f.regs f.head f.count
      ≡ f.regs f.head ∷ ring 64 f.regs ((f.head + 1) % 64) (f.count - 1)
free-pop f n h e =
    ap (ring 64 f.regs f.head) e
    ∙ ring-pop 64 f.regs f.head n
    ∙ ap (λ xs. f.regs f.head ∷ xs)
        (ap (λ i. ring 64 f.regs i n) (ground arith)
          ∙ ap (ring 64 f.regs ((f.head + 1) % 64)) (omega arith))

pub pred : (n : ℕ) → 0 < n → (m : ℕ) × (n ≡ suc m)
pred zero h = absurd (omega arith)
pred (suc m) h = (m, refl)

pub enter-IsSound :
    (s : Names) (r : ℕ)
    → IsSound s
    → s.rob_count < 32
    → 0 < r
    → r < 32
    → 0 < s.freelist.count
    → IsSound (enter s r)
unfolding replay freelist_pop
enter-IsSound s r k h pos lt some_free = record {
  rob_head_in = k.rob_head_in;
  rob_count_in = omega arith;
  rob_tail_at = omega (arith, k.rob_tail_at);
  free_head_in = omega arith;
  free_tail_at = omega (arith, k.free_tail_at);
  filled = filled-step_in s d k h;
  chain = rw l (IsChain-snoc s.rrat (live s) d k.chain (pos, lt, ap (λ m. m r) k.map, tt));
  map = rw (l, replay-append s.rrat (live s) (d ∷ [])) (ap (λ m. update m r p) k.map);
  balance = rw (l, writers-append (live s) (d ∷ [])) (omega (arith, k.balance));
  once = λ q.
      rw (l, count_new-append q (live s) (d ∷ []))
        (omega (
          arith,
          subst (λ xs. count_map q s.rrat 31 + (count q xs + count_new q (live s)) ≡ share q)
              (free-pop s.freelist (pred s.freelist.count some_free).0 k.free_head_in
                (pred s.freelist.count some_free).1)
              (k.once q),
        ));
}
  where
    p : ℕ
    p = s.freelist.regs s.freelist.head

    d : Dest
    d = renamed r p (s.rat r)

    l : live (enter s r) ≡ live s ++ (d ∷ [])
    l = live-step_in s d k h
