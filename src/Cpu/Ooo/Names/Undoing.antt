-- ===== src/Cpu/Ooo/Names/Undoing.antt =====
-- Renaming when the youngest instruction is given up
use sustemu.Base.{
  ℕ, ◌+◌, ◌-◌, ◌%◌, ◌<◌, ◌≡◌, ◌≢◌, ◌∙◌, ap, subst, false, List, [], ◌∷◌, ◌++◌, update, arith, ltb,
  ◌&&◌,
}
use sustemu.Base.Ring.{ring, ring-push, ring-snoc}
use sustemu.Cpu.Ooo.State.{FreeList}
use sustemu.Cpu.Ooo.Rename.{freelist_push}
use sustemu.Cpu.Ooo.Names.{
  Names, Dest, plain, broken, renamed, replay, IsChain, IsSound, live, free, writers, count,
  count_new,
}
use sustemu.Cpu.Ooo.Names.Live.{
  replay-append, IsChain-init, writers-append, count_new-append, count-append, update-back,
}
use sustemu.Cpu.Ooo.Names.Entering.{pred}

-- The slot before the tail, which holds the youngest instruction
abbrev pub last : Names → ℕ
last s = (s.rob_tail + 32 - 1) % 32

-- The tail of the reorder buffer gives an entry back.
abbrev pub step_out : Names → Names
step_out s = record s {
  rob_tail = last s;
  valids = update s.valids (last s) false;
  rob_count = s.rob_count - 1;
}

abbrev pub undo_as : Dest → Names → Names
undo_as plain s = step_out s
undo_as broken s = step_out s
undo_as (renamed r p old) s =
    step_out (record s { rat = update s.rat r old; freelist = freelist_push s.freelist p })

abbrev pub undo : Names → Names
undo s = undo_as (s.dests (last s)) s

pub live-undo :
    (s : Names)
    → IsSound s
    → 0 < s.rob_count
    → live s ≡ live (step_out s) ++ (s.dests (last s) ∷ [])
live-undo s k h =
    let (n, e) = pred s.rob_count h in
    ap (ring 32 s.dests s.rob_head) e
    ∙ ring-snoc 32 s.dests s.rob_head n k.rob_head_in (omega (arith, k.rob_count_in))
    ∙ ap (λ i. ring 32 s.dests s.rob_head n ++ (s.dests i ∷ []))
        (ground (arith, k.rob_tail_at, k.rob_head_in, k.rob_count_in))
    ∙ ap (λ i. ring 32 s.dests s.rob_head i ++ (s.dests (last s) ∷ [])) (omega arith)

pub free-push :
    (f : FreeList) (p : ℕ)
    → f.head < 64
    → f.count < 64
    → f.tail ≡ (f.head + f.count) % 64
    → ring 64 (update f.regs f.tail p) f.head (f.count + 1)
      ≡ ring 64 f.regs f.head f.count ++ (p ∷ [])
free-push f p h c e =
    ap (ring 64 (update f.regs f.tail p) f.head) (omega arith)
    ∙ ring-push 64 f.regs f.head f.count f.tail p h c (ground arith)

filled-step_out :
    (s : Names)
    → IsSound s
    → 0 < s.rob_count
    → (i : ℕ)
    → (step_out s).valids i ≡ (ltb i 32 && ltb ((i + 32 - s.rob_head) % 32) (s.rob_count - 1))
filled-step_out s k h i = ground (arith, k.filled i, k.rob_tail_at, k.rob_head_in, k.rob_count_in)

-- The registers after one instruction is given up: its own register is free again.
module _ (s : Names) (k : IsSound s) (h : 0 < s.rob_count) where
  undo_plain : live s ≡ live (step_out s) ++ (plain ∷ []) → IsSound (step_out s)
  unfolding replay
  undo_plain l = record {
    rob_head_in = k.rob_head_in;
    rob_count_in = omega (arith, k.rob_count_in);
    rob_tail_at = omega (arith, k.rob_tail_at, k.rob_count_in);
    free_head_in = k.free_head_in;
    free_tail_at = k.free_tail_at;
    filled = filled-step_out s k h;
    chain = (IsChain-init s.rrat (live (step_out s)) plain (subst (IsChain s.rrat) l k.chain)).0;
    map = k.map ∙ ap (replay s.rrat) l ∙ replay-append s.rrat (live (step_out s)) (plain ∷ []);
    balance =
        omega (arith, k.balance, ap writers l, writers-append (live (step_out s)) (plain ∷ []));
    once = λ p.
        omega (
          arith,
          k.once p,
          ap (count_new p) l,
          count_new-append p (live (step_out s)) (plain ∷ []),
        );
  }

  undo_renamed :
      (r p old : ℕ)
      → live s ≡ live (step_out s) ++ (renamed r p old ∷ [])
      → IsSound (undo_as (renamed r p old) s)
  unfolding replay freelist_push
  undo_renamed r p old l = record {
    rob_head_in = k.rob_head_in;
    rob_count_in = omega (arith, k.rob_count_in);
    rob_tail_at = omega (arith, k.rob_tail_at, k.rob_count_in);
    free_head_in = k.free_head_in;
    free_tail_at = omega (arith, k.free_tail_at);
    filled = filled-step_out s k h;
    chain = c.0;
    map =
        ap (λ m. update m r old)
          (k.map ∙ ap (replay s.rrat) l ∙ replay-append s.rrat before (renamed r p old ∷ []))
        ∙ rw c.1.2 (update-back (replay s.rrat before) r p);
    balance = omega (arith, k.balance, ap writers l, writers-append before (renamed r p old ∷ []));
    once = λ q. omega (
      arith,
      k.once q,
      ap (count_new q) l,
      count_new-append q before (renamed r p old ∷ []),
      ap (count q)
          (free-push s.freelist p k.free_head_in (omega (arith, k.balance)) k.free_tail_at),
      count-append q (free s) (p ∷ []),
    );
  }
    where
      before : List Dest
      before = live (step_out s)

      c : IsChain s.rrat before × IsChain (replay s.rrat before) (renamed r p old ∷ [])
      c = IsChain-init s.rrat before (renamed r p old) (subst (IsChain s.rrat) l k.chain)

  pub undo_as-IsSound :
      (d : Dest) → live s ≡ live (step_out s) ++ (d ∷ []) → IsSound (undo_as d s) × (d ≢ broken)
  undo_as-IsSound plain l = (undo_plain l, λ e. cc)
  undo_as-IsSound broken l =
      absurd (IsChain-init s.rrat (live (step_out s)) broken (subst (IsChain s.rrat) l k.chain)).1
  undo_as-IsSound (renamed r p old) l = (undo_renamed r p old l, λ e. cc)
