-- ===== src/Cpu/Ooo/Names/Leaving.antt =====
-- Renaming when the oldest instruction leaves
use sustemu.Base.{
  ℕ, ◌+◌, ◌-◌, ◌%◌, ◌<◌, ◌≡◌, ◌≢◌, ◌∙◌, ap, subst, false, [], ◌∷◌, update, arith, ◌==◌,
  if◌then◌else◌, ltb, ◌&&◌,
}
use sustemu.Base.Ring.{ring, ring-pop}
use sustemu.Cpu.Ooo.Rename.{freelist_push}
use sustemu.Cpu.Ooo.Names.{
  Names, Dest, plain, broken, renamed, replay, IsChain, IsSound, live, free, writers, count,
  count_new,
}
use sustemu.Cpu.Ooo.Names.Live.{count-append}
use sustemu.Cpu.Ooo.Names.Counts.{count_map-update}
use sustemu.Cpu.Ooo.Names.Entering.{pred}
use sustemu.Cpu.Ooo.Names.Undoing.{free-push}

-- The head of the reorder buffer gives its entry up.
abbrev pub step_off : Names → Names
step_off s = record s {
  rob_head = (s.rob_head + 1) % 32;
  valids = update s.valids s.rob_head false;
  rob_count = s.rob_count - 1;
}

abbrev pub leave_as : Dest → Names → Names
leave_as plain s = step_off s
leave_as broken s = step_off s
leave_as (renamed r p old) s =
    step_off (record s { rrat = update s.rrat r p; freelist = freelist_push s.freelist old })

module _ (s : Names) (k : IsSound s) (h : 0 < s.rob_count) where
  pub live-leave : live s ≡ s.dests s.rob_head ∷ live (step_off s)
  live-leave =
      let (n, e) = pred s.rob_count h in
      ap (ring 32 s.dests s.rob_head) e
      ∙ ring-pop 32 s.dests s.rob_head n
      ∙ ap (λ i. s.dests s.rob_head ∷ ring 32 s.dests i n) (ground (arith, k.rob_head_in))
      ∙ ap (λ i. s.dests s.rob_head ∷ ring 32 s.dests ((s.rob_head + 1) % 32) i) (omega arith)

  filled-step_off :
      (i : ℕ)
      → (step_off s).valids i
        ≡ (ltb i 32 && ltb ((i + 32 - (s.rob_head + 1) % 32) % 32) (s.rob_count - 1))
  filled-step_off i = ground (arith, k.filled i, k.rob_head_in, k.rob_count_in)

  leave_plain : live s ≡ plain ∷ live (step_off s) → IsSound (step_off s)
  unfolding replay
  leave_plain l = record {
    rob_head_in = omega arith;
    rob_count_in = omega (arith, k.rob_count_in);
    rob_tail_at = omega (arith, k.rob_tail_at);
    free_head_in = k.free_head_in;
    free_tail_at = k.free_tail_at;
    filled = filled-step_off;
    chain = subst (IsChain s.rrat) l k.chain;
    map = k.map ∙ ap (replay s.rrat) l;
    balance = omega (arith, k.balance, ap writers l);
    once = λ p. omega (arith, k.once p, ap (count_new p) l);
  }

  leave_renamed :
      (r p old : ℕ)
      → live s ≡ renamed r p old ∷ live (step_off s)
      → IsSound (leave_as (renamed r p old) s)
  unfolding replay freelist_push
  leave_renamed r p old l = record {
    rob_head_in = omega arith;
    rob_count_in = omega (arith, k.rob_count_in);
    rob_tail_at = omega (arith, k.rob_tail_at);
    free_head_in = k.free_head_in;
    free_tail_at = omega (arith, k.free_tail_at);
    filled = filled-step_off;
    chain = c.3;
    map = k.map ∙ ap (replay s.rrat) l;
    balance = omega (arith, k.balance, ap writers l);
    once = λ q. omega (
      arith,
      k.once q,
      ap (count_new q) l,
      count_map-update q s.rrat r p 31 c.0 (omega (arith, c.1)),
      ap {B = ℕ} (λ x. if x == q then 1 else 0) c.2,
      ap (count q)
          (free-push s.freelist old k.free_head_in (omega (arith, k.balance)) k.free_tail_at),
      count-append q (free s) (old ∷ []),
    );
  }
    where
      c : IsChain s.rrat (renamed r p old ∷ live (step_off s))
      c = subst (IsChain s.rrat) l k.chain

  pub leave_as-IsSound :
      (d : Dest) → live s ≡ d ∷ live (step_off s) → IsSound (leave_as d s) × (d ≢ broken)
  leave_as-IsSound plain l = (leave_plain l, λ e. cc)
  leave_as-IsSound broken l = absurd (subst (IsChain s.rrat) l k.chain)
  leave_as-IsSound (renamed r p old) l = (leave_renamed r p old l, λ e. cc)
