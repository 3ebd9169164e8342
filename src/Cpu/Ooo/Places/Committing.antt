-- ===== src/Cpu/Ooo/Places/Committing.antt =====
-- `ooo_stage_commit` and `ooo_drain_store_buf`, and where the instructions are.
use sustemu.Base.{
  Post, Post-bind, Post-then, ℕ, zero, suc, ◌-◌, ◌≡◌, refl, sym, ◌∙◌, ap, Bool, true, false, Option,
  none, some, ◌==◌, ltb, leb, not, ◌&&◌, ◌||◌, to_int, if-cases, Bool-cases, inl, inr, arith, ==→eq,
}
use sustemu.Cpu.State.{CpuState}
use sustemu.Cpu.Ooo.State.{Ooo, RobEntry, StoreBufEntry, store_buf_size, lat_l2_hit}
use sustemu.Cpu.Ooo.Wake.{is_fence}
use sustemu.Cpu.Ooo.Machine.{Machine, Config, with_ooo}
use sustemu.Cpu.Ooo.Commit.{
  Turn, retire, is_store, commit_store, commit_entry, commit_one, ooo_stage_commit, drain_one,
  ooo_drain_store_buf, sbuf_push, set_tick, pop_rob,
}
use sustemu.Cpu.Ooo.Places.{places, due, IsPlaced}
use sustemu.Cpu.Ooo.Places.Executing.{Placed}
use sustemu.Memory.Vmem.{VirtualMemory, is_cached}

-- The places, the reorder buffer and its head are left as they were.
record Untouched (o o' : Ooo) : Type 0 where
  same : places o' ≡ places o
  rob : o'.rob ≡ o.rob
  head : o'.rob_head ≡ o.rob_head

Untouched-refl : (o : Ooo) → Untouched o o
Untouched-refl o = record { same = refl; rob = refl; head = refl }

-- The head of the reorder buffer has executed, so it is in no place when it leaves.
pop_rob-IsPlaced :
    (e : RobEntry) (o o' : Ooo)
    → Untouched o o'
    → o.rob o.rob_head ≡ e
    → e.ready ≡ true
    → IsPlaced o
    → IsPlaced (pop_rob e o')
pop_rob-IsPlaced e o o' u h r p i hi = ap (λ f. f i) u.same ∙ p i hi ∙ ap to_int gone
  where
    off : (b : Bool) → (b && false) ≡ false
    off true = refl
    off false = refl

    gone : due o i ≡ due (pop_rob e o') i
    gone = elim (Bool-cases (i == o'.rob_head)) [
      | inl q ↦ rw q (ap (due o) (==→eq i o'.rob_head q ∙ u.head) ∙ rw (h, r) (off e.valid))
      | inr q ↦ rw q (ap (λ f. (f i).valid && not (f i).ready) (sym u.rob))
    ]

retire-Untouched :
    (a p q : Option ℕ) (cpu : CpuState) (o : Ooo)
    → Post (λ (r : CpuState × Ooo). Untouched o r.1) (retire a p q cpu o)
unfolding retire
retire-Untouched none p q cpu o = Untouched-refl o
retire-Untouched (some zero) p q cpu o = Untouched-refl o
retire-Untouched (some (suc r)) none q cpu o = tt
retire-Untouched (some (suc r)) (some p) none cpu o = tt
retire-Untouched (some (suc r)) (some p) (some old) cpu o = record {
  same = refl;
  rob = refl;
  head = refl;
}

module _ {S : Type 0} where
  commit_entry-Placed :
      (e : RobEntry) (m : Machine S)
      → m.ooo.rob m.ooo.rob_head ≡ e
      → e.ready ≡ true
      → Placed m
      → Post Placed (commit_entry e m)
  unfolding commit_entry
  commit_entry-Placed e m h r p =
      Post-bind (λ (t : CpuState × Ooo). Untouched m.ooo t.1) Placed
        (retire e.arch_rd e.phys_rd e.old_phys m.cpu m.ooo) _
        (retire-Untouched e.arch_rd e.phys_rd e.old_phys m.cpu m.ooo)
        (λ t u. pop_rob-IsPlaced e m.ooo t.1 u h r p)

module _ {S : Type 0} (vm : VirtualMemory S) where
  abbrev UntouchedTurn : Machine S → Turn S → Type 0
  UntouchedTurn m t = Untouched m.ooo t.1.ooo

  commit_store-Untouched :
      (e : RobEntry) (m : Machine S) → Post (UntouchedTurn m) (commit_store vm e m)
  unfolding commit_store sbuf_push
  commit_store-Untouched e m =
      if-cases (Post (UntouchedTurn m)) (not (is_store e.ir.type)) (λ p. Untouched-refl m.ooo)
        (λ p.
          if-cases (Post (UntouchedTurn m)) (is_cached e.ir.mem_addr)
            (λ q.
              if-cases (Post (UntouchedTurn m)) (leb store_buf_size m.ooo.sbuf_count)
                (λ r. Untouched-refl m.ooo) (λ r. record { same = refl; rob = refl; head = refl }))
            (λ q.
              Post-then (UntouchedTurn m)
                (vm.vaddr_write m.mem e.ir.mem_addr e.ir.mem_width e.store_data) _
                (λ mem. Untouched-refl m.ooo)))

  abbrev PlacedTurn : Turn S → Type 0
  PlacedTurn t = Placed t.1

  commit_one-Placed : (m : Machine S) → Placed m → Post PlacedTurn (commit_one vm m)
  unfolding commit_one
  commit_one-Placed m p =
      if-cases (Post PlacedTurn) (m.ooo.rob_count == 0) (λ a. p)
        (λ a.
          if-cases (Post PlacedTurn) (not e.valid || not e.ready) (λ q. p)
            (λ q.
              if-cases (Post PlacedTurn) (is_fence e.ir.type && ltb 0 m.ooo.sbuf_count) (λ r. p)
                (λ r.
                  if-cases (Post PlacedTurn) e.ir.fault (λ f. tt)
                    (λ f.
                      Post-bind (UntouchedTurn m) PlacedTurn (commit_store vm e m) _
                        (commit_store-Untouched e m)
                        (λ t u.
                          if-cases (Post PlacedTurn) t.0
                            (λ c.
                              Post-bind Placed PlacedTurn (commit_entry e t.1) _
                                (commit_entry-Placed e t.1 (still t.1.ooo u) (ground (arith, q))
                                  (moved t.1.ooo u))
                                (λ m' h. h))
                            (λ c. moved t.1.ooo u))))))
    where
      e : RobEntry
      e = m.ooo.rob m.ooo.rob_head

      still : (o : Ooo) → Untouched m.ooo o → o.rob o.rob_head ≡ e
      still o u = ap (λ f. f o.rob_head) u.rob ∙ ap m.ooo.rob u.head

      moved : (o : Ooo) → Untouched m.ooo o → IsPlaced o
      moved o u i hi =
          ap (λ f. f i) u.same
          ∙ p i hi
          ∙ ap (λ (f : ℕ → RobEntry). to_int ((f i).valid && not (f i).ready)) (sym u.rob)

  pub ooo_stage_commit-Placed : (m : Machine S) → Placed m → Post Placed (ooo_stage_commit vm m)
  unfolding ooo_stage_commit
  ooo_stage_commit-Placed m p =
      Post-bind PlacedTurn Placed (commit_one vm m) _ (commit_one-Placed m p) (λ t k.
        if-cases (Post Placed) t.0
          (λ c.
            Post-bind PlacedTurn Placed (commit_one vm t.1) _ (commit_one-Placed t.1 k) (λ t' h. h))
          (λ c. k))

  drain_one-Placed : (m : Machine S) → Placed m → Post Placed (drain_one vm m)
  unfolding drain_one
  drain_one-Placed m p =
      Post-then Placed (vm.vaddr_write m.mem e.addr e.width e.data_word) _ (λ mem. p)
    where
      e : StoreBufEntry
      e = m.ooo.sbuf m.ooo.sbuf_head

  pub ooo_drain_store_buf-Placed :
      (c : Config) (m : Machine S) → Placed m → Post Placed (ooo_drain_store_buf vm c m)
  unfolding ooo_drain_store_buf
  ooo_drain_store_buf-Placed c m p =
      if-cases (Post Placed) (m.ooo.sbuf_count == 0) (λ a. p)
        (λ a.
          if-cases (Post Placed) (ltb 1 c.num_cores)
            (λ q.
              if-cases (Post Placed) (ltb 0 m.ooo.sbuf_drain_tick) (λ r. p)
                (λ r. drain_one-Placed (with_ooo m (set_tick (lat_l2_hit - 1))) p))
            (λ q. drain_one-Placed m p))
