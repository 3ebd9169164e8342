-- ===== src/Cpu/Ooo/Names/Retiring.antt =====
-- What `ooo_stage_commit` and the store buffer do to renaming.
use sustemu.Base.{
  Post, Post-bind, ℕ, zero, suc, ◌-◌, ◌<◌, ◌≡◌, ◌≢◌, refl, sym, ◌∙◌, ap, subst, true, false, Option,
  none, some, arith, ◌==◌, if◌then◌else◌, ltb, leb, not, ◌&&◌, ◌||◌, ◌>>=◌, Bool-cases, inl, inr,
  ==→ne, if-cases,
}
use sustemu.Cpu.State.{CpuState}
use sustemu.Cpu.Ooo.State.{Ooo, RobEntry, StoreBufEntry, lat_l2_hit, store_buf_size}
use sustemu.Cpu.Ooo.Wake.{is_fence}
use sustemu.Cpu.Ooo.Machine.{Machine, Config, with_ooo}
use sustemu.Cpu.Ooo.Commit.{
  retire, pop_rob, is_store, commit_store, commit_entry, commit_one, ooo_stage_commit, drain_one,
  ooo_drain_store_buf, sbuf_push, Turn, set_tick,
}
use sustemu.Cpu.Ooo.Names.{broken, renamed, dest, dest_of, names, IsSound}
use sustemu.Cpu.Ooo.Names.Live.{names-clear}
use sustemu.Cpu.Ooo.Names.Leaving.{leave_as, step_off, live-leave, leave_as-IsSound}
use sustemu.Cpu.Ooo.Names.Frame.{front, IsConsistent}
use sustemu.Memory.Vmem.{VirtualMemory, is_cached}

retire_lem :
    (a p q : Option ℕ) (cpu : CpuState) (o : Ooo)
    → dest_of a p q ≢ broken
    → (c : CpuState) × (o' : Ooo) × (retire a p q cpu o ≡ some (c, o'))
      × (names (pop_rob (o.rob o.rob_head) o') ≡ leave_as (dest_of a p q) (names o))
      × (o'.latch_id_rn ≡ o.latch_id_rn)
      × (o'.latch_if_id ≡ o.latch_if_id)
unfolding retire dest_of
retire_lem none p q cpu o h =
    (cpu, o, refl, names-clear (step_off (names o)) o.rob o.rob_head, refl, refl)
retire_lem (some zero) p q cpu o h =
    (cpu, o, refl, names-clear (step_off (names o)) o.rob o.rob_head, refl, refl)
retire_lem (some (suc r)) none q cpu o h = absurd (h refl)
retire_lem (some (suc r)) (some p) none cpu o h = absurd (h refl)
retire_lem (some (suc r)) (some p) (some old) cpu o h = (
  _,
  _,
  refl,
  names-clear (leave_as (renamed (suc r) p old) (names o)) o.rob o.rob_head,
  refl,
  refl,
)

pub any : {A : Type 0} (r : Option A) → Post (λ x. Unit {0}) r
any none = tt
any (some a) = tt

-- A machine whose renaming is sound
abbrev pub Good : {S : Type 0} → Machine S → Type 0
Good m = IsConsistent (front m.ooo)

module _ {S : Type 0} (vm : VirtualMemory S) where
  -- The oldest instruction in flight always has the registers that its commit needs.
  pub commit_entry-Good :
      (m : Machine S)
      → Good m
      → 0 < m.ooo.rob_count
      → (m' : Machine S) × (commit_entry (m.ooo.rob m.ooo.rob_head) m ≡ some m') × Good m'
  unfolding commit_entry
  commit_entry-Good m g h =
      let (c, o', e, same, rn, fi) =
        retire_lem head.arch_rd head.phys_rd head.old_phys m.cpu m.ooo sound.1 in
      rw e (
        _,
        refl,
        record {
          sound = subst IsSound (sym same) sound.0;
          waiting = rw rn g.waiting;
          fetched = rw fi g.fetched;
        },
      )
    where
      head : RobEntry
      head = m.ooo.rob m.ooo.rob_head

      sound : IsSound (leave_as (dest head) (names m.ooo)) × (dest head ≢ broken)
      sound =
          leave_as-IsSound (names m.ooo) g.sound h (dest head) (live-leave (names m.ooo) g.sound h)

  -- A store keeps the reorder buffer, and what renaming is about.
  abbrev KeepsRob : Machine S → Turn S → Type 0
  KeepsRob m t = (t.1.ooo.rob ≡ m.ooo.rob) × (front t.1.ooo ≡ front m.ooo)

  commit_store-KeepsRob : (e : RobEntry) (m : Machine S) → Post (KeepsRob m) (commit_store vm e m)
  unfolding commit_store sbuf_push
  commit_store-KeepsRob e m = elim (Bool-cases (not (is_store e.ir.type))) [
    | inl p ↦ rw p (refl, refl)
    | inr p ↦ rw p (elim (Bool-cases (is_cached e.ir.mem_addr)) [
      | inl q ↦ rw q (elim (Bool-cases (leb store_buf_size m.ooo.sbuf_count)) [
        | inl r ↦ rw r (refl, refl)
        | inr r ↦ rw r (refl, refl)
      ])
      | inr q ↦ rw q (
          Post-bind (λ x. Unit {0}) (KeepsRob m)
            (vm.vaddr_write m.mem e.ir.mem_addr e.ir.mem_width e.store_data) _ (any _)
            (λ mem u. (refl, refl)))
    ])
  ]

  commit_one-Good : (m : Machine S) → Good m → Post (λ (t : Turn S). Good t.1) (commit_one vm m)
  unfolding commit_one
  commit_one-Good m g =
      if-cases P (m.ooo.rob_count == 0) (λ p. g)
        (λ p.
          if-cases P (not e.valid || not e.ready) (λ q. g)
            (λ q.
              if-cases P (is_fence e.ir.type && ltb 0 m.ooo.sbuf_count) (λ r. g)
                (λ r.
                  if-cases P e.ir.fault (λ f. tt)
                    (λ f.
                      Post-bind (KeepsRob m) (λ (t : Turn S). Good t.1) (commit_store vm e m) _
                        (commit_store-KeepsRob e m) (left (==→ne m.ooo.rob_count 0 p))))))
    where
      P : Option (Turn S) → Type 0
      P = Post (λ t. Good t.1)

      e : RobEntry
      e = m.ooo.rob m.ooo.rob_head

      left :
          m.ooo.rob_count ≢ 0
          → (t : Turn S) → KeepsRob m t
          → Post
              (λ (t : Turn S). Good t.1)
              (if t.0 then (commit_entry e t.1 >>= λ m'. some (true, m')) else some (false, t.1))
      left ne (false, m') (rob, same) = subst IsConsistent (sym same) g
      left ne (true, m') (rob, same) =
          let n = ap (λ f. f.named.rob_count) same in
          let (r, p, good) = commit_entry-Good m' (subst IsConsistent (sym same) g) (omega arith) in
          let here =
            ap m'.ooo.rob (ap (λ f. f.named.rob_head) same) ∙ ap (λ f. f m.ooo.rob_head) rob in
          rw (subst (λ x. commit_entry x m' ≡ some r) here p) good

  pub ooo_stage_commit-Good : (m : Machine S) → Good m → Post Good (ooo_stage_commit vm m)
  unfolding ooo_stage_commit
  ooo_stage_commit-Good m g =
      Post-bind (λ t. Good t.1) Good (commit_one vm m) _ (commit_one-Good m g) again
    where
      again :
          (t : Turn S)
          → Good t.1
          → Post Good (if t.0 then (commit_one vm t.1 >>= λ t'. some t'.1) else some t.1)
      again (false, m') h = h
      again (true, m') h =
          Post-bind (λ t. Good t.1) Good (commit_one vm m') _ (commit_one-Good m' h) (λ t k. k)

  drain_one-Good : (m : Machine S) → Good m → Post Good (drain_one vm m)
  unfolding drain_one
  drain_one-Good m g =
      Post-bind (λ x. Unit {0}) Good (vm.vaddr_write m.mem e.addr e.width e.data_word) _ (any _)
        (λ mem u. g)
    where
      e : StoreBufEntry
      e = m.ooo.sbuf m.ooo.sbuf_head

  pub ooo_drain_store_buf-Good :
      (c : Config) (m : Machine S) → Good m → Post Good (ooo_drain_store_buf vm c m)
  unfolding ooo_drain_store_buf
  ooo_drain_store_buf-Good c m g =
      if-cases (Post Good) (m.ooo.sbuf_count == 0) (λ p. g)
        (λ p.
          if-cases (Post Good) (ltb 1 c.num_cores)
            (λ q.
              if-cases (Post Good) (ltb 0 m.ooo.sbuf_drain_tick) (λ r. g)
                (λ r. drain_one-Good (with_ooo m (set_tick (lat_l2_hit - 1))) g))
            (λ q. drain_one-Good m g))
