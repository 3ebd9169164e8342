-- ===== src/Cpu/Ooo/Places/Reached.antt =====
-- Whole cycles of src/cpu/ooo.c, and where the instructions are.
use sustemu.Base.{
  Post, Post-bind, Post-then, Post-both, Post-mono, ℕ, ◌%◌, ◌^◌, ◌≡◌, refl, sym, subst, Option,
  some, not, ◌&&◌, ◌||◌, if-cases,
}
use sustemu.Cpu.Ir.Inst.{IrInst}
use sustemu.Cpu.Bpred.Model.{BpredResult}
use sustemu.Cpu.Ooo.State.{Ooo}
use sustemu.Cpu.Ooo.Rename.{popcount, ooo_stage_rn}
use sustemu.Cpu.Ooo.Wake.{ooo_stage_is}
use sustemu.Cpu.Ooo.Machine.{Machine, Config, with_ooo}
use sustemu.Cpu.Ooo.Commit.{Turn}
use sustemu.Cpu.Ooo.Cycle.{
  annotate, predict, fetch_slot, ooo_stage_if, ooo_stage_id, count_cycle, ooo_init, init_machine,
  is_control_raw,
}
use sustemu.Cpu.Ooo.Stages.{IsKept, run_cycles, run_cycles-IsKept}
use sustemu.Cpu.Ooo.Names.Frame.{IsConsistent, front-ooo_stage_is}
use sustemu.Cpu.Ooo.Stations.{IsScheduled}
use sustemu.Cpu.Ooo.Stations.Leaving.{ooo_stage_is-IsScheduled}
use sustemu.Cpu.Ooo.Stations.Reached.{Sound, Sound-IsKept, init_machine-Sound}
use sustemu.Cpu.Ooo.Places.{IsPlaced}
use sustemu.Cpu.Ooo.Places.Issuing.{ooo_stage_is-IsPlaced}
use sustemu.Cpu.Ooo.Places.Renaming.{ooo_stage_rn-IsPlaced}
use sustemu.Cpu.Ooo.Places.Executing.{Placed, ooo_unit_int-Placed, ooo_unit_mul-Placed}
use sustemu.Cpu.Ooo.Places.Loading.{ooo_unit_lsu-Placed}
use sustemu.Cpu.Ooo.Places.Committing.{ooo_stage_commit-Placed, ooo_drain_store_buf-Placed}
use sustemu.Memory.Vmem.{VirtualMemory, is_cached}

ooo_stage_id-IsPlaced : (o : Ooo) → IsPlaced o → IsPlaced (ooo_stage_id o)
unfolding ooo_stage_id
ooo_stage_id-IsPlaced o p =
    if-cases IsPlaced (not (o.latch_if_id 0).valid || (o.latch_id_rn 0).valid) (λ e. p) (λ e. p)

module _ {S : Type 0} where
  abbrev Settled : Machine S → Type 0
  Settled m = Sound m × Placed m

  annotate-Placed :
      (c : Config) (s pc raw : ℕ) (ir : IrInst) (m : Machine S)
      → Placed m
      → Placed (annotate c s pc raw ir m).1
  unfolding annotate predict
  annotate-Placed c s pc raw ir m p =
      if-cases (λ (t : Turn S). Placed t.1) ((c.bpred_mode || c.bpred2_mode) && is_control_raw raw)
        (λ e.
          if-cases (λ (r : BpredResult × Machine S). Placed r.1) c.bpred2_mode (λ f. p) (λ f. p))
        (λ e. p)

module _ {S : Type 0} (vm : VirtualMemory S) where
  fetch_slot-Placed :
      (c : Config) (s : ℕ) (m : Machine S)
      → Placed m
      → Post (λ (t : Turn S). Placed t.1) (fetch_slot vm c s m)
  unfolding fetch_slot
  fetch_slot-Placed c s m p =
      if-cases (Post (λ (t : Turn S). Placed t.1)) (not (is_cached (m.ooo.fetch_pc % 2 ^ 32)))
        (λ e. p)
        (λ e.
          Post-then (λ (t : Turn S). Placed t.1) (vm.vaddr_ifetch m.mem (m.ooo.fetch_pc % 2 ^ 32) 4)
            _
            (λ r.
              annotate-Placed c s (m.ooo.fetch_pc % 2 ^ 32) (r.0 % 2 ^ 32) _
                (record m { mem = r.1 }) p))

  ooo_stage_if-Placed : (c : Config) (m : Machine S) → Placed m → Post Placed (ooo_stage_if vm c m)
  unfolding ooo_stage_if
  ooo_stage_if-Placed c m p =
      if-cases (Post Placed) (m.ooo.latch_if_id 0).valid (λ e. p)
        (λ e.
          Post-bind (λ (t : Turn S). Placed t.1) Placed (fetch_slot vm c 0 m) _
            (fetch_slot-Placed c 0 m p)
            (λ t h.
              if-cases (Post Placed) t.0
                (λ f.
                  Post-bind (λ (t : Turn S). Placed t.1) Placed (fetch_slot vm c 1 t.1) _
                    (fetch_slot-Placed c 1 t.1 h) (λ t' j. j))
                (λ f. h)))

  rename-Placed :
      (m : Machine S)
      → Settled m
      → Post (λ o. Placed (with_ooo m (λ x. o))) (ooo_stage_rn (ooo_stage_is m.ooo))
  rename-Placed m h =
      let g = subst IsConsistent (sym (front-ooo_stage_is m.ooo)) h.0.0 in
      Post-mono (λ o. IsScheduled o × IsPlaced o) (λ o. Placed (with_ooo m (λ x. o)))
        (ooo_stage_rn (ooo_stage_is m.ooo)) (λ o t. t.1)
        (ooo_stage_rn-IsPlaced (ooo_stage_is m.ooo) g.sound g.waiting
          (ooo_stage_is-IsScheduled m.ooo h.0.1) (ooo_stage_is-IsPlaced m.ooo h.0.1 h.1))

  Settled-IsKept : IsKept vm Settled
  unfolding count_cycle
  Settled-IsKept = record {
    drain = λ c m h. both _ (sound.drain c m h.0) (ooo_drain_store_buf-Placed vm c m h.1);
    commit = λ m h. both _ (sound.commit m h.0) (ooo_stage_commit-Placed vm m h.1);
    clock = λ m h. (sound.clock m h.0, h.1);
    int = λ c m h. both _ (sound.int c m h.0) (ooo_unit_int-Placed c m h.0.0 h.1);
    mul = λ m h. both _ (sound.mul m h.0) (ooo_unit_mul-Placed m h.1);
    lsu = λ m h. both _ (sound.lsu m h.0) (ooo_unit_lsu-Placed vm m h.1);
    rename = λ m h.
        Post-both (λ o. Sound (with_ooo m (λ x. o))) (λ o. Placed (with_ooo m (λ x. o)))
          (ooo_stage_rn (ooo_stage_is m.ooo)) (sound.rename m h.0) (rename-Placed m h);
    decode = λ m h. (sound.decode m h.0, ooo_stage_id-IsPlaced m.ooo h.1);
    fetch = λ c m h. both _ (sound.fetch c m h.0) (ooo_stage_if-Placed c m h.1);
    count = λ m h. (sound.count m h.0, h.1);
  }
    where
      sound : IsKept vm Sound
      sound = Sound-IsKept vm

      both : (r : Option (Machine S)) → Post Sound r → Post Placed r → Post Settled r
      both r p q = Post-both Sound Placed r p q

  init_machine-Placed : (c : Config) (m : Machine S) → Placed (init_machine c m)
  unfolding init_machine ooo_init popcount
  init_machine-Placed c m i hi = refl

  -- After any number of cycles from `ooo_init` on any machine that the run survives, each instruction
  -- in flight that has not executed is in exactly one place, which is a reservation station or a latch
  -- of an execution unit, where a latch of the load/store units that is marked as flushed, and waits for
  -- its line only, counts as empty; and a slot of the reorder buffer that is empty or whose instruction has
  -- executed is in none.
  pub run_cycles-IsPlaced :
      (n : ℕ) (c : Config) (m m' : Machine S)
      → run_cycles vm n c (init_machine c m) ≡ some m'
      → IsPlaced m'.ooo
  run_cycles-IsPlaced n c m m' e =
      (subst (Post Settled) e (
        run_cycles-IsKept vm Settled Settled-IsKept n c (init_machine c m)
          (init_machine-Sound vm c m, init_machine-Placed c m))).1
