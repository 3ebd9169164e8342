-- ===== src/Cpu/Ooo/Stages.antt =====
-- The stages that `ooo_cycle` is made of, and properties that each of them keeps.
use sustemu.Base.{Post, Post-bind, ℕ, zero, suc, Option, ◌>>=◌, some}
use sustemu.Cpu.Ooo.Rename.{ooo_stage_rn}
use sustemu.Cpu.Ooo.Wake.{ooo_stage_is}
use sustemu.Cpu.Ooo.Machine.{Machine, Config, with_ooo}
use sustemu.Cpu.Ooo.Commit.{ooo_stage_commit, ooo_drain_store_buf}
use sustemu.Cpu.Ooo.Units.{ooo_unit_int, ooo_unit_mul}
use sustemu.Cpu.Ooo.Lsu.{ooo_unit_lsu}
use sustemu.Cpu.Ooo.Cycle.{ooo_stage_if, ooo_stage_id, ooo_cycle, count_cycle, tick}
use sustemu.Memory.Vmem.{VirtualMemory}

module _ {S : Type 0} (vm : VirtualMemory S) where
  -- A property of machines with the proof that each stage keeps it
  pub record IsKept (P : Machine S → Type 0) : Type 0 where
    pub drain : (c : Config) (m : Machine S) → P m → Post P (ooo_drain_store_buf vm c m)
    pub commit : (m : Machine S) → P m → Post P (ooo_stage_commit vm m)
    pub clock : (m : Machine S) → P m → P (tick m)
    pub int : (c : Config) (m : Machine S) → P m → Post P (ooo_unit_int c m)
    pub mul : (m : Machine S) → P m → Post P (ooo_unit_mul m)
    pub lsu : (m : Machine S) → P m → Post P (ooo_unit_lsu vm m)
    pub rename :
        (m : Machine S)
        → P m
        → Post (λ o. P (with_ooo m (λ x. o))) (ooo_stage_rn (ooo_stage_is m.ooo))
    pub decode : (m : Machine S) → P m → P (with_ooo m ooo_stage_id)
    pub fetch : (c : Config) (m : Machine S) → P m → Post P (ooo_stage_if vm c m)
    pub count : (m : Machine S) → P m → P (count_cycle m)

  pub ooo_cycle-IsKept :
      (P : Machine S → Type 0) (k : IsKept P) (c : Config) (m : Machine S)
      → P m
      → Post P (ooo_cycle vm c m)
  unfolding ooo_cycle
  ooo_cycle-IsKept P k c m p =
      Post-bind P P (ooo_drain_store_buf vm c m) _ (k.drain c m p) (λ m₁ p₁.
        Post-bind P P (ooo_stage_commit vm m₁) _ (k.commit m₁ p₁) (λ m₂ p₂.
          Post-bind P P (ooo_unit_int c (tick m₂)) _ (k.int c (tick m₂) (k.clock m₂ p₂)) (λ m₃ p₃.
            Post-bind P P (ooo_unit_mul m₃) _ (k.mul m₃ p₃) (λ m₄ p₄.
              Post-bind P P (ooo_unit_lsu vm m₄) _ (k.lsu m₄ p₄) (λ m₅ p₅.
                Post-bind (λ o. P (with_ooo m₅ (λ x. o))) P (ooo_stage_rn (ooo_stage_is m₅.ooo)) _
                  (k.rename m₅ p₅)
                  (λ o p₆.
                    Post-bind P P (ooo_stage_if vm c (record m₅ { ooo = ooo_stage_id o })) _
                      (k.fetch c (record m₅ { ooo = ooo_stage_id o })
                        (k.decode (with_ooo m₅ (λ x. o)) p₆))
                      (λ m₆ p₇. k.count m₆ p₇)))))))

  -- n cycles
  unfoldable pub run_cycles : ℕ → Config → Machine S → Option (Machine S)
  run_cycles zero c m = some m
  run_cycles (suc n) c m = ooo_cycle vm c m >>= λ m'. run_cycles n c m'

  pub run_cycles-IsKept :
      (P : Machine S → Type 0) (k : IsKept P) (n : ℕ) (c : Config) (m : Machine S)
      → P m
      → Post P (run_cycles n c m)
  unfolding run_cycles
  run_cycles-IsKept P k zero c m p = p
  run_cycles-IsKept P k (suc n) c m p =
      Post-bind P P (ooo_cycle vm c m) _ (ooo_cycle-IsKept P k c m p)
        (λ m' p'. run_cycles-IsKept P k n c m' p')
