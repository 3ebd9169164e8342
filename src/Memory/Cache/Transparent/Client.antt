-- ===== src/Memory/Cache/Transparent/Client.antt =====
-- A sequence of reads and writes by one core, on the hierarchy and on a flat memory.
use sustemu.Base.{
  ℕ, ◌%◌, ◌^◌, ◌<◌, ◌≡◌, refl, ◌∙◌, ap, fun_ext, arith, Option, some, List, [], ◌∷◌, ◌>>=◌, false,
  true,
}
use sustemu.Memory.Bytes.{le_read, le_write, le_read-le_write}
use sustemu.Memory.Cache.Lines.{init_cache}
use sustemu.Memory.Cache.Level.{Fits, RamBlock, block, level}
use sustemu.Memory.Cache.Level.Laws.{holder_of_miss, level_of_none}
use sustemu.Memory.Cache.Lookup.{contents}
use sustemu.Memory.Cache.Install.{IsGood}
use sustemu.Memory.Cache.Fetch.{Mem, Bus, Hier}
use sustemu.Memory.Cache.Access.{cache_read, cache_write, init_l1, init_l2}
use sustemu.Memory.Cache.Transparent.Fill.{lower, view, IsCoherent}
use sustemu.Memory.Cache.Transparent.Entry.{cache_read-view, cache_write-view}

init_cache-IsGood : (s w : ℕ) (below : ℕ → ℕ) → 0 < w → 0 < 2 ^ s → IsGood (init_cache s w) below
unfolding init_cache
init_cache-IsGood s w below hw hs = record {
  formed = record { offset = refl; some_way = hw; mru_in = λ k m e. cc };
  sound = record {
    some_set = hs;
    unique = λ k i j hi hj p q e. cc;
    in_ram = λ k i hk hi p. absurd (never p);
    clean = λ k i hk hi p. absurd (never p);
  };
}
  where
    never : false ≡ true → ⊥
    never e = cc

init_cache-level :
    (s w : ℕ) (below : ℕ → ℕ) (b : ℕ) → level (contents (init_cache s w)) below b ≡ below b
unfolding init_cache
init_cache-level s w below b =
    level_of_none (contents (init_cache s w)) below b
      (holder_of_miss (contents (init_cache s w)) b (λ i hi. refl))

module _ {M : Type 0} where
  abbrev pub fresh : Mem M → Hier M
  fresh m = record { l1 = init_l1; l2 = init_l2; mem = m }

  -- The caches that the simulator starts with are coherent over any memory, and show that memory.
  pub fresh-IsCoherent : (m : Mem M) → IsCoherent (fresh m) × ((b : ℕ) → view (fresh m) b ≡ m.ram b)
  unfolding init_l1 init_l2
  fresh-IsCoherent m = (
    record {
      good_l1 = init_cache-IsGood 6 8 (lower (fresh m)) (omega arith) (omega arith);
      good_l2 = init_cache-IsGood 8 16 m.ram (omega arith) (omega arith);
    },
    λ b. init_cache-level 6 8 (lower (fresh m)) b ∙ init_cache-level 8 16 m.ram b,
  )

-- A load or a store of a program
pub data Request : Type 0 where
  load : ℕ → ℕ → Request
  store : ℕ → ℕ → ℕ → Request

-- It has at most 8 bytes and stays within one block of the guest's memory.
abbrev pub IsAligned : Request → Type 0
IsAligned (load a len) = RamBlock (block a) × Fits a len
IsAligned (store a len v) = RamBlock (block a) × Fits a len

abbrev pub AllAligned : List Request → Type 0
AllAligned [] = Unit {0}
AllAligned (r ∷ rs) = IsAligned r × AllAligned rs

-- The words that the loads return, on a flat memory
unfoldable pub run_flat : (ℕ → ℕ) → List Request → List ℕ
run_flat mem [] = []
run_flat mem (load a len ∷ rs) = le_read len mem a ∷ run_flat mem rs
run_flat mem (store a len v ∷ rs) = run_flat (le_write len mem a v) rs

module _ {M : Type 0} (bus : Bus M) where
  -- The words that the loads return, on the hierarchy
  pub run_cache : Hier M → List Request → Option (List ℕ)
  run_cache h [] = some []
  run_cache h (load a len ∷ rs) =
      cache_read bus h a len >>= λ r. run_cache r.1 rs >>= λ vs. some (r.0 ∷ vs)
  run_cache h (store a len v ∷ rs) = cache_write bus h a len v >>= λ h'. run_cache h' rs

  -- Every sequence of loads and stores, each of at most 8 bytes within a block of the guest's memory, returns on a
  -- coherent hierarchy exactly what a flat memory with the hierarchy's view returns.
  pub run_cache-flat :
      (rs : List Request) (h : Hier M)
      → IsCoherent h
      → AllAligned rs
      → run_cache h rs ≡ some (run_flat (view h) rs)
  unfolding run_cache run_flat
  run_cache-flat [] h g ok = refl
  run_cache-flat (load a len ∷ rs) h g ok =
      let (h', e, g', same) = cache_read-view bus h a len g ok.0.0 ok.0.1 in
      rw (e, run_cache-flat rs h' g' ok.1, fun_ext same)
  run_cache-flat (store a len v ∷ rs) h g ok =
      let (h', e, g', same) = cache_write-view bus h a len v g ok.0.0 ok.0.1 in
      rw (e, run_cache-flat rs h' g' ok.1, fun_ext same)

  -- On a coherent hierarchy, a value of at most 8 bytes stored within one block of the guest's memory and loaded again at
  -- the same address comes back, cut to its width.
  pub cache_read-cache_write :
      (h : Hier M) (a len v : ℕ)
      → IsCoherent h
      → RamBlock (block a)
      → Fits a len
      → (run_cache h (store a len v ∷ load a len ∷ [])) ≡ some ((v % 256 ^ len) ∷ [])
  unfolding run_flat
  cache_read-cache_write h a len v g r fits =
      run_cache-flat (store a len v ∷ load a len ∷ []) h g ((r, fits), ((r, fits), tt))
      ∙ ap (λ x. some (x ∷ [])) (le_read-le_write len (view h) a v)
