-- ===== src/Memory/Vmem/Start.antt =====
-- Two cores as the simulator starts them: fresh caches, of which nothing is written.
use sustemu.Base.{ℕ, ◌≡◌, refl, true, false, arith}
use sustemu.Memory.Cache.Level.{level}
use sustemu.Memory.Cache.Lookup.{contents}
use sustemu.Memory.Cache.Fetch.{Mem}
use sustemu.Memory.Cache.Access.{init_l1, init_l2}
use sustemu.Memory.Cache.Transparent.Fill.{lower, IsCoherent}
use sustemu.Memory.Cache.Transparent.Client.{fresh, fresh-IsCoherent}
use sustemu.Memory.Vmem.{System}
use sustemu.Memory.Vmem.Agreed.{IsAgreed}

module _ {M : Type 0} where
  abbrev pub two_fresh : Mem M → System M
  two_fresh m = record {
    num_cores = 2;
    current_hartid = 0;
    l1i = λ t. init_l1;
    l1d = λ t. init_l1;
    l2 = init_l2;
    mem = m;
  }

  -- The caches of both cores agree with the memory.
  pub two_fresh-IsAgreed : (m : Mem M) → IsAgreed (two_fresh m) m.ram
  unfolding init_l1
  two_fresh-IsAgreed m = record {
    two = refl;
    hart = omega arith;
    pair = record {
      formed_c = g.good_l1.formed;
      formed_d = g.good_l1.formed;
      good_l2 = g.good_l2;
      shared = record {
        sound_c = g.good_l1.sound;
        sound_d = g.good_l1.sound;
        apart_c = record { apart = λ x i hi h. absurd (never h) };
        apart_d = record { apart = λ x i hi h. absurd (never h) };
        see_c = λ x u. seen x;
        see_d = λ x u. seen x;
      };
    };
  }
    where
      g : IsCoherent (fresh m)
      g = (fresh-IsCoherent m).0

      seen : (b : ℕ) → level (contents init_l1) (lower (fresh m)) b ≡ m.ram b
      seen = (fresh-IsCoherent m).1

      never : false ≡ true → ⊥
      never e = cc
