-- ===== src/Cpu/Pipeline/Order/Pointers.antt =====
-- A write behind one pointer changes one latch of the view, as the pointers are apart.
use sustemu.Base.{ℕ, ◌≡◌, ◌≢◌, refl, sym, update_self, update_ne}
use sustemu.Cpu.Ooo.State.{PipeReg}
use sustemu.Cpu.Pipeline.State.{Pipeline, Core, set_latch, latch}
use sustemu.Cpu.Pipeline.Order.{view}

pub record IsDistinct (id ex mem wb : ℕ) : Type 0 where
  pub id_ex : id ≢ ex
  pub id_mem : id ≢ mem
  pub id_wb : id ≢ wb
  pub ex_mem : ex ≢ mem
  pub ex_wb : ex ≢ wb
  pub mem_wb : mem ≢ wb

abbrev pub IsApart : Pipeline → Type 0
IsApart q = IsDistinct q.id q.ex q.mem q.wb

module _ {S : Type 0} (c : Core S) (f : PipeReg → PipeReg) (a : IsApart c.cpu_pipe) where
  hit : (p : ℕ) → latch (set_latch p f c) p ≡ f (latch c p)
  hit p = update_self c.cpu_pipe.slots p (f (latch c p))

  miss : (p i : ℕ) → i ≢ p → latch (set_latch p f c) i ≡ latch c i
  miss p i h = update_ne c.cpu_pipe.slots p i (f (latch c p)) h

  pub set_id :
      view (set_latch c.cpu_pipe.id f c) ≡ record (view c) { id = f (latch c c.cpu_pipe.id) }
  set_id =
      rw
        (
          hit c.cpu_pipe.id,
          miss c.cpu_pipe.id c.cpu_pipe.ex (λ e. a.id_ex (sym e)),
          miss c.cpu_pipe.id c.cpu_pipe.mem (λ e. a.id_mem (sym e)),
          miss c.cpu_pipe.id c.cpu_pipe.wb (λ e. a.id_wb (sym e)),
        )
        refl

  pub set_ex :
      view (set_latch c.cpu_pipe.ex f c) ≡ record (view c) { ex = f (latch c c.cpu_pipe.ex) }
  set_ex =
      rw
        (
          hit c.cpu_pipe.ex,
          miss c.cpu_pipe.ex c.cpu_pipe.id a.id_ex,
          miss c.cpu_pipe.ex c.cpu_pipe.mem (λ e. a.ex_mem (sym e)),
          miss c.cpu_pipe.ex c.cpu_pipe.wb (λ e. a.ex_wb (sym e)),
        )
        refl

  pub set_mem :
      view (set_latch c.cpu_pipe.mem f c) ≡ record (view c) { mem = f (latch c c.cpu_pipe.mem) }
  set_mem =
      rw
        (
          hit c.cpu_pipe.mem,
          miss c.cpu_pipe.mem c.cpu_pipe.id a.id_mem,
          miss c.cpu_pipe.mem c.cpu_pipe.ex a.ex_mem,
          miss c.cpu_pipe.mem c.cpu_pipe.wb (λ e. a.mem_wb (sym e)),
        )
        refl

  pub set_wb :
      view (set_latch c.cpu_pipe.wb f c) ≡ record (view c) { wb = f (latch c c.cpu_pipe.wb) }
  set_wb =
      rw
        (
          hit c.cpu_pipe.wb,
          miss c.cpu_pipe.wb c.cpu_pipe.id a.id_wb,
          miss c.cpu_pipe.wb c.cpu_pipe.ex a.ex_wb,
          miss c.cpu_pipe.wb c.cpu_pipe.mem a.mem_wb,
        )
        refl
