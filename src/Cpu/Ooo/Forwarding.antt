-- ===== src/Cpu/Ooo/Forwarding.antt =====
-- Store-to-load forwarding against memory: a load that takes its bytes from waiting stores against
-- one that reads memory once they have all been written.
use sustemu.Base.{
  ℕ, zero, suc, ◌+◌, ◌-◌, ◌*◌, ◌/◌, ◌%◌, ◌^◌, ◌<◌, ◌≤◌, ◌≡◌, refl, sym, ◌∙◌, ap, Bool, true, false,
  List, [], ◌∷◌, ◌++◌, if◌then◌else◌, ◌&&◌, ◌⊎◌, inl, inr, arith, leb, Bool-cases,
}
use native.Mathlib.Nat.{pow-suc, div-le_self}
use sustemu.Word.{add64}
use sustemu.Memory.Bytes.{le_read, le_write, le_read-le_write_within, le_read-le_write_apart}
use sustemu.Cpu.Ir.Inst.{IrInst}
use sustemu.Cpu.Ir.Exec.{extend_load}
use sustemu.Cpu.Ooo.State.{Ooo, rob_size, store_buf_size}
use sustemu.Cpu.Ooo.Rename.{is_store_raw}
use sustemu.Cpu.Ooo.Flush.{rob_age}
use sustemu.Cpu.Ooo.Lsu.{Pending, stlf_try, scan_sbuf, scan_rob, load_value}

-- The stores that the two scans look at, the oldest first
unfoldable pub sbuf_pending : ℕ → ℕ → Ooo → List Pending
sbuf_pending zero i o = []
sbuf_pending (suc k) i o =
    let rest = sbuf_pending k ((i + 1) % store_buf_size) o in
    if (o.sbuf i).valid
    then (record {
      addr = (o.sbuf i).addr;
      width = (o.sbuf i).width;
      data_word = (o.sbuf i).data_word;
    })
      ∷ rest
    else rest

unfoldable pub rob_pending : ℕ → ℕ → Ooo → List Pending
rob_pending zero i o = []
rob_pending (suc k) i o =
    let rest = rob_pending k ((i + 1) % rob_size) o in
    if (o.rob i).valid && ((o.rob i).ready && is_store_raw (o.rob i).ir.raw)
    then (record {
      addr = (o.rob i).ir.mem_addr;
      width = (o.rob i).ir.mem_width;
      data_word = (o.rob i).store_data;
    })
      ∷ rest
    else rest

-- Every store that is older than the load in slot `rob_idx` and not yet in memory
abbrev pub pending : Ooo → ℕ → List Pending
pending o rob_idx =
    sbuf_pending o.sbuf_count o.sbuf_head o ++ rob_pending (rob_age o rob_idx) o.rob_head o

-- Memory once they have been written
unfoldable pub drain : List Pending → (ℕ → ℕ) → ℕ → ℕ
drain [] mem = mem
drain (p ∷ ps) mem = drain ps (le_write p.width mem p.addr p.data_word)

forward : List Pending → ℕ → ℕ → Bool → ℕ → ℕ
forward [] la lw sign out = out
forward (p ∷ ps) la lw sign out = forward ps la lw sign (stlf_try p la lw sign out)

forward-append :
    (ps qs : List Pending) (la lw : ℕ) (sign : Bool) (out : ℕ)
    → forward (ps ++ qs) la lw sign out ≡ forward qs la lw sign (forward ps la lw sign out)
unfolding forward
forward-append [] qs la lw sign out = refl
forward-append (p ∷ ps) qs la lw sign out =
    forward-append ps qs la lw sign (stlf_try p la lw sign out)

scan_sbuf-forward :
    (k i : ℕ) (o : Ooo) (la lw : ℕ) (sign : Bool) (out : ℕ)
    → scan_sbuf k i o la lw sign out ≡ forward (sbuf_pending k i o) la lw sign out
unfolding scan_sbuf sbuf_pending forward
scan_sbuf-forward zero i o la lw sign out = refl
scan_sbuf-forward (suc k) i o la lw sign out = elim (Bool-cases (o.sbuf i).valid) [
  | inl e ↦ rw e (scan_sbuf-forward k ((i + 1) % store_buf_size) o la lw sign _)
  | inr e ↦ rw e (scan_sbuf-forward k ((i + 1) % store_buf_size) o la lw sign out)
]

scan_rob-forward :
    (k i : ℕ) (o : Ooo) (la lw : ℕ) (sign : Bool) (out : ℕ)
    → scan_rob k i o la lw sign out ≡ forward (rob_pending k i o) la lw sign out
unfolding scan_rob rob_pending forward
scan_rob-forward zero i o la lw sign out = refl
scan_rob-forward (suc k) i o la lw sign out =
    elim (Bool-cases ((o.rob i).valid && ((o.rob i).ready && is_store_raw (o.rob i).ir.raw))) [
      | inl e ↦ rw e (scan_rob-forward k ((i + 1) % rob_size) o la lw sign _)
      | inr e ↦ rw e (scan_rob-forward k ((i + 1) % rob_size) o la lw sign out)
    ]

-- A store of at most 8 bytes contains the load or leaves all its bytes alone.
pub data IsClear (la lw : ℕ) (p : Pending) : Type 0 where
  covers :
      p.width ≤ 8
      → p.data_word < 2 ^ 64
      → p.addr + p.width < 2 ^ 64
      → p.addr ≤ la
      → la + lw ≤ p.addr + p.width
      → IsClear la lw p
  below : p.addr + p.width < 2 ^ 64 → p.addr + p.width ≤ la → IsClear la lw p
  above : p.addr + p.width < 2 ^ 64 → la + lw ≤ p.addr → IsClear la lw p

abbrev pub AllClear : ℕ → ℕ → List Pending → Type 0
AllClear la lw [] = Unit {0}
AllClear la lw (p ∷ ps) = IsClear la lw p × AllClear la lw ps

-- The widths of the loads
pub data IsWidth : ℕ → Type 0 where
  byte : IsWidth 1
  half : IsWidth 2
  word : IsWidth 4
  double : IsWidth 8

-- Only the bytes of the load's width count.
extend_load-mod :
    (sign : Bool) (lw v : ℕ)
    → IsWidth lw
    → v < 2 ^ 64
    → extend_load sign lw (v % 256 ^ lw) ≡ extend_load sign lw v
unfolding extend_load
extend_load-mod true _ v byte h = ground arith
extend_load-mod false _ v byte h = ground arith
extend_load-mod true _ v half h = ground arith
extend_load-mod false _ v half h = ground arith
extend_load-mod true _ v word h = ground arith
extend_load-mod false _ v word h = ground arith
extend_load-mod sign _ v double h = ground arith

four_more : (n : ℕ) → 2 ^ suc (suc (suc (suc n))) ≡ 16 * 2 ^ n
four_more n =
    omega (
      arith,
      pow-suc 2 n,
      pow-suc 2 (suc n),
      pow-suc 2 (suc (suc n)),
      pow-suc 2 (suc (suc (suc n))),
    )

pow_bytes : (k : ℕ) → 2 ^ (k * 8) ≡ 256 ^ k
pow_bytes zero = refl
pow_bytes (suc k) =
    ap (λ (x : ℕ). 2 ^ x) eight
    ∙ omega (
      arith,
      four_more (suc (suc (suc (suc (k * 8))))),
      four_more (k * 8),
      pow-suc 256 k,
      pow_bytes k,
    )
  where
    eight : suc k * 8 ≡ suc (suc (suc (suc (suc (suc (suc (suc (k * 8))))))))
    eight = omega arith

-- A forwarded value is the value that memory gives after the store.
stlf_try-covers :
    (p : Pending) (la lw : ℕ) (sign : Bool) (out : ℕ) (mem : ℕ → ℕ)
    → IsWidth lw
    → la + lw < 2 ^ 64
    → p.width ≤ 8
    → p.data_word < 2 ^ 64
    → p.addr + p.width < 2 ^ 64
    → p.addr ≤ la
    → la + lw ≤ p.addr + p.width
    → stlf_try p la lw sign out
      ≡ extend_load sign lw (le_read lw (le_write p.width mem p.addr p.data_word) la)
unfolding stlf_try
stlf_try-covers p la lw sign out mem w top a b c d e = rw test (
    sym (
      ap (λ x. extend_load sign lw (le_read lw (le_write p.width mem p.addr p.data_word) x))
        at_offset
      ∙ ap (extend_load sign lw)
          (le_read-le_write_within (la - p.addr) lw p.width mem p.addr p.data_word (omega arith))
      ∙ extend_load-mod sign lw (p.data_word / 256 ^ (la - p.addr)) w small
      ∙ ap (λ x. extend_load sign lw (p.data_word / x)) (sym (pow_bytes (la - p.addr)))))
  where
    test : (leb p.addr la && leb (add64 la lw) (add64 p.addr p.width)) ≡ true
    test = ground arith

    at_offset : la ≡ p.addr + (la - p.addr)
    at_offset = omega arith

    small : p.data_word / 256 ^ (la - p.addr) < 2 ^ 64
    small = omega (arith, div-le_self p.data_word (256 ^ (la - p.addr)))

width_pos : (lw : ℕ) → IsWidth lw → 0 < lw
width_pos _ byte = omega arith
width_pos _ half = omega arith
width_pos _ word = omega arith
width_pos _ double = omega arith

stlf_try-apart :
    (p : Pending) (la lw : ℕ) (sign : Bool) (out : ℕ)
    → 0 < lw
    → la + lw < 2 ^ 64
    → p.addr + p.width < 2 ^ 64
    → (la + lw ≤ p.addr) ⊎ (p.addr + p.width ≤ la)
    → stlf_try p la lw sign out ≡ out
unfolding stlf_try
stlf_try-apart p la lw sign out w top c h = rw test refl
  where
    test : (leb p.addr la && leb (add64 la lw) (add64 p.addr p.width)) ≡ false
    test = ground arith

-- One store: the result stays that of memory.
stlf_try-drain :
    (p : Pending) (la lw : ℕ) (sign : Bool) (mem : ℕ → ℕ)
    → IsWidth lw
    → la + lw < 2 ^ 64
    → IsClear la lw p
    → stlf_try p la lw sign (extend_load sign lw (le_read lw mem la))
      ≡ extend_load sign lw (le_read lw (le_write p.width mem p.addr p.data_word) la)
stlf_try-drain p la lw sign mem w top (covers a b c d e) =
    stlf_try-covers p la lw sign (extend_load sign lw (le_read lw mem la)) mem w top a b c d e
stlf_try-drain p la lw sign mem w top (below c d) =
    stlf_try-apart p la lw sign (extend_load sign lw (le_read lw mem la)) (width_pos lw w) top c
      (inr d)
    ∙ ap (extend_load sign lw)
        (sym (le_read-le_write_apart lw p.width mem p.addr la p.data_word (inr d)))
stlf_try-drain p la lw sign mem w top (above c d) =
    stlf_try-apart p la lw sign (extend_load sign lw (le_read lw mem la)) (width_pos lw w) top c
      (inl d)
    ∙ ap (extend_load sign lw)
        (sym (le_read-le_write_apart lw p.width mem p.addr la p.data_word (inl d)))

forward-drain :
    (ps : List Pending) (la lw : ℕ) (sign : Bool) (mem : ℕ → ℕ)
    → IsWidth lw
    → la + lw < 2 ^ 64
    → AllClear la lw ps
    → forward ps la lw sign (extend_load sign lw (le_read lw mem la))
      ≡ extend_load sign lw (le_read lw (drain ps mem) la)
unfolding forward drain
forward-drain [] la lw sign mem w top h = refl
forward-drain (p ∷ ps) la lw sign mem w top h =
    ap (forward ps la lw sign) (stlf_try-drain p la lw sign mem w top h.0)
    ∙ forward-drain ps la lw sign (le_write p.width mem p.addr p.data_word) w top h.1

-- A load of 1, 2, 4 or 8 bytes whose range does not wrap around, when every older store that is still in the store buffer
-- or executed in the reorder buffer either contains all its bytes and is at most 8 wide or touches none of them,
-- and no such store's range wraps around, gets from `ooo_unit_lsu`, out of what memory
-- holds now, the extended word that memory holds once those stores are written in order.
pub load_value-drain :
    (o : Ooo) (rob_idx : ℕ) (ir : IrInst) (mem : ℕ → ℕ)
    → IsWidth ir.mem_width
    → ir.mem_addr + ir.mem_width < 2 ^ 64
    → AllClear ir.mem_addr ir.mem_width (pending o rob_idx)
    → load_value o rob_idx ir (le_read ir.mem_width mem ir.mem_addr)
      ≡ extend_load ir.mem_sign ir.mem_width
          (le_read ir.mem_width (drain (pending o rob_idx) mem) ir.mem_addr)
unfolding load_value
load_value-drain o rob_idx ir mem w top h =
    scan_rob-forward (rob_age o rob_idx) o.rob_head o ir.mem_addr ir.mem_width ir.mem_sign _
    ∙ ap
        (forward (rob_pending (rob_age o rob_idx) o.rob_head o) ir.mem_addr ir.mem_width
          ir.mem_sign)
        (scan_sbuf-forward o.sbuf_count o.sbuf_head o ir.mem_addr ir.mem_width ir.mem_sign _)
    ∙ sym (
        forward-append (sbuf_pending o.sbuf_count o.sbuf_head o)
          (rob_pending (rob_age o rob_idx) o.rob_head o) ir.mem_addr ir.mem_width ir.mem_sign _)
    ∙ forward-drain (pending o rob_idx) ir.mem_addr ir.mem_width ir.mem_sign mem w top h
