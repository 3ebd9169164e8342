-- ===== src/Cpu/Csr/Counts.antt =====
-- `pmp_on_count` against the configuration bytes that it counts.
use sustemu.Base.{
  List, [], ◌∷◌, ℕ, zero, suc, ◌+◌, ◌*◌, ◌%◌, ◌≤◌, ◌<◌, ◌≡◌, refl, subst, Bool, true, false, Option,
  some, none, arith, ltb, ◌==◌, ◌&&◌, not, if◌then◌else◌, Bool-cases, inl, inr, ==→eq, ==→ne,
  update, update_self, update_ne, to_int, ◌>>=◌,
}
use sustemu.Word.{shr64}
use sustemu.Cpu.Csr.Table.{Hart, CsrRow, priv_check, check_rows, row_grants, csr_table, fail}
use sustemu.Cpu.Csr.Access.{is_pmp_on, set_pmpcfg, set_pmpcfgs, write_csr, set_csr}
use sustemu.Cpu.Csr.Rights.{priv_check-Permitted}

-- How many of the first n entries are on
unfoldable pub count_on : ℕ → (ℕ → ℕ) → ℕ
count_on zero cfg = 0
count_on (suc n) cfg = to_int (is_pmp_on (cfg n)) + count_on n cfg

pub data IsCounted (h : Hart) : Type 0 where
  counted : h.pmp_on_count ≡ count_on 8 h.pmpcfg → IsCounted h

count_on_le : (n : ℕ) (cfg : ℕ → ℕ) → count_on n cfg ≤ n
unfolding count_on
count_on_le zero cfg = omega arith
count_on_le (suc n) cfg = ground (arith, count_on_le n cfg)

count_on-beyond :
    (n : ℕ) (cfg : ℕ → ℕ) (i v : ℕ) → n ≤ i → count_on n (update cfg i v) ≡ count_on n cfg
unfolding count_on
count_on-beyond zero cfg i v h = refl
count_on-beyond (suc n) cfg i v h =
    rw (update_ne cfg i n v (λ e. omega arith), count_on-beyond n cfg i v (omega arith))

count_on-update :
    (n : ℕ) (cfg : ℕ → ℕ) (i v : ℕ)
    → i < n
    → count_on n (update cfg i v) + to_int (is_pmp_on (cfg i))
      ≡ count_on n cfg + to_int (is_pmp_on v)
unfolding count_on
count_on-update zero cfg i v h = absurd (omega arith)
count_on-update (suc n) cfg i v h = elim (Bool-cases (n == i)) [
  | inl e ↦
      subst
        (λ k.
          to_int (is_pmp_on (update cfg k v n))
            + count_on n (update cfg k v)
            + to_int (is_pmp_on (cfg k))
          ≡ to_int (is_pmp_on (cfg n)) + count_on n cfg + to_int (is_pmp_on v))
        (==→eq n i e)
        (rw (update_self cfg n v, count_on-beyond n cfg n v (omega arith)) (omega arith))
  | inr e ↦
      rw (update_ne cfg i n v (==→ne n i e))
        (omega (arith, count_on-update n cfg i v (ground (arith, ==→ne n i e))))
]

adjust :
    (old new : Bool) (c c' : ℕ)
    → c ≤ 8
    → c' ≤ 8
    → c' + to_int old ≡ c + to_int new
    → (if old && not new then (c + 255) % 256 else if not old && new then (c + 1) % 256 else c) ≡ c'
adjust true true c c' p q e = omega arith
adjust true false c c' p q e = omega arith
adjust false true c c' p q e = omega arith
adjust false false c c' p q e = omega arith

-- What holds of the state that a write leaves, if it does not fault
abbrev Holds : Option Hart → Type 0
Holds none = Unit {0}
Holds (some h) = IsCounted h

either : (b : Bool) (x y : Option Hart) → Holds x → Holds y → Holds (if b then x else y)
either true x y p q = p
either false x y p q = q

chain :
    (o : Option Hart) (f : Hart → Option Hart)
    → Holds o
    → ((h : Hart) → IsCounted h → Holds (f h))
    → Holds (o >>= f)
chain none f p q = tt
chain (some h) f p q = q h p

set_pmpcfg-Holds : (h : Hart) (id byte : ℕ) → IsCounted h → Holds (set_pmpcfg h id byte)
unfolding set_pmpcfg
set_pmpcfg-Holds h id byte (counted c) = elim (Bool-cases (ltb id 8)) [
  | inl i ↦ rw i (
      counted (
        rw c (
          adjust (is_pmp_on (h.pmpcfg id)) (is_pmp_on byte) (count_on 8 h.pmpcfg)
            (count_on 8 (update h.pmpcfg id byte)) (count_on_le 8 h.pmpcfg)
            (count_on_le 8 (update h.pmpcfg id byte))
            (count_on-update 8 h.pmpcfg id byte (ground arith)))))
  | inr i ↦ rw i tt
]

set_pmpcfgs-Holds :
    (n i base word : ℕ) (h : Hart) → IsCounted h → Holds (set_pmpcfgs n i base word h)
unfolding set_pmpcfgs
set_pmpcfgs-Holds zero i base word h c = c
set_pmpcfgs-Holds (suc n) i base word h c =
    chain (set_pmpcfg h (i + base) (shr64 word (i * 8) % 256)) (set_pmpcfgs n (i + 1) base word)
      (set_pmpcfg-Holds h (i + base) (shr64 word (i * 8) % 256) c)
      (λ h' c'. set_pmpcfgs-Holds n (i + 1) base word h' c')

write_csr-Holds : (h : Hart) (csr_no v : ℕ) → IsCounted h → Holds (write_csr h csr_no v)
unfolding write_csr
write_csr-Holds h n v (counted c) = either (n == 0x341) _ _ (counted c) (
    either (n == 0x342) _ _ (counted c) (
      either (n == 0x305) _ _ (counted c) (
        either (n == 0xf14) _ _ (counted c) (
          either (n == 0x343) _ _ (counted c) (
            either (n == 0x344) _ _ (counted c) (
              either (n == 0x304) _ _ (counted c) (
                either (n == 0x303) _ _ (counted c) (
                  either (n == 0x302) _ _ (counted c) (
                    either (n == 0x340) _ _ (counted c) (
                      either (n == 0x100) _ _ (counted c) (
                        either (n == 0x104) _ _ (counted c) (
                          either (n == 0x105) _ _ (counted c) (
                            either (n == 0x140) _ _ (counted c) (
                              either (n == 0x143) _ _ (counted c) (
                                either (n == 0x144) _ _ (counted c) (
                                  either (n == 0x180) _ _ (counted c) (
                                    either (n == 0x3a0) _ _
                                      (set_pmpcfgs-Holds 8 0 0 v h (counted c))
                                      (either (n == 0x3a2) _ _
                                        (set_pmpcfgs-Holds 8 0 8 v h (counted c))
                                        (either (n == 0x3b0) _ _ (counted c) (
                                          either (n == 0x3b2) _ _ (counted c) (
                                            either (n == 0x3b4) _ _ (counted c) (
                                              either (n == 0x3b6) _ _ (counted c) (
                                                either (n == 0x3b8) _ _ (counted c)
                                                  (counted c))))))))))))))))))))))))

fail-IsCounted : (h : Hart) → IsCounted h → IsCounted (fail h)
fail-IsCounted h (counted c) = counted c

check_rows-IsCounted :
    (rs : List CsrRow) (h : Hart) (csr_no : ℕ) (is_write : Bool)
    → IsCounted h
    → IsCounted (check_rows rs h csr_no is_write).1
unfolding check_rows
check_rows-IsCounted [] h csr_no is_write c = c
check_rows-IsCounted (r ∷ rs) h csr_no is_write c = elim (Bool-cases (csr_no == r.id)) [
  | inl e ↦ rw e (elim (Bool-cases (row_grants r h.priv_level is_write)) [
    | inl g ↦ rw g c
    | inr g ↦ rw g (fail-IsCounted h c)
  ])
  | inr e ↦ rw e (check_rows-IsCounted rs h csr_no is_write c)
]

refused : (h : Hart) (csr_no : ℕ) → IsCounted h → IsCounted (priv_check h csr_no true).1
unfolding priv_check
refused h csr_no c = check_rows-IsCounted csr_table h csr_no true c

-- A write to any control register that does not fault keeps `pmp_on_count` equal to the number of
-- entries whose configuration byte is on.
pub set_csr-IsCounted :
    (h h' : Hart) (csr_no v : ℕ) → IsCounted h → set_csr h csr_no v ≡ some h' → IsCounted h'
unfolding set_csr
set_csr-IsCounted h h' csr_no v c e =
    subst Holds e (elim (Bool-cases (priv_check h csr_no true).0) [
      | inl g ↦ rw (g, (priv_check-Permitted h csr_no true g).1) (write_csr-Holds h csr_no v c)
      | inr g ↦ rw g (refused h csr_no c)
    ])
