-- ===== src/Cpu/Csr/Rights.antt =====
-- `csr_table` against the numbering of the instruction manual: bits 9 and 8 of a register's number are
-- the lowest level that reaches it, and a number whose bits 11 and 10 are both set is read-only.
use sustemu.Base.{
  ℕ, ◌≤◌, ◌≡◌, ◌≢◌, refl, ap, subst, Bool, true, false, List, [], ◌∷◌, arith, ◌==◌, ◌&&◌, not,
  if◌then◌else◌, Bool-cases, inl, inr, ==→eq,
}
use sustemu.Word.{bits}
use sustemu.Cpu.Csr.Table.{Hart, CsrRow, csr_table, row_grants, check_rows, priv_check, fail}

-- A row follows the numbering.
pub row_agrees : CsrRow → Bool
row_agrees r = r.level == bits r.id 9 8 && not (r.writable && bits r.id 11 10 == 3)

pub all_agree : List CsrRow → Bool
all_agree [] = true
all_agree (r ∷ rs) = row_agrees r && all_agree rs

csr_table-all_agree : all_agree csr_table ≡ true
unfolding all_agree row_agrees csr_table
csr_table-all_agree = refl

pub record Permitted (h : Hart) (csr_no : ℕ) (is_write : Bool) : Type 0 where
  pub level : bits csr_no 9 8 ≤ h.priv_level
  pub read_only : is_write ≡ true → bits csr_no 11 10 ≢ 3

row_grants-Permitted :
    (r : CsrRow) (h : Hart) (csr_no : ℕ) (is_write : Bool)
    → row_agrees r ≡ true
    → csr_no ≡ r.id
    → row_grants r h.priv_level is_write ≡ true
    → Permitted h csr_no is_write
unfolding row_agrees row_grants
row_grants-Permitted r h csr_no true a e g = record {
  level = ground arith;
  read_only = λ _. ground arith;
}
row_grants-Permitted r h csr_no false a e g = record { level = ground arith; read_only = λ c. cc }

both : (x y : Bool) → (x && y) ≡ true → (x ≡ true) × (y ≡ true)
both true y p = (refl, p)
both false y p = absurd cc

granted :
    (b : Bool) (h : Hart)
    → (if◌then◌else◌ {A = Bool × Hart} b (true, h) (false, fail h)).0 ≡ true
    → b ≡ true
granted true h p = refl
granted false h p = absurd cc

check_rows-Permitted :
    (rs : List CsrRow) (h : Hart) (csr_no : ℕ) (is_write : Bool)
    → all_agree rs ≡ true
    → (check_rows rs h csr_no is_write).0 ≡ true
    → Permitted h csr_no is_write
unfolding check_rows all_agree
check_rows-Permitted [] h csr_no is_write a g = absurd cc
check_rows-Permitted (r ∷ rs) h csr_no is_write a g =
    let (here, there) = both (row_agrees r) (all_agree rs) a in
    elim (Bool-cases (csr_no == r.id)) [
      | inl e ↦
          row_grants-Permitted r h csr_no is_write here (==→eq csr_no r.id e)
            (granted (row_grants r h.priv_level is_write) h (subst chosen e g))
      | inr e ↦ check_rows-Permitted rs h csr_no is_write there (subst chosen e g)
    ]
  where
    verdict : Bool × Hart
    verdict = if row_grants r h.priv_level is_write then (true, h) else (false, fail h)

    chosen : Bool → Type 0
    chosen b =
        (if◌then◌else◌ {A = Bool × Hart} b verdict (check_rows rs h csr_no is_write)).0 ≡ true

check_rows-kept :
    (rs : List CsrRow) (h : Hart) (csr_no : ℕ) (is_write : Bool)
    → (check_rows rs h csr_no is_write).0 ≡ true
    → (check_rows rs h csr_no is_write).1 ≡ h
unfolding check_rows
check_rows-kept [] h csr_no is_write g = refl
check_rows-kept (r ∷ rs) h csr_no is_write g = elim (Bool-cases (csr_no == r.id)) [
  | inl e ↦ rw e (
      ap (λ b. (if◌then◌else◌ {A = Bool × Hart} b (true, h) (false, fail h)).1)
        (granted (row_grants r h.priv_level is_write) h (subst chosen e g)))
  | inr e ↦ rw e (check_rows-kept rs h csr_no is_write (subst chosen e g))
]
  where
    verdict : Bool × Hart
    verdict = if row_grants r h.priv_level is_write then (true, h) else (false, fail h)

    chosen : Bool → Type 0
    chosen b =
        (if◌then◌else◌ {A = Bool × Hart} b verdict (check_rows rs h csr_no is_write)).0 ≡ true

-- Whatever `priv_check` grants, the numbering of the manual permits: the level is high enough for the
-- register's number, a write is to a register that is not read-only, and nothing is changed.
pub priv_check-Permitted :
    (h : Hart) (csr_no : ℕ) (is_write : Bool)
    → (priv_check h csr_no is_write).0 ≡ true
    → Permitted h csr_no is_write × ((priv_check h csr_no is_write).1 ≡ h)
unfolding priv_check
priv_check-Permitted h csr_no is_write g = (
  check_rows-Permitted csr_table h csr_no is_write csr_table-all_agree g,
  check_rows-kept csr_table h csr_no is_write g,
)
