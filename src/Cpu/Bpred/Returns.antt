-- ===== src/Cpu/Bpred/Returns.antt =====
-- The circular return-address stack against a list of at most 16 addresses, the newest first.
use mathlib.Core.Path.{ap₂}
use sustemu.Base.{
  lt→ltb, le→ltb, ℕ, zero, suc, ◌+◌, ◌-◌, ◌%◌, ◌≤◌, ◌<◌, ◌≡◌, refl, sym, ◌∙◌, ap, true, false, ltb,
  update, update_self, update_ne, arith, inl, inr, Bool-cases, ◌⊎◌, if◌then◌else◌, List, [], ◌∷◌,
}
use sustemu.Word.{add64}
use sustemu.Cpu.Bpred.Model.{BranchPredictor, bpred_predict, is_ret, is_call, ras_push, ras_pop}
use sustemu.Cpu.Bpred.Bounds.{InBounds}

-- n entries, from the one at the top down
unfoldable pub stack : (ℕ → ℕ) → ℕ → ℕ → List ℕ
stack ras top zero = []
stack ras top (suc n) = ras top ∷ stack ras ((top + 15) % 16) n

abbrev pub returns : BranchPredictor → List ℕ
returns bp = stack bp.ras bp.ras_top bp.ras_count

unfoldable pub keep_newest : ℕ → List ℕ → List ℕ
keep_newest zero xs = []
keep_newest (suc n) [] = []
keep_newest (suc n) (x ∷ xs) = x ∷ keep_newest n xs

abbrev pub older : List ℕ → List ℕ
older [] = []
older (x ∷ xs) = xs

-- What an instruction does to the list: a return drops the newest address, a call adds its own
-- return address and forgets the oldest beyond 16.
unfoldable pub step_returns : List ℕ → ℕ → ℕ → List ℕ
step_returns xs pc raw =
    if is_ret raw then older xs else if is_call raw then keep_newest 16 (add64 pc 4 ∷ xs) else xs

keep_newest-stack : (f : ℕ → ℕ) (t n m : ℕ) → n ≤ m → keep_newest n (stack f t m) ≡ stack f t n
unfolding keep_newest stack
keep_newest-stack f t zero m h = refl
keep_newest-stack f t (suc n) zero h = absurd (omega arith)
keep_newest-stack f t (suc n) (suc m) h =
    ap (λ x. f t ∷ x) (keep_newest-stack f ((t + 15) % 16) n m (omega arith))

keep_newest_all : (f : ℕ → ℕ) (t n m : ℕ) → m ≤ n → keep_newest n (stack f t m) ≡ stack f t m
unfolding keep_newest stack
keep_newest_all f t zero zero h = refl
keep_newest_all f t (suc n) zero h = refl
keep_newest_all f t zero (suc m) h = absurd (omega arith)
keep_newest_all f t (suc n) (suc m) h =
    ap (λ x. f t ∷ x) (keep_newest_all f ((t + 15) % 16) n m (omega arith))

stack-update :
    (f : ℕ → ℕ) (k v t n : ℕ)
    → k < 16
    → t < 16
    → n ≤ (t + 16 - k) % 16
    → stack (update f k v) t n ≡ stack f t n
unfolding stack
stack-update f k v t zero hk ht hn = refl
stack-update f k v t (suc n) hk ht hn = rw (
  update_ne f k t v (λ e. omega arith),
  stack-update f k v ((t + 15) % 16) n hk (omega arith) (omega arith),
)

pub is_ret-is_call : (raw : ℕ) → is_ret raw ≡ true → is_call raw ≡ false
unfolding is_ret is_call
is_ret-is_call raw e = ground arith

stack-push :
    (f : ℕ → ℕ) (v t n : ℕ)
    → t < 16
    → n ≤ 15
    → stack (update f ((t + 1) % 16) v) ((t + 1) % 16) (suc n) ≡ v ∷ stack f t n
unfolding stack
stack-push f v t n ht hn =
    rw (update_self f ((t + 1) % 16) v, back)
      (ap (λ x. v ∷ x) (stack-update f ((t + 1) % 16) v t n (omega arith) ht (omega arith)))
  where
    back : ((t + 1) % 16 + 15) % 16 ≡ t
    back = omega arith

ras_push-returns :
    (bp : BranchPredictor) (pc : ℕ)
    → InBounds bp
    → returns (ras_push bp pc) ≡ keep_newest 16 (add64 pc 4 ∷ returns bp)
unfolding keep_newest
ras_push-returns bp pc h = elim (Bool-cases (ltb bp.ras_count 16)) [
  | inl e ↦
      ap (stack _ _) (rw e (omega arith))
      ∙ stack-push bp.ras (add64 pc 4) bp.ras_top bp.ras_count h.ras_top (ground arith)
      ∙ ap (λ x. add64 pc 4 ∷ x) (sym (all (ground arith)))
  | inr e ↦
      ap (stack _ _) (rw e (ground (arith, h.ras_count)))
      ∙ stack-push bp.ras (add64 pc 4) bp.ras_top 15 h.ras_top (omega arith)
      ∙ ap (λ x. add64 pc 4 ∷ x)
          (sym (keep_newest-stack bp.ras bp.ras_top 15 bp.ras_count (ground arith)))
]
  where
    all : bp.ras_count ≤ 15 → keep_newest 15 (returns bp) ≡ returns bp
    all le = keep_newest_all bp.ras bp.ras_top 15 bp.ras_count le

pushed :
    (bp : BranchPredictor) (pc raw : ℕ)
    → InBounds bp
    → is_ret raw ≡ false
    → returns (bpred_predict bp pc raw).1
      ≡ (if is_call raw then keep_newest 16 (add64 pc 4 ∷ returns bp) else returns bp)
unfolding bpred_predict
pushed bp pc raw h r = elim (Bool-cases (is_call raw)) [
  | inl c ↦ rw (r, c) (ras_push-returns bp pc h)
  | inr c ↦ rw (r, c) refl
]

count-cases : (n : ℕ) → (n ≡ 0) ⊎ ((m : ℕ) × (n ≡ suc m))
count-cases zero = inl refl
count-cases (suc m) = inr (m, refl)

predict_pop :
    (bp : BranchPredictor) (pc raw : ℕ)
    → is_ret raw ≡ true
    → 0 < bp.ras_count
    → bpred_predict bp pc raw
      ≡ (record { taken = true; target = bp.ras bp.ras_top; btb_hit = true }, ras_pop bp)
unfolding bpred_predict
predict_pop bp pc raw r pos = rw (r, lt→ltb 0 bp.ras_count pos) refl

predict_empty :
    (bp : BranchPredictor) (pc raw : ℕ)
    → is_ret raw ≡ true
    → bp.ras_count ≡ 0
    → (bpred_predict bp pc raw).1 ≡ bp
unfolding bpred_predict
predict_empty bp pc raw r z = rw (r, le→ltb 0 bp.ras_count (omega arith), is_ret-is_call raw r) refl

returns-suc :
    (bp : BranchPredictor) (m : ℕ)
    → bp.ras_count ≡ suc m
    → returns bp ≡ bp.ras bp.ras_top ∷ stack bp.ras ((bp.ras_top + 15) % 16) m
unfolding stack
returns-suc bp m z = ap (stack bp.ras bp.ras_top) z

returns_zero : (bp : BranchPredictor) → bp.ras_count ≡ 0 → returns bp ≡ []
unfolding stack
returns_zero bp z = ap (stack bp.ras bp.ras_top) z

pop-returns :
    (bp : BranchPredictor) (pc raw : ℕ)
    → is_ret raw ≡ true
    → returns (bpred_predict bp pc raw).1 ≡ older (returns bp)
pop-returns bp pc raw r = elim (count-cases bp.ras_count) [
  | inl z ↦
      ap returns (predict_empty bp pc raw r z)
      ∙ returns_zero bp z
      ∙ sym (ap older (returns_zero bp z))
  | inr (m, z) ↦
      ap (λ x. returns x.1) (predict_pop bp pc raw r (omega arith))
      ∙ ap₂ (stack bp.ras) (omega arith) (omega arith)
      ∙ sym (ap older (returns-suc bp m z))
]

-- With the indices in their ranges, a prediction moves the return stack as `step_returns` moves the list
-- of return addresses: a call adds its own and keeps the newest 16, a return drops the newest.
pub bpred_predict-returns :
    (bp : BranchPredictor) (pc raw : ℕ)
    → InBounds bp
    → returns (bpred_predict bp pc raw).1 ≡ step_returns (returns bp) pc raw
unfolding step_returns
bpred_predict-returns bp pc raw h = elim (Bool-cases (is_ret raw)) [
  | inl r ↦ rw r (pop-returns bp pc raw r)
  | inr r ↦ rw r (pushed bp pc raw h r)
]

-- While a return address waits on the list, a return is predicted taken, to the newest one.
pub bpred_predict-newest :
    (bp : BranchPredictor) (pc raw t : ℕ) (ts : List ℕ)
    → is_ret raw ≡ true
    → returns bp ≡ t ∷ ts
    → (bpred_predict bp pc raw).0 ≡ record { taken = true; target = t; btb_hit = true }
bpred_predict-newest bp pc raw t ts r e = elim (count-cases bp.ras_count) [
  | inl z ↦ absurd (cc (e, returns_zero bp z))
  | inr (m, z) ↦
      ap (λ x. x.0) (predict_pop bp pc raw r (omega arith))
      ∙ ap (λ x. record { taken = true; target = x; btb_hit = true })
          (head_eq (sym (returns-suc bp m z) ∙ e))
]
  where
    head_eq : {x y : ℕ} {xs ys : List ℕ} → x ∷ xs ≡ y ∷ ys → x ≡ y
    head_eq p = cc p
