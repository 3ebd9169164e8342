-- ===== src/Cpu/Bpred/Nesting.antt =====
-- The return-address stack of src/cpu/bpred.c over nested calls.
use sustemu.Base.{
  ℕ, zero, suc, ◌+◌, ◌≤◌, ◌≡◌, refl, ◌∙◌, ap, true, false, not, ◌==◌, if-cases, Bool-cases, inl,
  inr, arith, List, [], ◌∷◌,
}
use sustemu.Word.{add64}
use sustemu.Cpu.Ir.Inst.{IrInst}
use sustemu.Cpu.Bpred.Model.{
  BranchPredictor, bpred_predict, bpred_update, train, train_btb, is_control, is_ret, is_call,
}
use sustemu.Cpu.Bpred.Bounds.{InBounds, bpred_predict-InBounds, bpred_update-InBounds}
use sustemu.Cpu.Bpred.Returns.{
  returns, older, keep_newest, step_returns, is_ret-is_call, bpred_predict-returns,
  bpred_predict-newest,
}

-- Fetched and committed instructions in which each call has its return: the end, an instruction that
-- is neither, an outcome, or a call with what it runs, its return, and what follows
pub data Nest : Type 0 where
  over : Nest
  passed : ℕ → ℕ → Nest → Nest
  outcome : IrInst → Nest → Nest
  around : ℕ → ℕ → Nest → ℕ → ℕ → Nest → Nest

-- The predictor afterwards
unfoldable pub run_nest : Nest → BranchPredictor → BranchPredictor
run_nest over bp = bp
run_nest (passed pc raw n) bp = run_nest n (bpred_predict bp pc raw).1
run_nest (outcome ir n) bp = run_nest n (bpred_update bp ir)
run_nest (around pc raw inner back ret n) bp =
    run_nest n (bpred_predict (run_nest inner (bpred_predict bp pc raw).1) back ret).1

-- The words are what the constructors say, and no call is inside more than d - 1 others.
unfoldable pub IsNest : ℕ → Nest → Type 0
IsNest d over = Unit
IsNest d (passed pc raw n) = (is_ret raw ≡ false) × (is_call raw ≡ false) × IsNest d n
IsNest d (outcome ir n) = IsNest d n
IsNest zero (around pc raw inner back ret n) = ⊥
IsNest (suc d) (around pc raw inner back ret n) =
    (is_call raw ≡ true) × (is_ret ret ≡ true) × IsNest d inner × IsNest (suc d) n

keep_newest-keep_newest :
    (m n : ℕ) (xs : List ℕ) → m ≤ n → keep_newest m (keep_newest n xs) ≡ keep_newest m xs
unfolding keep_newest
keep_newest-keep_newest zero n xs h = refl
keep_newest-keep_newest (suc m) zero xs h = absurd (omega arith)
keep_newest-keep_newest (suc m) (suc n) [] h = refl
keep_newest-keep_newest (suc m) (suc n) (x ∷ xs) h =
    ap (λ ys. x ∷ ys) (keep_newest-keep_newest m n xs (omega arith))

keep_newest-older :
    (m : ℕ) (xs : List ℕ) → keep_newest m (older xs) ≡ older (keep_newest (suc m) xs)
unfolding keep_newest
keep_newest-older zero [] = refl
keep_newest-older (suc m) [] = refl
keep_newest-older m (x ∷ xs) = refl

bpred_update-returns :
    (bp : BranchPredictor) (ir : IrInst) → returns (bpred_update bp ir) ≡ returns bp
unfolding bpred_update train train_btb
bpred_update-returns bp ir =
    if-cases (λ (x : BranchPredictor). returns x ≡ returns bp) (is_control ir.type)
      (λ e. elim (Bool-cases (not (ir.dnpc == ir.snpc))) [ inl f ↦ rw f refl | inr f ↦ rw f refl ])
      (λ e. refl)

call-returns :
    (bp : BranchPredictor) (pc raw : ℕ)
    → InBounds bp
    → is_call raw ≡ true
    → returns (bpred_predict bp pc raw).1 ≡ keep_newest 16 (add64 pc 4 ∷ returns bp)
unfolding step_returns
call-returns bp pc raw h c = elim (Bool-cases (is_ret raw)) [
  | inl r ↦ absurd (cc (c, is_ret-is_call raw r))
  | inr r ↦ bpred_predict-returns bp pc raw h ∙ rw (r, c) refl
]

-- The newest addresses are untouched as long as the stack has room for those in between.
run_nest-returns :
    (d m : ℕ) (n : Nest) (bp : BranchPredictor)
    → m + d ≤ 16
    → InBounds bp
    → IsNest d n
    → InBounds (run_nest n bp)
      × (keep_newest m (returns (run_nest n bp)) ≡ keep_newest m (returns bp))
unfolding run_nest IsNest step_returns keep_newest
run_nest-returns d m over bp l h k = (h, refl)
run_nest-returns d m (passed pc raw n) bp l h (r, c, k) =
    let (h', e) =
      run_nest-returns d m n (bpred_predict bp pc raw).1 l (bpred_predict-InBounds bp pc raw h) k in
    (h', e ∙ ap (keep_newest m) (bpred_predict-returns bp pc raw h ∙ rw (r, c) refl))
run_nest-returns d m (outcome ir n) bp l h k =
    let (h', e) = run_nest-returns d m n (bpred_update bp ir) l (bpred_update-InBounds bp ir h) k in
    (h', e ∙ ap (keep_newest m) (bpred_update-returns bp ir))
run_nest-returns zero m (around pc raw inner back ret n) bp l h k = elim k [ ]
run_nest-returns (suc d) m (around pc raw inner back ret n) bp l h (c, r, k, k') =
    let called = (bpred_predict bp pc raw).1 in
    let inside = run_nest inner called in
    let (h', e) =
      run_nest-returns d (suc m) inner called (omega arith) (bpred_predict-InBounds bp pc raw h)
        k in
    let (h'', e') =
      run_nest-returns (suc d) m n (bpred_predict inside back ret).1 l
        (bpred_predict-InBounds inside back ret h') k' in
    (
      h'',
      e'
          ∙ ap (keep_newest m) (bpred_predict-returns inside back ret h' ∙ rw r refl)
          ∙ keep_newest-older m (returns inside)
          ∙ ap older (
              e
              ∙ ap (keep_newest (suc m)) (call-returns bp pc raw h c)
              ∙ keep_newest-keep_newest (suc m) 16 (add64 pc 4 ∷ returns bp) (omega arith)),
    )

first_of : (xs : List ℕ) (t : ℕ) → keep_newest 1 xs ≡ t ∷ [] → (ts : List ℕ) × (xs ≡ t ∷ ts)
unfolding keep_newest
first_of [] t e = absurd (cc e)
first_of (x ∷ xs) t e = (xs, ap (λ y. y ∷ xs) (head_eq e))
  where
    head_eq : x ∷ [] ≡ t ∷ [] → x ≡ t
    head_eq p = cc p

-- With the indices in their ranges, after a call and whatever it runs, with the outcomes that are
-- committed meanwhile, in which each call has its return and none is inside more than 14 others, the
-- return of that call is predicted taken, to the address behind the call.
pub bpred_predict-run_nest :
    (bp : BranchPredictor) (pc raw : ℕ) (inner : Nest) (back ret : ℕ)
    → InBounds bp
    → is_call raw ≡ true
    → is_ret ret ≡ true
    → IsNest 15 inner
    → (bpred_predict (run_nest inner (bpred_predict bp pc raw).1) back ret).0
      ≡ record { taken = true; target = add64 pc 4; btb_hit = true }
unfolding keep_newest
bpred_predict-run_nest bp pc raw inner back ret h c r k =
    let called = (bpred_predict bp pc raw).1 in
    let (_, e) =
      run_nest-returns 15 1 inner called (omega arith) (bpred_predict-InBounds bp pc raw h) k in
    let (ts, f) =
      first_of (returns (run_nest inner called)) (add64 pc 4)
        (e ∙ ap (keep_newest 1) (call-returns bp pc raw h c)) in
    bpred_predict-newest (run_nest inner called) back ret (add64 pc 4) ts r f
