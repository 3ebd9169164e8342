-- ===== src/Cpu/Ftrace/Nesting.antt =====
-- The depth of the call trace over nested calls.
use sustemu.Base.{
  ℕ, ◌≡◌, refl, ◌∙◌, ap, Bool, true, false, if◌then◌else◌, Bool-cases, inl, inr, arith,
}
use sustemu.Base.Int.{ℤ, pos, negsuc}
use sustemu.Cpu.Ftrace.{Ftrace, add_ftrace, succ_ℤ, pred_ℤ}

-- Calls that return: to an address, with the calls made inside, back to an address, and what follows
pub data Calls : Type 0 where
  done : Calls
  call : ℕ → Calls → ℕ → Calls → Calls

pub run_calls : Calls → Ftrace → Ftrace
run_calls done t = t
run_calls (call target inner back rest) t =
    run_calls rest (add_ftrace (run_calls inner (add_ftrace t target true)) back false)

pred_ℤ-succ_ℤ : (z : ℤ) → pred_ℤ (succ_ℤ z) ≡ z
pred_ℤ-succ_ℤ (pos n) = ground arith
pred_ℤ-succ_ℤ (negsuc n) = ground arith

add_ftrace-enabled : (t : Ftrace) (a : ℕ) (b : Bool) → (add_ftrace t a b).enabled ≡ t.enabled
unfolding add_ftrace
add_ftrace-enabled t a b = elim (Bool-cases t.enabled) [ inl e ↦ rw e refl | inr e ↦ rw e refl ]

run_calls-enabled : (c : Calls) (t : Ftrace) → (run_calls c t).enabled ≡ t.enabled
unfolding run_calls
run_calls-enabled done t = refl
run_calls-enabled (call a inner b rest) t =
    run_calls-enabled rest _
    ∙ add_ftrace-enabled _ b false
    ∙ run_calls-enabled inner _
    ∙ add_ftrace-enabled t a true

add_ftrace-depth :
    (t : Ftrace) (a : ℕ) (b : Bool)
    → (add_ftrace t a b).depth
      ≡ (if t.enabled then (if b then succ_ℤ t.depth else pred_ℤ t.depth) else t.depth)
unfolding add_ftrace
add_ftrace-depth t a b = elim (Bool-cases t.enabled) [ inl e ↦ rw e refl | inr e ↦ rw e refl ]

around :
    (t inside : Ftrace) (b : ℕ)
    → inside.enabled ≡ t.enabled
    → inside.depth ≡ (if t.enabled then succ_ℤ t.depth else t.depth)
    → (add_ftrace inside b false).depth ≡ t.depth
around t inside b on deep = add_ftrace-depth inside b false ∙ elim (Bool-cases t.enabled) [
  | inl e ↦ rw (on ∙ e) (ap pred_ℤ (deep ∙ rw e refl) ∙ pred_ℤ-succ_ℤ t.depth)
  | inr e ↦ rw (on ∙ e) (deep ∙ rw e refl)
]

-- Whatever calls are traced, when each has returned the depth is what it was, with the trace on or
-- off.
pub run_calls-depth : (c : Calls) (t : Ftrace) → (run_calls c t).depth ≡ t.depth
unfolding run_calls
run_calls-depth done t = refl
run_calls-depth (call a inner b rest) t =
    run_calls-depth rest (add_ftrace (run_calls inner (add_ftrace t a true)) b false)
    ∙ around t (run_calls inner (add_ftrace t a true)) b
        (run_calls-enabled inner (add_ftrace t a true) ∙ add_ftrace-enabled t a true)
        (run_calls-depth inner (add_ftrace t a true) ∙ add_ftrace-depth t a true)
