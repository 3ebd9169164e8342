-- ===== src/Device/Keyboard/Queue.antt =====
-- The circular queue against a list of at most 1023 codes, the oldest first.
use sustemu.Base.{
  Option-cases, ℕ, zero, suc, ◌+◌, ◌-◌, ◌%◌, ◌<◌, ◌≡◌, ◌≢◌, refl, sym, ◌∙◌, ap, Option, none, some,
  ◌==◌, if◌then◌else◌, ◌⊎◌, update, update_self, update_ne, arith, List, [], ◌∷◌, ◌++◌, length,
  Bool-cases, inl, inr, ltb, ◌>>=◌, ne→==, eq→==, subst, lt→ltb, le→ltb,
}
use sustemu.Device.Keyboard.{Keys, key_enqueue, key_dequeue, key_none}

pub slots : (ℕ → ℕ) → ℕ → ℕ → List ℕ
slots q f zero = []
slots q f (suc n) = q f ∷ slots q ((f + 1) % 1024) n

abbrev pub used : Keys → ℕ
used k = (k.key_r + 1024 - k.key_f) % 1024

-- The codes that wait
abbrev pub waiting : Keys → List ℕ
waiting k = slots k.key_queue k.key_f (used k)

pub data EndsInRange (k : Keys) : Type 0 where
  ends : k.key_f < 1024 → k.key_r < 1024 → EndsInRange k

length-slots : (q : ℕ → ℕ) (f n : ℕ) → length (slots q f n) ≡ n
unfolding slots
length-slots q f zero = refl
length-slots q f (suc n) = ap suc (length-slots q ((f + 1) % 1024) n)

slots-update :
    (q : ℕ → ℕ) (f n r v : ℕ)
    → f < 1024
    → n < 1024
    → r ≡ (f + n) % 1024
    → slots (update q r v) f (suc n) ≡ slots q f n ++ (v ∷ [])
unfolding slots
slots-update q f zero r v hf hn e =
    ap (λ x. x ∷ []) (subst (λ i. update q r v i ≡ v) here (update_self q r v))
  where
    here : r ≡ f
    here = omega arith
slots-update q f (suc n) r v hf hn e = rw (update_ne q r f v (λ p. omega arith)) (
    ap (λ xs. q f ∷ xs)
      (slots-update q ((f + 1) % 1024) n r v (omega arith) (omega arith) (omega arith)))

-- The list at its ends: a full queue takes no more, an empty one gives the code 0.
unfoldable pub push : List ℕ → ℕ → Option (List ℕ)
push xs v = if ltb (length xs) 1023 then some (xs ++ (v ∷ [])) else none

abbrev pub pop : List ℕ → ℕ × List ℕ
pop [] = (key_none, [])
pop (x ∷ xs) = (x, xs)

abbrev pub view_all : Option Keys → Option (List ℕ)
view_all none = none
view_all (some k) = some (waiting k)

-- With both ends of the queue in range, `key_enqueue` appends to the list, and fails its assertion exactly when 1023 codes wait.
pub key_enqueue-push :
    (k : Keys) (v : ℕ) → EndsInRange k → view_all (key_enqueue k v) ≡ push (waiting k) v
unfolding key_enqueue push
key_enqueue-push k v (ends hf hr) = elim (Bool-cases ((k.key_r + 1) % 1024 == k.key_f)) [
  | inl e ↦ rw (e, len, le→ltb (used k) 1023 (ground arith)) refl
  | inr e ↦ rw (e, len, lt→ltb (used k) 1023 (ground arith)) (ap some (more (ground arith)))
]
  where
    len : length (waiting k) ≡ used k
    len = length-slots k.key_queue k.key_f (used k)

    more :
        (k.key_r + 1) % 1024 ≢ k.key_f
        → slots
            (update k.key_queue k.key_r v)
            k.key_f
            (((k.key_r + 1) % 1024 + 1024 - k.key_f) % 1024)
          ≡ waiting k ++ (v ∷ [])
    more p =
        ap (slots (update k.key_queue k.key_r v) k.key_f) (omega arith)
        ∙ slots-update k.key_queue k.key_f (used k) k.key_r v hf (omega arith) (omega arith)

used-cases : (n : ℕ) → (n ≡ 0) ⊎ ((m : ℕ) × (n ≡ suc m))
used-cases zero = inl refl
used-cases (suc m) = inr (m, refl)

waiting_eq : (k : Keys) (n : ℕ) → used k ≡ n → waiting k ≡ slots k.key_queue k.key_f n
waiting_eq k n e = ap (slots k.key_queue k.key_f) e

-- With both ends of the queue in range, `key_dequeue` takes the oldest code off the list, or returns 0 when there is none.
pub key_dequeue-pop :
    (k : Keys) → EndsInRange k → ((key_dequeue k).0, waiting (key_dequeue k).1) ≡ pop (waiting k)
unfolding key_dequeue slots
key_dequeue-pop k (ends hf hr) = elim (used-cases (used k)) [
  | inl z ↦ rw (eq→== k.key_f k.key_r (omega arith)) (rw (waiting_eq k 0 z) refl)
  | inr (m, z) ↦ rw (ne→== k.key_f k.key_r (λ e. omega arith)) (
      ap (λ n. (k.key_queue k.key_f, slots k.key_queue ((k.key_f + 1) % 1024) n)) (left m z)
      ∙ sym (ap pop (waiting_eq k (suc m) z)))
]
  where
    left : (m : ℕ) → used k ≡ suc m → (k.key_r + 1024 - (k.key_f + 1) % 1024) % 1024 ≡ m
    left m z = omega arith

-- Key events and reads of the register, as the run meets them
pub data Event : Type 0 where
  pressed : ℕ → Event
  polled : Event

-- The codes that the polls return, by the queue of the source
pub run : Keys → List Event → Option (List ℕ)
run k [] = some []
run k (pressed v ∷ es) = key_enqueue k v >>= λ k'. run k' es
run k (polled ∷ es) = run (key_dequeue k).1 es >>= λ vs. some ((key_dequeue k).0 ∷ vs)

-- The same, by a plain list
unfoldable pub run_list : List ℕ → List Event → Option (List ℕ)
run_list xs [] = some []
run_list xs (pressed v ∷ es) = push xs v >>= λ ys. run_list ys es
run_list xs (polled ∷ es) = run_list (pop xs).1 es >>= λ vs. some ((pop xs).0 ∷ vs)

abbrev AllInRange : Option Keys → Type 0
AllInRange none = Unit {0}
AllInRange (some k) = EndsInRange k

enqueue-AllInRange : (k : Keys) (v : ℕ) → EndsInRange k → AllInRange (key_enqueue k v)
unfolding key_enqueue
enqueue-AllInRange k v (ends hf hr) = elim (Bool-cases ((k.key_r + 1) % 1024 == k.key_f)) [
  | inl p ↦ rw p tt
  | inr p ↦ rw p (ends hf (omega arith))
]

dequeue-EndsInRange : (k : Keys) → EndsInRange k → EndsInRange (key_dequeue k).1
unfolding key_dequeue
dequeue-EndsInRange k (ends hf hr) = elim (Bool-cases (k.key_f == k.key_r)) [
  | inl p ↦ rw p (ends hf hr)
  | inr p ↦ rw p (ends (omega arith) hr)
]

-- Every sequence of key events and polls gives, on a circular queue with its ends in range, what it gives on a list of at
-- most 1023 codes: the codes in the order of the events, 0 where none waits, and the failed assertion
-- where a code arrives while 1023 wait.
pub run-run_list : (es : List Event) (k : Keys) → EndsInRange k → run k es ≡ run_list (waiting k) es
unfolding run run_list
run-run_list [] k g = refl
run-run_list (pressed v ∷ es) k g = elim (Option-cases (key_enqueue k v)) [
  | inl e ↦ rw (e, sym (key_enqueue-push k v g) ∙ ap view_all e) refl
  | inr (k', e) ↦
      rw (e, sym (key_enqueue-push k v g) ∙ ap view_all e)
        (run-run_list es k' (subst AllInRange e (enqueue-AllInRange k v g)))
]
run-run_list (polled ∷ es) k g =
    rw (run-run_list es (key_dequeue k).1 (dequeue-EndsInRange k g))
      (ap (λ r. run_list r.1 es >>= λ vs. some (r.0 ∷ vs)) (key_dequeue-pop k g))
