-- ===== src/Device/Keyboard/Tests.antt =====
-- Runs of the key queue from its start.
use sustemu.Base.{◌≡◌, refl, some, List, [], ◌∷◌, arith}
use sustemu.Device.Keyboard.{no_keys, key_enqueue}
use sustemu.Device.Keyboard.Queue.{
  EndsInRange, ends, waiting, view_all, push, Event, pressed, polled, run, run_list,
  key_enqueue-push, run-run_list,
}

no_keys-EndsInRange : EndsInRange no_keys
no_keys-EndsInRange = ends (omega arith) (omega arith)

key_enqueue-push_example : view_all (key_enqueue no_keys 5) ≡ push (waiting no_keys) 5
key_enqueue-push_example = key_enqueue-push no_keys 5 no_keys-EndsInRange

abbrev session : List Event
session = pressed 5 ∷ polled ∷ pressed 6 ∷ pressed 7 ∷ polled ∷ polled ∷ polled ∷ []

session_result : run_list [] session ≡ some (5 ∷ 6 ∷ 7 ∷ 0 ∷ [])
unfolding run_list push
session_result = refl

run-run_list_example : run no_keys session ≡ run_list (waiting no_keys) session
run-run_list_example = run-run_list session no_keys no_keys-EndsInRange
