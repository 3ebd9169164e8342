-- ===== src/Device/Keyboard.antt =====
-- src/device/keyboard.c: the circular queue of key codes between the host's events and the guest's
-- register. The table `keymap`, which SDL's scan codes index, is an argument.
use sustemu.Base.{
  ℕ, ◌+◌, ◌%◌, Bool, true, false, Option, none, some, ◌==◌, if◌then◌else◌, not, ◌&&◌, update,
  bit_or, ◌>>=◌,
}
use sustemu.Cpu.State.{NemuState, running, stop, end, abort, quit}
pub mod Queue
pub mod Tests

abbrev pub key_queue_len : ℕ
key_queue_len = 1024

abbrev pub key_none : ℕ
key_none = 0

pub record Keys : Type 0 where
  pub key_queue : ℕ → ℕ
  pub key_f : ℕ
  pub key_r : ℕ

abbrev pub no_keys : Keys
no_keys = record { key_queue = λ i. 0; key_f = 0; key_r = 0 }

-- The assertion that the ends do not meet comes after the write: it ends the simulator.
unfoldable pub key_enqueue : Keys → ℕ → Option Keys
key_enqueue k am_scancode =
    let r = (k.key_r + 1) % key_queue_len in
    if r == k.key_f
    then none
    else some (record k { key_queue = update k.key_queue k.key_r am_scancode; key_r = r })

unfoldable pub key_dequeue : Keys → ℕ × Keys
key_dequeue k =
    if k.key_f == k.key_r
    then (key_none, k)
    else (k.key_queue k.key_f, record k { key_f = (k.key_f + 1) % key_queue_len })

abbrev pub is_running : NemuState → Bool
is_running running = true
is_running stop = false
is_running end = false
is_running abort = false
is_running quit = false

-- `send_key`: a key that the table knows is queued while the guest runs, with `KEYDOWN_MASK` when it
-- goes down.
unfoldable pub send_key : (ℕ → ℕ) → NemuState → Keys → ℕ → Bool → Option Keys
unfolding key_enqueue
send_key keymap state k scancode is_keydown =
    if is_running state && not (keymap scancode == key_none)
    then key_enqueue k (bit_or (keymap scancode) (if is_keydown then 0x8000 else 0))
    else some k

-- `i8042_data_io_handler`: a read of the register takes the next key; its two assertions are `none`.
unfoldable pub i8042_data_io_handler : Keys → ℕ → Bool → Option (ℕ × Keys)
unfolding key_dequeue
i8042_data_io_handler k offset is_write =
    if is_write then none else if offset == 0 then some (key_dequeue k) else none
