-- ===== src/Keyboard/Handler.antt =====
-- src/drivers/ps2/keyboard.cpp: the static variables, `updateLedState` and `ps2KeyboardHandler`.
-- `acknowledged n` is the answer of the controller to the byte that is sent after `n` others.
use mayv.Prelude.{
  ℕ, ◌*◌, ◌%◌, ◌^◌, Bool, true, false, not, ◌||◌, ◌==◌, if◌then◌else◌, Option, none, some, List, [],
  ◌∷◌, length,
}
use Prim.Native.Nat.{bit_or}
use mayv.Keyboard.Codes.{valid_scan_codes}

-- A lock key: is the lock on, and will its next release switch it off?
pub record LockKey : Type 0 where
  pub locked : Bool
  pub toggle_done : Bool

-- The static variables, and the bytes sent to the controller, the last one first.
pub record Keyboard : Type 0 where
  pub alt_left : Bool
  pub alt_right : Bool
  pub ctrl_left : Bool
  pub ctrl_right : Bool
  pub shift_left : Bool
  pub shift_right : Bool
  pub caps : LockKey
  pub num : LockKey
  pub scroll : LockKey
  pub scan_code_buffer : ℕ
  pub sent : List ℕ

abbrev pub initial : Keyboard
initial = record {
  alt_left = false;
  alt_right = false;
  ctrl_left = false;
  ctrl_right = false;
  shift_left = false;
  shift_right = false;
  caps = record { locked = false; toggle_done = false };
  num = record { locked = true; toggle_done = true };
  scroll = record { locked = false; toggle_done = false };
  scan_code_buffer = 0;
  sent = [];
}

-- `ledState`
abbrev pub led_state : Keyboard → ℕ
led_state k =
    bit_or (bit_or (if k.caps.locked then 4 else 0) (if k.num.locked then 2 else 0))
      (if k.scroll.locked then 1 else 0)

-- A byte for the data port; `none` is the panic when it is not acknowledged.
abbrev pub send : (ℕ → Bool) → ℕ → Keyboard → Option Keyboard
send acknowledged byte k =
    if acknowledged (length k.sent) then some (record k { sent = byte ∷ k.sent }) else none

-- `updateLedState`
unfoldable pub update_led_state : (ℕ → Bool) → Keyboard → Option Keyboard
update_led_state acknowledged k = elim (send acknowledged 0xed k) [
  | none ↦ none
  | some next ↦ send acknowledged (led_state k) next
]

-- A lock key is pressed: the lock, and is the LED state updated?
unfoldable pub press : LockKey → LockKey × Bool
press key = if not key.locked then (record key { locked = true }, true) else (key, false)

-- A lock key is released.
unfoldable pub release : LockKey → LockKey × Bool
release key =
    if key.locked
    then if key.toggle_done
      then (record { locked = false; toggle_done = false }, true)
      else (record key { toggle_done = true }, false)
    else (key, false)

abbrev pub update_if : (ℕ → Bool) → Bool → Keyboard → Option Keyboard
update_if acknowledged changed k = if changed then update_led_state acknowledged k else some k

abbrev pub set_caps : (ℕ → Bool) → LockKey × Bool → Keyboard → Option Keyboard
set_caps acknowledged (key, changed) k = update_if acknowledged changed (record k { caps = key })

abbrev pub set_num : (ℕ → Bool) → LockKey × Bool → Keyboard → Option Keyboard
set_num acknowledged (key, changed) k = update_if acknowledged changed (record k { num = key })

abbrev pub set_scroll : (ℕ → Bool) → LockKey × Bool → Keyboard → Option Keyboard
set_scroll acknowledged (key, changed) k =
    update_if acknowledged changed (record k { scroll = key })

-- A valid scan code.
unfoldable pub handle_code : (ℕ → Bool) → ℕ → Keyboard → Option Keyboard
handle_code acknowledged code k =
    if code == 0x14
    then some (record k { ctrl_left = true })
    else if code == 0xf014
    then some (record k { ctrl_left = false })
    else if code == 0xe014
    then some (record k { ctrl_right = true })
    else if code == 0xe0f014
    then some (record k { ctrl_right = false })
    else if code == 0x12
    then some (record k { shift_left = true })
    else if code == 0xf012
    then some (record k { shift_left = false })
    else if code == 0x59
    then some (record k { shift_right = true })
    else if code == 0xf059
    then some (record k { shift_right = false })
    else if code == 0x11
    then some (record k { alt_left = true })
    else if code == 0xf011
    then some (record k { alt_left = false })
    else if code == 0xe011
    then some (record k { alt_right = true })
    else if code == 0xe0f011
    then some (record k { alt_right = false })
    else if code == 0x58
    then set_caps acknowledged (press k.caps) k
    else if code == 0xf058
    then set_caps acknowledged (release k.caps) k
    else if code == 0x77
    then set_num acknowledged (press k.num) k
    else if code == 0xf077
    then set_num acknowledged (release k.num) k
    else if code == 0x7e
    then set_scroll acknowledged (press k.scroll) k
    else if code == 0xf07e
    then set_scroll acknowledged (release k.scroll) k
    else some k

-- Is the code in the list?
unfoldable pub is_listed : ℕ → List ℕ → Bool
is_listed code [] = false
is_listed code (valid ∷ rest) =
    let later = is_listed code rest in if code == valid then true else later

-- More bytes are to come.
unfoldable pub is_anticipated : ℕ → Bool
is_anticipated buffer =
    (buffer == 0xe1
      || buffer == 0xe114
      || buffer == 0xe11477
      || buffer == 0xe11477e1
      || buffer == 0xe11477e1f0
      || buffer == 0xe11477e1f014
      || buffer == 0xe11477e1f014f0)
    || buffer == 0xe0f0
    || buffer == 0xe0
    || buffer == 0xf0

-- The scan code buffer with a byte more, of 64 bits.
abbrev pub push_byte : ℕ → ℕ → ℕ
push_byte buffer byte = bit_or (buffer * 256 % 2 ^ 64) byte

abbrev pub set_buffer : ℕ → Keyboard → Keyboard
set_buffer buffer k = record k { scan_code_buffer = buffer }

-- `ps2KeyboardHandler`, for the byte that it reads from the data port
unfoldable pub ps2_keyboard_handler : (ℕ → Bool) → ℕ → Keyboard → Option Keyboard
ps2_keyboard_handler acknowledged byte k =
    let buffer = push_byte k.scan_code_buffer byte in
    if is_listed buffer valid_scan_codes
    then elim (handle_code acknowledged buffer (set_buffer buffer k)) [
      | none ↦ none
      | some next ↦ some (set_buffer 0 next)
    ]
    else if is_anticipated buffer
    then some (set_buffer buffer k)
    else some (set_buffer 0 k)
