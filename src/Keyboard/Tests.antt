-- ===== src/Keyboard/Tests.antt =====
-- Keystrokes, and the theorems of the keyboard at a concrete state.
use mayv.Prelude.{◌≡◌, refl, true, false, some, [], ◌∷◌}
use mayv.Keyboard.Handler.{
  initial, handle_code, is_listed, set_buffer, update_led_state, press, ps2_keyboard_handler,
}
use mayv.Keyboard.Decoding.{bytes_of, feed, completed, feed-bytes_of}
use mayv.Keyboard.Locks.{caps_lock, Flipped, keystroke-Flipped}

-- Caps lock pressed: the LEDs of caps lock and num lock are on.
caps_pressed :
    (feed (λ n. true) (0x58 ∷ []) initial)
    ≡ some (record initial {
      caps = record { locked = true; toggle_done = false };
      sent = 6 ∷ 0xed ∷ [];
    })
unfolding feed is_listed ps2_keyboard_handler handle_code press update_led_state
caps_pressed = refl

feed-bytes_of_example :
    feed (λ n. true) (bytes_of 8 0xe11477e1f014f077) initial
    ≡ completed (handle_code (λ n. true) 0xe11477e1f014f077 (set_buffer 0xe11477e1f014f077 initial))
unfolding is_listed
feed-bytes_of_example = feed-bytes_of (λ n. true) 0xe11477e1f014f077 initial refl refl

keystroke-Flipped_example : Flipped (λ n. true) caps_lock initial
keystroke-Flipped_example = keystroke-Flipped (λ n. true) caps_lock initial (λ n. refl) refl refl
