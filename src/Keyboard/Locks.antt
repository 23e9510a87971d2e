-- ===== src/Keyboard/Locks.antt =====
-- A keystroke on a lock key flips its lock.
use mayv.Prelude.{
  ℕ, ◌≡◌, refl, ap, ◌∙◌, Bool, true, false, not, if◌then◌else◌, arith, ◌≢◌, Option, none, some,
  List, ◌∷◌, length,
}
use mayv.Keyboard.Codes.{valid_scan_codes}
use mayv.Keyboard.Handler.{
  Keyboard, LockKey, press, release, send, update_led_state, update_if, led_state, handle_code,
  is_listed, set_buffer,
}
use mayv.Keyboard.Decoding.{bytes_of, feed, completed, feed-bytes_of}

pub data Lock : Type 0 where
  caps_lock : Lock
  num_lock : Lock
  scroll_lock : Lock

abbrev pub pressed_code : Lock → ℕ
pressed_code caps_lock = 0x58
pressed_code num_lock = 0x77
pressed_code scroll_lock = 0x7e

abbrev pub released_code : Lock → ℕ
released_code caps_lock = 0xf058
released_code num_lock = 0xf077
released_code scroll_lock = 0xf07e

abbrev pub key_of : Lock → Keyboard → LockKey
key_of caps_lock k = k.caps
key_of num_lock k = k.num
key_of scroll_lock k = k.scroll

abbrev put_key : Lock → LockKey → Keyboard → Keyboard
put_key caps_lock key k = record k { caps = key }
put_key num_lock key k = record k { num = key }
put_key scroll_lock key k = record k { scroll = key }

-- Between keystrokes a lock that is on is switched off by the next release.
abbrev pub AtRest : LockKey → Type 0
AtRest key = key.toggle_done ≡ key.locked

press-release_flips :
    (key : LockKey)
    → AtRest key
    → ((release (press key).0).0.locked ≡ not key.locked) × AtRest (release (press key).0).0
unfolding press release
press-release_flips key rest = ground (arith, rest)

-- The keyboard after a code of the lock key: its key, and the bytes that were sent.
abbrev stroke : Lock → LockKey → List ℕ → Keyboard → Keyboard
stroke lock key sent k = record (put_key lock key k) { sent = sent; scan_code_buffer = 0 }

key_of-stroke :
    (lock : Lock) (key : LockKey) (sent : List ℕ) (k : Keyboard)
    → key_of lock (stroke lock key sent k) ≡ key
key_of-stroke caps_lock key sent k = refl
key_of-stroke num_lock key sent k = refl
key_of-stroke scroll_lock key sent k = refl

other-stroke :
    (lock other : Lock) (key : LockKey) (sent : List ℕ) (k : Keyboard)
    → other ≢ lock
    → key_of other (stroke lock key sent k) ≡ key_of other k
other-stroke caps_lock caps_lock key sent k h = elim (h refl) [ ]
other-stroke caps_lock num_lock key sent k h = refl
other-stroke caps_lock scroll_lock key sent k h = refl
other-stroke num_lock caps_lock key sent k h = refl
other-stroke num_lock num_lock key sent k h = elim (h refl) [ ]
other-stroke num_lock scroll_lock key sent k h = refl
other-stroke scroll_lock caps_lock key sent k h = refl
other-stroke scroll_lock num_lock key sent k h = refl
other-stroke scroll_lock scroll_lock key sent k h = elim (h refl) [ ]

listed :
    (lock : Lock)
    → (is_listed (pressed_code lock) valid_scan_codes ≡ true)
      × (is_listed (released_code lock) valid_scan_codes ≡ true)
unfolding is_listed
listed caps_lock = (refl, refl)
listed num_lock = (refl, refl)
listed scroll_lock = (refl, refl)

module _ (acknowledged : ℕ → Bool) (answers : (n : ℕ) → acknowledged n ≡ true) where
  sends :
      (byte : ℕ) (k : Keyboard)
      → send acknowledged byte k ≡ some (record k { sent = byte ∷ k.sent })
  sends byte k =
      ap (λ (t : Bool). if t then some (record k { sent = byte ∷ k.sent }) else none)
        (answers (length k.sent))

  -- The bytes sent are all that updating the LEDs changes.
  updated :
      (changed : Bool) (k : Keyboard)
      → (sent : List ℕ) × (update_if acknowledged changed k ≡ some (record k { sent = sent }))
  unfolding update_led_state
  updated true k = (
    led_state k ∷ 0xed ∷ k.sent,
    ap
          (λ (out : Option Keyboard). elim out [
            | none ↦ none
            | some next ↦ send acknowledged (led_state k) next
          ])
          (sends 0xed k)
        ∙ sends (led_state k) (record k { sent = 0xed ∷ k.sent }),
  )
  updated false k = (k.sent, refl)

  Stroked : Lock → LockKey → Keyboard → Option Keyboard → Type 0
  Stroked lock key k out = (sent : List ℕ) × (completed out ≡ some (stroke lock key sent k))

  stroked :
      (lock : Lock) (key : LockKey) (changed : Bool) (code : ℕ) (k : Keyboard)
      → Stroked lock key k (update_if acknowledged changed (put_key lock key (set_buffer code k)))
  unfolding Stroked
  stroked caps_lock key changed code k =
      let (sent, e) = updated changed (put_key caps_lock key (set_buffer code k)) in
      (sent, ap completed e)
  stroked num_lock key changed code k =
      let (sent, e) = updated changed (put_key num_lock key (set_buffer code k)) in
      (sent, ap completed e)
  stroked scroll_lock key changed code k =
      let (sent, e) = updated changed (put_key scroll_lock key (set_buffer code k)) in
      (sent, ap completed e)

  pressing :
      (lock : Lock) (k : Keyboard)
      → Stroked lock
          (press (key_of lock k)).0
          k
          (handle_code acknowledged (pressed_code lock) (set_buffer (pressed_code lock) k))
  unfolding handle_code
  pressing caps_lock k = stroked caps_lock (press k.caps).0 (press k.caps).1 0x58 k
  pressing num_lock k = stroked num_lock (press k.num).0 (press k.num).1 0x77 k
  pressing scroll_lock k = stroked scroll_lock (press k.scroll).0 (press k.scroll).1 0x7e k

  releasing :
      (lock : Lock) (k : Keyboard)
      → Stroked lock
          (release (key_of lock k)).0
          k
          (handle_code acknowledged (released_code lock) (set_buffer (released_code lock) k))
  unfolding handle_code
  releasing caps_lock k = stroked caps_lock (release k.caps).0 (release k.caps).1 0xf058 k
  releasing num_lock k = stroked num_lock (release k.num).0 (release k.num).1 0xf077 k
  releasing scroll_lock k = stroked scroll_lock (release k.scroll).0 (release k.scroll).1 0xf07e k

-- What a keystroke on the lock comes to.
abbrev pub Flipped : (ℕ → Bool) → Lock → Keyboard → Type 0
Flipped acknowledged lock k =
    (middle : Keyboard) × (after : Keyboard) × (feed acknowledged (bytes_of 8 (pressed_code lock)) k
      ≡ some middle)
    × (feed acknowledged (bytes_of 8 (released_code lock)) middle ≡ some after)
    × ((key_of lock after).locked ≡ not (key_of lock k).locked)
    × AtRest (key_of lock after)
    × ((other : Lock) → other ≢ lock → key_of other after ≡ key_of other k)
    × (after.scan_code_buffer ≡ 0)

-- Where the controller acknowledges every byte, the bytes of pressing a lock key and then those of
-- releasing it, from an empty buffer and with that lock at rest, switch the lock from off to on or
-- from on to off and leave it at rest, the other locks as they were and the buffer empty.
pub keystroke-Flipped :
    (acknowledged : ℕ → Bool) (lock : Lock) (k : Keyboard)
    → ((n : ℕ) → acknowledged n ≡ true)
    → k.scan_code_buffer ≡ 0
    → AtRest (key_of lock k)
    → Flipped acknowledged lock k
unfolding Stroked
keystroke-Flipped acknowledged lock k answers empty rest =
    let key = key_of lock k in
    let (sent, down) = pressing acknowledged answers lock k in
    let middle = stroke lock (press key).0 sent k in
    let same : key_of lock middle ≡ (press key).0 = key_of-stroke lock (press key).0 sent k in
    let (sent', up) = releasing acknowledged answers lock middle in
    let after = stroke lock (release (key_of lock middle)).0 sent' middle in
    let ends : key_of lock after ≡ (release (press key).0).0 =
      key_of-stroke lock (release (key_of lock middle)).0 sent' middle
      ∙ ap (λ (x : LockKey). (release x).0) same in
    let (flips, at_rest) = press-release_flips key rest in
    (
      middle,
      after,
      feed-bytes_of acknowledged (pressed_code lock) k (listed lock).0 empty ∙ down,
      feed-bytes_of acknowledged (released_code lock) middle (listed lock).1 refl ∙ up,
      ap (λ (x : LockKey). x.locked) ends ∙ flips,
      rw ends at_rest,
      (λ other h.
          other-stroke lock other (release (key_of lock middle)).0 sent' middle h
          ∙ other-stroke lock other (press key).0 sent k h),
      refl,
    )
