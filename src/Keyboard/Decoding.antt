-- ===== src/Keyboard/Decoding.antt =====
-- The bytes of a scan code, one after another, come to the handling of that code.
use mayv.Prelude.{
  ℕ, zero, suc, ◌/◌, ◌%◌, ◌≡◌, refl, ap, ◌∙◌, Bool, true, false, not, ◌&&◌, ◌==◌, if◌then◌else◌,
  arith, ℕ_discrete, Option, none, some, List, [], ◌∷◌, ◌++◌,
}
use mayv.Keyboard.Codes.{valid_scan_codes}
use mayv.Keyboard.Handler.{
  Keyboard, handle_code, is_listed, is_anticipated, push_byte, set_buffer, ps2_keyboard_handler,
}

-- The bytes of a number, the most significant first, up to eight.
unfoldable pub bytes_of : ℕ → ℕ → List ℕ
bytes_of zero code = []
bytes_of (suc n) code =
    let front = bytes_of n (code / 256) in if code == 0 then [] else front ++ (code % 256) ∷ []

-- The handler, once for each byte.
unfoldable pub feed : (ℕ → Bool) → List ℕ → Keyboard → Option Keyboard
feed acknowledged [] k = some k
feed acknowledged (byte ∷ rest) k = elim (ps2_keyboard_handler acknowledged byte k) [
  | none ↦ none
  | some next ↦ feed acknowledged rest next
]

-- All bytes but the last leave an anticipated buffer, and the last completes the code.
unfoldable delivers : ℕ → List ℕ → ℕ → Bool
delivers buffer [] code = false
delivers buffer (byte ∷ []) code = push_byte buffer byte == code && is_listed code valid_scan_codes
delivers buffer (byte ∷ b ∷ rest) code =
    let next = push_byte buffer byte in
    let later = delivers next (b ∷ rest) code in
    not (is_listed next valid_scan_codes) && is_anticipated next && later

unfoldable all_deliver : List ℕ → Bool
all_deliver [] = true
all_deliver (code ∷ codes) = delivers 0 (bytes_of 8 code) code && all_deliver codes

checked : all_deliver valid_scan_codes ≡ true
unfolding all_deliver delivers bytes_of is_listed is_anticipated
checked = refl

each_delivers :
    (codes : List ℕ) (code : ℕ)
    → all_deliver codes ≡ true
    → is_listed code codes ≡ true
    → delivers 0 (bytes_of 8 code) code ≡ true
unfolding all_deliver is_listed
each_delivers [] code h listed = ground (arith, listed)
each_delivers (c ∷ codes) code h listed = elim (ℕ_discrete code c) [
  | yes at ↦ rw at (ground (arith, h))
  | no other ↦ each_delivers codes code (ground (arith, h)) (ground (arith, listed, other))
]

-- A code was handled: the buffer is empty.
abbrev pub completed : Option Keyboard → Option Keyboard
completed none = none
completed (some next) = some (set_buffer 0 next)

module _ (acknowledged : ℕ → Bool) where
  handler_listed :
      (k : Keyboard) (byte code : ℕ)
      → push_byte k.scan_code_buffer byte ≡ code
      → is_listed code valid_scan_codes ≡ true
      → ps2_keyboard_handler acknowledged byte k
        ≡ completed (handle_code acknowledged code (set_buffer code k))
  unfolding ps2_keyboard_handler
  handler_listed k byte code at h = rw (at, h) refl

  handler_anticipated :
      (k : Keyboard) (byte : ℕ)
      → is_listed (push_byte k.scan_code_buffer byte) valid_scan_codes ≡ false
      → is_anticipated (push_byte k.scan_code_buffer byte) ≡ true
      → ps2_keyboard_handler acknowledged byte k
        ≡ some (set_buffer (push_byte k.scan_code_buffer byte) k)
  unfolding ps2_keyboard_handler
  handler_anticipated k byte h more = rw (h, more) refl

  feed-same : (out : Option Keyboard) → (elim out [ none ↦ none | some next ↦ some next ]) ≡ out
  feed-same none = refl
  feed-same (some next) = refl

  feed_last :
      (byte : ℕ) (k : Keyboard)
      → feed acknowledged (byte ∷ []) k ≡ ps2_keyboard_handler acknowledged byte k
  unfolding feed
  feed_last byte k = feed-same (ps2_keyboard_handler acknowledged byte k)

  feed_next :
      (byte : ℕ) (rest : List ℕ) (k next : Keyboard)
      → ps2_keyboard_handler acknowledged byte k ≡ some next
      → feed acknowledged (byte ∷ rest) k ≡ feed acknowledged rest next
  unfolding feed
  feed_next byte rest k next e =
      ap (λ (out : Option Keyboard). elim out [ none ↦ none | some x ↦ feed acknowledged rest x ]) e

  delivers-feed :
      (bytes : List ℕ) (k : Keyboard) (code : ℕ)
      → delivers k.scan_code_buffer bytes code ≡ true
      → feed acknowledged bytes k ≡ completed (handle_code acknowledged code (set_buffer code k))
  unfolding delivers
  delivers-feed [] k code h = ground (arith, h)
  delivers-feed (byte ∷ []) k code h =
      feed_last byte k ∙ handler_listed k byte code (ground (arith, h)) (ground (arith, h))
  delivers-feed (byte ∷ b ∷ rest) k code h =
      let next = push_byte k.scan_code_buffer byte in
      feed_next byte (b ∷ rest) k (set_buffer next k)
        (handler_anticipated k byte (ground (arith, h)) (ground (arith, h)))
      ∙ delivers-feed (b ∷ rest) (set_buffer next k) code (ground (arith, h))

  -- The bytes of a valid scan code, read one after another from an empty buffer, come to handling
  -- that code once, and leave the buffer empty.
  pub feed-bytes_of :
      (code : ℕ) (k : Keyboard)
      → is_listed code valid_scan_codes ≡ true
      → k.scan_code_buffer ≡ 0
      → feed acknowledged (bytes_of 8 code) k
        ≡ completed (handle_code acknowledged code (set_buffer code k))
  feed-bytes_of code k listed empty =
      delivers-feed (bytes_of 8 code) k code
        (rw empty (each_delivers valid_scan_codes code checked listed))
