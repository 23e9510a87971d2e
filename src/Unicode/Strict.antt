-- ===== src/Unicode/Strict.antt =====
-- The grammar of UTF-8 in RFC 3629, and `toUtf8` and `isValidUtf8` against it.
use mayv.Prelude.{
  ℕ, ◌+◌, ◌/◌, ◌%◌, ◌≤◌, ◌<◌, ◌≡◌, true, arith, inl, inr, dec_lt, List, [], ◌∷◌, ◌++◌, ◌⊎◌,
}
use mayv.Unicode.Encode.{to_utf8}
use mayv.Unicode.Decode.{is_valid_utf8}
use mayv.Unicode.Bytes.{to_utf8_1, to_utf8_2, to_utf8_3, to_utf8_4}
use mayv.Unicode.Grammar.{
  AllBytes, Continuation, one, two, three, four, Framed, end, more, is_valid_utf8-Framed,
}

-- UTF8-2, UTF8-3 and UTF8-4 of the grammar, by the ranges of their bytes. The second byte after E0, ED,
-- F0 and F4 has a range of its own.
abbrev pub Second3 : ℕ → ℕ → Type 0
Second3 a b =
    ((a ≡ 0xe0) × (0xa0 ≤ b) × (b ≤ 0xbf))
    ⊎ ((0xe1 ≤ a) × (a ≤ 0xec) × Continuation b)
    ⊎ ((a ≡ 0xed) × (0x80 ≤ b) × (b ≤ 0x9f))
    ⊎ ((0xee ≤ a) × (a ≤ 0xef) × Continuation b)

abbrev pub Second4 : ℕ → ℕ → Type 0
Second4 a b =
    ((a ≡ 0xf0) × (0x90 ≤ b) × (b ≤ 0xbf))
    ⊎ ((0xf1 ≤ a) × (a ≤ 0xf3) × Continuation b)
    ⊎ ((a ≡ 0xf4) × (0x80 ≤ b) × (b ≤ 0x8f))

pub data Utf8 : List ℕ → Type 0 where
  octets : Utf8 []
  utf8_1 : (a : ℕ) (s : List ℕ) → a ≤ 0x7f → Utf8 s → Utf8 (a ∷ s)
  utf8_2 : (a b : ℕ) (s : List ℕ) → 0xc2 ≤ a → a ≤ 0xdf → Continuation b → Utf8 s → Utf8 (a ∷ b ∷ s)
  utf8_3 : (a b c : ℕ) (s : List ℕ) → Second3 a b → Continuation c → Utf8 s → Utf8 (a ∷ b ∷ c ∷ s)
  utf8_4 :
      (a b c d : ℕ) (s : List ℕ)
      → Second4 a b
      → Continuation c
      → Continuation d
      → Utf8 s
      → Utf8 (a ∷ b ∷ c ∷ d ∷ s)

-- The scalar values: all code points but the surrogates.
abbrev pub Scalar : ℕ → Type 0
Scalar cp = (cp < 0xd800) ⊎ ((0xe000 ≤ cp) × (cp < 0x110000))

second3 :
    (cp : ℕ)
    → Scalar cp
    → 0x800 ≤ cp
    → cp < 0x10000
    → Second3 (224 + cp / 4096) (128 + cp / 64 % 64)
second3 cp scalar lo hi = elim (dec_lt cp 0x1000) [
  | yes p ↦ inl (omega arith, omega arith, omega arith)
  | no p ↦ elim (dec_lt cp 0xd000) [
    | yes q ↦ inr (inl (omega arith, omega arith, omega arith))
    | no q ↦ elim (dec_lt cp 0xe000) [
      | yes r ↦ inr (inr (inl (omega (arith, scalar), omega arith, omega (arith, scalar))))
      | no r ↦ inr (inr (inr (omega arith, omega arith, omega arith)))
    ]
  ]
]

second4 :
    (cp : ℕ) → 0x10000 ≤ cp → cp < 0x110000 → Second4 (240 + cp / 262144) (128 + cp / 4096 % 64)
second4 cp lo hi = elim (dec_lt cp 0x40000) [
  | yes p ↦ inl (omega arith, omega arith, omega arith)
  | no p ↦ elim (dec_lt cp 0x100000) [
    | yes q ↦ inr (inl (omega arith, omega arith, omega arith))
    | no q ↦ inr (inr (omega arith, omega arith, omega arith))
  ]
]

Utf8-Framed : {s : List ℕ} → Utf8 s → Framed s
Utf8-Framed octets = end
Utf8-Framed (utf8_1 a s h u) = more 1 _ (one a s (omega arith)) (Utf8-Framed u)
Utf8-Framed (utf8_2 a b s lo hi hb u) =
    more 2 _ (two a b s (omega arith) (omega arith) hb) (Utf8-Framed u)
Utf8-Framed (utf8_3 a b c s h hc u) =
    more 3 _ (three a b c s (omega (arith, h)) (omega (arith, h)) (omega (arith, h)) hc)
      (Utf8-Framed u)
Utf8-Framed (utf8_4 a b c d s h hc hd u) =
    more 4 _ (four a b c d s (omega (arith, h)) (omega (arith, h)) (omega (arith, h)) hc hd)
      (Utf8-Framed u)

Utf8-AllBytes : {s : List ℕ} → Utf8 s → AllBytes s
Utf8-AllBytes octets = tt
Utf8-AllBytes (utf8_1 a s h u) = (omega (arith, h), Utf8-AllBytes u)
Utf8-AllBytes (utf8_2 a b s lo hi hb u) = (omega (arith, hi), (omega (arith, hb), Utf8-AllBytes u))
Utf8-AllBytes (utf8_3 a b c s h hc u) =
    (omega (arith, h), (omega (arith, h), (omega (arith, hc), Utf8-AllBytes u)))
Utf8-AllBytes (utf8_4 a b c d s h hc hd u) = (
  omega (arith, h),
  (omega (arith, h), (omega (arith, hc), (omega (arith, hd), Utf8-AllBytes u))),
)

-- `isValidUtf8` refuses no text in UTF-8.
Utf8-is_valid_utf8 : {s : List ℕ} → Utf8 s → is_valid_utf8 s ≡ true
Utf8-is_valid_utf8 {s = s} u = (is_valid_utf8-Framed s (Utf8-AllBytes u)).1 (Utf8-Framed u)

encoded-Utf8 : (cp : ℕ) (s : List ℕ) → Scalar cp → Utf8 s → Utf8 (to_utf8 cp ++ s)
encoded-Utf8 cp s scalar u = elim (dec_lt cp 0x80) [
  | yes p ↦ rw (to_utf8_1 cp p) (utf8_1 cp s (omega arith) u)
  | no p ↦ elim (dec_lt cp 0x800) [
    | yes q ↦
        rw (to_utf8_2 cp (omega arith) q) (utf8_2 _ _ s (omega arith) (omega arith) (omega arith) u)
    | no q ↦ elim (dec_lt cp 0x10000) [
      | yes r ↦
          rw (to_utf8_3 cp (omega arith) r)
            (utf8_3 _ _ _ s (second3 cp scalar (omega arith) r) (omega arith) u)
      | no r ↦
          let below : cp < 0x110000 = omega (arith, scalar) in
          rw (to_utf8_4 cp (omega arith) below)
            (utf8_4 _ _ _ _ s (second4 cp (omega arith) below) (omega arith) (omega arith) u)
    ]
  ]
]

-- What `toUtf8` makes of a scalar value, in front of a text in UTF-8, is a text in UTF-8 as RFC 3629
-- defines it, and `isValidUtf8` accepts it.
pub to_utf8-Utf8 :
    (cp : ℕ) (s : List ℕ)
    → Scalar cp
    → Utf8 s
    → Utf8 (to_utf8 cp ++ s) × (is_valid_utf8 (to_utf8 cp ++ s) ≡ true)
to_utf8-Utf8 cp s scalar u =
    let encoded = encoded-Utf8 cp s scalar u in (encoded, Utf8-is_valid_utf8 encoded)
