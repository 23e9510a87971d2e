-- ===== src/Unicode/Grammar.antt =====
-- `isValidUtf8` looks at the shape of a text alone: it is a row of sequences, each a lead byte and as
-- many continuation bytes as it announces.
use mayv.Prelude.{
  ℕ, zero, suc, ◌≤◌, ◌<◌, ◌≡◌, refl, true, false, ◌&&◌, ltb, ◌==◌, if◌then◌else◌, arith, inl, inr,
  dec_lt, ℕ_discrete, ◌≢◌, List, [], ◌∷◌, length, get_or, drop, length-drop, ◌⊎◌, ◌↔◌,
}
use mayv.Unicode.Decode.{is_continuation, sequence_length, valid_loop, is_valid_utf8}
use mayv.Unicode.Bytes.{is_ascii_lem, is_lead2_lem, is_lead3_lem, is_lead4_lem, is_continuation_lem}

abbrev pub AllBytes : List ℕ → Type 0
AllBytes [] = Unit {0}
AllBytes (b ∷ s) = (b < 256) × AllBytes s

abbrev pub Continuation : ℕ → Type 0
Continuation b = (128 ≤ b) × (b < 192)

-- `Sequence n s`: the first `n` bytes of `s` are one encoded character.
pub data Sequence : ℕ → List ℕ → Type 0 where
  one : (a : ℕ) (s : List ℕ) → a < 128 → Sequence 1 (a ∷ s)
  two : (a b : ℕ) (s : List ℕ) → 192 ≤ a → a < 224 → Continuation b → Sequence 2 (a ∷ b ∷ s)
  three :
      (a b c : ℕ) (s : List ℕ)
      → 224 ≤ a
      → a < 240
      → Continuation b
      → Continuation c
      → Sequence 3 (a ∷ b ∷ c ∷ s)
  four :
      (a b c d : ℕ) (s : List ℕ)
      → 240 ≤ a
      → a < 248
      → Continuation b
      → Continuation c
      → Continuation d
      → Sequence 4 (a ∷ b ∷ c ∷ d ∷ s)

-- The shape of a text in UTF-8: lead bytes with their continuation bytes. Overlong forms, surrogates and
-- code points from 0x110000 on have it too.
pub data Framed : List ℕ → Type 0 where
  end : Framed []
  more : (n : ℕ) (s : List ℕ) → Sequence n s → Framed (drop n s) → Framed s

-- what the first byte decides
module _ (a : ℕ) (s : List ℕ) where
  ascii_length : a < 128 → sequence_length (a ∷ s) ≡ 1
  unfolding sequence_length
  ascii_length h = rw (is_ascii_lem a (omega arith)) (ground arith)

  lead2_length :
      192 ≤ a
      → a < 224
      → sequence_length (a ∷ s)
        ≡ (if ltb 1 (length (a ∷ s)) && is_continuation (get_or s 0 0) then 2 else 0)
  unfolding sequence_length
  lead2_length lo hi =
      ground (arith, is_ascii_lem a, is_lead2_lem a, is_lead3_lem a, is_lead4_lem a)

  lead3_length :
      224 ≤ a
      → a < 240
      → sequence_length (a ∷ s) ≡ (
          if ltb 2 (length (a ∷ s))
            && (is_continuation (get_or s 0 0) && is_continuation (get_or s 1 0))
          then 3
          else 0)
  unfolding sequence_length
  lead3_length lo hi =
      ground (arith, is_ascii_lem a, is_lead2_lem a, is_lead3_lem a, is_lead4_lem a)

  lead4_length :
      240 ≤ a
      → a < 248
      → sequence_length (a ∷ s) ≡ (
          if ltb 3 (length (a ∷ s))
            && (is_continuation (get_or s 0 0)
                && (is_continuation (get_or s 1 0) && is_continuation (get_or s 2 0)))
          then 4
          else 0)
  unfolding sequence_length
  lead4_length lo hi =
      ground (arith, is_ascii_lem a, is_lead2_lem a, is_lead3_lem a, is_lead4_lem a)

  no_lead : 128 ≤ a → a < 256 → (a < 192) ⊎ (248 ≤ a) → sequence_length (a ∷ s) ≡ 0
  unfolding sequence_length
  no_lead lo byte out =
      ground (arith, is_ascii_lem a, is_lead2_lem a, is_lead3_lem a, is_lead4_lem a)

Continuation→is-Continuation : (b : ℕ) → Continuation b → is_continuation b ≡ true
Continuation→is-Continuation b h = ground (arith, is_continuation_lem b)

is_continuation→Continuation : (b : ℕ) → b < 256 → is_continuation b ≡ true → Continuation b
is_continuation→Continuation b h e = ground (arith, is_continuation_lem b h)

-- a sequence is measured right
sequence_length_complete : {n : ℕ} {s : List ℕ} → Sequence n s → sequence_length s ≡ n
sequence_length_complete (one a s h) = ascii_length a s h
sequence_length_complete (two a b s lo hi hb) =
    rw (lead2_length a (b ∷ s) lo hi, Continuation→is-Continuation b hb) (ground arith)
sequence_length_complete (three a b c s lo hi hb hc) =
    rw
      (
        lead3_length a (b ∷ c ∷ s) lo hi,
        Continuation→is-Continuation b hb,
        Continuation→is-Continuation c hc,
      )
      (ground arith)
sequence_length_complete (four a b c d s lo hi hb hc hd) =
    rw
      (
        lead4_length a (b ∷ c ∷ d ∷ s) lo hi,
        Continuation→is-Continuation b hb,
        Continuation→is-Continuation c hc,
        Continuation→is-Continuation d hd,
      )
      (ground arith)

lead2_sound :
    (a : ℕ) (s : List ℕ)
    → 192 ≤ a
    → a < 224
    → AllBytes s
    → sequence_length (a ∷ s) ≢ 0
    → Sequence 2 (a ∷ s)
lead2_sound a [] lo hi v ne = absurd (ne (lead2_length a [] lo hi))
lead2_sound a (b ∷ s) lo hi v ne =
    two a b s lo hi
      (is_continuation→Continuation b v.0 (ground (arith, lead2_length a (b ∷ s) lo hi)))

lead3_sound :
    (a : ℕ) (s : List ℕ)
    → 224 ≤ a
    → a < 240
    → AllBytes s
    → sequence_length (a ∷ s) ≢ 0
    → Sequence 3 (a ∷ s)
lead3_sound a [] lo hi v ne = absurd (ne (lead3_length a [] lo hi))
lead3_sound a (b ∷ []) lo hi v ne = absurd (ne (lead3_length a (b ∷ []) lo hi))
lead3_sound a (b ∷ c ∷ s) lo hi v ne =
    three a b c s lo hi
      (is_continuation→Continuation b v.0 (ground (arith, lead3_length a (b ∷ c ∷ s) lo hi)))
      (is_continuation→Continuation c v.1.0 (ground (arith, lead3_length a (b ∷ c ∷ s) lo hi)))

lead4_sound :
    (a : ℕ) (s : List ℕ)
    → 240 ≤ a
    → a < 248
    → AllBytes s
    → sequence_length (a ∷ s) ≢ 0
    → Sequence 4 (a ∷ s)
lead4_sound a [] lo hi v ne = absurd (ne (lead4_length a [] lo hi))
lead4_sound a (b ∷ []) lo hi v ne = absurd (ne (lead4_length a (b ∷ []) lo hi))
lead4_sound a (b ∷ c ∷ []) lo hi v ne = absurd (ne (lead4_length a (b ∷ c ∷ []) lo hi))
lead4_sound a (b ∷ c ∷ d ∷ s) lo hi v ne =
    four a b c d s lo hi
      (is_continuation→Continuation b v.0 (ground (arith, lead4_length a (b ∷ c ∷ d ∷ s) lo hi)))
      (is_continuation→Continuation c v.1.0 (ground (arith, lead4_length a (b ∷ c ∷ d ∷ s) lo hi)))
      (is_continuation→Continuation d v.1.1.0
        (ground (arith, lead4_length a (b ∷ c ∷ d ∷ s) lo hi)))

-- a length that is not 0 comes from one of the four forms
sequence_length_sound :
    (a : ℕ) (s : List ℕ)
    → AllBytes (a ∷ s)
    → sequence_length (a ∷ s) ≢ 0
    → (n : ℕ) × (Sequence n (a ∷ s))
sequence_length_sound a s v ne = elim (dec_lt a 128) [
  | yes p ↦ (1, one a s p)
  | no p ↦ elim (dec_lt a 192) [
    | yes q ↦ absurd (ne (no_lead a s (omega arith) v.0 (inl q)))
    | no q ↦ elim (dec_lt a 224) [
      | yes r ↦ (2, lead2_sound a s (omega arith) r v.1 ne)
      | no r ↦ elim (dec_lt a 240) [
        | yes t ↦ (3, lead3_sound a s (omega arith) t v.1 ne)
        | no t ↦ elim (dec_lt a 248) [
          | yes u ↦ (4, lead4_sound a s (omega arith) u v.1 ne)
          | no u ↦ absurd (ne (no_lead a s (omega arith) v.0 (inr (omega arith))))
        ]
      ]
    ]
  ]
]

AllBytes-drop : (n : ℕ) (s : List ℕ) → AllBytes s → AllBytes (drop n s)
AllBytes-drop zero s v = v
AllBytes-drop (suc n) [] v = v
AllBytes-drop (suc n) (b ∷ s) v = AllBytes-drop n s v.1

-- one round of the loop
valid_loop-round :
    (fuel a : ℕ) (s : List ℕ)
    → valid_loop (suc fuel) (a ∷ s) ≡ (
        if sequence_length (a ∷ s) == 0
        then false
        else valid_loop fuel (drop (sequence_length (a ∷ s)) (a ∷ s)))
unfolding valid_loop
valid_loop-round fuel a s = refl

shorter :
    (n fuel a : ℕ) (s : List ℕ) → n ≢ 0 → length (a ∷ s) ≤ suc fuel → length (drop n (a ∷ s)) ≤ fuel
shorter n fuel a s ne h = omega (arith, length-drop n (a ∷ s))

valid_loop_sound :
    (fuel : ℕ) (s : List ℕ) → length s ≤ fuel → AllBytes s → valid_loop fuel s ≡ true → Framed s
valid_loop_sound fuel [] room v h = end
valid_loop_sound zero (a ∷ s) room v h = absurd (omega arith)
valid_loop_sound (suc fuel) (a ∷ s) room v h = elim (ℕ_discrete (sequence_length (a ∷ s)) 0) [
  | yes z ↦ absurd (ground (arith, valid_loop-round fuel a s))
  | no ne ↦
      let found : (n : ℕ) × (Sequence n (a ∷ s)) = sequence_length_sound a s v ne in
      let size : sequence_length (a ∷ s) ≡ found.0 = sequence_length_complete found.1 in
      more found.0 (a ∷ s) found.1 (
        rw size at (
          valid_loop_sound fuel (drop (sequence_length (a ∷ s)) (a ∷ s))
            (shorter _ fuel a s ne room) (AllBytes-drop _ (a ∷ s) v)
            (ground (arith, valid_loop-round fuel a s))))
]

Sequence-pos : {n : ℕ} {s : List ℕ} → Sequence n s → n ≢ 0
Sequence-pos (one a s h) = omega arith
Sequence-pos (two a b s lo hi hb) = omega arith
Sequence-pos (three a b c s lo hi hb hc) = omega arith
Sequence-pos (four a b c d s lo hi hb hc hd) = omega arith

Sequence-length : {n : ℕ} {s : List ℕ} → Sequence n s → 0 < length s
Sequence-length (one a s h) = omega arith
Sequence-length (two a b s lo hi hb) = omega arith
Sequence-length (three a b c s lo hi hb hc) = omega arith
Sequence-length (four a b c d s lo hi hb hc hd) = omega arith

-- a loop that accepts the rest accepts a sequence before it
accept-Sequence :
    (fuel n : ℕ) (s : List ℕ)
    → Sequence n s
    → length s ≤ fuel
    → ((f : ℕ) → length (drop n s) ≤ f → valid_loop f (drop n s) ≡ true)
    → valid_loop fuel s ≡ true
accept-Sequence fuel n [] q room rest = absurd (omega (arith, Sequence-length q))
accept-Sequence zero n (a ∷ s) q room rest = absurd (omega arith)
accept-Sequence (suc fuel) n (a ∷ s) q room rest =
    let size : sequence_length (a ∷ s) ≡ n = sequence_length_complete q in
    rw (valid_loop-round fuel a s, size)
      (ground (arith, Sequence-pos q, rest fuel (shorter n fuel a s (Sequence-pos q) room)))

valid_loop_complete :
    {s : List ℕ} → Framed s → (fuel : ℕ) → length s ≤ fuel → valid_loop fuel s ≡ true
unfolding valid_loop
valid_loop_complete end zero room = refl
valid_loop_complete end (suc fuel) room = refl
valid_loop_complete (more n s q u) fuel room =
    accept-Sequence fuel n s q room (valid_loop_complete u)

-- On bytes, `isValidUtf8` answers true exactly for the texts made of lead bytes, each followed by as
-- many continuation bytes as it announces. It does not tell overlong forms, surrogates and code points
-- from 0x110000 on from UTF-8.
pub is_valid_utf8-Framed : (s : List ℕ) → AllBytes s → (is_valid_utf8 s ≡ true) ↔ Framed s
unfolding is_valid_utf8
is_valid_utf8-Framed s v = (
  valid_loop_sound (length s) s (omega arith) v,
  λ u. valid_loop_complete u (length s) (omega arith),
)
