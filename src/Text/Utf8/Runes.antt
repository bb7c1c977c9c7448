-- ===== src/Text/Utf8/Runes.antt =====
-- `string(r)` of runes: what is encoded is read back.
use cloudarq.Prelude.{
  ℕ, zero, suc, ◌+◌, ◌-◌, ◌*◌, ◌/◌, ◌%◌, ◌≤◌, ◌<◌, ◌≡◌, refl, ap, ◌∙◌, ◌⊎◌, inl, inr, List, [], ◌∷◌,
  ◌++◌, map, arith, All, ltb, leb, ◌&&◌, ◌||◌, if◌then◌else◌, true, Bool-cases,
}
use cloudarq.Text.Bytes.{Bytes}
use cloudarq.Text.Utf8.{
  rune, rune_error, rune_of, decode, decode_two, decode_three, decode_four, pieces_from, pieces,
  runes, bytes_of, is_continuation, is_second, second_low, second_high,
}

-- A rune that has an encoding.
abbrev pub IsScalar : ℕ → Type 0
IsScalar r = (r < 0xd800) ⊎ ((0xe000 ≤ r) × (r < 0x110000))

-- A rune with no encoding is written as U+FFFD.
unfoldable pub encode_rune : ℕ → Bytes
unfolding bytes_of
encode_rune r =
    if ltb r 0x80
    then r ∷ []
    else if (leb 0xd800 r && leb r 0xdfff) || ltb 0x10ffff r
    then bytes_of (rune rune_error)
    else bytes_of (rune r)

unfoldable pub string_of : List ℕ → Bytes
unfolding encode_rune
string_of [] = []
string_of (r ∷ rs) = encode_rune r ++ string_of rs

abbrev Decodes : ℕ → Bytes → Type 0
Decodes r s = map rune_of (pieces_from 0 (encode_rune r ++ s)) ≡ r ∷ map rune_of (pieces_from 0 s)

Decodes-of_two : (r : ℕ) (s : Bytes) → 0x80 ≤ r → r < 0x800 → Decodes r s
unfolding pieces_from decode decode_two encode_rune bytes_of rune_of is_continuation
Decodes-of_two r s h k =
    let e : (0xc0 + r / 64 - 0xc0) * 64 + (0x80 + r % 64 - 0x80) ≡ r = omega arith in
    ground (arith, e)

Decodes-of_one : (r : ℕ) (s : Bytes) → r < 0x80 → Decodes r s
unfolding pieces_from decode encode_rune bytes_of rune_of
Decodes-of_one r s h = ground arith

Decodes-of_three : (r : ℕ) (s : Bytes) → 0x800 ≤ r → r < 0x10000 → IsScalar r → Decodes r s
unfolding pieces_from decode decode_three encode_rune bytes_of rune_of is_continuation is_second
    second_low second_high
Decodes-of_three r s h k (inl v) =
    let e : (0xe0 + r / 4096 - 0xe0) * 4096
          + (0x80 + r / 64 % 64 - 0x80) * 64
          + (0x80 + r % 64 - 0x80)
        ≡ r =
      omega arith in
    ground (arith, e)
Decodes-of_three r s h k (inr v) =
    let e : (0xe0 + r / 4096 - 0xe0) * 4096
          + (0x80 + r / 64 % 64 - 0x80) * 64
          + (0x80 + r % 64 - 0x80)
        ≡ r =
      omega arith in
    ground (arith, e)

decode-four :
    (b c d e : ℕ) (s : Bytes)
    → 0xf0 ≤ b
    → b < 0xf5
    → is_second b c ≡ true
    → is_continuation d ≡ true
    → is_continuation e ≡ true
    → decode b (c ∷ d ∷ e ∷ s)
      ≡ (rune ((b - 0xf0) * 262144 + (c - 0x80) * 4096 + (d - 0x80) * 64 + (e - 0x80)), 3)
unfolding decode decode_four
decode-four b c d e s h k x y z = ground arith

second_of_four :
    (r : ℕ)
    → 0x10000 ≤ r
    → r < 0x110000
    → is_second (0xf0 + r / 262144) (0x80 + r / 4096 % 64) ≡ true
unfolding is_second second_low second_high
second_of_four r h k = ground arith

continues : (n : ℕ) → is_continuation (0x80 + n % 64) ≡ true
unfolding is_continuation
continues n = ground arith

encode_rune-four :
    (r : ℕ)
    → 0x10000 ≤ r
    → r < 0x110000
    → encode_rune r
      ≡ (0xf0 + r / 262144) ∷ (0x80 + r / 4096 % 64) ∷ (0x80 + r / 64 % 64) ∷ (0x80 + r % 64) ∷ []
unfolding encode_rune bytes_of
encode_rune-four r h k = ground arith

Decodes-of_four : (r : ℕ) (s : Bytes) → 0x10000 ≤ r → r < 0x110000 → Decodes r s
unfolding pieces_from rune_of
Decodes-of_four r s h k =
    let e : (0xf0 + r / 262144 - 0xf0) * 262144
          + (0x80 + r / 4096 % 64 - 0x80) * 4096
          + (0x80 + r / 64 % 64 - 0x80) * 64
          + (0x80 + r % 64 - 0x80)
        ≡ r =
      omega arith in
    rw
      (
        encode_rune-four r h k,
        decode-four (0xf0 + r / 262144) (0x80 + r / 4096 % 64) (0x80 + r / 64 % 64) (0x80 + r % 64)
            s (omega arith) (omega arith) (second_of_four r h k) (continues (r / 64)) (continues r),
      )
      (ap (λ x. x ∷ map rune_of (pieces_from 0 s)) e)

decode-Decodes : (r : ℕ) (s : Bytes) → IsScalar r → Decodes r s
decode-Decodes r s h = elim (Bool-cases (ltb r 0x80)) [
  | inl a ↦ Decodes-of_one r s (ground arith)
  | inr a ↦ elim (Bool-cases (ltb r 0x800)) [
    | inl b ↦ Decodes-of_two r s (ground arith) (ground arith)
    | inr b ↦ elim (Bool-cases (ltb r 0x10000)) [
      | inl c ↦ Decodes-of_three r s (ground arith) (ground arith) h
      | inr c ↦ Decodes-of_four r s (ground arith) (ground arith)
    ]
  ]
]

-- Runes with an encoding are read back from the string of them.
pub runes-string_of : (rs : List ℕ) → All IsScalar rs → runes (string_of rs) ≡ rs
unfolding runes pieces string_of pieces_from
runes-string_of [] h = refl
runes-string_of (r ∷ rs) h =
    decode-Decodes r (string_of rs) h.0 ∙ ap (◌∷◌ r) (runes-string_of rs h.1)

two-IsScalar : (b : ℕ) (s : Bytes) → b < 0xe0 → IsScalar (rune_of (decode_two b s).0)
unfolding decode_two is_continuation rune_of
two-IsScalar b [] h = ground arith
two-IsScalar b (c ∷ s) h = ground arith

three-IsScalar : (b : ℕ) (s : Bytes) → 0xe0 ≤ b → b < 0xf0 → IsScalar (rune_of (decode_three b s).0)
unfolding decode_three is_continuation is_second second_low second_high rune_of
three-IsScalar b [] h k = ground arith
three-IsScalar b (c ∷ []) h k = ground arith
three-IsScalar b (c ∷ d ∷ s) h k = ground arith

four-IsScalar : (b : ℕ) (s : Bytes) → 0xf0 ≤ b → b < 0xf5 → IsScalar (rune_of (decode_four b s).0)
unfolding decode_four is_continuation is_second second_low second_high rune_of
four-IsScalar b [] h k = ground arith
four-IsScalar b (c ∷ []) h k = ground arith
four-IsScalar b (c ∷ d ∷ []) h k = ground arith
four-IsScalar b (c ∷ d ∷ e ∷ s) h k = ground arith

decode-IsScalar : (b : ℕ) (s : Bytes) → IsScalar (rune_of (decode b s).0)
unfolding decode rune_of
decode-IsScalar b s = ground (arith, two-IsScalar b s, three-IsScalar b s, four-IsScalar b s)

pieces_from-IsScalar : (k : ℕ) (s : Bytes) → All IsScalar (map rune_of (pieces_from k s))
unfolding pieces_from
pieces_from-IsScalar zero [] = tt
pieces_from-IsScalar (suc k) [] = tt
pieces_from-IsScalar (suc k) (b ∷ s) = pieces_from-IsScalar k s
pieces_from-IsScalar zero (b ∷ s) = (decode-IsScalar b s, pieces_from-IsScalar (decode b s).1 s)

-- Every rune that a string is read as has an encoding.
pub runes-IsScalar : (s : Bytes) → All IsScalar (runes s)
unfolding runes pieces
runes-IsScalar s = pieces_from-IsScalar 0 s
