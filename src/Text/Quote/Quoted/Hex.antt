-- ===== src/Text/Quote/Quoted/Hex.antt =====
-- The hexadecimal digits that `strconv.QuoteToASCII` writes are read back.
use cloudarq.Prelude.{
  ℕ, suc, ◌+◌, ◌*◌, ◌/◌, ◌%◌, ◌<◌, ◌≡◌, ◌≢◌, refl, ap, ◌∙◌, [], ◌∷◌, ◌++◌, arith, true, some, inl,
  inr,
}
use cloudarq.Text.Bytes.{Bytes}
use cloudarq.Text.Utf8.Runes.{IsScalar, encode_rune}
use cloudarq.Text.Quote.{quote_mark, backslash, hex, hex_four, short_escape}
use cloudarq.Text.Quote.Quoted.{
  digit_value, hex_digits, is_scalar, hex_byte, hex_rune, letter_value,
}

digit_value-hex : (d : ℕ) → d < 16 → digit_value (hex d) ≡ some d
unfolding digit_value hex
digit_value-hex d h = ground arith

hex_digits-step :
    (n acc d : ℕ) (s : Bytes)
    → d < 16
    → hex_digits (suc n) acc (hex d ∷ s) ≡ hex_digits n (acc * 16 + d) s
unfolding hex_digits
hex_digits-step n acc d s h = rw (digit_value-hex d h) refl

hex_digits-none : (acc : ℕ) (s : Bytes) → hex_digits 0 acc s ≡ some (acc, s)
unfolding hex_digits
hex_digits-none acc s = refl

-- A rune's four digits, behind those that were read.
hex_digits-four :
    (n acc r : ℕ) (s : Bytes)
    → r < 65536
    → hex_digits (suc (suc (suc (suc n)))) acc (hex_four r ++ s) ≡ hex_digits n (acc * 65536 + r) s
unfolding hex_four
hex_digits-four n acc r s h =
    hex_digits-step (suc (suc (suc n))) acc (r / 4096 % 16) _ (omega arith)
    ∙ hex_digits-step (suc (suc n)) _ (r / 256 % 16) _ (omega arith)
    ∙ hex_digits-step (suc n) _ (r / 16 % 16) _ (omega arith)
    ∙ hex_digits-step n _ (r % 16) s (omega arith)
    ∙ ap (λ v. hex_digits n v s) (omega arith)

pub hex_byte-two :
    (b : ℕ) (s : Bytes) → b < 256 → hex_byte (hex (b / 16) ∷ hex (b % 16) ∷ s) ≡ some (b ∷ [], s)
unfolding hex_byte
hex_byte-two b s h =
    rw
      (hex_digits-step 1 0 (b / 16) (hex (b % 16) ∷ s) (omega arith)
        ∙ hex_digits-step 0 _ (b % 16) s (omega arith)
        ∙ hex_digits-none _ s)
      (ap (λ v. some (v ∷ [], s)) (omega arith))

pub is_scalar-true : (r : ℕ) → IsScalar r → is_scalar r ≡ true
unfolding is_scalar
is_scalar-true r (inl h) = ground arith
is_scalar-true r (inr h) = ground arith

pub hex_rune-four :
    (r : ℕ) (s : Bytes)
    → r < 65536
    → IsScalar r
    → hex_rune 4 (hex_four r ++ s) ≡ some (encode_rune r, s)
unfolding hex_rune
hex_rune-four r s h k =
    rw (hex_digits-four 0 0 r s h ∙ hex_digits-none _ s)
      (let e : 0 * 65536 + r ≡ r = omega arith in rw (e, is_scalar-true r k) refl)

pub hex_rune-eight :
    (r : ℕ) (s : Bytes)
    → r < 0x110000
    → IsScalar r
    → hex_rune 8 (hex_four (r / 65536) ++ (hex_four (r % 65536) ++ s)) ≡ some (encode_rune r, s)
unfolding hex_rune
hex_rune-eight r s h k =
    rw
      (hex_digits-four 4 0 (r / 65536) (hex_four (r % 65536) ++ s) (omega arith)
        ∙ hex_digits-four 0 _ (r % 65536) s (omega arith)
        ∙ hex_digits-none _ s)
      (let e : (0 * 65536 + r / 65536) * 65536 + r % 65536 ≡ r = omega arith in
        rw (e, is_scalar-true r k) refl)

pub letter_value-short_escape :
    (b : ℕ)
    → short_escape b ≢ 0
    → b ≢ quote_mark
    → b ≢ backslash
    → (letter_value (short_escape b) ≡ b) × (b ≢ 0)
unfolding short_escape letter_value
letter_value-short_escape b h k l = ground arith
