-- ===== src/Text/Quote/Quoted.antt =====
-- `strconv.QuotedPrefix` and `strconv.Unquote`, as one reading of a quoted string in front of a text;
-- a string that `strconv.QuoteToASCII` wrote is read back.
pub mod Hex
pub mod Back
use cloudarq.Prelude.{
  ℕ, zero, suc, ◌+◌, ◌-◌, ◌*◌, ◌/◌, ◌%◌, ◌<◌, ◌≤◌, ◌≡◌, ◌≢◌, refl, ap, ◌∙◌, sym, List, [], ◌∷◌,
  ◌++◌, append_assoc, arith, All, Bool, true, false, not, ◌&&◌, ◌||◌, Option, some, none, ltb, leb,
  ◌==◌, if◌then◌else◌, any, length, drop, map,
}
use cloudarq.Text.Bytes.{Bytes, IsBytes}
use cloudarq.Text.Utf8.{Piece, ascii, bad, rune, decode, rune_of, pieces, bytes_of, join_pieces}
use cloudarq.Text.Utf8.Encode.{IsPiece, pieces-IsPiece, join_pieces-pieces}
use cloudarq.Text.Utf8.Runes.{IsScalar, encode_rune}
use cloudarq.Text.Quote.{
  quote_mark, backslash, hex, hex_two, hex_four, escape_ascii, escape_rune, escape, escape_all,
  quote, short_escape,
}
use cloudarq.Eval.StringSet.Build.{◌>>=◌}

digit_value : ℕ → Option ℕ
digit_value c =
    if leb b'0' c && leb c b'9'
    then some (c - 48)
    else if leb b'a' c && leb c b'f'
    then some (c - 87)
    else if leb b'A' c && leb c b'F'
    then some (c - 55)
    else none

-- `n` hexadecimal digits behind those read into `acc`, and what follows them.
hex_digits : ℕ → ℕ → Bytes → Option (ℕ × Bytes)
hex_digits zero acc s = some (acc, s)
hex_digits (suc n) acc [] = none
hex_digits (suc n) acc (c ∷ s) = do d ← digit_value c; hex_digits n (acc * 16 + d) s

-- What a character stands for, and what follows it.
abbrev pub Unquoted : Type 0
Unquoted = Option (Bytes × Bytes)

pub is_scalar : ℕ → Bool
is_scalar r = not (leb 0xd800 r && leb r 0xdfff) && not (ltb 0x10ffff r)

pub hex_byte : Bytes → Unquoted
unfolding hex_digits digit_value
hex_byte s = do (v, rest) ← hex_digits 2 0 s; some (v ∷ [], rest)

pub hex_rune : ℕ → Bytes → Unquoted
unfolding hex_digits digit_value is_scalar
hex_rune n s = do
  (v, rest) ← hex_digits n 0 s
  if is_scalar v then some (encode_rune v, rest) else none

octal_byte : ℕ → Bytes → Unquoted
octal_byte c (d ∷ e ∷ s) =
    let v = (c - 48) * 64 + (d - 48) * 8 + (e - 48) in
    if leb b'0' d && (leb d b'7' && (leb b'0' e && (leb e b'7' && leb v 255)))
    then some (v ∷ [], s)
    else none
octal_byte c _ = none

-- The byte of a one-letter escape, or 0.
pub letter_value : ℕ → ℕ
letter_value c =
    if c == b'a'
    then 7
    else if c == b'b'
    then 8
    else if c == b'f'
    then 12
    else if c == b'n'
    then 10
    else if c == b'r'
    then 13
    else if c == b't'
    then 9
    else if c == b'v'
    then 11
    else 0

unquote_escape : ℕ → Bytes → Unquoted
unfolding hex_byte hex_rune octal_byte letter_value
unquote_escape mark [] = none
unquote_escape mark (c ∷ s) =
    if not (letter_value c == 0)
    then some (letter_value c ∷ [], s)
    else if c == b'x'
    then hex_byte s
    else if c == b'u'
    then hex_rune 4 s
    else if c == b'U'
    then hex_rune 8 s
    else if leb b'0' c && leb c b'7'
    then octal_byte c s
    else if c == backslash || ((c == b'\'' || c == quote_mark) && c == mark)
    then some (c ∷ [], s)
    else none

-- `strconv.UnquoteChar`.
unquote_char : ℕ → Bytes → Unquoted
unfolding unquote_escape
unquote_char mark [] = none
unquote_char mark (c ∷ s) =
    if c == mark
    then none
    else if leb 0x80 c
    then some (encode_rune (rune_of (decode c s).0), drop (decode c s).1 s)
    else if not (c == backslash)
    then some (c ∷ [], s)
    else unquote_escape mark s

-- The characters up to the closing mark. Each takes a byte at least, so the length is fuel enough.
unquote_chars : ℕ → Bytes → Unquoted
unquote_chars zero s = none
unquote_chars (suc fuel) [] = none
unquote_chars (suc fuel) (c ∷ s) =
    let onward = (do
      (here, left) ← unquote_char quote_mark (c ∷ s)
      (rest, behind) ← unquote_chars fuel left
      some (here ++ rest, behind)) in
    if c == quote_mark then some ([], s) else if c == 10 then none else onward

-- One character between single marks.
unquote_single : Bytes → Unquoted
unquote_single [] = none
unquote_single (c ∷ s) =
    if c == 10 then none else (do (here, left) ← unquote_char b'\'' (c ∷ s); closed here left)
  where
    closed : Bytes → Bytes → Unquoted
    closed here [] = none
    closed here (c ∷ s) = if c == b'\'' then some (here, s) else none

-- A raw string, whose carriage returns are dropped.
unquote_raw : Bytes → Unquoted
unquote_raw [] = none
unquote_raw (c ∷ s) =
    let rest = unquote_raw s in
    if c == 96
    then some ([], s)
    else (do (text, behind) ← rest; some ((if c == 13 then text else c ∷ text), behind))

-- The quoted string in front of a text, read, and what follows it.
unfoldable pub quoted : Bytes → Unquoted
unfolding unquote_chars unquote_char unquote_single unquote_raw
quoted [] = none
quoted (c ∷ s) =
    if c == quote_mark
    then unquote_chars (length s) s
    else if c == b'\''
    then unquote_single s
    else if c == 96
    then unquote_raw s
    else none
