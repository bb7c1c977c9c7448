-- ===== src/Text/Quote.antt =====
-- `strconv.QuoteToASCII`, written out over the pieces of a string.
pub mod Unquote
pub mod Quoted
use cloudarq.Prelude.{ℕ, ◌/◌, ◌%◌, ◌+◌, Bool, ◌||◌, List, [], ◌∷◌, ◌++◌, ltb, ◌==◌, if◌then◌else◌}
use cloudarq.Text.Bytes.{Bytes}
use cloudarq.Text.Utf8.{Piece, ascii, bad, rune, pieces}

abbrev pub quote_mark : ℕ
quote_mark = 34

abbrev pub backslash : ℕ
backslash = 92

-- A lower-case hexadecimal digit.
unfoldable pub hex : ℕ → ℕ
hex d = if ltb d 10 then 48 + d else 87 + d

-- `\x` and two digits.
hex_two : ℕ → Bytes
hex_two b = backslash ∷ b'x' ∷ hex (b / 16) ∷ hex (b % 16) ∷ []

pub hex_four : ℕ → Bytes
hex_four r = hex (r / 4096 % 16) ∷ hex (r / 256 % 16) ∷ hex (r / 16 % 16) ∷ hex (r % 16) ∷ []

-- The letter behind the backslash of a one-letter escape, or 0.
pub short_escape : ℕ → ℕ
short_escape b =
    if b == 7
    then b'a'
    else if b == 8
    then b'b'
    else if b == 9
    then b't'
    else if b == 10
    then b'n'
    else if b == 11
    then b'v'
    else if b == 12
    then b'f'
    else if b == 13
    then b'r'
    else if b == quote_mark
    then quote_mark
    else if b == backslash
    then backslash
    else 0

escape_ascii : ℕ → Bytes
escape_ascii b =
    if short_escape b == 0
    then (if ltb b 32 || b == 127 then hex_two b else b ∷ [])
    else backslash ∷ short_escape b ∷ []

escape_rune : ℕ → Bytes
escape_rune r =
    if ltb r 0x10000
    then backslash ∷ b'u' ∷ hex_four r
    else backslash ∷ b'U' ∷ (hex_four (r / 65536) ++ hex_four (r % 65536))

unfoldable pub escape : Piece → Bytes
unfolding escape_ascii short_escape hex_two hex_four hex escape_rune
escape (ascii b) = escape_ascii b
escape (bad b) = hex_two b
escape (rune r) = escape_rune r

unfoldable pub escape_all : List Piece → Bytes
unfolding escape
escape_all [] = []
escape_all (p ∷ ps) = escape p ++ escape_all ps

unfoldable pub quote : Bytes → Bytes
unfolding escape_all pieces
quote s = quote_mark ∷ (escape_all (pieces s) ++ quote_mark ∷ [])
