-- ===== src/Text/Utf8.antt =====
-- How Go reads a string as runes: `for i, r := range s`, `[]rune(s)` and `utf8.DecodeRuneInString`
-- walk it in pieces, and a byte that starts no valid encoding is a piece of its own.
pub mod Encode
pub mod Runes
use cloudarq.Prelude.{
  ℕ, zero, suc, ◌+◌, ◌-◌, ◌*◌, ◌/◌, ◌%◌, Bool, ◌&&◌, List, [], ◌∷◌, ◌++◌, map, ltb, leb, ◌==◌,
  if◌then◌else◌,
}
use cloudarq.Text.Bytes.{Bytes}

-- A piece of a string: an ASCII byte, a byte that is not valid UTF-8, or a longer encoding.
pub data Piece : Type 0 where
  ascii : ℕ → Piece
  bad : ℕ → Piece
  rune : ℕ → Piece

-- U+FFFD, `utf8.RuneError`.
abbrev pub rune_error : ℕ
rune_error = 0xfffd

unfoldable pub rune_of : Piece → ℕ
rune_of (ascii b) = b
rune_of (bad b) = rune_error
rune_of (rune r) = r

is_continuation : ℕ → Bool
is_continuation c = leb 0x80 c && leb c 0xbf

-- The bounds of the second byte, narrower behind E0, ED, F0 and F4.
second_low : ℕ → ℕ
second_low b = if b == 0xe0 then 0xa0 else if b == 0xf0 then 0x90 else 0x80

second_high : ℕ → ℕ
second_high b = if b == 0xed then 0x9f else if b == 0xf4 then 0x8f else 0xbf

is_second : ℕ → ℕ → Bool
unfolding second_low second_high
is_second b c = leb (second_low b) c && leb c (second_high b)

-- A piece with the number of bytes it takes behind its first.
abbrev pub Step : Type 0
Step = Piece × ℕ

decode_two : ℕ → Bytes → Step
unfolding is_continuation
decode_two b [] = (bad b, 0)
decode_two b (c ∷ s) =
    if is_continuation c then (rune ((b - 0xc0) * 64 + (c - 0x80)), 1) else (bad b, 0)

decode_three : ℕ → Bytes → Step
unfolding is_continuation is_second
decode_three b (c ∷ d ∷ s) =
    if is_second b c && is_continuation d
    then (rune ((b - 0xe0) * 4096 + (c - 0x80) * 64 + (d - 0x80)), 2)
    else (bad b, 0)
decode_three b _ = (bad b, 0)

decode_four : ℕ → Bytes → Step
unfolding is_continuation is_second
decode_four b (c ∷ d ∷ e ∷ s) =
    if is_second b c && (is_continuation d && is_continuation e)
    then (rune ((b - 0xf0) * 262144 + (c - 0x80) * 4096 + (d - 0x80) * 64 + (e - 0x80)), 3)
    else (bad b, 0)
decode_four b _ = (bad b, 0)

unfoldable pub decode : ℕ → Bytes → Step
unfolding decode_two decode_three decode_four
decode b s =
    if ltb b 0x80
    then (ascii b, 0)
    else if ltb b 0xc2
    then (bad b, 0)
    else if ltb b 0xe0
    then decode_two b s
    else if ltb b 0xf0
    then decode_three b s
    else if ltb b 0xf5
    then decode_four b s
    else (bad b, 0)

-- The pieces behind the next `k` bytes, which belong to the piece before.
unfoldable pub pieces_from : ℕ → Bytes → List Piece
unfolding decode
pieces_from k [] = []
pieces_from (suc k) (b ∷ s) = pieces_from k s
pieces_from zero (b ∷ s) = (decode b s).0 ∷ pieces_from (decode b s).1 s

unfoldable pub pieces : Bytes → List Piece
unfolding pieces_from
pieces s = pieces_from 0 s

-- `[]rune(s)`.
unfoldable pub runes : Bytes → List ℕ
unfolding pieces rune_of
runes s = map rune_of (pieces s)

-- The bytes that a piece stands for.
unfoldable pub bytes_of : Piece → Bytes
bytes_of (ascii b) = b ∷ []
bytes_of (bad b) = b ∷ []
bytes_of (rune r) =
    if ltb r 0x800
    then (0xc0 + r / 64) ∷ (0x80 + r % 64) ∷ []
    else if ltb r 0x10000
    then (0xe0 + r / 4096) ∷ (0x80 + r / 64 % 64) ∷ (0x80 + r % 64) ∷ []
    else (0xf0 + r / 262144) ∷ (0x80 + r / 4096 % 64) ∷ (0x80 + r / 64 % 64) ∷ (0x80 + r % 64) ∷ []

unfoldable pub join_pieces : List Piece → Bytes
unfolding bytes_of
join_pieces [] = []
join_pieces (p ∷ ps) = bytes_of p ++ join_pieces ps
