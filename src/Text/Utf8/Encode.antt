-- ===== src/Text/Utf8/Encode.antt =====
-- No byte is lost: the pieces of a string, put together, are the string.
use cloudarq.Prelude.{
  ℕ, zero, suc, ◌<◌, ◌≤◌, ◌≡◌, refl, ap, ◌∙◌, [], ◌∷◌, ◌++◌, arith, drop, All, ◌≢◌, map,
}
use cloudarq.Text.Bytes.{Bytes, IsBytes}
use cloudarq.Text.Utf8.{
  Piece, ascii, bad, rune, Step, decode_two, decode_three, decode_four, decode, pieces_from, pieces,
  bytes_of, join_pieces, rune_of,
}

abbrev pub IsPiece : Piece → Type 0
IsPiece (ascii b) = b < 0x80
IsPiece (bad b) = (0x80 ≤ b) × (b < 256)
IsPiece (rune r) = (0x80 ≤ r) × (r < 0x110000)

-- What a decoding step must do: the piece holds the bytes that it takes.
abbrev Takes : ℕ → Bytes → Step → Type 0
Takes b s (p, n) = (bytes_of p ++ drop n s ≡ b ∷ s)

decode_two-Takes : (b : ℕ) (s : Bytes) → 0xc2 ≤ b → b < 0xe0 → Takes b s (decode_two b s)
unfolding decode_two bytes_of
decode_two-Takes b [] h k = refl
decode_two-Takes b (c ∷ s) h k = ground arith

decode_three-Takes : (b : ℕ) (s : Bytes) → 0xe0 ≤ b → b < 0xf0 → Takes b s (decode_three b s)
unfolding decode_three bytes_of
decode_three-Takes b [] h k = refl
decode_three-Takes b (c ∷ []) h k = refl
decode_three-Takes b (c ∷ d ∷ s) h k = ground arith

decode_four-Takes : (b : ℕ) (s : Bytes) → 0xf0 ≤ b → b < 0xf5 → Takes b s (decode_four b s)
unfolding decode_four bytes_of
decode_four-Takes b [] h k = refl
decode_four-Takes b (c ∷ []) h k = refl
decode_four-Takes b (c ∷ d ∷ []) h k = refl
decode_four-Takes b (c ∷ d ∷ e ∷ s) h k = ground arith

decode-Takes : (b : ℕ) (s : Bytes) → Takes b s (decode b s)
unfolding decode bytes_of
decode-Takes b s =
    ground (arith, decode_two-Takes b s, decode_three-Takes b s, decode_four-Takes b s)

join_pieces-pieces_from : (k : ℕ) (s : Bytes) → join_pieces (pieces_from k s) ≡ drop k s
unfolding join_pieces pieces_from
join_pieces-pieces_from zero [] = refl
join_pieces-pieces_from (suc k) [] = refl
join_pieces-pieces_from (suc k) (b ∷ s) = join_pieces-pieces_from k s
join_pieces-pieces_from zero (b ∷ s) =
    ap (λ t. bytes_of (decode b s).0 ++ t) (join_pieces-pieces_from (decode b s).1 s)
    ∙ decode-Takes b s

-- The pieces of a string hold its bytes, in order and with none left out.
pub join_pieces-pieces : (s : Bytes) → join_pieces (pieces s) ≡ s
unfolding pieces
join_pieces-pieces s = join_pieces-pieces_from 0 s

decode_two-IsPiece : (b : ℕ) (s : Bytes) → 0xc2 ≤ b → b < 0xe0 → IsPiece (decode_two b s).0
unfolding decode_two
decode_two-IsPiece b [] h k = omega arith
decode_two-IsPiece b (c ∷ s) h k = ground arith

decode_three-IsPiece : (b : ℕ) (s : Bytes) → 0xe0 ≤ b → b < 0xf0 → IsPiece (decode_three b s).0
unfolding decode_three
decode_three-IsPiece b [] h k = omega arith
decode_three-IsPiece b (c ∷ []) h k = omega arith
decode_three-IsPiece b (c ∷ d ∷ s) h k = ground arith

decode_four-IsPiece : (b : ℕ) (s : Bytes) → 0xf0 ≤ b → b < 0xf5 → IsPiece (decode_four b s).0
unfolding decode_four
decode_four-IsPiece b [] h k = omega arith
decode_four-IsPiece b (c ∷ []) h k = omega arith
decode_four-IsPiece b (c ∷ d ∷ []) h k = omega arith
decode_four-IsPiece b (c ∷ d ∷ e ∷ s) h k = ground arith

decode-IsPiece : (b : ℕ) (s : Bytes) → b < 256 → IsPiece (decode b s).0
unfolding decode
decode-IsPiece b s h =
    ground (arith, decode_two-IsPiece b s, decode_three-IsPiece b s, decode_four-IsPiece b s)

pieces_from-IsPiece : (k : ℕ) (s : Bytes) → IsBytes s → All IsPiece (pieces_from k s)
unfolding pieces_from
pieces_from-IsPiece zero [] h = tt
pieces_from-IsPiece (suc k) [] h = tt
pieces_from-IsPiece (suc k) (b ∷ s) h = pieces_from-IsPiece k s h.1
pieces_from-IsPiece zero (b ∷ s) h =
    (decode-IsPiece b s h.0, pieces_from-IsPiece (decode b s).1 s h.1)

-- Each piece of a string of bytes is an ASCII byte, a byte above ASCII, or a code point above it.
pub pieces-IsPiece : (s : Bytes) → IsBytes s → All IsPiece (pieces s)
unfolding pieces
pieces-IsPiece s h = pieces_from-IsPiece 0 s h

-- A rune below 128 comes from the byte of that number alone.
pub rune_of-decode : (b c : ℕ) (s : Bytes) → b ≢ c → c < 0x80 → rune_of (decode b s).0 ≢ c
unfolding decode rune_of
rune_of-decode b c s n h =
    ground (arith, decode_two-IsPiece b s, decode_three-IsPiece b s, decode_four-IsPiece b s)

pub runes-without :
    (k c : ℕ) (s : Bytes)
    → c < 0x80
    → All (λ b. b ≢ c) s
    → All (λ r. r ≢ c) (map rune_of (pieces_from k s))
unfolding pieces_from
runes-without zero c [] h n = tt
runes-without (suc k) c [] h n = tt
runes-without (suc k) c (b ∷ s) h n = runes-without k c s h n.1
runes-without zero c (b ∷ s) h n =
    (rune_of-decode b c s n.0 h, runes-without (decode b s).1 c s h n.1)
