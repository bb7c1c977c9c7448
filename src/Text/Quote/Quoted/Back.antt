-- ===== src/Text/Quote/Quoted/Back.antt =====
-- A string that `strconv.QuoteToASCII` wrote in front of a text is read back.
use cloudarq.Prelude.{
  ℕ, zero, suc, ◌/◌, ◌%◌, ◌<◌, ◌≤◌, ◌≡◌, ◌≢◌, refl, ap, ◌∙◌, List, [], ◌∷◌, ◌++◌, append_assoc,
  arith, All, false, ◌||◌, some, ltb, ◌==◌, length, map, length-append, inl, inr, Bool-cases,
}
use cloudarq.Text.Bytes.{Bytes, IsBytes}
use cloudarq.Text.Utf8.{Piece, ascii, bad, rune, rune_of, pieces, runes, bytes_of, join_pieces}
use cloudarq.Text.Utf8.Encode.{IsPiece, pieces-IsPiece, join_pieces-pieces}
use cloudarq.Text.Utf8.Runes.{IsScalar, encode_rune, runes-IsScalar}
use cloudarq.Text.Quote.{
  quote_mark, backslash, hex_two, hex_four, escape_ascii, escape_rune, escape, escape_all, quote,
  short_escape,
}
use cloudarq.Text.Quote.Quoted.{
  hex_byte, hex_rune, letter_value, unquote_escape, unquote_char, unquote_chars, quoted,
}
use cloudarq.Text.Quote.Quoted.Hex.{
  hex_byte-two, hex_rune-four, hex_rune-eight, letter_value-short_escape,
}

encode_rune-long : (r : ℕ) → 0x80 ≤ r → IsScalar r → encode_rune r ≡ bytes_of (rune r)
unfolding encode_rune
encode_rune-long r h (inl k) = ground arith
encode_rune-long r h (inr k) = ground arith

-- A piece that can be written: its rune has an encoding.
abbrev IsWritten : Piece → Type 0
IsWritten p = IsPiece p × IsScalar (rune_of p)

char_escape :
    (c : ℕ) (s : Bytes)
    → unquote_char quote_mark (backslash ∷ c ∷ s) ≡ unquote_escape quote_mark (c ∷ s)
unfolding unquote_char
char_escape c s = refl

escape_hex : (s : Bytes) → unquote_escape quote_mark (b'x' ∷ s) ≡ hex_byte s
unfolding unquote_escape letter_value
escape_hex s = refl

escape_four : (s : Bytes) → unquote_escape quote_mark (b'u' ∷ s) ≡ hex_rune 4 s
unfolding unquote_escape letter_value
escape_four s = refl

escape_eight : (s : Bytes) → unquote_escape quote_mark (b'U' ∷ s) ≡ hex_rune 8 s
unfolding unquote_escape letter_value
escape_eight s = refl

escape_letter :
    (c b : ℕ) (s : Bytes)
    → letter_value c ≡ b
    → b ≢ 0
    → unquote_escape quote_mark (c ∷ s) ≡ some (b ∷ [], s)
unfolding unquote_escape
escape_letter c b s h k = ground arith

unquote_char-hex_two :
    (b : ℕ) (s : Bytes) → b < 256 → unquote_char quote_mark (hex_two b ++ s) ≡ some (b ∷ [], s)
unfolding hex_two
unquote_char-hex_two b s h = char_escape b'x' _ ∙ escape_hex _ ∙ hex_byte-two b s h

unquote_char-plain :
    (b : ℕ) (s : Bytes)
    → b < 128
    → b ≢ quote_mark
    → b ≢ backslash
    → unquote_char quote_mark (b ∷ s) ≡ some (b ∷ [], s)
unfolding unquote_char
unquote_char-plain b s h k l = ground arith

unquote_char-short :
    (b : ℕ) (s : Bytes)
    → short_escape b ≢ 0
    → unquote_char quote_mark (backslash ∷ short_escape b ∷ s) ≡ some (b ∷ [], s)
unquote_char-short b s h = elim (Bool-cases (b == quote_mark)) [
  | inl e ↦
      let same : b ≡ quote_mark = ground arith in
      rw same (unfold unquote_char unquote_escape letter_value short_escape in refl)
  | inr e ↦ elim (Bool-cases (b == backslash)) [
    | inl d ↦
        let same : b ≡ backslash = ground arith in
        rw same (unfold unquote_char unquote_escape letter_value short_escape in refl)
    | inr d ↦
        let (v, n) = letter_value-short_escape b h (ground arith) (ground arith) in
        char_escape (short_escape b) s ∙ escape_letter (short_escape b) b s v n
  ]
]

plain_byte : (b : ℕ) → short_escape b ≡ 0 → (b ≢ quote_mark) × (b ≢ backslash)
unfolding short_escape
plain_byte b h = ground arith

unquote_char-ascii :
    (b : ℕ) (s : Bytes) → b < 128 → unquote_char quote_mark (escape_ascii b ++ s) ≡ some (b ∷ [], s)
unfolding escape_ascii
unquote_char-ascii b s h =
    ground (
      arith,
      plain_byte b,
      unquote_char-plain b s,
      unquote_char-hex_two b s,
      unquote_char-short b s,
    )

unquote_char-rune :
    (r : ℕ) (s : Bytes)
    → 0x80 ≤ r
    → r < 0x110000
    → IsScalar r
    → unquote_char quote_mark (escape_rune r ++ s) ≡ some (bytes_of (rune r), s)
unfolding escape_rune
unquote_char-rune r s l h k = elim (Bool-cases (ltb r 0x10000)) [
  | inl e ↦ rw e (
      char_escape b'u' _
      ∙ escape_four _
      ∙ hex_rune-four r s (ground arith) k
      ∙ ap (λ x. some (x, s)) (encode_rune-long r l k))
  | inr e ↦ rw e (
      char_escape b'U' _
      ∙ escape_eight _
      ∙ ap (hex_rune 8) (append_assoc (hex_four (r / 65536)) (hex_four (r % 65536)) s)
      ∙ hex_rune-eight r s h k
      ∙ ap (λ x. some (x, s)) (encode_rune-long r l k))
]

unquote_char-escape :
    (p : Piece) (s : Bytes)
    → IsWritten p
    → unquote_char quote_mark (escape p ++ s) ≡ some (bytes_of p, s)
unfolding escape bytes_of rune_of
unquote_char-escape (ascii b) s h = unquote_char-ascii b s h.0
unquote_char-escape (bad b) s h = unquote_char-hex_two b s h.0.1
unquote_char-escape (rune r) s h = unquote_char-rune r s h.0.0 h.0.1 h.1

-- A text that starts with no closing mark and no line break, and has a byte at least.
abbrev Opens : Bytes → Type 0
Opens [] = ⊥
Opens (c ∷ s) = (c ≢ quote_mark) × (c ≢ 10)

plain-Opens : (b : ℕ) → short_escape b ≡ 0 → (ltb b 32 || b == 127) ≡ false → Opens (b ∷ [])
unfolding short_escape
plain-Opens b h k = (ground arith, ground arith)

escape_ascii-Opens : (b : ℕ) → Opens (escape_ascii b)
unfolding escape_ascii hex_two
escape_ascii-Opens b = elim (Bool-cases (short_escape b == 0)) [
  | inl e ↦ elim (Bool-cases (ltb b 32 || b == 127)) [
    | inl x ↦ rw (e, x) (omega arith, omega arith)
    | inr x ↦ rw (e, x) (plain-Opens b (ground arith) x)
  ]
  | inr e ↦ rw e (omega arith, omega arith)
]

escape_rune-Opens : (r : ℕ) → Opens (escape_rune r)
unfolding escape_rune
escape_rune-Opens r = elim (Bool-cases (ltb r 0x10000)) [
  | inl e ↦ rw e (omega arith, omega arith)
  | inr e ↦ rw e (omega arith, omega arith)
]

escape-Opens : (p : Piece) → Opens (escape p)
unfolding escape hex_two
escape-Opens (ascii b) = escape_ascii-Opens b
escape-Opens (bad b) = (omega arith, omega arith)
escape-Opens (rune r) = escape_rune-Opens r

unquote_chars-step :
    (fuel : ℕ) (esc here s text behind : Bytes)
    → Opens esc
    → unquote_char quote_mark (esc ++ s) ≡ some (here, s)
    → unquote_chars fuel s ≡ some (text, behind)
    → unquote_chars (suc fuel) (esc ++ s) ≡ some (here ++ text, behind)
unfolding unquote_chars
unquote_chars-step fuel [] here s text behind h e k = absurd h
unquote_chars-step fuel (c ∷ esc) here s text behind h e k =
    let open_c : (c == quote_mark) ≡ false = ground arith in
    let no_break : (c == 10) ≡ false = ground arith in rw (open_c, no_break, e, k) refl

-- More fuel than is needed changes nothing that was read.
unquote_chars-escape_all :
    (ps : List Piece) (fuel : ℕ) (s : Bytes)
    → All IsWritten ps
    → length ps < fuel
    → unquote_chars fuel (escape_all ps ++ (quote_mark ∷ s)) ≡ some (join_pieces ps, s)
unfolding escape_all join_pieces
unquote_chars-escape_all ps zero s h l = absurd (omega arith)
unquote_chars-escape_all [] (suc fuel) s h l = unfold unquote_chars in refl
unquote_chars-escape_all (p ∷ ps) (suc fuel) s h l =
    let rest : Bytes = escape_all ps ++ (quote_mark ∷ s) in
    ap (unquote_chars (suc fuel)) (append_assoc (escape p) (escape_all ps) (quote_mark ∷ s))
    ∙ unquote_chars-step fuel (escape p) (bytes_of p) rest (join_pieces ps) s (escape-Opens p)
        (unquote_char-escape p rest h.0) (unquote_chars-escape_all ps fuel s h.1 (omega arith))

Opens-length : (s : Bytes) → Opens s → 1 ≤ length s
Opens-length [] h = absurd h
Opens-length (c ∷ s) h = omega arith

length-escape_all : (ps : List Piece) → length ps ≤ length (escape_all ps)
unfolding escape_all
length-escape_all [] = omega arith
length-escape_all (p ∷ ps) = omega (
  arith,
  length-escape_all ps,
  length-append (escape p) (escape_all ps),
  Opens-length (escape p) (escape-Opens p),
)

written : (ps : List Piece) → All IsPiece ps → All IsScalar (map rune_of ps) → All IsWritten ps
written [] h k = tt
written (p ∷ ps) h k = ((h.0, k.0), written ps h.1 k.1)

pieces-IsWritten : (s : Bytes) → IsBytes s → All IsWritten (pieces s)
pieces-IsWritten s h = written (pieces s) (pieces-IsPiece s h) (unfold runes in runes-IsScalar s)

-- A quoted string is read back from the front of any text, and what follows it is left.
pub quoted-quote : (s rest : Bytes) → IsBytes s → quoted (quote s ++ rest) ≡ some (s, rest)
unfolding quote quoted
quoted-quote s rest h =
    let ps : List Piece = pieces s in
    let close : (escape_all ps ++ quote_mark ∷ []) ++ rest ≡ escape_all ps ++ (quote_mark ∷ rest) =
      append_assoc (escape_all ps) (quote_mark ∷ []) rest in
    let room : length ps < length (escape_all ps ++ (quote_mark ∷ rest)) =
      omega (arith, length-escape_all ps, length-append (escape_all ps) (quote_mark ∷ rest)) in
    rw close (
      unquote_chars-escape_all ps _ rest (pieces-IsWritten s h) room
      ∙ ap (λ t. some (t, rest)) (join_pieces-pieces s))
