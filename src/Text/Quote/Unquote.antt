-- ===== src/Text/Quote/Unquote.antt =====
-- Reading a quoted string back: quoting is injective, and a quoted string shows where it ends.
use cloudarq.Prelude.{
  ◌≢◌, append_assoc, ℕ, ◌+◌, ◌-◌, ◌*◌, ◌/◌, ◌%◌, ◌<◌, ◌≡◌, refl, ap, ◌∙◌, sym, List, [], ◌∷◌, ◌++◌,
  arith, All, Option, some, none, ltb, ◌==◌, if◌then◌else◌,
}
use cloudarq.Text.Bytes.{Bytes, IsBytes}
use cloudarq.Text.Utf8.{Piece, ascii, bad, rune, pieces, join_pieces}
use cloudarq.Text.Utf8.Encode.{IsPiece, pieces-IsPiece, join_pieces-pieces}
use cloudarq.Text.Quote.{
  quote_mark, backslash, hex, hex_two, hex_four, escape_ascii, escape_rune, escape, escape_all,
  quote, short_escape,
}

unhex : ℕ → ℕ
unhex c = if ltb c 87 then c - 48 else c - 87

unhex-hex : (d : ℕ) → d < 16 → unhex (hex d) ≡ d
unfolding unhex hex
unhex-hex d h = ground arith

abbrev Read : Type 0
Read = Option (Piece × Bytes)

read_two : Bytes → Read
read_two (a ∷ b ∷ s) =
    let v = unhex a * 16 + unhex b in if ltb v 128 then some (ascii v, s) else some (bad v, s)
read_two _ = none

four : ℕ → ℕ → ℕ → ℕ → ℕ
four a b c d = unhex a * 4096 + unhex b * 256 + unhex c * 16 + unhex d

read_four : Bytes → Read
read_four (a ∷ b ∷ c ∷ d ∷ s) = some (rune (four a b c d), s)
read_four _ = none

read_eight : Bytes → Read
read_eight (a ∷ b ∷ c ∷ d ∷ e ∷ f ∷ g ∷ h ∷ s) =
    some (rune (four a b c d * 65536 + four e f g h), s)
read_eight _ = none

unshort : ℕ → ℕ
unshort c =
    if c == b'a'
    then 7
    else if c == b'b'
    then 8
    else if c == b't'
    then 9
    else if c == b'n'
    then 10
    else if c == b'v'
    then 11
    else if c == b'f'
    then 12
    else if c == b'r'
    then 13
    else c

read_escape : Bytes → Read
read_escape [] = none
read_escape (c ∷ s) =
    if c == b'x'
    then read_two s
    else if c == b'u'
    then read_four s
    else if c == b'U'
    then read_eight s
    else some (ascii (unshort c), s)

-- The piece at the head of an escaped text, and what is left.
read : Bytes → Read
read [] = none
read (c ∷ s) = if c == backslash then read_escape s else some (ascii c, s)

four-hex-four :
    (r : ℕ)
    → r < 65536
    → four (hex (r / 4096 % 16)) (hex (r / 256 % 16)) (hex (r / 16 % 16)) (hex (r % 16)) ≡ r
unfolding four
four-hex-four r h =
    rw
      (
        unhex-hex (r / 4096 % 16) (omega arith),
        unhex-hex (r / 256 % 16) (omega arith),
        unhex-hex (r / 16 % 16) (omega arith),
        unhex-hex (r % 16) (omega arith),
      )
      (omega arith)

read-hex_two :
    (b : ℕ) (s : Bytes)
    → b < 256
    → read (hex_two b ++ s) ≡ (if ltb b 128 then some (ascii b, s) else some (bad b, s))
unfolding read read_escape read_two hex_two
read-hex_two b s h =
    rw (unhex-hex (b / 16) (omega arith), unhex-hex (b % 16) (omega arith))
      (let e : b / 16 * 16 + b % 16 ≡ b = omega arith in rw e refl)

-- A letter that escapes a byte stands for that byte, and opens no numeral.
unshort-short_escape :
    (b : ℕ)
    → short_escape b ≢ 0
    → (unshort (short_escape b) ≡ b)
      × (short_escape b ≢ b'x')
      × (short_escape b ≢ b'u')
      × (short_escape b ≢ b'U')
unfolding short_escape unshort
unshort-short_escape b h = ground arith

short_escape_none : (b : ℕ) → short_escape b ≡ 0 → b ≢ backslash
unfolding short_escape
short_escape_none b h = ground arith

read-short :
    (c : ℕ) (s : Bytes)
    → c ≢ b'x'
    → c ≢ b'u'
    → c ≢ b'U'
    → read (backslash ∷ c ∷ s) ≡ some (ascii (unshort c), s)
unfolding read read_escape
read-short c s h k l = ground arith

read-plain : (c : ℕ) (s : Bytes) → c ≢ backslash → read (c ∷ s) ≡ some (ascii c, s)
unfolding read
read-plain c s h = ground arith

read-ascii : (b : ℕ) (s : Bytes) → b < 128 → read (escape_ascii b ++ s) ≡ some (ascii b, s)
unfolding escape_ascii
read-ascii b s h = ground (
  arith,
  read-hex_two b s,
  read-plain b s,
  short_escape_none b,
  unshort-short_escape b,
  read-short (short_escape b) s,
)

read-four : (r : ℕ) (s : Bytes) → r < 65536 → read_four (hex_four r ++ s) ≡ some (rune r, s)
unfolding read_four hex_four
read-four r s h = ap (λ v. some (rune v, s)) (four-hex-four r h)

read-eight :
    (r : ℕ) (s : Bytes)
    → r < 0x110000
    → read_eight (hex_four (r / 65536) ++ hex_four (r % 65536) ++ s) ≡ some (rune r, s)
unfolding read_eight hex_four
read-eight r s h =
    rw (four-hex-four (r / 65536) (omega arith), four-hex-four (r % 65536) (omega arith))
      (let e : r / 65536 * 65536 + r % 65536 ≡ r = omega arith in rw e refl)

read-rune : (r : ℕ) (s : Bytes) → r < 0x110000 → read (escape_rune r ++ s) ≡ some (rune r, s)
unfolding escape_rune read read_escape
read-rune r s h = ground (
  arith,
  read-four r s,
  read-eight r s,
  append_assoc (hex_four (r / 65536)) (hex_four (r % 65536)) s,
)

read-escape : (p : Piece) (s : Bytes) → IsPiece p → read (escape p ++ s) ≡ some (p, s)
unfolding escape
read-escape (ascii b) s h = read-ascii b s h
read-escape (bad b) s h = ground (arith, read-hex_two b s)
read-escape (rune r) s h = read-rune r s h.1

short_escape_mark : (b : ℕ) → short_escape b ≡ 0 → b ≢ quote_mark
unfolding short_escape
short_escape_mark b h = ground arith

-- No escaped piece begins with the closing mark.
escape-ne-mark : (p : Piece) (s t : Bytes) → escape p ++ s ≢ quote_mark ∷ t
unfolding escape_ascii escape_rune hex_two escape
escape-ne-mark (ascii b) s t e = ground (arith, short_escape_mark b)
escape-ne-mark (bad b) s t e = ground arith
escape-ne-mark (rune r) s t e = ground arith

escape_all-injective :
    (ps qs : List Piece) (s t : Bytes)
    → All IsPiece ps
    → All IsPiece qs
    → escape_all ps ++ (quote_mark ∷ s) ≡ escape_all qs ++ (quote_mark ∷ t)
    → (ps ≡ qs) × (s ≡ t)
unfolding escape_all
escape_all-injective [] [] s t h k e = ground arith
escape_all-injective [] (q ∷ qs) s t h k e = absurd (
    escape-ne-mark q (escape_all qs ++ (quote_mark ∷ t)) s
      (sym (append_assoc (escape q) (escape_all qs) (quote_mark ∷ t)) ∙ sym e))
escape_all-injective (p ∷ ps) [] s t h k e = absurd (
    escape-ne-mark p (escape_all ps ++ (quote_mark ∷ s)) t
      (sym (append_assoc (escape p) (escape_all ps) (quote_mark ∷ s)) ∙ e))
escape_all-injective (p ∷ ps) (q ∷ qs) s t h k e =
    let rest_p : Bytes = escape_all ps ++ (quote_mark ∷ s) in
    let rest_q : Bytes = escape_all qs ++ (quote_mark ∷ t) in
    let same : escape p ++ rest_p ≡ escape q ++ rest_q =
      sym (append_assoc (escape p) (escape_all ps) (quote_mark ∷ s))
      ∙ e
      ∙ append_assoc (escape q) (escape_all qs) (quote_mark ∷ t) in
    let both : some (p, rest_p) ≡ some (q, rest_q) =
      sym (read-escape p rest_p h.0) ∙ ap read same ∙ read-escape q rest_q k.0 in
    let (pieces_same, end_same) = escape_all-injective ps qs s t h.1 k.1 (cc both) in
    (cc (both, pieces_same), end_same)

-- A quoted string shows what was quoted and where it ends, whatever bytes follow it.
pub quote-injective :
    (a b s t : Bytes) → IsBytes a → IsBytes b → quote a ++ s ≡ quote b ++ t → (a ≡ b) × (s ≡ t)
unfolding quote
quote-injective a b s t h k e =
    let close : (c u : Bytes)
        → (escape_all (pieces c) ++ quote_mark ∷ []) ++ u
          ≡ escape_all (pieces c) ++ (quote_mark ∷ u) =
      λ c u. append_assoc (escape_all (pieces c)) (quote_mark ∷ []) u in
    let inner : (escape_all (pieces a) ++ quote_mark ∷ []) ++ s
        ≡ (escape_all (pieces b) ++ quote_mark ∷ []) ++ t =
      cc e in
    let (same, rest) =
      escape_all-injective (pieces a) (pieces b) s t (pieces-IsPiece a h) (pieces-IsPiece b k)
        (sym (close a s) ∙ inner ∙ close b t) in
    (sym (join_pieces-pieces a) ∙ ap join_pieces same ∙ join_pieces-pieces b, rest)
