-- ===== src/Trust/Issuer.antt =====
-- internal/trust/normalise.go: the canonical name of a claim and of an issuer.
use cloudarq.Prelude.{
  ℕ, ◌+◌, Bool, true, false, ◌&&◌, ◌||◌, List, [], ◌∷◌, ◌++◌, Option, none, some, any, length, drop,
  leb, ◌==◌, if◌then◌else◌,
}
use cloudarq.Text.Bytes.{Bytes, codes, bytes_eq}
use cloudarq.Text.Utf8.{Piece, ascii, bad, rune, pieces, runes, bytes_of, rune_error}
use cloudarq.Eval.Claims.{ClaimKey}

abbrev pub IssuerRef : Type 0
IssuerRef = Bytes

within : ℕ → ℕ → ℕ → Bool
within low high r = leb low r && leb r high

-- `unicode.IsSpace`.
unfoldable pub is_space : ℕ → Bool
unfolding within
is_space r =
    within 0x09 0x0d r
    || (r == 0x20
        || (r == 0x85
            || (r == 0xa0
                || (r == 0x1680
                    || (within 0x2000 0x200a r
                        || (within 0x2028 0x2029 r
                            || (r == 0x202f || (r == 0x205f || r == 0x3000))))))))

-- `Claim`.
unfoldable pub claim_key : Bytes → Option ClaimKey
unfolding is_space
claim_key name = if bytes_eq name [] || any is_space (runes name) then none else some name

abbrev pub scheme_end : Bytes
scheme_end = codes "://"

unfoldable pub has_prefix : Bytes → Bytes → Bool
has_prefix s [] = true
has_prefix [] (c ∷ p) = false
has_prefix (b ∷ s) (c ∷ p) = b == c && has_prefix s p

-- What follows the first occurrence of `sep` in `s`.
unfoldable pub after_first : Bytes → Bytes → Option Bytes
unfolding has_prefix
after_first sep [] = if has_prefix [] sep then some [] else none
after_first sep (b ∷ s) =
    let rest = after_first sep s in
    if has_prefix (b ∷ s) sep then some (drop (length sep) (b ∷ s)) else rest

unfoldable pub strip_scheme : Bytes → Bytes
unfolding after_first
strip_scheme raw = elim (after_first scheme_end raw) [ none ↦ raw | some rest ↦ rest ]

abbrev pub slash : ℕ
slash = 47

-- `strings.Cut(s, "/")` without its third result.
unfoldable pub cut_slash : Bytes → Bytes × Bytes
cut_slash [] = ([], [])
cut_slash (b ∷ s) =
    let (host, path) = cut_slash s in if b == slash then ([], s) else (b ∷ host, path)

unfoldable pub ends_in_slash : Bytes → Bool
ends_in_slash [] = false
ends_in_slash (b ∷ []) = b == slash
ends_in_slash (b ∷ c ∷ s) = ends_in_slash (c ∷ s)

-- `strings.TrimSuffix(s, "/")`.
unfoldable pub trim_slash : Bytes → Bytes
trim_slash [] = []
trim_slash (b ∷ []) = if b == slash then [] else b ∷ []
trim_slash (b ∷ c ∷ s) = b ∷ trim_slash (c ∷ s)

unfoldable pub lower_rune : ℕ → ℕ
lower_rune r = if leb 65 r && leb r 90 then r + 32 else r

-- `strings.Map` writes U+FFFD for a byte that is not valid UTF-8.
unfoldable pub lower_piece : Piece → Bytes
unfolding lower_rune
lower_piece (ascii b) = lower_rune b ∷ []
lower_piece (bad b) = bytes_of (rune rune_error)
lower_piece (rune r) = bytes_of (rune (lower_rune r))

unfoldable pub lower_pieces : List Piece → Bytes
unfolding lower_piece
lower_pieces [] = []
lower_pieces (p ∷ ps) = lower_piece p ++ lower_pieces ps

-- `lowerASCII`.
unfoldable pub lower_ascii : Bytes → Bytes
unfolding lower_pieces
lower_ascii s = lower_pieces (pieces s)

abbrev pub https : Bytes
https = codes "https://"

unfoldable pub with_slash : Bytes → Bytes
with_slash [] = []
with_slash (b ∷ path) = slash ∷ b ∷ path

-- `NormaliseIssuer`: `none` where there is no host.
unfoldable pub normalise_issuer : Bytes → Option IssuerRef
unfolding strip_scheme cut_slash trim_slash lower_ascii with_slash
normalise_issuer raw =
    let (host, path) = cut_slash (strip_scheme raw) in
    if bytes_eq host []
    then none
    else some (https ++ (lower_ascii host ++ with_slash (trim_slash path)))
