-- ===== src/Aws/Folding.antt =====
-- internal/parse/casefold/casefold.go, over its tables, and the readings of a condition key in
-- internal/parse/aws/condition.go that rest on it.
pub mod Cut
pub mod Names
use cloudarq.Prelude.{
  ℕ, Bool, true, false, not, ◌&&◌, ◌||◌, List, [], ◌∷◌, ◌++◌, Option, none, some, any, all, drop,
  length, leb, ◌==◌, if◌then◌else◌,
}
use cloudarq.Text.Bytes.{Bytes, codes, bytes_eq}
use cloudarq.Text.Utf8.{Piece, ascii, bad, rune, pieces, runes, rune_of, bytes_of}
use cloudarq.Eval.StringSet.Build.{◌>>=◌}
use cloudarq.Eval.Claims.{ClaimKey}
use cloudarq.Trust.Issuer.{IssuerRef, has_prefix, lower_ascii, trim_slash, https}

-- The generated tables: the runes with case variants, and the wide spellings. Both are sorted, so
-- that a binary search finds what is there.
pub record CaseTables : Type 0 where
  pub variants : List ℕ
  pub spellings : List (ℕ × Bytes)

-- `strings.Cut`: what stands before the first occurrence of `sep`, and what follows it.
unfoldable pub cut : Bytes → Bytes → Option (Bytes × Bytes)
unfolding has_prefix
cut sep [] = if has_prefix [] sep then some ([], []) else none
cut sep (b ∷ s) =
    let later = (do (before, after) ← cut sep s; some (b ∷ before, after)) in
    if has_prefix (b ∷ s) sep then some ([], drop (length sep) (b ∷ s)) else later

-- `fold`, whose body is that of `lowerASCII`.
unfoldable pub fold : Bytes → Bytes
fold s = lower_ascii s

-- `variableReference`.
unfoldable pub variable_reference : Bytes → Option Bytes
unfolding cut
variable_reference text = do
  (before, after) ← cut (codes "${") text
  elim (cut (codes "}") after) [
    | some (name, rest) ↦ some (codes "${" ++ (name ++ codes "}"))
    | none ↦ some (codes "${")
  ]

-- Its second result.
unfoldable pub holds_variable : Bytes → Bool
unfolding variable_reference
holds_variable text = elim (variable_reference text) [ none ↦ false | some reference ↦ true ]

unfoldable pub spelling_in : List (ℕ × Bytes) → ℕ → Option Bytes
spelling_in [] r = none
spelling_in ((s, text) ∷ rest) r = if s == r then some text else spelling_in rest r

-- `strings.TrimPrefix`.
unfoldable pub trim_prefix : Bytes → Bytes → Bytes
trim_prefix s p = if has_prefix s p then drop (length p) s else s

-- The loop of `MayName`: `before` is the key up to the offset.
unfoldable pub names_own_key : (Bytes → Bytes) → Bytes → Bytes → Bytes → Bytes → Bool
names_own_key spell provider wanted before [] = false
names_own_key spell provider wanted before (c ∷ rest) =
    let later = names_own_key spell provider wanted (before ++ c ∷ []) rest in
    if c == b':' && (bytes_eq (spell (trim_slash before)) provider && bytes_eq (spell rest) wanted)
    then true
    else later

module _ (tables : CaseTables) where
  -- `HasVariants`.
  unfoldable pub has_variants : ℕ → Bool
  has_variants r = any (λ v. v == r) tables.variants

  -- The switch in the loop of `Wide`.
  unfoldable pub wide_piece : Piece → Bytes
  unfolding spelling_in
  wide_piece (bad b) = b ∷ []
  wide_piece (ascii b) = elim (spelling_in tables.spellings b) [ some text ↦ text | none ↦ b ∷ [] ]
  wide_piece (rune r) = elim (spelling_in tables.spellings r) [
    | some text ↦ text
    | none ↦ bytes_of (rune r)
  ]

  unfoldable pub wide_pieces : List Piece → Bytes
  unfolding wide_piece
  wide_pieces [] = []
  wide_pieces (p ∷ ps) = wide_piece p ++ wide_pieces ps

  -- `Wide`.
  unfoldable pub wide : Bytes → Bytes
  unfolding wide_pieces
  wide s = wide_pieces (pieces s)

  -- `IntoASCII`.
  unfoldable pub into_ascii : ℕ → Bool
  unfolding spelling_in
  into_ascii r = if not (leb 0x80 r) then false else elim (spelling_in tables.spellings r) [
    | none ↦ false
    | some text ↦ not (length text == 0) && all (λ b. not (leb 0x80 b)) text
  ]

  -- `foldsBeyondASCII`.
  unfoldable pub folds_beyond_ascii : Bytes → Bool
  unfolding has_variants
  folds_beyond_ascii s = any (λ r. leb 0x80 r && has_variants r) (runes s)

  -- The folding that `MayName` compares a key by.
  unfoldable pub canon : Bytes → Bytes → Bytes
  unfolding folds_beyond_ascii
  canon key s = if folds_beyond_ascii key then wide s else fold s

  -- `MayName`.
  unfoldable pub may_name : ClaimKey → IssuerRef → ClaimKey → Bool
  unfolding names_own_key canon
  may_name key issuer claim =
      let spell = canon key in
      let wanted = spell claim in
      let provider = spell (trim_slash (trim_prefix issuer https)) in
      let own = names_own_key spell provider wanted [] key in
      if holds_variable key then true else if bytes_eq (spell key) wanted then true else own
