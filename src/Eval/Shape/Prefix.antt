-- ===== src/Eval/Shape/Prefix.antt =====
-- Every value that a pattern admits begins with the pattern's literal prefix.
use cloudarq.Prelude.{
  ℕ, suc, ◌+◌, ◌≡◌, ◌≢◌, refl, ap, ap₂, ◌∙◌, sym, inl, inr, true, false, List, [], ◌∷◌, ◌++◌, All,
  arith, map, length, if◌then◌else◌, Bool-cases, append_assoc, subst,
}
use cloudarq.Text.Bytes.{Bytes, IsBytes}
use cloudarq.Text.Utf8.{
  Piece, ascii, bad, rune, pieces, runes, rune_of, rune_error, bytes_of, join_pieces,
}
use cloudarq.Text.Utf8.Encode.{IsPiece, pieces-IsPiece, join_pieces-pieces}
use cloudarq.Eval.Glob.Fits.{Fits, any_run, single}
use cloudarq.Eval.Glob.{glob_contains, glob_node}
use cloudarq.Eval.Glob.Correct.{glob_contains_iff}
use cloudarq.Eval.StringSet.{contains, glob}
use cloudarq.Eval.StringSet.Pattern.{has_meta, contains-glob_iff, contains-glob_literal}
use cloudarq.Eval.Shape.{ends_literal, literal_width, take, literal_prefix}

-- The pieces in front of the first that does not stand for itself.
literal_pieces : List Piece → List Piece
literal_pieces [] = []
literal_pieces (p ∷ ps) = if ends_literal (rune_of p) then [] else p ∷ literal_pieces ps

take-append : (s t : Bytes) (n : ℕ) → take (length s + n) (s ++ t) ≡ s ++ take n t
take-append [] t n = let e : 0 + n ≡ n = omega arith in rw e
take-append (b ∷ s) t n =
    let e : suc (length s) + n ≡ suc (length s + n) = omega arith in
    rw e (ap (◌∷◌ b) (take-append s t n))

take-literal_width :
    (ps : List Piece) → take (literal_width ps) (join_pieces ps) ≡ join_pieces (literal_pieces ps)
unfolding literal_width join_pieces literal_pieces
take-literal_width [] = refl
take-literal_width (p ∷ ps) = elim (Bool-cases (ends_literal (rune_of p))) [
  | inl e ↦ rw e
  | inr e ↦ rw e (
      take-append (bytes_of p) (join_pieces ps) (literal_width ps)
      ∙ ap (λ t. bytes_of p ++ t) (take-literal_width ps))
]

literal_prefix-pieces : (p : Bytes) → literal_prefix p ≡ join_pieces (literal_pieces (pieces p))
unfolding literal_prefix
literal_prefix-pieces p =
    ap (take (literal_width (pieces p))) (sym (join_pieces-pieces p))
    ∙ take-literal_width (pieces p)

-- A rune other than U+FFFD comes from one piece.
rune_of-injective :
    (p q : Piece) → IsPiece p → IsPiece q → rune_of p ≢ rune_error → rune_of p ≡ rune_of q → p ≡ q
unfolding rune_of
rune_of-injective (ascii b) (ascii c) h k n e = ap ascii e
rune_of-injective (rune r) (rune s) h k n e = ap rune e
rune_of-injective (ascii b) (bad c) h k n e = absurd (omega arith)
rune_of-injective (ascii b) (rune r) h k n e = absurd (omega arith)
rune_of-injective (bad b) q h k n e = absurd (n refl)
rune_of-injective (rune r) (ascii b) h k n e = absurd (omega arith)
rune_of-injective (rune r) (bad b) h k n e = absurd (n e)

-- A literal rune of a pattern stands for itself alone.
literal_step :
    (r : ℕ) (p w : List ℕ)
    → ends_literal r ≡ false
    → Fits (r ∷ p) w
    → (v : List ℕ) × (w ≡ r ∷ v) × Fits p v
unfolding ends_literal
literal_step r p w h (any_run gap e _ f) = absurd (ground arith)
literal_step r p w h (single {v} n e f) =
    (v, (elim e [ inl q ↦ absurd (ground arith) | inr q ↦ ap (λ c. c ∷ v) (sym q) ]), f)

not_error : (r : ℕ) → ends_literal r ≡ false → r ≢ rune_error
unfolding ends_literal
not_error r h = ground arith

split_literal :
    (ps : List Piece) → (rest : Bytes) × (join_pieces ps ≡ join_pieces (literal_pieces ps) ++ rest)
unfolding literal_pieces join_pieces
split_literal [] = ([], refl)
split_literal (p ∷ ps) = elim (Bool-cases (ends_literal (rune_of p))) [
  | inl e ↦ rw e (join_pieces (p ∷ ps), refl)
  | inr e ↦
      let (rest, joined) = split_literal ps in
      rw e (
        rest,
        ap (λ t. bytes_of p ++ t) joined
            ∙ sym (append_assoc (bytes_of p) (join_pieces (literal_pieces ps)) rest),
      )
]

prefix_of_Fits :
    (ps qs : List Piece)
    → All IsPiece ps
    → All IsPiece qs
    → Fits (map rune_of ps) (map rune_of qs)
    → (rest : Bytes) × (join_pieces qs ≡ join_pieces (literal_pieces ps) ++ rest)
unfolding literal_pieces join_pieces
prefix_of_Fits [] qs h k f = (join_pieces qs, refl)
prefix_of_Fits (p ∷ ps) [] h k f = elim (Bool-cases (ends_literal (rune_of p))) [
  | inl e ↦ rw e ([], refl)
  | inr e ↦
      absurd (let (v, split, _) = literal_step (rune_of p) (map rune_of ps) [] e f in ground arith)
]
prefix_of_Fits (p ∷ ps) (q ∷ qs) h k f = elim (Bool-cases (ends_literal (rune_of p))) [
  | inl e ↦ rw e (join_pieces (q ∷ qs), refl)
  | inr e ↦
      let (v, split, fits) = literal_step (rune_of p) (map rune_of ps) (map rune_of (q ∷ qs)) e f in
      let same = rune_of-injective p q h.0 k.0 (not_error (rune_of p) e) (cc split) in
      let onward : map rune_of qs ≡ v = cc split in
      let (rest, joined) =
        prefix_of_Fits ps qs h.1 k.1 (subst (Fits (map rune_of ps)) (sym onward) fits) in
      rw e (
        rest,
        ap₂ (λ x t. bytes_of x ++ t) (sym same) joined
            ∙ sym (append_assoc (bytes_of p) (join_pieces (literal_pieces ps)) rest),
      )
]

prefix_of_same : (s : Bytes) → (rest : Bytes) × (s ≡ literal_prefix s ++ rest)
prefix_of_same s =
    let (rest, e) = split_literal (pieces s) in
    (rest, sym (join_pieces-pieces s) ∙ e ∙ ap (λ t. t ++ rest) (sym (literal_prefix-pieces s)))

-- Every value that a glob node admits begins with the literal prefix of its pattern.
pub literal_prefix-node :
    (p v : Bytes)
    → IsBytes p
    → IsBytes v
    → glob_contains (glob_node p) v ≡ true
    → (rest : Bytes) × (v ≡ literal_prefix p ++ rest)
literal_prefix-node p v h k c =
    let (rest, e) =
      prefix_of_Fits (pieces p) (pieces v) (pieces-IsPiece p h) (pieces-IsPiece v k)
        (unfold runes in (glob_contains_iff p v).0 c) in
    (rest, sym (join_pieces-pieces v) ∙ e ∙ ap (λ t. t ++ rest) (sym (literal_prefix-pieces p)))

-- Every string of bytes in the set that `Glob` builds of a pattern of bytes begins with the
-- pattern's literal prefix.
pub literal_prefix-IsPrefix :
    (p v : Bytes)
    → IsBytes p
    → IsBytes v
    → contains (glob p) v ≡ true
    → (rest : Bytes) × (v ≡ literal_prefix p ++ rest)
literal_prefix-IsPrefix p v h k c = elim (Bool-cases (has_meta p)) [
  | inl m ↦
      let fits = (contains-glob_iff p v m).0 c in
      let (rest, e) =
        prefix_of_Fits (pieces p) (pieces v) (pieces-IsPiece p h) (pieces-IsPiece v k)
          (unfold runes in fits) in
      (rest, sym (join_pieces-pieces v) ∙ e ∙ ap (λ t. t ++ rest) (sym (literal_prefix-pieces p)))
  | inr m ↦
      let same = contains-glob_literal p v m c in
      let (rest, e) = prefix_of_same p in (rest, same ∙ e)
]
