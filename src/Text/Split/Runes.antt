-- ===== src/Text/Split/Runes.antt =====
-- Splitting bytes at an ASCII separator splits the runes at it: no encoding spans a separator.
use cloudarq.Prelude.{
  ℕ, zero, suc, ◌≤◌, ◌≡◌, ◌≢◌, refl, ap, inl, inr, List, [], ◌∷◌, ◌++◌, map, arith, length, ◌==◌,
  Bool-cases, true, All,
}
use cloudarq.Text.Bytes.{Bytes}
use cloudarq.Text.Utf8.Encode.{runes-without}
use cloudarq.Text.Utf8.{rune_of, decode, pieces_from, pieces, runes}
use cloudarq.Text.Split.{split}

abbrev pub star : ℕ
star = 42

-- The runes of the parts of a split, with the separator before each part but the first.
abbrev pub join_rest : List (List ℕ) → List ℕ
join_rest [] = []
join_rest (s ∷ ss) = star ∷ (s ++ join_rest ss)

decode-split :
    (b : ℕ) (s : Bytes)
    → (decode b s ≡ decode b (split star s).0) × ((decode b s).1 ≤ length (split star s).0)
unfolding decode split
decode-split b [] = ground arith
decode-split b (c ∷ []) = ground arith
decode-split b (c ∷ d ∷ []) = ground arith
decode-split b (c ∷ d ∷ e ∷ s) = ground arith

abbrev RunesSplit : ℕ → Bytes → Type 0
RunesSplit k s =
    map rune_of (pieces_from k s)
    ≡ map rune_of (pieces_from k (split star s).0) ++ join_rest (map runes (split star s).1)

pieces_from-separator :
    (b : ℕ) (s : Bytes) → (b == star) ≡ true → RunesSplit 0 s → RunesSplit 0 (b ∷ s)
unfolding decode pieces_from runes split
pieces_from-separator b s h ih = let e : b ≡ 42 = ground arith in rw (h, e) (ap (λ t. star ∷ t) ih)

pieces_from-split : (k : ℕ) (s : Bytes) → k ≤ length (split star s).0 → RunesSplit k s
unfolding pieces_from split
pieces_from-split zero [] h = refl
pieces_from-split (suc k) [] h = absurd (omega arith)
pieces_from-split zero (b ∷ s) h = elim (Bool-cases (b == star)) [
  | inl e ↦ pieces_from-separator b s e (pieces_from-split zero s (omega arith))
  | inr e ↦
      let (same, short) = decode-split b s in
      let ih = pieces_from-split (decode b s).1 s short in
      rw e (rw (← same) (ap (λ t. rune_of (decode b s).0 ∷ t) ih))
]
pieces_from-split (suc k) (b ∷ s) h = elim (Bool-cases (b == star)) [
  | inl e ↦ let none_left : suc k ≤ 0 = rw e at h in absurd (omega arith)
  | inr e ↦ rw e (pieces_from-split k s (ground arith))
]

-- The runes of a pattern are those of its parts, with a star between each two.
pub runes-split :
    (s : Bytes) → runes s ≡ runes (split star s).0 ++ join_rest (map runes (split star s).1)
unfolding runes pieces
runes-split s = pieces_from-split 0 s (omega arith)

abbrev pub NoStar : List ℕ → Type 0
NoStar s = All (λ c. c ≢ star) s

split-NoStar : (s : Bytes) → NoStar (split star s).0 × All NoStar (split star s).1
unfolding split
split-NoStar [] = (tt, tt)
split-NoStar (b ∷ s) = elim (Bool-cases (b == star)) [
  | inl e ↦ rw e (tt, split-NoStar s)
  | inr e ↦ rw e ((ground arith, (split-NoStar s).0), (split-NoStar s).1)
]

runes-NoStar : (s : Bytes) → NoStar s → NoStar (runes s)
unfolding runes pieces
runes-NoStar s h = runes-without 0 star s (omega arith) h

map-runes-NoStar : (ss : List Bytes) → All NoStar ss → All NoStar (map runes ss)
map-runes-NoStar [] h = tt
map-runes-NoStar (s ∷ ss) h = (runes-NoStar s h.0, map-runes-NoStar ss h.1)

-- No segment holds a star.
pub segments-NoStar :
    (s : Bytes) → NoStar (runes (split star s).0) × All NoStar (map runes (split star s).1)
segments-NoStar s = (
  runes-NoStar (split star s).0 (split-NoStar s).0,
  map-runes-NoStar (split star s).1 (split-NoStar s).1,
)
