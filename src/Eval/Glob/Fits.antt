-- ===== src/Eval/Glob/Fits.antt =====
-- What a StringLike pattern matches, with no search in it, and the same read off its segments.
use cloudarq.Prelude.{ℕ, suc, ◌≡◌, ◌≢◌, refl, ap, ◌∙◌, ◌⊎◌, ◌↔◌, List, [], ◌∷◌, ◌++◌, length, All}
use cloudarq.Text.Split.Runes.{star, join_rest, NoStar}
use cloudarq.Eval.Glob.{Runes, any_rune}

-- A star stands for any run of runes, `?` for exactly one, and all else for itself.
pub data Fits : Runes → Runes → Type 0 where
  nothing : Fits [] []
  any_run :
      {c : ℕ} {p v w : Runes} (gap : Runes) → c ≡ star → w ≡ gap ++ v → Fits p v → Fits (c ∷ p) w
  single :
      {c r : ℕ} {p v : Runes}
      → c ≢ star
      → (c ≡ any_rune) ⊎ (c ≡ r)
      → Fits p v
      → Fits (c ∷ p) (r ∷ v)

-- A segment and the runes that it takes.
abbrev pub Agree : Runes → Runes → Type 0
Agree [] [] = Unit
Agree (c ∷ s) (r ∷ w) = ((c ≡ any_rune) ⊎ (c ≡ r)) × Agree s w
Agree _ _ = ⊥

-- Each of the segments behind the first stands somewhere behind the one before it.
abbrev pub RestFits : List Runes → Runes → Type 0
RestFits [] w = w ≡ []
RestFits (s ∷ ss) w =
    (gap : Runes) × (here : Runes) × (after : Runes) × (w ≡ gap ++ (here ++ after))
    × Agree s here
    × RestFits ss after

abbrev pub SegmentsFit : Runes → List Runes → Runes → Type 0
SegmentsFit s ss w =
    (here : Runes) × (after : Runes) × (w ≡ here ++ after) × Agree s here × RestFits ss after

pub Agree-length : (s w : Runes) → Agree s w → length s ≡ length w
Agree-length [] [] h = refl
Agree-length [] (r ∷ w) h = absurd h
Agree-length (c ∷ s) [] h = absurd h
Agree-length (c ∷ s) (r ∷ w) h = ap suc (Agree-length s w h.1)

Fits→SegmentsFit :
    (ss : List Runes) (s w : Runes)
    → NoStar s
    → All NoStar ss
    → Fits (s ++ join_rest ss) w
    → SegmentsFit s ss w
Fits→SegmentsFit ss (c ∷ s) (r ∷ w) h k (single n e f) =
    let (here, after, split, agree, rest) = Fits→SegmentsFit ss s w h.1 k f in
    (r ∷ here, after, ap (◌∷◌ r) split, (e, agree), rest)
Fits→SegmentsFit ss (c ∷ s) w h k (any_run gap e _ f) = absurd (h.0 e)
Fits→SegmentsFit [] [] _ h k nothing = ([], [], refl, tt, refl)
Fits→SegmentsFit (s ∷ ss) [] w h k (any_run gap _ e f) =
    let (here, after, split, agree, rest) = Fits→SegmentsFit ss s _ k.0 k.1 f in
    ([], w, refl, tt, (gap, here, after, e ∙ ap (λ t. gap ++ t) split, agree, rest))
Fits→SegmentsFit (s ∷ ss) [] w h k (single n e f) = absurd (n refl)

Agree-Fits :
    (s p here after : Runes)
    → NoStar s
    → Agree s here
    → Fits p after
    → Fits (s ++ p) (here ++ after)
Agree-Fits [] p [] after n h f = f
Agree-Fits [] p (r ∷ here) after n h f = absurd h
Agree-Fits (c ∷ s) p [] after n h f = absurd h
Agree-Fits (c ∷ s) p (r ∷ here) after n h f = single n.0 h.0 (Agree-Fits s p here after n.1 h.1 f)

RestFits→Fits :
    (ss : List Runes) (w : Runes) → All NoStar ss → RestFits ss w → Fits (join_rest ss) w
RestFits→Fits [] w h e = rw e nothing
RestFits→Fits (s ∷ ss) w h (gap, here, after, e, agree, rest) =
    any_run gap refl e
      (Agree-Fits s (join_rest ss) here after h.0 agree (RestFits→Fits ss after h.1 rest))

-- The pattern fits exactly where its segments do.
pub Fits-iff_SegmentsFit :
    (s : Runes) (ss : List Runes) (w : Runes)
    → NoStar s
    → All NoStar ss
    → Fits (s ++ join_rest ss) w ↔ SegmentsFit s ss w
Fits-iff_SegmentsFit s ss w h k = (
  Fits→SegmentsFit ss s w h k,
  λ (here, after, e, agree, rest).
      rw e (Agree-Fits s (join_rest ss) here after h agree (RestFits→Fits ss after k rest)),
)
