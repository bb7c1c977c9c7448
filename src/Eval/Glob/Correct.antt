-- ===== src/Eval/Glob/Correct.antt =====
-- The matcher of globs decides `Fits`: it answers true exactly on the values of the pattern.
use cloudarq.Prelude.{
  ℕ, zero, suc, ◌+◌, ◌-◌, ◌≤◌, ◌≡◌, refl, ap, ◌∙◌, sym, true, ◌&&◌, ◌↔◌, List, [], ◌∷◌, ◌++◌, arith,
  length, drop, ◌==◌, subst, map, length-append, append-nil,
}
use cloudarq.Text.Bytes.{Bytes}
use cloudarq.Text.Utf8.{runes}
use cloudarq.Text.Split.{split}
use cloudarq.Text.Split.Runes.{star, runes-split, segments-NoStar}
use cloudarq.Eval.Glob.{
  Runes, match_runes, match_at, match_spread, match_segments, last_segment, middle_segments,
  glob_node, glob_contains,
}
use cloudarq.Eval.Glob.Fits.{Fits, Agree, Agree-length, RestFits, SegmentsFit, Fits-iff_SegmentsFit}
use cloudarq.Eval.Glob.Place.{Placed, Placed-le, match_middle_iff}

length-drop : (i : ℕ) (v : Runes) → length (drop i v) ≡ length v - i
length-drop zero v = omega arith
length-drop (suc i) [] = omega arith
length-drop (suc i) (r ∷ v) = omega (arith, length-drop i v)

drop-drop : (i k : ℕ) (v : Runes) → drop (i + k) v ≡ drop k (drop i v)
drop-drop zero k v = let e : zero + k ≡ k = omega arith in rw e
drop-drop (suc i) zero [] = let e : suc i + zero ≡ suc i = omega arith in rw e
drop-drop (suc i) (suc k) [] = let e : suc i + suc k ≡ suc (i + suc k) = omega arith in rw e
drop-drop (suc i) k (r ∷ v) =
    let e : suc i + k ≡ suc (i + k) = omega arith in rw e (drop-drop i k v)

drop-length : (s t : Runes) → drop (length s) (s ++ t) ≡ t
drop-length [] t = refl
drop-length (r ∷ s) t = drop-length s t

-- Behind a prefix of what follows `i`.
drop_past : (i : ℕ) (v s t : Runes) → drop i v ≡ s ++ t → drop (i + length s) v ≡ t
drop_past i v s t e = drop-drop i (length s) v ∙ ap (drop (length s)) e ∙ drop-length s t

drop-split :
    (i k : ℕ) (v : Runes)
    → i ≤ k
    → (gap : Runes) × (drop i v ≡ gap ++ drop k v) × (length gap ≤ k - i)
drop-split zero zero v h = ([], refl, omega arith)
drop-split (suc i) zero v h = absurd (omega arith)
drop-split zero (suc k) [] h = ([], refl, omega arith)
drop-split zero (suc k) (r ∷ v) h =
    let (gap, e, l) = drop-split zero k v (omega arith) in (r ∷ gap, ap (◌∷◌ r) e, omega arith)
drop-split (suc i) (suc k) [] h = ([], refl, omega arith)
drop-split (suc i) (suc k) (r ∷ v) h =
    let (gap, e, l) = drop-split i k v (omega arith) in (gap, e, omega arith)

-- One segment at the head of a text.
match_runes-Agree :
    (s w : Runes)
    → match_runes s w ≡ true
    → (here : Runes) × (after : Runes) × (w ≡ here ++ after) × Agree s here
unfolding match_runes
match_runes-Agree [] w h = ([], w, refl, tt)
match_runes-Agree (c ∷ s) [] h = absurd (ground arith)
match_runes-Agree (c ∷ s) (r ∷ w) h =
    let (here, after, e, agree) = match_runes-Agree s w (ground arith) in
    (r ∷ here, after, ap (◌∷◌ r) e, (ground arith, agree))

Agree-match_runes : (s here after : Runes) → Agree s here → match_runes s (here ++ after) ≡ true
unfolding match_runes
Agree-match_runes [] here after h = refl
Agree-match_runes (c ∷ s) [] after h = absurd h
Agree-match_runes (c ∷ s) (r ∷ here) after h =
    ground (arith, Agree-match_runes s here after h.1, h.0)

match_at-Agree :
    (s v : Runes) (i : ℕ)
    → match_at s v i ≡ true
    → (here : Runes) × (drop i v ≡ here ++ drop (i + length s) v)
      × Agree s here
      × (i + length s ≤ length v)
unfolding match_at
match_at-Agree s v i h =
    let (here, after, e, agree) = match_runes-Agree s (drop i v) (ground arith) in
    let same = Agree-length s here agree in
    (
      here,
      rw same (e ∙ ap (λ t. here ++ t) (sym (drop_past i v here after e))),
      agree,
      ground arith,
    )

Agree-match_at :
    (s v here after : Runes) (i : ℕ)
    → i ≤ length v
    → drop i v ≡ here ++ after
    → Agree s here
    → match_at s v i ≡ true
unfolding match_at
Agree-match_at s v here after i h e agree =
    let fits : match_runes s (drop i v) ≡ true = rw e (Agree-match_runes s here after agree) in
    ground (
      arith,
      fits,
      Agree-length s here agree,
      length-drop i v,
      ap length e,
      length-append here after,
    )

-- Behind the offset `i`: the middle segments are placed, and the last one stands at the end.
abbrev Ends : Runes → List Runes → Runes → ℕ → Type 0
Ends s ss v i =
    (i + length (last_segment s ss) ≤ length v)
    × Placed (middle_segments (s ∷ ss)) v (length v - length (last_segment s ss)) i
    × (match_at (last_segment s ss) v (length v - length (last_segment s ss)) ≡ true)

-- A segment found behind a gap, as an offset.
found_at :
    (s v : Runes) (i : ℕ) (gap here after : Runes)
    → i ≤ length v
    → drop i v ≡ gap ++ (here ++ after)
    → Agree s here
    → (match_at s v (i + length gap) ≡ true)
      × (drop (i + length gap + length s) v ≡ after)
      × (i + length gap + length s + length after ≡ length v)
found_at s v i gap here after h e agree =
    let behind = drop_past i v gap (here ++ after) e in
    let total : length (drop i v) ≡ length gap + (length here + length after) =
      omega (arith, ap length e, length-append gap (here ++ after), length-append here after) in
    let same = Agree-length s here agree in
    (
      Agree-match_at s v here after (i + length gap) (omega (arith, length-drop i v)) behind agree,
      rw same (drop_past (i + length gap) v here after behind),
      omega (arith, length-drop i v),
    )

RestFits→Ends :
    (ss : List Runes) (s v : Runes) (i : ℕ)
    → i ≤ length v
    → RestFits (s ∷ ss) (drop i v)
    → Ends s ss v i
unfolding last_segment middle_segments
RestFits→Ends [] s v i h (gap, here, after, e, agree, rest) =
    let (found, _, total) = found_at s v i gap here after h e agree in
    let none_left : length after ≡ 0 = ap length rest in
    let at_end : length v - length s ≡ i + length gap = omega arith in
    (omega arith, omega arith, rw at_end found)
RestFits→Ends (t ∷ ts) s v i h (gap, here, after, e, agree, rest) =
    let (found, left, total) = found_at s v i gap here after h e agree in
    let k : ℕ = i + length gap + length s in
    let (fits, placed, last) =
      RestFits→Ends ts t v k (omega arith) (subst (RestFits (t ∷ ts)) (sym left) rest) in
    (omega arith, (i + length gap, omega arith, found, placed), last)

length_zero : (t : Runes) → length t ≡ 0 → t ≡ []
length_zero [] h = refl
length_zero (r ∷ t) h = absurd (omega arith)

Ends→RestFits :
    (ss : List Runes) (s v : Runes) (i : ℕ) → Ends s ss v i → RestFits (s ∷ ss) (drop i v)
unfolding last_segment middle_segments
Ends→RestFits [] s v i (fits, h, found) =
    let end : ℕ = length v - length s in
    let (here, e, agree, _) = match_at-Agree s v end found in
    let (gap, before, _) = drop-split i end v h in
    (
      gap,
      here,
      drop (end + length s) v,
      before ∙ ap (λ t. gap ++ t) e,
      agree,
      length_zero (drop (end + length s) v) (omega (arith, length-drop (end + length s) v)),
    )
Ends→RestFits (t ∷ ts) s v i (fits, (j, h, found, placed), last) =
    let (here, e, agree, _) = match_at-Agree s v j found in
    let (gap, before, _) = drop-split i j v h in
    let inside =
      Placed-le (middle_segments (t ∷ ts)) v (length v - length (last_segment t ts)) (j + length s)
        placed in
    (
      gap,
      here,
      drop (j + length s) v,
      before ∙ ap (λ u. gap ++ u) e,
      agree,
      Ends→RestFits ts t v (j + length s) (omega arith, placed, last),
    )

single_iff :
    (first v : Runes)
    → ((length v == length first && match_at first v 0) ≡ true) ↔ SegmentsFit first [] v
single_iff first v = (
  λ h.
      let (here, e, agree, fits) = match_at-Agree first v 0 (ground arith) in
      (
        here,
        drop (0 + length first) v,
        e,
        agree,
        length_zero (drop (0 + length first) v) (ground (arith, length-drop (0 + length first) v)),
      ),
  λ (here, after, e, agree, rest).
      let found = Agree-match_at first v here after 0 (omega arith) e agree in
      let whole = Agree-length first here agree in
      let total : length v ≡ length here =
        ap length (e ∙ ap (λ t. here ++ t) rest ∙ append-nil here) in
      ground arith,
)

Ends-parts :
    (first s v : Runes) (ss : List Runes)
    → (match_spread first (last_segment s ss) (middle_segments (s ∷ ss)) v ≡ true)
      ↔ ((match_at first v 0 ≡ true) × Ends s ss v (length first))
unfolding match_spread
Ends-parts first s v ss =
    let middle =
      match_middle_iff (middle_segments (s ∷ ss)) v (length v - length (last_segment s ss))
        (length first) in
    (
      λ h. (ground arith, (ground arith, (middle (ground arith)).0 (ground arith), ground arith)),
      λ (start, (fits, placed, last)). ground (arith, (middle (omega arith)).1 placed),
    )

spread_iff :
    (first s v : Runes) (ss : List Runes)
    → (match_spread first (last_segment s ss) (middle_segments (s ∷ ss)) v ≡ true)
      ↔ SegmentsFit first (s ∷ ss) v
spread_iff first s v ss =
    let parts = Ends-parts first s v ss in
    let add : 0 + length first ≡ length first = omega arith in
    (
      λ h.
          let (start, ends) = parts.0 h in
          let (here, e, agree, fits) = match_at-Agree first v 0 start in
          (
            here,
            drop (0 + length first) v,
            e,
            agree,
            rw add (Ends→RestFits ss s v (length first) ends),
          ),
      λ (here, after, e, agree, rest).
          let start = Agree-match_at first v here after 0 (omega arith) e agree in
          let size : length v ≡ length here + length after =
            ap length e ∙ length-append here after in
          let same = Agree-length first here agree in
          let left : drop (length first) v ≡ after =
            rw same (ap (drop (length here)) e ∙ drop-length here after) in
          parts.1 (
            start,
            RestFits→Ends ss s v (length first) (omega arith)
                (subst (RestFits (s ∷ ss)) (sym left) rest),
          ),
    )

match_segments_iff :
    (first : Runes) (rest : List Runes) (v : Runes)
    → (match_segments (first, rest) v ≡ true) ↔ SegmentsFit first rest v
unfolding match_segments last_segment
match_segments_iff first [] v = single_iff first v
match_segments_iff first (s ∷ ss) v = spread_iff first s v ss

-- A glob contains a value exactly if its pattern, read by runes, fits the value's runes.
pub glob_contains_iff :
    (p v : Bytes) → (glob_contains (glob_node p) v ≡ true) ↔ Fits (runes p) (runes v)
unfolding glob_contains glob_node
glob_contains_iff p v =
    let (no_star, no_stars) = segments-NoStar p in
    let fits =
      Fits-iff_SegmentsFit (runes (split star p).0) (map runes (split star p).1) (runes v) no_star
        no_stars in
    let matches =
      match_segments_iff (runes (split star p).0) (map runes (split star p).1) (runes v) in
    rw (runes-split p) (λ h. fits.1 (matches.0 h), λ f. matches.1 (fits.0 f))
