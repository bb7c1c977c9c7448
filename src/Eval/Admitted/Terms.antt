-- ===== src/Eval/Admitted/Terms.antt =====
-- What one Term admits, and that a Term's canonical form admits the same.
use cloudarq.Prelude.{
  append_assoc, ◌≡◌, ◌≢◌, refl, ap, ap₂, ◌∙◌, sym, inl, inr, Bool, true, false, not, ◌&&◌, [], ◌∷◌,
  ◌++◌, map, All, all, length, arith, Option, some, none, Bool-cases, Option-cases, ◌==◌,
}
use cloudarq.Prelude.Order.Sorting.{sort}
use cloudarq.Prelude.Order.Sorting.Ascending.{All-sort}
use cloudarq.Prelude.Order.Sorting.Keeps.{all-sort, length-sort}
use cloudarq.Text.Bytes.{Bytes, bytes_order, codes}
use cloudarq.Text.Parts.{ShowsEnd, join_parts, join_parts-injective}
use cloudarq.Eval.StringSet.{StringSet, is_empty, is_top, is_unknown, render}
use cloudarq.Eval.StringSet.Build.{◌>>=◌}
use cloudarq.Eval.StringSet.Valid.{IsValid}
use cloudarq.Eval.StringSet.Reads.{render-ShowsEnd}
use cloudarq.Eval.StringSet.Union.{top_contains, empty_contains}
use cloudarq.Eval.Claims.{ClaimKey, lookup}
use cloudarq.Eval.Admitted.{
  Term, Token, normalise_term, all_top, render_entry, render_term, satisfied, failing_keys,
  failures,
}

-- Every claim of the Term is satisfied.
abbrev pub meets : Token → Term → Bool
meets token t = all (satisfied token) t

failing_keys_none :
    (t : Term) (token : Token) → (length (failing_keys t token) == 0) ≡ meets token t
unfolding failing_keys
failing_keys_none [] token = refl
failing_keys_none (e ∷ t) token = ground (arith, failing_keys_none t token)

-- No claim fails exactly where each is satisfied.
pub failures_none : (t : Term) (token : Token) → (length (failures t token) == 0) ≡ meets token t
unfolding failures
failures_none t token =
    ap (λ n. n == 0) (length-sort bytes_order (λ k. k) (failing_keys t token))
    ∙ failing_keys_none t token

pub top_satisfied :
    (token : Token) (k : ClaimKey) (s : StringSet) → is_top s ≡ true → satisfied token (k, s) ≡ true
unfolding satisfied
top_satisfied token k s h = elim (Option-cases (lookup k token)) [
  | inl e ↦ rw (e, satisfied) h
  | inr (v, e) ↦ rw (e, satisfied) (top_contains s h v)
]

empty_not_top : (s : StringSet) → is_empty s ≡ true → is_top s ≡ false
unfolding is_empty is_top
empty_not_top StringSet.empty h = refl
empty_not_top s h = cc

empty_unsatisfied :
    (token : Token) (k : ClaimKey) (s : StringSet)
    → is_empty s ≡ true
    → satisfied token (k, s) ≡ false
unfolding satisfied
empty_unsatisfied token k s h = elim (Option-cases (lookup k token)) [
  | inl e ↦ rw (e, satisfied) (empty_not_top s h)
  | inr (v, e) ↦ rw (e, satisfied) (empty_contains s h v)
]

-- What the canonical form of a Term, or its absence, says of the Term.
abbrev pub SameAs : Token → Term → Option Term → Type 0
SameAs token t none = meets token t ≡ false
SameAs token t (some t') = meets token t' ≡ meets token t

normalise_step :
    (token : Token) (k : ClaimKey) (s : StringSet) (t : Term) (rest : Option Term)
    → SameAs token t rest
    → SameAs token ((k, s) ∷ t) (rest >>= λ kept. some ((k, s) ∷ kept))
normalise_step token k s t none h = ground arith
normalise_step token k s t (some kept) h = ap (λ b. satisfied token (k, s) && b) h

skip_top :
    (token : Token) (k : ClaimKey) (s : StringSet) (t : Term) (rest : Option Term)
    → is_top s ≡ true
    → SameAs token t rest
    → SameAs token ((k, s) ∷ t) rest
skip_top token k s t none e h = ground arith
skip_top token k s t (some kept) e h = ground (arith, top_satisfied token k s e)

pub normalise_term-SameAs : (token : Token) (t : Term) → SameAs token t (normalise_term t)
unfolding normalise_term
normalise_term-SameAs token [] = refl
normalise_term-SameAs token ((k, s) ∷ t) = elim (Bool-cases (is_empty s)) [
  | inl e ↦ rw e (ground (arith, empty_unsatisfied token k s e))
  | inr e ↦ elim (Bool-cases (is_top s && not (is_unknown s))) [
    | inl u ↦
        rw (e, u)
          (skip_top token k s t (normalise_term t) (ground arith) (normalise_term-SameAs token t))
    | inr u ↦
        rw (e, u) (normalise_step token k s t (normalise_term t) (normalise_term-SameAs token t))
  ]
]

pub all_top-meets : (token : Token) (t : Term) → all_top t ≡ true → meets token t ≡ true
unfolding all_top
all_top-meets token [] h = refl
all_top-meets token ((k, s) ∷ t) h = ground (arith, top_satisfied token k s, all_top-meets token t)

-- The name of a claim holds no equals sign, so that a rendered entry shows where it ends.
abbrev pub IsClaimName : ClaimKey → Type 0
IsClaimName k = All (λ b. b ≢ b'=') k

abbrev pub IsEntry : ClaimKey × StringSet → Type 0
IsEntry (k, s) = IsClaimName k × IsValid s

abbrev pub IsValidTerm : Term → Type 0
IsValidTerm t = All IsEntry t

name-ShowsEnd :
    (k j : ClaimKey) (s t : Bytes)
    → IsClaimName k
    → IsClaimName j
    → k ++ (b'=' ∷ s) ≡ j ++ (b'=' ∷ t)
    → (k ≡ j) × (s ≡ t)
name-ShowsEnd [] [] s t h l e = (refl, cc e)
name-ShowsEnd [] (b ∷ j) s t h l e = absurd (l.0 (ground arith))
name-ShowsEnd (a ∷ k) [] s t h l e = absurd (h.0 (ground arith))
name-ShowsEnd (a ∷ k) (b ∷ j) s t h l e =
    let (same, rest) = name-ShowsEnd k j s t h.1 l.1 (ground arith) in
    (ap₂ ◌∷◌ (ground arith) same, rest)

IsEntry-ShowsEnd : ShowsEnd IsEntry render_entry
unfolding render_entry
IsEntry-ShowsEnd (k, x) (j, y) s t h l e =
    let opened =
      sym (append_assoc k (b'=' ∷ render x) s) ∙ e ∙ append_assoc j (b'=' ∷ render y) t in
    let (keys, rest) = name-ShowsEnd k j (render x ++ s) (render y ++ t) h.0 l.0 opened in
    let (sets, end) = render-ShowsEnd x y s t h.1 l.1 rest in (λ i. (keys i, sets i), end)

-- The text of no entry and of some.
entries_end : (k : ClaimKey) (s t : Bytes) → b'}' ∷ [] ≢ (k ++ (b'=' ∷ s)) ++ (b'}' ∷ t)
entries_end [] s t e = ground arith
entries_end (b ∷ []) s t e = ground arith
entries_end (b ∷ c ∷ k) s t e = ground arith

entries_nonempty :
    (e : ClaimKey × StringSet) (es : Term)
    → b'}' ∷ [] ≢ join_parts (codes ", ") (map render_entry (e ∷ es)) ++ b'}' ∷ []
unfolding join_parts render_entry
entries_nonempty (k, s) [] h = entries_end k (render s) [] h
entries_nonempty (k, s) (f ∷ es) h =
    entries_end k (render s ++ (codes ", " ++ join_parts (codes ", ") (map render_entry (f ∷ es))))
      []
      (h
        ∙ ap (λ u. u ++ b'}' ∷ [])
            (append_assoc k (b'=' ∷ render s)
              (codes ", " ++ join_parts (codes ", ") (map render_entry (f ∷ es)))))

sorted_same :
    (es fs : Term)
    → All IsEntry es
    → All IsEntry fs
    → join_parts (codes ", ") (map render_entry es) ++ b'}' ∷ []
      ≡ join_parts (codes ", ") (map render_entry fs) ++ b'}' ∷ []
    → es ≡ fs
sorted_same [] [] h k e = refl
sorted_same [] (f ∷ fs) h k e = absurd (entries_nonempty f fs (unfold join_parts in e))
sorted_same (g ∷ es) [] h k e = absurd (entries_nonempty g es (unfold join_parts in sym e))
sorted_same (g ∷ es) (f ∷ fs) h k e =
    (join_parts-injective IsEntry render_entry b',' (codes " ") b'}' (omega arith) IsEntry-ShowsEnd
      es fs g f [] [] h k e).0

-- Two Terms that render alike admit the same tokens.
pub render_term-meets :
    (token : Token) (t u : Term)
    → IsValidTerm t
    → IsValidTerm u
    → render_term t ≡ render_term u
    → meets token t ≡ meets token u
unfolding render_term
render_term-meets token t u h k e =
    let sorted : (x : Term) → Term = sort bytes_order (λ (x : ClaimKey × StringSet). x.0) in
    let same =
      sorted_same (sorted t) (sorted u) (All-sort bytes_order (λ x. x.0) IsEntry t h)
        (All-sort bytes_order (λ x. x.0) IsEntry u k) (cc e) in
    sym (all-sort bytes_order (λ x. x.0) (satisfied token) t)
    ∙ ap (all (satisfied token)) same
    ∙ all-sort bytes_order (λ x. x.0) (satisfied token) u
