-- ===== src/Eval/Admitted/Distinct.antt =====
-- internal/eval/admitted.go: the second pass of `normalise` drops no Term that admits more.
use cloudarq.Prelude.{
  ◌≡◌, refl, ap, ◌∙◌, sym, inl, inr, Bool, true, ◌||◌, List, [], ◌∷◌, ◌++◌, map, All, any, length,
  arith, Option, some, none, Bool-cases, ltb, any-append, All-append,
}
use cloudarq.Prelude.Order.Sorting.{sort}
use cloudarq.Prelude.Order.Sorting.Keeps.{any-sort}
use cloudarq.Text.Bytes.{bytes_order, bytes_eq, bytes_eq_iff}
use cloudarq.Eval.Admitted.{
  Term, Token, render_term, Rendered, keep_distinct, sorted_terms, term_cap,
}
use cloudarq.Eval.Admitted.Terms.{meets, IsValidTerm, render_term-meets}

-- A Term with its own rendering.
abbrev pub IsRendered : Rendered → Type 0
IsRendered (t, text) = IsValidTerm t × (text ≡ render_term t)

abbrev pub some_meets : Token → List Rendered → Bool
some_meets token kept = any (λ r. meets token r.0) kept

-- A Term whose text is there adds nothing.
repeated_adds_nothing :
    (token : Token) (t : Term) (kept : List Rendered)
    → IsValidTerm t
    → All IsRendered kept
    → any (λ r. bytes_eq r.1 (render_term t)) kept ≡ true
    → (some_meets token kept || meets token t) ≡ some_meets token kept
repeated_adds_nothing token t [] h k e = cc e
repeated_adds_nothing token t ((u, text) ∷ kept) h k e =
    elim (Bool-cases (bytes_eq text (render_term t))) [
      | inl same ↦
          let alike =
            render_term-meets token u t k.0.0 h
              (sym k.0.1 ∙ (bytes_eq_iff text (render_term t)).0 same) in
          ground arith
      | inr other ↦ ground (arith, repeated_adds_nothing token t kept h k.1)
    ]

-- What the second pass says, where it stays within the cap.
abbrev pub KeptSame : Token → List Rendered → List Term → Option (List Rendered) → Type 0
KeptSame token kept ts none = Unit
KeptSame token kept ts (some out) =
    (some_meets token out ≡ (some_meets token kept || any (meets token) ts)) × All IsRendered out

KeptSame-cons :
    (token : Token) (before kept : List Rendered) (t : Term) (ts : List Term)
    (o : Option (List Rendered))
    → some_meets token kept ≡ (some_meets token before || meets token t)
    → KeptSame token kept ts o
    → KeptSame token before (t ∷ ts) o
KeptSame-cons token before kept t ts none e h = tt
KeptSame-cons token before kept t ts (some out) e h = (ground arith, h.1)

pub keep_distinct-KeptSame :
    (token : Token) (ts : List Term) (kept : List Rendered)
    → All IsValidTerm ts
    → All IsRendered kept
    → KeptSame token kept ts (keep_distinct kept ts)
unfolding keep_distinct
keep_distinct-KeptSame token [] kept h k = (ground arith, k)
keep_distinct-KeptSame token (t ∷ ts) kept h k =
    elim (Bool-cases (any (λ r. bytes_eq r.1 (render_term t)) kept)) [
      | inl e ↦ rw e (
          KeptSame-cons token kept kept t ts (keep_distinct kept ts)
            (sym (repeated_adds_nothing token t kept h.0 k e))
            (keep_distinct-KeptSame token ts kept h.1 k))
      | inr e ↦
          let longer : List Rendered = kept ++ (t, render_term t) ∷ [] in
          let valid : All IsRendered longer =
            All-append IsRendered kept ((t, render_term t) ∷ []) k ((h.0, refl), tt) in
          let added : some_meets token longer ≡ (some_meets token kept || meets token t) =
            any-append (λ r. meets token r.0) kept ((t, render_term t) ∷ []) ∙ ground arith in
          elim (Bool-cases (ltb term_cap (length longer))) [
            | inl o ↦ rw (e, o) tt
            | inr o ↦
                rw (e, o)
                  (KeptSame-cons token kept longer t ts (keep_distinct longer ts) added
                    (keep_distinct-KeptSame token ts longer h.1 valid))
          ]
    ]

pub any-sorted_terms :
    (token : Token) (kept : List Rendered)
    → any (meets token) (sorted_terms kept) ≡ some_meets token kept
unfolding sorted_terms
any-sorted_terms token kept =
    any_first (sort bytes_order (λ r. r.1) kept)
    ∙ any-sort bytes_order (λ r. r.1) (λ r. meets token r.0) kept
  where
    any_first : (rs : List Rendered) → any (meets token) (map (λ r. r.0) rs) ≡ some_meets token rs
    any_first [] = refl
    any_first (r ∷ rs) = ap (λ b. meets token r.0 || b) (any_first rs)
