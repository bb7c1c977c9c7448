-- ===== src/Eval/Admitted/Algebra.antt =====
-- internal/eval/admitted.go: intersection and union of sets of tokens.
use cloudarq.Prelude.{
  ◌≡◌, refl, ap₂, ◌∙◌, sym, inl, inr, ◌⊎◌, Bool, true, ◌||◌, ◌&&◌, List, [], ◌∷◌, ◌++◌, All,
  All-append, any, any-append, arith, Option, some,
}
use cloudarq.Text.Bytes.{Bytes, codes}
use cloudarq.Eval.Admitted.{
  Term, Token, AdmittedSet, product_row, product, meet_admitted, join_admitted, new_admitted_set,
  admits, normalise, overflow,
}
use cloudarq.Eval.Admitted.Terms.{meets, IsValidTerm}
use cloudarq.Eval.Admitted.Conjoin.{conjoin-ConjoinsTo}
use cloudarq.Eval.Admitted.Normalise.{normalise-Represents, admits-any, has_caveat}

-- The Terms of a set of the package.
abbrev pub IsValidSet : AdmittedSet → Type 0
IsValidSet a = All IsValidTerm a.terms

-- The run returns Terms of which some admits a token exactly where `f` says so.
abbrev ListsTo : Option (List Term) → (Token → Bool) → Type 0
ListsTo o f =
    (ts : List Term) × (o ≡ some ts)
    × All IsValidTerm ts
    × ((token : Token) → any (meets token) ts ≡ f token)

product_row-ListsTo :
    (x : Term) (ys : List Term)
    → IsValidTerm x
    → All IsValidTerm ys
    → ListsTo (product_row x ys) (λ token. meets token x && any (meets token) ys)
unfolding product_row
product_row-ListsTo x [] h k = ([], refl, tt, λ token. ground arith)
product_row-ListsTo x (y ∷ ys) h k =
    let (xy, e, v, c) = conjoin-ConjoinsTo y x h k.0 in
    let (rest, er, vr, cr) = product_row-ListsTo x ys h k.1 in
    (xy ∷ rest, rw (e, er) refl, (v, vr), λ token. ground (arith, c token, cr token))

product-ListsTo :
    (xs ys : List Term)
    → All IsValidTerm xs
    → All IsValidTerm ys
    → ListsTo (product xs ys) (λ token. any (meets token) xs && any (meets token) ys)
unfolding product
product-ListsTo [] ys h k = ([], refl, tt, λ token. refl)
product-ListsTo (x ∷ xs) ys h k =
    let (row, e, v, c) = product_row-ListsTo x ys h.0 k in
    let (rest, er, vr, cr) = product-ListsTo xs ys h.1 k in
    (
      row ++ rest,
      rw (e, er) refl,
      All-append IsValidTerm row rest v vr,
      λ token. any-append (meets token) row rest ∙ ground (arith, c token, cr token),
    )

-- The set admits what `f` says; or it admits everything, and the caveat of the cap says so.
abbrev pub Admits : AdmittedSet → (Token → Bool) → Bytes → Type 0
Admits c f op =
    ((token : Token) → admits c token ≡ f token)
    ⊎ (((token : Token) → admits c token ≡ true) × (has_caveat (overflow op) c.caveats ≡ true))

-- `Meet` of two sets with valid constraints and claim names without an equals sign never panics,
-- and admits what both sets admit, or everything with the caveat of the cap.
pub meet_admitted-Admits :
    (a b : AdmittedSet)
    → IsValidSet a
    → IsValidSet b
    → (c : AdmittedSet) × (meet_admitted a b ≡ some c)
      × Admits c (λ token. admits a token && admits b token) (codes "Meet")
unfolding meet_admitted
meet_admitted-Admits a b h k =
    let (ts, e, v, f) = product-ListsTo a.terms b.terms h k in
    let both : (token : Token) → any (meets token) ts ≡ (admits a token && admits b token) =
      λ token. f token ∙ sym (ap₂ ◌&&◌ (admits-any a token) (admits-any b token)) in
    (
      normalise ts (a.caveats ++ b.caveats) (codes "Meet"),
      rw e refl,
      elim (normalise-Represents ts (a.caveats ++ b.caveats) (codes "Meet") v) [
        | inl same ↦ inl (λ token. same token ∙ both token)
        | inr wide ↦ inr wide
      ],
    )

-- `Join` of two sets with valid constraints and claim names without an equals sign admits what
-- either set admits, or everything with the caveat of the cap.
pub join_admitted-Admits :
    (a b : AdmittedSet)
    → IsValidSet a
    → IsValidSet b
    → Admits (join_admitted a b) (λ token. admits a token || admits b token) (codes "Join")
unfolding join_admitted
join_admitted-Admits a b h k =
    let both : (token : Token)
        → any (meets token) (a.terms ++ b.terms) ≡ (admits a token || admits b token) =
      λ token.
        any-append (meets token) a.terms b.terms
        ∙ sym (ap₂ ◌||◌ (admits-any a token) (admits-any b token)) in
    elim (normalise-Represents (a.terms ++ b.terms) (a.caveats ++ b.caveats) (codes "Join")
      (All-append IsValidTerm a.terms b.terms h k)) [
        | inl same ↦ inl (λ token. same token ∙ both token)
        | inr wide ↦ inr wide
      ]

-- `NewAdmittedSet` of Terms with valid constraints and claim names without an equals sign admits
-- what some of its Terms admits, or everything with the caveat of the cap.
pub new_admitted_set-Admits :
    (ts : List Term)
    → All IsValidTerm ts
    → Admits (new_admitted_set ts) (λ token. any (meets token) ts) (codes "NewAdmittedSet")
unfolding new_admitted_set
new_admitted_set-Admits ts h = normalise-Represents ts [] (codes "NewAdmittedSet") h
