-- ===== src/Trust/Projection.antt =====
-- internal/trust/grant.go: a projection is an upper bound that keeps every caveat.
use cloudarq.Prelude.{
  ◌≡◌, refl, ap, ap₂, ◌∙◌, sym, inl, inr, ◌⊎◌, ◌++◌, any-append, Bool, true, ◌&&◌, ◌||◌, List, [],
  ◌∷◌, map, All, any, arith, Bool-cases,
}
use cloudarq.Text.Bytes.{codes}
use cloudarq.Eval.StringSet.{StringSet}
use cloudarq.Eval.Claims.{ClaimKey, lookup}
use cloudarq.Eval.Admitted.{
  Term, Token, Caveat, AdmittedSet, new_admitted_set, with_caveat, admits, satisfied,
}
use cloudarq.Eval.Admitted.Terms.{meets, IsValidTerm}
use cloudarq.Eval.Admitted.Normalise.{
  admits-any, has_caveat, has_caveat-normalise, normalise-Represents,
}
use cloudarq.Trust.Grant.{keep_claims, with_caveats, project}

keep_claims-IsValidTerm :
    (keep : ClaimKey → Bool) (t : Term) → IsValidTerm t → IsValidTerm (keep_claims keep t)
unfolding keep_claims
keep_claims-IsValidTerm keep [] h = tt
keep_claims-IsValidTerm keep (e ∷ t) h = elim (Bool-cases (keep e.0)) [
  | inl u ↦ rw u (h.0, keep_claims-IsValidTerm keep t h.1)
  | inr u ↦ rw u (keep_claims-IsValidTerm keep t h.1)
]

kept_valid :
    (keep : ClaimKey → Bool) (ts : List Term)
    → All IsValidTerm ts
    → All IsValidTerm (map (keep_claims keep) ts)
kept_valid keep [] h = tt
kept_valid keep (t ∷ ts) h = (keep_claims-IsValidTerm keep t h.0, kept_valid keep ts h.1)

-- Fewer constraints admit more.
keep_claims-meets :
    (keep : ClaimKey → Bool) (token : Token) (t : Term)
    → meets token t ≡ true
    → meets token (keep_claims keep t) ≡ true
unfolding keep_claims
keep_claims-meets keep token [] h = refl
keep_claims-meets keep token (e ∷ t) h = elim (Bool-cases (keep e.0)) [
  | inl u ↦ rw u (ground (arith, keep_claims-meets keep token t))
  | inr u ↦ rw u (ground (arith, keep_claims-meets keep token t))
]

kept_meets :
    (keep : ClaimKey → Bool) (token : Token) (ts : List Term)
    → any (meets token) ts ≡ true
    → any (meets token) (map (keep_claims keep) ts) ≡ true
kept_meets keep token [] h = h
kept_meets keep token (t ∷ ts) h =
    ground (arith, keep_claims-meets keep token t, kept_meets keep token ts)

with_caveats-terms : (a : AdmittedSet) (cs : List Caveat) → (with_caveats a cs).terms ≡ a.terms
unfolding with_caveats with_caveat
with_caveats-terms a [] = refl
with_caveats-terms a (c ∷ cs) = with_caveats-terms (with_caveat a c) cs

admits-with_caveats :
    (a : AdmittedSet) (cs : List Caveat) (token : Token)
    → admits (with_caveats a cs) token ≡ admits a token
admits-with_caveats a cs token =
    admits-any (with_caveats a cs) token
    ∙ ap (any (meets token)) (with_caveats-terms a cs)
    ∙ sym (admits-any a token)

-- What a set of terms admits once they are normalised: the same, or everything.
admits-cases :
    (ts : List Term)
    → All IsValidTerm ts
    → ((token : Token) → admits (new_admitted_set ts) token ≡ any (meets token) ts)
      ⊎ ((token : Token) → admits (new_admitted_set ts) token ≡ true)
unfolding new_admitted_set
admits-cases ts h = elim (normalise-Represents ts [] (codes "NewAdmittedSet") h) [
  | inl same ↦ inl same
  | inr wide ↦ inr wide.0
]

-- A token that a set of valid Terms admits is admitted by every projection of the set.
pub project-admits :
    (s : AdmittedSet) (keep : ClaimKey → Bool) (token : Token)
    → All IsValidTerm s.terms
    → admits s token ≡ true
    → admits (project s keep) token ≡ true
unfolding project
project-admits s keep token h e =
    let ts = map (keep_claims keep) s.terms in
    let met = kept_meets keep token s.terms (sym (admits-any s token) ∙ e) in
    admits-with_caveats (new_admitted_set ts) s.caveats token
    ∙ elim (admits-cases ts (kept_valid keep s.terms h)) [
      | inl same ↦ same token ∙ met
      | inr wide ↦ wide token
    ]

-- The tokens hold the same values of the claims that `keep` accepts.
abbrev pub Agree : (ClaimKey → Bool) → Token → Token → Type 0
Agree keep token other = (k : ClaimKey) → keep k ≡ true → lookup k token ≡ lookup k other

satisfied-Agree :
    (keep : ClaimKey → Bool) (token other : Token) (e : ClaimKey × StringSet)
    → Agree keep token other
    → keep e.0 ≡ true
    → satisfied token e ≡ satisfied other e
unfolding satisfied
satisfied-Agree keep token other (k, x) agree h = rw (satisfied, agree k h) refl

kept_same :
    (keep : ClaimKey → Bool) (token other : Token) (t : Term)
    → Agree keep token other
    → meets token (keep_claims keep t) ≡ meets other (keep_claims keep t)
unfolding keep_claims
kept_same keep token other [] agree = refl
kept_same keep token other (e ∷ t) agree = elim (Bool-cases (keep e.0)) [
  | inl u ↦
      rw u
        (ap₂ ◌&&◌ (satisfied-Agree keep token other e agree u) (kept_same keep token other t agree))
  | inr u ↦ rw u (kept_same keep token other t agree)
]

all_same :
    (keep : ClaimKey → Bool) (token other : Token) (ts : List Term)
    → Agree keep token other
    → any (meets token) (map (keep_claims keep) ts) ≡ any (meets other) (map (keep_claims keep) ts)
all_same keep token other [] agree = refl
all_same keep token other (t ∷ ts) agree =
    ap₂ ◌||◌ (kept_same keep token other t agree) (all_same keep token other ts agree)

-- Two tokens with the same values of the claims that a projection of a set of valid Terms keeps
-- are both admitted by it or both refused.
pub project-Agree :
    (s : AdmittedSet) (keep : ClaimKey → Bool) (token other : Token)
    → All IsValidTerm s.terms
    → Agree keep token other
    → admits (project s keep) token ≡ admits (project s keep) other
unfolding project
project-Agree s keep token other h agree =
    let ts = map (keep_claims keep) s.terms in
    let read = admits-with_caveats (new_admitted_set ts) s.caveats in
    let same =
      elim (admits-cases ts (kept_valid keep s.terms h))
        as (λ _. admits (new_admitted_set ts) token ≡ admits (new_admitted_set ts) other) [
          | inl same ↦ same token ∙ all_same keep token other s.terms agree ∙ sym (same other)
          | inr wide ↦ wide token ∙ sym (wide other)
        ] in
    read token ∙ same ∙ sym (read other)

has_caveat-with_caveat :
    (c d : Caveat) (a : AdmittedSet)
    → has_caveat c (with_caveat a d).caveats ≡ (has_caveat c a.caveats || has_caveat c (d ∷ []))
unfolding with_caveat
has_caveat-with_caveat c d a =
    has_caveat-normalise c (a.caveats ++ d ∷ []) ∙ any-append _ a.caveats (d ∷ [])

has_caveat-with_caveats :
    (c : Caveat) (a : AdmittedSet) (cs : List Caveat)
    → has_caveat c (with_caveats a cs).caveats ≡ (has_caveat c a.caveats || has_caveat c cs)
unfolding with_caveats
has_caveat-with_caveats c a [] = ground arith
has_caveat-with_caveats c a (d ∷ cs) =
    ground (arith, has_caveat-with_caveats c (with_caveat a d) cs, has_caveat-with_caveat c d a)

-- A projection has every caveat of the set it is taken of.
pub project_keeps_caveats :
    (c : Caveat) (s : AdmittedSet) (keep : ClaimKey → Bool)
    → has_caveat c s.caveats ≡ true
    → has_caveat c (project s keep).caveats ≡ true
unfolding project
project_keeps_caveats c s keep h =
    has_caveat-with_caveats c (new_admitted_set (map (keep_claims keep) s.terms)) s.caveats
    ∙ ground arith
