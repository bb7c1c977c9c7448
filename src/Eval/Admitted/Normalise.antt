-- ===== src/Eval/Admitted/Normalise.antt =====
-- internal/eval/admitted.go: `normalise` admits what the Terms admit, or widens with a caveat.
use cloudarq.Prelude.{
  ◌≡◌, refl, ap, ap₂, ◌∙◌, sym, inl, inr, ◌⊎◌, Bool, true, not, ◌||◌, ◌&&◌, List, [], ◌∷◌, ◌++◌,
  All, any, length, arith, Option, some, none, Bool-cases, ◌==◌, any-append, subst,
}
use cloudarq.Prelude.Order.Sorting.Keeps.{any-sort_compact}
use cloudarq.Text.Bytes.{Bytes}
use cloudarq.Eval.StringSet.{StringSet, is_empty, is_top, is_unknown}
use cloudarq.Eval.StringSet.Build.{◌>>=◌}
use cloudarq.Eval.Claims.{ClaimKey}
use cloudarq.Eval.Admitted.{
  Term, Token, Caveat, AdmittedSet, normalise_term, all_top, live_terms, Rendered, keep_distinct,
  widened, add_live, finish, normalise_live, normalise, failures, admits, overflow,
  normalise_caveats, caveat_key, caveat_order,
}
use cloudarq.Eval.Admitted.Distinct.{KeptSame, keep_distinct-KeptSame, any-sorted_terms}
use cloudarq.Eval.Admitted.Terms.{
  meets, failures_none, SameAs, normalise_term-SameAs, all_top-meets, IsEntry, IsValidTerm,
}

pub admits-any : (a : AdmittedSet) (token : Token) → admits a token ≡ any (meets token) a.terms
unfolding admits
admits-any a token = any_same a.terms
  where
    any_same :
        (ts : List Term) → any (λ t. length (failures t token) == 0) ts ≡ any (meets token) ts
    any_same [] = refl
    any_same (t ∷ ts) = ap₂ ◌||◌ (failures_none t token) (any_same ts)

bind_valid :
    (e : ClaimKey × StringSet) (rest : Option Term) {t : Term}
    → IsEntry e
    → ((u : Term) → rest ≡ some u → IsValidTerm u)
    → (rest >>= λ kept. some (e ∷ kept)) ≡ some t
    → IsValidTerm t
bind_valid e none h f q = cc q
bind_valid e (some u) h f q = subst IsValidTerm (some_same q) (h, f u refl)
  where
    some_same : {x y : Term} → some x ≡ some y → x ≡ y
    some_same p = cc p

pub normalise_term-IsValid :
    (t u : Term) → IsValidTerm t → normalise_term t ≡ some u → IsValidTerm u
unfolding normalise_term
normalise_term-IsValid [] u h e = let same : ◌≡◌ {A = Term} [] u = cc e in subst IsValidTerm same tt
normalise_term-IsValid ((k, s) ∷ t) u h e = elim (Bool-cases (is_empty s)) [
  | inl a ↦ let no_term : none ≡ some u = rw a at e in cc no_term
  | inr a ↦ elim (Bool-cases (is_top s && not (is_unknown s))) [
    | inl b ↦ normalise_term-IsValid t u h.1 (rw (a, b) at e)
    | inr b ↦
        bind_valid (k, s) (normalise_term t) h.0 (λ v. normalise_term-IsValid t v h.1)
          (rw (a, b) at e)
  ]
]

-- What the first pass says of the Terms.
abbrev LiveSame : Token → List Term → Option (List Term) → Type 0
LiveSame token ts none = any (meets token) ts ≡ true
LiveSame token ts (some live) = any (meets token) live ≡ any (meets token) ts

add_live-LiveSame :
    (token : Token) (t : Term) (ts : List Term) (o : Option Term) (rest : Option (List Term))
    → SameAs token t o
    → LiveSame token ts rest
    → LiveSame token (t ∷ ts) (add_live o rest)
unfolding add_live
add_live-LiveSame token t ts none none h k = ground arith
add_live-LiveSame token t ts none (some live) h k = ground arith
add_live-LiveSame token t ts (some u) rest h k = elim (Bool-cases (all_top u)) [
  | inl e ↦ rw e (ground (arith, all_top-meets token u e))
  | inr e ↦ rw e (kept_live rest k)
]
  where
    kept_live :
        (o : Option (List Term))
        → LiveSame token ts o
        → LiveSame token (t ∷ ts) (o >>= λ live. some (u ∷ live))
    kept_live none l = ground arith
    kept_live (some live) l = ap₂ ◌||◌ h l

live_terms-LiveSame : (token : Token) (ts : List Term) → LiveSame token ts (live_terms ts)
unfolding live_terms
live_terms-LiveSame token [] = refl
live_terms-LiveSame token (t ∷ ts) =
    add_live-LiveSame token t ts (normalise_term t) (live_terms ts) (normalise_term-SameAs token t)
      (live_terms-LiveSame token ts)

abbrev AllValid : Option (List Term) → Type 0
AllValid none = Unit
AllValid (some live) = All IsValidTerm live

add_live-AllValid :
    (o : Option Term) (rest : Option (List Term))
    → ((u : Term) → o ≡ some u → IsValidTerm u)
    → AllValid rest
    → AllValid (add_live o rest)
unfolding add_live
add_live-AllValid none rest h k = k
add_live-AllValid (some u) none h k = elim (Bool-cases (all_top u)) [
  | inl e ↦ rw e tt
  | inr e ↦ rw e tt
]
add_live-AllValid (some u) (some live) h k = elim (Bool-cases (all_top u)) [
  | inl e ↦ rw e tt
  | inr e ↦ rw e (h u refl, k)
]

live_terms-AllValid : (ts : List Term) → All IsValidTerm ts → AllValid (live_terms ts)
unfolding live_terms
live_terms-AllValid [] h = tt
live_terms-AllValid (t ∷ ts) h =
    add_live-AllValid (normalise_term t) (live_terms ts) (λ u. normalise_term-IsValid t u h.0)
      (live_terms-AllValid ts h.1)

-- Whether a list of caveats has one.
abbrev pub has_caveat : Caveat → List Caveat → Bool
has_caveat c cs = any (λ d. caveat_order.eq (caveat_key d) (caveat_key c)) cs

pub has_caveat-normalise :
    (c : Caveat) (cs : List Caveat) → has_caveat c (normalise_caveats cs) ≡ has_caveat c cs
unfolding normalise_caveats
has_caveat-normalise c cs =
    any-sort_compact caveat_order caveat_key (λ _. Unit {0})
      (λ d. caveat_order.eq (caveat_key d) (caveat_key c))
      (λ x y _ _ e. ap (λ k. caveat_order.eq k (caveat_key c)) e) cs (all_units cs)
  where
    all_units : (xs : List Caveat) → All (λ _. Unit {0}) xs
    all_units = elim [ [] ↦ tt | x ∷ (xs → ih) ↦ (tt, ih) ]

caveat_order_self : (c : Caveat) → caveat_order.eq (caveat_key c) (caveat_key c) ≡ true
caveat_order_self c = (caveat_order.eq_iff (caveat_key c) (caveat_key c)).1 refl

has_caveat_last : (c : Caveat) (cs : List Caveat) → has_caveat c (cs ++ c ∷ []) ≡ true
has_caveat_last c [] = rw (caveat_order_self c)
has_caveat_last c (d ∷ cs) = ground (arith, has_caveat_last c cs)

-- The set admits what the Terms admit; or it admits everything, and the caveat of the cap says so.
abbrev pub Represents : AdmittedSet → List Term → Bytes → Type 0
Represents a ts op =
    ((token : Token) → admits a token ≡ any (meets token) ts)
    ⊎ (((token : Token) → admits a token ≡ true) × (has_caveat (overflow op) a.caveats ≡ true))

admits-widened : (cs : List Caveat) (token : Token) → admits (widened cs) token ≡ true
unfolding widened
admits-widened cs token = admits-any (widened cs) token

finish-Represents :
    (live : List Term) (o : Option (List Rendered)) (cs : List Caveat) (op : Bytes)
    → ((token : Token) → KeptSame token [] live o)
    → Represents (finish o cs op) live op
unfolding finish
finish-Represents live none cs op h = inr (
  admits-widened (cs ++ overflow op ∷ []),
  unfold widened in
      has_caveat-normalise (overflow op) (cs ++ overflow op ∷ [])
      ∙ has_caveat_last (overflow op) cs,
)
finish-Represents live (some kept) cs op h =
    inl (λ token. admits-any _ token ∙ any-sorted_terms token kept ∙ (h token).0)

normalise_live-Represents :
    (ts : List Term) (o : Option (List Term)) (cs : List Caveat) (op : Bytes)
    → ((token : Token) → LiveSame token ts o)
    → AllValid o
    → Represents (normalise_live o cs op) ts op
unfolding normalise_live
normalise_live-Represents ts none cs op h k = inl (λ token. admits-widened cs token ∙ sym (h token))
normalise_live-Represents ts (some live) cs op h k =
    elim (finish-Represents live (keep_distinct [] live) cs op
      (λ token. keep_distinct-KeptSame token live [] k tt)) [
        | inl same ↦ inl (λ token. same token ∙ h token)
        | inr wide ↦ inr wide
      ]

-- `normalise` admits exactly what its Terms admit, unless there are too many.
pub normalise-Represents :
    (ts : List Term) (cs : List Caveat) (op : Bytes)
    → All IsValidTerm ts
    → Represents (normalise ts cs op) ts op
unfolding normalise
normalise-Represents ts cs op h =
    normalise_live-Represents ts (live_terms ts) cs op (λ token. live_terms-LiveSame token ts)
      (live_terms-AllValid ts h)

finish_keeps_caveats :
    (c : Caveat) (o : Option (List Rendered)) (cs : List Caveat) (op : Bytes)
    → has_caveat c cs ≡ true
    → has_caveat c (finish o cs op).caveats ≡ true
unfolding finish widened
finish_keeps_caveats c none cs op h =
    has_caveat-normalise c (cs ++ overflow op ∷ [])
    ∙ any-append _ cs (overflow op ∷ [])
    ∙ ground arith
finish_keeps_caveats c (some kept) cs op h = has_caveat-normalise c cs ∙ h

normalise_live_keeps :
    (c : Caveat) (o : Option (List Term)) (cs : List Caveat) (op : Bytes)
    → has_caveat c cs ≡ true
    → has_caveat c (normalise_live o cs op).caveats ≡ true
unfolding normalise_live widened
normalise_live_keeps c none cs op h = has_caveat-normalise c cs ∙ h
normalise_live_keeps c (some live) cs op h = finish_keeps_caveats c (keep_distinct [] live) cs op h

-- No caveat is lost, whichever way `normalise` ends.
pub normalise_keeps_caveats :
    (c : Caveat) (ts : List Term) (cs : List Caveat) (op : Bytes)
    → has_caveat c cs ≡ true
    → has_caveat c (normalise ts cs op).caveats ≡ true
unfolding normalise
normalise_keeps_caveats c ts cs op h = normalise_live_keeps c (live_terms ts) cs op h
