-- ===== src/Aws/Condition/Identity.antt =====
-- internal/parse/aws/principal.go: identity, the claims that a principal's name asks of a token.
use cloudarq.Prelude.{
  ◌≡◌, refl, ap, ◌∙◌, sym, inl, inr, true, false, [], ◌∷◌, arith, some, Bool-cases, ◌≤◌, length,
  ◌==◌, Option-cases, ◌&&◌, subst,
}
use cloudarq.Text.Bytes.{Bytes, bytes_eq, bytes_eq_iff, bytes_eq_self}
use cloudarq.Eval.Claims.{ClaimKey, lookup, put}
use cloudarq.Eval.StringSet.{StringSet, exact, unknown, contains, is_top}
use cloudarq.Eval.Admitted.{Term, Token, satisfied}
use cloudarq.Eval.Admitted.Terms.{meets, top_satisfied}
use cloudarq.Aws.Tenancy.{account_claim, arn_claim}
use cloudarq.Aws.Principal.{
  Principal, identity_term, PrincipalKind, unreadable, anyone, any_issuer, account, identity,
  opaque, oidc, saml, service, canonical_user, other_service, account_term, with_kind,
}

-- A token is of a principal: it has the account that the principal names, and the ARN.
abbrev pub IsOfPrincipal : Token → Principal → Type 0
IsOfPrincipal token p =
    (1 ≤ length p.account_id → lookup account_claim token ≡ some p.account_id)
    × (p.kind ≡ identity → lookup arn_claim token ≡ some p.text)

-- What is put into a Term that is met, and is itself satisfied, leaves it met.
meets-put_entry :
    (token : Token) (k : ClaimKey) (s : StringSet) (t : Term)
    → satisfied token (k, s) ≡ true
    → meets token t ≡ true
    → meets token (put k s t) ≡ true
unfolding put
meets-put_entry token k s [] h e = ground (arith, h)
meets-put_entry token k s ((j, w) ∷ t) h e = elim (Bool-cases (bytes_eq j k)) [
  | inl x ↦
      let same : j ≡ k = (bytes_eq_iff j k).0 x in
      let here : satisfied token (j, s) ≡ true = ap (λ i. satisfied token (i, s)) same ∙ h in
      rw x (ground (arith, here, e))
  | inr x ↦
      let later : meets token (put k s t) ≡ true =
        meets-put_entry token k s t h (ground (arith, e)) in
      rw x (ground (arith, later, e))
]

exact_satisfied :
    (token : Token) (k : ClaimKey) (v : Bytes)
    → lookup k token ≡ some v
    → satisfied token (k, exact v) ≡ true
unfolding contains satisfied
exact_satisfied token k v e = rw (satisfied, e) (bytes_eq_self v)

account_meets :
    (token : Token) (p : Principal)
    → (1 ≤ length p.account_id → lookup account_claim token ≡ some p.account_id)
    → meets token (account_term p) ≡ true
unfolding account_term
account_meets token p h = elim (Bool-cases (length p.account_id == 0)) [
  | inl x ↦ rw x refl
  | inr x ↦ rw x (
      meets-put_entry token account_claim (exact p.account_id) []
        (exact_satisfied token account_claim p.account_id (h (ground (arith, x)))) refl)
]

undecided_meets :
    (token : Token) (p : Principal) (t : Term)
    → meets token t ≡ true
    → meets token (put p.undecided (unknown (p.text ∷ [])) t) ≡ true
undecided_meets token p t e =
    meets-put_entry token p.undecided (unknown (p.text ∷ [])) t
      (top_satisfied token p.undecided (unknown (p.text ∷ [])) (unfold is_top in refl)) e

kind_meets :
    (kind : PrincipalKind) (token : Token) (p : Principal) (t : Term)
    → (kind ≡ identity → lookup arn_claim token ≡ some p.text)
    → meets token t ≡ true
    → meets token (with_kind kind p t) ≡ true
unfolding with_kind
kind_meets identity token p t h e =
    meets-put_entry token arn_claim (exact p.text) t
      (exact_satisfied token arn_claim p.text (h refl)) e
kind_meets opaque token p t h e = undecided_meets token p t e
kind_meets other_service token p t h e = undecided_meets token p t e
kind_meets unreadable token p t h e = e
kind_meets anyone token p t h e = e
kind_meets any_issuer token p t h e = e
kind_meets account token p t h e = e
kind_meets oidc token p t h e = e
kind_meets saml token p t h e = e
kind_meets service token p t h e = e
kind_meets canonical_user token p t h e = e

pub identity_meets :
    (token : Token) (p : Principal) → IsOfPrincipal token p → meets token (identity_term p) ≡ true
unfolding identity_term
identity_meets token p (h, k) =
    kind_meets p.kind token p (account_term p) k (account_meets token p h)

-- Conversely, a token that meets what is put into a Term satisfies it.
satisfied-put :
    (token : Token) (k : ClaimKey) (s : StringSet) (t : Term)
    → meets token (put k s t) ≡ true
    → satisfied token (k, s) ≡ true
unfolding put
satisfied-put token k s [] e = ground (arith, e)
satisfied-put token k s ((j, w) ∷ t) e = elim (Bool-cases (bytes_eq j k)) [
  | inl x ↦
      let same : j ≡ k = (bytes_eq_iff j k).0 x in
      let whole : (satisfied token (j, s) && meets token t) ≡ true = rw x at e in
      ap (λ i. satisfied token (i, s)) (sym same) ∙ ground (arith, whole)
  | inr x ↦
      let whole : (satisfied token (j, w) && meets token (put k s t)) ≡ true = rw x at e in
      satisfied-put token k s t (ground (arith, whole))
]

-- It satisfies the entry of another claim too.
other_satisfied :
    (token : Token) (k j : ClaimKey) (s w : StringSet)
    → ¬ (j ≡ k)
    → meets token (put k s (put j w [])) ≡ true
    → satisfied token (j, w) ≡ true
unfolding put
other_satisfied token k j s w apart e = elim (Bool-cases (bytes_eq j k)) [
  | inl x ↦ absurd (apart ((bytes_eq_iff j k).0 x))
  | inr x ↦
      let whole : (satisfied token (j, w) && meets token (put k s [])) ≡ true = rw x at e in
      ground (arith, whole)
]

satisfied-exact :
    (token : Token) (k : ClaimKey) (v : Bytes)
    → satisfied token (k, exact v) ≡ true
    → lookup k token ≡ some v
unfolding contains satisfied is_top
satisfied-exact token k v e = elim (Option-cases (lookup k token)) [
  | inl n ↦ let bad : false ≡ true = rw (satisfied, n) at e in cc bad
  | inr (w, found) ↦
      let held : bytes_eq w v ≡ true = rw (satisfied, found) at e in
      found ∙ ap (λ x. some x) ((bytes_eq_iff w v).0 held)
]

arn_apart : ¬ (account_claim ≡ arn_claim)
unfolding bytes_eq
arn_apart e =
    let same : bytes_eq account_claim arn_claim ≡ true =
      (bytes_eq_iff account_claim arn_claim).1 e in
    let bad : false ≡ true = same in cc bad

-- The account's entry of the Term of an identity, whatever its kind puts beside it.
kind_account :
    (kind : PrincipalKind) (token : Token) (p : Principal)
    → ¬ (p.undecided ≡ account_claim)
    → meets token (with_kind kind p (put account_claim (exact p.account_id) [])) ≡ true
    → satisfied token (account_claim, exact p.account_id) ≡ true
unfolding with_kind
kind_account identity token p apart e =
    other_satisfied token arn_claim account_claim (exact p.text) (exact p.account_id) arn_apart e
kind_account opaque token p apart e =
    other_satisfied token p.undecided account_claim (unknown (p.text ∷ [])) (exact p.account_id)
      (λ same. apart (sym same)) e
kind_account other_service token p apart e =
    other_satisfied token p.undecided account_claim (unknown (p.text ∷ [])) (exact p.account_id)
      (λ same. apart (sym same)) e
kind_account unreadable token p apart e =
    satisfied-put token account_claim (exact p.account_id) [] e
kind_account anyone token p apart e = satisfied-put token account_claim (exact p.account_id) [] e
kind_account any_issuer token p apart e =
    satisfied-put token account_claim (exact p.account_id) [] e
kind_account account token p apart e = satisfied-put token account_claim (exact p.account_id) [] e
kind_account oidc token p apart e = satisfied-put token account_claim (exact p.account_id) [] e
kind_account saml token p apart e = satisfied-put token account_claim (exact p.account_id) [] e
kind_account service token p apart e = satisfied-put token account_claim (exact p.account_id) [] e
kind_account canonical_user token p apart e =
    satisfied-put token account_claim (exact p.account_id) [] e

-- An account that a principal names is not the claim its kind leaves undecided.
abbrev pub KeepsAccount : Principal → Type 0
KeepsAccount p = 1 ≤ length p.account_id → ¬ (p.undecided ≡ account_claim)

identity_account :
    (token : Token) (p : Principal)
    → KeepsAccount p
    → meets token (identity_term p) ≡ true
    → 1 ≤ length p.account_id
    → lookup account_claim token ≡ some p.account_id
unfolding identity_term account_term
identity_account token p keeps e l =
    let named : (length p.account_id == 0) ≡ false = ground (arith, l) in
    let whole : meets token (with_kind p.kind p (put account_claim (exact p.account_id) []))
        ≡ true =
      rw named at e in
    satisfied-exact token account_claim p.account_id (kind_account p.kind token p (keeps l) whole)

identity_arn :
    (token : Token) (p : Principal)
    → meets token (identity_term p) ≡ true
    → p.kind ≡ identity
    → lookup arn_claim token ≡ some p.text
unfolding identity_term with_kind
identity_arn token p e k =
    let whole : meets token (put arn_claim (exact p.text) (account_term p)) ≡ true =
      subst (λ kind. meets token (with_kind kind p (account_term p)) ≡ true) k e in
    satisfied-exact token arn_claim p.text
      (satisfied-put token arn_claim (exact p.text) (account_term p) whole)

pub identity-IsOfPrincipal :
    (token : Token) (p : Principal)
    → KeepsAccount p
    → meets token (identity_term p) ≡ true
    → IsOfPrincipal token p
identity-IsOfPrincipal token p keeps e = (identity_account token p keeps e, identity_arn token p e)
