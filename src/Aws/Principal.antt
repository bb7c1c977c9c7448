-- ===== src/Aws/Principal.antt =====
-- internal/parse/aws/principal.go: the claims of a principal, and which condition keys are its own.
use cloudarq.Prelude.{
  Bool, true, false, ◌&&◌, [], ◌∷◌, ◌++◌, Option, none, some, length, ◌==◌, if◌then◌else◌,
}
use cloudarq.Text.Bytes.{Bytes, bytes_eq}
use cloudarq.Eval.StringSet.{exact, unknown}
use cloudarq.Eval.Claims.{ClaimKey, put}
use cloudarq.Eval.Admitted.{Term}
use cloudarq.Trust.Issuer.{IssuerRef}
use cloudarq.Aws.Tenancy.{account_claim, arn_claim}
use cloudarq.Aws.Folding.{CaseTables, fold, wide}

pub data PrincipalKind : Type 0 where
  unreadable anyone any_issuer account identity opaque oidc saml service canonical_user
        other_service :
      PrincipalKind

-- `principal`, without the place of its text in the document and what was found there.
pub record Principal : Type 0 where
  pub kind : PrincipalKind
  pub text : Bytes
  pub issuer : IssuerRef
  pub identifier : Bytes
  pub ident : Bytes
  pub wide_ident : Bytes
  pub account_id : Bytes
  pub undecided : ClaimKey

unfoldable pub is_oidc : PrincipalKind → Bool
is_oidc oidc = true
is_oidc _ = false

unfoldable pub is_aws_identity : PrincipalKind → Bool
is_aws_identity anyone = true
is_aws_identity account = true
is_aws_identity identity = true
is_aws_identity opaque = true
is_aws_identity other_service = true
is_aws_identity _ = false

-- The loops over the colons of a key: the first whose provider is the principal's. `before` is the
-- key up to the offset.
unfoldable pub behind_provider : (Bytes → Bool) → Bytes → Bytes → Option Bytes
behind_provider owns before [] = none
behind_provider owns before (c ∷ rest) =
    let later = behind_provider owns (before ++ c ∷ []) rest in
    if c == b':' && owns before then some rest else later

unfoldable pub own_claim : Principal → Bytes → Option Bytes
unfolding is_oidc behind_provider
own_claim p key =
    if is_oidc p.kind
    then elim (behind_provider (λ provider. bytes_eq (fold provider) p.ident) [] key) [
      | none ↦ none
      | some rest ↦ some (fold rest)
    ]
    else none

unfoldable pub may_own : CaseTables → Principal → Bytes → Bool
unfolding behind_provider
may_own tables p key =
    if length p.wide_ident == 0
    then false
    else elim (behind_provider (λ provider. bytes_eq (wide tables provider) p.wide_ident) [] key) [
      | none ↦ false
      | some rest ↦ true
    ]

-- The account of `identity`, before its switch.
unfoldable pub account_term : Principal → Term
account_term p = if length p.account_id == 0 then [] else put account_claim (exact p.account_id) []

unfoldable pub with_kind : PrincipalKind → Principal → Term → Term
with_kind identity p t = put arn_claim (exact p.text) t
with_kind opaque p t = put p.undecided (unknown (p.text ∷ [])) t
with_kind other_service p t = put p.undecided (unknown (p.text ∷ [])) t
with_kind _ p t = t

-- `identity`.
unfoldable pub identity_term : Principal → Term
unfolding account_term with_kind
identity_term p = with_kind p.kind p (account_term p)
