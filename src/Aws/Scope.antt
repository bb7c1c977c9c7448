-- ===== src/Aws/Scope.antt =====
-- internal/parse/aws/condition.go: how a principal reads a condition key, and what keeps it from
-- being read.
pub mod Facts
use cloudarq.Prelude.{
  Bool, true, false, not, ◌&&◌, List, [], ◌∷◌, ◌++◌, none, some, any, length, ◌==◌, if◌then◌else◌,
}
use cloudarq.Text.Bytes.{Bytes, codes, bytes_eq}
use cloudarq.Text.Quote.{quote}
use cloudarq.Eval.Claims.{ClaimKey}
use cloudarq.Trust.Issuer.{IssuerRef, claim_key}
use cloudarq.Trust.Grant.{Anomaly}
use cloudarq.Aws.Tenancy.{account_claim, arn_claim, org_claim, external_id_claim, is_service_key}
use cloudarq.Aws.Folding.{CaseTables, fold, variable_reference, folds_beyond_ascii}
use cloudarq.Aws.Operator.{contains_text}
use cloudarq.Aws.Variables.{VariableMode}
use cloudarq.Aws.Values.{Fact, unmodelled, is_literal_mode}
use cloudarq.Aws.Json.{Value}
use cloudarq.Aws.Principal.{
  Principal, PrincipalKind, anyone, any_issuer, own_claim, may_own, is_aws_identity,
}

pub record Repeat : Type 0 where
  pub what : Bytes
  pub message : Bytes

-- `constraint`.
pub record KeyConstraint : Type 0 where
  pub operator : Bytes
  pub key : Bytes
  pub value : Value
  pub repeated : Repeat

pub data KeyScope : Type 0 where
  own_key identity_claim request_context foreign_key unknown_provider no_prefix not_a_name :
      KeyScope

abbrev pub identity_keys : List ClaimKey
identity_keys =
    arn_claim ∷ account_claim ∷ org_claim ∷ codes "aws:principaltype" ∷ external_id_claim ∷ []

unfoldable pub is_everyone : PrincipalKind → Bool
is_everyone anyone = true
is_everyone any_issuer = true
is_everyone _ = false

-- `scope` of a key that is not the principal's own.
unfoldable pub scope_of_other : Principal → ClaimKey → KeyScope
unfolding is_everyone
scope_of_other p folded =
    if not (contains_text folded (codes ":"))
    then no_prefix
    else if is_service_key folded
    then (if is_aws_identity p.kind && any (λ k. bytes_eq k folded) identity_keys
        then identity_claim
        else request_context)
    else if is_everyone p.kind
    then unknown_provider
    else foreign_key

-- `scope`.
unfoldable pub scope_of : Principal → Bytes → ClaimKey × KeyScope
unfolding scope_of_other
scope_of p key = elim (own_claim p key) [
  | none ↦ (fold key, scope_of_other p (fold key))
  | some claim ↦ elim (claim_key claim) [
    | none ↦ (fold key, not_a_name)
    | some name ↦ (name, own_key)
  ]
]

pub data KeyReading : Type 0 where
  issuer_not_known key_not_documented claim_read multivalued_read multi_valued_claim_read :
      KeyReading

-- `ClaimVocabulary`; a nil one answers as one that knows no issuer.
abbrev pub ClaimVocabulary : Type 0
ClaimVocabulary = IssuerRef → Bytes → ClaimKey × KeyReading
