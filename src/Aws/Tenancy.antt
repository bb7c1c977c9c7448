-- ===== src/Aws/Tenancy.antt =====
-- internal/parse/aws: the tenants of the AWS principals, from tenancy.go, and the predicates of
-- principal.go, condition.go and intermediary.go on the names that the parser gives to issuers.
use cloudarq.Prelude.{
  ℕ, zero, suc, Bool, true, false, not, ◌&&◌, ◌||◌, List, [], ◌∷◌, Option, none, some, any, all,
  length, drop, ltb, leb, ◌==◌, if◌then◌else◌,
}
use cloudarq.Text.Bytes.{Bytes, codes, bytes_eq}
use cloudarq.Text.Utf8.{runes}
use cloudarq.Text.Split.{split}
use cloudarq.Eval.Claims.{ClaimKey}
use cloudarq.Trust.Issuer.{IssuerRef, has_prefix, lower_ascii}

abbrev pub account_claim : ClaimKey
account_claim = codes "aws:principalaccount"

abbrev pub arn_claim : ClaimKey
arn_claim = codes "aws:principalarn"

abbrev pub org_claim : ClaimKey
org_claim = codes "aws:principalorgid"

abbrev pub external_id_claim : ClaimKey
external_id_claim = codes "sts:externalid"

abbrev pub aws_principal_issuer : IssuerRef
aws_principal_issuer = codes "aws:sts"

abbrev pub service_issuer_prefix : Bytes
service_issuer_prefix = codes "aws:service:"

pub data TenantScope : Type 0 where
  account_scope organisation_scope : TenantScope

pub record Tenant : Type 0 where
  pub scope : TenantScope
  pub id : Bytes

abbrev pub tenancy_claims : List ClaimKey
tenancy_claims = account_claim ∷ arn_claim ∷ org_claim ∷ []

-- Who a grant without an issuer admits.
pub data Population : Type 0 where
  every_issuer aws_services account_saml_providers aws_services_and_account_saml_providers :
      Population

abbrev pub colon : ℕ
colon = 58

is_digit : ℕ → Bool
is_digit c = leb 48 c && leb c 57

is_lower : ℕ → Bool
is_lower c = leb 97 c && leb c 122

unfoldable pub is_account_id : Bytes → Bool
unfolding is_digit
is_account_id text = length text == 12 && all is_digit (runes text)

-- `strings.SplitN` in at most `suc k` parts: the first, and the others in order.
unfoldable pub split_n : ℕ → ℕ → Bytes → Bytes × List Bytes
split_n zero sep s = (s, [])
split_n (suc k) sep [] = ([], [])
split_n (suc k) sep (b ∷ s) = elim (b == sep) [
  | true ↦ ([], (split_n k sep s).0 ∷ (split_n k sep s).1)
  | false ↦ (b ∷ (split_n (suc k) sep s).0, (split_n (suc k) sep s).1)
]

-- The fields of an ARN behind the word `arn`.
pub record ArnFields : Type 0 where
  pub partition : Bytes
  pub service : Bytes
  pub region : Bytes
  pub account : Bytes
  pub resource : Bytes

fields_of : Bytes → List Bytes → Option ArnFields
fields_of arn (p ∷ s ∷ r ∷ a ∷ x ∷ []) =
    if bytes_eq arn (codes "arn")
    then some (record { partition = p; service = s; region = r; account = a; resource = x })
    else none
fields_of arn _ = none

unfoldable pub arn_fields : Bytes → Option ArnFields
unfolding fields_of split_n
arn_fields text = let (arn, rest) = split_n 5 colon text in fields_of arn rest

unfoldable pub is_saml_issuer : IssuerRef → Bool
is_saml_issuer issuer = elim (arn_fields issuer) [
  | none ↦ false
  | some f ↦ bytes_eq f.service (codes "iam") && has_prefix f.resource (codes "saml-provider/")
]

unfoldable pub is_organisation_id : Bytes → Bool
unfolding is_digit is_lower
is_organisation_id text =
    let id = drop 2 text in
    has_prefix text (codes "o-")
    && (not (ltb (length id) 10)
        && (not (ltb 32 (length id)) && all (λ c. is_lower c || is_digit c) (runes id)))

unfoldable pub tenant_of_prefix : ClaimKey → Bytes → Option Tenant
tenant_of_prefix claim prefix = elim (arn_fields prefix) [
  | none ↦ none
  | some f ↦
      if bytes_eq claim arn_claim && is_account_id f.account
      then some (record { scope = account_scope; id = f.account })
      else none
]

unfoldable pub tenant_of_value : ClaimKey → Bytes → Option Tenant
unfolding tenant_of_prefix is_account_id is_organisation_id
tenant_of_value claim value =
    if bytes_eq claim account_claim && is_account_id value
    then some (record { scope = account_scope; id = value })
    else if bytes_eq claim org_claim && is_organisation_id value
    then some (record { scope = organisation_scope; id = value })
    else tenant_of_prefix claim value

-- `strings.Cut(key, ":")` is the first part of the split, and whether there is another.
unfoldable pub is_service_key : ClaimKey → Bool
is_service_key key =
    let (prefix, rest) = split colon key in
    elim rest [ [] ↦ false | s ∷ others ↦ not (any (λ b. b == b'.') prefix) ]

-- The services of the table `intermediaries`, whose sentences are left out.
abbrev pub intermediaries : List Bytes
intermediaries =
    codes "rolesanywhere.amazonaws.com"
    ∷ codes "credentials.iot.amazonaws.com"
    ∷ codes "ssm.amazonaws.com"
    ∷ codes "pods.eks.amazonaws.com"
    ∷ codes "transfer.amazonaws.com"
    ∷ []

-- Whether `IntermediaryOf` finds a row.
unfoldable pub is_intermediary : Bytes → Bool
unfolding lower_ascii
is_intermediary service = any (λ s. bytes_eq s (lower_ascii service)) intermediaries
