-- ===== src/Ring/Pins.antt =====
-- internal/ring/classify.go: the places that need no reading of a term, and pinned owners.
pub mod Declared
use cloudarq.Prelude.{
  Bool, true, false, List, [], ◌∷◌, ◌++◌, Option, none, some, any, all, length, drop, map,
  if◌then◌else◌,
}
use cloudarq.Text.Bytes.{Bytes, bytes_eq}
use cloudarq.Trust.Issuer.{IssuerRef}
use cloudarq.Aws.Tenancy.{
  is_saml_issuer, service_issuer_prefix, is_intermediary, aws_principal_issuer, tenancy_claims,
  tenant_of_value, tenant_of_prefix, TenantScope, account_scope, organisation_scope, is_service_key,
  external_id_claim, every_issuer, aws_services, account_saml_providers,
  aws_services_and_account_saml_providers,
}
use cloudarq.Ring.Owner.{
  Owner, Scope, scope_account, scope_organisation, scope_tenant, scope_provider, kind_name, kind_id,
  namespace_aws, namespace_saml, namespace_issuer, distinct,
}
use cloudarq.Ring.Facts.{open_to_anyone, controlled, membership_unverified}
use cloudarq.Ring.Place.{
  Basis, Population, population, state_unknown, state_exact, anyone, platform, outsider, yours,
  people, saml, service, saml_provider, service_principal, service_intermediary, any_service,
  account_saml_basis, any_issuer, open_tenant, membership_not_verified, controlled_tenant,
}
use cloudarq.Ring.Declare.{names}
use cloudarq.Ring.Subject.{is_not_no}
use cloudarq.Ring.Reading.{Classifier}

-- `Classifier.covered`: whether the user declared the owner.
unfoldable pub covered : Classifier → Owner → Bool
covered c o = any (λ d. names d o c.facts) c.declared

unfoldable pub set_declared : Owner → Bool → Owner
set_declared o declared = record {
  issuer = o.issuer;
  namespace = o.namespace;
  scope = o.scope;
  kind = o.kind;
  value = o.value;
  name = o.name;
  recyclable = o.recyclable;
  declared = declared;
}

-- The inner loop of `pinned`, over one pin.
unfoldable pub declare_pin : Classifier → List Owner → List Owner
unfolding covered set_declared
declare_pin c pin = map (λ o. set_declared o (covered c o)) pin

unfoldable pub all_declared : List Owner → Bool
all_declared pin = all (λ (o : Owner). o.declared) pin

concat_owners : List (List Owner) → List Owner
concat_owners [] = []
concat_owners (pin ∷ pins) = pin ++ concat_owners pins

unfoldable pub pinned : Classifier → List (List Owner) → Basis → Population
unfolding concat_owners
pinned c pins basis =
    let declared = map (declare_pin c) pins in
    record {
      term = 0;
      place = if any all_declared declared then yours else outsider;
      state = state_exact;
      basis = basis;
      owners = distinct (concat_owners declared);
      owner_starts = [];
      bounded = false;
    }

-- A population of the platform that was read exactly.
unfoldable pub exact_platform : Basis → List Bytes → Population
exact_platform basis starts = record {
  term = 0;
  place = platform;
  state = state_exact;
  basis = basis;
  owners = [];
  owner_starts = starts;
  bounded = false;
}

-- `service`.
unfoldable pub place_service : IssuerRef → Population
place_service issuer =
    if is_intermediary (drop (length service_issuer_prefix) issuer)
    then population service service_intermediary
    else population service service_principal

-- `issuerless`.
unfoldable pub place_issuerless : cloudarq.Aws.Tenancy.Population → List Population
place_issuerless aws_services = population service any_service ∷ []
place_issuerless account_saml_providers = population saml account_saml_basis ∷ []
place_issuerless aws_services_and_account_saml_providers =
    population saml account_saml_basis ∷ population service any_service ∷ []
place_issuerless every_issuer = population anyone any_issuer ∷ []

-- `samlProvider`.
unfoldable pub place_saml_provider : Classifier → Population
place_saml_provider c =
    let owner : Owner = record {
      issuer = c.grant.issuer;
      namespace = namespace_saml;
      scope = scope_provider;
      kind = kind_name;
      value = c.grant.issuer;
      name = [];
      recyclable = true;
      declared = false;
    } in
    record {
      term = 0;
      place = if covered c owner then people else saml;
      state = state_unknown;
      basis = saml_provider;
      owners = set_declared owner (covered c owner) ∷ [];
      owner_starts = [];
      bounded = false;
    }

-- `tenant`.
unfoldable pub place_tenant : Classifier → Population
place_tenant c =
    let t = c.facts.tenant in
    let named =
      if bytes_eq t.value []
      then population platform membership_not_verified
      else pinned c
          ((record {
            issuer = c.grant.issuer;
            namespace = namespace_issuer;
            scope = scope_tenant;
            kind = t.kind;
            value = t.value;
            name = [];
            recyclable = is_not_no t.recyclable;
            declared = false;
          }
              ∷ [])
            ∷ [])
          controlled_tenant in
    elim t.membership [
      | open_to_anyone ↦ exact_platform open_tenant []
      | controlled ↦ named
      | membership_unverified ↦ population platform membership_not_verified
    ]

unfoldable pub aws_scope : TenantScope → Scope
aws_scope account_scope = scope_account
aws_scope organisation_scope = scope_organisation

unfoldable pub aws_owner : Classifier → Option cloudarq.Aws.Tenancy.Tenant → List Owner
aws_owner c none = []
aws_owner c (some t) =
    record {
      issuer = c.grant.issuer;
      namespace = namespace_aws;
      scope = aws_scope t.scope;
      kind = kind_id;
      value = t.id;
      name = [];
      recyclable = false;
      declared = false;
    }
    ∷ []
