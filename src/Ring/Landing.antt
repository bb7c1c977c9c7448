-- ===== src/Ring/Landing.antt =====
-- internal/ring/classify.go: where one alternative of a grant lands.
use cloudarq.Prelude.{
  Bool, true, false, not, ◌&&◌, ◌||◌, List, [], ◌∷◌, Option, none, some, any, if◌then◌else◌,
}
use cloudarq.Text.Bytes.{bytes_eq}
use cloudarq.Eval.StringSet.{StringSet}
use cloudarq.Eval.Shape.{shape_of}
use cloudarq.Eval.Claims.{ClaimKey, lookup}
use cloudarq.Eval.Admitted.{Term, Caveat}
use cloudarq.Trust.Issuer.{has_prefix}
use cloudarq.Aws.Tenancy.{
  is_saml_issuer, service_issuer_prefix, aws_principal_issuer, tenancy_claims, tenant_of_value,
  tenant_of_prefix, is_service_key, external_id_claim,
}
use cloudarq.Ring.Owner.{scope_eq, scope_none}
use cloudarq.Ring.Facts.{
  Tenancy, TenancyClaim, not_surveyed, shared, per_tenant, yes, no, unverified,
}
use cloudarq.Ring.Place.{
  Population, population, anyone, platform, principal_not_modelled, issuer_not_surveyed,
  tokens_without_account, account_not_verified, tenancy_not_recorded, unread_constraint, unpinned,
  pinned_basis,
}
use cloudarq.Ring.Subject.{is_empty_list}
use cloudarq.Ring.Reading.{
  CaveatRules, Classifier, Confinement, no_confinement, not_read, exactly, ValueReader,
  PrefixReader, confine_shape,
}
use cloudarq.Ring.Classify.{
  subject, names_no_tenant, pattern_on, claim_owner, subject_value, subject_prefix, owner_starts,
  Reading, no_reading, add_reading, bounded_in,
}
use cloudarq.Ring.Pins.{
  pinned, exact_platform, place_service, place_issuerless, place_saml_provider, place_tenant,
  aws_owner,
}

module _ (rules : CaveatRules) (c : Classifier) where
  unfoldable pub widened_on : ClaimKey → Bool
  widened_on claim =
      any (λ (cv : Caveat). bytes_eq cv.claim [] || rules.may_name cv.claim c.grant.issuer claim)
        c.grant.admits.caveats

  -- A term's constraint on a claim, which is none where the claim is absent.
  unfoldable pub read_claim : Term → ClaimKey → ValueReader → PrefixReader → Confinement
  read_claim term claim value prefix = elim (lookup claim term) [
    | none ↦ no_confinement
    | some set ↦ confine_shape value prefix (shape_of set)
  ]

  unfoldable pub confine : Term → ClaimKey → ValueReader → PrefixReader → Confinement
  unfolding read_claim widened_on
  confine term claim value prefix =
      let read = read_claim term claim value prefix in
      if is_empty_list read.owners && (not read.unread && widened_on claim)
      then not_read unread_constraint
      else read

  -- The starts that `subject` adds where nothing pins and nothing went unread.
  unfoldable pub with_starts : Tenancy → Confinement → Option StringSet → Confinement
  with_starts t read none = read
  with_starts t read (some set) =
      if is_empty_list read.owners && not read.unread
      then record {
        owners = read.owners;
        unread = read.unread;
        doubt = read.doubt;
        starts = owner_starts c.grant.issuer c.facts t (shape_of set);
        bounded = read.bounded;
      }
      else read

  present : Option StringSet → Bool
  present none = false
  present (some set) = true

  unfoldable pub read_subject : Term → Tenancy → Confinement
  unfolding confine with_starts present
  read_subject term t =
      let set = lookup subject term in
      if present set && is_empty_list t.owner_characters
      then not_read tenancy_not_recorded
      else with_starts t
          (confine term subject (subject_value c.grant.issuer c.facts t)
            (some (subject_prefix c.grant.issuer c.facts t)))
          set

  unfoldable pub request_unread : Bool
  request_unread =
      any
        (λ (cv : Caveat).
          is_service_key cv.claim
          && not (bytes_eq cv.claim external_id_claim && rules.asks_no_value cv))
        c.grant.admits.caveats

  unfoldable pub decide : Reading → Population
  unfolding request_unread
  decide r =
      if not (is_empty_list r.pins)
      then bounded_in r (pinned c r.pins pinned_basis)
      else if r.unread
      then population platform r.doubt
      else if request_unread
      then population platform unread_constraint
      else bounded_in r (exact_platform unpinned r.starts)

  -- The loop of `shared` over the census's claims.
  unfoldable pub read_claims : Term → Tenancy → Reading → List TenancyClaim → Reading
  unfolding confine
  read_claims term t r [] = r
  read_claims term t r (claim ∷ claims) =
      let read =
        confine term claim.claim (exactly (claim_owner c.grant.issuer c.facts t claim))
          (pattern_on claim) in
      let next =
        if scope_eq claim.scope scope_none || names_no_tenant t claim.claim
        then r
        else add_reading r read in
      read_claims term t next claims

  unfoldable pub place_shared : Term → Population
  unfolding read_claims read_subject decide
  place_shared term = elim c.facts.tenancy [
    | none ↦ population platform tenancy_not_recorded
    | some t ↦ decide (add_reading (read_claims term t no_reading t.claims) (read_subject term t))
  ]

  -- The loop of `awsPrincipal`.
  unfoldable pub read_principal : Term → Reading → List ClaimKey → Reading
  unfolding confine
  read_principal term r [] = r
  read_principal term r (claim ∷ claims) =
      read_principal term
        (add_reading r (
          confine term claim (exactly (λ v. aws_owner c (tenant_of_value claim v)))
            (some (λ p. aws_owner c (tenant_of_prefix claim p)))))
        claims

  unfoldable pub place_aws_principal : Term → Population
  unfolding read_principal decide
  place_aws_principal term = decide (read_principal term no_reading tenancy_claims)

  -- `oidc` for an issuer that was surveyed.
  unfoldable pub place_surveyed : Term → Bool → Population
  unfolding place_shared
  place_surveyed term is_per_tenant = elim c.facts.anonymous_tokens [
    | yes ↦ population anyone tokens_without_account
    | unverified ↦ population anyone account_not_verified
    | no ↦ if is_per_tenant then place_tenant c else place_shared term
  ]

  unfoldable pub place_oidc : Term → Population
  unfolding place_surveyed
  place_oidc term = elim c.facts.issuer_kind [
    | not_surveyed ↦ population anyone issuer_not_surveyed
    | shared ↦ place_surveyed term false
    | per_tenant ↦ place_surveyed term true
  ]

  -- `classifier.place`.
  unfoldable pub place_term : Term → List Population
  unfolding place_oidc place_aws_principal
  place_term term =
      let issuer = c.grant.issuer in
      if not c.facts.principal_modelled
      then population anyone principal_not_modelled ∷ []
      else if bytes_eq issuer []
      then place_issuerless c.facts.issuerless
      else if is_saml_issuer issuer
      then place_saml_provider c ∷ []
      else if has_prefix issuer service_issuer_prefix
      then place_service issuer ∷ []
      else if bytes_eq issuer aws_principal_issuer
      then place_aws_principal term ∷ []
      else place_oidc term ∷ []
