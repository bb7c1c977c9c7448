-- ===== src/Ring/Outermost/Doubt.antt =====
-- internal/ring/classify.go: the grants that are never placed exactly, or never near.
use cloudarq.Prelude.{
  ℕ, suc, ◌≤◌, ◌≡◌, refl, sym, inl, inr, Bool, true, false, not, List, [], ◌∷◌, ◌++◌, map, all, All,
  All-append, length, Bool-cases, arith, if◌then◌else◌, subst, ◌==◌,
}
use cloudarq.Text.Bytes.{bytes_eq}
use cloudarq.Eval.Admitted.{Term, is_empty_admitted}
use cloudarq.Trust.Issuer.{has_prefix}
use cloudarq.Trust.Grant.{Grant, effect_unknown}
use cloudarq.Aws.Tenancy.{
  service_issuer_prefix, is_saml_issuer, aws_principal_issuer, Population, every_issuer,
  aws_services, account_saml_providers, aws_services_and_account_saml_providers,
}
use cloudarq.Ring.Facts.{Facts}
use cloudarq.Ring.Place.{
  Place, Population as Landed, State, place_eq, is_exact_state, state_unknown,
}
use cloudarq.Ring.Declare.{Declaration}
use cloudarq.Ring.Reading.{CaveatRules, Classifier}
use cloudarq.Ring.Pins.{place_issuerless}
use cloudarq.Ring.Landing.{place_term}
use cloudarq.Ring.Outermost.{
  reaches, named_places, reached_exactly, outermost, of_term, populations_from, classify,
  not_placed,
}
use cloudarq.Ring.Outermost.Reached.{named_places-covered, covered_by}

-- No population of the list was read exactly.
abbrev IsDoubtful : List Landed → Type 0
IsDoubtful ps = All (λ (p : Landed). is_exact_state p.state ≡ false) ps

not_reached_exactly : (ps : List Landed) (q : Place) → IsDoubtful ps → reached_exactly ps q ≡ false
unfolding reached_exactly
not_reached_exactly [] q h = refl
not_reached_exactly (p ∷ ps) q h = ground (arith, not_reached_exactly ps q h.1)

named_nonempty : (ps : List Landed) → 1 ≤ length ps → 1 ≤ length (named_places ps)
named_nonempty [] h = absurd (omega arith)
named_nonempty (p ∷ ps) h =
    from_cover (named_places (p ∷ ps))
      (named_places-covered (p ∷ ps) p.place (unfold reaches place_eq in ground arith))
  where
    from_cover : (named : List Place) → covered_by named p.place ≡ true → 1 ≤ length named
    from_cover [] c = ground arith
    from_cover (q ∷ named) c = omega arith

outermost_doubtful :
    (ps : List Landed) → IsDoubtful ps → 1 ≤ length ps → (outermost ps).state ≡ state_unknown
unfolding outermost
outermost_doubtful ps h k = from_named (named_places ps) (named_nonempty ps k)
  where
    from_named :
        (named : List Place)
        → 1 ≤ length named
        → (if all (reached_exactly ps) named then State.state_exact else state_unknown)
          ≡ state_unknown
    from_named [] n = absurd (omega arith)
    from_named (q ∷ named) n = rw (not_reached_exactly ps q h) refl

if_nonempty :
    (b : Bool) (xs ys : List Landed)
    → 1 ≤ length xs
    → 1 ≤ length ys
    → 1 ≤ length (if b then xs else ys)
if_nonempty true xs ys h k = h
if_nonempty false xs ys h k = k

issuerless_nonempty : (p : Population) → 1 ≤ length (place_issuerless p)
unfolding place_issuerless
issuerless_nonempty aws_services = omega arith
issuerless_nonempty account_saml_providers = omega arith
issuerless_nonempty aws_services_and_account_saml_providers = omega arith
issuerless_nonempty every_issuer = omega arith

IsDoubtful-terms : (i : ℕ) (ps : List Landed) → IsDoubtful (map (of_term i effect_unknown) ps)
unfolding of_term is_exact_state
IsDoubtful-terms i [] = tt
IsDoubtful-terms i (p ∷ ps) = (refl, IsDoubtful-terms i ps)

length-map_append :
    (f : Landed → Landed) (ps qs : List Landed) → 1 ≤ length ps → 1 ≤ length (map f ps ++ qs)
length-map_append f [] qs h = absurd (omega arith)
length-map_append f (p ∷ ps) qs h = omega arith

module _ (rules : CaveatRules) where
  pub place_term_nonempty : (c : Classifier) (t : Term) → 1 ≤ length (place_term rules c t)
  unfolding place_term
  place_term_nonempty c t = if_nonempty (not c.facts.principal_modelled) _ _ (omega arith) (
      if_nonempty (bytes_eq c.grant.issuer []) _ _ (issuerless_nonempty c.facts.issuerless) (
        if_nonempty (is_saml_issuer c.grant.issuer) _ _ (omega arith) (
          if_nonempty (has_prefix c.grant.issuer service_issuer_prefix) _ _ (omega arith) (
            if_nonempty (bytes_eq c.grant.issuer aws_principal_issuer) _ _ (omega arith)
              (omega arith)))))

  pub populations_nonempty :
      (c : Classifier) (i : ℕ) (ts : List Term)
      → 1 ≤ length ts
      → 1 ≤ length (populations_from rules c i ts)
  unfolding populations_from
  populations_nonempty c i [] h = absurd (omega arith)
  populations_nonempty c i (t ∷ ts) h =
      length-map_append (of_term i c.grant.effect) (place_term rules c t)
        (populations_from rules c (suc i) ts) (place_term_nonempty c t)

  populations-IsDoubtful :
      (c : Classifier) (i : ℕ) (ts : List Term)
      → c.grant.effect ≡ effect_unknown
      → IsDoubtful (populations_from rules c i ts)
  unfolding populations_from
  populations-IsDoubtful c i [] h = tt
  populations-IsDoubtful c i (t ∷ ts) h =
      All-append _ (map (of_term i c.grant.effect) (place_term rules c t))
        (populations_from rules c (suc i) ts)
        (subst (λ e. IsDoubtful (map (of_term i e) (place_term rules c t))) (sym h)
          (IsDoubtful-terms i (place_term rules c t)))
        (populations-IsDoubtful c (suc i) ts h)

  pub some_term : (ts : List Term) → (length ts == 0) ≡ false → 1 ≤ length ts
  some_term [] h = ground arith
  some_term (t ∷ ts) h = omega arith

  -- A grant of which the effect could not be read is never placed exactly.
  pub classify-doubtful :
      (g : Grant) (facts : Facts) (declared : List Declaration)
      → g.effect ≡ effect_unknown
      → (classify rules g facts declared).state ≡ state_unknown
  unfolding classify not_placed is_empty_admitted
  classify-doubtful g facts declared h =
      let c : Classifier = record { grant = g; facts = facts; declared = declared } in
      elim (Bool-cases (is_empty_admitted g.admits)) [
        | inl e ↦ rw (classify, h, e) refl
        | inr e ↦
            rw (classify, h, e)
              (outermost_doubtful (populations_from rules c 0 g.admits.terms)
                (populations-IsDoubtful c 0 g.admits.terms h)
                (populations_nonempty c 0 g.admits.terms (some_term g.admits.terms e)))
      ]
