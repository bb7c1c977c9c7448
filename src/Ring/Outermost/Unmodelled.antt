-- ===== src/Ring/Outermost/Unmodelled.antt =====
-- internal/ring/classify.go: the grant of a principal that the parser did not model.
use cloudarq.Prelude.{
  ℕ, suc, ◌≤◌, ◌≡◌, ◌≢◌, refl, inl, inr, ◌⊎◌, false, List, [], ◌∷◌, some, none, All, length, arith,
}
use cloudarq.Eval.Admitted.{Term, is_empty_admitted}
use cloudarq.Trust.Grant.{Grant, Effect, allow, deny, effect_unknown}
use cloudarq.Ring.Facts.{Facts}
use cloudarq.Ring.Place.{
  Place, Population, anyone, saml, service, place_eq, place_number, is_ring, is_exact_state,
  state_unknown, population, principal_not_modelled,
}
use cloudarq.Ring.Declare.{Declaration}
use cloudarq.Ring.Reading.{CaveatRules, Classifier}
use cloudarq.Ring.Landing.{place_term}
use cloudarq.Ring.Outermost.{
  outer_ring, reaches, lines_reached, named_places, reached_exactly, outermost, of_term,
  populations_from, classify,
}
use cloudarq.Ring.Outermost.Doubt.{some_term, populations_nonempty}

-- The population of a principal that is not modelled.
abbrev IsUnmodelled : Population → Type 0
IsUnmodelled p = (p.place ≡ anyone) × (p.state ≡ state_unknown)

outer_anyone :
    (ps : List Population) → All IsUnmodelled ps → outer_ring (some anyone) ps ≡ some anyone
unfolding outer_ring is_ring place_number
outer_anyone [] h = refl
outer_anyone (p ∷ ps) h = rw (outer_ring, h.0.0) (outer_anyone ps h.1)

not_reached :
    (ps : List Population) (q : Place)
    → All IsUnmodelled ps
    → place_eq anyone q ≡ false
    → reaches q ps ≡ false
unfolding reaches
not_reached [] q h k = refl
not_reached (p ∷ ps) q h k = rw (reaches, h.0.0, k) (not_reached ps q h.1 k)

not_exactly :
    (ps : List Population) (q : Place) → All IsUnmodelled ps → reached_exactly ps q ≡ false
unfolding reached_exactly is_exact_state
not_exactly [] q h = refl
not_exactly (p ∷ ps) q h = rw (reached_exactly, h.0.1) (ground (arith, not_exactly ps q h.1))

found_anyone :
    (p : Population) (ps : List Population)
    → All IsUnmodelled (p ∷ ps)
    → outer_ring none (p ∷ ps) ≡ some anyone
unfolding outer_ring is_ring place_number
found_anyone p ps h = rw (outer_ring, h.0.0) (outer_anyone ps h.1)

named_anyone :
    (p : Population) (ps : List Population)
    → All IsUnmodelled (p ∷ ps)
    → named_places (p ∷ ps) ≡ anyone ∷ []
unfolding named_places lines_reached place_eq place_number
named_anyone p ps h =
    rw
      (
        named_places,
        found_anyone p ps h,
        lines_reached,
        not_reached (p ∷ ps) saml h refl,
        not_reached (p ∷ ps) service h refl,
      )
      refl

outermost_unmodelled :
    (ps : List Population)
    → All IsUnmodelled ps
    → 1 ≤ length ps
    → ((outermost ps).places ≡ anyone ∷ []) × ((outermost ps).state ≡ state_unknown)
unfolding outermost
outermost_unmodelled [] h k = absurd (omega arith)
outermost_unmodelled (p ∷ ps) h k =
    let named = named_anyone p ps h in
    (named, rw (outermost, named, not_exactly (p ∷ ps) anyone h) refl)

of_term-IsUnmodelled :
    (i : ℕ) (e : Effect) → IsUnmodelled (of_term i e (population anyone principal_not_modelled))
unfolding of_term population
of_term-IsUnmodelled i allow = (refl, refl)
of_term-IsUnmodelled i deny = (refl, refl)
of_term-IsUnmodelled i effect_unknown = (refl, refl)

effect-cases : (e : Effect) → (e ≡ allow) ⊎ ((e ≡ deny) ⊎ (e ≡ effect_unknown))
effect-cases allow = inl refl
effect-cases deny = inr (inl refl)
effect-cases effect_unknown = inr (inr refl)

module _ (rules : CaveatRules) where
  populations-IsUnmodelled :
      (c : Classifier) (i : ℕ) (ts : List Term)
      → c.facts.principal_modelled ≡ false
      → All IsUnmodelled (populations_from rules c i ts)
  unfolding populations_from place_term
  populations-IsUnmodelled c i [] h = tt
  populations-IsUnmodelled c i (t ∷ ts) h =
      rw (populations_from, place_term, h)
        (of_term-IsUnmodelled i c.grant.effect, populations-IsUnmodelled c (suc i) ts h)

  -- A grant of a principal that the parser did not model, unless it is a Deny or provably empty,
  -- lands with anyone, and never exactly.
  pub classify-unmodelled :
      (g : Grant) (facts : Facts) (declared : List Declaration)
      → facts.principal_modelled ≡ false
      → g.effect ≢ deny
      → is_empty_admitted g.admits ≡ false
      → ((classify rules g facts declared).places ≡ anyone ∷ [])
        × ((classify rules g facts declared).state ≡ state_unknown)
  unfolding classify is_empty_admitted
  classify-unmodelled g facts declared h n e =
      let c : Classifier = record { grant = g; facts = facts; declared = declared } in
      let landed =
        outermost_unmodelled (populations_from rules c 0 g.admits.terms)
          (populations-IsUnmodelled c 0 g.admits.terms h)
          (populations_nonempty rules c 0 g.admits.terms (some_term rules g.admits.terms e)) in
      elim (effect-cases g.effect) [
        | inl q ↦ rw (classify, q, e) landed
        | inr (inl q) ↦ absurd (n q)
        | inr (inr q) ↦ rw (classify, q, e) landed
      ]
