-- ===== src/Ring/Outermost.antt =====
-- internal/ring/classify.go: Classify, and the outermost place of a grant's populations.
pub mod Reached
pub mod Doubt
pub mod Unmodelled
use cloudarq.Prelude.{
  ℕ, suc, Bool, ◌&&◌, List, [], ◌∷◌, ◌++◌, Option, none, some, any, all, map, ltb, if◌then◌else◌,
}
use cloudarq.Eval.Admitted.{Term, is_empty_admitted}
use cloudarq.Trust.Grant.{Grant, Effect, allow, deny, effect_unknown}
use cloudarq.Ring.Owner.{Owner, distinct}
use cloudarq.Ring.Facts.{Facts}
use cloudarq.Ring.Place.{
  Place, Population, Placement, state_unknown, state_exact, saml, service, place_number, place_eq,
  is_ring, is_exact_state, placed, refused, nobody, Outcome,
}
use cloudarq.Ring.Declare.{Declaration}
use cloudarq.Ring.Reading.{CaveatRules, Classifier}
use cloudarq.Ring.Landing.{place_term}

-- The first loop of `outermost`, with the ring found so far.
unfoldable pub outer_ring : Option Place → List Population → Option Place
outer_ring ring [] = ring
outer_ring none (p ∷ ps) = outer_ring (if is_ring p.place then some p.place else none) ps
outer_ring (some r) (p ∷ ps) =
    let nearer = ltb (place_number p.place) (place_number r) in
    outer_ring (some (if is_ring p.place && nearer then p.place else r)) ps

unfoldable pub reaches : Place → List Population → Bool
reaches q ps = any (λ (p : Population). place_eq p.place q) ps

-- The loop over the two lines beside the rings.
unfoldable pub lines_reached : List Population → List Place
unfolding reaches
lines_reached ps =
    (if reaches saml ps then saml ∷ [] else []) ++ (if reaches service ps then service ∷ [] else [])

unfoldable pub named_places : List Population → List Place
unfolding outer_ring lines_reached
named_places ps = elim (outer_ring none ps) [
  | none ↦ lines_reached ps
  | some r ↦ r ∷ lines_reached ps
]

unfoldable pub reached_exactly : List Population → Place → Bool
reached_exactly ps q = any (λ (p : Population). place_eq p.place q && is_exact_state p.state) ps

-- The owners of the populations at the named places.
unfoldable pub owners_at : List Place → List Population → List Owner
owners_at named [] = []
owners_at named (p ∷ ps) =
    let rest = owners_at named ps in
    if any (λ q. place_eq p.place q) named then p.owners ++ rest else rest

unfoldable pub outermost : List Population → Placement
unfolding named_places reached_exactly owners_at
outermost ps =
    let named = named_places ps in
    record {
      outcome = placed;
      places = named;
      state = if all (reached_exactly ps) named then state_exact else state_unknown;
      owners = distinct (owners_at named ps);
      populations = ps;
    }

-- A placement that lets nobody in.
unfoldable pub not_placed : Outcome → Placement
not_placed outcome = record {
  outcome = outcome;
  places = [];
  state = state_unknown;
  owners = [];
  populations = [];
}

-- What the inner loop of `Classify` makes of one population of the term.
unfoldable pub of_term : ℕ → Effect → Population → Population
of_term i effect p = record {
  term = i;
  place = p.place;
  state = elim effect [ allow ↦ p.state | deny ↦ p.state | effect_unknown ↦ state_unknown ];
  basis = p.basis;
  owners = p.owners;
  owner_starts = p.owner_starts;
  bounded = p.bounded;
}

module _ (rules : CaveatRules) where
  -- The loops of `Classify`, from the term of number `i` on.
  unfoldable pub populations_from : Classifier → ℕ → List Term → List Population
  unfolding of_term
  populations_from c i [] = []
  populations_from c i (t ∷ ts) =
      map (of_term i c.grant.effect) (place_term rules c t) ++ populations_from c (suc i) ts

  unfoldable pub classify : Grant → Facts → List Declaration → Placement
  unfolding populations_from outermost not_placed
  classify g facts declared =
      let c : Classifier = record { grant = g; facts = facts; declared = declared } in
      let landed =
        if is_empty_admitted g.admits
        then not_placed nobody
        else outermost (populations_from c 0 g.admits.terms) in
      elim g.effect [ deny ↦ not_placed refused | allow ↦ landed | effect_unknown ↦ landed ]
