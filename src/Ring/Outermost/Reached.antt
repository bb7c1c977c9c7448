-- ===== src/Ring/Outermost/Reached.antt =====
-- internal/ring/classify.go: the places that a placement names are those its populations reach.
use cloudarq.Prelude.{
  ◌≡◌, refl, ap, ◌∙◌, inl, inr, ◌⊎◌, Bool, true, false, not, ◌||◌, ◌&&◌, List, [], ◌∷◌, some, none,
  any, all, leb, ◌==◌, Bool-cases, arith, ltb,
}
use cloudarq.Ring.Place.{
  Place, saml, service, place_number, place_eq, is_ring, Population, anyone, platform, outsider,
  yours, people,
}
use cloudarq.Ring.Outermost.{outer_ring, reaches, lines_reached, named_places}

abbrev pub not_nearer : Place → Place → Bool
not_nearer r q = not (is_ring q) || leb (place_number r) (place_number q)

all_not_nearer : Place → List Population → Bool
all_not_nearer r ps = all (λ (p : Population). not_nearer r p.place) ps

-- What the first loop has found of the populations, with the ring it began with.
abbrev OuterFrom : Place → List Population → Place → Type 0
OuterFrom r ps q =
    (outer_ring (some r) ps ≡ some q)
    × (is_ring q ≡ true)
    × (leb (place_number q) (place_number r) ≡ true)
    × ((place_eq r q || reaches q ps) ≡ true)
    × (all_not_nearer q ps ≡ true)

outer_from : (r : Place) (ps : List Population) → is_ring r ≡ true → (q : Place) × OuterFrom r ps q
unfolding all_not_nearer outer_ring reaches place_eq
outer_from r [] h = (r, (refl, h, ground arith, ground arith, refl))
outer_from r (p ∷ ps) h =
    elim (Bool-cases (is_ring p.place && ltb (place_number p.place) (place_number r))) [
      | inl e ↦
          let (q, (same, ring, near, found, rest)) = outer_from p.place ps (ground arith) in
          (q, (rw (outer_ring, e) same, ring, ground arith, ground arith, ground arith))
      | inr e ↦
          let (q, (same, ring, near, found, rest)) = outer_from r ps h in
          (q, (rw (outer_ring, e) same, ring, near, ground arith, ground arith))
    ]

-- The outermost ring of the populations.
abbrev IsOutermost : List Population → Place → Type 0
IsOutermost ps q =
    (outer_ring none ps ≡ some q)
    × (is_ring q ≡ true)
    × (reaches q ps ≡ true)
    × (all_not_nearer q ps ≡ true)

-- Without a ring to begin with: no population is on one, or the outermost is found.
abbrev OuterNone : List Population → Type 0
OuterNone ps =
    ((outer_ring none ps ≡ none) × (any (λ (p : Population). is_ring p.place) ps ≡ false))
    ⊎ ((q : Place) × IsOutermost ps q)

outer_none : (ps : List Population) → OuterNone ps
unfolding all_not_nearer outer_ring reaches
outer_none [] = inl (refl, refl)
outer_none (p ∷ ps) = elim (Bool-cases (is_ring p.place)) [
  | inl e ↦
      let (q, (same, ring, near, found, rest)) = outer_from p.place ps e in
      inr (q, (rw (outer_ring, e) same, ring, found, ground arith))
  | inr e ↦ elim (outer_none ps) [
    | inl (same, away) ↦ inl (rw (outer_ring, e) same, ground arith)
    | inr (q, (same, ring, found, rest)) ↦
        inr (q, (rw (outer_ring, e) same, ring, ground arith, ground arith))
  ]
]

-- A place that a population reaches is on a line or is not nearer than the outermost ring.
reached_ring :
    (ps : List Population) (q : Place)
    → any (λ (p : Population). is_ring p.place) ps ≡ false
    → reaches q ps ≡ true
    → is_ring q ≡ false
unfolding reaches place_eq is_ring
reached_ring [] q h k = ground arith
reached_ring (p ∷ ps) q h k = ground (arith, reached_ring ps q)

reached_not_nearer :
    (ps : List Population) (r q : Place)
    → all_not_nearer r ps ≡ true
    → reaches q ps ≡ true
    → not_nearer r q ≡ true
unfolding all_not_nearer reaches place_eq is_ring
reached_not_nearer [] r q h k = ground arith
reached_not_nearer (p ∷ ps) r q h k = ground (arith, reached_not_nearer ps r q)

reaches_same :
    (ps : List Population) (q r : Place) → place_eq q r ≡ true → reaches q ps ≡ reaches r ps
unfolding reaches place_eq
reaches_same ps q r e =
    let same : place_number q ≡ place_number r = ground arith in
    ap (λ n. any (λ (p : Population). place_number p.place == n) ps) same

any-lines :
    (f : Place → Bool) (ps : List Population)
    → any f (lines_reached ps) ≡ ((reaches saml ps && f saml) || (reaches service ps && f service))
unfolding lines_reached
any-lines f ps = elim (Bool-cases (reaches saml ps)) [
  | inl e ↦ elim (Bool-cases (reaches service ps)) [
    | inl u ↦ rw (lines_reached, e, u) (ground arith)
    | inr u ↦ rw (lines_reached, e, u) (ground arith)
  ]
  | inr e ↦ elim (Bool-cases (reaches service ps)) [
    | inl u ↦ rw (lines_reached, e, u) (ground arith)
    | inr u ↦ rw (lines_reached, e, u) refl
  ]
]

-- A place beside the rings is one of the two lines.
beside : (q : Place) → is_ring q ≡ false → (place_eq q saml || place_eq q service) ≡ true
unfolding is_ring place_eq place_number
beside saml h = refl
beside service h = refl
beside anyone h = ground arith
beside platform h = ground arith
beside outsider h = ground arith
beside yours h = ground arith
beside people h = ground arith

-- The place is named, or it is a ring and one that is no nearer is named.
abbrev pub covered_by : List Place → Place → Bool
covered_by named q = any (λ r. place_eq q r || (is_ring q && (is_ring r && not_nearer r q))) named

lines_cover :
    (ps : List Population) (q : Place)
    → reaches q ps ≡ true
    → is_ring q ≡ false
    → covered_by (lines_reached ps) q ≡ true
lines_cover ps q h k =
    any-lines (λ r. place_eq q r || (is_ring q && (is_ring r && not_nearer r q))) ps
    ∙ ground (arith, beside q k, reaches_same ps q saml, reaches_same ps q service)

lines_are_reached :
    (ps : List Population) (q : Place)
    → any (place_eq q) (lines_reached ps) ≡ true
    → reaches q ps ≡ true
lines_are_reached ps q h =
    let e = any-lines (place_eq q) ps in
    ground (arith, reaches_same ps q saml, reaches_same ps q service)

named_both :
    (ps : List Population) (q : Place)
    → (any (place_eq q) (named_places ps) ≡ true → reaches q ps ≡ true)
      × (reaches q ps ≡ true → covered_by (named_places ps) q ≡ true)
unfolding named_places
named_both ps q = elim (outer_none ps) [
  | inl (same, away) ↦
      rw (named_places, same)
        (lines_are_reached ps q, λ h. lines_cover ps q h (reached_ring ps q away h))
  | inr (r, (same, ring, found, rest)) ↦
      rw (named_places, same)
        (
          λ h. ground (arith, lines_are_reached ps q, reaches_same ps q r),
          λ h. elim (Bool-cases (is_ring q)) [
            | inl e ↦ ground (arith, reached_not_nearer ps r q rest h)
            | inr e ↦ ground (arith, lines_cover ps q h e)
          ],
        )
]

-- Every place that a placement names is reached by one of its populations.
pub named_places-reached :
    (ps : List Population) (q : Place)
    → any (place_eq q) (named_places ps) ≡ true
    → reaches q ps ≡ true
named_places-reached ps q = (named_both ps q).0

-- A place that a population reaches is named, or it is a ring and a ring that is not nearer is
-- named.
pub named_places-covered :
    (ps : List Population) (q : Place) → reaches q ps ≡ true → covered_by (named_places ps) q ≡ true
named_places-covered ps q = (named_both ps q).1
