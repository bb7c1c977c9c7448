-- ===== src/Ring/Pins/Declared.antt =====
-- internal/ring/classify.go: what declaring an owner does to a pinned population.
use cloudarq.Prelude.{
  ◌≡◌, refl, ap, ap₂, ◌∙◌, sym, inl, inr, true, ◌||◌, ◌&&◌, List, [], ◌∷◌, ◌++◌, any, all, map,
  any-append, Bool-cases, arith,
}
use cloudarq.Ring.Owner.{Owner}
use cloudarq.Ring.Place.{Basis, place_eq, place_number, yours}
use cloudarq.Ring.Declare.{Declaration, names}
use cloudarq.Ring.Reading.{Classifier}
use cloudarq.Ring.Pins.{covered, set_declared, declare_pin, all_declared, pinned}

all_declared-pin :
    (c : Classifier) (pin : List Owner) → all_declared (declare_pin c pin) ≡ all (covered c) pin
unfolding all_declared declare_pin set_declared
all_declared-pin c [] = refl
all_declared-pin c (o ∷ pin) = ap (λ b. covered c o && b) (all_declared-pin c pin)

any_declared-pins :
    (c : Classifier) (pins : List (List Owner))
    → any all_declared (map (declare_pin c) pins) ≡ any (all (covered c)) pins
any_declared-pins c [] = refl
any_declared-pins c (pin ∷ pins) = ap₂ ◌||◌ (all_declared-pin c pin) (any_declared-pins c pins)

-- A pinned population is yours exactly where every owner of one of the pins is declared.
pub pinned_yours :
    (c : Classifier) (pins : List (List Owner)) (basis : Basis)
    → place_eq (pinned c pins basis).place yours ≡ any (all (covered c)) pins
unfolding pinned place_eq place_number
pinned_yours c pins basis = elim (Bool-cases (any all_declared (map (declare_pin c) pins))) [
  | inl e ↦ rw (pinned, e) (sym e ∙ any_declared-pins c pins)
  | inr e ↦ rw (pinned, e) (sym e ∙ any_declared-pins c pins)
]

-- The same grant with more declarations.
abbrev pub declaring : Classifier → List Declaration → Classifier
declaring c more = record { grant = c.grant; facts = c.facts; declared = c.declared ++ more }

covered_more :
    (c : Classifier) (more : List Declaration) (o : Owner)
    → covered c o ≡ true
    → covered (declaring c more) o ≡ true
unfolding covered
covered_more c more o h = any-append (λ d. names d o c.facts) c.declared more ∙ ground arith

all_more :
    (c : Classifier) (more : List Declaration) (pin : List Owner)
    → all (covered c) pin ≡ true
    → all (covered (declaring c more)) pin ≡ true
all_more c more [] h = refl
all_more c more (o ∷ pin) h = ground (arith, covered_more c more o, all_more c more pin)

any_more :
    (c : Classifier) (more : List Declaration) (pins : List (List Owner))
    → any (all (covered c)) pins ≡ true
    → any (all (covered (declaring c more))) pins ≡ true
any_more c more [] h = h
any_more c more (pin ∷ pins) h = ground (arith, all_more c more pin, any_more c more pins)

-- A pinned population that is yours stays yours when more owners are declared.
pub pinned-declaring :
    (c : Classifier) (more : List Declaration) (pins : List (List Owner)) (basis : Basis)
    → place_eq (pinned c pins basis).place yours ≡ true
    → place_eq (pinned (declaring c more) pins basis).place yours ≡ true
pinned-declaring c more pins basis h =
    pinned_yours (declaring c more) pins basis
    ∙ any_more c more pins (sym (pinned_yours c pins basis) ∙ h)
