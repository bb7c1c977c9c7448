-- ===== src/Ring/Place.antt =====
-- internal/ring/place.go: the places, what decided them, and how they print.
use cloudarq.Prelude.{ℕ, Bool, true, false, List, [], ◌∷◌, ◌++◌, leb, ◌==◌, map}
use cloudarq.Text.Bytes.{Bytes, codes}
use cloudarq.Text.Parts.{join_parts}
use cloudarq.Ring.Owner.{Owner, render_owner}

pub data Place : Type 0 where
  anyone platform outsider yours people saml service : Place

unfoldable pub place_number : Place → ℕ
place_number anyone = 0
place_number platform = 1
place_number outsider = 2
place_number yours = 3
place_number people = 4
place_number saml = 5
place_number service = 6

unfoldable pub place_eq : Place → Place → Bool
unfolding place_number
place_eq p q = place_number p == place_number q

unfoldable pub place_name : Place → Bytes
place_name anyone = codes "anyone"
place_name platform = codes "platform"
place_name outsider = codes "outsider"
place_name yours = codes "yours"
place_name people = codes "people"
place_name saml = codes "saml"
place_name service = codes "service"

-- `Place.Ring`.
unfoldable pub is_ring : Place → Bool
unfolding place_number
is_ring p = leb (place_number p) (place_number people)

pub data State : Type 0 where
  state_unknown state_exact : State

unfoldable pub is_exact_state : State → Bool
is_exact_state state_unknown = false
is_exact_state state_exact = true

unfoldable pub state_name : State → Bytes
state_name state_unknown = codes "unknown"
state_name state_exact = codes "exact"

pub data Basis : Type 0 where
  issuer_not_surveyed tokens_without_account account_not_verified any_issuer : Basis
  principal_not_modelled unpinned unread_constraint tenancy_not_recorded open_tenant : Basis
  membership_not_verified pinned_basis controlled_tenant saml_provider : Basis
  account_saml_basis service_principal any_service service_intermediary : Basis

unfoldable pub is_tenancy_not_recorded : Basis → Bool
is_tenancy_not_recorded tenancy_not_recorded = true
is_tenancy_not_recorded _ = false

pub data Outcome : Type 0 where
  placed refused nobody : Outcome

-- `OwnerStarts` is nil where it is the empty list.
pub record Population : Type 0 where
  pub term : ℕ
  pub place : Place
  pub state : State
  pub basis : Basis
  pub owners : List Owner
  pub owner_starts : List Bytes
  pub bounded : Bool

pub record Placement : Type 0 where
  pub outcome : Outcome
  pub places : List Place
  pub state : State
  pub owners : List Owner
  pub populations : List Population

-- A population of which the other fields have their zero values.
unfoldable pub population : Place → Basis → Population
population p b = record {
  term = 0;
  place = p;
  state = state_unknown;
  basis = b;
  owners = [];
  owner_starts = [];
  bounded = false;
}

unfoldable pub render_owners : List Owner → Bytes
render_owners [] = []
render_owners (o ∷ os) =
    codes " [" ++ (join_parts (codes "; ") (map render_owner (o ∷ os)) ++ codes "]")

-- `Placement.String`.
unfoldable pub render_placement : Placement → Bytes
unfolding place_name state_name render_owners
render_placement p = elim p.outcome [
  | refused ↦ codes "refused"
  | nobody ↦ codes "nobody"
  | placed ↦
      join_parts (codes "+") (map place_name p.places)
      ++ (codes " " ++ (state_name p.state ++ render_owners p.owners))
]
