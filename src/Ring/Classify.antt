-- ===== src/Ring/Classify.antt =====
-- internal/ring/classify.go: where each alternative of a grant lands, and the grant.
use cloudarq.Prelude.{
  Bool, true, false, not, ◌&&◌, ◌||◌, List, [], ◌∷◌, ◌++◌, Option, none, some, any, ◌==◌,
  if◌then◌else◌,
}
use cloudarq.Text.Bytes.{Bytes, codes, bytes_eq}
use cloudarq.Eval.Shape.{
  shape_any, shape_none, shape_unknown, shape_exact, shape_glob, shape_union, shape_intersection,
  Shape, Shapes, shape, no_shapes, shapes, literal_prefix,
}
use cloudarq.Eval.Claims.{ClaimKey}
use cloudarq.Trust.Issuer.{IssuerRef, has_prefix}
use cloudarq.Ring.Owner.{Owner, scope_eq, scope_owner, scope_repository, is_name_kind}
use cloudarq.Ring.Facts.{Facts, Tenancy, TenancyClaim}
use cloudarq.Ring.Place.{
  Basis, Population, state_unknown, issuer_not_surveyed, is_tenancy_not_recorded,
}
use cloudarq.Ring.Subject.{
  is_empty_list, is_not_no, owner_run, subject_owners, some_form_reads, written_start, longer_of,
  shortest,
}
use cloudarq.Ring.Reading.{Confinement, confined_to, PrefixReader, confine_shape}

abbrev pub subject : ClaimKey
subject = codes "sub"

-- `strings.CutSuffix(s, "*")`, where it finds the star.
unfoldable pub cut_star : Bytes → Option Bytes
cut_star [] = none
cut_star (b ∷ []) = if b == b'*' then some [] else none
cut_star (b ∷ c ∷ s) = elim (cut_star (c ∷ s)) [ none ↦ none | some t ↦ some (b ∷ t) ]

is_listed : ClaimKey → ClaimKey → Bool
is_listed claim listed =
    bytes_eq listed claim
    || elim (cut_star listed) [ none ↦ false | some prefix ↦ has_prefix claim prefix ]

unfoldable pub names_no_tenant : Tenancy → ClaimKey → Bool
unfolding is_listed
names_no_tenant t claim = any (is_listed claim) t.not_tenancy

unfoldable pub no_owner : Bytes → List Owner
no_owner v = []

unfoldable pub pattern_on : TenancyClaim → PrefixReader
pattern_on claim =
    if scope_eq claim.scope scope_repository && is_name_kind claim.kind then none else some no_owner

-- `strings.ContainsAny(v, "*?")`.
holds_wildcard : Bytes → Bool
holds_wildcard v = any (λ b. b == b'*' || b == b'?') v

-- The two readings of a subject that depend on no caveat.
module _ (issuer : IssuerRef) (facts : Facts) (t : Tenancy) where
  unfoldable pub claim_owner : TenancyClaim → Bytes → List Owner
  claim_owner claim v =
      if bytes_eq v []
        || (scope_eq claim.scope scope_owner
            && (not (is_empty_list t.owner_characters) && not (bytes_eq (owner_run t v) v)))
      then []
      else record {
        issuer = issuer;
        namespace = facts.namespace;
        scope = claim.scope;
        kind = claim.kind;
        value = v;
        name = [];
        recyclable = is_not_no claim.recyclable;
        declared = false;
      }
        ∷ []

  unfoldable pub subject_value : Bytes → Confinement
  unfolding holds_wildcard
  subject_value v =
      if not (holds_wildcard v)
      then confined_to (subject_owners issuer facts.namespace t v true) false
      else if some_form_reads issuer facts.namespace t v
      then confined_to (subject_owners issuer facts.namespace t v true) true
      else confined_to (subject_owners issuer facts.namespace t (literal_prefix v) false) true

  unfoldable pub subject_prefix : Bytes → List Owner
  subject_prefix p = subject_owners issuer facts.namespace t p false

  -- `ownerStarts`, with its loops over the members of a union and of an intersection.
  unfoldable mutual
    unfolding subject_value subject_prefix

    pub owner_starts : Shape → List Bytes
    owner_starts (shape shape_glob text members) =
        let start = written_start issuer facts.namespace t (literal_prefix text) in
        if is_empty_list start then [] else start ∷ []
    owner_starts (shape shape_union text members) = union_starts [] members
    owner_starts (shape shape_intersection text members) = intersection_starts [] members
    owner_starts (shape shape_exact text members) = []
    owner_starts (shape shape_any text members) = []
    owner_starts (shape shape_none text members) = []
    owner_starts (shape shape_unknown text members) = []

    pub union_starts : List Bytes → Shapes → List Bytes
    union_starts starts no_shapes = shortest starts
    union_starts starts (shapes m ms) =
        let own = owner_starts m in
        let skipped = union_starts starts ms in
        let onward = union_starts (starts ++ own) ms in
        if not (is_empty_list (confine_shape subject_value (some subject_prefix) m).owners)
        then skipped
        else if is_empty_list own
        then []
        else onward

    pub intersection_starts : List Bytes → Shapes → List Bytes
    intersection_starts starts no_shapes = shortest starts
    intersection_starts starts (shapes m ms) =
        let own = owner_starts m in
        let skipped = intersection_starts starts ms in
        let first = intersection_starts own ms in
        let both = longer_of starts own in
        let onward = intersection_starts both ms in
        if is_empty_list own
        then skipped
        else if is_empty_list starts
        then first
        else if is_empty_list both
        then []
        else onward

-- What the constraints of an alternative say together.
pub record Reading : Type 0 where
  pub pins : List (List Owner)
  pub unread : Bool
  pub doubt : Basis
  pub starts : List Bytes
  pub bounded : Bool

abbrev pub no_reading : Reading
no_reading = record {
  pins = [];
  unread = false;
  doubt = issuer_not_surveyed;
  starts = [];
  bounded = false;
}

-- `reading.add`.
unfoldable pub add_reading : Reading → Confinement → Reading
add_reading r c =
    let bounded = r.bounded || c.bounded in
    if not (is_empty_list c.owners)
    then record {
      pins = r.pins ++ c.owners ∷ [];
      unread = r.unread;
      doubt = r.doubt;
      starts = r.starts;
      bounded = bounded;
    }
    else if c.unread && (not r.unread || is_tenancy_not_recorded c.doubt)
    then record {
      pins = r.pins;
      unread = true;
      doubt = c.doubt;
      starts = r.starts;
      bounded = bounded;
    }
    else if not (is_empty_list c.starts)
    then record {
      pins = r.pins;
      unread = r.unread;
      doubt = r.doubt;
      starts = c.starts;
      bounded = bounded;
    }
    else record {
      pins = r.pins;
      unread = r.unread;
      doubt = r.doubt;
      starts = r.starts;
      bounded = bounded;
    }

-- `reading.boundedIn`.
unfoldable pub bounded_in : Reading → Population → Population
bounded_in r p =
    if r.bounded
    then record {
      term = p.term;
      place = p.place;
      state = state_unknown;
      basis = p.basis;
      owners = p.owners;
      owner_starts = p.owner_starts;
      bounded = true;
    }
    else p
