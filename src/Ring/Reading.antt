-- ===== src/Ring/Reading.antt =====
-- internal/ring/classify.go: what the constraints of one alternative say about who satisfies them.
pub mod Confines
use cloudarq.Prelude.{
  Bool, true, false, not, ◌&&◌, ◌||◌, List, [], ◌++◌, Option, none, some, if◌then◌else◌,
}
use cloudarq.Text.Bytes.{Bytes}
use cloudarq.Eval.Shape.{
  shape_unknown, shape_any, shape_none, shape_exact, shape_glob, shape_union, shape_intersection,
  Shape, Shapes, shape, no_shapes, shapes, literal_prefix,
}
use cloudarq.Eval.Claims.{ClaimKey}
use cloudarq.Eval.Admitted.{Caveat}
use cloudarq.Trust.Issuer.{IssuerRef}
use cloudarq.Trust.Grant.{Grant}
use cloudarq.Ring.Owner.{Owner}
use cloudarq.Ring.Facts.{Facts}
use cloudarq.Ring.Place.{Basis, issuer_not_surveyed, unread_constraint}
use cloudarq.Ring.Declare.{Declaration}
use cloudarq.Ring.Subject.{is_empty_list}

-- The AWS parser's readings of a caveat: which claim of an issuer's tokens it may be on, and
-- whether its condition is met by sending no value. They rest on tables of the parser.
pub record CaveatRules : Type 0 where
  pub may_name : ClaimKey → IssuerRef → ClaimKey → Bool
  pub asks_no_value : Caveat → Bool

pub record Classifier : Type 0 where
  pub grant : Grant
  pub facts : Facts
  pub declared : List Declaration

-- Nil owners and nil starts are the empty list: the code makes no empty slice of either.
pub record Confinement : Type 0 where
  pub owners : List Owner
  pub unread : Bool
  pub doubt : Basis
  pub starts : List Bytes
  pub bounded : Bool

abbrev pub no_confinement : Confinement
no_confinement = record {
  owners = [];
  unread = false;
  doubt = issuer_not_surveyed;
  starts = [];
  bounded = false;
}

unfoldable pub confined_to : List Owner → Bool → Confinement
confined_to owners bounded = record {
  owners = owners;
  unread = false;
  doubt = issuer_not_surveyed;
  starts = [];
  bounded = bounded;
}

unfoldable pub not_read : Basis → Confinement
not_read doubt = record { owners = []; unread = true; doubt = doubt; starts = []; bounded = false }

-- `exactly`.
unfoldable pub exactly : (Bytes → List Owner) → Bytes → Confinement
exactly value v = confined_to (value v) false

-- How an exact value and a literal prefix are read; a pattern is not read where there is none.
abbrev pub ValueReader : Type 0
ValueReader = Bytes → Confinement

abbrev pub PrefixReader : Type 0
PrefixReader = Option (Bytes → List Owner)

-- A member of a union that confines nobody and is no bound.
unfoldable pub is_open : Confinement → Bool
is_open c = is_empty_list c.owners && not c.bounded

unfoldable pub add_member : Confinement → Confinement → Confinement
add_member read member = record {
  owners = read.owners ++ member.owners;
  unread = read.unread;
  doubt = read.doubt;
  starts = read.starts;
  bounded = read.bounded || member.bounded;
}

unfoldable pub add_bound : Option Confinement → Confinement → Option Confinement
add_bound none member = if is_empty_list member.owners then some member else none
add_bound (some b) member = some b

unfoldable pub or_bound : Option Confinement → Confinement → Confinement
or_bound none read = read
or_bound (some b) read = b

module _ (value : ValueReader) (prefix : PrefixReader) where
  unfoldable pub confine_glob : Bytes → Confinement
  unfolding not_read confined_to
  confine_glob text = elim prefix [
    | none ↦ not_read unread_constraint
    | some read ↦ confined_to (read (literal_prefix text)) false
  ]

  -- `confineShape`, with its loops over the members of a union and of an intersection.
  unfoldable mutual
    unfolding confine_glob is_open add_member add_bound or_bound

    pub confine_shape : Shape → Confinement
    confine_shape (shape shape_exact text members) = value text
    confine_shape (shape shape_glob text members) = confine_glob text
    confine_shape (shape shape_union text members) = confine_union no_confinement none members
    confine_shape (shape shape_intersection text members) =
        confine_intersection [] no_confinement members
    confine_shape (shape shape_unknown text members) = not_read unread_constraint
    confine_shape (shape shape_any text members) = no_confinement
    confine_shape (shape shape_none text members) = no_confinement

    pub confine_union : Confinement → Option Confinement → Shapes → Confinement
    confine_union read bound no_shapes = or_bound bound read
    confine_union read bound (shapes m ms) =
        let member = confine_shape m in
        let rest = confine_union (add_member read member) (add_bound bound member) ms in
        if is_open member then member else rest

    pub confine_intersection : List Owner → Confinement → Shapes → Confinement
    confine_intersection owners unread no_shapes =
        if is_empty_list owners then unread else confined_to owners false
    confine_intersection owners unread (shapes m ms) =
        let member = confine_shape m in
        confine_intersection (owners ++ member.owners) (if member.unread then member else unread) ms
