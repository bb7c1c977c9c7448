-- ===== src/Ring/Declare.antt =====
-- internal/ring/declare.go: an owner that the user declared, and which pins it names.
pub mod Grammar
pub mod Lines
use cloudarq.Prelude.{Bool, false, not, ◌&&◌, ◌||◌, [], ◌++◌, none, some, if◌then◌else◌}
use cloudarq.Text.Bytes.{Bytes, codes, bytes_eq}
use cloudarq.Trust.Issuer.{lower_ascii, normalise_issuer}
use cloudarq.Ring.Owner.{
  Namespace, Scope, Owner, scope_eq, is_name_kind, namespace_github, namespace_issuer,
  declaration_of,
}
use cloudarq.Ring.Facts.{Facts}

pub record Declaration : Type 0 where
  pub namespace : Namespace
  pub scope : Scope
  pub name : Bytes
  pub id : Bytes
  pub value : Bytes

-- `Declaration.String`.
unfoldable pub render_declaration : Declaration → Bytes
render_declaration d =
    if not (bytes_eq d.namespace namespace_github)
    then d.namespace ++ (codes ":" ++ d.value)
    else if bytes_eq d.id []
    then codes "github:" ++ d.name
    else codes "github:" ++ (d.name ++ (codes "@" ++ d.id))

unfoldable pub equal_fold_ascii : Bytes → Bytes → Bool
equal_fold_ascii a b = bytes_eq (lower_ascii a) (lower_ascii b)

-- The issuer's key, or "" where it has none.
unfoldable pub issuer_key : Bytes → Bytes
issuer_key issuer = elim (normalise_issuer issuer) [ none ↦ [] | some ref ↦ ref ]

unfoldable pub covers : Declaration → Owner → Bool → Bool
unfolding equal_fold_ascii issuer_key
covers d o ignore_case =
    if bytes_eq o.namespace []
      || (not (bytes_eq d.namespace o.namespace) || not (scope_eq d.scope o.scope))
    then false
    else if bytes_eq d.namespace namespace_github && is_name_kind o.kind
    then not (bytes_eq d.name [])
      && (bytes_eq d.name o.value || (ignore_case && equal_fold_ascii d.name o.value))
    else if bytes_eq d.namespace namespace_github
    then not (bytes_eq d.id []) && bytes_eq d.id o.value
    else if bytes_eq d.namespace namespace_issuer
    then bytes_eq d.value (issuer_key o.issuer)
    else bytes_eq d.value o.value

-- `Declaration.Names`.
unfoldable pub names : Declaration → Owner → Facts → Bool
unfolding covers
names d o f = elim f.tenancy [ none ↦ covers d o false | some t ↦ covers d o t.names_ignore_case ]

-- `Declaration.SpelledLike`.
unfoldable pub spelled_like : Declaration → Owner → Bool
spelled_like d o =
    let written = render_declaration d in
    let pinned = declaration_of o in
    not (bytes_eq pinned [])
    && (not (bytes_eq pinned written) && bytes_eq (lower_ascii pinned) (lower_ascii written))
