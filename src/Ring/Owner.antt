-- ===== src/Ring/Owner.antt =====
-- internal/ring/owner.go, and the order of owners from classify.go.
pub mod Sorted
use cloudarq.Prelude.{
  ℕ, Bool, true, false, ◌&&◌, ◌||◌, ◌++◌, ◌≡◌, ◌↔◌, List, [], ltb, ◌==◌, arith, if◌then◌else◌,
}
use cloudarq.Prelude.Order.{StrictOrder}
use cloudarq.Prelude.Order.Lex.{pair_order}
use cloudarq.Prelude.Order.Sorting.{compact}
use cloudarq.Prelude.Order.Sorting.Merge.{merge_sort}
use cloudarq.Text.Bytes.{Bytes, codes, bytes_eq, bytes_order}
use cloudarq.Text.Quote.{quote}
use cloudarq.Trust.Issuer.{IssuerRef}

abbrev pub Namespace : Type 0
Namespace = Bytes

abbrev pub namespace_github : Namespace
namespace_github = codes "github"

abbrev pub namespace_aws : Namespace
namespace_aws = codes "aws"

abbrev pub namespace_saml : Namespace
namespace_saml = codes "saml"

abbrev pub namespace_issuer : Namespace
namespace_issuer = codes "issuer"

pub data Scope : Type 0 where
  scope_none scope_owner scope_repository scope_enterprise : Scope
  scope_account scope_organisation scope_tenant scope_provider : Scope

-- The number behind a scope.
unfoldable pub scope_number : Scope → ℕ
scope_number scope_none = 0
scope_number scope_owner = 1
scope_number scope_repository = 2
scope_number scope_enterprise = 3
scope_number scope_account = 4
scope_number scope_organisation = 5
scope_number scope_tenant = 6
scope_number scope_provider = 7

unfoldable pub scope_eq : Scope → Scope → Bool
unfolding scope_number
scope_eq s t = scope_number s == scope_number t

unfoldable pub scope_name : Scope → Bytes
scope_name scope_none = codes "none"
scope_name scope_owner = codes "owner"
scope_name scope_repository = codes "repository"
scope_name scope_enterprise = codes "enterprise"
scope_name scope_account = codes "account"
scope_name scope_organisation = codes "organisation"
scope_name scope_tenant = codes "tenant"
scope_name scope_provider = codes "provider"

pub data Kind : Type 0 where
  kind_name kind_id : Kind

unfoldable pub kind_number : Kind → ℕ
kind_number kind_name = 0
kind_number kind_id = 1

unfoldable pub is_name_kind : Kind → Bool
is_name_kind kind_name = true
is_name_kind kind_id = false

unfoldable pub kind_text : Kind → Bytes
kind_text kind_name = codes "name"
kind_text kind_id = codes "id"

pub record Owner : Type 0 where
  pub issuer : IssuerRef
  pub namespace : Namespace
  pub scope : Scope
  pub kind : Kind
  pub value : Bytes
  pub name : Bytes
  pub recyclable : Bool
  pub declared : Bool

-- `Owner.Declaration`.
unfoldable pub declaration_of : Owner → Bytes
unfolding scope_eq is_name_kind
declaration_of o =
    if bytes_eq o.namespace namespace_github
      && (scope_eq o.scope scope_owner && is_name_kind o.kind)
    then codes "github:" ++ o.value
    else if bytes_eq o.namespace namespace_github && scope_eq o.scope scope_owner
    then codes "github:" ++ (o.name ++ (codes "@" ++ o.value))
    else if bytes_eq o.namespace namespace_aws
        && (scope_eq o.scope scope_account || scope_eq o.scope scope_organisation)
    then codes "aws:" ++ o.value
    else if bytes_eq o.namespace namespace_saml && scope_eq o.scope scope_provider
    then codes "saml:" ++ o.value
    else if bytes_eq o.namespace namespace_issuer && scope_eq o.scope scope_tenant
    then codes "issuer:" ++ o.issuer
    else []

-- `Owner.String`.
unfoldable pub render_owner : Owner → Bytes
unfolding scope_name kind_text
render_owner o =
    scope_name o.scope
    ++ (codes " "
        ++ (kind_text o.kind
            ++ (codes " "
                ++ (quote o.value
                    ++ ((if bytes_eq o.name [] then [] else codes " named " ++ quote o.name)
                        ++ (codes " on "
                            ++ (quote o.issuer
                                ++ ((if bytes_eq o.namespace []
                                      then []
                                      else codes " in " ++ o.namespace)
                                    ++ ((if o.recyclable then codes " recyclable" else [])
                                        ++ (if o.declared then codes " declared" else []))))))))))

pub number_eq_iff : (a b : ℕ) → ((a == b) ≡ true) ↔ (a ≡ b)
number_eq_iff a b = ground arith

pub number_lt_irrefl : (a : ℕ) → ltb a a ≡ false
number_lt_irrefl a = ground arith

pub number_lt_trans : (a b c : ℕ) → ltb a b ≡ true → ltb b c ≡ true → ltb a c ≡ true
number_lt_trans a b c h k = ground arith

pub number_lt_total : (a b : ℕ) → ltb a b ≡ false → ltb b a ≡ false → a ≡ b
number_lt_total a b h k = ground arith

-- `cmp.Compare` of integers.
abbrev pub number_order : StrictOrder ℕ
number_order = record {
  lt = ltb;
  eq = λ a b. a == b;
  eq_iff = number_eq_iff;
  lt_irrefl = number_lt_irrefl;
  lt_trans = number_lt_trans;
  lt_total = number_lt_total;
}

-- `compareBool` puts false before true.
unfoldable pub bool_number : Bool → ℕ
bool_number false = 0
bool_number true = 1

-- The fields in the order in which `compareOwners` compares them.
abbrev pub OwnerKey : Type 0
OwnerKey = Bytes × (ℕ × (ℕ × (Bytes × (Bytes × (Bytes × (ℕ × ℕ))))))

unfoldable pub owner_key : Owner → OwnerKey
unfolding scope_number kind_number bool_number
owner_key o = (
  o.namespace,
  (
    scope_number o.scope,
    (
      kind_number o.kind,
      (o.value, (o.name, (o.issuer, (bool_number o.recyclable, bool_number o.declared)))),
    ),
  ),
)

abbrev pub owner_order : StrictOrder OwnerKey
owner_order = pair_order bytes_order (
    pair_order number_order (
      pair_order number_order (
        pair_order bytes_order (
          pair_order bytes_order (pair_order bytes_order (pair_order number_order number_order))))))

unfoldable pub sort_owners : List Owner → List Owner
sort_owners os = merge_sort owner_order owner_key os

unfoldable pub distinct : List Owner → List Owner
unfolding sort_owners
distinct os = compact owner_order owner_key (sort_owners os)
