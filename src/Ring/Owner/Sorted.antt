-- ===== src/Ring/Owner/Sorted.antt =====
-- internal/ring/classify.go: what sorting owners and dropping repeats makes of them.
use cloudarq.Prelude.{
  ℕ, Bool, true, false, ◌≡◌, refl, ap, ◌∙◌, sym, List, [], ◌∷◌, ◌++◌, ◌==◌, if◌then◌else◌, subst,
  All,
}
use cloudarq.Prelude.Order.Sorting.{sort, compact, sort_compact}
use cloudarq.Prelude.Order.Sorting.Ascending.{IsStrict, sort_compact-IsStrict}
use cloudarq.Prelude.Order.Sorting.Commutes.{sort-append_comm}
use cloudarq.Prelude.Order.Sorting.Merge.{merge_sort-sort}
use cloudarq.Ring.Owner.{
  Owner, Scope, scope_none, scope_owner, scope_repository, scope_enterprise, scope_account,
  scope_organisation, scope_tenant, scope_provider, scope_number, Kind, kind_name, kind_id,
  kind_number, bool_number, OwnerKey, owner_key, owner_order, sort_owners, distinct,
}

scope_of : ℕ → Scope
scope_of n =
    if n == 0
    then scope_none
    else if n == 1
    then scope_owner
    else if n == 2
    then scope_repository
    else if n == 3
    then scope_enterprise
    else if n == 4
    then scope_account
    else if n == 5
    then scope_organisation
    else if n == 6
    then scope_tenant
    else scope_provider

scope_of-number : (s : Scope) → scope_of (scope_number s) ≡ s
unfolding scope_of scope_number
scope_of-number scope_none = refl
scope_of-number scope_owner = refl
scope_of-number scope_repository = refl
scope_of-number scope_enterprise = refl
scope_of-number scope_account = refl
scope_of-number scope_organisation = refl
scope_of-number scope_tenant = refl
scope_of-number scope_provider = refl

kind_of : ℕ → Kind
kind_of n = if n == 0 then kind_name else kind_id

kind_of-number : (k : Kind) → kind_of (kind_number k) ≡ k
unfolding kind_of kind_number
kind_of-number kind_name = refl
kind_of-number kind_id = refl

bool_of : ℕ → Bool
bool_of n = if n == 0 then false else true

bool_of-number : (b : Bool) → bool_of (bool_number b) ≡ b
unfolding bool_of bool_number
bool_of-number true = refl
bool_of-number false = refl

owner_of : OwnerKey → Owner
owner_of (namespace, (scope, (kind, (value, (name, (issuer, (recyclable, declared))))))) = record {
  issuer = issuer;
  namespace = namespace;
  scope = scope_of scope;
  kind = kind_of kind;
  value = value;
  name = name;
  recyclable = bool_of recyclable;
  declared = bool_of declared;
}

owner_of-key : (o : Owner) → owner_of (owner_key o) ≡ o
unfolding owner_of owner_key
owner_of-key o = λ i. record {
  issuer = o.issuer;
  namespace = o.namespace;
  scope = scope_of-number o.scope i;
  kind = kind_of-number o.kind i;
  value = o.value;
  name = o.name;
  recyclable = bool_of-number o.recyclable i;
  declared = bool_of-number o.declared i;
}

-- The comparison tells any two owners apart.
pub owner_key-injective : (a b : Owner) → owner_key a ≡ owner_key b → a ≡ b
owner_key-injective a b e = sym (owner_of-key a) ∙ ap owner_of e ∙ owner_of-key b

-- The merge sort that is written out puts owners in the order of their comparison, as sorting by
-- insertion does.
pub sort_owners-sort : (os : List Owner) → sort_owners os ≡ sort owner_order owner_key os
unfolding sort_owners
sort_owners-sort os = merge_sort-sort owner_order owner_key owner_key-injective os

distinct-sort_compact : (os : List Owner) → distinct os ≡ sort_compact owner_order owner_key os
unfolding distinct sort_compact
distinct-sort_compact os = ap (compact owner_order owner_key) (sort_owners-sort os)

sort_compact_comm :
    (os ps : List Owner)
    → sort_compact owner_order owner_key (os ++ ps) ≡ sort_compact owner_order owner_key (ps ++ os)
unfolding sort_compact
sort_compact_comm os ps = ap (compact owner_order owner_key) (
    sort-append_comm owner_order owner_key (λ _. Unit {0}) (λ a b _ _. owner_key-injective a b) os
      ps (units os) (units ps))
  where
    units : (xs : List Owner) → All (λ _. Unit {0}) xs
    units [] = tt
    units (x ∷ xs) = (tt, units xs)

-- What `distinct` returns is in strictly ascending order, so that no owner stands in it twice, and
-- does not depend on which of two lists of owners comes first.
pub distinct-IsStrict :
    (os ps : List Owner)
    → IsStrict owner_order owner_key (distinct os) × (distinct (os ++ ps) ≡ distinct (ps ++ os))
distinct-IsStrict os ps = (
  subst (IsStrict owner_order owner_key) (sym (distinct-sort_compact os))
      (sort_compact-IsStrict owner_order owner_key os),
  distinct-sort_compact (os ++ ps)
      ∙ sort_compact_comm os ps
      ∙ sym (distinct-sort_compact (ps ++ os)),
)
