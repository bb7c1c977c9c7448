-- ===== src/Ring/Declare/Grammar.antt =====
-- internal/ring/declare.go: reading the owners that a user declares.
pub mod Texts
use cloudarq.Prelude.{
  ℕ, suc, Bool, true, false, not, ◌&&◌, ◌||◌, List, [], ◌∷◌, ◌++◌, Option, none, some, all, any,
  map, length, take, ltb, leb, ◌==◌, if◌then◌else◌,
}
use cloudarq.Prelude.Order.Sorting.{sort}
use cloudarq.Text.Bytes.{Bytes, codes, bytes_eq, bytes_order}
use cloudarq.Text.Utf8.{Piece, ascii, bad, rune, pieces, runes}
use cloudarq.Text.Split.{split}
use cloudarq.Eval.Claims.{Claims, put}
use cloudarq.Trust.Issuer.{IssuerRef, is_space, lower_ascii, https}
use cloudarq.Aws.Tenancy.{Tenant, is_saml_issuer, tenancy_claims, tenant_of_value}
use cloudarq.Ring.Owner.{
  Scope, scope_owner, scope_provider, scope_tenant, namespace_github, namespace_aws, namespace_saml,
  namespace_issuer,
}
use cloudarq.Ring.Declare.{Declaration, render_declaration}
use cloudarq.Ring.Pins.{aws_scope}

-- `NoReason` is a line that declares an owner.
pub data Reason : Type 0 where
  not_utf8 no_namespace unknown_namespace claims_not_read no_owner a_repository : Reason
  not_a_github_owner not_an_aws_id not_a_saml_provider not_an_issuer_url : Reason

-- What a line says: an owner, or why it declares nothing.
pub data Line : Type 0 where
  declares : Declaration → Line
  refuses : Reason → Line

is_valid_piece : Piece → Bool
is_valid_piece (bad b) = false
is_valid_piece _ = true

-- `utf8.ValidString`.
unfoldable pub is_utf8 : Bytes → Bool
unfolding is_valid_piece
is_utf8 s = all is_valid_piece (pieces s)

-- `strings.Cut`: what stands before the separator, and behind it where it is there.
unfoldable pub cut : ℕ → Bytes → Bytes × Option Bytes
cut sep [] = ([], none)
cut sep (b ∷ s) =
    let (before, after) = cut sep s in if b == sep then ([], some s) else (b ∷ before, after)

unfoldable pub is_name : Bytes → Bool
is_name s =
    not (bytes_eq s [])
    && all (λ r. not (leb r b' ' || (ltb b'~' r || (r == b':' || (r == b'@' || r == b'/')))))
        (runes s)

unfoldable pub is_number : Bytes → Bool
is_number s = not (bytes_eq s []) && all (λ r. leb 48 r && leb r 57) (runes s)

-- A declaration of a GitHub owner by its name, its id or both.
unfoldable pub github_owner : Bytes → Bytes → Line
github_owner name id =
    declares (record {
      namespace = namespace_github;
      scope = scope_owner;
      name = name;
      id = id;
      value = [];
    })

unfoldable pub with_value : Bytes → Scope → Bytes → Line
with_value namespace scope value =
    declares (record { namespace = namespace; scope = scope; name = []; id = []; value = value })

-- What `githubDeclaration` makes of the two sides of the sign between a name and an id.
unfoldable pub github_parts : Bytes → Option Bytes → Line
unfolding github_owner is_name is_number
github_parts name none = if is_name name then github_owner name [] else refuses not_a_github_owner
github_parts name (some id) =
    if (is_name name || bytes_eq name []) && is_number id
    then github_owner name id
    else refuses not_a_github_owner

unfoldable pub github_declaration : Bytes → Line
unfolding github_parts cut
github_declaration value =
    let (name, id) = cut b'@' value in
    if bytes_eq value []
    then refuses no_owner
    else if any (λ b. b == b'/') value
    then refuses a_repository
    else github_parts name id

-- The test in the loop of `awsDeclaration`.
unfoldable pub names_value : Bytes → Option Tenant → Option Scope
names_value value none = none
names_value value (some t) = if bytes_eq t.id value then some (aws_scope t.scope) else none

unfoldable pub aws_from : Bytes → List Bytes → Line
unfolding names_value with_value
aws_from value [] = refuses not_an_aws_id
aws_from value (claim ∷ claims) =
    let rest = aws_from value claims in
    elim (names_value value (tenant_of_value claim value)) [
      | none ↦ rest
      | some scope ↦ with_value namespace_aws scope value
    ]

unfoldable pub aws_declaration : Bytes → Line
unfolding aws_from
aws_declaration value = aws_from value tenancy_claims

-- The AWS parser's `ProviderIssuer`, which asks its folding tables, is a parameter.
module _ (provider_issuer : Bytes → Option IssuerRef) where
  unfoldable pub issuer_declaration : Bytes → Line
  unfolding with_value
  issuer_declaration value =
      if ltb (length value) (length https)
        || (not (bytes_eq (lower_ascii (take (length https) value)) https)
            || any is_space (runes value))
      then refuses not_an_issuer_url
      else elim (provider_issuer value) [
        | none ↦ refuses not_an_issuer_url
        | some issuer ↦ with_value namespace_issuer scope_tenant issuer
      ]

  unfoldable pub read_value : Bytes → Bytes → Line
  unfolding github_declaration aws_declaration issuer_declaration
  read_value namespace value =
      if bytes_eq namespace namespace_github
      then github_declaration value
      else if bytes_eq namespace namespace_aws
      then aws_declaration value
      else if bytes_eq namespace namespace_saml
      then (if is_saml_issuer value
          then with_value namespace_saml scope_provider value
          else refuses not_a_saml_provider)
      else if bytes_eq namespace namespace_issuer
      then issuer_declaration value
      else if bytes_eq namespace (codes "gitlab")
          || (bytes_eq namespace (codes "terraform") || bytes_eq namespace (codes "buildkite"))
      then refuses claims_not_read
      else refuses unknown_namespace

  -- `declaration`.
  unfoldable pub read_line : Bytes → Line
  unfolding read_value
  read_line line =
      let (namespace, value) = cut b':' line in
      if not (is_utf8 line) then refuses not_utf8 else elim value [
        | none ↦ refuses no_namespace
        | some v ↦ read_value (lower_ascii namespace) v
      ]
