-- ===== src/Ring/Facts.antt =====
-- internal/ring/facts.go: what is known of a grant's issuer and of the statement it came from.
use cloudarq.Prelude.{ℕ, Bool, false, List, Option, none, []}
use cloudarq.Text.Bytes.{Bytes}
use cloudarq.Eval.Claims.{ClaimKey}
use cloudarq.Aws.Tenancy.{Population, every_issuer}
use cloudarq.Ring.Owner.{Namespace, Scope, Kind, kind_name}

pub data IssuerKind : Type 0 where
  not_surveyed shared per_tenant : IssuerKind

pub data Established : Type 0 where
  unverified yes no : Established

pub data Membership : Type 0 where
  membership_unverified controlled open_to_anyone : Membership

pub record TenancyClaim : Type 0 where
  pub claim : ClaimKey
  pub scope : Scope
  pub kind : Kind
  pub recyclable : Established

pub record Part : Type 0 where
  pub kind : Kind
  pub delimiter : Bytes

pub record SubjectForm : Type 0 where
  pub lead : Bytes
  pub scope : Scope
  pub parts : List Part

-- The runes from `first` to `last`.
pub record CharRange : Type 0 where
  pub first : ℕ
  pub last : ℕ

pub record Tenancy : Type 0 where
  pub claims : List TenancyClaim
  pub not_tenancy : List ClaimKey
  pub subject_forms : List SubjectForm
  pub never_pin : List Bytes
  pub owner_characters : List CharRange
  pub names_ignore_case : Bool

pub record Tenant : Type 0 where
  pub value : Bytes
  pub kind : Kind
  pub recyclable : Established
  pub membership : Membership

pub record Facts : Type 0 where
  pub issuer_kind : IssuerKind
  pub namespace : Namespace
  pub anonymous_tokens : Established
  pub tenancy : Option Tenancy
  pub tenant : Tenant
  pub issuerless : Population
  pub principal_modelled : Bool

-- The zero value, which knows nothing.
abbrev pub no_facts : Facts
no_facts = record {
  issuer_kind = not_surveyed;
  namespace = [];
  anonymous_tokens = unverified;
  tenancy = none;
  tenant = record {
    value = [];
    kind = kind_name;
    recyclable = unverified;
    membership = membership_unverified;
  };
  issuerless = every_issuer;
  principal_modelled = false;
}
