-- ===== src/Ring/Declare/Grammar/Texts.antt =====
-- internal/ring/declare.go: the text of a declaration is what was read.
use cloudarq.Prelude.{
  ℕ, ◌≡◌, refl, ap, sym, inl, inr, false, ◌&&◌, ◌||◌, List, [], ◌∷◌, ◌++◌, Option, some, none, any,
  Bool-cases, Option-cases, arith, ◌==◌, if◌then◌else◌, subst,
}
use cloudarq.Text.Bytes.{Bytes, codes, bytes_eq, bytes_eq_iff}
use cloudarq.Trust.Issuer.{IssuerRef, lower_ascii}
use cloudarq.Aws.Tenancy.{is_saml_issuer, tenant_of_value, tenancy_claims}
use cloudarq.Ring.Owner.{
  Scope, scope_provider, namespace_github, namespace_aws, namespace_saml, namespace_issuer,
}
use cloudarq.Ring.Declare.{Declaration, render_declaration}
use cloudarq.Ring.Declare.Grammar.{
  Line, declares, refuses, cut, is_name, is_number, github_owner, with_value, github_parts,
  github_declaration, names_value, aws_from, aws_declaration, read_value, not_a_saml_provider,
  is_utf8, read_line,
}

-- Where the line declares an owner, its text is `text`.
abbrev TextOf : Bytes → Line → Type 0
TextOf text (declares d) = render_declaration d ≡ text
TextOf text (refuses reason) = Unit

-- The two sides of a cut and the separator are the text.
abbrev Joins : ℕ → Bytes → Bytes × Option Bytes → Type 0
Joins sep s (before, none) = s ≡ before
Joins sep s (before, some after) = s ≡ before ++ sep ∷ after

Joins-cons :
    (sep b : ℕ) (s before : Bytes) (after : Option Bytes)
    → Joins sep s (before, after)
    → Joins sep (b ∷ s) (b ∷ before, after)
Joins-cons sep b s before none h = ap (◌∷◌ b) h
Joins-cons sep b s before (some after) h = ap (◌∷◌ b) h

cut-Joins : (sep : ℕ) (s : Bytes) → Joins sep s (cut sep s)
unfolding cut
cut-Joins sep [] = refl
cut-Joins sep (b ∷ s) = elim (Bool-cases (b == sep)) [
  | inl e ↦ let same : b ≡ sep = ground arith in rw e (ap (λ x. x ∷ s) same)
  | inr e ↦ rw e (Joins-cons sep b s (cut sep s).0 (cut sep s).1 (cut-Joins sep s))
]

github-TextOf :
    (name : Bytes) (id : Option Bytes) (value : Bytes)
    → Joins b'@' value (name, id)
    → TextOf (codes "github:" ++ value) (github_parts name id)
unfolding github_parts github_owner render_declaration bytes_eq
github-TextOf name none value h = elim (Bool-cases (is_name name)) [
  | inl e ↦ rw e (ap (λ x. codes "github:" ++ x) (sym h))
  | inr e ↦ rw e tt
]
github-TextOf name (some []) value h = elim (Bool-cases (is_name name || bytes_eq name [])) [
  | inl e ↦ rw e tt
  | inr e ↦ rw e tt
]
github-TextOf name (some (c ∷ id)) value h =
    elim (Bool-cases ((is_name name || bytes_eq name []) && is_number (c ∷ id))) [
      | inl e ↦ rw e (ap (λ x. codes "github:" ++ x) (sym h))
      | inr e ↦ rw e tt
    ]

value-TextOf :
    (namespace : Bytes) (scope : Scope) (value : Bytes)
    → bytes_eq namespace namespace_github ≡ false
    → TextOf (namespace ++ (codes ":" ++ value)) (with_value namespace scope value)
unfolding with_value render_declaration
value-TextOf namespace scope value h = rw h refl

github_declaration-TextOf :
    (value : Bytes) → TextOf (codes "github:" ++ value) (github_declaration value)
unfolding github_declaration
github_declaration-TextOf value = elim (Bool-cases (bytes_eq value [])) [
  | inl e ↦ rw e tt
  | inr e ↦ elim (Bool-cases (any (λ b. b == b'/') value)) [
    | inl u ↦ rw (e, u) tt
    | inr u ↦
        rw (e, u) (github-TextOf (cut b'@' value).0 (cut b'@' value).1 value (cut-Joins b'@' value))
  ]
]

aws_from-TextOf :
    (value : Bytes) (claims : List Bytes) → TextOf (codes "aws:" ++ value) (aws_from value claims)
unfolding aws_from
aws_from-TextOf value [] = tt
aws_from-TextOf value (claim ∷ claims) =
    elim (Option-cases (names_value value (tenant_of_value claim value))) [
      | inl e ↦ rw (aws_from, e) (aws_from-TextOf value claims)
      | inr (scope, e) ↦
          rw (aws_from, e) (value-TextOf namespace_aws scope value (unfold bytes_eq in refl))
    ]

-- What `declaration` makes of a SAML provider.
abbrev saml_line : Bytes → Line
saml_line value =
    if is_saml_issuer value
    then with_value namespace_saml scope_provider value
    else refuses not_a_saml_provider

saml-TextOf : (value : Bytes) → TextOf (codes "saml:" ++ value) (saml_line value)
saml-TextOf value = elim (Bool-cases (is_saml_issuer value)) [
  | inl e ↦ rw e (value-TextOf namespace_saml scope_provider value (unfold bytes_eq in refl))
  | inr e ↦ rw e tt
]

module _ (provider_issuer : Bytes → Option IssuerRef) where
  read_value-TextOf :
      (namespace value : Bytes)
      → bytes_eq namespace namespace_issuer ≡ false
      → TextOf (namespace ++ (codes ":" ++ value)) (read_value provider_issuer namespace value)
  unfolding read_value
  read_value-TextOf n value h = elim (Bool-cases (bytes_eq n namespace_github)) [
    | inl e ↦
        let same = sym ((bytes_eq_iff n namespace_github).0 e) in
        rw e (
          subst (λ x. TextOf (x ++ (codes ":" ++ value)) (github_declaration value)) same
            (github_declaration-TextOf value))
    | inr e ↦ elim (Bool-cases (bytes_eq n namespace_aws)) [
      | inl u ↦
          let same = sym ((bytes_eq_iff n namespace_aws).0 u) in
          rw (e, u)
            (subst (λ x. TextOf (x ++ (codes ":" ++ value)) (aws_declaration value)) same
              (unfold aws_declaration in aws_from-TextOf value tenancy_claims))
      | inr u ↦ elim (Bool-cases (bytes_eq n namespace_saml)) [
        | inl w ↦
            let same = sym ((bytes_eq_iff n namespace_saml).0 w) in
            rw (e, u, w)
              (subst (λ x. TextOf (x ++ (codes ":" ++ value)) (saml_line value)) same
                (saml-TextOf value))
        | inr w ↦
            elim (Bool-cases (
              bytes_eq n (codes "gitlab")
              || (bytes_eq n (codes "terraform") || bytes_eq n (codes "buildkite")))) [
                | inl x ↦ rw (e, u, w, h, x) tt
                | inr x ↦ rw (e, u, w, h, x) tt
              ]
      ]
    ]
  ]

  read_line-TextOf :
      (line namespace value : Bytes)
      → cut b':' line ≡ (namespace, some value)
      → bytes_eq (lower_ascii namespace) namespace_issuer ≡ false
      → TextOf (lower_ascii namespace ++ (codes ":" ++ value)) (read_line provider_issuer line)
  unfolding read_line
  read_line-TextOf line namespace value e h = elim (Bool-cases (is_utf8 line)) [
    | inl u ↦
        rw (read_line, u, ap (λ z. z.1) e, ap (λ z. z.0) e)
          (read_value-TextOf (lower_ascii namespace) value h)
    | inr u ↦ rw (read_line, u) tt
  ]

  -- The text of an owner that a line declares, other than a tenant of an issuer, is the line with
  -- its namespace, which stands before the first colon, in lower case.
  pub render_declaration-read_line :
      (line namespace value : Bytes) (d : Declaration)
      → cut b':' line ≡ (namespace, some value)
      → bytes_eq (lower_ascii namespace) namespace_issuer ≡ false
      → read_line provider_issuer line ≡ declares d
      → render_declaration d ≡ lower_ascii namespace ++ (codes ":" ++ value)
  render_declaration-read_line line namespace value d e h r =
      subst (TextOf (lower_ascii namespace ++ (codes ":" ++ value))) r
        (read_line-TextOf line namespace value e h)
