-- ===== src/Aws/Scope/Facts.antt =====
-- internal/parse/aws/condition.go: what `evaluate` says of a condition key.
use cloudarq.Prelude.{
  Bool, true, false, not, ◌&&◌, List, [], ◌∷◌, ◌++◌, none, some, length, ◌==◌, if◌then◌else◌,
}
use cloudarq.Text.Bytes.{Bytes, codes}
use cloudarq.Text.Quote.{quote}
use cloudarq.Eval.Claims.{ClaimKey}
use cloudarq.Trust.Grant.{Anomaly}
use cloudarq.Aws.Folding.{CaseTables, variable_reference, folds_beyond_ascii}
use cloudarq.Aws.Variables.{VariableMode}
use cloudarq.Aws.Values.{Fact, unmodelled, is_literal_mode}
use cloudarq.Aws.Principal.{Principal, may_own}
use cloudarq.Aws.Scope.{
  KeyConstraint, KeyScope, KeyReading, ClaimVocabulary, own_key, identity_claim, request_context,
  foreign_key, unknown_provider, no_prefix, not_a_name, issuer_not_known, key_not_documented,
  claim_read, multivalued_read, multi_valued_claim_read,
}

-- A fact of the kind `unmodelled`.
abbrev pub unmodelled_fact : Bytes → Bytes → Bytes → Fact
unmodelled_fact reason construct message = record {
  reason = reason;
  kind = unmodelled;
  construct = construct;
  message = message;
}

abbrev pub malformed : Bytes
malformed = codes "malformed"

abbrev pub key_text : Bytes → Bytes
key_text key = codes "the condition key " ++ quote key

unfoldable pub repeat_facts : KeyConstraint → List Fact
repeat_facts c =
    if length c.repeated.message == 0
    then []
    else record {
      reason = c.repeated.what;
      kind = codes "duplicate-key";
      construct = c.operator;
      message = c.repeated.message;
    }
      ∷ []

unfoldable pub fold_facts : CaseTables → Bytes → List Fact
fold_facts tables key =
    if folds_beyond_ascii tables key
    then unmodelled_fact (codes "folding of " ++ key) key (
        key_text key
        ++ codes
            " holds a letter outside ASCII with case variants of its own; AWS documents no folding for it, so which key it names is not known and the claim is not constrained")
      ∷ []
    else []

unfoldable pub is_own : KeyScope → Bool
is_own own_key = true
is_own _ = false

unfoldable pub provider_facts : CaseTables → Principal → KeyScope → Bytes → List Fact
unfolding is_own
provider_facts tables p scope key =
    if not (is_own scope) && may_own tables p key
    then unmodelled_fact (codes "folding of provider " ++ p.identifier) key (
        key_text key
        ++ (codes " is a claim of the Federated principal "
            ++ (quote p.text
                ++ codes
                    " if AWS folds letters outside ASCII, which no page documents, so which key it names is not known and the claim is not constrained")))
      ∷ []
    else []

unfoldable pub variable_facts : VariableMode → Bytes → List Fact
variable_facts mode key = elim (variable_reference key) [
  | none ↦ []
  | some reference ↦
      if is_literal_mode mode
      then []
      else unmodelled_fact reference reference (
          key_text key
          ++ (codes " holds the policy variable "
              ++ (reference
                  ++ codes
                      "; AWS documents variables in condition values and the Resource element, not in keys, so which key it names is not known and the claim is not constrained")))
        ∷ []
]

unfoldable pub key_notes : VariableMode → ClaimKey → Bytes → Bytes → List Anomaly
key_notes mode claim key src = elim (variable_reference key) [
  | none ↦ []
  | some reference ↦
      if is_literal_mode mode
      then record {
        kind = codes "variable-is-literal";
        claim = claim;
        construct = reference;
        message =
            key_text key
            ++ (codes " holds "
                ++ (quote reference
                    ++ codes
                        ", which is literal text because this document's Version does not resolve policy variables; if a variable was meant, the condition does not do what it looks like it does"));
        source = src;
      }
        ∷ []
      else []
]

-- The facts that set `keyNotKnown`.
unfoldable pub key_facts : CaseTables → Principal → VariableMode → KeyScope → Bytes → List Fact
unfolding fold_facts provider_facts variable_facts
key_facts tables p mode scope key =
    fold_facts tables key ++ (provider_facts tables p scope key ++ variable_facts mode key)

-- What the vocabulary says of an own key: the claim, the reading of its values and the facts.
unfoldable pub read_own :
    Principal → Bool → ClaimKey → Bytes → ClaimKey × KeyReading → ClaimKey × KeyReading × List Fact
read_own p known claim key (name, claim_read) = (name, claim_read, [])
read_own p known claim key (name, multivalued_read) = (name, multivalued_read, [])
read_own p known claim key (name, multi_valued_claim_read) = (name, multi_valued_claim_read, [])
read_own p false claim key (name, key_not_documented) = (claim, claim_read, [])
read_own p true claim key (name, key_not_documented) = (
  claim,
  claim_read,
  unmodelled_fact (codes "key not documented") key (
        key_text key
        ++ (codes " is not one AWS documents for the tokens of "
            ++ (quote p.issuer
                ++ codes
                    ", so whether a request carries it is not known and the claim is not constrained")))
      ∷ [],
)
read_own p known claim key (name, issuer_not_known) = (
  claim,
  claim_read,
  unmodelled_fact (codes "vocabulary of " ++ (p.issuer ++ codes " unknown")) key (
        codes "the claim vocabulary of "
        ++ (quote p.issuer
            ++ (codes " is not known to this parser, so the spelling "
                ++ (quote claim
                    ++ (codes " of the condition key "
                        ++ (quote key
                            ++ codes
                                " cannot be reconciled with the token's and the claim is not constrained"))))))
      ∷ [],
)

-- The switch on the scope of a key: the claim, the reading of its values and the facts.
unfoldable pub read_scope :
    ClaimVocabulary
    → Principal
    → Bool
    → ClaimKey
    → Bytes
    → KeyScope
    → ClaimKey × KeyReading × List Fact
unfolding read_own
read_scope vocabulary p known claim key own_key =
    read_own p known claim key (vocabulary p.issuer claim)
read_scope vocabulary p known claim key identity_claim = (claim, claim_read, [])
read_scope vocabulary p known claim key foreign_key = (claim, claim_read, [])
read_scope vocabulary p known claim key not_a_name = (
  claim,
  claim_read,
  record {
    reason = claim;
    kind = malformed;
    construct = key;
    message = key_text key ++ codes " names no claim, so the claim is not constrained";
  }
      ∷ [],
)
read_scope vocabulary p known claim key no_prefix = (
  claim,
  claim_read,
  record {
    reason = claim;
    kind = malformed;
    construct = key;
    message =
        key_text key
        ++ codes
            " has no provider prefix, so which request value it names is not known and the claim is not constrained";
  }
      ∷ [],
)
read_scope vocabulary p known claim key request_context = (
  claim,
  claim_read,
  unmodelled_fact claim key (
        key_text key
        ++ codes
            " is a fact about the request, not a claim of the token, so this parser does not evaluate it and the claim is not constrained")
      ∷ [],
)
read_scope vocabulary p known claim key unknown_provider = (
  claim,
  claim_read,
  unmodelled_fact claim key (
        key_text key
        ++ codes
            " is a claim of a provider this statement does not name; with every principal admitted, which provider populates it is not known, so the claim is not constrained")
      ∷ [],
)
