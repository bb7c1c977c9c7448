-- ===== src/Aws/Operator/Facts.antt =====
-- internal/parse/aws/condition.go: what `evaluate` says of an operator.
use cloudarq.Prelude.{
  Bool, true, false, not, ◌&&◌, ◌||◌, List, [], ◌∷◌, ◌++◌, Option, none, some, length, ◌==◌,
  if◌then◌else◌,
}
use cloudarq.Text.Bytes.{Bytes, codes, bytes_eq}
use cloudarq.Text.Quote.{quote}
use cloudarq.Trust.Issuer.{IssuerRef}
use cloudarq.Trust.Grant.{Effect, deny}
use cloudarq.Aws.Operator.{
  Operator, all_values, any_value, is_complement, vacuous_sentence, complement_sentence,
  null_sentence,
}
use cloudarq.Aws.Values.{Fact}
use cloudarq.Aws.Json.{
  kind_bool, kind_string, kind_array, Value, value, no_values, next_value, describe,
}
use cloudarq.Aws.Scope.{KeyReading, claim_read, multivalued_read}
use cloudarq.Aws.Scope.Facts.{unmodelled_fact}

-- The value that `nullMessage` reads: the item of a list of one, and else the value itself.
unfoldable pub null_value : Value → Value
null_value (value kind_array text boolean (next_value v no_values) raw) = v
null_value v = v

-- The polarity, where it is one.
unfoldable pub polarity_of : Value → Option Bool
polarity_of (value kind_bool text boolean items raw) = some boolean
polarity_of (value kind_string text boolean items raw) =
    if bytes_eq text (codes "true")
    then some true
    else if bytes_eq text (codes "false")
    then some false
    else none
polarity_of _ = none

unfoldable pub quote_or_describe : Value → Bytes
quote_or_describe (value kind_string text boolean items raw) = quote text
quote_or_describe v = describe v

unfoldable pub null_message : Value → Bytes → Bytes
unfolding null_value polarity_of quote_or_describe
null_message v on = elim (polarity_of (null_value v)) [
  | some polarity ↦ null_sentence on polarity
  | none ↦
      on
      ++ (codes " has the value "
          ++ (quote_or_describe v
              ++ codes
                  ", which is neither \"true\" nor \"false\", so the claim is not constrained"))
]

unfoldable pub vacuous_for : Effect → Operator → Bytes → Bytes
vacuous_for deny op on =
    if op.negated
    then on
      ++ codes
          " passes when the claim is absent, so this Deny denies tokens without the claim as well as every token whose claim does not match the values it names"
    else on
      ++ codes
          " passes when the claim is absent, so this Deny denies tokens without the claim as well as the ones it names"
vacuous_for _ op on = vacuous_sentence on

-- What the switch on the operator says, where it says anything.
unfoldable pub operator_message : Effect → Operator → Bytes → Value → Option Bytes
unfolding vacuous_for null_message is_complement
operator_message effect op on v =
    if not op.recognised
    then some (
        codes "operator "
        ++ (on ++ codes " is not modelled by this parser, so the claim is not constrained"))
    else if bytes_eq op.set_prefix all_values || op.if_exists
    then some (vacuous_for effect op on)
    else if bytes_eq op.set_prefix any_value
    then some (
        on
        ++ codes
            " compares a set of request values, which this parser does not model, so the claim is not constrained")
    else if bytes_eq op.base (codes "Null")
    then some (null_message v on)
    else if is_complement op.base
    then some (complement_sentence on)
    else if bytes_eq op.base (codes "StringEqualsIgnoreCase")
    then some (
        on
        ++ codes
            " matches the value in any casing, which this parser cannot express, so the claim is not constrained")
    else if not (bytes_eq op.base (codes "StringEquals"))
        && not (bytes_eq op.base (codes "StringLike"))
    then some (
        codes "operator "
        ++ (on ++ codes " is not modelled by this parser, so the claim is not constrained"))
    else none

unfoldable pub operator_facts : Bytes → Option Bytes → List Fact
operator_facts operator none = []
operator_facts operator (some message) = unmodelled_fact operator operator message ∷ []

unfoldable pub is_one_value : KeyReading → Bool
is_one_value claim_read = true
is_one_value _ = false

-- `severalValues`.
unfoldable pub several_values : KeyReading → Bytes → Bytes → IssuerRef → Fact
several_values multivalued_read key on issuer = unmodelled_fact (codes "multivalued key") key (
    on
    ++ (codes " has no set prefix, and AWS documents the condition key "
        ++ (quote key
            ++ codes
                " as multivalued, which a policy tests with condition set operators; what an operator without one does on such a key AWS does not document, so the claim is not constrained")))
several_values _ key on issuer = unmodelled_fact (codes "multi-valued claim") key (
    on
    ++ (codes " has no set prefix, and a token of "
        ++ (quote issuer
            ++ (codes " may carry several values in the claim AWS reads the condition key "
                ++ (quote key
                    ++ codes
                        " from; how many of them AWS compares, and what an operator without a set prefix does on them, AWS does not document, so the claim is not constrained")))))

unfoldable pub several_facts : KeyReading → Operator → Bytes → Bytes → IssuerRef → List Fact
unfolding is_one_value several_values
several_facts values op key on issuer =
    if not (is_one_value values)
      && (length op.set_prefix == 0 && not (bytes_eq op.base (codes "Null")))
    then several_values values key on issuer ∷ []
    else []
