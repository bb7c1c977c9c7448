-- ===== src/Aws/Condition/Exact.antt =====
-- internal/parse/aws/condition.go: `evaluate` reads a condition as it stands, or leaves its claim
-- unconstrained and says why.
use cloudarq.Prelude.{
  ◌≤◌, ◌≡◌, refl, ap, ◌∙◌, inl, inr, ◌⊎◌, true, List, [], ◌∷◌, ◌++◌, All, any, length,
  length-append, arith, Bool-cases, Option, none, some, ◌==◌, sym,
}
use cloudarq.Text.Bytes.{Bytes, codes, IsBytes, bytes_eq}
use cloudarq.Eval.StringSet.{StringSet}
use cloudarq.Eval.Claims.{ClaimKey}
use cloudarq.Trust.Grant.{Anomaly, Effect}
use cloudarq.Trust.Issuer.{IssuerRef}
use cloudarq.Aws.Folding.{CaseTables}
use cloudarq.Aws.Operator.{Operator, parse_operator}
use cloudarq.Aws.Variables.{VariableMode}
use cloudarq.Aws.Values.{Fact, ValueSet}
use cloudarq.Aws.Values.Admitted.{value_admits}
use cloudarq.Aws.Json.{Value, Leaves, leaf_texts, leaves}
use cloudarq.Aws.Principal.{Principal}
use cloudarq.Aws.Scope.{KeyConstraint, scope_of, ClaimVocabulary, KeyReading}
use cloudarq.Aws.Scope.Facts.{repeat_facts, key_facts, key_notes, read_scope}
use cloudarq.Aws.Operator.Facts.{operator_message, operator_facts, several_facts}
use cloudarq.Aws.Condition.Read.{
  IsNarrow, facts_contain, holds, IsRead, operator_message-IsRead, values_of-ReadsValues,
}
use cloudarq.Aws.Condition.{
  ConditionReading, values_of, Evaluation, wildcard_notes, outcome_of, with_values, evaluate_read,
  evaluate_scope, evaluate, on_text,
}

-- An outcome holds what the listed texts admit, under an operator that is read, and says nothing.
abbrev pub ReadExactly : Operator → Value → VariableMode → Evaluation → Type 0
ReadExactly op v mode o =
    (texts : List Bytes) × (leaves v ≡ leaf_texts texts)
    × IsRead op
    × (o.anomalies ≡ [])
    × ((x : Bytes)
        → holds o.set x ≡ any (value_admits mode (bytes_eq op.base (codes "StringLike")) x) texts)
    × IsNarrow o.set

-- That, or it says why it holds every value.
abbrev pub Evaluated : Operator → Value → VariableMode → Evaluation → Type 0
Evaluated op v mode o =
    ReadExactly op v mode o ⊎ ((1 ≤ length o.anomalies) × ((x : Bytes) → holds o.set x ≡ true))

outcome_told :
    (claim : ClaimKey) (src : Bytes) (set : Option StringSet) (notes : List Anomaly)
    (fs : List Fact)
    → 1 ≤ length fs
    → (1 ≤ length (outcome_of claim src set notes fs).anomalies)
      × ((x : Bytes) → holds (outcome_of claim src set notes fs).set x ≡ true)
unfolding outcome_of
outcome_told claim src set notes [] l = absurd (omega arith)
outcome_told claim src set notes (f ∷ fs) l = (omega arith, λ x. facts_contain f fs x)

outcome_quiet :
    (claim : ClaimKey) (src : Bytes) (set : Option StringSet) (notes : List Anomaly)
    (fs : List Fact)
    → fs ≡ []
    → ((outcome_of claim src set notes fs).anomalies ≡ [])
      × ((outcome_of claim src set notes fs).set ≡ set)
unfolding outcome_of
outcome_quiet claim src set notes [] e = (refl, refl)
outcome_quiet claim src set notes (f ∷ fs) e = cc e

nothing_said : (fs : List Fact) → length fs ≡ 0 → fs ≡ []
nothing_said [] e = refl
nothing_said (f ∷ fs) e = absurd (omega arith)

with_values-Evaluated :
    (r : ConditionReading) (mode : VariableMode) (src : Bytes) (notes : List Anomaly)
    → (length r.facts ≡ 0 → IsRead r.op)
    → ((texts : List Bytes) → leaves r.constraint.value ≡ leaf_texts texts → All IsBytes texts)
    → Evaluated r.op r.constraint.value mode (with_values r mode src notes)
unfolding with_values
with_values-Evaluated r mode src notes ok h =
    let found : Leaves = leaves r.constraint.value in
    let read : ValueSet = values_of r mode src found in
    let said : List Anomaly = notes ++ (read.notes ++ wildcard_notes r src found) in
    elim (Bool-cases (length r.facts == 0)) [
      | inr told ↦ inr (
          outcome_told r.claim src read.set said (r.facts ++ read.facts)
            (ground (arith, length-append r.facts read.facts, told)))
      | inl quiet ↦
          let none_yet : length r.facts ≡ 0 = ground (arith, quiet) in
          elim (values_of-ReadsValues r mode src found none_yet (ok none_yet) h) [
            | inr told ↦ inr (
                outcome_told r.claim src read.set said (r.facts ++ read.facts)
                  (omega (arith, length-append r.facts read.facts)))
            | inl (texts, e, silent, says, narrow) ↦
                let no_facts : r.facts ++ read.facts ≡ [] =
                  ap (λ fs. fs ++ read.facts) (nothing_said r.facts none_yet) ∙ silent in
                let (quiet_end, same) =
                  outcome_quiet r.claim src read.set said (r.facts ++ read.facts) no_facts in
                inl (
                  texts,
                  e,
                  ok none_yet,
                  quiet_end,
                  λ x. ap (λ o. holds o x) same ∙ says x,
                  λ s f. narrow s (sym same ∙ f),
                )
          ]
    ]

no_message :
    (operator : Bytes) (o : Option Bytes) → length (operator_facts operator o) ≡ 0 → o ≡ none
unfolding operator_facts
no_message operator none e = refl
no_message operator (some message) e = absurd (omega arith)

evaluate_read-IsRead :
    (c : KeyConstraint) (issuer : IssuerRef) (effect : Effect) (known : List Fact)
    (read : ClaimKey × KeyReading × List Fact)
    → length (evaluate_read c issuer effect known read).facts ≡ 0
    → IsRead (evaluate_read c issuer effect known read).op
unfolding evaluate_read
evaluate_read-IsRead c issuer effect known (claim, values, said) e =
    let op : Operator = parse_operator c.operator in
    let on : Bytes = on_text c claim in
    let message : Option Bytes = operator_message effect op on c.value in
    let told : List Fact = operator_facts c.operator message in
    let several : List Fact = several_facts values op c.key on issuer in
    operator_message-IsRead effect op on c.value (
      no_message c.operator message (
        omega (
          arith,
          e,
          length-append (repeat_facts c) (known ++ (said ++ (told ++ several))),
          length-append known (said ++ (told ++ several)),
          length-append said (told ++ several),
          length-append told several,
        )))

evaluate_read-Evaluated :
    (c : KeyConstraint) (issuer : IssuerRef) (effect : Effect) (known : List Fact)
    (read : ClaimKey × KeyReading × List Fact) (mode : VariableMode) (src : Bytes)
    (notes : List Anomaly)
    → ((texts : List Bytes) → leaves c.value ≡ leaf_texts texts → All IsBytes texts)
    → Evaluated
        (parse_operator c.operator)
        c.value
        mode
        (with_values (evaluate_read c issuer effect known read) mode src notes)
unfolding evaluate_read
evaluate_read-Evaluated c issuer effect known (claim, values, said) mode src notes h =
    with_values-Evaluated (evaluate_read c issuer effect known (claim, values, said)) mode src notes
      (evaluate_read-IsRead c issuer effect known (claim, values, said)) h

-- `evaluate` of a condition whose texts are bytes either names a fact at least, and then leaves its
-- claim every value; or names none, and then the operator is StringEquals or StringLike without a
-- set prefix or a suffix, the value lists texts, the claim's values are those that a text admits, and
-- the set is not the one of every value, which a token without the claim meets.
pub evaluate-Evaluated :
    (tables : CaseTables) (vocabulary : ClaimVocabulary) (mode : VariableMode) (p : Principal)
    (effect : Effect) (src : Bytes) (c : KeyConstraint)
    → ((texts : List Bytes) → leaves c.value ≡ leaf_texts texts → All IsBytes texts)
    → Evaluated
        (parse_operator c.operator)
        c.value
        mode
        (evaluate tables vocabulary mode p effect src c)
unfolding evaluate evaluate_scope
evaluate-Evaluated tables vocabulary mode p effect src c h =
    let known : List Fact = key_facts tables p mode (scope_of p c.key).1 c.key in
    evaluate_read-Evaluated c p.issuer effect known
      (read_scope vocabulary p (length known == 0) (scope_of p c.key).0 c.key (scope_of p c.key).1)
      mode src (key_notes mode (scope_of p c.key).0 c.key src) h
