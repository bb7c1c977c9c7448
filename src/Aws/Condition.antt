-- ===== src/Aws/Condition.antt =====
-- internal/parse/aws/condition.go: what one condition means for one principal, and what a block does.
pub mod Read
pub mod Exact
pub mod Declared
pub mod Identity
pub mod Meets
pub mod Admits
pub mod Only
use cloudarq.Prelude.{
  ℕ, zero, suc, Bool, true, false, not, ◌&&◌, ◌||◌, List, [], ◌∷◌, ◌++◌, map, Option, none, some,
  length, ◌==◌, if◌then◌else◌,
}
use cloudarq.Text.Bytes.{Bytes, codes, bytes_eq}
use cloudarq.Text.Quote.{quote}
use cloudarq.Text.Parts.{join_parts}
use cloudarq.Eval.StringSet.{StringSet, empty, unknown}
use cloudarq.Eval.StringSet.Build.{join, ◌>>=◌}
use cloudarq.Eval.Claims.{ClaimKey}
use cloudarq.Eval.Admitted.{Term, Caveat, AdmittedSet, new_admitted_set, conjoin}
use cloudarq.Trust.Issuer.{IssuerRef, has_prefix}
use cloudarq.Trust.Grant.{Anomaly, Effect, deny}
use cloudarq.Aws.Folding.{CaseTables}
use cloudarq.Aws.Operator.{
  Operator, parse_operator, spell_operator, spell_claim, on_claim, all_values, any_value,
  contains_text, is_complement, vacuous_sentence, complement_sentence, null_sentence,
}
use cloudarq.Aws.Variables.{VariableMode}
use cloudarq.Aws.Values.{Fact, join_all, ValueSet, value_set, with_all_caveats}
use cloudarq.Aws.Json.{
  kind_bool, kind_string, kind_array, Value, value, no_values, next_value, describe, Leaves,
  leaf_texts, bad_leaf, leaves,
}
use cloudarq.Aws.Principal.{Principal, identity_term}
use cloudarq.Aws.Scope.{
  KeyConstraint, KeyScope, scope_of, ClaimVocabulary, KeyReading, claim_read, multivalued_read,
}
use cloudarq.Aws.Scope.Facts.{
  unmodelled_fact, malformed, repeat_facts, key_facts, key_notes, read_scope,
}
use cloudarq.Aws.Operator.Facts.{
  null_value, polarity_of, quote_or_describe, null_message, vacuous_for, operator_message,
  operator_facts, is_one_value, several_values, several_facts,
}
use cloudarq.Aws.Values.Wildcards.{
  without_escapes, wildcards_held, wildcard_note, literal_wildcards,
}

-- What is known of a condition where its values are read.
pub record ConditionReading : Type 0 where
  pub constraint : KeyConstraint
  pub op : Operator
  pub claim : ClaimKey
  pub on : Bytes
  pub facts : List Fact

-- The switch on the leaves of the value: the set, the facts behind those that stand, and the notes.
-- The set is that of no strings where no value is read.
unfoldable pub values_of : ConditionReading → VariableMode → Bytes → Leaves → ValueSet
values_of r mode src (bad_leaf v in_list) = record {
  set = some empty;
  facts =
      if bytes_eq r.op.base (codes "Null")
      then []
      else record {
        reason = r.constraint.operator;
        kind = malformed;
        construct = r.constraint.operator;
        message =
            r.on
            ++ (if in_list
                then codes " lists "
                  ++ (describe v
                      ++ codes " where a string is expected, so the claim is not constrained")
                else codes " has a value that is "
                  ++ (describe v
                      ++ codes
                          " where a string or a list of strings is expected, so the claim is not constrained"));
      }
        ∷ [];
  notes = [];
}
values_of r mode src (leaf_texts []) = record {
  set = some empty;
  facts =
      unmodelled_fact r.constraint.operator r.constraint.operator (
        r.on
        ++ codes
            " lists no values; AWS documents no meaning for an empty list, so the claim is not constrained")
      ∷ [];
  notes = [];
}
values_of r mode src (leaf_texts (text ∷ texts)) =
    if length r.facts == 0
    then value_set r.constraint.operator (text ∷ texts) r.claim
        (bytes_eq r.op.base (codes "StringLike")) mode src
    else record { set = some empty; facts = []; notes = [] }

unfoldable pub wildcard_notes : ConditionReading → Bytes → Leaves → List Anomaly
unfolding literal_wildcards
wildcard_notes r src (bad_leaf v in_list) = []
wildcard_notes r src (leaf_texts texts) =
    if r.op.recognised
      && (bytes_eq r.op.base (codes "StringEquals") && bytes_eq r.claim (codes "sub"))
    then literal_wildcards texts r.constraint.operator r.claim src
    else []

-- `outcome`; a nil set is none.
pub record Evaluation : Type 0 where
  pub claim : ClaimKey
  pub set : Option StringSet
  pub anomalies : List Anomaly
  pub notes : List Anomaly

unfoldable pub anomaly_of : ClaimKey → Bytes → Fact → Anomaly
anomaly_of claim src f = record {
  kind = f.kind;
  claim = claim;
  construct = f.construct;
  message = f.message;
  source = src;
}

abbrev pub unknown_of : Fact → StringSet
unknown_of f = unknown (f.reason ∷ [])

-- The end of `evaluate`.
unfoldable pub outcome_of :
    ClaimKey → Bytes → Option StringSet → List Anomaly → List Fact → Evaluation
unfolding anomaly_of
outcome_of claim src set notes [] = record {
  claim = claim;
  set = set;
  anomalies = [];
  notes = notes;
}
outcome_of claim src set notes (f ∷ fs) = record {
  claim = claim;
  set = some (join_all join (unknown_of f) (map unknown_of fs));
  anomalies = map (anomaly_of claim src) (f ∷ fs);
  notes = notes;
}

unfoldable pub with_values : ConditionReading → VariableMode → Bytes → List Anomaly → Evaluation
unfolding values_of wildcard_notes outcome_of leaves
with_values r mode src notes =
    let found = leaves r.constraint.value in
    let read = values_of r mode src found in
    outcome_of r.claim src read.set (notes ++ (read.notes ++ wildcard_notes r src found))
      (r.facts ++ read.facts)

unfoldable pub on_text : KeyConstraint → ClaimKey → Bytes
unfolding on_claim spell_operator
on_text c claim = on_claim (spell_operator c.operator) claim

-- `evaluate` behind the reading of the key.
unfoldable pub evaluate_read :
    KeyConstraint
    → IssuerRef
    → Effect
    → List Fact
    → ClaimKey × KeyReading × List Fact
    → ConditionReading
unfolding on_text operator_message operator_facts several_facts
evaluate_read c issuer effect known (claim, values, said) =
    let op = parse_operator c.operator in
    let on = on_text c claim in
    record {
      constraint = c;
      op = op;
      claim = claim;
      on = on;
      facts =
          repeat_facts c
          ++ (known
              ++ (said
                  ++ (operator_facts c.operator (operator_message effect op on c.value)
                      ++ several_facts values op c.key on issuer)));
    }

module _ (tables : CaseTables) (vocabulary : ClaimVocabulary) (mode : VariableMode) where
  unfoldable pub evaluate_scope :
      Principal → Effect → Bytes → KeyConstraint → ClaimKey × KeyScope → Evaluation
  unfolding evaluate_read with_values
  evaluate_scope p effect src c (claim, scope) =
      let known = key_facts tables p mode scope c.key in
      let read = read_scope vocabulary p (length known == 0) claim c.key scope in
      with_values (evaluate_read c p.issuer effect known read) mode src
        (key_notes mode claim c.key src)

  unfoldable pub evaluate : Principal → Effect → Bytes → KeyConstraint → Evaluation
  unfolding evaluate_scope
  evaluate p effect src c = evaluate_scope p effect src c (scope_of p c.key)

-- What the loop of `project` meets the term with. A nil set would panic.
unfoldable pub entries_of : List Evaluation → Option Term
entries_of [] = some []
entries_of (o ∷ os) = do s ← o.set; rest ← entries_of os; some ((o.claim, s) ∷ rest)

unfoldable pub caveats_of : Bytes → List Evaluation → List Caveat
caveats_of src [] = []
caveats_of src (o ∷ os) =
    map (λ (a : Anomaly). record { claim = o.claim; reason = a.message; source = src }) o.anomalies
    ++ caveats_of src os

unfoldable pub told_of : List Evaluation → List Anomaly
told_of [] = []
told_of (o ∷ os) = o.anomalies ++ (o.notes ++ told_of os)

unfoldable pub project_outcomes :
    Principal → Bytes → List Evaluation → Option (AdmittedSet × List Anomaly)
unfolding entries_of caveats_of told_of identity_term
project_outcomes p src os = do
  entries ← entries_of os
  term ← conjoin (identity_term p) entries
  some (with_all_caveats (new_admitted_set (term ∷ [])) (caveats_of src os), told_of os)

-- `project`.
unfoldable pub project_block :
    CaseTables
    → ClaimVocabulary
    → VariableMode
    → Principal
    → Effect
    → Bytes
    → List KeyConstraint
    → Option (AdmittedSet × List Anomaly)
unfolding evaluate project_outcomes
project_block tables vocabulary mode p effect src cs =
    project_outcomes p src (map (evaluate tables vocabulary mode p effect src) cs)
