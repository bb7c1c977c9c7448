-- ===== src/Aws/Variables.antt =====
-- internal/parse/aws/condition.go: policy variables in the values of a condition.
pub mod Escapes
pub mod Literals
use cloudarq.Prelude.{
  ℕ, zero, suc, Bool, true, false, ◌||◌, List, [], ◌∷◌, ◌++◌, Option, none, some, length,
  if◌then◌else◌,
}
use cloudarq.Text.Bytes.{Bytes, codes, bytes_eq}
use cloudarq.Aws.Folding.{cut}

pub data VariableMode : Type 0 where
  variables_literal variables_resolved variables_uncertain : VariableMode

-- A literal, or the construct and the message of a `variableProblem`. `no_fuel` is not an end of the code.
pub data Resolved : Type 0 where
  literal : Bytes → Resolved
  problem : Bytes → Bytes → Resolved
  no_fuel : Resolved

abbrev pub opening : Bytes
opening = codes "${"

abbrev pub uncertain_message : Bytes
uncertain_message =
    codes
      "holds \"${\", and whether this document's Version reads it as a policy variable is not known, so the claim is not constrained"

abbrev pub unterminated_message : Bytes
unterminated_message =
    codes
      "holds an unterminated \"${\", which this parser cannot read, so the claim is not constrained"

unfoldable pub wildcard_message : Bytes → Bytes
wildcard_message reference =
    codes "holds the escaped wildcard "
    ++ (reference
        ++ codes
            " under StringLike, which this parser cannot express, so the claim is not constrained")

unfoldable pub variable_message : Bytes → Bytes
variable_message reference =
    codes "holds the policy variable "
    ++ (reference ++ codes ", which is resolved per request, so the claim is not constrained")

unfoldable pub written_before : Bytes → Resolved → Resolved
written_before text (literal rest) = literal (text ++ rest)
written_before text (problem construct message) = problem construct message
written_before text no_fuel = no_fuel

-- The switch in the loop of `resolveVariables`, on the name between the braces.
unfoldable pub resolve_reference : Bool → Bytes → Bytes → Resolved → Resolved
unfolding wildcard_message variable_message written_before
resolve_reference like before name onward =
    let reference = opening ++ (name ++ codes "}") in
    if bytes_eq name (codes "*") || bytes_eq name (codes "?")
    then (if like
        then problem reference (wildcard_message reference)
        else written_before (before ++ name) onward)
    else if bytes_eq name (codes "$")
    then written_before (before ++ name) onward
    else problem reference (variable_message reference)

-- A round of the loop, behind the search for the closing brace and behind that for an opening one.
unfoldable pub named : (Bytes → Resolved) → Bool → Bytes → Option (Bytes × Bytes) → Resolved
unfolding resolve_reference
named go like before none = problem opening unterminated_message
named go like before (some (name, left)) = resolve_reference like before name (go left)

unfoldable pub opened : (Bytes → Resolved) → Bool → Bytes → Option (Bytes × Bytes) → Resolved
unfolding named
opened go like rest none = literal rest
opened go like rest (some (before, after)) = named go like before (cut (codes "}") after)

-- The loop of `resolveVariables`. Each round takes a reference, so the length of the text is fuel
-- enough.
unfoldable pub resolve_from : ℕ → Bool → Bytes → Resolved
unfolding opened
resolve_from zero like rest = no_fuel
resolve_from (suc fuel) like rest = opened (resolve_from fuel like) like rest (cut opening rest)

-- What `resolveVariables` does with a text that holds an opening brace.
unfoldable pub resolve_in : VariableMode → Bool → Bytes → Resolved
unfolding resolve_from
resolve_in variables_literal like text = literal text
resolve_in variables_uncertain like text = problem opening uncertain_message
resolve_in variables_resolved like text = resolve_from (suc (length text)) like text

unfoldable pub resolve_found : Option (Bytes × Bytes) → VariableMode → Bool → Bytes → Resolved
unfolding resolve_in
resolve_found none mode like text = literal text
resolve_found (some parts) mode like text = resolve_in mode like text

unfoldable pub resolve_variables : Bytes → VariableMode → Bool → Resolved
unfolding resolve_found
resolve_variables text mode like = resolve_found (cut opening text) mode like text
