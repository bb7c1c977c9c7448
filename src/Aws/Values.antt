-- ===== src/Aws/Values.antt =====
-- internal/parse/aws/condition.go: the set of values that a condition lists, and the caveats of a
-- block.
pub mod Balanced
pub mod Admitted
pub mod Caveats
pub mod Wildcards
use cloudarq.Prelude.{
  ℕ, zero, suc, Bool, true, false, List, [], ◌∷◌, ◌++◌, map, Option, none, some, length, leb,
  if◌then◌else◌,
}
use cloudarq.Text.Bytes.{Bytes, codes}
use cloudarq.Text.Quote.{quote}
use cloudarq.Eval.StringSet.{StringSet, exact, glob, is_top}
use cloudarq.Eval.StringSet.Build.{join}
use cloudarq.Eval.Claims.{ClaimKey}
use cloudarq.Eval.Admitted.{Caveat, AdmittedSet, nothing_admitted, with_caveat, join_admitted}
use cloudarq.Trust.Grant.{Anomaly}
use cloudarq.Aws.Folding.{variable_reference}
use cloudarq.Aws.Operator.{spell_claim, presence_sentence}
use cloudarq.Aws.Variables.{
  VariableMode, variables_literal, variables_resolved, variables_uncertain, Resolved, literal,
  problem, no_fuel, resolve_variables,
}

module _ {ℓ} {A : Type ℓ} (combine : A → A → A) where
  -- The inner loop of `joinAll`.
  unfoldable pub pairs : List A → List A
  pairs [] = []
  pairs (x ∷ []) = x ∷ []
  pairs (x ∷ y ∷ xs) = combine x y ∷ pairs xs

  -- The outer loop. Each round makes a list of two or more shorter, so its length is fuel enough.
  unfoldable pub pair_rounds : ℕ → List A → List A
  unfolding pairs
  pair_rounds zero items = items
  pair_rounds (suc fuel) items =
      let onward = pair_rounds fuel (pairs items) in if leb (length items) 1 then items else onward

  unfoldable pub first_item : A → List A → A
  first_item x [] = x
  first_item x (y ∷ ys) = y

  -- `joinAll` of items that are not empty.
  unfoldable pub join_all : A → List A → A
  unfolding pair_rounds first_item
  join_all x xs = first_item x (pair_rounds (length (x ∷ xs)) (x ∷ xs))

unfoldable pub carriers : List Caveat → List AdmittedSet
carriers cs = map (with_caveat nothing_admitted) cs

-- `withCaveats`.
unfoldable pub with_all_caveats : AdmittedSet → List Caveat → AdmittedSet
unfolding carriers
with_all_caveats s [] = s
with_all_caveats s (c ∷ cs) =
    join_admitted s (join_all join_admitted (with_caveat nothing_admitted c) (carriers cs))

-- `fact`.
pub record Fact : Type 0 where
  pub reason : Bytes
  pub kind : Bytes
  pub construct : Bytes
  pub message : Bytes

abbrev pub unmodelled : Bytes
unmodelled = codes "unmodelled-construct"

-- What the loop of `valueSet` has read: a fact that ends it, or a set for each text and the notes.
pub data ReadValues : Type 0 where
  unread : Fact → ReadValues
  read_values : List StringSet → List Anomaly → ReadValues

-- `"the value " + quoted + " on " + claim`, before what is said of it.
unfoldable pub value_on : Bytes → ClaimKey → Bytes
value_on text claim = codes "the value " ++ (quote text ++ (codes " on " ++ spell_claim claim))

unfoldable pub is_literal_mode : VariableMode → Bool
is_literal_mode variables_literal = true
is_literal_mode _ = false

unfoldable pub literal_notes : Bytes → ClaimKey → VariableMode → Bytes → List Anomaly
unfolding value_on is_literal_mode
literal_notes text claim mode src = elim (variable_reference text) [
  | none ↦ []
  | some reference ↦
      if is_literal_mode mode
      then record {
        kind = codes "variable-is-literal";
        claim = claim;
        construct = reference;
        message =
            value_on text claim
            ++ (codes " holds "
                ++ (quote reference
                    ++ codes
                        ", which is literal text because this document's Version does not resolve policy variables; if a variable was meant, the condition does not do what it looks like it does"));
        source = src;
      }
        ∷ []
      else []
]

unfoldable pub value_of : Bool → Bytes → StringSet
value_of like w = if like then glob w else exact w

unfoldable pub add_value : StringSet → List Anomaly → ReadValues → ReadValues
add_value s notes (unread f) = unread f
add_value s notes (read_values sets more) = read_values (s ∷ sets) (notes ++ more)

-- One round of the loop, before the rounds behind it.
unfoldable pub read_text :
    Bytes → ClaimKey → Bool → VariableMode → Bytes → Resolved → ReadValues → ReadValues
unfolding literal_notes value_of add_value
read_text text claim like mode src (literal w) onward =
    add_value (value_of like w) (literal_notes text claim mode src) onward
read_text text claim like mode src (problem construct message) onward = unread (record {
  reason = construct;
  kind = unmodelled;
  construct = construct;
  message = value_on text claim ++ (codes " " ++ message);
})
read_text text claim like mode src no_fuel onward = onward

unfoldable pub read_all : List Bytes → ClaimKey → Bool → VariableMode → Bytes → ReadValues
unfolding read_text
read_all [] claim like mode src = read_values [] []
read_all (text ∷ texts) claim like mode src =
    read_text text claim like mode src (resolve_variables text mode like)
      (read_all texts claim like mode src)

-- What `valueSet` returns; the set is nil where there is a fact.
pub record ValueSet : Type 0 where
  pub set : Option StringSet
  pub facts : List Fact
  pub notes : List Anomaly

unfoldable pub set_of_values :
    Bytes → ClaimKey → StringSet → List StringSet → List Anomaly → ValueSet
set_of_values operator claim s sets notes =
    let joined = join_all join s sets in
    if is_top joined
    then record {
      set = none;
      facts =
          record {
            reason = operator;
            kind = unmodelled;
            construct = operator;
            message = presence_sentence operator claim;
          }
          ∷ [];
      notes = notes;
    }
    else record { set = some joined; facts = []; notes = notes }

-- `valueSet` behind its loop. The caller asks it of one text at least.
unfoldable pub value_set_of : Bytes → ClaimKey → ReadValues → ValueSet
unfolding set_of_values
value_set_of operator claim (unread f) = record { set = none; facts = f ∷ []; notes = [] }
value_set_of operator claim (read_values [] notes) = record {
  set = none;
  facts = [];
  notes = notes;
}
value_set_of operator claim (read_values (s ∷ sets) notes) =
    set_of_values operator claim s sets notes

unfoldable pub value_set : Bytes → List Bytes → ClaimKey → Bool → VariableMode → Bytes → ValueSet
unfolding value_set_of read_all
value_set operator texts claim like mode src =
    value_set_of operator claim (read_all texts claim like mode src)
