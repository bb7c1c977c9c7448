-- ===== src/Examples/Conditions.antt =====
-- internal/parse/aws/condition.go on conditions on the claims of GitHub Actions.
use cloudarq.Prelude.{◌≡◌, ◌≢◌, ◌↔◌, refl, true, false, List, [], ◌∷◌, ◌++◌}
use cloudarq.Text.Bytes.{Bytes, codes, bytes_eq}
use cloudarq.Trust.Issuer.{IssuerRef, lower_ascii, trim_slash}
use cloudarq.Eval.Claims.{ClaimKey}
use cloudarq.Eval.StringSet.{StringSet, exact}
use cloudarq.Eval.Admitted.{Caveat, everything, caveat_key}
use cloudarq.Eval.Admitted.Normalise.{has_caveat}
use cloudarq.Aws.Folding.{CaseTables, may_name, holds_variable, fold, trim_prefix, cut}
use cloudarq.Aws.Folding.Names.{MayStand, may_name_iff}
use cloudarq.Aws.Operator.{asks_no_particular_value, parse_operator, vacuous_sentence, on_claim}
use cloudarq.Aws.Operator.Asks.{SaysNothing, asks_no_particular_value_iff}
use cloudarq.Aws.Variables.{resolve_variables, variables_resolved, literal, no_fuel}
use cloudarq.Aws.Variables.Escapes.{resolve_variables-written, resolve_variables-ends}
use cloudarq.Aws.Values.{with_all_caveats}
use cloudarq.Aws.Values.Caveats.{with_all_caveats_keeps}
use cloudarq.Aws.Rules.{aws_rules}
use cloudarq.Text.Utf8.{runes}
use cloudarq.Prelude.Order.Lex.{pair_eq}

abbrev sub : ClaimKey
sub = codes "sub"

-- The Kelvin sign, which folds to a k.
abbrev kelvin : CaseTables
kelvin = record { variants = 0x212A ∷ []; spellings = (0x212A, codes "k") ∷ [] }

abbrev actions : IssuerRef
actions = codes "https://token.actions.githubusercontent.com"

abbrev sub_key : ClaimKey
sub_key = codes "Token.Actions.GithubUserContent.com:SUB"

may_name_iff_example :
    (may_name kelvin sub_key actions sub ≡ true) ↔ MayStand kelvin sub_key actions sub
may_name_iff_example = may_name_iff kelvin sub_key actions sub

names_sub : (aws_rules kelvin).may_name sub_key actions sub ≡ true
unfolding may_name holds_variable bytes_eq runes fold lower_ascii trim_slash trim_prefix
names_sub = refl

abbrev optional : Caveat
optional = record {
  claim = sub;
  reason =
      codes
        "StringLikeIfExists on sub passes when the claim is absent, so it does not restrict what it looks like it restricts";
  source = [];
}

asks_nothing : (aws_rules kelvin).asks_no_value optional ≡ true
unfolding asks_no_particular_value cut on_claim runes parse_operator bytes_eq vacuous_sentence
asks_nothing = refl

asks_no_particular_value_iff_example :
    (asks_no_particular_value optional ≡ true) ↔ SaysNothing optional
asks_no_particular_value_iff_example = asks_no_particular_value_iff optional

resolve_variables-written_example :
    resolve_variables (codes "repo:${*}/a${$}b") variables_resolved false
    ≡ literal (codes "repo:*/a$b")
resolve_variables-written_example = resolve_variables-written (codes "repo:*/a$b")

resolve_variables-ends_example :
    resolve_variables (codes "repo:${aws:username}/a") variables_resolved false ≢ no_fuel
resolve_variables-ends_example =
    resolve_variables-ends (codes "repo:${aws:username}/a") variables_resolved false

abbrev subjects : List Bytes
subjects = codes "a${$}" ∷ codes "b" ∷ []

abbrev subject_set : StringSet
subject_set = exact (codes "a$")

optional_given : has_caveat optional (everything.caveats ++ optional ∷ []) ≡ true
unfolding pair_eq bytes_eq caveat_key
optional_given = refl

with_all_caveats_keeps_example :
    has_caveat optional (with_all_caveats everything (optional ∷ [])).caveats ≡ true
with_all_caveats_keeps_example =
    with_all_caveats_keeps optional everything (optional ∷ []) optional_given
