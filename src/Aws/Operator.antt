-- ===== src/Aws/Operator.antt =====
-- internal/parse/aws/condition.go: the names of operators, what a sentence says of a condition, and
-- which sentences say that no particular value is asked for.
pub mod Parts
pub mod Spelled
pub mod Reasons
pub mod Asks
pub mod Facts
use cloudarq.Prelude.{
  ℕ, ◌-◌, Bool, true, false, not, ◌&&◌, ◌||◌, List, [], ◌∷◌, ◌++◌, Option, none, some, any, all,
  drop, take, length, leb, ltb, ◌==◌, if◌then◌else◌,
}
use cloudarq.Text.Bytes.{Bytes, codes, bytes_eq}
use cloudarq.Text.Utf8.{runes}
use cloudarq.Text.Quote.{quote}
use cloudarq.Eval.Claims.{ClaimKey}
use cloudarq.Eval.Admitted.{Caveat}
use cloudarq.Trust.Issuer.{has_prefix}
use cloudarq.Aws.Folding.{cut, trim_prefix}

-- `operator`.
pub record Operator : Type 0 where
  pub recognised : Bool
  pub set_prefix : Bytes
  pub base : Bytes
  pub if_exists : Bool
  pub negated : Bool

abbrev pub documented_operators : List Bytes
documented_operators =
    codes "StringEquals"
    ∷ codes "StringNotEquals"
    ∷ codes "StringEqualsIgnoreCase"
    ∷ codes "StringNotEqualsIgnoreCase"
    ∷ codes "StringLike"
    ∷ codes "StringNotLike"
    ∷ codes "NumericEquals"
    ∷ codes "NumericNotEquals"
    ∷ codes "NumericLessThan"
    ∷ codes "NumericLessThanEquals"
    ∷ codes "NumericGreaterThan"
    ∷ codes "NumericGreaterThanEquals"
    ∷ codes "DateEquals"
    ∷ codes "DateNotEquals"
    ∷ codes "DateLessThan"
    ∷ codes "DateLessThanEquals"
    ∷ codes "DateGreaterThan"
    ∷ codes "DateGreaterThanEquals"
    ∷ codes "Bool"
    ∷ codes "BinaryEquals"
    ∷ codes "IpAddress"
    ∷ codes "NotIpAddress"
    ∷ codes "ArnEquals"
    ∷ codes "ArnLike"
    ∷ codes "ArnNotEquals"
    ∷ codes "ArnNotLike"
    ∷ codes "Null"
    ∷ []

unfoldable pub is_documented : Bytes → Bool
is_documented text = any (λ name. bytes_eq name text) documented_operators

-- `strings.HasSuffix`, and what `strings.TrimSuffix` leaves where it holds.
unfoldable pub has_suffix : Bytes → Bytes → Bool
has_suffix s p = leb (length p) (length s) && bytes_eq (drop (length s - length p) s) p

abbrev pub if_exists_suffix : Bytes
if_exists_suffix = codes "IfExists"

abbrev pub all_values : Bytes
all_values = codes "ForAllValues"

abbrev pub any_value : Bytes
any_value = codes "ForAnyValue"

unfoldable pub contains_text : Bytes → Bytes → Bool
contains_text s sub = elim (cut sub s) [ none ↦ false | some parts ↦ true ]

-- What `parseOperator` does behind the set prefix.
unfoldable pub parse_base : Bytes → Bytes → Operator
unfolding is_documented has_suffix contains_text
parse_base prefix text =
    let suffixed = has_suffix text if_exists_suffix in
    let base = if suffixed then take (length text - length if_exists_suffix) text else text in
    let recognised = is_documented base && not (suffixed && bytes_eq base (codes "Null")) in
    record {
      recognised = recognised;
      set_prefix = prefix;
      base = base;
      if_exists = suffixed;
      negated = recognised && contains_text base (codes "Not");
    }

unfoldable pub parse_operator : Bytes → Operator
unfolding parse_base
parse_operator text =
    if has_prefix text (all_values ++ codes ":")
    then parse_base all_values (drop (length (all_values ++ codes ":")) text)
    else if has_prefix text (any_value ++ codes ":")
    then parse_base any_value (drop (length (any_value ++ codes ":")) text)
    else parse_base [] text

unfoldable pub spell_operator : Bytes → Bytes
unfolding parse_operator
spell_operator text = if (parse_operator text).recognised then text else quote text

unfoldable pub spell_claim : ClaimKey → Bytes
spell_claim claim = if any (λ r. leb r b' ' || ltb b'~' r) (runes claim) then quote claim else claim

-- `" on " + spellClaim(claim)` behind an operator.
unfoldable pub on_claim : Bytes → ClaimKey → Bytes
unfolding spell_claim
on_claim operator claim = operator ++ (codes " on " ++ spell_claim claim)

unfoldable pub presence_sentence : Bytes → ClaimKey → Bytes
unfolding on_claim spell_operator
presence_sentence operator claim =
    on_claim (spell_operator operator) claim
    ++ codes
        " matches every value but only when the claim is present, which this parser cannot express, so the claim is not constrained"

unfoldable pub vacuous_sentence : Bytes → Bytes
vacuous_sentence on =
    on
    ++ codes
        " passes when the claim is absent, so it does not restrict what it looks like it restricts"

unfoldable pub complement_sentence : Bytes → Bytes
complement_sentence on =
    on
    ++ codes
        " admits every value but the ones listed and passes when the claim is absent; this parser does not model complements, so the claim is not constrained"

unfoldable pub null_sentence : Bytes → Bool → Bytes
null_sentence on true =
    on
    ++ codes
        " is \"true\": the claim must be absent, which this parser cannot express, so the claim is not constrained"
null_sentence on false =
    on
    ++ codes
        " is \"false\": the claim must be present, which this parser cannot express, so the claim is not constrained"

-- `StringNotEquals`, `StringNotLike` and `StringNotEqualsIgnoreCase`.
unfoldable pub is_complement : Bytes → Bool
is_complement base =
    bytes_eq base (codes "StringNotEquals")
    || (bytes_eq base (codes "StringNotLike") || bytes_eq base (codes "StringNotEqualsIgnoreCase"))

-- The switch of `AsksNoParticularValue`, on the operator whose text stands in the reason.
unfoldable pub asks_by : Operator → Bytes → Caveat → Bool
unfolding is_complement
asks_by op text c =
    let on = on_claim text c.claim in
    if bytes_eq op.set_prefix all_values || op.if_exists
    then bytes_eq c.reason (vacuous_sentence on)
    else if not (bytes_eq op.set_prefix [])
    then false
    else if bytes_eq op.base (codes "StringLike")
    then bytes_eq c.reason (presence_sentence text c.claim)
    else if bytes_eq op.base (codes "Null")
    then bytes_eq c.reason (null_sentence on true) || bytes_eq c.reason (null_sentence on false)
    else if is_complement op.base
    then bytes_eq c.reason (complement_sentence on)
    else false

-- `AsksNoParticularValue` behind the search for the claim in the reason.
unfoldable pub asks_found : Caveat → Option (Bytes × Bytes) → Bool
unfolding asks_by
asks_found c none = false
asks_found c (some (text, rest)) =
    let op = parse_operator text in if op.recognised then asks_by op text c else false

unfoldable pub asks_no_particular_value : Caveat → Bool
unfolding asks_found
asks_no_particular_value c = asks_found c (cut (on_claim [] c.claim ++ codes " ") c.reason)
