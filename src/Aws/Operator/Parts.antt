-- ===== src/Aws/Operator/Parts.antt =====
-- internal/parse/aws/condition.go: `parseOperator` takes apart exactly the names that are put together
-- from a set prefix, a documented operator and the IfExists suffix.
use cloudarq.Prelude.{
  ℕ, ◌-◌, ◌≡◌, ◌≢◌, refl, ap, ◌∙◌, sym, subst, inl, inr, Bool, true, false, not, ◌&&◌, ◌||◌, List,
  [], ◌∷◌, ◌++◌, all, any, length, drop, take, take-drop, append-nil, arith, Bool-cases,
}
use cloudarq.Text.Bytes.{Bytes, codes, bytes_eq, bytes_eq_iff}
use cloudarq.Trust.Issuer.{has_prefix}
use cloudarq.Aws.Folding.Cut.{prefix_parts}
use cloudarq.Aws.Operator.{
  Operator, documented_operators, is_documented, has_suffix, if_exists_suffix, all_values,
  any_value, parse_base, parse_operator,
}

pub data SetPrefix : Type 0 where
  no_set for_all for_any : SetPrefix

abbrev pub prefix_name : SetPrefix → Bytes
prefix_name no_set = []
prefix_name for_all = codes "ForAllValues"
prefix_name for_any = codes "ForAnyValue"

abbrev pub prefix_text : SetPrefix → Bytes
prefix_text no_set = []
prefix_text for_all = codes "ForAllValues:"
prefix_text for_any = codes "ForAnyValue:"

abbrev pub suffix_text : Bool → Bytes
suffix_text true = codes "IfExists"
suffix_text false = []

-- A name with its parts. The suffix goes on any operator but Null.
abbrev pub IsSpelled : Bytes → SetPrefix → Bytes → Bool → Type 0
IsSpelled text p base suffixed =
    (text ≡ prefix_text p ++ (base ++ suffix_text suffixed))
    × (is_documented base ≡ true)
    × (suffixed ≡ true → base ≢ codes "Null")

-- An operator with its parts.
abbrev pub HasParts : Operator → SetPrefix → Bytes → Bool → Type 0
HasParts op p base suffixed =
    (op.recognised ≡ true)
    × (op.set_prefix ≡ prefix_name p)
    × (op.base ≡ base)
    × (op.if_exists ≡ suffixed)

-- What holds of each documented name.
documented_all :
    (p : Bytes → Bool) (names : List Bytes) (text : Bytes)
    → all p names ≡ true
    → any (λ name. bytes_eq name text) names ≡ true
    → p text ≡ true
documented_all p [] text h e = cc e
documented_all p (name ∷ names) text h e = elim (Bool-cases (bytes_eq name text)) [
  | inl y ↦ subst (λ x. p x ≡ true) ((bytes_eq_iff name text).0 y) (ground arith)
  | inr n ↦ documented_all p names text (ground arith) (rw n at e)
]

same_flag : Bool → Bool → Bool
same_flag true b = b
same_flag false b = not b

abbrev parts_read : SetPrefix → Bool → Bytes → Bool
parts_read p suffixed base =
    let op = parse_operator (prefix_text p ++ (base ++ suffix_text suffixed)) in
    (suffixed && bytes_eq base (codes "Null"))
    || (op.recognised
        && (bytes_eq op.set_prefix (prefix_name p)
            && (bytes_eq op.base base && same_flag op.if_exists suffixed)))

parts_read-all :
    (p : SetPrefix) (suffixed : Bool) → all (parts_read p suffixed) documented_operators ≡ true
unfolding parse_operator parse_base has_prefix has_suffix is_documented bytes_eq same_flag
parts_read-all no_set true = refl
parts_read-all no_set false = refl
parts_read-all for_all true = refl
parts_read-all for_all false = refl
parts_read-all for_any true = refl
parts_read-all for_any false = refl

flags_same : (a b : Bool) → same_flag a b ≡ true → a ≡ b
unfolding same_flag
flags_same true b h = sym h
flags_same false true h = cc h
flags_same false false h = refl

-- A name that is put together is taken apart into its parts.
pub parse_operator-HasParts :
    (text : Bytes) (p : SetPrefix) (base : Bytes) (suffixed : Bool)
    → IsSpelled text p base suffixed
    → HasParts (parse_operator text) p base suffixed
parse_operator-HasParts text p base suffixed (split, known, apart) =
    let op : Operator = parse_operator (prefix_text p ++ (base ++ suffix_text suffixed)) in
    let read : parts_read p suffixed base ≡ true =
      documented_all (parts_read p suffixed) documented_operators base (parts_read-all p suffixed)
        (unfold is_documented in known) in
    let free : (suffixed && bytes_eq base (codes "Null")) ≡ false =
      elim (Bool-cases (suffixed && bytes_eq base (codes "Null"))) [
        | inr n ↦ n
        | inl y ↦
            absurd (apart (ground arith) ((bytes_eq_iff base (codes "Null")).0 (ground arith)))
      ] in
    let parts : (op.recognised
          && (bytes_eq op.set_prefix (prefix_name p)
              && (bytes_eq op.base base && same_flag op.if_exists suffixed)))
        ≡ true =
      rw free at read in
    let here : HasParts op p base suffixed = (
      ground (arith, parts),
      (bytes_eq_iff op.set_prefix (prefix_name p)).0 (ground (arith, parts)),
      (bytes_eq_iff op.base base).0 (ground (arith, parts)),
      flags_same op.if_exists suffixed (ground (arith, parts)),
    ) in
    subst (λ t. HasParts (parse_operator t) p base suffixed) (sym split) here

-- What `parseOperator` recognises behind a set prefix.
abbrev Recognised : Bytes → Type 0
Recognised text =
    (base : Bytes) × (suffixed : Bool) × (text ≡ base ++ suffix_text suffixed)
    × (is_documented base ≡ true)
    × (suffixed ≡ true → base ≢ codes "Null")

parse_base-Recognised :
    (prefix text : Bytes) → (parse_base prefix text).recognised ≡ true → Recognised text
unfolding parse_base
parse_base-Recognised prefix text e = elim (Bool-cases (has_suffix text if_exists_suffix)) [
  | inl s ↦
      let n : ℕ = length text - length if_exists_suffix in
      let known : (is_documented (take n text)
            && not (true && bytes_eq (take n text) (codes "Null")))
          ≡ true =
        rw s at e in
      let tail : drop n text ≡ if_exists_suffix =
        unfold has_suffix in (bytes_eq_iff _ _).0 (ground arith) in
      (
        take n text,
        true,
        sym (take-drop n text) ∙ ap (λ t. take n text ++ t) tail,
        ground (arith, known),
        λ _. λ null.
            let same : bytes_eq (take n text) (codes "Null") ≡ true = (bytes_eq_iff _ _).1 null in
            absurd (ground (arith, known, same)),
      )
  | inr s ↦
      let known : (is_documented text && not (false && bytes_eq text (codes "Null"))) ≡ true =
        rw s at e in
      (text, false, sym (append-nil text), ground (arith, known), λ f. cc f)
]

-- What `parseOperator` recognises is put together from the parts that it finds.
pub recognised-IsSpelled :
    (text : Bytes)
    → (parse_operator text).recognised ≡ true
    → (p : SetPrefix) × (base : Bytes) × (suffixed : Bool) × IsSpelled text p base suffixed
      × HasParts (parse_operator text) p base suffixed
recognised-IsSpelled text e =
    let (p, base, suffixed, spelled) = spelled_parts in
    (p, base, suffixed, spelled, parse_operator-HasParts text p base suffixed spelled)
  where
    spelled_parts :
        (p : SetPrefix) × (base : Bytes) × (suffixed : Bool) × IsSpelled text p base suffixed
    spelled_parts =
        unfold parse_operator in
        elim (Bool-cases (has_prefix text (all_values ++ codes ":"))) [
          | inl a ↦
              let behind : Bytes = drop (length (all_values ++ codes ":")) text in
              let (base, suffixed, split, known, apart) =
                parse_base-Recognised all_values behind (rw a at e) in
              (
                for_all,
                base,
                suffixed,
                (
                  prefix_parts text (all_values ++ codes ":") a
                      ∙ ap (λ t. (all_values ++ codes ":") ++ t) split,
                  known,
                  apart,
                ),
              )
          | inr a ↦ elim (Bool-cases (has_prefix text (any_value ++ codes ":"))) [
            | inl b ↦
                let behind : Bytes = drop (length (any_value ++ codes ":")) text in
                let (base, suffixed, split, known, apart) =
                  parse_base-Recognised any_value behind (rw (a, b) at e) in
                (
                  for_any,
                  base,
                  suffixed,
                  (
                    prefix_parts text (any_value ++ codes ":") b
                        ∙ ap (λ t. (any_value ++ codes ":") ++ t) split,
                    known,
                    apart,
                  ),
                )
            | inr b ↦
                let (base, suffixed, split, known, apart) =
                  parse_base-Recognised [] text (rw (a, b) at e) in
                (no_set, base, suffixed, (split, known, apart))
          ]
        ]
