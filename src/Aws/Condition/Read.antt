-- ===== src/Aws/Condition/Read.antt =====
-- internal/parse/aws/condition.go: the values of a condition, and the operators that are read.
use cloudarq.Prelude.{
  ◌≤◌, ◌≡◌, refl, ap, ap₂, ◌∙◌, subst, inl, inr, ◌⊎◌, Bool, true, false, ◌||◌, List, [], ◌∷◌, map,
  All, any, length, arith, Bool-cases, Option, none, some, ◌==◌,
}
use cloudarq.Text.Bytes.{Bytes, codes, IsBytes, bytes_eq, bytes_eq_iff}
use cloudarq.Eval.StringSet.{StringSet, unknown, contains, as_unknown, is_top}
use cloudarq.Eval.StringSet.Build.{join, join_unknown, merge_unknown}
use cloudarq.Trust.Grant.{Effect}
use cloudarq.Aws.Operator.{Operator, all_values, any_value}
use cloudarq.Aws.Variables.{VariableMode}
use cloudarq.Aws.Values.{Fact, join_all, ValueSet, value_set}
use cloudarq.Aws.Values.Balanced.{join_all-any}
use cloudarq.Aws.Values.Admitted.{value_admits, is_read, value_set-any, value_set-told}
use cloudarq.Aws.Json.{Value, Leaves, leaf_texts, bad_leaf}
use cloudarq.Aws.Operator.Facts.{operator_message}
use cloudarq.Aws.Condition.{ConditionReading, values_of, unknown_of}

abbrev IsUnknown : StringSet → Type 0
IsUnknown s = (reasons : List Bytes) × (s ≡ unknown reasons)

join-IsUnknown : (s t : StringSet) → IsUnknown s → IsUnknown t → IsUnknown (join s t)
unfolding join join_unknown as_unknown merge_unknown
join-IsUnknown s t (rs, e) (qs, f) = (_, ap₂ join e f)

unknowns : (fs : List Fact) → All IsUnknown (map unknown_of fs)
unknowns [] = tt
unknowns (f ∷ fs) = ((f.reason ∷ [], refl), unknowns fs)

-- The union of the Unknowns of the facts contains every value.
pub facts_contain :
    (f : Fact) (fs : List Fact) (v : Bytes)
    → contains (join_all join (unknown_of f) (map unknown_of fs)) v ≡ true
facts_contain f fs v =
    let ((rs, e), same) =
      join_all-any join IsUnknown (λ s. true) join-IsUnknown (λ s t h k. refl) (unknown_of f)
        (map unknown_of fs) (unknowns (f ∷ fs)) in
    ap (λ s. contains s v) e ∙ (unfold contains in refl)

-- Nor does it ask for the claim.
pub facts_top :
    (f : Fact) (fs : List Fact) → is_top (join_all join (unknown_of f) (map unknown_of fs)) ≡ true
facts_top f fs =
    let ((rs, e), same) =
      join_all-any join IsUnknown (λ s. true) join-IsUnknown (λ s t h k. refl) (unknown_of f)
        (map unknown_of fs) (unknowns (f ∷ fs)) in
    ap is_top e ∙ (unfold is_top in refl)

-- What an outcome's set holds.
abbrev pub holds : Option StringSet → Bytes → Bool
holds none v = false
holds (some s) v = contains s v

-- The operators that are read: StringEquals and StringLike, without prefix and suffix.
abbrev pub IsRead : Operator → Type 0
IsRead op =
    (op.recognised ≡ true)
    × ((bytes_eq op.set_prefix all_values || op.if_exists) ≡ false)
    × (bytes_eq op.set_prefix any_value ≡ false)
    × ((bytes_eq op.base (codes "StringEquals") || bytes_eq op.base (codes "StringLike")) ≡ true)

pub operator_message-IsRead :
    (effect : Effect) (op : Operator) (on : Bytes) (v : Value)
    → operator_message effect op on v ≡ none
    → IsRead op
unfolding operator_message
operator_message-IsRead effect op on v e = elim (Bool-cases op.recognised) [
  | inr a ↦ let bad : some _ ≡ none = rw a at e in cc bad
  | inl a ↦ elim (Bool-cases (bytes_eq op.set_prefix all_values || op.if_exists)) [
    | inl b ↦ let bad : some _ ≡ none = rw (a, b) at e in cc bad
    | inr b ↦ elim (Bool-cases (bytes_eq op.set_prefix any_value)) [
      | inl c ↦ let bad : some _ ≡ none = rw (a, b, c) at e in cc bad
      | inr c ↦ (a, b, c, ground (arith, e, a, b, c))
    ]
  ]
]

either_read :
    (o : Option StringSet) (fs : List Fact)
    → is_read o ≡ (length fs == 0)
    → ((s : StringSet) × (o ≡ some s) × (fs ≡ [])) ⊎ (1 ≤ length fs)
either_read none [] e = cc e
either_read (some s) [] e = inl (s, refl, refl)
either_read o (f ∷ fs) e = inr (omega arith)

-- A set that is not top asks for the claim.
abbrev pub IsNarrow : Option StringSet → Type 0
IsNarrow o = (s : StringSet) → o ≡ some s → is_top s ≡ false

-- What the values of a condition give where nothing else keeps it from being read: the values that
-- the texts admit, or a fact.
abbrev pub ReadsValues : ConditionReading → VariableMode → Leaves → ValueSet → Type 0
ReadsValues r mode found read =
    ((texts : List Bytes) × (found ≡ leaf_texts texts)
      × (read.facts ≡ [])
      × ((v : Bytes)
          → holds read.set v
            ≡ any (value_admits mode (bytes_eq r.op.base (codes "StringLike")) v) texts)
      × IsNarrow read.set)
    ⊎ (1 ≤ length read.facts)

value_set-ReadsValues :
    (r : ConditionReading) (mode : VariableMode) (src text : Bytes) (texts : List Bytes)
    → All IsBytes (text ∷ texts)
    → ReadsValues r mode (leaf_texts (text ∷ texts)) (
        value_set r.constraint.operator
          (text ∷ texts)
          r.claim
          (bytes_eq r.op.base (codes "StringLike"))
          mode
          src)
value_set-ReadsValues r mode src text texts h =
    let like : Bool = bytes_eq r.op.base (codes "StringLike") in
    let read : ValueSet = value_set r.constraint.operator (text ∷ texts) r.claim like mode src in
    elim (either_read read.set read.facts
      (value_set-told r.constraint.operator (text ∷ texts) r.claim like mode src h (omega arith))) [
        | inr told ↦ inr told
        | inl (s, e, quiet) ↦ inl (
          text ∷ texts,
          refl,
          quiet,
          λ v.
              ap (λ o. holds o v) e
              ∙ (value_set-any r.constraint.operator (text ∷ texts) r.claim like mode src s v h
                  e).0,
          λ t f.
              (value_set-any r.constraint.operator (text ∷ texts) r.claim like mode src t [] h f).1,
        )
      ]

not_null :
    (base : Bytes)
    → (bytes_eq base (codes "StringEquals") || bytes_eq base (codes "StringLike")) ≡ true
    → bytes_eq base (codes "Null") ≡ false
not_null base h = elim (Bool-cases (bytes_eq base (codes "Null"))) [
  | inr n ↦ n
  | inl y ↦
      let same : base ≡ codes "Null" = (bytes_eq_iff base (codes "Null")).0 y in
      let bad : (bytes_eq (codes "Null") (codes "StringEquals")
            || bytes_eq (codes "Null") (codes "StringLike"))
          ≡ true =
        subst (λ b. (bytes_eq b (codes "StringEquals") || bytes_eq b (codes "StringLike")) ≡ true)
          same h in
      null_apart bad
]
  where
    null_apart :
        (bytes_eq (codes "Null") (codes "StringEquals")
            || bytes_eq (codes "Null") (codes "StringLike"))
          ≡ true
        → bytes_eq base (codes "Null") ≡ false
    null_apart bad = unfold bytes_eq in absurd (ground (arith, bad))

pub values_of-ReadsValues :
    (r : ConditionReading) (mode : VariableMode) (src : Bytes) (found : Leaves)
    → length r.facts ≡ 0
    → IsRead r.op
    → ((texts : List Bytes) → found ≡ leaf_texts texts → All IsBytes texts)
    → ReadsValues r mode found (values_of r mode src found)
unfolding values_of
values_of-ReadsValues r mode src (bad_leaf v in_list) quiet ok h =
    inr (rw (not_null r.op.base ok.3) (omega arith))
values_of-ReadsValues r mode src (leaf_texts []) quiet ok h = inr (omega arith)
values_of-ReadsValues r mode src (leaf_texts (text ∷ texts)) quiet ok h =
    let none_yet : (length r.facts == 0) ≡ true = ground (arith, quiet) in
    rw none_yet (value_set-ReadsValues r mode src text texts (h (text ∷ texts) refl))
