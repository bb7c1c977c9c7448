-- ===== src/Aws/Operator/Asks.antt =====
-- internal/parse/aws/condition.go: which reasons of a caveat `AsksNoParticularValue` reads as such.
use cloudarq.Prelude.{
  ◌≡◌, refl, ap, ◌∙◌, sym, inl, inr, ◌⊎◌, ◌↔◌, true, false, ◌||◌, [], ◌++◌, some, arith, Bool, ap₂,
  append-nil,
}
use cloudarq.Text.Bytes.{Bytes, codes, bytes_eq}
use cloudarq.Eval.Admitted.{Caveat}
use cloudarq.Aws.Folding.{cut}
use cloudarq.Aws.Operator.{
  Operator, all_values, parse_operator, on_claim, presence_sentence, vacuous_sentence,
  complement_sentence, null_sentence, is_complement, asks_found, asks_no_particular_value,
  is_documented,
}
use cloudarq.Aws.Operator.Parts.{
  SetPrefix, no_set, for_all, for_any, prefix_name, prefix_text, suffix_text, IsSpelled, HasParts,
  parse_operator-HasParts, recognised-IsSpelled,
}
use cloudarq.Aws.Operator.Spelled.{recognised_no_space}
use cloudarq.Aws.Operator.Reasons.{
  IsPlain, SaysBy, same_bytes, SaysBy-asks_by, SaysBy-starts, cut-on_claim, asks_found-SaysBy,
}

-- What a reason may say of an operator with these parts: that its condition passes when the claim is
-- absent, that StringLike matches every value, that Null asks for presence or absence, or that a
-- complement is not modelled.
abbrev pub Says : SetPrefix → Bytes → Bool → Bytes → Caveat → Type 0
Says p base suffixed text c =
    (((p ≡ for_all) ⊎ (suffixed ≡ true)) × (c.reason ≡ vacuous_sentence (on_claim text c.claim)))
    ⊎ ((text ≡ codes "StringLike") × (c.reason ≡ presence_sentence text c.claim))
    ⊎ ((text ≡ codes "Null")
        × ((c.reason ≡ null_sentence (on_claim text c.claim) true)
            ⊎ (c.reason ≡ null_sentence (on_claim text c.claim) false)))
    ⊎ (((text ≡ codes "StringNotEquals")
          ⊎ (text ≡ codes "StringNotLike")
          ⊎ (text ≡ codes "StringNotEqualsIgnoreCase"))
        × (c.reason ≡ complement_sentence (on_claim text c.claim)))

-- A reason that says so of a name that is put together from a set prefix, a documented operator and
-- the suffix.
abbrev pub SaysNothing : Caveat → Type 0
SaysNothing c =
    (text : Bytes) × (p : SetPrefix) × (base : Bytes) × (suffixed : Bool) × IsSpelled text p base
      suffixed
    × Says p base suffixed text c

passes_absent :
    (p : SetPrefix) (suffixed : Bool)
    → (bytes_eq (prefix_name p) all_values || suffixed) ≡ true
    → (p ≡ for_all) ⊎ (suffixed ≡ true)
unfolding bytes_eq
passes_absent no_set suffixed e = inr e
passes_absent for_all suffixed e = inl refl
passes_absent for_any suffixed e = inr e

absent_passes :
    (p : SetPrefix) (suffixed : Bool)
    → (p ≡ for_all) ⊎ (suffixed ≡ true)
    → (bytes_eq (prefix_name p) all_values || suffixed) ≡ true
unfolding bytes_eq
absent_passes p suffixed (inl e) = rw e refl
absent_passes p suffixed (inr e) = rw e (ground arith)

unprefixed : (p : SetPrefix) → prefix_name p ≡ [] → p ≡ no_set
unprefixed no_set e = refl
unprefixed for_all e = cc e
unprefixed for_any e = cc e

-- A name without prefix and suffix is its operator.
plain_text :
    (text : Bytes) (p : SetPrefix) (base : Bytes) (suffixed : Bool)
    → IsSpelled text p base suffixed
    → p ≡ no_set
    → suffixed ≡ false
    → text ≡ base
plain_text text p base suffixed h e f =
    h.0 ∙ ap₂ (λ q b. prefix_text q ++ (base ++ suffix_text b)) e f ∙ append-nil base

complement_cases :
    (base : Bytes)
    → is_complement base ≡ true
    → (base ≡ codes "StringNotEquals")
      ⊎ (base ≡ codes "StringNotLike")
      ⊎ (base ≡ codes "StringNotEqualsIgnoreCase")
unfolding is_complement
complement_cases base e = elim (either_side (bytes_eq base (codes "StringNotEquals")) e) [
  | inl x ↦ inl (same_bytes x)
  | inr x ↦ elim (either_side (bytes_eq base (codes "StringNotLike")) x) [
    | inl y ↦ inr (inl (same_bytes y))
    | inr y ↦ inr (inr (same_bytes y))
  ]
]
  where
    either_side : (a : Bool) {b : Bool} → (a || b) ≡ true → (a ≡ true) ⊎ (b ≡ true)
    either_side true e = inl refl
    either_side false e = inr e

SaysBy-Says :
    (op : Operator) (text : Bytes) (c : Caveat) (p : SetPrefix) (base : Bytes) (suffixed : Bool)
    → IsSpelled text p base suffixed
    → HasParts op p base suffixed
    → SaysBy op text c
    → Says p base suffixed text c
SaysBy-Says op text c p base suffixed h (_, e, b, f) says =
    let plain : IsPlain op → text ≡ op.base =
      λ (q, x). plain_text text p base suffixed h (unprefixed p (sym e ∙ q)) (sym f ∙ x) ∙ sym b in
    elim says [
      | inl (a, r) ↦ inl (
        passes_absent p suffixed (ap₂ (λ n x. bytes_eq n all_values || x) (sym e) (sym f) ∙ a),
        r,
      )
      | inr (inl (q, d, r)) ↦ inr (inl (plain q ∙ d, r))
      | inr (inr (inl (q, d, r))) ↦ inr (inr (inl (plain q ∙ d, r)))
      | inr (inr (inr (q, d, r))) ↦
          inr (inr (inr (complement_cases text (ap is_complement (plain q) ∙ d), r)))
    ]

-- The parts of a documented name are no prefix, itself and no suffix.
documented-IsPlain :
    (text : Bytes)
    → is_documented text ≡ true
    → IsPlain (parse_operator text) × ((parse_operator text).base ≡ text)
documented-IsPlain text known =
    let (_, q, b, x) =
      parse_operator-HasParts text no_set text false (sym (append-nil text), known, λ f. cc f) in
    ((q, x), b)

complement_says :
    (text : Bytes) (c : Caveat)
    → is_documented text ≡ true
    → is_complement text ≡ true
    → c.reason ≡ complement_sentence (on_claim text c.claim)
    → SaysBy (parse_operator text) text c
complement_says text c known n r =
    let (plain, b) = documented-IsPlain text known in
    inr (inr (inr (plain, ap is_complement b ∙ n, r)))

Says-SaysBy :
    (text : Bytes) (c : Caveat) (p : SetPrefix) (base : Bytes) (suffixed : Bool)
    → IsSpelled text p base suffixed
    → Says p base suffixed text c
    → SaysBy (parse_operator text) text c
unfolding is_documented is_complement bytes_eq
Says-SaysBy text c p base suffixed h (inl (a, r)) =
    let (_, e, b, f) = parse_operator-HasParts text p base suffixed h in
    inl (ap₂ (λ n x. bytes_eq n all_values || x) e f ∙ absent_passes p suffixed a, r)
Says-SaysBy text c p base suffixed h (inr (inl (d, r))) =
    let (plain, b) = documented-IsPlain text (rw d refl) in inr (inl (plain, b ∙ d, r))
Says-SaysBy text c p base suffixed h (inr (inr (inl (d, r)))) =
    let (plain, b) = documented-IsPlain text (rw d refl) in inr (inr (inl (plain, b ∙ d, r)))
Says-SaysBy text c p base suffixed h (inr (inr (inr (inl d, r)))) =
    complement_says text c (rw d refl) (rw d refl) r
Says-SaysBy text c p base suffixed h (inr (inr (inr (inr (inl d), r)))) =
    complement_says text c (rw d refl) (rw d refl) r
Says-SaysBy text c p base suffixed h (inr (inr (inr (inr (inr d), r)))) =
    complement_says text c (rw d refl) (rw d refl) r

SaysNothing-asks :
    (c : Caveat) (text : Bytes)
    → (parse_operator text).recognised ≡ true
    → SaysBy (parse_operator text) text c
    → asks_no_particular_value c ≡ true
unfolding asks_no_particular_value
SaysNothing-asks c text x says =
    let (rest, starts) = SaysBy-starts (parse_operator text) text c x says in
    let found : cut (on_claim [] c.claim ++ codes " ") c.reason ≡ some (text, rest) =
      ap (cut (on_claim [] c.claim ++ codes " ")) starts
      ∙ cut-on_claim text c.claim rest (recognised_no_space text x) in
    ap (asks_found c) found
    ∙ (unfold asks_found in rw x (SaysBy-asks_by (parse_operator text) text c says))

-- `AsksNoParticularValue` answers true exactly on the caveats whose reason says, of the caveat's claim
-- and of a name that is put together from a set prefix, a documented operator and the IfExists suffix
-- (which Null does not take), that the condition passes when the claim is absent, where the prefix is
-- ForAllValues or the suffix is there; that StringLike matches every value; that Null asks for
-- presence or absence; or that StringNotEquals, StringNotLike or StringNotEqualsIgnoreCase is not
-- modelled.
pub asks_no_particular_value_iff :
    (c : Caveat) → (asks_no_particular_value c ≡ true) ↔ SaysNothing c
asks_no_particular_value_iff c = (
  λ e.
      let (text, x, says) = asks-SaysBy c e in
      let (p, base, suffixed, spelled, parts) = recognised-IsSpelled text x in
      (
        text,
        p,
        base,
        suffixed,
        spelled,
        SaysBy-Says (parse_operator text) text c p base suffixed spelled parts says,
      ),
  λ (text, p, base, suffixed, spelled, says).
      SaysNothing-asks c text (parse_operator-HasParts text p base suffixed spelled).0
        (Says-SaysBy text c p base suffixed spelled says),
)
  where
    asks-SaysBy :
        (c : Caveat)
        → asks_no_particular_value c ≡ true
        → (text : Bytes) × ((parse_operator text).recognised ≡ true)
          × SaysBy (parse_operator text) text c
    asks-SaysBy c e =
        unfold asks_no_particular_value in
        asks_found-SaysBy c (cut (on_claim [] c.claim ++ codes " ") c.reason) e
