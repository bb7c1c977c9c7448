-- ===== src/Aws/Operator/Reasons.antt =====
-- internal/parse/aws/condition.go: the switch of `AsksNoParticularValue`, on the operator that it parses.
use cloudarq.Prelude.{
  ◌≡◌, refl, ap, ◌∙◌, sym, inl, inr, ◌⊎◌, true, false, ◌||◌, [], ◌∷◌, ◌++◌, append_assoc, Option,
  none, some, arith, Bool-cases,
}
use cloudarq.Text.Bytes.{Bytes, codes, bytes_eq, bytes_eq_iff}
use cloudarq.Eval.Claims.{ClaimKey}
use cloudarq.Eval.Admitted.{Caveat}
use cloudarq.Aws.Folding.{cut}
use cloudarq.Aws.Operator.{
  Operator, all_values, parse_operator, spell_operator, spell_claim, on_claim, presence_sentence,
  vacuous_sentence, complement_sentence, null_sentence, is_complement, asks_by, asks_found,
}
use cloudarq.Aws.Operator.Spelled.{no_space, cut-behind}

-- What the reason says of the operator's condition: it passes on an absent claim, or whenever the
-- claim is present, or on every value but some.
abbrev pub IsPlain : Operator → Type 0
IsPlain op = (op.set_prefix ≡ []) × (op.if_exists ≡ false)

abbrev pub SaysBy : Operator → Bytes → Caveat → Type 0
SaysBy op text c =
    ((bytes_eq op.set_prefix all_values || op.if_exists) ≡ true)
      × (c.reason ≡ vacuous_sentence (on_claim text c.claim))
    ⊎ (IsPlain op × (op.base ≡ codes "StringLike") × (c.reason ≡ presence_sentence text c.claim))
    ⊎ (IsPlain op
        × (op.base ≡ codes "Null")
        × ((c.reason ≡ null_sentence (on_claim text c.claim) true)
            ⊎ (c.reason ≡ null_sentence (on_claim text c.claim) false)))
    ⊎ (IsPlain op
        × (is_complement op.base ≡ true)
        × (c.reason ≡ complement_sentence (on_claim text c.claim)))

pub same_bytes : {a b : Bytes} → bytes_eq a b ≡ true → a ≡ b
same_bytes {a} {b} e = (bytes_eq_iff a b).0 e

either : {r a b : Bytes} → (bytes_eq r a || bytes_eq r b) ≡ true → (r ≡ a) ⊎ (r ≡ b)
either {r} {a} {b} e = elim (Bool-cases (bytes_eq r a)) [
  | inl x ↦ inl (same_bytes x)
  | inr x ↦ inr (same_bytes (rw x at e))
]

complement_apart :
    (base : Bytes)
    → is_complement base ≡ true
    → (bytes_eq base (codes "StringLike") ≡ false) × (bytes_eq base (codes "Null") ≡ false)
unfolding is_complement bytes_eq
complement_apart base e = elim (Bool-cases (bytes_eq base (codes "StringNotEquals"))) [
  | inl x ↦ let same : base ≡ codes "StringNotEquals" = same_bytes x in rw same (refl, refl)
  | inr x ↦ elim (Bool-cases (bytes_eq base (codes "StringNotLike"))) [
    | inl y ↦ let same : base ≡ codes "StringNotLike" = same_bytes y in rw same (refl, refl)
    | inr y ↦
        let last : bytes_eq base (codes "StringNotEqualsIgnoreCase") ≡ true = rw (x, y) at e in
        let same : base ≡ codes "StringNotEqualsIgnoreCase" = same_bytes last in
        rw same (refl, refl)
  ]
]

asks_by-SaysBy :
    (op : Operator) (text : Bytes) (c : Caveat) → asks_by op text c ≡ true → SaysBy op text c
unfolding asks_by
asks_by-SaysBy op text c e = elim (Bool-cases (bytes_eq op.set_prefix all_values || op.if_exists)) [
  | inl a ↦ inl (a, same_bytes (rw a at e))
  | inr a ↦ elim (Bool-cases (bytes_eq op.set_prefix [])) [
    | inr b ↦ let bad : false ≡ true = rw (a, b) at e in cc bad
    | inl b ↦
        let plain : IsPlain op = (same_bytes b, ground arith) in
        elim (Bool-cases (bytes_eq op.base (codes "StringLike"))) [
          | inl d ↦ inr (inl (plain, same_bytes d, same_bytes (rw (a, b, d) at e)))
          | inr d ↦ elim (Bool-cases (bytes_eq op.base (codes "Null"))) [
            | inl g ↦
                let both : (bytes_eq c.reason (null_sentence (on_claim text c.claim) true)
                      || bytes_eq c.reason (null_sentence (on_claim text c.claim) false))
                    ≡ true =
                  rw (a, b, d, g) at e in
                inr (inr (inl (plain, same_bytes g, either both)))
            | inr g ↦ elim (Bool-cases (is_complement op.base)) [
              | inl h ↦ inr (inr (inr (plain, h, same_bytes (rw (a, b, d, g, h) at e))))
              | inr h ↦ let bad : false ≡ true = rw (a, b, d, g, h) at e in cc bad
            ]
          ]
        ]
  ]
]

bytes_of_same : {a b : Bytes} → a ≡ b → bytes_eq a b ≡ true
bytes_of_same {a} {b} e = (bytes_eq_iff a b).1 e

pub SaysBy-asks_by :
    (op : Operator) (text : Bytes) (c : Caveat) → SaysBy op text c → asks_by op text c ≡ true
unfolding asks_by bytes_eq is_complement
SaysBy-asks_by op text c (inl (a, r)) = rw a (bytes_of_same r)
SaysBy-asks_by op text c (inr (inl ((p, x), b, r))) = rw (p, x, b) (bytes_of_same r)
SaysBy-asks_by op text c (inr (inr (inl ((p, x), b, inl r)))) =
    let found = bytes_of_same r in rw (p, x, b, found) refl
SaysBy-asks_by op text c (inr (inr (inl ((p, x), b, inr r)))) =
    let found = bytes_of_same r in rw (p, x, b) (ground (arith, found))
SaysBy-asks_by op text c (inr (inr (inr ((p, x), b, r)))) =
    let (like, null) = complement_apart op.base b in rw (p, x, like, null, b) (bytes_of_same r)

-- A reason that says so of an operator, in front of everything else that it says.
pub SaysBy-starts :
    (op : Operator) (text : Bytes) (c : Caveat)
    → (parse_operator text).recognised ≡ true
    → SaysBy op text c
    → (rest : Bytes) × (c.reason ≡ on_claim text c.claim ++ (b' ' ∷ rest))
unfolding vacuous_sentence complement_sentence null_sentence presence_sentence
SaysBy-starts op text c h (inl (a, r)) = (_, r)
SaysBy-starts op text c h (inr (inl (p, b, r))) =
    let same : spell_operator text ≡ text = unfold spell_operator in rw h refl in (_, rw same at r)
SaysBy-starts op text c h (inr (inr (inl (p, b, inl r)))) = (_, r)
SaysBy-starts op text c h (inr (inr (inl (p, b, inr r)))) = (_, r)
SaysBy-starts op text c h (inr (inr (inr (p, b, r)))) = (_, r)

-- The operator's text is what stands before the claim.
pub cut-on_claim :
    (text : Bytes) (claim : ClaimKey) (rest : Bytes)
    → no_space text ≡ true
    → cut (on_claim [] claim ++ codes " ") (on_claim text claim ++ (b' ' ∷ rest))
      ≡ some (text, rest)
unfolding on_claim
cut-on_claim text claim rest h =
    let named : Bytes = codes "on " ++ spell_claim claim in
    let joined : (text ++ (b' ' ∷ named)) ++ (b' ' ∷ rest)
        ≡ text ++ (b' ' ∷ ((named ++ codes " ") ++ rest)) =
      append_assoc text (b' ' ∷ named) (b' ' ∷ rest)
      ∙ ap (λ s. text ++ (b' ' ∷ s)) (sym (append_assoc named (codes " ") rest)) in
    ap (cut (b' ' ∷ (named ++ codes " "))) joined ∙ cut-behind (named ++ codes " ") text rest h

pub asks_found-SaysBy :
    (c : Caveat) (o : Option (Bytes × Bytes))
    → asks_found c o ≡ true
    → (text : Bytes) × ((parse_operator text).recognised ≡ true)
      × SaysBy (parse_operator text) text c
unfolding asks_found
asks_found-SaysBy c none e = cc e
asks_found-SaysBy c (some (text, rest)) e = elim (Bool-cases (parse_operator text).recognised) [
  | inl x ↦ (text, x, asks_by-SaysBy (parse_operator text) text c (rw x at e))
  | inr x ↦ let bad : false ≡ true = rw x at e in cc bad
]
