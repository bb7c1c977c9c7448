-- ===== src/Aws/Variables/Literals.antt =====
-- internal/parse/aws/condition.go: what `resolveVariables` returns is made of the text's bytes.
use cloudarq.Prelude.{
  ℕ, zero, suc, ◌<◌, ◌≡◌, refl, subst, inl, inr, Bool, ◌||◌, [], ◌∷◌, ◌++◌, All-append, length,
  drop, Bool-cases, Option, none, some,
}
use cloudarq.Text.Bytes.{Bytes, codes, IsBytes, bytes_eq}
use cloudarq.Eval.StringSet.Build.{◌>>=◌, >>=-some}
use cloudarq.Trust.Issuer.{has_prefix}
use cloudarq.Aws.Folding.{cut}
use cloudarq.Aws.Variables.{
  VariableMode, variables_literal, variables_resolved, variables_uncertain, Resolved, literal,
  problem, no_fuel, opening, written_before, resolve_reference, named, opened, resolve_from,
  resolve_in, resolve_found, resolve_variables,
}

drop-IsBytes : (n : ℕ) (s : Bytes) → IsBytes s → IsBytes (drop n s)
drop-IsBytes zero s h = h
drop-IsBytes (suc n) [] h = tt
drop-IsBytes (suc n) (b ∷ s) h = drop-IsBytes n s h.1

-- Both parts of a cut are made of the bytes of the text.
cut-IsBytes :
    (sep s before after : Bytes)
    → IsBytes s
    → cut sep s ≡ some (before, after)
    → IsBytes before × IsBytes after
unfolding cut
cut-IsBytes sep [] before after h e = elim (Bool-cases (has_prefix [] sep)) [
  | inl p ↦
      let found : some ([], []) ≡ some (before, after) = rw p at e in
      let left : [] ≡ before = cc found in
      let right : [] ≡ after = cc found in (subst IsBytes left tt, subst IsBytes right tt)
  | inr p ↦ let bad : none ≡ some (before, after) = rw p at e in cc bad
]
cut-IsBytes sep (b ∷ s) before after h e = elim (Bool-cases (has_prefix (b ∷ s) sep)) [
  | inl p ↦
      let found : some ([], drop (length sep) (b ∷ s)) ≡ some (before, after) = rw p at e in
      let left : [] ≡ before = cc found in
      let right : drop (length sep) (b ∷ s) ≡ after = cc found in
      (subst IsBytes left tt, subst IsBytes right (drop-IsBytes (length sep) (b ∷ s) h))
  | inr p ↦
      let run : (cut sep s >>= λ r. some (b ∷ r.0, r.1)) ≡ some (before, after) = rw p at e in
      let ((first, rest), f, g) = >>=-some (cut sep s) _ run in
      let left : b ∷ first ≡ before = cc g in
      let right : rest ≡ after = cc g in
      let (one, two) = cut-IsBytes sep s first rest h.1 f in
      (subst IsBytes left (h.0, one), subst IsBytes right two)
]

-- A literal is made of bytes; a problem has no literal.
abbrev pub Written : Resolved → Type 0
Written (literal w) = IsBytes w
Written (problem construct message) = Unit
Written no_fuel = Unit

written_before-Written :
    (text : Bytes) (r : Resolved) → IsBytes text → Written r → Written (written_before text r)
unfolding written_before
written_before-Written text (literal w) h k = All-append (λ b. b < 256) text w h k
written_before-Written text (problem c m) h k = tt
written_before-Written text no_fuel h k = tt

resolve_reference-Written :
    (like : Bool) (before name : Bytes) (onward : Resolved)
    → IsBytes before
    → IsBytes name
    → Written onward
    → Written (resolve_reference like before name onward)
unfolding resolve_reference
resolve_reference-Written like before name onward h k w =
    let text : IsBytes (before ++ name) = All-append (λ b. b < 256) before name h k in
    elim (Bool-cases (bytes_eq name (codes "*") || bytes_eq name (codes "?"))) [
      | inl x ↦ elim (Bool-cases like) [
        | inl y ↦ rw (x, y) tt
        | inr y ↦ rw (x, y) (written_before-Written (before ++ name) onward text w)
      ]
      | inr x ↦ elim (Bool-cases (bytes_eq name (codes "$"))) [
        | inl y ↦ rw (x, y) (written_before-Written (before ++ name) onward text w)
        | inr y ↦ rw (x, y) tt
      ]
    ]

named-Written :
    (go : Bytes → Resolved) (like : Bool) (before after : Bytes) (o : Option (Bytes × Bytes))
    → ((left : Bytes) → IsBytes left → Written (go left))
    → IsBytes before
    → IsBytes after
    → cut (codes "}") after ≡ o
    → Written (named go like before o)
unfolding named
named-Written go like before after none f h k e = tt
named-Written go like before after (some (name, left)) f h k e =
    let (x, y) = cut-IsBytes (codes "}") after name left k e in
    resolve_reference-Written like before name (go left) h x (f left y)

opened-Written :
    (go : Bytes → Resolved) (like : Bool) (rest : Bytes) (o : Option (Bytes × Bytes))
    → ((left : Bytes) → IsBytes left → Written (go left))
    → IsBytes rest
    → cut opening rest ≡ o
    → Written (opened go like rest o)
unfolding opened
opened-Written go like rest none f h e = h
opened-Written go like rest (some (before, after)) f h e =
    let (x, y) = cut-IsBytes opening rest before after h e in
    named-Written go like before after (cut (codes "}") after) f x y refl

resolve_from-Written :
    (fuel : ℕ) (like : Bool) (rest : Bytes) → IsBytes rest → Written (resolve_from fuel like rest)
unfolding resolve_from
resolve_from-Written zero like rest h = tt
resolve_from-Written (suc fuel) like rest h =
    opened-Written (resolve_from fuel like) like rest (cut opening rest)
      (resolve_from-Written fuel like) h refl

resolve_found-Written :
    (o : Option (Bytes × Bytes)) (mode : VariableMode) (like : Bool) (text : Bytes)
    → IsBytes text
    → Written (resolve_found o mode like text)
unfolding resolve_found resolve_in
resolve_found-Written none mode like text h = h
resolve_found-Written (some parts) variables_literal like text h = h
resolve_found-Written (some parts) variables_uncertain like text h = tt
resolve_found-Written (some parts) variables_resolved like text h =
    resolve_from-Written (suc (length text)) like text h

pub resolve_variables-Written :
    (text : Bytes) (mode : VariableMode) (like : Bool)
    → IsBytes text
    → Written (resolve_variables text mode like)
unfolding resolve_variables
resolve_variables-Written text mode like h =
    resolve_found-Written (cut opening text) mode like text h
