-- ===== src/Aws/Operator/Spelled.antt =====
-- internal/parse/aws/condition.go: a documented operator has no space, so that a reason shows where it ends.
use cloudarq.Prelude.{
  ◌-◌, ◌≡◌, refl, ◌∙◌, sym, subst, inl, inr, Bool, true, false, not, ◌&&◌, List, [], ◌∷◌, ◌++◌,
  some, all, any, all-append, length, drop, take, take-drop, arith, Bool-cases, ◌==◌,
}
use cloudarq.Text.Bytes.{Bytes, codes, bytes_eq, bytes_eq_iff}
use cloudarq.Trust.Issuer.{has_prefix}
use cloudarq.Aws.Folding.{cut}
use cloudarq.Aws.Operator.{
  documented_operators, is_documented, has_suffix, if_exists_suffix, all_values, any_value,
  parse_base, parse_operator,
}
use cloudarq.Aws.Folding.Cut.{prefix_parts}

abbrev pub no_space : Bytes → Bool
no_space s = all (λ b. not (b == b' ')) s

-- Names with no space, among which a text is found.
no_space-any :
    (names : List Bytes) (text : Bytes)
    → all no_space names ≡ true
    → any (λ name. bytes_eq name text) names ≡ true
    → no_space text ≡ true
no_space-any [] text h e = cc e
no_space-any (name ∷ names) text h e = elim (Bool-cases (bytes_eq name text)) [
  | inl y ↦ subst (λ x. no_space x ≡ true) ((bytes_eq_iff name text).0 y) (ground arith)
  | inr n ↦ no_space-any names text (ground arith) (rw n at e)
]

documented_no_space : (text : Bytes) → is_documented text ≡ true → no_space text ≡ true
unfolding is_documented
documented_no_space text e = no_space-any documented_operators text refl e

base_no_space :
    (prefix text : Bytes) → (parse_base prefix text).recognised ≡ true → no_space text ≡ true
unfolding parse_base
base_no_space prefix text e = elim (Bool-cases (has_suffix text if_exists_suffix)) [
  | inl s ↦
      let head : Bytes = take (length text - length if_exists_suffix) text in
      let known : (is_documented head && not (true && bytes_eq head (codes "Null"))) ≡ true =
        rw s at e in
      let tail : drop (length text - length if_exists_suffix) text ≡ if_exists_suffix =
        unfold has_suffix in (bytes_eq_iff _ _).0 (ground arith) in
      let front : no_space head ≡ true = documented_no_space head (ground arith) in
      let back : no_space (drop (length text - length if_exists_suffix) text) ≡ true =
        rw tail refl in
      subst (λ x. no_space x ≡ true) (take-drop (length text - length if_exists_suffix) text)
        (all-append (λ b. not (b == b' ')) head (drop (length text - length if_exists_suffix) text)
          ∙ ground arith)
  | inr s ↦
      let known : (is_documented text && not (false && bytes_eq text (codes "Null"))) ≡ true =
        rw s at e in
      documented_no_space text (ground arith)
]

behind_prefix :
    (text p : Bytes)
    → has_prefix text p ≡ true
    → no_space p ≡ true
    → no_space (drop (length p) text) ≡ true
    → no_space text ≡ true
behind_prefix text p h k l =
    subst (λ x. no_space x ≡ true) (sym (prefix_parts text p h))
      (all-append (λ b. not (b == b' ')) p (drop (length p) text) ∙ ground arith)

-- No operator that is recognised holds a space.
pub recognised_no_space :
    (text : Bytes) → (parse_operator text).recognised ≡ true → no_space text ≡ true
unfolding parse_operator
recognised_no_space text e = elim (Bool-cases (has_prefix text (all_values ++ codes ":"))) [
  | inl a ↦
      behind_prefix text (all_values ++ codes ":") a refl
        (base_no_space all_values (drop (length (all_values ++ codes ":")) text) (rw a at e))
  | inr a ↦ elim (Bool-cases (has_prefix text (any_value ++ codes ":"))) [
    | inl b ↦
        behind_prefix text (any_value ++ codes ":") b refl
          (base_no_space any_value (drop (length (any_value ++ codes ":")) text) (rw (a, b) at e))
    | inr b ↦ base_no_space [] text (rw (a, b) at e)
  ]
]

prefix_self : (p s : Bytes) → has_prefix (p ++ s) p ≡ true
unfolding has_prefix
prefix_self [] s = refl
prefix_self (b ∷ p) s = ground (arith, prefix_self p s)

drop_self : (p s : Bytes) → drop (length p) (p ++ s) ≡ s
drop_self [] s = refl
drop_self (b ∷ p) s = drop_self p s

-- The first occurrence of what begins with a space, behind a text with none.
pub cut-behind :
    (sep text rest : Bytes)
    → no_space text ≡ true
    → cut (b' ' ∷ sep) (text ++ (b' ' ∷ (sep ++ rest))) ≡ some (text, rest)
unfolding cut has_prefix
cut-behind sep [] rest h = rw (prefix_self sep rest, drop_self sep rest) refl
cut-behind sep (b ∷ text) rest h =
    let apart : (b == b' ') ≡ false = ground arith in
    rw (apart, cut-behind sep text rest (ground arith)) refl
