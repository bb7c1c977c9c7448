-- ===== src/Aws/Variables/Escapes.antt =====
-- internal/parse/aws/condition.go: `resolveVariables` ends, and undoes the escapes of wildcards.
use cloudarq.Prelude.{
  ℕ, zero, suc, ◌+◌, ◌≤◌, ◌<◌, ◌≡◌, ◌≢◌, refl, ap, ◌∙◌, sym, inl, inr, Bool, true, false, ◌||◌, [],
  ◌∷◌, ◌++◌, Option, none, some, length, length-drop, drop, arith, Bool-cases, if◌then◌else◌, ◌==◌,
}
use cloudarq.Text.Bytes.{Bytes, codes, bytes_eq}
use cloudarq.Eval.StringSet.Build.{◌>>=◌, >>=-some}
use cloudarq.Trust.Issuer.{has_prefix}
use cloudarq.Aws.Folding.{cut}
use cloudarq.Aws.Variables.{
  VariableMode, variables_literal, variables_resolved, variables_uncertain, Resolved, literal,
  problem, no_fuel, opening, written_before, resolve_reference, named, opened, resolve_from,
  resolve_in, resolve_found, resolve_variables,
}

prefix-length : (s p : Bytes) → has_prefix s p ≡ true → length p ≤ length s
unfolding has_prefix
prefix-length s [] h = omega arith
prefix-length [] (c ∷ p) h = cc h
prefix-length (b ∷ s) (c ∷ p) h = ground (arith, prefix-length s p)

-- What a cut leaves behind the separator is shorter by the separator.
cut-length :
    (sep s before after : Bytes)
    → cut sep s ≡ some (before, after)
    → length sep + length after ≤ length s
unfolding cut
cut-length sep [] before after e = elim (Bool-cases (has_prefix [] sep)) [
  | inl p ↦
      let found : some ([], []) ≡ some (before, after) = rw p at e in
      let same : [] ≡ after = cc found in rw (← same) (omega (arith, prefix-length [] sep p))
  | inr p ↦ let bad : none ≡ some (before, after) = rw p at e in cc bad
]
cut-length sep (b ∷ s) before after e = elim (Bool-cases (has_prefix (b ∷ s) sep)) [
  | inl p ↦
      let found : some ([], drop (length sep) (b ∷ s)) ≡ some (before, after) = rw p at e in
      let same : drop (length sep) (b ∷ s) ≡ after = cc found in
      rw (← same) (omega (arith, length-drop (length sep) (b ∷ s), prefix-length (b ∷ s) sep p))
  | inr p ↦
      let run : (cut sep s >>= λ r. some (b ∷ r.0, r.1)) ≡ some (before, after) = rw p at e in
      let ((first, rest), f, g) = >>=-some (cut sep s) _ run in
      let same : rest ≡ after = cc g in rw (← same) (omega (arith, cut-length sep s first rest f))
]

written_before-ends : (text : Bytes) (r : Resolved) → r ≢ no_fuel → written_before text r ≢ no_fuel
unfolding written_before
written_before-ends text (literal rest) h e = cc e
written_before-ends text (problem c m) h e = cc e
written_before-ends text no_fuel h e = h e

resolve_reference-ends :
    (like : Bool) (before name : Bytes) (onward : Resolved)
    → onward ≢ no_fuel
    → resolve_reference like before name onward ≢ no_fuel
unfolding resolve_reference
resolve_reference-ends like before name onward h =
    elim (Bool-cases (bytes_eq name (codes "*") || bytes_eq name (codes "?"))) [
      | inl x ↦ elim (Bool-cases like) [
        | inl y ↦ rw (x, y) (λ e. cc e)
        | inr y ↦ rw (x, y) (written_before-ends (before ++ name) onward h)
      ]
      | inr x ↦ elim (Bool-cases (bytes_eq name (codes "$"))) [
        | inl y ↦ rw (x, y) (written_before-ends (before ++ name) onward h)
        | inr y ↦ rw (x, y) (λ e. cc e)
      ]
    ]

named-ends :
    (go : Bytes → Resolved) (like : Bool) (before after : Bytes) (o : Option (Bytes × Bytes))
    → cut (codes "}") after ≡ o
    → ((left : Bytes) → length left ≤ length after → go left ≢ no_fuel)
    → named go like before o ≢ no_fuel
unfolding named
named-ends go like before after none e f = λ x. cc x
named-ends go like before after (some (name, left)) e f =
    resolve_reference-ends like before name (go left)
      (f left (omega (arith, cut-length (codes "}") after name left e)))

opened-ends :
    (go : Bytes → Resolved) (like : Bool) (rest : Bytes) (o : Option (Bytes × Bytes))
    → cut opening rest ≡ o
    → ((left : Bytes) → length left < length rest → go left ≢ no_fuel)
    → opened go like rest o ≢ no_fuel
unfolding opened
opened-ends go like rest none e f = λ x. cc x
opened-ends go like rest (some (before, after)) e f =
    named-ends go like before after (cut (codes "}") after) refl
      (λ left h. f left (omega (arith, cut-length opening rest before after e)))

resolve_from-ends :
    (fuel : ℕ) (like : Bool) (rest : Bytes)
    → length rest < fuel
    → resolve_from fuel like rest ≢ no_fuel
unfolding resolve_from
resolve_from-ends zero like rest h = absurd (omega arith)
resolve_from-ends (suc fuel) like rest h =
    opened-ends (resolve_from fuel like) like rest (cut opening rest) refl
      (λ left l. resolve_from-ends fuel like left (omega arith))

resolve_found-ends :
    (o : Option (Bytes × Bytes)) (mode : VariableMode) (like : Bool) (text : Bytes)
    → resolve_found o mode like text ≢ no_fuel
unfolding resolve_found resolve_in
resolve_found-ends none mode like text = λ e. cc e
resolve_found-ends (some parts) variables_literal like text = λ e. cc e
resolve_found-ends (some parts) variables_uncertain like text = λ e. cc e
resolve_found-ends (some parts) variables_resolved like text =
    resolve_from-ends (suc (length text)) like text (omega arith)

-- `resolveVariables` ends, with a literal or with a problem, whatever the text and the mode are.
pub resolve_variables-ends :
    (text : Bytes) (mode : VariableMode) (like : Bool) → resolve_variables text mode like ≢ no_fuel
unfolding resolve_variables
resolve_variables-ends text mode like = resolve_found-ends (cut opening text) mode like text

-- Whether a byte is written as a reference.
abbrev is_escaped : ℕ → Bool
is_escaped b = b == b'$' || (b == b'*' || b == b'?')

-- A text written with `${$}`, `${*}` and `${?}` for the characters they stand for.
abbrev pub written : Bytes → Bytes
written [] = []
written (b ∷ s) = if is_escaped b then opening ++ (b ∷ b'}' ∷ written s) else b ∷ written s

resolve_reference-before :
    (like : Bool) (b : ℕ) (before name : Bytes) (onward : Resolved)
    → resolve_reference like (b ∷ before) name onward
      ≡ written_before (b ∷ []) (resolve_reference like before name onward)
unfolding resolve_reference written_before
resolve_reference-before like b before name (literal rest) = ground arith
resolve_reference-before like b before name (problem c m) = ground arith
resolve_reference-before like b before name no_fuel = ground arith

named-before :
    (go : Bytes → Resolved) (like : Bool) (b : ℕ) (before : Bytes) (o : Option (Bytes × Bytes))
    → named go like (b ∷ before) o ≡ written_before (b ∷ []) (named go like before o)
unfolding named
named-before go like b before none = unfold written_before in refl
named-before go like b before (some (name, left)) =
    resolve_reference-before like b before name (go left)

opened-before :
    (go : Bytes → Resolved) (like : Bool) (b : ℕ) (s : Bytes) (o : Option (Bytes × Bytes))
    → opened go like (b ∷ s) (o >>= λ r. some (b ∷ r.0, r.1))
      ≡ written_before (b ∷ []) (opened go like s o)
unfolding opened
opened-before go like b s none = unfold written_before in refl
opened-before go like b s (some (before, after)) =
    named-before go like b before (cut (codes "}") after)

cut-plain :
    (b : ℕ) (s : Bytes)
    → b ≢ b'$'
    → cut opening (b ∷ s) ≡ (cut opening s >>= λ r. some (b ∷ r.0, r.1))
unfolding cut has_prefix
cut-plain b s h = let apart : (b == b'$') ≡ false = ground arith in rw apart refl

resolve_from-plain :
    (fuel : ℕ) (like : Bool) (b : ℕ) (s : Bytes)
    → b ≢ b'$'
    → resolve_from (suc fuel) like (b ∷ s)
      ≡ written_before (b ∷ []) (resolve_from (suc fuel) like s)
unfolding resolve_from
resolve_from-plain fuel like b s h =
    ap (opened (resolve_from fuel like) like (b ∷ s)) (cut-plain b s h)
    ∙ opened-before (resolve_from fuel like) like b s (cut opening s)

cut-name : (b : ℕ) (s : Bytes) → b ≢ b'}' → cut (codes "}") (b ∷ b'}' ∷ s) ≡ some (b ∷ [], s)
unfolding cut has_prefix
cut-name b s h = let apart : (b == b'}') ≡ false = ground arith in rw apart refl

cut-opening : (s : Bytes) → cut opening (opening ++ s) ≡ some ([], s)
unfolding cut has_prefix
cut-opening s = refl

escaped_reference :
    (b : ℕ) (onward : Resolved)
    → is_escaped b ≡ true
    → resolve_reference false [] (b ∷ []) onward ≡ written_before (b ∷ []) onward
unfolding resolve_reference bytes_eq
escaped_reference b onward h = ground arith

resolve_from-escaped :
    (fuel b : ℕ) (s : Bytes)
    → is_escaped b ≡ true
    → resolve_from (suc fuel) false (opening ++ (b ∷ b'}' ∷ s))
      ≡ written_before (b ∷ []) (resolve_from fuel false s)
unfolding resolve_from opened
resolve_from-escaped fuel b s h =
    let go : Bytes → Resolved = resolve_from fuel false in
    ap (opened go false (opening ++ (b ∷ b'}' ∷ s))) (cut-opening (b ∷ b'}' ∷ s))
    ∙ ap (named go false []) (cut-name b s (ground arith))
    ∙ (unfold named in escaped_reference b (go s) h)

written-length :
    (b : ℕ) (v : Bytes)
    → length (written (b ∷ v))
      ≡ (if is_escaped b then length (written v) + 4 else length (written v) + 1)
written-length b v = ground arith

resolve_from-written :
    (v : Bytes) (fuel : ℕ)
    → length (written v) < fuel
    → resolve_from fuel false (written v) ≡ literal v
resolve_from-written v zero h = absurd (omega arith)
resolve_from-written [] (suc fuel) h = unfold resolve_from cut has_prefix in refl
resolve_from-written (b ∷ v) (suc fuel) h = elim (Bool-cases (is_escaped b)) [
  | inl e ↦
      let short : length (written v) < fuel = ground (arith, written-length b v) in
      rw e (
        resolve_from-escaped fuel b (written v) e
        ∙ ap (written_before (b ∷ [])) (resolve_from-written v fuel short)
        ∙ before_literal b v)
  | inr e ↦
      let short : length (written v) < suc fuel = ground (arith, written-length b v) in
      rw e (
        resolve_from-plain fuel false b (written v) (ground arith)
        ∙ ap (written_before (b ∷ [])) (resolve_from-written v (suc fuel) short)
        ∙ before_literal b v)
]
  where
    before_literal : (b : ℕ) (v : Bytes) → written_before (b ∷ []) (literal v) ≡ literal (b ∷ v)
    before_literal b v = unfold written_before in refl

resolve_found-from :
    (o : Option (Bytes × Bytes)) (text : Bytes)
    → cut opening text ≡ o
    → resolve_found o variables_resolved false text ≡ resolve_from (suc (length text)) false text
unfolding resolve_found resolve_in resolve_from opened
resolve_found-from none text e = ap (opened (resolve_from (length text) false) false text) (sym e)
resolve_found-from (some parts) text e = refl

-- Where variables are resolved and StringEquals compares the value, `resolveVariables` returns every
-- text from its spelling with `${$}`, `${*}` and `${?}`.
pub resolve_variables-written :
    (v : Bytes) → resolve_variables (written v) variables_resolved false ≡ literal v
unfolding resolve_variables
resolve_variables-written v =
    resolve_found-from (cut opening (written v)) (written v) refl
    ∙ resolve_from-written v (suc (length (written v))) (omega arith)
