-- ===== src/Aws/Values/Admitted.antt =====
-- internal/parse/aws/condition.go: what `valueSet` admits, and that it tells what it could not read.
use cloudarq.Prelude.{
  suc, ◌≤◌, ◌≡◌, ◌≢◌, refl, ap, ap₂, ◌∙◌, sym, inl, inr, Bool, true, false, ◌||◌, List, [], ◌∷◌,
  All, any, length, arith, Bool-cases, Option, none, some, ◌==◌, ◌⊎◌, ◌↔◌, Some,
}
use cloudarq.Text.Bytes.{Bytes, IsBytes, bytes_eq, bytes_eq_iff}
use cloudarq.Eval.StringSet.{StringSet, glob, contains, is_top}
use cloudarq.Eval.StringSet.Build.{join}
use cloudarq.Eval.StringSet.Valid.{IsValid}
use cloudarq.Eval.StringSet.Pattern.{
  glob-IsValid, has_meta, contains-glob_iff, contains-glob_literal,
}
use cloudarq.Eval.Glob.Fits.{Fits}
use cloudarq.Text.Utf8.{runes}
use cloudarq.Eval.Claims.{ClaimKey}
use cloudarq.Trust.Grant.{Anomaly}
use cloudarq.Aws.Variables.{VariableMode, Resolved, literal, problem, no_fuel, resolve_variables}
use cloudarq.Aws.Values.{
  ReadValues, unread, read_values, value_of, add_value, read_text, read_all, set_of_values,
  value_set_of, value_set, join_all,
}
use cloudarq.Aws.Values.Balanced.{join_all-contains}
use cloudarq.Aws.Variables.Escapes.{resolve_variables-ends}
use cloudarq.Aws.Variables.Literals.{Written, resolve_variables-Written}

value_of-IsValid : (like : Bool) (w : Bytes) → IsBytes w → IsValid (value_of like w)
unfolding value_of
value_of-IsValid true w h = glob-IsValid w h
value_of-IsValid false w h = h

-- What a listed text admits: the literal that it resolves to, read as a pattern under StringLike.
abbrev admits_resolved : Bool → Bytes → Resolved → Bool
admits_resolved true v (literal w) = contains (glob w) v
admits_resolved false v (literal w) = bytes_eq v w
admits_resolved like v (problem construct message) = false
admits_resolved like v no_fuel = false

contains-value_of :
    (like : Bool) (w v : Bytes) → contains (value_of like w) v ≡ admits_resolved like v (literal w)
unfolding value_of contains
contains-value_of true w v = refl
contains-value_of false w v = refl

abbrev pub value_admits : VariableMode → Bool → Bytes → Bytes → Bool
value_admits mode like v text = admits_resolved like v (resolve_variables text mode like)

-- What the loop of `valueSet` read: valid sets that contain what the texts admit.
abbrev ReadsAs : (Bytes → Bool) → List Bytes → List StringSet → Bytes → Type 0
ReadsAs admits texts sets v =
    All IsValid sets
    × (any (λ t. contains t v) sets ≡ any admits texts)
    × (length sets ≡ length texts)

read_text-ReadsAs :
    (text : Bytes) (texts : List Bytes) (claim : ClaimKey) (mode : VariableMode) (like : Bool)
    (src v : Bytes) (r : Resolved) (onward : ReadValues) (sets : List StringSet)
    (notes : List Anomaly)
    → resolve_variables text mode like ≡ r
    → Written r
    → r ≢ no_fuel
    → ((more : List StringSet) (said : List Anomaly)
        → onward ≡ read_values more said
        → ReadsAs (value_admits mode like v) texts more v)
    → read_text text claim like mode src r onward ≡ read_values sets notes
    → ReadsAs (value_admits mode like v) (text ∷ texts) sets v
unfolding read_text add_value
read_text-ReadsAs text texts claim mode like src v (literal w) (unread f) sets notes r h n rest e =
    cc e
read_text-ReadsAs text texts claim mode like src v (literal w) (read_values more said) sets notes r
      h n rest e =
    let (valid, says, long) = rest more said refl in
    let same : value_of like w ∷ more ≡ sets = cc e in
    let here : value_admits mode like v text ≡ contains (value_of like w) v =
      ap (admits_resolved like v) r ∙ sym (contains-value_of like w v) in
    rw (← same) ((value_of-IsValid like w h, valid), ap₂ ◌||◌ (sym here) says, ap suc long)
read_text-ReadsAs text texts claim mode like src v (problem c m) onward sets notes r h n rest e =
    cc e
read_text-ReadsAs text texts claim mode like src v no_fuel onward sets notes r h n rest e =
    absurd (n refl)

read_all-ReadsAs :
    (texts : List Bytes) (claim : ClaimKey) (mode : VariableMode) (like : Bool) (src v : Bytes)
    (sets : List StringSet) (notes : List Anomaly)
    → All IsBytes texts
    → read_all texts claim like mode src ≡ read_values sets notes
    → ReadsAs (value_admits mode like v) texts sets v
unfolding read_all
read_all-ReadsAs [] claim mode like src v sets notes h e =
    let same : [] ≡ sets = cc e in rw (← same) (tt, refl, refl)
read_all-ReadsAs (text ∷ texts) claim mode like src v sets notes h e =
    read_text-ReadsAs text texts claim mode like src v (resolve_variables text mode like)
      (read_all texts claim like mode src) sets notes refl
      (resolve_variables-Written text mode like h.0) (resolve_variables-ends text mode like)
      (λ more said f. read_all-ReadsAs texts claim mode like src v more said h.1 f) e

set_of_values-some :
    (operator : Bytes) (claim : ClaimKey) (first s : StringSet) (sets : List StringSet)
    (notes : List Anomaly)
    → (set_of_values operator claim first sets notes).set ≡ some s
    → (join_all join first sets ≡ s) × (is_top s ≡ false)
unfolding set_of_values
set_of_values-some operator claim first s sets notes e =
    elim (Bool-cases (is_top (join_all join first sets))) [
      | inl x ↦ let bad : none ≡ some s = rw x at e in cc bad
      | inr x ↦
          let found : some (join_all join first sets) ≡ some s = rw x at e in
          let same : join_all join first sets ≡ s = cc found in (same, ap is_top (sym same) ∙ x)
    ]

value_set_of-contains :
    (operator : Bytes) (texts : List Bytes) (claim : ClaimKey) (admits : Bytes → Bool)
    (s : StringSet) (v : Bytes) (read : ReadValues)
    → ((sets : List StringSet) (notes : List Anomaly)
        → read ≡ read_values sets notes
        → ReadsAs admits texts sets v)
    → (value_set_of operator claim read).set ≡ some s
    → (contains s v ≡ any admits texts) × (is_top s ≡ false)
unfolding value_set_of
value_set_of-contains operator texts claim admits s v (unread f) h e = cc e
value_set_of-contains operator texts claim admits s v (read_values [] notes) h e = cc e
value_set_of-contains operator texts claim admits s v (read_values (first ∷ sets) notes) h e =
    let (valid, says, long) = h (first ∷ sets) notes refl in
    let (same, kept) = set_of_values-some operator claim first s sets notes e in
    (ap (λ t. contains t v) (sym same) ∙ join_all-contains first sets v valid ∙ says, kept)

-- A set that `valueSet` returns contains what some text admits, and is not top.
pub value_set-any :
    (operator : Bytes) (texts : List Bytes) (claim : ClaimKey) (like : Bool) (mode : VariableMode)
    (src : Bytes) (s : StringSet) (v : Bytes)
    → All IsBytes texts
    → (value_set operator texts claim like mode src).set ≡ some s
    → (contains s v ≡ any (value_admits mode like v) texts) × (is_top s ≡ false)
unfolding value_set
value_set-any operator texts claim like mode src s v h e =
    value_set_of-contains operator texts claim (value_admits mode like v) s v
      (read_all texts claim like mode src)
      (λ sets notes f. read_all-ReadsAs texts claim mode like src v sets notes h f) e

-- A value that a pattern admits: one whose runes fit its runes, or the text itself where it has no
-- metacharacter.
abbrev pub Matches : Bytes → Bytes → Type 0
Matches w v = ((has_meta w ≡ true) × Fits (runes w) (runes v)) ⊎ ((has_meta w ≡ false) × (v ≡ w))

-- A value that a resolved text admits under an operator.
abbrev pub AdmittedBy : Bool → Bytes → Resolved → Type 0
AdmittedBy true v (literal w) = Matches w v
AdmittedBy false v (literal w) = v ≡ w
AdmittedBy like v (problem construct message) = ⊥
AdmittedBy like v no_fuel = ⊥

glob-Matches : (w v : Bytes) → (contains (glob w) v ≡ true) ↔ Matches w v
glob-Matches w v = elim (Bool-cases (has_meta w)) [
  | inl m ↦
      let (fits, back) = contains-glob_iff w v m in
      (
        λ e. inl (m, fits e),
        λ (h : Matches w v). elim h [ inl (_, f) ↦ back f | inr (n, same) ↦ cc (m, n) ],
      )
  | inr n ↦ (
    λ e. inr (n, contains-glob_literal w v n e),
    λ (h : Matches w v). elim h [
      | inl (m, f) ↦ cc (m, n)
      | inr (_, same) ↦ unfold glob contains in rw n ((bytes_eq_iff v w).1 same)
    ],
  )
]

admits_resolved-AdmittedBy :
    (like : Bool) (v : Bytes) (r : Resolved)
    → (admits_resolved like v r ≡ true) ↔ AdmittedBy like v r
admits_resolved-AdmittedBy true v (literal w) = glob-Matches w v
admits_resolved-AdmittedBy false v (literal w) = bytes_eq_iff v w
admits_resolved-AdmittedBy like v (problem c m) = (λ e. cc e, λ h. absurd h)
admits_resolved-AdmittedBy like v no_fuel = (λ e. cc e, λ h. absurd h)

-- Some text admits a value exactly where the test says so.
pub any-AdmittedBy :
    (mode : VariableMode) (like : Bool) (v : Bytes) (texts : List Bytes)
    → (any (value_admits mode like v) texts ≡ true)
      ↔ Some (λ text. AdmittedBy like v (resolve_variables text mode like)) texts
any-AdmittedBy mode like v [] = (λ e. cc e, λ h. absurd h)
any-AdmittedBy mode like v (text ∷ texts) =
    let (into, back) = admits_resolved-AdmittedBy like v (resolve_variables text mode like) in
    let (first, last) = any-AdmittedBy mode like v texts in
    elim (Bool-cases (value_admits mode like v text)) [
      | inl x ↦ (λ e. inl (into x), λ h. rw x refl)
      | inr x ↦ (
        λ e. inr (first (rw x at e)),
        λ (h : Some (λ t. AdmittedBy like v (resolve_variables t mode like)) (text ∷ texts)).
            elim h [ inl here ↦ cc (x, back here) | inr there ↦ rw x (last there) ],
      )
    ]

-- Whether `valueSet` returned a set.
abbrev pub is_read : Option StringSet → Bool
is_read none = false
is_read (some s) = true

set_of_values-told :
    (operator : Bytes) (claim : ClaimKey) (first : StringSet) (sets : List StringSet)
    (notes : List Anomaly)
    → is_read (set_of_values operator claim first sets notes).set
      ≡ (length (set_of_values operator claim first sets notes).facts == 0)
unfolding set_of_values
set_of_values-told operator claim first sets notes = ground arith

value_set_of-told :
    (operator : Bytes) (texts : List Bytes) (claim : ClaimKey) (admits : Bytes → Bool) (v : Bytes)
    (read : ReadValues)
    → 1 ≤ length texts
    → ((sets : List StringSet) (notes : List Anomaly)
        → read ≡ read_values sets notes
        → ReadsAs admits texts sets v)
    → is_read (value_set_of operator claim read).set
      ≡ (length (value_set_of operator claim read).facts == 0)
unfolding value_set_of
value_set_of-told operator texts claim admits v (unread f) l h = refl
value_set_of-told operator texts claim admits v (read_values [] notes) l h =
    let (valid, says, long) = h [] notes refl in absurd (omega (arith, long))
value_set_of-told operator texts claim admits v (read_values (first ∷ sets) notes) l h =
    set_of_values-told operator claim first sets notes

-- `valueSet` of one text of bytes at least returns a set exactly where it tells no fact: what it
-- could not read is never passed over in silence.
pub value_set-told :
    (operator : Bytes) (texts : List Bytes) (claim : ClaimKey) (like : Bool) (mode : VariableMode)
    (src : Bytes)
    → All IsBytes texts
    → 1 ≤ length texts
    → is_read (value_set operator texts claim like mode src).set
      ≡ (length (value_set operator texts claim like mode src).facts == 0)
unfolding value_set
value_set-told operator texts claim like mode src h l =
    value_set_of-told operator texts claim (value_admits mode like []) []
      (read_all texts claim like mode src) l
      (λ sets notes f. read_all-ReadsAs texts claim mode like src [] sets notes h f)
