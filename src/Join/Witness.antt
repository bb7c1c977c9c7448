-- ===== src/Join/Witness.antt =====
-- internal/join/witness.go: an identity that both grants of a pair admit, built from what the overlap
-- of the two says of each claim.
pub mod Parts
pub mod Reads
pub mod Holds
pub mod Tokens
use cloudarq.Prelude.{
  ℕ, zero, suc, ◌+◌, Bool, true, false, not, ◌&&◌, ◌||◌, List, [], ◌∷◌, map, Option, none, some,
  any, all, length, drop, ltb, leb, ◌==◌, if◌then◌else◌,
}
use cloudarq.Prelude.Order.Sorting.{sort}
use cloudarq.Text.Bytes.{Bytes, codes, bytes_order}
use cloudarq.Text.Quote.{quote_mark}
use cloudarq.Text.Quote.Quoted.{quoted}
use cloudarq.Eval.StringSet.{StringSet, is_top, render}
use cloudarq.Eval.StringSet.Build.{◌>>=◌}
use cloudarq.Eval.Claims.{ClaimKey, put}
use cloudarq.Eval.Admitted.{Term, Token, AdmittedSet, admits}
use cloudarq.Trust.Issuer.{has_prefix}
use cloudarq.Join.Walk.{shared_instance}

pub data ReadKind : Type 0 where
  exact_value glob_pattern all_of any_of : ReadKind

-- `shape`: the fields are the kind, the text and the members.
mutual
  pub data ReadShape : Type 0 where
    read_as : ReadKind → Bytes → ReadShapes → ReadShape

  pub data ReadShapes : Type 0 where
    no_reads : ReadShapes
    reads : ReadShape → ReadShapes → ReadShapes

unfoldable pub reads_of : List ReadShape → ReadShapes
reads_of [] = no_reads
reads_of (s ∷ ss) = reads s (reads_of ss)

-- `constraint`, whose shape is the zero value where the constraint is top.
pub record Constraint : Type 0 where
  pub claim : ClaimKey
  pub top : Bool
  pub shape : ReadShape

abbrev pub zero_shape : ReadShape
zero_shape = read_as exact_value [] no_reads

-- What is read from the front of a text, and what follows it: none for `ok = false`.
abbrev pub Parsed : Type 0
Parsed = Option (ReadShape × Bytes)

unfoldable pub is_pattern : ReadShape → Bool
is_pattern (read_as glob_pattern text members) = true
is_pattern _ = false

-- The loop of `parseMembers`. A member takes the separator's bytes at least, so the length of the
-- text is fuel enough.
unfoldable pub more_members : (Bytes → Parsed) → Bytes → ℕ → Bytes → Option (List ReadShape × Bytes)
more_members parse sep zero rest = some ([], rest)
more_members parse sep (suc fuel) rest =
    let onward = (do
      (m, left) ← parse (drop (length sep) rest)
      (ms, behind) ← more_members parse sep fuel left
      some (m ∷ ms, behind)) in
    if has_prefix rest sep then onward else some ([], rest)

-- The tests behind the loop.
unfoldable pub closed_members : ReadKind → List ReadShape → Bytes → Parsed
unfolding is_pattern reads_of
closed_members kind members rest =
    if ltb (length members) 2 || not (has_prefix rest (codes ")"))
    then none
    else if (elim kind [ all_of ↦ true | _ ↦ false ]) && any (λ m. not (is_pattern m)) members
    then none
    else some (read_as kind [] (reads_of members), drop 1 rest)

unfoldable pub members_after : (Bytes → Parsed) → ReadKind → Bytes → ReadShape → Bytes → Parsed
unfolding more_members closed_members
members_after parse kind sep first rest = do
  (others, behind) ← more_members parse sep (length rest) rest
  closed_members kind (first ∷ others) behind

unfoldable pub parse_members : (Bytes → Parsed) → Bytes → Parsed
unfolding members_after
parse_members parse text = do
  (first, rest) ← parse text
  (if has_prefix rest (codes " & ")
      then members_after parse all_of (codes " & ") first rest
      else members_after parse any_of (codes " | ") first rest)

unfoldable pub quoted_as : ReadKind → Bytes → Parsed
quoted_as kind text = do (v, rest) ← quoted text; some (read_as kind v no_reads, rest)

-- `parseShape`: a member stands behind a parenthesis, so the length of the text is fuel enough.
unfoldable pub parse_shape : ℕ → Bytes → Parsed
unfolding parse_members quoted_as
parse_shape zero text = none
parse_shape (suc fuel) text =
    let members = parse_members (parse_shape fuel) (drop 1 text) in
    if has_prefix text (codes "like:")
    then quoted_as glob_pattern (drop 5 text)
    else if has_prefix text (quote_mark ∷ [])
    then quoted_as exact_value text
    else if has_prefix text (codes "(")
    then members
    else none

-- `readShape`: none is its panic.
unfoldable pub read_shape : Bytes → Option ReadShape
unfolding parse_shape
read_shape text = do
  (s, rest) ← parse_shape (suc (length text)) text
  (if length rest == 0 then some s else none)

unfoldable pub read_constraint : ClaimKey × StringSet → Option Constraint
unfolding read_shape
read_constraint (k, s) =
    if is_top s
    then some (record { claim = k; top = true; shape = zero_shape })
    else (do r ← read_shape (render s); some (record { claim = k; top = false; shape = r }))

unfoldable pub read_constraints : List (ClaimKey × StringSet) → Option (List Constraint)
unfolding read_constraint
read_constraints [] = some []
read_constraints (e ∷ es) = do c ← read_constraint e; cs ← read_constraints es; some (c ∷ cs)

-- `constraintsOf`: none is a panic.
unfoldable pub constraints_of : Term → Option (List Constraint)
unfolding read_constraints
constraints_of term = read_constraints (sort bytes_order (λ e. e.0) term)

unfoldable pub texts : ReadShapes → List Bytes
texts no_reads = []
texts (reads (read_as kind text members) ms) = text ∷ texts ms

-- `witness` of a shape, and its loop over the members of a union.
unfoldable mutual
  unfolding texts shared_instance

  pub witness : ReadShape → Option Bytes
  witness (read_as exact_value text members) = some text
  witness (read_as glob_pattern text members) = shared_instance (text ∷ [])
  witness (read_as all_of text members) = shared_instance (texts members)
  witness (read_as any_of text members) = first_witness members

  pub first_witness : ReadShapes → Option Bytes
  first_witness no_reads = none
  first_witness (reads m ms) =
      let later = first_witness ms in elim (witness m) [ some w ↦ some w | none ↦ later ]

-- The loop of `termWitness`.
unfoldable pub witness_into : Token → List Constraint → Option Token
witness_into token [] = some token
witness_into token (c ∷ cs) =
    if c.top
    then witness_into token cs
    else (do v ← witness c.shape; witness_into (put c.claim v token) cs)

unfoldable pub term_witness : List Constraint → Option Token
unfolding witness_into
term_witness cs = witness_into [] cs

-- `witnessOf`: the outer none is a panic, the inner one a nil token.
unfoldable pub confirmed : Option Token → AdmittedSet → AdmittedSet → Option Token
confirmed none a b = none
confirmed (some token) a b = if admits a token && admits b token then some token else none

unfoldable pub first_of : Option Token → Option (Option Token) → Option (Option Token)
first_of (some token) later = some (some token)
first_of none later = later

unfoldable pub witness_of_terms : List Term → AdmittedSet → AdmittedSet → Option (Option Token)
unfolding confirmed first_of
witness_of_terms [] a b = some none
witness_of_terms (t ∷ ts) a b =
    let later = witness_of_terms ts a b in
    (do cs ← constraints_of t; first_of (confirmed (term_witness cs) a b) later)

unfoldable pub witness_of : AdmittedSet → AdmittedSet → AdmittedSet → Option (Option Token)
unfolding witness_of_terms
witness_of overlap a b = witness_of_terms overlap.terms a b
