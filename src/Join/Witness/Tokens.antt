-- ===== src/Join/Witness/Tokens.antt =====
-- internal/join/witness.go: `witnessOf` never panics on a set of the package, and its token is
-- admitted.
use cloudarq.Prelude.{
  ◌≡◌, ◌≢◌, refl, ap, ◌∙◌, sym, subst, inl, inr, true, false, ◌&&◌, ◌||◌, List, [], ◌∷◌, map, All,
  all, any, Option, none, some, arith, Bool-cases, Option-cases, if◌then◌else◌,
}
use cloudarq.Prelude.Order.Sorting.{insert, sort}
use cloudarq.Prelude.Order.Sorting.Ascending.{All-sort}
use cloudarq.Prelude.Order.Sorting.Keeps.{all-sort}
use cloudarq.Text.Bytes.{bytes_eq_self, bytes_order, bytes_eq, bytes_eq_iff, bytes_lt}
use cloudarq.Eval.StringSet.{StringSet, is_top, is_empty}
use cloudarq.Eval.StringSet.Build.{◌>>=◌, >>=-some}
use cloudarq.Eval.StringSet.Valid.{IsValid}
use cloudarq.Eval.Claims.{ClaimKey, lookup, put, has_key, IsMap}
use cloudarq.Eval.Claims.Laws.{lookup-put}
use cloudarq.Eval.Admitted.{Term, Token, AdmittedSet, admits, satisfied}
use cloudarq.Eval.Admitted.Terms.{meets, top_satisfied}
use cloudarq.Eval.Admitted.Normalise.{admits-any}
use cloudarq.Join.Witness.{
  Constraint, zero_shape, read_constraint, read_constraints, constraints_of, witness, witness_into,
  term_witness, confirmed, first_of, witness_of_terms, witness_of,
}
use cloudarq.Join.Witness.Reads.{read_of_set, read_shape-render}
use cloudarq.Join.Witness.Holds.{witness-contains}

-- Sorting a map by its keys keeps each key once.
abbrev by_key : ClaimKey × StringSet → ClaimKey
by_key e = e.0

has_key-insert :
    (e : ClaimKey × StringSet) (m : Term) (j : ClaimKey)
    → has_key j (insert bytes_order by_key e m) ≡ (bytes_eq e.0 j || has_key j m)
unfolding insert has_key
has_key-insert e [] j = refl
has_key-insert e ((k, s) ∷ m) j = elim (Bool-cases (bytes_lt k e.0)) [
  | inl a ↦ rw a (ground (arith, has_key-insert e m j))
  | inr a ↦ rw a refl
]

insert-IsMap :
    (e : ClaimKey × StringSet) (m : Term)
    → has_key e.0 m ≡ false
    → IsMap m
    → IsMap (insert bytes_order by_key e m)
unfolding insert has_key
insert-IsMap e [] h k = (refl, tt)
insert-IsMap e ((j, s) ∷ m) h k = elim (Bool-cases (bytes_lt j e.0)) [
  | inl a ↦ rw a (
    ground (arith, has_key-insert e m j, bytes_eq_iff e.0 j, bytes_eq_iff j e.0),
    insert-IsMap e m (ground arith) k.1,
  )
  | inr a ↦ rw a (h, k)
]

has_key-sort : (m : Term) (j : ClaimKey) → has_key j (sort bytes_order by_key m) ≡ has_key j m
unfolding sort has_key
has_key-sort [] j = refl
has_key-sort (e ∷ m) j =
    has_key-insert e (sort bytes_order by_key m) j
    ∙ ap (λ b. bytes_eq e.0 j || b) (has_key-sort m j)

sort-IsMap : (m : Term) → IsMap m → IsMap (sort bytes_order by_key m)
unfolding sort
sort-IsMap [] h = tt
sort-IsMap ((k, s) ∷ m) h =
    insert-IsMap (k, s) (sort bytes_order by_key m) (has_key-sort m k ∙ h.0) (sort-IsMap m h.1)

-- A constraint that a Term of the package may hold.
abbrev pub IsLive : ClaimKey × StringSet → Type 0
IsLive e = IsValid e.1 × (is_empty e.1 ≡ false)

-- The constraint read of an entry.
abbrev constraint_of : ClaimKey × StringSet → Constraint
constraint_of (k, s) =
    if is_top s
    then record { claim = k; top = true; shape = zero_shape }
    else record { claim = k; top = false; shape = read_of_set s }

read_constraint-constraint_of :
    (e : ClaimKey × StringSet) → IsLive e → read_constraint e ≡ some (constraint_of e)
unfolding read_constraint
read_constraint-constraint_of (k, s) h = elim (Bool-cases (is_top s)) [
  | inl t ↦ rw t refl
  | inr t ↦ rw (t, read_shape-render s h.0 t h.1) refl
]

read_constraints-map :
    (es : Term) → All IsLive es → read_constraints es ≡ some (map constraint_of es)
unfolding read_constraints
read_constraints-map [] h = refl
read_constraints-map (e ∷ es) h =
    rw (read_constraint-constraint_of e h.0, read_constraints-map es h.1) refl

-- A claim that the constraints do not name is left as it is.
witness_into-lookup :
    (es : Term) (k : ClaimKey) (token out : Token)
    → has_key k es ≡ false
    → witness_into token (map constraint_of es) ≡ some out
    → lookup k out ≡ lookup k token
unfolding witness_into has_key
witness_into-lookup [] k token out h e = ap (lookup k) (cc e)
witness_into-lookup ((j, s) ∷ es) k token out h e = elim (Bool-cases (is_top s)) [
  | inl t ↦ witness_into-lookup es k token out (ground arith) (rw t at e)
  | inr t ↦
      let run : (witness (read_of_set s) >>= λ v.
      witness_into (put j v token) (map constraint_of es))
          ≡ some out =
        rw t at e in
      let (v, w, rest) = >>=-some (witness (read_of_set s)) _ run in
      let apart : bytes_eq j k ≡ false = ground arith in
      witness_into-lookup es k (put j v token) out (ground arith) rest
      ∙ lookup-put j k v token
      ∙ (rw apart refl)
]

witness_into-meets :
    (es : Term) (token out : Token)
    → IsMap es
    → All IsLive es
    → witness_into token (map constraint_of es) ≡ some out
    → all (satisfied out) es ≡ true
unfolding witness_into satisfied
witness_into-meets [] token out m h e = refl
witness_into-meets ((k, s) ∷ es) token out m h e = elim (Bool-cases (is_top s)) [
  | inl t ↦
      ground (arith, top_satisfied out k s t, witness_into-meets es token out m.1 h.1 (rw t at e))
  | inr t ↦
      let run : (witness (read_of_set s) >>= λ v.
      witness_into (put k v token) (map constraint_of es))
          ≡ some out =
        rw t at e in
      let (v, w, rest) = >>=-some (witness (read_of_set s)) _ run in
      let self : bytes_eq k k ≡ true = bytes_eq_self k in
      let found : lookup k out ≡ some v =
        witness_into-lookup es k (put k v token) out m.0 rest
        ∙ lookup-put k k v token
        ∙ (rw self refl) in
      let here : satisfied out (k, s) ≡ true =
        rw (found, satisfied) (witness-contains s v h.0.0 t h.0.1 w) in
      ground (arith, here, witness_into-meets es (put k v token) out m.1 h.1 rest)
]

-- A Term that a set of the package may hold: a map from claims to constraints that are not empty.
abbrev pub IsLiveTerm : Term → Type 0
IsLiveTerm t = IsMap t × All IsLive t

constraints_of-map :
    (t : Term)
    → IsLiveTerm t
    → constraints_of t ≡ some (map constraint_of (sort bytes_order by_key t))
unfolding constraints_of
constraints_of-map t h =
    read_constraints-map (sort bytes_order by_key t) (All-sort bytes_order by_key IsLive t h.1)

term_witness-meets :
    (t : Term) (out : Token)
    → IsLiveTerm t
    → term_witness (map constraint_of (sort bytes_order by_key t)) ≡ some out
    → meets out t ≡ true
unfolding term_witness
term_witness-meets t out h e =
    sym (all-sort bytes_order by_key (satisfied out) t)
    ∙ witness_into-meets (sort bytes_order by_key t) [] out (sort-IsMap t h.0)
        (All-sort bytes_order by_key IsLive t h.1) e

confirmed-some :
    (o : Option Token) (a b : AdmittedSet) (token : Token)
    → confirmed o a b ≡ some token
    → (o ≡ some token) × (admits a token ≡ true) × (admits b token ≡ true)
unfolding confirmed
confirmed-some none a b token e = cc e
confirmed-some (some t) a b token e = elim (Bool-cases (admits a t && admits b t)) [
  | inl both ↦
      let found : some t ≡ some token = rw both at e in
      let same : t ≡ token = cc found in
      (
        found,
        subst (λ x. admits a x ≡ true) same (ground arith),
        subst (λ x. admits b x ≡ true) same (ground arith),
      )
  | inr other ↦ let bad : none ≡ some token = rw other at e in cc bad
]

-- A run that does not panic, and a token of it that all three sets admit.
abbrev Witnesses : Option (Option Token) → List Term → AdmittedSet → AdmittedSet → Type 0
Witnesses o ts a b =
    (found : Option Token) × (o ≡ some found)
    × ((token : Token)
        → found ≡ some token
        → (any (meets token) ts ≡ true) × (admits a token ≡ true) × (admits b token ≡ true))

witness_of_terms_cons :
    (t : Term) (ts : List Term) (a b : AdmittedSet) (cs : List Constraint)
    → constraints_of t ≡ some cs
    → witness_of_terms (t ∷ ts) a b
      ≡ first_of (confirmed (term_witness cs) a b) (witness_of_terms ts a b)
unfolding witness_of_terms
witness_of_terms_cons t ts a b cs e = rw e refl

witness_of_terms-Witnesses :
    (ts : List Term) (a b : AdmittedSet)
    → All IsLiveTerm ts
    → Witnesses (witness_of_terms ts a b) ts a b
unfolding first_of
witness_of_terms-Witnesses [] a b h = (none, unfold witness_of_terms in refl, λ token e. cc e)
witness_of_terms-Witnesses (t ∷ ts) a b h =
    let cs : List Constraint = map constraint_of (sort bytes_order by_key t) in
    let step = witness_of_terms_cons t ts a b cs (constraints_of-map t h.0) in
    elim (Option-cases (confirmed (term_witness cs) a b)) [
      | inl n ↦
          let (found, e, admitted) = witness_of_terms-Witnesses ts a b h.1 in
          (
            found,
            step ∙ (rw n e),
            λ token f. let (m, x, y) = admitted token f in (ground arith, x, y),
          )
      | inr (out, y) ↦ (
        some out,
        step ∙ (rw y refl),
        λ token f.
            let (o, x, z) = confirmed-some (term_witness cs) a b token (y ∙ f) in
            (ground (arith, term_witness-meets t token h.0 o), x, z),
      )
    ]

-- `witnessOf` does not panic where the Terms of the overlap are maps of valid constraints that are
-- not empty: every constraint's rendering is read.
pub witness_of-ne-none :
    (overlap a b : AdmittedSet) → All IsLiveTerm overlap.terms → witness_of overlap a b ≢ none
unfolding witness_of
witness_of-ne-none overlap a b h e =
    let (found, f, _) = witness_of_terms-Witnesses overlap.terms a b h in cc (e, f)

-- A token that `witnessOf` returns is admitted by the overlap, whose Terms are maps of valid
-- constraints that are not empty, and by both sides.
pub witness_of-admits :
    (overlap a b : AdmittedSet) (token : Token)
    → All IsLiveTerm overlap.terms
    → witness_of overlap a b ≡ some (some token)
    → (admits overlap token ≡ true) × (admits a token ≡ true) × (admits b token ≡ true)
unfolding witness_of
witness_of-admits overlap a b token h e =
    let (found, f, admitted) = witness_of_terms-Witnesses overlap.terms a b h in
    let (m, x, y) = admitted token (cc (e, f)) in (admits-any overlap token ∙ m, x, y)
