-- ===== src/Eval/Admitted.antt =====
-- internal/eval/admitted.go and caveat.go: sets of tokens as unions of conjunctions.
pub mod Terms
pub mod Conjoin
pub mod Algebra
pub mod Closest
pub mod Excludes
pub mod Distinct
pub mod Normalise
use cloudarq.Prelude.{
  ℕ, suc, Bool, true, false, not, ◌&&◌, ◌||◌, List, [], ◌∷◌, ◌++◌, Option, some, none, any, all,
  map, length, if◌then◌else◌, ltb, ◌==◌,
}
use cloudarq.Prelude.Order.{StrictOrder}
use cloudarq.Prelude.Order.Lex.{pair_order}
use cloudarq.Prelude.Order.Sorting.{sort, sort_compact}
use cloudarq.Text.Bytes.{Bytes, codes, bytes_eq, bytes_lt, bytes_order}
use cloudarq.Text.Parts.{join_parts}
use cloudarq.Eval.StringSet.{StringSet, contains, is_empty, is_top, is_unknown, render, empty_sign}
use cloudarq.Eval.StringSet.Build.{meet, ◌>>=◌}
use cloudarq.Eval.Claims.{ClaimKey, Claims, lookup, put}

-- A conjunction of constraints; a claim that it does not name is unconstrained.
abbrev pub Term : Type 0
Term = Claims StringSet

abbrev pub Token : Type 0
Token = Claims Bytes

pub record Caveat : Type 0 where
  pub claim : ClaimKey
  pub reason : Bytes
  pub source : Bytes

pub record AdmittedSet : Type 0 where
  pub terms : List Term
  pub caveats : List Caveat

abbrev pub term_cap : ℕ
term_cap = 256

-- What `normaliseCaveats` compares by: the source, then the claim, then the reason.
abbrev pub CaveatKey : Type 0
CaveatKey = Bytes × (Bytes × Bytes)

unfoldable pub caveat_key : Caveat → CaveatKey
caveat_key c = (c.source, (c.claim, c.reason))

abbrev pub caveat_order : StrictOrder CaveatKey
caveat_order = pair_order bytes_order (pair_order bytes_order bytes_order)

unfoldable pub normalise_caveats : List Caveat → List Caveat
normalise_caveats cs = sort_compact caveat_order caveat_key cs

unfoldable pub overflow : Bytes → Caveat
overflow op = record {
  claim = [];
  reason = codes "term count exceeded 256; widened to unconstrained";
  source = op;
}

unfoldable pub with_caveat : AdmittedSet → Caveat → AdmittedSet
with_caveat a c = record { terms = a.terms; caveats = normalise_caveats (a.caveats ++ c ∷ []) }

unfoldable pub is_exact : AdmittedSet → Bool
is_exact a = length a.caveats == 0

abbrev pub everything : AdmittedSet
everything = record { terms = [] ∷ []; caveats = [] }

abbrev pub nothing_admitted : AdmittedSet
nothing_admitted = record { terms = []; caveats = [] }

-- `normaliseTerm`: `none` for a Term that is provably empty.
unfoldable pub normalise_term : Term → Option Term
normalise_term [] = some []
normalise_term ((k, s) ∷ t) =
    let rest = normalise_term t in
    if is_empty s
    then none
    else if is_top s && not (is_unknown s)
    then rest
    else (do kept ← rest; some ((k, s) ∷ kept))

unfoldable pub all_top : Term → Bool
all_top t = all (λ e. is_top e.1) t

-- `renderTerm`: the entries in the order of their keys.
unfoldable pub render_entry : ClaimKey × StringSet → Bytes
render_entry (k, s) = k ++ (b'=' ∷ render s)

unfoldable pub render_term : Term → Bytes
unfolding render_entry
render_term t =
    b'{' ∷ (join_parts (codes ", ") (map render_entry (sort bytes_order (λ e. e.0) t)) ++ b'}' ∷ [])

-- The first pass of `normalise`: `none` where a Term admits everything. A Term in canonical
-- form comes before what the pass makes of the others.
unfoldable pub add_live : Option Term → Option (List Term) → Option (List Term)
add_live none rest = rest
add_live (some term) rest = if all_top term then none else (do live ← rest; some (term ∷ live))

unfoldable pub live_terms : List Term → Option (List Term)
unfolding add_live
live_terms [] = some []
live_terms (t ∷ ts) = add_live (normalise_term t) (live_terms ts)

-- The second pass, with the terms kept so far and their renderings: `none` beyond the cap.
abbrev pub Rendered : Type 0
Rendered = Term × Bytes

unfoldable pub keep_distinct : List Rendered → List Term → Option (List Rendered)
keep_distinct kept [] = some kept
keep_distinct kept (t ∷ ts) =
    let text = render_term t in
    let skipped = keep_distinct kept ts in
    let extended = kept ++ (t, text) ∷ [] in
    let onward = keep_distinct extended ts in
    if any (λ r. bytes_eq r.1 text) kept
    then skipped
    else if ltb term_cap (length extended)
    then none
    else onward

unfoldable pub sorted_terms : List Rendered → List Term
sorted_terms kept = map (λ r. r.0) (sort bytes_order (λ r. r.1) kept)

-- `AdmittedSet{terms: []Term{{}}, caveats: …}`.
unfoldable pub widened : List Caveat → AdmittedSet
widened cs = record { terms = [] ∷ []; caveats = normalise_caveats cs }

unfoldable pub finish : Option (List Rendered) → List Caveat → Bytes → AdmittedSet
unfolding sorted_terms
finish none cs op = widened (cs ++ overflow op ∷ [])
finish (some kept) cs op = record { terms = sorted_terms kept; caveats = normalise_caveats cs }

unfoldable pub normalise_live : Option (List Term) → List Caveat → Bytes → AdmittedSet
unfolding finish
normalise_live none cs op = widened cs
normalise_live (some live) cs op = finish (keep_distinct [] live) cs op

unfoldable pub normalise : List Term → List Caveat → Bytes → AdmittedSet
unfolding normalise_live
normalise ts cs op = normalise_live (live_terms ts) cs op

unfoldable pub new_admitted_set : List Term → AdmittedSet
new_admitted_set ts = normalise ts [] (codes "NewAdmittedSet")

-- `conjoin`: the loop over the entries of `y`. `none` is a panic of `Meet` on a set.
unfoldable pub conjoin : Term → Term → Option Term
conjoin merged [] = some merged
conjoin merged ((k, s) ∷ y) = elim (lookup k merged) [
  | none ↦ conjoin (put k s merged) y
  | some existing ↦ (do both ← meet existing s; conjoin (put k both merged) y)
]

unfoldable pub product_row : Term → List Term → Option (List Term)
product_row x [] = some []
product_row x (y ∷ ys) = do xy ← conjoin x y; rest ← product_row x ys; some (xy ∷ rest)

unfoldable pub product : List Term → List Term → Option (List Term)
product [] ys = some []
product (x ∷ xs) ys = do row ← product_row x ys; rest ← product xs ys; some (row ++ rest)

unfoldable pub meet_admitted : AdmittedSet → AdmittedSet → Option AdmittedSet
meet_admitted a b = do
  terms ← product a.terms b.terms
  some (normalise terms (a.caveats ++ b.caveats) (codes "Meet"))

unfoldable pub join_admitted : AdmittedSet → AdmittedSet → AdmittedSet
join_admitted a b = normalise (a.terms ++ b.terms) (a.caveats ++ b.caveats) (codes "Join")

-- The test of the loop of `failures`: a claim absent from the token meets only a top constraint.
unfoldable pub satisfied : Token → ClaimKey × StringSet → Bool
satisfied token (k, s) = elim (lookup k token) [ none ↦ is_top s | some v ↦ contains s v ]

unfoldable pub failing_keys : Term → Token → List ClaimKey
unfolding satisfied
failing_keys [] token = []
failing_keys (e ∷ t) token =
    let rest = failing_keys t token in if satisfied token e then rest else e.0 ∷ rest

unfoldable pub failures : Term → Token → List ClaimKey
unfolding failing_keys
failures t token = sort bytes_order (λ k. k) (failing_keys t token)

unfoldable pub admits : AdmittedSet → Token → Bool
unfolding failures
admits a token = any (λ t. length (failures t token) == 0) a.terms

-- The Term whose failures are the best so far, with those failures.
abbrev pub Closest : Type 0
Closest = Option (List ClaimKey × Term)

-- `failed[0] < closest[0]`, for lists that are not empty.
unfoldable pub first_before : List ClaimKey → List ClaimKey → Bool
first_before (k ∷ ks) (j ∷ js) = bytes_lt k j
first_before _ _ = false

unfoldable pub is_closer : List ClaimKey → Closest → Bool
unfolding first_before
is_closer failed none = true
is_closer failed (some (closest, term)) =
    ltb (length failed) (length closest)
    || (length failed == length closest && first_before failed closest)

-- What `Excludes` returns: `none` for `ok = false`, else the claim and the constraint, which is
-- nil where no claim is to blame.
abbrev pub Exclusion : Type 0
Exclusion = Option (ClaimKey × Option StringSet)

unfoldable pub blame : Closest → Exclusion
blame none = some ([], none)
blame (some (k ∷ ks, term)) = some (k, lookup k term)
blame (some ([], term)) = none

unfoldable pub excludes_from : Closest → List Term → Token → Exclusion
unfolding failures is_closer
excludes_from closest [] token = blame closest
excludes_from closest (t ∷ ts) token =
    let failed = failures t token in
    let next = if is_closer failed closest then some (failed, t) else closest in
    let rest = excludes_from next ts token in if length failed == 0 then none else rest

unfoldable pub excludes : AdmittedSet → Token → Exclusion
unfolding excludes_from blame
excludes a token = excludes_from none a.terms token

unfoldable pub is_empty_admitted : AdmittedSet → Bool
is_empty_admitted a = length a.terms == 0

unfoldable pub is_top_admitted : AdmittedSet → Bool
is_top_admitted a = elim a.terms [ [] ↦ false | t ∷ ts ↦ length ts == 0 && length t == 0 ]

unfoldable pub render_admitted : AdmittedSet → Bytes
render_admitted a =
    if length a.terms == 0 then empty_sign else join_parts (codes " | ") (map render_term a.terms)
