-- ===== src/Eval/StringSet/Build.antt =====
-- internal/eval/stringset.go: intersection and union.
use cloudarq.Prelude.{
  ℕ, suc, ◌≡◌, refl, Bool, true, false, not, ◌&&◌, ◌||◌, List, [], ◌∷◌, ◌++◌, Option, some, none,
  if◌then◌else◌, ◌==◌,
}
use cloudarq.Prelude.Order.Sorting.{sort_compact}
use cloudarq.Text.Bytes.{Bytes, bytes_order}
use cloudarq.Eval.Glob.{Glob}
use cloudarq.Eval.StringSet.{
  StringSet, exact, of_glob, full, empty, unknown, union, inter, list_of, members_of, contains,
  is_empty, is_top, as_unknown, render,
}

-- `none` is a panic of the code.
infixl 5 ◌>>=◌
abbrev pub ◌>>=◌ {ℓ κ} : {A : Type ℓ} {B : Type κ} → Option A → (A → Option B) → Option B
none >>= f = none
some a >>= f = f a

-- A bind that returns, taken apart.
pub >>=-some {ℓ κ} :
    {A : Type ℓ} {B : Type κ} (m : Option A) (f : A → Option B) {b : B}
    → (m >>= f) ≡ some b
    → (a : A) × (m ≡ some a) × (f a ≡ some b)
>>=-some none f e = cc e
>>=-some (some a) f e = (a, refl, e)

unfoldable pub merge_unknown : List Bytes → List Bytes → StringSet
merge_unknown a b = unknown (sort_compact bytes_order (λ r. r) (a ++ b))

unfoldable pub terms : StringSet → List StringSet
terms (union ms) = list_of ms
terms (exact v) = exact v ∷ []
terms (of_glob g) = of_glob g ∷ []
terms full = full ∷ []
terms empty = empty ∷ []
terms (unknown reasons) = unknown reasons ∷ []
terms (inter gs) = inter gs ∷ []

unfoldable pub globs_of : StringSet → Option (List Glob)
globs_of (inter gs) = some gs
globs_of (of_glob g) = some (g ∷ [])
globs_of _ = none

-- A lone pattern is returned bare.
unfoldable pub inter_of : List Glob → StringSet
inter_of (g ∷ []) = of_glob g
inter_of gs = inter gs

unfoldable pub new_inter : List Glob → StringSet
unfolding inter_of
new_inter globs = inter_of (sort_compact bytes_order (λ g. g.pattern) globs)

-- The loop of `containedByOther` from the index `j`.
unfoldable pub contained_from : Bytes → List StringSet → ℕ → ℕ → Bool
contained_from v [] j skip = false
contained_from v (m ∷ ms) j skip =
    let rest = contained_from v ms (suc j) skip in
    if not (j == skip) && contains m v then true else rest

unfoldable pub contained_by_other : Bytes → List StringSet → ℕ → Bool
unfolding contained_from
contained_by_other v members skip = contained_from v members 0 skip

unfoldable pub as_exact : StringSet → Option Bytes
as_exact (exact v) = some v
as_exact _ = none

-- The test of the loop in `newUnion`.
unfoldable pub is_redundant : Option Bytes → List StringSet → ℕ → Bool
is_redundant (some v) members i = contained_by_other v members i
is_redundant none members i = false

-- The loop of `newUnion` from the index `i`, over the members that are left.
unfoldable pub keep_from : List StringSet → ℕ → List StringSet → List StringSet
unfolding is_redundant as_exact
keep_from members i [] = []
keep_from members i (m ∷ ms) =
    let rest = keep_from members (suc i) ms in
    if is_redundant (as_exact m) members i then rest else m ∷ rest

-- A lone survivor is returned bare.
unfoldable pub union_of : List StringSet → StringSet
union_of (m ∷ []) = m
union_of ms = union (members_of ms)

unfoldable pub new_union : List StringSet → StringSet
unfolding keep_from union_of
new_union members =
    let distinct = sort_compact bytes_order render members in
    union_of (keep_from distinct 0 distinct)

-- `join` where neither side is an Unknown.
unfoldable pub join_known : StringSet → StringSet → StringSet
join_known a b =
    if is_top a || is_top b
    then full
    else if is_empty a
    then b
    else if is_empty b
    then a
    else new_union (terms a ++ terms b)

unfoldable pub join_unknown : Option (List Bytes) → Option (List Bytes) → StringSet → StringSet
join_unknown (some ra) (some rb) known = merge_unknown ra rb
join_unknown (some ra) none known = unknown ra
join_unknown none (some rb) known = unknown rb
join_unknown none none known = known

unfoldable pub join : StringSet → StringSet → StringSet
unfolding join_unknown join_known
join a b = join_unknown (as_unknown a) (as_unknown b) (join_known a b)

unfoldable pub meet_exact : Bytes → StringSet → StringSet
meet_exact v o = if contains o v then exact v else empty

unfoldable pub meet_globs : StringSet → StringSet → Option StringSet
meet_globs s t = do gs ← globs_of s; hs ← globs_of t; some (new_inter (gs ++ hs))

unfoldable pub meet_by_exact :
    Option Bytes → Option Bytes → StringSet → StringSet → Option StringSet
meet_by_exact (some v) other s t = some (meet_exact v t)
meet_by_exact none (some w) s t = some (meet_exact w s)
meet_by_exact none none s t = meet_globs s t

unfoldable pub meet_terms : StringSet → StringSet → Option StringSet
unfolding meet_by_exact as_exact meet_exact meet_globs
meet_terms s t = meet_by_exact (as_exact s) (as_exact t) s t

-- The inner loop of `meet`, and the outer.
unfoldable pub meet_row : StringSet → List StringSet → StringSet → Option StringSet
meet_row s [] out = some out
meet_row s (t ∷ ts) out = do m ← meet_terms s t; meet_row s ts (join out m)

unfoldable pub meet_rows : List StringSet → List StringSet → StringSet → Option StringSet
unfolding meet_row
meet_rows [] ts out = some out
meet_rows (s ∷ ss) ts out = do next ← meet_row s ts out; meet_rows ss ts next

unfoldable pub meet_unknown : List Bytes → StringSet → StringSet
meet_unknown reasons x = if is_top x then unknown reasons else x

-- `meet` where neither side is an Unknown or empty.
unfoldable pub meet_known : StringSet → StringSet → Option StringSet
unfolding meet_rows
meet_known a b =
    if is_top a then some b else if is_top b then some a else meet_rows (terms a) (terms b) empty

unfoldable pub meet_by_unknown :
    Option (List Bytes) → Option (List Bytes) → StringSet → StringSet → Option StringSet
unfolding meet_unknown meet_known
meet_by_unknown (some ra) (some rb) a b = some (merge_unknown ra rb)
meet_by_unknown (some ra) none a b = some (meet_unknown ra b)
meet_by_unknown none (some rb) a b = some (meet_unknown rb a)
meet_by_unknown none none a b = meet_known a b

unfoldable pub meet : StringSet → StringSet → Option StringSet
unfolding meet_by_unknown
meet a b =
    if is_empty a || is_empty b
    then some empty
    else meet_by_unknown (as_unknown a) (as_unknown b) a b
