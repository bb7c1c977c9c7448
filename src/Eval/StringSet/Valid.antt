-- ===== src/Eval/StringSet/Valid.antt =====
-- The canonical form that every set of the package has.
use cloudarq.Prelude.{ℕ, ◌≤◌, ◌≡◌, List, All, length}
use cloudarq.Prelude.Order.Sorting.Ascending.{IsStrict}
use cloudarq.Text.Bytes.{IsBytes, bytes_order}
use cloudarq.Eval.Glob.{Glob, glob_node}
use cloudarq.Eval.StringSet.{
  StringSet, exact, of_glob, full, empty, unknown, union, inter, list_of, render,
}

-- A glob that `Glob` built.
abbrev pub IsGlob : Glob → Type 0
IsGlob g = IsBytes g.pattern × (g ≡ glob_node g.pattern)

-- The patterns of an intersection: distinct and sorted.
abbrev pub IsPatterns : List Glob → Type 0
IsPatterns gs = All IsGlob gs × IsStrict bytes_order (λ g. g.pattern) gs × (2 ≤ length gs)

-- What a union may hold: an exact value, a glob or an intersection.
abbrev pub IsTerm : StringSet → Type 0
IsTerm (exact v) = IsBytes v
IsTerm (of_glob g) = IsGlob g
IsTerm (inter gs) = IsPatterns gs
IsTerm _ = ⊥

abbrev pub IsReasons : List (List ℕ) → Type 0
IsReasons rs = All IsBytes rs × IsStrict bytes_order (λ r. r) rs × (1 ≤ length rs)

-- The members of a union: distinct, sorted by rendering, and two at least.
abbrev pub IsMembers : List StringSet → Type 0
IsMembers ms = All IsTerm ms × IsStrict bytes_order render ms × (2 ≤ length ms)

abbrev pub IsValid : StringSet → Type 0
IsValid (exact v) = IsBytes v
IsValid (of_glob g) = IsGlob g
IsValid full = Unit
IsValid empty = Unit
IsValid (unknown rs) = IsReasons rs
IsValid (union ms) = IsMembers (list_of ms)
IsValid (inter gs) = IsPatterns gs

pub IsTerm→IsValid : (s : StringSet) → IsTerm s → IsValid s
IsTerm→IsValid (exact v) h = h
IsTerm→IsValid (of_glob g) h = h
IsTerm→IsValid (inter gs) h = h
IsTerm→IsValid (union ms) h = absurd h
IsTerm→IsValid full h = absurd h
IsTerm→IsValid empty h = absurd h
IsTerm→IsValid (unknown rs) h = absurd h
