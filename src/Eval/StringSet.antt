-- ===== src/Eval/StringSet.antt =====
-- internal/eval/stringset.go: the sets of values that one claim may take, and how they are read.
pub mod Build
pub mod Valid
pub mod Reads
pub mod Redundant
pub mod Union
pub mod Meet
pub mod Pattern
pub mod Laws
pub mod Provenance
pub mod Tops
use Prim.Native.String.{String}
use cloudarq.Prelude.{
  ℕ, Bool, true, false, ◌&&◌, ◌||◌, List, [], ◌∷◌, ◌++◌, map, Option, some, none, any, all,
  if◌then◌else◌, ◌==◌, not,
}
use cloudarq.Text.Bytes.{Bytes, codes, bytes_eq}
use cloudarq.Text.Quote.{quote}
use cloudarq.Text.Parts.{join_parts}
use cloudarq.Text.Split.{trim}
use cloudarq.Eval.Glob.{Glob, glob_node, glob_contains}

-- The nodes of a set. The members of a union are sets, in a list of the block.
mutual
  pub data StringSet : Type 0 where
    exact : Bytes → StringSet
    of_glob : Glob → StringSet
    full : StringSet
    empty : StringSet
    unknown : List Bytes → StringSet
    union : Members → StringSet
    inter : List Glob → StringSet

  pub data Members : Type 0 where
    no_members : Members
    member : StringSet → Members → Members

unfoldable pub list_of : Members → List StringSet
list_of no_members = []
list_of (member s ms) = s ∷ list_of ms

unfoldable pub members_of : List StringSet → Members
members_of [] = no_members
members_of (s ∷ ss) = member s (members_of ss)

-- `Glob`: a pattern without metacharacters is one value, and one of stars alone is every value.
unfoldable pub glob : Bytes → StringSet
unfolding trim
glob pattern =
    if not (any (λ b. b == b'*' || b == b'?') pattern)
    then exact pattern
    else if bytes_eq (trim b'*' pattern) []
    then full
    else of_glob (glob_node pattern)

-- `Contains` of each node.
unfoldable mutual
  pub contains : StringSet → Bytes → Bool
  contains (exact w) v = bytes_eq v w
  contains (of_glob g) v = glob_contains g v
  contains full v = true
  contains empty v = false
  contains (unknown reasons) v = true
  contains (union ms) v = some_contains ms v
  contains (inter gs) v = all (λ g. glob_contains g v) gs

  pub some_contains : Members → Bytes → Bool
  some_contains no_members v = false
  some_contains (member s ms) v = contains s v || some_contains ms v

unfoldable pub is_empty : StringSet → Bool
is_empty empty = true
is_empty _ = false

unfoldable pub is_top : StringSet → Bool
is_top full = true
is_top (unknown reasons) = true
is_top _ = false

-- The type assertion `s.(unknown)`, and `IsUnknown`.
unfoldable pub as_unknown : StringSet → Option (List Bytes)
as_unknown (unknown reasons) = some reasons
as_unknown _ = none

unfoldable pub is_unknown : StringSet → Bool
is_unknown (unknown reasons) = true
is_unknown _ = false

-- `Reason`.
unfoldable pub reason : StringSet → Bytes
reason (unknown reasons) = join_parts (codes "; ") reasons
reason _ = []

-- `String` of each node.
unfoldable pub render_glob : Glob → Bytes
render_glob g = codes "like:" ++ quote g.pattern

-- The rendering of the set with no members, a single character beyond ASCII.
abbrev pub empty_sign : Bytes
empty_sign = 0xe2 ∷ 0x88 ∷ 0x85 ∷ []

unfoldable pub bracket : Bytes → List Bytes → Bytes
bracket sep parts = b'(' ∷ (join_parts sep parts ++ b')' ∷ [])

unfoldable mutual
  unfolding render_glob bracket

  pub render : StringSet → Bytes
  render (exact w) = quote w
  render (of_glob g) = render_glob g
  render full = b'*' ∷ []
  render empty = empty_sign
  render (unknown reasons) = b'?' ∷ bracket (codes ", ") (map quote reasons)
  render (union ms) = bracket (codes " | ") (render_members ms)
  render (inter gs) = bracket (codes " & ") (map render_glob gs)

  pub render_members : Members → List Bytes
  render_members no_members = []
  render_members (member s ms) = render s ∷ render_members ms
