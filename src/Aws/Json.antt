-- ===== src/Aws/Json.antt =====
-- internal/parse/aws: the JSON values of json.go as far as a condition reads them, and what policy.go
-- says of one in a sentence.
use cloudarq.Prelude.{
  ℕ, ◌+◌, Bool, true, false, ◌&&◌, ◌||◌, List, [], ◌∷◌, ◌++◌, ltb, leb, ◌==◌, if◌then◌else◌,
}
use cloudarq.Text.Bytes.{Bytes, codes}
use cloudarq.Text.Utf8.{ascii, rune, runes}
use cloudarq.Text.Quote.{escape}

pub data JsonKind : Type 0 where
  kind_null kind_bool kind_number kind_string kind_array kind_object : JsonKind

unfoldable pub json_kind_name : JsonKind → Bytes
json_kind_name kind_null = codes "null"
json_kind_name kind_bool = codes "a boolean"
json_kind_name kind_number = codes "a number"
json_kind_name kind_string = codes "a string"
json_kind_name kind_array = codes "a list"
json_kind_name kind_object = codes "an object"

-- `value`: its kind, its text, its boolean, its items and its own bytes in the document. No
-- condition reads the members of an object.
mutual
  pub data Value : Type 0 where
    value : JsonKind → Bytes → Bool → Values → Bytes → Value

  pub data Values : Type 0 where
    no_values : Values
    next_value : Value → Values → Values

abbrev pub excerpt_runes : ℕ
excerpt_runes = 48

is_blank : ℕ → Bool
is_blank r = r == b' ' || (r == 9 || (r == 10 || r == 13))

excerpt_rune : ℕ → Bytes
excerpt_rune r =
    if leb b' ' r && leb r b'~'
    then r ∷ []
    else if ltb r 128
    then escape (ascii r)
    else escape (rune r)

-- The loop of `excerpt`, with `pending` and the runes so far.
unfoldable pub excerpt_from : Bool → ℕ → List ℕ → Bytes
unfolding is_blank excerpt_rune
excerpt_from pending n [] = []
excerpt_from pending n (r ∷ rs) =
    let blank = excerpt_from true n rs in
    let m = if pending then n + 2 else n + 1 in
    let later = excerpt_from false m rs in
    let here = if pending then b' ' ∷ excerpt_rune r else excerpt_rune r in
    if is_blank r then blank else if ltb excerpt_runes m then here ++ codes "..." else here ++ later

unfoldable pub describe : Value → Bytes
unfolding json_kind_name excerpt_from
describe (value kind text boolean items raw) =
    json_kind_name kind ++ (codes " (" ++ (excerpt_from false 0 (runes raw) ++ codes ")"))

-- What `leaves` returns: the texts, or the value that is none with whether it stands in a list.
pub data Leaves : Type 0 where
  leaf_texts : List Bytes → Leaves
  bad_leaf : Value → Bool → Leaves

unfoldable pub add_leaf : Bytes → Leaves → Leaves
add_leaf text (leaf_texts texts) = leaf_texts (text ∷ texts)
add_leaf text (bad_leaf v in_list) = bad_leaf v in_list

-- One item before the items behind it.
unfoldable pub item_leaf : Value → Leaves → Leaves
unfolding add_leaf
item_leaf (value kind_string text boolean items raw) onward = add_leaf text onward
item_leaf v onward = bad_leaf v true

unfoldable pub item_leaves : Values → Leaves
unfolding item_leaf
item_leaves no_values = leaf_texts []
item_leaves (next_value v vs) = item_leaf v (item_leaves vs)

unfoldable pub leaves : Value → Leaves
unfolding item_leaves
leaves (value kind_string text boolean items raw) = leaf_texts (text ∷ [])
leaves (value kind_array text boolean items raw) = item_leaves items
leaves v = bad_leaf v false
