-- ===== src/Examples/Sets.antt =====
-- internal/eval/stringset.go, glob.go and shape.go on subjects of GitHub Actions.
use cloudarq.Prelude.{◌≡◌, refl, ◌↔◌, true, [], ◌∷◌, ◌++◌, some, arith}
use cloudarq.Prelude.Order.Sorting.{sort_compact}
use cloudarq.Text.Bytes.{bytes_lt, Bytes, codes, bytes_eq}
use cloudarq.Text.Utf8.{runes}
use cloudarq.Text.Quote.{quote}
use cloudarq.Eval.Glob.Fits.{Fits}
use cloudarq.Eval.StringSet.{
  StringSet, exact, unknown, contains, glob, is_unknown, is_top, render, is_empty, as_unknown,
}
use cloudarq.Eval.StringSet.Build.{join, meet, new_union, contained_by_other, terms, meet_terms}
use cloudarq.Eval.StringSet.Valid.{IsValid}
use cloudarq.Eval.StringSet.Reads.{render-injective}
use cloudarq.Eval.StringSet.Union.{IsUnionOf, join-IsUnionOf}
use cloudarq.Eval.StringSet.Meet.{MeetsTo, meet-MeetsTo}
use cloudarq.Eval.StringSet.Pattern.{contains-glob_iff, glob-IsValid}
use cloudarq.Eval.Shape.{shape_of, literal_prefix}
use cloudarq.Eval.Shape.Prefix.{literal_prefix-IsPrefix}
use cloudarq.Eval.Shape.Faithful.{shape_of-injective}
use cloudarq.Eval.Glob.{
  glob_contains, glob_node, match_at, last_segment, match_middle, middle_segments, place,
}
use cloudarq.Text.Split.{split}

abbrev main_ref : Bytes
main_ref = codes "refs/heads/main"

abbrev any_ref : Bytes
any_ref = codes "refs/*"

abbrev main_only : StringSet
main_only = exact main_ref

abbrev refs : StringSet
refs = glob any_ref

main_only-IsValid : IsValid main_only
main_only-IsValid = omega arith

refs-IsValid : IsValid refs
refs-IsValid = glob-IsValid any_ref (omega arith)

unread : StringSet
unread = unknown (codes "not modelled" ∷ [])

unread-IsValid : IsValid unread
unfolding unread
unread-IsValid = (omega arith, (tt, tt), omega arith)

pattern_matches : contains refs main_ref ≡ true
unfolding contains glob bytes_eq glob_contains glob_node split match_at runes last_segment
    match_middle middle_segments
pattern_matches = refl

leftmost_placing : contains (glob (codes "repo:*/x:*x")) (codes "repo:a/x:b/x:cx") ≡ true
unfolding contains glob bytes_eq glob_contains glob_node split match_at runes last_segment
    match_middle middle_segments place
leftmost_placing = refl

question_mark_is_a_rune : contains (glob (codes "a?")) (b'a' ∷ 0xc3 ∷ 0xa9 ∷ []) ≡ true
unfolding contains glob bytes_eq glob_contains glob_node split runes match_at
question_mark_is_a_rune = refl

contained_value_dropped : join main_only refs ≡ refs
unfolding join glob render bytes_eq as_unknown is_top is_empty new_union sort_compact terms bytes_lt
    quote contained_by_other contains glob_contains glob_node split match_at runes last_segment
    match_middle middle_segments place
contained_value_dropped = refl

meets_by_membership : meet main_only refs ≡ some main_only
unfolding meet glob contains is_empty bytes_eq as_unknown is_top terms meet_terms join glob_contains
    glob_node split match_at runes last_segment match_middle middle_segments
meets_by_membership = refl

quoted_control : quote (10 ∷ 34 ∷ 0xff ∷ []) ≡ codes "\"\\n\\\"\\xff\""
unfolding quote
quoted_control = refl

meet-MeetsTo_example : MeetsTo (meet main_only refs) main_only refs
meet-MeetsTo_example = meet-MeetsTo main_only refs main_only-IsValid refs-IsValid

join-IsUnionOf_example : IsUnionOf (join main_only refs) main_only refs
join-IsUnionOf_example = join-IsUnionOf main_only refs main_only-IsValid refs-IsValid

contains-glob_iff_example :
    (contains (glob any_ref) main_ref ≡ true) ↔ Fits (runes any_ref) (runes main_ref)
contains-glob_iff_example = contains-glob_iff any_ref main_ref refl

render-injective_example : glob main_ref ≡ main_only
unfolding glob
render-injective_example =
    render-injective (glob main_ref) main_only (glob-IsValid main_ref (omega arith))
      main_only-IsValid refl

unread-meet : meet main_only unread ≡ some main_only
unfolding meet unread is_empty as_unknown is_top
unread-meet = refl

literal_prefix-IsPrefix_example : (rest : Bytes) × (main_ref ≡ literal_prefix any_ref ++ rest)
literal_prefix-IsPrefix_example =
    literal_prefix-IsPrefix any_ref main_ref (omega arith) (omega arith) pattern_matches

shape_of-injective_example : glob main_ref ≡ main_only
unfolding shape_of glob is_unknown
shape_of-injective_example =
    shape_of-injective (glob main_ref) main_only (glob-IsValid main_ref (omega arith))
      main_only-IsValid refl refl
