-- ===== src/Examples/Witnesses.antt =====
-- internal/join/witness.go on patterns of subjects and on small overlaps.
use cloudarq.Prelude.{
  ◌≤◌, ◌≡◌, ◌≢◌, refl, true, List, [], ◌∷◌, map, All, arith, length, false, none, some, inr,
}
use cloudarq.Text.Bytes.{Bytes, codes, bytes_eq, bytes_lt}
use cloudarq.Text.Parts.{join_parts}
use cloudarq.Text.Decimal.{itoa}
use cloudarq.Text.Utf8.Runes.{string_of}
use cloudarq.Text.Utf8.{runes}
use cloudarq.Eval.Glob.{
  Runes, glob_node, glob_contains, match_at, last_segment, match_middle, middle_segments,
}
use cloudarq.Eval.Glob.Fits.{Fits, nothing, any_run, single}
use cloudarq.Eval.StringSet.{
  StringSet, exact, union, glob, member, of_glob, no_members, list_of, render, is_top, is_empty,
  contains,
}
use cloudarq.Eval.StringSet.Valid.{IsValid}
use cloudarq.Eval.Admitted.{AdmittedSet, Token, admits, everything}
use cloudarq.Join.Walk.{walk, found, ran_out, no_fuel, shortest_shared, visit, state_key}
use cloudarq.Join.Walk.Scalars.{shortest_shared-Fits}
use cloudarq.Join.Walk.Exact.{walk-shortest, walk-decides}
use cloudarq.Join.Walk.Ends.{walk-ends}
use cloudarq.Eval.StringSet.Pattern.{glob-IsValid}
use cloudarq.Eval.Claims.{has_key, put, lookup}
use cloudarq.Join.Witness.{
  Constraint, constraints_of, term_witness, read_as, glob_pattern, no_reads, read_shape, witness_of,
  witness,
}
use cloudarq.Join.Witness.Reads.{read_of_set, read_shape-render}
use cloudarq.Join.Witness.Tokens.{witness_of-ne-none, witness_of-admits, IsLiveTerm}
use cloudarq.Prelude.Order.Sorting.{sort}
use cloudarq.Trust.Issuer.{has_prefix}
use cloudarq.Text.Quote.Quoted.{quoted}
use cloudarq.Text.Quote.{quote}
use cloudarq.Text.Split.{split}

abbrev shared_patterns : List Bytes
shared_patterns = codes "a*" ∷ codes "*b" ∷ []

shares_ab : shortest_shared shared_patterns 100 ≡ some (codes "ab")
unfolding shortest_shared visit runes bytes_eq state_key join_parts itoa string_of
shares_ab = refl

shortest_shared-Fits_example : All (λ p. Fits (runes p) (runes (codes "ab"))) shared_patterns
shortest_shared-Fits_example = shortest_shared-Fits shared_patterns 100 (codes "ab") shares_ab

walk-ends_example : walk (map runes shared_patterns) 100 ≢ no_fuel
walk-ends_example = walk-ends (map runes shared_patterns) 100

abbrev shared_units : List Runes
shared_units = codes "a*" ∷ codes "*b" ∷ []

walks_ab : walk shared_units 100 ≡ found (codes "ab")
unfolding walk visit bytes_eq state_key join_parts itoa
walks_ab = refl

acb-Fits : All (λ u. Fits u (codes "acb")) shared_units
acb-Fits = (
  single (omega arith) (inr refl) (any_run (codes "cb") refl refl nothing),
  (any_run (codes "ac") refl refl (single (omega arith) (inr refl) nothing), tt),
)

walk-shortest_example : length (codes "ab") ≤ length (codes "acb")
walk-shortest_example =
    walk-shortest shared_units 100 (codes "ab") (codes "acb") (omega arith) walks_ab acb-Fits

abbrev apart_units : List Runes
apart_units = codes "a*" ∷ codes "b?*" ∷ []

walks_out : walk apart_units 100 ≡ ran_out
unfolding walk visit
walks_out = refl

walk-decides_example : ¬ (All (λ u. Fits u (codes "bc")) apart_units)
walk-decides_example = walk-decides apart_units 100 (codes "bc") (omega arith) walks_out

-- A pattern and two values, as a union renders them.
abbrev mixed : StringSet
mixed = union (member (exact (codes "c")) (member (of_glob (glob_node (codes "d*"))) no_members))

mixed-IsValid : IsValid mixed
unfolding list_of glob_node render quote bytes_lt
mixed-IsValid = ((omega arith, ((omega arith, refl), tt)), ((refl, tt), (tt, tt)), omega arith)

read_shape-render_example : read_shape (render mixed) ≡ some (read_of_set mixed)
read_shape-render_example =
    read_shape-render mixed mixed-IsValid (unfold is_top in refl) (unfold is_empty in refl)

abbrev overlap : AdmittedSet
overlap = record { terms = ((codes "sub", glob (codes "r*")) ∷ []) ∷ []; caveats = [] }

abbrev its_token : Token
its_token = (codes "sub", codes "r") ∷ []

overlap_live : All IsLiveTerm overlap.terms
unfolding has_key
overlap_live = (
  (
    (refl, tt),
    ((glob-IsValid (codes "r*") (omega arith), unfold is_empty glob bytes_eq in refl), tt),
  ),
  tt,
)

abbrev its_constraint : Constraint
its_constraint = record {
  claim = codes "sub";
  top = false;
  shape = read_as glob_pattern (codes "r*") no_reads;
}

overlap_reads : constraints_of ((codes "sub", glob (codes "r*")) ∷ []) ≡ some (its_constraint ∷ [])
unfolding constraints_of sort is_top glob bytes_eq has_prefix render quoted quote glob_node
overlap_reads = refl

overlap_token : term_witness (its_constraint ∷ []) ≡ some its_token
unfolding term_witness witness shortest_shared visit runes bytes_eq state_key join_parts itoa put
    string_of
overlap_token = refl

overlap_witness : witness_of overlap overlap everything ≡ some (some its_token)
unfolding witness_of sort lookup glob_node split match_at runes last_segment match_middle
    middle_segments
overlap_witness =
    rw (overlap_reads, overlap_token) (unfold admits glob glob_contains contains bytes_eq in refl)

witness_of-ne-none_example : witness_of overlap overlap everything ≢ none
witness_of-ne-none_example = witness_of-ne-none overlap overlap everything overlap_live

witness_of-admits_example :
    (admits overlap its_token ≡ true)
    × (admits overlap its_token ≡ true)
    × (admits everything its_token ≡ true)
witness_of-admits_example =
    witness_of-admits overlap overlap everything its_token overlap_live overlap_witness
