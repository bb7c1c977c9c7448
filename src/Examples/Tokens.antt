-- ===== src/Examples/Tokens.antt =====
-- internal/eval/admitted.go on tokens of GitHub Actions.
use cloudarq.Prelude.{◌≡◌, refl, ◌↔◌, true, ◌||◌, ◌&&◌, [], ◌∷◌, some, none, arith, any}
use cloudarq.Text.Bytes.{Bytes, codes, bytes_eq, bytes_lt}
use cloudarq.Eval.StringSet.{exact, contains, glob, render, is_empty, is_top}
use cloudarq.Eval.StringSet.Pattern.{glob-IsValid}
use cloudarq.Eval.Claims.{ClaimKey, lookup, has_key}
use cloudarq.Eval.Admitted.{
  render_term, Term, Token, AdmittedSet, Caveat, new_admitted_set, meet_admitted, join_admitted,
  admits, excludes, normalise, everything, conjoin, caveat_key, live_terms, normalise_term, all_top,
  keep_distinct,
}
use cloudarq.Eval.Admitted.Terms.{meets, IsValidTerm}
use cloudarq.Eval.Admitted.Conjoin.{ConjoinsTo, conjoin-ConjoinsTo}
use cloudarq.Eval.Admitted.Normalise.{has_caveat, normalise_keeps_caveats}
use cloudarq.Eval.Admitted.Algebra.{
  IsValidSet, Admits, meet_admitted-Admits, join_admitted-Admits, new_admitted_set-Admits,
}
use cloudarq.Eval.Admitted.Excludes.{Blames, excludes-Blames, excludes-none_iff}
use cloudarq.Prelude.Order.Sorting.{sort}
use cloudarq.Eval.Glob.{
  glob_contains, glob_node, match_at, last_segment, match_middle, middle_segments,
}
use cloudarq.Text.Split.{split}
use cloudarq.Text.Utf8.{runes}
use cloudarq.Prelude.Order.Lex.{pair_eq}
use cloudarq.Text.Quote.{quote}
use cloudarq.Text.Parts.{join_parts}

abbrev sub : ClaimKey
sub = codes "sub"

abbrev aud : ClaimKey
aud = codes "aud"

abbrev main_subject : Bytes
main_subject = codes "repo:acme/app:ref:refs/heads/main"

-- The subject is of one repository, for the audience of the cloud.
abbrev one_repo : Term
one_repo = (sub, glob (codes "repo:acme/app:*")) ∷ (aud, exact (codes "sts.amazonaws.com")) ∷ []

abbrev token : Token
token = (sub, main_subject) ∷ (aud, codes "sts.amazonaws.com") ∷ []

abbrev strange : Token
strange = (sub, codes "repo:evil/app:ref:refs/heads/main") ∷ (aud, codes "sts.amazonaws.com") ∷ []

abbrev one_set : AdmittedSet
one_set = record { terms = one_repo ∷ []; caveats = [] }

one_repo-IsValid : IsValidTerm one_repo
one_repo-IsValid = (
  (omega arith, glob-IsValid (codes "repo:acme/app:*") (omega arith)),
  ((omega arith, omega arith), tt),
)

one_set-IsValid : IsValidSet one_set
one_set-IsValid = (one_repo-IsValid, tt)

admitted : admits one_set token ≡ true
unfolding admits contains glob lookup bytes_eq sort glob_contains glob_node split match_at runes
    last_segment match_middle middle_segments
admitted = refl

blamed : excludes one_set strange ≡ some (sub, some (glob (codes "repo:acme/app:*")))
unfolding excludes contains glob lookup bytes_eq bytes_lt sort glob_contains glob_node split
    match_at runes
blamed = refl

meet_admitted-Admits_example :
    (c : AdmittedSet) × (meet_admitted one_set everything ≡ some c)
    × Admits c (λ t. admits one_set t && admits everything t) (codes "Meet")
meet_admitted-Admits_example = meet_admitted-Admits one_set everything one_set-IsValid (tt, tt)

join_admitted-Admits_example :
    Admits
      (join_admitted one_set everything)
      (λ t. admits one_set t || admits everything t)
      (codes "Join")
join_admitted-Admits_example = join_admitted-Admits one_set everything one_set-IsValid (tt, tt)

new_admitted_set-Admits_example :
    Admits
      (new_admitted_set (one_repo ∷ []))
      (λ t. any (meets t) (one_repo ∷ []))
      (codes "NewAdmittedSet")
new_admitted_set-Admits_example = new_admitted_set-Admits (one_repo ∷ []) one_set-IsValid

excludes-none_iff_example : (excludes one_set token ≡ none) ↔ (admits one_set token ≡ true)
excludes-none_iff_example = excludes-none_iff one_set token

excludes-Blames_example : Blames one_set strange sub (some (glob (codes "repo:acme/app:*")))
unfolding has_key bytes_eq
excludes-Blames_example =
    excludes-Blames one_set strange sub (some (glob (codes "repo:acme/app:*")))
      ((refl, (refl, tt)), tt) blamed

abbrev doubt : Caveat
doubt = record { claim = sub; reason = codes "not modelled"; source = codes "statement[0]" }

normalise_keeps_caveats_example :
    has_caveat doubt (normalise (one_repo ∷ []) (doubt ∷ []) (codes "Meet")).caveats ≡ true
unfolding pair_eq bytes_eq caveat_key
normalise_keeps_caveats_example =
    normalise_keeps_caveats doubt (one_repo ∷ []) (doubt ∷ []) (codes "Meet") refl

conjoin-ConjoinsTo_example : ConjoinsTo (conjoin one_repo one_repo) one_repo one_repo
conjoin-ConjoinsTo_example = conjoin-ConjoinsTo one_repo one_repo one_repo-IsValid one_repo-IsValid

-- A claim name that holds an equals sign and quotes is written as it is, so that these two Terms
-- have one text, and the second of them is dropped.
abbrev two_claims : Term
two_claims = (codes "a", exact (codes "x")) ∷ (codes "b", exact (codes "y")) ∷ []

abbrev odd_name : ClaimKey
odd_name = 97 ∷ 61 ∷ 34 ∷ 120 ∷ 34 ∷ 44 ∷ 32 ∷ 98 ∷ []

abbrev one_claim : Term
one_claim = (odd_name, exact (codes "y")) ∷ []

one_text : render_term two_claims ≡ render_term one_claim
unfolding render_term sort bytes_lt render quote join_parts
one_text = refl

dropped : new_admitted_set (two_claims ∷ one_claim ∷ []) ≡ new_admitted_set (two_claims ∷ [])
unfolding new_admitted_set normalise live_terms normalise_term is_empty is_top all_top keep_distinct
    bytes_eq render_term join_parts sort bytes_lt render quote
dropped = refl
