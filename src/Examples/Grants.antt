-- ===== src/Examples/Grants.antt =====
-- internal/trust on the addresses of issuers and on a grant of GitHub Actions.
use cloudarq.Prelude.{◌≡◌, refl, true, false, [], ◌∷◌, some, none, arith, All}
use cloudarq.Text.Bytes.{Bytes, codes, bytes_eq, bytes_eq_iff}
use cloudarq.Text.Utf8.{pieces, runes}
use cloudarq.Eval.StringSet.{exact, glob, contains}
use cloudarq.Eval.StringSet.Pattern.{glob-IsValid}
use cloudarq.Eval.Claims.{ClaimKey, lookup}
use cloudarq.Eval.Admitted.{Term, Token, AdmittedSet, Caveat, admits}
use cloudarq.Eval.Admitted.Terms.{IsValidTerm}
use cloudarq.Eval.Glob.{
  glob_contains, glob_node, match_at, last_segment, match_middle, middle_segments,
}
use cloudarq.Text.Split.{split}
use cloudarq.Prelude.Order.Sorting.{sort}
use cloudarq.Trust.Issuer.{normalise_issuer, ends_in_slash, claim_key}
use cloudarq.Trust.Canonical.{normalise_issuer-stable}
use cloudarq.Trust.Grant.{project, is_aud}
use cloudarq.Trust.Projection.{project-admits, Agree, project-Agree}

abbrev written : Bytes
written = codes "HTTPS://Token.Actions.GitHubusercontent.com/"

abbrev key : Bytes
key = codes "https://token.actions.githubusercontent.com"

normalised : normalise_issuer written ≡ some key
unfolding normalise_issuer bytes_eq pieces
normalised = refl

-- Only one slash is taken off the end, so the key of such an address ends in one.
two_slashes :
    normalise_issuer (codes "https://idp.example/t//") ≡ some (codes "https://idp.example/t/")
unfolding normalise_issuer bytes_eq pieces
two_slashes = refl

no_claim : claim_key (codes "re po") ≡ none
unfolding claim_key bytes_eq runes
no_claim = refl

key_ending : ends_in_slash key ≡ false
unfolding ends_in_slash
key_ending = refl

normalise_issuer-stable_example : normalise_issuer key ≡ some key
normalise_issuer-stable_example =
    normalise_issuer-stable written key (omega arith) normalised key_ending

abbrev sub : ClaimKey
sub = codes "sub"

abbrev aud : ClaimKey
aud = codes "aud"

abbrev one_repo : Term
one_repo = (sub, glob (codes "repo:acme/app:*")) ∷ (aud, exact (codes "sts.amazonaws.com")) ∷ []

abbrev doubt : Caveat
doubt = record { claim = sub; reason = codes "not read"; source = codes "statement[0]" }

abbrev doubted : AdmittedSet
doubted = record { terms = one_repo ∷ []; caveats = doubt ∷ [] }

abbrev token : Token
token = (sub, codes "repo:acme/app:ref:refs/heads/main") ∷ (aud, codes "sts.amazonaws.com") ∷ []

abbrev other : Token
other = (sub, codes "repo:evil/app:ref:refs/heads/main") ∷ (aud, codes "sts.amazonaws.com") ∷ []

doubted-IsValid : All IsValidTerm doubted.terms
doubted-IsValid = (
  (
    (omega arith, glob-IsValid (codes "repo:acme/app:*") (omega arith)),
    ((omega arith, omega arith), tt),
  ),
  tt,
)

admitted : admits doubted token ≡ true
unfolding admits contains glob lookup bytes_eq sort glob_contains glob_node split match_at runes
    last_segment match_middle middle_segments
admitted = refl

project-admits_example : admits (project doubted is_aud) token ≡ true
project-admits_example = project-admits doubted is_aud token doubted-IsValid admitted

-- The tokens differ in their subject alone.
same_audience : Agree is_aud token other
same_audience k h =
    let is_key : k ≡ aud = (bytes_eq_iff k aud).0 h in rw is_key (unfold lookup bytes_eq in refl)

project-Agree_example :
    admits (project doubted is_aud) token ≡ admits (project doubted is_aud) other
project-Agree_example = project-Agree doubted is_aud token other doubted-IsValid same_audience
