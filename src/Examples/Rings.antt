-- ===== src/Examples/Rings.antt =====
-- internal/ring on a grant of GitHub Actions and on owners.
use cloudarq.Prelude.{
  ◌≡◌, ◌≢◌, refl, inl, inr, true, false, List, [], ◌∷◌, ◌++◌, some, any, arith, Some, Bool-cases,
  if◌then◌else◌,
}
use cloudarq.Trust.Issuer.{has_prefix}
use cloudarq.Text.Bytes.{bytes_eq, Bytes, codes}
use cloudarq.Ring.Owner.{
  Owner, scope_owner, kind_name, kind_id, namespace_github, owner_order, owner_key, sort_owners,
  scope_eq, is_name_kind,
}
use cloudarq.Ring.Declare.{Declaration, names}
use cloudarq.Ring.Facts.{Tenancy, no_facts, SubjectForm}
use cloudarq.Ring.Place.{
  yours, Population, anyone, platform, service, state_unknown, is_ring, population, unpinned,
  place_eq, any_service, pinned_basis,
}
use cloudarq.Prelude.Order.Sorting.{sort}
use cloudarq.Eval.StringSet.{StringSet, glob, contains}
use cloudarq.Eval.Glob.{
  glob_contains, glob_node, match_at, last_segment, match_middle, middle_segments,
}
use cloudarq.Eval.StringSet.Pattern.{glob-IsValid}
use cloudarq.Eval.Shape.{shape_of, literal_prefix}
use cloudarq.Eval.Claims.{ClaimKey}
use cloudarq.Eval.Admitted.{Term, is_empty_admitted}
use cloudarq.Trust.Grant.{Grant, Effect, allow, deny, effect_unknown}
use cloudarq.Ring.Subject.{
  is_empty_list, subject_owners, some_form_reads, allows, leads, read_form, readable, owner_run,
  fits_with,
}
use cloudarq.Ring.Reading.{
  CaveatRules, Confinement, exactly, confined_to, confine_shape, Classifier,
}
use cloudarq.Ring.Reading.Confines.{confine_shape-Holds}
use cloudarq.Ring.Outermost.{named_places, reaches, classify}
use cloudarq.Ring.Outermost.Reached.{named_places-reached, named_places-covered, covered_by}
use cloudarq.Ring.Outermost.Doubt.{classify-doubtful}
use cloudarq.Ring.Outermost.Unmodelled.{classify-unmodelled}
use cloudarq.Ring.Owner.Sorted.{sort_owners-sort}
use cloudarq.Text.Split.{split}
use cloudarq.Text.Utf8.{runes, pieces, bytes_of, rune_of}
use cloudarq.Ring.Pins.{pinned, all_declared, declare_pin}
use cloudarq.Ring.Subject.Runs.{HasAsciiNames}
use cloudarq.Ring.Subject.Prefix.{subject_owners-prefix}

abbrev github : Bytes
github = codes "https://token.actions.githubusercontent.com"

abbrev acme : Owner
acme = record {
  issuer = github;
  namespace = namespace_github;
  scope = scope_owner;
  kind = kind_name;
  value = codes "acme";
  name = [];
  recyclable = true;
  declared = false;
}

abbrev beta : Owner
beta = record {
  issuer = github;
  namespace = namespace_github;
  scope = scope_owner;
  kind = kind_id;
  value = codes "123456";
  name = codes "beta";
  recyclable = false;
  declared = false;
}

sort_owners-sort_example :
    sort_owners (beta ∷ acme ∷ beta ∷ []) ≡ sort owner_order owner_key (beta ∷ acme ∷ beta ∷ [])
sort_owners-sort_example = sort_owners-sort (beta ∷ acme ∷ beta ∷ [])

-- A population of the platform and one of a service.
abbrev landed : List Population
landed = population platform unpinned ∷ population service any_service ∷ []

platform_named : any (place_eq platform) (named_places landed) ≡ true
unfolding named_places is_ring population place_eq
platform_named = refl

platform_reached : reaches platform landed ≡ true
unfolding reaches place_eq population
platform_reached = refl

named_places-reached_example : reaches platform landed ≡ true
named_places-reached_example = named_places-reached landed platform platform_named

named_places-covered_example : covered_by (named_places landed) platform ≡ true
named_places-covered_example = named_places-covered landed platform platform_reached

abbrev sub : ClaimKey
sub = codes "sub"

abbrev acme_jobs : StringSet
acme_jobs = glob (codes "repo:acme/*")

abbrev job : Bytes
job = codes "repo:acme/app:ref:refs/heads/main"

-- The job's subject names the owner.
abbrev Has : Owner → Type 0
Has o = has_prefix job (codes "repo:" ++ (o.value ++ codes "/")) ≡ true

abbrev of_prefix : Bytes → List Owner
of_prefix p = if has_prefix p (codes "repo:acme/") then acme ∷ [] else []

of_prefix-Has :
    (p rest : Bytes)
    → job ≡ p ++ rest
    → is_empty_list (of_prefix p) ≡ false
    → Some Has (of_prefix p)
unfolding is_empty_list
of_prefix-Has p rest e n = elim (Bool-cases (has_prefix p (codes "repo:acme/"))) [
  | inl h ↦ rw h (inl (unfold has_prefix in refl))
  | inr h ↦
      let none_read : is_empty_list {A = Owner} [] ≡ false = rw h at n in absurd (ground arith)
]

abbrev no_value : Bytes → Confinement
no_value v = exactly (λ _. []) v

no_value-Has : is_empty_list (no_value job).owners ≡ false → Some Has (no_value job).owners
unfolding exactly confined_to is_empty_list
no_value-Has n = absurd (ground arith)

job_held : contains acme_jobs job ≡ true
unfolding contains glob glob_contains bytes_eq glob_node split match_at runes last_segment
    match_middle middle_segments
job_held = refl

jobs_read :
    is_empty_list (confine_shape no_value (some of_prefix) (shape_of acme_jobs)).owners ≡ false
unfolding confine_shape shape_of glob is_empty_list bytes_eq has_prefix literal_prefix pieces
    glob_node bytes_of
jobs_read = refl

confine_shape-Holds_example :
    Some Has (confine_shape no_value (some of_prefix) (shape_of acme_jobs)).owners
confine_shape-Holds_example =
    confine_shape-Holds Has job no_value (some of_prefix) (omega arith) no_value-Has of_prefix-Has
      acme_jobs (glob-IsValid (codes "repo:acme/*") (omega arith)) job_held jobs_read

abbrev rules : CaveatRules
rules = record { may_name = λ _ _ _. false; asks_no_value = λ _. false }

abbrev jobs : Term
jobs = (sub, acme_jobs) ∷ []

abbrev with_effect : Effect → Grant
with_effect e = record {
  target = record { kind = codes "role"; id = codes "arn:aws:iam::111122223333:role/deploy" };
  issuer = github;
  admits = record { terms = jobs ∷ []; caveats = [] };
  effect = e;
  provenance = [];
  anomalies = [];
  source = [];
}

classify-doubtful_example :
    (classify rules (with_effect effect_unknown) no_facts []).state ≡ state_unknown
classify-doubtful_example = classify-doubtful rules (with_effect effect_unknown) no_facts [] refl

allow_is_no_deny : allow ≢ deny
allow_is_no_deny e = cc e

one_term : is_empty_admitted (with_effect allow).admits ≡ false
unfolding is_empty_admitted
one_term = refl

classify-unmodelled_example :
    ((classify rules (with_effect allow) no_facts []).places ≡ anyone ∷ [])
    × ((classify rules (with_effect allow) no_facts []).state ≡ state_unknown)
classify-unmodelled_example =
    classify-unmodelled rules (with_effect allow) no_facts [] refl allow_is_no_deny one_term

-- The census's facts for the subjects of GitHub Actions, in one form.
abbrev repositories : SubjectForm
repositories = record {
  lead = codes "repo:";
  scope = scope_owner;
  parts = record { kind = kind_name; delimiter = codes "/" } ∷ [];
}

abbrev actions : Tenancy
actions = record {
  claims = [];
  not_tenancy = [];
  subject_forms = repositories ∷ [];
  never_pin = codes "job_workflow_ref:" ∷ [];
  owner_characters = record { first = 97; last = 122 } ∷ record { first = 45; last = 45 } ∷ [];
  names_ignore_case = false;
}

actions-HasAsciiNames : HasAsciiNames actions
unfolding allows
actions-HasAsciiNames r h = ground arith

prefix_read :
    is_empty_list (subject_owners github namespace_github actions (codes "repo:acme/") false)
    ≡ false
unfolding subject_owners is_empty_list leads has_prefix read_form readable scope_eq pieces allows
    rune_of owner_run bytes_of fits_with
prefix_read = refl

job_read :
    some_form_reads github namespace_github actions
      (codes "repo:acme/" ++ codes "app:ref:refs/heads/main")
    ≡ true
unfolding some_form_reads read_form leads has_prefix readable scope_eq pieces is_empty_list allows
    rune_of owner_run bytes_of fits_with
job_read = refl

subject_owners-prefix_example :
    is_empty_list (
      subject_owners github namespace_github actions
        (codes "repo:acme/" ++ codes "app:ref:refs/heads/main")
        true)
    ≡ false
subject_owners-prefix_example =
    subject_owners-prefix github namespace_github actions actions-HasAsciiNames (codes "repo:acme/")
      (codes "app:ref:refs/heads/main") ((refl, tt), tt) prefix_read job_read

abbrev declared_acme : Declaration
declared_acme = record {
  namespace = namespace_github;
  scope = scope_owner;
  name = codes "acme";
  id = [];
  value = [];
}

abbrev classifier : Classifier
classifier = record { grant = with_effect allow; facts = no_facts; declared = declared_acme ∷ [] }

acme_yours : place_eq (pinned classifier ((acme ∷ []) ∷ []) pinned_basis).place yours ≡ true
unfolding pinned place_eq all_declared declare_pin names bytes_eq scope_eq is_name_kind
acme_yours = refl
