-- ===== src/Examples/Blocks.antt =====
-- internal/parse/aws/condition.go on blocks of conditions for the tokens of GitLab.
use cloudarq.Prelude.{
  ◌≡◌, refl, ap, ◌∙◌, false, [], ◌∷◌, All, arith, subst, some, sym, true, inl, inr, ◌↔◌,
}
use cloudarq.Text.Bytes.{Bytes, codes, IsBytes, bytes_eq}
use cloudarq.Eval.StringSet.{exact, is_empty, is_top, StringSet}
use cloudarq.Eval.Admitted.{
  AdmittedSet, conjoin, new_admitted_set, normalise, live_terms, normalise_term, all_top,
  keep_distinct, normalise_caveats, Token, admits,
}
use cloudarq.Trust.Grant.{allow}
use cloudarq.Aws.Folding.{CaseTables, folds_beyond_ascii, fold, variable_reference, cut}
use cloudarq.Aws.Operator.{parse_operator}
use cloudarq.Aws.Variables.{variables_resolved, resolve_variables}
use cloudarq.Aws.Json.{Value, value, no_values, kind_string, leaves}
use cloudarq.Aws.Principal.{Principal, oidc, own_claim, identity_term}
use cloudarq.Aws.Scope.{KeyConstraint, ClaimVocabulary, claim_read, scope_of}
use cloudarq.Aws.Scope.Facts.{repeat_facts, key_facts, read_scope, key_notes}
use cloudarq.Aws.Condition.{Evaluation, evaluate, project_outcomes, project_block}
use cloudarq.Aws.Condition.Exact.{Evaluated, ReadExactly, evaluate-Evaluated}
use cloudarq.Aws.Condition.Declared.{HasBytes, project_block-ReadExactly}
use cloudarq.Aws.Condition.Admits.{project_block-admits}
use cloudarq.Aws.Condition.Only.{project_block-HasValue}
use cloudarq.Aws.Condition.Identity.{IsOfPrincipal}
use cloudarq.Aws.Condition.Meets.{HasValue, MeetsCondition, IsValidOutcome}
use cloudarq.Eval.Admitted.Terms.{IsValidTerm}
use cloudarq.Eval.StringSet.Valid.{IsValid}
use cloudarq.Eval.Claims.{lookup, put}
use cloudarq.Aws.Values.{with_all_caveats, value_set, join_all}
use cloudarq.Prelude.Order.Sorting.{sort, sort_compact}
use cloudarq.Text.Utf8.{runes}
use cloudarq.Trust.Issuer.{lower_ascii, claim_key}

abbrev no_case : CaseTables
no_case = record { variants = []; spellings = [] }

-- A vocabulary that reads each key as the claim of its name.
abbrev plain : ClaimVocabulary
plain = λ issuer name. (name, claim_read)

abbrev gitlab_oidc : Principal
gitlab_oidc = record {
  kind = oidc;
  text = codes "gitlab.com";
  issuer = codes "https://gitlab.com";
  identifier = codes "gitlab.com";
  ident = codes "gitlab.com";
  wide_ident = [];
  account_id = [];
  undecided = [];
}

abbrev text_value : Bytes → Value
text_value text = value kind_string text false no_values []

abbrev on_sub : Bytes → Bytes → KeyConstraint
on_sub operator text = record {
  operator = operator;
  key = codes "gitlab.com:sub";
  value = text_value text;
  repeated = record { what = []; message = [] };
}

abbrev acme_app : KeyConstraint
acme_app = on_sub (codes "StringEquals") (codes "acme:app")

acme_app-HasBytes : HasBytes acme_app
unfolding leaves
acme_app-HasBytes texts e =
    let same : codes "acme:app" ∷ [] ≡ texts = cc e in subst (All IsBytes) same (omega arith, tt)

evaluate-Evaluated_example :
    Evaluated
      (parse_operator (codes "StringEquals"))
      (text_value (codes "acme:app"))
      variables_resolved
      (evaluate no_case plain variables_resolved gitlab_oidc allow [] acme_app)
evaluate-Evaluated_example =
    evaluate-Evaluated no_case plain variables_resolved gitlab_oidc allow [] acme_app
      acme_app-HasBytes

abbrev app_set : AdmittedSet
app_set = record { terms = ((codes "sub", exact (codes "acme:app")) ∷ []) ∷ []; caveats = [] }

abbrev app_outcome : Evaluation
app_outcome = record {
  claim = codes "sub";
  set = some (exact (codes "acme:app"));
  anomalies = [];
  notes = [];
}

evaluates_app :
    evaluate no_case plain variables_resolved gitlab_oidc allow [] acme_app ≡ app_outcome
unfolding evaluate repeat_facts key_facts folds_beyond_ascii runes scope_of own_claim bytes_eq fold
    lower_ascii claim_key variable_reference read_scope value_set resolve_variables is_top join_all
    key_notes
evaluates_app = refl

outcomes_app : project_outcomes gitlab_oidc [] (app_outcome ∷ []) ≡ some (app_set, [])
unfolding project_outcomes conjoin lookup with_all_caveats new_admitted_set normalise live_terms
    normalise_term put is_empty is_top all_top keep_distinct sort normalise_caveats sort_compact
outcomes_app = refl

projects_app :
    project_block no_case plain variables_resolved gitlab_oidc allow [] (acme_app ∷ [])
    ≡ some (app_set, [])
unfolding project_block
projects_app = ap (λ o. project_outcomes gitlab_oidc [] (o ∷ [])) evaluates_app ∙ outcomes_app

project_block-ReadExactly_example :
    All
      (λ c.
        ReadExactly
          (parse_operator c.operator)
          c.value
          variables_resolved
          (evaluate no_case plain variables_resolved gitlab_oidc allow [] c))
      (acme_app ∷ [])
project_block-ReadExactly_example =
    project_block-ReadExactly no_case plain variables_resolved gitlab_oidc allow [] (acme_app ∷ [])
      app_set [] (acme_app-HasBytes, tt) projects_app refl

no_identity : identity_term gitlab_oidc ≡ []
unfolding identity_term
no_identity = refl

abbrev app_token : Token
app_token = (codes "sub", codes "acme:app") ∷ []

app_outcome-IsValid : IsValidOutcome app_outcome
app_outcome-IsValid = (ground arith, λ s e. subst IsValid (same_set s e) (omega arith))
  where
    same_set :
        (s : StringSet) → some (exact (codes "acme:app")) ≡ some s → exact (codes "acme:app") ≡ s
    same_set s e = cc e

app_token_has : HasValue variables_resolved app_token acme_app app_outcome
unfolding lookup bytes_eq leaves parse_operator resolve_variables cut
app_token_has = (codes "acme:app", codes "acme:app" ∷ [], refl, refl, inl refl)

app_token_meets : MeetsCondition variables_resolved app_token acme_app app_outcome
app_token_meets = inr app_token_has

app_token_own : IsOfPrincipal app_token gitlab_oidc
app_token_own = (λ l. absurd (omega arith), λ e. cc e)

project_block-admits_example : admits app_set app_token ≡ true
project_block-admits_example =
    project_block-admits no_case plain variables_resolved gitlab_oidc allow [] (acme_app ∷ [])
      app_set [] app_token (acme_app-HasBytes, tt) (subst IsValidTerm (sym no_identity) tt)
      (subst IsValidOutcome (sym evaluates_app) app_outcome-IsValid, tt) projects_app app_token_own
      (
        subst (MeetsCondition variables_resolved app_token acme_app) (sym evaluates_app)
            app_token_meets,
        tt,
      )

project_block-HasValue_example : (admits app_set app_token ≡ true) ↔ (
    IsOfPrincipal app_token gitlab_oidc
    × All
        (λ c.
          HasValue variables_resolved app_token c
            (evaluate no_case plain variables_resolved gitlab_oidc allow [] c))
        (acme_app ∷ []))
project_block-HasValue_example =
    project_block-HasValue no_case plain variables_resolved gitlab_oidc allow [] (acme_app ∷ [])
      app_set [] app_token (acme_app-HasBytes, tt) (subst IsValidTerm (sym no_identity) tt)
      (λ l. absurd (omega arith)) (subst IsValidOutcome (sym evaluates_app) app_outcome-IsValid, tt)
      projects_app refl
