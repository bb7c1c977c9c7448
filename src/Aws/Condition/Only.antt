-- ===== src/Aws/Condition/Only.antt =====
-- internal/parse/aws/condition.go: what a set of `project` without a caveat admits.
use cloudarq.Prelude.{
  ◌≡◌, refl, ap, ◌∙◌, sym, subst, inl, inr, ◌↔◌, true, false, ◌&&◌, ◌||◌, List, [], ◌∷◌, map, All,
  arith, some,
}
use cloudarq.Text.Bytes.{Bytes, codes}
use cloudarq.Eval.StringSet.Build.{◌>>=◌, >>=-some}
use cloudarq.Eval.Admitted.{
  Term, Token, AdmittedSet, admits, overflow, satisfied, new_admitted_set, conjoin,
}
use cloudarq.Eval.Admitted.Terms.{meets, IsValidTerm}
use cloudarq.Eval.Admitted.Conjoin.{conjoin-ConjoinsTo}
use cloudarq.Eval.Admitted.Normalise.{has_caveat}
use cloudarq.Eval.Admitted.Algebra.{new_admitted_set-Admits}
use cloudarq.Trust.Grant.{Anomaly, Effect}
use cloudarq.Aws.Folding.{CaseTables}
use cloudarq.Aws.Operator.{parse_operator}
use cloudarq.Aws.Variables.{VariableMode}
use cloudarq.Aws.Values.{with_all_caveats}
use cloudarq.Aws.Principal.{Principal, identity_term}
use cloudarq.Aws.Scope.{KeyConstraint, ClaimVocabulary}
use cloudarq.Aws.Condition.{
  Evaluation, evaluate, entries_of, caveats_of, told_of, project_outcomes, project_block,
}
use cloudarq.Aws.Condition.Exact.{ReadExactly, evaluate-Evaluated}
use cloudarq.Aws.Condition.Declared.{HasBytes, nothing_declared, project_block-ReadExactly}
use cloudarq.Aws.Condition.Identity.{
  IsOfPrincipal, KeepsAccount, identity_meets, identity-IsOfPrincipal,
}
use cloudarq.Aws.Condition.Meets.{
  HasValue, MeetsCondition, IsValidOutcome, satisfied-HasValue, entries_met, evaluate_top,
}
use cloudarq.Aws.Condition.Admits.{project_outcomes-admits, entries_listed}

-- A set of one Term and no caveat admits only what meets the Term.
one_term_only :
    (t : Term) (token : Token)
    → IsValidTerm t
    → (new_admitted_set (t ∷ [])).caveats ≡ []
    → admits (new_admitted_set (t ∷ [])) token ≡ true
    → meets token t ≡ true
one_term_only t token h quiet e = elim (new_admitted_set-Admits (t ∷ []) (h, tt)) [
  | inl same ↦
      let both : (meets token t || false) ≡ true = sym (same token) ∙ e in ground (arith, both)
  | inr (wide, declared) ↦
      let bad : false ≡ true =
        sym (ap (has_caveat (overflow (codes "NewAdmittedSet"))) quiet) ∙ declared in
      cc bad
]

project_outcomes-only :
    (p : Principal) (src : Bytes) (os : List Evaluation) (a : AdmittedSet) (told : List Anomaly)
    (entries : Term) (token : Token)
    → IsValidTerm (identity_term p)
    → entries_of os ≡ some entries
    → IsValidTerm entries
    → project_outcomes p src os ≡ some (a, told)
    → a.caveats ≡ []
    → admits a token ≡ true
    → (meets token (identity_term p) ≡ true) × (meets token entries ≡ true)
project_outcomes-only p src os a told entries token h f k e quiet admitted =
    let (term, g, same) = ended e in
    let (r, er, valid, both) = conjoin-ConjoinsTo entries (identity_term p) h k in
    let met : r ≡ term = cc (g, er) in
    let silent : caveats_of src os ≡ [] = nothing_declared p src os a told e quiet in
    let bare : with_all_caveats (new_admitted_set (term ∷ [])) [] ≡ new_admitted_set (term ∷ []) =
      unfold with_all_caveats in refl in
    let start : new_admitted_set (term ∷ []) ≡ a =
      sym bare ∙ ap (with_all_caveats (new_admitted_set (term ∷ []))) (sym silent) ∙ same in
    let meets_term : meets token term ≡ true =
      one_term_only term token (subst IsValidTerm met valid) (ap (λ s. s.caveats) start ∙ quiet)
        (ap (λ s. admits s token) start ∙ admitted) in
    let parts : (meets token (identity_term p) && meets token entries) ≡ true =
      sym (both token) ∙ ap (meets token) met ∙ meets_term in
    (ground (arith, parts), ground (arith, parts))
  where
    ended :
        project_outcomes p src os ≡ some (a, told)
        → (term : Term) × (conjoin (identity_term p) entries ≡ some term)
          × (with_all_caveats (new_admitted_set (term ∷ [])) (caveats_of src os) ≡ a)
    ended e =
        unfold project_outcomes in
        let run : ◌>>=◌ {B = AdmittedSet × List Anomaly} (conjoin (identity_term p) entries)
              (λ term.
                some
                  (with_all_caveats (new_admitted_set (term ∷ [])) (caveats_of src os), told_of os))
            ≡ some (a, told) =
          rw f at e in
        let (term, g, j) = >>=-some (conjoin (identity_term p) entries) _ run in (term, g, cc j)

-- What a token has for each condition that is read exactly, where it meets their entries.
entries_held :
    (mode : VariableMode) (token : Token) (evaluated : KeyConstraint → Evaluation)
    (cs : List KeyConstraint) (entries : Term)
    → entries_of (map evaluated cs) ≡ some entries
    → All (λ c. ReadExactly (parse_operator c.operator) c.value mode (evaluated c)) cs
    → meets token entries ≡ true
    → All (λ c. HasValue mode token c (evaluated c)) cs
unfolding entries_of
entries_held mode token evaluated [] entries e x h = tt
entries_held mode token evaluated (c ∷ cs) entries e x h =
    let (s, f, g) = >>=-some (evaluated c).set _ e in
    let (rest, i, k) = >>=-some (entries_of (map evaluated cs)) _ g in
    let same : ((evaluated c).claim, s) ∷ rest ≡ entries = cc k in
    let met : (satisfied token ((evaluated c).claim, s) && meets token rest) ≡ true =
      ap (meets token) same ∙ h in
    (
      satisfied-HasValue mode token c (evaluated c) s x.0 f (ground (arith, met)),
      entries_held mode token evaluated cs rest i x.1 (ground (arith, met)),
    )

has_values :
    (mode : VariableMode) (token : Token) (evaluated : KeyConstraint → Evaluation)
    (cs : List KeyConstraint)
    → All (λ c. HasValue mode token c (evaluated c)) cs
    → All (λ c. MeetsCondition mode token c (evaluated c)) cs
has_values mode token evaluated [] h = tt
has_values mode token evaluated (c ∷ cs) h = (inr h.0, has_values mode token evaluated cs h.1)

entries_valid :
    (evaluated : KeyConstraint → Evaluation) (cs : List KeyConstraint) (entries : Term)
    → entries_of (map evaluated cs) ≡ some entries
    → All (λ c. IsValidOutcome (evaluated c)) cs
    → IsValidTerm entries
unfolding entries_of
entries_valid evaluated [] entries e v = let same : [] ≡ entries = cc e in subst IsValidTerm same tt
entries_valid evaluated (c ∷ cs) entries e v =
    let (s, f, g) = >>=-some (evaluated c).set _ e in
    let (rest, h, k) = >>=-some (entries_of (map evaluated cs)) _ g in
    let same : ((evaluated c).claim, s) ∷ rest ≡ entries = cc k in
    subst IsValidTerm same ((v.0.0, v.0.1 s f), entries_valid evaluated cs rest h v.1)

-- Where the conditions' texts are bytes, the identity and the outcomes of the conditions are valid,
-- their claim names hold no equals sign, an account that the principal names is not the claim it
-- leaves undecided, and `project` returns a set without a caveat, the set admits exactly the tokens
-- that have the principal's account and ARN, where it names them, and, for each condition, a value of
-- its claim that a listed text admits once its variables are resolved: the value is the text, or
-- under StringLike it matches it.
pub project_block-HasValue :
    (tables : CaseTables) (vocabulary : ClaimVocabulary) (mode : VariableMode) (p : Principal)
    (effect : Effect) (src : Bytes) (cs : List KeyConstraint) (a : AdmittedSet)
    (told : List Anomaly) (token : Token)
    → All HasBytes cs
    → IsValidTerm (identity_term p)
    → KeepsAccount p
    → All (λ c. IsValidOutcome (evaluate tables vocabulary mode p effect src c)) cs
    → project_block tables vocabulary mode p effect src cs ≡ some (a, told)
    → a.caveats ≡ []
    → (admits a token ≡ true) ↔ (
        IsOfPrincipal token p
        × All (λ c. HasValue mode token c (evaluate tables vocabulary mode p effect src c)) cs)
project_block-HasValue tables vocabulary mode p effect src cs a told token b i keeps v e quiet =
    let evaluated : KeyConstraint → Evaluation = evaluate tables vocabulary mode p effect src in
    let run : project_outcomes p src (map evaluated cs) ≡ some (a, told) =
      unfold project_block in e in
    let (entries, f) = entries_listed p src (map evaluated cs) a told run in
    let valid : IsValidTerm entries = entries_valid evaluated cs entries f v in
    (
      λ admitted.
          let (own, met) =
            project_outcomes-only p src (map evaluated cs) a told entries token i f valid run quiet
              admitted in
          (
            identity-IsOfPrincipal token p keeps own,
            entries_held mode token evaluated cs entries f
                (project_block-ReadExactly tables vocabulary mode p effect src cs a told b e quiet)
                met,
          ),
      λ (own, held).
          project_outcomes-admits p src (map evaluated cs) a told entries token i f valid run
            (identity_meets token p own)
            (entries_met mode token evaluated
              (evaluate-Evaluated tables vocabulary mode p effect src)
              (evaluate_top tables vocabulary mode p effect src) cs entries f b v
              (has_values mode token evaluated cs held)).1,
    )
