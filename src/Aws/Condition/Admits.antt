-- ===== src/Aws/Condition/Admits.antt =====
-- internal/parse/aws/condition.go: the set of `project` rejects no token that the principal and the
-- conditions admit.
use cloudarq.Prelude.{
  ◌≡◌, refl, ap, ap₂, ◌∙◌, sym, inl, inr, true, List, [], ◌∷◌, ◌++◌, map, All, arith, Option, none,
  some, Bool-cases, subst,
}
use cloudarq.Text.Bytes.{Bytes, codes}
use cloudarq.Eval.StringSet.Build.{◌>>=◌, >>=-some}
use cloudarq.Eval.Admitted.{
  Term, Token, Caveat, AdmittedSet, nothing_admitted, with_caveat, admits, all_top, normalise,
  normalise_live, normalise_term, live_terms, add_live, keep_distinct, finish, sorted_terms,
  widened, new_admitted_set, join_admitted, conjoin,
}
use cloudarq.Prelude.Order.Sorting.{sort}
use cloudarq.Eval.Admitted.Terms.{meets, IsValidTerm}
use cloudarq.Eval.Admitted.Conjoin.{conjoin-ConjoinsTo}
use cloudarq.Eval.Admitted.Normalise.{normalise_term-IsValid}
use cloudarq.Eval.Admitted.Algebra.{IsValidSet, new_admitted_set-Admits, join_admitted-Admits}
use cloudarq.Trust.Grant.{Anomaly, Effect}
use cloudarq.Aws.Folding.{CaseTables}
use cloudarq.Aws.Variables.{VariableMode}
use cloudarq.Aws.Values.{join_all, carriers, with_all_caveats}
use cloudarq.Aws.Values.Balanced.{join_all-any}
use cloudarq.Aws.Principal.{Principal, identity_term}
use cloudarq.Aws.Scope.{KeyConstraint, ClaimVocabulary}
use cloudarq.Aws.Condition.Exact.{evaluate-Evaluated}
use cloudarq.Aws.Condition.Declared.{HasBytes}
use cloudarq.Aws.Condition.{
  Evaluation, evaluate, entries_of, caveats_of, told_of, project_outcomes, project_block,
}
use cloudarq.Aws.Condition.Meets.{MeetsCondition, IsValidOutcome, entries_met, evaluate_top}
use cloudarq.Aws.Condition.Identity.{IsOfPrincipal, identity_meets}

live_one :
    (o : Option Term) (cs : List Caveat) (op : Bytes)
    → ((u : Term) → o ≡ some u → IsValidTerm u)
    → IsValidSet (normalise_live (add_live o (some [])) cs op)
unfolding add_live normalise_live finish keep_distinct sorted_terms widened sort
live_one none cs op h = tt
live_one (some u) cs op h = elim (Bool-cases (all_top u)) [
  | inl x ↦ rw x (tt, tt)
  | inr x ↦ rw x (h u refl, tt)
]

new_admitted_set-IsValidSet : (t : Term) → IsValidTerm t → IsValidSet (new_admitted_set (t ∷ []))
unfolding new_admitted_set normalise live_terms
new_admitted_set-IsValidSet t h =
    live_one (normalise_term t) [] (codes "NewAdmittedSet") (λ u e. normalise_term-IsValid t u h e)

-- A set without a term.
abbrev IsBare : AdmittedSet → Type 0
IsBare a = a.terms ≡ []

join_admitted-IsBare : (a b : AdmittedSet) → IsBare a → IsBare b → IsBare (join_admitted a b)
unfolding join_admitted sort
join_admitted-IsBare a b h k =
    ap₂ (λ xs ys. (normalise (xs ++ ys) (a.caveats ++ b.caveats) (codes "Join")).terms) h k
    ∙ bare_normalised (a.caveats ++ b.caveats)
  where
    bare_normalised : (cs : List Caveat) → (normalise [] cs (codes "Join")).terms ≡ []
    bare_normalised cs =
        unfold normalise live_terms normalise_live keep_distinct finish sorted_terms in refl

carriers-IsBare : (cs : List Caveat) → All IsBare (carriers cs)
unfolding carriers with_caveat
carriers-IsBare [] = tt
carriers-IsBare (c ∷ cs) = (refl, carriers-IsBare cs)

carried-IsBare :
    (c : Caveat) (cs : List Caveat)
    → IsBare (join_all join_admitted (with_caveat nothing_admitted c) (carriers cs))
carried-IsBare c cs =
    (join_all-any join_admitted IsBare (λ a. true) join_admitted-IsBare (λ a b h k. refl)
      (with_caveat nothing_admitted c) (carriers cs)
      (unfold with_caveat in refl, carriers-IsBare cs)).0

joined_admits :
    (a b : AdmittedSet) (token : Token)
    → IsValidSet a
    → IsValidSet b
    → admits a token ≡ true
    → admits (join_admitted a b) token ≡ true
joined_admits a b token h k e = elim (join_admitted-Admits a b h k) [
  | inl same ↦ ground (arith, same token, e)
  | inr wide ↦ wide.0 token
]

with_all_caveats-admits :
    (s : AdmittedSet) (cs : List Caveat) (token : Token)
    → IsValidSet s
    → admits s token ≡ true
    → admits (with_all_caveats s cs) token ≡ true
unfolding with_all_caveats
with_all_caveats-admits s [] token h e = e
with_all_caveats-admits s (c ∷ cs) token h e =
    let bare : IsBare (join_all join_admitted (with_caveat nothing_admitted c) (carriers cs)) =
      carried-IsBare c cs in
    joined_admits s _ token h (subst (All IsValidTerm) (sym bare) tt) e

one_term_admits :
    (t : Term) (token : Token)
    → IsValidTerm t
    → meets token t ≡ true
    → admits (new_admitted_set (t ∷ [])) token ≡ true
one_term_admits t token h e = elim (new_admitted_set-Admits (t ∷ []) (h, tt)) [
  | inl same ↦ ground (arith, same token, e)
  | inr wide ↦ wide.0 token
]

pub project_outcomes-admits :
    (p : Principal) (src : Bytes) (os : List Evaluation) (a : AdmittedSet) (told : List Anomaly)
    (entries : Term) (token : Token)
    → IsValidTerm (identity_term p)
    → entries_of os ≡ some entries
    → IsValidTerm entries
    → project_outcomes p src os ≡ some (a, told)
    → meets token (identity_term p) ≡ true
    → meets token entries ≡ true
    → admits a token ≡ true
unfolding project_outcomes
project_outcomes-admits p src os a told entries token h f k e here each =
    let run : (conjoin (identity_term p) entries >>= λ term.
    some (with_all_caveats (new_admitted_set (term ∷ [])) (caveats_of src os), told_of os))
        ≡ some (a, told) =
      rw f at e in
    let (term, g, j) = >>=-some (conjoin (identity_term p) entries) _ run in
    let (r, er, valid, both) = conjoin-ConjoinsTo entries (identity_term p) h k in
    let met : r ≡ term = cc (g, er) in
    let start : AdmittedSet = new_admitted_set (term ∷ []) in
    let same : with_all_caveats start (caveats_of src os) ≡ a = cc j in
    let ok : IsValidTerm term = subst IsValidTerm met valid in
    let meets_both : meets token r ≡ true = ground (arith, both token, here, each) in
    ap (λ s. admits s token) (sym same)
    ∙ with_all_caveats-admits start (caveats_of src os) token (new_admitted_set-IsValidSet term ok)
        (one_term_admits term token ok (ap (meets token) (sym met) ∙ meets_both))

pub entries_listed :
    (p : Principal) (src : Bytes) (os : List Evaluation) (a : AdmittedSet) (told : List Anomaly)
    → project_outcomes p src os ≡ some (a, told)
    → (entries : Term) × (entries_of os ≡ some entries)
unfolding project_outcomes
entries_listed p src os a told e =
    let (entries, f, g) = >>=-some (entries_of os) _ e in (entries, f)

-- Where the conditions' texts are bytes, and the identity and the outcomes of the conditions are
-- valid and their claim names hold no equals sign, the set that `project` returns admits every token
-- that has the principal's account and ARN, where it names them, and that meets each condition: one
-- that `evaluate` told asks for nothing, and else the token has a value of the claim that a listed
-- text admits once its variables are resolved: the value is the text, or under StringLike it
-- matches it.
pub project_block-admits :
    (tables : CaseTables) (vocabulary : ClaimVocabulary) (mode : VariableMode) (p : Principal)
    (effect : Effect) (src : Bytes) (cs : List KeyConstraint) (a : AdmittedSet)
    (told : List Anomaly) (token : Token)
    → All HasBytes cs
    → IsValidTerm (identity_term p)
    → All (λ c. IsValidOutcome (evaluate tables vocabulary mode p effect src c)) cs
    → project_block tables vocabulary mode p effect src cs ≡ some (a, told)
    → IsOfPrincipal token p
    → All (λ c. MeetsCondition mode token c (evaluate tables vocabulary mode p effect src c)) cs
    → admits a token ≡ true
unfolding project_block
project_block-admits tables vocabulary mode p effect src cs a told token b i v e own m =
    let evaluated : KeyConstraint → Evaluation = evaluate tables vocabulary mode p effect src in
    let (entries, f) = entries_listed p src (map evaluated cs) a told e in
    let (valid, met) =
      entries_met mode token evaluated (evaluate-Evaluated tables vocabulary mode p effect src)
        (evaluate_top tables vocabulary mode p effect src) cs entries f b v m in
    project_outcomes-admits p src (map evaluated cs) a told entries token i f valid e
      (identity_meets token p own) met
