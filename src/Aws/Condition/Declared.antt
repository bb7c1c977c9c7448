-- ===== src/Aws/Condition/Declared.antt =====
-- internal/parse/aws/condition.go: what `project` could not read stands in the caveats of its set.
use cloudarq.Prelude.{
  ◌≡◌, refl, ap, ◌∙◌, sym, true, false, List, [], ◌∷◌, ◌++◌, map, All, length, arith, some,
  any-append, inl, inr, Bool-cases,
}
use cloudarq.Text.Bytes.{Bytes, IsBytes}
use cloudarq.Eval.StringSet.Build.{>>=-some}
use cloudarq.Eval.Admitted.{
  Caveat, AdmittedSet, caveat_key, caveat_order, new_admitted_set, conjoin,
}
use cloudarq.Eval.Admitted.Normalise.{has_caveat}
use cloudarq.Trust.Grant.{Anomaly, Effect}
use cloudarq.Aws.Folding.{CaseTables}
use cloudarq.Aws.Variables.{VariableMode}
use cloudarq.Aws.Operator.{parse_operator}
use cloudarq.Aws.Json.{leaves, leaf_texts}
use cloudarq.Aws.Condition.Exact.{Evaluated, ReadExactly, evaluate-Evaluated}
use cloudarq.Aws.Values.{with_all_caveats}
use cloudarq.Aws.Values.Caveats.{with_all_caveats_keeps}
use cloudarq.Aws.Principal.{Principal, identity_term}
use cloudarq.Aws.Scope.{KeyConstraint, ClaimVocabulary}
use cloudarq.Aws.Condition.{
  Evaluation, evaluate, entries_of, caveats_of, project_outcomes, project_block,
}

project_outcomes-keeps :
    (p : Principal) (src : Bytes) (os : List Evaluation) (a : AdmittedSet) (told : List Anomaly)
    (c : Caveat)
    → project_outcomes p src os ≡ some (a, told)
    → has_caveat c (caveats_of src os) ≡ true
    → has_caveat c a.caveats ≡ true
unfolding project_outcomes
project_outcomes-keeps p src os a told c e h =
    let (entries, f, g) = >>=-some (entries_of os) _ e in
    let (term, i, j) = >>=-some (conjoin (identity_term p) entries) _ g in
    let same : with_all_caveats (new_admitted_set (term ∷ [])) (caveats_of src os) ≡ a = cc j in
    let start : AdmittedSet = new_admitted_set (term ∷ []) in
    let given : has_caveat c (start.caveats ++ caveats_of src os) ≡ true =
      any-append _ start.caveats (caveats_of src os) ∙ ground (arith, h) in
    ap (λ s. has_caveat c s.caveats) (sym same)
    ∙ with_all_caveats_keeps c start (caveats_of src os) given

-- A list of caveats in which none stands is empty.
none_declared : (cs : List Caveat) → ((c : Caveat) → has_caveat c cs ≡ false) → cs ≡ []
none_declared [] h = refl
none_declared (c ∷ cs) h =
    let own : caveat_order.eq (caveat_key c) (caveat_key c) ≡ true =
      (caveat_order.eq_iff (caveat_key c) (caveat_key c)).1 refl in
    absurd (ground (arith, h c, own))

told_by :
    (o : Evaluation) (src : Bytes) (cs : List Caveat) (xs : List Anomaly)
    → map (λ (x : Anomaly). record { claim = o.claim; reason = x.message; source = src }) xs ++ cs
      ≡ []
    → (xs ≡ []) × (cs ≡ [])
told_by o src cs [] e = (refl, e)
told_by o src cs (x ∷ xs) e = cc e

nothing_told :
    (src : Bytes) (os : List Evaluation) → caveats_of src os ≡ [] → All (λ o. o.anomalies ≡ []) os
unfolding caveats_of
nothing_told src [] e = tt
nothing_told src (o ∷ os) e =
    let (quiet, rest) = told_by o src (caveats_of src os) o.anomalies e in
    (quiet, nothing_told src os rest)

-- A set without a caveat was given none.
pub nothing_declared :
    (p : Principal) (src : Bytes) (os : List Evaluation) (a : AdmittedSet) (told : List Anomaly)
    → project_outcomes p src os ≡ some (a, told)
    → a.caveats ≡ []
    → caveats_of src os ≡ []
nothing_declared p src os a told e quiet = none_declared (caveats_of src os) (λ c.
    elim (Bool-cases (has_caveat c (caveats_of src os))) [
      | inr f ↦ f
      | inl f ↦
          let kept : has_caveat c a.caveats ≡ true = project_outcomes-keeps p src os a told c e f in
          let bad : false ≡ true = sym (ap (has_caveat c) quiet) ∙ kept in cc bad
    ])

declared_all :
    (p : Principal) (src : Bytes) (os : List Evaluation) (a : AdmittedSet) (told : List Anomaly)
    → project_outcomes p src os ≡ some (a, told)
    → a.caveats ≡ []
    → All (λ o. o.anomalies ≡ []) os
declared_all p src os a told e quiet =
    nothing_told src os (nothing_declared p src os a told e quiet)

-- The values of a condition are the texts that its value lists, all of them bytes.
abbrev pub HasBytes : KeyConstraint → Type 0
HasBytes c = (texts : List Bytes) → leaves c.value ≡ leaf_texts texts → All IsBytes texts

read_each :
    (evaluated : KeyConstraint → Evaluation) (mode : VariableMode) (cs : List KeyConstraint)
    → ((c : KeyConstraint)
        → HasBytes c
        → Evaluated (parse_operator c.operator) c.value mode (evaluated c))
    → All HasBytes cs
    → All (λ o. o.anomalies ≡ []) (map evaluated cs)
    → All (λ c. ReadExactly (parse_operator c.operator) c.value mode (evaluated c)) cs
read_each evaluated mode [] f h quiet = tt
read_each evaluated mode (c ∷ cs) f h quiet = (
  elim (f c h.0) [
    | inl exactly ↦ exactly
    | inr (told, all_values) ↦
        let silent : length (evaluated c).anomalies ≡ 0 = ap length quiet.0 in absurd (omega arith)
  ],
  read_each evaluated mode cs f h.1 quiet.1,
)

-- Where `project` returns a set without a caveat for conditions whose texts are bytes, every
-- condition was read exactly: its operator is StringEquals or StringLike without a set prefix or a
-- suffix, its value lists texts, its claim's values are those that a text admits, and its set is not
-- the one of every value, which a token without the claim meets.
pub project_block-ReadExactly :
    (tables : CaseTables) (vocabulary : ClaimVocabulary) (mode : VariableMode) (p : Principal)
    (effect : Effect) (src : Bytes) (cs : List KeyConstraint) (a : AdmittedSet)
    (told : List Anomaly)
    → All HasBytes cs
    → project_block tables vocabulary mode p effect src cs ≡ some (a, told)
    → a.caveats ≡ []
    → All
        (λ c.
          ReadExactly
            (parse_operator c.operator)
            c.value
            mode
            (evaluate tables vocabulary mode p effect src c))
        cs
unfolding project_block
project_block-ReadExactly tables vocabulary mode p effect src cs a told h e quiet =
    read_each (evaluate tables vocabulary mode p effect src) mode cs
      (evaluate-Evaluated tables vocabulary mode p effect src) h
      (declared_all p src (map (evaluate tables vocabulary mode p effect src) cs) a told e quiet)
