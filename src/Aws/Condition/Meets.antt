-- ===== src/Aws/Condition/Meets.antt =====
-- internal/parse/aws/condition.go: a token that meets the conditions meets the Term of `project`.
use cloudarq.Prelude.{
  ◌≡◌, refl, ap, ◌∙◌, sym, inl, inr, true, List, [], ◌∷◌, map, All, arith, Option, some, any, Bool,
  ◌≤◌, ◌⊎◌, Some, length, ◌==◌, Option-cases, false,
}
use cloudarq.Text.Bytes.{Bytes, codes, bytes_eq}
use cloudarq.Eval.StringSet.Build.{>>=-some, join}
use cloudarq.Eval.Admitted.{Term, Token, satisfied}
use cloudarq.Eval.Admitted.Terms.{meets, IsValidTerm, IsClaimName, top_satisfied}
use cloudarq.Trust.Grant.{Anomaly, Effect}
use cloudarq.Aws.Folding.{CaseTables}
use cloudarq.Aws.Variables.{VariableMode, resolve_variables}
use cloudarq.Aws.Values.{join_all, Fact}
use cloudarq.Aws.Principal.{Principal}
use cloudarq.Aws.Scope.{KeyConstraint, ClaimVocabulary, scope_of}
use cloudarq.Aws.Scope.Facts.{key_facts, key_notes, read_scope}
use cloudarq.Aws.Condition.{
  evaluate_read, ConditionReading, unknown_of, outcome_of, with_values, evaluate_scope, Evaluation,
  evaluate, entries_of,
}
use cloudarq.Eval.Claims.{ClaimKey, lookup}
use cloudarq.Eval.StringSet.{StringSet, contains, is_top}
use cloudarq.Eval.StringSet.Valid.{IsValid}
use cloudarq.Aws.Operator.{parse_operator}
use cloudarq.Aws.Values.Admitted.{value_admits, AdmittedBy, any-AdmittedBy}
use cloudarq.Aws.Json.{leaves, leaf_texts}
use cloudarq.Aws.Condition.Read.{holds, facts_top}
use cloudarq.Aws.Condition.Exact.{Evaluated, ReadExactly}
use cloudarq.Aws.Condition.Declared.{HasBytes}

outcome_top :
    (claim : ClaimKey) (src : Bytes) (set : Option StringSet) (notes : List Anomaly)
    (fs : List Fact) (s : StringSet)
    → 1 ≤ length (outcome_of claim src set notes fs).anomalies
    → (outcome_of claim src set notes fs).set ≡ some s
    → is_top s ≡ true
unfolding outcome_of
outcome_top claim src set notes [] s l e = absurd (omega arith)
outcome_top claim src set notes (f ∷ fs) s l e =
    let same : join_all join (unknown_of f) (map unknown_of fs) ≡ s = cc e in
    ap is_top (sym same) ∙ facts_top f fs

-- The set of a condition that is told is top.
with_values_top :
    (r : ConditionReading) (mode : VariableMode) (src : Bytes) (notes : List Anomaly)
    (s : StringSet)
    → 1 ≤ length (with_values r mode src notes).anomalies
    → (with_values r mode src notes).set ≡ some s
    → is_top s ≡ true
unfolding with_values
with_values_top r mode src notes s = outcome_top _ _ _ _ _ s

-- A token has a value of the claim that a text admits which the condition lists.
abbrev pub HasValue : VariableMode → Token → KeyConstraint → Evaluation → Type 0
HasValue mode token c o =
    (v : Bytes) × (texts : List Bytes) × (lookup o.claim token ≡ some v)
    × (leaves c.value ≡ leaf_texts texts)
    × Some
        (λ text. AdmittedBy (bytes_eq (parse_operator c.operator).base (codes "StringLike")) v (
          resolve_variables text mode
            (bytes_eq (parse_operator c.operator).base (codes "StringLike"))))
        texts

-- A token meets a condition: it was told, and so is not asked, or the token has a value for it.
abbrev pub MeetsCondition : VariableMode → Token → KeyConstraint → Evaluation → Type 0
MeetsCondition mode token c o = (1 ≤ length o.anomalies) ⊎ HasValue mode token c o

-- The claim of an outcome has a name without an equals sign, and its set is valid.
abbrev pub IsValidOutcome : Evaluation → Type 0
IsValidOutcome o = IsClaimName o.claim × ((s : StringSet) → o.set ≡ some s → IsValid s)

condition_satisfied :
    (mode : VariableMode) (token : Token) (c : KeyConstraint) (o : Evaluation) (s : StringSet)
    → Evaluated (parse_operator c.operator) c.value mode o
    → (1 ≤ length o.anomalies → is_top s ≡ true)
    → o.set ≡ some s
    → MeetsCondition mode token c o
    → satisfied token (o.claim, s) ≡ true
unfolding satisfied
condition_satisfied mode token c o s h top e (inl told) = top_satisfied token o.claim s (top told)
condition_satisfied mode token c o s (inr (told, each)) top e (inr m) =
    top_satisfied token o.claim s (top told)
condition_satisfied mode token c o s (inl (texts, f, ok, quiet, says, narrow)) top e
      (inr (v, listed, found, g, h)) =
    let same : listed ≡ texts = cc (f, g) in
    let like : Bool = bytes_eq (parse_operator c.operator).base (codes "StringLike") in
    let admitted : any (value_admits mode like v) texts ≡ true =
      ap (any (value_admits mode like v)) (sym same) ∙ (any-AdmittedBy mode like v listed).1 h in
    let held : contains s v ≡ true = ap (λ x. holds x v) (sym e) ∙ says v ∙ admitted in
    rw (satisfied, found) held

-- What a token that satisfies the set of a condition has, where the condition is read exactly.
pub satisfied-HasValue :
    (mode : VariableMode) (token : Token) (c : KeyConstraint) (o : Evaluation) (s : StringSet)
    → ReadExactly (parse_operator c.operator) c.value mode o
    → o.set ≡ some s
    → satisfied token (o.claim, s) ≡ true
    → HasValue mode token c o
unfolding satisfied
satisfied-HasValue mode token c o s (texts, f, ok, quiet, says, narrow) e h =
    let like : Bool = bytes_eq (parse_operator c.operator).base (codes "StringLike") in
    elim (Option-cases (lookup o.claim token)) [
      | inl n ↦
          let every : is_top s ≡ true = rw (satisfied, n) at h in
          let bad : false ≡ true = sym (narrow s e) ∙ every in cc bad
      | inr (v, found) ↦
          let held : contains s v ≡ true = rw (satisfied, found) at h in
          let admitted : any (value_admits mode like v) texts ≡ true =
            sym (says v) ∙ ap (λ x. holds x v) e ∙ held in
          (v, texts, found, f, (any-AdmittedBy mode like v texts).0 admitted)
    ]

module _ (mode : VariableMode) (token : Token) (evaluated : KeyConstraint → Evaluation)
    (reads : (c : KeyConstraint)
      → HasBytes c
      → Evaluated (parse_operator c.operator) c.value mode (evaluated c))
    (top : (c : KeyConstraint) (s : StringSet)
      → 1 ≤ length (evaluated c).anomalies
      → (evaluated c).set ≡ some s
      → is_top s ≡ true) where
  pub entries_met :
      (cs : List KeyConstraint) (entries : Term)
      → entries_of (map evaluated cs) ≡ some entries
      → All HasBytes cs
      → All (λ c. IsValidOutcome (evaluated c)) cs
      → All (λ c. MeetsCondition mode token c (evaluated c)) cs
      → IsValidTerm entries × (meets token entries ≡ true)
  unfolding entries_of
  entries_met [] entries e b v m = let same : [] ≡ entries = cc e in rw (← same) (tt, refl)
  entries_met (c ∷ cs) entries e b v m =
      let (s, f, g) = >>=-some (evaluated c).set _ e in
      let (rest, h, k) = >>=-some (entries_of (map evaluated cs)) _ g in
      let same : ((evaluated c).claim, s) ∷ rest ≡ entries = cc k in
      let (valid, met) = entries_met cs rest h b.1 v.1 m.1 in
      let here : satisfied token ((evaluated c).claim, s) ≡ true =
        condition_satisfied mode token c (evaluated c) s (reads c b.0) (λ l. top c s l f) f m.0 in
      rw (← same) (((v.0.0, v.0.1 s f), valid), ground (arith, here, met))

pub evaluate_top :
    (tables : CaseTables) (vocabulary : ClaimVocabulary) (mode : VariableMode) (p : Principal)
    (effect : Effect) (src : Bytes) (c : KeyConstraint) (s : StringSet)
    → 1 ≤ length (evaluate tables vocabulary mode p effect src c).anomalies
    → (evaluate tables vocabulary mode p effect src c).set ≡ some s
    → is_top s ≡ true
unfolding evaluate evaluate_scope
evaluate_top tables vocabulary mode p effect src c s =
    let known : List Fact = key_facts tables p mode (scope_of p c.key).1 c.key in
    with_values_top
      (evaluate_read c p.issuer effect known (
        read_scope vocabulary p (length known == 0) (scope_of p c.key).0 c.key
          (scope_of p c.key).1))
      mode src (key_notes mode (scope_of p c.key).0 c.key src) s
