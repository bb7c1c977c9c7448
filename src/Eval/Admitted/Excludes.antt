-- ===== src/Eval/Admitted/Excludes.antt =====
-- internal/eval/admitted.go: `Excludes` answers exactly where `Admits` does not, and blames the
-- Term that the token came closest to.
use cloudarq.Prelude.{
  ◌≤◌, ◌≡◌, refl, ◌∙◌, sym, inl, inr, ◌⊎◌, ◌↔◌, true, false, List, [], ◌∷◌, ◌++◌, length, any, All,
  arith, Option, some, none, if◌then◌else◌, Bool-cases, ◌==◌, append_assoc, subst, append-nil,
  All-append, All-map,
}
use cloudarq.Prelude.Order.Sorting.Ascending.{All-sort}
use cloudarq.Text.Bytes.{bytes_lt_trans, bytes_lt_irrefl, bytes_order, bytes_eq, bytes_eq_iff}
use cloudarq.Eval.StringSet.{StringSet}
use cloudarq.Eval.Claims.{ClaimKey, lookup, has_key, IsMap}
use cloudarq.Eval.Admitted.{
  Term, Token, AdmittedSet, Closest, failing_keys, failures, satisfied, admits, is_closer,
  first_before, blame, excludes_from, excludes,
}
use cloudarq.Eval.Admitted.Closest.{NoWorse, not_closer-NoWorse}

closer_trans :
    (xs ys zs : List ClaimKey) (t u : Term)
    → is_closer xs (some (ys, t)) ≡ true
    → is_closer ys (some (zs, u)) ≡ true
    → is_closer xs (some (zs, u)) ≡ true
unfolding is_closer first_before
closer_trans [] ys zs t u h k = ground arith
closer_trans (x ∷ xs) [] zs t u h k = ground arith
closer_trans (x ∷ xs) (y ∷ ys) [] t u h k = ground arith
closer_trans (x ∷ xs) (y ∷ ys) (z ∷ zs) t u h k = ground (arith, bytes_lt_trans x y z)

closer_irrefl : (xs : List ClaimKey) (t : Term) → is_closer xs (some (xs, t)) ≡ false
unfolding is_closer first_before
closer_irrefl [] t = refl
closer_irrefl (x ∷ xs) t = ground (arith, bytes_lt_irrefl x)

-- Where the first is closer than the second, what is not closer than the second is not closer than the first.
not_closer :
    (xs ys zs : List ClaimKey) (t u : Term)
    → is_closer ys (some (zs, u)) ≡ true
    → is_closer xs (some (zs, u)) ≡ false
    → is_closer xs (some (ys, t)) ≡ false
not_closer xs ys zs t u h k = elim (Bool-cases (is_closer xs (some (ys, t)))) [
  | inl e ↦ ground (arith, closer_trans xs ys zs t u e h)
  | inr e ↦ e
]

abbrev pub Among : Term → List Term → Type 0
Among t [] = ⊥
Among t (u ∷ us) = (t ≡ u) ⊎ Among t us

Among-last : (t : Term) (us vs : List Term) → Among t (us ++ t ∷ vs)
Among-last t [] vs = inl refl
Among-last t (u ∷ us) vs = inr (Among-last t us vs)

Among-more : (t : Term) (us vs : List Term) → Among t us → Among t (us ++ vs)
Among-more t [] vs h = absurd h
Among-more t (u ∷ us) vs (inl e) = inl e
Among-more t (u ∷ us) vs (inr h) = inr (Among-more t us vs h)

-- The Term whose failures these are; no Term that was seen is closer.
abbrev IsClosest : Token → List Term → List ClaimKey → Term → Type 0
IsClosest token seen failed t =
    Among t seen
    × (failed ≡ failures t token)
    × (1 ≤ length failed)
    × All (λ u. is_closer (failures u token) (some (failed, t)) ≡ false) seen

abbrev Chosen : Token → List Term → Closest → Type 0
Chosen token seen none = seen ≡ []
Chosen token seen (some (failed, t)) = IsClosest token seen failed t

next_closest :
    (token : Token) (seen : List Term) (closest : Closest) (t : Term)
    → Chosen token seen closest
    → 1 ≤ length (failures t token)
    → Chosen token
        (seen ++ t ∷ [])
        (if is_closer (failures t token) closest then some (failures t token, t) else closest)
next_closest token seen none t h n =
    unfold is_closer in
    (Among-last t seen [], refl, n, rw h (closer_irrefl (failures t token) t, tt))
next_closest token seen (some (failed, u)) t (among, same, some_failed, best) n =
    elim (Bool-cases (is_closer (failures t token) (some (failed, u)))) [
      | inl e ↦ rw e (
        Among-last t seen [],
        refl,
        n,
        All-append _ seen (t ∷ [])
            (All-map (λ x. is_closer (failures x token) (some (failed, u)) ≡ false)
              (λ x. is_closer (failures x token) (some (failures t token, t)) ≡ false) seen
              (λ x. not_closer (failures x token) (failures t token) failed t u e) best)
            (closer_irrefl (failures t token) t, tt),
      )
      | inr e ↦ rw e (
        Among-more u seen (t ∷ []) among,
        same,
        some_failed,
        All-append _ seen (t ∷ []) best (e, tt),
      )
    ]

-- The loop stops at a Term that admits the token, or blames the closest.
abbrev Ends : Token → List Term → List Term → Closest → Type 0
Ends token seen ts closest =
    ((excludes_from closest ts token ≡ none)
      × (any (λ t. length (failures t token) == 0) ts ≡ true))
    ⊎ ((c : Closest) × (excludes_from closest ts token ≡ blame c)
        × Chosen token (seen ++ ts) c
        × (any (λ t. length (failures t token) == 0) ts ≡ false))

excludes_from-Ends :
    (token : Token) (ts seen : List Term) (closest : Closest)
    → Chosen token seen closest
    → Ends token seen ts closest
unfolding excludes_from
excludes_from-Ends token [] seen closest h =
    inr (closest, refl, subst (λ s. Chosen token s closest) (sym (append-nil seen)) h, refl)
excludes_from-Ends token (t ∷ ts) seen closest h =
    elim (Bool-cases (length (failures t token) == 0)) [
      | inl e ↦ inl (rw e refl, rw e refl)
      | inr e ↦
          let next : Closest =
            if is_closer (failures t token) closest then some (failures t token, t) else closest in
          let chosen = next_closest token seen closest t h (ground arith) in
          elim (excludes_from-Ends token ts (seen ++ t ∷ []) next chosen) [
            | inl (found, met) ↦ inl (rw e found, rw e met)
            | inr (c, ended, kept, unmet) ↦ inr (
              c,
              rw e ended,
              subst (λ s. Chosen token s c) (append_assoc seen (t ∷ []) ts) kept,
              rw e unmet,
            )
          ]
    ]

-- A claim that failed has a constraint in the Term, which the token does not satisfy.
abbrev pub Failing : Term → Token → ClaimKey → Type 0
Failing t token k = (s : StringSet) × (lookup k t ≡ some s) × (satisfied token (k, s) ≡ false)

no_key : (k : ClaimKey) (t : Term) → has_key k t ≡ false → lookup k t ≡ none
unfolding has_key lookup
no_key k [] h = refl
no_key k ((j, s) ∷ t) h = ground (arith, no_key k t)

Failing-behind :
    (k j : ClaimKey) (s : StringSet) (t : Term) (token : Token)
    → has_key k t ≡ false
    → Failing t token j
    → Failing ((k, s) ∷ t) token j
unfolding lookup
Failing-behind k j s t token h (r, found, fails) = elim (Bool-cases (bytes_eq k j)) [
  | inl e ↦
      let same : k ≡ j = (bytes_eq_iff k j).0 e in
      let missing = subst (λ x. lookup x t ≡ none) same (no_key k t h) in absurd (ground arith)
  | inr e ↦ (r, rw e found, fails)
]

failing_keys-Failing :
    (t : Term) (token : Token) → IsMap t → All (Failing t token) (failing_keys t token)
unfolding failing_keys lookup
failing_keys-Failing [] token h = tt
failing_keys-Failing ((k, s) ∷ t) token h =
    let rest =
      All-map (Failing t token) (Failing ((k, s) ∷ t) token) (failing_keys t token)
        (λ j. Failing-behind k j s t token h.0) (failing_keys-Failing t token h.1) in
    elim (Bool-cases (satisfied token (k, s))) [
      | inl e ↦ rw e rest
      | inr e ↦ rw e ((s, rw ((bytes_eq_iff k k).1 refl) refl, e), rest)
    ]

failures-Failing : (t : Term) (token : Token) → IsMap t → All (Failing t token) (failures t token)
unfolding failures
failures-Failing t token h =
    All-sort bytes_order (λ k. k) (Failing t token) (failing_keys t token)
      (failing_keys-Failing t token h)

-- `Excludes` has no answer exactly where `Admits` admits the token.
pub excludes-none_iff :
    (a : AdmittedSet) (token : Token) → (excludes a token ≡ none) ↔ (admits a token ≡ true)
unfolding excludes admits blame
excludes-none_iff a token = elim (excludes_from-Ends token a.terms [] none refl) [
  | inl (found, met) ↦ (λ _. met, λ _. found)
  | inr (none, ended, chosen, unmet) ↦ (λ e. ground arith, λ e. ground arith)
  | inr (some ([], t), ended, chosen, unmet) ↦ absurd (omega arith)
  | inr (some (k ∷ ks, t), ended, chosen, unmet) ↦ (λ e. ground arith, λ e. ground arith)
]

Among-IsMap : (t : Term) (ts : List Term) → Among t ts → All IsMap ts → IsMap t
Among-IsMap t [] h k = absurd h
Among-IsMap t (u ∷ us) (inl e) k = subst IsMap (sym e) k.0
Among-IsMap t (u ∷ us) (inr h) k = Among-IsMap t us h k.1

-- What an answer of `Excludes` means.
abbrev pub Blames : AdmittedSet → Token → ClaimKey → Option StringSet → Type 0
Blames a token k got =
    ((a.terms ≡ []) × (k ≡ []) × (got ≡ none))
    ⊎ ((t : Term) × (s : StringSet) × Among t a.terms
        × All (NoWorse token k t) a.terms
        × (got ≡ some s)
        × (lookup k t ≡ some s)
        × (satisfied token (k, s) ≡ false))

blame-Blames :
    (a : AdmittedSet) (token : Token) (c : Closest) (k : ClaimKey) (got : Option StringSet)
    → All IsMap a.terms
    → Chosen token a.terms c
    → blame c ≡ some (k, got)
    → Blames a token k got
unfolding blame
blame-Blames a token none k got m h e = inl (h, cc e, cc e)
blame-Blames a token (some ([], t)) k got m h e = cc e
blame-Blames a token (some (j ∷ js, t)) k got m h e =
    let found = failures-Failing t token (Among-IsMap t a.terms h.0 m) in
    let (s, held, fails) = (subst (All (Failing t token)) (sym h.1) found).0 in
    let same : j ≡ k = cc e in
    let taken : lookup j t ≡ got = cc e in
    inr (
      t,
      s,
      h.0,
      subst (λ x. All (NoWorse token x t) a.terms) same
          (All-map (λ u. is_closer (failures u token) (some (j ∷ js, t)) ≡ false)
            (NoWorse token j t) a.terms (λ u. not_closer-NoWorse token j js t u h.1) h.3),
      sym taken ∙ held,
      subst (λ x. lookup x t ≡ some s) same held,
      subst (λ x. satisfied token (x, s) ≡ false) same fails,
    )

-- Where each Term has a claim once and `Excludes` has an answer, the set has no Term and no claim
-- is named; or the answer is a claim of one of the Terms with its constraint, which the token does
-- not satisfy, and no Term is better: each has more claims that the token fails, or as many and none
-- of them before the one that is named.
pub excludes-Blames :
    (a : AdmittedSet) (token : Token) (k : ClaimKey) (got : Option StringSet)
    → All IsMap a.terms
    → excludes a token ≡ some (k, got)
    → Blames a token k got
unfolding excludes
excludes-Blames a token k got m e = elim (excludes_from-Ends token a.terms [] none refl) [
  | inl (found, met) ↦ cc (found, e)
  | inr (c, ended, chosen, unmet) ↦ blame-Blames a token c k got m chosen (sym ended ∙ e)
]
