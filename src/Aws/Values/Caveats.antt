-- ===== src/Aws/Values/Caveats.antt =====
-- internal/parse/aws/condition.go: `withCaveats` declares every caveat on the set.
use cloudarq.Prelude.{
  ℕ, zero, suc, ◌≤◌, ◌≡◌, refl, ◌∙◌, inl, inr, Bool, true, false, List, [], ◌∷◌, ◌++◌, any,
  any-append, length, leb, arith, Bool-cases,
}
use cloudarq.Eval.Admitted.{
  Caveat, AdmittedSet, nothing_admitted, with_caveat, join_admitted, caveat_order, caveat_key,
}
use cloudarq.Eval.Admitted.Normalise.{has_caveat, has_caveat-normalise, normalise_keeps_caveats}
use cloudarq.Aws.Values.{pairs, pair_rounds, first_item, join_all, carriers, with_all_caveats}
use cloudarq.Aws.Values.Balanced.{length-pairs}

-- What a combination keeps of a side, the balanced fold keeps of an item.
module _ {ℓ} {A : Type ℓ} (combine : A → A → A) (h : A → Bool)
    (left : (x y : A) → h x ≡ true → h (combine x y) ≡ true)
    (right : (x y : A) → h y ≡ true → h (combine x y) ≡ true) where
  pairs_keep : (xs : List A) → any h xs ≡ true → any h (pairs combine xs) ≡ true
  unfolding pairs
  pairs_keep [] e = e
  pairs_keep (x ∷ []) e = e
  pairs_keep (x ∷ y ∷ xs) e = elim (Bool-cases (h x)) [
    | inl p ↦ rw (left x y p) refl
    | inr p ↦ elim (Bool-cases (h y)) [
      | inl q ↦ rw (right x y q) refl
      | inr q ↦
          let later : any h (pairs combine xs) ≡ true = pairs_keep xs (rw (p, q) at e) in
          ground (arith, later)
    ]
  ]

  pair_rounds_keep :
      (fuel : ℕ) (first : A) (xs : List A)
      → length xs ≤ fuel
      → any h xs ≡ true
      → h (first_item combine first (pair_rounds combine fuel xs)) ≡ true
  unfolding pair_rounds first_item
  pair_rounds_keep fuel first [] l e = cc e
  pair_rounds_keep zero first (x ∷ xs) l e = absurd (omega arith)
  pair_rounds_keep (suc fuel) first (x ∷ []) l e = ground (arith, e)
  pair_rounds_keep (suc fuel) first (x ∷ y ∷ xs) l e =
      let items : List A = x ∷ y ∷ xs in
      let many : leb (length items) 1 ≡ false = ground arith in
      let short : length (pairs combine items) ≤ fuel =
        unfold pairs in omega (arith, length-pairs combine xs) in
      rw many (pair_rounds_keep fuel first (pairs combine items) short (pairs_keep items e))

  join_all_keeps : (x : A) (xs : List A) → any h (x ∷ xs) ≡ true → h (join_all combine x xs) ≡ true
  unfolding join_all
  join_all_keeps x xs e = pair_rounds_keep (length (x ∷ xs)) x (x ∷ xs) (omega arith) e

-- Whether a caveat is declared on a set.
abbrev declares : Caveat → AdmittedSet → Bool
declares c s = has_caveat c s.caveats

join_admitted-left :
    (c : Caveat) (a b : AdmittedSet) → declares c a ≡ true → declares c (join_admitted a b) ≡ true
unfolding join_admitted
join_admitted-left c a b e =
    normalise_keeps_caveats c _ (a.caveats ++ b.caveats) _
      (any-append _ a.caveats b.caveats ∙ (rw e refl))

join_admitted-right :
    (c : Caveat) (a b : AdmittedSet) → declares c b ≡ true → declares c (join_admitted a b) ≡ true
unfolding join_admitted
join_admitted-right c a b e =
    normalise_keeps_caveats c _ (a.caveats ++ b.caveats) _
      (any-append _ a.caveats b.caveats ∙ ground (arith, e))

carried : (c d : Caveat) → declares c (with_caveat nothing_admitted d) ≡ has_caveat c (d ∷ [])
unfolding with_caveat
carried c d = has_caveat-normalise c (d ∷ [])

any-carriers : (c : Caveat) (cs : List Caveat) → any (declares c) (carriers cs) ≡ has_caveat c cs
unfolding carriers
any-carriers c [] = refl
any-carriers c (d ∷ cs) = ground (arith, carried c d, any-carriers c cs)

-- `withCaveats` declares every caveat that it is given, and every caveat that the set declared.
pub with_all_caveats_keeps :
    (c : Caveat) (s : AdmittedSet) (cs : List Caveat)
    → has_caveat c (s.caveats ++ cs) ≡ true
    → has_caveat c (with_all_caveats s cs).caveats ≡ true
unfolding with_all_caveats
with_all_caveats_keeps c s [] e =
    ground (arith, any-append (λ d. caveat_order.eq (caveat_key d) (caveat_key c)) s.caveats [], e)
with_all_caveats_keeps c s (d ∷ cs) e = elim (Bool-cases (has_caveat c s.caveats)) [
  | inl p ↦ join_admitted-left c s _ p
  | inr p ↦
      let given : has_caveat c (d ∷ cs) ≡ true = ground (
        arith,
        any-append (λ x. caveat_order.eq (caveat_key x) (caveat_key c)) s.caveats (d ∷ cs),
        e,
        p,
      ) in
      join_admitted-right c s _ (
        join_all_keeps join_admitted (declares c) (join_admitted-left c) (join_admitted-right c)
          (with_caveat nothing_admitted d) (carriers cs) (any-carriers c (d ∷ cs) ∙ given))
]
