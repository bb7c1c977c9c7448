-- ===== src/Aws/Values/Balanced.antt =====
-- internal/parse/aws/condition.go: the balanced fold of `joinAll` says what its items say together.
use cloudarq.Prelude.{
  ℕ, zero, suc, ◌≤◌, ◌<◌, ◌≡◌, refl, ◌∙◌, Bool, false, ◌||◌, List, [], ◌∷◌, All, any, length, leb,
  arith,
}
use cloudarq.Text.Bytes.{Bytes}
use cloudarq.Eval.StringSet.{StringSet, contains}
use cloudarq.Eval.StringSet.Build.{join}
use cloudarq.Eval.StringSet.Valid.{IsValid}
use cloudarq.Eval.StringSet.Union.{join-IsUnionOf}
use cloudarq.Aws.Values.{pairs, pair_rounds, first_item, join_all}

module _ {ℓ} {A : Type ℓ} (combine : A → A → A) where
  pub length-pairs : (xs : List A) → (length (pairs combine xs) ≤ length xs)
  unfolding pairs
  length-pairs [] = omega arith
  length-pairs (x ∷ []) = omega arith
  length-pairs (x ∷ y ∷ xs) = omega (arith, length-pairs xs)

  pairs_shorter : (xs : List A) → 1 < length xs → length (pairs combine xs) < length xs
  unfolding pairs
  pairs_shorter [] l = absurd (omega arith)
  pairs_shorter (x ∷ []) l = absurd (omega arith)
  pairs_shorter (x ∷ y ∷ xs) l = omega (arith, length-pairs xs)

  pairs_nonempty : (xs : List A) → 1 ≤ length xs → 1 ≤ length (pairs combine xs)
  unfolding pairs
  pairs_nonempty [] l = l
  pairs_nonempty (x ∷ []) l = l
  pairs_nonempty (x ∷ y ∷ xs) l = omega arith

-- What holds of a combination where it holds of a side, on items that are kept in `P`.
module _ {ℓ} {A : Type ℓ} (combine : A → A → A) (P : A → Type 0) (h : A → Bool)
    (keeps : (x y : A) → P x → P y → P (combine x y))
    (says : (x y : A) → P x → P y → h (combine x y) ≡ (h x || h y)) where
  pairs-All : (xs : List A) → All P xs → All P (pairs combine xs)
  unfolding pairs
  pairs-All [] p = tt
  pairs-All (x ∷ []) p = p
  pairs-All (x ∷ y ∷ xs) p = (keeps x y p.0 p.1.0, pairs-All xs p.1.1)

  any-pairs : (xs : List A) → All P xs → any h (pairs combine xs) ≡ any h xs
  unfolding pairs
  any-pairs [] p = refl
  any-pairs (x ∷ []) p = refl
  any-pairs (x ∷ y ∷ xs) p = ground (arith, says x y p.0 p.1.0, any-pairs xs p.1.1)

  -- The rounds end with one item, which says what all items say together.
  rounds-one :
      (fuel : ℕ) (xs : List A)
      → length xs ≤ fuel
      → 1 ≤ length xs
      → All P xs
      → (x : A) × (pair_rounds combine fuel xs ≡ x ∷ []) × P x × (h x ≡ any h xs)
  unfolding pair_rounds
  rounds-one zero xs l n p = absurd (omega arith)
  rounds-one (suc fuel) [] l n p = absurd (omega arith)
  rounds-one (suc fuel) (x ∷ []) l n p = (x, refl, p.0, ground arith)
  rounds-one (suc fuel) (x ∷ y ∷ xs) l n p =
      let items : List A = x ∷ y ∷ xs in
      let many : leb (length items) 1 ≡ false = ground arith in
      let (z, e, q, s) =
        rounds-one fuel (pairs combine items)
          (omega (arith, pairs_shorter combine items (omega arith)))
          (pairs_nonempty combine items n) (pairs-All items p) in
      (z, rw many e, q, s ∙ any-pairs items p)

  pub join_all-any :
      (x : A) (xs : List A)
      → All P (x ∷ xs)
      → P (join_all combine x xs) × (h (join_all combine x xs) ≡ any h (x ∷ xs))
  unfolding join_all first_item
  join_all-any x xs p =
      let (z, e, q, s) = rounds-one (length (x ∷ xs)) (x ∷ xs) (omega arith) (omega arith) p in
      rw e (q, s)

-- `joinAll` of valid sets with `Join` contains a value exactly where some set contains it.
pub join_all-contains :
    (s : StringSet) (sets : List StringSet) (v : Bytes)
    → All IsValid (s ∷ sets)
    → contains (join_all join s sets) v ≡ any (λ t. contains t v) (s ∷ sets)
join_all-contains s sets v h =
    (join_all-any join IsValid (λ t. contains t v) (λ x y p q. (join-IsUnionOf x y p q).0)
      (λ x y p q. (join-IsUnionOf x y p q).1 v) s sets h).1
