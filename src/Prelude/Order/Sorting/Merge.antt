-- ===== src/Prelude/Order/Sorting/Merge.antt =====
-- A merge sort, as the program writes one out, and that it is `sort`.
use Prim.Native.Nat.{ℕ, zero, suc, ◌/◌, ◌≤◌}
use mathlib.Core.Path.{◌≡◌, refl, ap, ap₂, ◌∙◌, sym}
use mathlib.Core.Bool.{true, false}
use mathlib.Core.Logic.{inl, inr}
use mathlib.Core.List.{List, [], ◌∷◌, ◌++◌}
use native.Mathlib.Omega.{arith}
use cloudarq.Prelude.Tests.{Bool-cases}
use cloudarq.Prelude.Lists.{All, All-map, length, take, drop, take-drop, length-take, length-drop}
use cloudarq.Prelude.Order.{StrictOrder}
use cloudarq.Prelude.Order.Sorting.{insert, sort}
use cloudarq.Prelude.Order.Sorting.Commutes.{insert-insert}
use cloudarq.Prelude.Order.Sorting.Ascending.{
  NotAbove, Below, IsAscending, All-insert, sort-IsAscending, NotAbove-trans, Below-NotAbove,
}

module _ {ℓ κ} {A : Type ℓ} {K : Type κ} (o : StrictOrder K) (key : A → K) where
  -- The loop that merges two halves, the left element first unless the right one is below it.
  unfoldable pub merge : List A → List A → List A
  merge [] ys = ys
  merge (x ∷ xs) [] = x ∷ xs
  merge (x ∷ xs) (y ∷ ys) = elim (o.lt (key y) (key x)) [
    | true ↦ y ∷ merge (x ∷ xs) ys
    | false ↦ x ∷ merge xs (y ∷ ys)
  ]

  -- The halves are cut at the middle; no list needs more rounds than it has elements.
  unfoldable pub merge_rounds : ℕ → List A → List A
  unfolding merge
  merge_rounds zero xs = xs
  merge_rounds (suc n) [] = []
  merge_rounds (suc n) (x ∷ []) = x ∷ []
  merge_rounds (suc n) (x ∷ y ∷ xs) =
      let middle = length (x ∷ y ∷ xs) / 2 in
      merge (merge_rounds n (take middle (x ∷ y ∷ xs))) (merge_rounds n (drop middle (x ∷ y ∷ xs)))

  unfoldable pub merge_sort : List A → List A
  unfolding merge_rounds
  merge_sort xs = merge_rounds (length xs) xs

  -- `insert` for every element of a list.
  inserts : List A → List A → List A
  inserts [] r = r
  inserts (x ∷ l) r = insert o key x (inserts l r)

  sort-append : (xs ys : List A) → sort o key (xs ++ ys) ≡ inserts xs (sort o key ys)
  unfolding sort inserts
  sort-append [] ys = refl
  sort-append (x ∷ xs) ys = ap (insert o key x) (sort-append xs ys)

  All-inserts {μ} : (P : A → Type μ) (l r : List A) → All P l → All P r → All P (inserts l r)
  unfolding inserts
  All-inserts P [] r h k = k
  All-inserts P (x ∷ l) r h k = All-insert o key P x (inserts l r) h.0 (All-inserts P l r h.1 k)

  insert_least : (x : A) (ys : List A) → All (NotAbove o key x) ys → insert o key x ys ≡ x ∷ ys
  unfolding insert
  insert_least x [] h = refl
  insert_least x (y ∷ ys) h = rw (h.0) refl

  -- Elements above the head of the right list are put in behind it.
  inserts_behind :
      (y : A) (l r : List A) → All (Below o key y) l → inserts l (y ∷ r) ≡ y ∷ inserts l r
  unfolding inserts
  inserts_behind y [] r h = refl
  inserts_behind y (x ∷ l) r h =
      ap (insert o key x) (inserts_behind y l r h.1) ∙ (unfold insert in rw (h.0) refl)

  inserts_nil : (l : List A) → IsAscending o key l → inserts l [] ≡ l
  unfolding inserts
  inserts_nil [] h = refl
  inserts_nil (x ∷ l) h = ap (insert o key x) (inserts_nil l h.1) ∙ insert_least x l h.0

  merge-inserts :
      (l r : List A) → IsAscending o key l → IsAscending o key r → merge l r ≡ inserts l r
  unfolding merge inserts
  merge-inserts [] r h k = refl
  merge-inserts (x ∷ l) [] h k = sym (inserts_nil (x ∷ l) h)
  merge-inserts (x ∷ l) (y ∷ r) h k = elim (Bool-cases (o.lt (key y) (key x))) [
    | inl e ↦
        let above : All (Below o key y) (x ∷ l) = (
          e,
          All-map (NotAbove o key x) (Below o key y) l (λ z. Below-NotAbove o key y x z e) h.0,
        ) in
        rw (merge, e)
          (ap (◌∷◌ y) (merge-inserts (x ∷ l) r h k.1) ∙ sym (inserts_behind y (x ∷ l) r above))
    | inr e ↦
        let least : All (NotAbove o key x) (y ∷ r) = (
          e,
          All-map (NotAbove o key y) (NotAbove o key x) r (λ z. NotAbove-trans o key x y z e) k.0,
        ) in
        rw (merge, e)
          (ap (◌∷◌ x) (merge-inserts l (y ∷ r) h.1 k)
            ∙ sym (
                insert_least x (inserts l (y ∷ r))
                  (All-inserts (NotAbove o key x) l (y ∷ r) h.0 least)))
  ]

  module _ (one : (x y : A) → key x ≡ key y → x ≡ y) where
    inserts-insert :
        (x : A) (l r : List A) → inserts (insert o key x l) r ≡ insert o key x (inserts l r)
    unfolding inserts insert
    inserts-insert x [] r = refl
    inserts-insert x (y ∷ l) r = elim (Bool-cases (o.lt (key y) (key x))) [
      | inl e ↦
          rw (insert, e)
            (ap (insert o key y) (inserts-insert x l r)
              ∙ insert-insert o key (λ _. Unit {0}) (λ a b _ _. one a b) y x (inserts l r) tt tt)
      | inr e ↦ rw (insert, e) refl
    ]

    inserts-sort : (l r : List A) → inserts (sort o key l) r ≡ inserts l r
    unfolding sort inserts
    inserts-sort [] r = refl
    inserts-sort (x ∷ l) r =
        inserts-insert x (sort o key l) r ∙ ap (insert o key x) (inserts-sort l r)

    merge-sort : (xs ys : List A) → merge (sort o key xs) (sort o key ys) ≡ sort o key (xs ++ ys)
    merge-sort xs ys =
        merge-inserts (sort o key xs) (sort o key ys) (sort-IsAscending o key xs)
          (sort-IsAscending o key ys)
        ∙ inserts-sort xs (sort o key ys)
        ∙ sym (sort-append xs ys)

    merge_rounds-sort : (n : ℕ) (xs : List A) → length xs ≤ n → merge_rounds n xs ≡ sort o key xs
    unfolding merge_rounds sort
    merge_rounds-sort zero [] h = refl
    merge_rounds-sort zero (x ∷ xs) h = absurd (omega arith)
    merge_rounds-sort (suc n) [] h = refl
    merge_rounds-sort (suc n) (x ∷ []) h = unfold insert in refl
    merge_rounds-sort (suc n) (x ∷ y ∷ xs) h =
        let all = x ∷ y ∷ xs in
        let middle = length all / 2 in
        let short = length-take middle all in
        let left = merge_rounds-sort n (take middle all) (omega arith) in
        let right = merge_rounds-sort n (drop middle all) (omega (arith, length-drop middle all)) in
        ap₂ merge left right
        ∙ merge-sort (take middle all) (drop middle all)
        ∙ ap (sort o key) (take-drop middle all)

    -- The merge sort sorts, in as many rounds as it is given.
    pub merge_sort-sort : (xs : List A) → merge_sort xs ≡ sort o key xs
    unfolding merge_sort
    merge_sort-sort xs = merge_rounds-sort (length xs) xs (omega arith)
