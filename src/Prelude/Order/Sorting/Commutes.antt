-- ===== src/Prelude/Order/Sorting/Commutes.antt =====
-- The result of sorting does not depend on the order of the input, where a key has one element.
use mathlib.Core.Path.{◌≡◌, refl, ap, ◌∙◌, sym, ap₂}
use mathlib.Core.Logic.{inl, inr}
use mathlib.Core.List.{List, [], ◌∷◌, ◌++◌, append-nil}
use cloudarq.Prelude.Tests.{Bool-cases}
use cloudarq.Prelude.Lists.{All}
use cloudarq.Prelude.Order.{StrictOrder}
use cloudarq.Prelude.Order.Sorting.{insert, sort}
use cloudarq.Prelude.Order.Sorting.Ascending.{lt_asymm, NotAbove-Below}

module _ {ℓ κ μ} {A : Type ℓ} {K : Type κ} (o : StrictOrder K) (key : A → K) (P : A → Type μ)
    (one : (x y : A) → P x → P y → key x ≡ key y → x ≡ y) where
  -- Two elements that both stand before `l` stand in one order, whichever is put in first.
  insert_heads :
      (x y : A) (l : List A)
      → P x
      → P y
      → insert o key x l ≡ x ∷ l
      → insert o key y l ≡ y ∷ l
      → insert o key x (insert o key y l) ≡ insert o key y (insert o key x l)
  insert_heads x y l h k ex ey =
      rw (ex, ey)
        (unfold insert in
          elim (Bool-cases (o.lt (key y) (key x))) [
            | inl yx ↦ rw (yx, lt_asymm o key (key y) (key x) yx) (ap (◌∷◌ y) ex)
            | inr yx ↦ elim (Bool-cases (o.lt (key x) (key y))) [
              | inl xy ↦ rw (yx, xy) (ap (◌∷◌ x) (sym ey))
              | inr xy ↦
                  let e = one x y h k (o.lt_total (key x) (key y) xy yx) in
                  rw (yx, xy) (ap₂ (λ a b. a ∷ b ∷ l) e (sym e))
            ]
          ])

  pub insert-insert :
      (x y : A) (xs : List A)
      → P x
      → P y
      → insert o key x (insert o key y xs) ≡ insert o key y (insert o key x xs)
  unfolding insert
  insert-insert x y [] h k = insert_heads x y [] h k refl refl
  insert-insert x y (z ∷ zs) h k = elim (Bool-cases (o.lt (key z) (key y))) [
    | inl zy ↦ elim (Bool-cases (o.lt (key z) (key x))) [
      | inl zx ↦ simp (zy, zx, insert) (ap (◌∷◌ z) (insert-insert x y zs h k))
      | inr zx ↦ simp (zy, zx, insert, NotAbove-Below o key x z y zx zy)
    ]
    | inr zy ↦ elim (Bool-cases (o.lt (key z) (key x))) [
      | inl zx ↦ simp (zy, zx, insert, NotAbove-Below o key y z x zy zx)
      | inr zx ↦ insert_heads x y (z ∷ zs) h k (rw zx) (rw zy)
    ]
  ]

  sort-append_cons :
      (y : A) (xs ys : List A)
      → All P xs
      → P y
      → sort o key (xs ++ y ∷ ys) ≡ insert o key y (sort o key (xs ++ ys))
  unfolding sort
  sort-append_cons y [] ys h k = refl
  sort-append_cons y (x ∷ xs) ys h k =
      ap (insert o key x) (sort-append_cons y xs ys h.1 k)
      ∙ insert-insert x y (sort o key (xs ++ ys)) h.0 k

  pub sort-append_comm :
      (xs ys : List A) → All P xs → All P ys → sort o key (xs ++ ys) ≡ sort o key (ys ++ xs)
  unfolding sort
  sort-append_comm [] ys h k = ap (sort o key) (sym (append-nil ys))
  sort-append_comm (x ∷ xs) ys h k =
      ap (insert o key x) (sort-append_comm xs ys h.1 k) ∙ sym (sort-append_cons x ys xs k h.0)
