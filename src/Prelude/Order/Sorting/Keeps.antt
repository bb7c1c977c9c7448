-- ===== src/Prelude/Order/Sorting/Keeps.antt =====
-- Sorting and compacting change no answer about some or every element, where elements with one
-- key answer alike.
use Prim.Native.Nat.{suc}
use mathlib.Core.Path.{◌≡◌, refl, ap, ◌∙◌, sym}
use mathlib.Core.Bool.{Bool, not, ◌||◌}
use mathlib.Core.Logic.{inl, inr}
use mathlib.Core.List.{List, [], ◌∷◌}
use native.Mathlib.Omega.{arith}
use cloudarq.Prelude.Tests.{Bool-cases, or-swap}
use cloudarq.Prelude.Lists.{All, any, all, length}
use cloudarq.Prelude.Order.{StrictOrder}
use cloudarq.Prelude.Order.Sorting.{insert, sort, drop_repeats, compact, sort_compact}
use cloudarq.Prelude.Order.Sorting.Ascending.{All-sort}

module _ {ℓ κ} {A : Type ℓ} {K : Type κ} (o : StrictOrder K) (key : A → K) where
  any-insert : (p : A → Bool) (x : A) (xs : List A) → any p (insert o key x xs) ≡ (p x || any p xs)
  unfolding insert
  any-insert p x [] = refl
  any-insert p x (y ∷ ys) = elim (Bool-cases (o.lt (key y) (key x))) [
    | inl e ↦ rw e (ap (λ b. p y || b) (any-insert p x ys) ∙ or-swap (p y) (p x) (any p ys))
    | inr e ↦ rw e
  ]

  pub any-sort : (p : A → Bool) (xs : List A) → any p (sort o key xs) ≡ any p xs
  unfolding sort
  any-sort p [] = refl
  any-sort p (x ∷ xs) = any-insert p x (sort o key xs) ∙ ap (λ b. p x || b) (any-sort p xs)

  all-not-any : (p : A → Bool) (xs : List A) → all p xs ≡ not (any (λ x. not (p x)) xs)
  all-not-any p [] = refl
  all-not-any p (x ∷ xs) = ground (arith, all-not-any p xs)

  -- `p` answers alike at elements of `P` with one key.
  module _ {μ} (P : A → Type μ) (p : A → Bool)
      (alike : (x y : A) → P x → P y → key x ≡ key y → p x ≡ p y) where
    any-drop_repeats :
        (x : A) (xs : List A)
        → P x
        → All P xs
        → (p x || any p (drop_repeats o key x xs)) ≡ (p x || any p xs)
    unfolding drop_repeats
    any-drop_repeats x [] h k = refl
    any-drop_repeats x (y ∷ ys) h k = elim (Bool-cases (o.eq (key y) (key x))) [
      | inl e ↦
          let same = alike y x k.0 h ((o.eq_iff (key y) (key x)).0 e) in
          rw e (ground (arith, same, any-drop_repeats y ys k.0 k.1))
      | inr e ↦ rw e (ap (λ b. p x || b) (any-drop_repeats y ys k.0 k.1))
    ]

    any-compact : (xs : List A) → All P xs → any p (compact o key xs) ≡ any p xs
    unfolding compact
    any-compact [] h = refl
    any-compact (x ∷ xs) h = any-drop_repeats x xs h.0 h.1

    pub any-sort_compact : (xs : List A) → All P xs → any p (sort_compact o key xs) ≡ any p xs
    unfolding sort_compact
    any-sort_compact xs h = any-compact (sort o key xs) (All-sort o key P xs h) ∙ any-sort p xs

  pub all-sort_compact {μ} :
      (P : A → Type μ) (p : A → Bool)
      → ((x y : A) → P x → P y → key x ≡ key y → p x ≡ p y)
      → (xs : List A) → All P xs
      → all p (sort_compact o key xs) ≡ all p xs
  all-sort_compact P p alike xs h =
      all-not-any p (sort_compact o key xs)
      ∙ ap not (any-sort_compact P (λ x. not (p x)) (λ x y a b e. ap not (alike x y a b e)) xs h)
      ∙ sym (all-not-any p xs)

  pub all-sort : (p : A → Bool) (xs : List A) → all p (sort o key xs) ≡ all p xs
  all-sort p xs =
      all-not-any p (sort o key xs) ∙ ap not (any-sort (λ x. not (p x)) xs) ∙ sym (all-not-any p xs)

  length-insert : (x : A) (xs : List A) → length (insert o key x xs) ≡ suc (length xs)
  unfolding insert
  length-insert x [] = refl
  length-insert x (y ∷ ys) = ground (arith, length-insert x ys)

  pub length-sort : (xs : List A) → length (sort o key xs) ≡ length xs
  unfolding sort
  length-sort [] = refl
  length-sort (x ∷ xs) = length-insert x (sort o key xs) ∙ ap suc (length-sort xs)
