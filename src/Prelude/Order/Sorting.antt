-- ===== src/Prelude/Order/Sorting.antt =====
-- `slices.SortFunc` and `slices.CompactFunc` by a key. Where two elements have one key the
-- library leaves their order open; the lemmas that need an order ask that the elements be equal.
pub mod Ascending
pub mod Keeps
pub mod Commutes
pub mod Merge
use mathlib.Core.Bool.{Bool}
use mathlib.Core.List.{List, [], ◌∷◌}
use cloudarq.Prelude.Tests.{if◌then◌else◌}
use cloudarq.Prelude.Order.{StrictOrder}

module _ {ℓ κ} {A : Type ℓ} {K : Type κ} (o : StrictOrder K) (key : A → K) where
  unfoldable pub insert : A → List A → List A
  insert x [] = x ∷ []
  insert x (y ∷ ys) = if o.lt (key y) (key x) then y ∷ insert x ys else x ∷ y ∷ ys

  unfoldable pub sort : List A → List A
  unfolding insert
  sort [] = []
  sort (x ∷ xs) = insert x (sort xs)

  -- The elements behind `prev` that differ from the one before them.
  unfoldable pub drop_repeats : A → List A → List A
  drop_repeats prev [] = []
  drop_repeats prev (y ∷ ys) =
      let rest = drop_repeats y ys in if o.eq (key y) (key prev) then rest else y ∷ rest

  unfoldable pub compact : List A → List A
  unfolding drop_repeats
  compact [] = []
  compact (x ∷ xs) = x ∷ drop_repeats x xs

  unfoldable pub sort_compact : List A → List A
  unfolding sort compact
  sort_compact xs = compact (sort xs)
