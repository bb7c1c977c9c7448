-- ===== src/Prelude/Order/Sorting/Ascending.antt =====
-- Sorting gives an ascending list, and compacting that a strictly ascending one.
use Prim.Native.Nat.{◌≤◌}
use mathlib.Core.Path.{◌≡◌}
use mathlib.Core.Bool.{true, false}
use mathlib.Core.Logic.{inl, inr}
use mathlib.Core.List.{List, [], ◌∷◌}
use native.Mathlib.Omega.{arith}
use cloudarq.Prelude.Tests.{Bool-cases}
use cloudarq.Prelude.Lists.{All, All-map, length}
use cloudarq.Prelude.Order.{StrictOrder}
use cloudarq.Prelude.Order.Sorting.{insert, sort, drop_repeats, compact, sort_compact}

module _ {ℓ κ} {A : Type ℓ} {K : Type κ} (o : StrictOrder K) (key : A → K) where
  abbrev pub Below : A → A → Type 0
  Below x y = o.lt (key x) (key y) ≡ true

  abbrev pub NotAbove : A → A → Type 0
  NotAbove x y = o.lt (key y) (key x) ≡ false

  abbrev pub IsAscending : List A → Type 0
  IsAscending [] = Unit
  IsAscending (x ∷ xs) = All (NotAbove x) xs × IsAscending xs

  abbrev pub IsStrict : List A → Type 0
  IsStrict [] = Unit
  IsStrict (x ∷ xs) = All (Below x) xs × IsStrict xs

  pub lt_asymm : (a b : K) → o.lt a b ≡ true → o.lt b a ≡ false
  lt_asymm a b h = elim (Bool-cases (o.lt b a)) [
    | inl k ↦ ground (arith, o.lt_trans a b a h k, o.lt_irrefl a)
    | inr k ↦ k
  ]

  pub NotAbove-trans : (x y z : A) → NotAbove x y → NotAbove y z → NotAbove x z
  NotAbove-trans x y z h k = elim (Bool-cases (o.lt (key z) (key x))) [
    | inr e ↦ e
    | inl e ↦ elim (Bool-cases (o.lt (key x) (key y))) [
      | inl f ↦ ground (arith, o.lt_trans (key z) (key x) (key y) e f)
      | inr f ↦ ground (arith, o.lt_total (key x) (key y) f h)
    ]
  ]

  pub All-insert {μ} :
      (P : A → Type μ) (x : A) (xs : List A) → P x → All P xs → All P (insert o key x xs)
  unfolding insert
  All-insert P x [] p h = (p, tt)
  All-insert P x (y ∷ ys) p h = elim (Bool-cases (o.lt (key y) (key x))) [
    | inl e ↦ rw e (h.0, All-insert P x ys p h.1)
    | inr e ↦ rw e (p, h)
  ]

  pub All-sort {μ} : (P : A → Type μ) (xs : List A) → All P xs → All P (sort o key xs)
  unfolding sort
  All-sort P [] h = tt
  All-sort P (x ∷ xs) h = All-insert P x (sort o key xs) h.0 (All-sort P xs h.1)

  insert-IsAscending : (x : A) (xs : List A) → IsAscending xs → IsAscending (insert o key x xs)
  unfolding insert
  insert-IsAscending x [] h = (tt, tt)
  insert-IsAscending x (y ∷ ys) h = elim (Bool-cases (o.lt (key y) (key x))) [
    | inl e ↦
        rw e (
          All-insert (NotAbove y) x ys (lt_asymm (key y) (key x) e) h.0,
          insert-IsAscending x ys h.1,
        )
    | inr e ↦ rw e ((e, All-map (NotAbove y) (NotAbove x) ys (λ z. NotAbove-trans x y z e) h.0), h)
  ]

  pub sort-IsAscending : (xs : List A) → IsAscending (sort o key xs)
  unfolding sort
  sort-IsAscending [] = tt
  sort-IsAscending (x ∷ xs) = insert-IsAscending x (sort o key xs) (sort-IsAscending xs)

  pub All-drop_repeats {μ} :
      (P : A → Type μ) (x : A) (xs : List A) → All P xs → All P (drop_repeats o key x xs)
  unfolding drop_repeats
  All-drop_repeats P x [] h = tt
  All-drop_repeats P x (y ∷ ys) h = elim (Bool-cases (o.eq (key y) (key x))) [
    | inl e ↦ rw e (All-drop_repeats P y ys h.1)
    | inr e ↦ rw e (h.0, All-drop_repeats P y ys h.1)
  ]

  pub All-compact {μ} : (P : A → Type μ) (xs : List A) → All P xs → All P (compact o key xs)
  unfolding compact
  All-compact P [] h = tt
  All-compact P (x ∷ xs) h = (h.0, All-drop_repeats P x xs h.1)

  pub All-sort_compact {μ} :
      (P : A → Type μ) (xs : List A) → All P xs → All P (sort_compact o key xs)
  unfolding sort_compact
  All-sort_compact P xs h = All-compact P (sort o key xs) (All-sort P xs h)

  -- What is not above `x` and is not at it is below it, and so is what follows in order.
  strictly_above : (x y : A) → NotAbove x y → o.eq (key y) (key x) ≡ false → Below x y
  strictly_above x y h n = elim (Bool-cases (o.lt (key x) (key y))) [
    | inl e ↦ e
    | inr e ↦ ground (arith, o.eq_iff (key y) (key x), o.lt_total (key x) (key y) e h)
  ]

  pub Below-NotAbove : (x y z : A) → Below x y → NotAbove y z → Below x z
  Below-NotAbove x y z h k = elim (Bool-cases (o.lt (key y) (key z))) [
    | inl e ↦ o.lt_trans (key x) (key y) (key z) h e
    | inr e ↦ ground (arith, o.lt_total (key y) (key z) e k)
  ]

  pub NotAbove-Below : (x y z : A) → NotAbove x y → Below y z → Below x z
  NotAbove-Below x y z h k = elim (Bool-cases (o.lt (key x) (key y))) [
    | inl e ↦ o.lt_trans (key x) (key y) (key z) e k
    | inr e ↦ ground (arith, o.lt_total (key x) (key y) e h)
  ]

  drop_repeats-IsStrict :
      (x : A) (xs : List A)
      → IsAscending (x ∷ xs)
      → All (Below x) (drop_repeats o key x xs) × IsStrict (drop_repeats o key x xs)
  unfolding drop_repeats
  drop_repeats-IsStrict x [] h = (tt, tt)
  drop_repeats-IsStrict x (y ∷ ys) h =
      let (above, rest) = drop_repeats-IsStrict y ys h.1 in
      elim (Bool-cases (o.eq (key y) (key x))) [
        | inl e ↦ rw e (
          All-map (Below y) (Below x) (drop_repeats o key y ys)
              (λ z b. ground (arith, (o.eq_iff (key y) (key x)).0 e)) above,
          rest,
        )
        | inr e ↦
            let b = strictly_above x y h.0.0 e in
            rw e (
              (
                b,
                All-drop_repeats (Below x) y ys
                    (All-map (NotAbove y) (Below x) ys (λ z. Below-NotAbove x y z b) h.1.0),
              ),
              (above, rest),
            )
      ]

  compact-IsStrict : (xs : List A) → IsAscending xs → IsStrict (compact o key xs)
  unfolding compact
  compact-IsStrict [] h = tt
  compact-IsStrict (x ∷ xs) h = drop_repeats-IsStrict x xs h

  pub sort_compact-IsStrict : (xs : List A) → IsStrict (sort_compact o key xs)
  unfolding sort_compact
  sort_compact-IsStrict xs = compact-IsStrict (sort o key xs) (sort-IsAscending xs)

  insert_nonempty : (x : A) (xs : List A) → 1 ≤ length (insert o key x xs)
  unfolding insert
  insert_nonempty x [] = omega arith
  insert_nonempty x (y ∷ ys) = ground arith

  compact_nonempty : (xs : List A) → 1 ≤ length xs → 1 ≤ length (compact o key xs)
  unfolding compact
  compact_nonempty [] h = h
  compact_nonempty (x ∷ xs) h = omega arith

  pub sort_compact_nonempty : (xs : List A) → 1 ≤ length xs → 1 ≤ length (sort_compact o key xs)
  unfolding sort_compact sort
  sort_compact_nonempty [] h = absurd (omega arith)
  sort_compact_nonempty (x ∷ xs) h =
      compact_nonempty (insert o key x (sort o key xs)) (insert_nonempty x (sort o key xs))
