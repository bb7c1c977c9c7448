-- ===== src/Eval/StringSet/Laws.antt =====
-- internal/eval/stringset.go: the order of the operands of a union does not show, and an
-- unevaluated constraint stays observable.
use cloudarq.Prelude.{
  ◌≡◌, refl, ap, inl, inr, true, false, ◌||◌, List, [], ◌∷◌, ◌++◌, All, arith, Bool-cases,
  All-append,
}
use cloudarq.Prelude.Order.Sorting.{sort_compact, compact}
use cloudarq.Prelude.Order.Sorting.Ascending.{All-sort_compact}
use cloudarq.Prelude.Order.Sorting.Commutes.{sort-append_comm}
use cloudarq.Text.Bytes.{Bytes, bytes_order}
use cloudarq.Eval.StringSet.{
  StringSet, empty, unknown, is_top, is_empty, as_unknown, is_unknown, render,
}
use cloudarq.Eval.StringSet.Build.{
  keep_from, union_of, new_union, terms, join_known, join_unknown, join, merge_unknown,
}
use cloudarq.Eval.StringSet.Valid.{IsTerm, IsValid}
use cloudarq.Eval.StringSet.Reads.{render-IsTerm-ShowsEnd}
use cloudarq.Eval.StringSet.Redundant.{All-keep_from}
use cloudarq.Eval.StringSet.Union.{terms-IsTerm}

merge_unknown_comm : (a b : List Bytes) → merge_unknown a b ≡ merge_unknown b a
unfolding merge_unknown sort_compact
merge_unknown_comm a b =
    ap (λ s. unknown (compact bytes_order (λ r. r) s))
      (sort-append_comm bytes_order (λ r. r) (λ _. Unit {0}) (λ x y _ _ e. e) a b (all_units a)
        (all_units b))
  where
    all_units : (xs : List Bytes) → All (λ _. Unit {0}) xs
    all_units = elim [ [] ↦ tt | x ∷ (xs → ih) ↦ (tt, ih) ]

same_term : (x y : StringSet) → IsTerm x → IsTerm y → render x ≡ render y → x ≡ y
same_term x y h k e = (render-IsTerm-ShowsEnd x y [] [] h k (ap (λ t. t ++ []) e)).0

new_union_comm :
    (xs ys : List StringSet)
    → All IsTerm xs
    → All IsTerm ys
    → new_union (xs ++ ys) ≡ new_union (ys ++ xs)
unfolding new_union sort_compact
new_union_comm xs ys h k =
    ap
      (λ s. let distinct = compact bytes_order render s in union_of (keep_from distinct 0 distinct))
      (sort-append_comm bytes_order render IsTerm same_term xs ys h k)

empty_only : (a : StringSet) → is_empty a ≡ true → a ≡ empty
unfolding is_empty
empty_only empty h = refl
empty_only a h = cc

join_known_comm : (a b : StringSet) → IsValid a → IsValid b → join_known a b ≡ join_known b a
unfolding join_known
join_known_comm a b h k = elim (Bool-cases (is_top a)) [
  | inl t ↦ ground arith
  | inr t ↦ elim (Bool-cases (is_top b)) [
    | inl u ↦ ground arith
    | inr u ↦ elim (Bool-cases (is_empty a)) [
      | inl e ↦ ground (arith, empty_only a e, empty_only b)
      | inr e ↦ elim (Bool-cases (is_empty b)) [
        | inl f ↦ ground (arith, empty_only b f)
        | inr f ↦
            let same =
              new_union_comm (terms a) (terms b) (terms-IsTerm a h t e).0
                (terms-IsTerm b k u f).0 in
            ground arith
      ]
    ]
  ]
]

-- `Join` gives one and the same set, whichever of two valid sets comes first.
pub join_comm : (a b : StringSet) → IsValid a → IsValid b → join a b ≡ join b a
unfolding join join_unknown as_unknown
join_comm (unknown rs) (unknown qs) h k = merge_unknown_comm rs qs
join_comm (unknown rs) b h k = ground arith
join_comm a (unknown qs) h k = ground arith
join_comm a b h k = join_known_comm a b h k

-- A term is never Unknown, and no union of terms is.
abbrev pub IsKnown : StringSet → Type 0
IsKnown s = is_unknown s ≡ false

term-IsKnown : (s : StringSet) → IsTerm s → IsKnown s
unfolding is_unknown
term-IsKnown (unknown rs) h = absurd h
term-IsKnown s h = refl

union_of-IsKnown : (ms : List StringSet) → All IsTerm ms → IsKnown (union_of ms)
unfolding union_of is_unknown
union_of-IsKnown [] h = refl
union_of-IsKnown (m ∷ []) h = term-IsKnown m h.0
union_of-IsKnown (m ∷ m' ∷ ms) h = refl

new_union-IsKnown : (ms : List StringSet) → All IsTerm ms → IsKnown (new_union ms)
unfolding new_union
new_union-IsKnown ms h =
    let distinct : List StringSet = sort_compact bytes_order render ms in
    union_of-IsKnown (keep_from distinct 0 distinct)
      (All-keep_from IsTerm distinct 0 distinct (All-sort_compact bytes_order render IsTerm ms h))

pub join_known-IsKnown :
    (a b : StringSet) → IsValid a → IsValid b → IsKnown a → IsKnown b → IsKnown (join_known a b)
unfolding join_known
join_known-IsKnown a b h k x y = elim (Bool-cases (is_top a)) [
  | inl t ↦ rw t (unfold is_unknown in refl)
  | inr t ↦ elim (Bool-cases (is_top b)) [
    | inl u ↦ rw (t, u) (unfold is_unknown in refl)
    | inr u ↦ elim (Bool-cases (is_empty a)) [
      | inl e ↦ rw (t, u, e) y
      | inr e ↦ elim (Bool-cases (is_empty b)) [
        | inl f ↦ rw (t, u, e, f) x
        | inr f ↦
            rw (t, u, e, f)
              (new_union-IsKnown (terms a ++ terms b) (
                All-append IsTerm (terms a) (terms b) (terms-IsTerm a h t e).0
                  (terms-IsTerm b k u f).0))
      ]
    ]
  ]
]

-- A union of two valid sets is Unknown exactly if one of them is.
pub is_unknown-join :
    (a b : StringSet)
    → IsValid a
    → IsValid b
    → is_unknown (join a b) ≡ (is_unknown a || is_unknown b)
unfolding join join_unknown as_unknown is_unknown merge_unknown
is_unknown-join (unknown rs) (unknown qs) h k = refl
is_unknown-join (unknown rs) b h k = refl
is_unknown-join a (unknown qs) h k = ground arith
is_unknown-join a b h k = join_known-IsKnown a b h k refl refl
