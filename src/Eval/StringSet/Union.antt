-- ===== src/Eval/StringSet/Union.antt =====
-- internal/eval/stringset.go: what `join` contains, and that it is canonical.
use cloudarq.Prelude.{
  ◌≤◌, ◌≡◌, refl, ap, ◌∙◌, sym, inl, inr, Bool, true, false, ◌||◌, List, [], ◌∷◌, ◌++◌, All, any,
  length, arith, Bool-cases, ap₂, length-append, All-append, any-append, subst,
}
use cloudarq.Prelude.Order.Sorting.{sort_compact}
use cloudarq.Prelude.Order.Sorting.Ascending.{
  IsStrict, All-sort_compact, sort_compact-IsStrict, sort_compact_nonempty,
}
use cloudarq.Prelude.Order.Sorting.Keeps.{any-sort_compact}
use cloudarq.Text.Bytes.{Bytes, bytes_order, bytes_eq_self, IsBytes}
use cloudarq.Eval.StringSet.{
  StringSet, exact, of_glob, full, empty, unknown, union, inter, Members, no_members, member,
  list_of, members_of, contains, some_contains, render, is_top, is_empty, as_unknown,
}
use cloudarq.Eval.StringSet.Build.{
  keep_from, union_of, new_union, terms, join_known, join_unknown, join, merge_unknown,
  is_redundant, as_exact,
}
use cloudarq.Eval.StringSet.Valid.{IsTerm, IsTerm→IsValid, IsValid, IsMembers, IsReasons}
use cloudarq.Eval.StringSet.Reads.{render-IsTerm-ShowsEnd}
use cloudarq.Eval.StringSet.Redundant.{any-keep_from, All-keep_from, keep_from-IsStrict}

pub term_alike :
    (v : Bytes) (x y : StringSet)
    → IsTerm x
    → IsTerm y
    → render x ≡ render y
    → contains x v ≡ contains y v
term_alike v x y h k e =
    ap (λ s. contains s v) (render-IsTerm-ShowsEnd x y [] [] h k (ap (λ t. t ++ []) e)).0

pub some_contains-any :
    (ms : Members) (v : Bytes) → some_contains ms v ≡ any (λ m. contains m v) (list_of ms)
unfolding some_contains list_of
some_contains-any no_members v = refl
some_contains-any (member s ms) v = ap (λ b. contains s v || b) (some_contains-any ms v)

list_of-members_of : (ss : List StringSet) → list_of (members_of ss) ≡ ss
unfolding list_of members_of
list_of-members_of [] = refl
list_of-members_of (s ∷ ss) = ap (◌∷◌ s) (list_of-members_of ss)

contains-union_of :
    (ms : List StringSet) (v : Bytes) → contains (union_of ms) v ≡ any (λ m. contains m v) ms
unfolding union_of contains members_of
contains-union_of [] v = refl
contains-union_of (m ∷ []) v = ground arith
contains-union_of (m ∷ n ∷ ms) v =
    some_contains-any (members_of (m ∷ n ∷ ms)) v
    ∙ ap (any (λ s. contains s v)) (list_of-members_of (m ∷ n ∷ ms))

union_of-IsValid :
    (ms : List StringSet)
    → All IsTerm ms
    → IsStrict bytes_order render ms
    → 1 ≤ length ms
    → IsValid (union_of ms)
unfolding union_of
union_of-IsValid [] h k n = absurd (omega arith)
union_of-IsValid (m ∷ []) h k n = IsTerm→IsValid m h.0
union_of-IsValid (m ∷ m' ∷ ms) h k n =
    subst IsMembers (sym (list_of-members_of (m ∷ m' ∷ ms))) (h, k, omega arith)

module _ (ms : List StringSet) (h : All IsTerm ms) where
  -- `newUnion` contains what some of its terms contains.
  pub contains-new_union : (v : Bytes) → contains (new_union ms) v ≡ any (λ m. contains m v) ms
  unfolding new_union
  contains-new_union v =
      let distinct : List StringSet = sort_compact bytes_order render ms in
      contains-union_of (keep_from distinct 0 distinct) v
      ∙ any-keep_from v distinct (sort_compact-IsStrict bytes_order render ms)
      ∙ any-sort_compact bytes_order render IsTerm (λ m. contains m v) (term_alike v) ms h

some_length {ℓ} : {A : Type ℓ} (p : A → Bool) (xs : List A) → any p xs ≡ true → 1 ≤ length xs
some_length p [] h = ground arith
some_length p (x ∷ xs) h = omega arith

contains_own : (w : Bytes) (ms : List StringSet) → any (λ m. contains m w) (exact w ∷ ms) ≡ true
unfolding contains
contains_own w ms = rw (bytes_eq_self w)

-- One term is kept at least.
some_kept :
    (members : List StringSet)
    → IsStrict bytes_order render members
    → 1 ≤ length members
    → 1 ≤ length (keep_from members 0 members)
some_kept [] h n = absurd (omega arith)
some_kept (exact w ∷ ms) h n =
    some_length (λ m. contains m w) (keep_from (exact w ∷ ms) 0 (exact w ∷ ms))
      (any-keep_from w (exact w ∷ ms) h ∙ contains_own w ms)
some_kept (m ∷ ms) h n = unfold keep_from is_redundant as_exact in omega arith

new_union-IsValid : (ms : List StringSet) → All IsTerm ms → 1 ≤ length ms → IsValid (new_union ms)
unfolding new_union
new_union-IsValid ms h n =
    let distinct : List StringSet = sort_compact bytes_order render ms in
    let strict = sort_compact-IsStrict bytes_order render ms in
    union_of-IsValid (keep_from distinct 0 distinct)
      (All-keep_from IsTerm distinct 0 distinct (All-sort_compact bytes_order render IsTerm ms h))
      (keep_from-IsStrict distinct 0 distinct strict)
      (some_kept distinct strict (sort_compact_nonempty bytes_order render ms n))

pub terms-IsTerm :
    (s : StringSet)
    → IsValid s
    → is_top s ≡ false
    → is_empty s ≡ false
    → All IsTerm (terms s) × (1 ≤ length (terms s))
unfolding terms is_top is_empty
terms-IsTerm (exact v) h t e = ((h, tt), omega arith)
terms-IsTerm (of_glob g) h t e = ((h, tt), omega arith)
terms-IsTerm (inter gs) h t e = ((h, tt), omega arith)
terms-IsTerm (union ms) h t e = (h.0, omega arith)
terms-IsTerm full h t e = cc
terms-IsTerm (unknown rs) h t e = cc
terms-IsTerm empty h t e = cc

pub any-terms : (s : StringSet) (v : Bytes) → any (λ m. contains m v) (terms s) ≡ contains s v
unfolding terms contains
any-terms (union ms) v = sym (some_contains-any ms v)
any-terms (exact w) v = ground arith
any-terms (of_glob g) v = ground arith
any-terms (inter gs) v = ground arith
any-terms full v = ground arith
any-terms (unknown rs) v = ground arith
any-terms empty v = ground arith

pub merge_unknown-IsValid :
    (a b : List Bytes) → IsReasons a → IsReasons b → IsValid (merge_unknown a b)
unfolding merge_unknown
merge_unknown-IsValid a b h k =
    let both = All-append IsBytes a b h.0 k.0 in
    (
      All-sort_compact bytes_order (λ r. r) IsBytes (a ++ b) both,
      sort_compact-IsStrict bytes_order (λ r. r) (a ++ b),
      sort_compact_nonempty bytes_order (λ r. r) (a ++ b) (omega (arith, length-append a b)),
    )

-- What a union must be, of two sets.
abbrev pub IsUnionOf : StringSet → StringSet → StringSet → Type 0
IsUnionOf c a b = IsValid c × ((v : Bytes) → contains c v ≡ (contains a v || contains b v))

new_union-IsUnionOf :
    (a b : StringSet)
    → All IsTerm (terms a) × (1 ≤ length (terms a))
    → All IsTerm (terms b)
    → IsUnionOf (new_union (terms a ++ terms b)) a b
new_union-IsUnionOf a b (h, n) k =
    let both = All-append IsTerm (terms a) (terms b) h k in
    (
      new_union-IsValid (terms a ++ terms b) both
          (omega (arith, length-append (terms a) (terms b))),
      λ v.
          contains-new_union (terms a ++ terms b) both v
          ∙ any-append (λ m. contains m v) (terms a) (terms b)
          ∙ ap₂ ◌||◌ (any-terms a v) (any-terms b v),
    )

pub top_contains : (s : StringSet) → is_top s ≡ true → (v : Bytes) → contains s v ≡ true
unfolding is_top contains
top_contains full h v = refl
top_contains (unknown rs) h v = refl
top_contains (exact w) h v = cc
top_contains (of_glob g) h v = cc
top_contains (inter gs) h v = cc
top_contains (union ms) h v = cc
top_contains empty h v = cc

pub empty_contains : (s : StringSet) → is_empty s ≡ true → (v : Bytes) → contains s v ≡ false
unfolding is_empty contains
empty_contains empty h v = refl
empty_contains full h v = cc
empty_contains (unknown rs) h v = cc
empty_contains (exact w) h v = cc
empty_contains (of_glob g) h v = cc
empty_contains (inter gs) h v = cc
empty_contains (union ms) h v = cc

join_known-IsUnionOf : (a b : StringSet) → IsValid a → IsValid b → IsUnionOf (join_known a b) a b
unfolding join_known contains
join_known-IsUnionOf a b h k = elim (Bool-cases (is_top a)) [
  | inl t ↦ rw t (tt, λ v. ground (arith, top_contains a t v))
  | inr t ↦ elim (Bool-cases (is_top b)) [
    | inl u ↦ rw (t, u) (tt, λ v. ground (arith, top_contains b u v))
    | inr u ↦ elim (Bool-cases (is_empty a)) [
      | inl e ↦ rw (t, u, e) (k, λ v. ground (arith, empty_contains a e v))
      | inr e ↦ elim (Bool-cases (is_empty b)) [
        | inl f ↦ rw (t, u, e, f) (h, λ v. ground (arith, empty_contains b f v))
        | inr f ↦
            rw (t, u, e, f)
              (new_union-IsUnionOf a b (terms-IsTerm a h t e) (terms-IsTerm b k u f).0)
      ]
    ]
  ]
]

-- The union of two valid sets is valid, and contains exactly what one or the other contains.
pub join-IsUnionOf : (a b : StringSet) → IsValid a → IsValid b → IsUnionOf (join a b) a b
unfolding join join_unknown as_unknown contains merge_unknown
join-IsUnionOf (unknown rs) (unknown qs) h k = (merge_unknown-IsValid rs qs h k, λ v. refl)
join-IsUnionOf (unknown rs) b h k = (h, λ v. refl)
join-IsUnionOf a (unknown qs) h k = (k, λ v. ground arith)
join-IsUnionOf a b h k = join_known-IsUnionOf a b h k
