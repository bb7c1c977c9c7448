-- ===== src/Eval/StringSet/Meet.antt =====
-- internal/eval/stringset.go: `meet` never panics on sets of the package, is canonical, and
-- contains what both sets contain.
use cloudarq.Prelude.{
  ◌≤◌, ◌≡◌, refl, ap, ap₂, ◌∙◌, sym, inl, inr, Bool, true, false, ◌||◌, ◌&&◌, List, [], ◌∷◌, ◌++◌,
  All, any, all, length, arith, Option, some, none, Bool-cases, All-append, all-append,
  length-append, subst,
}
use cloudarq.Prelude.Order.Sorting.{sort_compact}
use cloudarq.Prelude.Order.Sorting.Ascending.{
  IsStrict, All-sort_compact, sort_compact-IsStrict, sort_compact_nonempty,
}
use cloudarq.Prelude.Order.Sorting.Keeps.{all-sort_compact}
use cloudarq.Text.Bytes.{Bytes, bytes_order, bytes_eq, bytes_eq_iff, IsBytes}
use cloudarq.Eval.Glob.{Glob, glob_node, glob_contains}
use cloudarq.Eval.StringSet.{
  StringSet, exact, of_glob, full, empty, unknown, union, inter, contains, is_top, is_empty,
  as_unknown,
}
use cloudarq.Eval.StringSet.Build.{
  new_inter, inter_of, globs_of, as_exact, meet_exact, meet_globs, meet_by_exact, meet_terms,
  meet_row, meet_rows, meet_known, meet_by_unknown, meet, meet_unknown, terms, join, merge_unknown,
}
use cloudarq.Eval.StringSet.Valid.{IsGlob, IsTerm, IsTerm→IsValid, IsValid}
use cloudarq.Eval.StringSet.Union.{
  join-IsUnionOf, terms-IsTerm, any-terms, top_contains, empty_contains, merge_unknown-IsValid,
}

glob_alike :
    (v : Bytes) (g h : Glob)
    → IsGlob g
    → IsGlob h
    → g.pattern ≡ h.pattern
    → glob_contains g v ≡ glob_contains h v
glob_alike v g h p q e = ap (λ x. glob_contains x v) (p.1 ∙ ap glob_node e ∙ sym q.1)

inter_of-IsTerm :
    (gs : List Glob)
    → All IsGlob gs
    → IsStrict bytes_order (λ g. g.pattern) gs
    → 1 ≤ length gs
    → IsTerm (inter_of gs)
unfolding inter_of
inter_of-IsTerm [] h k n = absurd (omega arith)
inter_of-IsTerm (g ∷ []) h k n = h.0
inter_of-IsTerm (g ∷ g' ∷ gs) h k n = (h, k, omega arith)

contains-inter_of :
    (gs : List Glob) (v : Bytes) → contains (inter_of gs) v ≡ all (λ g. glob_contains g v) gs
unfolding inter_of contains
contains-inter_of [] v = refl
contains-inter_of (g ∷ []) v = ground arith
contains-inter_of (g ∷ g' ∷ gs) v = refl

-- What an intersection must be, of two sets.
abbrev pub IsMeetOf : StringSet → StringSet → StringSet → Type 0
IsMeetOf c a b = IsValid c × ((v : Bytes) → contains c v ≡ (contains a v && contains b v))

-- The run does not panic, and returns the intersection.
abbrev pub MeetsTo : Option StringSet → StringSet → StringSet → Type 0
MeetsTo o a b = (c : StringSet) × (o ≡ some c) × IsMeetOf c a b

-- The patterns of a term that is no exact value.
globs_of_total :
    (s : StringSet)
    → IsTerm s
    → as_exact s ≡ none
    → (gs : List Glob) × (globs_of s ≡ some gs)
      × All IsGlob gs
      × (1 ≤ length gs)
      × ((v : Bytes) → all (λ g. glob_contains g v) gs ≡ contains s v)
unfolding globs_of as_exact contains
globs_of_total (exact w) h e = absurd (ground arith)
globs_of_total (of_glob g) h e = (g ∷ [], refl, (h, tt), omega arith, λ v. ground arith)
globs_of_total (inter gs) h e = (gs, refl, h.0, omega arith, λ v. refl)
globs_of_total (union ms) h e = absurd h
globs_of_total full h e = absurd h
globs_of_total empty h e = absurd h
globs_of_total (unknown rs) h e = absurd h

meet_globs-MeetsTo :
    (s t : StringSet)
    → IsTerm s
    → IsTerm t
    → as_exact s ≡ none
    → as_exact t ≡ none
    → MeetsTo (meet_globs s t) s t
unfolding meet_globs new_inter
meet_globs-MeetsTo s t h k e f =
    let (gs, es, hs, ns, cs) = globs_of_total s h e in
    let (ks, et, ht, nt, ct) = globs_of_total t k f in
    let globs : List Glob = gs ++ ks in
    let both = All-append IsGlob gs ks hs ht in
    let sorted : List Glob = sort_compact bytes_order (λ g. g.pattern) globs in
    (
      inter_of sorted,
      rw (es, et) refl,
      (
        IsTerm→IsValid (inter_of sorted) (
            inter_of-IsTerm sorted (All-sort_compact bytes_order (λ g. g.pattern) IsGlob globs both)
              (sort_compact-IsStrict bytes_order (λ g. g.pattern) globs)
              (sort_compact_nonempty bytes_order (λ g. g.pattern) globs
                (omega (arith, length-append gs ks)))),
        λ v.
            contains-inter_of sorted v
            ∙ all-sort_compact bytes_order (λ g. g.pattern) IsGlob (λ g. glob_contains g v)
                (glob_alike v) globs both
            ∙ all-append (λ g. glob_contains g v) gs ks
            ∙ ap₂ ◌&&◌ (cs v) (ct v),
      ),
    )

meet_exact-IsMeetOf :
    (w : Bytes) (o : StringSet) → IsBytes w → IsMeetOf (meet_exact w o) (exact w) o
unfolding meet_exact contains
meet_exact-IsMeetOf w o h = elim (Bool-cases (contains o w)) [
  | inl c ↦ rw c (
    h,
    λ v. elim (Bool-cases (bytes_eq v w)) [
      | inl e ↦
          let same : v ≡ w = (bytes_eq_iff v w).0 e in
          let c' = subst (λ u. contains o u ≡ true) (sym same) c in ground arith
      | inr e ↦ ground arith
    ],
  )
  | inr c ↦ rw c (
    tt,
    λ v. elim (Bool-cases (bytes_eq v w)) [
      | inl e ↦
          let same : v ≡ w = (bytes_eq_iff v w).0 e in
          let c' = subst (λ u. contains o u ≡ false) (sym same) c in ground arith
      | inr e ↦ ground arith
    ],
  )
]

IsMeetOf-comm : (c a b : StringSet) → IsMeetOf c a b → IsMeetOf c b a
IsMeetOf-comm c a b (h, f) = (h, λ v. let e = f v in ground arith)

-- Two terms meet without a panic.
pub meet_terms-MeetsTo : (s t : StringSet) → IsTerm s → IsTerm t → MeetsTo (meet_terms s t) s t
unfolding meet_terms as_exact meet_by_exact
meet_terms-MeetsTo (exact w) t h k = (meet_exact w t, refl, meet_exact-IsMeetOf w t h)
meet_terms-MeetsTo s (exact w) h k =
    (meet_exact w s, refl, IsMeetOf-comm (meet_exact w s) (exact w) s (meet_exact-IsMeetOf w s k))
meet_terms-MeetsTo s t h k = meet_globs-MeetsTo s t h k refl refl

-- The loops of `meet`: to `out` is added what the remaining pairs have in common.
abbrev Adds : Option StringSet → StringSet → (Bytes → Bool) → Type 0
Adds o out more =
    (r : StringSet) × (o ≡ some r)
    × IsValid r
    × ((v : Bytes) → contains r v ≡ (contains out v || more v))

meet_row-Adds :
    (s : StringSet) (ts : List StringSet) (out : StringSet)
    → IsTerm s
    → All IsTerm ts
    → IsValid out
    → Adds (meet_row s ts out) out (λ v. contains s v && any (λ t. contains t v) ts)
unfolding meet_row
meet_row-Adds s [] out h k o = (out, refl, o, λ v. ground arith)
meet_row-Adds s (t ∷ ts) out h k o =
    let (m, em, (hm, cm)) = meet_terms-MeetsTo s t h k.0 in
    let (hj, cj) = join-IsUnionOf out m o hm in
    let (r, er, hr, cr) = meet_row-Adds s ts (join out m) h k.1 hj in
    (r, rw em er, hr, λ v. ground (arith, cm v, cj v, cr v))

meet_rows-Adds :
    (ss ts : List StringSet) (out : StringSet)
    → All IsTerm ss
    → All IsTerm ts
    → IsValid out
    → Adds (meet_rows ss ts out) out (λ v. any (λ s. contains s v) ss && any (λ t. contains t v) ts)
unfolding meet_rows
meet_rows-Adds [] ts out h k o = (out, refl, o, λ v. ground arith)
meet_rows-Adds (s ∷ ss) ts out h k o =
    let (next, en, hn, cn) = meet_row-Adds s ts out h.0 k o in
    let (r, er, hr, cr) = meet_rows-Adds ss ts next h.1 k hn in
    (r, rw en er, hr, λ v. ground (arith, cn v, cr v))

meet_rows-MeetsTo :
    (a b : StringSet)
    → All IsTerm (terms a)
    → All IsTerm (terms b)
    → MeetsTo (meet_rows (terms a) (terms b) empty) a b
unfolding contains
meet_rows-MeetsTo a b h k =
    let (r, er, hr, cr) = meet_rows-Adds (terms a) (terms b) empty h k tt in
    (r, er, (hr, λ v. cr v ∙ ap₂ ◌&&◌ (any-terms a v) (any-terms b v)))

meet_known-MeetsTo :
    (a b : StringSet)
    → IsValid a
    → IsValid b
    → is_empty a ≡ false
    → is_empty b ≡ false
    → MeetsTo (meet_known a b) a b
unfolding meet_known
meet_known-MeetsTo a b h k e f = elim (Bool-cases (is_top a)) [
  | inl t ↦ rw t (b, refl, (k, λ v. ground (arith, top_contains a t v)))
  | inr t ↦ elim (Bool-cases (is_top b)) [
    | inl u ↦ rw (t, u) (a, refl, (h, λ v. ground (arith, top_contains b u v)))
    | inr u ↦ rw (t, u) (meet_rows-MeetsTo a b (terms-IsTerm a h t e).0 (terms-IsTerm b k u f).0)
  ]
]

-- An Unknown that meets a set: the set, or the Unknown if nothing narrows.
meet_unknown-IsMeetOf :
    (rs : List Bytes) (x : StringSet)
    → IsValid (unknown rs)
    → IsValid x
    → IsMeetOf (meet_unknown rs x) (unknown rs) x
unfolding meet_unknown contains
meet_unknown-IsMeetOf rs x h k = elim (Bool-cases (is_top x)) [
  | inl t ↦ rw t (h, λ v. ground (arith, top_contains x t v))
  | inr t ↦ rw t (k, λ v. refl)
]

meet_nonempty-MeetsTo :
    (a b : StringSet)
    → IsValid a
    → IsValid b
    → is_empty a ≡ false
    → is_empty b ≡ false
    → MeetsTo (meet_by_unknown (as_unknown a) (as_unknown b) a b) a b
unfolding meet_by_unknown as_unknown contains
meet_nonempty-MeetsTo (unknown rs) (unknown qs) h k e f = (
  merge_unknown rs qs,
  refl,
  (merge_unknown-IsValid rs qs h k, λ v. unfold merge_unknown in refl),
)
meet_nonempty-MeetsTo (unknown rs) b h k e f =
    (meet_unknown rs b, refl, meet_unknown-IsMeetOf rs b h k)
meet_nonempty-MeetsTo a (unknown qs) h k e f = (
  meet_unknown qs a,
  refl,
  IsMeetOf-comm (meet_unknown qs a) (unknown qs) a (meet_unknown-IsMeetOf qs a k h),
)
meet_nonempty-MeetsTo a b h k e f = meet_known-MeetsTo a b h k e f

-- The intersection of two valid sets never panics, is valid, and contains exactly what both
-- contain.
pub meet-MeetsTo : (a b : StringSet) → IsValid a → IsValid b → MeetsTo (meet a b) a b
unfolding meet contains
meet-MeetsTo a b h k = elim (Bool-cases (is_empty a)) [
  | inl e ↦ rw e (empty, refl, (tt, λ v. ground (arith, empty_contains a e v)))
  | inr e ↦ elim (Bool-cases (is_empty b)) [
    | inl f ↦ rw (e, f) (empty, refl, (tt, λ v. ground (arith, empty_contains b f v)))
    | inr f ↦ rw (e, f) (meet_nonempty-MeetsTo a b h k e f)
  ]
]
