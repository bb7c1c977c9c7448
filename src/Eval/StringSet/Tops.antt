-- ===== src/Eval/StringSet/Tops.antt =====
-- internal/eval/stringset.go: when a union or an intersection provably admits every value.
use cloudarq.Prelude.{
  ◌≡◌, refl, inl, inr, true, false, ◌||◌, ◌&&◌, List, [], ◌∷◌, ◌++◌, All, All-append, arith, Option,
  some, none, subst, Bool-cases,
}
use cloudarq.Prelude.Order.Sorting.{sort_compact}
use cloudarq.Prelude.Order.Sorting.Ascending.{All-sort_compact}
use cloudarq.Text.Bytes.{Bytes, bytes_order}
use cloudarq.Eval.Glob.{Glob}
use cloudarq.Eval.StringSet.{
  StringSet, exact, full, empty, unknown, is_top, is_empty, as_unknown, render,
}
use cloudarq.Eval.StringSet.Build.{
  ◌>>=◌, terms, keep_from, union_of, new_union, join_known, join_unknown, join, merge_unknown,
  inter_of, new_inter, globs_of, as_exact, meet, meet_by_unknown, meet_known, meet_unknown,
  meet_rows, meet_row, meet_terms, meet_by_exact, meet_exact, meet_globs,
}
use cloudarq.Eval.StringSet.Valid.{IsTerm, IsValid}
use cloudarq.Eval.StringSet.Redundant.{All-keep_from}
use cloudarq.Eval.StringSet.Union.{terms-IsTerm, join-IsUnionOf}
use cloudarq.Eval.StringSet.Meet.{meet_terms-MeetsTo}
use cloudarq.Eval.StringSet.Provenance.{some_eq}

abbrev IsPartial : StringSet → Type 0
IsPartial s = is_top s ≡ false

term-IsPartial : (s : StringSet) → IsTerm s → IsPartial s
unfolding is_top
term-IsPartial (unknown rs) h = absurd h
term-IsPartial full h = absurd h
term-IsPartial s h = refl

union_of-IsPartial : (ms : List StringSet) → All IsTerm ms → IsPartial (union_of ms)
unfolding union_of is_top
union_of-IsPartial [] h = refl
union_of-IsPartial (m ∷ []) h = term-IsPartial m h.0
union_of-IsPartial (m ∷ m' ∷ ms) h = refl

new_union-IsPartial : (ms : List StringSet) → All IsTerm ms → IsPartial (new_union ms)
unfolding new_union
new_union-IsPartial ms h =
    let distinct : List StringSet = sort_compact bytes_order render ms in
    union_of-IsPartial (keep_from distinct 0 distinct)
      (All-keep_from IsTerm distinct 0 distinct (All-sort_compact bytes_order render IsTerm ms h))

join_known_top :
    (a b : StringSet) → IsValid a → IsValid b → is_top (join_known a b) ≡ (is_top a || is_top b)
unfolding join_known
join_known_top a b h k = elim (Bool-cases (is_top a)) [
  | inl t ↦ rw t (unfold is_top in refl)
  | inr t ↦ elim (Bool-cases (is_top b)) [
    | inl u ↦ rw (t, u) (unfold is_top in refl)
    | inr u ↦ elim (Bool-cases (is_empty a)) [
      | inl e ↦ rw (t, u, e) u
      | inr e ↦ elim (Bool-cases (is_empty b)) [
        | inl f ↦ rw (t, u, e, f) t
        | inr f ↦
            rw (t, u, e, f)
              (new_union-IsPartial (terms a ++ terms b) (
                All-append IsTerm (terms a) (terms b) (terms-IsTerm a h t e).0
                  (terms-IsTerm b k u f).0))
      ]
    ]
  ]
]

-- A union of two valid sets is top exactly if one of them is.
pub is_top-join :
    (a b : StringSet) → IsValid a → IsValid b → is_top (join a b) ≡ (is_top a || is_top b)
unfolding join join_unknown as_unknown is_top merge_unknown
is_top-join (unknown rs) (unknown qs) h k = refl
is_top-join (unknown rs) b h k = refl
is_top-join a (unknown qs) h k = ground arith
is_top-join a b h k = unfold is_top in join_known_top a b h k

inter_of-IsPartial : (gs : List Glob) → IsPartial (inter_of gs)
unfolding inter_of is_top
inter_of-IsPartial [] = refl
inter_of-IsPartial (g ∷ []) = refl
inter_of-IsPartial (g ∷ g' ∷ gs) = refl

by_patterns :
    (r : StringSet) (p q : Option (List Glob))
    → (p >>= λ gs. q >>= λ hs. some (new_inter (gs ++ hs))) ≡ some r
    → IsPartial r
unfolding new_inter
by_patterns r none q h = cc h
by_patterns r (some gs) none h = cc h
by_patterns r (some gs) (some hs) h =
    subst IsPartial (some_eq refl h)
      (inter_of-IsPartial (sort_compact bytes_order (λ g. g.pattern) (gs ++ hs)))

meet_exact-IsPartial : (w : Bytes) (o : StringSet) → IsPartial (meet_exact w o)
unfolding meet_exact is_top
meet_exact-IsPartial w o = ground arith

meet_terms-IsPartial : (s t r : StringSet) → meet_terms s t ≡ some r → IsPartial r
unfolding meet_terms as_exact meet_by_exact meet_globs
meet_terms-IsPartial (exact w) t r e = subst IsPartial (some_eq refl e) (meet_exact-IsPartial w t)
meet_terms-IsPartial s (exact w) r e = subst IsPartial (some_eq refl e) (meet_exact-IsPartial w s)
meet_terms-IsPartial s t r e = by_patterns r (globs_of s) (globs_of t) e

abbrev Stays : Option StringSet → Type 0
Stays o = (r : StringSet) × (o ≡ some r) × IsValid r × IsPartial r

meet_row-Stays :
    (s : StringSet) (ts : List StringSet) (out : StringSet)
    → IsTerm s
    → All IsTerm ts
    → IsValid out
    → IsPartial out
    → Stays (meet_row s ts out)
unfolding meet_row
meet_row-Stays s [] out h k o x = (out, refl, o, x)
meet_row-Stays s (t ∷ ts) out h k o x =
    let (m, em, (hm, _)) = meet_terms-MeetsTo s t h k.0 in
    let partial = meet_terms-IsPartial s t m em in
    let flag = is_top-join out m o hm in
    rw em (meet_row-Stays s ts (join out m) h k.1 (join-IsUnionOf out m o hm).0 (ground arith))

meet_rows-Stays :
    (ss ts : List StringSet) (out : StringSet)
    → All IsTerm ss
    → All IsTerm ts
    → IsValid out
    → IsPartial out
    → Stays (meet_rows ss ts out)
unfolding meet_rows
meet_rows-Stays [] ts out h k o x = (out, refl, o, x)
meet_rows-Stays (s ∷ ss) ts out h k o x =
    let (next, en, hn, kn) = meet_row-Stays s ts out h.0 k o x in
    rw en (meet_rows-Stays ss ts next h.1 k hn kn)

meet_known_top :
    (a b c : StringSet)
    → IsValid a
    → IsValid b
    → is_empty a ≡ false
    → is_empty b ≡ false
    → meet_known a b ≡ some c
    → is_top c ≡ (is_top a && is_top b)
unfolding meet_known
meet_known_top a b c h k e f m = elim (Bool-cases (is_top a)) [
  | inl t ↦ rw (t, some_eq (rw t at m) refl) refl
  | inr t ↦ elim (Bool-cases (is_top b)) [
    | inl u ↦ rw (u, some_eq (rw (t, u) at m) refl) (ground arith)
    | inr u ↦
        let (r, er, _, kr) =
          meet_rows-Stays (terms a) (terms b) empty (terms-IsTerm a h t e).0
            (terms-IsTerm b k u f).0 tt (unfold is_top in refl) in
        rw t (subst IsPartial (some_eq er (rw (t, u) at m)) kr)
  ]
]

meet_by_unknown_top :
    (a b c : StringSet)
    → IsValid a
    → IsValid b
    → is_empty a ≡ false
    → is_empty b ≡ false
    → meet_by_unknown (as_unknown a) (as_unknown b) a b ≡ some c
    → is_top c ≡ (is_top a && is_top b)
unfolding meet_by_unknown as_unknown is_top meet_unknown merge_unknown
meet_by_unknown_top (unknown rs) (unknown qs) c h k e f m = rw (← some_eq refl m) refl
meet_by_unknown_top (unknown rs) b c h k e f m = rw (← some_eq refl m) (ground arith)
meet_by_unknown_top a (unknown qs) c h k e f m = rw (← some_eq refl m) (ground arith)
meet_by_unknown_top a b c h k e f m = unfold is_top in meet_known_top a b c h k e f m

empty_not_top : (s : StringSet) → is_empty s ≡ true → is_top s ≡ false
unfolding is_empty is_top
empty_not_top empty h = refl
empty_not_top s h = cc

-- An intersection of two valid sets is top exactly if both of them are.
pub is_top-meet :
    (a b c : StringSet)
    → IsValid a
    → IsValid b
    → meet a b ≡ some c
    → is_top c ≡ (is_top a && is_top b)
unfolding meet
is_top-meet a b c h k m = elim (Bool-cases (is_empty a || is_empty b)) [
  | inl e ↦
      rw (← some_eq refl (rw e at m))
        (unfold is_top in ground (arith, empty_not_top a, empty_not_top b))
  | inr e ↦ meet_by_unknown_top a b c h k (ground arith) (ground arith) (rw e at m)
]
