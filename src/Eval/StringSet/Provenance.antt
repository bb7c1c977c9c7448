-- ===== src/Eval/StringSet/Provenance.antt =====
-- internal/eval/stringset.go: when an intersection is still Unknown.
use cloudarq.Prelude.{
  ◌≡◌, refl, inl, inr, true, false, ◌||◌, ◌&&◌, List, [], ◌∷◌, ◌++◌, All, arith, Option, some, none,
  subst, Bool-cases,
}
use cloudarq.Prelude.Order.Sorting.{sort_compact}
use cloudarq.Text.Bytes.{Bytes, bytes_order}
use cloudarq.Eval.Glob.{Glob}
use cloudarq.Eval.StringSet.{
  StringSet, exact, empty, unknown, is_top, is_empty, as_unknown, is_unknown,
}
use cloudarq.Eval.StringSet.Build.{
  ◌>>=◌, terms, join, merge_unknown, inter_of, new_inter, globs_of, as_exact, meet, meet_by_unknown,
  meet_known, meet_unknown, meet_rows, meet_row, meet_terms, meet_by_exact, meet_exact, meet_globs,
}
use cloudarq.Eval.StringSet.Valid.{IsTerm, IsValid}
use cloudarq.Eval.StringSet.Union.{terms-IsTerm, join-IsUnionOf}
use cloudarq.Eval.StringSet.Meet.{meet_terms-MeetsTo}
use cloudarq.Eval.StringSet.Laws.{IsKnown, is_unknown-join}

pub some_eq {ℓ} : {A : Type ℓ} {x y : A} {o : Option A} → o ≡ some x → o ≡ some y → x ≡ y
some_eq p q = cc (p, q)

inter_of-IsKnown : (gs : List Glob) → IsKnown (inter_of gs)
unfolding inter_of is_unknown
inter_of-IsKnown [] = refl
inter_of-IsKnown (g ∷ []) = refl
inter_of-IsKnown (g ∷ g' ∷ gs) = refl

meet_globs-IsKnown : (s t r : StringSet) → meet_globs s t ≡ some r → IsKnown r
unfolding meet_globs new_inter
meet_globs-IsKnown s t r e = by_patterns (globs_of s) (globs_of t) e
  where
    by_patterns :
        (p q : Option (List Glob))
        → (p >>= λ gs. q >>= λ hs. some (new_inter (gs ++ hs))) ≡ some r
        → IsKnown r
    by_patterns none q h = cc h
    by_patterns (some gs) none h = cc h
    by_patterns (some gs) (some hs) h =
        subst IsKnown (some_eq refl h)
          (inter_of-IsKnown (sort_compact bytes_order (λ g. g.pattern) (gs ++ hs)))

meet_exact-IsKnown : (w : Bytes) (o : StringSet) → IsKnown (meet_exact w o)
unfolding meet_exact is_unknown
meet_exact-IsKnown w o = ground arith

meet_terms-IsKnown : (s t r : StringSet) → meet_terms s t ≡ some r → IsKnown r
unfolding meet_terms as_exact meet_by_exact
meet_terms-IsKnown (exact w) t r e = subst IsKnown (some_eq refl e) (meet_exact-IsKnown w t)
meet_terms-IsKnown s (exact w) r e = subst IsKnown (some_eq refl e) (meet_exact-IsKnown w s)
meet_terms-IsKnown s t r e = meet_globs-IsKnown s t r e

-- The result of a loop is valid and known where what it starts from is.
abbrev Stays : Option StringSet → Type 0
Stays o = (r : StringSet) × (o ≡ some r) × IsValid r × IsKnown r

meet_row-Stays :
    (s : StringSet) (ts : List StringSet) (out : StringSet)
    → IsTerm s
    → All IsTerm ts
    → IsValid out
    → IsKnown out
    → Stays (meet_row s ts out)
unfolding meet_row
meet_row-Stays s [] out h k o x = (out, refl, o, x)
meet_row-Stays s (t ∷ ts) out h k o x =
    let (m, em, (hm, _)) = meet_terms-MeetsTo s t h k.0 in
    let known = meet_terms-IsKnown s t m em in
    let flag = is_unknown-join out m o hm in
    rw em (meet_row-Stays s ts (join out m) h k.1 (join-IsUnionOf out m o hm).0 (ground arith))

meet_rows-Stays :
    (ss ts : List StringSet) (out : StringSet)
    → All IsTerm ss
    → All IsTerm ts
    → IsValid out
    → IsKnown out
    → Stays (meet_rows ss ts out)
unfolding meet_rows
meet_rows-Stays [] ts out h k o x = (out, refl, o, x)
meet_rows-Stays (s ∷ ss) ts out h k o x =
    let (next, en, hn, kn) = meet_row-Stays s ts out h.0 k o x in
    rw en (meet_rows-Stays ss ts next h.1 k hn kn)

meet_known-IsKnown :
    (a b c : StringSet)
    → IsValid a
    → IsValid b
    → IsKnown a
    → IsKnown b
    → is_empty a ≡ false
    → is_empty b ≡ false
    → meet_known a b ≡ some c
    → IsKnown c
unfolding meet_known
meet_known-IsKnown a b c h k x y e f m = elim (Bool-cases (is_top a)) [
  | inl t ↦ subst IsKnown (some_eq refl (rw t at m)) y
  | inr t ↦ elim (Bool-cases (is_top b)) [
    | inl u ↦ subst IsKnown (some_eq refl (rw (t, u) at m)) x
    | inr u ↦
        let (r, er, _, kr) =
          meet_rows-Stays (terms a) (terms b) empty (terms-IsTerm a h t e).0
            (terms-IsTerm b k u f).0 tt (unfold is_unknown in refl) in
        subst IsKnown (some_eq er (rw (t, u) at m)) kr
  ]
]

meet_flag :
    (a b c : StringSet)
    → IsValid a
    → IsValid b
    → is_empty a ≡ false
    → is_empty b ≡ false
    → meet_by_unknown (as_unknown a) (as_unknown b) a b ≡ some c
    → is_unknown c ≡ ((is_unknown a && is_top b) || (is_unknown b && is_top a))
unfolding meet_by_unknown as_unknown is_unknown is_top meet_unknown merge_unknown
meet_flag (unknown rs) (unknown qs) c h k e f m = rw (← some_eq refl m) refl
meet_flag (unknown rs) b c h k e f m = rw (← some_eq refl m) (ground arith)
meet_flag a (unknown qs) c h k e f m = rw (← some_eq refl m) (ground arith)
meet_flag a b c h k e f m = meet_known-IsKnown a b c h k refl refl e f m

empty_is_neither : (s : StringSet) → is_empty s ≡ true → (is_unknown s ≡ false) × (is_top s ≡ false)
unfolding is_empty is_unknown is_top
empty_is_neither empty h = (refl, refl)
empty_is_neither s h = cc

empty_flag :
    (a b : StringSet)
    → (is_empty a || is_empty b) ≡ true
    → is_unknown empty ≡ ((is_unknown a && is_top b) || (is_unknown b && is_top a))
unfolding is_unknown
empty_flag a b e = ground (arith, empty_is_neither a, empty_is_neither b)

-- An intersection of two valid sets is Unknown exactly if one of them is and the other is top.
pub is_unknown-meet :
    (a b c : StringSet)
    → IsValid a
    → IsValid b
    → meet a b ≡ some c
    → is_unknown c ≡ ((is_unknown a && is_top b) || (is_unknown b && is_top a))
unfolding meet
is_unknown-meet a b c h k m = elim (Bool-cases (is_empty a || is_empty b)) [
  | inl e ↦ rw (← some_eq refl (rw e at m)) (empty_flag a b e)
  | inr e ↦ meet_flag a b c h k (ground arith) (ground arith) (rw e at m)
]
