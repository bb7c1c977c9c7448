-- ===== src/Eval/StringSet/Redundant.antt =====
-- Dropping the exact values that another member contains loses no value: `newUnion`'s loop.
use cloudarq.Prelude.{
  ℕ, suc, ◌+◌, ◌<◌, ◌≡◌, ◌≢◌, refl, ap, ◌∙◌, sym, subst, inl, inr, Bool, true, false, ◌||◌, List,
  [], ◌∷◌, ◌++◌, All, any, length, arith, some, none, Bool-cases, append_assoc, length-append,
  All-map, All-middle, any-append,
}
use cloudarq.Prelude.Order.Sorting.Ascending.{IsStrict, Below}
use cloudarq.Text.Bytes.{Bytes, bytes_order, bytes_eq, bytes_eq_iff, bytes_lt_irrefl}
use cloudarq.Eval.StringSet.{StringSet, exact, contains, render}
use cloudarq.Eval.StringSet.Build.{
  contained_from, contained_by_other, is_redundant, as_exact, keep_from,
}

-- The index that is skipped lies before the members that are left.
contained_from_past :
    (v : Bytes) (ms : List StringSet) (j skip : ℕ)
    → skip < j
    → contained_from v ms j skip ≡ any (λ m. contains m v) ms
unfolding contained_from
contained_from_past v [] j skip h = refl
contained_from_past v (m ∷ ms) j skip h =
    ground (arith, contained_from_past v ms (suc j) skip (omega arith))

contained_from-append :
    (v : Bytes) (pre suf : List StringSet) (m : StringSet) (j skip : ℕ)
    → skip ≡ j + length pre
    → contained_from v (pre ++ m ∷ suf) j skip
      ≡ (any (λ x. contains x v) pre || any (λ x. contains x v) suf)
unfolding contained_from
contained_from-append v [] suf m j skip h =
    ground (arith, contained_from_past v suf (suc j) skip (omega arith))
contained_from-append v (p ∷ pre) suf m j skip h =
    ground (arith, contained_from-append v pre suf m (suc j) skip (omega arith))

-- A member that contains `v` and is no exact value.
is_wild : Bytes → StringSet → Bool
is_wild v m = elim (as_exact m) [ none ↦ contains m v | some w ↦ false ]

Apart : StringSet → StringSet → Type 0
Apart m x = render x ≢ render m

Below-ne : (x y : StringSet) → Below bytes_order render x y → render x ≢ render y
Below-ne x y h e =
    ground (arith, bytes_lt_irrefl (render y), ap (λ k. bytes_order.lt k (render y)) e)

strict-Apart :
    (pre suf : List StringSet) (m : StringSet)
    → IsStrict bytes_order render (pre ++ m ∷ suf)
    → All (Apart m) pre × All (Apart m) suf
unfolding Apart
strict-Apart [] suf m h =
    (tt, All-map (Below bytes_order render m) (Apart m) suf (λ x b e. Below-ne m x b (sym e)) h.0)
strict-Apart (p ∷ pre) suf m h =
    let (before, after) = strict-Apart pre suf m h.1 in
    ((Below-ne p m (All-middle (Below bytes_order render p) pre suf m h.0), before), after)

not_contained :
    (w : Bytes) (xs : List StringSet)
    → All (Apart (exact w)) xs
    → any (is_wild w) xs ≡ false
    → any (λ m. contains m w) xs ≡ false
unfolding is_wild contains as_exact Apart
not_contained w [] h n = refl
not_contained w (exact u ∷ xs) h n = elim (Bool-cases (bytes_eq w u)) [
  | inl e ↦ absurd (h.0 (ap (λ b. render (exact b)) (sym ((bytes_eq_iff w u).0 e))))
  | inr e ↦ rw e (not_contained w xs h.1 n)
]
not_contained w (x ∷ xs) h n = ground (arith, not_contained w xs h.1)

-- No other member contains the value of an exact one, where only exact values contain it.
alone :
    (w : Bytes) (pre suf : List StringSet)
    → IsStrict bytes_order render (pre ++ exact w ∷ suf)
    → any (is_wild w) (pre ++ exact w ∷ suf) ≡ false
    → contained_by_other w (pre ++ exact w ∷ suf) (length pre) ≡ false
unfolding contained_by_other is_wild as_exact
alone w pre suf h n =
    let (before, after) = strict-Apart pre suf (exact w) h in
    let parts = any-append (is_wild w) pre (exact w ∷ suf) in
    ground (
      arith,
      parts,
      contained_from-append w pre suf (exact w) 0 (length pre) (omega arith),
      not_contained w pre before,
      not_contained w suf after,
    )

dropped_not_contains :
    (v : Bytes) (pre suf : List StringSet) (m : StringSet)
    → IsStrict bytes_order render (pre ++ m ∷ suf)
    → any (is_wild v) (pre ++ m ∷ suf) ≡ false
    → is_redundant (as_exact m) (pre ++ m ∷ suf) (length pre) ≡ true
    → contains m v ≡ false
unfolding is_redundant as_exact contains
dropped_not_contains v pre suf (exact w) h n r = elim (Bool-cases (bytes_eq v w)) [
  | inl e ↦
      let same = (bytes_eq_iff v w).0 e in
      let lone =
        alone w pre suf h (subst (λ u. any (is_wild u) (pre ++ exact w ∷ suf) ≡ false) same n) in
      ground (arith, lone)
  | inr e ↦ e
]
dropped_not_contains v pre suf m h n r = ground arith

-- Where only exact values contain `v`, the one that does is kept.
keep_exact :
    (v : Bytes) (members pre suf : List StringSet)
    → members ≡ pre ++ suf
    → IsStrict bytes_order render members
    → any (is_wild v) members ≡ false
    → any (λ m. contains m v) (keep_from members (length pre) suf) ≡ any (λ m. contains m v) suf
unfolding keep_from
keep_exact v members pre [] e h n = refl
keep_exact v members pre (m ∷ suf) e h n =
    let next =
      keep_exact v members (pre ++ m ∷ []) suf (e ∙ sym (append_assoc pre (m ∷ []) suf)) h n in
    let size : length (pre ++ m ∷ []) ≡ suc (length pre) =
      omega (arith, length-append pre (m ∷ [])) in
    let ih = rw size at next in
    elim (Bool-cases (is_redundant (as_exact m) members (length pre))) [
      | inl r ↦
          let out = dropped_not_contains v pre suf m (rw (← e) h) (rw (← e) n) (rw (← e) r) in
          rw (r, out) ih
      | inr r ↦ rw r (ap (λ b. contains m v || b) ih)
    ]

-- A member that is no exact value is kept.
keep_wild :
    (v : Bytes) (members : List StringSet) (i : ℕ) (ms : List StringSet)
    → any (is_wild v) ms ≡ true
    → any (λ m. contains m v) (keep_from members i ms) ≡ true
unfolding keep_from is_wild as_exact is_redundant
keep_wild v members i [] h = h
keep_wild v members i (exact w ∷ ms) h = ground (arith, keep_wild v members (suc i) ms)
keep_wild v members i (m ∷ ms) h = ground (arith, keep_wild v members (suc i) ms)

wild_contained :
    (v : Bytes) (ms : List StringSet)
    → any (is_wild v) ms ≡ true
    → any (λ m. contains m v) ms ≡ true
unfolding is_wild as_exact
wild_contained v [] h = h
wild_contained v (exact w ∷ ms) h = ground (arith, wild_contained v ms)
wild_contained v (m ∷ ms) h = ground (arith, wild_contained v ms)

-- The loop keeps every value that a member contains.
pub any-keep_from :
    (v : Bytes) (members : List StringSet)
    → IsStrict bytes_order render members
    → any (λ m. contains m v) (keep_from members 0 members) ≡ any (λ m. contains m v) members
any-keep_from v members h = elim (Bool-cases (any (is_wild v) members)) [
  | inl w ↦ keep_wild v members 0 members w ∙ sym (wild_contained v members w)
  | inr w ↦ keep_exact v members [] members refl h w
]

pub All-keep_from {κ} :
    (P : StringSet → Type κ) (members : List StringSet) (i : ℕ) (ms : List StringSet)
    → All P ms
    → All P (keep_from members i ms)
unfolding keep_from
All-keep_from P members i [] h = tt
All-keep_from P members i (m ∷ ms) h = elim (Bool-cases (is_redundant (as_exact m) members i)) [
  | inl r ↦ rw r (All-keep_from P members (suc i) ms h.1)
  | inr r ↦ rw r (h.0, All-keep_from P members (suc i) ms h.1)
]

pub keep_from-IsStrict :
    (members : List StringSet) (i : ℕ) (ms : List StringSet)
    → IsStrict bytes_order render ms
    → IsStrict bytes_order render (keep_from members i ms)
unfolding keep_from
keep_from-IsStrict members i [] h = tt
keep_from-IsStrict members i (m ∷ ms) h = elim (Bool-cases (is_redundant (as_exact m) members i)) [
  | inl r ↦ rw r (keep_from-IsStrict members (suc i) ms h.1)
  | inr r ↦ rw r (
    All-keep_from (Below bytes_order render m) members (suc i) ms h.0,
    keep_from-IsStrict members (suc i) ms h.1,
  )
]
