-- ===== src/Join/Walk/Steps.antt =====
-- internal/join/witness.go: one step of the walk, taken apart.
use cloudarq.Prelude.{
  ℕ, zero, suc, ◌+◌, ◌≡◌, ◌≢◌, refl, ap, ◌∙◌, sym, inl, inr, ◌⊎◌, Bool, true, false, not, ◌&&◌,
  List, [], ◌∷◌, map, none, some, Some, arith, Bool-cases, Option-cases, ◌==◌, drop,
}
use cloudarq.Text.Split.Runes.{star}
use cloudarq.Eval.Glob.{Runes, any_rune}
use cloudarq.Eval.StringSet.Build.{>>=-some}
use cloudarq.Join.Walk.{Position, is_star_at, unit_at, skips, choose, consume_from, consume}

pub unit_at-some : (u : Runes) (p c : ℕ) → unit_at u p ≡ some c → drop p u ≡ c ∷ drop (suc p) u
unfolding unit_at
unit_at-some [] zero c e = cc e
unit_at-some [] (suc p) c e = cc e
unit_at-some (d ∷ u) zero c e = ap (λ x. x ∷ u) (cc e)
unit_at-some (d ∷ u) (suc p) c e = unit_at-some u p c e

pub star_at : (u : Runes) (p : ℕ) → is_star_at u p ≡ true → drop p u ≡ star ∷ drop (suc p) u
unfolding is_star_at
star_at u p e = elim (Option-cases (unit_at u p)) [
  | inl n ↦ let bad : false ≡ true = rw (n, is_star_at) at e in cc bad
  | inr (c, y) ↦
      let same : c ≡ star =
        ground (arith, (let t : (c == star) ≡ true = rw (y, is_star_at) at e in t)) in
      unit_at-some u p c y ∙ ap (λ x. x ∷ drop (suc p) u) same
]

Some-map_cons :
    (p : ℕ) (next : Position) (ats : List Position)
    → Some (λ x. x ≡ next) (map (◌∷◌ p) ats)
    → (qs : Position) × (next ≡ p ∷ qs) × Some (λ x. x ≡ qs) ats
Some-map_cons p next [] m = absurd m
Some-map_cons p next (at ∷ ats) (inl e) = (at, sym e, inl refl)
Some-map_cons p next (at ∷ ats) (inr m) =
    let (qs, e, k) = Some-map_cons p next ats m in (qs, e, inr k)

-- A skip moves the first position past a star, or one of the others.
pub skips-cases :
    (u : Runes) (us : List Runes) (p : ℕ) (ps next : Position)
    → Some (λ x. x ≡ next) (skips (u ∷ us) (p ∷ ps))
    → ((is_star_at u p ≡ true) × (next ≡ suc p ∷ ps))
      ⊎ ((qs : Position) × (next ≡ p ∷ qs) × Some (λ x. x ≡ qs) (skips us ps))
unfolding skips
skips-cases u us p ps next m = elim (Bool-cases (is_star_at u p)) [
  | inl s ↦ elim (rw s at m) [
    | inl e ↦ inl (s, sym e)
    | inr k ↦ inr (Some-map_cons p next (skips us ps) k)
  ]
  | inr n ↦ inr (Some-map_cons p next (skips us ps) (rw n at m))
]

pub choose-cases :
    (r c q n : ℕ) (fixed now : Bool)
    → choose r fixed c ≡ some ((q, now), n)
    → ((c ≡ star) × (q ≡ r) × (now ≡ fixed) × (n ≡ 0))
      ⊎ ((c ≢ star) × (c ≡ any_rune) × (q ≡ r) × (now ≡ fixed) × (n ≡ 1))
      ⊎ ((c ≢ star) × (fixed ≡ true → c ≡ r) × (q ≡ c) × (now ≡ true) × (n ≡ 1))
unfolding choose
choose-cases r c q n fixed now e = elim (Bool-cases (c == star)) [
  | inl a ↦
      let same : some ((r, fixed), 0) ≡ some ((q, now), n) = rw a at e in
      inl (ground arith, cc same, cc same, cc same)
  | inr a ↦ elim (Bool-cases (c == any_rune)) [
    | inl b ↦
        let same : some ((r, fixed), 1) ≡ some ((q, now), n) = rw (a, b) at e in
        inr (inl (ground arith, ground arith, cc same, cc same, cc same))
    | inr b ↦ elim (Bool-cases (fixed && not (c == r))) [
      | inl d ↦ let bad : none ≡ some ((q, now), n) = rw (a, b, d) at e in cc bad
      | inr d ↦
          let same : some ((c, true), 1) ≡ some ((q, now), n) = rw (a, b, d) at e in
          inr (inr (ground arith, λ f. ground arith, cc same, cc same, cc same))
    ]
  ]
]

-- A run of the loop, taken apart at its first pattern.
pub consume_from_cons :
    (u : Runes) (us : List Runes) (p : ℕ) (ps next : Position) (r final : ℕ) (fixed : Bool)
    → consume_from r fixed (u ∷ us) (p ∷ ps) ≡ some (final, next)
    → (c : ℕ) × (q : ℕ) × (now : Bool) × (n : ℕ) × (qs : Position) × (unit_at u p ≡ some c)
      × (choose r fixed c ≡ some ((q, now), n))
      × (consume_from q now us ps ≡ some (final, qs))
      × (next ≡ (p + n) ∷ qs)
unfolding consume_from
consume_from_cons u us p ps next r final fixed e =
    let (c, ec, e1) = >>=-some (unit_at u p) _ e in
    let (((q, now), n), en, e2) = >>=-some (choose r fixed c) _ e1 in
    let ((last, qs), eq, e3) = >>=-some (consume_from q now us ps) _ e2 in
    let same : last ≡ final = cc e3 in
    (c, q, now, n, qs, ec, en, eq ∙ ap (λ x. some (x, qs)) same, cc e3)

pub consume_from_nil :
    (next : Position) (r final : ℕ) (fixed : Bool)
    → consume_from r fixed [] [] ≡ some (final, next)
    → (next ≡ []) × (final ≡ r)
unfolding consume_from
consume_from_nil next r final fixed e = (cc e, cc e)

pub consume-from :
    (us : List Runes) (at : Position) (r : ℕ) (next : Position)
    → consume us at ≡ some (r, next)
    → consume_from b'x' false us at ≡ some (r, next)
unfolding consume
consume-from us at r next e = e
