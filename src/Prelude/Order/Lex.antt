-- ===== src/Prelude/Order/Lex.antt =====
-- The lexicographic order of pairs, as `cmp.Or` compares field by field.
use mathlib.Core.Path.{◌≡◌, ap, sym}
use mathlib.Core.Logic.{◌↔◌}
use mathlib.Core.Bool.{Bool, true, false, ◌&&◌, ◌||◌}
use native.Mathlib.Omega.{arith}
use cloudarq.Prelude.Order.{StrictOrder}

module _ {κ μ} {K : Type κ} {L : Type μ} (o : StrictOrder K) (p : StrictOrder L) where
  unfoldable pub pair_lt : K × L → K × L → Bool
  pair_lt (a, b) (c, d) = o.lt a c || (o.eq a c && p.lt b d)

  unfoldable pub pair_eq : K × L → K × L → Bool
  pair_eq (a, b) (c, d) = o.eq a c && p.eq b d

  pub pair_eq_iff : (x y : K × L) → (pair_eq x y ≡ true) ↔ (x ≡ y)
  unfolding pair_eq
  pair_eq_iff (a, b) (c, d) = (
    λ h. λ i. ((o.eq_iff a c).0 (ground arith) i, (p.eq_iff b d).0 (ground arith) i),
    λ e. and_true ((o.eq_iff a c).1 (ap (λ z. z.0) e)) ((p.eq_iff b d).1 (ap (λ z. z.1) e)),
  )
    where
      and_true : {s t : Bool} → s ≡ true → t ≡ true → (s && t) ≡ true
      and_true e f = ground arith

  pub pair_lt_irrefl : (x : K × L) → pair_lt x x ≡ false
  unfolding pair_lt
  pair_lt_irrefl (a, b) = ground (arith, o.lt_irrefl a, p.lt_irrefl b)

  pub pair_lt_trans : (x y z : K × L) → pair_lt x y ≡ true → pair_lt y z ≡ true → pair_lt x z ≡ true
  unfolding pair_lt
  pair_lt_trans (a, b) (c, d) (e, f) h k =
      ground (arith, o.lt_trans a c e, o.eq_iff a c, o.eq_iff c e, o.eq_iff a e, p.lt_trans b d f)

  pub pair_lt_total : (x y : K × L) → pair_lt x y ≡ false → pair_lt y x ≡ false → x ≡ y
  unfolding pair_lt
  pair_lt_total (a, b) (c, d) h k =
      let first = o.lt_total a c (ground arith) (ground arith) in
      let same = (o.eq_iff a c).1 first in
      let back = (o.eq_iff c a).1 (sym first) in
      let second = p.lt_total b d (ground arith) (ground arith) in λ i. (first i, second i)

  abbrev pub pair_order : StrictOrder (K × L)
  pair_order = record {
    lt = pair_lt;
    eq = pair_eq;
    eq_iff = pair_eq_iff;
    lt_irrefl = pair_lt_irrefl;
    lt_trans = pair_lt_trans;
    lt_total = pair_lt_total;
  }
