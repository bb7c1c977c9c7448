-- ===== src/Aws/Folding/Cut.antt =====
-- internal/parse/aws: what `strings.Cut` and `strings.HasPrefix` find.
use cloudarq.Prelude.{
  ℕ, zero, suc, ◌≡◌, refl, ap, ap₂, ◌∙◌, inl, inr, true, [], ◌∷◌, ◌++◌, length, drop, arith,
  Bool-cases, some, none,
}
use cloudarq.Text.Bytes.{Bytes, codes}
use cloudarq.Trust.Issuer.{has_prefix}
use cloudarq.Eval.StringSet.Build.{◌>>=◌, >>=-some}
use cloudarq.Aws.Folding.{cut}

pub prefix_parts : (s p : Bytes) → has_prefix s p ≡ true → s ≡ p ++ drop (length p) s
unfolding has_prefix
prefix_parts s [] h = refl
prefix_parts [] (c ∷ p) h = cc h
prefix_parts (b ∷ s) (c ∷ p) h =
    let same : b ≡ c = ground arith in
    ap (◌∷◌ b) (prefix_parts s p (ground arith)) ∙ ap (λ x. x ∷ (p ++ drop (length p) s)) same

drop_nil : (n : ℕ) → drop {A = ℕ} n [] ≡ []
drop_nil zero = refl
drop_nil (suc n) = refl

-- What a cut leaves is what stands around the separator.
pub cut_splits :
    (sep s before after : Bytes) → cut sep s ≡ some (before, after) → s ≡ before ++ (sep ++ after)
unfolding cut
cut_splits sep [] before after e = elim (Bool-cases (has_prefix [] sep)) [
  | inl p ↦
      let found : some ([], []) ≡ some (before, after) = rw p at e in
      let left : [] ≡ before = cc found in
      let right : [] ≡ after = cc found in
      prefix_parts [] sep p ∙ ap₂ (λ x y. x ++ (sep ++ y)) left (drop_nil (length sep) ∙ right)
  | inr p ↦ let bad : none ≡ some (before, after) = rw p at e in cc bad
]
cut_splits sep (b ∷ s) before after e = elim (Bool-cases (has_prefix (b ∷ s) sep)) [
  | inl p ↦
      let found : some ([], drop (length sep) (b ∷ s)) ≡ some (before, after) = rw p at e in
      let left : [] ≡ before = cc found in
      let right : drop (length sep) (b ∷ s) ≡ after = cc found in
      prefix_parts (b ∷ s) sep p ∙ ap₂ (λ x y. x ++ (sep ++ y)) left right
  | inr p ↦
      let run : (cut sep s >>= λ r. some (b ∷ r.0, r.1)) ≡ some (before, after) = rw p at e in
      let ((first, rest), f, g) = >>=-some (cut sep s) _ run in
      let left : b ∷ first ≡ before = cc g in
      let right : rest ≡ after = cc g in
      ap (◌∷◌ b) (cut_splits sep s first rest f) ∙ ap₂ (λ x y. x ++ (sep ++ y)) left right
]

-- A text that holds the separator is cut.
pub cut_found :
    (before after : Bytes)
    → (parts : Bytes × Bytes) × (cut (codes "${") (before ++ (codes "${" ++ after)) ≡ some parts)
unfolding cut has_prefix
cut_found [] after = (([], after), refl)
cut_found (b ∷ before) after =
    let s : Bytes = b ∷ (before ++ (codes "${" ++ after)) in
    let ((first, rest), later) = cut_found before after in
    elim (Bool-cases (has_prefix s (codes "${"))) [
      | inl p ↦ (([], drop 2 s), rw p refl)
      | inr p ↦ ((b ∷ first, rest), rw (p, later) refl)
    ]
