-- ===== src/Eval/Admitted/Closest.antt =====
-- internal/eval/admitted.go: what the comparison in the loop of `Excludes` says of a Term.
use cloudarq.Prelude.{
  ◌≡◌, refl, ◌∙◌, sym, inl, inr, ◌⊎◌, true, false, List, [], ◌∷◌, length, All, arith, some,
  if◌then◌else◌, Bool-cases, ℕ, suc, ◌<◌, ap, not, ◌&&◌, all, ltb,
}
use cloudarq.Prelude.Order.Sorting.Ascending.{
  NotAbove, NotAbove-trans, IsAscending, sort-IsAscending,
}
use cloudarq.Prelude.Order.Sorting.Keeps.{all-sort, length-sort}
use cloudarq.Text.Bytes.{bytes_lt, bytes_order}
use cloudarq.Eval.Claims.{ClaimKey}
use cloudarq.Eval.Admitted.{Term, Token, failing_keys, failures, satisfied, is_closer, first_before}

-- How many entries of a Term the token does not satisfy.
abbrev pub count_failing : Token → Term → ℕ
count_failing token [] = 0
count_failing token (e ∷ t) =
    let rest = count_failing token t in if satisfied token e then rest else suc rest

-- A Term that fails in its claim `k` is no worse than another one: it fails in fewer claims, or in as
-- many, and the other one fails in no claim before `k`.
abbrev pub NoWorse : Token → ClaimKey → Term → Term → Type 0
NoWorse token k t u =
    (count_failing token t < count_failing token u)
    ⊎ ((count_failing token t ≡ count_failing token u)
        × All (λ e. satisfied token e ≡ false → bytes_lt e.0 k ≡ false) u)

length-failures : (t : Term) (token : Token) → length (failures t token) ≡ count_failing token t
unfolding failures
length-failures t token =
    length-sort bytes_order (λ k. k) (failing_keys t token) ∙ length_keys t token
  where
    length_keys : (t : Term) (token : Token) → length (failing_keys t token) ≡ count_failing token t
    length_keys =
        unfold failing_keys in
        elim [ [] ↦ λ token. refl | e ∷ (t → ih) ↦ λ token. ground (arith, ih token) ]

failing_keys-All :
    (k : ClaimKey) (t : Term) (token : Token)
    → all (λ j. not (bytes_lt j k)) (failing_keys t token) ≡ true
    → All (λ e. satisfied token e ≡ false → bytes_lt e.0 k ≡ false) t
unfolding failing_keys
failing_keys-All k [] token h = tt
failing_keys-All k (e ∷ t) token h = elim (Bool-cases (satisfied token e)) [
  | inl x ↦ (λ n. cc (x, n), failing_keys-All k t token (rw x at h))
  | inr x ↦
      let both : (not (bytes_lt e.0 k) && all (λ j. not (bytes_lt j k)) (failing_keys t token))
          ≡ true =
        rw x at h in
      (λ n. ground arith, failing_keys-All k t token (ground arith))
]

none_before :
    (k j : ClaimKey) (js : List ClaimKey)
    → bytes_lt j k ≡ false
    → All (NotAbove bytes_order (λ x. x) j) js
    → all (λ i. not (bytes_lt i k)) js ≡ true
none_before k j [] h a = refl
none_before k j (i ∷ js) h a =
    let here : bytes_lt i k ≡ false = NotAbove-trans bytes_order (λ x. x) k j i h a.0 in
    ground (arith, here, none_before k j js h a.1)

not_closer-cases :
    (k : ClaimKey) (rest others : List ClaimKey) (t : Term)
    → IsAscending bytes_order (λ x. x) others
    → is_closer others (some (k ∷ rest, t)) ≡ false
    → (length (k ∷ rest) < length others)
      ⊎ ((length (k ∷ rest) ≡ length others) × (all (λ j. not (bytes_lt j k)) others ≡ true))
unfolding is_closer first_before
not_closer-cases k rest [] t h e = absurd (ground (arith, e))
not_closer-cases k rest (j ∷ js) t h e =
    elim (Bool-cases (ltb (length (k ∷ rest)) (length (j ∷ js)))) [
      | inl l ↦ inl (ground (arith, l))
      | inr l ↦
          let same : length (k ∷ rest) ≡ length (j ∷ js) = ground (arith, e, l) in
          let first : bytes_lt j k ≡ false = ground (arith, e, l, same) in
          inr (same, ground (arith, first, none_before k j js first h.0))
    ]

-- What the loop's comparison means for a Term that is not closer.
pub not_closer-NoWorse :
    (token : Token) (k : ClaimKey) (rest : List ClaimKey) (t u : Term)
    → k ∷ rest ≡ failures t token
    → is_closer (failures u token) (some (k ∷ rest, t)) ≡ false
    → NoWorse token k t u
not_closer-NoWorse token k rest t u same e =
    let mine : length (k ∷ rest) ≡ count_failing token t =
      ap length same ∙ length-failures t token in
    let sorted : IsAscending bytes_order (λ x. x) (failures u token) =
      unfold failures in sort-IsAscending bytes_order (λ x. x) (failing_keys u token) in
    elim (not_closer-cases k rest (failures u token) t sorted e) [
      | inl fewer ↦ inl (omega (arith, mine, length-failures u token))
      | inr (many, clear) ↦ inr (
        sym mine ∙ many ∙ length-failures u token,
        failing_keys-All k u token (
            sym (all-sort bytes_order (λ x. x) (λ j. not (bytes_lt j k)) (failing_keys u token))
            ∙ (unfold failures in clear)),
      )
    ]
