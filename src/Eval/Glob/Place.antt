-- ===== src/Eval/Glob/Place.antt =====
-- Placing the middle segments greedily loses nothing: `matchSegments` finds every match.
use cloudarq.Prelude.{
  ℕ, zero, suc, ◌+◌, ◌-◌, ◌≤◌, ◌≡◌, refl, true, false, not, ◌&&◌, ◌↔◌, inl, inr, List, [], ◌∷◌,
  arith, length, leb, Bool-cases,
}
use cloudarq.Eval.Glob.{Runes, match_at, scan, place, match_middle}

-- The segments stand at offsets from `i` on, in order, and end by `end`.
abbrev pub Placed : List Runes → Runes → ℕ → ℕ → Type 0
Placed [] v end i = i ≤ end
Placed (s ∷ ss) v end i =
    (j : ℕ) × (i ≤ j) × (match_at s v j ≡ true) × Placed ss v end (j + length s)

pub Placed-le : (ss : List Runes) (v : Runes) (end i : ℕ) → Placed ss v end i → i ≤ end
Placed-le [] v end i h = h
Placed-le (s ∷ ss) v end i (j, h, _, rest) = omega (arith, Placed-le ss v end (j + length s) rest)

Placed-mono :
    (ss : List Runes) (v : Runes) (end i k : ℕ) → i ≤ k → Placed ss v end k → Placed ss v end i
Placed-mono [] v end i k h p = omega arith
Placed-mono (s ∷ ss) v end i k h (j, l, m, rest) = (j, omega arith, m, rest)

module _ (seg v : Runes) (end : ℕ) where
  scan_ge : (fuel j : ℕ) → j ≤ scan fuel seg v end j
  unfolding scan
  scan_ge zero j = omega arith
  scan_ge (suc fuel) j = ground (arith, scan_ge fuel (suc j))

  scan_least :
      (fuel j k : ℕ)
      → j ≤ k
      → k + length seg ≤ end
      → match_at seg v k ≡ true
      → scan fuel seg v end j ≤ k
  unfolding scan
  scan_least zero j k h e m = h
  scan_least (suc fuel) j k h e m =
      elim (Bool-cases (leb (j + length seg) end && not (match_at seg v j))) [
        | inl t ↦ rw t (
            scan_least fuel (suc j) k
              (elim (Bool-cases (match_at seg v j)) [
                | inl b ↦ ground arith
                | inr b ↦ elim (Bool-cases (leb k j)) [
                  | inl le ↦ let same : j ≡ k = ground arith in absurd (ground arith)
                  | inr lt ↦ ground arith
                ]
              ])
              e m)
        | inr t ↦ rw t h
      ]

  scan_stops :
      (fuel j : ℕ)
      → fuel + j ≡ end + 1
      → (leb (scan fuel seg v end j + length seg) end
          && not (match_at seg v (scan fuel seg v end j)))
        ≡ false
  unfolding scan
  scan_stops zero j h = ground arith
  scan_stops (suc fuel) j h =
      elim (Bool-cases (leb (j + length seg) end && not (match_at seg v j))) [
        | inl t ↦ rw t (scan_stops fuel (suc j) (omega arith))
        | inr t ↦ rw t t
      ]

match_middle→Placed :
    (ss : List Runes) (v : Runes) (end i : ℕ)
    → i ≤ end
    → match_middle ss v end i ≡ true
    → Placed ss v end i
unfolding match_middle place
match_middle→Placed [] v end i h e = h
match_middle→Placed (s ∷ ss) v end i h e =
    let j : ℕ = scan (end + 1 - i) s v end i in
    let inside : j + length s ≤ end = ground arith in
    (
      j,
      scan_ge s v end (end + 1 - i) i,
      ground (arith, scan_stops s v end (end + 1 - i) i (omega arith)),
      match_middle→Placed ss v end (j + length s) inside (ground arith),
    )

Placed→match_middle :
    (ss : List Runes) (v : Runes) (end i : ℕ) → Placed ss v end i → match_middle ss v end i ≡ true
unfolding match_middle place
Placed→match_middle [] v end i h = refl
Placed→match_middle (s ∷ ss) v end i (k, h, m, rest) =
    let fits = Placed-le ss v end (k + length s) rest in
    let j : ℕ = scan (end + 1 - i) s v end i in
    let first : j ≤ k = scan_least s v end (end + 1 - i) i k h fits m in
    let onward =
      Placed→match_middle ss v end (j + length s)
        (Placed-mono ss v end (j + length s) (k + length s) (omega arith) rest) in
    ground (arith, onward)

pub match_middle_iff :
    (ss : List Runes) (v : Runes) (end i : ℕ)
    → i ≤ end
    → (match_middle ss v end i ≡ true) ↔ Placed ss v end i
match_middle_iff ss v end i h = (match_middle→Placed ss v end i h, Placed→match_middle ss v end i)
