-- ===== src/Join/Walk/Ends.antt =====
-- internal/join/witness.go: the walk ends, and stays within its bound.
use cloudarq.Prelude.{
  ℕ, zero, suc, ◌+◌, ◌≤◌, ◌≡◌, ◌≢◌, refl, ◌∙◌, inl, inr, Bool, true, false, List, [], ◌∷◌, All,
  length, arith, Option, none, some, length-append, subst, sym, Option-cases, ap, map,
}
use cloudarq.Text.Bytes.{Bytes}
use cloudarq.Eval.Glob.{Runes}
use cloudarq.Join.Walk.{
  Position, WalkStep, Walk, exhausted, skip_stars, next_level, extended, consume, first_accepting,
  decide_level, after_level, Outcome, found, gave_up, ran_out, no_fuel, levels, start, walk,
}
use cloudarq.Join.Walk.Grows.{Grows, skip_stars-Grows}

pub next_level-length :
    (units : List Runes) (n : ℕ) (frontier : List WalkStep)
    → All (λ s. length s.text ≡ n) frontier
    → All (λ s. length s.text ≡ n + 1) (next_level units frontier)
unfolding next_level extended
next_level-length units n [] h = tt
next_level-length units n (s ∷ frontier) h = elim (Option-cases (consume units s.at)) [
  | inl e ↦ rw e (next_level-length units n frontier h.1)
  | inr ((r, next), e) ↦
      rw e
        (length-append s.text (r ∷ []) ∙ omega (arith, h.0), next_level-length units n frontier h.1)
]

-- What holds of each way in which a round can end holds of the round.
module _ (P : Outcome → Type 0) (units : List Runes) (bound : ℕ) where
  decide_level-cases :
      (o : Option Runes) (stop : Bool) (onward : Outcome)
      → ((text : Runes) → o ≡ some text → P (found text))
      → P gave_up
      → (o ≡ none → stop ≡ false → P onward)
      → P (decide_level o stop onward)
  unfolding decide_level
  decide_level-cases (some text) stop onward f g h = f text refl
  decide_level-cases none true onward f g h = g
  decide_level-cases none false onward f g h = h refl refl

  pub after_level-cases :
      (seen : List Bytes) (out : List WalkStep) (onward : Outcome)
      → (out ≡ [] → P ran_out)
      → ((text : Runes) → first_accepting units out ≡ some text → P (found text))
      → P gave_up
      → (1 ≤ length out
          → first_accepting units out ≡ none
          → exhausted bound seen ≡ false
          → P onward)
      → P (after_level units bound seen out onward)
  unfolding after_level
  after_level-cases seen [] onward e f g h = e refl
  after_level-cases seen (s ∷ out) onward e f g h =
      decide_level-cases (first_accepting units (s ∷ out)) (exhausted bound seen) onward f g
        (h (omega arith))

module _ (units : List Runes) (bound : ℕ) where
  -- The level behind a level.
  abbrev pub next_walk : Walk → Walk
  next_walk w = skip_stars units bound w.seen (next_level units w.out)

  pub next-Grows :
      (n : ℕ) (w : Walk)
      → All (λ s. length s.text ≡ n) w.out
      → Grows units bound
          (n + 1)
          (record { seen = w.seen; out = [] })
          (next_walk w)
          (map (λ s. s.at) (next_level units w.out))
  next-Grows n w h =
      skip_stars-Grows units bound (n + 1) w.seen (next_level units w.out)
        (next_level-length units n w.out h)

  pub start-Grows :
      Grows units bound 0
        (record { seen = []; out = [] })
        (skip_stars units bound [] (start units ∷ []))
        ((start units).at ∷ [])
  unfolding start
  start-Grows = skip_stars-Grows units bound 0 [] (start units ∷ []) (refl, tt)

  -- A level is what closing it added.
  pub out-depth :
      {n : ℕ} {seen : List Bytes} {w : Walk} {goals : List Position}
      → Grows units bound n (record { seen = seen; out = [] }) w goals
      → All (λ s. length s.text ≡ n) w.out
  out-depth {n} g = subst (All (λ (s : WalkStep). length s.text ≡ n)) (sym g.adds) g.depth

  levels_end :
      (fuel n : ℕ) (w : Walk)
      → 1 ≤ fuel
      → (1 ≤ length w.out → bound + 1 ≤ fuel + length w.seen)
      → All (λ s. length s.text ≡ n) w.out
      → levels fuel units bound w ≢ no_fuel
  unfolding levels
  levels_end zero n w h k d = absurd (omega arith)
  levels_end (suc fuel) n w h k d =
      after_level-cases (λ o. o ≢ no_fuel) units bound w.seen w.out _ (λ _ e. cc e)
        (λ text _ e. cc e) (λ e. cc e)
        λ busy _ x.
          let g = next-Grows n w d in
          let room : suc (length w.seen) ≤ bound = unfold exhausted in ground arith in
          levels_end fuel (n + 1) (next_walk w) (omega (arith, k busy))
            (λ more. omega (arith, k busy, g.size, ap length g.adds)) (out-depth g)

  -- The walk ends within its rounds, whatever the patterns and the bound are.
  pub walk-ends : walk units bound ≢ no_fuel
  unfolding walk
  walk-ends = levels_end (bound + 1) 0 _ (omega arith) (λ _. omega arith) (out-depth start-Grows)
