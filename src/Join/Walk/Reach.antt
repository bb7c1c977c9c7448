-- ===== src/Join/Walk/Reach.antt =====
-- internal/join/witness.go: the states that a walk can reach, and that it visits no others.
use cloudarq.Prelude.{
  ℕ, zero, suc, ◌+◌, ◌⊎◌, ◌≡◌, refl, ◌∙◌, inl, inr, true, ◌||◌, List, [], ◌∷◌, ◌++◌, none, some,
  All, All-append, Some, arith, Bool-cases, Option-cases, subst,
}
use cloudarq.Text.Bytes.{Bytes}
use cloudarq.Eval.Glob.{Runes}
use cloudarq.Join.Walk.{
  Position, WalkStep, Walk, skips, visit_all, entered, visit, visit_each, skip_stars, accepting,
  consume, extended, next_level, first_accepting, Outcome, found, gave_up, decide_level,
  after_level, levels, start_at, start, walk, exhausted, has_seen, state_key,
}

-- A position is reached by runes: from the start, past a star, or over a rune.
pub data Reach (units : List Runes) : Position → Runes → Type 0 where
  begins : Reach units (start_at units) []
  skipped :
      {at next : Position} {text : Runes}
      → Reach units at text
      → Some (λ x. x ≡ next) (skips units at)
      → Reach units next text
  taken :
      {at next : Position} {text : Runes} {r : ℕ}
      → Reach units at text
      → consume units at ≡ some (r, next)
      → Reach units next (text ++ r ∷ [])

abbrev pub IsReached : List Runes → WalkStep → Type 0
IsReached units s = Reach units s.at s.text

module _ (units : List Runes) where
  skips-Reach :
      {at : Position} {text : Runes}
      → Reach units at text
      → (ats : List Position)
      → ((next : Position) → Some (λ x. x ≡ next) ats → Some (λ x. x ≡ next) (skips units at))
      → All (λ next. Reach units next text) ats
  skips-Reach r [] f = tt
  skips-Reach r (next ∷ ats) f =
      (skipped r (f next (inl refl)), skips-Reach r ats (λ x h. f x (inr h)))

  visit_all-IsReached :
      (go : WalkStep → Walk → Walk)
      → ((s : WalkStep) (w : Walk)
          → IsReached units s
          → All (IsReached units) w.out
          → All (IsReached units) (go s w).out)
      → (text : Runes) (ats : List Position) (w : Walk) → All (λ at. Reach units at text) ats
      → All (IsReached units) w.out
      → All (IsReached units) (visit_all go text ats w).out
  unfolding visit_all
  visit_all-IsReached go f text [] w h k = k
  visit_all-IsReached go f text (at ∷ ats) w h k =
      visit_all-IsReached go f text ats _ h.1 (f (record { at = at; text = text }) w h.0 k)

  visit-IsReached :
      (fuel bound : ℕ) (s : WalkStep) (w : Walk)
      → IsReached units s
      → All (IsReached units) w.out
      → All (IsReached units) (visit fuel units bound s w).out
  unfolding visit entered
  visit-IsReached zero bound s w h k = k
  visit-IsReached (suc fuel) bound s w h k =
      elim (Bool-cases (exhausted bound w.seen || has_seen w.seen (state_key s.at))) [
        | inl e ↦ rw e k
        | inr e ↦ rw e (
            visit_all-IsReached (visit fuel units bound) (visit-IsReached fuel bound) s.text
              (skips units s.at) (entered s w) (skips-Reach h (skips units s.at) (λ x m. m))
              (All-append (IsReached units) w.out (s ∷ []) k (h, tt)))
      ]

  visit_each-IsReached :
      (fuel bound : ℕ) (states : List WalkStep) (w : Walk)
      → All (IsReached units) states
      → All (IsReached units) w.out
      → All (IsReached units) (visit_each fuel units bound states w).out
  unfolding visit_each
  visit_each-IsReached fuel bound [] w h k = k
  visit_each-IsReached fuel bound (s ∷ states) w h k =
      visit_each-IsReached fuel bound states _ h.1 (visit-IsReached fuel bound s w h.0 k)

  pub skip_stars-IsReached :
      (bound : ℕ) (seen : List Bytes) (states : List WalkStep)
      → All (IsReached units) states
      → All (IsReached units) (skip_stars units bound seen states).out
  unfolding skip_stars
  skip_stars-IsReached bound seen states h = visit_each-IsReached bound bound states _ h tt

  pub next_level-IsReached :
      (frontier : List WalkStep)
      → All (IsReached units) frontier
      → All (IsReached units) (next_level units frontier)
  unfolding next_level extended
  next_level-IsReached [] h = tt
  next_level-IsReached (s ∷ frontier) h = elim (Option-cases (consume units s.at)) [
    | inl e ↦ rw e (next_level-IsReached frontier h.1)
    | inr ((r, next), e) ↦ rw e (taken h.0 e, next_level-IsReached frontier h.1)
  ]

  first_accepting-Reach :
      (frontier : List WalkStep) (text : Runes)
      → All (IsReached units) frontier
      → first_accepting units frontier ≡ some text
      → (at : Position) × Reach units at text × (accepting units at ≡ true)
  unfolding first_accepting
  first_accepting-Reach [] text h e = cc e
  first_accepting-Reach (s ∷ frontier) text h e = elim (Bool-cases (accepting units s.at)) [
    | inl a ↦
        let same : s.text ≡ text = ground arith in (s.at, subst (Reach units s.at) same h.0, a)
    | inr a ↦ first_accepting-Reach frontier text h.1 (rw a at e)
  ]

  pub after_level_found :
      (bound : ℕ) (seen : List Bytes) (out : List WalkStep) (onward : Outcome) (text : Runes)
      → after_level units bound seen out onward ≡ found text
      → (first_accepting units out ≡ some text)
        ⊎ ((first_accepting units out ≡ none) × (onward ≡ found text))
  unfolding after_level decide_level
  after_level_found bound seen [] onward text e = cc e
  after_level_found bound seen (s ∷ out) onward text e =
      elim (Option-cases (first_accepting units (s ∷ out))) [
        | inl n ↦ elim (Bool-cases (exhausted bound seen)) [
          | inl x ↦ let bad : gave_up ≡ found text = rw (n, x) at e in cc bad
          | inr x ↦ inr (n, rw (n, x) at e)
        ]
        | inr (t, y) ↦ inl (let same : found t ≡ found text = rw y at e in y ∙ cc same)
      ]

  levels-Reach :
      (fuel bound : ℕ) (w : Walk) (text : Runes)
      → All (IsReached units) w.out
      → levels fuel units bound w ≡ found text
      → (at : Position) × Reach units at text × (accepting units at ≡ true)
  unfolding levels
  levels-Reach zero bound w text h e = cc e
  levels-Reach (suc fuel) bound w text h e =
      elim (after_level_found bound w.seen w.out
        (levels fuel units bound (skip_stars units bound w.seen (next_level units w.out))) text e) [
          | inl a ↦ first_accepting-Reach w.out text h a
          | inr (_, onward) ↦
              levels-Reach fuel bound _ text
                (skip_stars-IsReached bound w.seen (next_level units w.out)
                  (next_level-IsReached w.out h))
                onward
        ]

  -- What a walk finds is the text of an accepting state that it can reach.
  pub walk-Reach :
      (bound : ℕ) (text : Runes)
      → walk units bound ≡ found text
      → (at : Position) × Reach units at text × (accepting units at ≡ true)
  unfolding walk start
  walk-Reach bound text e =
      levels-Reach (bound + 1) bound _ text
        (skip_stars-IsReached bound [] (start units ∷ []) (begins, tt)) e
