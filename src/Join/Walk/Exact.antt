-- ===== src/Join/Walk/Exact.antt =====
-- internal/join/witness.go: what the walk finds is shortest, and where it runs out there is nothing.
use cloudarq.Prelude.{
  ℕ, zero, suc, ◌+◌, ◌≤◌, ◌≡◌, ap, subst, inl, inr, true, false, List, [], ◌∷◌, ◌++◌, All, length,
  leb, arith, some, Bool-cases,
}
use cloudarq.Eval.Glob.{Runes}
use cloudarq.Join.Walk.{
  Position, WalkStep, Walk, state_key, exhausted, skip_stars, accepting, first_accepting, start,
  Outcome, found, ran_out, levels, walk,
}
use cloudarq.Join.Walk.Reach.{Reach, begins, skipped, taken, IsReached}
use cloudarq.Join.Walk.Grows.{Marked, has_key_of}
use cloudarq.Join.Walk.Ends.{next_walk, next-Grows, start-Grows, after_level-cases}
use cloudarq.Eval.Glob.Fits.{Fits}
use cloudarq.Join.Walk.Complete.{Fits-Reach}
use cloudarq.Join.Walk.Explored.{
  start-Explored, next-Explored, Explored, Reach-length, at_key, All-left, skip_seen, take_seen,
}

-- No accepting state is reached by fewer runes than the level has.
pub Explored-shortest :
    {units : List Runes} {bound n : ℕ} {old : List WalkStep} {w : Walk}
    → Explored units bound n old w
    → {at : Position} {text : Runes} → Reach units at text
    → accepting units at ≡ true
    → n ≤ length text
Explored-shortest {units} {bound} {n} {old} {w} x {at} {text} r a =
    elim (Bool-cases (leb n (length text))) [
      | inl e ↦ ground arith
      | inr e ↦ absurd (
          cc (
            a,
            at_key units (λ p. accepting units p ≡ false) old at (Reach-length r)
                (All-left (IsReached units) old w.out x.reached) x.refused
                (x.all_old at text r (ground arith)),
          ))
    ]

module _ {units : List Runes} {bound n : ℕ} {old : List WalkStep} {w : Walk}
    (x : Explored units bound n old w) (room : exhausted bound w.seen ≡ false)
    (nil : w.out ≡ []) where
  in_old : (at : Position) → Marked w.seen at → has_key_of old (state_key at) ≡ true
  in_old at m =
      let none_left : has_key_of w.out (state_key at) ≡ false =
        ap (λ steps. has_key_of steps (state_key at)) nil in
      ground (arith, x.keys (state_key at))

  every_seen : {at : Position} {text : Runes} → Reach units at text → Marked w.seen at
  every_seen begins = x.start_seen room
  every_seen (skipped {at} {next} r m) = skip_seen x room at next r (every_seen r) m
  every_seen (taken {at} h e) = take_seen x room h (in_old at (every_seen h)) e

  -- Where a level is empty before the bound is reached, no state that can be reached accepts.
  pub Explored-none :
      {at : Position} {text : Runes} → Reach units at text → accepting units at ≡ false
  Explored-none {at} {text} r =
      at_key units (λ p. accepting units p ≡ false) old at (Reach-length r)
        (All-left (IsReached units) old w.out x.reached) x.refused (in_old at (every_seen r))

-- How a run of the levels ends.
abbrev Ended : List Runes → ℕ → Outcome → Type 0
Ended units bound (found text) =
    (at : Position) (other : Runes)
    → Reach units at other
    → accepting units at ≡ true
    → length text ≤ length other
Ended units bound ran_out =
    (at : Position) (other : Runes) → Reach units at other → accepting units at ≡ false
Ended units bound _ = Unit

first_accepting-length :
    (units : List Runes) (n : ℕ) (frontier : List WalkStep) (text : Runes)
    → All (λ s. length s.text ≡ n) frontier
    → first_accepting units frontier ≡ some text
    → length text ≡ n
unfolding first_accepting
first_accepting-length units n [] text h e = cc e
first_accepting-length units n (s ∷ frontier) text h e = elim (Bool-cases (accepting units s.at)) [
  | inl a ↦
      let found_here : some s.text ≡ some text = rw a at e in
      let same : s.text ≡ text = cc found_here in subst (λ t. length t ≡ n) same h.0
  | inr a ↦ first_accepting-length units n frontier text h.1 (rw a at e)
]

levels-Ended :
    (units : List Runes) (bound fuel n : ℕ) (old : List WalkStep) (w : Walk)
    → Explored units bound n old w
    → (w.out ≡ [] → exhausted bound w.seen ≡ false)
    → Ended units bound (levels fuel units bound w)
unfolding levels
levels-Ended units bound zero n old w x room = tt
levels-Ended units bound (suc fuel) n old w x room =
    after_level-cases (Ended units bound) units bound w.seen w.out _
      (λ nil at other r. Explored-none x (room nil) nil r)
      (λ text a at other r accepts.
        let depth = first_accepting-length units n w.out text x.depth a in
        omega (arith, Explored-shortest x r accepts))
      tt
      λ busy a left.
        let g = next-Grows units bound n w x.depth in
        let same : (next_walk units bound w).out ≡ []
            → exhausted bound (next_walk units bound w).seen ≡ false =
          λ nil. unfold exhausted in ground (arith, g.size, ap length g.adds, ap length nil) in
        levels-Ended units bound fuel (n + 1) (old ++ w.out) (next_walk units bound w)
          (next-Explored units bound n old w x left a) same

start_room :
    (units : List Runes) (bound : ℕ)
    → 1 ≤ bound
    → (skip_stars units bound [] (start units ∷ [])).out ≡ []
    → exhausted bound (skip_stars units bound [] (start units ∷ [])).seen ≡ false
unfolding exhausted
start_room units bound h nil =
    let g = start-Grows units bound in ground (arith, g.size, ap length g.adds, ap length nil)

walk-Ended : (units : List Runes) (bound : ℕ) → 1 ≤ bound → Ended units bound (walk units bound)
unfolding walk
walk-Ended units bound h =
    levels-Ended units bound (bound + 1) 0 [] _ (start-Explored units bound)
      (start_room units bound h)

-- A text that the walk finds, within a bound of one state at least, is no longer than any string that
-- fits each of the patterns.
pub walk-shortest :
    (units : List Runes) (bound : ℕ) (text w : Runes)
    → 1 ≤ bound
    → walk units bound ≡ found text
    → All (λ u. Fits u w) units
    → length text ≤ length w
walk-shortest units bound text w h e f =
    let (at, other, r, a, l) = Fits-Reach units w f in
    let ended : Ended units bound (found text) =
      subst (Ended units bound) e (walk-Ended units bound h) in
    omega (arith, ended at other r a)

-- Where the walk has no state left before a bound of one state at least is reached, no string fits
-- all of the patterns.
pub walk-decides :
    (units : List Runes) (bound : ℕ) (w : Runes)
    → 1 ≤ bound
    → walk units bound ≡ ran_out
    → ¬ (All (λ u. Fits u w) units)
walk-decides units bound w h e f =
    let (at, other, r, a, l) = Fits-Reach units w f in
    let ended : Ended units bound ran_out =
      subst (Ended units bound) e (walk-Ended units bound h) in
    cc (a, ended at other r)
