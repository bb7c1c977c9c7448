-- ===== src/Join/Walk.antt =====
-- internal/join/witness.go: the walk for the shortest string that every pattern matches.
pub mod Reach
pub mod Steps
pub mod Sound
pub mod Scalars
pub mod Key
pub mod Grows
pub mod Ends
pub mod Explored
pub mod Exact
pub mod Complete
use cloudarq.Prelude.{
  ℕ, zero, suc, ◌+◌, ◌^◌, Bool, true, false, not, ◌&&◌, ◌||◌, List, [], ◌∷◌, ◌++◌, map, Option,
  none, some, any, length, drop, leb, ◌==◌, if◌then◌else◌,
}
use cloudarq.Text.Bytes.{Bytes, bytes_eq}
use cloudarq.Text.Decimal.{itoa}
use cloudarq.Text.Parts.{join_parts}
use cloudarq.Text.Utf8.{runes}
use cloudarq.Text.Utf8.Runes.{string_of}
use cloudarq.Eval.Glob.{Runes, any_rune}
use cloudarq.Eval.StringSet.Build.{◌>>=◌}
use cloudarq.Text.Split.Runes.{star}

-- One position in each pattern.
abbrev pub Position : Type 0
Position = List ℕ

-- `step`: a state of the walk, and the runes that reached it.
pub record WalkStep : Type 0 where
  pub at : Position
  pub text : Runes

-- What a walk writes while it closes a level: `seen` by its keys, and `out`.
pub record Walk : Type 0 where
  pub seen : List Bytes
  pub out : List WalkStep

unfoldable pub state_key : Position → Bytes
state_key at = join_parts (b',' ∷ []) (map itoa at)

unfoldable pub exhausted : ℕ → List Bytes → Bool
exhausted bound seen = leb bound (length seen)

unfoldable pub has_seen : List Bytes → Bytes → Bool
has_seen seen k = any (bytes_eq k) seen

-- `u[at]`: none at the end of the pattern.
unfoldable pub unit_at : Runes → ℕ → Option ℕ
unit_at u p = elim (drop p u) [ [] ↦ none | c ∷ rest ↦ some c ]

unfoldable pub is_star_at : Runes → ℕ → Bool
unfolding unit_at
is_star_at u p = elim (unit_at u p) [ none ↦ false | some c ↦ c == star ]

-- The states that the loop of `visit` goes on to, in its order: each skips one star.
unfoldable pub skips : List Runes → Position → List Position
unfolding is_star_at
skips (u ∷ us) (p ∷ ps) =
    let later = map (◌∷◌ p) (skips us ps) in if is_star_at u p then (suc p ∷ ps) ∷ later else later
skips _ _ = []

-- A loop that visits states one after the other.
unfoldable pub visit_all : (WalkStep → Walk → Walk) → Runes → List Position → Walk → Walk
visit_all visit text [] w = w
visit_all visit text (at ∷ ats) w =
    visit_all visit text ats (visit (record { at = at; text = text }) w)

unfoldable pub entered : WalkStep → Walk → Walk
entered s w = record { seen = state_key s.at ∷ w.seen; out = w.out ++ s ∷ [] }

-- `visit`: a call that goes on adds a key, so the states still to be reached are fuel enough.
unfoldable pub visit : ℕ → List Runes → ℕ → WalkStep → Walk → Walk
unfolding exhausted has_seen skips visit_all entered
visit zero units bound s w = w
visit (suc fuel) units bound s w =
    let onward = visit_all (visit fuel units bound) s.text (skips units s.at) (entered s w) in
    if exhausted bound w.seen || has_seen w.seen (state_key s.at) then w else onward

-- `skipStars`, from the states already reached.
unfoldable pub visit_each : ℕ → List Runes → ℕ → List WalkStep → Walk → Walk
visit_each fuel units bound [] w = w
visit_each fuel units bound (s ∷ states) w =
    visit_each fuel units bound states (visit fuel units bound s w)

unfoldable pub skip_stars : List Runes → ℕ → List Bytes → List WalkStep → Walk
unfolding visit_each
skip_stars units bound seen states =
    visit_each bound units bound states (record { seen = seen; out = [] })

unfoldable pub accepting : List Runes → Position → Bool
accepting (u ∷ us) (p ∷ ps) = p == length u && accepting us ps
accepting _ _ = true

-- The switch of `consume` on a rune of a pattern: the rune to take, whether a literal fixed it, and how
-- far the position moves. None where two literals disagree.
abbrev pub Choice : Type 0
Choice = (ℕ × Bool) × ℕ

unfoldable pub choose : ℕ → Bool → ℕ → Option Choice
choose r fixed c =
    if c == star
    then some ((r, fixed), 0)
    else if c == any_rune
    then some ((r, fixed), 1)
    else if fixed && not (c == r)
    then none
    else some ((c, true), 1)

-- The loop of `consume`.
unfoldable pub consume_from : ℕ → Bool → List Runes → Position → Option (ℕ × Position)
unfolding choose unit_at
consume_from r fixed (u ∷ us) (p ∷ ps) = do
  c ← unit_at u p
  ((q, now), n) ← choose r fixed c
  (final, next) ← consume_from q now us ps
  some (final, (p + n) ∷ next)
consume_from r fixed _ _ = some (r, [])

unfoldable pub consume : List Runes → Position → Option (ℕ × Position)
unfolding consume_from
consume units at = consume_from b'x' false units at

-- The state behind one that can take a rune.
unfoldable pub extended : Runes → Option (ℕ × Position) → List WalkStep
extended text none = []
extended text (some (r, at)) = record { at = at; text = text ++ r ∷ [] } ∷ []

unfoldable pub next_level : List Runes → List WalkStep → List WalkStep
unfolding consume extended
next_level units [] = []
next_level units (s ∷ frontier) = extended s.text (consume units s.at) ++ next_level units frontier

-- The first state of the level that accepts.
unfoldable pub first_accepting : List Runes → List WalkStep → Option Runes
unfolding accepting
first_accepting units [] = none
first_accepting units (s ∷ frontier) =
    if accepting units s.at then some s.text else first_accepting units frontier

-- How a walk ends: with a string, at the bound, or with no state left to visit. `no_fuel` is not an
-- end of the code.
pub data Outcome : Type 0 where
  found : Runes → Outcome
  gave_up : Outcome
  ran_out : Outcome
  no_fuel : Outcome

-- What a round of the loop does with its level, before the next one.
unfoldable pub decide_level : Option Runes → Bool → Outcome → Outcome
decide_level (some text) stop onward = found text
decide_level none stop onward = if stop then gave_up else onward

unfoldable pub after_level : List Runes → ℕ → List Bytes → List WalkStep → Outcome → Outcome
unfolding decide_level first_accepting exhausted
after_level units bound seen [] onward = ran_out
after_level units bound seen (s ∷ rest) onward =
    decide_level (first_accepting units (s ∷ rest)) (exhausted bound seen) onward

-- The loop of `shortestShared`, once a level is closed.
unfoldable pub levels : ℕ → List Runes → ℕ → Walk → Outcome
unfolding after_level skip_stars next_level
levels zero units bound w = no_fuel
levels (suc fuel) units bound w =
    let onward = levels fuel units bound (skip_stars units bound w.seen (next_level units w.out)) in
    after_level units bound w.seen w.out onward

unfoldable pub start_at : List Runes → Position
start_at [] = []
start_at (u ∷ us) = 0 ∷ start_at us

unfoldable pub start : List Runes → WalkStep
unfolding start_at
start units = record { at = start_at units; text = [] }

-- Every level but the last adds a state, so `bound + 1` rounds are enough.
unfoldable pub walk : List Runes → ℕ → Outcome
unfolding levels start
walk units bound = levels (bound + 1) units bound (skip_stars units bound [] (start units ∷ []))

unfoldable pub text_of : Outcome → Option Bytes
text_of (found text) = some (string_of text)
text_of _ = none

unfoldable pub shortest_shared : List Bytes → ℕ → Option Bytes
unfolding walk text_of
shortest_shared patterns bound = text_of (walk (map runes patterns) bound)

abbrev pub walk_bound : ℕ
walk_bound = 2 ^ 16

unfoldable pub shared_instance : List Bytes → Option Bytes
shared_instance patterns = shortest_shared patterns walk_bound
