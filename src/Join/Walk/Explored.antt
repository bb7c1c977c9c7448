-- ===== src/Join/Walk/Explored.antt =====
-- internal/join/witness.go: level by level, the walk has seen all that so many runes reach.
use cloudarq.Prelude.{
  ℕ, ◌+◌, ◌≤◌, ◌<◌, ◌≡◌, ap, ◌∙◌, sym, subst, inl, inr, true, false, ◌||◌, List, [], ◌∷◌, ◌++◌, map,
  All, All-append, All-map, any-append, length, arith, none, some, Bool-cases, Option-cases, Some,
  length-append,
}
use cloudarq.Text.Bytes.{Bytes, bytes_eq, bytes_eq_iff}
use cloudarq.Eval.Glob.{Runes}
use cloudarq.Join.Walk.{
  Position, WalkStep, Walk, skips, state_key, has_seen, exhausted, skip_stars, next_level, extended,
  consume, accepting, first_accepting, start_at, start,
}
use cloudarq.Join.Walk.Key.{state_key-injective}
use cloudarq.Join.Walk.Reach.{
  Reach, begins, skipped, taken, IsReached, next_level-IsReached, skip_stars-IsReached,
}
use cloudarq.Join.Walk.Sound.{Reach-Reached, Reached-length}
use cloudarq.Join.Walk.Grows.{Grows, Marked, has_key_of}
use cloudarq.Join.Walk.Ends.{next_walk, next-Grows, start-Grows, out-depth}

pub Reach-length :
    {us : List Runes} {at : Position} {text : Runes} → Reach us at text → length us ≡ length at
Reach-length {us} {at} {text} r = Reached-length us at text (Reach-Reached r)

-- What holds of all steps of a list holds of a position with the key of one of them.
pub at_key :
    (us : List Runes) (Q : Position → Type 0) (steps : List WalkStep) (at : Position)
    → length us ≡ length at
    → All (IsReached us) steps
    → All (λ s. Q s.at) steps
    → has_key_of steps (state_key at) ≡ true
    → Q at
at_key us Q [] at l r h e = cc e
at_key us Q (s ∷ steps) at l r h e = elim (Bool-cases (bytes_eq (state_key at) (state_key s.at))) [
  | inl y ↦
      let same : state_key at ≡ state_key s.at = (bytes_eq_iff _ _).0 y in
      subst Q (state_key-injective s.at at (sym (Reach-length r.0) ∙ l) (sym same)) h.0
  | inr n ↦ at_key us Q steps at l r.1 h.1 (ground arith)
]

-- The states of the earlier levels do not accept, and what is reached over one rune from them is
-- seen; so is all that is reached by at most `n` runes, the text of the states of this level.
pub record Explored (units : List Runes) (bound n : ℕ) (old : List WalkStep) (w : Walk)
    : Type 0 where
  pub keys : (k : Bytes) → has_seen w.seen k ≡ (has_key_of old k || has_key_of w.out k)
  pub reached : All (IsReached units) (old ++ w.out)
  pub depth : All (λ s. length s.text ≡ n) w.out
  pub refused : All (λ s. accepting units s.at ≡ false) old
  pub takes :
      exhausted bound w.seen ≡ false
      → All
          (λ s.
            (r : ℕ) (next : Position) → consume units s.at ≡ some (r, next) → Marked w.seen next)
          old
  pub skips_seen :
      exhausted bound w.seen ≡ false
      → All (λ s. All (Marked w.seen) (skips units s.at)) (old ++ w.out)
  pub start_seen : exhausted bound w.seen ≡ false → Marked w.seen (start_at units)
  pub all_old :
      (at : Position) (text : Runes)
      → Reach units at text
      → length text < n
      → has_key_of old (state_key at) ≡ true

has_key_of-append :
    (xs ys : List WalkStep) (k : Bytes)
    → has_key_of (xs ++ ys) k ≡ (has_key_of xs k || has_key_of ys k)
has_key_of-append xs ys k = any-append (λ s. bytes_eq k (state_key s.at)) xs ys

pub All-left {ℓ} : {A : Type ℓ} (P : A → Type 0) (xs ys : List A) → All P (xs ++ ys) → All P xs
All-left P [] ys h = tt
All-left P (x ∷ xs) ys h = (h.0, All-left P xs ys h.1)

All-right {ℓ} : {A : Type ℓ} (P : A → Type 0) (xs ys : List A) → All P (xs ++ ys) → All P ys
All-right P [] ys h = h
All-right P (x ∷ xs) ys h = All-right P xs ys h.1

All-Some :
    (Q : Position → Type 0) (ats : List Position) (at : Position)
    → All Q ats
    → Some (λ x. x ≡ at) ats
    → Q at
All-Some Q [] at h m = absurd m
All-Some Q (x ∷ ats) at h (inl e) = subst Q e h.0
All-Some Q (x ∷ ats) at h (inr m) = All-Some Q ats at h.1 m

module _ {units : List Runes} {bound n : ℕ} {old : List WalkStep} {w : Walk}
    (x : Explored units bound n old w) (room : exhausted bound w.seen ≡ false) where
  seen_key : (at : Position) → Marked w.seen at → has_key_of (old ++ w.out) (state_key at) ≡ true
  seen_key at m = ground (arith, x.keys (state_key at), has_key_of-append old w.out (state_key at))

  pub skip_seen :
      (at next : Position) {text : Runes}
      → Reach units at text
      → Marked w.seen at
      → Some (λ y. y ≡ next) (skips units at)
      → Marked w.seen next
  skip_seen at next r m k =
      All-Some (Marked w.seen) (skips units at) next
        (at_key units (λ p. All (Marked w.seen) (skips units p)) (old ++ w.out) at (Reach-length r)
          x.reached (x.skips_seen room) (seen_key at m))
        k

  pub take_seen :
      {at next : Position} {text : Runes} {r : ℕ}
      → Reach units at text
      → has_key_of old (state_key at) ≡ true
      → consume units at ≡ some (r, next)
      → Marked w.seen next
  take_seen {at} {next} {text} {r} h m e =
      at_key units (λ p. (q : ℕ) (y : Position) → consume units p ≡ some (q, y) → Marked w.seen y)
        old at (Reach-length h) (All-left _ old w.out x.reached) (x.takes room) m r next e

  -- All that is reached by so many runes is seen.
  all_seen :
      {at : Position} {text : Runes} → Reach units at text → length text ≤ n → Marked w.seen at
  all_seen begins l = x.start_seen room
  all_seen (skipped {at} {next} r m) l = skip_seen at next r (all_seen r l) m
  all_seen (taken {at} {next} {text} {r} h e) l =
      take_seen h (x.all_old at text h (omega (arith, l, length-append text (r ∷ [])))) e

-- A level with no accepting state.
none_accepts :
    (units : List Runes) (frontier : List WalkStep)
    → first_accepting units frontier ≡ none
    → All (λ s. accepting units s.at ≡ false) frontier
unfolding first_accepting
none_accepts units [] e = tt
none_accepts units (s ∷ frontier) e = elim (Bool-cases (accepting units s.at)) [
  | inl a ↦ let bad : some s.text ≡ none = rw a at e in cc bad
  | inr a ↦ (a, none_accepts units frontier (rw a at e))
]

-- What the next level is made of.
next_level-takes :
    (units : List Runes) (Q : Position → Type 0) (frontier : List WalkStep)
    → All Q (map (λ s. s.at) (next_level units frontier))
    → All (λ s. (r : ℕ) (next : Position) → consume units s.at ≡ some (r, next) → Q next) frontier
unfolding next_level extended
next_level-takes units Q [] h = tt
next_level-takes units Q (s ∷ frontier) h = elim (Option-cases (consume units s.at)) [
  | inl e ↦ (λ r next f. cc (e, f), next_level-takes units Q frontier (rw e at h))
  | inr ((q, at), e) ↦
      let (here, rest) : Q at × All Q (map (λ s. s.at) (next_level units frontier)) = rw e at h in
      (
        λ r next f. let same : at ≡ next = cc (e, f) in subst Q same here,
        next_level-takes units Q frontier rest,
      )
]

-- What closing a level adds to the states seen is the level.
module _ {units : List Runes} {bound n : ℕ} {seen : List Bytes} {w : Walk} {goals : List Position}
    (g : Grows units bound n (record { seen = seen; out = [] }) w goals) where
  out_keys : (k : Bytes) → has_seen w.seen k ≡ (has_seen seen k || has_key_of w.out k)
  out_keys k = g.keys k ∙ ap (λ steps. has_seen seen k || has_key_of steps k) (sym g.adds)

  out_closes :
      exhausted bound w.seen ≡ false → All (λ s. All (Marked w.seen) (skips units s.at)) w.out
  out_closes e =
      subst (All (λ (s : WalkStep). All (Marked w.seen) (skips units s.at))) (sym g.adds)
        (g.closes e).1

  stays_seen : (at : Position) → Marked seen at → Marked w.seen at
  stays_seen at m = ground (arith, g.keys (state_key at))

pub start-Explored :
    (units : List Runes) (bound : ℕ)
    → Explored units bound 0 [] (skip_stars units bound [] (start units ∷ []))
unfolding start has_seen
start-Explored units bound =
    let g = start-Grows units bound in
    record {
      keys = out_keys g;
      reached = skip_stars-IsReached units bound [] (start units ∷ []) (begins, tt);
      depth = out-depth units bound g;
      refused = tt;
      takes = λ e. tt;
      skips_seen = out_closes g;
      start_seen = λ e. (g.closes e).0.0;
      all_old = λ at text r l. absurd (omega arith);
    }

pub next-Explored :
    (units : List Runes) (bound n : ℕ) (old : List WalkStep) (w : Walk)
    → Explored units bound n old w
    → exhausted bound w.seen ≡ false
    → first_accepting units w.out ≡ none
    → Explored units bound (n + 1) (old ++ w.out) (next_walk units bound w)
next-Explored units bound n old w x room a =
    let g = next-Grows units bound n w x.depth in
    let later : Walk = next_walk units bound w in
    record {
      keys = λ k. ground (arith, out_keys g k, x.keys k, has_key_of-append old w.out k);
      reached = All-append (IsReached units) (old ++ w.out) later.out x.reached (
          skip_stars-IsReached units bound w.seen (next_level units w.out)
            (next_level-IsReached units w.out (All-right (IsReached units) old w.out x.reached)));
      depth = out-depth units bound g;
      refused = All-append _ old w.out x.refused (none_accepts units w.out a);
      takes = λ e.
          All-append _ old w.out
            (All-map
              (λ s.
                (r : ℕ) (next : Position)
                → consume units s.at ≡ some (r, next)
                → Marked w.seen next)
              (λ s.
                (r : ℕ) (next : Position)
                → consume units s.at ≡ some (r, next)
                → Marked later.seen next)
              old (λ s f r next c. stays_seen g next (f r next c)) (x.takes room))
            (next_level-takes units (Marked later.seen) w.out (g.closes e).0);
      skips_seen = λ e.
          All-append _ (old ++ w.out) later.out
            (All-map (λ s. All (Marked w.seen) (skips units s.at))
              (λ s. All (Marked later.seen) (skips units s.at)) (old ++ w.out)
              (λ s. All-map (Marked w.seen) (Marked later.seen) (skips units s.at) (stays_seen g))
              (x.skips_seen room))
            (out_closes g e);
      start_seen = λ e. stays_seen g (start_at units) (x.start_seen room);
      all_old = λ at text r l. seen_key x room at (all_seen x room r (omega arith));
    }
