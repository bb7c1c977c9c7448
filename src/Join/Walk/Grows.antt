-- ===== src/Join/Walk/Grows.antt =====
-- internal/join/witness.go: what closing a level does to the states seen and to the level.
use cloudarq.Prelude.{
  ℕ, zero, suc, ◌+◌, ◌≤◌, ◌≡◌, ap, ◌∙◌, sym, inl, inr, Bool, true, false, ◌||◌, List, [], ◌∷◌, ◌++◌,
  append_assoc, append-nil, map, length-append, any-append, All, All-append, All-map, any, length,
  arith, Bool-cases,
}
use cloudarq.Text.Bytes.{Bytes, bytes_eq, bytes_eq_self}
use cloudarq.Eval.Glob.{Runes}
use cloudarq.Join.Walk.{
  Position, WalkStep, Walk, skips, visit_all, entered, visit, visit_each, skip_stars, exhausted,
  has_seen, state_key,
}

abbrev pub Marked : List Bytes → Position → Type 0
Marked seen at = has_seen seen (state_key at) ≡ true

-- Some step of the list has the key.
abbrev pub has_key_of : List WalkStep → Bytes → Bool
has_key_of steps k = any (λ s. bytes_eq k (state_key s.at)) steps

-- The steps added are the states seen since. Unless the bound is reached, the goals are seen, and what
-- the new steps skip to is seen.
pub record Grows (units : List Runes) (bound n : ℕ) (before after : Walk) (goals : List Position)
    : Type 0 where
  pub new : List WalkStep
  pub adds : after.out ≡ before.out ++ new
  pub size : length after.seen ≡ length before.seen + length new
  pub bounded : length before.seen ≤ bound → length after.seen ≤ bound
  pub keys : (k : Bytes) → has_seen after.seen k ≡ (has_seen before.seen k || has_key_of new k)
  pub depth : All (λ s. length s.text ≡ n) new
  pub closes :
      exhausted bound after.seen ≡ false
      → All (Marked after.seen) goals × All (λ s. All (Marked after.seen) (skips units s.at)) new

module _ (units : List Runes) (bound n : ℕ) where
  -- Nothing is visited.
  stays-Grows :
      (w : Walk) (goals : List Position)
      → (exhausted bound w.seen ≡ false → All (Marked w.seen) goals)
      → Grows units bound n w w goals
  stays-Grows w goals f = record {
    new = [];
    adds = sym (append-nil w.out);
    size = omega arith;
    bounded = λ h. h;
    keys = λ k. ground arith;
    depth = tt;
    closes = λ h. (f h, tt);
  }

  Marked-mono :
      (a b : List Bytes) (new : List WalkStep)
      → ((k : Bytes) → has_seen b k ≡ (has_seen a k || has_key_of new k))
      → (ats : List Position) → All (Marked a) ats
      → All (Marked b) ats
  Marked-mono a b new keys ats h =
      All-map (Marked a) (Marked b) ats (λ at m. ground (arith, keys (state_key at))) h

  Grows-trans :
      (a b c : Walk) (goals more : List Position)
      → Grows units bound n a b goals
      → Grows units bound n b c more
      → Grows units bound n a c (goals ++ more)
  unfolding exhausted
  Grows-trans a b c goals more g h = record {
    new = g.new ++ h.new;
    adds = h.adds ∙ ap (λ x. x ++ h.new) g.adds ∙ append_assoc a.out g.new h.new;
    size = omega (arith, g.size, h.size, length-append g.new h.new);
    bounded = λ x. h.bounded (g.bounded x);
    keys = λ k.
        ground
          (arith, g.keys k, h.keys k, any-append (λ s. bytes_eq k (state_key s.at)) g.new h.new);
    depth = All-append _ g.new h.new g.depth h.depth;
    closes = λ x.
        let (early, done) = g.closes (ground (arith, h.size)) in
        let (late, rest) = h.closes x in
        (
          All-append _ goals more (Marked-mono b.seen c.seen h.new h.keys goals early) late,
          All-append _ g.new h.new
              (All-map (λ s. All (Marked b.seen) (skips units s.at))
                (λ s. All (Marked c.seen) (skips units s.at)) g.new
                (λ s. Marked-mono b.seen c.seen h.new h.keys (skips units s.at)) done)
              rest,
        );
  }

  visit_all-Grows :
      (fuel : ℕ) (go : WalkStep → Walk → Walk)
      → ((s : WalkStep) (w : Walk)
          → bound ≤ fuel + length w.seen
          → length s.text ≡ n
          → Grows units bound n w (go s w) (s.at ∷ []))
      → (text : Runes) (ats : List Position) (w : Walk) → bound ≤ fuel + length w.seen
      → length text ≡ n
      → Grows units bound n w (visit_all go text ats w) ats
  unfolding visit_all
  visit_all-Grows fuel go f text [] w h e = stays-Grows w [] (λ h. tt)
  visit_all-Grows fuel go f text (at ∷ ats) w h e =
      let s : WalkStep = record { at = at; text = text } in
      let first = f s w h e in
      let rest = visit_all-Grows fuel go f text ats (go s w) (omega (arith, first.size)) e in
      Grows-trans w (go s w) _ (at ∷ []) ats first rest

  -- A step that is entered adds its own key, before the steps behind it add theirs.
  enter-Grows :
      (s : WalkStep) (w after : Walk)
      → exhausted bound w.seen ≡ false
      → length s.text ≡ n
      → Grows units bound n (entered s w) after (skips units s.at)
      → Grows units bound n w after (s.at ∷ [])
  unfolding entered has_seen exhausted
  enter-Grows s w after x e g = record {
    new = s ∷ g.new;
    adds = g.adds ∙ append_assoc w.out (s ∷ []) g.new;
    size = omega (arith, g.size);
    bounded = λ h. g.bounded (ground arith);
    keys = λ k. ground (arith, g.keys k);
    depth = (e, g.depth);
    closes = λ y.
        let (ahead, done) = g.closes y in
        (
          (ground (arith, g.keys (state_key s.at), bytes_eq_self (state_key s.at)), tt),
          (ahead, done),
        );
  }

  visit-Grows :
      (fuel : ℕ) (s : WalkStep) (w : Walk)
      → bound ≤ fuel + length w.seen
      → length s.text ≡ n
      → Grows units bound n w (visit fuel units bound s w) (s.at ∷ [])
  unfolding visit
  visit-Grows zero s w h e =
      let full : exhausted bound w.seen ≡ true = unfold exhausted in ground arith in
      stays-Grows w (s.at ∷ []) (λ x. cc (full, x))
  visit-Grows (suc fuel) s w h e = elim (Bool-cases (exhausted bound w.seen)) [
    | inl x ↦ rw x (stays-Grows w (s.at ∷ []) (λ y. cc (x, y)))
    | inr x ↦ elim (Bool-cases (has_seen w.seen (state_key s.at))) [
      | inl y ↦ rw (x, y) (stays-Grows w (s.at ∷ []) (λ _. (y, tt)))
      | inr y ↦
          let more : bound ≤ fuel + length (entered s w).seen = unfold entered in omega arith in
          rw (x, y)
            (enter-Grows s w _ x e (
              visit_all-Grows fuel (visit fuel units bound) (visit-Grows fuel) s.text
                (skips units s.at) (entered s w) more e))
    ]
  ]

  visit_each-Grows :
      (states : List WalkStep) (w : Walk)
      → All (λ s. length s.text ≡ n) states
      → Grows units bound n w (visit_each bound units bound states w) (map (λ s. s.at) states)
  unfolding visit_each
  visit_each-Grows [] w h = stays-Grows w [] (λ _. tt)
  visit_each-Grows (s ∷ states) w h =
      Grows-trans w (visit bound units bound s w) _ (s.at ∷ []) (map (λ t. t.at) states)
        (visit-Grows bound s w (omega arith) h.0)
        (visit_each-Grows states (visit bound units bound s w) h.1)

  -- Closing a level under skipped stars: the states given are seen, and so is all that they skip to,
  -- unless the bound is reached.
  pub skip_stars-Grows :
      (seen : List Bytes) (states : List WalkStep)
      → All (λ s. length s.text ≡ n) states
      → Grows units bound n
          (record { seen = seen; out = [] })
          (skip_stars units bound seen states)
          (map (λ s. s.at) states)
  unfolding skip_stars
  skip_stars-Grows seen states h = visit_each-Grows states _ h
