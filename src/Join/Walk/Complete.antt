-- ===== src/Join/Walk/Complete.antt =====
-- internal/join/witness.go: where some string fits every pattern, a state that accepts can be reached,
-- by as many runes as the string has.
use cloudarq.Prelude.{
  ℕ, zero, suc, ◌+◌, ◌≡◌, ◌≢◌, refl, ap, ◌∙◌, sym, subst, inl, inr, ◌⊎◌, Bool, true, false, not,
  ◌&&◌, List, [], ◌∷◌, ◌++◌, map, Option, some, All, Some, arith, Bool-cases, ◌==◌, length, drop,
  length-drop, length-append, ◌≤◌,
}
use cloudarq.Text.Split.Runes.{star}
use cloudarq.Eval.Glob.{Runes, any_rune}
use cloudarq.Eval.Glob.Fits.{Fits, nothing, any_run, single}
use cloudarq.Join.Walk.{
  Position, is_star_at, unit_at, skips, accepting, choose, consume_from, consume, start_at,
}
use cloudarq.Join.Walk.Reach.{Reach, begins, skipped, taken}

-- Some stars are skipped, one after the other.
data Skips (us : List Runes) (ps : Position) : Position → Type 0 where
  stays : Skips us ps ps
  skips_on : {qs rs : Position} → Skips us ps qs → Some (λ x. x ≡ rs) (skips us qs) → Skips us ps rs

Reach-Skips :
    {us : List Runes} {ps qs : Position} {text : Runes}
    → Reach us ps text
    → Skips us ps qs
    → Reach us qs text
Reach-Skips r stays = r
Reach-Skips r (skips_on s m) = skipped (Reach-Skips r s) m

Skips-trans :
    {us : List Runes} {ps qs rs : Position} → Skips us ps qs → Skips us qs rs → Skips us ps rs
Skips-trans s stays = s
Skips-trans s (skips_on t m) = skips_on (Skips-trans s t) m

Some-cons :
    (p : ℕ) (qs : Position) (ats : List Position)
    → Some (λ x. x ≡ qs) ats
    → Some (λ x. x ≡ p ∷ qs) (map (◌∷◌ p) ats)
Some-cons p qs [] m = absurd m
Some-cons p qs (at ∷ ats) (inl e) = inl (ap (◌∷◌ p) e)
Some-cons p qs (at ∷ ats) (inr m) = inr (Some-cons p qs ats m)

skips_later :
    (u : Runes) (us : List Runes) (p : ℕ) (ps qs : Position)
    → Some (λ x. x ≡ qs) (skips us ps)
    → Some (λ x. x ≡ p ∷ qs) (skips (u ∷ us) (p ∷ ps))
unfolding skips
skips_later u us p ps qs m = elim (Bool-cases (is_star_at u p)) [
  | inl e ↦ rw e (inr (Some-cons p qs (skips us ps) m))
  | inr e ↦ rw e (Some-cons p qs (skips us ps) m)
]

skips_here :
    (u : Runes) (us : List Runes) (p : ℕ) (ps : Position)
    → is_star_at u p ≡ true
    → Some (λ x. x ≡ suc p ∷ ps) (skips (u ∷ us) (p ∷ ps))
unfolding skips
skips_here u us p ps e = rw e (inl refl)

Skips-cons :
    {us : List Runes} {ps qs : Position} (u : Runes) (p : ℕ)
    → Skips us ps qs
    → Skips (u ∷ us) (p ∷ ps) (p ∷ qs)
Skips-cons u p stays = stays
Skips-cons {us} {ps} u p (skips_on {qs} {rs} s m) =
    skips_on (Skips-cons u p s) (skips_later u us p qs rs m)

-- The unit at a position, and the rest behind it.
drop_unit :
    (u : Runes) (p c : ℕ) (rest : Runes)
    → drop p u ≡ c ∷ rest
    → (unit_at u p ≡ some c) × (drop (suc p) u ≡ rest)
unfolding unit_at
drop_unit [] zero c rest e = cc e
drop_unit [] (suc p) c rest e = cc e
drop_unit (d ∷ u) zero c rest e = (ap some (cc e), cc e)
drop_unit (d ∷ u) (suc p) c rest e = drop_unit u p c rest e

star_unit : (u : Runes) (p c : ℕ) → unit_at u p ≡ some c → c ≡ star → is_star_at u p ≡ true
unfolding is_star_at
star_unit u p c e s = rw (e, is_star_at) (ground arith)

drop_end : (u : Runes) (p : ℕ) → drop p u ≡ [] → length (drop p u) ≡ 0
drop_end u p e = ap length e

-- One pattern at a rune of the string: a star that takes it stays; another unit is passed.
abbrev Takes : Runes → ℕ → ℕ → Runes → Type 0
Takes u q a w =
    ((unit_at u q ≡ some star) × Fits (drop q u) w)
    ⊎ ((c : ℕ) × (unit_at u q ≡ some c)
        × (c ≢ star)
        × ((c ≡ any_rune) ⊎ (c ≡ a))
        × Fits (drop (suc q) u) w)

clear_one :
    (us : List Runes) (ps : Position) (u : Runes) (k a : ℕ) (left pat text : Runes)
    → Fits pat text
    → text ≡ a ∷ left
    → drop k u ≡ pat
    → (q : ℕ) × Skips (u ∷ us) (k ∷ ps) (q ∷ ps) × Takes u q a left
clear_one us ps u k a left _ _ nothing e d = cc e
clear_one us ps u k a left _ _ (any_run {c} {p} {v} [] s split f) e d =
    let (here, behind) = drop_unit u k c p d in
    let (q, on, takes) = clear_one us ps u (suc k) a left p v f (sym split ∙ e) behind in
    let step = skips_here u us k ps (star_unit u k c here s) in
    (q, Skips-trans (skips_on stays step) on, takes)
clear_one us ps u k a left _ _ (any_run {c} {p} {v} (b ∷ gap) s split f) e d =
    let (here, behind) = drop_unit u k c p d in
    let eaten : left ≡ gap ++ v = cc (e, split) in
    (k, stays, inl (here ∙ ap some s, subst (λ x. Fits x left) (sym d) (any_run gap s eaten f)))
clear_one us ps u k a left _ _ (single {c} {r} {p} {v} n o f) e d =
    let (here, behind) = drop_unit u k c p d in
    let same : r ≡ a = cc e in
    let rest : v ≡ left = cc e in
    let agree : (c ≡ any_rune) ⊎ (c ≡ a) = elim o [ inl y ↦ inl y | inr y ↦ inr (y ∙ same) ] in
    (
      k,
      stays,
      inr (c, here, n, agree, subst (λ x. Fits x left) (sym behind) (subst (Fits p) rest f)),
    )

clear_end :
    (us : List Runes) (ps : Position) (u : Runes) (k : ℕ) (pat text : Runes)
    → Fits pat text
    → text ≡ []
    → drop k u ≡ pat
    → k ≤ length u
    → Skips (u ∷ us) (k ∷ ps) (length u ∷ ps)
clear_end us ps u k _ _ nothing e d h =
    let ends : length u ≡ k = omega (arith, length-drop k u, ap length d) in
    subst (λ x. Skips (u ∷ us) (k ∷ ps) (x ∷ ps)) (sym ends) stays
clear_end us ps u k _ _ (any_run {c} {p} {v} [] s split f) e d h =
    let (here, behind) = drop_unit u k c p d in
    let step = skips_here u us k ps (star_unit u k c here s) in
    let inside : suc k ≤ length u = omega (arith, length-drop k u, ap length d) in
    Skips-trans (skips_on stays step)
      (clear_end us ps u (suc k) p v f (sym split ∙ e) behind inside)
clear_end us ps u k _ _ (any_run (b ∷ gap) s split f) e d h = cc (e, split)
clear_end us ps u k _ _ (single n o f) e d h = cc e

-- The string is what is left of it in every pattern.
abbrev Lives : List Runes → Position → Runes → Type 0
Lives [] [] w = Unit
Lives (u ∷ us) (p ∷ ps) w = Fits (drop p u) w × (p ≤ length u) × Lives us ps w
Lives _ _ w = ⊥

abbrev AllTake : List Runes → Position → ℕ → Runes → Type 0
AllTake [] [] a w = Unit
AllTake (u ∷ us) (p ∷ ps) a w = Takes u p a w × AllTake us ps a w
AllTake _ _ a w = ⊥

clear_all :
    (us : List Runes) (ps : Position) (a : ℕ) (w : Runes)
    → Lives us ps (a ∷ w)
    → (qs : Position) × Skips us ps qs × AllTake us qs a w
clear_all [] [] a w h = ([], stays, tt)
clear_all [] (p ∷ ps) a w h = absurd h
clear_all (u ∷ us) [] a w h = absurd h
clear_all (u ∷ us) (p ∷ ps) a w h =
    let (q, on, takes) = clear_one us ps u p a w (drop p u) (a ∷ w) h.0 refl refl in
    let (qs, rest, all_take) = clear_all us ps a w h.2 in
    (q ∷ qs, Skips-trans on (Skips-cons u q rest), (takes, all_take))

ends_all :
    (us : List Runes) (ps : Position)
    → Lives us ps []
    → (qs : Position) × Skips us ps qs × (accepting us qs ≡ true)
unfolding accepting
ends_all [] [] h = ([], stays, refl)
ends_all [] (p ∷ ps) h = absurd h
ends_all (u ∷ us) [] h = absurd h
ends_all (u ∷ us) (p ∷ ps) h =
    let on = clear_end us ps u p (drop p u) [] h.0 refl refl h.1 in
    let (qs, rest, a) = ends_all us ps h.2 in
    (length u ∷ qs, Skips-trans on (Skips-cons u (length u) rest), ground arith)

unit_inside : (u : Runes) (p c : ℕ) → unit_at u p ≡ some c → suc p ≤ length u
unfolding unit_at
unit_inside [] zero c e = cc e
unit_inside [] (suc p) c e = cc e
unit_inside (d ∷ u) zero c e = omega arith
unit_inside (d ∷ u) (suc p) c e = omega (arith, unit_inside u p c e)

-- A unit that takes the rune is chosen, and what is settled stays the rune of the string.
Takes-choose :
    (u : Runes) (p a r : ℕ) (fixed : Bool) (w : Runes)
    → (fixed ≡ true → r ≡ a)
    → Takes u p a w
    → (c : ℕ) × (q : ℕ) × (now : Bool) × (n : ℕ) × (unit_at u p ≡ some c)
      × (choose r fixed c ≡ some ((q, now), n))
      × (now ≡ true → q ≡ a)
      × Fits (drop (p + n) u) w
      × (p + n ≤ length u)
unfolding choose
Takes-choose u p a r fixed w f (inl (e, fits)) =
    let still : p + 0 ≡ p = omega arith in
    (star, r, fixed, 0, e, refl, f, rw still fits, omega (arith, unit_inside u p star e))
Takes-choose u p a r fixed w f (inr (c, e, n, o, fits)) =
    let on : p + 1 ≡ suc p = omega arith in
    let inside : p + 1 ≤ length u = omega (arith, unit_inside u p c e) in
    let apart : (c == star) ≡ false = ground arith in
    elim (Bool-cases (c == any_rune)) [
      | inl y ↦ (c, r, fixed, 1, e, rw (apart, y) refl, f, rw on fits, inside)
      | inr y ↦
          let same : c ≡ a = ground arith in
          let agree : (fixed && not (c == r)) ≡ false = elim (Bool-cases fixed) [
            | inl z ↦ let e : r ≡ a = f z in ground arith
            | inr z ↦ ground arith
          ] in
          (c, c, true, 1, e, rw (apart, y, agree) refl, λ _. same, rw on fits, inside)
    ]

AllTake-consume_from :
    (us : List Runes) (ps : Position) (a r : ℕ) (fixed : Bool) (w : Runes)
    → (fixed ≡ true → r ≡ a)
    → AllTake us ps a w
    → (final : ℕ) × (next : Position) × (consume_from r fixed us ps ≡ some (final, next))
      × Lives us next w
unfolding consume_from
AllTake-consume_from [] [] a r fixed w f h = (r, [], refl, tt)
AllTake-consume_from [] (p ∷ ps) a r fixed w f h = absurd h
AllTake-consume_from (u ∷ us) [] a r fixed w f h = absurd h
AllTake-consume_from (u ∷ us) (p ∷ ps) a r fixed w f h =
    let (c, q, now, n, e, chosen, settled, fits, inside) = Takes-choose u p a r fixed w f h.0 in
    let (final, next, rest, lives) = AllTake-consume_from us ps a q now w settled h.1 in
    (final, (p + n) ∷ next, rw (e, chosen, rest) refl, (fits, inside, lives))

of_loop :
    (us : List Runes) (ps : Position) {o : Option (ℕ × Position)}
    → consume_from b'x' false us ps ≡ o
    → consume us ps ≡ o
unfolding consume
of_loop us ps e = e

-- From a state that can be reached, the rest of a string that fits is as far from an accepting one.
Lives-Reach :
    {us : List Runes} (w : Runes) (ps : Position) (text : Runes)
    → Reach us ps text
    → Lives us ps w
    → (qs : Position) × (found : Runes) × Reach us qs found
      × (accepting us qs ≡ true)
      × (length found ≡ length text + length w)
Lives-Reach {us} [] ps text r h =
    let (qs, on, a) = ends_all us ps h in (qs, text, Reach-Skips r on, a, omega arith)
Lives-Reach {us} (a ∷ w) ps text r h =
    let (qs, on, takes) = clear_all us ps a w h in
    let (final, next, e, lives) = AllTake-consume_from us qs a b'x' false w (λ bad. cc bad) takes in
    let onward : Reach us next (text ++ final ∷ []) = taken (Reach-Skips r on) (of_loop us qs e) in
    let (rs, found, reach, accepts, l) = Lives-Reach w next (text ++ final ∷ []) onward lives in
    (rs, found, reach, accepts, omega (arith, l, length-append text (final ∷ [])))

start-Lives : (us : List Runes) (w : Runes) → All (λ u. Fits u w) us → Lives us (start_at us) w
unfolding start_at
start-Lives [] w h = tt
start-Lives (u ∷ us) w h = (h.0, omega arith, start-Lives us w h.1)

-- A string that fits every pattern leads to an accepting state, over as many runes.
pub Fits-Reach :
    (us : List Runes) (w : Runes)
    → All (λ u. Fits u w) us
    → (at : Position) × (text : Runes) × Reach us at text
      × (accepting us at ≡ true)
      × (length text ≡ length w)
Fits-Reach us w h =
    let (at, text, r, a, l) = Lives-Reach w (start_at us) [] begins (start-Lives us w h) in
    (at, text, r, a, omega (arith, l))
