-- ===== src/Join/Walk/Sound.antt =====
-- internal/join/witness.go: a string that the walk finds fits every pattern.
use cloudarq.Prelude.{
  ℕ, suc, ◌+◌, ◌≡◌, ◌≢◌, refl, ap, ◌∙◌, sym, inl, inr, ◌⊎◌, Bool, true, false, List, [], ◌∷◌, ◌++◌,
  append_assoc, append-nil, some, All, Some, arith, length, drop, subst,
}
use cloudarq.Text.Split.Runes.{star}
use cloudarq.Eval.Glob.{Runes, any_rune}
use cloudarq.Eval.Glob.Fits.{Fits, nothing, any_run, single}
use cloudarq.Join.Walk.{Position, unit_at, skips, accepting, consume_from, found, start_at, walk}
use cloudarq.Join.Walk.Reach.{Reach, begins, skipped, taken, walk-Reach}
use cloudarq.Join.Walk.Steps.{
  unit_at-some, star_at, skips-cases, choose-cases, consume_from_cons, consume_from_nil,
  consume-from,
}

-- Whatever fits what is left of the pattern makes the text fit the pattern.
abbrev pub Leads : Runes → ℕ → Runes → Type 0
Leads u p text = (w : Runes) → Fits (drop p u) w → Fits u (text ++ w)

abbrev pub Reached : List Runes → Position → Runes → Type 0
Reached [] [] text = Unit
Reached (u ∷ us) (p ∷ ps) text = Leads u p text × Reached us ps text
Reached _ _ text = ⊥

start-Reached : (us : List Runes) → Reached us (start_at us) []
unfolding start_at
start-Reached [] = tt
start-Reached (u ∷ us) = (λ w f. f, start-Reached us)

skips-Reached :
    (us : List Runes) (ps next : Position) (text : Runes)
    → Reached us ps text
    → Some (λ x. x ≡ next) (skips us ps)
    → Reached us next text
skips-Reached [] [] next text h m = absurd (unfold skips in m)
skips-Reached [] (p ∷ ps) next text h m = absurd h
skips-Reached (u ∷ us) [] next text h m = absurd h
skips-Reached (u ∷ us) (p ∷ ps) next text h m = elim (skips-cases u us p ps next m) [
  | inl (s, e) ↦
      subst (λ x. Reached (u ∷ us) x text) (sym e)
        (λ w f. h.0 w (subst (λ v. Fits v w) (sym (star_at u p s)) (any_run [] refl refl f)), h.1)
  | inr (qs, e, k) ↦
      subst (λ x. Reached (u ∷ us) x text) (sym e) (h.0, skips-Reached us ps qs text h.1 k)
]

-- One pattern takes the rune: a star stays where it is.
abbrev TakesRune : Runes → ℕ → ℕ → ℕ → Type 0
TakesRune u p r q = (w : Runes) → Fits (drop q u) w → Fits (drop p u) (r ∷ w)

star_takes : (u w : Runes) (r : ℕ) → Fits (star ∷ u) w → Fits (star ∷ u) (r ∷ w)
star_takes u w r (any_run gap c e f) = any_run (r ∷ gap) c (ap (◌∷◌ r) e) f
star_takes u _ r (single n e f) = absurd (n refl)

-- What the switch settles on holds at the end of the loop: a fixed rune is not changed.
abbrev Settles : ℕ → Bool → ℕ → Type 0
Settles r fixed final = fixed ≡ true → final ≡ r

abbrev Consumed : List Runes → Position → ℕ → Position → Type 0
Consumed [] [] r [] = Unit
Consumed (u ∷ us) (p ∷ ps) r (q ∷ qs) = TakesRune u p r q × Consumed us ps r qs
Consumed _ _ r _ = ⊥

takes_one :
    (u : Runes) (p c r : ℕ)
    → unit_at u p ≡ some c
    → c ≢ star
    → (c ≡ any_rune) ⊎ (c ≡ r)
    → TakesRune u p r (p + 1)
takes_one u p c r e n o w f =
    let e1 : p + 1 ≡ suc p = omega arith in
    subst (λ v. Fits v (r ∷ w)) (sym (unit_at-some u p c e)) (single n o (rw e1 at f))

takes_star : (u : Runes) (p r : ℕ) → unit_at u p ≡ some star → TakesRune u p r (p + 0)
takes_star u p r e w f =
    let e0 : p + 0 ≡ p = omega arith in
    let g : Fits (drop p u) w = rw e0 at f in
    let split = unit_at-some u p star e in
    subst (λ v. Fits v (r ∷ w)) (sym split)
      (star_takes (drop (suc p) u) w r (subst (λ v. Fits v w) split g))

consume_from-Consumed :
    (us : List Runes) (ps next : Position) (r final : ℕ) (fixed : Bool)
    → length us ≡ length ps
    → consume_from r fixed us ps ≡ some (final, next)
    → Consumed us ps final next × Settles r fixed final
consume_from-Consumed [] [] next r final fixed l e =
    let (end, same) = consume_from_nil next r final fixed e in
    (subst (λ x. Consumed [] [] final x) (sym end) tt, λ _. same)
consume_from-Consumed [] (p ∷ ps) next r final fixed l e = absurd (omega arith)
consume_from-Consumed (u ∷ us) [] next r final fixed l e = absurd (omega arith)
consume_from-Consumed (u ∷ us) (p ∷ ps) next r final fixed l e =
    let (c, q, now, n, qs, ec, en, rest, split) =
      consume_from_cons u us p ps next r final fixed e in
    let (others, settles) = consume_from-Consumed us ps qs q final now (omega arith) rest in
    let (takes, kept) : TakesRune u p final (p + n) × Settles r fixed final =
      elim (choose-cases r c q n fixed now en) [
        | inl (a, eq, ef, z) ↦
            (rw z (takes_star u p final (ec ∙ ap some a)), λ f. settles (ef ∙ f) ∙ eq)
        | inr (inl (a, b, eq, ef, z)) ↦
            (rw z (takes_one u p c final ec a (inl b)), λ f. settles (ef ∙ f) ∙ eq)
        | inr (inr (a, agree, eq, ef, z)) ↦ (
          rw z (takes_one u p c final ec a (inr (sym eq ∙ sym (settles ef)))),
          λ f. settles ef ∙ eq ∙ agree f,
        )
      ] in
    (subst (λ x. Consumed (u ∷ us) (p ∷ ps) final x) (sym split) (takes, others), kept)

pub Reached-length :
    (us : List Runes) (ps : Position) (text : Runes) → Reached us ps text → length us ≡ length ps
Reached-length [] [] text h = refl
Reached-length [] (p ∷ ps) text h = absurd h
Reached-length (u ∷ us) [] text h = absurd h
Reached-length (u ∷ us) (p ∷ ps) text h = ap suc (Reached-length us ps text h.1)

Consumed-Reached :
    (us : List Runes) (ps qs : Position) (text : Runes) (r : ℕ)
    → Reached us ps text
    → Consumed us ps r qs
    → Reached us qs (text ++ r ∷ [])
Consumed-Reached [] [] [] text r h k = tt
Consumed-Reached [] [] (q ∷ qs) text r h k = absurd k
Consumed-Reached [] (p ∷ ps) qs text r h k = absurd h
Consumed-Reached (u ∷ us) [] qs text r h k = absurd h
Consumed-Reached (u ∷ us) (p ∷ ps) [] text r h k = absurd k
Consumed-Reached (u ∷ us) (p ∷ ps) (q ∷ qs) text r h k = (
  λ w f. subst (Fits u) (sym (append_assoc text (r ∷ []) w)) (h.0 (r ∷ w) (k.0 w f)),
  Consumed-Reached us ps qs text r h.1 k.1,
)

pub Reach-Reached :
    {us : List Runes} {at : Position} {text : Runes} → Reach us at text → Reached us at text
Reach-Reached {us} begins = start-Reached us
Reach-Reached {us} (skipped {at} {next} {text} r m) =
    skips-Reached us at next text (Reach-Reached r) m
Reach-Reached {us} (taken {at} {next} {text} {r} h e) =
    let reached = Reach-Reached h in
    Consumed-Reached us at next text r reached
      (consume_from-Consumed us at next b'x' r false (Reached-length us at text reached)
        (consume-from us at r next e)).0

drop_all : (u : Runes) → drop (length u) u ≡ []
drop_all [] = refl
drop_all (c ∷ u) = drop_all u

accepting-Fits :
    (us : List Runes) (ps : Position) (text : Runes)
    → Reached us ps text
    → accepting us ps ≡ true
    → All (λ u. Fits u text) us
unfolding accepting
accepting-Fits [] ps text h a = tt
accepting-Fits (u ∷ us) [] text h a = absurd h
accepting-Fits (u ∷ us) (p ∷ ps) text h a =
    let ends : p ≡ length u = ground arith in
    let rest : drop p u ≡ [] = ap (λ x. drop x u) ends ∙ drop_all u in
    (
      subst (Fits u) (append-nil text) (h.0 [] (subst (λ v. Fits v []) (sym rest) nothing)),
      accepting-Fits us ps text h.1 (ground arith),
    )

-- A text that the walk finds, within any bound, fits each of the patterns it walks over.
pub walk-Fits :
    (us : List Runes) (bound : ℕ) (text : Runes)
    → walk us bound ≡ found text
    → All (λ u. Fits u text) us
walk-Fits us bound text e =
    let (at, r, a) = walk-Reach us bound text e in accepting-Fits us at text (Reach-Reached r) a
