-- ===== src/Join/Walk/Scalars.antt =====
-- internal/join/witness.go: a string that the search finds, read by runes, fits every pattern.
use cloudarq.Prelude.{
  ℕ, zero, suc, ◌≡◌, refl, ap, ◌∙◌, sym, inl, inr, Bool, false, List, [], ◌∷◌, map, some, All,
  All-append, arith, length, subst,
}
use cloudarq.Text.Bytes.{Bytes}
use cloudarq.Text.Utf8.{runes}
use cloudarq.Text.Utf8.Runes.{IsScalar, string_of, runes-string_of, runes-IsScalar}
use cloudarq.Eval.Glob.{Runes}
use cloudarq.Eval.Glob.Fits.{Fits}
use cloudarq.Join.Walk.{
  Position, unit_at, consume_from, found, walk, shortest_shared, text_of, Outcome, gave_up, ran_out,
  no_fuel,
}
use cloudarq.Join.Walk.Reach.{Reach, begins, skipped, taken, walk-Reach}
use cloudarq.Join.Walk.Steps.{choose-cases, consume_from_cons, consume_from_nil, consume-from}
use cloudarq.Join.Walk.Sound.{Reach-Reached, Reached-length, walk-Fits}

unit_at-IsScalar : (u : Runes) (p c : ℕ) → All IsScalar u → unit_at u p ≡ some c → IsScalar c
unfolding unit_at
unit_at-IsScalar [] zero c h e = cc e
unit_at-IsScalar [] (suc p) c h e = cc e
unit_at-IsScalar (d ∷ u) zero c h e = let same : d ≡ c = cc e in subst IsScalar same h.0
unit_at-IsScalar (d ∷ u) (suc p) c h e = unit_at-IsScalar u p c h.1 e

consume_from-IsScalar :
    (us : List Runes) (ps next : Position) (r final : ℕ) (fixed : Bool)
    → length us ≡ length ps
    → All (λ u. All IsScalar u) us
    → IsScalar r
    → consume_from r fixed us ps ≡ some (final, next)
    → IsScalar final
consume_from-IsScalar [] [] next r final fixed l h k e =
    subst IsScalar (sym (consume_from_nil next r final fixed e).1) k
consume_from-IsScalar [] (p ∷ ps) next r final fixed l h k e = absurd (omega arith)
consume_from-IsScalar (u ∷ us) [] next r final fixed l h k e = absurd (omega arith)
consume_from-IsScalar (u ∷ us) (p ∷ ps) next r final fixed l h k e =
    let (c, q, now, n, qs, ec, en, rest, split) =
      consume_from_cons u us p ps next r final fixed e in
    let valid : IsScalar q = elim (choose-cases r c q n fixed now en) [
      | inl (a, eq, ef, z) ↦ subst IsScalar (sym eq) k
      | inr (inl (a, b, eq, ef, z)) ↦ subst IsScalar (sym eq) k
      | inr (inr (a, agree, eq, ef, z)) ↦ subst IsScalar (sym eq) (unit_at-IsScalar u p c h.0 ec)
    ] in
    consume_from-IsScalar us ps qs q final now (omega arith) h.1 valid rest

Reach-IsScalar :
    {us : List Runes} {at : Position} {text : Runes}
    → All (λ u. All IsScalar u) us
    → Reach us at text
    → All IsScalar text
Reach-IsScalar h begins = tt
Reach-IsScalar h (skipped r m) = Reach-IsScalar h r
Reach-IsScalar {us} h (taken {at} {next} {text} {r} reach e) =
    All-append IsScalar text (r ∷ []) (Reach-IsScalar h reach) (
      consume_from-IsScalar us at next b'x' r false
          (Reached-length us at text (Reach-Reached reach)) h (inl (omega arith))
          (consume-from us at r next e),
      tt,
    )

pattern_runes-IsScalar : (ps : List Bytes) → All (λ u. All IsScalar u) (map runes ps)
pattern_runes-IsScalar [] = tt
pattern_runes-IsScalar (p ∷ ps) = (runes-IsScalar p, pattern_runes-IsScalar ps)

text_of-found :
    (o : Outcome) (v : Bytes)
    → text_of o ≡ some v
    → (text : Runes) × (o ≡ found text) × (string_of text ≡ v)
unfolding text_of
text_of-found (found text) v e = (text, refl, cc e)
text_of-found gave_up v e = cc e
text_of-found ran_out v e = cc e
text_of-found no_fuel v e = cc e

All-runes :
    (ps : List Bytes) (text v : Runes)
    → text ≡ v
    → All (λ u. Fits u text) (map runes ps)
    → All (λ p. Fits (runes p) v) ps
All-runes [] text v e h = tt
All-runes (p ∷ ps) text v e h = (subst (Fits (runes p)) e h.0, All-runes ps text v e h.1)

-- What `shortestShared` finds, within any bound, is a string that fits each of the patterns.
pub shortest_shared-Fits :
    (patterns : List Bytes) (bound : ℕ) (v : Bytes)
    → shortest_shared patterns bound ≡ some v
    → All (λ p. Fits (runes p) (runes v)) patterns
unfolding shortest_shared
shortest_shared-Fits patterns bound v e =
    let us : List Runes = map runes patterns in
    let (text, o, s) = text_of-found (walk us bound) v e in
    let (at, r, a) = walk-Reach us bound text o in
    let same : text ≡ runes v =
      sym (runes-string_of text (Reach-IsScalar (pattern_runes-IsScalar patterns) r))
      ∙ ap runes s in
    All-runes patterns text (runes v) same (walk-Fits us bound text o)
