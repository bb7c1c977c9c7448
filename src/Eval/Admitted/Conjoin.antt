-- ===== src/Eval/Admitted/Conjoin.antt =====
-- internal/eval/admitted.go: `conjoin` merges two conjunctions into the one that asks for both.
use cloudarq.Prelude.{
  ◌≡◌, refl, ap, ◌∙◌, sym, inl, inr, Bool, ◌&&◌, [], ◌∷◌, arith, Option, some, none, subst,
  Bool-cases, Option-cases,
}
use cloudarq.Text.Bytes.{bytes_eq, bytes_eq_iff}
use cloudarq.Eval.StringSet.{StringSet, contains}
use cloudarq.Eval.StringSet.Build.{meet}
use cloudarq.Eval.StringSet.Valid.{IsValid}
use cloudarq.Eval.StringSet.Meet.{meet-MeetsTo}
use cloudarq.Eval.StringSet.Tops.{is_top-meet}
use cloudarq.Eval.Claims.{ClaimKey, lookup, put}
use cloudarq.Eval.Admitted.{Term, Token, satisfied, conjoin}
use cloudarq.Eval.Admitted.Terms.{meets, IsEntry, IsValidTerm}

satisfied-meet :
    (token : Token) (k : ClaimKey) (a b c : StringSet)
    → IsValid a
    → IsValid b
    → meet a b ≡ some c
    → satisfied token (k, c) ≡ (satisfied token (k, a) && satisfied token (k, b))
unfolding satisfied
satisfied-meet token k a b c h j m = elim (Option-cases (lookup k token)) [
  | inl e ↦ rw (e, satisfied) (is_top-meet a b c h j m)
  | inr (v, e) ↦
      let (r, er, (_, both)) = meet-MeetsTo a b h j in
      let same : r ≡ c = cc (er, m) in
      rw (e, satisfied) (ap (λ s. contains s v) (sym same) ∙ both v)
]

-- Writing a constraint that asks for `more` beside the old one.
meets-put :
    (token : Token) (k : ClaimKey) (old new : StringSet) (more : Bool) (m : Term)
    → lookup k m ≡ some old
    → satisfied token (k, new) ≡ (satisfied token (k, old) && more)
    → meets token (put k new m) ≡ (meets token m && more)
unfolding lookup put
meets-put token k old new more [] e h = cc e
meets-put token k old new more ((j, w) ∷ m) e h = elim (Bool-cases (bytes_eq j k)) [
  | inl q ↦
      let same : j ≡ k = (bytes_eq_iff j k).0 q in
      let found : some w ≡ some old = rw q at e in
      let held : w ≡ old = cc found in rw (q, same, held) (ground arith)
  | inr q ↦ rw q (
      ap (λ b. satisfied token (j, w) && b) (meets-put token k old new more m (rw q at e) h)
      ∙ ground arith)
]

meets-put_new :
    (token : Token) (k : ClaimKey) (s : StringSet) (m : Term)
    → lookup k m ≡ none
    → meets token (put k s m) ≡ (meets token m && satisfied token (k, s))
unfolding lookup put
meets-put_new token k s [] e = ground arith
meets-put_new token k s ((j, w) ∷ m) e = elim (Bool-cases (bytes_eq j k)) [
  | inl q ↦ let found : some w ≡ none = rw q at e in cc found
  | inr q ↦
      rw q (
        ap (λ b. satisfied token (j, w) && b) (meets-put_new token k s m (rw q at e))
        ∙ ground arith)
]

put-IsValidTerm :
    (k : ClaimKey) (s : StringSet) (m : Term)
    → IsEntry (k, s)
    → IsValidTerm m
    → IsValidTerm (put k s m)
unfolding put
put-IsValidTerm k s [] h v = (h, tt)
put-IsValidTerm k s ((j, w) ∷ m) h v = elim (Bool-cases (bytes_eq j k)) [
  | inl q ↦ rw q ((v.0.0, h.1), v.1)
  | inr q ↦ rw q (v.0, put-IsValidTerm k s m h v.1)
]

lookup-IsValid :
    (k : ClaimKey) (m : Term) (s : StringSet) → IsValidTerm m → lookup k m ≡ some s → IsValid s
unfolding lookup
lookup-IsValid k [] s v e = cc e
lookup-IsValid k ((j, w) ∷ m) s v e = elim (Bool-cases (bytes_eq j k)) [
  | inl q ↦
      let found : some w ≡ some s = rw q at e in
      let held : w ≡ s = cc found in subst IsValid held v.0.1
  | inr q ↦ lookup-IsValid k m s v.1 (rw q at e)
]

-- The run does not panic, and returns a Term that asks for what both ask.
abbrev pub ConjoinsTo : Option Term → Term → Term → Type 0
ConjoinsTo o x y =
    (r : Term) × (o ≡ some r)
    × IsValidTerm r
    × ((token : Token) → meets token r ≡ (meets token x && meets token y))

pub conjoin-ConjoinsTo : (y x : Term) → IsValidTerm x → IsValidTerm y → ConjoinsTo (conjoin x y) x y
unfolding conjoin
conjoin-ConjoinsTo [] x h k = (x, refl, h, λ token. ground arith)
conjoin-ConjoinsTo ((key, s) ∷ y) x h k = elim (Option-cases (lookup key x)) [
  | inl e ↦
      let (r, er, hr, cr) =
        conjoin-ConjoinsTo y (put key s x) (put-IsValidTerm key s x k.0 h) k.1 in
      (r, rw (e, conjoin) er, hr, λ token. ground (arith, cr token, meets-put_new token key s x e))
  | inr (old, e) ↦
      let valid = lookup-IsValid key x old h e in
      let (both, eb, (hb, _)) = meet-MeetsTo old s valid k.0.1 in
      let (r, er, hr, cr) =
        conjoin-ConjoinsTo y (put key both x) (put-IsValidTerm key both x (k.0.0, hb) h) k.1 in
      (
        r,
        rw (e, conjoin) (rw eb er),
        hr,
        λ token. ground (
          arith,
          cr token,
          meets-put token key old both (satisfied token (key, s)) x e
              (satisfied-meet token key old s both valid k.0.1 eb),
        ),
      )
]
