-- ===== src/Eval/StringSet/Pattern.antt =====
-- internal/eval/glob.go: the set that `Glob` builds of a pattern.
use cloudarq.Prelude.{
  ℕ, ◌≡◌, ◌≢◌, append-nil, refl, sym, inl, inr, Bool, true, false, ◌||◌, ◌↔◌, List, [], ◌∷◌, All,
  any, arith, map, Bool-cases, ◌==◌,
}
use cloudarq.Text.Bytes.{Bytes, IsBytes, bytes_eq, bytes_eq_iff}
use cloudarq.Text.Utf8.{decode, pieces_from, pieces, runes, rune_of}
use cloudarq.Text.Split.{trim_left, trim_end, trim_right, trim}
use cloudarq.Text.Split.Runes.{star}
use cloudarq.Eval.Glob.{glob_node}
use cloudarq.Eval.Glob.Fits.{Fits, nothing, any_run}
use cloudarq.Eval.Glob.Correct.{glob_contains_iff}
use cloudarq.Eval.StringSet.{contains, glob}
use cloudarq.Eval.StringSet.Valid.{IsValid}

abbrev pub has_meta : Bytes → Bool
has_meta pattern = any (λ b. b == b'*' || b == b'?') pattern

abbrev pub AllStars : List ℕ → Type 0
AllStars s = All (λ b. b ≡ star) s

trim_left-AllStars : (s : Bytes) → AllStars (trim_left star s) → AllStars s
unfolding trim_left
trim_left-AllStars [] h = tt
trim_left-AllStars (b ∷ s) h = elim (Bool-cases (b == star)) [
  | inl e ↦ (ground arith, trim_left-AllStars s (rw e at h))
  | inr e ↦ rw e at h
]

trim_end-nil : (b : ℕ) (s : Bytes) → trim_end star b s ≡ [] → (b ≡ star) × (s ≡ [])
unfolding trim_end
trim_end-nil b [] h = ground arith
trim_end-nil b (d ∷ s) h = ground arith

trim_right-AllStars : (s : Bytes) → trim_right star s ≡ [] → AllStars s
unfolding trim_right
trim_right-AllStars [] h = tt
trim_right-AllStars (b ∷ s) h =
    let (e, rest) = trim_end-nil b (trim_right star s) h in (e, trim_right-AllStars s rest)

trim-AllStars : (s : Bytes) → trim star s ≡ [] → AllStars s
unfolding trim
trim-AllStars s h = trim_left-AllStars s (trim_right-AllStars (trim_left star s) h)

runes-AllStars : (s : Bytes) → AllStars s → AllStars (map rune_of (pieces_from 0 s))
unfolding pieces_from decode rune_of
runes-AllStars [] h = tt
runes-AllStars (b ∷ s) h = rw h.0 (refl, runes-AllStars s h.1)

AllStars-Fits : (p w : List ℕ) → AllStars p → p ≢ [] → Fits p w
AllStars-Fits [] w h n = absurd (n refl)
AllStars-Fits (c ∷ []) w h n = any_run w h.0 (sym (append-nil w)) nothing
AllStars-Fits (c ∷ d ∷ p) w h n = any_run [] h.0 refl (AllStars-Fits (d ∷ p) w h.1 (λ e. cc e))

stars_fit : (p v : Bytes) → has_meta p ≡ true → trim star p ≡ [] → Fits (runes p) (runes v)
unfolding runes pieces
stars_fit [] v h e = absurd (ground arith)
stars_fit (b ∷ p) v h e =
    AllStars-Fits (runes (b ∷ p)) (runes v) (runes-AllStars (b ∷ p) (trim-AllStars (b ∷ p) e))
      (unfold pieces_from in λ e. cc e)

-- A pattern with a metacharacter admits exactly the values whose runes fit its runes.
pub contains-glob_iff :
    (p v : Bytes) → has_meta p ≡ true → (contains (glob p) v ≡ true) ↔ Fits (runes p) (runes v)
unfolding glob contains
contains-glob_iff p v h = elim (Bool-cases (bytes_eq (trim star p) [])) [
  | inl e ↦ rw (h, e) (λ _. stars_fit p v h ((bytes_eq_iff (trim star p) []).0 e), λ _. refl)
  | inr e ↦ rw (h, e) (glob_contains_iff p v)
]

pub contains-glob_literal : (p v : Bytes) → has_meta p ≡ false → contains (glob p) v ≡ true → v ≡ p
unfolding glob contains
contains-glob_literal p v h c = (bytes_eq_iff v p).0 (rw h at c)

pub glob-IsValid : (p : Bytes) → IsBytes p → IsValid (glob p)
unfolding glob glob_node
glob-IsValid p h = elim (Bool-cases (has_meta p)) [
  | inl m ↦ elim (Bool-cases (bytes_eq (trim star p) [])) [
    | inl e ↦ rw (m, e) tt
    | inr e ↦ rw (m, e) (h, refl)
  ]
  | inr m ↦ rw m h
]
