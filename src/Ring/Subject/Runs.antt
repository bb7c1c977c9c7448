-- ===== src/Ring/Subject/Runs.antt =====
-- internal/ring/classify.go: a run of an owner's characters, where those are ASCII.
use cloudarq.Prelude.{
  ℕ, suc, ◌+◌, ◌<◌, ◌≤◌, ◌≡◌, refl, ap, ◌∙◌, inl, inr, true, false, [], ◌∷◌, ◌++◌, length, take,
  drop, ltb, Bool-cases, arith, if◌then◌else◌,
}
use cloudarq.Text.Bytes.{Bytes}
use cloudarq.Text.Utf8.{ascii, decode, pieces_from, pieces, rune_of, bytes_of}
use cloudarq.Text.Utf8.Encode.{rune_of-decode}
use cloudarq.Ring.Facts.{Tenancy}
use cloudarq.Ring.Subject.{allows, run_width, owner_run, is_empty_list}

-- An owner's characters are ASCII.
abbrev pub HasAsciiNames : Tenancy → Type 0
HasAsciiNames t = (r : ℕ) → allows t r ≡ true → r < 128

-- The run, byte by byte, and what follows it.
unfoldable pub run_bytes : Tenancy → Bytes → Bytes
run_bytes t [] = []
run_bytes t (b ∷ s) = if allows t b then b ∷ run_bytes t s else []

unfoldable pub rest_bytes : Tenancy → Bytes → Bytes
rest_bytes t [] = []
rest_bytes t (b ∷ s) = if allows t b then rest_bytes t s else b ∷ s

decode-ascii : (b : ℕ) (s : Bytes) → b < 128 → decode b s ≡ (ascii b, 0)
unfolding decode
decode-ascii b s h = ground arith

rune_beyond : (b : ℕ) (s : Bytes) → 128 ≤ b → 128 ≤ rune_of (decode b s).0
rune_beyond b s h = elim (Bool-cases (ltb (rune_of (decode b s).0) 128)) [
  | inl e ↦ absurd (rune_of-decode b (rune_of (decode b s).0) s (ground arith) (ground arith) refl)
  | inr e ↦ ground arith
]

take_one : (w b : ℕ) (s : Bytes) → take (1 + w) (b ∷ s) ≡ b ∷ take w s
take_one w b s = let next : 1 + w ≡ suc w = omega arith in ap (λ n. take n (b ∷ s)) next

module _ (t : Tenancy) (names : HasAsciiNames t) where
  not_allowed : (r : ℕ) → 128 ≤ r → allows t r ≡ false
  not_allowed r h = elim (Bool-cases (allows t r)) [
    | inl e ↦ let small = names r e in absurd (omega arith)
    | inr e ↦ e
  ]

  not_allowed_decode :
      (b : ℕ) (s : Bytes) → allows t b ≡ false → allows t (rune_of (decode b s).0) ≡ false
  not_allowed_decode b s h = elim (Bool-cases (ltb b 128)) [
    | inl e ↦ rw (decode-ascii b s (ground arith)) (unfold rune_of in h)
    | inr e ↦ not_allowed (rune_of (decode b s).0) (rune_beyond b s (ground arith))
  ]

  take-width : (s : Bytes) → take (run_width t (pieces_from 0 s)) s ≡ run_bytes t s
  unfolding run_width run_bytes pieces_from bytes_of
  take-width [] = refl
  take-width (b ∷ s) = elim (Bool-cases (allows t b)) [
    | inl e ↦
        rw (run_width, pieces_from, decode-ascii b s (names b e), rune_of, e, bytes_of)
          (take_one (run_width t (pieces_from 0 s)) b s ∙ ap (◌∷◌ b) (take-width s))
    | inr e ↦ rw (run_width, pieces_from, not_allowed_decode b s e, e) refl
  ]

  pub owner_run-bytes : (s : Bytes) → owner_run t s ≡ run_bytes t s
  unfolding owner_run pieces
  owner_run-bytes s = take-width s

  pub drop-run : (s : Bytes) → drop (length (run_bytes t s)) s ≡ rest_bytes t s
  unfolding run_bytes rest_bytes
  drop-run [] = refl
  drop-run (b ∷ s) = elim (Bool-cases (allows t b)) [
    | inl e ↦ rw e (drop-run s)
    | inr e ↦ rw e refl
  ]

  -- A run that ends inside a text ends there in every text that begins with it.
  pub run_bytes-append :
      (r s : Bytes)
      → is_empty_list (rest_bytes t r) ≡ false
      → (run_bytes t (r ++ s) ≡ run_bytes t r) × (rest_bytes t (r ++ s) ≡ rest_bytes t r ++ s)
  unfolding run_bytes rest_bytes is_empty_list
  run_bytes-append [] s h = ground arith
  run_bytes-append (b ∷ r) s h = elim (Bool-cases (allows t b)) [
    | inl e ↦ let (run, rest) = run_bytes-append r s (rw e at h) in rw e (ap (◌∷◌ b) run, rest)
    | inr e ↦ rw e (refl, refl)
  ]
