-- ===== src/Trust/Canonical.antt =====
-- internal/trust/normalise.go: what the registry key of an issuer is.
use cloudarq.Prelude.{
  ℕ, ◌<◌, ◌≡◌, refl, ap, ◌∙◌, sym, inl, inr, false, Bool-cases, append_assoc, [], ◌∷◌, ◌++◌, none,
  some, All, drop, zero, suc, Option-cases, subst, arith, ◌==◌,
}
use cloudarq.Text.Bytes.{Bytes, bytes_eq}
use cloudarq.Text.Utf8.{decode, pieces_from, pieces}
use cloudarq.Trust.Issuer.{
  IssuerRef, slash, after_first, has_prefix, scheme_end, strip_scheme, cut_slash, ends_in_slash,
  trim_slash, lower_rune, lower_piece, lower_pieces, lower_ascii, https, with_slash,
  normalise_issuer,
}

abbrev pub IsAscii : Bytes → Type 0
IsAscii s = All (λ b. b < 128) s

-- Byte by byte, for ASCII.
abbrev lower_bytes : Bytes → Bytes
lower_bytes [] = []
lower_bytes (b ∷ s) = lower_rune b ∷ lower_bytes s

lower_pieces_from : (s : Bytes) → IsAscii s → lower_pieces (pieces_from 0 s) ≡ lower_bytes s
unfolding lower_pieces pieces_from decode lower_piece
lower_pieces_from [] h = refl
lower_pieces_from (b ∷ s) h = ground (arith, lower_pieces_from s h.1)

lower_ascii-bytes : (s : Bytes) → IsAscii s → lower_ascii s ≡ lower_bytes s
unfolding lower_ascii pieces
lower_ascii-bytes s h = lower_pieces_from s h

lower_bytes_twice : (s : Bytes) → lower_bytes (lower_bytes s) ≡ lower_bytes s
unfolding lower_rune
lower_bytes_twice [] = refl
lower_bytes_twice (b ∷ s) = ground (arith, lower_bytes_twice s)

lower_bytes-IsAscii : (s : Bytes) → IsAscii s → IsAscii (lower_bytes s)
unfolding lower_rune
lower_bytes-IsAscii [] h = tt
lower_bytes-IsAscii (b ∷ s) h = (ground arith, lower_bytes-IsAscii s h.1)

-- A host holds no slash.
NoSlash : Bytes → Type 0
NoSlash s = All (λ b. (b == slash) ≡ false) s

cut_host : (s : Bytes) → NoSlash (cut_slash s).0
unfolding cut_slash NoSlash
cut_host [] = tt
cut_host (b ∷ s) = elim (Bool-cases (b == slash)) [ inl e ↦ rw e tt | inr e ↦ rw e (e, cut_host s) ]

cut-IsAscii : (s : Bytes) → IsAscii s → IsAscii (cut_slash s).0
unfolding cut_slash
cut-IsAscii [] h = tt
cut-IsAscii (b ∷ s) h = elim (Bool-cases (b == slash)) [
  | inl e ↦ rw e tt
  | inr e ↦ rw e (h.0, cut-IsAscii s h.1)
]

lower_NoSlash : (s : Bytes) → NoSlash s → NoSlash (lower_bytes s)
unfolding lower_rune NoSlash
lower_NoSlash [] h = tt
lower_NoSlash (b ∷ s) h = (ground arith, lower_NoSlash s h.1)

-- Cutting finds the host and the path again.
cut_again : (host path : Bytes) → NoSlash host → cut_slash (host ++ with_slash path) ≡ (host, path)
unfolding cut_slash with_slash NoSlash
cut_again [] [] h = refl
cut_again [] (c ∷ path) h = refl
cut_again (b ∷ host) path h = rw (h.0) (ap (λ r. (b ∷ r.0, r.1)) (cut_again host path h.1))

drop-IsAscii : (n : ℕ) (s : Bytes) → IsAscii s → IsAscii (drop n s)
drop-IsAscii zero s h = h
drop-IsAscii (suc n) [] h = tt
drop-IsAscii (suc n) (b ∷ s) h = drop-IsAscii n s h.1

some_same {ℓ} : {A : Type ℓ} {x y : A} → some x ≡ some y → x ≡ y
some_same p = cc p

after_first-IsAscii :
    (s : Bytes) → IsAscii s → (t : Bytes) → after_first scheme_end s ≡ some t → IsAscii t
unfolding after_first
after_first-IsAscii [] h t e = let no_rest : none ≡ some t = unfold has_prefix in e in cc no_rest
after_first-IsAscii (b ∷ s) h t e = elim (Bool-cases (has_prefix (b ∷ s) scheme_end)) [
  | inl u ↦ subst IsAscii (some_same (rw u at e)) (drop-IsAscii 3 (b ∷ s) h)
  | inr u ↦ after_first-IsAscii s h.1 t (rw u at e)
]

strip-IsAscii : (s : Bytes) → IsAscii s → IsAscii (strip_scheme s)
unfolding strip_scheme
strip-IsAscii s h = elim (Option-cases (after_first scheme_end s)) [
  | inl e ↦ rw (strip_scheme, e) h
  | inr (t, e) ↦ rw (strip_scheme, e) (after_first-IsAscii s h t e)
]

-- The scheme that the key begins with is the first that stripping finds.
strip_https : (s : Bytes) → strip_scheme (https ++ s) ≡ s
unfolding strip_scheme after_first has_prefix
strip_https s = refl

ends-append : (s : Bytes) (b : ℕ) (t : Bytes) → ends_in_slash (s ++ b ∷ t) ≡ ends_in_slash (b ∷ t)
unfolding ends_in_slash
ends-append [] b t = refl
ends-append (a ∷ []) b t = refl
ends-append (a ∷ c ∷ s) b t = ends-append (c ∷ s) b t

trim_slash_none : (s : Bytes) → ends_in_slash s ≡ false → trim_slash s ≡ s
unfolding trim_slash ends_in_slash
trim_slash_none [] h = refl
trim_slash_none (b ∷ []) h = rw h refl
trim_slash_none (b ∷ c ∷ s) h = ap (λ t. b ∷ t) (trim_slash_none (c ∷ s) h)

ends-path :
    (host path : Bytes)
    → ends_in_slash (https ++ (host ++ with_slash path)) ≡ false
    → ends_in_slash path ≡ false
unfolding with_slash
ends-path host [] h = unfold ends_in_slash in refl
ends-path host (b ∷ path) h =
    sym (ends-append (https ++ (host ++ slash ∷ [])) b path)
    ∙ ap (λ t. ends_in_slash (https ++ t)) (append_assoc host (slash ∷ []) (b ∷ path))
    ∙ h

-- The key of a host in lower case and a path that does not end in a slash is its own key.
key_stable :
    (host path : Bytes)
    → lower_ascii host ≡ host
    → NoSlash host
    → bytes_eq host [] ≡ false
    → ends_in_slash path ≡ false
    → normalise_issuer (https ++ (host ++ with_slash path))
      ≡ some (https ++ (host ++ with_slash path))
unfolding normalise_issuer
key_stable host path h n e k =
    let parts : cut_slash (strip_scheme (https ++ (host ++ with_slash path))) ≡ (host, path) =
      ap cut_slash (strip_https (host ++ with_slash path)) ∙ cut_again host path n in
    let trimmed = trim_slash_none path k in rw (normalise_issuer, parts, e, h, trimmed) refl

lower_nonempty : (host : Bytes) → bytes_eq host [] ≡ false → bytes_eq (lower_bytes host) [] ≡ false
unfolding bytes_eq
lower_nonempty [] h = h
lower_nonempty (b ∷ s) h = refl

lower_twice : (s : Bytes) → IsAscii s → lower_ascii (lower_bytes s) ≡ lower_bytes s
lower_twice s h = lower_ascii-bytes (lower_bytes s) (lower_bytes-IsAscii s h) ∙ lower_bytes_twice s

-- Where `NormaliseIssuer` gives an ASCII address a key that does not end in a slash, the key is its
-- own key.
pub normalise_issuer-stable :
    (raw : Bytes) (ref : IssuerRef)
    → IsAscii raw
    → normalise_issuer raw ≡ some ref
    → ends_in_slash ref ≡ false
    → normalise_issuer ref ≡ some ref
unfolding normalise_issuer
normalise_issuer-stable raw ref h e k =
    let (host, path) = cut_slash (strip_scheme raw) in
    elim (Bool-cases (bytes_eq host [])) [
      | inl u ↦ let no_key : none ≡ some ref = rw u at e in cc no_key
      | inr u ↦
          let ascii_host = cut-IsAscii (strip_scheme raw) (strip-IsAscii raw h) in
          let lower = lower_ascii-bytes host ascii_host in
          let same : https ++ (lower_bytes host ++ with_slash (trim_slash path)) ≡ ref =
            ap (λ t. https ++ (t ++ with_slash (trim_slash path))) (sym lower)
            ∙ some_same (rw u at e) in
          subst (λ t. normalise_issuer t ≡ some t) same
            (key_stable (lower_bytes host) (trim_slash path) (lower_twice host ascii_host)
              (lower_NoSlash host (cut_host (strip_scheme raw))) (lower_nonempty host u)
              (ends-path (lower_bytes host) (trim_slash path) (ap ends_in_slash same ∙ k)))
    ]
