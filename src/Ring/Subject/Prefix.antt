-- ===== src/Ring/Subject/Prefix.antt =====
-- internal/ring/classify.go: the owners read off a prefix, for every subject that has it.
use cloudarq.Prelude.{
  ℕ, zero, suc, ◌≤◌, ◌≡◌, refl, inl, inr, Bool, true, false, not, ◌||◌, List, [], ◌∷◌, ◌++◌, length,
  length-append, drop, ltb, Bool-cases, Option-cases, arith, if◌then◌else◌, Option, some, none, All,
  any,
}
use cloudarq.Text.Bytes.{Bytes}
use cloudarq.Trust.Issuer.{IssuerRef, has_prefix}
use cloudarq.Ring.Owner.{Namespace, Owner}
use cloudarq.Ring.Facts.{Tenancy, SubjectForm}
use cloudarq.Ring.Subject.{
  is_empty_list, is_none, FormReading, fits_with, read_form, leads, readable, form_owners,
  subject_owners, some_form_reads,
}
use cloudarq.Ring.Subject.Runs.{HasAsciiNames}
use cloudarq.Ring.Subject.Extends.{HasByteDelimiters, Extends, read_parts-Extends}

prefix_length : (v lead : Bytes) → has_prefix v lead ≡ true → length lead ≤ length v
unfolding has_prefix
prefix_length v [] h = omega arith
prefix_length [] (c ∷ lead) h = ground arith
prefix_length (b ∷ v) (c ∷ lead) h = ground (arith, prefix_length v lead)

-- What leads a text may lead its beginnings.
leads_start :
    (p s lead : Bytes)
    → has_prefix (p ++ s) lead ≡ true
    → (has_prefix p lead || has_prefix lead p) ≡ true
unfolding has_prefix
leads_start [] s [] h = refl
leads_start [] s (c ∷ lead) h = refl
leads_start (b ∷ p) s [] h = refl
leads_start (b ∷ p) s (c ∷ lead) h = ground (arith, leads_start p s lead)

drop_start : (n : ℕ) (p s : Bytes) → n ≤ length p → drop n (p ++ s) ≡ drop n p ++ s
drop_start zero p s h = refl
drop_start (suc n) [] s h = absurd (omega arith)
drop_start (suc n) (b ∷ p) s h = drop_start n p s (omega arith)

-- One round of the loop of `subjectOwners`.
abbrev form_round : FormReading → Option (List Owner) → Option (List Owner)
form_round read rest = if not read.fits then rest else elim read.owner [
  | none ↦ none
  | some o ↦ elim rest [ none ↦ none | some os ↦ some (o ∷ os) ]
]

rest_kept :
    (read : FormReading) (rest : Option (List Owner))
    → is_none (form_round read rest) ≡ false
    → is_none rest ≡ false
unfolding is_none
rest_kept read (some os) h = refl
rest_kept read none h = elim (Bool-cases read.fits) [
  | inl e ↦ elim (Option-cases read.owner) [
    | inl u ↦ let none_read : true ≡ false = rw (e, u) at h in none_read
    | inr (o, u) ↦ let none_read : true ≡ false = rw (e, u) at h in none_read
  ]
  | inr e ↦ let none_read : true ≡ false = rw e at h in none_read
]

owner_kept :
    (read : FormReading) (rest : Option (List Owner))
    → read.fits ≡ true
    → is_none (form_round read rest) ≡ false
    → is_none read.owner ≡ false
unfolding is_none
owner_kept read rest e h = elim (Option-cases read.owner) [
  | inl u ↦ let none_read : true ≡ false = rw (e, u) at h in absurd (ground arith)
  | inr (o, u) ↦ rw u refl
]

-- There are owners, and some where the test holds.
abbrev OwnedIf : Bool → Option (List Owner) → Type 0
OwnedIf b o = (os : List Owner) × (o ≡ some os) × (b ≡ true → is_empty_list os ≡ false)

round_owned :
    (start whole : FormReading) (rest after : Option (List Owner)) (b : Bool)
    → Extends start whole
    → is_none (form_round start rest) ≡ false
    → OwnedIf b after
    → OwnedIf (whole.fits || b) (form_round whole after)
unfolding is_empty_list is_none
round_owned start whole rest after b ext h (os, e, n) = elim (Bool-cases whole.fits) [
  | inr u ↦ (os, rw u e, rw u n)
  | inl u ↦
      let (start_fits, has_owner) = ext u in
      let has = has_owner (owner_kept start rest start_fits h) in
      elim (Option-cases whole.owner) [
        | inl w ↦ let none_read : true ≡ false = rw w at has in absurd (ground arith)
        | inr (o, w) ↦ (o ∷ os, rw (u, w, e) refl, λ _. refl)
      ]
]

module _ (issuer : IssuerRef) (namespace : Namespace) (t : Tenancy) (names : HasAsciiNames t) where
  form-Extends :
      (f : SubjectForm) (p s : Bytes)
      → HasByteDelimiters f.parts
      → Extends
          (read_form issuer namespace t f p false)
          (read_form issuer namespace t f (p ++ s) true)
  unfolding read_form leads fits_with is_none
  form-Extends f p s h = elim (Bool-cases (has_prefix (p ++ s) f.lead)) [
    | inr e ↦ rw (read_form, e) (λ n. ground arith)
    | inl e ↦
        let led = leads_start p s f.lead e in
        elim (Bool-cases (ltb (length p) (length f.lead) || not (readable t f))) [
          | inl u ↦ rw (read_form, led, u) (λ n. (refl, λ m. ground arith))
          | inr u ↦
              let long : length f.lead ≤ length p = ground arith in
              let whole : (ltb (length (p ++ s)) (length f.lead) || not (readable t f)) ≡ false =
                ground (arith, length-append p s) in
              rw (read_form, led, u, e, whole, drop_start (length f.lead) p s long)
                (read_parts-Extends issuer namespace t names f f.parts none []
                  (drop (length f.lead) p) s h)
        ]
  ]

  fits : Bytes → SubjectForm → Bool
  fits v f = (read_form issuer namespace t f v true).fits

  forms_owned :
      (p s : Bytes) (fs : List SubjectForm)
      → All (λ (f : SubjectForm). HasByteDelimiters f.parts) fs
      → is_none (form_owners issuer namespace t p false fs) ≡ false
      → OwnedIf (any (fits (p ++ s)) fs) (form_owners issuer namespace t (p ++ s) true fs)
  unfolding form_owners fits
  forms_owned p s [] h k = ([], refl, λ n. absurd (ground arith))
  forms_owned p s (f ∷ fs) h k =
      let start = read_form issuer namespace t f p false in
      let whole = read_form issuer namespace t f (p ++ s) true in
      let rest = form_owners issuer namespace t p false fs in
      round_owned start whole rest (form_owners issuer namespace t (p ++ s) true fs)
        (any (fits (p ++ s)) fs) (form-Extends f p s h.0) k
        (forms_owned p s fs h.1 (rest_kept start rest k))

  pins_nothing :
      (p s : Bytes) (ls : List Bytes)
      → any (λ lead. leads p lead false) ls ≡ false
      → any (λ lead. leads (p ++ s) lead true) ls ≡ false
  unfolding leads
  pins_nothing p s [] h = refl
  pins_nothing p s (l ∷ ls) h = ground (arith, leads_start p s l, pins_nothing p s ls)

  -- Let an owner's characters be ASCII and every delimiter one byte. Where a prefix is read for
  -- owners, a whole subject with the prefix that some form reads is read for owners too.
  pub subject_owners-prefix :
      (p s : Bytes)
      → All (λ (f : SubjectForm). HasByteDelimiters f.parts) t.subject_forms
      → is_empty_list (subject_owners issuer namespace t p false) ≡ false
      → some_form_reads issuer namespace t (p ++ s) ≡ true
      → is_empty_list (subject_owners issuer namespace t (p ++ s) true) ≡ false
  unfolding subject_owners some_form_reads fits is_empty_list is_none
  subject_owners-prefix p s h k r =
      elim (Bool-cases (any (λ lead. leads p lead false) t.never_pin)) [
        | inl e ↦
            let none_read : true ≡ false = rw (subject_owners, e) at k in absurd (ground arith)
        | inr e ↦ elim (Option-cases (form_owners issuer namespace t p false t.subject_forms)) [
          | inl u ↦
              let none_read : true ≡ false = rw (subject_owners, e, u) at k in absurd (ground arith)
          | inr (os, u) ↦
              let (whole, w, n) = forms_owned p s t.subject_forms h (rw u refl) in
              rw (subject_owners, pins_nothing p s t.never_pin e, w) (n r)
        ]
      ]
