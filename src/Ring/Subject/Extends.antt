-- ===== src/Ring/Subject/Extends.antt =====
-- internal/ring/classify.go: a prefix of a subject that is read for an owner settles that every
-- subject with the prefix has one.
use cloudarq.Prelude.{
  ◌≡◌, refl, ap₂, ◌∙◌, sym, inl, inr, Bool, true, false, not, ◌&&◌, List, [], ◌∷◌, ◌++◌, length,
  drop, Bool-cases, arith, if◌then◌else◌, Option, some, none, All, subst,
}
use cloudarq.Text.Bytes.{Bytes}
use cloudarq.Trust.Issuer.{IssuerRef, has_prefix}
use cloudarq.Ring.Owner.{Namespace, Owner, is_name_kind}
use cloudarq.Ring.Facts.{Tenancy, SubjectForm, Part}
use cloudarq.Ring.Subject.{
  is_empty_list, is_none, FormReading, fits_with, no_fit, part_owner, read_parts,
}
use cloudarq.Ring.Subject.Runs.{
  HasAsciiNames, run_bytes, rest_bytes, owner_run-bytes, drop-run, run_bytes-append,
}

-- One round of the loop of `readForm`.
abbrev part_step : Bool → Option Owner → Bytes → Bytes → Bytes → Owner → FormReading → FormReading
part_step complete owner run after delimiter closed onward =
    if is_empty_list after && (not complete && is_none owner)
    then fits_with none run
    else if is_empty_list after && not complete
    then fits_with owner []
    else if not (is_empty_list after) && not (has_prefix after delimiter)
    then no_fit
    else if is_empty_list run
    then fits_with owner []
    else if is_empty_list after
    then fits_with (some closed) []
    else onward

-- Every delimiter is one byte.
abbrev pub HasByteDelimiters : List Part → Type 0
HasByteDelimiters parts = All (λ (p : Part). length p.delimiter ≡ 1) parts

one_byte_prefix :
    (after s delimiter : Bytes)
    → length delimiter ≡ 1
    → is_empty_list after ≡ false
    → has_prefix (after ++ s) delimiter ≡ has_prefix after delimiter
unfolding has_prefix is_empty_list
one_byte_prefix [] s d h k = ground arith
one_byte_prefix (a ∷ after) s [] h k = refl
one_byte_prefix (a ∷ after) s (d ∷ []) h k = refl
one_byte_prefix (a ∷ after) s (d ∷ e ∷ ds) h k = absurd (omega arith)

one_byte_drop :
    (after s delimiter : Bytes)
    → length delimiter ≡ 1
    → is_empty_list after ≡ false
    → drop (length delimiter) (after ++ s) ≡ drop (length delimiter) after ++ s
unfolding is_empty_list
one_byte_drop [] s d h k = ground arith
one_byte_drop (a ∷ after) s d h k = rw h refl

-- A text that goes on is not empty.
append_goes_on :
    (after s : Bytes) → is_empty_list after ≡ false → is_empty_list (after ++ s) ≡ false
unfolding is_empty_list
append_goes_on [] s h = ground arith
append_goes_on (a ∷ after) s h = refl

is_none-some : (o : Owner) → is_none (some o) ≡ false
unfolding is_none
is_none-some o = refl

-- A reading that fits has an owner.
abbrev Keeps : FormReading → Type 0
Keeps read = read.fits ≡ true → is_none read.owner ≡ false

-- Where the whole subject is read, so is its prefix; and where the prefix has an owner, it has.
abbrev pub Extends : FormReading → FormReading → Type 0
Extends start whole =
    whole.fits ≡ true
    → (start.fits ≡ true) × (is_none start.owner ≡ false → is_none whole.owner ≡ false)

step_Keeps :
    (owner : Option Owner) (run after delimiter : Bytes) (closed : Owner) (onward : FormReading)
    → is_none owner ≡ false
    → Keeps onward
    → Keeps (part_step true owner run after delimiter closed onward)
unfolding fits_with is_none
step_Keeps owner run after d closed onward h k = elim (Bool-cases (is_empty_list after)) [
  | inl e ↦ elim (Bool-cases (is_empty_list run)) [
    | inl u ↦ rw (e, u) (λ _. h)
    | inr u ↦ rw (e, u) (λ _. refl)
  ]
  | inr e ↦ elim (Bool-cases (has_prefix after d)) [
    | inl w ↦ elim (Bool-cases (is_empty_list run)) [
      | inl u ↦ rw (e, w, u) (λ _. h)
      | inr u ↦ rw (e, w, u) k
    ]
    | inr w ↦ rw (e, w) (λ n. ground arith)
  ]
]

-- The prefix ends inside the part.
step_ends :
    (owner : Option Owner) (run after delimiter : Bytes) (closed : Owner)
    (onward whole : FormReading)
    → is_empty_list after ≡ true
    → (is_none owner ≡ false → Keeps whole)
    → Extends (part_step false owner run after delimiter closed onward) whole
unfolding fits_with is_none
step_ends none run after d closed onward whole h k = rw h (λ n. (refl, λ m. ground arith))
step_ends (some o) run after d closed onward whole h k = rw h (λ n. (refl, λ m. k refl n))

-- The prefix ends behind the part.
step_goes_on :
    (owner : Option Owner) (run after s delimiter : Bytes) (closed : Owner)
    (start whole : FormReading)
    → length delimiter ≡ 1
    → is_empty_list after ≡ false
    → Extends start whole
    → Extends
        (part_step false owner run after delimiter closed start)
        (part_step true owner run (after ++ s) delimiter closed whole)
unfolding fits_with is_none
step_goes_on owner run after s d closed start whole one h k =
    elim (Bool-cases (has_prefix after d)) [
      | inl w ↦ elim (Bool-cases (is_empty_list run)) [
        | inl u ↦
            rw (h, append_goes_on after s h, one_byte_prefix after s d one h, w, u)
              (λ n. (refl, λ m. m))
        | inr u ↦ rw (h, append_goes_on after s h, one_byte_prefix after s d one h, w, u) k
      ]
      | inr w ↦
          rw (h, append_goes_on after s h, one_byte_prefix after s d one h, w) (λ n. ground arith)
    ]

module _ (issuer : IssuerRef) (namespace : Namespace) (t : Tenancy) (names : HasAsciiNames t)
    (f : SubjectForm) where
  reading : Bool → Option Owner → Bytes → Bytes → List Part → FormReading
  reading = read_parts issuer namespace t f

  closed_by : Part → Bytes → Bytes → Owner
  closed_by part name run = part_owner issuer namespace t f part.kind name run

  onward_from : Bool → Part → Bytes → Bytes → Bytes → List Part → FormReading
  unfolding reading closed_by
  onward_from complete part name run after parts =
      reading complete (some (closed_by part name run))
        (if is_name_kind part.kind then run else name) (drop (length part.delimiter) after) parts

  reading_step :
      (complete : Bool) (owner : Option Owner) (name rest : Bytes) (part : Part) (parts : List Part)
      → reading complete owner name rest (part ∷ parts)
        ≡ part_step complete owner
            (run_bytes t rest)
            (rest_bytes t rest)
            part.delimiter
            (closed_by part name (run_bytes t rest))
            (onward_from complete part name (run_bytes t rest) (rest_bytes t rest) parts)
  unfolding reading read_parts closed_by onward_from
  reading_step complete owner name rest part parts =
      rw (read_parts, owner_run-bytes t names rest, drop-run t names rest) refl

  -- A whole subject read behind an owner keeps one.
  some-Keeps :
      (parts : List Part) (owner : Option Owner) (name rest : Bytes)
      → is_none owner ≡ false
      → Keeps (reading true owner name rest parts)
  unfolding onward_from
  some-Keeps [] owner name rest h = unfold reading read_parts fits_with in λ _. h
  some-Keeps (part ∷ parts) owner name rest h =
      subst Keeps (sym (reading_step true owner name rest part parts)) (
        step_Keeps owner (run_bytes t rest) (rest_bytes t rest) part.delimiter
          (closed_by part name (run_bytes t rest)) _ h
          (some-Keeps parts (some (closed_by part name (run_bytes t rest))) _ _ (is_none-some _)))

  reading-Extends :
      (parts : List Part) (owner : Option Owner) (name r s : Bytes)
      → HasByteDelimiters parts
      → Extends (reading false owner name r parts) (reading true owner name (r ++ s) parts)
  unfolding onward_from
  reading-Extends [] owner name r s h = unfold reading read_parts fits_with in λ n. (refl, λ m. m)
  reading-Extends (part ∷ parts) owner name r s h =
      let start_step = reading_step false owner name r part parts in
      let whole_step = reading_step true owner name (r ++ s) part parts in
      let whole = reading true owner name (r ++ s) (part ∷ parts) in
      let run = run_bytes t r in
      let after = rest_bytes t r in
      let closed = closed_by part name run in
      let start = onward_from false part name run after parts in
      elim (Bool-cases (is_empty_list after)) [
        | inl e ↦
            subst (λ x. Extends x whole) (sym start_step)
              (step_ends owner run after part.delimiter closed start whole e
                (some-Keeps (part ∷ parts) owner name (r ++ s)))
        | inr e ↦
            let (same_run, same_rest) = run_bytes-append t names r s e in
            let ih =
              reading-Extends parts (some closed) (if is_name_kind part.kind then run else name)
                (drop (length part.delimiter) after) s h.1 in
            let next = onward_from true part name run (after ++ s) parts in
            let onward : Extends start next =
              subst
                (λ x. Extends start (
                  reading true (some closed) (if is_name_kind part.kind then run else name) x
                    parts))
                (sym (one_byte_drop after s part.delimiter h.0 e)) ih in
            let reads =
              whole_step
              ∙ ap₂
                  (λ u v.
                    part_step true owner u v part.delimiter (closed_by part name u)
                      (onward_from true part name u v parts))
                  same_run same_rest in
            subst (λ x. Extends x whole) (sym start_step)
              (subst (λ y. Extends (part_step false owner run after part.delimiter closed start) y)
                (sym reads)
                (step_goes_on owner run after s part.delimiter closed start next h.0 e onward))
      ]

  -- What is read of a prefix by the parts of a form stands for every subject that has the prefix.
  pub read_parts-Extends :
      (parts : List Part) (owner : Option Owner) (name r s : Bytes)
      → HasByteDelimiters parts
      → Extends
          (read_parts issuer namespace t f false owner name r parts)
          (read_parts issuer namespace t f true owner name (r ++ s) parts)
  unfolding reading
  read_parts-Extends parts owner name r s h = reading-Extends parts owner name r s h
