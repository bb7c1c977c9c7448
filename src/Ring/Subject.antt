-- ===== src/Ring/Subject.antt =====
-- internal/ring/classify.go: how a subject is read for its owner.
pub mod Starts
pub mod Runs
pub mod Extends
pub mod Prefix
use cloudarq.Prelude.{
  ℕ, ◌+◌, Bool, true, false, not, ◌&&◌, ◌||◌, List, [], ◌∷◌, ◌++◌, Option, none, some, any, length,
  take, drop, ltb, leb, if◌then◌else◌,
}
use cloudarq.Prelude.Order.Sorting.{sort}
use cloudarq.Text.Bytes.{Bytes, bytes_eq, bytes_order}
use cloudarq.Text.Utf8.{Piece, pieces, rune_of, bytes_of}
use cloudarq.Trust.Issuer.{IssuerRef, has_prefix}
use cloudarq.Ring.Owner.{Namespace, Scope, Kind, Owner, scope_none, scope_eq, is_name_kind}
use cloudarq.Ring.Facts.{Established, no, Tenancy, TenancyClaim, SubjectForm, Part, CharRange}

-- Everything but a vendor's sentence that the fact does not hold.
unfoldable pub is_not_no : Established → Bool
is_not_no no = false
is_not_no _ = true

unfoldable pub is_empty_list {ℓ} : {A : Type ℓ} → List A → Bool
is_empty_list [] = true
is_empty_list (x ∷ xs) = false

unfoldable pub allows : Tenancy → ℕ → Bool
allows t r = any (λ (cr : CharRange). leb cr.first r && leb r cr.last) t.owner_characters

-- The byte offset at which the loop of `ownerRun` returns.
unfoldable pub run_width : Tenancy → List Piece → ℕ
unfolding allows rune_of
run_width t [] = 0
run_width t (p ∷ ps) =
    let rest = run_width t ps in
    if not (allows t (rune_of p)) then 0 else length (bytes_of p) + rest

unfoldable pub owner_run : Tenancy → Bytes → Bytes
unfolding run_width
owner_run t s = take (run_width t (pieces s)) s

unfoldable pub leads : Bytes → Bytes → Bool → Bool
leads text lead complete = has_prefix text lead || (not complete && has_prefix lead text)

-- A delimiter of one character that no owner's name holds: the string is one piece.
unfoldable pub is_delimiter : Tenancy → List Piece → Bool
is_delimiter t [] = false
is_delimiter t (p ∷ ps) = is_empty_list ps && not (allows t (rune_of p))

unfoldable pub delimited : Tenancy → List Part → Bool
unfolding is_delimiter
delimited t [] = true
delimited t (part ∷ parts) = is_delimiter t (pieces part.delimiter) && delimited t parts

unfoldable pub readable : Tenancy → SubjectForm → Bool
unfolding delimited
readable t f = not (scope_eq f.scope scope_none) && delimited t f.parts

same_kind : Kind → Kind → Bool
same_kind k j = if is_name_kind k then is_name_kind j else not (is_name_kind j)

-- The claims of a scope and a kind.
unfoldable pub claims_of : Scope → Kind → List TenancyClaim → List TenancyClaim
unfolding same_kind
claims_of scope kind [] = []
claims_of scope kind (c ∷ cs) =
    let rest = claims_of scope kind cs in
    if scope_eq c.scope scope && same_kind c.kind kind then c ∷ rest else rest

only_recyclable : List TenancyClaim → Bool
only_recyclable (c ∷ []) = is_not_no c.recyclable
only_recyclable _ = true

unfoldable pub part_recyclable : Tenancy → Scope → Kind → Bool
unfolding only_recyclable
part_recyclable t scope kind = only_recyclable (claims_of scope kind t.claims)

-- What `readForm` returns.
pub record FormReading : Type 0 where
  pub owner : Option Owner
  pub open_run : Bytes
  pub fits : Bool

unfoldable pub fits_with : Option Owner → Bytes → FormReading
fits_with owner run = record { owner = owner; open_run = run; fits = true }

abbrev pub no_fit : FormReading
no_fit = record { owner = none; open_run = []; fits = false }

unfoldable pub is_none {ℓ} : {A : Type ℓ} → Option A → Bool
is_none none = true
is_none (some a) = false

module _ (issuer : IssuerRef) (namespace : Namespace) (t : Tenancy) where
  unfoldable pub part_owner : SubjectForm → Kind → Bytes → Bytes → Owner
  part_owner f kind name run = record {
    issuer = issuer;
    namespace = namespace;
    scope = f.scope;
    kind = kind;
    value = run;
    name = if is_name_kind kind then [] else name;
    recyclable = part_recyclable t f.scope kind;
    declared = false;
  }

  -- The loop of `readForm` over the parts, with the owner and the name read so far.
  unfoldable pub read_parts :
      SubjectForm → Bool → Option Owner → Bytes → Bytes → List Part → FormReading
  unfolding part_owner
  read_parts f complete owner name rest [] = fits_with owner []
  read_parts f complete owner name rest (part ∷ parts) =
      let run = owner_run t rest in
      let after = drop (length run) rest in
      let closed = part_owner f part.kind name run in
      let onward =
        read_parts f complete (some closed) (if is_name_kind part.kind then run else name)
          (drop (length part.delimiter) after) parts in
      if is_empty_list after && (not complete && is_none owner)
      then fits_with none run
      else if is_empty_list after && not complete
      then fits_with owner []
      else if not (is_empty_list after) && not (has_prefix after part.delimiter)
      then no_fit
      else if is_empty_list run
      then fits_with owner []
      else if is_empty_list after
      then fits_with (some closed) []
      else onward

  unfoldable pub read_form : SubjectForm → Bytes → Bool → FormReading
  unfolding read_parts
  read_form f text complete =
      if not (leads text f.lead complete)
      then no_fit
      else if ltb (length text) (length f.lead) || not (readable t f)
      then fits_with none []
      else read_parts f complete none [] (drop (length f.lead) text) f.parts

  -- The loop of `subjectOwners` over the forms: `none` where it returns nil at once.
  unfoldable pub form_owners : Bytes → Bool → List SubjectForm → Option (List Owner)
  form_owners text complete [] = some []
  form_owners text complete (f ∷ fs) =
      let read = read_form f text complete in
      let rest = form_owners text complete fs in
      if not read.fits then rest else elim read.owner [
        | none ↦ none
        | some o ↦ elim rest [ none ↦ none | some os ↦ some (o ∷ os) ]
      ]

  -- The owners, where nil is the empty list.
  unfoldable pub subject_owners : Bytes → Bool → List Owner
  unfolding form_owners
  subject_owners text complete =
      if any (λ lead. leads text lead complete) t.never_pin
      then []
      else elim (form_owners text complete t.subject_forms) [ none ↦ [] | some os ↦ os ]

  unfoldable pub some_form_reads : Bytes → Bool
  some_form_reads v = any (λ f. (read_form f v true).fits) t.subject_forms

  -- The loop of `writtenStart`.
  unfoldable pub start_from : Bytes → Bytes → List SubjectForm → Bytes
  start_from text start [] = start
  start_from text start (f ∷ fs) =
      let read = read_form f text false in
      let skipped = start_from text start fs in
      let onward = start_from text read.open_run fs in
      if not read.fits
      then skipped
      else if not (is_none read.owner)
          || (is_empty_list read.open_run
              || (not (is_empty_list start) && not (bytes_eq read.open_run start)))
      then []
      else onward

  unfoldable pub written_start : Bytes → Bytes
  unfolding start_from
  written_start text =
      if any (λ lead. leads text lead false) t.never_pin
      then []
      else start_from text [] t.subject_forms

-- The inner loop of `longerOf`.
unfoldable pub longer_with : Bytes → List Bytes → List Bytes
longer_with x [] = []
longer_with x (y ∷ b) =
    let rest = longer_with x b in
    if has_prefix y x then y ∷ rest else if has_prefix x y then x ∷ rest else rest

unfoldable pub longer_of : List Bytes → List Bytes → List Bytes
unfolding longer_with
longer_of [] b = []
longer_of (x ∷ a) b = longer_with x b ++ longer_of a b

-- The loop of `shortest` behind the start that it kept last.
unfoldable pub shortest_from : Bytes → List Bytes → List Bytes
shortest_from kept [] = []
shortest_from kept (s ∷ ss) =
    let skipped = shortest_from kept ss in
    let onward = shortest_from s ss in if not (has_prefix s kept) then s ∷ onward else skipped

shortest_sorted : List Bytes → List Bytes
unfolding shortest_from
shortest_sorted [] = []
shortest_sorted (s ∷ ss) = s ∷ shortest_from s ss

unfoldable pub shortest : List Bytes → List Bytes
unfolding shortest_sorted
shortest starts = shortest_sorted (sort bytes_order (λ s. s) starts)
