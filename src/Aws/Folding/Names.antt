-- ===== src/Aws/Folding/Names.antt =====
-- internal/parse/aws/condition.go: which keys `MayName` reads as a claim.
use cloudarq.Prelude.{
  ℕ, ◌≡◌, refl, ap, ◌∙◌, sym, inl, inr, ◌⊎◌, ◌↔◌, true, false, ◌&&◌, [], ◌∷◌, ◌++◌, append_assoc,
  append-nil, arith, Bool-cases, ◌==◌, any, leb, Option-cases, some,
}
use cloudarq.Text.Bytes.{Bytes, bytes_eq, bytes_eq_iff, codes}
use cloudarq.Eval.Claims.{ClaimKey}
use cloudarq.Trust.Issuer.{IssuerRef, trim_slash, https, lower_ascii}
use cloudarq.Aws.Folding.{
  CaseTables, holds_variable, variable_reference, trim_prefix, canon, names_own_key, may_name, wide,
  fold, has_variants, folds_beyond_ascii, cut,
}
use cloudarq.Text.Utf8.{runes}
use cloudarq.Aws.Folding.Cut.{cut_splits, cut_found}

-- A colon stands between the provider and the claim, each as `spell` spells it.
abbrev IsOwnKey : (Bytes → Bytes) → Bytes → Bytes → Bytes → Bytes → Type 0
IsOwnKey spell provider wanted before s =
    (middle : Bytes) × (rest : Bytes) × (s ≡ middle ++ (b':' ∷ rest))
    × (spell (trim_slash (before ++ middle)) ≡ provider)
    × (spell rest ≡ wanted)

module _ (spell : Bytes → Bytes) (provider wanted : Bytes) where
  IsOwnKey-cons :
      (c : ℕ) (before s : Bytes)
      → IsOwnKey spell provider wanted (before ++ c ∷ []) s
      → IsOwnKey spell provider wanted before (c ∷ s)
  IsOwnKey-cons c before s (middle, rest, split, p, w) = (
    c ∷ middle,
    rest,
    ap (◌∷◌ c) split,
    ap (λ t. spell (trim_slash t)) (sym (append_assoc before (c ∷ []) middle)) ∙ p,
    w,
  )

  names_own_key-IsOwnKey :
      (before s : Bytes)
      → names_own_key spell provider wanted before s ≡ true
      → IsOwnKey spell provider wanted before s
  unfolding names_own_key
  names_own_key-IsOwnKey before [] e = cc e
  names_own_key-IsOwnKey before (c ∷ s) e =
      elim (Bool-cases (
        c == b':'
        && (bytes_eq (spell (trim_slash before)) provider && bytes_eq (spell s) wanted))) [
          | inl x ↦
              let colon : c ≡ b':' = ground arith in
              (
                [],
                s,
                ap (λ b. b ∷ s) colon,
                ap (λ t. spell (trim_slash t)) (append-nil before)
                    ∙ (bytes_eq_iff (spell (trim_slash before)) provider).0 (ground arith),
                (bytes_eq_iff (spell s) wanted).0 (ground arith),
              )
          | inr x ↦
              IsOwnKey-cons c before s (names_own_key-IsOwnKey (before ++ c ∷ []) s (rw x at e))
        ]

  IsOwnKey-names_own_key :
      (middle before rest : Bytes)
      → spell (trim_slash (before ++ middle)) ≡ provider
      → spell rest ≡ wanted
      → names_own_key spell provider wanted before (middle ++ (b':' ∷ rest)) ≡ true
  unfolding names_own_key
  IsOwnKey-names_own_key [] before rest p w =
      let here : bytes_eq (spell (trim_slash before)) provider ≡ true =
        (bytes_eq_iff _ _).1 (ap (λ t. spell (trim_slash t)) (sym (append-nil before)) ∙ p) in
      let there : bytes_eq (spell rest) wanted ≡ true = (bytes_eq_iff _ _).1 w in
      rw (here, there) refl
  IsOwnKey-names_own_key (c ∷ middle) before rest p w = ground (
    arith,
    IsOwnKey-names_own_key middle (before ++ c ∷ []) rest
        (ap (λ t. spell (trim_slash t)) (append_assoc before (c ∷ []) middle) ∙ p) w,
  )

-- A key holds a letter beyond ASCII that has case variants.
abbrev pub HoldsVariant : CaseTables → ClaimKey → Type 0
HoldsVariant tables key =
    any (λ r. leb 0x80 r && any (λ v. v == r) tables.variants) (runes key) ≡ true

-- A key names the claim, or the issuer's own claim behind the issuer without its scheme and a closing
-- slash and a colon, where both are spelled alike.
abbrev pub SpellsAlike : (Bytes → Bytes) → ClaimKey → IssuerRef → ClaimKey → Type 0
SpellsAlike spell key issuer claim =
    (spell key ≡ spell claim)
    ⊎ ((before : Bytes) × (rest : Bytes) × (key ≡ before ++ (b':' ∷ rest))
        × (spell (trim_slash before) ≡ spell (trim_slash (trim_prefix issuer https)))
        × (spell rest ≡ spell claim))

-- A key holds the opening of a policy variable.
abbrev pub HoldsOpening : ClaimKey → Type 0
HoldsOpening key = (before : Bytes) × (after : Bytes) × (key ≡ before ++ (codes "${" ++ after))

-- What a key may stand for: anything, where it holds a policy variable, and else what it spells, by
-- the widest folding where it holds a letter that this may change, and by that of ASCII letters
-- where it holds none.
abbrev pub MayStand : CaseTables → ClaimKey → IssuerRef → ClaimKey → Type 0
MayStand tables key issuer claim =
    HoldsOpening key
    ⊎ (HoldsVariant tables key × SpellsAlike (wide tables) key issuer claim)
    ⊎ ((¬ HoldsVariant tables key) × SpellsAlike lower_ascii key issuer claim)

holds_variable-HoldsOpening : (key : ClaimKey) → holds_variable key ≡ true → HoldsOpening key
unfolding holds_variable variable_reference
holds_variable-HoldsOpening key e = elim (Option-cases (cut (codes "${") key)) [
  | inl n ↦ let bad : false ≡ true = rw (n, holds_variable, variable_reference) at e in cc bad
  | inr ((before, after), f) ↦ (before, after, cut_splits (codes "${") key before after f)
]

HoldsOpening-holds_variable : (key : ClaimKey) → HoldsOpening key → holds_variable key ≡ true
unfolding holds_variable variable_reference
HoldsOpening-holds_variable key (before, after, split) =
    let ((first, rest), found) = cut_found before after in
    let cut_key : cut (codes "${") key ≡ some (first, rest) = ap (cut (codes "${")) split ∙ found in
    elim (Option-cases (cut (codes "}") rest)) [
      | inl n ↦ rw (cut_key, n, holds_variable, variable_reference) refl
      | inr (parts, f) ↦ rw (cut_key, f, holds_variable, variable_reference) refl
    ]

-- The folding that a key is read by.
folding_of :
    (tables : CaseTables) (key : ClaimKey)
    → (HoldsVariant tables key × ((s : Bytes) → canon tables key s ≡ wide tables s))
      ⊎ ((¬ HoldsVariant tables key) × ((s : Bytes) → canon tables key s ≡ lower_ascii s))
unfolding canon folds_beyond_ascii has_variants fold
folding_of tables key = elim (Bool-cases (folds_beyond_ascii tables key)) [
  | inl x ↦ inl (x, λ s. rw x refl)
  | inr x ↦ inr (λ h. cc (x, h), λ s. rw x refl)
]

-- Two foldings that are the same name the same.
SpellsAlike-same :
    (f g : Bytes → Bytes) (key : ClaimKey) (issuer : IssuerRef) (claim : ClaimKey)
    → ((s : Bytes) → f s ≡ g s)
    → SpellsAlike f key issuer claim
    → SpellsAlike g key issuer claim
SpellsAlike-same f g key issuer claim h (inl e) = inl (sym (h key) ∙ e ∙ h claim)
SpellsAlike-same f g key issuer claim h (inr (before, rest, split, p, w)) = inr (
  before,
  rest,
  split,
  sym (h (trim_slash before)) ∙ p ∙ h (trim_slash (trim_prefix issuer https)),
  sym (h rest) ∙ w ∙ h claim,
)

spelled-may_name :
    (tables : CaseTables) (key : ClaimKey) (issuer : IssuerRef) (claim : ClaimKey)
    → SpellsAlike (canon tables key) key issuer claim
    → may_name tables key issuer claim ≡ true
unfolding may_name
spelled-may_name tables key issuer claim h = elim (Bool-cases (holds_variable key)) [
  | inl x ↦ rw x refl
  | inr n ↦ elim (Bool-cases (bytes_eq (canon tables key key) (canon tables key claim))) [
    | inl y ↦ rw (n, y) refl
    | inr y ↦ rw (n, y) (known y h)
  ]
]
  where
    known :
        bytes_eq (canon tables key key) (canon tables key claim) ≡ false
        → SpellsAlike (canon tables key) key issuer claim
        → names_own_key
            (canon tables key)
            (canon tables key (trim_slash (trim_prefix issuer https)))
            (canon tables key claim)
            []
            key
          ≡ true
    known y (inl same) = cc ((bytes_eq_iff _ _).1 same, y)
    known y (inr (before, rest, split, p, w)) =
        ap (names_own_key (canon tables key) _ _ []) split
        ∙ IsOwnKey-names_own_key (canon tables key) _ _ before [] rest p w

may_name-spelled :
    (tables : CaseTables) (key : ClaimKey) (issuer : IssuerRef) (claim : ClaimKey)
    → may_name tables key issuer claim ≡ true
    → HoldsOpening key ⊎ SpellsAlike (canon tables key) key issuer claim
unfolding may_name
may_name-spelled tables key issuer claim e = elim (Bool-cases (holds_variable key)) [
  | inl x ↦ inl (holds_variable-HoldsOpening key x)
  | inr n ↦ elim (Bool-cases (bytes_eq (canon tables key key) (canon tables key claim))) [
    | inl y ↦ inr (inl ((bytes_eq_iff _ _).0 y))
    | inr y ↦ inr (inr (names_own_key-IsOwnKey (canon tables key) _ _ [] key (rw (n, y) at e)))
  ]
]

may_name-MayStand :
    (tables : CaseTables) (key : ClaimKey) (issuer : IssuerRef) (claim : ClaimKey)
    → may_name tables key issuer claim ≡ true
    → MayStand tables key issuer claim
may_name-MayStand tables key issuer claim e = elim (may_name-spelled tables key issuer claim e) [
  | inl opening ↦ inl opening
  | inr h ↦ elim (folding_of tables key) [
    | inl (v, same) ↦ inr (inl (v, SpellsAlike-same _ _ key issuer claim same h))
    | inr (n, same) ↦ inr (inr (n, SpellsAlike-same _ _ key issuer claim same h))
  ]
]

opening-may_name :
    (tables : CaseTables) (key : ClaimKey) (issuer : IssuerRef) (claim : ClaimKey)
    → HoldsOpening key
    → may_name tables key issuer claim ≡ true
unfolding may_name
opening-may_name tables key issuer claim h =
    let found : holds_variable key ≡ true = HoldsOpening-holds_variable key h in rw found refl

MayStand-may_name :
    (tables : CaseTables) (key : ClaimKey) (issuer : IssuerRef) (claim : ClaimKey)
    → MayStand tables key issuer claim
    → may_name tables key issuer claim ≡ true
MayStand-may_name tables key issuer claim (inl opening) =
    opening-may_name tables key issuer claim opening
MayStand-may_name tables key issuer claim (inr (inl (v, h))) = elim (folding_of tables key) [
  | inl (_, same) ↦
      spelled-may_name tables key issuer claim
        (SpellsAlike-same _ _ key issuer claim (λ s. sym (same s)) h)
  | inr (n, same) ↦ absurd (n v)
]
MayStand-may_name tables key issuer claim (inr (inr (n, h))) = elim (folding_of tables key) [
  | inl (v, same) ↦ absurd (n v)
  | inr (_, same) ↦
      spelled-may_name tables key issuer claim
        (SpellsAlike-same _ _ key issuer claim (λ s. sym (same s)) h)
]

-- `MayName` answers true exactly on a key that holds `${`, that spells the claim, or that spells the
-- issuer without its scheme and a closing slash, a colon and the claim. Two texts are spelled alike
-- by `Wide` where the key holds a letter beyond ASCII that has case variants, and by `lowerASCII`
-- where it holds none.
pub may_name_iff :
    (tables : CaseTables) (key : ClaimKey) (issuer : IssuerRef) (claim : ClaimKey)
    → (may_name tables key issuer claim ≡ true) ↔ MayStand tables key issuer claim
may_name_iff tables key issuer claim =
    (may_name-MayStand tables key issuer claim, MayStand-may_name tables key issuer claim)
