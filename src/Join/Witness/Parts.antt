-- ===== src/Join/Witness/Parts.antt =====
-- internal/join/witness.go: a bracketed list of parts is read part by part.
use cloudarq.Prelude.{
  ℕ, zero, suc, ◌≤◌, ◌≡◌, refl, ap, ◌∙◌, true, false, List, [], ◌∷◌, ◌++◌, append_assoc, map, All,
  some, length, length-append, drop, arith,
}
use cloudarq.Text.Bytes.{Bytes, codes}
use cloudarq.Text.Parts.{join_parts}
use cloudarq.Eval.StringSet.{bracket}
use cloudarq.Trust.Issuer.{has_prefix}
use cloudarq.Join.Witness.{
  ReadKind, all_of, any_of, ReadShape, read_as, reads_of, Parsed, more_members, closed_members,
  members_after, parse_members,
}

drop-prefix : (p s : Bytes) → drop (length p) (p ++ s) ≡ s
drop-prefix [] s = refl
drop-prefix (b ∷ p) s = drop-prefix p s

prefix_self : (p s : Bytes) → has_prefix (p ++ s) p ≡ true
unfolding has_prefix
prefix_self [] s = refl
prefix_self (b ∷ p) s = ground (arith, prefix_self p s)

-- Parts with the separator before each, in front of a text.
module _ {ℓ} {A : Type ℓ} (f : A → Bytes) (sep : Bytes) where
  abbrev pub tails : List A → Bytes → Bytes
  tails [] t = t
  tails (y ∷ ys) t = sep ++ (f y ++ tails ys t)

  pub join_parts-tails :
      (x : A) (xs : List A) (t : Bytes) → join_parts sep (map f (x ∷ xs)) ++ t ≡ f x ++ tails xs t
  unfolding join_parts
  join_parts-tails x [] t = refl
  join_parts-tails x (y ∷ ys) t =
      append_assoc (f x) (sep ++ join_parts sep (map f (y ∷ ys))) t
      ∙ ap (λ r. f x ++ r)
          (append_assoc sep (join_parts sep (map f (y ∷ ys))) t
            ∙ ap (λ r. sep ++ r) (join_parts-tails y ys t))

  pub tails-length : (ys : List A) (t : Bytes) → 1 ≤ length sep → length ys ≤ length (tails ys t)
  tails-length [] t h = omega arith
  tails-length (y ∷ ys) t h = omega (
    arith,
    tails-length ys t h,
    length-append sep (f y ++ tails ys t),
    length-append (f y) (tails ys t),
  )

-- A list of parts, each read by `parse` as `g` says, with a separator between them.
module _ {ℓ} {A : Type ℓ} (P : A → Type 0) (f : A → Bytes) (g : A → ReadShape)
    (parse : Bytes → Parsed) (sep : Bytes)
    (one : (y : A) (rest : Bytes) → P y → parse (f y ++ rest) ≡ some (g y, rest)) where
  more_members-tails :
      (ys : List A) (fuel : ℕ) (t : Bytes)
      → has_prefix t sep ≡ false
      → length ys ≤ fuel
      → All P ys
      → more_members parse sep fuel (tails f sep ys t) ≡ some (map g ys, t)
  unfolding more_members
  more_members-tails [] zero t n l h = refl
  more_members-tails [] (suc fuel) t n l h = rw n refl
  more_members-tails (y ∷ ys) zero t n l h = absurd (omega arith)
  more_members-tails (y ∷ ys) (suc fuel) t n l h =
      rw
        (
          prefix_self sep (f y ++ tails f sep ys t),
          drop-prefix sep (f y ++ tails f sep ys t),
          one y (tails f sep ys t) h.0,
          more_members-tails ys fuel t n (omega arith) h.1,
        )
        refl

  -- The members behind the first, up to the closing parenthesis.
  pub members_after-tails :
      (kind : ReadKind) (x y : A) (ys : List A) (t : Bytes)
      → 1 ≤ length sep
      → has_prefix (b')' ∷ t) sep ≡ false
      → closed_members kind (g x ∷ g y ∷ map g ys) (b')' ∷ t)
        ≡ some (read_as kind [] (reads_of (g x ∷ g y ∷ map g ys)), t)
      → All P (y ∷ ys)
      → members_after parse kind sep (g x) (tails f sep (y ∷ ys) (b')' ∷ t))
        ≡ some (read_as kind [] (reads_of (g x ∷ g y ∷ map g ys)), t)
  unfolding members_after
  members_after-tails kind x y ys t h n c k =
      rw (more_members-tails (y ∷ ys) _ (b')' ∷ t) n (tails-length f sep (y ∷ ys) (b')' ∷ t) h) k) c

pub bracket-append :
    (sep : Bytes) (parts : List Bytes) (t : Bytes)
    → bracket sep parts ++ t ≡ b'(' ∷ (join_parts sep parts ++ (b')' ∷ t))
unfolding bracket
bracket-append sep parts t = ap (◌∷◌ b'(') (append_assoc (join_parts sep parts) (b')' ∷ []) t)

pub starts_inter : (s : Bytes) → has_prefix (codes " & " ++ s) (codes " & ") ≡ true
starts_inter s = prefix_self (codes " & ") s

pub starts_union : (s : Bytes) → has_prefix (codes " | " ++ s) (codes " & ") ≡ false
unfolding has_prefix
starts_union s = refl

pub close_apart :
    (t : Bytes)
    → (has_prefix (b')' ∷ t) (codes " & ") ≡ false) × (has_prefix (b')' ∷ t) (codes " | ") ≡ false)
unfolding has_prefix
close_apart t = (refl, refl)

module _ (parse : Bytes → Parsed) (text : Bytes) (first : ReadShape) (rest : Bytes)
    (read : parse text ≡ some (first, rest)) where
  pub parse_members-inter :
      has_prefix rest (codes " & ") ≡ true
      → parse_members parse text ≡ members_after parse all_of (codes " & ") first rest
  unfolding parse_members
  parse_members-inter e = rw (read, e) refl

  pub parse_members-union :
      has_prefix rest (codes " & ") ≡ false
      → parse_members parse text ≡ members_after parse any_of (codes " | ") first rest
  unfolding parse_members
  parse_members-union e = rw (read, e) refl
