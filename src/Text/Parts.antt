-- ===== src/Text/Parts.antt =====
-- `strings.Join`, and why a bracketed list of parts reads back.
use cloudarq.Prelude.{ℕ, List, [], ◌∷◌, ◌++◌, ◌≡◌, ◌≢◌, ap, ◌∙◌, sym, map, append_assoc, arith, All}
use cloudarq.Text.Bytes.{Bytes}

unfoldable pub join_parts : Bytes → List Bytes → Bytes
join_parts sep [] = []
join_parts sep (p ∷ []) = p
join_parts sep (p ∷ q ∷ ps) = p ++ (sep ++ join_parts sep (q ∷ ps))

-- `f` shows an element of `P` and where its text ends.
abbrev pub ShowsEnd {ℓ κ} : {A : Type ℓ} → (A → Type κ) → (A → Bytes) → Type (ℓ ⊔ κ)
ShowsEnd {A} P f = (x y : A) (s t : Bytes) → P x → P y → f x ++ s ≡ f y ++ t → (x ≡ y) × (s ≡ t)

append_cancel : (r s t : Bytes) → r ++ s ≡ r ++ t → s ≡ t
append_cancel [] s t e = e
append_cancel (b ∷ r) s t e = append_cancel r s t (cc e)

-- A separator that begins with another character than the closing bracket.
module _ {ℓ κ} {A : Type ℓ} (P : A → Type κ) (f : A → Bytes) (c : ℕ) (sep : Bytes) (close : ℕ)
    (apart : c ≢ close) (shows : ShowsEnd P f) where
  -- A list of parts in front of the closing bracket, with its first part apart.
  pub parts_split :
      (x y : A) (xs : List A) (s : Bytes)
      → join_parts (c ∷ sep) (map f (x ∷ y ∷ xs)) ++ (close ∷ s)
        ≡ f x ++ (c ∷ (sep ++ (join_parts (c ∷ sep) (map f (y ∷ xs)) ++ (close ∷ s))))
  unfolding join_parts
  parts_split x y xs s =
      append_assoc (f x) ((c ∷ sep) ++ join_parts (c ∷ sep) (map f (y ∷ xs))) (close ∷ s)
      ∙ ap (λ u. f x ++ (c ∷ u))
          (append_assoc sep (join_parts (c ∷ sep) (map f (y ∷ xs))) (close ∷ s))

  pub join_parts-injective :
      (xs ys : List A) (x y : A) (s t : Bytes)
      → All P (x ∷ xs)
      → All P (y ∷ ys)
      → join_parts (c ∷ sep) (map f (x ∷ xs)) ++ (close ∷ s)
        ≡ join_parts (c ∷ sep) (map f (y ∷ ys)) ++ (close ∷ t)
      → (x ∷ xs ≡ y ∷ ys) × (s ≡ t)
  unfolding join_parts
  join_parts-injective [] [] x y s t h k e =
      let (same, rest) = shows x y (close ∷ s) (close ∷ t) h.0 k.0 e in (cc same, cc rest)
  join_parts-injective [] (y' ∷ ys) x y s t h k e = absurd (
      let (same, rest) = shows x y (close ∷ s) _ h.0 k.0 (e ∙ parts_split y y' ys t) in
      ground arith)
  join_parts-injective (x' ∷ xs) [] x y s t h k e = absurd (
      let (same, rest) = shows x y _ (close ∷ t) h.0 k.0 (sym (parts_split x x' xs s) ∙ e) in
      ground arith)
  join_parts-injective (x' ∷ xs) (y' ∷ ys) x y s t h k e =
      let (same, rest) =
        shows x y _ _ h.0 k.0 (sym (parts_split x x' xs s) ∙ e ∙ parts_split y y' ys t) in
      let inner : sep ++ (join_parts (c ∷ sep) (map f (x' ∷ xs)) ++ (close ∷ s))
          ≡ sep ++ (join_parts (c ∷ sep) (map f (y' ∷ ys)) ++ (close ∷ t)) =
        cc rest in
      let (rest_same, end_same) =
        join_parts-injective xs ys x' y' s t h.1 k.1 (append_cancel sep _ _ inner) in
      (cc (same, rest_same), end_same)
