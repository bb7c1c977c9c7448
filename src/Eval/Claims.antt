-- ===== src/Eval/Claims.antt =====
-- Maps keyed by claim, as association lists: a Go map holds a key once, in no order that counts.
pub mod Laws
use cloudarq.Prelude.{Bool, false, ◌||◌, ◌≡◌, List, [], ◌∷◌, Option, some, none, if◌then◌else◌}
use cloudarq.Text.Bytes.{Bytes, bytes_eq}

abbrev pub ClaimKey : Type 0
ClaimKey = Bytes

abbrev pub Claims {ℓ} : Type ℓ → Type ℓ
Claims V = List (ClaimKey × V)

module _ {ℓ} {V : Type ℓ} where
  -- `m[k]` with its second result.
  unfoldable pub lookup : ClaimKey → Claims V → Option V
  lookup k [] = none
  lookup k ((j, v) ∷ m) = if bytes_eq j k then some v else lookup k m

  -- `m[k] = v`.
  unfoldable pub put : ClaimKey → V → Claims V → Claims V
  put k v [] = (k, v) ∷ []
  put k v ((j, w) ∷ m) = if bytes_eq j k then (j, v) ∷ m else (j, w) ∷ put k v m

  unfoldable pub has_key : ClaimKey → Claims V → Bool
  has_key k [] = false
  has_key k ((j, v) ∷ m) = bytes_eq j k || has_key k m

  -- A map holds each key once.
  abbrev pub IsMap : Claims V → Type 0
  IsMap [] = Unit
  IsMap ((k, v) ∷ m) = (has_key k m ≡ false) × IsMap m
