-- ===== src/Eval/Claims/Laws.antt =====
-- Reading a map behind a write.
use cloudarq.Prelude.{◌≡◌, refl, [], ◌∷◌, some, if◌then◌else◌, arith}
use cloudarq.Text.Bytes.{bytes_eq, bytes_eq_iff}
use cloudarq.Eval.Claims.{ClaimKey, Claims, lookup, put}

module _ {ℓ} {V : Type ℓ} where
  pub lookup-put :
      (k j : ClaimKey) (v : V) (m : Claims V)
      → lookup j (put k v m) ≡ (if bytes_eq k j then some v else lookup j m)
  unfolding lookup put
  lookup-put k j v [] = refl
  lookup-put k j v ((i, w) ∷ m) =
      ground (arith, bytes_eq_iff k j, bytes_eq_iff i k, bytes_eq_iff i j, lookup-put k j v m)
