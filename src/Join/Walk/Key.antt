-- ===== src/Join/Walk/Key.antt =====
-- internal/join/witness.go: two positions of one walk with the same key are the same position.
use cloudarq.Prelude.{◌≡◌, refl, ap, ap₂, [], ◌∷◌, ◌++◌, map, arith, length}
use cloudarq.Text.Bytes.{Bytes}
use cloudarq.Text.Decimal.{itoa, itoa-IsDigits, itoa-injective, IsDigits}
use cloudarq.Text.Parts.{join_parts}
use cloudarq.Join.Walk.{Position, state_key}

-- A number in front of a comma shows where it ends.
comma_split :
    (a b s t : Bytes)
    → IsDigits a
    → IsDigits b
    → a ++ (b',' ∷ s) ≡ b ++ (b',' ∷ t)
    → (a ≡ b) × (s ≡ t)
comma_split [] [] s t h k e = (refl, cc e)
comma_split [] (d ∷ b) s t h k e = absurd (ground arith)
comma_split (c ∷ a) [] s t h k e = absurd (ground arith)
comma_split (c ∷ a) (d ∷ b) s t h k e =
    let (same, rest) = comma_split a b s t h.1 k.1 (cc e) in (ap₂ ◌∷◌ (cc e) same, rest)

join_itoa-injective :
    (ps qs : Position)
    → length ps ≡ length qs
    → join_parts (b',' ∷ []) (map itoa ps) ≡ join_parts (b',' ∷ []) (map itoa qs)
    → ps ≡ qs
unfolding join_parts
join_itoa-injective [] [] l e = refl
join_itoa-injective [] (q ∷ qs) l e = absurd (omega arith)
join_itoa-injective (p ∷ ps) [] l e = absurd (omega arith)
join_itoa-injective (p ∷ []) (q ∷ []) l e = ap (λ x. x ∷ []) (itoa-injective p q e)
join_itoa-injective (p ∷ []) (q ∷ r ∷ qs) l e = absurd (omega arith)
join_itoa-injective (p ∷ r ∷ ps) (q ∷ []) l e = absurd (omega arith)
join_itoa-injective (p ∷ r ∷ ps) (q ∷ o ∷ qs) l e =
    let (same, rest) = comma_split (itoa p) (itoa q) _ _ (itoa-IsDigits p) (itoa-IsDigits q) e in
    ap₂ ◌∷◌ (itoa-injective p q same) (join_itoa-injective (r ∷ ps) (o ∷ qs) (omega arith) rest)

pub state_key-injective :
    (ps qs : Position) → length ps ≡ length qs → state_key ps ≡ state_key qs → ps ≡ qs
unfolding state_key
state_key-injective ps qs l e = join_itoa-injective ps qs l e
