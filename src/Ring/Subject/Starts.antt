-- ===== src/Ring/Subject/Starts.antt =====
-- internal/ring/classify.go: the starts of an owner's name, joined and shortened.
use cloudarq.Prelude.{◌≡◌, refl, ◌∙◌, Bool, true, ◌||◌, ◌&&◌, List, [], ◌∷◌, any, any-append, arith}
use cloudarq.Prelude.Order.Sorting.{sort}
use cloudarq.Prelude.Order.Sorting.Keeps.{any-sort}
use cloudarq.Text.Bytes.{Bytes, bytes_order}
use cloudarq.Trust.Issuer.{has_prefix}
use cloudarq.Ring.Subject.{longer_with, longer_of, shortest_from, shortest_sorted, shortest}

-- The text begins with one of the starts.
abbrev pub begins : Bytes → List Bytes → Bool
begins text starts = any (has_prefix text) starts

prefix_trans :
    (s p q : Bytes) → has_prefix s p ≡ true → has_prefix p q ≡ true → has_prefix s q ≡ true
unfolding has_prefix
prefix_trans s p [] h k = refl
prefix_trans s [] (c ∷ q) h k = ground arith
prefix_trans [] (b ∷ p) (c ∷ q) h k = ground arith
prefix_trans (a ∷ s) (b ∷ p) (c ∷ q) h k = ground (arith, prefix_trans s p q)

-- Of two beginnings of one text one begins with the other.
prefix_both :
    (s p q : Bytes)
    → has_prefix s p ≡ true
    → has_prefix s q ≡ true
    → (has_prefix p q || has_prefix q p) ≡ true
unfolding has_prefix
prefix_both s [] [] h k = refl
prefix_both s (b ∷ p) [] h k = refl
prefix_both s [] (c ∷ q) h k = ground arith
prefix_both [] (b ∷ p) (c ∷ q) h k = ground arith
prefix_both (a ∷ s) (b ∷ p) (c ∷ q) h k = ground (arith, prefix_both s p q)

longer_with-begins :
    (text x : Bytes) (b : List Bytes)
    → begins text (longer_with x b) ≡ (has_prefix text x && begins text b)
unfolding longer_with
longer_with-begins text x [] = ground arith
longer_with-begins text x (y ∷ b) = ground (
  arith,
  longer_with-begins text x b,
  prefix_both text x y,
  prefix_trans text x y,
  prefix_trans text y x,
)

-- A text begins with one of the joined starts exactly where it begins with one of each list.
pub longer_of-begins :
    (text : Bytes) (a b : List Bytes)
    → begins text (longer_of a b) ≡ (begins text a && begins text b)
unfolding longer_of
longer_of-begins text [] b = refl
longer_of-begins text (x ∷ a) b =
    any-append (has_prefix text) (longer_with x b) (longer_of a b)
    ∙ ground (arith, longer_with-begins text x b, longer_of-begins text a b)

shortest_from-begins :
    (text kept : Bytes) (ss : List Bytes)
    → (has_prefix text kept || begins text (shortest_from kept ss))
      ≡ (has_prefix text kept || begins text ss)
unfolding shortest_from
shortest_from-begins text kept [] = refl
shortest_from-begins text kept (s ∷ ss) = ground (
  arith,
  shortest_from-begins text kept ss,
  shortest_from-begins text s ss,
  prefix_trans text s kept,
)

shortest_sorted-begins :
    (text : Bytes) (ss : List Bytes) → begins text (shortest_sorted ss) ≡ begins text ss
unfolding shortest_sorted
shortest_sorted-begins text [] = refl
shortest_sorted-begins text (s ∷ ss) = shortest_from-begins text s ss

-- A text begins with one of the shortened starts exactly where it begins with one of the starts.
pub shortest-begins :
    (text : Bytes) (starts : List Bytes) → begins text (shortest starts) ≡ begins text starts
unfolding shortest
shortest-begins text starts =
    shortest_sorted-begins text (sort bytes_order (λ s. s) starts)
    ∙ any-sort bytes_order (λ s. s) (has_prefix text) starts
