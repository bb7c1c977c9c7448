-- ===== src/Text/Split.antt =====
-- The functions of package strings that the pattern code uses, over bytes: `Split`, `ContainsAny`
-- and `Trim`, each with single ASCII characters.
pub mod Runes
use cloudarq.Prelude.{ℕ, List, [], ◌∷◌, ◌==◌, if◌then◌else◌}
use cloudarq.Text.Bytes.{Bytes}

-- `strings.Split` at a one-byte separator: the first part, and the others in order.
unfoldable pub split : ℕ → Bytes → Bytes × List Bytes
split sep [] = ([], [])
split sep (b ∷ s) =
    let (head, rest) = split sep s in if b == sep then ([], head ∷ rest) else (b ∷ head, rest)

unfoldable pub trim_left : ℕ → Bytes → Bytes
trim_left c [] = []
trim_left c (b ∷ s) = let rest = trim_left c s in if b == c then rest else b ∷ s

-- `b` in front of what is left of the text behind it.
unfoldable pub trim_end : ℕ → ℕ → Bytes → Bytes
trim_end c b [] = if b == c then [] else b ∷ []
trim_end c b (d ∷ s) = b ∷ d ∷ s

unfoldable pub trim_right : ℕ → Bytes → Bytes
unfolding trim_end
trim_right c [] = []
trim_right c (b ∷ s) = trim_end c b (trim_right c s)

unfoldable pub trim : ℕ → Bytes → Bytes
unfolding trim_left trim_right
trim c s = trim_right c (trim_left c s)
