-- ===== src/Eval/Glob.antt =====
-- internal/eval/glob.go: the node of a StringLike pattern and its matcher.
pub mod Fits
pub mod Place
pub mod Correct
use cloudarq.Prelude.{
  ℕ, zero, suc, ◌+◌, ◌-◌, Bool, true, false, not, ◌&&◌, ◌||◌, List, [], ◌∷◌, map, length, drop, ltb,
  leb, ◌==◌, if◌then◌else◌,
}
use cloudarq.Text.Bytes.{Bytes}
use cloudarq.Text.Utf8.{runes}
use cloudarq.Text.Split.{split}

abbrev pub Runes : Type 0
Runes = List ℕ

-- `strings.Split` returns one part at least, so the segments are a first and the others.
abbrev pub Segments : Type 0
Segments = Runes × List Runes

pub record Glob : Type 0 where
  pub pattern : Bytes
  pub segments : Segments

abbrev pub any_rune : ℕ
any_rune = 63

-- The loop of `matchAt`: `v` is what follows the offset.
match_runes : Runes → Runes → Bool
match_runes [] v = true
match_runes (r ∷ seg) [] = false
match_runes (r ∷ seg) (c ∷ v) =
    let rest = match_runes seg v in if not (r == any_rune) && not (r == c) then false else rest

unfoldable pub match_at : Runes → Runes → ℕ → Bool
unfolding match_runes
match_at seg v i = if ltb (length v) (i + length seg) then false else match_runes seg (drop i v)

-- The inner loop of `matchSegments`: the first offset from `j` at which `seg` matches or runs
-- past `end`. Past the offset `end` the test fails, so `end + 1 - j` rounds are enough.
scan : ℕ → Runes → Runes → ℕ → ℕ → ℕ
scan zero seg v end j = j
scan (suc fuel) seg v end j =
    let rest = scan fuel seg v end (suc j) in
    if leb (j + length seg) end && not (match_at seg v j) then rest else j

unfoldable pub place : Runes → Runes → ℕ → ℕ → ℕ
unfolding scan
place seg v end i = scan (end + 1 - i) seg v end i

-- The outer loop, over the segments between the first and the last.
unfoldable pub match_middle : List Runes → Runes → ℕ → ℕ → Bool
match_middle [] v end i = true
match_middle (seg ∷ rest) v end i =
    let j = place seg v end i in
    let onward = match_middle rest v end (j + length seg) in
    if ltb end (j + length seg) then false else onward

-- `segments[len(segments)-1]`, and the others behind the first.
unfoldable pub last_segment : Runes → List Runes → Runes
last_segment first [] = first
last_segment first (seg ∷ rest) = last_segment seg rest

unfoldable pub middle_segments : List Runes → List Runes
middle_segments [] = []
middle_segments (seg ∷ []) = []
middle_segments (seg ∷ next ∷ rest) = seg ∷ middle_segments (next ∷ rest)

-- What follows the test for a single segment. The guard is `end < i` without its negative number.
match_spread : Runes → Runes → List Runes → Runes → Bool
match_spread first last middle v =
    let i = length first in
    let end = length v - length last in
    let placed = match_middle middle v end i in
    if not (match_at first v 0)
    then false
    else if ltb (length v) (i + length last) || not (match_at last v end)
    then false
    else placed

unfoldable pub match_segments : Segments → Runes → Bool
unfolding match_spread
match_segments (first, []) v = length v == length first && match_at first v 0
match_segments (first, seg ∷ rest) v =
    match_spread first (last_segment first (seg ∷ rest)) (middle_segments (seg ∷ rest)) v

-- The literal that `Glob` returns for a pattern with a metacharacter and more than stars.
unfoldable pub glob_node : Bytes → Glob
glob_node pattern =
    let (first, rest) = split b'*' pattern in
    record { pattern = pattern; segments = (runes first, map runes rest) }

-- `Contains` of a glob.
unfoldable pub glob_contains : Glob → Bytes → Bool
unfolding match_segments
glob_contains g v = match_segments g.segments (runes v)
