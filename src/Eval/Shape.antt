-- ===== src/Eval/Shape.antt =====
-- internal/eval/shape.go: a set read as its node, and the literal prefix of a pattern.
pub mod Prefix
pub mod Faithful
use cloudarq.Prelude.{
  ℕ, zero, suc, ◌+◌, Bool, ◌||◌, List, [], ◌∷◌, if◌then◌else◌, ◌==◌, length, take,
}
use cloudarq.Text.Bytes.{Bytes}
use cloudarq.Text.Utf8.{Piece, pieces, rune_of, rune_error, bytes_of}
use cloudarq.Eval.Glob.{Glob}
use cloudarq.Eval.StringSet.{
  StringSet, exact, of_glob, full, empty, unknown, union, inter, Members, no_members, member,
}

pub data ShapeKind : Type 0 where
  shape_unknown shape_any shape_none shape_exact shape_glob shape_union shape_intersection :
      ShapeKind

-- The fields are the kind, the text and the members.
mutual
  pub data Shape : Type 0 where
    shape : ShapeKind → Bytes → Shapes → Shape

  pub data Shapes : Type 0 where
    no_shapes : Shapes
    shapes : Shape → Shapes → Shapes

unfoldable pub shapes_of_globs : List Glob → Shapes
shapes_of_globs [] = no_shapes
shapes_of_globs (g ∷ gs) = shapes (shape shape_glob g.pattern no_shapes) (shapes_of_globs gs)

-- `ShapeOf` and `shapesOf`.
unfoldable mutual
  unfolding shapes_of_globs

  pub shape_of : StringSet → Shape
  shape_of (exact v) = shape shape_exact v no_shapes
  shape_of (of_glob g) = shape shape_glob g.pattern no_shapes
  shape_of full = shape shape_any [] no_shapes
  shape_of empty = shape shape_none [] no_shapes
  shape_of (union ms) = shape shape_union [] (shapes_of ms)
  shape_of (inter gs) = shape shape_intersection [] (shapes_of_globs gs)
  shape_of (unknown reasons) = shape shape_unknown [] no_shapes

  pub shapes_of : Members → Shapes
  shapes_of no_members = no_shapes
  shapes_of (member s ms) = shapes (shape_of s) (shapes_of ms)

-- The test of the loop of `LiteralPrefix`.
unfoldable pub ends_literal : ℕ → Bool
ends_literal r = r == b'*' || r == b'?' || r == rune_error

-- The byte offset at which the loop returns, or the length of the pattern.
unfoldable pub literal_width : List Piece → ℕ
unfolding ends_literal rune_of
literal_width [] = 0
literal_width (p ∷ ps) =
    let rest = literal_width ps in
    if ends_literal (rune_of p) then 0 else length (bytes_of p) + rest

unfoldable pub literal_prefix : Bytes → Bytes
unfolding literal_width
literal_prefix pattern = take (literal_width (pieces pattern)) pattern
