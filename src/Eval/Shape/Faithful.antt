-- ===== src/Eval/Shape/Faithful.antt =====
-- A shape says all of a set but an Unknown's reasons.
use cloudarq.Prelude.{◌≡◌, refl, ap, ap₂, ◌∙◌, sym, List, [], ◌∷◌, All, arith, false}
use cloudarq.Eval.Glob.{Glob, glob_node}
use cloudarq.Eval.StringSet.{
  StringSet, exact, of_glob, full, empty, unknown, union, inter, Members, no_members, member,
  list_of, is_unknown,
}
use cloudarq.Eval.StringSet.Valid.{IsGlob, IsTerm, IsValid}
use cloudarq.Eval.Shape.{shape_of, shapes_of, shapes_of_globs}

glob_of_pattern : (g h : Glob) → IsGlob g → IsGlob h → g.pattern ≡ h.pattern → g ≡ h
glob_of_pattern g h p q e = p.1 ∙ ap glob_node e ∙ sym q.1

globs_of_shapes :
    (gs hs : List Glob)
    → All IsGlob gs
    → All IsGlob hs
    → shapes_of_globs gs ≡ shapes_of_globs hs
    → gs ≡ hs
unfolding shapes_of_globs
globs_of_shapes [] [] h k e = refl
globs_of_shapes [] (y ∷ hs) h k e = cc e
globs_of_shapes (x ∷ gs) [] h k e = cc e
globs_of_shapes (x ∷ gs) (y ∷ hs) h k e =
    ap₂ ◌∷◌ (glob_of_pattern x y h.0 k.0 (cc e)) (globs_of_shapes gs hs h.1 k.1 (cc e))

term_of_shape : (a b : StringSet) → IsTerm a → IsTerm b → shape_of a ≡ shape_of b → a ≡ b
unfolding shape_of
term_of_shape (exact v) (exact w) h k e = cc e
term_of_shape (of_glob g) (of_glob g') h k e = ap of_glob (glob_of_pattern g g' h k (cc e))
term_of_shape (inter gs) (inter hs) h k e = ap inter (globs_of_shapes gs hs h.0 k.0 (cc e))
term_of_shape full b h k e = absurd h
term_of_shape empty b h k e = absurd h
term_of_shape (unknown rs) b h k e = absurd h
term_of_shape (union ms) b h k e = absurd h
term_of_shape a b h k e = ground arith

members_of_shapes :
    (ms ns : Members)
    → All IsTerm (list_of ms)
    → All IsTerm (list_of ns)
    → shapes_of ms ≡ shapes_of ns
    → ms ≡ ns
unfolding shapes_of list_of
members_of_shapes no_members no_members h k e = refl
members_of_shapes no_members (member s ns) h k e = cc e
members_of_shapes (member s ms) no_members h k e = cc e
members_of_shapes (member s ms) (member t ns) h k e =
    ap₂ member (term_of_shape s t h.0 k.0 (cc e)) (members_of_shapes ms ns h.1 k.1 (cc e))

-- Two valid sets with one shape, the first of them not Unknown, are one set.
pub shape_of-injective :
    (a b : StringSet)
    → IsValid a
    → IsValid b
    → is_unknown a ≡ false
    → shape_of a ≡ shape_of b
    → a ≡ b
unfolding shape_of is_unknown
shape_of-injective (exact v) (exact w) h k n e = cc e
shape_of-injective (of_glob g) (of_glob g') h k n e = ap of_glob (glob_of_pattern g g' h k (cc e))
shape_of-injective (inter gs) (inter hs) h k n e = ap inter (globs_of_shapes gs hs h.0 k.0 (cc e))
shape_of-injective (union ms) (union ns) h k n e = ap union (members_of_shapes ms ns h.0 k.0 (cc e))
shape_of-injective full full h k n e = refl
shape_of-injective empty empty h k n e = refl
shape_of-injective a b h k n e = ground arith
