-- ===== src/Eval/StringSet/Reads.antt =====
-- A rendering shows which set it is of: two sets of the package that render alike are one.
use cloudarq.Prelude.{
  ℕ, ◌≤◌, ◌≡◌, ◌≢◌, refl, ap, ◌∙◌, sym, List, [], ◌∷◌, ◌++◌, map, All, length, arith, append_assoc,
}
use cloudarq.Text.Bytes.{Bytes, IsBytes, codes}
use cloudarq.Text.Quote.{quote}
use cloudarq.Text.Quote.Unquote.{quote-injective}
use cloudarq.Text.Parts.{join_parts, join_parts-injective, ShowsEnd, parts_split}
use cloudarq.Eval.Glob.{Glob, glob_node}
use cloudarq.Eval.StringSet.{
  StringSet, exact, of_glob, full, empty, unknown, union, inter, list_of, Members, no_members,
  member, render, render_members, render_glob, bracket,
}
use cloudarq.Eval.StringSet.Valid.{IsGlob, IsTerm, IsValid}

abbrev close : ℕ
close = b')'

quote-ShowsEnd : ShowsEnd IsBytes quote
quote-ShowsEnd x y s t h k e = quote-injective x y s t h k e

render_glob-ShowsEnd : ShowsEnd IsGlob render_glob
unfolding render_glob
render_glob-ShowsEnd x y s t h k e =
    let (same, rest) = quote-injective x.pattern y.pattern s t h.0 k.0 (cc e) in
    (h.1 ∙ ap glob_node same ∙ sym k.1, rest)

-- A bracketed list, in front of more text.
module _ {ℓ κ} {A : Type ℓ} (P : A → Type κ) (f : A → Bytes) (c : ℕ) (sep : Bytes)
    (apart : c ≢ close) (shows : ShowsEnd P f) where
  bracket_open :
      (ps : List Bytes) (s : Bytes)
      → bracket (c ∷ sep) ps ++ s ≡ b'(' ∷ (join_parts (c ∷ sep) ps ++ (close ∷ s))
  unfolding bracket
  bracket_open ps s = ap (◌∷◌ b'(') (append_assoc (join_parts (c ∷ sep) ps) (close ∷ []) s)

  bracket-injective :
      (xs ys : List A) (s t : Bytes)
      → 1 ≤ length xs
      → 1 ≤ length ys
      → All P xs
      → All P ys
      → bracket (c ∷ sep) (map f xs) ++ s ≡ bracket (c ∷ sep) (map f ys) ++ t
      → (xs ≡ ys) × (s ≡ t)
  bracket-injective [] ys s t n m h k e = absurd (omega arith)
  bracket-injective (x ∷ xs) [] s t n m h k e = absurd (omega arith)
  bracket-injective (x ∷ xs) (y ∷ ys) s t n m h k e =
      join_parts-injective P f c sep close apart shows xs ys x y s t h k
        (cc (sym (bracket_open (map f (x ∷ xs)) s) ∙ e ∙ bracket_open (map f (y ∷ ys)) t))

pub render_members-map : (ms : Members) → render_members ms ≡ map render (list_of ms)
unfolding render_members list_of
render_members-map no_members = refl
render_members-map (member s ms) = ap (◌∷◌ (render s)) (render_members-map ms)

pub list_of-injective : (ms ns : Members) → list_of ms ≡ list_of ns → ms ≡ ns
unfolding list_of
list_of-injective no_members no_members e = refl
list_of-injective no_members (member s ns) e = cc
list_of-injective (member s ms) no_members e = cc
list_of-injective (member s ms) (member r ns) e = cc (list_of-injective ms ns (cc e))

inter-injective :
    (gs hs : List Glob) (s t : Bytes)
    → IsValid (inter gs)
    → IsValid (inter hs)
    → render (inter gs) ++ s ≡ render (inter hs) ++ t
    → (inter gs ≡ inter hs) × (s ≡ t)
unfolding render
inter-injective gs hs s t h k e =
    let (same, rest) =
      bracket-injective IsGlob render_glob b' ' (codes "& ") (omega arith) render_glob-ShowsEnd gs
        hs s t (omega arith) (omega arith) h.0 k.0 e in
    (ap inter same, rest)

pub render-IsTerm-ShowsEnd : ShowsEnd IsTerm render
unfolding render quote render_glob bracket
render-IsTerm-ShowsEnd (exact v) (exact w) s t h k e =
    let (same, rest) = quote-injective v w s t h k e in (ap exact same, rest)
render-IsTerm-ShowsEnd (of_glob g) (of_glob g') s t h k e =
    let (same, rest) = render_glob-ShowsEnd g g' s t h k e in (ap of_glob same, rest)
render-IsTerm-ShowsEnd (inter gs) (inter hs) s t h k e = inter-injective gs hs s t h k e
render-IsTerm-ShowsEnd (exact v) (of_glob g) s t h k e = absurd (ground arith)
render-IsTerm-ShowsEnd (exact v) (inter gs) s t h k e = absurd (ground arith)
render-IsTerm-ShowsEnd (of_glob g) (exact v) s t h k e = absurd (ground arith)
render-IsTerm-ShowsEnd (of_glob g) (inter gs) s t h k e = absurd (ground arith)
render-IsTerm-ShowsEnd (inter gs) (exact v) s t h k e = absurd (ground arith)
render-IsTerm-ShowsEnd (inter gs) (of_glob g) s t h k e = absurd (ground arith)
render-IsTerm-ShowsEnd (exact v) full s t h k e = absurd k
render-IsTerm-ShowsEnd (exact v) empty s t h k e = absurd k
render-IsTerm-ShowsEnd (exact v) (unknown rs) s t h k e = absurd k
render-IsTerm-ShowsEnd (exact v) (union ms) s t h k e = absurd k
render-IsTerm-ShowsEnd (of_glob g) full s t h k e = absurd k
render-IsTerm-ShowsEnd (of_glob g) empty s t h k e = absurd k
render-IsTerm-ShowsEnd (of_glob g) (unknown rs) s t h k e = absurd k
render-IsTerm-ShowsEnd (of_glob g) (union ms) s t h k e = absurd k
render-IsTerm-ShowsEnd (inter gs) full s t h k e = absurd k
render-IsTerm-ShowsEnd (inter gs) empty s t h k e = absurd k
render-IsTerm-ShowsEnd (inter gs) (unknown rs) s t h k e = absurd k
render-IsTerm-ShowsEnd (inter gs) (union ms) s t h k e = absurd k
render-IsTerm-ShowsEnd full y s t h k e = absurd h
render-IsTerm-ShowsEnd empty y s t h k e = absurd h
render-IsTerm-ShowsEnd (unknown rs) y s t h k e = absurd h
render-IsTerm-ShowsEnd (union ms) y s t h k e = absurd h

union-injective :
    (ms ns : Members) (s t : Bytes)
    → IsValid (union ms)
    → IsValid (union ns)
    → render (union ms) ++ s ≡ render (union ns) ++ t
    → (union ms ≡ union ns) × (s ≡ t)
unfolding render
union-injective ms ns s t h k e =
    let listed : bracket (codes " | ") (map render (list_of ms)) ++ s
        ≡ bracket (codes " | ") (map render (list_of ns)) ++ t =
      rw (← render_members-map ms, ← render_members-map ns) e in
    let (same, rest) =
      bracket-injective IsTerm render b' ' (codes "| ") (omega arith) render-IsTerm-ShowsEnd
        (list_of ms) (list_of ns) s t (omega arith) (omega arith) h.0 k.0 listed in
    (ap union (list_of-injective ms ns same), rest)

-- The separators tell a union from an intersection.
separators_differ :
    (ms : List StringSet) (gs : List Glob) (s t : Bytes)
    → All IsTerm ms
    → All IsGlob gs
    → 2 ≤ length ms
    → 2 ≤ length gs
    → bracket (codes " | ") (map render ms) ++ s ≡ bracket (codes " & ") (map render_glob gs) ++ t
    → ⊥
unfolding render
separators_differ (m ∷ m' ∷ ms) (g ∷ g' ∷ gs) s t h k n l e =
    let left =
      bracket_open IsTerm render b' ' (codes "| ") (omega arith) render-IsTerm-ShowsEnd
        (map render (m ∷ m' ∷ ms)) s in
    let right =
      bracket_open IsGlob render_glob b' ' (codes "& ") (omega arith) render_glob-ShowsEnd
        (map render_glob (g ∷ g' ∷ gs)) t in
    let inner =
      parts_split IsTerm render b' ' (codes "| ") close (omega arith) render-IsTerm-ShowsEnd m m' ms
        s in
    let other =
      parts_split IsGlob render_glob b' ' (codes "& ") close (omega arith) render_glob-ShowsEnd g g'
        gs t in
    let both = sym left ∙ e ∙ right in
    let (same, rest) =
      render-IsTerm-ShowsEnd m (of_glob g) _ _ h.0 k.0 (sym inner ∙ cc both ∙ other) in
    ground arith
separators_differ [] gs s t h k n l e = omega arith
separators_differ (m ∷ []) gs s t h k n l e = omega arith
separators_differ (m ∷ m' ∷ ms) [] s t h k n l e = omega arith
separators_differ (m ∷ m' ∷ ms) (g ∷ []) s t h k n l e = omega arith

unknown-injective :
    (rs qs : List Bytes) (s t : Bytes)
    → IsValid (unknown rs)
    → IsValid (unknown qs)
    → render (unknown rs) ++ s ≡ render (unknown qs) ++ t
    → (unknown rs ≡ unknown qs) × (s ≡ t)
unfolding render
unknown-injective rs qs s t h k e =
    let (same, rest) =
      bracket-injective IsBytes quote b',' (codes " ") (omega arith) quote-ShowsEnd rs qs s t h.2
        k.2 h.0 k.0 (cc e) in
    (ap unknown same, rest)

-- A valid set's rendering shows the set, and where the rendering ends.
pub render-ShowsEnd : ShowsEnd IsValid render
unfolding render quote render_glob bracket
render-ShowsEnd (exact v) (exact w) s t h k e = render-IsTerm-ShowsEnd (exact v) (exact w) s t h k e
render-ShowsEnd (of_glob g) (of_glob g') s t h k e =
    render-IsTerm-ShowsEnd (of_glob g) (of_glob g') s t h k e
render-ShowsEnd (inter gs) (inter hs) s t h k e = inter-injective gs hs s t h k e
render-ShowsEnd (union ms) (union ns) s t h k e = union-injective ms ns s t h k e
render-ShowsEnd (unknown rs) (unknown qs) s t h k e = unknown-injective rs qs s t h k e
render-ShowsEnd full full s t h k e = (refl, cc e)
render-ShowsEnd empty empty s t h k e = (refl, cc e)
render-ShowsEnd (union ms) (inter gs) s t h k e =
    absurd (separators_differ (list_of ms) gs s t h.0 k.0 h.2 k.2 (rw (← render_members-map ms) e))
render-ShowsEnd (inter gs) (union ms) s t h k e =
    absurd
      (separators_differ (list_of ms) gs t s k.0 h.0 k.2 h.2 (rw (← render_members-map ms) (sym e)))
render-ShowsEnd x y s t h k e = absurd (ground arith)

-- Two valid sets that render alike are one set.
pub render-injective : (a b : StringSet) → IsValid a → IsValid b → render a ≡ render b → a ≡ b
render-injective a b h k e = (render-ShowsEnd a b [] [] h k (ap (λ t. t ++ []) e)).0
