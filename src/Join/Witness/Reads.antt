-- ===== src/Join/Witness/Reads.antt =====
-- internal/join/witness.go: `readShape` reads back every rendering that a constraint of a Term has.
use cloudarq.Prelude.{
  ℕ, suc, ◌-◌, ◌≤◌, ◌≡◌, refl, ap, ◌∙◌, sym, true, false, not, List, [], ◌∷◌, ◌++◌, append-nil, map,
  All, some, any, length, length-append, arith, ltb,
}
use cloudarq.Text.Bytes.{Bytes, IsBytes, codes}
use cloudarq.Text.Parts.{join_parts}
use cloudarq.Text.Quote.{quote, quote_mark, escape_all}
use cloudarq.Text.Quote.Quoted.Back.{quoted-quote}
use cloudarq.Eval.Glob.{Glob}
use cloudarq.Eval.StringSet.{
  StringSet, exact, of_glob, full, empty, unknown, union, inter, Members, no_members, member,
  list_of, is_top, is_empty, render, render_glob, render_members, bracket,
}
use cloudarq.Text.Utf8.{pieces}
use cloudarq.Eval.StringSet.Valid.{IsGlob, IsTerm, IsValid}
use cloudarq.Trust.Issuer.{has_prefix}
use cloudarq.Join.Witness.{
  exact_value, glob_pattern, all_of, any_of, ReadShape, read_as, no_reads, reads_of, Parsed,
  is_pattern, closed_members, parse_members, quoted_as, parse_shape, read_shape,
}
use cloudarq.Join.Witness.Parts.{
  join_parts-tails, tails, members_after-tails, bracket-append, starts_inter, starts_union,
  close_apart, parse_members-inter, parse_members-union,
}

abbrev pub read_glob : Glob → ReadShape
read_glob g = read_as glob_pattern g.pattern no_reads

-- The shape that a set is read as.
abbrev pub read_of : StringSet → ReadShape
read_of (exact v) = read_as exact_value v no_reads
read_of (of_glob g) = read_glob g
read_of (inter gs) = read_as all_of [] (reads_of (map read_glob gs))
read_of _ = read_as exact_value [] no_reads

abbrev pub read_of_set : StringSet → ReadShape
read_of_set (union ms) = read_as any_of [] (reads_of (map read_of (list_of ms)))
read_of_set s = read_of s

-- How a quoted text and a bracket begin.
quote_head :
    (v rest : Bytes)
    → (has_prefix (quote v ++ rest) (codes "like:") ≡ false)
      × (has_prefix (quote v ++ rest) (quote_mark ∷ []) ≡ true)
unfolding has_prefix quote
quote_head v rest = (refl, refl)

parse-quote :
    (fuel : ℕ) (v rest : Bytes)
    → IsBytes v
    → parse_shape (suc fuel) (quote v ++ rest) ≡ some (read_as exact_value v no_reads, rest)
unfolding parse_shape quoted_as
parse-quote fuel v rest h =
    let (no_like, mark) = quote_head v rest in rw (no_like, mark, quoted-quote v rest h) refl

parse-glob :
    (fuel : ℕ) (g : Glob) (rest : Bytes)
    → IsBytes g.pattern
    → parse_shape (suc fuel) (render_glob g ++ rest) ≡ some (read_glob g, rest)
unfolding parse_shape quoted_as has_prefix render_glob
parse-glob fuel g rest h = rw (quoted-quote g.pattern rest h) refl

parse-open :
    (fuel : ℕ) (s : Bytes) → parse_shape (suc fuel) (b'(' ∷ s) ≡ parse_members (parse_shape fuel) s
unfolding parse_shape has_prefix
parse-open fuel s = refl

patterns_only : (gs : List Glob) → any (λ m. not (is_pattern m)) (map read_glob gs) ≡ false
unfolding is_pattern
patterns_only [] = refl
patterns_only (g ∷ gs) = patterns_only gs

close_inter :
    (x y : Glob) (gs : List Glob) (t : Bytes)
    → closed_members all_of (map read_glob (x ∷ y ∷ gs)) (b')' ∷ t)
      ≡ some (read_as all_of [] (reads_of (map read_glob (x ∷ y ∷ gs))), t)
unfolding closed_members has_prefix is_pattern
close_inter x y gs t =
    let two : ltb (suc (suc (length (map read_glob gs)))) 2 ≡ false = ground arith in
    rw (two, patterns_only gs) refl

close_union :
    (a b : ReadShape) (ms : List ReadShape) (t : Bytes)
    → closed_members any_of (a ∷ b ∷ ms) (b')' ∷ t)
      ≡ some (read_as any_of [] (reads_of (a ∷ b ∷ ms)), t)
unfolding closed_members has_prefix
close_union a b ms t = let two : ltb (suc (suc (length ms))) 2 ≡ false = ground arith in rw two refl

parse-inter :
    (fuel : ℕ) (gs : List Glob) (t : Bytes)
    → All IsGlob gs
    → 2 ≤ length gs
    → parse_shape (suc (suc fuel)) (bracket (codes " & ") (map render_glob gs) ++ t)
      ≡ some (read_as all_of [] (reads_of (map read_glob gs)), t)
parse-inter fuel [] t h l = absurd (omega arith)
parse-inter fuel (x ∷ []) t h l = absurd (omega arith)
parse-inter fuel (x ∷ y ∷ gs) t h l =
    let sep : Bytes = codes " & " in
    let parse : Bytes → Parsed = parse_shape (suc fuel) in
    let one : (g : Glob) (rest : Bytes)
        → IsGlob g
        → parse (render_glob g ++ rest) ≡ some (read_glob g, rest) =
      λ g rest k. parse-glob fuel g rest k.0 in
    let behind : Bytes = tails render_glob sep (y ∷ gs) (b')' ∷ t) in
    ap (parse_shape (suc (suc fuel))) (bracket-append sep (map render_glob (x ∷ y ∷ gs)) t)
    ∙ parse-open (suc fuel) (join_parts sep (map render_glob (x ∷ y ∷ gs)) ++ (b')' ∷ t))
    ∙ ap (parse_members parse) (join_parts-tails render_glob sep x (y ∷ gs) (b')' ∷ t))
    ∙ parse_members-inter parse (render_glob x ++ behind) (read_glob x) behind (one x behind h.0)
        (starts_inter (render_glob y ++ tails render_glob sep gs (b')' ∷ t)))
    ∙ members_after-tails IsGlob render_glob read_glob parse sep one all_of x y gs t (omega arith)
        (close_apart t).0 (close_inter x y gs t) h.1

-- A member of a union.
parse-term :
    (fuel : ℕ) (s : StringSet) (t : Bytes)
    → IsTerm s
    → parse_shape (suc (suc fuel)) (render s ++ t) ≡ some (read_of s, t)
unfolding render
parse-term fuel (exact v) t h = parse-quote (suc fuel) v t h
parse-term fuel (of_glob g) t h = parse-glob (suc fuel) g t h.0
parse-term fuel (inter gs) t h = parse-inter fuel gs t h.0 h.2
parse-term fuel full t h = absurd h
parse-term fuel empty t h = absurd h
parse-term fuel (unknown rs) t h = absurd h
parse-term fuel (union ms) t h = absurd h

render_members-map : (ms : Members) → render_members ms ≡ map render (list_of ms)
unfolding render_members list_of
render_members-map no_members = refl
render_members-map (member s ms) = ap (◌∷◌ (render s)) (render_members-map ms)

parse-union :
    (fuel : ℕ) (ss : List StringSet) (t : Bytes)
    → All IsTerm ss
    → 2 ≤ length ss
    → parse_shape (suc (suc (suc fuel))) (bracket (codes " | ") (map render ss) ++ t)
      ≡ some (read_as any_of [] (reads_of (map read_of ss)), t)
parse-union fuel [] t h l = absurd (omega arith)
parse-union fuel (x ∷ []) t h l = absurd (omega arith)
parse-union fuel (x ∷ y ∷ ss) t h l =
    let sep : Bytes = codes " | " in
    let parse : Bytes → Parsed = parse_shape (suc (suc fuel)) in
    let one : (s : StringSet) (rest : Bytes)
        → IsTerm s
        → parse (render s ++ rest) ≡ some (read_of s, rest) =
      λ s rest k. parse-term fuel s rest k in
    let behind : Bytes = tails render sep (y ∷ ss) (b')' ∷ t) in
    ap (parse_shape (suc (suc (suc fuel)))) (bracket-append sep (map render (x ∷ y ∷ ss)) t)
    ∙ parse-open (suc (suc fuel)) (join_parts sep (map render (x ∷ y ∷ ss)) ++ (b')' ∷ t))
    ∙ ap (parse_members parse) (join_parts-tails render sep x (y ∷ ss) (b')' ∷ t))
    ∙ parse_members-union parse (render x ++ behind) (read_of x) behind (one x behind h.0)
        (starts_union (render y ++ tails render sep ss (b')' ∷ t)))
    ∙ members_after-tails IsTerm render read_of parse sep one any_of x y ss t (omega arith)
        (close_apart t).1 (close_union (read_of x) (read_of y) (map read_of ss) t) h.1

parse-render :
    (fuel : ℕ) (s : StringSet)
    → IsValid s
    → is_top s ≡ false
    → is_empty s ≡ false
    → parse_shape (suc (suc (suc fuel))) (render s ++ []) ≡ some (read_of_set s, [])
unfolding render is_top is_empty
parse-render fuel (exact v) h n m = parse-quote (suc (suc fuel)) v [] h
parse-render fuel (of_glob g) h n m = parse-glob (suc (suc fuel)) g [] h.0
parse-render fuel (inter gs) h n m = parse-inter (suc fuel) gs [] h.0 h.2
parse-render fuel full h n m = cc n
parse-render fuel empty h n m = cc m
parse-render fuel (unknown rs) h n m = cc n
parse-render fuel (union ms) h n m =
    ap (λ parts. parse_shape (suc (suc (suc fuel))) (bracket (codes " | ") parts ++ []))
      (render_members-map ms)
    ∙ parse-union fuel (list_of ms) [] h.0 h.2

bracket-length : (sep : Bytes) (parts : List Bytes) → 2 ≤ length (bracket sep parts)
unfolding bracket
bracket-length sep parts = omega (arith, length-append (join_parts sep parts) (b')' ∷ []))

quote-length : (v : Bytes) → 2 ≤ length (quote v)
unfolding quote
quote-length v = omega (arith, length-append (escape_all (pieces v)) (quote_mark ∷ []))

render-length : (s : StringSet) → is_top s ≡ false → is_empty s ≡ false → 2 ≤ length (render s)
unfolding render is_top is_empty render_glob
render-length (exact v) n m = quote-length v
render-length (of_glob g) n m = omega (arith, quote-length g.pattern)
render-length (inter gs) n m = bracket-length (codes " & ") (map render_glob gs)
render-length full n m = cc n
render-length empty n m = cc m
render-length (unknown rs) n m = cc n
render-length (union ms) n m = bracket-length (codes " | ") (render_members ms)

-- `readShape` does not panic on the rendering of a valid set that is not top and not empty, and
-- returns the set's own node: its value, its pattern, its patterns or its members, in order.
pub read_shape-render :
    (s : StringSet)
    → IsValid s
    → is_top s ≡ false
    → is_empty s ≡ false
    → read_shape (render s) ≡ some (read_of_set s)
unfolding read_shape
read_shape-render s h n m =
    let short = render-length s n m in
    let fuel : ℕ = length (render s) - 2 in
    let enough : suc (length (render s)) ≡ suc (suc (suc fuel)) = omega arith in
    let read : parse_shape (suc (length (render s))) (render s) ≡ some (read_of_set s, []) =
      ap (λ n. parse_shape n (render s)) enough
      ∙ ap (parse_shape (suc (suc (suc fuel)))) (sym (append-nil (render s)))
      ∙ parse-render fuel s h n m in
    rw read refl
