-- ===== src/Join/Witness/Holds.antt =====
-- internal/join/witness.go: what is built as a witness is admitted.
use cloudarq.Prelude.{
  ◌≡◌, refl, ap, ◌∙◌, sym, subst, inl, inr, true, false, List, [], ◌∷◌, map, All, all, some, arith,
  Option-cases,
}
use cloudarq.Text.Bytes.{Bytes, bytes_eq_self, bytes_eq}
use cloudarq.Text.Utf8.{runes}
use cloudarq.Eval.Glob.{Glob, glob_contains}
use cloudarq.Eval.Glob.Fits.{Fits}
use cloudarq.Eval.Glob.Correct.{glob_contains_iff}
use cloudarq.Eval.StringSet.{
  StringSet, exact, of_glob, full, empty, unknown, union, inter, Members, no_members, member,
  list_of, contains, some_contains, is_top, is_empty,
}
use cloudarq.Eval.StringSet.Valid.{IsGlob, IsTerm, IsValid}
use cloudarq.Join.Walk.{shared_instance, walk_bound}
use cloudarq.Join.Walk.Scalars.{shortest_shared-Fits}
use cloudarq.Join.Witness.{reads_of, texts, witness, first_witness}
use cloudarq.Join.Witness.Reads.{read_glob, read_of, read_of_set}

shared-Fits :
    (patterns : List Bytes) (v : Bytes)
    → shared_instance patterns ≡ some v
    → All (λ p. Fits (runes p) (runes v)) patterns
unfolding shared_instance
shared-Fits patterns v e = shortest_shared-Fits patterns walk_bound v e

glob-holds :
    (g : Glob) (v : Bytes) → IsGlob g → Fits (runes g.pattern) (runes v) → glob_contains g v ≡ true
glob-holds g v h f =
    subst (λ x. glob_contains x v ≡ true) (sym h.1) ((glob_contains_iff g.pattern v).1 f)

texts-globs : (gs : List Glob) → texts (reads_of (map read_glob gs)) ≡ map (λ g. g.pattern) gs
unfolding texts reads_of
texts-globs [] = refl
texts-globs (g ∷ gs) = ap (◌∷◌ g.pattern) (texts-globs gs)

globs-hold :
    (gs : List Glob) (v : Bytes)
    → All IsGlob gs
    → All (λ p. Fits (runes p) (runes v)) (map (λ g. g.pattern) gs)
    → all (λ g. glob_contains g v) gs ≡ true
globs-hold [] v h f = refl
globs-hold (g ∷ gs) v h f = ground (arith, glob-holds g v h.0 f.0, globs-hold gs v h.1 f.1)

term-holds :
    (s : StringSet) (v : Bytes) → IsTerm s → witness (read_of s) ≡ some v → contains s v ≡ true
unfolding contains witness
term-holds (exact w) v h e =
    let same : w ≡ v = cc e in subst (λ x. bytes_eq v x ≡ true) (sym same) (bytes_eq_self v)
term-holds (of_glob g) v h e = glob-holds g v h (shared-Fits (g.pattern ∷ []) v e).0
term-holds (inter gs) v h e =
    globs-hold gs v h.0
      (shared-Fits (map (λ g. g.pattern) gs) v (ap shared_instance (sym (texts-globs gs)) ∙ e))
term-holds full v h e = absurd h
term-holds empty v h e = absurd h
term-holds (unknown rs) v h e = absurd h
term-holds (union ms) v h e = absurd h

members-hold :
    (ms : Members) (v : Bytes)
    → All IsTerm (list_of ms)
    → first_witness (reads_of (map read_of (list_of ms))) ≡ some v
    → some_contains ms v ≡ true
unfolding list_of some_contains first_witness reads_of
members-hold no_members v h e = cc e
members-hold (member s ms) v h e = elim (Option-cases (witness (read_of s))) [
  | inl n ↦ ground (arith, members-hold ms v h.1 (rw n at e))
  | inr (w, y) ↦
      let found : some w ≡ some v = rw y at e in ground (arith, term-holds s v h.0 (y ∙ found))
]

-- A witness that is found for the shape that a valid set's rendering is read as is contained in the set.
pub witness-contains :
    (s : StringSet) (v : Bytes)
    → IsValid s
    → is_top s ≡ false
    → is_empty s ≡ false
    → witness (read_of_set s) ≡ some v
    → contains s v ≡ true
unfolding is_top is_empty
witness-contains (exact w) v h n m e = term-holds (exact w) v h e
witness-contains (of_glob g) v h n m e = term-holds (of_glob g) v h e
witness-contains (inter gs) v h n m e = term-holds (inter gs) v h e
witness-contains full v h n m e = cc n
witness-contains empty v h n m e = cc m
witness-contains (unknown rs) v h n m e = cc n
witness-contains (union ms) v h n m e = unfold contains witness in members-hold ms v h.0 e
