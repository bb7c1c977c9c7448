-- ===== src/Ring/Reading/Confines.antt =====
-- internal/ring/classify.go: the owners that a constraint is read for have every value it admits.
use cloudarq.Prelude.{
  ◌≡◌, refl, inl, inr, true, false, List, [], ◌∷◌, ◌++◌, some, none, All, all, Some,
  Some-append_left, Some-append_right, Bool-cases, arith, subst, if◌then◌else◌,
}
use cloudarq.Text.Bytes.{Bytes, IsBytes, bytes_eq_iff}
use cloudarq.Eval.Glob.{Glob, glob_contains}
use cloudarq.Eval.StringSet.{
  StringSet, exact, of_glob, full, empty, unknown, union, inter, Members, no_members, member,
  list_of, contains, some_contains,
}
use cloudarq.Eval.StringSet.Valid.{IsValid, IsTerm, IsGlob}
use cloudarq.Eval.Shape.{
  Shapes, no_shapes, shapes, shape_of, shapes_of, shapes_of_globs, literal_prefix,
}
use cloudarq.Eval.Shape.Prefix.{literal_prefix-node}
use cloudarq.Ring.Owner.{Owner}
use cloudarq.Ring.Place.{unread_constraint}
use cloudarq.Ring.Subject.{is_empty_list}
use cloudarq.Ring.Reading.{
  Confinement, no_confinement, confined_to, not_read, ValueReader, PrefixReader, is_open,
  add_member, add_bound, or_bound, confine_glob, confine_shape, confine_union, confine_intersection,
}

-- Where the owners are not nil, one of them has the value.
abbrev pub Holds : (Owner → Type 0) → List Owner → Type 0
Holds Has owners = is_empty_list owners ≡ false → Some Has owners

-- The readings of exact values and of prefixes are right about the value `v`.
abbrev pub ReadsValue : (Owner → Type 0) → Bytes → ValueReader → Type 0
ReadsValue Has v value = Holds Has (value v).owners

abbrev pub ReadsPrefix : (Owner → Type 0) → Bytes → PrefixReader → Type 0
ReadsPrefix Has v none = Unit
ReadsPrefix Has v (some read) = (p rest : Bytes) → v ≡ p ++ rest → Holds Has (read p)

append_empty :
    (xs ys : List Owner)
    → is_empty_list (xs ++ ys) ≡ false
    → is_empty_list xs ≡ true
    → is_empty_list ys ≡ false
unfolding is_empty_list
append_empty [] ys h k = h
append_empty (x ∷ xs) ys h k = ground arith

append_Holds :
    (Has : Owner → Type 0) (xs ys : List Owner) → Holds Has xs → Holds Has ys → Holds Has (xs ++ ys)
append_Holds Has xs ys h k n = elim (Bool-cases (is_empty_list xs)) [
  | inl e ↦ Some-append_right Has xs ys (k (append_empty xs ys n e))
  | inr e ↦ Some-append_left Has xs ys (h e)
]

module _ (Has : Owner → Type 0) (v : Bytes) (value : ValueReader) (prefix : PrefixReader)
    (bytes : IsBytes v) (reads_value : ReadsValue Has v value)
    (reads_prefix : ReadsPrefix Has v prefix) where
  glob_Holds :
      (g : Glob)
      → IsGlob g
      → glob_contains g v ≡ true
      → Holds Has (confine_glob value prefix g.pattern).owners
  unfolding confine_glob confined_to not_read is_empty_list
  glob_Holds g h c n = from_prefix prefix reads_prefix n
    where
      from_prefix :
          (r : PrefixReader)
          → ReadsPrefix Has v r
          → Holds Has (confine_glob value r g.pattern).owners
      from_prefix none k m = ground arith
      from_prefix (some read) k m =
          let (rest, e) =
            literal_prefix-node g.pattern v h.0 bytes
              (subst (λ x. glob_contains x v ≡ true) h.1 c) in
          k (literal_prefix g.pattern) rest e m

  confined_Holds :
      (owners : List Owner) → Holds Has owners → Holds Has (confined_to owners false).owners
  unfolding confined_to
  confined_Holds owners h = h

  -- A pattern that is not read has no owners.
  glob_unread :
      (text : Bytes) (unread : Confinement)
      → is_empty_list unread.owners ≡ true
      → is_empty_list
          (if (confine_glob value prefix text).unread
            then confine_glob value prefix text
            else unread).owners
        ≡ true
  unfolding confine_glob confined_to not_read is_empty_list
  glob_unread text unread u = at_prefix prefix
    where
      at_prefix :
          (r : PrefixReader)
          → is_empty_list
              (if (confine_glob value r text).unread
                then confine_glob value r text
                else unread).owners
            ≡ true
      at_prefix none = refl
      at_prefix (some read) = u

  -- The loop over an intersection, all of whose patterns admit the value.
  intersection_Holds :
      (gs : List Glob) (owners : List Owner) (unread : Confinement)
      → All IsGlob gs
      → all (λ g. glob_contains g v) gs ≡ true
      → Holds Has owners
      → is_empty_list unread.owners ≡ true
      → Holds Has (confine_intersection value prefix owners unread (shapes_of_globs gs)).owners
  unfolding confine_intersection shapes_of_globs
  intersection_Holds [] owners unread h c k u = elim (Bool-cases (is_empty_list owners)) [
    | inl e ↦ rw (confine_intersection, e) (λ n. ground arith)
    | inr e ↦ rw (confine_intersection, e) (confined_Holds owners k)
  ]
  intersection_Holds (g ∷ gs) owners unread h c k u =
      intersection_Holds gs _ _ h.1 (ground arith)
        (append_Holds Has owners (confine_glob value prefix g.pattern).owners k
          (glob_Holds g h.0 (ground arith)))
        (glob_unread g.pattern unread u)

  -- A union that met a bound ends on it.
  union_bound :
      (ms : Shapes) (read b : Confinement)
      → is_empty_list b.owners ≡ true
      → is_empty_list (confine_union value prefix read (some b) ms).owners ≡ true
  unfolding confine_union or_bound is_open add_bound
  union_bound no_shapes read b h = h
  union_bound (shapes m ms) read b h = elim (Bool-cases (is_open (confine_shape value prefix m))) [
    | inl e ↦ rw (confine_union, e) (ground arith)
    | inr e ↦ rw (confine_union, e) (union_bound ms _ b h)
  ]

  open_none : (c : Confinement) → is_open c ≡ true → is_empty_list c.owners ≡ true
  unfolding is_open
  open_none c e = ground arith

  none_Holds : (owners : List Owner) → is_empty_list owners ≡ true → Holds Has owners
  none_Holds owners e n = ground arith

  -- One round of the loop: a member is open, is a bound, or has owners.
  union_round :
      (m : Confinement) (ms : Shapes) (read : Confinement)
      → (is_empty_list m.owners ≡ false
          → Holds Has (confine_union value prefix (add_member read m) none ms).owners)
      → Holds Has
          (if is_open m
            then m
            else confine_union value prefix (add_member read m) (add_bound none m) ms).owners
  unfolding add_bound
  union_round m ms read next = elim (Bool-cases (is_open m)) [
    | inl e ↦ rw e (none_Holds m.owners (open_none m e))
    | inr e ↦ elim (Bool-cases (is_empty_list m.owners)) [
      | inl u ↦ rw (e, u) (none_Holds _ (union_bound ms (add_member read m) m u))
      | inr u ↦ rw (e, u) (next u)
    ]
  ]

  -- Owners that have the value stay, unless the union ends open or on a bound.
  union_keeps :
      (ms : Shapes) (read : Confinement)
      → Some Has read.owners
      → Holds Has (confine_union value prefix read none ms).owners
  unfolding confine_union or_bound add_member
  union_keeps no_shapes read h = λ n. h
  union_keeps (shapes m ms) read h =
      let member = confine_shape value prefix m in
      union_round member ms read (λ u.
        union_keeps ms (add_member read member) (Some-append_left Has read.owners member.owners h))

  term_Holds :
      (s : StringSet)
      → IsTerm s
      → contains s v ≡ true
      → Holds Has (confine_shape value prefix (shape_of s)).owners
  unfolding confine_shape shape_of contains
  term_Holds (exact w) h c =
      subst (λ x. Holds Has (value x).owners) ((bytes_eq_iff v w).0 c) reads_value
  term_Holds (of_glob g) h c = glob_Holds g h c
  term_Holds (inter gs) h c =
      intersection_Holds gs [] no_confinement h.0 c (none_Holds [] (unfold is_empty_list in refl))
        (unfold is_empty_list in refl)
  term_Holds (union ms) h c = absurd h
  term_Holds full h c = absurd h
  term_Holds empty h c = absurd h
  term_Holds (unknown rs) h c = absurd h

  union_Holds :
      (ms : Members) (read : Confinement)
      → All IsTerm (list_of ms)
      → some_contains ms v ≡ true
      → Holds Has (confine_union value prefix read none (shapes_of ms)).owners
  unfolding confine_union shape_of some_contains add_member list_of
  union_Holds no_members read h c = ground arith
  union_Holds (member s ms) read h c =
      let read_as = confine_shape value prefix (shape_of s) in
      union_round read_as (shapes_of ms) read (λ u. elim (Bool-cases (contains s v)) [
        | inl e ↦
            union_keeps (shapes_of ms) (add_member read read_as)
              (Some-append_right Has read.owners read_as.owners (term_Holds s h.0 e u))
        | inr e ↦ union_Holds ms (add_member read read_as) h.1 (ground arith)
      ])

  shape_Holds :
      (s : StringSet)
      → IsValid s
      → contains s v ≡ true
      → Holds Has (confine_shape value prefix (shape_of s)).owners
  unfolding confine_shape shape_of contains
  shape_Holds (exact w) h c = term_Holds (exact w) h c
  shape_Holds (of_glob g) h c = term_Holds (of_glob g) h c
  shape_Holds (inter gs) h c = term_Holds (inter gs) h c
  shape_Holds (union ms) h c = union_Holds ms no_confinement h.0 c
  shape_Holds full h c = none_Holds [] (unfold is_empty_list in refl)
  shape_Holds empty h c = none_Holds [] (unfold is_empty_list in refl)
  shape_Holds (unknown rs) h c =
      none_Holds (not_read unread_constraint).owners (unfold is_empty_list not_read in refl)

  -- Let the readings of exact values and of prefixes be right about a string of bytes: where they
  -- return owners, one of them has the string. Then where a valid set that holds the string is read
  -- for owners, one of them has it.
  pub confine_shape-Holds :
      (s : StringSet)
      → IsValid s
      → contains s v ≡ true
      → is_empty_list (confine_shape value prefix (shape_of s)).owners ≡ false
      → Some Has (confine_shape value prefix (shape_of s)).owners
  confine_shape-Holds s h c n = shape_Holds s h c n
