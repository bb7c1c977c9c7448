-- ===== src/Lib.antt =====
-- CloudArq reads the trust policies of AWS, Azure and Google Cloud and answers which external
-- identities they admit. Provider parsers (internal/parse) turn documents into grants
-- (internal/trust); a grant holds a set of tokens from the lattice of internal/eval, and the rings,
-- the join and the report read their answers off that set. This library models the lattice, the
-- grants, the rings and the join's witnesses.
--
-- Text: Go strings are lists of bytes (numbers). Text.Bytes has their equality and order, Text.Utf8
-- how the language reads them by runes (an invalid byte reads as U+FFFD), Text.Quote
-- strconv.QuoteToASCII, Text.Split and Text.Parts the functions of package strings. Prelude.Order
-- has slices.SortFunc and slices.Compact by a key; where the library leaves the order of equal keys
-- open, the lemmas that need an order ask that the elements be equal.
--
-- Eval.Glob is internal/eval/glob.go: glob_node and glob are Glob, match_segments, match_at and
-- place are matchSegments, matchAt and its inner loop. The inner loop runs on fuel, end + 1 - i
-- rounds, one for each offset up to end; at the last one its test fails. Segments are a first and a
-- list of others, since strings.Split returns one part at least. Eval.Glob.Fits is the
-- specification, a relation between the runes of a pattern and those of a value.
--
-- Eval.StringSet and Eval.StringSet.Build are internal/eval/stringset.go: the constructors of
-- StringSet are the nodes exact, glob (of_glob), full, empty, unknown, union and inter; contains,
-- is_empty, is_top and render are their methods, and meet and join the functions of those names.
-- The panic of globsOf is the result none of meet. The members of a union are a list of the same
-- mutual block, as sets, so that what a union may hold is an invariant (IsValid) and not a matter
-- of types.
--
-- Eval.Shape is internal/eval/shape.go. Eval.Claims has maps keyed by claim as association lists,
-- and Eval.Admitted is internal/eval/admitted.go and caveat.go: a Term is such a map of sets,
-- normalise makes its two passes, and every set comes from it. Where the code ranges over a map,
-- the model goes through the list; what depends on the order is sorted by key in both. Claim names
-- are asked to hold no equals sign, since renderTerm writes them unquoted.
--
-- Trust.Issuer is internal/trust/normalise.go: claim_key is Claim, normalise_issuer
-- NormaliseIssuer, lower_ascii lowerASCII. Trust.Grant is internal/trust/grant.go, with the record
-- of internal/evidence; project is the projection behind Audience and WithoutAudience.
--
-- Aws.Tenancy has what internal/parse/aws knows of AWS's own names: the tenants of tenancy.go and
-- the predicates on issuers and keys that the rings ask. Ring.Owner, Ring.Facts and Ring.Place are
-- the files owner.go, facts.go and place.go of internal/ring, Ring.Declare and its modules Grammar
-- and Lines are declare.go: what a declaration covers, and how one is read (read_declarations is
-- ReadDeclarations, read_line declaration; the parser's ProviderIssuer, which asks its folding
-- tables, is a parameter). The rest of Ring is classify.go: Ring.Subject reads a text by the
-- census's subject forms (read_form is readForm, subject_owners subjectOwners, longer_of and
-- shortest the functions on starts), Ring.Reading a constraint (confine_shape is confineShape),
-- Ring.Classify the claims and what they say together, Ring.Pins the places that need no term,
-- Ring.Landing one alternative (place_term is classifier.place) and Ring.Outermost the grant
-- (outermost and Classify). A nil slice of owners or of starts is the empty list: the code makes no
-- empty slice of either that it does not read as nil. The merge sort of owners runs on as many
-- rounds as there are owners, and no list needs more. The parser's readings of a caveat, MayName
-- and AsksNoParticularValue, are the fields of CaveatRules, which Aws.Rules fills with the parser's
-- own functions.
--
-- Aws.Folding is internal/parse/casefold/casefold.go over its generated tables, the parameter
-- CaseTables, with MayName of internal/parse/aws/condition.go (may_name) behind them. The rest is
-- condition.go: Aws.Operator has parseOperator, the sentences that a caveat may have as its reason
-- and AsksNoParticularValue; Aws.Variables resolveVariables; Aws.Values valueSet (value_set),
-- joinAll (join_all) and withCaveats (with_all_caveats). The loop of resolveVariables takes a
-- reference of the text in each round, and runs on the length of the text and one as fuel; its
-- outcome no_fuel is never reached. The rounds of joinAll make a list of two or more shorter, and
-- run on its length. The literal and the problem of resolveVariables, of which the code returns one
-- and a zero value for the other, are the constructors of Resolved; a nil set of valueSet is none.
-- valueSet is asked of one text at least, as joinAll is.
--
-- Aws.Json has the JSON values as far as a condition reads them (leaves and describe of policy.go),
-- Aws.Principal the claims of a principal (identity_term is identity, own_claim ownClaim, may_own
-- mayOwn), Aws.Scope how a principal reads a key (scope_of is scope), Aws.Scope.Facts and
-- Aws.Operator.Facts what keeps a key or an operator from being read, Aws.Values.Wildcards the
-- notes of literalWildcards, and Aws.Condition evaluate and project (project_block). evaluate is
-- cut where the code appends facts: those of the key, of its scope, of the operator and of the
-- values, in this order; that one of the key is told is what the code keeps as keyNotKnown. A nil
-- set would panic in project, which is none. The vocabulary of an issuer's claims, which the
-- registry fills, is a parameter; a nil one is one that knows no issuer.
--
-- Join.Walk is the search of internal/join/witness.go: walk is shortestShared, skip_stars
-- skipStars, consume consume and state_key stateKey. A state's seen keys are a list that no key
-- enters twice. The recursion of visit runs on the bound as fuel: a call that goes on adds a key,
-- so that where the fuel is spent the bound is reached and the code stops too. The levels run on
-- bound + 1 rounds, and the outcome no_fuel, which the code does not have, is never reached;
-- gave_up and ran_out are both the code's ok = false. Join.Walk.Reach has the states that a walk
-- can reach as a relation. Join.Witness is the rest of the file: read_shape is readShape, whose
-- panic is none, witness shape.witness, constraints_of constraintsOf, term_witness termWitness and
-- witness_of witnessOf. Text.Quote.Quoted has strconv.QuotedPrefix and strconv.Unquote as one
-- reading.
--
-- Not modelled: the parsers but for the conditions above (how a document becomes constraints and
-- principals, which works on its spans, is left), the links of the join and the report. Input,
-- output, the registries of issuers and vendors and the generated tables are left aside.
pub mod Prelude
pub mod Text
pub mod Eval
pub mod Trust
pub mod Aws
pub mod Join
pub mod Ring
pub mod Examples
