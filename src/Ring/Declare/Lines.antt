-- ===== src/Ring/Declare/Lines.antt =====
-- internal/ring/declare.go: a declaration of one owner per line, within its bounds.
use cloudarq.Prelude.{
  ℕ, suc, Bool, ◌||◌, List, [], ◌∷◌, ◌++◌, Option, none, some, map, length, ltb, ◌==◌,
  if◌then◌else◌,
}
use cloudarq.Prelude.Order.Sorting.{sort}
use cloudarq.Text.Bytes.{Bytes, bytes_eq, bytes_order}
use cloudarq.Text.Split.{split}
use cloudarq.Eval.Claims.{Claims, put}
use cloudarq.Trust.Issuer.{IssuerRef}
use cloudarq.Ring.Declare.{Declaration, render_declaration}
use cloudarq.Ring.Declare.Grammar.{Reason, declares, refuses, read_line}

abbrev pub max_bytes : ℕ
max_bytes = 16384

abbrev pub max_lines : ℕ
max_lines = 64

abbrev pub max_line_bytes : ℕ
max_line_bytes = 512

abbrev pub line_end : ℕ
line_end = 10

-- `strings.TrimSuffix` of one byte.
unfoldable pub trim_one : ℕ → Bytes → Bytes
trim_one c [] = []
trim_one c (b ∷ []) = if b == c then [] else b ∷ []
trim_one c (b ∷ d ∷ s) = b ∷ trim_one c (d ∷ s)

is_blank : ℕ → Bool
is_blank b = b == 32 || b == 9

blanks_left : Bytes → Bytes
unfolding is_blank
blanks_left [] = []
blanks_left (b ∷ s) = let rest = blanks_left s in if is_blank b then rest else b ∷ s

blanks_end : ℕ → Bytes → Bytes
unfolding is_blank
blanks_end b [] = if is_blank b then [] else b ∷ []
blanks_end b (d ∷ s) = b ∷ d ∷ s

blanks_right : Bytes → Bytes
unfolding blanks_end
blanks_right [] = []
blanks_right (b ∷ s) = blanks_end b (blanks_right s)

unfoldable pub trim_blanks : Bytes → Bytes
unfolding blanks_left blanks_right
trim_blanks s = blanks_right (blanks_left s)

pub data Bound : Type 0 where
  declaration_bytes declaration_lines line_bytes : Bound

pub record Overrun : Type 0 where
  pub bound : Bound
  pub line : ℕ
  pub size : ℕ

pub record Refusal : Type 0 where
  pub line : ℕ
  pub text : Bytes
  pub reason : Reason

pub record Declarations : Type 0 where
  pub owners : List Declaration
  pub refused : List Refusal
  pub overrun : Option Overrun

unfoldable pub overrun_at : Bound → ℕ → ℕ → Declarations
overrun_at bound line size = record {
  owners = [];
  refused = [];
  overrun = some (record { bound = bound; line = line; size = size });
}

-- The owners in the order of their texts.
unfoldable pub in_order : Claims Declaration → List Declaration
in_order by_text = map (λ e. e.1) (sort bytes_order (λ (e : Bytes × Declaration). e.0) by_text)

module _ (provider_issuer : Bytes → Option IssuerRef) where
  -- What one line of at most `max_line_bytes` adds to the refusals and to the owners by their text.
  unfoldable pub read_one :
      ℕ → Bytes → List Refusal → Claims Declaration → List Refusal × Claims Declaration
  read_one i text refused by_text =
      let line = trim_blanks text in
      let read : List Refusal × Claims Declaration = elim (read_line provider_issuer line) [
        | declares d ↦ (refused, put (render_declaration d) d by_text)
        | refuses reason ↦
            (refused ++ record { line = i; text = text; reason = reason } ∷ [], by_text)
      ] in
      if bytes_eq line [] then (refused, by_text) else read

  -- The loop of `ReadDeclarations` from the line of number `i` on, with what it has read so far.
  unfoldable pub read_lines : ℕ → List Refusal → Claims Declaration → List Bytes → Declarations
  unfolding in_order overrun_at read_one
  read_lines i refused by_text [] = record {
    owners = in_order by_text;
    refused = refused;
    overrun = none;
  }
  read_lines i refused by_text (raw ∷ lines) =
      let text = trim_one 13 raw in
      let (refused_next, by_text_next) = read_one i text refused by_text in
      let rest = read_lines (suc i) refused_next by_text_next lines in
      if ltb max_line_bytes (length text) then overrun_at line_bytes i (length text) else rest

  unfoldable pub read_declarations : Bytes → Declarations
  unfolding read_lines
  read_declarations text =
      let (first, rest) = split line_end (trim_one line_end text) in
      if ltb max_bytes (length text)
      then overrun_at declaration_bytes 0 (length text)
      else if ltb max_lines (length (first ∷ rest))
      then overrun_at declaration_lines 0 (length (first ∷ rest))
      else read_lines 1 [] [] (first ∷ rest)
