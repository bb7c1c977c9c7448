-- ===== src/Examples/Declarations.antt =====
-- internal/ring/declare.go on lines that a user writes.
use cloudarq.Prelude.{none, Option, ◌≡◌, refl, false, [], ◌∷◌, ◌++◌, some}
use cloudarq.Trust.Issuer.{IssuerRef, lower_ascii}
use cloudarq.Text.Bytes.{bytes_eq, Bytes, codes}
use cloudarq.Ring.Owner.{namespace_issuer, scope_owner, namespace_github}
use cloudarq.Ring.Declare.{render_declaration, Declaration}
use cloudarq.Ring.Declare.Grammar.{declares, cut, read_line, is_utf8}
use cloudarq.Ring.Declare.Grammar.Texts.{render_declaration-read_line}
use cloudarq.Prelude.Order.Sorting.{sort}
use cloudarq.Eval.Claims.{put}
use cloudarq.Text.Split.{split}
use cloudarq.Text.Utf8.{runes, pieces}
use cloudarq.Ring.Declare.Lines.{read_declarations, trim_one, trim_blanks}

abbrev declared_acme : Declaration
declared_acme = record {
  namespace = namespace_github;
  scope = scope_owner;
  name = codes "acme";
  id = [];
  value = [];
}

abbrev no_provider : Bytes → Option IssuerRef
no_provider text = none

abbrev written : Bytes
written = codes "GitHub:acme@123456"

abbrev acme_by_id : Declaration
acme_by_id = record {
  namespace = namespace_github;
  scope = scope_owner;
  name = codes "acme";
  id = codes "123456";
  value = [];
}

parts_found : cut b':' written ≡ (codes "GitHub", some (codes "acme@123456"))
unfolding cut
parts_found = refl

written_read : read_line no_provider written ≡ declares acme_by_id
unfolding read_line is_utf8 pieces bytes_eq lower_ascii runes
written_read = refl

github_is_no_issuer : bytes_eq (lower_ascii (codes "GitHub")) namespace_issuer ≡ false
unfolding bytes_eq lower_ascii pieces
github_is_no_issuer = refl

render_declaration-read_line_example :
    render_declaration acme_by_id
    ≡ lower_ascii (codes "GitHub") ++ (codes ":" ++ codes "acme@123456")
render_declaration-read_line_example =
    render_declaration-read_line no_provider written (codes "GitHub") (codes "acme@123456")
      acme_by_id parts_found github_is_no_issuer written_read

-- A repeated line, a blank one and one that names no owner.
declared_once :
    (read_declarations no_provider (codes "github:acme\n\ngithub:acme\ngithub:")).owners
    ≡ declared_acme ∷ []
unfolding read_declarations split trim_one sort bytes_eq trim_blanks read_line is_utf8 pieces
    lower_ascii runes put render_declaration
declared_once = refl
