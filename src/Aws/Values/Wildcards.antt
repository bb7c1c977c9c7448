-- ===== src/Aws/Values/Wildcards.antt =====
-- internal/parse/aws/condition.go: the notes on wildcards that are compared as written.
use cloudarq.Prelude.{ℕ, zero, suc, ◌||◌, List, [], ◌∷◌, ◌++◌, if◌then◌else◌}
use cloudarq.Text.Bytes.{Bytes, codes}
use cloudarq.Text.Quote.{quote}
use cloudarq.Text.Parts.{join_parts}
use cloudarq.Eval.Claims.{ClaimKey}
use cloudarq.Trust.Issuer.{has_prefix}
use cloudarq.Trust.Grant.{Anomaly}
use cloudarq.Aws.Operator.{spell_claim, contains_text}

-- The text without the escapes of wildcards; `skip` bytes are part of one.
unfoldable pub without_escapes : ℕ → Bytes → Bytes
without_escapes skip [] = []
without_escapes (suc skip) (b ∷ s) = without_escapes skip s
without_escapes zero (b ∷ s) =
    let escape_left = without_escapes 3 s in
    let kept = without_escapes 0 s in
    if has_prefix (b ∷ s) (codes "${*}") || has_prefix (b ∷ s) (codes "${?}")
    then escape_left
    else b ∷ kept

unfoldable pub wildcards_held : Bytes → List Bytes
unfolding without_escapes contains_text
wildcards_held text =
    let written = without_escapes 0 text in
    (if contains_text written (codes "*") then quote (codes "*") ∷ [] else [])
    ++ (if contains_text written (codes "?") then quote (codes "?") ∷ [] else [])

unfoldable pub wildcard_note : Bytes → Bytes → ClaimKey → Bytes → List Bytes → List Anomaly
wildcard_note text operator claim src [] = []
wildcard_note text operator claim src (w ∷ ws) =
    record {
      kind = codes "wildcard-is-literal";
      claim = claim;
      construct = operator;
      message =
          codes "the value "
          ++ (quote text
              ++ (codes " on "
                  ++ (spell_claim claim
                      ++ (codes
                            " is compared as written: AWS's condition operators table gives StringEquals as \"Exact matching, case sensitive\", so each "
                          ++ (join_parts (codes " and ") (w ∷ ws)
                              ++ (codes
                                    " it holds is the character, not a wildcard, and the value matches only a "
                                  ++ (spell_claim claim
                                      ++ codes
                                          " that is exactly this text; StringLike is the operator that reads * and ? as wildcards")))))));
      source = src;
    }
    ∷ []

unfoldable pub literal_wildcards : List Bytes → Bytes → ClaimKey → Bytes → List Anomaly
unfolding wildcards_held wildcard_note
literal_wildcards [] operator claim src = []
literal_wildcards (text ∷ texts) operator claim src =
    wildcard_note text operator claim src (wildcards_held text)
    ++ literal_wildcards texts operator claim src
