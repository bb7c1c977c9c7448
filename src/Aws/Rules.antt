-- ===== src/Aws/Rules.antt =====
-- internal/parse/aws/condition.go: the readings of a caveat that internal/ring asks for.
use cloudarq.Aws.Folding.{CaseTables, may_name}
use cloudarq.Aws.Operator.{asks_no_particular_value}
use cloudarq.Ring.Reading.{CaveatRules}

-- The parser's readings, over its case tables.
abbrev pub aws_rules : CaseTables → CaveatRules
aws_rules tables = record { may_name = may_name tables; asks_no_value = asks_no_particular_value }
