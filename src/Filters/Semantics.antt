-- ===== src/Filters/Semantics.antt =====
-- When an event passes an endpoint's filters.
use webhook_backend.Prelude.{
  ◌≡◌, ◌≢◌, ◌↔◌, ◌⊎◌, Bool, true, false, Option, none, List, [], ◌∷◌, All, is_some, not, all, arith,
}
use Prim.Native.String.{String}
use webhook_backend.Filters.{
  Json, Js, Operator, eq, neq, exists, unknown, FilterRule, evaluate, evaluate_rule,
  get_nested_value, split_path, holds, RuleCheck, valid, check_rule, validate_rules,
}

all-All :
    (js : Js) (t : String) (payload : Json) (rules : List FilterRule)
    → (all (evaluate_rule js t payload) rules ≡ true)
      ↔ All (λ r. evaluate_rule js t payload r ≡ true) rules
all-All js t payload [] = ground arith
all-All js t payload (r ∷ rs) = ground (arith, all-All js t payload rs)

-- An event passes exactly when each rule holds of it; with no rules every event passes.
pub evaluate_iff :
    (js : Js) (t : String) (payload : Json) (rules : List FilterRule)
    → (evaluate js rules t payload ≡ true) ↔ All (λ r. evaluate_rule js t payload r ≡ true) rules
unfolding evaluate
evaluate_iff js t payload rules = all-All js t payload rules

-- What a rule says of a path that leads nowhere.
abbrev pub of_missing : Operator → Option Json → Bool
of_missing eq value = not (is_some value)
of_missing neq value = is_some value
of_missing unknown value = true
of_missing _ value = false

holds-missing :
    (js : Js) (op : Operator) (value : Option Json) → holds js op none value ≡ of_missing op value
holds-missing js op value = ground arith

-- A rule whose path leads nowhere fails under gt, lt, contains and exists, and holds under eq and
-- neq according to whether the rule has no value or has one.
pub evaluate_rule_missing :
    (js : Js) (t : String) (payload : Json) (rule : FilterRule)
    → get_nested_value js t payload (split_path rule.field) ≡ none
    → evaluate_rule js t payload rule ≡ of_missing rule.operator rule.value
unfolding evaluate_rule
evaluate_rule_missing js t payload rule missing =
    rw (missing, evaluate_rule) (holds-missing js rule.operator rule.value)

-- A rule with a field, a known operator, and a value where the operator needs one.
abbrev pub IsWellFormed : FilterRule → Type 0
IsWellFormed rule =
    (rule.field ≢ [])
    × (rule.operator ≢ unknown)
    × ((rule.operator ≡ exists) ⊎ (is_some rule.value ≡ true))

check_rule_iff :
    (rule : FilterRule) (rest : RuleCheck)
    → (check_rule rule rest ≡ valid) ↔ (IsWellFormed rule × (rest ≡ valid))
check_rule_iff rule rest = ground arith

-- The check of the rules answers that they are valid exactly when each rule has a field, a known
-- operator, and a value unless the operator is exists.
pub validate_rules_iff :
    (rules : List FilterRule) → (validate_rules rules ≡ valid) ↔ All IsWellFormed rules
unfolding validate_rules
validate_rules_iff [] = ground arith
validate_rules_iff (rule ∷ rules) =
    ground (check_rule_iff rule (validate_rules rules), validate_rules_iff rules, arith)
