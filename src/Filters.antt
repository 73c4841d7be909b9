-- ===== src/Filters.antt =====
-- JSON values, and the filter rules of an endpoint (utils/filter-engine.service.ts). Numbers are
-- integers; a dotted path is its list of keys; what JavaScript does on properties of strings and
-- arrays and in comparing a number with another type is taken from `Js`.
pub mod Semantics
mod Tests
use Prim.Native.String.{String}
use text.Mathlib.Text.{◌==◌ as str_eq}
use webhook_backend.Prelude.{
  ℕ, Bool, true, false, not, ◌&&◌, ◌||◌, Option, some, none, List, [], ◌∷◌, ℤ, pos, negsuc,
  pos_part, neg_part, ltb_ℤ, ◌==◌, if◌then◌else◌, all, any,
}

mutual
  pub data Json : Type 0 where
    null : Json
    bool : Bool → Json
    num : ℤ → Json
    str : String → Json
    arr : Items → Json
    obj : Fields → Json

  pub data Items : Type 0 where
    nil : Items
    cons : Json → Items → Items

  pub data Fields : Type 0 where
    end : Fields
    field : String → Json → Fields → Fields

abbrev pub get_field : Fields → String → Option Json
get_field end k = none
get_field (field j v fs) k = if str_eq j k then some v else get_field fs k

pub record Js : Type 0 where
  -- A property of a value that is not an object's own, such as `length` or an inherited one.
  pub builtin_property : Json → String → Option Json
  -- `Number(v)`, or nothing for NaN.
  pub to_number : Json → Option ℤ
  -- `s.includes(v)`
  pub includes : String → Option Json → Bool

pub data Operator : Type 0 where
  eq neq gt lt contains exists unknown : Operator

pub record FilterRule : Type 0 where
  pub field : List String
  pub operator : Operator
  pub value : Option Json

abbrev pub int_eq : ℤ → ℤ → Bool
int_eq a b = pos_part a == pos_part b && neg_part a == neg_part b

-- `a === b` at values of which at most one lies in the rule: two objects are never the same one.
abbrev pub strict_eq : Json → Json → Bool
strict_eq null null = true
strict_eq (bool true) (bool b) = b
strict_eq (bool false) (bool b) = not b
strict_eq (num a) (num b) = int_eq a b
strict_eq (str a) (str b) = str_eq a b
strict_eq _ _ = false

-- `undefined` is the absent value.
abbrev pub strict_eq? : Option Json → Option Json → Bool
strict_eq? none none = true
strict_eq? (some a) (some b) = strict_eq a b
strict_eq? _ _ = false

abbrev pub is_truthy : Json → Bool
is_truthy null = false
is_truthy (bool b) = b
is_truthy (num n) = not (int_eq n (pos 0))
is_truthy (str s) = not (str_eq s "")
is_truthy _ = true

abbrev pub property : Js → Json → String → Option Json
property js (obj fs) k = elim (get_field fs k) [
  | some v ↦ some v
  | none ↦ js.builtin_property (obj fs) k
]
property js v k = js.builtin_property v k

-- One step of the `reduce` of `getNestedValue`: `current && current[key]`.
abbrev pub nested_step : Js → Option Json → String → Option Json
nested_step js none k = none
nested_step js (some v) k = if is_truthy v then property js v k else none

pub nested_from : Js → Option Json → List String → Option Json
nested_from js current [] = current
nested_from js current (k ∷ ks) = nested_from js (nested_step js current k) ks

-- `getNestedValue({ eventType, payload }, path)`
pub get_nested_value : Js → String → Json → List String → Option Json
unfolding nested_from
get_nested_value js event_type payload path =
    nested_from js (some (obj (field "eventType" (str event_type) (field "payload" payload end))))
      path

-- `typeof actual === 'number' && actual > value`, with the test handed over.
abbrev pub compare_number : Js → (ℤ → ℤ → Bool) → Option Json → Option Json → Bool
compare_number js test (some (num a)) (some v) = elim (js.to_number v) [
  | none ↦ false
  | some b ↦ test a b
]
compare_number js test _ _ = false

abbrev pub holds : Js → Operator → Option Json → Option Json → Bool
holds js eq actual value = strict_eq? actual value
holds js neq actual value = not (strict_eq? actual value)
holds js gt actual value = compare_number js (λ a b. ltb_ℤ b a) actual value
holds js lt actual value = compare_number js ltb_ℤ actual value
holds js contains actual value = elim actual [
  | none ↦ false
  | some v ↦ elim v [ str s ↦ js.includes s value | _ ↦ false ]
]
holds js exists actual value = elim actual [
  | none ↦ false
  | some v ↦ elim v [ null ↦ false | _ ↦ true ]
]
holds js unknown actual value = true

-- `path.split('.')`: of the empty text it is one empty key.
abbrev pub split_path : List String → List String
split_path [] = "" ∷ []
split_path (k ∷ ks) = k ∷ ks

-- `evaluateRule`
pub evaluate_rule : Js → String → Json → FilterRule → Bool
unfolding get_nested_value
evaluate_rule js event_type payload rule =
    holds js rule.operator (get_nested_value js event_type payload (split_path rule.field))
      rule.value

-- `evaluate`: an endpoint with no rules takes every event.
unfoldable pub evaluate : Js → List FilterRule → String → Json → Bool
unfolding evaluate_rule
evaluate js rules event_type payload = all (evaluate_rule js event_type payload) rules

pub data RuleCheck : Type 0 where
  valid field_required invalid_operator value_required : RuleCheck

abbrev is_exists : Operator → Bool
is_exists exists = true
is_exists _ = false

abbrev pub check_rule : FilterRule → RuleCheck → RuleCheck
check_rule rule rest = elim rule.field [
  | [] ↦ field_required
  | k ∷ ks ↦ elim rule.operator [
    | unknown ↦ invalid_operator
    | exists ↦ rest
    | _ ↦ elim rule.value [ none ↦ value_required | some v ↦ rest ]
  ]
]

-- `validateRules`: the first fault that the loop meets.
pub validate_rules : List FilterRule → RuleCheck
validate_rules [] = valid
validate_rules (rule ∷ rules) = check_rule rule (validate_rules rules)
