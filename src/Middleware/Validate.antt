-- ===== src/Middleware/Validate.antt =====
-- middleware/validate.rs: the rules of a configuration, and the check of the fields of a body.
pub mod Laws
mod Tests
use Prim.Native.Char.{code}
use Prim.Native.String
use webpipe.Base.{
  ℕ, suc, String, Bool, true, false, not, ◌&&◌, ◌||◌, Option, none, some, List, [], ◌∷◌, ◌==◌,
  nat_eq, ltb, if◌then◌else◌, and_then,
}
use webpipe.Base.Text.{
  format, decimal, trim, split_once, parse_u64, starts_with, contains, strip_prefix,
}
use webpipe.Json.{
  Value, Fields, bool, number, string, array, object, cons, nil, field, end, get, get_field,
  as_object,
}
use webpipe.Ast.Fmt.{lines}
use webpipe.Middleware.RateLimit.{strip_suffix}

pub data Kind : Type 0 where
  string_kind email_kind boolean_kind number_kind : Kind

pub record Rule : Type 0 where
  pub field : String
  pub kind : Kind
  pub min : Option ℕ
  pub max : Option ℕ

-- `trim_end_matches(',')`
unfoldable pub trim_commas : String → String
trim_commas String.[] = ""
trim_commas (String.◌∷◌ c s) =
    let rest = trim_commas s in if nat_eq (code c) b',' && rest == "" then "" else String.◌∷◌ c rest

abbrev pub ends_with : String → String → Bool
ends_with s suffix = elim (strip_suffix suffix s) [ none ↦ false | some _ ↦ true ]

-- A text that begins and ends with a brace has two characters or more: `{` alone does not end
-- with `}`.
abbrev pub or_whole : String → Option String → String
or_whole s none = s
or_whole s (some part) = part

unfoldable pub trim_wrapping_braces : String → String
unfolding trim strip_prefix strip_suffix
trim_wrapping_braces s = or_whole (trim s) (and_then (strip_prefix "{" (trim s)) (strip_suffix "}"))

-- `split("..")`, told by what stands before and behind the first two dots: one part, two, or more.
abbrev pub two_parts : String → Option (String × String) → Option ℕ × Option ℕ
two_parts part none = (parse_u64 (trim part), parse_u64 (trim part))
two_parts part (some (a, b)) =
    if contains b ".." then (none, none) else (parse_u64 (trim a), parse_u64 (trim b))

unfoldable pub parse_range : String → Option ℕ × Option ℕ
unfolding split_once contains parse_u64 trim
parse_range spec = two_parts spec (split_once ".." spec)

-- What stands before the last `)`.
unfoldable pub before_last : ℕ → String → Option String
before_last ch String.[] = none
before_last ch (String.◌∷◌ c s) =
    let later = before_last ch s in
    elim later [
      | some rest ↦ some (String.◌∷◌ c rest)
      | none ↦ if nat_eq (code c) ch then some "" else none
    ]

abbrev pub in_parens : Option (String × String) → Option ℕ × Option ℕ
in_parens none = (none, none)
in_parens (some (_, behind)) = elim (before_last b')' behind) [
  | none ↦ (none, none)
  | some inside ↦ parse_range inside
]

-- The bounds of `string(2..4)`: what stands between the first `(` and the last `)`. Where the last
-- `)` stands before the first `(`, the source's slice panics; here there are no bounds then.
unfoldable pub string_bounds : String → Option ℕ × Option ℕ
unfolding split_once before_last parse_range
string_bounds rhs = in_parens (split_once "(" rhs)

abbrev pub simple_rule : String → Kind → Rule
simple_rule name kind = record { field = name; kind = kind; min = none; max = none }

unfoldable pub rule_of : String → String → Option Rule
unfolding string_bounds starts_with
rule_of name rhs =
    if starts_with rhs "string"
    then some (record {
      field = name;
      kind = string_kind;
      min = (string_bounds rhs).0;
      max = (string_bounds rhs).1;
    })
    else if starts_with rhs "email"
    then some (simple_rule name email_kind)
    else if starts_with rhs "boolean" || starts_with rhs "bool"
    then some (simple_rule name boolean_kind)
    else if starts_with rhs "number"
    then some (simple_rule name number_kind)
    else none

abbrev pub rule_of_parts : Option (String × String) → Option Rule
rule_of_parts none = none
rule_of_parts (some (name, rhs)) = rule_of (trim name) (trim rhs)

unfoldable pub rules_of : List String → List Rule
unfolding rule_of split_once trim trim_commas
rules_of [] = []
rules_of (raw_line ∷ more) =
    let rest = rules_of more in
    elim (rule_of_parts (split_once ":" (trim_commas (trim raw_line)))) [
      | none ↦ rest
      | some rule ↦ rule ∷ rest
    ]

unfoldable pub parse_rules : String → List Rule
unfolding rules_of lines trim_wrapping_braces
parse_rules cfg = rules_of (lines (trim_wrapping_braces cfg))

unfoldable pub make_error : String → String → String → Value
make_error name rule message = object (
    field "errors"
      (array (
        cons
          (object (
            field "type" (string "validationError") (
              field "field" (string name) (
                field "context" (string name)
                  (field "rule" (string rule) (field "message" (string message) end))))))
          nil))
      end)

unfoldable pub char_count : String → ℕ
char_count String.[] = 0
char_count (String.◌∷◌ c s) = suc (char_count s)

-- The error that a rule ends the step with, if the value of its field does not meet it.
abbrev pub required : Rule → String → Value
required rule what =
    make_error rule.field "required"
      (format ("Field '" ∷ rule.field ∷ "' is required and must be a " ∷ what ∷ []))

abbrev pub at_least : Rule → ℕ → Value
at_least rule n =
    make_error rule.field "minLength"
      (format ("Field '" ∷ rule.field ∷ "' must be at least " ∷ decimal n ∷ " characters" ∷ []))

abbrev pub at_most : Rule → ℕ → Value
at_most rule n =
    make_error rule.field "maxLength"
      (format ("Field '" ∷ rule.field ∷ "' must be at most " ∷ decimal n ∷ " characters" ∷ []))

abbrev pub too_long : Rule → ℕ → Option ℕ → Option Value
too_long rule len none = none
too_long rule len (some n) = if ltb n len then some (at_most rule n) else none

abbrev pub too_short : Rule → ℕ → Option ℕ → Option Value → Option Value
too_short rule len none later = later
too_short rule len (some n) later = if ltb len n then some (at_least rule n) else later

abbrev pub check_length : Rule → ℕ → Option Value
check_length rule len = too_short rule len rule.min (too_long rule len rule.max)

unfoldable pub is_email : String → Bool
unfolding contains starts_with strip_suffix
is_email s = contains s "@" && contains s "." && not (starts_with s "@") && not (ends_with s "@")

unfoldable pub check_string : Rule → Option Value → Option Value
unfolding make_error char_count format decimal
check_string rule (some (string s)) =
    if s == "" then some (required rule "non-empty string") else check_length rule (char_count s)
check_string rule _ = some (required rule "non-empty string")

abbrev pub bad_email : Rule → Value
bad_email rule =
    make_error rule.field "email"
      (format ("Field '" ∷ rule.field ∷ "' must be a valid email address" ∷ []))

unfoldable pub check_email : Rule → Option Value → Option Value
unfolding make_error is_email format
check_email rule (some (string s)) =
    if s == ""
    then some (required rule "valid email")
    else if is_email s
    then none
    else some (bad_email rule)
check_email rule _ = some (required rule "valid email")

unfoldable pub check_boolean : Rule → Option Value → Option Value
unfolding make_error format
check_boolean rule (some (bool b)) = none
check_boolean rule _ = some (required rule "boolean")

unfoldable pub check_number : Rule → Option Value → Option Value
unfolding make_error format
check_number rule (some (number n)) = none
check_number rule _ = some (required rule "number")

abbrev pub check_kind : Rule → Kind → Option Value → Option Value
check_kind rule string_kind v = check_string rule v
check_kind rule email_kind v = check_email rule v
check_kind rule boolean_kind v = check_boolean rule v
check_kind rule number_kind v = check_number rule v

-- The loop over the rules: the first one that is not met ends it.
unfoldable pub check_rules : List Rule → Fields → Option Value
unfolding check_string check_email check_boolean check_number get_field
check_rules [] obj = none
check_rules (rule ∷ rules) obj = elim (check_kind rule rule.kind (get_field rule.field obj)) [
  | some e ↦ some e
  | none ↦ check_rules rules obj
]

abbrev pub left_by : Value → Option Value → Value
left_by state none = state
left_by state (some e) = e

abbrev pub checked : List Rule → Option Fields → Value → Value
checked rules none state = state
checked rules (some obj) state = left_by state (check_rules rules obj)

-- The fields of the body, if it is an object.
unfoldable pub body_fields : Value → Option Fields
unfolding get
body_fields state = and_then (get "body" state) λ b. as_object b

-- `execute`: the state of the pipeline that it leaves; it answers `Ok` on every path.
unfoldable pub execute : String → Value → Value
unfolding check_rules parse_rules body_fields
execute config state = checked (parse_rules config) (body_fields state) state
