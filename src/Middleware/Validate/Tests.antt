-- ===== src/Middleware/Validate/Tests.antt =====
-- The rules of the tests of middleware/validate.rs.
use webpipe.Base.{String, none, some, [], ◌∷◌, ◌≡◌, refl, ◌⊎◌, All}
use webpipe.Base.Text.{
  trim, split, split_once, parse_u64, starts_with, contains, strip_prefix, is_whitespace,
}
use webpipe.Json.{Value, Fields, string, number, object, field, end, get}
use webpipe.Ast.Fmt.{lines, text_lines}
use webpipe.Middleware.RateLimit.{strip_suffix}
use webpipe.Middleware.Validate.{
  string_kind, number_kind, parse_rules, rules_of, rule_of, string_bounds, before_last, parse_range,
  trim_wrapping_braces, trim_commas, execute, body_fields,
}
use webpipe.Middleware.Validate.Laws.{Meets, IsError, execute_validates}

abbrev config : String
config = "{ name: string(2..4),\n age: number }"

abbrev fields : Fields
fields = field "name" (string "abcde") (field "age" (number "7") end)

abbrev state : Value
state = object (field "body" (object fields) end)

rules :
    parse_rules config
    ≡ record { field = "name"; kind = string_kind; min = some 2; max = some 4 }
      ∷ record { field = "age"; kind = number_kind; min = none; max = none }
      ∷ []
unfolding parse_rules rules_of rule_of string_bounds before_last parse_range trim_wrapping_braces
    trim_commas lines text_lines split split_once strip_prefix strip_suffix starts_with contains
    trim is_whitespace parse_u64
rules = refl

execute_validates_example :
    (All (Meets fields) (parse_rules config) × (execute config state ≡ state))
    ⊎ ((¬ All (Meets fields) (parse_rules config)) × IsError (execute config state))
unfolding body_fields get
execute_validates_example = execute_validates config state fields refl
