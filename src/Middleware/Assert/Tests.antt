-- ===== src/Middleware/Assert/Tests.antt =====
-- A schema of the tests of middleware/assert.rs, on a state with a role that is not a text.
use webpipe.Base.{String, Bool, true, false, none, some, ◌≡◌, refl, ◌↔◌, ◌==◌}
use webpipe.Base.Text.{format, decimal, strip_prefix}
use webpipe.Json.{Value, null, number, string, array, object, cons, nil, field, end, get_field}
use webpipe.Middleware.Validate.{char_count}
use webpipe.Middleware.Assert.{
  AssertSchema, null_schema, string_schema, literal_schema, array_schema, object_schema,
  union_schema, no_field, object_field, no_schema, or_schema, ValidationIssue, validate_value,
  asserted, check_string, check_items, check_literal, type_issue, item_path, child_path, missing,
  make_assertion_error,
}
use webpipe.Middleware.Assert.Decided.{Under}
use webpipe.Middleware.Assert.Laws.{Conforms, validate_value-Conforms}

abbrev any_string : AssertSchema
any_string = string_schema none none

abbrev schema : AssertSchema
schema = object_schema (
    object_field "type" false (literal_schema (string "ready")) (
      object_field "email" true any_string (
        object_field "name" false
          (union_schema (or_schema any_string (or_schema null_schema no_schema)))
          (object_field "roles" false (array_schema any_string) no_field))))

abbrev state : Value
state = object (
    field "type" (string "ready") (
      field "name" null
        (field "roles" (array (cons (string "admin") (cons (number "7") nil))) end)))

abbrev same_text : Value → Value → Bool
same_text (string s) (string t) = s == t
same_text _ _ = false

abbrev quote : String → String
quote s = s

abbrev nothing : Value → String
nothing v = ""

bad_role :
    asserted same_text quote nothing schema state
    ≡ make_assertion_error "$.roles[1]" "Expected string at $.roles[1], got number"
unfolding asserted validate_value check_string check_items check_literal type_issue item_path
    child_path missing get_field format decimal make_assertion_error strip_prefix char_count
bad_role = refl

validate_value-Conforms_example :
    ((validate_value same_text quote nothing schema state "$" ≡ none)
      ↔ Conforms same_text quote nothing schema state)
    × ((e : ValidationIssue)
        → validate_value same_text quote nothing schema state "$" ≡ some e
        → Under "$" e.path)
validate_value-Conforms_example = validate_value-Conforms same_text quote nothing schema state "$"
