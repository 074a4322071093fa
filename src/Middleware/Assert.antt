-- ===== src/Middleware/Assert.antt =====
-- middleware/assert.rs: the schemas, and the check of a value against one. The parser of the schemas
-- is not modelled.
mod Decided
mod Checks
pub mod Laws
mod Tests
use webpipe.Base.{
  ℕ, suc, ◌+◌, String, Bool, true, false, Option, none, some, List, [], ◌∷◌, ◌++◌, ◌==◌, ltb,
  if◌then◌else◌,
}
use webpipe.Base.Text.{format, decimal, strip_prefix}
use webpipe.Json.{
  Value, Items, Fields, null, bool, number, string, array, object, cons, nil, field, end, get_field,
}
use webpipe.Executor.Context.{join}
use webpipe.Middleware.Validate.{char_count, is_email}

mutual
  pub data AssertSchema : Type 0 where
    unknown_schema null_schema bool_schema number_schema email_schema : AssertSchema
    string_schema : Option ℕ → Option ℕ → AssertSchema
    literal_schema : Value → AssertSchema
    array_schema : AssertSchema → AssertSchema
    object_schema : ObjectFields → AssertSchema
    union_schema : Schemas → AssertSchema

  -- The list of the fields of an object: a name, whether it is optional, and its schema.
  pub data ObjectFields : Type 0 where
    no_field : ObjectFields
    object_field : String → Bool → AssertSchema → ObjectFields → ObjectFields

  pub data Schemas : Type 0 where
    no_schema : Schemas
    or_schema : AssertSchema → Schemas → Schemas

pub record ValidationIssue : Type 0 where
  pub path : String
  pub message : String

-- `Result<(), ValidationIssue>`: no issue is `Ok`.
abbrev pub Checked : Type 0
Checked = Option ValidationIssue

abbrev pub issue : String → String → Checked
issue path message = some (record { path = path; message = message })

abbrev pub type_name : Value → String
type_name null = "null"
type_name (bool _) = "boolean"
type_name (number _) = "number"
type_name (string _) = "string"
type_name (array _) = "array"
type_name (object _) = "object"

unfoldable pub type_issue : String → String → Value → Checked
unfolding format
type_issue path expected actual =
    issue path (format ("Expected " ∷ expected ∷ " at " ∷ path ∷ ", got " ∷ type_name actual ∷ []))

-- `?` between two checks
abbrev pub and_check : Checked → Checked → Checked
and_check none later = later
and_check (some e) later = some e

abbrev pub check_min : String → ℕ → Option ℕ → Checked
check_min path len none = none
check_min path len (some n) =
    if ltb len n
    then issue path (
        format ("Expected string at " ∷ path ∷ " to be at least " ∷ decimal n ∷ " characters" ∷ []))
    else none

abbrev pub check_max : String → ℕ → Option ℕ → Checked
check_max path len none = none
check_max path len (some n) =
    if ltb n len
    then issue path
        (format ("Expected string at " ∷ path ∷ " to be at most " ∷ decimal n ∷ " characters" ∷ []))
    else none

unfoldable pub check_string : Option ℕ → Option ℕ → Value → String → Checked
unfolding char_count format decimal type_issue
check_string min max (string s) path =
    and_check (check_min path (char_count s) min) (check_max path (char_count s) max)
check_string min max value path = type_issue path "string" value

unfoldable pub check_email : Value → String → Checked
unfolding is_email format type_issue
check_email (string s) path =
    if is_email s then none else issue path (format ("Expected valid email at " ∷ path ∷ []))
check_email value path = type_issue path "email string" value

abbrev pub check_null : Value → String → Checked
check_null null path = none
check_null value path = type_issue path "null" value

abbrev pub check_bool : Value → String → Checked
check_bool (bool _) path = none
check_bool value path = type_issue path "boolean" value

abbrev pub check_number : Value → String → Checked
check_number (number _) path = none
check_number value path = type_issue path "number" value

-- `{path}[{idx}]`
unfoldable pub item_path : String → ℕ → String
unfolding format decimal
item_path path idx = format (path ∷ "[" ∷ decimal idx ∷ "]" ∷ [])

-- `$.{name}` and `{path}.{name}` are built alike.
unfoldable pub child_path : String → String → String
unfolding format
child_path path name =
    if path == "$" then format ("$." ∷ name ∷ []) else format (path ∷ "." ∷ name ∷ [])

-- The loop over the items of an array, on the check of one.
unfoldable pub check_items : (Value → String → Checked) → String → ℕ → Items → Checked
unfolding item_path
check_items check path idx nil = none
check_items check path idx (cons item more) =
    and_check (check item (item_path path idx)) (check_items check path (suc idx) more)

abbrev pub check_array : (Value → String → Checked) → Value → String → Checked
check_array check (array vs) path = check_items check path 0 vs
check_array check value path = type_issue path "array" value

abbrev pub check_object : (Fields → String → Checked) → Value → String → Checked
check_object check (object obj) path = check obj path
check_object check value path = type_issue path "object" value

unfoldable pub missing : String → Bool → Checked
unfolding format
missing path true = none
missing path false = issue path (format ("Missing required field " ∷ path ∷ []))

abbrev pub check_child : (Value → String → Checked) → Bool → Option Value → String → Checked
check_child check optional (some child) path = check child path
check_child check optional none path = missing path optional

unfoldable pub union_issue : String → List String → Checked
unfolding join format
union_issue path messages =
    issue path
      (format ("Value at " ∷ path ∷ " did not match any union member: " ∷ join "; " messages ∷ []))

-- A member that matches ends the check; the message of one that does not is kept for the next.
abbrev pub or_check : List String → Checked → (List String → Checked) → Checked
or_check messages none later = none
or_check messages (some e) later = later (messages ++ e.message ∷ [])

abbrev pub or_whole_path : String → Option String → String
or_whole_path path none = path
or_whole_path path (some rest) = rest

unfoldable pub make_assertion_error : String → String → Value
unfolding strip_prefix
make_assertion_error path message =
    let name = or_whole_path path (strip_prefix "$." path) in
    object (
      field "errors"
        (array (
          cons
            (object (
              field "type" (string "assertionError") (
                field "field" (string name) (
                  field "context" (string name) (
                    field "rule" (string "assert") (
                      field "code" (string "assert_failed")
                        (field "message" (string message) end)))))))
            nil))
        end)

abbrev pub left_by : Value → Checked → Value
left_by state none = state
left_by state (some e) = make_assertion_error e.path e.message

-- `value_eq` is `==` of serde_json, `debug` Rust's `{:?}` of a text, `print` the text of a value.
module _ (value_eq : Value → Value → Bool) (debug : String → String) (print : Value → String) where
  abbrev pub display_json : Value → String
  display_json (string s) = debug s
  display_json value = print value

  unfoldable pub check_literal : Value → Value → String → Checked
  unfolding format
  check_literal expected value path =
      if value_eq value expected
      then none
      else issue path (
          format (
            "Expected literal "
            ∷ display_json expected
            ∷ " at "
            ∷ path
            ∷ ", got "
            ∷ type_name value
            ∷ []))

  unfoldable mutual
    unfolding check_string check_email check_items check_literal get_field union_issue child_path

    pub validate_value : AssertSchema → Value → String → Checked
    validate_value unknown_schema value path = none
    validate_value null_schema value path = check_null value path
    validate_value bool_schema value path = check_bool value path
    validate_value number_schema value path = check_number value path
    validate_value email_schema value path = check_email value path
    validate_value (string_schema min max) value path = check_string min max value path
    validate_value (literal_schema expected) value path = check_literal expected value path
    validate_value (array_schema item) value path =
        check_array (λ v p. validate_value item v p) value path
    validate_value (object_schema fields) value path =
        check_object (λ obj p. validate_fields fields obj p) value path
    validate_value (union_schema options) value path = validate_union options value path []

    pub validate_fields : ObjectFields → Fields → String → Checked
    validate_fields no_field obj path = none
    validate_fields (object_field name optional schema more) obj path =
        and_check
          (check_child (λ v p. validate_value schema v p) optional (get_field name obj)
            (child_path path name))
          (validate_fields more obj path)

    pub validate_union : Schemas → Value → String → List String → Checked
    validate_union no_schema value path messages = union_issue path messages
    validate_union (or_schema option more) value path messages =
        or_check messages (validate_value option value path)
          (λ messages'. validate_union more value path messages')

  -- `execute` behind the parser: the state that a schema leaves.
  unfoldable pub asserted : AssertSchema → Value → Value
  unfolding validate_value make_assertion_error
  asserted schema state = left_by state (validate_value schema state "$")
