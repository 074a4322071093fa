-- ===== src/Executor/Resolver.antt =====
-- executor/resolver.rs: scoped references, configuration lookup, error envelopes, result branches.
pub mod Errors
pub mod Scoped
use webpipe.Base.{
  ℕ, String, Bool, true, false, not, ◌&&◌, ◌||◌, Option, none, some, List, [], ◌∷◌, ◌==◌, nat_eq,
  if◌then◌else◌, lookup, or_else, and_then, find,
}
use Prim.Native.Char.{code}
use webpipe.Base.Text.{format, trim, split_once, contains, all_chars, is_ascii_alphanumeric}
use webpipe.Json.{
  Value, string, array, object, Items, nil, cons, Fields, end, field, get, get_field, insert_field,
  has_field, as_array, as_str, first,
}
use webpipe.Ast.{SourceLocation, Variable, TagExpr, ResultBranch, ResultBranchType, custom, default}
use webpipe.Ast
use webpipe.Executor.Modules.{get_module}
use webpipe.Executor.Env.{ExecutionEnv, find_variable}
use webpipe.Executor.Tags.{get_result_from_tag_expr}

abbrev is_part_start : ℕ → Bool
is_part_start c = is_ascii_alphanumeric c || nat_eq c b'_'

abbrev pub is_part_char : ℕ → Bool
is_part_char c = is_ascii_alphanumeric c || nat_eq c b'_' || nat_eq c b'-'

unfoldable pub is_valid_identifier_part : String → Bool
unfolding all_chars
is_valid_identifier_part String.[] = false
is_valid_identifier_part (String.◌∷◌ c s) = is_part_start (code c) && all_chars is_part_char s

abbrev pub scoped : String → Option (String × String) → Option String × String
scoped config none = (none, config)
scoped config (some (namespace, name)) =
    if not (contains name "::")
      && is_valid_identifier_part namespace
      && is_valid_identifier_part name
    then (some namespace, name)
    else (none, config)

-- The namespace, if the text is `namespace::name`, and the name; any other text is its own name.
unfoldable pub parse_scoped_ref : String → Option String × String
parse_scoped_ref config = scoped config (split_once "::" (trim config))

-- The input with the variable's name under `resultName`, unless that is there or the input is no
-- object, and whether it was put there.
unfoldable pub auto_name : Variable → Value → Value × Bool
unfolding has_field insert_field
auto_name var (object fs) =
    if has_field "resultName" fs
    then (object fs, false)
    else (object (insert_field "resultName" (string var.name) fs), true)
auto_name var input = (input, false)

abbrev use_variable : String → Value → Option Variable → String × Value × Bool
use_variable config input none = (config, input, false)
use_variable config input (some var) =
    let (named, auto) = auto_name var input in (var.value, named, auto)

module _ {W : Type 0} where
  -- The module that an alias of the step's module stands for.
  unfoldable pub resolve_alias : ExecutionEnv W → SourceLocation → String → Option ℕ
  unfolding get_module lookup
  resolve_alias env location alias =
      and_then location.module_id
        λ id. and_then (get_module env.module_registry id) λ m. lookup alias m.import_map

  scoped_variable : ExecutionEnv W → SourceLocation → String → String → String → Option Variable
  unfolding resolve_alias find_variable
  scoped_variable env location middleware alias name =
      and_then (resolve_alias env location alias)
        λ id. find_variable (some id, middleware, name) env.variables

  -- With the step's module first, and then, if it has one, with none.
  local_variable : ExecutionEnv W → SourceLocation → String → String → Option Variable
  unfolding find_variable
  local_variable env location middleware name =
      or_else (find_variable (location.module_id, middleware, name) env.variables)
        (and_then location.module_id λ _. find_variable (none, middleware, name) env.variables)

  unfoldable pub referenced_variable :
      ExecutionEnv W → SourceLocation → String → Option String × String → Option Variable
  unfolding scoped_variable local_variable
  referenced_variable env location middleware (some alias, name) =
      scoped_variable env location middleware alias name
  referenced_variable env location middleware (none, name) =
      local_variable env location middleware name

  unfoldable pub resolve_config_and_autoname :
      ExecutionEnv W → SourceLocation → String → String → Value → String × Value × Bool
  unfolding auto_name referenced_variable
  resolve_config_and_autoname env location middleware config input =
      use_variable config input
        (referenced_variable env location middleware (parse_scoped_ref config))

unfoldable pub extract_error_type : Value → Option String
unfolding get
extract_error_type input = and_then (get "errors" input) λ errors.
    and_then (as_array errors)
      λ list. and_then (first list) λ error. and_then (get "type" error) as_str

abbrev pub retype_first : String → Items → Items
retype_first t (cons (object error) rest) =
    cons (object (insert_field "type" (string t) error)) rest
retype_first t other = other

abbrev pub retype_errors : String → Fields → Option Value → Value
retype_errors t fs (some (array list)) =
    object (insert_field "errors" (array (retype_first t list)) fs)
retype_errors t fs _ = object fs

-- Writes through `input["errors"][0]["type"]`, where those are an array and an object.
unfoldable pub override_error_type : Value → Option String → Value
unfolding get_field insert_field
override_error_type input none = input
override_error_type (object fs) (some t) = retype_errors t fs (get_field "errors" fs)
override_error_type input (some t) = input

abbrev with_location : Option String → Fields
with_location none = end
with_location (some loc) = field "location" (string loc) end

unfoldable pub make_middleware_error_value : String → String → Option String → Value
unfolding format
make_middleware_error_value name message location = object (
    field "errors"
      (array (
        cons
          (object (
            field "type" (string (format (name ∷ "Error" ∷ []))) (
              field "message" (string message)
                (field "step" (string name) (with_location location)))))
          nil))
      end)

abbrev named_by_state : Value → Bool → Option String × Bool
named_by_state state auto_named = elim (and_then (get "resultName" state) as_str) [
  | none ↦ (none, false)
  | some name ↦ (some name, auto_named)
]

-- The target name, and whether `resultName` is removed after the step.
unfoldable pub determine_target_name : Option TagExpr → Value → Bool → Option String × Bool
unfolding get_result_from_tag_expr get
determine_target_name condition state auto_named =
    elim (and_then condition get_result_from_tag_expr) [
      | some name ↦ (some name, false)
      | none ↦ named_by_state state auto_named
    ]

abbrev pub is_custom : String → ResultBranch → Bool
is_custom e b = elim b.branch_type [ custom name ↦ name == e | _ ↦ false ]

abbrev pub is_ok_branch : ResultBranch → Bool
is_ok_branch b = elim b.branch_type [ ResultBranchType.ok ↦ true | _ ↦ false ]

abbrev pub is_default : ResultBranch → Bool
is_default b = elim b.branch_type [ default ↦ true | _ ↦ false ]

unfoldable pub select_branch : List ResultBranch → Option String → Option ResultBranch
select_branch branches (some e) = or_else (find (is_custom e) branches) (find is_default branches)
select_branch branches none = or_else (find is_ok_branch branches) (find is_default branches)
