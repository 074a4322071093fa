-- ===== src/Executor/Tags.antt =====
-- executor/tags.rs: when a step runs.
pub mod Laws
use webpipe.Base.{
  String, Bool, true, false, not, ◌&&◌, ◌||◌, Option, none, some, List, [], ◌∷◌, ◌==◌,
  if◌then◌else◌, lookup_or, lookup, or_else,
}
use webpipe.Base.Effect.{Result, ok, err}
use webpipe.Json.{Value}
use webpipe.Ast.{Tag, TagExpr, tag, and, or}
use webpipe.Executor.Error.{WebPipeError}
use webpipe.Executor.Context.{RequestContext}
use webpipe.Executor.Env.{ExecutionEnv, eval_bool}

abbrev pub flip : Bool → Bool → Bool
flip negated b = if negated then not b else b

-- The loops of `check_when_tag` and `check_flag_tag`: every argument must be met, and a name that
-- is not in the map counts as false. No argument: true.
unfoldable pub check_names : Bool → List (String × Bool) → List String → Bool
unfolding lookup
check_names negated known [] = true
check_names negated known (n ∷ ns) =
    flip negated (lookup_or false n known) && check_names negated known ns

abbrev pub guard_result : Bool → Result WebPipeError Bool → Bool
guard_result negated (ok b) = flip negated b
guard_result negated (err _) = false

check_env : Bool → Option String → List String → Bool
check_env negated (some current) (required ∷ []) = flip negated (current == required)
check_env negated none (required ∷ []) = not negated
check_env negated current _ = true

module _ {W : Type 0} where
  unfoldable pub check_when_tag : Tag → RequestContext W → Bool
  unfolding check_names
  check_when_tag t ctx = check_names t.negated ctx.conditions t.args

  unfoldable pub check_flag_tag : Tag → RequestContext W → Bool
  unfolding check_names
  check_flag_tag t ctx = check_names t.negated ctx.feature_flags t.args

  unfoldable pub check_env_tag : Tag → ExecutionEnv W → Bool
  unfolding check_env
  check_env_tag t env = check_env t.negated env.environment t.args

  guard_filter : List String → Bool → ExecutionEnv W → Value → Bool
  guard_filter [] negated env input = true
  guard_filter (filter ∷ _) negated env input =
      guard_result negated (eval_bool env.services filter input)

  unfoldable pub check_guard_tag : Tag → ExecutionEnv W → Value → Bool
  unfolding guard_filter eval_bool
  check_guard_tag t env input = guard_filter t.args t.negated env input

  unfoldable pub check_tag : Tag → ExecutionEnv W → RequestContext W → Value → Bool
  unfolding check_env_tag check_flag_tag check_when_tag check_guard_tag
  check_tag t env ctx input =
      if t.name == "env"
      then check_env_tag t env
      else if t.name == "async"
      then true
      else if t.name == "flag"
      then check_flag_tag t ctx
      else if t.name == "when"
      then check_when_tag t ctx
      else if t.name == "guard"
      then check_guard_tag t env input
      else true

  unfoldable pub check_tag_expr : TagExpr → ExecutionEnv W → RequestContext W → Value → Bool
  unfolding check_tag
  check_tag_expr (tag t) env ctx input = check_tag t env ctx input
  check_tag_expr (and l r) env ctx input =
      check_tag_expr l env ctx input && check_tag_expr r env ctx input
  check_tag_expr (or l r) env ctx input =
      check_tag_expr l env ctx input || check_tag_expr r env ctx input

  unfoldable pub should_execute_step :
      Option TagExpr → ExecutionEnv W → RequestContext W → Value → Bool
  unfolding check_tag_expr
  should_execute_step none env ctx input = true
  should_execute_step (some e) env ctx input = check_tag_expr e env ctx input

-- A non-negated tag of that name with exactly one argument answers the argument.
sole_arg : List String → Option String
sole_arg (a ∷ []) = some a
sole_arg _ = none

abbrev named_arg : String → Tag → Option String
named_arg name t = if t.name == name && not t.negated then sole_arg t.args else none

unfoldable pub get_async_from_tag_expr : TagExpr → Option String
unfolding sole_arg
get_async_from_tag_expr (tag t) = named_arg "async" t
get_async_from_tag_expr (and l r) = or_else (get_async_from_tag_expr l) (get_async_from_tag_expr r)
get_async_from_tag_expr (or l r) = or_else (get_async_from_tag_expr l) (get_async_from_tag_expr r)

unfoldable pub get_result_from_tag_expr : TagExpr → Option String
unfolding sole_arg
get_result_from_tag_expr (tag t) = named_arg "result" t
get_result_from_tag_expr (and l r) =
    or_else (get_result_from_tag_expr l) (get_result_from_tag_expr r)
get_result_from_tag_expr (or l r) =
    or_else (get_result_from_tag_expr l) (get_result_from_tag_expr r)

unfoldable pub get_error_from_tag_expr : TagExpr → Option String
unfolding sole_arg
get_error_from_tag_expr (tag t) = named_arg "error" t
get_error_from_tag_expr (and l r) = or_else (get_error_from_tag_expr l) (get_error_from_tag_expr r)
get_error_from_tag_expr (or l r) = or_else (get_error_from_tag_expr l) (get_error_from_tag_expr r)
