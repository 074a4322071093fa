-- ===== src/Executor/Step/Control.antt =====
-- executor/step.rs: the control-flow steps, and the branches that they run.
pub mod Foreach
use webpipe.Base.{
  ℕ, String, not, Option, none, some, List, [], ◌∷◌, ◌==◌, find, if◌then◌else◌, or_else,
}
use webpipe.Base.Text.{format}
use webpipe.Base.Effect.{pure, throw, gets, update, modify, ◌>>=◌, ◌>>◌}
use webpipe.Json.{Value, null, array, object, items, elements, get, has_field, insert_field}
use webpipe.Json.Path.{get_value, set_value}
use webpipe.Ast.{
  Pipeline, ResultBranch, DispatchBranch, ResultBranches, DispatchBranches, OptPipeline, optional,
  result_branches, dispatch_branches,
}
use webpipe.Executor.Error.{WebPipeError, middleware_execution_error}
use webpipe.Executor.Context.{PipelineOutput, StepOutcome, continue, return}
use webpipe.Executor.Env.{ExecutionEnv, truthy}
use webpipe.Executor.Tags.{check_tag_expr}
use webpipe.Executor.Resolver.{extract_error_type, select_branch}
use webpipe.Executor.Step.{StepState, set_state, take_state}
use webpipe.Executor.Nested.{Answer, Runs, Steps, Nested, on_sys}

abbrev pub merged_output : String → Option ℕ → PipelineOutput → PipelineOutput
merged_output content_type status out = record out {
  content_type = if content_type == "application/json" then out.content_type else content_type;
  status_code = or_else status out.status_code;
}

module _ {W : Type 0} (env : ExecutionEnv W) (nested : Nested W) where
  abbrev pub branch_answer : Answer → StepState W → StepState W
  branch_answer (value, content_type, status) s = record (set_state value s) {
    output = merged_output content_type status s.output;
  }

  unfoldable pub execute_branch : Pipeline → Steps W (Unit {0})
  unfolding take_state
  execute_branch p = do
    input ← update take_state
    answer ← on_sys (nested p input none)
    modify (branch_answer answer)

  unfoldable pub execute_optional : Option Pipeline → Steps W (Unit {0})
  unfolding execute_branch
  execute_optional none = pure tt
  execute_optional (some p) = execute_branch p

  unfoldable pub handle_if_step : Pipeline → Pipeline → OptPipeline → Steps W StepOutcome
  unfolding execute_optional
  handle_if_step condition then_branch else_branch = do
    state ← gets (λ s. s.pipe.state)
    (value, _, _) ← on_sys (nested condition state none)
    execute_optional (if truthy value then some then_branch else optional else_branch)
    pure continue

  abbrev pub chosen : Option Pipeline → Option DispatchBranch → Option Pipeline
  chosen default none = default
  chosen default (some b) = some b.pipeline

  -- The pipeline of the first branch whose condition holds, or else the default.
  unfoldable pub matched_pipeline :
      List DispatchBranch → Option Pipeline → StepState W → Option Pipeline
  unfolding check_tag_expr
  matched_pipeline branches default s =
      chosen default (find (λ b. check_tag_expr b.condition env s.sys.req s.pipe.state) branches)

  unfoldable pub handle_dispatch_step : DispatchBranches → OptPipeline → Steps W StepOutcome
  unfolding execute_optional matched_pipeline dispatch_branches
  handle_dispatch_step branches default = do
    matched ← gets (matched_pipeline (dispatch_branches branches) (optional default))
    execute_optional matched
    pure continue

  -- The loop of `handle_foreach_step`.
  unfoldable pub foreach_items : Pipeline → List Value → Runs W (List Value)
  foreach_items p [] = pure []
  foreach_items p (item ∷ rest) = do
    (value, _, _) ← nested p item none
    values ← foreach_items p rest
    pure (value ∷ values)

  -- Writes through `get_value_mut`, if the path is there.
  unfoldable pub write_at : String → Value → StepState W → StepState W
  unfolding set_value
  write_at selector v s = elim (set_value s.pipe.state selector v) [
    | none ↦ s
    | some state ↦ set_state state s
  ]

  -- `get_value_mut(..).map(|val| val.take())`
  unfoldable pub take_at : String → StepState W → StepState W × Option Value
  unfolding write_at get_value
  take_at selector s = (write_at selector null s, get_value s.pipe.state selector)

  abbrev pub no_array : String → WebPipeError
  no_array selector =
      middleware_execution_error
        (format ("foreach: path '" ∷ selector ∷ "' is not an array or does not exist" ∷ []))

  unfoldable pub foreach_taken : String → Pipeline → Option Value → Steps W StepOutcome
  unfolding foreach_items write_at elements items format
  foreach_taken selector p (some (array vs)) = do
    values ← on_sys (foreach_items p (elements vs))
    modify (write_at selector (array (items values)))
    pure continue
  foreach_taken selector p other = throw (no_array selector)

  unfoldable pub handle_foreach_step : String → Pipeline → Steps W StepOutcome
  unfolding foreach_taken take_at
  handle_foreach_step selector p = do
    taken ← update (take_at selector)
    foreach_taken selector p taken

  -- The cookies of the state before, unless the result has its own.
  unfoldable pub inherit_cookies : Option Value → Value → Value
  unfolding has_field insert_field
  inherit_cookies (some cookies) (object fs) =
      if has_field "setCookies" fs then object fs else object (insert_field "setCookies" cookies fs)
  inherit_cookies _ result = result

  abbrev pub branch_output : ℕ → String → Value → StepState W → PipelineOutput
  branch_output status content_type result s = record {
    state = result;
    content_type =
        if content_type == "application/json" then s.output.content_type else content_type;
    status_code = some status;
  }

  unfoldable pub run_branch : Option ResultBranch → Steps W StepOutcome
  unfolding take_state extract_error_type inherit_cookies get
  run_branch none = do
    out ← gets (λ s.
        let unchanged : PipelineOutput = record {
          state = s.pipe.state;
          content_type = s.output.content_type;
          status_code = s.output.status_code;
        } in
        unchanged)
    pure (return out)
  run_branch (some b) = do
    input ← update take_state
    (value, content_type, _) ← on_sys (nested b.pipeline input (extract_error_type input))
    let result = inherit_cookies (get "setCookies" input) value
    modify (set_state result)
    out ← gets (branch_output b.status_code content_type result)
    pure (return out)

  unfoldable pub handle_result_step : ResultBranches → Steps W StepOutcome
  unfolding run_branch select_branch result_branches extract_error_type
  handle_result_step branches = do
    selected ←
        gets (λ s. select_branch (result_branches branches) (extract_error_type s.pipe.state))
    run_branch selected
