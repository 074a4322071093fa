-- ===== src/Executor/Step/Regular/Calls.antt =====
-- executor/step.rs: calls of named pipelines and of middleware.
use webpipe.Base.{String, Option, none, some, List, [], ◌∷◌, or_else, and_then}
use webpipe.Base.Text.{format, trim}
use webpipe.Base.Effect.{Effect, Result, ok, err, pure, throw, lift, gets, zoom, ◌>>=◌}
use webpipe.Json.{Value}
use webpipe.Ast.{Pipeline, SourceLocation}
use webpipe.Executor.Error.{WebPipeError, middleware_execution_error, pipeline_not_found, to_string}
use webpipe.Executor.Context.{PipelineContext, StepResult}
use webpipe.Executor.Env.{ExecutionEnv, Sys, find_pipeline}
use webpipe.Executor.Resolver.{parse_scoped_ref, resolve_alias}
use webpipe.Executor.State.{merged}
use webpipe.Executor.Nested.{Answer, Runs, Nested}

module _ {W : Type 0} (env : ExecutionEnv W) where
  referenced_pipeline : SourceLocation → Option String × String → Option Pipeline
  unfolding resolve_alias find_pipeline
  referenced_pipeline location (some alias, name) =
      find_pipeline (resolve_alias env location alias, name) env.named_pipelines
  referenced_pipeline location (none, name) =
      or_else (find_pipeline (location.module_id, name) env.named_pipelines)
        (and_then location.module_id λ _. find_pipeline (none, name) env.named_pipelines)

  -- An alias that does not resolve is looked up among the pipelines of no module.
  unfoldable pub resolve_named_pipeline : SourceLocation → String → Option Pipeline
  unfolding referenced_pipeline
  resolve_named_pipeline location name = referenced_pipeline location (parse_scoped_ref name)

  abbrev pub argument_failed : WebPipeError → WebPipeError
  argument_failed e =
      middleware_execution_error
        (format ("pipeline argument evaluation failed: " ∷ to_string e ∷ []))

  abbrev pub with_argument : Value → Result WebPipeError Value → Result WebPipeError Value
  with_argument input (ok arg) = ok (merged input arg)
  with_argument input (err e) = err (argument_failed e)

  -- The input of a called pipeline: the step's input, with the first argument over it.
  unfoldable pub pipeline_input : List String → Value → Result WebPipeError Value
  unfolding format merged
  pipeline_input [] input = ok input
  pipeline_input (arg ∷ _) input = with_argument input (env.services.evaluate arg input)

  abbrev pub step_result : Answer → StepResult
  step_result (value, content_type, status) = record {
    value = value;
    content_type = content_type;
    status_code = status;
  }

  unfoldable pub run_found :
      Nested W → List String → String → Value → Option Pipeline → Runs W Answer
  unfolding pipeline_input
  run_found nested args name input none = throw (pipeline_not_found name)
  run_found nested args name input (some p) = do
    v ← lift (pipeline_input args input)
    nested p v none

  -- `handle_recursive_pipeline`
  unfoldable pub handle_recursive_pipeline :
      Nested W → List String → String → SourceLocation → Value → Runs W Answer
  unfolding run_found resolve_named_pipeline
  handle_recursive_pipeline nested args config location input =
      run_found nested args (trim config) input (resolve_named_pipeline location (trim config))

  abbrev or_json : Option String → String
  or_json none = "application/json"
  or_json (some t) = t

  -- `handle_standard_execution`, on a pipeline context of its own.
  unfoldable pub handle_standard_execution :
      String
      → List String
      → String
      → Option String
      → Effect (Sys W × PipelineContext) WebPipeError (Answer × PipelineContext)
  handle_standard_execution name args config target = do
    content_type ← env.services.call name args config target
    after ← gets (λ s. s.1)
    pure ((after.state, or_json content_type, none), after)

  abbrev pub own_context : PipelineContext → Sys W → Sys W × PipelineContext
  own_context pipe sys = (sys, pipe)

  abbrev pub back_to_sys : Sys W × PipelineContext → Sys W → Sys W
  back_to_sys s sys = s.0

  abbrev pub run_middleware :
      String
      → List String
      → String
      → Option String
      → PipelineContext
      → Runs W (Answer × PipelineContext)
  run_middleware name args config target pipe =
      zoom (own_context pipe) back_to_sys (handle_standard_execution name args config target)
