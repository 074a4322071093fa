-- ===== src/Executor/Step/Regular.antt =====
-- executor/step.rs: the execution of a regular step, and its four modes.
pub mod Calls
pub mod Join
use webpipe.Base.{ℕ, String, Bool, Option, none, some, List, ◌++◌, ◌==◌, if◌then◌else◌, and_then}
use webpipe.Base.Text.{trim}
use webpipe.Base.Effect.{pure, gets, update, modify, diverge, ◌>>=◌, ◌>>◌}
use webpipe.Json.{Value}
use webpipe.Ast
use webpipe.Ast.{SourceLocation, TagExpr}
use webpipe.Executor.Context.{
  PipelineContext, new_pipeline_context, StepOutcome, continue, ExecutionMode, standard, async,
  join_mode, recursive,
}
use webpipe.Executor.Env.{ExecutionEnv}
use webpipe.Executor.Tags.{should_execute_step, get_error_from_tag_expr}
use webpipe.Executor.Tasks.{register}
use webpipe.Executor.Resolver.{
  resolve_config_and_autoname, determine_target_name, override_error_type,
}
use webpipe.Executor.Step.{
  StepState, set_req, set_state, is_effectively_last_step, detect_execution_mode, effective_name,
  raw_config, apply_result_to_state, update_metadata, check_cache_stop, cleanup, log_call, step_id,
}
use webpipe.Executor.Nested.{Answer, Steps, Nested, on_sys}
unfoldable pub use Calls.{
  resolve_named_pipeline, argument_failed, with_argument, pipeline_input, step_result, run_found,
  handle_recursive_pipeline, handle_standard_execution, own_context, back_to_sys, run_middleware,
}
unfoldable pub use Join.{
  task_answer, locate, task_body, own_request, back_to_world, await, merge_samples, joined_value,
  take_task, join_found, join_all, with_async, join_names, handle_join,
}

module _ {W : Type 0} (env : ExecutionEnv W) where
  -- `spawn_async_step`: the task is registered and does not run yet.
  unfoldable pub spawn_async_step : Ast.Regular → String → StepState W → StepState W
  unfolding register effective_name raw_config
  spawn_async_step r async_name s =
      set_req
        (register s.sys.req async_name (record {
          name = effective_name env r;
          args = r.args;
          config = raw_config env r;
          location = r.location;
          input = s.pipe.state;
        }))
        s

  -- What a middleware left in its own context: cache saves that are pending, and a cache hit.
  unfoldable pub absorb : PipelineContext → StepState W → StepState W
  absorb temp s = record s {
    pipe = record s.pipe {
      pending_cache_saves = s.pipe.pending_cache_saves ++ temp.pending_cache_saves;
      cache_hit = temp.cache_hit;
    };
  }

  abbrev pub step_context : SourceLocation → ℕ → Value → PipelineContext
  step_context location idx input = record (new_pipeline_context input) {
    current_step_id = some (step_id location idx);
  }

  -- `Async` does not reach this code: `execute` has spawned the task.
  unfoldable pub run_core_logic :
      Nested W
      → ℕ
      → Ast.Regular
      → ExecutionMode
      → String
      → String
      → Value
      → Option String
      → Steps W Answer
  unfolding handle_join handle_recursive_pipeline handle_standard_execution absorb
  run_core_logic nested idx r join_mode name config input target =
      on_sys (handle_join env nested config r.parsed_join_targets input)
  run_core_logic nested idx r recursive name config input target =
      on_sys (handle_recursive_pipeline env nested r.args config r.location input)
  run_core_logic nested idx r standard name config input target = do
    (answer, temp) ←
        on_sys (run_middleware env name r.args config target (step_context r.location idx input))
    modify (absorb temp)
    pure answer
  run_core_logic nested idx r (async _) name config input target = diverge

  abbrev pub finish_step : Bool → Option StepOutcome → Steps W StepOutcome
  finish_step should_cleanup (some outcome) = pure outcome
  finish_step should_cleanup none = do modify (cleanup should_cleanup); pure continue

  abbrev pub log_pipeline : String → String → Value → StepState W → StepState W
  log_pipeline name config input s =
      if name == "pipeline" then log_call (trim config) input s else s

  abbrev pub named_state : Bool → Value → StepState W → StepState W
  named_state auto_named input s = if auto_named then set_state input s else s

  abbrev pub retyped : Option TagExpr → Value → Value
  retyped condition v = override_error_type v (and_then condition get_error_from_tag_expr)

  -- Steps 4 to 9 of `execute`: all but the guard and the asynchronous path.
  unfoldable pub execute_now :
      Nested W
      → ℕ
      → Ast.Regular
      → ExecutionMode
      → Bool
      → String × Value × Bool
      → Steps W StepOutcome
  unfolding run_core_logic
  execute_now nested idx r mode last (config, input, auto_named) = do
    modify (log_pipeline (effective_name env r) config input)
    modify (named_state auto_named input)
    (target, should_cleanup) ← gets (λ s. determine_target_name r.condition s.pipe.state auto_named)
    (value, content_type, status) ←
        run_core_logic nested idx r mode (effective_name env r) config input target
    modify
        (apply_result_to_state env (effective_name env r) (retyped r.condition value) target last)
    modify (update_metadata (effective_name env r) content_type status last)
    stop ← update check_cache_stop
    finish_step should_cleanup stop

  unfoldable pub execute_in_mode :
      Nested W → ℕ → Ast.Regular → Bool → ExecutionMode → Steps W StepOutcome
  unfolding execute_now spawn_async_step
  execute_in_mode nested idx r last (async name) = do
    modify (spawn_async_step r name)
    pure continue
  execute_in_mode nested idx r last mode = do
    state ← gets (λ s. s.pipe.state)
    execute_now nested idx r mode last
        (resolve_config_and_autoname env r.location (effective_name env r) (raw_config env r) state)

  -- `RegularStepExecutor::execute`
  unfoldable pub execute : Nested W → ℕ → List Ast.PipelineStep → Ast.Regular → Steps W StepOutcome
  unfolding execute_in_mode
  execute nested idx all r = do
    runs ← gets (λ s. should_execute_step r.condition env s.sys.req s.pipe.state)
    last ← gets (λ s. is_effectively_last_step idx all env s.sys.req s.pipe.state)
    if runs
        then execute_in_mode nested idx r last
            (detect_execution_mode (effective_name env r) r.condition)
        else pure continue
