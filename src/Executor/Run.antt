-- ===== src/Executor/Run.antt =====
-- executor/mod.rs: one step of any kind, and a pipeline. A pipeline may call itself by its name, so
-- `execute_pipeline` takes fuel: the depth of pipelines within pipelines that it may reach.
pub mod Stack
pub mod Errors
pub mod Replay
pub mod Ends
use webpipe.Base.{
  ℕ, zero, suc, ◌+◌, ◌-◌, String, Bool, true, false, not, ◌&&◌, ◌||◌, Option, none, some, List, [],
  ◌∷◌, ◌==◌, leb, if◌then◌else◌, is_some,
}
use webpipe.Base.Effect.{pure, throw, gets, modify, diverge, zoom, rescue, finally, ◌>>=◌, ◌>>◌}
use webpipe.Json.{Value, null}
use webpipe.Ast
use webpipe.Ast.{PipelineStep, regular, result, if_else, dispatch, foreach, steps}
use webpipe.Executor.Error.{WebPipeError, located, middleware_execution_error, with_source_location}
use webpipe.Executor.Context.{
  new_pipeline_context, PipelineOutput, StepOutcome, continue, return, PendingCacheSave,
  CachedResponse, Profiler, push, pop, record_sample,
}
use webpipe.Executor.Env.{ExecutionEnv, Sys}
use webpipe.Executor.Resolver.{extract_error_type, make_middleware_error_value}
use webpipe.Executor.Step.{StepState, set_state, determine_step_name}
use webpipe.Executor.Step.Regular.{execute, retyped}
use webpipe.Executor.Step.Control.{
  handle_if_step, handle_dispatch_step, handle_foreach_step, handle_result_step,
}
use webpipe.Executor.Nested.{Answer, Steps, Nested}

-- The message and the location of a middleware failure, which becomes an error envelope.
unfoldable pub extract_middleware_failure : WebPipeError → Option (String × Option String)
extract_middleware_failure (middleware_execution_error m) = some (m, none)
extract_middleware_failure (located l (middleware_execution_error m)) = some (m, some l)
extract_middleware_failure _ = none

module _ {W : Type 0} (env : ExecutionEnv W) where
  unfoldable pub failed_as :
      Ast.Regular → WebPipeError → Option (String × Option String) → Steps W StepOutcome
  failed_as r e none = throw e
  failed_as r e (some (message, location)) = do
    modify
        (set_state (retyped env r.condition (make_middleware_error_value r.name message location)))
    pure continue

  -- How `execute_step` goes on from an error of a regular step.
  unfoldable pub handle_failure : Ast.Regular → WebPipeError → Steps W StepOutcome
  unfolding failed_as extract_middleware_failure
  handle_failure r e =
      let e' = with_source_location e r.location in failed_as r e' (extract_middleware_failure e')

  abbrev pub profiled : (Profiler → Profiler) → StepState W → StepState W
  profiled f s = record s {
    sys = record s.sys { req = record s.sys.req { profiler = f s.sys.req.profiler } };
  }

  abbrev pub now : StepState W → ℕ
  now s = env.services.micros s.sys.world

  abbrev pub end_profiling : ℕ → StepState W → StepState W
  end_profiling start s = profiled (λ p. pop (record_sample p (now s - start))) s

  module _ (nested : Nested W) where
    unfoldable pub dispatch_step : ℕ → List PipelineStep → PipelineStep → Steps W StepOutcome
    unfolding handle_failure execute handle_if_step handle_dispatch_step handle_foreach_step
        handle_result_step
    dispatch_step idx all (regular r) = rescue (execute env nested idx all r) (handle_failure r)
    dispatch_step idx all (result branches _) = handle_result_step env nested branches
    dispatch_step idx all (if_else c t e _) = handle_if_step env nested c t e
    dispatch_step idx all (dispatch branches default _) =
        handle_dispatch_step env nested branches default
    dispatch_step idx all (foreach selector p _) = handle_foreach_step env nested selector p

    -- No debugger is attached.
    unfoldable pub execute_step : ℕ → List PipelineStep → PipelineStep → Steps W StepOutcome
    unfolding dispatch_step push pop record_sample
    execute_step idx all s = do
      modify (profiled (λ p. push p (determine_step_name s)))
      start ← gets now
      finally (dispatch_step idx all s) (end_profiling start)

abbrev pub same_type : Option String → Option String → Bool
same_type none none = true
same_type (some a) (some b) = a == b
same_type _ _ = false

-- The error type that a pipeline still handles: it is forgotten once the state shows another.
abbrev pub still_handled : Option String → Option String → Option String
still_handled handled current = if same_type handled current then handled else none

abbrev pub is_result : PipelineStep → Bool
is_result (result _ _) = true
is_result _ = false

-- A state that shows an unhandled error skips every step but `result`.
abbrev pub skips : Option String → Option String → PipelineStep → Bool
skips handled current s = is_some current && not (is_some handled) && not (is_result s)

abbrev pub is_server_error : Option ℕ → Bool
is_server_error none = false
is_server_error (some s) = leb 500 s

module _ {W : Type 0} (env : ExecutionEnv W) where
  unfoldable pub release_all : List PendingCacheSave → W → W
  release_all [] w = w
  release_all (save ∷ saves) w =
      release_all saves (if save.refreshing then env.services.clear_refresh save.key w else w)

  unfoldable pub store_all : List PendingCacheSave → CachedResponse → W → W
  store_all [] response w = w
  store_all (save ∷ saves) response w =
      store_all saves response (env.services.put_response save.key response (some save.ttl) w)

  -- Error envelopes and server errors are not cached; their refresh slots are released.
  unfoldable pub run_pending_cache_saves : List PendingCacheSave → Value → String → Option ℕ → W → W
  unfolding release_all store_all extract_error_type
  run_pending_cache_saves saves state content_type status w =
      if is_some (extract_error_type state) || is_server_error status
      then release_all saves w
      else store_all saves
          (record { body = state; content_type = content_type; status_code = status }) w

  abbrev pub save_all : PipelineOutput → StepState W → StepState W
  save_all out s = record s {
    sys = record s.sys {
      world =
          run_pending_cache_saves s.pipe.pending_cache_saves out.state out.content_type
            out.status_code s.sys.world;
    };
    pipe = record s.pipe { pending_cache_saves = [] };
  }

  abbrev pub final_output : StepState W → PipelineOutput
  final_output s = record s.output { state = s.pipe.state }

  unfoldable pub finish : PipelineOutput → Steps W Answer
  unfolding run_pending_cache_saves
  finish out = do modify (save_all out); pure (out.state, out.content_type, out.status_code)

  unfoldable pub proceed : Steps W Answer → StepOutcome → Steps W Answer
  unfolding finish
  proceed rest continue = rest
  proceed rest (return out) = finish out

  module _ (nested : Nested W) (all : List PipelineStep) where
    -- The loop over the steps; `out` of the state is the tracked output.
    unfoldable pub run_steps : ℕ → List PipelineStep → Option String → Steps W Answer
    unfolding proceed
    run_steps idx [] handled = do out ← gets final_output; finish out
    run_steps idx (s ∷ rest) handled = do
      current ← gets (λ st. extract_error_type st.pipe.state)
      let handled' = still_handled handled current
      let remaining = run_steps (idx + 1) rest handled'
      if skips handled' current s
          then remaining
          else do outcome ← execute_step env nested idx all s; proceed remaining outcome

  abbrev pub initial : Value → Sys W → StepState W
  initial input sys = record {
    sys = sys;
    pipe = new_pipeline_context input;
    output = record { state = null; content_type = "application/json"; status_code = none };
  }

  abbrev pub final_sys : StepState W → Sys W → Sys W
  final_sys s sys = s.sys

  -- One pipeline, with `nested` for the pipelines that its steps run.
  unfoldable pub pipeline_once : Nested W → Nested W
  unfolding run_steps steps
  pipeline_once nested p input handled =
      zoom (initial input) final_sys (run_steps nested (steps p) 0 (steps p) handled)

  -- `execute_pipeline_internal_with_error_short_circuit`
  unfoldable pub execute_pipeline : ℕ → Nested W
  unfolding pipeline_once
  execute_pipeline zero p input handled = diverge
  execute_pipeline (suc fuel) p input handled =
      pipeline_once (execute_pipeline fuel) p input handled
