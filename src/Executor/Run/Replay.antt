-- ===== src/Executor/Run/Replay.antt =====
-- executor/step.rs and executor/mod.rs: a pipeline whose `cache` step finds a response.
use webpipe.Base.{
  ℕ, String, Bool, true, false, Option, none, some, List, ◌∷◌, ◌≡◌, refl, ap, ◌∙◌, or_else, arith,
  ◌==◌,
}
use webpipe.Base.Effect.{ok, zoom, rescue, finally, ◌>>=◌}
use webpipe.Json.{Value}
use webpipe.Ast.{Regular, PipelineStep, regular}
use webpipe.Executor.Context.{
  push, PipelineContext, RequestContext, CachedResponse, PipelineOutput, return, standard,
  StateBehavior,
}
use webpipe.Executor.Env.{ExecutionEnv, Sys}
use webpipe.Executor.State.{update_pipeline_state}
use webpipe.Executor.Tags.{should_execute_step}
use webpipe.Executor.Resolver.{
  resolve_config_and_autoname, determine_target_name, extract_error_type,
}
use webpipe.Executor.Step.{
  StepState, set_state, determine_step_name, effective_name, raw_config, detect_execution_mode,
  apply_result_to_state, behavior_or_merge, updated_output, update_metadata, check_cache_stop,
  is_effectively_last_step,
}
use webpipe.Executor.Step.Regular.{
  execute, execute_in_mode, execute_now, run_core_logic, handle_standard_execution, absorb,
  step_context, retyped,
}
use webpipe.Executor.Nested.{Nested}
use webpipe.Executor.Run.{
  run_steps, execute_step, dispatch_step, proceed, finish, profiled, save_all, end_profiling, now,
}

updated-hit :
    (pipe : PipelineContext) (v : Value) (b : StateBehavior) (last : Bool)
    → (update_pipeline_state pipe v b last).cache_hit ≡ pipe.cache_hit
unfolding update_pipeline_state
updated-hit pipe v b last = ground arith

module _ {W : Type 0} (env : ExecutionEnv W) where
  applied-hit :
      (name : String) (v : Value) (target : Option String) (last : Bool) (s : StepState W)
      → ((apply_result_to_state env name v target last s).pipe.cache_hit ≡ s.pipe.cache_hit)
        × ((apply_result_to_state env name v target last s).output ≡ s.output)
  unfolding apply_result_to_state
  applied-hit name v none last s = (updated-hit s.pipe v _ last, refl)
  applied-hit name v (some t) last s =
      let plain = updated-hit s.pipe v (behavior_or_merge (env.services.get_behavior name)) last in
      (ground (arith, plain), ground arith)

module _ {W : Type 0} (env : ExecutionEnv W) (nested : Nested W) (idx : ℕ) (r : Regular)
    (hit : CachedResponse) where
  -- The middleware of the step finds the response, whatever the request's context holds.
  abbrev pub Finds : String → Value → W → Type 0
  Finds config input w =
      (target : Option String) (req : RequestContext W)
      → (sys' : Sys W) × (temp : PipelineContext) × (env.services.call r.name r.args config target
            (record { world = w; req = req }, step_context env r.location idx input)
          ≡ some ((sys', temp), ok none))
        × (temp.cache_hit ≡ some hit)

  -- The response as the end of a pipeline: with the status of the pipeline, if it has none itself.
  abbrev pub replayed : StepState W → PipelineOutput
  replayed s = record {
    state = hit.body;
    content_type = hit.content_type;
    status_code = or_else hit.status_code s.output.status_code;
  }

  core_found :
      (name config : String) (input : Value) (target : Option String) (st : StepState W)
      → name ≡ r.name
      → Finds config input st.sys.world
      → (st' : StepState W) × (v : Value) × (run_core_logic env nested idx r standard name config
            input target st
          ≡ some (st', ok (v, "application/json", none)))
        × (st'.pipe.cache_hit ≡ some hit)
        × (st'.output ≡ st.output)
  unfolding run_core_logic handle_standard_execution absorb zoom ◌>>=◌
  core_found name config input target st same finds =
      let (sys', temp, called, has_hit) = finds target st.sys.req in
      (
        absorb env temp (record st { sys = sys' }),
        temp.state,
        rw (same, called) refl,
        has_hit,
        refl,
      )

  stops_at_hit :
      (st : StepState W)
      → st.pipe.cache_hit ≡ some hit
      → (st' : StepState W) × (check_cache_stop st ≡ (st', some (return (replayed st))))
  unfolding check_cache_stop
  stops_at_hit st h = (record st { pipe = record st.pipe { cache_hit = none } }, rw h refl)

  found_outcome :
      (name : String) (v : Value) (target : Option String) (last : Bool) (st : StepState W)
      → st.pipe.cache_hit ≡ some hit
      → (st' : StepState W) × (check_cache_stop (
            update_metadata name "application/json" none last
              (apply_result_to_state env name v target last st))
          ≡ (st', some (return (replayed st))))
  unfolding updated_output
  found_outcome name v target last st h =
      let applied = apply_result_to_state env name v target last st in
      let (same_hit, same_output) = applied-hit env name v target last st in
      let after = update_metadata name "application/json" none last applied in
      let (st', stopped) = stops_at_hit after (same_hit ∙ h) in
      (
        st',
        stopped
            ∙ ap
                (λ out. (
                  st',
                  some (
                      return (record {
                        state = hit.body;
                        content_type = hit.content_type;
                        status_code = or_else hit.status_code out.status_code;
                      })),
                ))
                same_output,
      )

  module _ (same : effective_name env r ≡ r.name) (no_call : (r.name == "pipeline") ≡ false) where
    execute_now_found :
        (last : Bool) (config : String) (input : Value) (auto : Bool) (st : StepState W)
        → Finds config input st.sys.world
        → (st' : StepState W) × (execute_now env nested idx r standard last (config, input, auto) st
            ≡ some (st', ok (return (replayed st))))
    unfolding execute_now ◌>>=◌
    execute_now_found last config input true st finds =
        let entered = set_state input st in
        let target = (determine_target_name r.condition entered.pipe.state true).0 in
        let (st₁, v, ran, has_hit, output) =
          core_found (effective_name env r) config input target entered same finds in
        let (st₂, stopped) =
          found_outcome (effective_name env r) (retyped env r.condition v) target last st₁
            has_hit in
        let plain : (effective_name env r == "pipeline") ≡ false = rw same no_call in
        (st₂, rw (plain, ran, stopped, output) refl)
    execute_now_found last config input false st finds =
        let entered = st in
        let target = (determine_target_name r.condition entered.pipe.state false).0 in
        let (st₁, v, ran, has_hit, output) =
          core_found (effective_name env r) config input target entered same finds in
        let (st₂, stopped) =
          found_outcome (effective_name env r) (retyped env r.condition v) target last st₁
            has_hit in
        let plain : (effective_name env r == "pipeline") ≡ false = rw same no_call in
        (st₂, rw (plain, ran, stopped, output) refl)

-- The configuration of a step, with a variable that it names looked up, and its input.
abbrev pub resolved : {W : Type 0} → ExecutionEnv W → Regular → StepState W → String × Value × Bool
resolved env r st =
    resolve_config_and_autoname env r.location (effective_name env r) (raw_config env r)
      st.pipe.state

module _ {W : Type 0} (env : ExecutionEnv W) (nested : Nested W) (idx : ℕ) (all : List PipelineStep)
    (r : Regular) (hit : CachedResponse) (is_cache : r.name ≡ "cache")
    (present : r.config_present ≡ true) (always : r.condition ≡ none) where
  same_name : effective_name env r ≡ r.name
  unfolding effective_name
  same_name = rw (is_cache, present) refl

  no_call : (r.name == "pipeline") ≡ false
  no_call = rw is_cache refl

  standard_mode : detect_execution_mode (effective_name env r) r.condition ≡ standard
  unfolding detect_execution_mode
  standard_mode = rw (same_name, is_cache, always) refl

  always_runs :
      (ctx : RequestContext W) (v : Value) → should_execute_step r.condition env ctx v ≡ true
  unfolding should_execute_step
  always_runs ctx v = rw always refl

  abbrev pub FindsAt : StepState W → Type 0
  FindsAt st = Finds env nested idx r hit (resolved env r st).0 (resolved env r st).1 st.sys.world

  execute_found :
      (st : StepState W)
      → FindsAt st
      → (st' : StepState W) × (execute env nested idx all r st
          ≡ some (st', ok (return (replayed env nested idx r hit st))))
  unfolding execute execute_in_mode ◌>>=◌
  execute_found st finds =
      let last = is_effectively_last_step idx all env st.sys.req st.pipe.state in
      let (config, input, auto) = resolved env r st in
      let (st', ran) =
        execute_now_found env nested idx r hit same_name no_call last config input auto st finds in
      (st', rw (always_runs st.sys.req st.pipe.state, standard_mode, ran) refl)

  execute_step_found :
      (st : StepState W)
      → FindsAt st
      → (st' : StepState W) × (execute_step env nested idx all (regular r) st
          ≡ some (st', ok (return (replayed env nested idx r hit st))))
  unfolding execute_step dispatch_step rescue finally ◌>>=◌
  execute_step_found st finds =
      let profiling = profiled env (λ p. push p (determine_step_name (regular r))) st in
      let (st', ran) = execute_found profiling finds in
      (end_profiling env (now env profiling) st', rw ran refl)

  -- The rest of the steps is not run.
  pub run_steps_found :
      (rest : List PipelineStep) (handled : Option String) (st : StepState W)
      → extract_error_type st.pipe.state ≡ none
      → FindsAt st
      → (st' : StepState W) × (run_steps env nested all idx (regular r ∷ rest) handled st
          ≡ some
              (st', ok (hit.body, hit.content_type, or_else hit.status_code st.output.status_code)))
  unfolding run_steps proceed finish ◌>>=◌
  run_steps_found rest handled st clean finds =
      let (st', ran) = execute_step_found st finds in
      (save_all env (replayed env nested idx r hit st) st', rw (clean, ran) refl)
