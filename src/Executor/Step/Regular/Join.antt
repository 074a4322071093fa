-- ===== src/Executor/Step/Regular/Join.antt =====
-- executor/step.rs: what a spawned task does, and how `join` waits for tasks.
use webpipe.Base.{
  ℕ, String, Bool, Option, none, some, List, [], ◌∷◌, ◌++◌, ◌==◌, if◌then◌else◌, is_empty,
}
use webpipe.Base.Text.{format}
use webpipe.Base.Effect.{
  Result, ok, err, pure, throw, lift, gets, update, modify, zoom, attempt, rescue, ◌>>=◌, ◌>>◌,
}
use webpipe.Json.{Value, string, object, Fields, field, end, insert_field}
use webpipe.Ast.{SourceLocation}
use webpipe.Executor.Error.{WebPipeError, to_string, with_source_location}
use webpipe.Executor.Context.{new_pipeline_context, new_context, Task, Profiler, join}
use webpipe.Executor.Env.{ExecutionEnv, Sys}
use webpipe.Executor.Tasks.{take, parse_join_task_names}
use webpipe.Executor.Resolver.{resolve_config_and_autoname}
use webpipe.Executor.Nested.{Answer, Runs, Nested}
use webpipe.Executor.Step.Regular.Calls.{
  handle_recursive_pipeline, handle_standard_execution, run_middleware,
}

module _ {W : Type 0} (env : ExecutionEnv W) where
  -- The body of a spawned task.
  unfoldable pub task_answer : Nested W → Task → String × Value × Bool → Runs W Answer
  unfolding handle_recursive_pipeline handle_standard_execution
  task_answer nested t (config, input, _) =
      if t.name == "pipeline"
      then handle_recursive_pipeline env nested t.args config t.location input
      else do
        (answer, _) ← run_middleware env t.name t.args config none (new_pipeline_context input)
        pure answer

  abbrev pub locate : SourceLocation → WebPipeError → Runs W Answer
  locate l e = throw (with_source_location e l)

  unfoldable pub task_body : Nested W → Task → Runs W (Value × Profiler)
  unfolding task_answer
  task_body nested t = do
    (value, _, _) ←
        rescue
          (task_answer nested t
            (resolve_config_and_autoname env t.location t.name t.config t.input))
          (locate t.location)
    profiler ← gets (λ s. s.req.profiler)
    pure (value, profiler)

  abbrev pub own_request : Sys W → Sys W
  own_request sys = record sys { req = new_context W }

  abbrev pub back_to_world : Sys W → Sys W → Sys W
  back_to_world t sys = record sys { world = t.world }

  -- `handle.await`: the task runs with a request context of its own.
  unfoldable pub await : Nested W → Task → Runs W (Result WebPipeError (Value × Profiler))
  unfolding task_body
  await nested t = zoom own_request back_to_world (attempt (task_body nested t))

  abbrev prefixed : List String → String → String × ℕ → String × ℕ
  prefixed stack name (samples, duration) = (
    if is_empty stack
        then format ("async:" ∷ name ∷ ";" ∷ samples ∷ [])
        else format (join ";" stack ∷ ";async:" ∷ name ∷ ";" ∷ samples ∷ []),
    duration,
  )

  prefix_all : List String → String → List (String × ℕ) → List (String × ℕ)
  unfolding join format
  prefix_all stack name [] = []
  prefix_all stack name (s ∷ rest) = prefixed stack name s ∷ prefix_all stack name rest

  abbrev add_samples : String → List (String × ℕ) → Profiler → Profiler
  add_samples name samples p = record p { samples = p.samples ++ prefix_all p.stack name samples }

  -- The samples of a joined task are added to the request's.
  unfoldable pub merge_samples : String → Result WebPipeError (Value × Profiler) → Sys W → Sys W
  unfolding prefix_all
  merge_samples name (ok (_, p)) sys = record sys {
    req = record sys.req { profiler = add_samples name p.samples sys.req.profiler };
  }
  merge_samples name (err _) sys = sys

  abbrev pub joined_value : Result WebPipeError (Value × Profiler) → Value
  joined_value (ok (v, _)) = v
  joined_value (err e) = object (field "error" (string (to_string e)) end)

  abbrev pub take_task : String → Sys W → Sys W × Option Task
  take_task name sys = let (req, t) = take sys.req name in (record sys { req = req }, t)

  unfoldable pub join_found : Nested W → String → Fields → Option Task → Runs W Fields
  unfolding await merge_samples
  join_found nested name results none = pure results
  join_found nested name results (some t) = do
    outcome ← await nested t
    modify (merge_samples name outcome)
    pure (insert_field name (joined_value outcome) results)

  -- The loop of `handle_join`; a name that no task has is passed over.
  unfoldable pub join_all : Nested W → List String → Fields → Runs W Fields
  unfolding join_found
  join_all nested [] results = pure results
  join_all nested (name ∷ names) results = do
    found ← update (take_task name)
    results' ← join_found nested name results found
    join_all nested names results'

  abbrev pub with_async : Fields → Value → Value
  with_async results (object fs) = object (insert_field "async" (object results) fs)
  with_async results v = v

  abbrev pub join_names : Option (List String) → String → Result WebPipeError (List String)
  join_names (some targets) config = ok targets
  join_names none config = parse_join_task_names env.services.parse_names config

  unfoldable pub handle_join : Nested W → String → Option (List String) → Value → Runs W Answer
  unfolding join_all parse_join_task_names
  handle_join nested config targets input = do
    names ← lift (join_names targets config)
    results ← join_all nested names end
    pure (with_async results input, "application/json", none)
