-- ===== src/Executor/Tests.antt =====
-- The executor's theorems at concrete pipelines.
mod Rules
mod Ends
use webpipe.Base.{and_then, ℕ, true, none, some, [], ◌∷◌, ◌≡◌, refl, arith}
use webpipe.Base.Text.{format, split_once, is_whitespace}
use webpipe.Base.Effect.{ok, err, zoom, ◌>>=◌, finally, rescue}
use webpipe.Json.{
  as_array, Value, null, string, number, array, object, cons, nil, field, end, items, elements,
  Items, get,
}
use webpipe.Json.Path.{get_value, set_value, parse_path}
use webpipe.Ast
use webpipe.Ast.{quoted, custom, regular, result_branches, steps}
use webpipe.Executor.Error.{middleware_execution_error}
use webpipe.Executor.Context.{PipelineOutput, continue, return, new_context}
use webpipe.Executor.Env.{Sys}
use webpipe.Executor.Resolver.{
  extract_error_type, select_branch, determine_target_name, resolve_config_and_autoname,
  parse_scoped_ref, override_error_type,
}
use webpipe.Executor.Resolver.Errors.{final_type}
use webpipe.Executor.Tags.{should_execute_step}
use webpipe.Executor.Step.{
  StepState, set_state, detect_execution_mode, check_cache_stop, apply_result_to_state, cleanup,
  determine_step_name, updated_output, is_effectively_last_step,
}
use webpipe.Executor.Step.Regular.{execute}
use webpipe.Executor.Step.Control.{handle_foreach_step, handle_result_step}
use webpipe.Executor.Step.Control.Foreach.{foreach_replaces, EachAnswered, no_item, item_answered}
use webpipe.Executor.Run.{execute_step, execute_pipeline, pipeline_once, dispatch_step}
use webpipe.Executor.Run.Stack.{execute_pipeline-stack}
use webpipe.Executor.Run.Stack.Regular.{CallsKeepStack}
use webpipe.Executor.Run.Errors.{WithCookies, envelope_passes, failure_caught, result_answers}
use webpipe.Executor.Example.{
  env, sys, greeting, greeted, hello, envelope, branches, nested, state, say, unknown,
}

greeting_once : execute_pipeline env 1 greeting null none sys ≡ some (greeted, hello)
unfolding execute_pipeline pipeline_once zoom ◌>>=◌ execute_step finally rescue should_execute_step
    detect_execution_mode check_cache_stop apply_result_to_state determine_target_name
    resolve_config_and_autoname parse_scoped_ref split_once is_whitespace cleanup
    override_error_type determine_step_name updated_output is_effectively_last_step
greeting_once = refl

greeting_twice : execute_pipeline env 2 greeting null none sys ≡ some (greeted, hello)
unfolding execute_pipeline pipeline_once zoom ◌>>=◌ execute_step finally rescue should_execute_step
    detect_execution_mode check_cache_stop apply_result_to_state determine_target_name
    resolve_config_and_autoname parse_scoped_ref split_once is_whitespace cleanup
    override_error_type determine_step_name updated_output is_effectively_last_step
greeting_twice = refl

calls_keep_stack : CallsKeepStack env
calls_keep_stack name args config target = record { at = λ s s' r h. ground arith }

execute_pipeline-stack_example : greeted.req.profiler.stack ≡ sys.req.profiler.stack
execute_pipeline-stack_example =
    execute_pipeline-stack env 1 greeting null none sys greeted hello calls_keep_stack greeting_once

is_gone : extract_error_type envelope ≡ some "gone"
unfolding extract_error_type
is_gone = refl

greeting_plain : steps greeting ≡ say "handlebars" "hello" ∷ []
unfolding steps
greeting_plain = refl

envelope_passes_example :
    execute_pipeline env 1 greeting envelope none sys
    ≡ some (sys, ok (envelope, "application/json", none))
unfolding steps
envelope_passes_example = envelope_passes env 0 greeting envelope "gone" sys is_gone (refl, tt)

abbrev broken_step : Ast.Regular
broken_step = record {
  name = "fail";
  args = [];
  config = "no such host";
  config_type = quoted;
  config_present = true;
  condition = none;
  parsed_join_targets = none;
  location = unknown;
}

abbrev left_by_failure : StepState ℕ
left_by_failure = state null

broken_fails :
    execute env nested 0 [] broken_step (state null)
    ≡ some (left_by_failure, err (middleware_execution_error "no such host"))
unfolding execute zoom ◌>>=◌ finally rescue should_execute_step detect_execution_mode
    check_cache_stop apply_result_to_state determine_target_name resolve_config_and_autoname
    parse_scoped_ref split_once is_whitespace cleanup override_error_type determine_step_name
    updated_output is_effectively_last_step
broken_fails = refl

failure_caught_example :
    (v : Value) × (dispatch_step env nested 0 [] (regular broken_step) (state null)
      ≡ some (set_state v left_by_failure, ok continue))
    × (extract_error_type v ≡ some (final_type (format ("fail" ∷ "Error" ∷ [])) none))
failure_caught_example =
    failure_caught env nested 0 [] broken_step (state null) left_by_failure "no such host"
      broken_fails

gone_chosen :
    select_branch (result_branches branches) (extract_error_type envelope)
    ≡ some (record {
      branch_type = custom "gone";
      status_code = 410;
      pipeline = greeting;
      location = unknown;
    })
unfolding select_branch result_branches extract_error_type
gone_chosen = refl

gone_runs : nested greeting envelope (extract_error_type envelope) sys ≡ some (greeted, hello)
unfolding execute_pipeline pipeline_once zoom ◌>>=◌ execute_step finally rescue should_execute_step
    detect_execution_mode check_cache_stop apply_result_to_state determine_target_name
    resolve_config_and_autoname parse_scoped_ref split_once is_whitespace cleanup
    override_error_type determine_step_name updated_output is_effectively_last_step
    extract_error_type
gone_runs = refl

result_answers_example :
    (st' : StepState ℕ) × (out : PipelineOutput) × (handle_result_step env nested branches
        (state envelope)
      ≡ some (st', ok (return out)))
    × (out.status_code ≡ some 410)
    × (out.content_type ≡ "application/json")
    × WithCookies (get "setCookies" envelope) (string "hello") out.state
    × (st'.sys ≡ greeted)
result_answers_example =
    result_answers env nested branches (state envelope) _ greeted (string "hello")
      "application/json" none gone_chosen gone_runs

abbrev two_items : Items
two_items = cons (number "1") (cons (number "2") nil)

abbrev document : Value
document = object (field "rows" (array two_items) (field "n" null end))

rows_found : get_value document "rows" ≡ some (array two_items)
unfolding get_value parse_path
rows_found = refl

abbrev twice_greeted : Sys ℕ
twice_greeted = record {
  world = 7;
  req = record (new_context ℕ) {
    profiler = record { stack = []; samples = ("handlebars", 1) ∷ ("handlebars", 1) ∷ [] };
  };
}

first_run : nested greeting (number "1") none sys ≡ some (greeted, hello)
unfolding execute_pipeline pipeline_once zoom ◌>>=◌ execute_step finally rescue should_execute_step
    detect_execution_mode check_cache_stop apply_result_to_state determine_target_name
    resolve_config_and_autoname parse_scoped_ref split_once is_whitespace cleanup
    override_error_type determine_step_name updated_output is_effectively_last_step
    extract_error_type
first_run = refl

second_run : nested greeting (number "2") none greeted ≡ some (twice_greeted, hello)
unfolding execute_pipeline pipeline_once zoom ◌>>=◌ execute_step finally rescue should_execute_step
    detect_execution_mode check_cache_stop apply_result_to_state determine_target_name
    resolve_config_and_autoname parse_scoped_ref split_once is_whitespace cleanup
    override_error_type determine_step_name updated_output is_effectively_last_step
    extract_error_type
second_run = refl

rows_answered :
    EachAnswered env nested greeting
      (elements two_items)
      (string "hello" ∷ string "hello" ∷ [])
      sys
      twice_greeted
unfolding elements
rows_answered = item_answered first_run (item_answered second_run no_item)

foreach_replaces_example :
    (st' : StepState ℕ) × (handle_foreach_step env nested "rows" greeting (state document)
      ≡ some (st', ok continue))
    × (get_value st'.pipe.state "rows"
        ≡ some (array (items (string "hello" ∷ string "hello" ∷ []))))
    × (set_value st'.pipe.state "rows" (array two_items) ≡ some document)
    × (st'.sys ≡ twice_greeted)
    × (st'.output ≡ (state document).output)
foreach_replaces_example =
    foreach_replaces env nested "rows" greeting two_items (string "hello" ∷ string "hello" ∷ [])
      (state document) twice_greeted rows_found rows_answered

nowhere : and_then (get_value document "cols") as_array ≡ none
unfolding get_value parse_path
nowhere = refl
