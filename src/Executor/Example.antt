-- ===== src/Executor/Example.antt =====
-- A small environment, on which the executor's theorems are applied.
use webpipe.Base.{ℕ, suc, String, true, Option, none, some, List, [], ◌∷◌, ◌==◌, if◌then◌else◌}
use webpipe.Base.Effect.{Effect, Result, ok, err}
use webpipe.Json.{Value, string, array, object, cons, nil, field, end}
use webpipe.Ast.{
  ResultBranchType, Pipeline, done, step, PipelineStep, regular, SourceLocation, quoted,
  ResultBranches, no_branch, branch, custom, default,
}
use webpipe.Executor.Error.{WebPipeError, middleware_execution_error}
use webpipe.Executor.Context.{PipelineContext, new_context}
use webpipe.Executor.Env.{ExecutionEnv, Services, Sys}
use webpipe.Executor.Modules.{empty}
use webpipe.Executor.Nested.{Answer, Nested}
use webpipe.Executor.Step.{StepState}
use webpipe.Executor.Run.{execute_pipeline, initial}

abbrev pub unknown : SourceLocation
unknown = record {
  line = 0;
  column = 0;
  end_line = 0;
  end_column = 0;
  offset = 0;
  file_path = none;
  module_id = none;
}

-- `fail` fails, every other middleware answers its configuration and counts itself.
abbrev pub call :
    String
    → List String
    → String
    → Option String
    → Effect (Sys ℕ × PipelineContext) WebPipeError (Option String)
call name args config target (sys, pipe) =
    if name == "fail"
    then some ((sys, pipe), err (middleware_execution_error config))
    else some
        ((record sys { world = suc sys.world }, record pipe { state = string config }), ok none)

abbrev pub services : Services ℕ
services = record {
  call = call;
  get_behavior = λ name. none;
  evaluate = λ filter v. ok v;
  put_response = λ key response ttl w. w;
  clear_refresh = λ key w. w;
  micros = λ w. w;
  parse_names = λ s. none;
}

abbrev pub env : ExecutionEnv ℕ
env = record {
  variables = [];
  named_pipelines = [];
  module_registry = empty;
  environment = none;
  services = services;
}

abbrev pub sys : Sys ℕ
sys = record { world = 5; req = new_context ℕ }

abbrev pub say : String → String → PipelineStep
say name config = regular (record {
  name = name;
  args = [];
  config = config;
  config_type = quoted;
  config_present = true;
  condition = none;
  parsed_join_targets = none;
  location = unknown;
})

abbrev pub greeting : Pipeline
greeting = step (say "handlebars" "hello") done

abbrev pub greeted : Sys ℕ
greeted = record {
  world = 6;
  req = record (new_context ℕ) {
    profiler = record { stack = []; samples = ("handlebars", 1) ∷ [] };
  };
}

abbrev pub hello : Result WebPipeError Answer
hello = ok (string "hello", "application/json", none)

-- An error envelope of type `gone`.
abbrev pub envelope : Value
envelope = object (
    field "errors" (array (cons (object (field "type" (string "gone") end)) nil))
      (field "setCookies" (string "id=1") end))

abbrev pub branches : ResultBranches
branches = branch default 500 done unknown (
    branch (custom "gone") 410 greeting unknown
      (branch ResultBranchType.ok 200 done unknown no_branch))

abbrev pub nested : Nested ℕ
nested = execute_pipeline env 1

abbrev pub state : Value → StepState ℕ
state v = initial env v sys
