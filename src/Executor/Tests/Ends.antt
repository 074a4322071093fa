-- ===== src/Executor/Tests/Ends.antt =====
-- A pipeline that calls a pipeline and joins a task that does, and its end.
use webpipe.Base.{
  ℕ, suc, true, false, none, some, [], ◌∷◌, ◌≡◌, refl, sym, arith, Bool-cases, inl, inr, ◌==◌,
}
use mathlib.Core.Path.{subst}
use webpipe.Base.Text.{trim, split_once, is_whitespace}
use webpipe.Base.Effect.{Result, ok, err}
use webpipe.Json.{Value, null, string}
use webpipe.Ast.{Pipeline, done, step, PipelineStep, regular, steps, quoted, tag}
use webpipe.Executor.Error.{WebPipeError, middleware_execution_error}
use webpipe.Executor.Env.{ExecutionEnv, Sys, find_pipeline, find_variable}
use webpipe.Executor.Example.{env, sys, greeting, say, unknown}
use webpipe.Executor.Nested.{Answer}
use webpipe.Executor.Resolver.{resolve_config_and_autoname, parse_scoped_ref}
use webpipe.Executor.Step.{detect_execution_mode, effective_name, raw_config}
use webpipe.Executor.Step.Regular.{resolve_named_pipeline}
use webpipe.Executor.Run.{execute_pipeline}
use webpipe.Executor.Run.Ends.{CallsEnd, Ranked, OnSome, target}
use webpipe.Executor.Run.Ends.Pipelines.{execute_pipeline_ends}

abbrev named : ExecutionEnv ℕ
named = record env { named_pipelines = ((none, "greet"), greeting) ∷ [] }

abbrev greet_later : PipelineStep
greet_later = regular (record {
  name = "pipeline";
  args = [];
  config = "greet";
  config_type = quoted;
  config_present = true;
  condition = some (tag (record { name = "async"; negated = false; args = "hi" ∷ [] }));
  parsed_join_targets = none;
  location = unknown;
})

abbrev caller : Pipeline
caller = step greet_later (step (say "join" "hi") (step (say "pipeline" "greet") done))

abbrev Greeting : Pipeline → Type 0
Greeting p = p ≡ greeting

calls_end : CallsEnd named
calls_end name args config goal s = elim (Bool-cases (name == "fail")) [
  | inl fails ↦ (s, err (middleware_execution_error config), ground arith, refl)
  | inr works ↦ (
    (record s.0 { world = suc s.0.world }, record s.1 { state = string config }),
    ok none,
    ground arith,
    refl,
  )
]

greet_found : (v : Value) → target named unknown "pipeline" "greet" v ≡ some greeting
unfolding resolve_named_pipeline find_pipeline resolve_config_and_autoname find_variable
    parse_scoped_ref split_once trim is_whitespace
greet_found v = refl

greeting-Ranked : Ranked named Greeting 1 greeting
unfolding Ranked steps detect_execution_mode effective_name
greeting-Ranked = (tt, tt)

caller-Ranked : Ranked named Greeting 2 caller
unfolding Ranked steps detect_execution_mode effective_name raw_config
caller-Ranked = (
  λ v. subst (OnSome Greeting) (sym (greet_found v)) refl,
  (
    λ p same. subst (Ranked named Greeting 1) (sym same) greeting-Ranked,
    (λ v. subst (OnSome (Ranked named Greeting 1)) (sym (greet_found v)) greeting-Ranked, tt),
  ),
)

execute_pipeline_ends_example :
    (s' : Sys ℕ) × (r : Result WebPipeError Answer) × (execute_pipeline named 2 caller null none sys
      ≡ some (s', r))
execute_pipeline_ends_example =
    execute_pipeline_ends named Greeting 2 caller null none sys calls_end caller-Ranked tt
