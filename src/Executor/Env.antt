-- ===== src/Executor/Env.antt =====
-- executor/env.rs: the environment that all requests share, and what the executor calls outside
-- itself: the middleware invoker and registry, jq, the cache store, and the clock.
use webpipe.Base.{
  ℕ, String, Bool, true, false, Option, none, some, List, [], ◌∷◌, ◌==◌, ◌&&◌, nat_eq,
  if◌then◌else◌,
}
use webpipe.Base.Effect.{Effect, Result, ok, err}
use webpipe.Json.{Value, null, bool}
use webpipe.Ast.{Variable, Pipeline}
use webpipe.Executor.Error.{WebPipeError}
use webpipe.Executor.Modules.{ModuleRegistry}
use webpipe.Executor.Context.{RequestContext, PipelineContext, CachedResponse, StateBehavior}

-- The state that a running pipeline shares with the pipelines it calls.
pub record Sys (W : Type 0) : Type 0 where
  pub world : W
  pub req : RequestContext W

-- `MiddlewareInvoker::call` on (pipeline context, request context, world); it may fail, or not end.
-- It answers the content type of its output.
pub record Services (W : Type 0) : Type 0 where
  pub call :
      String
      → List String
      → String
      → Option String
      → Effect (Sys W × PipelineContext) WebPipeError (Option String)
  pub get_behavior : String → Option StateBehavior
  pub evaluate : String → Value → Result WebPipeError Value
  pub put_response : String → CachedResponse → Option ℕ → W → W
  pub clear_refresh : String → W → W
  pub micros : W → ℕ
  -- `serde_json::from_str::<Vec<String>>`
  pub parse_names : String → Option (List String)

abbrev pub VariableKey : Type 0
VariableKey = Option ℕ × String × String

abbrev pub PipelineKey : Type 0
PipelineKey = Option ℕ × String

pub record ExecutionEnv (W : Type 0) : Type 0 where
  pub variables : List (VariableKey × Variable)
  pub named_pipelines : List (PipelineKey × Pipeline)
  pub module_registry : ModuleRegistry
  pub environment : Option String
  pub services : Services W

abbrev pub same_module : Option ℕ → Option ℕ → Bool
same_module none none = true
same_module (some a) (some b) = nat_eq a b
same_module _ _ = false

unfoldable pub find_variable : VariableKey → List (VariableKey × Variable) → Option Variable
find_variable k [] = none
find_variable (m, t, n) (((m', t', n'), v) ∷ rest) =
    if same_module m' m && t' == t && n' == n then some v else find_variable (m, t, n) rest

unfoldable pub find_pipeline : PipelineKey → List (PipelineKey × Pipeline) → Option Pipeline
find_pipeline k [] = none
find_pipeline (m, n) (((m', n'), p) ∷ rest) =
    if same_module m' m && n' == n then some p else find_pipeline (m, n) rest

-- What jq counts as true.
abbrev pub truthy : Value → Bool
truthy null = false
truthy (bool b) = b
truthy _ = true

-- `jq_eval_bool` of middleware/jq.rs.
unfoldable pub eval_bool : {W : Type 0} → Services W → String → Value → Result WebPipeError Bool
eval_bool services filter input = elim (services.evaluate filter input) [
  | ok v ↦ ok (truthy v)
  | err e ↦ err e
]
