-- ===== src/Executor/Run/Ends.antt =====
-- Which pipelines run to an end: those whose calls of other pipelines have a bounded depth.
pub mod Steps
pub mod Regular
pub mod Pipelines
use webpipe.Base.{ℕ, zero, suc, String, Option, none, some, List, ◌≡◌, All}
use webpipe.Base.Text.{trim}
use webpipe.Base.Effect.{Result}
use webpipe.Json.{Value}
use webpipe.Ast
use webpipe.Ast.{
  Pipeline, PipelineStep, regular, result, if_else, dispatch, foreach, steps, SourceLocation,
  result_branches, dispatch_branches, optional,
}
use webpipe.Executor.Error.{WebPipeError}
use webpipe.Executor.Context.{
  PipelineContext, ExecutionMode, standard, async, join_mode, recursive, Task,
}
use webpipe.Executor.Env.{ExecutionEnv, Sys}
use webpipe.Executor.Resolver.{resolve_config_and_autoname}
use webpipe.Executor.Step.{detect_execution_mode, effective_name, raw_config}
use webpipe.Executor.Step.Regular.{resolve_named_pipeline}

abbrev pub OnSome : {A : Type 0} → (A → Type 0) → Option A → Type 0
OnSome R none = Unit
OnSome R (some a) = R a

module _ {W : Type 0} (env : ExecutionEnv W) where
  -- The pipeline that a middleware name and its configuration stand for, if they stand for one.
  abbrev pub target : SourceLocation → String → String → Value → Option Pipeline
  target location name config input =
      resolve_named_pipeline env location
        (trim (resolve_config_and_autoname env location name config input).0)

  -- Every middleware comes to an end, and leaves the registered tasks as they are.
  abbrev pub CallsEnd : Type 0
  CallsEnd =
      (name : String) (args : List String) (config : String) (target : Option String)
      (s : Sys W × PipelineContext)
      → (s' : Sys W × PipelineContext) × (r : Result WebPipeError (Option String))
        × (env.services.call name args config target s ≡ some (s', r))
        × (s'.0.req.async_registry ≡ s.0.req.async_registry)

  -- `T` holds of every pipeline that a task may run, `R` of every pipeline that a step may run.
  module _ (T R : Pipeline → Type 0) where
    abbrev pub RegularRanked : ExecutionMode → Ast.Regular → Type 0
    RegularRanked (async _) r =
        (v : Value) → OnSome T (target r.location (effective_name env r) (raw_config env r) v)
    RegularRanked join_mode r = (p : Pipeline) → T p → R p
    RegularRanked recursive r =
        (v : Value) → OnSome R (target r.location (effective_name env r) (raw_config env r) v)
    RegularRanked standard r = Unit

    abbrev pub StepRanked : PipelineStep → Type 0
    StepRanked (regular r) =
        RegularRanked (detect_execution_mode (effective_name env r) r.condition) r
    StepRanked (result branches _) = All (λ b. R b.pipeline) (result_branches branches)
    StepRanked (if_else condition then_branch else_branch _) =
        R condition × R then_branch × OnSome R (optional else_branch)
    StepRanked (dispatch branches default _) =
        All (λ b. R b.pipeline) (dispatch_branches branches) × OnSome R (optional default)
    StepRanked (foreach _ p _) = R p

  module _ (T : Pipeline → Type 0) where
    -- The pipeline calls pipelines to a depth below `n`.
    unfoldable pub Ranked : ℕ → Pipeline → Type 0
    Ranked zero p = ⊥
    Ranked (suc n) p = All (StepRanked T (Ranked n)) (steps p)

    abbrev pub TaskRanked : String × Task → Type 0
    TaskRanked (_, t) = OnSome T (target t.location t.name t.config t.input)

    abbrev pub TasksRanked : Sys W → Type 0
    TasksRanked sys = All TaskRanked sys.req.async_registry
