-- ===== src/Executor/Nested.antt =====
-- Computations of the executor. `Nested` is how a step runs a pipeline within a pipeline: with an
-- input, and the error type that the pipeline handles. The executor ties the knot in `Run`.
use webpipe.Base.{ℕ, String, Option}
use webpipe.Base.Effect.{Effect, zoom}
use webpipe.Json.{Value}
use webpipe.Ast.{Pipeline}
use webpipe.Executor.Error.{WebPipeError}
use webpipe.Executor.Env.{Sys}
use webpipe.Executor.Step.{StepState}

abbrev pub Answer : Type 0
Answer = Value × String × Option ℕ

abbrev pub Runs : Type 0 → Type 0 → Type 0
Runs W A = Effect (Sys W) WebPipeError A

abbrev pub Steps : Type 0 → Type 0 → Type 0
Steps W A = Effect (StepState W) WebPipeError A

abbrev pub Nested : Type 0 → Type 0
Nested W = Pipeline → Value → Option String → Runs W Answer

module _ {W : Type 0} where
  abbrev pub sys_of : StepState W → Sys W
  sys_of s = s.sys

  abbrev pub with_sys : Sys W → StepState W → StepState W
  with_sys sys s = record s { sys = sys }

module _ {W A : Type 0} where
  -- Runs a computation of the request in a step.
  abbrev pub on_sys : Runs W A → Steps W A
  on_sys m = zoom sys_of with_sys m
