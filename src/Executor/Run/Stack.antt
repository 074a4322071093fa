-- ===== src/Executor/Run/Stack.antt =====
-- The profiler's stack is balanced: whatever a pipeline does, and however it ends, the stack of the
-- request is afterwards what it was before.
pub mod Regular
use webpipe.Base.{
  ℕ, zero, suc, ◌+◌, ◌-◌, String, Option, none, some, List, [], ◌∷◌, ◌≡◌, refl, arith,
}
use webpipe.Base.Effect.{Result, ◌>>=◌}
use webpipe.Base.Effect.Keeps.{
  Keeps, keeps_rules, Keeps-bind, Keeps-if, Keeps-gets, Keeps-zoom, Keeps-modify, Keeps-update,
  Keeps-bracket, Keeps-pure, Keeps-throw, Keeps-rescue, Keeps-diverge,
}
use webpipe.Json.{Value, null, array}
use webpipe.Ast
use webpipe.Ast.{Pipeline, PipelineStep, regular, result, if_else, dispatch, foreach, ResultBranch}
use webpipe.Executor.Error.{WebPipeError}
use webpipe.Executor.Context.{StepOutcome, continue, return, push}
use webpipe.Executor.Env.{ExecutionEnv, Sys}
use webpipe.Executor.Step.{StepState, determine_step_name}
use webpipe.Executor.Nested.{Answer, Steps, Nested}
use webpipe.Executor.Step.Control.{
  execute_branch, execute_optional, foreach_items, foreach_taken, run_branch, write_at,
}
use webpipe.Executor.Run.{
  dispatch_step, execute_step, failed_as, proceed, run_steps, pipeline_once, execute_pipeline,
  still_handled, profiled, end_profiling, now,
}
use webpipe.Executor.Run.Stack.Regular.{
  stack, step_stack, CallsKeepStack, KeepsStack, pop-push-stack, on_sys-Keeps, execute-Keeps,
}

module _ {W : Type 0} (env : ExecutionEnv W) (calls : CallsKeepStack env) (nested : Nested W)
    (keep : KeepsStack nested) where
  branch-Keeps : (p : Pipeline) → Keeps step_stack (execute_branch env nested p)
  unfolding execute_branch
  branch-Keeps p = Keeps-bind _ _ (Keeps-update _ (λ s. refl)) λ v.
      Keeps-bind _ _ (on_sys-Keeps env calls nested keep _ (keep p v none))
        λ a. Keeps-modify _ (λ s. refl)

  optional-Keeps : (q : Option Pipeline) → Keeps step_stack (execute_optional env nested q)
  unfolding execute_optional
  optional-Keeps none = Keeps-pure _
  optional-Keeps (some p) = branch-Keeps p

  foreach_items-Keeps :
      (p : Pipeline) (vs : List Value) → Keeps stack (foreach_items env nested p vs)
  unfolding foreach_items
  foreach_items-Keeps p [] = Keeps-pure _
  foreach_items-Keeps p (v ∷ vs) =
      Keeps-bind _ _ (keep p v none)
        λ a. Keeps-bind _ _ (foreach_items-Keeps p vs) λ values. Keeps-pure _

  write_at-stack :
      (selector : String) (v : Value) (s : StepState W)
      → step_stack (write_at env nested selector v s) ≡ step_stack s
  unfolding write_at
  write_at-stack selector v s = ground arith

  foreach_taken-Keeps :
      (selector : String) (p : Pipeline) (q : Option Value)
      → Keeps step_stack (foreach_taken env nested selector p q)
  unfolding foreach_taken
  foreach_taken-Keeps selector p (some (array vs)) =
      Keeps-bind _ _ (on_sys-Keeps env calls nested keep _ (foreach_items-Keeps p _))
        λ values. Keeps-bind _ _ (Keeps-modify _ (write_at-stack selector _)) λ _. Keeps-pure _
  foreach_taken-Keeps selector p _ = Keeps-throw _

  run_branch-Keeps : (q : Option ResultBranch) → Keeps step_stack (run_branch env nested q)
  unfolding run_branch
  run_branch-Keeps none = search keeps_rules
  run_branch-Keeps (some b) = Keeps-bind _ _ (Keeps-update _ (λ s. refl)) λ v.
      Keeps-bind _ _ (on_sys-Keeps env calls nested keep _ (keep b.pipeline v _)) λ a.
        Keeps-bind _ _ (Keeps-modify _ (λ s. refl))
          λ _. Keeps-bind _ _ (Keeps-gets _) λ out. Keeps-pure _

  failed_as-Keeps :
      (r : Ast.Regular) (e : WebPipeError) (q : Option (String × Option String))
      → Keeps step_stack (failed_as env r e q)
  unfolding failed_as
  failed_as-Keeps r e none = Keeps-throw _
  failed_as-Keeps r e (some m) = Keeps-bind _ _ (Keeps-modify _ (λ s. refl)) λ _. Keeps-pure _

  dispatch_step-Keeps :
      (idx : ℕ) (all : List PipelineStep) (s : PipelineStep)
      → Keeps step_stack (dispatch_step env nested idx all s)
  unfolding dispatch_step
  dispatch_step-Keeps idx all (regular r) =
      Keeps-rescue _ _ (execute-Keeps env calls nested keep idx all r) λ e. failed_as-Keeps r _ _
  dispatch_step-Keeps idx all (result branches l) = search (keeps_rules, run_branch-Keeps)
  dispatch_step-Keeps idx all (if_else c t e l) = Keeps-bind _ _ (Keeps-gets _) λ v.
      Keeps-bind _ _ (on_sys-Keeps env calls nested keep _ (keep c v none))
        λ a. Keeps-bind _ _ (optional-Keeps _) λ _. Keeps-pure _
  dispatch_step-Keeps idx all (dispatch bs d l) =
      Keeps-bind _ _ (Keeps-gets _) λ q. Keeps-bind _ _ (optional-Keeps q) λ _. Keeps-pure _
  dispatch_step-Keeps idx all (foreach selector p l) =
      Keeps-bind _ _ (Keeps-update _ (write_at-stack selector null))
        λ q. foreach_taken-Keeps selector p q

  execute_step-Keeps :
      (idx : ℕ) (all : List PipelineStep) (s : PipelineStep)
      → Keeps step_stack (execute_step env nested idx all s)
  unfolding execute_step ◌>>=◌
  execute_step-Keeps idx all s = record {
    at = λ st st' r h.
        Keeps-bracket {view = step_stack} (profiled env (λ p. push p (determine_step_name s)))
          (end_profiling env (now env st)) (dispatch_step env nested idx all s)
          (λ a b.
            pop-push-stack a.sys.req.profiler b.sys.req.profiler (determine_step_name s)
              (now env b - now env st))
          (dispatch_step-Keeps idx all s) st st' r h;
  }

  proceed-Keeps :
      (m : Steps W Answer) (o : StepOutcome)
      → Keeps step_stack m
      → Keeps step_stack (proceed env m o)
  unfolding proceed
  proceed-Keeps m continue k = k
  proceed-Keeps m (return out) k = Keeps-bind _ _ (Keeps-modify _ (λ s. refl)) λ _. Keeps-pure _

  run_steps-Keeps :
      (all : List PipelineStep) (idx : ℕ) (ss : List PipelineStep) (h : Option String)
      → Keeps step_stack (run_steps env nested all idx ss h)
  unfolding run_steps
  run_steps-Keeps all idx [] h =
      Keeps-bind _ _ (Keeps-gets _)
        λ out. Keeps-bind _ _ (Keeps-modify _ (λ s. refl)) λ _. Keeps-pure _
  run_steps-Keeps all idx (s ∷ ss) h = Keeps-bind _ _ (Keeps-gets _) λ current.
      let rest = run_steps-Keeps all (idx + 1) ss (still_handled h current) in
      Keeps-if _ _ _ rest
        (Keeps-bind _ _ (execute_step-Keeps idx all s) (λ o. proceed-Keeps _ o rest))

  once-Keeps : KeepsStack (pipeline_once env nested)
  unfolding pipeline_once
  once-Keeps p v h = Keeps-zoom step_stack _ _ _ (λ s. refl) (λ t s. refl) (run_steps-Keeps _ 0 _ h)

fuel-KeepsStack :
    {W : Type 0} (env : ExecutionEnv W)
    → CallsKeepStack env
    → (fuel : ℕ) → KeepsStack (execute_pipeline env fuel)
unfolding execute_pipeline
fuel-KeepsStack env calls zero p v h = Keeps-diverge
fuel-KeepsStack env calls (suc fuel) p v h =
    once-Keeps env calls (execute_pipeline env fuel) (fuel-KeepsStack env calls fuel) p v h

-- If no middleware changes the profiler's stack, a pipeline that ends leaves the stack as it found
-- it, whether it ends with an answer or with an error, and however deep it runs other pipelines.
pub execute_pipeline-stack :
    {W : Type 0} (env : ExecutionEnv W) (fuel : ℕ) (p : Pipeline) (v : Value)
    (handled : Option String) (s s' : Sys W) (r : Result WebPipeError Answer)
    → CallsKeepStack env
    → execute_pipeline env fuel p v handled s ≡ some (s', r)
    → s'.req.profiler.stack ≡ s.req.profiler.stack
execute_pipeline-stack env fuel p v handled s s' r calls h =
    (fuel-KeepsStack env calls fuel p v handled).at s s' r h
