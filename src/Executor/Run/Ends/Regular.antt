-- ===== src/Executor/Run/Ends/Regular.antt =====
-- A regular step ends, if the pipelines that it runs do.
use webpipe.Base.{
  ℕ, String, Bool, true, false, Option, none, some, List, ◌≡◌, refl, sym, arith, All,
}
use mathlib.Core.Path.{subst}
use webpipe.Base.Effect.{modify}
use webpipe.Base.Effect.Ends.{
  Ends, Ends-pure, Ends-gets, Ends-update, Ends-modify, Ends-bind, Ends-zoom, Ends-if,
}
use webpipe.Json.{Value}
use webpipe.Ast
use webpipe.Ast.{Pipeline, PipelineStep}
use webpipe.Executor.Error.{WebPipeError}
use webpipe.Executor.Context.{
  ExecutionMode, standard, async, join_mode, recursive, StepOutcome, Task,
}
use webpipe.Executor.Env.{ExecutionEnv}
use webpipe.Executor.Resolver.{resolve_config_and_autoname}
use webpipe.Executor.Tasks.{register}
use webpipe.Executor.Step.{
  StepState, effective_name, raw_config, detect_execution_mode, apply_result_to_state,
  check_cache_stop, cleanup, log_call,
}
use webpipe.Executor.Nested.{Runs, Nested, on_sys}
use webpipe.Executor.Step.Regular.{
  run_core_logic, execute_now, execute_in_mode, execute, spawn_async_step, finish_step,
  log_pipeline, named_state, absorb,
}
use webpipe.Executor.Run.Ends.{CallsEnd, RegularRanked, TaskRanked, TasksRanked}
use webpipe.Executor.Run.Ends.Steps.{
  All-insert, run_middleware-Ends, recursive-Ends, handle_join-Ends,
}

abbrev not_async : ExecutionMode → Bool
not_async (async _) = false
not_async _ = true

module _ {W : Type 0} (env : ExecutionEnv W) (T : Pipeline → Type 0) where
  abbrev pub StepTasks : StepState W → Type 0
  StepTasks s = TasksRanked env T s.sys

  abbrev pub registry : StepState W → List (String × Task)
  registry s = s.sys.req.async_registry

  pub same_tasks : (s t : StepState W) → registry t ≡ registry s → StepTasks s → StepTasks t
  same_tasks s t same h = subst (All (TaskRanked env T)) (sym same) h

module _ {W : Type 0} (env : ExecutionEnv W) where
  log_pipeline-registry :
      (name config : String) (v : Value) (s : StepState W)
      → (log_pipeline env name config v s).sys.req.async_registry ≡ s.sys.req.async_registry
  unfolding log_call
  log_pipeline-registry name config v s = ground arith

  named_state-registry :
      (auto : Bool) (v : Value) (s : StepState W)
      → (named_state env auto v s).sys.req.async_registry ≡ s.sys.req.async_registry
  named_state-registry auto v s = ground arith

  apply-registry :
      (name : String) (v : Value) (goal : Option String) (last : Bool) (s : StepState W)
      → (apply_result_to_state env name v goal last s).sys.req.async_registry
        ≡ s.sys.req.async_registry
  unfolding apply_result_to_state
  apply-registry name v none last s = refl
  apply-registry name v (some goal) last s = ground arith

module _ {W : Type 0} where
  check_cache_stop-registry :
      (s : StepState W) → (check_cache_stop s).0.sys.req.async_registry ≡ s.sys.req.async_registry
  unfolding check_cache_stop
  check_cache_stop-registry s = ground arith

  cleanup-registry :
      (b : Bool) (s : StepState W) → (cleanup b s).sys.req.async_registry ≡ s.sys.req.async_registry
  unfolding cleanup
  cleanup-registry b s = ground arith

module _ {W : Type 0} (env : ExecutionEnv W) (T : Pipeline → Type 0) where
  -- A change of the state that leaves the registered tasks as they are.
  pub Ends-unregistered :
      (f : StepState W → StepState W)
      → ((s : StepState W) → (f s).sys.req.async_registry ≡ s.sys.req.async_registry)
      → Ends (StepTasks env T) (modify {E = WebPipeError} f)
  Ends-unregistered f same = Ends-modify f λ s h. same_tasks env T s (f s) (same s) h

  pub on_sys-Ends :
      {A : Type 0} (m : Runs W A) → Ends (TasksRanked env T) m → Ends (StepTasks env T) (on_sys m)
  on_sys-Ends m ends = Ends-zoom (TasksRanked env T) _ _ m (λ s h. h) (λ t s h k. k) ends

  finish_step-Ends :
      (b : Bool) (q : Option StepOutcome) → Ends (StepTasks env T) (finish_step env b q)
  finish_step-Ends b (some o) = Ends-pure _
  finish_step-Ends b none =
      Ends-bind _ _ (Ends-unregistered _ (cleanup-registry b)) λ u. Ends-pure _

module _ {W : Type 0} (env : ExecutionEnv W) (T R : Pipeline → Type 0) (calls : CallsEnd env)
    (nested : Nested W)
    (ends : (p : Pipeline) (v : Value) (h : Option String)
      → R p
      → Ends (TasksRanked env T) (nested p v h)) where
  core-Ends :
      (idx : ℕ) (r : Ast.Regular) (mode : ExecutionMode) (v w : Value) (goal : Option String)
      → RegularRanked env T R mode r
      → not_async mode ≡ true
      → Ends (StepTasks env T) (
          run_core_logic env nested idx r mode
            (effective_name env r)
            (resolve_config_and_autoname env r.location
              (effective_name env r)
              (raw_config env r)
              v).0
            w
            goal)
  unfolding run_core_logic absorb
  core-Ends idx r (async name) v w goal ranked h = cc
  core-Ends idx r join_mode v w goal ranked h = on_sys-Ends env T _ (
      handle_join-Ends env T R calls nested ends ranked
        (resolve_config_and_autoname env r.location (effective_name env r) (raw_config env r) v).0
        r.parsed_join_targets w)
  core-Ends idx r recursive v w goal ranked h = on_sys-Ends env T _ (
      recursive-Ends env T R calls nested ends r.args (effective_name env r) (raw_config env r)
        r.location v w (ranked v))
  core-Ends idx r standard v w goal ranked h =
      Ends-bind _ _ (on_sys-Ends env T _ (run_middleware-Ends env T calls _ _ _ goal _))
        λ a. Ends-bind _ _ (Ends-unregistered env T _ (λ s. refl)) λ u. Ends-pure _

  execute_now-Ends :
      (idx : ℕ) (r : Ast.Regular) (mode : ExecutionMode) (last : Bool) (v : Value)
      → RegularRanked env T R mode r
      → not_async mode ≡ true
      → Ends (StepTasks env T) (
          execute_now env nested idx r mode last (
            resolve_config_and_autoname env r.location (effective_name env r) (raw_config env r) v))
  unfolding execute_now
  execute_now-Ends idx r mode last v ranked h =
      let c =
        resolve_config_and_autoname env r.location (effective_name env r) (raw_config env r) v in
      Ends-bind _ _
        (Ends-unregistered env T _ (log_pipeline-registry env (effective_name env r) c.0 c.1))
        λ u. Ends-bind _ _ (Ends-unregistered env T _ (named_state-registry env c.2 c.1)) λ u.
          Ends-bind _ _ (Ends-gets _) λ goal.
            Ends-bind _ _ (core-Ends idx r mode v _ _ ranked h) λ answer.
              Ends-bind _ _ (Ends-unregistered env T _ (apply-registry env _ _ _ last)) λ u.
                Ends-bind _ _ (Ends-unregistered env T _ (λ s. refl)) λ u.
                  Ends-bind _ _
                    (Ends-update _ (λ s k.
                      same_tasks env T s (check_cache_stop s).0 (check_cache_stop-registry s) k))
                    λ stop. finish_step-Ends env T _ stop

  execute_in_mode-Ends :
      (idx : ℕ) (r : Ast.Regular) (last : Bool) (mode : ExecutionMode)
      → RegularRanked env T R mode r
      → Ends (StepTasks env T) (execute_in_mode env nested idx r last mode)
  unfolding execute_in_mode spawn_async_step register
  execute_in_mode-Ends idx r last (async name) ranked =
      Ends-bind _ _
        (Ends-modify _ (λ s k.
          All-insert (TaskRanked env T) name _ s.sys.req.async_registry (ranked s.pipe.state) k))
        λ u. Ends-pure _
  execute_in_mode-Ends idx r last standard ranked =
      Ends-bind _ _ (Ends-gets _) λ v. execute_now-Ends idx r standard last v ranked refl
  execute_in_mode-Ends idx r last join_mode ranked =
      Ends-bind _ _ (Ends-gets _) λ v. execute_now-Ends idx r join_mode last v ranked refl
  execute_in_mode-Ends idx r last recursive ranked =
      Ends-bind _ _ (Ends-gets _) λ v. execute_now-Ends idx r recursive last v ranked refl

  pub execute-Ends :
      (idx : ℕ) (all : List PipelineStep) (r : Ast.Regular)
      → RegularRanked env T R (detect_execution_mode (effective_name env r) r.condition) r
      → Ends (StepTasks env T) (execute env nested idx all r)
  unfolding execute
  execute-Ends idx all r ranked = Ends-bind _ _ (Ends-gets _) λ runs.
      Ends-bind _ _ (Ends-gets _)
        λ last. Ends-if runs _ _ (execute_in_mode-Ends idx r last _ ranked) (Ends-pure _)
