-- ===== src/Executor/Run/Stack/Regular.antt =====
-- A regular step keeps the profiler's stack, if the middleware and the pipelines that it runs do.
use webpipe.Base.{
  ℕ, String, Bool, Option, none, some, List, [], ◌∷◌, ◌++◌, ◌≡◌, refl, ap, ◌∙◌, arith,
}
use webpipe.Base.Effect.{Result, ok, err}
use webpipe.Base.Effect.Keeps.{
  Keeps, keeps_rules, Keeps-bind, Keeps-if, Keeps-gets, Keeps-zoom, Keeps-zoom_frame, Keeps-modify,
  Keeps-update, Keeps-pure, Keeps-lift, Keeps-diverge,
}
use webpipe.Json.{Value, Fields}
use webpipe.Ast
use webpipe.Ast.{Pipeline, PipelineStep, SourceLocation}
use webpipe.Executor.Error.{WebPipeError}
use webpipe.Executor.Context.{
  PipelineContext, ExecutionMode, standard, async, join_mode, recursive, StepOutcome, Task,
  Profiler, push, pop, record_sample, without_last,
}
use webpipe.Executor.Env.{ExecutionEnv, Sys}
use webpipe.Executor.Tasks.{take, register}
use webpipe.Executor.Step.{
  StepState, effective_name, raw_config, apply_result_to_state, check_cache_stop, cleanup, log_call,
}
use webpipe.Executor.Resolver.{resolve_config_and_autoname}
use webpipe.Executor.Nested.{Runs, Nested, on_sys}
use webpipe.Executor.Step.Regular.{
  handle_recursive_pipeline, run_found, handle_standard_execution, run_middleware, await,
  join_found, join_all, handle_join, merge_samples, run_core_logic, execute_now, execute_in_mode,
  execute, finish_step, log_pipeline, named_state,
}

module _ {W : Type 0} where
  abbrev pub stack : Sys W → List String
  stack sys = sys.req.profiler.stack

  abbrev pub call_stack : Sys W × PipelineContext → List String
  call_stack s = s.0.req.profiler.stack

  abbrev pub step_stack : StepState W → List String
  step_stack s = s.sys.req.profiler.stack

  -- No middleware changes the stack; none of the program's does.
  abbrev pub CallsKeepStack : ExecutionEnv W → Type 0
  CallsKeepStack env =
      (name : String) (args : List String) (config : String) (target : Option String)
      → Keeps call_stack (env.services.call name args config target)

  abbrev pub KeepsStack : Nested W → Type 0
  KeepsStack n = (p : Pipeline) (v : Value) (h : Option String) → Keeps stack (n p v h)

without_last-append : (x : String) (xs : List String) → without_last (xs ++ x ∷ []) ≡ xs
unfolding without_last
without_last-append x [] = refl
without_last-append x (y ∷ []) = refl
without_last-append x (y ∷ z ∷ r) = ap (λ l. y ∷ l) (without_last-append x (z ∷ r))

record_sample-stack : (p : Profiler) (n : ℕ) → (record_sample p n).stack ≡ p.stack
unfolding record_sample
record_sample-stack p n = ground arith

pub pop-push-stack :
    (p q : Profiler) (name : String) (n : ℕ)
    → q.stack ≡ (push p name).stack
    → (pop (record_sample q n)).stack ≡ p.stack
unfolding push pop
pop-push-stack p q name n h =
    ap without_last (record_sample-stack q n ∙ h) ∙ without_last-append name p.stack

module _ {W : Type 0} (env : ExecutionEnv W) (calls : CallsKeepStack env) where
  run_middleware-Keeps :
      (name : String) (args : List String) (config : String) (target : Option String)
      (pipe : PipelineContext)
      → Keeps stack (run_middleware env name args config target pipe)
  unfolding handle_standard_execution
  run_middleware-Keeps name args config target pipe =
      Keeps-zoom call_stack _ _ _ (λ s. refl) (λ t s. refl) (search (keeps_rules, calls))

module _ {W : Type 0} (env : ExecutionEnv W) (calls : CallsKeepStack env) (nested : Nested W)
    (keep : KeepsStack nested) where
  pub on_sys-Keeps : {A : Type 0} (m : Runs W A) → Keeps stack m → Keeps step_stack (on_sys m)
  on_sys-Keeps m k = Keeps-zoom stack _ _ m (λ s. refl) (λ t s. refl) k

  run_found-Keeps :
      (args : List String) (name : String) (v : Value) (q : Option Pipeline)
      → Keeps stack (run_found env nested args name v q)
  unfolding run_found
  run_found-Keeps args name v none = search keeps_rules
  run_found-Keeps args name v (some p) = search (keeps_rules, keep)

  recursive-Keeps :
      (args : List String) (config : String) (l : SourceLocation) (v : Value)
      → Keeps stack (handle_recursive_pipeline env nested args config l v)
  unfolding handle_recursive_pipeline
  recursive-Keeps args config l v = run_found-Keeps args _ v _

  await-Keeps : (t : Task) → Keeps stack (await env nested t)
  unfolding await
  await-Keeps t = Keeps-zoom_frame _ _ _ (λ t s. refl)

  merge_samples-stack :
      (name : String) (o : Result WebPipeError (Value × Profiler)) (s : Sys W)
      → stack (merge_samples env name o s) ≡ stack s
  unfolding merge_samples
  merge_samples-stack name (ok (v, p)) s = refl
  merge_samples-stack name (err e) s = refl

  join_found-Keeps :
      (name : String) (fs : Fields) (q : Option Task)
      → Keeps stack (join_found env nested name fs q)
  unfolding join_found
  join_found-Keeps name fs none = search keeps_rules
  join_found-Keeps name fs (some t) =
      Keeps-bind _ _ (await-Keeps t)
        λ o. Keeps-bind _ _ (Keeps-modify _ (merge_samples-stack name o)) λ _. Keeps-pure _

  join_all-Keeps : (names : List String) (fs : Fields) → Keeps stack (join_all env nested names fs)
  unfolding join_all
  join_all-Keeps [] fs = Keeps-pure _
  join_all-Keeps (name ∷ names) fs =
      Keeps-bind _ _ (Keeps-update _ (λ s. unfold take in refl))
        λ found. Keeps-bind _ _ (join_found-Keeps name fs found) (join_all-Keeps names)

  handle_join-Keeps :
      (config : String) (targets : Option (List String)) (v : Value)
      → Keeps stack (handle_join env nested config targets v)
  unfolding handle_join
  handle_join-Keeps config targets v =
      Keeps-bind _ _ (Keeps-lift _)
        λ names. Keeps-bind _ _ (join_all-Keeps names _) λ results. Keeps-pure _

  core-Keeps :
      (idx : ℕ) (r : Ast.Regular) (mode : ExecutionMode) (name config : String) (v : Value)
      (target : Option String)
      → Keeps step_stack (run_core_logic env nested idx r mode name config v target)
  unfolding run_core_logic
  core-Keeps idx r join_mode name config v target = on_sys-Keeps _ (handle_join-Keeps config _ v)
  core-Keeps idx r recursive name config v target =
      on_sys-Keeps _ (recursive-Keeps r.args config r.location v)
  core-Keeps idx r standard name config v target =
      Keeps-bind _ _ (on_sys-Keeps _ (run_middleware-Keeps env calls name r.args config target _))
        λ answer. Keeps-bind _ _ (Keeps-modify _ (λ s. refl)) λ _. Keeps-pure _
  core-Keeps idx r (async n) name config v target = Keeps-diverge

  apply-stack :
      (name : String) (v : Value) (target : Option String) (last : Bool) (s : StepState W)
      → step_stack (apply_result_to_state env name v target last s) ≡ step_stack s
  unfolding apply_result_to_state
  apply-stack name v none last s = refl
  apply-stack name v (some t) last s = ground arith

  cache_stop-stack : (s : StepState W) → step_stack (check_cache_stop s).0 ≡ step_stack s
  unfolding check_cache_stop
  cache_stop-stack s = ground arith

  cleanup-stack : (b : Bool) (s : StepState W) → step_stack (cleanup b s) ≡ step_stack s
  unfolding cleanup
  cleanup-stack b s = ground arith

  log-stack :
      (name config : String) (v : Value) (s : StepState W)
      → step_stack (log_pipeline env name config v s) ≡ step_stack s
  unfolding log_call
  log-stack name config v s = ground arith

  named-stack :
      (b : Bool) (v : Value) (s : StepState W) → step_stack (named_state env b v s) ≡ step_stack s
  named-stack b v s = ground arith

  finish_step-Keeps : (b : Bool) (o : Option StepOutcome) → Keeps step_stack (finish_step env b o)
  finish_step-Keeps b none = Keeps-bind _ _ (Keeps-modify _ (cleanup-stack b)) λ _. Keeps-pure _
  finish_step-Keeps b (some o) = Keeps-pure _

  execute_now-Keeps :
      (idx : ℕ) (r : Ast.Regular) (mode : ExecutionMode) (last : Bool) (c : String × Value × Bool)
      → Keeps step_stack (execute_now env nested idx r mode last c)
  unfolding execute_now
  execute_now-Keeps idx r mode last c = Keeps-bind _ _ (Keeps-modify _ (log-stack _ c.0 c.1)) λ _.
      Keeps-bind _ _ (Keeps-modify _ (named-stack c.2 c.1)) λ _. Keeps-bind _ _ (Keeps-gets _) λ t.
        Keeps-bind _ _ (core-Keeps idx r mode _ c.0 c.1 t.0) λ a.
          Keeps-bind _ _ (Keeps-modify _ (apply-stack _ _ t.0 last)) λ _.
            Keeps-bind _ _ (Keeps-modify _ (λ s. refl)) λ _.
              Keeps-bind _ _ (Keeps-update _ cache_stop-stack) λ stop. finish_step-Keeps t.1 stop

  execute_in_mode-Keeps :
      (idx : ℕ) (r : Ast.Regular) (last : Bool) (mode : ExecutionMode)
      → Keeps step_stack (execute_in_mode env nested idx r last mode)
  unfolding execute_in_mode
  execute_in_mode-Keeps idx r last (async name) =
      Keeps-bind _ _ (Keeps-modify _ (λ s. unfold register in refl)) λ _. Keeps-pure _
  execute_in_mode-Keeps idx r last mode = Keeps-bind _ _ (Keeps-gets _) λ v.
      execute_now-Keeps idx r mode last
        (resolve_config_and_autoname env r.location (effective_name env r) (raw_config env r) v)

  pub execute-Keeps :
      (idx : ℕ) (all : List PipelineStep) (r : Ast.Regular)
      → Keeps step_stack (execute env nested idx all r)
  unfolding execute
  execute-Keeps idx all r = Keeps-bind _ _ (Keeps-gets _) λ runs.
      Keeps-bind _ _ (Keeps-gets _)
        λ last. Keeps-if runs _ _ (execute_in_mode-Keeps idx r last _) (Keeps-pure _)
