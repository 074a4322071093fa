-- ===== src/Executor/Run/Ends/Pipelines.antt =====
-- A ranked pipeline ends, with as much fuel as its rank.
use webpipe.Base.{
  ℕ, zero, suc, ◌+◌, String, Bool, true, false, Option, none, some, List, [], ◌∷◌, ◌≡◌, refl, arith,
  All, find, or_else, if◌then◌else◌,
}
use webpipe.Base.Effect.{Result}
use webpipe.Base.Effect.Ends.{
  Ends, Ended-some, Ends-pure, Ends-throw, Ends-gets, Ends-update, Ends-bind, Ends-gets_bind,
  Ends-zoom, Ends-rescue, Ends-if, Ends-finally,
}
use webpipe.Json.{Value, null, array}
use webpipe.Ast
use webpipe.Ast.{
  Pipeline, PipelineStep, regular, result, if_else, dispatch, foreach, steps, ResultBranch,
  DispatchBranch, result_branches, dispatch_branches, optional,
}
use webpipe.Executor.Error.{WebPipeError}
use webpipe.Executor.Context.{StepOutcome, continue, return}
use webpipe.Executor.Env.{ExecutionEnv, Sys, truthy}
use webpipe.Executor.Resolver.{select_branch}
use webpipe.Executor.Step.{StepState}
use webpipe.Executor.Nested.{Answer, Steps, Nested}
use webpipe.Executor.Step.Control.{
  execute_branch, execute_optional, foreach_items, foreach_taken, write_at, run_branch,
  matched_pipeline, chosen,
}
use webpipe.Executor.Run.{
  dispatch_step, execute_step, failed_as, finish, proceed, still_handled, run_steps, pipeline_once,
  execute_pipeline,
}
use webpipe.Executor.Run.Ends.{OnSome, CallsEnd, StepRanked, Ranked, TasksRanked}
use webpipe.Executor.Run.Ends.Regular.{
  StepTasks, same_tasks, Ends-unregistered, on_sys-Ends, execute-Ends,
}

find-OnSome :
    {A : Type 0} (P : A → Type 0) (p : A → Bool) (l : List A) → All P l → OnSome P (find p l)
find-OnSome P p [] h = tt
find-OnSome P p (a ∷ l) (first, rest) = found (p a) (find-OnSome P p l rest)
  where
    found : (b : Bool) → OnSome P (find p l) → OnSome P (if b then some a else find p l)
    found true more = first
    found false more = more

or_else-OnSome :
    {A : Type 0} (P : A → Type 0) (q r : Option A)
    → OnSome P q
    → OnSome P r
    → OnSome P (or_else q r)
or_else-OnSome P none r hq hr = hr
or_else-OnSome P (some a) r hq hr = hq

select_branch-OnSome :
    (P : ResultBranch → Type 0) (bs : List ResultBranch) (e : Option String)
    → All P bs
    → OnSome P (select_branch bs e)
unfolding select_branch
select_branch-OnSome P bs none h =
    or_else-OnSome P _ _ (find-OnSome P _ bs h) (find-OnSome P _ bs h)
select_branch-OnSome P bs (some e) h =
    or_else-OnSome P _ _ (find-OnSome P _ bs h) (find-OnSome P _ bs h)

module _ {W : Type 0} (env : ExecutionEnv W) (T R : Pipeline → Type 0) (calls : CallsEnd env)
    (nested : Nested W)
    (ends : (p : Pipeline) (v : Value) (h : Option String)
      → R p
      → Ends (TasksRanked env T) (nested p v h)) where
  branch-Ends : (p : Pipeline) → R p → Ends (StepTasks env T) (execute_branch env nested p)
  unfolding execute_branch
  branch-Ends p h = Ends-bind _ _ (Ends-update _ (λ s k. k)) λ v.
      Ends-bind _ _ (on_sys-Ends env T _ (ends p v none h))
        λ a. Ends-unregistered env T _ (λ s. refl)

  optional-Ends :
      (q : Option Pipeline) → OnSome R q → Ends (StepTasks env T) (execute_optional env nested q)
  unfolding execute_optional
  optional-Ends none h = Ends-pure _
  optional-Ends (some p) h = branch-Ends p h

  if-OnSome :
      (b : Bool) (q r : Option Pipeline) → OnSome R q → OnSome R r → OnSome R (if b then q else r)
  if-OnSome true q r hq hr = hq
  if-OnSome false q r hq hr = hr

  chosen-OnSome :
      (default : Option Pipeline) (q : Option DispatchBranch)
      → OnSome R default
      → OnSome (λ b. R b.pipeline) q
      → OnSome R (chosen env nested default q)
  chosen-OnSome default none hd hq = hd
  chosen-OnSome default (some b) hd hq = hq

  foreach_items-Ends :
      (p : Pipeline) (vs : List Value)
      → R p
      → Ends (TasksRanked env T) (foreach_items env nested p vs)
  unfolding foreach_items
  foreach_items-Ends p [] h = Ends-pure _
  foreach_items-Ends p (v ∷ vs) h =
      Ends-bind _ _ (ends p v none h)
        λ a. Ends-bind _ _ (foreach_items-Ends p vs h) λ values. Ends-pure _

  write_at-registry :
      (selector : String) (v : Value) (s : StepState W)
      → (write_at env nested selector v s).sys.req.async_registry ≡ s.sys.req.async_registry
  unfolding write_at
  write_at-registry selector v s = ground arith

  foreach_taken-Ends :
      (selector : String) (p : Pipeline) (q : Option Value)
      → R p
      → Ends (StepTasks env T) (foreach_taken env nested selector p q)
  unfolding foreach_taken
  foreach_taken-Ends selector p (some (array vs)) h =
      Ends-bind _ _ (on_sys-Ends env T _ (foreach_items-Ends p _ h)) λ values.
        Ends-bind _ _ (Ends-unregistered env T _ (write_at-registry selector _)) λ u. Ends-pure _
  foreach_taken-Ends selector p _ h = Ends-throw _

  run_branch-Ends :
      (q : Option ResultBranch)
      → OnSome (λ b. R b.pipeline) q
      → Ends (StepTasks env T) (run_branch env nested q)
  unfolding run_branch
  run_branch-Ends none h = Ends-bind _ _ (Ends-gets _) λ o. Ends-pure _
  run_branch-Ends (some b) h = Ends-bind _ _ (Ends-update _ (λ s k. k)) λ v.
      Ends-bind _ _ (on_sys-Ends env T _ (ends b.pipeline v _ h)) λ a.
        Ends-bind _ _ (Ends-unregistered env T _ (λ s. refl))
          λ u. Ends-bind _ _ (Ends-gets _) λ out. Ends-pure _

  failed_as-Ends :
      (r : Ast.Regular) (e : WebPipeError) (q : Option (String × Option String))
      → Ends (StepTasks env T) (failed_as env r e q)
  unfolding failed_as
  failed_as-Ends r e none = Ends-throw _
  failed_as-Ends r e (some m) =
      Ends-bind _ _ (Ends-unregistered env T _ (λ s. refl)) λ u. Ends-pure _

  dispatch_step-Ends :
      (idx : ℕ) (all : List PipelineStep) (s : PipelineStep)
      → StepRanked env T R s
      → Ends (StepTasks env T) (dispatch_step env nested idx all s)
  unfolding dispatch_step matched_pipeline
  dispatch_step-Ends idx all (regular r) ranked =
      Ends-rescue _ _ (execute-Ends env T R calls nested ends idx all r ranked)
        λ e. failed_as-Ends r _ _
  dispatch_step-Ends idx all (result branches l) ranked = Ends-gets_bind _ _ λ s k.
      run_branch-Ends _
        (select_branch-OnSome (λ b. R b.pipeline) (result_branches branches) _ ranked)
  dispatch_step-Ends idx all (if_else c t e l) (rc, rt, re) = Ends-bind _ _ (Ends-gets _) λ v.
      Ends-bind _ _ (on_sys-Ends env T _ (ends c v none rc)) λ a.
        Ends-bind _ _ (optional-Ends _ (if-OnSome (truthy a.0) (some t) (optional e) rt re))
          λ u. Ends-pure _
  dispatch_step-Ends idx all (dispatch bs d l) (rb, rd) = Ends-gets_bind _ _ λ s k.
      Ends-bind _ _
        (optional-Ends _ (
          chosen-OnSome (optional d) _ rd
            (find-OnSome (λ b. R b.pipeline) _ (dispatch_branches bs) rb)))
        λ u. Ends-pure _
  dispatch_step-Ends idx all (foreach selector p l) ranked =
      Ends-bind _ _
        (Ends-update _ (λ s k.
          same_tasks env T s (write_at env nested selector null s)
            (write_at-registry selector null s) k))
        λ q. foreach_taken-Ends selector p q ranked

  execute_step-Ends :
      (idx : ℕ) (all : List PipelineStep) (s : PipelineStep)
      → StepRanked env T R s
      → Ends (StepTasks env T) (execute_step env nested idx all s)
  unfolding execute_step
  execute_step-Ends idx all s ranked = Ends-bind _ _ (Ends-unregistered env T _ (λ t. refl)) λ u.
      Ends-bind _ _ (Ends-gets _)
        λ start. Ends-finally _ _ (dispatch_step-Ends idx all s ranked) (λ t k. k)

  proceed-Ends :
      (m : Steps W Answer) (o : StepOutcome)
      → Ends (StepTasks env T) m
      → Ends (StepTasks env T) (proceed env m o)
  unfolding proceed finish
  proceed-Ends m continue h = h
  proceed-Ends m (return out) h =
      Ends-bind _ _ (Ends-unregistered env T _ (λ s. refl)) λ u. Ends-pure _

  run_steps-Ends :
      (all : List PipelineStep) (idx : ℕ) (ss : List PipelineStep) (h : Option String)
      → All (StepRanked env T R) ss
      → Ends (StepTasks env T) (run_steps env nested all idx ss h)
  unfolding run_steps finish
  run_steps-Ends all idx [] h ranked =
      Ends-bind _ _ (Ends-gets _)
        λ out. Ends-bind _ _ (Ends-unregistered env T _ (λ s. refl)) λ u. Ends-pure _
  run_steps-Ends all idx (s ∷ ss) h (first, more) = Ends-bind _ _ (Ends-gets _) λ current.
      let rest = run_steps-Ends all (idx + 1) ss (still_handled h current) more in
      Ends-if _ _ _ rest
        (Ends-bind _ _ (execute_step-Ends idx all s first) (λ o. proceed-Ends _ o rest))

  once-Ends :
      (p : Pipeline) (v : Value) (h : Option String)
      → All (StepRanked env T R) (steps p)
      → Ends (TasksRanked env T) (pipeline_once env nested p v h)
  unfolding pipeline_once
  once-Ends p v h ranked =
      Ends-zoom (StepTasks env T) _ _ _ (λ s k. k) (λ t s k l. l) (run_steps-Ends _ 0 _ h ranked)

fuel-Ends :
    {W : Type 0} (env : ExecutionEnv W) (T : Pipeline → Type 0)
    → CallsEnd env
    → (n : ℕ) (p : Pipeline) (v : Value) (h : Option String) → Ranked env T n p
    → Ends (TasksRanked env T) (execute_pipeline env n p v h)
unfolding execute_pipeline Ranked
fuel-Ends env T calls zero p v h ranked = absurd ranked
fuel-Ends env T calls (suc n) p v h ranked =
    once-Ends env T (Ranked env T n) calls (execute_pipeline env n) (fuel-Ends env T calls n) p v h
      ranked

-- A pipeline that calls pipelines to a depth below `n` only, the ones named by its steps and, at each
-- `join`, the ones that tasks may run, ends with `n` as fuel: with an answer or with an error. The
-- middleware must end and leave the registered tasks as they are, and the tasks that are registered
-- at the start must run no pipelines but those that tasks may run.
pub execute_pipeline_ends :
    {W : Type 0} (env : ExecutionEnv W) (T : Pipeline → Type 0) (n : ℕ) (p : Pipeline) (v : Value)
    (handled : Option String) (s : Sys W)
    → CallsEnd env
    → Ranked env T n p
    → TasksRanked env T s
    → (s' : Sys W) × (r : Result WebPipeError Answer) × (execute_pipeline env n p v handled s
        ≡ some (s', r))
execute_pipeline_ends env T n p v handled s calls ranked tasks =
    Ended-some (TasksRanked env T) _ ((fuel-Ends env T calls n p v handled ranked).at s tasks)
