-- ===== src/Executor/Run/Ends/Steps.antt =====
-- Every step of a ranked pipeline ends, if the pipelines that it runs do.
use webpipe.Base.{
  String, Bool, true, false, Option, none, some, List, [], ◌∷◌, sym, All, lookup, insert, remove,
  if◌then◌else◌, ◌==◌,
}
use mathlib.Core.Path.{subst}
use webpipe.Base.Effect.{Result, ok, err}
use webpipe.Base.Effect.Ends.{
  Ends, Ended, ends_rules, Ends-pure, Ends-throw, Ends-lift, Ends-gets, Ends-modify, Ends-bind,
  Ends-update_bind, Ends-zoom, Ends-rescue, Ends-if, Ends-attempt,
}
use webpipe.Json.{Value, Fields}
use webpipe.Ast.{Pipeline, SourceLocation}
use webpipe.Executor.Error.{WebPipeError}
use webpipe.Executor.Context.{PipelineContext, Task, Profiler}
use webpipe.Executor.Env.{ExecutionEnv, Sys}
use webpipe.Executor.Resolver.{resolve_config_and_autoname}
use webpipe.Executor.Tasks.{take}
use webpipe.Executor.Nested.{Nested}
use webpipe.Executor.Step.Regular.{
  handle_recursive_pipeline, run_found, handle_standard_execution, run_middleware, task_answer,
  task_body, await, join_found, join_all, handle_join, merge_samples,
}
use webpipe.Executor.Run.Ends.{OnSome, target, CallsEnd, TaskRanked, TasksRanked}

module _ {V : Type 0} (R : String × V → Type 0) where
  All-remove : (k : String) (m : List (String × V)) → All R m → All R (remove k m)
  unfolding remove
  All-remove k [] h = tt
  All-remove k ((j, v) ∷ m) (first, rest) = dropped (j == k) (All-remove k m rest)
    where
      dropped :
          (b : Bool) → All R (remove k m) → All R (if b then remove k m else (j, v) ∷ remove k m)
      dropped true more = more
      dropped false more = (first, more)

  pub All-insert :
      (k : String) (v : V) (m : List (String × V)) → R (k, v) → All R m → All R (insert k v m)
  unfolding insert
  All-insert k v [] r h = (r, tt)
  All-insert k v ((j, w) ∷ m) r (first, rest) = put (j == k) (All-insert k v m r rest)
    where
      put :
          (b : Bool)
          → All R (insert k v m)
          → All R (if b then (k, v) ∷ m else (j, w) ∷ insert k v m)
      put true more = (r, rest)
      put false more = (first, more)

OnSome-map :
    {A : Type 0} {P Q : A → Type 0} (q : Option A) → ((a : A) → P a → Q a) → OnSome P q → OnSome Q q
OnSome-map none f h = tt
OnSome-map (some a) f h = f a h

module _ {W : Type 0} (env : ExecutionEnv W) (T : Pipeline → Type 0) where
  abbrev pub TaskOk : Task → Type 0
  TaskOk t = OnSome T (target env t.location t.name t.config t.input)

  lookup-TaskOk :
      (k : String) (m : List (String × Task))
      → All (TaskRanked env T) m
      → OnSome TaskOk (lookup k m)
  unfolding lookup
  lookup-TaskOk k [] h = tt
  lookup-TaskOk k ((j, t) ∷ m) (first, rest) = found (j == k) (lookup-TaskOk k m rest)
    where
      found :
          (b : Bool) → OnSome TaskOk (lookup k m) → OnSome TaskOk (if b then some t else lookup k m)
      found true more = first
      found false more = more

  merge_samples-keeps :
      (name : String) (o : Result WebPipeError (Value × Profiler)) (s : Sys W)
      → TasksRanked env T s
      → TasksRanked env T (merge_samples env name o s)
  unfolding merge_samples
  merge_samples-keeps name (ok (v, p)) s h = h
  merge_samples-keeps name (err e) s h = h

module _ {W : Type 0} (env : ExecutionEnv W) (T : Pipeline → Type 0) (calls : CallsEnd env) where
  abbrev CallState : Sys W × PipelineContext → Type 0
  CallState s = TasksRanked env T s.0

  call-Ends :
      (name : String) (args : List String) (config : String) (goal : Option String)
      → Ends CallState (env.services.call name args config goal)
  call-Ends name args config goal = record {
    at = λ s h.
        let (s', r, ran, same) = calls name args config goal s in
        subst (Ended CallState) (sym ran) (subst (All (TaskRanked env T)) (sym same) h);
  }

  pub run_middleware-Ends :
      (name : String) (args : List String) (config : String) (goal : Option String)
      (pipe : PipelineContext)
      → Ends (TasksRanked env T) (run_middleware env name args config goal pipe)
  unfolding handle_standard_execution
  run_middleware-Ends name args config goal pipe =
      Ends-zoom CallState _ _ _ (λ s h. h) (λ t s h k. k) (search (ends_rules, call-Ends))

module _ {W : Type 0} (env : ExecutionEnv W) (T R : Pipeline → Type 0) (calls : CallsEnd env)
    (nested : Nested W)
    (ends : (p : Pipeline) (v : Value) (h : Option String)
      → R p
      → Ends (TasksRanked env T) (nested p v h)) where
  run_found-Ends :
      (args : List String) (name : String) (v : Value) (q : Option Pipeline)
      → OnSome R q
      → Ends (TasksRanked env T) (run_found env nested args name v q)
  unfolding run_found
  run_found-Ends args name v none h = Ends-throw _
  run_found-Ends args name v (some p) h = Ends-bind _ _ (Ends-lift _) λ w. ends p w none h

  pub recursive-Ends :
      (args : List String) (name config : String) (l : SourceLocation) (v w : Value)
      → OnSome R (target env l name config v)
      → Ends (TasksRanked env T) (
          handle_recursive_pipeline env nested args
            (resolve_config_and_autoname env l name config v).0
            l
            w)
  unfolding handle_recursive_pipeline
  recursive-Ends args name config l v w h = run_found-Ends args _ w _ h

  module _ (joins : (p : Pipeline) → T p → R p) where
    task_answer-Ends :
        (t : Task)
        → TaskOk env T t
        → Ends (TasksRanked env T) (
            task_answer env nested t
              (resolve_config_and_autoname env t.location t.name t.config t.input))
    unfolding task_answer
    task_answer-Ends t h =
        Ends-if _ _ _
          (recursive-Ends t.args t.name t.config t.location t.input _ (OnSome-map _ joins h))
          (Ends-bind _ _ (run_middleware-Ends env T calls t.name t.args _ none _) λ a. Ends-pure _)

    task_body-Ends : (t : Task) → TaskOk env T t → Ends (TasksRanked env T) (task_body env nested t)
    unfolding task_body
    task_body-Ends t h =
        Ends-bind _ _ (Ends-rescue _ _ (task_answer-Ends t h) (λ e. Ends-throw _))
          λ a. Ends-bind _ _ (Ends-gets _) λ p. Ends-pure _

    await-Ends : (t : Task) → TaskOk env T t → Ends (TasksRanked env T) (await env nested t)
    unfolding await
    await-Ends t h =
        Ends-zoom (TasksRanked env T) _ _ _ (λ s k. tt) (λ t s k l. k)
          (Ends-attempt _ (task_body-Ends t h))

    join_found-Ends :
        (name : String) (fs : Fields) (q : Option Task)
        → OnSome (TaskOk env T) q
        → Ends (TasksRanked env T) (join_found env nested name fs q)
    unfolding join_found
    join_found-Ends name fs none h = Ends-pure _
    join_found-Ends name fs (some t) h =
        Ends-bind _ _ (await-Ends t h)
          λ o. Ends-bind _ _ (Ends-modify _ (merge_samples-keeps env T name o)) λ u. Ends-pure _

    join_all-Ends :
        (names : List String) (fs : Fields)
        → Ends (TasksRanked env T) (join_all env nested names fs)
    unfolding join_all take
    join_all-Ends [] fs = Ends-pure _
    join_all-Ends (name ∷ names) fs = Ends-update_bind _ _ λ s h. (
      All-remove (TaskRanked env T) name s.req.async_registry h,
      Ends-bind _ _ (join_found-Ends name fs _ (lookup-TaskOk env T name s.req.async_registry h))
          (join_all-Ends names),
    )

    pub handle_join-Ends :
        (config : String) (targets : Option (List String)) (v : Value)
        → Ends (TasksRanked env T) (handle_join env nested config targets v)
    unfolding handle_join
    handle_join-Ends config targets v =
        Ends-bind _ _ (Ends-lift _) λ names. Ends-bind _ _ (join_all-Ends names _) λ fs. Ends-pure _
