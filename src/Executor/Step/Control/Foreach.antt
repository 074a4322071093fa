-- ===== src/Executor/Step/Control/Foreach.antt =====
-- What a `foreach` step does to the document that it works on.
use webpipe.Base.{ℕ, and_then, Option, none, String, some, List, [], ◌∷◌, ◌≡◌, refl, ◌∙◌, arith}
use webpipe.Base.Effect.{ok, err, pure, zoom, throw, ◌>>=◌}
use webpipe.Json.{
  Value, null, bool, number, string, object, as_array, array, Items, items, elements,
}
use webpipe.Json.Path.{get_value, set_value}
use webpipe.Json.Path.Laws.{set_value-get_value, set_value-set_value}
use webpipe.Ast.{Pipeline}
use webpipe.Executor.Context.{continue}
use webpipe.Executor.Env.{ExecutionEnv, Sys}
use webpipe.Executor.Step.{StepState, set_state}
use webpipe.Executor.Step.Control.{
  foreach_items, foreach_taken, handle_foreach_step, take_at, write_at, no_array,
}
use webpipe.Executor.Nested.{Nested}

module _ {W : Type 0} (env : ExecutionEnv W) (nested : Nested W) where
  -- The pipeline answers each item in turn, the first value for the first item, and each run starts
  -- in what the one before it has left of the request.
  pub data EachAnswered (p : Pipeline) : List Value → List Value → Sys W → Sys W → Type 0 where
    no_item : {s : Sys W} → EachAnswered p [] [] s s
    item_answered :
        {v w : Value} {vs ws : List Value} {s t u : Sys W} {content_type : String}
        {status : Option ℕ}
        → nested p v none s ≡ some (t, ok (w, content_type, status))
        → EachAnswered p vs ws t u
        → EachAnswered p (v ∷ vs) (w ∷ ws) s u

  foreach_items-EachAnswered :
      (p : Pipeline) (vs ws : List Value) (s u : Sys W)
      → EachAnswered p vs ws s u
      → foreach_items env nested p vs s ≡ some (u, ok ws)
  unfolding foreach_items pure ◌>>=◌
  foreach_items-EachAnswered p vs ws s u no_item = refl
  foreach_items-EachAnswered p (v ∷ vs) (w ∷ ws) s u (item_answered {t = t} ran more) =
      rw (ran, foreach_items-EachAnswered p vs ws t u more) refl

  written :
      (selector : String) (v : Value) (st : StepState W) (root : Value)
      → set_value st.pipe.state selector v ≡ some root
      → write_at env nested selector v st ≡ set_state root st
  unfolding write_at
  written selector v st root wrote = rw (write_at, wrote)

  write_at-sys :
      (selector : String) (v : Value) (st : StepState W)
      → (write_at env nested selector v st).sys ≡ st.sys
  unfolding write_at
  write_at-sys selector v st = ground arith

  array_taken :
      (selector : String) (p : Pipeline) (vs : Items) (ws : List Value) (st : StepState W)
      (sys : Sys W) (root : Value)
      → foreach_items env nested p (elements vs) st.sys ≡ some (sys, ok ws)
      → set_value st.pipe.state selector (array (items ws)) ≡ some root
      → foreach_taken env nested selector p (some (array vs)) st
        ≡ some (record (set_state root st) { sys = sys }, ok continue)
  unfolding foreach_taken zoom ◌>>=◌
  array_taken selector p vs ws st sys root runs wrote =
      rw (runs, written selector (array (items ws)) (record st { sys = sys }) root wrote)

  -- Where the path leads to an array and the pipeline answers each of its items, run on one after
  -- the other, the step goes on with the array replaced by the answers, the first for the first item
  -- and so on; the rest of the document and the output are as they were.
  pub foreach_replaces :
      (selector : String) (p : Pipeline) (vs : Items) (ws : List Value) (st : StepState W)
      (sys : Sys W)
      → get_value st.pipe.state selector ≡ some (array vs)
      → EachAnswered p (elements vs) ws st.sys sys
      → (st' : StepState W) × (handle_foreach_step env nested selector p st
          ≡ some (st', ok continue))
        × (get_value st'.pipe.state selector ≡ some (array (items ws)))
        × (set_value st'.pipe.state selector (array vs) ≡ some st.pipe.state)
        × (st'.sys ≡ sys)
        × (st'.output ≡ st.output)
  unfolding handle_foreach_step take_at ◌>>=◌
  foreach_replaces selector p vs ws st sys found answered =
      let runs = foreach_items-EachAnswered p (elements vs) ws st.sys sys answered in
      let (emptied, wrote, reads, undoes) =
        set_value-get_value st.pipe.state (array vs) null selector found in
      let (filled, wrote', reads', undoes') =
        set_value-get_value st.pipe.state (array vs) (array (items ws)) selector found in
      let emptied_there = written selector null st emptied wrote in
      let again =
        set_value-set_value st.pipe.state null (array (items ws)) emptied selector wrote in
      (
        record (set_state filled st) { sys = sys },
        rw (found, emptied_there)
            (array_taken selector p vs ws (set_state emptied st) sys filled runs (again ∙ wrote')),
        reads',
        undoes',
        refl,
        refl,
      )

  taken_no_array :
      (selector : String) (p : Pipeline) (q : Option Value) (st : StepState W)
      → and_then q as_array ≡ none
      → foreach_taken env nested selector p q st ≡ some (st, err (no_array env nested selector))
  unfolding foreach_taken throw
  taken_no_array selector p (some (array vs)) st h = cc
  taken_no_array selector p (some null) st h = refl
  taken_no_array selector p (some (bool b)) st h = refl
  taken_no_array selector p (some (number n)) st h = refl
  taken_no_array selector p (some (string s)) st h = refl
  taken_no_array selector p (some (object fs)) st h = refl
  taken_no_array selector p none st h = refl

  -- Where the path leads nowhere, or to a value that is no array, the step fails with an error that
  -- names the path, and runs the pipeline on nothing.
  pub foreach_rejects :
      (selector : String) (p : Pipeline) (st : StepState W)
      → and_then (get_value st.pipe.state selector) as_array ≡ none
      → (st' : StepState W) × (handle_foreach_step env nested selector p st
          ≡ some (st', err (no_array env nested selector)))
        × (st'.sys ≡ st.sys)
  unfolding handle_foreach_step take_at ◌>>=◌
  foreach_rejects selector p st no_array_there = (
    write_at env nested selector null st,
    taken_no_array selector p _ _ no_array_there,
    write_at-sys selector null st,
  )
